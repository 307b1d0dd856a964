-- ===== src/Text.antt =====
-- The operations of Rust's `str` and `String` that the program calls, on byte strings.
pub mod Utf8
pub mod Ascii
pub mod Chars
pub mod Decimal
use Prim.Native.Char.{code}
use Prim.Native.String
use rustkv_lab.Prelude.{String, [], ◌∷◌, Bytes}

-- The code points of a literal: its bytes, since every literal here is ASCII.
abbrev pub codes : String → Bytes
codes String.[] = []
codes (String.◌∷◌ c s) = code c ∷ codes s
