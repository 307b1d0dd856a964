-- ===== src/Server/Config.antt =====
-- `ServerConfig` of `server.rs`. An error is its message.
use rustkv_lab.Prelude.{
  ℕ, ◌*◌, Bool, true, false, ◌||◌, ◌&&◌, Option, none, [], ◌∷◌, Bytes, leb, ◌==◌, if◌then◌else◌,
  Result, ok, err, ◌>>◌, ◌≡◌, refl,
}
use rustkv_lab.Text.{codes}
use rustkv_lab.Core.Time.{from_millis}
use rustkv_lab.Core.Sharded.{default_shard_count}

pub record ServerConfig : Type 0 where
  pub addr : Bytes
  pub aof_path : Option Bytes
  pub max_frame_size : ℕ
  pub ttl_interval : ℕ
  pub shard_count : ℕ
  pub aof_rewrite_interval : ℕ
  pub aof_rewrite_min_size : ℕ

abbrev is_ascii_space : ℕ → Bool
is_ascii_space b = b == 0x20 || (leb 0x09 b && leb b 0x0d)

-- White space of two bytes, U+0085 and U+00A0.
abbrev is_space_2 : ℕ → ℕ → Bool
is_space_2 a b = a == 0xc2 && (b == 0x85 || b == 0xa0)

-- White space of three bytes: U+1680, U+2000 to U+200A, U+2028, U+2029, U+202F, U+205F and U+3000.
abbrev is_space_3 : ℕ → ℕ → ℕ → Bool
is_space_3 a b c =
    (a == 0xe1 && b == 0x9a && c == 0x80)
    || (a == 0xe2 && b == 0x80 && (leb 0x80 c && leb c 0x8a || c == 0xa8 || c == 0xa9 || c == 0xaf))
    || (a == 0xe2 && b == 0x81 && c == 0x9f)
    || (a == 0xe3 && b == 0x80 && c == 0x80)

-- `trim().is_empty()`: nothing but white space.
unfoldable pub is_blank : Bytes → Bool
is_blank [] = true
is_blank (a ∷ []) = is_ascii_space a
is_blank (a ∷ b ∷ []) = if is_ascii_space a then is_ascii_space b else is_space_2 a b
is_blank (a ∷ b ∷ c ∷ s) =
    let after_one = is_blank (b ∷ c ∷ s) in
    let after_two = is_blank (c ∷ s) in
    let after_three = is_blank s in
    if is_ascii_space a
    then after_one
    else if is_space_2 a b
    then after_two
    else if is_space_3 a b c
    then after_three
    else false

abbrev reject_if : Bool → Bytes → Result Bytes (Unit {0})
reject_if bad message = if bad then err message else ok tt

unfoldable pub validate : ServerConfig → Result Bytes (Unit {0})
unfolding is_blank
validate c =
    reject_if (is_blank c.addr) (codes "server address must not be empty")
    >> reject_if (c.max_frame_size == 0) (codes "max frame size must be greater than 0")
    >> reject_if (c.ttl_interval == 0) (codes "TTL interval must be greater than 0")
    >> reject_if (c.shard_count == 0) (codes "shard count must be greater than 0")
    >> reject_if (c.aof_rewrite_interval == 0) (codes "AOF rewrite interval must be greater than 0")
    >> reject_if (c.aof_rewrite_min_size == 0)
        (codes "AOF rewrite minimum size must be greater than 0")

-- `Default`
unfoldable pub default_config : ServerConfig
default_config = record {
  addr = codes "127.0.0.1:6379";
  aof_path = none;
  max_frame_size = 1024 * 1024;
  ttl_interval = from_millis 1000;
  shard_count = default_shard_count;
  aof_rewrite_interval = from_millis 60000;
  aof_rewrite_min_size = 1024 * 1024;
}

default_config_samples :
    (validate default_config ≡ ok tt)
    × (validate (record default_config { addr = 0x20 ∷ 0xe2 ∷ 0x80 ∷ 0x83 ∷ [] })
        ≡ err (codes "server address must not be empty"))
    × (validate (record default_config { shard_count = 0 })
        ≡ err (codes "shard count must be greater than 0"))
unfolding validate default_config
default_config_samples = (refl, refl, refl)
