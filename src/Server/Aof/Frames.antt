-- ===== src/Server/Aof/Frames.antt =====
-- The frame of a logged command is read back as the command's absolute form.
use rustkv_lab.Prelude.{
  ℕ, ◌^◌, ◌<◌, ◌≡◌, refl, ap, true, Option, none, some, List, [], ◌∷◌, ◌++◌, map, arith, Bytes,
  length, ok, All,
}
use rustkv_lab.Text.{codes}
use rustkv_lab.Text.Utf8.{is_utf8, is_utf8_of_ascii}
use rustkv_lab.Text.Decimal.{to_string}
use rustkv_lab.Text.Decimal.RoundTrip.{parse_u64-to_string, to_string-IsAscii}
use rustkv_lab.Protocol.Resp.{RespFrame, bulk_string, array, from_list}
use rustkv_lab.Protocol.Parser
use rustkv_lab.Protocol.Parser.{parse_resp}
use rustkv_lab.Protocol.Parser.RoundTrip.{AreWire, message_limit, parse_resp-encode_resp}
use rustkv_lab.Core.Time.{from_secs}
use rustkv_lab.Core.Command
use rustkv_lab.Core.Command.{
  Command, arg_to_str, parse_u64_arg, collect_args, collect_keys, from_args, from_resp,
}
use rustkv_lab.Server.Aof.{
  expire_at_ms_from_now, encoded, encode_args, args_of, command_to_resp_bytes,
}

-- What a log can hold of a command: times relative to now are made absolute.
abbrev pub absolute : Option ℕ → Command → Command
absolute unix (Command.set key value (some duration)) =
    Command.set_px_at key value (expire_at_ms_from_now unix duration)
absolute unix (Command.expire key seconds) =
    Command.expire_at key (expire_at_ms_from_now unix (from_secs seconds))
absolute unix cmd = cmd

abbrev pub AreUtf8 : List Bytes → Type 0
AreUtf8 = All (λ k. is_utf8 k ≡ true)

-- What the types of the program grant: keys are strings, and times are of 64 bits. `DEL` without
-- keys is no command that the server reads.
abbrev pub IsProper : Command → Type 0
IsProper (Command.set key value expire) = is_utf8 key ≡ true
IsProper (Command.set_px_at key value ts) = (is_utf8 key ≡ true) × (ts < 2 ^ 64)
IsProper (Command.del []) = ⊥
IsProper (Command.del (key ∷ ks)) = AreUtf8 (key ∷ ks)
IsProper (Command.expire key seconds) = is_utf8 key ≡ true
IsProper (Command.expire_at key ts) = (is_utf8 key ≡ true) × (ts < 2 ^ 64)
IsProper cmd = Unit

collect_args-bulk : (args : List Bytes) → collect_args (from_list (map bulk_string args)) ≡ ok args
unfolding collect_args
collect_args-bulk [] = refl
collect_args-bulk (a ∷ args) = rw (collect_args-bulk args)

AreWire-bulk : (args : List Bytes) → AreWire (from_list (map bulk_string args))
AreWire-bulk [] = tt
AreWire-bulk (a ∷ args) = (tt, AreWire-bulk args)

collect_keys-utf8 : (ks : List Bytes) → AreUtf8 ks → collect_keys ks ≡ ok ks
unfolding collect_keys arg_to_str
collect_keys-utf8 [] h = refl
collect_keys-utf8 (k ∷ ks) h = rw (h.0, collect_keys-utf8 ks h.1)

pub parse_u64_arg-to_string :
    (n : ℕ) (label : Bytes) → n < 2 ^ 64 → parse_u64_arg (to_string n) label ≡ ok n
unfolding parse_u64_arg arg_to_str
parse_u64_arg-to_string n label h =
    rw (is_utf8_of_ascii (to_string n) (to_string-IsAscii n), parse_u64-to_string n h)

expire_at_ms_from_now-lt : (unix : Option ℕ) (d : ℕ) → expire_at_ms_from_now unix d < 2 ^ 64
unfolding expire_at_ms_from_now
expire_at_ms_from_now-lt none d = omega arith
expire_at_ms_from_now-lt (some now) d = omega arith

set_px_at-args :
    (key value : Bytes) (ts : ℕ)
    → is_utf8 key ≡ true
    → ts < 2 ^ 64
    → from_args (codes "SET" ∷ key ∷ value ∷ codes "PXAT" ∷ to_string ts ∷ [])
      ≡ ok (Command.set_px_at key value ts)
unfolding from_args Command.parse_named Command.parse_set arg_to_str
set_px_at-args key value ts u h = rw (u, parse_u64_arg-to_string ts _ h)

expire_at-args :
    (key : Bytes) (ts : ℕ)
    → is_utf8 key ≡ true
    → ts < 2 ^ 64
    → from_args (codes "EXPIREAT" ∷ key ∷ to_string ts ∷ []) ≡ ok (Command.expire_at key ts)
unfolding from_args Command.parse_named Command.parse_expire_at arg_to_str
expire_at-args key ts u h = rw (u, parse_u64_arg-to_string ts _ h)

pub set-args :
    (key value : Bytes)
    → is_utf8 key ≡ true
    → from_args (codes "SET" ∷ key ∷ value ∷ []) ≡ ok (Command.set key value none)
unfolding from_args Command.parse_named Command.parse_set arg_to_str
set-args key value u = rw u

pub del-args :
    (key : Bytes) (ks : List Bytes)
    → AreUtf8 (key ∷ ks)
    → from_args (codes "DEL" ∷ key ∷ ks) ≡ ok (Command.del (key ∷ ks))
unfolding from_args Command.parse_named Command.parse_del arg_to_str
del-args key ks h = rw (collect_keys-utf8 (key ∷ ks) h)

pub flushdb-args : from_args (codes "FLUSHDB" ∷ []) ≡ ok Command.flush_db
unfolding from_args Command.parse_named Command.parse_flushdb arg_to_str
flushdb-args = refl

abbrev ReadsAs : Command → Option (List Bytes) → Type 0
ReadsAs cmd none = Unit
ReadsAs cmd (some args) = from_args args ≡ ok cmd

args_of-ReadsAs :
    (unix : Option ℕ) (cmd : Command)
    → IsProper cmd
    → ReadsAs (absolute unix cmd) (args_of unix cmd)
unfolding args_of
args_of-ReadsAs unix (Command.set key value none) p = set-args key value p
args_of-ReadsAs unix (Command.set key value (some d)) p =
    set_px_at-args key value _ p (expire_at_ms_from_now-lt unix d)
args_of-ReadsAs unix (Command.set_px_at key value ts) p = set_px_at-args key value ts p.0 p.1
args_of-ReadsAs unix (Command.del []) p = elim p [ ]
args_of-ReadsAs unix (Command.del (key ∷ ks)) p = del-args key ks p
args_of-ReadsAs unix (Command.expire key seconds) p =
    expire_at-args key _ p (expire_at_ms_from_now-lt unix (from_secs seconds))
args_of-ReadsAs unix (Command.expire_at key ts) p = expire_at-args key ts p.0 p.1
args_of-ReadsAs unix Command.flush_db p = flushdb-args
args_of-ReadsAs unix Command.ping p = tt
args_of-ReadsAs unix (Command.get key) p = tt
args_of-ReadsAs unix (Command.exists key) p = tt
args_of-ReadsAs unix Command.keys p = tt
args_of-ReadsAs unix (Command.ttl key) p = tt
args_of-ReadsAs unix Command.info p = tt
args_of-ReadsAs unix (Command.unknown name) p = tt

-- What the parser and the decoder make of a log that begins with the frame of a command.
abbrev pub ReadsBack : Command → Bytes → Bytes → Type 0
ReadsBack cmd frame rest =
    (v : RespFrame) × (parse_resp (frame ++ rest) ≡ Parser.ok (v, length frame))
    × (from_resp v ≡ ok cmd)

pub frame_back :
    (cmd : Command) (args : List Bytes) (rest : Bytes)
    → from_args args ≡ ok cmd
    → length (encode_args args) < message_limit
    → ReadsBack cmd (encode_args args) rest
unfolding encode_args
frame_back cmd args rest e fits = (
  array (from_list (map bulk_string args)),
  parse_resp-encode_resp _ rest (AreWire-bulk args) fits,
  unfold from_resp Command.resp_to_args in (rw (collect_args-bulk args) e),
)

frame_of :
    (cmd : Command) (o : Option (List Bytes)) (frame rest : Bytes)
    → ReadsAs cmd o
    → encoded o ≡ some frame
    → length frame < message_limit
    → ReadsBack cmd frame rest
frame_of cmd none frame rest r e fits = absurd (ground (arith, e))
frame_of cmd (some args) frame rest r e fits =
    let same : encode_args args ≡ frame = ground (arith, e) in
    rw (← same) (frame_back cmd args rest r (omega (arith, ap length same)))

-- The frame of a logged command, in front of any rest, is read back as the command with its times
-- made absolute, and exactly its bytes are consumed. The command's keys are UTF-8, its times are of
-- 64 bits, and the frame is below 2^59 bytes.
pub command_to_resp_bytes-ReadsBack :
    (unix : Option ℕ) (cmd : Command) (frame rest : Bytes)
    → IsProper cmd
    → command_to_resp_bytes unix cmd ≡ some frame
    → length frame < message_limit
    → ReadsBack (absolute unix cmd) frame rest
unfolding command_to_resp_bytes
command_to_resp_bytes-ReadsBack unix cmd frame rest p e =
    frame_of (absolute unix cmd) (args_of unix cmd) frame rest (args_of-ReadsAs unix cmd p) e
