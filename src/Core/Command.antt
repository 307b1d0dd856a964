-- ===== src/Core/Command.antt =====
-- `command.rs`: commands, and how a RESP frame is read as one.
use rustkv_lab.Prelude.{
  ℕ, ◌-◌, Option, none, some, List, [], ◌∷◌, ◌++◌, Bytes, bytes_eq, ◌==◌, if◌then◌else◌, length, ok,
  err, ◌>>=◌, ◌>>◌,
}
use rustkv_lab.Text.{codes}
use rustkv_lab.Text.Utf8.{is_utf8}
use rustkv_lab.Text.Ascii.{to_ascii_uppercase, split_ascii_whitespace}
use rustkv_lab.Text.Decimal.{to_string, parse_u64}
use rustkv_lab.Protocol.Resp.{RespFrame, RespValues, simple_string, bulk_string, array, nil, cons}
use rustkv_lab.Core.Error.{KvResult, invalid_command}
use rustkv_lab.Core.Time.{from_secs, from_millis}

pub data Command : Type 0 where
  ping : Command
  set : Bytes → Bytes → Option ℕ → Command
  set_px_at : Bytes → Bytes → ℕ → Command
  get : Bytes → Command
  del : List Bytes → Command
  exists : Bytes → Command
  keys : Command
  expire : Bytes → ℕ → Command
  expire_at : Bytes → ℕ → Command
  ttl : Bytes → Command
  flush_db : Command
  info : Command
  unknown : Bytes → Command

abbrev pub invalid {ℓ} : {A : Type ℓ} → Bytes → KvResult A
invalid message = err (invalid_command message)

unfoldable pub arg_to_str : Bytes → Bytes → KvResult Bytes
unfolding is_utf8
arg_to_str arg label = if is_utf8 arg then ok arg else invalid (label ++ codes " must be UTF-8")

abbrev pub integer_or_invalid : Bytes → Option ℕ → KvResult ℕ
integer_or_invalid label none = invalid (label ++ codes " must be a non-negative integer")
integer_or_invalid label (some n) = ok n

unfoldable pub parse_u64_arg : Bytes → Bytes → KvResult ℕ
unfolding arg_to_str parse_u64
parse_u64_arg arg label = do text ← arg_to_str arg label; integer_or_invalid label (parse_u64 text)

unfoldable pub expect_arity : List Bytes → ℕ → Bytes → KvResult (Unit {0})
unfolding to_string
expect_arity args expected command =
    if length args == expected
    then ok tt
    else invalid (
        command
        ++ codes " expects "
        ++ to_string (expected - 1)
        ++ codes " argument(s), got "
        ++ to_string (length args - 1))

-- `args[1]` and `args[2]`, of argument lists that are long enough.
abbrev pub second : List Bytes → Bytes
second (name ∷ arg ∷ rest) = arg
second args = []

abbrev pub third : List Bytes → Bytes
third (name ∷ arg ∷ arg' ∷ rest) = arg'
third args = []

unfoldable pub parse_ping : List Bytes → KvResult Command
unfolding expect_arity
parse_ping args = do expect_arity args 1 (codes "PING"); ok ping

abbrev pub set_expiring : Bytes → Bytes → Bytes → ℕ → KvResult Command
set_expiring key value option amount =
    if bytes_eq option (codes "EX")
    then ok (set key value (some (from_secs amount)))
    else if bytes_eq option (codes "PX")
    then ok (set key value (some (from_millis amount)))
    else if bytes_eq option (codes "PXAT")
    then ok (set_px_at key value amount)
    else invalid (codes "unsupported SET expire option: " ++ option)

-- The tests on `args.len()` are the patterns.
unfoldable pub parse_set : List Bytes → KvResult Command
unfolding arg_to_str parse_u64_arg to_ascii_uppercase bytes_eq
parse_set (name ∷ key ∷ value ∷ []) = do k ← arg_to_str key (codes "SET key"); ok (set k value none)
parse_set (name ∷ key ∷ value ∷ option ∷ amount ∷ []) = do
  k ← arg_to_str key (codes "SET key")
  o ← arg_to_str option (codes "SET expire option")
  n ← parse_u64_arg amount (codes "SET expire duration")
  set_expiring k value (to_ascii_uppercase o) n
parse_set _ = invalid (codes "SET expects key value or key value EX|PX duration")

unfoldable pub parse_get : List Bytes → KvResult Command
unfolding expect_arity arg_to_str
parse_get args = do
  expect_arity args 2 (codes "GET")
  key ← arg_to_str (second args) (codes "GET key")
  ok (get key)

unfoldable pub collect_keys : List Bytes → KvResult (List Bytes)
unfolding arg_to_str
collect_keys [] = ok []
collect_keys (arg ∷ args) =
    arg_to_str arg (codes "DEL key") >>= λ key. collect_keys args >>= λ keys. ok (key ∷ keys)

unfoldable pub parse_del : List Bytes → KvResult Command
unfolding collect_keys
parse_del (name ∷ arg ∷ args) = do ks ← collect_keys (arg ∷ args); ok (del ks)
parse_del _ = invalid (codes "DEL expects at least one key")

unfoldable pub parse_exists : List Bytes → KvResult Command
unfolding expect_arity arg_to_str
parse_exists args = do
  expect_arity args 2 (codes "EXISTS")
  key ← arg_to_str (second args) (codes "EXISTS key")
  ok (exists key)

abbrev keys_usage : KvResult Command
keys_usage = invalid (codes "KEYS supports only zero arguments or '*'")

unfoldable pub parse_keys : List Bytes → KvResult Command
unfolding bytes_eq
parse_keys (name ∷ []) = ok keys
parse_keys (name ∷ arg ∷ []) = if bytes_eq arg (codes "*") then ok keys else keys_usage
parse_keys _ = keys_usage

unfoldable pub parse_expire : List Bytes → KvResult Command
unfolding expect_arity arg_to_str parse_u64_arg
parse_expire args = do
  expect_arity args 3 (codes "EXPIRE")
  key ← arg_to_str (second args) (codes "EXPIRE key")
  seconds ← parse_u64_arg (third args) (codes "EXPIRE seconds")
  ok (expire key seconds)

unfoldable pub parse_expire_at : List Bytes → KvResult Command
unfolding expect_arity arg_to_str parse_u64_arg
parse_expire_at args = do
  expect_arity args 3 (codes "EXPIREAT")
  key ← arg_to_str (second args) (codes "EXPIREAT key")
  timestamp_ms ← parse_u64_arg (third args) (codes "EXPIREAT timestamp_ms")
  ok (expire_at key timestamp_ms)

unfoldable pub parse_ttl : List Bytes → KvResult Command
unfolding expect_arity arg_to_str
parse_ttl args = do
  expect_arity args 2 (codes "TTL")
  key ← arg_to_str (second args) (codes "TTL key")
  ok (ttl key)

unfoldable pub parse_flushdb : List Bytes → KvResult Command
unfolding expect_arity
parse_flushdb args = do expect_arity args 1 (codes "FLUSHDB"); ok flush_db

unfoldable pub parse_info : List Bytes → KvResult Command
unfolding expect_arity
parse_info args = do expect_arity args 1 (codes "INFO"); ok info

unfoldable pub inline_line_to_args : Bytes → KvResult (List Bytes)
unfolding split_ascii_whitespace
inline_line_to_args line =
    let args = split_ascii_whitespace line in
    elim args [
      | [] ↦ invalid (codes "inline command must not be empty")
      | arg ∷ rest ↦ ok (arg ∷ rest)
    ]

unfoldable pub resp_value_to_arg : RespFrame → KvResult Bytes
resp_value_to_arg (simple_string text) = ok text
resp_value_to_arg (bulk_string bytes) = ok bytes
resp_value_to_arg _ = invalid (codes "command arguments must be simple strings or bulk strings")

unfoldable pub collect_args : RespValues → KvResult (List Bytes)
unfolding resp_value_to_arg
collect_args nil = ok []
collect_args (cons v vs) =
    resp_value_to_arg v >>= λ arg. collect_args vs >>= λ args. ok (arg ∷ args)

unfoldable pub resp_to_args : RespFrame → KvResult (List Bytes)
unfolding collect_args inline_line_to_args is_utf8
resp_to_args (array values) = collect_args values
resp_to_args (simple_string line) = inline_line_to_args line
resp_to_args (bulk_string bytes) =
    if is_utf8 bytes
    then inline_line_to_args bytes
    else invalid (codes "inline command must be UTF-8")
resp_to_args _ = invalid (codes "command must be a RESP array or inline string")

-- The `match` on the command's name, in upper case.
unfoldable pub parse_named : Bytes → Bytes → List Bytes → KvResult Command
unfolding parse_ping parse_set parse_get parse_del parse_exists parse_keys parse_expire
    parse_expire_at parse_ttl parse_flushdb parse_info bytes_eq
parse_named normalized command_name args =
    if bytes_eq normalized (codes "PING")
    then parse_ping args
    else if bytes_eq normalized (codes "SET")
    then parse_set args
    else if bytes_eq normalized (codes "GET")
    then parse_get args
    else if bytes_eq normalized (codes "DEL")
    then parse_del args
    else if bytes_eq normalized (codes "EXISTS")
    then parse_exists args
    else if bytes_eq normalized (codes "KEYS")
    then parse_keys args
    else if bytes_eq normalized (codes "EXPIRE")
    then parse_expire args
    else if bytes_eq normalized (codes "EXPIREAT")
    then parse_expire_at args
    else if bytes_eq normalized (codes "TTL")
    then parse_ttl args
    else if bytes_eq normalized (codes "FLUSHDB")
    then parse_flushdb args
    else if bytes_eq normalized (codes "INFO")
    then parse_info args
    else ok (unknown command_name)

unfoldable pub from_args : List Bytes → KvResult Command
unfolding arg_to_str to_ascii_uppercase parse_named
from_args [] = invalid (codes "command array must not be empty")
from_args (name ∷ args) = do
  command_name ← arg_to_str name (codes "command")
  parse_named (to_ascii_uppercase command_name) command_name (name ∷ args)

-- `Command::from_resp`
unfoldable pub from_resp : RespFrame → KvResult Command
unfolding resp_to_args from_args
from_resp resp = resp_to_args resp >>= from_args
