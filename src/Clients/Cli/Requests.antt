-- ===== src/Clients/Cli/Requests.antt =====
-- What the server makes of the request that a subcommand sends.
use rustkv_lab.Prelude.{
  ℕ, ◌^◌, ◌<◌, ◌≡◌, refl, subst, true, none, some, List, [], ◌∷◌, Bytes, length, Result, ok, err,
}
use rustkv_lab.Text.{codes}
use rustkv_lab.Text.Utf8.{is_utf8}
use rustkv_lab.Text.Decimal.{to_string}
use rustkv_lab.Protocol.Parser.RoundTrip.{message_limit}
use rustkv_lab.Core.Time.{from_secs, from_millis}
use rustkv_lab.Core.Command
use rustkv_lab.Core.Command.{Command, arg_to_str, from_args}
use rustkv_lab.Server.Aof.Frames.{
  AreUtf8, ReadsBack, frame_back, parse_u64_arg-to_string, set-args, del-args, flushdb-args,
}
use rustkv_lab.Server.Aof.{encode_args}
use rustkv_lab.Clients.Response.{encode_command}
use rustkv_lab.Clients.Cli
use rustkv_lab.Clients.Cli.{ClientCommand, into_args}

-- The command that the user means; of a subcommand that `IsTyped` refuses, any.
abbrev pub intended : ClientCommand → Command
intended Cli.ping = Command.ping
intended (Cli.set key value none none) = Command.set key value none
intended (Cli.set key value none (some px)) = Command.set key value (some (from_millis px))
intended (Cli.set key value (some ex) px) = Command.set key value (some (from_secs ex))
intended (Cli.get key) = Command.get key
intended (Cli.del ks) = Command.del ks
intended (Cli.exists key) = Command.exists key
intended Cli.keys = Command.keys
intended (Cli.expire key seconds) = Command.expire key seconds
intended (Cli.ttl key) = Command.ttl key
intended Cli.flushdb = Command.flush_db
intended Cli.info = Command.info
intended Cli.shell = Command.ping

-- What the argument parser grants: strings are UTF-8 and times are of 64 bits, `--ex` and `--px`
-- exclude each other, `del` has a key. The shell is no request.
abbrev pub IsTyped : ClientCommand → Type 0
IsTyped (Cli.set key value none none) = is_utf8 key ≡ true
IsTyped (Cli.set key value none (some px)) = (is_utf8 key ≡ true) × (px < 2 ^ 64)
IsTyped (Cli.set key value (some ex) none) = (is_utf8 key ≡ true) × (ex < 2 ^ 64)
IsTyped (Cli.set key value (some ex) (some px)) = ⊥
IsTyped (Cli.get key) = is_utf8 key ≡ true
IsTyped (Cli.del []) = ⊥
IsTyped (Cli.del (key ∷ ks)) = AreUtf8 (key ∷ ks)
IsTyped (Cli.exists key) = is_utf8 key ≡ true
IsTyped (Cli.expire key seconds) = (is_utf8 key ≡ true) × (seconds < 2 ^ 64)
IsTyped (Cli.ttl key) = is_utf8 key ≡ true
IsTyped Cli.shell = ⊥
IsTyped command = Unit

-- The options of SET are read without regard to case, as `EX` and `PX` here.
set_ex-args :
    (key value : Bytes) (n : ℕ)
    → is_utf8 key ≡ true
    → n < 2 ^ 64
    → from_args (codes "SET" ∷ key ∷ value ∷ codes "EX" ∷ to_string n ∷ [])
      ≡ ok (Command.set key value (some (from_secs n)))
unfolding from_args Command.parse_named Command.parse_set arg_to_str
set_ex-args key value n u h = rw (u, parse_u64_arg-to_string n _ h)

set_px-args :
    (key value : Bytes) (n : ℕ)
    → is_utf8 key ≡ true
    → n < 2 ^ 64
    → from_args (codes "SET" ∷ key ∷ value ∷ codes "PX" ∷ to_string n ∷ [])
      ≡ ok (Command.set key value (some (from_millis n)))
unfolding from_args Command.parse_named Command.parse_set arg_to_str
set_px-args key value n u h = rw (u, parse_u64_arg-to_string n _ h)

pub get-args :
    (key : Bytes) → is_utf8 key ≡ true → from_args (codes "GET" ∷ key ∷ []) ≡ ok (Command.get key)
unfolding from_args Command.parse_named Command.parse_get Command.expect_arity arg_to_str
get-args key u = rw u

exists-args :
    (key : Bytes)
    → is_utf8 key ≡ true
    → from_args (codes "EXISTS" ∷ key ∷ []) ≡ ok (Command.exists key)
unfolding from_args Command.parse_named Command.parse_exists Command.expect_arity arg_to_str
exists-args key u = rw u

ttl-args :
    (key : Bytes) → is_utf8 key ≡ true → from_args (codes "TTL" ∷ key ∷ []) ≡ ok (Command.ttl key)
unfolding from_args Command.parse_named Command.parse_ttl Command.expect_arity arg_to_str
ttl-args key u = rw u

expire-args :
    (key : Bytes) (n : ℕ)
    → is_utf8 key ≡ true
    → n < 2 ^ 64
    → from_args (codes "EXPIRE" ∷ key ∷ to_string n ∷ []) ≡ ok (Command.expire key n)
unfolding from_args Command.parse_named Command.parse_expire Command.expect_arity arg_to_str
expire-args key n u h = rw (u, parse_u64_arg-to_string n _ h)

pub info-args : from_args (codes "INFO" ∷ []) ≡ ok Command.info
unfolding from_args Command.parse_named Command.parse_info Command.expect_arity arg_to_str
info-args = refl

ping-args : from_args (codes "PING" ∷ []) ≡ ok Command.ping
unfolding from_args Command.parse_named Command.parse_ping Command.expect_arity arg_to_str
ping-args = refl

keys-args : from_args (codes "KEYS" ∷ []) ≡ ok Command.keys
unfolding from_args Command.parse_named Command.parse_keys arg_to_str
keys-args = refl

abbrev ReadAs : Command → Result Bytes (List Bytes) → Type 0
ReadAs cmd (ok args) = from_args args ≡ ok cmd
ReadAs cmd (err message) = ⊥

into_args-ReadAs : (c : ClientCommand) → IsTyped c → ReadAs (intended c) (into_args c)
unfolding into_args
into_args-ReadAs Cli.ping t = ping-args
into_args-ReadAs (Cli.set key value none none) t = set-args key value t
into_args-ReadAs (Cli.set key value none (some px)) t = set_px-args key value px t.0 t.1
into_args-ReadAs (Cli.set key value (some ex) none) t = set_ex-args key value ex t.0 t.1
into_args-ReadAs (Cli.set key value (some ex) (some px)) t = elim t [ ]
into_args-ReadAs (Cli.get key) t = get-args key t
into_args-ReadAs (Cli.del []) t = elim t [ ]
into_args-ReadAs (Cli.del (key ∷ ks)) t = del-args key ks t
into_args-ReadAs (Cli.exists key) t = exists-args key t
into_args-ReadAs Cli.keys t = keys-args
into_args-ReadAs (Cli.expire key seconds) t = expire-args key seconds t.0 t.1
into_args-ReadAs (Cli.ttl key) t = ttl-args key t
into_args-ReadAs Cli.flushdb t = flushdb-args
into_args-ReadAs Cli.info t = info-args
into_args-ReadAs Cli.shell t = elim t [ ]

-- The frame of any arguments is read back as what `from_args` makes of them.
pub encode_command-ReadsBack :
    (cmd : Command) (args : List Bytes) (rest : Bytes)
    → from_args args ≡ ok cmd
    → length (encode_command args) < message_limit
    → ReadsBack cmd (encode_command args) rest
unfolding encode_command encode_args
encode_command-ReadsBack cmd args rest = frame_back cmd args rest

-- Where the client accepts a typed command, its texts UTF-8 and its numbers below 2^64, with a
-- frame below 2^59 bytes, the frame is read back, in front of any rest, as the command that is
-- meant.
pub into_args-ReadsBack :
    (c : ClientCommand) (args : List Bytes) (rest : Bytes)
    → IsTyped c
    → into_args c ≡ ok args
    → length (encode_command args) < message_limit
    → ReadsBack (intended c) (encode_command args) rest
into_args-ReadsBack c args rest t e fits =
    encode_command-ReadsBack (intended c) args rest
      (subst (ReadAs (intended c)) e (into_args-ReadAs c t)) fits
