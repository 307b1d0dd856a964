-- ===== src/Server/Aof/Proper.antt =====
-- What the server reads of a frame as a command is one that the log can hold.
use rustkv_lab.Prelude.{
  ℕ, ◌^◌, ◌<◌, ◌≡◌, subst, String, Bool, true, false, none, List, [], ◌∷◌, Bytes, bytes_eq,
  if◌then◌else◌, ok, err, ◌>>=◌, inl, inr, Bool-cases, Option-cases,
}
use rustkv_lab.Text.{codes}
use rustkv_lab.Text.Utf8.{is_utf8}
use rustkv_lab.Text.Ascii.{to_ascii_uppercase}
use rustkv_lab.Text.Decimal.{parse_u64, parse_u64_lt}
use rustkv_lab.Protocol.Resp.{RespFrame}
use rustkv_lab.Core.Error.{KvResult}
use rustkv_lab.Core.Command.{
  Command, arg_to_str, parse_u64_arg, integer_or_invalid, expect_arity, second, third, set_expiring,
  parse_ping, parse_set, parse_get, collect_keys, parse_del, parse_exists, parse_keys, parse_expire,
  parse_expire_at, parse_ttl, parse_flushdb, parse_info, parse_named, from_args, resp_to_args,
  from_resp,
}
use rustkv_lab.Server.Aof.Frames.{IsProper, AreUtf8}

-- A result that is no error is as `P` says.
abbrev Gives : {A : Type 0} → (A → Type 0) → KvResult A → Type 0
Gives P (ok a) = P a
Gives P (err e) = Unit

Gives-bind :
    {A B : Type 0} (P : A → Type 0) (Q : B → Type 0) (m : KvResult A) (f : A → KvResult B)
    → Gives P m
    → ((a : A) → P a → Gives Q (f a))
    → Gives Q (m >>= f)
Gives-bind P Q (ok a) f h k = k a h
Gives-bind P Q (err e) f h k = tt

Gives-any : {A : Type 0} (m : KvResult A) → Gives (λ a. Unit {0}) m
Gives-any (ok a) = tt
Gives-any (err e) = tt

Gives-if :
    {A : Type 0} (P : A → Type 0) (b : Bool) (x y : KvResult A)
    → Gives P x
    → Gives P y
    → Gives P (if b then x else y)
Gives-if P true x y h k = h
Gives-if P false x y h k = k

abbrev IsText : Bytes → Type 0
IsText text = is_utf8 text ≡ true

arg_to_str-Gives : (arg label : Bytes) → Gives IsText (arg_to_str arg label)
unfolding arg_to_str
arg_to_str-Gives arg label = elim (Bool-cases (is_utf8 arg)) [ inl e ↦ rw e e | inr e ↦ rw e tt ]

integer_or_invalid-Gives :
    (text label : Bytes) → Gives (λ n. n < 2 ^ 64) (integer_or_invalid label (parse_u64 text))
integer_or_invalid-Gives text label = elim (Option-cases (parse_u64 text)) [
  | inl e ↦ rw e tt
  | inr (n, e) ↦ rw e (parse_u64_lt text n e)
]

parse_u64_arg-Gives : (arg label : Bytes) → Gives (λ n. n < 2 ^ 64) (parse_u64_arg arg label)
unfolding parse_u64_arg
parse_u64_arg-Gives arg label =
    Gives-bind IsText _ (arg_to_str arg label) _ (arg_to_str-Gives arg label)
      (λ text h. integer_or_invalid-Gives text label)

-- A key behind the test on the number of arguments.
key_behind :
    (P : Command → Type 0) (args : List Bytes) (n : ℕ) (name label arg : Bytes)
    (f : Bytes → KvResult Command)
    → ((key : Bytes) → IsText key → Gives P (f key))
    → Gives P (expect_arity args n name >>= λ u. arg_to_str arg label >>= f)
key_behind P args n name label arg f k =
    Gives-bind (λ u. Unit {0}) P (expect_arity args n name) _ (Gives-any _)
      (λ u h. Gives-bind IsText P (arg_to_str arg label) f (arg_to_str-Gives arg label) k)

set_expiring-Gives :
    (key value option : Bytes) (amount : ℕ)
    → IsText key
    → amount < 2 ^ 64
    → Gives IsProper (set_expiring key value option amount)
set_expiring-Gives key value option amount h lt =
    Gives-if IsProper (bytes_eq option (codes "EX")) _ _ h (
      Gives-if IsProper (bytes_eq option (codes "PX")) _ _ h (
        Gives-if IsProper (bytes_eq option (codes "PXAT")) (ok (Command.set_px_at key value amount))
          _ (h, lt) tt))

parse_set-Gives : (args : List Bytes) → Gives IsProper (parse_set args)
unfolding parse_set
parse_set-Gives [] = tt
parse_set-Gives (name ∷ []) = tt
parse_set-Gives (name ∷ key ∷ []) = tt
parse_set-Gives (name ∷ key ∷ value ∷ []) =
    Gives-bind IsText IsProper (arg_to_str key (codes "SET key"))
      (λ k. ok (Command.set k value none)) (arg_to_str-Gives key (codes "SET key")) (λ k h. h)
parse_set-Gives (name ∷ key ∷ value ∷ option ∷ []) = tt
parse_set-Gives (name ∷ key ∷ value ∷ option ∷ amount ∷ []) =
    Gives-bind IsText IsProper (arg_to_str key (codes "SET key")) _
      (arg_to_str-Gives key (codes "SET key"))
      (λ k h.
        Gives-bind IsText IsProper (arg_to_str option (codes "SET expire option")) _
          (arg_to_str-Gives option (codes "SET expire option"))
          (λ o i.
            Gives-bind (λ n. n < 2 ^ 64) IsProper
              (parse_u64_arg amount (codes "SET expire duration")) _
              (parse_u64_arg-Gives amount (codes "SET expire duration"))
              (λ n lt. set_expiring-Gives k value (to_ascii_uppercase o) n h lt)))
parse_set-Gives (name ∷ key ∷ value ∷ option ∷ amount ∷ more ∷ args) = tt

collect_keys-Gives : (args : List Bytes) → Gives AreUtf8 (collect_keys args)
unfolding collect_keys
collect_keys-Gives [] = tt
collect_keys-Gives (arg ∷ args) =
    Gives-bind IsText AreUtf8 (arg_to_str arg (codes "DEL key")) _
      (arg_to_str-Gives arg (codes "DEL key"))
      (λ key h.
        Gives-bind AreUtf8 AreUtf8 (collect_keys args) (λ ks. ok (key ∷ ks))
          (collect_keys-Gives args) (λ ks i. (h, i)))

-- The keys of `DEL`, the first apart: there is one.
parse_del-Gives : (args : List Bytes) → Gives IsProper (parse_del args)
unfolding parse_del collect_keys
parse_del-Gives [] = tt
parse_del-Gives (name ∷ []) = tt
parse_del-Gives (name ∷ arg ∷ args) =
    Gives-bind (λ ks. IsProper (Command.del ks)) IsProper (collect_keys (arg ∷ args))
      (λ ks. ok (Command.del ks))
      (Gives-bind IsText (λ ks. IsProper (Command.del ks)) (arg_to_str arg (codes "DEL key")) _
        (arg_to_str-Gives arg (codes "DEL key"))
        (λ key h.
          Gives-bind AreUtf8 (λ ks. IsProper (Command.del ks)) (collect_keys args)
            (λ ks. ok (key ∷ ks)) (collect_keys-Gives args) (λ ks i. (h, i))))
      (λ ks h. h)

parse_expire-Gives : (args : List Bytes) → Gives IsProper (parse_expire args)
unfolding parse_expire
parse_expire-Gives args =
    key_behind IsProper args 3 (codes "EXPIRE") (codes "EXPIRE key") (second args) _ (λ key h.
      Gives-bind (λ n. n < 2 ^ 64) IsProper (parse_u64_arg (third args) (codes "EXPIRE seconds")) _
        (parse_u64_arg-Gives (third args) (codes "EXPIRE seconds")) (λ n lt. h))

parse_expire_at-Gives : (args : List Bytes) → Gives IsProper (parse_expire_at args)
unfolding parse_expire_at
parse_expire_at-Gives args =
    key_behind IsProper args 3 (codes "EXPIREAT") (codes "EXPIREAT key") (second args) _ (λ key h.
      Gives-bind (λ n. n < 2 ^ 64) IsProper
        (parse_u64_arg (third args) (codes "EXPIREAT timestamp_ms")) _
        (parse_u64_arg-Gives (third args) (codes "EXPIREAT timestamp_ms")) (λ n lt. (h, lt)))

-- A command without keys, behind the test on the number of arguments.
bare_behind :
    (args : List Bytes) (n : ℕ) (name : Bytes) (cmd : Command)
    → IsProper cmd
    → Gives IsProper (expect_arity args n name >>= λ u. ok cmd)
bare_behind args n name cmd h =
    Gives-bind (λ u. Unit {0}) IsProper (expect_arity args n name) (λ u. ok cmd) (Gives-any _)
      (λ u i. h)

parse_keys-Gives : (args : List Bytes) → Gives IsProper (parse_keys args)
unfolding parse_keys
parse_keys-Gives [] = tt
parse_keys-Gives (name ∷ []) = tt
parse_keys-Gives (name ∷ arg ∷ []) =
    Gives-if IsProper (bytes_eq arg (codes "*")) (ok Command.keys) _ tt tt
parse_keys-Gives (name ∷ arg ∷ more ∷ args) = tt

-- A command with one key of which the log holds nothing.
reads_behind :
    (args : List Bytes) (name label : Bytes) (cmd : Bytes → Command)
    → ((key : Bytes) → IsProper (cmd key))
    → Gives IsProper
        (expect_arity args 2 name >>= λ u. arg_to_str (second args) label >>= λ key. ok (cmd key))
reads_behind args name label cmd k =
    key_behind IsProper args 2 name label (second args) (λ key. ok (cmd key)) (λ key h. k key)

parse_named-Gives :
    (normalized name : Bytes) (args : List Bytes)
    → Gives IsProper (parse_named normalized name args)
unfolding parse_named parse_ping parse_get parse_exists parse_ttl parse_flushdb parse_info
parse_named-Gives normalized name args =
    let test : String → Bool = λ word. bytes_eq normalized (codes word) in
    Gives-if IsProper (test "PING") _ _ (bare_behind args 1 (codes "PING") Command.ping tt) (
      Gives-if IsProper (test "SET") _ _ (parse_set-Gives args) (
        Gives-if IsProper (test "GET") _ _
          (reads_behind args (codes "GET") (codes "GET key") Command.get (λ k. tt))
          (Gives-if IsProper (test "DEL") _ _ (parse_del-Gives args) (
            Gives-if IsProper (test "EXISTS") _ _
              (reads_behind args (codes "EXISTS") (codes "EXISTS key") Command.exists (λ k. tt))
              (Gives-if IsProper (test "KEYS") _ _ (parse_keys-Gives args) (
                Gives-if IsProper (test "EXPIRE") _ _ (parse_expire-Gives args) (
                  Gives-if IsProper (test "EXPIREAT") _ _ (parse_expire_at-Gives args) (
                    Gives-if IsProper (test "TTL") _ _
                      (reads_behind args (codes "TTL") (codes "TTL key") Command.ttl (λ k. tt))
                      (Gives-if IsProper (test "FLUSHDB") _ _
                        (bare_behind args 1 (codes "FLUSHDB") Command.flush_db tt)
                        (Gives-if IsProper (test "INFO") _ (ok (Command.unknown name))
                          (bare_behind args 1 (codes "INFO") Command.info tt) tt))))))))))

from_args-Gives : (args : List Bytes) → Gives IsProper (from_args args)
unfolding from_args
from_args-Gives [] = tt
from_args-Gives (name ∷ args) =
    Gives-bind IsText IsProper (arg_to_str name (codes "command")) _
      (arg_to_str-Gives name (codes "command"))
      (λ command_name h.
        parse_named-Gives (to_ascii_uppercase command_name) command_name (name ∷ args))

from_resp-Gives : (resp : RespFrame) → Gives IsProper (from_resp resp)
unfolding from_resp
from_resp-Gives resp =
    Gives-bind (λ args. Unit {0}) IsProper (resp_to_args resp) from_args (Gives-any _)
      (λ args h. from_args-Gives args)

-- What the server reads of any frame as a command is one that the log can hold: keys that it
-- writes, deletes or gives a deadline are UTF-8, a time stamp is below 2^64, and DEL has a key.
pub from_resp-IsProper : (resp : RespFrame) (cmd : Command) → from_resp resp ≡ ok cmd → IsProper cmd
from_resp-IsProper resp cmd e = subst (Gives IsProper) e (from_resp-Gives resp)
