-- ===== src/Core/Error.antt =====
-- `error.rs`. The messages of an `io::Error` and of a serde error stand for the errors.
use rustkv_lab.Prelude.{Bytes, Result, ok, err, ◌≡◌, refl, ◌⊎◌, inl, inr}
use rustkv_lab.Protocol.{ProtocolError}

pub data KvError : Type 0 where
  protocol : ProtocolError → KvError
  io : Bytes → KvError
  invalid_command : Bytes → KvError
  storage : Bytes → KvError
  serde : Bytes → KvError

abbrev pub KvResult {ℓ} : Type ℓ → Type ℓ
KvResult A = Result KvError A

pub KvResult-cases {ℓ} :
    {A : Type ℓ} (r : KvResult A) → ((e : KvError) × (r ≡ err e)) ⊎ ((a : A) × (r ≡ ok a))
KvResult-cases (err e) = inl (e, refl)
KvResult-cases (ok a) = inr (a, refl)
