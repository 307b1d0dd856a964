-- ===== src/Protocol/Parser/Consumed/Amounts.antt =====
-- How much a parser takes, and how that adds up over its parts.
use rustkv_lab.Prelude.{
  ℕ, ◌+◌, ◌≤◌, ◌≡◌, ◌≢◌, refl, sym, ap, ◌∙◌, Bool, true, false, [], ◌++◌, append_assoc, arith,
  Bytes, length, length-append, if◌then◌else◌,
}
use rustkv_lab.Protocol.{ProtocolError}
use rustkv_lab.Protocol.Parser.{RespParser, Parse, ok, err, panicked, out_of_fuel, ◌>>=◌, Parser}

-- The outcome of `m` at `p` took `n` bytes or more, and the same bytes give it before any rest.
pub data TakesAt {A : Type 0} (m : Parser A) (n : ℕ) (p : RespParser)
    : Parse (A × RespParser) → Type 0 where
  took :
      (a : A) (q : RespParser) (used : Bytes)
      → p.rest ≡ used ++ q.rest
      → q.pos ≡ p.pos + length used
      → n ≤ length used
      → ((t : Bytes)
          → m (record { rest = used ++ t; pos = p.pos }) ≡ ok (a, record { rest = t; pos = q.pos }))
      → TakesAt m n p (ok (a, q))
  failed : (e : ProtocolError) → TakesAt m n p (err e)
  panics : TakesAt m n p panicked

abbrev pub Takes : {A : Type 0} → Parser A → ℕ → RespParser → Type 0
Takes m n p = TakesAt m n p (m p)

module _ {A B : Type 0} (m : Parser A) (f : A × RespParser → Parse (B × RespParser)) (n k : ℕ)
    (p : RespParser) where
  -- the rest of the block, after `m` took its bytes
  pub bind_rest :
      (a : A) (q : RespParser) (used : Bytes) {r : Parse (B × RespParser)}
      → p.rest ≡ used ++ q.rest
      → q.pos ≡ p.pos + length used
      → n ≤ length used
      → ((t : Bytes)
          → m (record { rest = used ++ t; pos = p.pos }) ≡ ok (a, record { rest = t; pos = q.pos }))
      → TakesAt (λ s. f (a, s)) k q r
      → TakesAt (λ s. m s >>= f) (n + k) p r
  bind_rest a q used e1 e2 e3 h (took b s used' e1' e2' e3' h') =
      took b s (used ++ used') (e1 ∙ ap (λ l. used ++ l) e1' ∙ sym (append_assoc used used' s.rest))
        (omega (arith, length-append used used')) (omega (arith, length-append used used'))
        (λ t. rw (append_assoc, h (used' ++ t), h' t))
  bind_rest a q used e1 e2 e3 h (failed e) = failed e
  bind_rest a q used e1 e2 e3 h panics = panics

  pub Takes-bind_at :
      {r : Parse (A × RespParser)}
      → TakesAt m n p r
      → ((a : A) (q : RespParser) → length q.rest + n ≤ length p.rest → Takes (λ s. f (a, s)) k q)
      → TakesAt (λ s. m s >>= f) (n + k) p (r >>= f)
  Takes-bind_at (took a q used e1 e2 e3 h) more =
      bind_rest a q used e1 e2 e3 h
        (more a q (omega (arith, ap length e1, length-append used q.rest)))
  Takes-bind_at (failed e) more = failed e
  Takes-bind_at panics more = panics

  pub Takes-bind :
      Takes m n p
      → ((a : A) (q : RespParser) → length q.rest + n ≤ length p.rest → Takes (λ s. f (a, s)) k q)
      → Takes (λ s. m s >>= f) (n + k) p
  Takes-bind = Takes-bind_at

module _ {A : Type 0} (p : RespParser) where
  pub Takes-ok : (a : A) → Takes (λ q. ok (a, q)) 0 p
  Takes-ok a = took a p [] refl (omega arith) (omega arith) (λ t. refl)

  pub Takes-err : (e : ProtocolError) → Takes {A = A} (λ q. err e) 0 p
  Takes-err e = failed e

  pub Takes-if :
      (b : Bool) (m m' : Parser A)
      → Takes m 0 p
      → Takes m' 0 p
      → Takes (λ q. if b then m q else m' q) 0 p
  Takes-if true m m' h h' = h
  Takes-if false m m' h h' = h'

pub Takes-weaken :
    {A : Type 0} {m : Parser A} {n : ℕ} {p : RespParser} {r : Parse (A × RespParser)} (k : ℕ)
    → k ≤ n
    → TakesAt m n p r
    → TakesAt m k p r
Takes-weaken k le (took a q used e1 e2 e3 h) = took a q used e1 e2 (omega arith) h
Takes-weaken k le (failed e) = failed e
Takes-weaken k le panics = panics

pub Takes-lift :
    {A B : Type 0} (m : Parse A) (f : A → Parser B) (p : RespParser)
    → m ≢ out_of_fuel
    → ((a : A) → Takes (f a) 0 p)
    → Takes (λ q. m >>= λ a. f a q) 0 p
Takes-lift (ok a) f p h k = k a
Takes-lift (err e) f p h k = failed e
Takes-lift panicked f p h k = panics
Takes-lift out_of_fuel f p h k = absurd (h refl)
