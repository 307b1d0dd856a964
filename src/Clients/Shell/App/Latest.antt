-- ===== src/Clients/Shell/App/Latest.antt =====
-- The history keeps the latest lines.
use rustkv_lab.Prelude.{
  ℕ, zero, suc, ◌+◌, ◌-◌, ◌≤◌, ◌≡◌, refl, sym, ap, ◌∙◌, Bool-cases, inl, inr, String, List, [], ◌∷◌,
  ◌++◌, map, append_assoc, append-nil, arith, ltb, length, drop, length-append, length-drop,
  drop-append_le,
}
use rustkv_lab.Text.Chars.{Chars}
use rustkv_lab.Clients.Shell.App.{
  ShellApp, max_history_lines, drained, push_history, marked, push_each,
}

-- The last `n` of a list.
abbrev pub latest {ℓ} : {A : Type ℓ} → ℕ → List A → List A
latest n xs = drop (length xs - n) xs

drop-nil {ℓ} : {A : Type ℓ} (m : ℕ) → drop {A = A} m [] ≡ []
drop-nil zero = refl
drop-nil (suc m) = refl

drop_at {ℓ} : {A : Type ℓ} (m n : ℕ) (xs : List A) → m ≡ n → drop m xs ≡ drop n xs
drop_at m n xs e = ap (λ k. drop k xs) e

drop-drop {ℓ} : {A : Type ℓ} (m n : ℕ) (xs : List A) → drop m (drop n xs) ≡ drop (n + m) xs
drop-drop m zero xs = drop_at m (0 + m) xs (omega arith)
drop-drop m (suc n) [] = drop-nil m ∙ sym (drop-nil (suc n + m))
drop-drop m (suc n) (x ∷ xs) =
    drop-drop m n xs ∙ drop_at (suc (n + m)) (suc n + m) (x ∷ xs) (omega arith)

pub drained_lem : (history : List Chars) → drained history ≡ latest max_history_lines history
drained_lem history = elim (Bool-cases (ltb max_history_lines (length history))) [
  | inl e ↦ rw e refl
  | inr e ↦
      let none_over : length history - max_history_lines ≡ 0 = ground arith in
      rw (e, none_over) refl
]

-- Dropping the surplus before more is appended drops nothing that would stay.
pub latest-append {ℓ} :
    {A : Type ℓ} (n : ℕ) (xs ys : List A) → latest n (latest n xs ++ ys) ≡ latest n (xs ++ ys)
latest-append n xs ys =
    let k : ℕ = length xs - n in
    let split : drop k xs ++ ys ≡ drop k (xs ++ ys) = sym (drop-append_le k xs ys (omega arith)) in
    ap (λ l. drop (length l - n) l) split
    ∙ drop-drop _ k (xs ++ ys)
    ∙ ap (λ j. drop j (xs ++ ys)) (omega (arith, length-drop k (xs ++ ys), length-append xs ys))

pub length-latest {ℓ} : {A : Type ℓ} (n : ℕ) (xs : List A) → length (latest n xs) ≤ n
length-latest n xs = omega (arith, length-drop (length xs - n) xs)

-- Once in bounds, the history stays in bounds.
abbrev pub InBounds : ShellApp → Type 0
InBounds app = length app.history ≤ max_history_lines

pub latest_whole :
    (history : List Chars)
    → length history ≤ max_history_lines
    → latest max_history_lines history ≡ history
latest_whole history h = drop_at (length history - max_history_lines) 0 history (omega arith)

pub push_history-latest :
    (line : Chars) (app : ShellApp)
    → (push_history line app).history ≡ latest max_history_lines (app.history ++ line ∷ [])
unfolding push_history
push_history-latest line app = drained_lem (app.history ++ line ∷ [])

pub push_history-InBounds : (line : Chars) (app : ShellApp) → InBounds (push_history line app)
unfolding push_history
push_history-InBounds line app =
    rw (drained_lem (app.history ++ line ∷ []))
      (length-latest max_history_lines (app.history ++ line ∷ []))

pub push_each-latest :
    (mark : String) (ls : List Chars) (app : ShellApp)
    → InBounds app
    → (push_each mark ls app).history
      ≡ latest max_history_lines (app.history ++ map (marked mark) ls)
unfolding push_each
push_each-latest mark [] app h = rw append-nil (sym (latest_whole app.history h))
push_each-latest mark (line ∷ ls) app h =
    push_each-latest mark ls (push_history (marked mark line) app)
      (push_history-InBounds (marked mark line) app)
    ∙ rw (push_history-latest (marked mark line) app) (
        latest-append max_history_lines (app.history ++ marked mark line ∷ [])
          (map (marked mark) ls)
        ∙ rw append_assoc refl)

pub push_each-InBounds :
    (mark : String) (ls : List Chars) (app : ShellApp)
    → InBounds app
    → InBounds (push_each mark ls app)
unfolding push_each
push_each-InBounds mark [] app h = h
push_each-InBounds mark (line ∷ ls) app h =
    push_each-InBounds mark ls _ (push_history-InBounds (marked mark line) app)
