-- ===== src/Core/Entry.antt =====
-- `entry.rs`.
use rustkv_lab.Prelude.{ℕ, Bool, false, Option, none, some, Bytes, leb}
use rustkv_lab.Core.Time.{Outcome, returned, panicked, instant_add}

pub record Entry : Type 0 where
  pub value : Bytes
  pub expire_at : Option ℕ

abbrev pub deadline_in : Bytes → Outcome ℕ → Outcome Entry
deadline_in value panicked = panicked
deadline_in value (returned t) = returned (record { value = value; expire_at = some t })

-- `Entry::new`
unfoldable pub new : ℕ → Bytes → Option ℕ → Outcome Entry
unfolding instant_add
new now value none = returned (record { value = value; expire_at = none })
new now value (some duration) = deadline_in value (instant_add now duration)

unfoldable pub with_expire_at : Bytes → Option ℕ → Entry
with_expire_at value expire_at = record { value = value; expire_at = expire_at }

unfoldable pub is_expired : ℕ → Entry → Bool
is_expired now entry = elim entry.expire_at [ none ↦ false | some t ↦ leb t now ]
