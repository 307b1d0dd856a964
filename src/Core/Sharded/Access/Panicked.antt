-- ===== src/Core/Sharded/Access/Panicked.antt =====
-- A method that panics has not added an entry to its shard.
use rustkv_lab.Prelude.{
  ℕ, ◌≤◌, ◌≡◌, refl, Bool, true, false, if◌then◌else◌, Option, none, some, [], ◌∷◌, arith, Bytes,
  length,
}
use rustkv_lab.Core.HashMap.{lookup, remove}
use rustkv_lab.Core.HashMap.Size.{length-retain}
use rustkv_lab.Core.Time.{Clock, Outcome, returned, panicked, instant_add}
use rustkv_lab.Core.Entry.{Entry}
use rustkv_lab.Core.Database
use rustkv_lab.Core.Database.{
  Database, is_live, remove_if_expired, insert_new, set_until, put_deadline, move_deadline,
  expire_until, ttl_of, time_left,
}
use rustkv_lab.Core.Sharded.Step.{swept, with_count}

abbrev pub Shrinks {ℓ} : {R : Type ℓ} → Database → Outcome R × Database → Type ℓ
Shrinks db r = r.0 ≡ panicked → length r.1 ≤ length db

returned-Shrinks {ℓ} : {R : Type ℓ} (db db' : Database) (a : R) → Shrinks db (returned a, db')
returned-Shrinks db db' a e = absurd (ground (arith, e))

Shrinks-if {ℓ} :
    {R : Type ℓ} (db : Database) (b : Bool) (x y : Outcome R × Database)
    → Shrinks db x
    → Shrinks db y
    → Shrinks db (if b then x else y)
Shrinks-if db true x y h k = h
Shrinks-if db false x y h k = k

length-remove_le : (k : Bytes) (db : Database) → length (remove k db) ≤ length db
unfolding remove
length-remove_le k [] = omega arith
length-remove_le k ((i, e) ∷ db) = ground (arith, length-remove_le k db)

length-remove_if_expired :
    (c : Clock) (key : Bytes) (db : Database) → length (remove_if_expired c key db).1 ≤ length db
unfolding remove_if_expired
length-remove_if_expired c key db = ground (arith, length-remove_le key db)

module _ (key : Bytes) (db db' : Database) (h : length db' ≤ length db) where
  insert_new-Shrinks : (o : Outcome Entry) → Shrinks db (insert_new key o db')
  insert_new-Shrinks panicked = λ e. h
  insert_new-Shrinks (returned entry) = returned-Shrinks db _ _

  put_deadline-Shrinks : (entry : Entry) (o : Outcome ℕ) → Shrinks db (put_deadline key entry o db')
  put_deadline-Shrinks entry panicked = λ e. h
  put_deadline-Shrinks entry (returned t) = returned-Shrinks db _ _

  move_deadline-Shrinks :
      (c : Clock) (o : Option Entry) (d : ℕ) → Shrinks db (move_deadline c key o d db')
  move_deadline-Shrinks c none d = returned-Shrinks db _ _
  move_deadline-Shrinks c (some entry) d = put_deadline-Shrinks entry (instant_add c.instant d)

  expire_until-Shrinks : (c : Clock) (o : Option ℕ) → Shrinks db (expire_until c key o db')
  expire_until-Shrinks c none = returned-Shrinks db _ _
  expire_until-Shrinks c (some d) = move_deadline-Shrinks c (lookup key db') d

  set_until-Shrinks :
      (c : Clock) (value : Bytes) (o : Option ℕ) → Shrinks db (set_until c key value o db')
  set_until-Shrinks c value none = returned-Shrinks db _ _
  set_until-Shrinks c value (some d) = insert_new-Shrinks _

module _ (c : Clock) (key : Bytes) (db : Database) where
  pub set-Shrinks :
      (value : Bytes) (expire : Option ℕ) → Shrinks db (Database.set c key value expire db)
  unfolding Database.set
  set-Shrinks value expire = insert_new-Shrinks key db db (omega arith) _

  pub set_at_ms-Shrinks :
      (value : Bytes) (ts : ℕ) → Shrinks db (Database.set_at_ms c key value ts db)
  unfolding Database.set_at_ms
  set_at_ms-Shrinks value ts = set_until-Shrinks key db db (omega arith) c value _

  pub get-Shrinks : Shrinks db (Database.get c key db)
  unfolding Database.get
  get-Shrinks = Shrinks-if db _ _ _ (returned-Shrinks db _ _) (returned-Shrinks db _ _)

  pub exists-Shrinks : Shrinks db (Database.exists c key db)
  unfolding Database.exists
  exists-Shrinks = Shrinks-if db _ _ _ (returned-Shrinks db _ _) (returned-Shrinks db _ _)

  pub ttl-Shrinks : Shrinks db (Database.ttl c key db)
  unfolding Database.ttl
  ttl-Shrinks = Shrinks-if db _ _ _ (returned-Shrinks db _ _) (returned-Shrinks db _ _)

  pub del-Shrinks : Shrinks db (Database.del c (key ∷ []) db)
  unfolding Database.del
  del-Shrinks = returned-Shrinks db _ _

  pub expire-Shrinks : (secs : ℕ) → Shrinks db (Database.expire c key secs db)
  unfolding Database.expire
  expire-Shrinks secs =
      Shrinks-if db _ _ _ (returned-Shrinks db _ _)
        (move_deadline-Shrinks key db _ (length-remove_if_expired c key db) c _ _)

  pub expire_at_ms-Shrinks : (ts : ℕ) → Shrinks db (Database.expire_at_ms c key ts db)
  unfolding Database.expire_at_ms
  expire_at_ms-Shrinks ts =
      Shrinks-if db _ _ _ (returned-Shrinks db _ _)
        (expire_until-Shrinks key db _ (length-remove_if_expired c key db) c _)

with_count-panicked {ℓ} :
    {R : Type ℓ} (n : ℕ) (o : Outcome R) → with_count n o ≡ panicked → o ≡ panicked
with_count-panicked n panicked e = refl
with_count-panicked n (returned a) e = absurd (ground (arith, e))

-- The sweep before `set` and `set_at_ms` adds none.
pub swept-Shrinks :
    (c : Clock) (method : Database.Method (Unit {0})) (db : Database)
    → ((d : Database) → Shrinks d (method d))
    → Shrinks db (swept c method db)
unfolding swept Database.remove_expired
swept-Shrinks c method db h e =
    let fewer = h (Database.remove_expired c db).1 (with_count-panicked _ _ e) in
    omega (arith, fewer, length-retain (is_live c) db)
