-- ===== src/Core/Database/Touches.antt =====
-- What a method on one key may do to the map: drop the key, put an entry under it, or drop entries
-- by a test. The keys stay distinct, no other key is new, and the map grows by one entry at most.
use rustkv_lab.Prelude.{
  ℕ, ◌+◌, ◌≤◌, ◌≡◌, Bool, true, false, Option, none, some, [], ◌∷◌, arith, Bytes, bytes_eq,
  bytes_eq_iff, if◌then◌else◌, length, leb,
}
use rustkv_lab.Core.HashMap.{lookup, insert, remove, retain}
use rustkv_lab.Core.HashMap.Laws.{
  IsUnique, lookup-insert, lookup-remove, lookup-retain, insert-IsUnique, remove-IsUnique,
  retain-IsUnique,
}
use rustkv_lab.Core.HashMap.Size.{presence, length-insert, length-remove, length-retain_key}
use rustkv_lab.Core.Time.{
  Clock, Outcome, returned, panicked, instant_add, duration_until_unix_ms, from_secs,
}
use rustkv_lab.Core.Entry
use rustkv_lab.Core.Entry.{Entry}
use rustkv_lab.Core.Database.{
  Database, is_live, remove_if_expired, insert_new, put_deadline, move_deadline, set_until,
  expire_until, set, set_at_ms, get, del_one, del_loop, del, exists, expire, expire_at_ms, ttl,
  ttl_of, time_left, remove_expired,
}

pub data Touches (key : Bytes) (a : Database) : Database → Type 0 where
  same : Touches key a a
  removes : (b : Database) → Touches key a b → Touches key a (remove key b)
  puts : (b : Database) (e : Entry) → Touches key a b → Touches key a (insert key e b)
  sweeps : (b : Database) (p : Bytes → Entry → Bool) → Touches key a b → Touches key a (retain p b)

module _ {key : Bytes} {a : Database} where
  pub Touches-IsUnique : {b : Database} → Touches key a b → IsUnique a → IsUnique b
  Touches-IsUnique same u = u
  Touches-IsUnique (removes b t) u = remove-IsUnique key b (Touches-IsUnique t u)
  Touches-IsUnique (puts b e t) u = insert-IsUnique key e b (Touches-IsUnique t u)
  Touches-IsUnique (sweeps b p t) u = retain-IsUnique p b (Touches-IsUnique t u)

  -- A key that is found was there, or is the key itself.
  pub Touches-lookup :
      {b : Database} (j : Bytes)
      → Touches key a b
      → IsUnique a
      → bytes_eq key j ≡ false
      → lookup j a ≡ none
      → lookup j b ≡ none
  Touches-lookup j same u ne h = h
  Touches-lookup j (removes b t) u ne h =
      ground (arith, lookup-remove key j b, Touches-lookup j t u ne h)
  Touches-lookup j (puts b e t) u ne h =
      ground (arith, lookup-insert key j e b, Touches-lookup j t u ne h)
  Touches-lookup j (sweeps b p t) u ne h =
      ground (arith, lookup-retain p j b (Touches-IsUnique t u), Touches-lookup j t u ne h)

  Touches-others :
      {b : Database}
      → Touches key a b
      → IsUnique a
      → length b + presence (lookup key a) ≤ length a + presence (lookup key b)
  Touches-others same u = omega arith
  Touches-others (removes b t) u = ground (
    arith,
    Touches-others t u,
    length-remove key b (Touches-IsUnique t u),
    lookup-remove key key b,
    bytes_eq_iff key key,
  )
  Touches-others (puts b e t) u = ground (
    arith,
    Touches-others t u,
    length-insert key e b,
    lookup-insert key key e b,
    bytes_eq_iff key key,
  )
  Touches-others (sweeps b p t) u =
      omega (arith, Touches-others t u, length-retain_key p key b (Touches-IsUnique t u))

presence-le {ℓ} : {V : Type ℓ} (o : Option V) → presence o ≤ 1
presence-le none = omega arith
presence-le (some v) = omega arith

pub Touches-length :
    {key : Bytes} {a b : Database} → Touches key a b → IsUnique a → length b ≤ length a + 1
Touches-length {key} {a} {b} t u = omega (arith, Touches-others t u, presence-le (lookup key b))

pub Touches-trans :
    {key : Bytes} {a b d : Database} → Touches key a b → Touches key b d → Touches key a d
Touches-trans t same = t
Touches-trans t (removes b u) = removes b (Touches-trans t u)
Touches-trans t (puts b e u) = puts b e (Touches-trans t u)
Touches-trans t (sweeps b p u) = sweeps b p (Touches-trans t u)

-- The database that a method leaves beside its answer.
abbrev pub Leaves {ℓ} : {A : Type ℓ} → Bytes → Database → A × Database → Type 0
Leaves key db r = Touches key db r.1

Leaves-if {ℓ} :
    {A : Type ℓ} (key : Bytes) (db : Database) (b : Bool) (x y : A × Database)
    → Leaves key db x
    → Leaves key db y
    → Leaves key db (if b then x else y)
Leaves-if key db true x y hx hy = hx
Leaves-if key db false x y hx hy = hy

module _ (key : Bytes) (db : Database) where
  insert_new-Touches : (o : Outcome Entry) → Leaves key db (insert_new key o db)
  insert_new-Touches panicked = same
  insert_new-Touches (returned e) = puts db e same

  put_deadline-Touches : (e : Entry) (o : Outcome ℕ) → Leaves key db (put_deadline key e o db)
  put_deadline-Touches e panicked = same
  put_deadline-Touches e (returned t) = puts db _ same

  move_deadline-Touches :
      (c : Clock) (o : Option Entry) (d : ℕ) → Leaves key db (move_deadline c key o d db)
  move_deadline-Touches c none d = same
  move_deadline-Touches c (some e) d = put_deadline-Touches e (instant_add c.instant d)

  time_left-Touches : (now : ℕ) (o : Option ℕ) → Leaves key db (time_left now key o db)
  time_left-Touches now none = same
  time_left-Touches now (some t) = Leaves-if key db (leb t now) _ _ (removes db same) same

  ttl_of-Touches : (now : ℕ) (o : Option Entry) → Leaves key db (ttl_of now key o db)
  ttl_of-Touches now none = same
  ttl_of-Touches now (some e) = time_left-Touches now e.expire_at

module _ (c : Clock) (key : Bytes) (db : Database) where
  remove_if_expired-Touches : Leaves key db (remove_if_expired c key db)
  unfolding remove_if_expired
  remove_if_expired-Touches = Leaves-if key db _ _ _ (removes db same) same

  -- A method that first drops the key if it has expired, and then goes either way.
  then_Touches {ℓ} :
      {A : Type ℓ} (x y : A × Database)
      → Leaves key (remove_if_expired c key db).1 x
      → Leaves key (remove_if_expired c key db).1 y
      → Leaves key db (if (remove_if_expired c key db).0 then x else y)
  then_Touches x y hx hy =
      Leaves-if key db (remove_if_expired c key db).0 x y
        (Touches-trans remove_if_expired-Touches hx) (Touches-trans remove_if_expired-Touches hy)

  pub get-Touches : Leaves key db (get c key db)
  unfolding get
  get-Touches = then_Touches _ _ same same

  pub exists-Touches : Leaves key db (exists c key db)
  unfolding exists
  exists-Touches = then_Touches _ _ same same

  pub ttl-Touches : Leaves key db (ttl c key db)
  unfolding ttl
  ttl-Touches = then_Touches _ _ same (ttl_of-Touches key _ c.instant _)

  pub expire-Touches : (secs : ℕ) → Leaves key db (expire c key secs db)
  unfolding expire
  expire-Touches secs = then_Touches _ _ same (move_deadline-Touches key _ c _ (from_secs secs))

  pub set-Touches : (v : Bytes) (expire : Option ℕ) → Leaves key db (set c key v expire db)
  unfolding set
  set-Touches v expire = insert_new-Touches key db (Entry.new c.instant v expire)

  del_one-Touches : Leaves key db (del_one c key db)
  unfolding del_one
  del_one-Touches = then_Touches _ _ same (removes _ same)

  pub del-Touches : Leaves key db (del c (key ∷ []) db)
  unfolding del del_loop
  del-Touches = del_one-Touches

  pub remove_expired-Touches : Leaves key db (remove_expired c db)
  unfolding remove_expired
  remove_expired-Touches = sweeps db (is_live c) same

  set_until-Touches : (v : Bytes) (o : Option ℕ) → Leaves key db (set_until c key v o db)
  set_until-Touches v none = removes db same
  set_until-Touches v (some d) =
      insert_new-Touches key db (Entry.deadline_in v (instant_add c.instant d))

  pub set_at_ms-Touches : (v : Bytes) (ts : ℕ) → Leaves key db (set_at_ms c key v ts db)
  unfolding set_at_ms
  set_at_ms-Touches v ts = set_until-Touches v (duration_until_unix_ms c.unix ts)

expire_until-Touches :
    (c : Clock) (key : Bytes) (db : Database) (o : Option ℕ)
    → Leaves key db (expire_until c key o db)
expire_until-Touches c key db none = removes db same
expire_until-Touches c key db (some d) = move_deadline-Touches key db c (lookup key db) d

pub expire_at_ms-Touches :
    (c : Clock) (key : Bytes) (db : Database) (ts : ℕ) → Leaves key db (expire_at_ms c key ts db)
unfolding expire_at_ms
expire_at_ms-Touches c key db ts =
    then_Touches c key db _ _ same (expire_until-Touches c key _ (duration_until_unix_ms c.unix ts))
