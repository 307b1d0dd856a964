-- ===== src/Core/Sharded/Deletes.antt =====
-- What `del` makes visible, and what it counts.
use rustkv_lab.Prelude.{
  ℕ, ◌+◌, ◌<◌, ◌≡◌, refl, ap, subst, ◌∙◌, Bool, true, false, Option, none, List, [], ◌∷◌, arith,
  Bytes, bytes_eq, if◌then◌else◌, get_or, length, ok,
}
use mathlib.Core.Path.{fun_ext}
use rustkv_lab.Core.HashMap.Size.{presence}
use rustkv_lab.Core.Time.{Clock}
use rustkv_lab.Core.Entry.{Entry}
use rustkv_lab.Core.Database
use rustkv_lab.Core.Database.{Database, value_of, is_some, del_one}
use rustkv_lab.Core.Database.View.{live-del_one, del_one_lem}
use rustkv_lab.Core.Database.Touches.{del-Touches, Touches-length}
use rustkv_lab.Core.Sharded.{ShardedDatabase, usize_limit}
use rustkv_lab.Core.Sharded.Step.{shard_for_key, run_shard, del_loop, del}
use rustkv_lab.Core.Sharded.Valid.{
  IsValid, total, total-set, shard-lt, shard-IsUnique, after_change,
}
use rustkv_lab.Core.Sharded.View.{visible, visible-run_shard}
use rustkv_lab.Core.Sharded.Reads.{Answers}

abbrev pub contains : Bytes → List Bytes → Bool
contains j [] = false
contains j (k ∷ keys) = if bytes_eq k j then true else contains j keys

pub erased_twice :
    (first later : Bool) (o : Option Entry)
    → (if later then none else (if first then none else o))
      ≡ (if (if first then true else later) then none else o)
erased_twice true true o = refl
erased_twice true false o = refl
erased_twice false later o = refl

-- A map of the keys to what is visible, and the number of entries that erasing keys takes from it.
abbrev pub Visible : Type 0
Visible = Bytes → Option Entry

abbrev pub erase : Bytes → Visible → Visible
erase k m j = if bytes_eq k j then none else m j

abbrev pub erased_count : List Bytes → Visible → ℕ
erased_count [] m = 0
erased_count (k ∷ keys) m = presence (m k) + erased_count keys (erase k m)

module _ (hash : Bytes → ℕ) (c : Clock) where
  abbrev pub seen : ShardedDatabase → Visible
  seen s k = visible hash (c.scan k) s k

  pub visible-del_one :
      (key : Bytes) (s : ShardedDatabase) (later : ℕ) (j : Bytes)
      → IsValid hash s
      → visible hash later (run_shard hash key (Database.del c (key ∷ [])) s).1 j
        ≡ (if bytes_eq key j then none else visible hash later s j)
  visible-del_one key s later j v =
      visible-run_shard hash key (Database.del c (key ∷ [])) s later j none v (
        unfold Database.del Database.del_loop in
        live-del_one c key j (get_or s.shards (shard_for_key hash s key) []) later)

  pub seen-del_one :
      (key : Bytes) (s : ShardedDatabase)
      → IsValid hash s
      → seen (run_shard hash key (Database.del c (key ∷ [])) s).1 ≡ erase key (seen s)
  seen-del_one key s v = fun_ext (λ j. visible-del_one key s (c.scan j) j v)

  pub del_one-seen :
      (key : Bytes) (s : ShardedDatabase)
      → (del_one c key (get_or s.shards (shard_for_key hash s key) [])).0 ≡ presence (seen s key)
  unfolding visible
  del_one-seen key s = del_one_lem c key (get_or s.shards (shard_for_key hash s key) [])

  pub del_loop-writes :
      (keys : List Bytes) (removed expired : ℕ) (s : ShardedDatabase)
      → IsValid hash s
      → total s.shards + length keys < usize_limit
      → Answers (del_loop hash c keys removed expired s).0 (removed + erased_count keys (seen s))
        × ((later : ℕ) (j : Bytes)
            → visible hash later (del_loop hash c keys removed expired s).1 j
              ≡ (if contains j keys then none else visible hash later s j))
  unfolding del_loop
  del_loop-writes [] removed expired s v fits = ((_, refl, ap ok (omega arith)), λ later j. refl)
  del_loop-writes (key ∷ keys) removed expired s v fits =
      let db = get_or s.shards (shard_for_key hash s key) [] in
      let touches = del-Touches c key db in
      let n = (del_one c key db).0 in
      let s' = (run_shard hash key (Database.del c (key ∷ [])) s).1 in
      let rest =
        del_loop-writes keys (removed + (0 + n)) _ s'
          (after_change hash s v key _ touches (omega arith))
          (omega (
            arith,
            total-set s.shards (shard_for_key hash s key) _ (shard-lt hash s v key),
            Touches-length touches (shard-IsUnique hash s v key),
          )) in
      let counted : removed + (0 + n) + erased_count keys (seen s')
          ≡ removed + erased_count (key ∷ keys) (seen s) =
        omega (arith, ap (erased_count keys) (seen-del_one key s v), del_one-seen key s) in
      (
        subst (λ a. Answers (del_loop hash c (key ∷ keys) removed expired s).0 a) counted rest.0,
        λ later j.
            rest.1 later j
            ∙ ap (λ o. if contains j keys then none else o) (visible-del_one key s later j v)
            ∙ erased_twice (bytes_eq key j) (contains j keys) (visible hash later s j),
      )

  -- `del` on a valid store answers how many visible entries it erased, a key named twice counted
  -- once; afterwards none of its keys shows an entry, and every other key shows what it showed.
  pub del-writes :
      (keys : List Bytes) (s : ShardedDatabase)
      → IsValid hash s
      → total s.shards + length keys < usize_limit
      → Answers (del hash c keys s).0 (erased_count keys (seen s))
        × ((later : ℕ) (j : Bytes)
            → visible hash later (del hash c keys s).1 j
              ≡ (if contains j keys then none else visible hash later s j))
  unfolding del
  del-writes keys s v fits =
      let (answer, views) = del_loop-writes keys 0 0 s v fits in
      (subst (λ a. Answers (del_loop hash c keys 0 0 s).0 a) (omega arith) answer, views)
