-- ===== src/Protocol/Resp.antt =====
-- `resp.rs`. `RespFrame` borrows its texts from the input and `RespValue` owns them; the two have
-- the same constructors, so one type stands for both.
use rustkv_lab.Prelude.{ℕ, suc, List, [], ◌∷◌, Bytes, ◌≡◌, ap}
use rustkv_lab.Prelude.Int.{ℤ}

mutual
  pub data RespValue : Type 0 where
    simple_string : Bytes → RespValue
    error : Bytes → RespValue
    integer : ℤ → RespValue
    bulk_string : Bytes → RespValue
    array : RespValues → RespValue
    null : RespValue

  -- `Vec<RespValue>`
  pub data RespValues : Type 0 where
    nil : RespValues
    cons : RespValue → RespValues → RespValues

abbrev pub RespFrame : Type 0
RespFrame = RespValue

abbrev pub count : RespValues → ℕ
count nil = 0
count (cons v vs) = suc (count vs)

abbrev pub to_list : RespValues → List RespValue
to_list nil = []
to_list (cons v vs) = v ∷ to_list vs

abbrev pub from_list : List RespValue → RespValues
from_list [] = nil
from_list (v ∷ vs) = cons v (from_list vs)

pub to_list-from_list : (vs : List RespValue) → to_list (from_list vs) ≡ vs
to_list-from_list [] = λ _. []
to_list-from_list (v ∷ vs) = ap (λ l. v ∷ l) (to_list-from_list vs)
