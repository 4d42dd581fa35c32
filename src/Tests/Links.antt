-- ===== src/Tests/Links.antt =====
-- Tests of include/byoredis/ds/list.hh.
use byo_redis.Prelude.{ℕ, [], ◌∷◌, arith}
use byo_redis.Dlist.{DList, dlist_init, dlist_detach, dlist_insert_before}
use byo_redis.Dlist.Ring.{
  IsRing, dlist_init-IsRing, dlist_insert_before-IsRing, dlist_detach-IsRing,
}

-- the head 0, and behind it 1 and 2
abbrev unlinked : ℕ → DList
unlinked q = record { prev = 0; next = 0 }

abbrev empty : ℕ → DList
empty = dlist_init unlinked 0

abbrev pair : ℕ → DList
pair = dlist_insert_before (dlist_insert_before empty 0 1) 0 2

pair-IsRing : IsRing pair 0 (1 ∷ 2 ∷ [])
pair-IsRing =
    dlist_insert_before-IsRing (dlist_insert_before empty 0 1) 0 2 (1 ∷ [])
      (dlist_insert_before-IsRing empty 0 1 [] (dlist_init-IsRing unlinked 0)
        ((λ e. omega arith), tt))
      ((λ e. omega arith), ((λ e. omega arith), tt))

dlist_insert_before-IsRing_example : IsRing (dlist_insert_before pair 0 7) 0 (1 ∷ 2 ∷ 7 ∷ [])
dlist_insert_before-IsRing_example =
    dlist_insert_before-IsRing pair 0 7 (1 ∷ 2 ∷ []) pair-IsRing
      ((λ e. omega arith), ((λ e. omega arith), ((λ e. omega arith), tt)))

dlist_detach-IsRing_example : IsRing (dlist_detach pair 1) 0 (2 ∷ [])
dlist_detach-IsRing_example = dlist_detach-IsRing pair 0 1 [] (2 ∷ []) pair-IsRing
