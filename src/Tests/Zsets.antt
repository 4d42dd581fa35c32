-- ===== src/Tests/Zsets.antt =====
-- Tests of src/ds/zset.cc.
use byo_redis.Prelude.{
  ℕ, zero, suc, ◌+◌, ◌≡◌, refl, ap, inl, inr, List, [], ◌∷◌, All, ◌==◌, if◌then◌else◌, arith,
}
use byo_redis.Prelude.Run.{Returns}
use byo_redis.Prelude.Int.{pos}
use byo_redis.Avl.{nil, node}
use byo_redis.Avl.Shape.{inorder}
use byo_redis.Hashtable.{HTab, no_table}
use byo_redis.Hashtable.Bag.{Home}
use byo_redis.Hashtable.Tables.{slot_of, IsTab-no_table}
use byo_redis.Double.{rank}
use byo_redis.Commands.{range_count}
use byo_redis.Commands.Ranges.{counted, range_count-counted}
use byo_redis.Zset.{
  ZMemory, ZSet, Container, hnode, str_hash, zset_insert, zset_delete, zset_seekge,
}
use byo_redis.Zset.Names.{IsZset}
use byo_redis.Zset.Methods.{Inserts, zset_insert-Inserts}
use byo_redis.Zset.Delete.{Drop, zset_delete-Drop}
use byo_redis.Zset.Seek.{rank_of, count_below, zset_seekge-rank}

-- the doubles 1 and 2
abbrev one_point : ℕ
one_point = 4607182418800017408

abbrev two_points : ℕ
two_points = 4611686018427387904

-- the member "a" at the address 7, and "b" at all others
abbrev pub members : ZMemory
members address =
    if address == 7
    then record { score = one_point; name = 97 ∷ [] }
    else record { score = two_points; name = 98 ∷ [] }

abbrev table : HTab Container
table = record {
  tab = [] ∷ (hnode members 8 ∷ []) ∷ (hnode members 7 ∷ []) ∷ [] ∷ [];
  mask = 3;
  size = 2;
}

abbrev pub pair : ZSet
pair = record {
  root = node nil 7 2 2 (node nil 8 1 1 nil);
  hmap = record { newer = table; older = no_table; migrate_pos = 0 };
}

abbrev first_byte : List ℕ → ℕ
first_byte [] = 0
first_byte (x ∷ xs) = x

table-Home : (i : ℕ) → All (Home 3 i) (slot_of table i)
unfolding str_hash
table-Home zero = tt
table-Home (suc zero) = (refl, tt)
table-Home (suc (suc zero)) = (refl, tt)
table-Home (suc (suc (suc zero))) = tt
table-Home (suc (suc (suc (suc i)))) = tt

pub pair-IsZset : IsZset members pair
unfolding inorder rank
pair-IsZset = record {
  avl = (refl, refl, omega arith, omega arith, tt, (refl, refl, omega arith, omega arith, tt, tt));
  numbers = (refl, (refl, tt));
  sorted = ((refl, tt), (tt, tt));
  unique = (((λ e. omega (arith, ap first_byte e)), tt), (tt, tt));
  is_map = record {
    newer = record {
      log = 2;
      log_small = omega arith;
      power = refl;
      width = inr (refl, omega arith);
      home = table-Home;
      size = refl;
    };
    older = IsTab-no_table;
    moved = λ i h. refl;
    ready = inl (omega arith);
  };
  linked = λ q. omega arith;
}

-- a new score for a known member, which goes behind the other one
zset_insert-Inserts_example :
    Returns
      (zset_insert members pair 9 (97 ∷ []) (two_points + 1))
      (Inserts members pair.root (97 ∷ []) (two_points + 1))
unfolding inorder
zset_insert-Inserts_example =
    zset_insert-Inserts members pair 9 (97 ∷ []) (two_points + 1) pair-IsZset refl
      ((λ e. omega arith), ((λ e. omega arith), tt)) (omega arith)

zset_delete-Drop_example : Returns (zset_delete members pair 8) (Drop members pair (98 ∷ []))
unfolding inorder
zset_delete-Drop_example = zset_delete-Drop members pair 8 pair-IsZset (omega arith) (omega arith)

zset_seekge-rank_example :
    rank_of 2 (zset_seekge members pair one_point (98 ∷ []))
    ≡ pos (count_below members (record { score = one_point; name = 98 ∷ [] }) pair.root)
zset_seekge-rank_example =
    zset_seekge-rank members pair one_point (98 ∷ []) pair-IsZset refl (omega arith)

-- `zcount` between the two members
range_count-counted_example :
    range_count members pair one_point [] two_points (98 ∷ [])
    ≡ counted 2
        (count_below members (record { score = one_point; name = [] }) pair.root)
        (count_below members (record { score = two_points; name = 98 ∷ [] }) pair.root)
range_count-counted_example =
    range_count-counted members pair one_point [] two_points (98 ∷ []) pair-IsZset (omega arith)
      refl refl
