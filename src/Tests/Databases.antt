-- ===== src/Tests/Databases.antt =====
-- Tests of src/server/db.cc and src/server/commands.cc.
use byo_redis.Prelude.{ℕ, zero, suc, ◌≡◌, refl, inl, inr, List, [], ◌∷◌, none, some, All, arith}
use byo_redis.Prelude.Int.{ℤ, pos}
use byo_redis.Buffer.{Buffer}
use byo_redis.Heap.Order.{IsValid}
use byo_redis.Hashtable.{HTab, no_table}
use byo_redis.Hashtable.Bag.{Home}
use byo_redis.Hashtable.Tables.{slot_of, IsTab-no_table}
use byo_redis.Zset.{Container, str_hash}
use byo_redis.Database.{
  t_str, t_zset, Entry, Database, no_index, empty_zset, blank_memory, entry_node,
}
use byo_redis.Commands.{run_get, run_set, run_zadd, run_del, run_zrem}
use byo_redis.Commands.Values.{Implements, IsDatabase, store_of}
use byo_redis.Commands.Strings.{
  get_reply, set_store, set_reply, run_get-Implements, run_set-Implements,
}
use byo_redis.Commands.Deletion.{forget, del_reply, run_del-Implements}
use byo_redis.Commands.Members.{rem_store, rem_reply, run_zrem-Implements}
use byo_redis.Commands.Sets.{pairs_of}
use byo_redis.Tests.Zsets.{members, pair, pair-IsZset}
use byo_redis.Commands.Sets.{zadd_store, zadd_reply, run_zadd-Implements}

-- the key "k" holds the string "v"
abbrev entry : Entry
entry = record {
  key = 107 ∷ [];
  kind = t_str;
  str = 118 ∷ [];
  nodes = blank_memory;
  zset = empty_zset;
}

abbrev table : HTab Container
table = record { tab = (entry_node (λ a. entry) 5 ∷ []) ∷ [] ∷ [] ∷ [] ∷ []; mask = 3; size = 1 }

abbrev one_key : Database
one_key = record {
  db = record { newer = table; older = no_table; migrate_pos = 0 };
  entries = λ a. entry;
  heap = record { items = []; refs = λ a. no_index };
  queue = [];
  freed = [];
}

table-Home : (i : ℕ) → All (Home 3 i) (slot_of table i)
unfolding str_hash
table-Home zero = (refl, tt)
table-Home (suc zero) = tt
table-Home (suc (suc zero)) = tt
table-Home (suc (suc (suc zero))) = tt
table-Home (suc (suc (suc (suc i)))) = tt

abbrev one_key-IsDatabase : IsDatabase one_key (5 ∷ [])
one_key-IsDatabase = record {
  keys = record {
    is_map = record {
      newer = record {
        log = 2;
        log_small = omega arith;
        power = refl;
        width = inr (refl, omega arith);
        home = table-Home;
        size = refl;
      };
      older = IsTab-no_table;
      moved = λ i h. refl;
      ready = inl (omega arith);
    };
    unique = (tt, tt);
    linked = λ q. omega arith;
  };
  sound = λ key a h. inl refl;
}

abbrev blank : Buffer
blank = record { buf = []; readable_begin = 0; writable_begin = 0; placeholder_stack = [] }

-- `get k` finds the string
run_get-Implements_example :
    Implements
      (store_of one_key (5 ∷ []))
      (get_reply (store_of one_key (5 ∷ []) (107 ∷ [])) blank)
      (run_get ((103 ∷ []) ∷ (107 ∷ []) ∷ []) one_key blank)
run_get-Implements_example =
    run_get-Implements one_key (5 ∷ []) (103 ∷ []) (107 ∷ []) [] blank one_key-IsDatabase
      (omega arith)

-- `set k w` replaces it
run_set-Implements_example :
    Implements
      (set_store (store_of one_key (5 ∷ [])) (107 ∷ []) (119 ∷ []))
      (set_reply (store_of one_key (5 ∷ []) (107 ∷ [])) blank)
      (run_set 6 ((115 ∷ []) ∷ (107 ∷ []) ∷ (119 ∷ []) ∷ []) one_key blank)
run_set-Implements_example =
    run_set-Implements one_key (5 ∷ []) 6 (115 ∷ []) (107 ∷ []) (119 ∷ []) [] blank
      one_key-IsDatabase ((λ e. omega arith), tt) (omega arith)

no_timer-IsValid : IsValid one_key.heap
no_timer-IsValid = record {
  order = λ c p q. absurd (omega (arith, q));
  synced = λ i q. absurd (omega (arith, q));
}

-- `del k` deletes the only key
run_del-Implements_example :
    Implements
      (forget (107 ∷ []) (store_of one_key (5 ∷ [])))
      (del_reply (store_of one_key (5 ∷ []) (107 ∷ [])) blank)
      (run_del 1000 ((100 ∷ []) ∷ (107 ∷ []) ∷ []) one_key blank)
run_del-Implements_example =
    run_del-Implements 1000 one_key (5 ∷ []) (100 ∷ []) (107 ∷ []) [] blank one_key-IsDatabase
      (omega arith) no_timer-IsValid (λ a h. inl refl)

-- every text of one byte is the number 1
abbrev strtod : List ℕ → ℕ × ℕ
strtod s = (4607182418800017408, 1)

abbrev strtoll : List ℕ → ℤ × ℕ
strtoll s = (pos 1, 1)

not_there : (a : ℕ) → none ≡ some a → ⊥
not_there a h = cc

-- `zadd z 1 a` makes a new set
run_zadd-Implements_example :
    Implements
      (zadd_store (store_of one_key (5 ∷ [])) (122 ∷ []) (97 ∷ []) (some 4607182418800017408))
      (zadd_reply (store_of one_key (5 ∷ []) (122 ∷ [])) (97 ∷ []) blank (some 4607182418800017408))
      (run_zadd strtod strtoll 6 7
        ((122 ∷ []) ∷ (122 ∷ []) ∷ (49 ∷ []) ∷ (97 ∷ []) ∷ [])
        one_key
        blank)
run_zadd-Implements_example =
    run_zadd-Implements strtod strtoll one_key (5 ∷ []) 6 7 (122 ∷ []) (122 ∷ []) (49 ∷ [])
      (97 ∷ []) [] blank one_key-IsDatabase ((λ e. omega arith), tt) (omega arith)
      (λ a h. absurd (not_there a h))

-- the key "k" holds a sorted set of the members "a" and "b"
abbrev set_entry : Entry
set_entry = record { key = 107 ∷ []; kind = t_zset; str = []; nodes = members; zset = pair }

abbrev one_set : Database
one_set = record one_key { entries = λ a. set_entry }

abbrev one_set-IsDatabase : IsDatabase one_set (5 ∷ [])
one_set-IsDatabase = record {
  keys = record {
    is_map = one_key-IsDatabase.keys.is_map;
    unique = (tt, tt);
    linked = λ q. omega arith;
  };
  sound = λ key a h. inr (refl, pair-IsZset);
}

-- `zrem k a` leaves the member "b"
run_zrem-Implements_example :
    Implements
      (rem_store
        (store_of one_set (5 ∷ []))
        (107 ∷ [])
        (97 ∷ [])
        (pairs_of (store_of one_set (5 ∷ []) (107 ∷ []))))
      (rem_reply (97 ∷ []) (pairs_of (store_of one_set (5 ∷ []) (107 ∷ []))) blank)
      (run_zrem ((122 ∷ []) ∷ (107 ∷ []) ∷ (97 ∷ []) ∷ []) one_set blank)
run_zrem-Implements_example =
    run_zrem-Implements one_set (5 ∷ []) (122 ∷ []) (107 ∷ []) (97 ∷ []) [] blank one_set-IsDatabase
      (omega arith) (λ a h. omega arith)
