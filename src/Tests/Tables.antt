-- ===== src/Tests/Tables.antt =====
-- Tests of src/ds/hashtable.cc.
use byo_redis.Prelude.{
  ℕ, zero, suc, ◌+◌, ◌<◌, ◌≡◌, refl, inl, inr, Bool, true, [], ◌∷◌, ◌++◌, All, ◌==◌, arith,
}
use byo_redis.Prelude.Run.{ok, Returns}
use byo_redis.Hashtable.{
  HNode, HTab, HMap, round_up_power_of_2, matches, hm_help_rehashing, hm_lookup, hm_delete,
  hm_insert, hm_foreach,
}
use byo_redis.Hashtable.Bag.{one, nodes, Home}
use byo_redis.Hashtable.Tables.{slot_of}
use byo_redis.Hashtable.Rehashing.{IsMap, total, Moved, hm_help_rehashing-Moved}
use byo_redis.Hashtable.Methods.{Found, hm_lookup-Found, hm_insert-Gains}
use byo_redis.Hashtable.Removal.{Deleted, hm_delete-Deleted}
use byo_redis.Hashtable.Visits.{visit, hm_foreach-visit}

rounded : round_up_power_of_2 100 ≡ 128
unfolding round_up_power_of_2
rounded = refl

-- two nodes whose hash codes fall into slot 1 of 4
abbrev five : HNode ℕ
five = record { hcode = 5; payload = 50 }

abbrev nine : HNode ℕ
nine = record { hcode = 9; payload = 90 }

abbrev old_tab : HTab ℕ
old_tab = record { tab = [] ∷ (five ∷ nine ∷ []) ∷ [] ∷ [] ∷ []; mask = 3; size = 2 }

abbrev new_tab : HTab ℕ
new_tab = record { tab = [] ∷ [] ∷ [] ∷ [] ∷ [] ∷ [] ∷ [] ∷ [] ∷ []; mask = 7; size = 0 }

-- a map at the start of a rehashing
abbrev rehashing : HMap ℕ
rehashing = record { newer = new_tab; older = old_tab; migrate_pos = 1 }

old-Home : (i : ℕ) → All (Home 3 i) (slot_of old_tab i)
old-Home zero = tt
old-Home (suc zero) = (refl, (refl, tt))
old-Home (suc (suc zero)) = tt
old-Home (suc (suc (suc zero))) = tt
old-Home (suc (suc (suc (suc i)))) = tt

new-Home : (i : ℕ) → All (Home 7 i) (slot_of new_tab i)
new-Home zero = tt
new-Home (suc zero) = tt
new-Home (suc (suc zero)) = tt
new-Home (suc (suc (suc zero))) = tt
new-Home (suc (suc (suc (suc zero)))) = tt
new-Home (suc (suc (suc (suc (suc zero))))) = tt
new-Home (suc (suc (suc (suc (suc (suc zero)))))) = tt
new-Home (suc (suc (suc (suc (suc (suc (suc zero))))))) = tt
new-Home (suc (suc (suc (suc (suc (suc (suc (suc i)))))))) = tt

first_empty : (i : ℕ) → i < 1 → slot_of old_tab i ≡ []
first_empty zero h = refl
first_empty (suc i) h = absurd (omega arith)

abbrev rehashing-IsMap : IsMap rehashing
rehashing-IsMap = record {
  newer = record {
    log = 3;
    log_small = omega arith;
    power = refl;
    width = inr (refl, omega arith);
    home = new-Home;
    size = refl;
  };
  older = record {
    log = 2;
    log_small = omega arith;
    power = refl;
    width = inr (refl, omega arith);
    home = old-Home;
    size = refl;
  };
  moved = first_empty;
  ready = inl (omega arith);
}

abbrev same_payload : HNode ℕ → HNode ℕ → Bool
same_payload a b = a.payload == b.payload

hm_help_rehashing-Moved_example : Returns (hm_help_rehashing rehashing) (Moved 0 rehashing)
hm_help_rehashing-Moved_example = hm_help_rehashing-Moved rehashing rehashing-IsMap (omega arith)

hm_lookup-Found_example : Returns (hm_lookup rehashing nine same_payload) (λ r.
    IsMap (r.0)
    × ((p : HNode ℕ → Bool) → total p (r.0) ≡ total p rehashing)
    × Found (matches same_payload nine) rehashing (r.1))
hm_lookup-Found_example = hm_lookup-Found rehashing nine same_payload rehashing-IsMap (omega arith)

hm_delete-Deleted_example :
    Returns
      (hm_delete rehashing five same_payload)
      (λ r. IsMap (r.0) × Deleted (matches same_payload five) rehashing (r.0) (r.1))
hm_delete-Deleted_example =
    hm_delete-Deleted rehashing five same_payload rehashing-IsMap (omega arith)

hm_insert-Gains_example :
    Returns
      (hm_insert rehashing five)
      (λ m'. IsMap m' × ((q : HNode ℕ → Bool) → total q m' ≡ one q five + total q rehashing))
hm_insert-Gains_example = hm_insert-Gains rehashing five rehashing-IsMap (omega arith)

-- adds up the payloads and stops behind 60
abbrev add_up : HNode ℕ → ℕ → ℕ × Bool
add_up n s = (s + n.payload, s == 0)

hm_foreach-visit_example :
    hm_foreach add_up rehashing 0
    ≡ ok ((visit add_up (0, true) (nodes new_tab.tab ++ nodes old_tab.tab)).0)
hm_foreach-visit_example = hm_foreach-visit add_up rehashing 0 rehashing-IsMap
