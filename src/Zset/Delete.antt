-- ===== src/Zset/Delete.antt =====
-- zset_delete, on the list of the pairs.
use byo_redis.Prelude.{
  ℕ, ◌≤◌, ◌<◌, ◌^◌, ◌≡◌, refl, ap, ◌∙◌, inl, inr, Bool, true, Bool-cases, ◌&&◌, List, [], ◌∷◌,
  Option, none, some, ◌==◌, ==_iff, if◌then◌else◌, arith,
}
use byo_redis.Prelude.Run.{Run, ok, fault, assert_failed, ◌>>=◌, Returns}
use byo_redis.Avl.Shape.{inorder, count}
use byo_redis.Hashtable.{HNode, HMap, matches}
use byo_redis.Hashtable.Bag.{one, tally}
use byo_redis.Hashtable.Rehashing.{IsMap, total}
use byo_redis.Hashtable.Removal.{Deleted, no_node, a_node, hm_delete-Deleted}
use byo_redis.Zset.{ZMemory, Container, ZSet, str_hash, hcmp, hkey, hnode, detach, zset_delete}
use byo_redis.Zset.Order.{IsNumber}
use byo_redis.Zset.Entries.{
  without, All-without, without-IsSorted, without-IsUnique, same_bytes_refl,
}
use byo_redis.Zset.Insertion.{entries}
use byo_redis.Zset.Removal.{detach-Detached}
use byo_redis.Zset.Nodes.{one_address}
use byo_redis.Zset.Names.{IsZset, total-count, matches-name, is_hnode, its_name}

-- a set that has the pairs of `z` less those of the name
pub record Drop (m : ZMemory) (z : ZSet) (name : List ℕ) (z' : ZSet) : Type 0 where
  pub sound : IsZset m z'
  pub list : entries m z'.root ≡ without name (entries m z.root)

-- a tally that counts a node is positive
tally_at :
    (m : ZMemory) (a : ℕ) (q : HNode Container → Bool) (xs : List ℕ)
    → q (hnode m a) ≡ true
    → 0 < tally (λ b. b == a) xs
    → 0 < tally (λ b. q (hnode m b)) xs
tally_at m a q [] e at = at
tally_at m a q (x ∷ xs) e at = elim (Bool-cases (x == a)) [
  | inl p ↦
      omega (
        arith,
        ap {B = ℕ} (λ c. if c then 1 else 0) (ap (λ y. q (hnode m y)) ((==_iff x a).0 p) ∙ e),
      )
  | inr p ↦
      omega (arith, tally_at m a q xs e (omega (arith, at, ap {B = ℕ} (λ c. if c then 1 else 0) p)))
]

-- the hash code of a node that a key matches
pub matches-hcode :
    (m : ZMemory) (name : List ℕ) (n : HNode Container)
    → matches (hcmp m) (hkey name) n ≡ true
    → n.hcode ≡ str_hash name
matches-hcode m name n h =
    (==_iff n.hcode (str_hash name)).0 (first (n.hcode == str_hash name) (hcmp m n (hkey name)) h)
  where
    first : (b c : Bool) → (b && c) ≡ true → b ≡ true
    first b c h = ground arith

-- a node of the table that the name of `a` matches is that of `a`
same_node :
    (m : ZMemory) (z : ZSet) (a : ℕ) (n : HNode Container)
    → IsZset m z
    → 0 < tally (λ b. b == a) (inorder z.root)
    → matches (hcmp m) (hkey (m a).name) n ≡ true
    → ((p : HNode Container → Bool) → one p n ≤ total p z.hmap)
    → n ≡ hnode m a
same_node m z a n v at e le =
    let there = is_hnode m (inorder z.root) n (λ p. omega (arith, le p, v.linked p)) in
    let same : there.0 ≡ a =
      one_address m (there.0) a (inorder z.root) v.unique (there.2) at
        (its_name m (m a).name n (there.0) (there.1) e) in
    cc (matches-hcode m (m a).name n e, there.1, same)

-- In a sound set of fewer than 2 ^ 32 pairs zset_delete of a node of the set succeeds, keeps the set
-- sound, and the pairs in order are those before without the pair of the node's name.
pub zset_delete-Drop :
    (m : ZMemory) (z : ZSet) (a : ℕ)
    → IsZset m z
    → 0 < tally (λ b. b == a) (inorder z.root)
    → count z.root < 2 ^ 32
    → Returns (zset_delete m z a) (Drop m z (m a).name)
unfolding zset_delete
zset_delete-Drop m z a v at b =
    let ((h, o), run, (w, d)) =
      hm_delete-Deleted z.hmap (hkey (m a).name) (hcmp m) v.is_map
        (omega (arith, total-count m z v, b)) in
    rw run (by_result h o w d)
  where
    key : HNode Container → Bool
    key = matches (hcmp m) (hkey (m a).name)

    by_result :
        (h : HMap Container) (o : Option (HNode Container))
        → IsMap h
        → Deleted key z.hmap h o
        → Returns
            (elim o as (λ x. Run ZSet) [
              | none ↦ fault assert_failed
              | some found ↦ detach z.root a >>= λ root. ok (record { root = root; hmap = h })
            ])
            (Drop m z (m a).name)
    by_result h none w (no_node e keep) = absurd (
        omega (
          arith,
          e,
          v.linked key,
          tally_at m a key (inorder z.root)
              (matches-name m (m a).name a ∙ same_bytes_refl (m a).name) at,
        ))
    by_result h (some n) w (a_node _ e bag) =
        let (t, run, k) = detach-Detached m z.root a v.unique v.avl b at in
        let same = same_node m z a n v at e (λ p. omega (arith, bag p)) in
        (
          record { root = t; hmap = h },
          rw run refl,
          record {
            sound = record {
              avl = k.avl;
              numbers = rw k.list (All-without IsNumber (m a).name (entries m z.root) v.numbers);
              sorted = rw k.list (without-IsSorted (m a).name (entries m z.root) v.sorted);
              unique = rw k.list (without-IsUnique (m a).name (entries m z.root) v.unique);
              is_map = w;
              linked = λ q. omega (
                arith,
                bag q,
                v.linked q,
                k.bag (λ c. q (hnode m c)),
                ap {B = ℕ} (λ x. one q x) same,
              );
            };
            list = k.list;
          },
        )
