-- ===== src/Commands/Values.antt =====
-- The database as a map from keys to values, which is all that the replies of the commands tell of it.
use byo_redis.Prelude.{
  ℕ, ◌≡◌, refl, ap, sym, ◌⊎◌, true, List, Option, none, some, ◌==◌, if◌then◌else◌,
}
use mathlib.Core.Path.{fun_ext, subst}
use byo_redis.Prelude.Run.{Run}
use byo_redis.Buffer.{Buffer}
use byo_redis.Zset.{ZNode, same_bytes}
use byo_redis.Zset.Insertion.{entries}
use byo_redis.Database.{t_str, t_zset, Entry, Database}
use byo_redis.Database.Keys.{IsKeys, Rehashed, address_of}
use byo_redis.Zset.Names.{IsZset}
use byo_redis.Commands.{reply}

-- a string, or the pairs of a sorted set in order
pub data Value : Type 0 where
  text : (bytes : List ℕ) → Value
  sorted : (pairs : List ZNode) → Value

abbrev pub value_of : Entry → Value
value_of e = if e.kind == t_str then text e.str else sorted (entries e.nodes e.zset.root)

abbrev pub Store : Type 0
Store = List ℕ → Option Value

abbrev pub value_at : (ℕ → Entry) → Option ℕ → Option Value
value_at entries none = none
value_at entries (some a) = some (value_of (entries a))

abbrev pub store_of : Database → List ℕ → Store
store_of d addresses key = value_at d.entries (address_of d.entries key addresses)

-- the map with a value under a key
abbrev pub put : List ℕ → Value → Store → Store
put key v σ k = if same_bytes key k then some v else σ k

-- a string, or a sound sorted set
abbrev pub IsSound : Entry → Type 0
IsSound e = ((e.kind == t_str) ≡ true) ⊎ ((e.kind ≡ t_zset) × IsZset e.nodes e.zset)

abbrev pub AllSound : (ℕ → Entry) → List ℕ → Type 0
AllSound f addresses = (key : List ℕ) (a : ℕ) → address_of f key addresses ≡ some a → IsSound (f a)

-- the keys are in order, and each entry has a sound value
pub record IsDatabase (d : Database) (addresses : List ℕ) : Type 0 where
  pub keys : IsKeys d addresses
  pub sound : AllSound d.entries addresses

-- The run ends in a sound database that means `σ`, with what `out` does to the buffer for its reply.
pub record Implements (σ : Store) (out : Run Buffer) (run : Run (Database × Buffer)) : Type 0 where
  pub after : Database
  pub addresses : List ℕ
  pub replies : run ≡ reply after out
  pub sound : IsDatabase after addresses
  pub means : (key : List ℕ) → store_of after addresses key ≡ σ key

-- a rehashed database means the same
pub Rehashed-means :
    (d : Database) (xs : List ℕ) (d' : Database)
    → Rehashed d xs d'
    → (key : List ℕ) → store_of d' xs key ≡ store_of d xs key
Rehashed-means d xs d' r key = ap (λ e. store_of e xs key) r.rest

pub Rehashed-store :
    (d : Database) (xs : List ℕ) (d' : Database) → Rehashed d xs d' → store_of d' xs ≡ store_of d xs
Rehashed-store d xs d' r = fun_ext (Rehashed-means d xs d' r)

pub Rehashed-IsDatabase :
    (d : Database) (xs : List ℕ) (d' : Database)
    → IsDatabase d xs
    → Rehashed d xs d'
    → IsDatabase d' xs
Rehashed-IsDatabase d xs d' v r = record {
  keys = r.keys;
  sound = subst (λ f. AllSound f xs) (sym (ap (λ x. x.entries) r.rest)) v.sound;
}

-- a lookup's answer, as the value of the key
pub Rehashed-Implements :
    (d : Database) (xs : List ℕ) (d' : Database) (out : Run Buffer)
    → IsDatabase d xs
    → Rehashed d xs d'
    → Implements (store_of d xs) out (reply d' out)
Rehashed-Implements d xs d' out v r = record {
  after = d';
  addresses = xs;
  replies = refl;
  sound = Rehashed-IsDatabase d xs d' v r;
  means = Rehashed-means d xs d' r;
}
