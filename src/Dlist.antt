-- ===== src/Dlist.antt =====
-- include/byoredis/ds/list.hh: the intrusive circular list. The memory is a function from the
-- address of a node to its two pointers.
pub mod Ring
use byo_redis.Prelude.{ℕ, Bool, ◌==◌, if◌then◌else◌}

pub record DList : Type 0 where
  pub prev : ℕ
  pub next : ℕ

-- `node->prev = to` and `node->next = to`
unfoldable pub set_prev : (ℕ → DList) → ℕ → ℕ → ℕ → DList
set_prev m node to q = record { prev = if q == node then to else (m q).prev; next = (m q).next }

unfoldable pub set_next : (ℕ → DList) → ℕ → ℕ → ℕ → DList
set_next m node to q = record { prev = (m q).prev; next = if q == node then to else (m q).next }

unfoldable pub dlist_init : (ℕ → DList) → ℕ → ℕ → DList
dlist_init m node = set_next (set_prev m node node) node node

unfoldable pub dlist_empty : (ℕ → DList) → ℕ → Bool
dlist_empty m node = (m node).next == node

unfoldable pub dlist_detach : (ℕ → DList) → ℕ → ℕ → DList
dlist_detach m node =
    let prev = (m node).prev in
    let next = (m node).next in set_prev (set_next m prev next) next prev

unfoldable pub dlist_insert_before : (ℕ → DList) → ℕ → ℕ → ℕ → DList
dlist_insert_before m target rookie =
    let prev = (m target).prev in
    set_prev (set_next (set_prev (set_next m prev rookie) rookie prev) rookie target) target rookie
