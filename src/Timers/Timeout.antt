-- ===== src/Timers/Timeout.antt =====
-- The timeout that next_timer_ms gives to epoll_wait.
use byo_redis.Prelude.{
  ℕ, ◌+◌, ◌-◌, ◌^◌, ◌≤◌, ◌<◌, ◌≡◌, refl, min, List, [], ◌∷◌, Option, none, some, arith,
}
use byo_redis.Prelude.Int.{ℤ, pos, negsuc}
use byo_redis.Heap.{HeapItem}
use byo_redis.Timers.{IdleConn, k_idle_timeout_ms, next_timer_ms}

-- the time of the first timer, if there is one
abbrev pub earliest : List IdleConn → List HeapItem → Option ℕ
earliest [] [] = none
earliest (c ∷ idle) [] = some (c.last_active_ms + k_idle_timeout_ms)
earliest [] (t ∷ heap) = some t.val
earliest (c ∷ idle) (t ∷ heap) = some (min t.val (c.last_active_ms + k_idle_timeout_ms))

abbrev pub timeout : ℕ → Option ℕ → ℤ
timeout now none = negsuc 0
timeout now (some t) = pos (t - now)

-- the first timers of both kinds fire before the time `end`
abbrev pub IsBefore : ℕ → List IdleConn → List HeapItem → Type 0
IsBefore end [] [] = Unit
IsBefore end (c ∷ idle) [] = c.last_active_ms + k_idle_timeout_ms < end
IsBefore end [] (t ∷ heap) = t.val < end
IsBefore end (c ∷ idle) (t ∷ heap) = (c.last_active_ms + k_idle_timeout_ms < end) × (t.val < end)

-- When the first timers fire before 2 ^ 64 - 1 and within 2 ^ 31 milliseconds from now, next_timer_ms is
-- the time from now to the first of them, 0 when that is past, and -1 when there is none.
pub next_timer_ms-timeout :
    (now end : ℕ) (idle : List IdleConn) (heap : List HeapItem)
    → IsBefore end idle heap
    → end < 2 ^ 64
    → end ≤ now + 2 ^ 31
    → next_timer_ms now idle heap ≡ timeout now (earliest idle heap)
unfolding next_timer_ms
next_timer_ms-timeout now end [] [] h b c = refl
next_timer_ms-timeout now end (i ∷ idle) [] h b c = ground arith
next_timer_ms-timeout now end [] (t ∷ heap) h b c = ground arith
next_timer_ms-timeout now end (i ∷ idle) (t ∷ heap) h b c = ground arith
