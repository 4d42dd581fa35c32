-- ===== src/Timers/Idle.antt =====
-- The idle connections that process_timers closes.
use byo_redis.Prelude.{
  ℕ, ◌+◌, ◌^◌, ◌≤◌, ◌<◌, ◌≡◌, refl, ap, inl, inr, Bool, true, not, Bool-cases, List, [], ◌∷◌, All,
  leb, leb→le, if◌then◌else◌, arith,
}
use byo_redis.Timers.{IdleConn, k_idle_timeout_ms, idle_deadline, close_idle}

-- the connections in the order of their last activity, none so late that its deadline wraps
abbrev pub IsByActivity : List IdleConn → Type 0
IsByActivity [] = Unit
IsByActivity (c ∷ rest) =
    (c.last_active_ms + k_idle_timeout_ms < 2 ^ 64)
    × All (λ d. c.last_active_ms ≤ d.last_active_ms) rest
    × IsByActivity rest

-- the connections that pass a test
abbrev pub select : (IdleConn → Bool) → List IdleConn → List IdleConn
select q [] = []
select q (c ∷ rest) = if q c then c ∷ select q rest else select q rest

-- the connection has been idle for at most the timeout
abbrev pub is_fresh : ℕ → IdleConn → Bool
is_fresh now c = leb now (c.last_active_ms + k_idle_timeout_ms)

both_fresh :
    (now : ℕ) (c : IdleConn) (cs : List IdleConn)
    → is_fresh now c ≡ true
    → All (λ d. c.last_active_ms ≤ d.last_active_ms) cs
    → (select (is_fresh now) cs ≡ cs) × (select (λ d. not (is_fresh now d)) cs ≡ [])
both_fresh now c [] e h = (refl, refl)
both_fresh now c (d ∷ cs) e h =
    let fresh : is_fresh now d ≡ true =
      ground (arith, h.0, leb→le now (c.last_active_ms + k_idle_timeout_ms)) in
    let rest = both_fresh now c cs e h.1 in (rw fresh (ap (◌∷◌ d) (rest.0)), rw fresh (rest.1))

-- On a list of connections in the order of their last activity, none so late that its deadline wraps,
-- process_timers keeps exactly the connections that have been idle for at most five seconds, in order, and closes
-- exactly the others.
pub close_idle-select :
    (now : ℕ) (idle : List IdleConn)
    → IsByActivity idle
    → close_idle now idle ≡ (select (is_fresh now) idle, select (λ c. not (is_fresh now c)) idle)
unfolding close_idle
close_idle-select now [] v = refl
close_idle-select now (c ∷ rest) v =
    let same : idle_deadline c ≡ c.last_active_ms + k_idle_timeout_ms = omega (arith, v.0) in
    elim (Bool-cases (is_fresh now c)) [
      | inl e ↦ let (kept, closed) = both_fresh now c rest e v.1 in rw (same, e, kept, closed) refl
      | inr e ↦ rw (same, e, close_idle-select now rest v.2) refl
    ]
