-- ===== src/Tests/Times.antt =====
-- Tests of src/server/time.cc.
use byo_redis.Prelude.{◌≡◌, refl, not, List, [], ◌∷◌, arith}
use byo_redis.Prelude.Int.{negsuc}
use byo_redis.Timers.{IdleConn, close_idle, next_timer_ms}
use byo_redis.Timers.Idle.{select, is_fresh, close_idle-select}
use byo_redis.Timers.Timeout.{earliest, timeout, next_timer_ms-timeout}

-- a connection that was idle for six seconds at the time 7000, and one that was for one
abbrev two_idle : List IdleConn
two_idle = record { fd = 5; last_active_ms = 1000 } ∷ record { fd = 6; last_active_ms = 6000 } ∷ []

close_idle-select_example :
    close_idle 7000 two_idle
    ≡ (select (is_fresh 7000) two_idle, select (λ c. not (is_fresh 7000 c)) two_idle)
close_idle-select_example =
    close_idle-select 7000 two_idle (omega arith, (omega arith, tt), (omega arith, tt, tt))

next_timer_ms-timeout_example :
    next_timer_ms 100 two_idle (record { val = 400; ref = 1 } ∷ [])
    ≡ timeout 100 (earliest two_idle (record { val = 400; ref = 1 } ∷ []))
next_timer_ms-timeout_example =
    next_timer_ms-timeout 100 7000 two_idle (record { val = 400; ref = 1 } ∷ [])
      (omega arith, omega arith) (omega arith) (omega arith)

-- a timer in 2 ^ 31 milliseconds gives a negative timeout, which epoll_wait takes for none
too_far : next_timer_ms 0 [] (record { val = 2147483648; ref = 1 } ∷ []) ≡ negsuc 2147483647
unfolding next_timer_ms
too_far = refl
