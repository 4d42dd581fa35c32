-- ===== src/Tests/Pools.antt =====
-- Tests of src/server/thread_pool.cc.
use byo_redis.Prelude.{ℕ, ◌+◌, ◌≡◌, refl, [], ◌∷◌}
use byo_redis.ThreadPool.{
  awake, busy, ThreadPool, thread_pool_init, thread_pool_queue, wakes, nobody, take_job, wait, work,
  submit, Reach, start, next, Works,
}
use byo_redis.ThreadPool.Accounting.{IsAccounted, Reach-IsAccounted}
use byo_redis.ThreadPool.Draining.{steps_left, GoesOn, Reach-Drained}

-- One of four threads sleeps when a job is queued, and the signal wakes it; the second thread takes the job, and another
-- job is queued while no thread sleeps.
abbrev two_jobs : ThreadPool ℕ
two_jobs = record {
  threads = awake ∷ busy 10 ∷ awake ∷ awake ∷ [];
  queue = 20 ∷ [];
  queued = 10 ∷ 20 ∷ [];
  started = 10 ∷ [];
  finished = [];
}

two_jobs-Reach : Reach 2 two_jobs
unfolding thread_pool_init thread_pool_queue
two_jobs-Reach =
    next
      (next
        (next (next start (work (wait [] (awake ∷ awake ∷ awake ∷ []) refl refl refl))) (
          submit 10 (awake ∷ awake ∷ awake ∷ awake ∷ [])
            (wakes [] (awake ∷ awake ∷ awake ∷ []) refl refl) refl))
        (work (take_job (awake ∷ []) (awake ∷ awake ∷ []) 10 [] refl refl refl)))
      (submit 20 (awake ∷ busy 10 ∷ awake ∷ awake ∷ []) (nobody refl refl) refl)

Reach-IsAccounted_example : IsAccounted two_jobs
Reach-IsAccounted_example = Reach-IsAccounted 2 two_jobs two_jobs-Reach

Reach-Drained_example :
    ((tp : ThreadPool ℕ) × Works two_jobs 7 tp)
    × ((n : ℕ) (tp : ThreadPool ℕ)
        → Works two_jobs n tp
        → (n + steps_left tp ≡ 7) × GoesOn two_jobs tp)
Reach-Drained_example = Reach-Drained 2 two_jobs two_jobs-Reach
