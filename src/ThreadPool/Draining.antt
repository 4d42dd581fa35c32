-- ===== src/ThreadPool/Draining.antt =====
-- The threads finish what is queued, and none of them has to wake without a signal.
use byo_redis.Prelude.{
  ℕ, zero, suc, ◌+◌, ◌*◌, ◌≤◌, ◌≡◌, refl, ap, ◌∙◌, ◌⊎◌, inl, inr, Bool, false, List, [], ◌∷◌, ◌++◌,
  length, length-append, arith,
}
use byo_redis.Hashtable.Bag.{tally, tally-append}
use byo_redis.ThreadPool.{
  Worker, awake, asleep, busy, is_awake, is_asleep, ThreadPool, Work, take_job, wait, finish, Reach,
  Works, done, step,
}
use byo_redis.ThreadPool.Accounting.{
  running, running-append, IsAccounted, Work-IsAccounted, Reach-IsAccounted,
}
use byo_redis.ThreadPool.Waking.{IsWoken, Work-IsWoken, Reach-IsWoken}

module _ {ℓ} {A : Type ℓ} where
  -- the steps that are left: two for a waiting job, two for a running one, after which its thread goes on, and one for a
  -- thread that goes to sleep
  abbrev pub steps_left : ThreadPool A → ℕ
  steps_left tp =
      2 * length tp.queue + (2 * length (running tp.threads) + tally is_awake tp.threads)

  running-place :
      (xs ys : List (Worker A)) (w : Worker A)
      → length (running (xs ++ w ∷ ys)) ≡ length (running (w ∷ [])) + length (running (xs ++ ys))
  running-place xs ys w =
      rw (running-append xs (w ∷ ys), running-append xs ys, running-append (w ∷ []) ys)
        (omega (
          arith,
          length-append (running xs) (running (w ∷ []) ++ running ys),
          length-append (running (w ∷ [])) (running ys),
          length-append (running xs) (running ys),
        ))

  -- one thread changes
  changed_steps :
      (tp tp' : ThreadPool A) (xs ys : List (Worker A)) (w w' : Worker A)
      → tp.threads ≡ xs ++ w ∷ ys
      → tp'.threads ≡ xs ++ w' ∷ ys
      → suc (2 * length tp'.queue + (2 * length (running (w' ∷ [])) + tally is_awake (w' ∷ [])))
        ≡ 2 * length tp.queue + (2 * length (running (w ∷ [])) + tally is_awake (w ∷ []))
      → suc (steps_left tp') ≡ steps_left tp
  changed_steps tp tp' xs ys w w' before after e = omega (
    arith,
    e,
    running-place xs ys w,
    running-place xs ys w',
    ap (λ ts. length (running ts)) before,
    ap (λ ts. length (running ts)) after,
    ap (tally is_awake) before,
    ap (tally is_awake) after,
    tally-append is_awake xs (w ∷ ys),
    tally-append is_awake xs (w' ∷ ys),
  )

  Work-steps_left : {tp tp' : ThreadPool A} → Work tp tp' → suc (steps_left tp') ≡ steps_left tp
  Work-steps_left {tp} {tp'} (take_job xs ys job rest threads queue e) =
      changed_steps tp tp' xs ys awake (busy job) threads (ap (λ t. t.threads) e)
        (omega (arith, ap length queue, ap (λ t. length t.queue) e))
  Work-steps_left {tp} {tp'} (wait xs ys threads empty e) =
      changed_steps tp tp' xs ys awake asleep threads (ap (λ t. t.threads) e)
        (omega (arith, ap (λ t. length t.queue) e))
  Work-steps_left {tp} {tp'} (finish xs ys job threads e) =
      changed_steps tp tp' xs ys (busy job) awake threads (ap (λ t. t.threads) e)
        (omega (arith, ap (λ t. length t.queue) e))

  Work-queued : {tp tp' : ThreadPool A} → Work tp tp' → tp'.queued ≡ tp.queued
  Work-queued (take_job xs ys job rest threads queue e) = ap (λ t. t.queued) e
  Work-queued (wait xs ys threads empty e) = ap (λ t. t.queued) e
  Work-queued (finish xs ys job threads e) = ap (λ t. t.queued) e

  -- a thread that does not sleep, if there is one
  Stirring : List (Worker A) → Type ℓ
  Stirring ts =
      (xs : List (Worker A)) × (w : Worker A) × (ys : List (Worker A)) × (ts ≡ xs ++ w ∷ ys)
      × (is_asleep w ≡ false)

  -- all threads sleep
  record AllAsleep (ts : List (Worker A)) : Type ℓ where
    idle : running ts ≡ []
    asleep : tally is_asleep ts ≡ length ts

  Stirring-or_asleep : (ts : List (Worker A)) → Stirring ts ⊎ AllAsleep ts
  unfolding Stirring
  Stirring-or_asleep [] = inr (record { idle = refl; asleep = refl })
  Stirring-or_asleep (awake ∷ ts) = inl ([], awake, ts, refl, refl)
  Stirring-or_asleep (busy job ∷ ts) = inl ([], busy job, ts, refl, refl)
  Stirring-or_asleep (asleep ∷ ts) = elim (Stirring-or_asleep ts) [
    | inl b ↦ inl (asleep ∷ b.0, b.1, b.2, ap (◌∷◌ asleep) (b.3), b.4)
    | inr k ↦ inr (record { idle = k.idle; asleep = omega (arith, k.asleep) })
  ]

  awake-le : (ts : List (Worker A)) → tally is_awake ts + tally is_asleep ts ≤ length ts
  awake-le [] = omega arith
  awake-le (awake ∷ ts) = omega (arith, awake-le ts)
  awake-le (asleep ∷ ts) = omega (arith, awake-le ts)
  awake-le (busy job ∷ ts) = omega (arith, awake-le ts)

  -- what a pool is when its threads have run dry: every job that was queued is finished
  pub record Drained (tp tp' : ThreadPool A) : Type ℓ where
    pub empty : tp'.queue ≡ []
    pub idle : running tp'.threads ≡ []
    pub asleep : tally is_asleep tp'.threads ≡ length tp'.threads
    pub all : (q : A → Bool) → tally q tp'.finished ≡ tally q tp.queued

  -- a thread can step, or every job is finished
  abbrev pub GoesOn : ThreadPool A → ThreadPool A → Type ℓ
  GoesOn tp tp' = ((after : ThreadPool A) × Work tp' after) ⊎ Drained tp tp'

  progress :
      (tp tp' : ThreadPool A)
      → IsAccounted tp'
      → IsWoken tp'
      → tp'.queued ≡ tp.queued
      → GoesOn tp tp'
  unfolding Stirring
  progress tp tp' v wake same = by_threads (Stirring-or_asleep tp'.threads) tp'.queue refl
    where
      drained : tp'.queue ≡ [] → AllAsleep tp'.threads → Drained tp tp'
      drained empty k = record {
        empty = empty;
        idle = k.idle;
        asleep = k.asleep;
        all = λ q. omega (
          arith,
          v.once q,
          ap (tally q) same,
          ap (tally q) v.order,
          tally-append q tp'.started tp'.queue,
          ap (tally q) empty,
          ap (tally q) k.idle,
        );
      }

      no_jobs : (queue : List A) → length queue ≡ 0 → queue ≡ []
      no_jobs [] e = refl
      no_jobs (job ∷ rest) e = absurd (omega (arith, e))

      by_threads :
          Stirring tp'.threads ⊎ AllAsleep tp'.threads
          → (queue : List A) → tp'.queue ≡ queue
          → GoesOn tp tp'
      by_threads (inl (xs, awake, ys, e, f)) [] q = inl (_, wait xs ys e q refl)
      by_threads (inl (xs, awake, ys, e, f)) (job ∷ rest) q =
          inl (_, take_job xs ys job rest e q refl)
      by_threads (inl (xs, busy job, ys, e, f)) queue q = inl (_, finish xs ys job e refl)
      by_threads (inl (xs, asleep, ys, e, f)) queue q = cc
      by_threads (inr k) queue q = inr (
          drained
            (no_jobs tp'.queue (elim wake [
              | inl z ↦ absurd (omega (arith, z, k.asleep, v.threads))
              | inr le ↦ omega (arith, le, awake-le tp'.threads, k.asleep)
            ]))
            k)

  -- whatever the threads do
  run_on :
      {n : ℕ} {tp tp' : ThreadPool A}
      → Works tp n tp'
      → IsAccounted tp
      → IsWoken tp
      → (n + steps_left tp' ≡ steps_left tp) × GoesOn tp tp'
  run_on {tp = tp} done v wake = (omega arith, progress tp tp v wake refl)
  run_on {tp = tp} (step {tp' = tp'} {tp'' = tp''} w ws) v wake =
      let (count, more) = run_on ws (Work-IsAccounted w v) (Work-IsWoken w wake) in
      (
        omega (arith, Work-steps_left w, count),
        elim more [
          | inl k ↦ inl k
          | inr d ↦ inr (record {
            empty = d.empty;
            idle = d.idle;
            asleep = d.asleep;
            all = λ q. d.all q ∙ ap (tally q) (Work-queued w);
          })
        ],
      )

  -- a run of all the steps
  runs :
      (n : ℕ) (tp : ThreadPool A)
      → steps_left tp ≡ n
      → IsAccounted tp
      → IsWoken tp
      → (tp' : ThreadPool A) × Works tp n tp'
  runs zero tp e v wake = (tp, done)
  runs (suc n) tp e v wake = elim (progress tp tp v wake refl) [
    | inl (tp', w) ↦
        let (tp'', ws) =
          runs n tp' (omega (arith, e, Work-steps_left w)) (Work-IsAccounted w v)
            (Work-IsWoken w wake) in
        (tp'', step w ws)
    | inr d ↦
        absurd
          (omega (arith, e, ap length d.empty, ap length d.idle, awake-le tp.threads, d.asleep))
  ]

  -- From every pool that the program comes to, when no more jobs are queued and no thread wakes without a
  -- signal, the threads can take as many steps as are left. However they take their steps, each makes
  -- the number of the steps that are left smaller by one, and at every point either one of them can step or
  -- the queue is empty, all threads sleep, and every queued job is finished, as often as it was queued.
  pub Reach-Drained :
      (num_threads : ℕ) (tp : ThreadPool A)
      → Reach num_threads tp
      → ((tp' : ThreadPool A) × Works tp (steps_left tp) tp')
        × ((n : ℕ) (tp' : ThreadPool A)
            → Works tp n tp'
            → (n + steps_left tp' ≡ steps_left tp) × GoesOn tp tp')
  Reach-Drained num_threads tp r =
      let v = Reach-IsAccounted num_threads tp r in
      let wake = Reach-IsWoken num_threads tp r in
      (runs (steps_left tp) tp refl v wake, λ n tp' ws. run_on ws v wake)
