-- ===== src/ThreadPool/Waking.antt =====
-- No wakeup is lost: while a thread sleeps, every waiting job has a thread that is on its way.
use byo_redis.Prelude.{
  ℕ, ◌+◌, ◌≤◌, ◌≡◌, ap, sym, ◌⊎◌, inl, inr, List, [], ◌∷◌, ◌++◌, length, length-append, arith,
}
use std.Path.{subst}
use byo_redis.Hashtable.Bag.{tally, tally-append}
use byo_redis.ThreadPool.{
  Worker, awake, asleep, busy, ThreadPool, is_awake, is_asleep, thread_pool_init, thread_pool_queue,
  Signalled, wakes, nobody, Work, take_job, wait, finish, work, submit, spurious, Reach, start,
  next,
}

module _ {ℓ} {A : Type ℓ} where
  -- no thread sleeps, or as many threads as jobs wait are awake
  abbrev pub IsWoken : ThreadPool A → Type 0
  IsWoken tp = (tally is_asleep tp.threads ≡ 0) ⊎ (length tp.queue ≤ tally is_awake tp.threads)

  -- a pool in which one thread has changed
  changed :
      (tp tp' : ThreadPool A) (xs ys : List (Worker A)) (w w' : Worker A)
      → IsWoken tp
      → tp.threads ≡ xs ++ w ∷ ys
      → tp'.threads ≡ xs ++ w' ∷ ys
      → tally is_asleep (w' ∷ []) ≤ tally is_asleep (w ∷ [])
      → length tp'.queue + tally is_awake (w ∷ []) ≤ length tp.queue + tally is_awake (w' ∷ [])
      → IsWoken tp'
  changed tp tp' xs ys w w' (inl h) before after less more = inl (
      omega (
        arith,
        h,
        less,
        ap (tally is_asleep) before,
        ap (tally is_asleep) after,
        tally-append is_asleep xs (w ∷ ys),
        tally-append is_asleep xs (w' ∷ ys),
      ))
  changed tp tp' xs ys w w' (inr h) before after less more = inr (
      omega (
        arith,
        h,
        more,
        ap (tally is_awake) before,
        ap (tally is_awake) after,
        tally-append is_awake xs (w ∷ ys),
        tally-append is_awake xs (w' ∷ ys),
      ))

  pub Work-IsWoken : {tp tp' : ThreadPool A} → Work tp tp' → IsWoken tp → IsWoken tp'
  Work-IsWoken {tp} {tp'} (take_job xs ys job rest threads queue e) v =
      changed tp tp' xs ys awake (busy job) v threads (ap (λ t. t.threads) e) (omega arith)
        (omega (arith, ap length queue, ap (λ t. length t.queue) e))
  Work-IsWoken {tp} {tp'} (wait xs ys threads empty e) v =
      inr (omega (arith, ap length empty, ap (λ t. length t.queue) e))
  Work-IsWoken {tp} {tp'} (finish xs ys job threads e) v =
      changed tp tp' xs ys (busy job) awake v threads (ap (λ t. t.threads) e) (omega arith)
        (omega (arith, ap (λ t. length t.queue) e))

  submit-IsWoken :
      (tp : ThreadPool A) (job : A) (ts : List (Worker A))
      → Signalled tp.threads ts
      → IsWoken tp
      → IsWoken (thread_pool_queue tp job ts)
  unfolding thread_pool_queue
  submit-IsWoken tp job ts (wakes xs ys before after) v =
      changed tp (thread_pool_queue tp job ts) xs ys asleep awake v before after (omega arith)
        (omega (arith, length-append tp.queue (job ∷ [])))
  submit-IsWoken tp job ts (nobody none_asleep same) v =
      inl (omega (arith, none_asleep, ap (tally is_asleep) same))

  pub Reach-IsWoken : (num_threads : ℕ) (tp : ThreadPool A) → Reach num_threads tp → IsWoken tp
  unfolding thread_pool_init
  Reach-IsWoken num_threads tp start = inr (omega arith)
  Reach-IsWoken num_threads tp (next {tp = before} r (work w)) =
      Work-IsWoken w (Reach-IsWoken num_threads before r)
  Reach-IsWoken num_threads tp (next {tp = before} r (submit job ts s e)) =
      subst IsWoken (sym e) (submit-IsWoken before job ts s (Reach-IsWoken num_threads before r))
  Reach-IsWoken num_threads tp (next {tp = before} r (spurious xs ys threads e)) =
      changed before tp xs ys asleep awake (Reach-IsWoken num_threads before r) threads
        (ap (λ t. t.threads) e) (omega arith) (omega (arith, ap (λ t. length t.queue) e))
