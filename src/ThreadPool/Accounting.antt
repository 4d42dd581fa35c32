-- ===== src/ThreadPool/Accounting.antt =====
-- Jobs are started in the order in which they were queued, and none is lost or run twice.
use byo_redis.Prelude.{
  ℕ, zero, suc, ◌+◌, ◌≤◌, ◌≡◌, refl, ap, sym, ◌∙◌, Bool, List, [], ◌∷◌, ◌++◌, length, length-append,
  length-replicate, ltb, if◌then◌else◌, replicate, arith,
}
use std.Path.{subst}
use mathlib.Core.List.{append_assoc}
use byo_redis.Hashtable.Bag.{tally, tally-append}
use byo_redis.ThreadPool.{
  Worker, awake, asleep, busy, ThreadPool, thread_pool_init, thread_pool_queue, Signalled, wakes,
  nobody, Work, take_job, wait, finish, work, submit, spurious, Reach, start, next,
}

module _ {ℓ} {A : Type ℓ} where
  -- the jobs that threads run
  abbrev pub running : List (Worker A) → List A
  running [] = []
  running (awake ∷ ts) = running ts
  running (asleep ∷ ts) = running ts
  running (busy job ∷ ts) = job ∷ running ts

  pub running-append : (xs ys : List (Worker A)) → running (xs ++ ys) ≡ running xs ++ running ys
  running-append [] ys = refl
  running-append (awake ∷ xs) ys = running-append xs ys
  running-append (asleep ∷ xs) ys = running-append xs ys
  running-append (busy job ∷ xs) ys = ap (◌∷◌ job) (running-append xs ys)

  running-replicate : (n : ℕ) → running (replicate n awake) ≡ []
  running-replicate zero = refl
  running-replicate (suc n) = running-replicate n

  -- The queue holds the jobs that are not started, in order; a started job runs or is finished; there
  -- are at least four threads.
  pub record IsAccounted (tp : ThreadPool A) : Type ℓ where
    pub order : tp.queued ≡ tp.started ++ tp.queue
    pub once :
        (q : A → Bool) → tally q tp.started ≡ tally q (running tp.threads) + tally q tp.finished
    pub threads : 4 ≤ length tp.threads

  -- one thread changes
  tally-place :
      (q : A → Bool) (xs ys : List (Worker A)) (w : Worker A)
      → tally q (running (xs ++ w ∷ ys)) ≡ tally q (running (w ∷ [])) + tally q (running (xs ++ ys))
  tally-place q xs ys w =
      rw (running-append xs (w ∷ ys), running-append xs ys, running-append (w ∷ []) ys)
        (omega (
          arith,
          tally-append q (running xs) (running (w ∷ []) ++ running ys),
          tally-append q (running (w ∷ [])) (running ys),
          tally-append q (running xs) (running ys),
        ))

  -- a pool in which one thread has changed
  changed :
      (tp tp' : ThreadPool A) (xs ys : List (Worker A)) (w w' : Worker A)
      → IsAccounted tp
      → tp.threads ≡ xs ++ w ∷ ys
      → tp'.threads ≡ xs ++ w' ∷ ys
      → tp'.queued ≡ tp'.started ++ tp'.queue
      → ((q : A → Bool)
          → tally q tp'.started + (tally q (running (w ∷ [])) + tally q tp.finished)
            ≡ tally q tp.started + (tally q (running (w' ∷ [])) + tally q tp'.finished))
      → IsAccounted tp'
  changed tp tp' xs ys w w' v before after order moved = record {
    order = order;
    once = λ q. omega (
      arith,
      v.once q,
      moved q,
      tally-place q xs ys w,
      tally-place q xs ys w',
      ap (λ ts. tally q (running ts)) before,
      ap (λ ts. tally q (running ts)) after,
    );
    threads = omega (
      arith,
      v.threads,
      ap length before,
      ap length after,
      length-append xs (w ∷ ys),
      length-append xs (w' ∷ ys),
    );
  }

  pub Work-IsAccounted : {tp tp' : ThreadPool A} → Work tp tp' → IsAccounted tp → IsAccounted tp'
  Work-IsAccounted {tp} {tp'} (take_job xs ys job rest threads queue e) v =
      subst IsAccounted (sym e) (
        changed tp _ xs ys awake (busy job) v threads refl
          (v.order ∙ ap (λ r. tp.started ++ r) queue ∙ simp append_assoc)
          (λ q. omega (arith, tally-append q tp.started (job ∷ []))))
  Work-IsAccounted {tp} {tp'} (wait xs ys threads empty e) v =
      subst IsAccounted (sym e)
        (changed tp _ xs ys awake asleep v threads refl v.order (λ q. omega arith))
  Work-IsAccounted {tp} {tp'} (finish xs ys job threads e) v = subst IsAccounted (sym e) (
      changed tp _ xs ys (busy job) awake v threads refl v.order
        (λ q. omega (arith, tally-append q tp.finished (job ∷ []))))

  woken :
      (tp tp' : ThreadPool A) (xs ys : List (Worker A))
      → IsAccounted tp
      → tp.threads ≡ xs ++ asleep ∷ ys
      → tp' ≡ record tp { threads = xs ++ awake ∷ ys }
      → IsAccounted tp'
  woken tp tp' xs ys v threads e =
      subst IsAccounted (sym e)
        (changed tp _ xs ys asleep awake v threads refl v.order (λ q. omega arith))

  -- what a signal keeps
  Signalled-IsAccounted :
      (tp : ThreadPool A) (ts : List (Worker A))
      → Signalled tp.threads ts
      → IsAccounted tp
      → IsAccounted (record tp { threads = ts })
  Signalled-IsAccounted tp ts (wakes xs ys before after) v =
      woken tp _ xs ys v before (ap (λ s. record tp { threads = s }) after)
  Signalled-IsAccounted tp ts (nobody none_asleep same) v =
      subst (λ s. IsAccounted (record tp { threads = s })) (sym same)
        (record { order = v.order; once = v.once; threads = v.threads })

  submit-IsAccounted :
      (tp : ThreadPool A) (job : A) (ts : List (Worker A))
      → Signalled tp.threads ts
      → IsAccounted tp
      → IsAccounted (thread_pool_queue tp job ts)
  unfolding thread_pool_queue
  submit-IsAccounted tp job ts s v =
      let w = Signalled-IsAccounted tp ts s v in
      record {
        order = ap (λ r. r ++ job ∷ []) v.order ∙ simp append_assoc;
        once = w.once;
        threads = w.threads;
      }

  init-IsAccounted : (num_threads : ℕ) → IsAccounted (thread_pool_init {A = A} num_threads)
  unfolding thread_pool_init
  init-IsAccounted num_threads =
      let n = if ltb num_threads 4 then 4 else num_threads in
      record {
        order = refl;
        once = λ q. omega (arith, ap (tally q) (running-replicate n));
        threads = omega (arith, length-replicate {A = Worker A} n awake, at_least num_threads);
      }
    where
      at_least : (k : ℕ) → 4 ≤ (if ltb k 4 then 4 else k)
      at_least k = ground arith

  -- In every pool that the program comes to, the jobs that were queued are the started ones and the
  -- waiting ones, in the order in which they were queued, and each started job either runs in one
  -- thread or is finished, once for each time that it was started.
  pub Reach-IsAccounted :
      (num_threads : ℕ) (tp : ThreadPool A) → Reach num_threads tp → IsAccounted tp
  Reach-IsAccounted num_threads tp start = init-IsAccounted num_threads
  Reach-IsAccounted num_threads tp (next {tp = before} r (work w)) =
      Work-IsAccounted w (Reach-IsAccounted num_threads before r)
  Reach-IsAccounted num_threads tp (next {tp = before} r (submit job ts s e)) =
      subst IsAccounted (sym e)
        (submit-IsAccounted before job ts s (Reach-IsAccounted num_threads before r))
  Reach-IsAccounted num_threads tp (next {tp = before} r (spurious xs ys threads e)) =
      woken before tp xs ys (Reach-IsAccounted num_threads before r) threads e
