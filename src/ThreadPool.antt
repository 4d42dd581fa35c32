-- ===== src/ThreadPool.antt =====
-- include/byoredis/server/thread_pool.hh and src/server/thread_pool.cc: the queue of jobs and the
-- threads that take them.
-- A mutex guards each access of the queue, so that what a thread does between pthread_mutex_lock, or the
-- return of pthread_cond_wait, and the next wait or unlock is one step. The threads and the callers of
-- thread_pool_queue take their steps in any order. pthread_cond_signal wakes a thread that sleeps in
-- pthread_cond_wait, whichever one, and does nothing when none sleeps; which one it wakes is an argument. A thread
-- may also wake without a signal, as POSIX permits, which is the step `spurious`.
-- `queued`, `started` and `finished` keep the history. A job is any value; that its task returns is the step `finish`.
pub mod Accounting
pub mod Waking
pub mod Draining
use byo_redis.Prelude.{
  ℕ, zero, suc, ◌≡◌, Bool, true, false, List, [], ◌∷◌, ◌++◌, ltb, if◌then◌else◌, replicate,
}
use byo_redis.Hashtable.Bag.{tally}

-- A thread in worker: on its way to test whether the queue is empty, in pthread_cond_wait, or at its job.
pub data Worker {ℓ} (A : Type ℓ) : Type ℓ where
  awake asleep : Worker A
  busy : (job : A) → Worker A

pub record ThreadPool {ℓ} (A : Type ℓ) : Type ℓ where
  pub threads : List (Worker A)
  pub queue : List A
  pub queued : List A
  pub started : List A
  pub finished : List A

module _ {ℓ} {A : Type ℓ} where
  abbrev pub is_awake : Worker A → Bool
  is_awake awake = true
  is_awake asleep = false
  is_awake (busy job) = false

  abbrev pub is_asleep : Worker A → Bool
  is_asleep awake = false
  is_asleep asleep = true
  is_asleep (busy job) = false

  -- at least four threads, which all begin their loops
  unfoldable pub thread_pool_init : ℕ → ThreadPool A
  thread_pool_init num_threads = record {
    threads = replicate (if ltb num_threads 4 then 4 else num_threads) awake;
    queue = [];
    queued = [];
    started = [];
    finished = [];
  }

  -- what pthread_cond_signal may make of the threads
  pub data Signalled (before after : List (Worker A)) : Type ℓ where
    wakes :
        (others others' : List (Worker A))
        → before ≡ others ++ asleep ∷ others'
        → after ≡ others ++ awake ∷ others'
        → Signalled before after
    nobody : tally is_asleep before ≡ 0 → after ≡ before → Signalled before after

  -- the threads after the signal are an argument
  unfoldable pub thread_pool_queue : ThreadPool A → A → List (Worker A) → ThreadPool A
  thread_pool_queue tp job signalled = record tp {
    threads = signalled;
    queue = tp.queue ++ job ∷ [];
    queued = tp.queued ++ job ∷ [];
  }

  -- a step of a thread in worker: it takes the job at the front of the queue, it finds the queue empty and
  -- waits, or its job is done
  pub data Work (tp tp' : ThreadPool A) : Type ℓ where
    take_job :
        (others others' : List (Worker A)) (job : A) (rest : List A)
        → tp.threads ≡ others ++ awake ∷ others'
        → tp.queue ≡ job ∷ rest
        → tp' ≡ record tp {
          threads = others ++ busy job ∷ others';
          queue = rest;
          started = tp.started ++ job ∷ [];
        }
        → Work tp tp'
    wait :
        (others others' : List (Worker A))
        → tp.threads ≡ others ++ awake ∷ others'
        → tp.queue ≡ []
        → tp' ≡ record tp { threads = others ++ asleep ∷ others' }
        → Work tp tp'
    finish :
        (others others' : List (Worker A)) (job : A)
        → tp.threads ≡ others ++ busy job ∷ others'
        → tp'
          ≡ record tp { threads = others ++ awake ∷ others'; finished = tp.finished ++ job ∷ [] }
        → Work tp tp'

  pub data Step (tp tp' : ThreadPool A) : Type ℓ where
    work : Work tp tp' → Step tp tp'
    submit :
        (job : A) (signalled : List (Worker A))
        → Signalled tp.threads signalled
        → tp' ≡ thread_pool_queue tp job signalled
        → Step tp tp'
    spurious :
        (others others' : List (Worker A))
        → tp.threads ≡ others ++ asleep ∷ others'
        → tp' ≡ record tp { threads = others ++ awake ∷ others' }
        → Step tp tp'

  -- the pools that the program can come to
  pub data Reach (num_threads : ℕ) : ThreadPool A → Type ℓ where
    start : Reach num_threads (thread_pool_init num_threads)
    next : {tp tp' : ThreadPool A} → Reach num_threads tp → Step tp tp' → Reach num_threads tp'

  -- a run of the threads alone, none of which wakes without a signal, with the number of its steps
  pub data Works : ThreadPool A → ℕ → ThreadPool A → Type ℓ where
    done : {tp : ThreadPool A} → Works tp zero tp
    step :
        {n : ℕ} {tp tp' tp'' : ThreadPool A}
        → Work tp tp'
        → Works tp' n tp''
        → Works tp (suc n) tp''
