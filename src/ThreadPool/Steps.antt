-- ===== src/ThreadPool/Steps.antt =====
-- The steps of SyncThreadPool: its workers, and the one thread that submits tasks and then stops the
-- pool, as ScanDirectory uses it. src/synch_thread_pool.cpp.
use dupa.Base.{
  ℕ, zero, suc, ◌+◌, ◌-◌, ◌%◌, ◌^◌, ◌≡◌, Bool, true, false, List, [], ◌∷◌, ◌++◌, ◌==◌, leb,
  if◌then◌else◌, length,
}
use dupa.ThreadPool.Workers.{
  Worker, ready, waiting, woken, running, exited, Change, wake_all, tally, is_waiting, has_exited,
}

-- Where the user's thread stands: outside the pool, blocked on user_cv_ or notified in a call of
-- Submit or of Stop, joining the workers, or past Stop.
pub data User : Type 0 where
  free : User
  submit_blocked : ℕ → User
  submit_woken : ℕ → User
  stop_blocked : User
  stop_woken : User
  joining : User
  stopped : User

-- The pool's fields, the threads, and three histories: the tasks in the order in which they were
-- submitted, taken from the queue, and finished.
pub record Pool : Type 0 where
  pub closing : Bool
  pub outstanding : ℕ
  pub q : List ℕ
  pub workers : List Worker
  pub user : User
  pub submitted : List ℕ
  pub started : List ℕ
  pub finished : List ℕ

-- size_t.
abbrev pub size_mod : ℕ
size_mod = 2 ^ 64

unfoldable pub replicate_ready : ℕ → List Worker
replicate_ready zero = []
replicate_ready (suc n) = ready ∷ replicate_ready n

-- The constructor.
unfoldable pub init : ℕ → Pool
unfolding replicate_ready
init concurrency = record {
  closing = false;
  outstanding = 0;
  q = [];
  workers = replicate_ready concurrency;
  user = free;
  submitted = [];
  started = [];
  finished = [];
}

-- user_cv_.notify_one.
abbrev pub notify_user : User → User
notify_user (submit_blocked t) = submit_woken t
notify_user stop_blocked = stop_woken
notify_user free = free
notify_user (submit_woken t) = submit_woken t
notify_user stop_woken = stop_woken
notify_user joining = joining
notify_user stopped = stopped

-- q_.pop(), --outstanding_ and user_cv_.notify_one().
abbrev pub taken : Pool → ℕ → List ℕ → Pool
taken p t rest = record p {
  q = rest;
  outstanding = (p.outstanding + size_mod - 1) % size_mod;
  user = notify_user p.user;
  started = p.started ++ t ∷ [];
}

-- ThreadLoop from the front of the queue on: what the thread does next, and the pool.
unfoldable pub take_task : Pool → List ℕ → Worker × Pool
take_task p [] = if p.closing then (exited, p) else (waiting, p)
take_task p (t ∷ rest) = if p.closing then (exited, p) else (running t, taken p t rest)

-- cv_.wait with its predicate and what follows, under the lock.
unfoldable pub wait_task : Pool → Worker × Pool
unfolding take_task
wait_task p = take_task p p.q

-- From the top of the loop.
unfoldable pub loop_top : Pool → Worker × Pool
unfolding wait_task
loop_top p = if p.closing then (exited, p) else wait_task p

-- Submit, from user_cv_.wait on. `workers'` are the workers after cv_.notify_one.
unfoldable pub try_submit : Pool → ℕ → List Worker → Pool
try_submit p t workers' =
    if leb p.outstanding (length p.workers)
    then record p {
      q = p.q ++ t ∷ [];
      outstanding = (p.outstanding + 1) % size_mod;
      workers = workers';
      user = free;
      submitted = p.submitted ++ t ∷ [];
    }
    else record p { user = submit_blocked t }

-- Stop, from user_cv_.wait to the joins.
unfoldable pub try_stop : Pool → Pool
try_stop p =
    if p.outstanding == 0
    then record p { closing = true; workers = wake_all p.workers; user = joining }
    else record p { user = stop_blocked }

-- cv_.notify_one wakes one blocked thread, if there is one.
pub data Notify : List Worker → List Worker → Type 0 where
  one : {ws ws' : List Worker} → Change waiting woken ws ws' → Notify ws ws'
  nobody : {ws : List Worker} → tally is_waiting ws ≡ 0 → Notify ws ws

pub data Step (p : Pool) : Pool → Type 0 where
  enter :
      {ws : List Worker}
      → Change ready (loop_top p).0 p.workers ws
      → Step p (record (loop_top p).1 { workers = ws })
  recheck :
      {ws : List Worker}
      → Change woken (wait_task p).0 p.workers ws
      → Step p (record (wait_task p).1 { workers = ws })
  finish :
      {ws : List Worker} (t : ℕ)
      → Change (running t) ready p.workers ws
      → Step p (record p { workers = ws; finished = p.finished ++ t ∷ [] })
  spurious :
      {ws : List Worker} → Change waiting woken p.workers ws → Step p (record p { workers = ws })
  submit :
      {ws : List Worker} (t : ℕ) → p.user ≡ free → Notify p.workers ws → Step p (try_submit p t ws)
  submit_again :
      {ws : List Worker} (t : ℕ)
      → p.user ≡ submit_woken t
      → Notify p.workers ws
      → Step p (try_submit p t ws)
  spurious_user : Step p (record p { user = notify_user p.user })
  stop : p.user ≡ free → Step p (try_stop p)
  stop_again : p.user ≡ stop_woken → Step p (try_stop p)
  join :
      p.user ≡ joining
      → tally has_exited p.workers ≡ length p.workers
      → Step p (record p { user = stopped; workers = [] })

pub data Reach (n : ℕ) : Pool → Type 0 where
  start : Reach n (init n)
  later : {p p' : Pool} → Reach n p → Step p p' → Reach n p'
