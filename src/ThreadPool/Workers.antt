-- ===== src/ThreadPool/Workers.antt =====
-- The threads of a SyncThreadPool and what is counted over them. src/synch_thread_pool.cpp.
use dupa.Base.{ℕ, ◌+◌, ◌≡◌, List, [], ◌∷◌, ◌==◌, if◌then◌else◌, length, arith}

-- Tasks by number. `ready` is at the top of ThreadLoop's loop; `waiting` is blocked on cv_ and
-- `woken` has been notified; `running` is in task(); `exited` has returned from ThreadLoop.
pub data Worker : Type 0 where
  ready : Worker
  waiting : Worker
  woken : Worker
  running : ℕ → Worker
  exited : Worker

-- One thread goes from state `w` to state `w'`, the others keep theirs.
pub data Change (w w' : Worker) : List Worker → List Worker → Type 0 where
  here : {ws : List Worker} → Change w w' (w ∷ ws) (w' ∷ ws)
  there : {v : Worker} {ws ws' : List Worker} → Change w w' ws ws' → Change w w' (v ∷ ws) (v ∷ ws')

-- notify_all of cv_.
unfoldable pub wake : Worker → Worker
wake ready = ready
wake waiting = woken
wake woken = woken
wake (running t) = running t
wake exited = exited

unfoldable pub wake_all : List Worker → List Worker
unfolding wake
wake_all [] = []
wake_all (w ∷ ws) = wake w ∷ wake_all ws

-- The sum of a weight over the threads.
abbrev pub tally : (Worker → ℕ) → List Worker → ℕ
tally f [] = 0
tally f (w ∷ ws) = f w + tally f ws

abbrev pub is_waiting : Worker → ℕ
is_waiting waiting = 1
is_waiting _ = 0

-- Neither blocked nor gone: such a thread can take its next step.
abbrev pub is_awake : Worker → ℕ
is_awake ready = 1
is_awake woken = 1
is_awake (running t) = 1
is_awake _ = 0

abbrev pub has_exited : Worker → ℕ
has_exited exited = 1
has_exited _ = 0

-- How often the thread is running the task.
abbrev pub runs : ℕ → Worker → ℕ
runs a (running t) = if t == a then 1 else 0
runs a _ = 0

pub Change-tally :
    (f : Worker → ℕ) {w w' : Worker} {ws ws' : List Worker}
    → Change w w' ws ws'
    → tally f ws' + f w ≡ tally f ws + f w'
Change-tally f here = omega arith
Change-tally f (there c) = omega (arith, Change-tally f c)

pub Change-length :
    {w w' : Worker} {ws ws' : List Worker} → Change w w' ws ws' → length ws' ≡ length ws
Change-length here = omega arith
Change-length (there c) = omega (arith, Change-length c)

-- Every thread is waiting, awake or gone.
pub tally_total :
    (ws : List Worker) → tally is_waiting ws + tally is_awake ws + tally has_exited ws ≡ length ws
tally_total [] = omega arith
tally_total (ready ∷ ws) = omega (arith, tally_total ws)
tally_total (waiting ∷ ws) = omega (arith, tally_total ws)
tally_total (woken ∷ ws) = omega (arith, tally_total ws)
tally_total (running t ∷ ws) = omega (arith, tally_total ws)
tally_total (exited ∷ ws) = omega (arith, tally_total ws)

module _ (f : Worker → ℕ) (same : f woken ≡ f waiting) where
  -- A weight that does not tell a notified thread from a blocked one.
  pub wake_all-tally : (ws : List Worker) → tally f (wake_all ws) ≡ tally f ws
  unfolding wake_all
  wake_all-tally [] = omega arith
  wake_all-tally (ready ∷ ws) = omega (arith, wake_all-tally ws)
  wake_all-tally (waiting ∷ ws) = omega (arith, wake_all-tally ws)
  wake_all-tally (woken ∷ ws) = omega (arith, wake_all-tally ws)
  wake_all-tally (running t ∷ ws) = omega (arith, wake_all-tally ws)
  wake_all-tally (exited ∷ ws) = omega (arith, wake_all-tally ws)

pub wake_all-waiting : (ws : List Worker) → tally is_waiting (wake_all ws) ≡ 0
unfolding wake_all
wake_all-waiting [] = omega arith
wake_all-waiting (ready ∷ ws) = omega (arith, wake_all-waiting ws)
wake_all-waiting (waiting ∷ ws) = omega (arith, wake_all-waiting ws)
wake_all-waiting (woken ∷ ws) = omega (arith, wake_all-waiting ws)
wake_all-waiting (running t ∷ ws) = omega (arith, wake_all-waiting ws)
wake_all-waiting (exited ∷ ws) = omega (arith, wake_all-waiting ws)

pub wake_all-length : (ws : List Worker) → length (wake_all ws) ≡ length ws
unfolding wake_all
wake_all-length [] = omega arith
wake_all-length (w ∷ ws) = omega (arith, wake_all-length ws)
