-- ===== src/ThreadPool/Invariant.antt =====
-- What holds of a SyncThreadPool in every reachable state. src/synch_thread_pool.cpp.
use dupa.Base.{
  ℕ, ◌+◌, ◌≤◌, ◌<◌, ◌≡◌, true, false, List, [], ◌∷◌, ◌++◌, ◌==◌, if◌then◌else◌, length, arith, ◌⊎◌,
}
use dupa.ThreadPool.Workers.{tally, is_waiting, is_awake, has_exited, runs}
use dupa.ThreadPool.Steps.{
  User, free, submit_blocked, submit_woken, stop_blocked, stop_woken, joining, stopped, Pool,
}

-- How many times a task stands in a history.
abbrev pub times : ℕ → List ℕ → ℕ
times task [] = 0
times task (t ∷ ts) = times task ts + (if t == task then 1 else 0)

pub times-append :
    (task : ℕ) (before after : List ℕ)
    → times task (before ++ after) ≡ times task before + times task after
times-append task [] after = omega arith
times-append task (t ∷ before) after = omega (arith, times-append task before after)

-- What the user's thread may assume: a blocked one would still be blocked if it looked again, and
-- the pool is closing exactly when the user is past the wait in Stop.
abbrev pub UserInv : ℕ → Pool → User → Type 0
UserInv n p free = (p.closing ≡ false) × (length p.workers ≡ n)
UserInv n p (submit_blocked t) = (p.closing ≡ false) × (length p.workers ≡ n) × (n < p.outstanding)
UserInv n p (submit_woken t) = (p.closing ≡ false) × (length p.workers ≡ n)
UserInv n p stop_blocked = (p.closing ≡ false) × (length p.workers ≡ n) × (0 < p.outstanding)
UserInv n p stop_woken = (p.closing ≡ false) × (length p.workers ≡ n)
UserInv n p joining =
    (p.closing ≡ true) × (length p.workers ≡ n) × (p.q ≡ []) × (tally is_waiting p.workers ≡ 0)
UserInv n p stopped = (p.closing ≡ true) × (p.q ≡ []) × (length p.workers ≡ 0)

pub record Inv (n : ℕ) (p : Pool) : Type 0 where
  pub counted : p.outstanding ≡ length p.q
  pub bounded : p.outstanding ≤ n + 1
  pub ordered : p.started ++ p.q ≡ p.submitted
  pub kept : (a : ℕ) → times a p.finished + tally (runs a) p.workers ≡ times a p.started
  -- a blocked worker is not needed: the others are enough for the queue
  pub served : (tally is_waiting p.workers ≡ 0) ⊎ (length p.q ≤ tally is_awake p.workers)
  pub present : p.closing ≡ false → tally has_exited p.workers ≡ 0
  pub user_inv : UserInv n p p.user
