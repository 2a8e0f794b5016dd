-- ===== src/ThreadPool/Safety.antt =====
-- What a SyncThreadPool guarantees in every reachable state. src/synch_thread_pool.cpp.
use dupa.Base.{
  ℕ, zero, suc, ◌+◌, ◌^◌, ◌≤◌, ◌<◌, ◌≡◌, refl, true, false, List, [], ◌∷◌, ◌++◌, length, arith, ◌⊎◌,
  inl, inr, sym, ◌∙◌, ap, subst,
}
use mathlib.Core.List.{append-nil}
use dupa.ThreadPool.Workers.{
  Worker, ready, tally, is_waiting, is_awake, has_exited, runs, tally_total,
}
use dupa.ThreadPool.Steps.{
  User, free, submit_blocked, submit_woken, stop_blocked, stop_woken, joining, stopped, Pool,
  replicate_ready, init, wait_task, Step, enter, recheck, finish, spurious, submit, submit_again,
  spurious_user, stop, stop_again, join, Reach, start, later,
}
use dupa.ThreadPool.Invariant.{Inv, UserInv, times}
use dupa.ThreadPool.WorkerSteps.{loop_top-Inv, wait_task-Inv}
use dupa.ThreadPool.UserSteps.{
  try_submit-Inv, try_stop-Inv, finish-Inv, spurious-Inv, spurious_user-Inv, join-Inv,
}

replicate_ready-tally : (f : Worker → ℕ) (n : ℕ) → f ready ≡ 0 → tally f (replicate_ready n) ≡ 0
unfolding replicate_ready
replicate_ready-tally f zero e = refl
replicate_ready-tally f (suc n) e = omega (arith, e, replicate_ready-tally f n e)

replicate_ready-length : (n : ℕ) → length (replicate_ready n) ≡ n
unfolding replicate_ready
replicate_ready-length zero = refl
replicate_ready-length (suc n) = ap suc (replicate_ready-length n)

init-Inv : (n : ℕ) → Inv n (init n)
unfolding init
init-Inv n = record {
  counted = refl;
  bounded = omega arith;
  ordered = refl;
  kept = λ a. omega (arith, replicate_ready-tally (runs a) n refl);
  served = inl (replicate_ready-tally is_waiting n refl);
  present = λ _. replicate_ready-tally has_exited n refl;
  user_inv = (refl, replicate_ready-length n);
}

-- Every step keeps the invariant: the counter is the queue's length and at most one above the number
-- of threads, tasks leave the queue in order and none is lost or run twice, a task in the queue finds
-- a thread that is not blocked, no thread returns before the pool closes.
pub Step-Inv : {n : ℕ} {p p' : Pool} → n < 2 ^ 31 → Inv n p → Step p p' → Inv n p'
unfolding wait_task
Step-Inv small v (enter c) = loop_top-Inv small v c
Step-Inv {n} {p} small v (recheck c) =
    wait_task-Inv small v (refl, refl, refl, λ a. refl) p.q refl c
Step-Inv small v (finish t c) = finish-Inv v t c
Step-Inv small v (spurious c) = spurious-Inv v c
Step-Inv {n} {p} small v (submit t e m) =
    let h = subst (UserInv n p) e v.user_inv in try_submit-Inv v t small h.0 h.1 m
Step-Inv {n} {p} small v (submit_again t e m) =
    let h = subst (UserInv n p) e v.user_inv in try_submit-Inv v t small h.0 h.1 m
Step-Inv small v spurious_user = spurious_user-Inv v
Step-Inv {n} {p} small v (stop e) =
    let h = subst (UserInv n p) e v.user_inv in try_stop-Inv v h.0 h.1
Step-Inv {n} {p} small v (stop_again e) =
    let h = subst (UserInv n p) e v.user_inv in try_stop-Inv v h.0 h.1
Step-Inv small v (join e all) = join-Inv v e all

pub Reach-Inv : {n : ℕ} {p : Pool} → n < 2 ^ 31 → Reach n p → Inv n p
Reach-Inv {n} small start = init-Inv n
Reach-Inv small (later r st) = Step-Inv small (Reach-Inv small r) st

-- The queue is never longer than one more than the number of threads, however the threads are
-- scheduled.
pub queue_bounded : {n : ℕ} {p : Pool} → n < 2 ^ 31 → Reach n p → length p.q ≤ n + 1
queue_bounded small r = let v = Reach-Inv small r in omega (arith, v.counted, v.bounded)

-- With a task in the queue the pool is open and has all its threads.
open_of_queue :
    (n : ℕ) (p : Pool) (u : User)
    → UserInv n p u
    → 0 < length p.q
    → (p.closing ≡ false) × (length p.workers ≡ n)
open_of_queue n p free h k = h
open_of_queue n p (submit_blocked t) h k = (h.0, h.1)
open_of_queue n p (submit_woken t) h k = h
open_of_queue n p stop_blocked h k = (h.0, h.1)
open_of_queue n p stop_woken h k = h
open_of_queue n p joining h k = absurd (omega (arith, ap length h.2))
open_of_queue n p stopped h k = absurd (omega (arith, ap length h.1))

-- A blocked user means that a task is in the queue.
queue_of_blocked :
    {n : ℕ} {p : Pool}
    → Inv n p
    → (p.user ≡ stop_blocked) ⊎ ((t : ℕ) × (p.user ≡ submit_blocked t))
    → 0 < length p.q
queue_of_blocked {n} {p} v (inl e) =
    let h = subst (UserInv n p) e v.user_inv in omega (arith, v.counted, h.2)
queue_of_blocked {n} {p} v (inr (t, e)) =
    let h = subst (UserInv n p) e v.user_inv in omega (arith, v.counted, h.2)

awake_of_queue :
    {n : ℕ} {p : Pool} → 0 < n → Inv n p → 0 < length p.q → 0 < tally is_awake p.workers
awake_of_queue {n} {p} some_thread v k =
    let (opened, all) = open_of_queue n p p.user v.user_inv k in
    elim v.served [
      | inl z ↦ omega (arith, tally_total p.workers, v.present opened)
      | inr e ↦ omega arith
    ]

-- No wake-up is lost: while a task is in the queue, or the user's thread is blocked in Submit or in
-- Stop, some worker is not blocked and has not returned.
pub no_lost_wakeup :
    {n : ℕ} {p : Pool}
    → n < 2 ^ 31
    → 0 < n
    → Reach n p
    → (0 < length p.q) ⊎ ((p.user ≡ stop_blocked) ⊎ ((t : ℕ) × (p.user ≡ submit_blocked t)))
    → 0 < tally is_awake p.workers
no_lost_wakeup small some_thread r (inl k) = awake_of_queue some_thread (Reach-Inv small r) k
no_lost_wakeup small some_thread r (inr h) =
    let v = Reach-Inv small r in awake_of_queue some_thread v (queue_of_blocked v h)

-- When Stop has returned, every submitted task has been taken in the order of submission and has
-- finished as often as it was submitted, and nothing is left in the queue.
pub stopped-drained :
    {n : ℕ} {p : Pool}
    → n < 2 ^ 31
    → Reach n p
    → p.user ≡ stopped
    → (p.q ≡ []) × (p.started ≡ p.submitted) × ((a : ℕ) → times a p.finished ≡ times a p.submitted)
stopped-drained {n} {p} small r e =
    let v = Reach-Inv small r in
    let h = subst (UserInv n p) e v.user_inv in
    let in_order : p.started ≡ p.submitted =
      sym (append-nil p.started) ∙ (ap (λ l. p.started ++ l) (sym h.1) ∙ v.ordered) in
    (h.1, in_order, λ a. omega (arith, v.kept a, idle a p.workers h.2, ap (times a) in_order))
  where
    idle : (a : ℕ) (ws : List Worker) → length ws ≡ 0 → tally (runs a) ws ≡ 0
    idle a [] z = refl
    idle a (w ∷ ws) z = absurd (omega arith)

-- Once Stop has set closing_ and joins the workers, none of them is blocked or has work left in
-- the queue, so that each comes to return.
pub joining-none_blocked :
    {n : ℕ} {p : Pool}
    → n < 2 ^ 31
    → Reach n p
    → p.user ≡ joining
    → (p.closing ≡ true) × (p.q ≡ []) × (tally is_waiting p.workers ≡ 0)
joining-none_blocked {n} {p} small r e =
    let h = subst (UserInv n p) e (Reach-Inv small r).user_inv in (h.0, h.2, h.3)
