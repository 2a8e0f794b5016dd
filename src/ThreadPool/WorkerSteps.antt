-- ===== src/ThreadPool/WorkerSteps.antt =====
-- Each step of a worker keeps the invariant of SyncThreadPool. src/synch_thread_pool.cpp.
use dupa.Base.{
  ℕ, ◌^◌, ◌<◌, ◌≡◌, refl, true, false, List, [], ◌∷◌, ◌++◌, length, arith, inl, inr, Bool-cases,
  sym, ◌∙◌, ap, subst,
}
use mathlib.Core.List.{append_assoc}
use dupa.ThreadPool.Workers.{
  Worker, ready, waiting, running, exited, Change, tally, is_waiting, is_awake, has_exited, runs,
  Change-tally, Change-length,
}
use dupa.ThreadPool.Invariant.{Inv, UserInv, times-append}
use dupa.ThreadPool.Steps.{
  User, free, submit_blocked, submit_woken, stop_blocked, stop_woken, joining, stopped, Pool,
  notify_user, take_task, taken, wait_task, loop_top,
}

pub UserInv-workers :
    (n : ℕ) (p : Pool) (ws : List Worker) (done : List ℕ) (u : User)
    → length ws ≡ length p.workers
    → (p.closing ≡ true → tally is_waiting p.workers ≡ 0 → tally is_waiting ws ≡ 0)
    → UserInv n p u
    → UserInv n (record p { workers = ws; finished = done }) u
UserInv-workers n p ws done free e w h = ground arith
UserInv-workers n p ws done (submit_blocked t) e w h = ground arith
UserInv-workers n p ws done (submit_woken t) e w h = ground arith
UserInv-workers n p ws done stop_blocked e w h = ground arith
UserInv-workers n p ws done stop_woken e w h = ground arith
UserInv-workers n p ws done joining e w h = (h.0, e ∙ h.1, h.2, w h.0 h.3)
UserInv-workers n p ws done stopped e w h = ground arith

notify_user-UserInv :
    (n : ℕ) (p : Pool) (ws : List Worker) (u : User) (t : ℕ) (rest : List ℕ) (o : ℕ)
    → p.closing ≡ false
    → length ws ≡ length p.workers
    → UserInv n p u
    → UserInv n
        (record p {
          q = rest;
          outstanding = o;
          user = notify_user u;
          started = p.started ++ t ∷ [];
          workers = ws;
        })
        (notify_user u)
notify_user-UserInv n p ws free t rest o e l h = ground arith
notify_user-UserInv n p ws (submit_blocked s) t rest o e l h = ground arith
notify_user-UserInv n p ws (submit_woken s) t rest o e l h = ground arith
notify_user-UserInv n p ws stop_blocked t rest o e l h = ground arith
notify_user-UserInv n p ws stop_woken t rest o e l h = ground arith
notify_user-UserInv n p ws joining t rest o e l h = absurd (ground arith)
notify_user-UserInv n p ws stopped t rest o e l h = absurd (ground arith)

-- A thread in its loop, with no task: it weighs one among the awake, and nothing else.
abbrev pub Fresh : Worker → Type 0
Fresh w = (is_awake w ≡ 1) × (is_waiting w ≡ 0) × (has_exited w ≡ 0) × ((a : ℕ) → runs a w ≡ 0)

module _ {n : ℕ} {p : Pool} (v : Inv n p) {w : Worker} (fresh : Fresh w) {ws : List Worker} where
  exit-Inv :
      p.closing ≡ true → p.q ≡ [] → Change w exited p.workers ws → Inv n (record p { workers = ws })
  exit-Inv closed empty c = record {
    counted = v.counted;
    bounded = v.bounded;
    ordered = v.ordered;
    kept = λ a. omega (arith, v.kept a, Change-tally (runs a) c, fresh.3 a);
    served = inr (rw empty (omega arith));
    present = λ e. cc;
    user_inv =
        UserInv-workers n p ws p.finished p.user (Change-length c)
          (λ _ z. omega (arith, Change-tally is_waiting c)) v.user_inv;
  }

  block-Inv :
      p.closing ≡ false
      → p.q ≡ []
      → Change w waiting p.workers ws
      → Inv n (record p { workers = ws })
  block-Inv opened empty c = record {
    counted = v.counted;
    bounded = v.bounded;
    ordered = v.ordered;
    kept = λ a. omega (arith, v.kept a, Change-tally (runs a) c, fresh.3 a);
    served = inr (rw empty (omega arith));
    present = λ e. omega (arith, v.present e, Change-tally has_exited c);
    user_inv = UserInv-workers n p ws p.finished p.user (Change-length c) (λ e _. cc) v.user_inv;
  }

  take-Inv :
      (t : ℕ) (rest : List ℕ)
      → n < 2 ^ 31
      → p.closing ≡ false
      → p.q ≡ t ∷ rest
      → Change w (running t) p.workers ws
      → Inv n (record (taken p t rest) { workers = ws })
  take-Inv t rest small opened some_q c = record {
    counted = omega (arith, v.counted, v.bounded, ap length some_q);
    bounded = omega (arith, v.counted, v.bounded, ap length some_q);
    ordered =
        append_assoc p.started (t ∷ []) rest ∙ (sym (ap (λ l. p.started ++ l) some_q) ∙ v.ordered);
    kept = λ a.
        omega
          (arith, v.kept a, Change-tally (runs a) c, fresh.3 a, times-append a p.started (t ∷ []));
    served = elim v.served [
      | inl none_waits ↦ inl (omega (arith, none_waits, Change-tally is_waiting c))
      | inr enough ↦ inr (omega (arith, enough, ap length some_q, Change-tally is_awake c))
    ];
    present = λ e. omega (arith, v.present e, Change-tally has_exited c);
    user_inv = notify_user-UserInv n p ws p.user t rest _ opened (Change-length c) v.user_inv;
  }

-- A pool that is closing has an empty queue.
closing-empty : (n : ℕ) (p : Pool) (u : User) → UserInv n p u → p.closing ≡ true → p.q ≡ []
closing-empty n p free h e = absurd (ground arith)
closing-empty n p (submit_blocked t) h e = absurd (ground arith)
closing-empty n p (submit_woken t) h e = absurd (ground arith)
closing-empty n p stop_blocked h e = absurd (ground arith)
closing-empty n p stop_woken h e = absurd (ground arith)
closing-empty n p joining h e = h.2
closing-empty n p stopped h e = h.1

-- The invariant holds after the thread `w` has moved on as told.
abbrev pub Kept : ℕ → Pool → Worker → List Worker → Worker × Pool → Type 0
Kept n p w ws o = Change w o.0 p.workers ws → Inv n (record o.1 { workers = ws })

pub wait_task-Inv :
    {n : ℕ} {p : Pool} {w : Worker} {ws : List Worker}
    → n < 2 ^ 31
    → Inv n p
    → Fresh w
    → (l : List ℕ) → p.q ≡ l
    → Kept n p w ws (take_task p l)
unfolding take_task
wait_task-Inv {n} {p} {w} {ws} small v fresh [] e = elim (Bool-cases p.closing) [
  | inl closed ↦
      subst (Kept n p w ws) {x = (exited, p)} {y = take_task p []} (ground arith)
        (λ c. exit-Inv v fresh closed e c)
  | inr opened ↦
      subst (Kept n p w ws) {x = (waiting, p)} {y = take_task p []} (ground arith)
        (λ c. block-Inv v fresh opened e c)
]
wait_task-Inv {n} {p} {w} {ws} small v fresh (t ∷ rest) e = elim (Bool-cases p.closing) [
  | inl closed ↦ absurd (ground (arith, closing-empty n p p.user v.user_inv closed))
  | inr opened ↦
      subst (Kept n p w ws) {x = (running t, taken p t rest)} {y = take_task p (t ∷ rest)}
        (ground arith) (λ c. take-Inv v fresh t rest small opened e c)
]

-- A worker's step from the top of its loop.
pub loop_top-Inv :
    {n : ℕ} {p : Pool} {ws : List Worker} → n < 2 ^ 31 → Inv n p → Kept n p ready ws (loop_top p)
unfolding loop_top wait_task
loop_top-Inv {n} {p} {ws} small v = elim (Bool-cases p.closing) [
  | inl closed ↦
      subst (Kept n p ready ws) {x = (exited, p)} {y = loop_top p} (ground arith)
        (λ c. exit-Inv v is_fresh closed (closing-empty n p p.user v.user_inv closed) c)
  | inr opened ↦
      subst (Kept n p ready ws) {x = wait_task p} {y = loop_top p} (ground arith)
        (λ c. wait_task-Inv small v is_fresh p.q refl c)
]
  where
    is_fresh : Fresh ready
    is_fresh = (refl, refl, refl, λ a. refl)
