-- ===== src/ThreadPool/UserSteps.antt =====
-- Each step of the user's thread keeps the invariant of SyncThreadPool, and so do its wake-ups and
-- the end of a task. src/synch_thread_pool.cpp.
use dupa.Base.{
  ℕ, ◌+◌, ◌%◌, ◌^◌, ◌≤◌, ◌<◌, ◌≡◌, refl, true, false, List, [], ◌∷◌, ◌++◌, ◌==◌, leb, length,
  length-append, arith, inl, inr, List-cases, Bool-cases, sym, ◌∙◌, ap, ◌⊎◌, subst,
}
use mathlib.Core.List.{append_assoc}
use dupa.ThreadPool.Workers.{
  Worker, ready, waiting, woken, running, exited, Change, wake_all, tally, is_waiting, is_awake,
  has_exited, runs, Change-tally, Change-length, tally_total, wake_all-tally, wake_all-waiting,
  wake_all-length,
}
use dupa.ThreadPool.Invariant.{Inv, UserInv, times-append}
use dupa.ThreadPool.WorkerSteps.{UserInv-workers}
use dupa.ThreadPool.Steps.{
  User, free, submit_blocked, submit_woken, stop_blocked, stop_woken, joining, stopped, Pool,
  size_mod, notify_user, try_submit, try_stop, Notify, one, nobody,
}

-- What a notification does to the counts: nobody is lost, and a queue with one task more is served.
record Notified (ws ws' : List Worker) : Type 0 where
  size : length ws' ≡ length ws
  gone : tally has_exited ws' ≡ tally has_exited ws
  busy : (a : ℕ) → tally (runs a) ws' ≡ tally (runs a) ws
  more :
      (k : ℕ)
      → (tally is_waiting ws ≡ 0) ⊎ (k ≤ tally is_awake ws)
      → (tally is_waiting ws' ≡ 0) ⊎ (k + 1 ≤ tally is_awake ws')

Notify-Notified : {ws ws' : List Worker} → Notify ws ws' → Notified ws ws'
Notify-Notified (one c) = record {
  size = Change-length c;
  gone = omega (arith, Change-tally has_exited c);
  busy = λ a. omega (arith, Change-tally (runs a) c);
  more = λ k h. elim h [
    | inl z ↦ inl (omega (arith, z, Change-tally is_waiting c))
    | inr e ↦ inr (omega (arith, e, Change-tally is_awake c))
  ];
}
Notify-Notified (nobody z) = record {
  size = refl;
  gone = refl;
  busy = λ a. refl;
  more = λ k h. inl z;
}

exited-le : (ws : List Worker) → tally has_exited ws ≤ length ws
exited-le ws = omega (arith, tally_total ws)

-- When every thread has returned, none is running a task.
exited_run_nothing :
    (a : ℕ) (ws : List Worker) → tally has_exited ws ≡ length ws → tally (runs a) ws ≡ 0
exited_run_nothing a [] e = refl
exited_run_nothing a (ready ∷ ws) e = absurd (omega (arith, exited-le ws))
exited_run_nothing a (waiting ∷ ws) e = absurd (omega (arith, exited-le ws))
exited_run_nothing a (woken ∷ ws) e = absurd (omega (arith, exited-le ws))
exited_run_nothing a (running t ∷ ws) e = absurd (omega (arith, exited-le ws))
exited_run_nothing a (exited ∷ ws) e = omega (arith, exited_run_nothing a ws (omega arith))

module _ {n : ℕ} {p : Pool} (v : Inv n p) where
  -- Submit, called or woken: the pool is open and its threads are all there.
  pub try_submit-Inv :
      {ws : List Worker} (t : ℕ)
      → n < 2 ^ 31
      → p.closing ≡ false
      → length p.workers ≡ n
      → Notify p.workers ws
      → Inv n (try_submit p t ws)
  unfolding try_submit
  try_submit-Inv {ws} t small opened all m =
      elim (Bool-cases (leb p.outstanding (length p.workers))) [
        | inl room ↦ simp room (pushed (Notify-Notified m) (ground arith))
        | inr full ↦ simp full (record {
          counted = v.counted;
          bounded = v.bounded;
          ordered = v.ordered;
          kept = v.kept;
          served = v.served;
          present = v.present;
          user_inv = (opened, all, ground arith);
        })
      ]
    where
      pushed :
          Notified p.workers ws
          → p.outstanding ≤ n
          → Inv n (record p {
            q = p.q ++ t ∷ [];
            outstanding = (p.outstanding + 1) % size_mod;
            workers = ws;
            user = free;
            submitted = p.submitted ++ t ∷ [];
          })
      pushed m' room = record {
        counted = omega (arith, v.counted, length-append p.q (t ∷ []));
        bounded = omega arith;
        ordered = sym (append_assoc p.started p.q (t ∷ [])) ∙ ap (λ l. l ++ t ∷ []) v.ordered;
        kept = λ a. omega (arith, v.kept a, m'.busy a);
        served = elim (m'.more (length p.q) v.served) [
          | inl z ↦ inl z
          | inr e ↦ inr (omega (arith, e, length-append p.q (t ∷ [])))
        ];
        present = λ e. m'.gone ∙ v.present e;
        user_inv = (opened, m'.size ∙ all);
      }

  pub try_stop-Inv : p.closing ≡ false → length p.workers ≡ n → Inv n (try_stop p)
  unfolding try_stop
  try_stop-Inv opened all = elim (Bool-cases (p.outstanding == 0)) [
    | inl drained ↦ simp drained (closed (ground arith))
    | inr more ↦ simp more (record {
      counted = v.counted;
      bounded = v.bounded;
      ordered = v.ordered;
      kept = v.kept;
      served = v.served;
      present = v.present;
      user_inv = (opened, all, ground arith);
    })
  ]
    where
      closed :
          p.outstanding ≡ 0
          → Inv n (record p { closing = true; workers = wake_all p.workers; user = joining })
      closed none_left = record {
        counted = v.counted;
        bounded = v.bounded;
        ordered = v.ordered;
        kept = λ a. omega (arith, v.kept a, wake_all-tally (runs a) refl p.workers);
        served = inl (wake_all-waiting p.workers);
        present = λ e. cc;
        user_inv = (
          refl,
          wake_all-length p.workers ∙ all,
          (elim (List-cases p.q) [
            | inl e ↦ e
            | inr (x, xs, e) ↦ absurd (omega (arith, v.counted, ap length e))
          ]),
          wake_all-waiting p.workers,
        );
      }

  pub finish-Inv :
      {ws : List Worker} (t : ℕ)
      → Change (running t) ready p.workers ws
      → Inv n (record p { workers = ws; finished = p.finished ++ t ∷ [] })
  finish-Inv {ws} t c = record {
    counted = v.counted;
    bounded = v.bounded;
    ordered = v.ordered;
    kept =
        λ a. omega (arith, v.kept a, Change-tally (runs a) c, times-append a p.finished (t ∷ []));
    served = elim v.served [
      | inl z ↦ inl (omega (arith, z, Change-tally is_waiting c))
      | inr e ↦ inr (omega (arith, e, Change-tally is_awake c))
    ];
    present = λ e. omega (arith, v.present e, Change-tally has_exited c);
    user_inv =
        UserInv-workers n p ws (p.finished ++ t ∷ []) p.user (Change-length c)
          (λ _ z. omega (arith, z, Change-tally is_waiting c)) v.user_inv;
  }

  pub spurious-Inv :
      {ws : List Worker} → Change waiting woken p.workers ws → Inv n (record p { workers = ws })
  spurious-Inv {ws} c = record {
    counted = v.counted;
    bounded = v.bounded;
    ordered = v.ordered;
    kept = λ a. omega (arith, v.kept a, Change-tally (runs a) c);
    served = elim v.served [
      | inl z ↦ inl (omega (arith, z, Change-tally is_waiting c))
      | inr e ↦ inr (omega (arith, e, Change-tally is_awake c))
    ];
    present = λ e. omega (arith, v.present e, Change-tally has_exited c);
    user_inv =
        UserInv-workers n p ws p.finished p.user (Change-length c)
          (λ _ z. omega (arith, z, Change-tally is_waiting c)) v.user_inv;
  }

  notified-UserInv :
      (u : User) → UserInv n p u → UserInv n (record p { user = notify_user u }) (notify_user u)
  notified-UserInv free h = h
  notified-UserInv (submit_blocked s) h = ground arith
  notified-UserInv (submit_woken s) h = h
  notified-UserInv stop_blocked h = ground arith
  notified-UserInv stop_woken h = h
  notified-UserInv joining h = h
  notified-UserInv stopped h = h

  pub spurious_user-Inv : Inv n (record p { user = notify_user p.user })
  spurious_user-Inv = record {
    counted = v.counted;
    bounded = v.bounded;
    ordered = v.ordered;
    kept = v.kept;
    served = v.served;
    present = v.present;
    user_inv = notified-UserInv p.user v.user_inv;
  }

  pub join-Inv :
      p.user ≡ joining
      → tally has_exited p.workers ≡ length p.workers
      → Inv n (record p { user = stopped; workers = [] })
  join-Inv e all = record {
    counted = v.counted;
    bounded = v.bounded;
    ordered = v.ordered;
    kept = λ a. omega (arith, v.kept a, exited_run_nothing a p.workers all);
    served = inl refl;
    present = λ _. refl;
    user_inv = let h = subst (UserInv n p) e v.user_inv in (h.0, h.2, refl);
  }
