-- ===== src/ThreadPool/Tests.antt =====
-- Concrete runs of SyncThreadPool and SyncCounter.
use dupa.Base.{ℕ, ◌+◌, ◌≤◌, ◌<◌, ◌≡◌, refl, true, List, [], ◌∷◌, length, arith, inl}
use dupa.ThreadPool.Workers.{ready, running, tally, is_awake, wake_all, here}
use dupa.ThreadPool.Steps.{
  Pool, stopped, init, loop_top, wait_task, try_submit, try_stop, nobody, enter, finish, submit,
  stop, join, Reach, start, later,
}
use dupa.ThreadPool.Invariant.{Inv, times}
use dupa.ThreadPool.Safety.{
  Step-Inv, Reach-Inv, queue_bounded, no_lost_wakeup, stopped-drained, joining-none_blocked,
}
use dupa.ThreadPool.Counter.{
  decrements, calls, wakes, step, decrement, history, happen, wakes_up, history-blocked,
}

program : Unit {0}
unfolding init loop_top wait_task try_submit try_stop wake_all
program = tt

-- One thread; task 7 is submitted, taken and finished, and the pool is stopped.
abbrev queued : Pool
unfolding program
queued = try_submit (init 1) 7 (ready ∷ [])

queued-Reach : Reach 1 queued
unfolding program
queued-Reach = later start (submit 7 refl (nobody refl))

taken-Reach :
    Reach 1 (record queued { outstanding = 0; q = []; workers = running 7 ∷ []; started = 7 ∷ [] })
unfolding program
taken-Reach = later queued-Reach (enter here)

finished-Reach :
    Reach 1 (record queued { outstanding = 0; q = []; started = 7 ∷ []; finished = 7 ∷ [] })
unfolding program
finished-Reach = later taken-Reach (finish 7 here)

abbrev done : Pool
unfolding program
done = record queued {
  closing = true;
  outstanding = 0;
  q = [];
  workers = [];
  user = stopped;
  started = 7 ∷ [];
  finished = 7 ∷ [];
}

done-Reach : Reach 1 done
unfolding program
done-Reach = later (later (later finished-Reach (stop refl)) (enter here)) (join refl refl)

Step-Inv_example :
    Inv 1 (record queued { outstanding = 0; q = []; workers = running 7 ∷ []; started = 7 ∷ [] })
unfolding program
Step-Inv_example = Step-Inv (omega arith) (Reach-Inv (omega arith) queued-Reach) (enter here)

queue_bounded_example : length queued.q ≤ 1 + 1
queue_bounded_example = queue_bounded {n = 1} (omega arith) queued-Reach

no_lost_wakeup_example : 0 < tally is_awake queued.workers
unfolding program
no_lost_wakeup_example =
    no_lost_wakeup {n = 1} (omega arith) (omega arith) queued-Reach (inl (omega arith))

stopped-drained_example :
    (done.q ≡ [])
    × (done.started ≡ done.submitted)
    × ((a : ℕ) → times a done.finished ≡ times a done.submitted)
unfolding program
stopped-drained_example = stopped-drained {n = 1} (omega arith) done-Reach refl

joining-none_blocked_example : (true ≡ true) × (◌≡◌ {A = List ℕ} [] []) × (◌≡◌ {A = ℕ} 0 0)
unfolding program
joining-none_blocked_example =
    joining-none_blocked {n = 1} (omega arith) (later finished-Reach (stop refl)) refl

history-blocked_example : (1 ≤ 0 + 1) × (◌≡◌ {A = ℕ} 0 0)
unfolding history happen step wakes_up decrement
history-blocked_example =
    history-blocked (calls decrements ∷ wakes ∷ [])
      (record { cntr = 1; blocked = 1; notified = 0; returned = 0 })
      (record { cntr = 0; blocked = 0; notified = 0; returned = 1 }) refl
