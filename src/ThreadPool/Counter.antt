-- ===== src/ThreadPool/Counter.antt =====
-- SyncCounter of src/synch_thread_pool.h and .cpp, as a sequence of calls under its mutex, with the
-- wake-ups without cause that its condition variable allows.
use dupa.Base.{
  ℕ, ◌+◌, ◌-◌, ◌%◌, ◌≤◌, ◌≡◌, ◌∙◌, Option, none, some, List, [], ◌∷◌, ◌==◌, if◌then◌else◌, arith,
  inl, inr, Option-cases,
}
use dupa.ThreadPool.Steps.{size_mod}

-- `blocked` threads are blocked in WaitForZero, `notified` ones may look at the counter again, and
-- `returned` calls of WaitForZero have found it at zero.
pub record SyncCounter : Type 0 where
  pub cntr : ℕ
  pub blocked : ℕ
  pub notified : ℕ
  pub returned : ℕ

unfoldable pub new_counter : ℕ → SyncCounter
new_counter initial = record { cntr = initial; blocked = 0; notified = 0; returned = 0 }

unfoldable pub increment : SyncCounter → SyncCounter
increment c = record c { cntr = (c.cntr + 1) % size_mod }

abbrev notify_all : SyncCounter → SyncCounter
notify_all c = record c { blocked = 0; notified = c.notified + c.blocked }

-- `none` is a failed assertion. The test reads the counter before it is lowered.
unfoldable pub decrement : SyncCounter → Option SyncCounter
decrement c =
    let lowered = record c { cntr = (c.cntr + size_mod - 1) % size_mod } in
    if c.cntr == 0 then none else some (if c.cntr == 0 then notify_all lowered else lowered)

unfoldable pub wait_for_zero : SyncCounter → SyncCounter
wait_for_zero c =
    if c.cntr == 0
    then record c { returned = c.returned + 1 }
    else record c { blocked = c.blocked + 1 }

pub data Call : Type 0 where
  increments decrements waits : Call

unfoldable pub step : Call → SyncCounter → Option SyncCounter
unfolding increment decrement wait_for_zero
step increments c = some (increment c)
step decrements c = decrement c
step waits c = some (wait_for_zero c)

unfoldable pub run : List Call → SyncCounter → Option SyncCounter
unfolding step
run [] c = some c
run (x ∷ xs) c = elim (step x c) [ some c' ↦ run xs c' | none ↦ none ]

step-blocked :
    (x : Call) (c c' : SyncCounter)
    → step x c ≡ some c'
    → (c.blocked ≤ c'.blocked) × (c'.notified ≡ c.notified)
unfolding step
step-blocked increments c c' e = ground arith
step-blocked decrements c c' e = ground arith
step-blocked waits c c' e = ground arith

-- A thread that is blocked in WaitForZero wakes without cause, which a condition variable allows: it
-- looks at the counter, and returns or is blocked again.
unfoldable pub wakes_up : SyncCounter → SyncCounter
wakes_up c =
    if c.blocked == 0
    then c
    else if c.cntr == 0
    then record c { blocked = c.blocked - 1; returned = c.returned + 1 }
    else c

-- A call of the counter's, or a thread that wakes without cause.
pub data Event : Type 0 where
  calls : Call → Event
  wakes : Event

unfoldable pub happen : Event → SyncCounter → Option SyncCounter
unfolding step wakes_up
happen (calls x) c = step x c
happen wakes c = some (wakes_up c)

unfoldable pub history : List Event → SyncCounter → Option SyncCounter
unfolding happen
history [] c = some c
history (x ∷ xs) c = elim (happen x c) [ some c' ↦ history xs c' | none ↦ none ]

abbrev pub wake_ups : List Event → ℕ
wake_ups [] = 0
wake_ups (calls x ∷ es) = wake_ups es
wake_ups (wakes ∷ es) = wake_ups es + 1

wakes_up-blocked :
    (c : SyncCounter)
    → (c.blocked ≤ (wakes_up c).blocked + 1) × ((wakes_up c).notified ≡ c.notified)
unfolding wakes_up
wakes_up-blocked c = ground arith

-- However calls of the counter and wake-ups without cause follow one another, also when they lower the
-- counter to zero: no thread that is blocked in WaitForZero is notified, and no more of them leave it
-- than there are wake-ups without cause.
pub history-blocked :
    (es : List Event) (c c' : SyncCounter)
    → history es c ≡ some c'
    → (c.blocked ≤ c'.blocked + wake_ups es) × (c'.notified ≡ c.notified)
unfolding history happen
history-blocked [] c c' e = ground arith
history-blocked (wakes ∷ es) c c' e =
    let (kept, same) = wakes_up-blocked c in
    let (later, same') = history-blocked es (wakes_up c) c' e in
    (omega (arith, kept, later), same' ∙ same)
history-blocked (calls x ∷ es) c c' e = elim (Option-cases (step x c)) [
  | inl n ↦ absurd (ground arith)
  | inr (d, s) ↦ ground (arith, step-blocked x c d s, history-blocked es d c')
]
