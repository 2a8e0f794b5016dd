-- ===== src/DbLib/Monad.antt =====
-- Code that may throw, over a state that outlives the exception.
use dupa.Base.{ℕ, ◌≡◌, refl, Bool, true, false}

-- `thrown` is an exception with SQLite's code; `crashed` is a failed assertion, a null pointer that is
-- followed, or a loop that runs out of fuel.
pub data Outcome (A : Type 0) : Type 0 where
  returned : A → Outcome A
  thrown : ℕ → Outcome A
  crashed : Outcome A

abbrev pub M : Type 0 → Type 0 → Type 0
M D A = D → Outcome A × D

abbrev pub and_then : {D A B : Type 0} → Outcome A × D → (A → M D B) → Outcome B × D
and_then (returned a, d) f = f a d
and_then (thrown code, d) f = (thrown code, d)
and_then (crashed, d) f = (crashed, d)

infixl 5 ◌>>=◌ ◌>>◌
abbrev pub ◌>>=◌ : {D A B : Type 0} → M D A → (A → M D B) → M D B
◌>>=◌ m f d = and_then (m d) f

abbrev pub ◌>>◌ : {D B : Type 0} → M D (Unit {0}) → M D B → M D B
m >> k = m >>= λ _. k

module _ {D : Type 0} where
  abbrev pub pure : {A : Type 0} → A → M D A
  pure a d = (returned a, d)

  abbrev pub throw : {A : Type 0} → ℕ → M D A
  throw code d = (thrown code, d)

  abbrev pub crash : {A : Type 0} → M D A
  crash d = (crashed, d)

  -- A call of SQLite's.
  abbrev pub call : {A : Type 0} → (D → A × D) → M D A
  call f d = (returned (f d).0, (f d).1)

  -- `if (!b) throw DBException(...)`, the code read from the connection when it is thrown.
  abbrev pub ensure : Bool → (D → ℕ) → M D (Unit {0})
  ensure true code d = (returned tt, d)
  ensure false code d = (thrown (code d), d)

  -- A sequence of steps whose first one returns.
  pub bind-eq :
      {A B : Type 0} (m : M D A) (f : A → M D B) (d d' : D) {a : A}
      → m d ≡ (returned a, d')
      → (m >>= f) d ≡ f a d'
  bind-eq m f d d' e = rw e refl
