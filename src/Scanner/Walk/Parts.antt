-- ===== src/Scanner/Walk/Parts.antt =====
-- Lemmas on pairs, options and lists for the proofs about the walk. src/scanner_int.h.
use dupa.Base.{
  Option, some, List, [], ◌∷◌, ◌++◌, ◌≡◌, ◌⊎◌, inl, inr, refl, ap, subst, In, In-append,
  In-append_left, In-append_right,
}
use dupa.FileTree.Invariant.{Returns}

-- Equal pairs, lists and options have equal parts.
pub pair_inj :
    {A B : Type 0} {a c : A} {b d : B} → ◌≡◌ {A = A × B} (a, b) (c, d) → (a ≡ c) × (b ≡ d)
pair_inj e = (ap (λ x. x.0) e, ap (λ x. x.1) e)

-- What a computation returns satisfies its postcondition.
pub Returns-at :
    {A : Type 0} {m : Option A} (P : A → Type 0) {a : A} → m ≡ some a → Returns m P → P a
Returns-at P e r = subst (λ x. Returns x P) e r

pub cons_inj : {A : Type 0} {a b : A} {xs ys : List A} → a ∷ xs ≡ b ∷ ys → (a ≡ b) × (xs ≡ ys)
cons_inj {a} {xs} e =
    (ap (λ l. elim l [ [] ↦ a | x ∷ l' ↦ x ]) e, ap (λ l. elim l [ [] ↦ xs | x ∷ l' ↦ l' ]) e)

pub In-without :
    {A : Type 0} (before after : List A) (x y : A)
    → In y (before ++ after)
    → In y (before ++ x ∷ after)
In-without before after x y i = elim (In-append y before after i) [
  | inl l ↦ In-append_left y before (x ∷ after) l
  | inr r ↦ In-append_right y before (x ∷ after) (inr r)
]

pub In-split :
    {A : Type 0} (before after : List A) (x y : A)
    → In y (before ++ x ∷ after)
    → (y ≡ x) ⊎ In y (before ++ after)
In-split before after x y i = elim (In-append y before (x ∷ after) i) [
  | inl l ↦ inr (In-append_left y before after l)
  | inr (inl e) ↦ inl e
  | inr (inr r) ↦ inr (In-append_right y before after r)
]

-- A list with an element in the middle is not empty.
pub In-nothing : {A : Type 0} (before after : List A) (x : A) → ¬ (before ++ x ∷ after ≡ [])
In-nothing before after x e = subst (In x) e (In-append_right x before (x ∷ after) (inl refl))
