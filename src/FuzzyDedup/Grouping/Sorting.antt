-- ===== src/FuzzyDedup/Grouping/Sorting.antt =====
-- An insertion sort.
use dupa.Base.{ℕ, ◌↔◌, inl, inr, Bool, List, [], ◌∷◌, In, if◌then◌else◌, Bool-cases}

abbrev insert : (ℕ → ℕ → Bool) → ℕ → List ℕ → List ℕ
insert before c [] = c ∷ []
insert before c (d ∷ ds) =
    let rest = insert before c ds in if before d c then d ∷ rest else c ∷ d ∷ ds

abbrev pub insertion_sort : (ℕ → ℕ → Bool) → List ℕ → List ℕ
insertion_sort before [] = []
insertion_sort before (c ∷ cs) = insert before c (insertion_sort before cs)

insert-In :
    (before : ℕ → ℕ → Bool) (c x : ℕ) (ds : List ℕ) → In x (insert before c ds) ↔ In x (c ∷ ds)
insert-In before c x [] = (λ m. m, λ m. m)
insert-In before c x (d ∷ ds) = elim (Bool-cases (before d c)) [
  | inr later ↦ rw later (λ m. m, λ m. m)
  | inl first ↦ rw first (
    (λ m. elim m [
      | inl e ↦ inr (inl e)
      | inr i ↦ elim ((insert-In before c x ds).0 i) [ inl e ↦ inl e | inr j ↦ inr (inr j) ]
    ]),
    (λ m. elim m [
      | inl e ↦ inr ((insert-In before c x ds).1 (inl e))
      | inr (inl e) ↦ inl e
      | inr (inr j) ↦ inr ((insert-In before c x ds).1 (inr j))
    ]),
  )
]

pub sort-In :
    (before : ℕ → ℕ → Bool) (x : ℕ) (cs : List ℕ) → In x (insertion_sort before cs) ↔ In x cs
sort-In before x [] = (λ m. m, λ m. m)
sort-In before x (c ∷ cs) =
    let sorted = insert-In before c x (insertion_sort before cs) in
    (
      (λ m. elim (sorted.0 m) [ inl e ↦ inl e | inr i ↦ inr ((sort-In before x cs).0 i) ]),
      (λ m. sorted.1 (elim m [ inl e ↦ inl e | inr i ↦ inr ((sort-In before x cs).1 i) ])),
    )
