-- ===== src/Scanner/Disk.antt =====
-- A small directory on disk, with a file, a directory and a symbolic link.
use dupa.Base.{
  some_inj, ℕ, ◌<◌, true, false, String, Option, none, some, List, [], ◌∷◌, ◌≡◌, ◌⊎◌, refl, sym,
  ◌∙◌, inl, inr, arith, if◌then◌else◌, Bool-cases,
}
use dupa.Scanner.FilePaths.{same_elements}
use dupa.Scanner.Lists.{element_lists}
use dupa.Scanner.Walk.{FileSystem}
use dupa.Scanner.Walk.Ends.{Finite, weight, weights}

abbrev pub Names : Type 0
Names = List String

-- /r holds a file a, a directory s with a file b, and a link l.
abbrev pub entries_of : Names → List (Names × List Names) → Option (List Names)
entries_of p [] = none
entries_of p (x ∷ xs) = let rest = entries_of p xs in if same_elements p x.0 then some x.1 else rest

abbrev pub listings : List (Names × List Names)
listings =
    ("r" ∷ [], (("r" ∷ "a" ∷ []) ∷ ("r" ∷ "s" ∷ []) ∷ ("r" ∷ "l" ∷ []) ∷ []))
    ∷ (("r" ∷ "s" ∷ []), (("r" ∷ "s" ∷ "b" ∷ []) ∷ []))
    ∷ []

abbrev pub disk : FileSystem element_lists
disk = record {
  open_dir = λ p. entries_of p listings;
  is_symlink = λ p. some (same_elements p ("r" ∷ "l" ∷ []));
  is_directory = λ p. some (same_elements p ("r" ∷ "s" ∷ []));
  is_regular = λ p. some (if same_elements p ("r" ∷ "s" ∷ []) then false else true);
  analyze = λ p.
      some
        (record { size = 5; mtime = 1; sum = if same_elements p ("r" ∷ "a" ∷ []) then 7 else 8 });
}

none-some : {A : Type 0} {a : A} → none ≡ some a → ⊥
none-some e = ground arith

pub both_listed :
    (p : Names) (es : List Names)
    → entries_of p listings ≡ some es
    → ((same_elements p ("r" ∷ []) ≡ true)
        × (es ≡ ("r" ∷ "a" ∷ []) ∷ ("r" ∷ "s" ∷ []) ∷ ("r" ∷ "l" ∷ []) ∷ []))
      ⊎ ((same_elements p ("r" ∷ []) ≡ false) × (es ≡ ("r" ∷ "s" ∷ "b" ∷ []) ∷ []))
both_listed p es e = elim (Bool-cases (same_elements p ("r" ∷ []))) [
  | inl at_r ↦ inl (at_r, some_inj (sym e ∙ rw at_r refl))
  | inr not_r ↦ elim (Bool-cases (same_elements p ("r" ∷ "s" ∷ []))) [
    | inl at_s ↦ inr (not_r, some_inj (sym e ∙ rw (not_r, at_s) refl))
    | inr not_s ↦ absurd (none-some (rw (not_r, not_s) at e))
  ]
]

abbrev size_of : Names → ℕ
size_of p = if same_elements p ("r" ∷ []) then 20 else 3

pub listings_larger :
    (p : Names) (es : List Names)
    → entries_of p listings ≡ some es
    → weights element_lists disk size_of es < size_of p
unfolding weight
listings_larger p es e = elim (both_listed p es e) [
  | inl (at_r, same) ↦ rw (at_r, same) (omega arith)
  | inr (not_r, same) ↦ rw (not_r, same) (omega arith)
]

abbrev pub finite_disk : Finite element_lists disk
finite_disk = record { size = size_of; larger = listings_larger }
