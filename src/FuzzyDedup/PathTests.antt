-- ===== src/FuzzyDedup/PathTests.antt =====
-- The paths of nodes, and the scattered directories of a small tree.
use dupa.Base.{
  zero, suc, Bool, true, ◌<◌, ◌≢◌, starts_with, none, Bool-cases, ℕ, ◌≡◌, ◌⊎◌, false, some, List,
  [], ◌∷◌, String, In, inl, inr, refl, sym, subst, arith,
}
use dupa.FileTree.Store.{is_evaluated}
use dupa.FileTree.Invariant.{Returns}
use dupa.FileTree.Traversal.{Rooted}
use dupa.FileTree.Tests.{fixed_point}
use dupa.FileTree.Printing.{build_path, print_scattered_directories}
use dupa.FileTree.Scattered.{ScatteredLines, print_scattered_directories-Scattered}
use dupa.FuzzyDedup.Tests.{settings}
use dupa.FuzzyDedup.Grouping.{grouped}
use dupa.Scanner.Lists.{element_lists}
use dupa.Scanner.FilePaths.{same_elements, same_elements-eq}
use dupa.Scanner.Disk.{Names, entries_of, listings, disk, both_listed}
use dupa.Scanner.Walk.Over.{under, at_root}
use dupa.FuzzyDedup.BuildPath.{EntriesJoined, build_path-HasNode}
use dupa.FuzzyDedup.TreeTests.{
  copied_node, copied, copied-IsTree, no_nodes, no_nodes-IsNew, text_ne,
}
use dupa.FuzzyDedup.DiskTests.{grown, disk-Named}

-- One entry of a directory.
abbrev Joins : List String → List String → Type 0
Joins d e =
    element_lists.join d (
      element_lists.of_native
        (element_lists.native (element_lists.filename (element_lists.filename e))))
    ≡ e

none-some : {A : Type 0} {a : A} → none ≡ some a → ⊥
none-some e = ground arith

listed_in :
    (d : Names) (es : List Names)
    → entries_of d listings ≡ some es
    → ((d ≡ "r" ∷ []) × (es ≡ ("r" ∷ "a" ∷ []) ∷ ("r" ∷ "s" ∷ []) ∷ ("r" ∷ "l" ∷ []) ∷ []))
      ⊎ ((d ≡ "r" ∷ "s" ∷ []) × (es ≡ ("r" ∷ "s" ∷ "b" ∷ []) ∷ []))
listed_in d es e = elim (both_listed d es e) [
  | inl (at_r, same) ↦ inl (same_elements-eq d ("r" ∷ []) at_r, same)
  | inr (not_r, same) ↦ elim (Bool-cases (same_elements d ("r" ∷ "s" ∷ []))) [
    | inl at_s ↦ inr (same_elements-eq d ("r" ∷ "s" ∷ []) at_s, same)
    | inr not_s ↦ absurd (none-some (rw (not_r, not_s) at e))
  ]
]

disk-Joined : EntriesJoined element_lists disk
disk-Joined d e (es, listed, i) = elim (listed_in d es listed) [
  | inl (at_r, same) ↦
      subst (λ c. Joins c e) (sym at_r)
        (elim (subst (In e) same i) [
          | inl a ↦ subst (Joins ("r" ∷ [])) (sym a) refl
          | inr (inl s) ↦ subst (Joins ("r" ∷ [])) (sym s) refl
          | inr (inr (inl l)) ↦ subst (Joins ("r" ∷ [])) (sym l) refl
          | inr (inr (inr j)) ↦ absurd j
        ])
  | inr (at_s, same) ↦
      subst (λ c. Joins c e) (sym at_s)
        (elim (subst (In e) same i) [
          | inl b ↦ subst (Joins ("r" ∷ "s" ∷ [])) (sym b) refl
          | inr j ↦ absurd j
        ])
]

build_path-HasNode_example :
    (r : ℕ × ℕ) × In r grown.0.state.sum2node
    × (r.0 ≡ 8)
    × (build_path element_lists grown.0.state.heap.num_nodes grown.0.state.heap r.1
        ≡ some ("r" ∷ "s" ∷ "b" ∷ []))
build_path-HasNode_example =
    build_path-HasNode element_lists disk ("r" ∷ []) disk-Joined refl no_nodes grown.0 grown.1
      no_nodes-IsNew refl (text_ne "r" "" refl) disk-Named grown.3 grown.4 ("r" ∷ "s" ∷ [])
      ("r" ∷ "s" ∷ "b" ∷ []) _ (record { size = 5; mtime = 1; sum = 8 })
      (under ("r" ∷ []) _ (at_root _ refl) (_, refl, inr (inl refl)) (refl, refl)) refl (inl refl)
      (refl, (false, refl), refl) refl (λ e. absurd (omega (arith, e)))

pub copied_evaluated : (x : ℕ) → x < 2 → is_evaluated (copied_node x) ≡ true
copied_evaluated zero lt = refl
copied_evaluated (suc zero) lt = refl
copied_evaluated (suc (suc n)) lt = absurd (omega arith)

pub copied-Rooted : Rooted copied 0
copied-Rooted = (omega arith, up)
  where
    up : (x : ℕ) → x < 2 → x ≢ 0 → (p : ℕ) × ((copied_node x).parent ≡ some p)
    up zero lt ne = absurd (ne refl)
    up (suc zero) lt ne = (0, refl)
    up (suc (suc n)) lt ne = absurd (omega arith)

abbrev prefix_before : String → String → Bool
prefix_before a b = starts_with b a

print_scattered_directories-Scattered_example :
    Returns
      (print_scattered_directories element_lists fixed_point settings grouped.sort prefix_before
        copied 0)
      (ScatteredLines element_lists fixed_point settings grouped.sort prefix_before copied)
print_scattered_directories-Scattered_example =
    print_scattered_directories-Scattered element_lists fixed_point settings grouped.sort
      prefix_before copied 0 grouped.sort-In copied-IsTree copied-Rooted copied_evaluated
