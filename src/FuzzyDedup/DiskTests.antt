-- ===== src/FuzzyDedup/DiskTests.antt =====
-- A tree that is made of a directory on disk.
use dupa.Base.{false, ◌↔◌, arith, ℕ, some, List, [], ◌∷◌, ◌≡◌, ◌≢◌, refl, sym, inl, inr, In, subst}
use dupa.Scanner.Lists.{element_lists}
use dupa.Scanner.Disk.{Names, entries_of, listings, disk, both_listed, finite_disk}
use dupa.Scanner.Walk.{Walk, here}
use dupa.Scanner.Walk.Over.{Below, at_root, under, AllTold}
use dupa.Scanner.Walk.Progress.{WayOut, scan_directory-IsOver}
use dupa.FuzzyDedup.Tree.{tree_ctor_processor}
use dupa.FuzzyDedup.OnDisk.{Growing, IsPlace, HasNode}
use dupa.FuzzyDedup.DiskTree.{
  EntriesNamed, empty_tree, tree_ctor-Keeps, scan_directory_on_disk-Growing,
}
use dupa.FuzzyDedup.{Classes}
use dupa.FuzzyDedup.Tests.{settings}
use dupa.FuzzyDedup.Whole.{fuzzy_dedup}
use dupa.FuzzyDedup.Grouping.{grouped}
use dupa.FuzzyDedup.Deduplicated.{Deduplicated}
use dupa.FuzzyDedup.Ready.{Ready}
use dupa.FuzzyDedup.Interesting.{Interesting}
use dupa.FuzzyDedup.{get_interesting_eq_classes}
use dupa.FuzzyDedup.Reported.{fuzzy_dedup-Interesting}
use dupa.FuzzyDedup.DiskResult.{Growing-Ready, IsScanned, NodeFor, fuzzy_dedup_on_disk-Deduplicated}
use dupa.FileTree.Tests.{fixed_point, fixed_point_laws}
use dupa.HashCache.{FileInfo}
use dupa.FuzzyDedup.TreeTests.{no_nodes, no_nodes-IsNew, text_ne}

abbrev GrownWalk : Type 0
GrownWalk = Walk element_lists disk (tree_ctor_processor element_lists {D = ℕ})

pub disk-Named : EntriesNamed element_lists disk
disk-Named d e (es, listed, i) = elim (both_listed d es listed) [
  | inl (_, same) ↦ elim (subst (In e) same i) [
    | inl a ↦
        subst (λ z. element_lists.native (element_lists.filename (element_lists.filename z)) ≢ "")
          (sym a) (text_ne "a" "" refl)
    | inr (inl s) ↦
        subst (λ z. element_lists.native (element_lists.filename (element_lists.filename z)) ≢ "")
          (sym s) (text_ne "s" "" refl)
    | inr (inr (inl l)) ↦
        subst (λ z. element_lists.native (element_lists.filename (element_lists.filename z)) ≢ "")
          (sym l) (text_ne "l" "" refl)
    | inr (inr (inr j)) ↦ absurd j
  ]
  | inr (_, same) ↦ elim (subst (In e) same i) [
    | inl b ↦
        subst (λ z. element_lists.native (element_lists.filename (element_lists.filename z)) ≢ "")
          (sym b) (text_ne "b" "" refl)
    | inr j ↦ absurd j
  ]
]

-- Some order of the tasks.
pub grown :
    WayOut element_lists disk (tree_ctor_processor element_lists) ("r" ∷ []) (empty_tree no_nodes) 0
grown =
    (scan_directory-IsOver element_lists disk (tree_ctor_processor element_lists) ("r" ∷ [])
      (empty_tree no_nodes) (Growing element_lists disk ("r" ∷ []) no_nodes)
      (IsPlace element_lists disk ("r" ∷ []))
      (λ f p i s. HasNode element_lists disk ("r" ∷ []) f p i s)
      (tree_ctor-Keeps element_lists disk ("r" ∷ []) no_nodes no_nodes-IsNew refl
        (text_ne "r" "" refl) disk-Named)
      finite_disk _ 0 (here 0 refl)).2

scan_directory_on_disk-Growing_example :
    Growing element_lists disk ("r" ∷ []) no_nodes grown.0.state
    × ((d : Names) (es : List Names)
        → Below element_lists disk ("r" ∷ []) d
        → entries_of d listings ≡ some es
        → (p : ℕ) × IsPlace element_lists disk ("r" ∷ []) d p grown.0.state
          × AllTold element_lists disk
              (tree_ctor_processor element_lists)
              (λ f q i s. HasNode element_lists disk ("r" ∷ []) f q i s)
              es
              p
              grown.0.state)
scan_directory_on_disk-Growing_example =
    scan_directory_on_disk-Growing element_lists disk ("r" ∷ []) no_nodes _ grown.0 grown.1
      no_nodes-IsNew refl (text_ne "r" "" refl) disk-Named refl grown.3 grown.4

abbrev info_of : ℕ → FileInfo
info_of s = record { size = 5; mtime = 1; sum = s }

a_IsScanned :
    IsScanned element_lists disk fixed_point fixed_point_laws settings grouped
      ("r" ∷ [])
      ("r" ∷ "a" ∷ [])
      (info_of 7)
a_IsScanned = (
  "r" ∷ [],
  _,
  at_root _ refl,
  refl,
  inl refl,
  (refl, (false, refl), refl),
  refl,
  λ e. absurd (omega (arith, e)),
)

b_IsScanned :
    IsScanned element_lists disk fixed_point fixed_point_laws settings grouped
      ("r" ∷ [])
      ("r" ∷ "s" ∷ "b" ∷ [])
      (info_of 8)
b_IsScanned = (
  "r" ∷ "s" ∷ [],
  _,
  under ("r" ∷ []) _ (at_root _ refl) (_, refl, inr (inl refl)) (refl, refl),
  refl,
  inl refl,
  (refl, (false, refl), refl),
  refl,
  λ e. absurd (omega (arith, e)),
)

fuzzy_dedup_on_disk-Deduplicated_example :
    (s : Classes fixed_point settings) × (fuzzy_dedup fixed_point settings grouped grown.0.state
      ≡ some (some (0, s)))
    × Deduplicated fixed_point fixed_point_laws settings grouped grown.0.state s.heap
    × ((a : ℕ) × (b : ℕ) × NodeFor element_lists disk fixed_point fixed_point_laws settings grouped
          ("r" ∷ [])
          grown.0.state
          ("r" ∷ "a" ∷ [])
          (info_of 7)
          a
        × NodeFor element_lists disk fixed_point fixed_point_laws settings grouped
            ("r" ∷ [])
            grown.0.state
            ("r" ∷ "s" ∷ "b" ∷ [])
            (info_of 8)
            b
        × (((s.heap.node a).eq_class ≡ (s.heap.node b).eq_class) ↔ ◌≡◌ {A = ℕ} 7 8))
fuzzy_dedup_on_disk-Deduplicated_example =
    fuzzy_dedup_on_disk-Deduplicated element_lists disk fixed_point fixed_point_laws settings
      grouped ("r" ∷ []) no_nodes grown.0 grown.1 no_nodes-IsNew (λ c. tt) refl
      (text_ne "r" "" refl) disk-Named grown.3 grown.4 ("r" ∷ "a" ∷ []) ("r" ∷ "s" ∷ "b" ∷ [])
      (info_of 7) (info_of 8) a_IsScanned b_IsScanned

grown-Ready : Ready fixed_point fixed_point_laws settings grouped grown.0.state
grown-Ready =
    Growing-Ready element_lists disk fixed_point fixed_point_laws settings grouped ("r" ∷ [])
      no_nodes grown.0.state (λ c. tt)
      (scan_directory_on_disk-Growing element_lists disk ("r" ∷ []) no_nodes _ grown.0 grown.1
        no_nodes-IsNew refl (text_ne "r" "" refl) disk-Named refl grown.3 grown.4).0

fuzzy_dedup-Interesting_example :
    (s : Classes fixed_point settings) × (found : List ℕ) × (fuzzy_dedup fixed_point settings
        grouped grown.0.state
      ≡ some (some (0, s)))
    × (get_interesting_eq_classes s.heap s.eq_classes ≡ some found)
    × ((c : ℕ) → In c found ↔ Interesting s.heap c)
fuzzy_dedup-Interesting_example =
    fuzzy_dedup-Interesting fixed_point fixed_point_laws settings grouped grown.0.state grown-Ready
