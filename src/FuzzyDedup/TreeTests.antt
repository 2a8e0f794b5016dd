-- ===== src/FuzzyDedup/TreeTests.antt =====
-- Trees that are scanned from a database, and their unique files.
use dupa.FileTree.Store.{dir, is_dir, Heap}
use dupa.FileTree.Store.{Node, is_evaluated}
use dupa.FileTree.Invariant.{IsTree}
use dupa.FileTree.Walk.{traverse}
use dupa.FuzzyDedup.Uniqueness.{calculate_uniqueness}
use dupa.FuzzyDedup.Unique.{Done, calculate_uniqueness-Done}
use dupa.FileTree.Growing.{IsNew}
use dupa.FuzzyDedup.Tree.{scan_directory}
use dupa.FuzzyDedup.Building.{IsNamed, Scanned}
use dupa.FuzzyDedup.Scanned.{scan_directory-Scanned, scan_directory-unnamed}
use dupa.HashCache.{FileInfo}
use dupa.Scanner.FilePaths.{Paths}
use dupa.Scanner.Lists.{element_lists}
use dupa.Scanner.Prefix.{IsPrefix}
use dupa.Scanner.{extend, common_from, common_path_prefix, common_prefix_of}
use dupa.Base.{
  List, Distinct, inl, inr, In, none, ℕ, zero, suc, ◌<◌, ◌≡◌, ◌≢◌, refl, true, false, some, [],
  arith, ◌∷◌, String, str_eq, eq_iff, subst, sym, ap, ◌∙◌,
}
use dupa.FileTree.Invariant.{Returns}
use dupa.FileTree.Tests.{fixed_point, sample}

abbrev pub no_nodes : Heap ℕ
no_nodes = record {
  node = λ i. record {
    name = "";
    type = dir;
    size = 0;
    parent = none;
    children = [];
    eq_class = none;
    not_evaluated_children = 0;
    unique_fraction = 0;
  };
  class_at = λ c. record { nodes = []; weight = 0 };
  num_nodes = 0;
  num_classes = 0;
}

pub no_nodes-IsNew : IsNew no_nodes
no_nodes-IsNew = record {
  tree = record {
    below = λ p c m. absurd m;
    above = λ p c e. absurd (ground arith);
    once = λ p. tt;
    typed = λ p c m. absurd m;
  };
  counted = λ p. refl;
  unclassified = λ i. refl;
  no_members = λ c. refl;
}

abbrev photos : List (String × FileInfo)
photos =
    ("/p/s/b", record { size = 5; mtime = 1; sum = 7 })
    ∷ ("/p/a", record { size = 6; mtime = 1; sum = 8 })
    ∷ []

pub text_ne : (s t : String) → str_eq s t ≡ false → s ≢ t
text_ne s t e d = ground (arith, eq_iff s t)

photos-IsNamed : (y : String × FileInfo) → In y photos → IsNamed element_lists y
photos-IsNamed y (inl e) = subst (IsNamed element_lists) (sym e) (
  text_ne "b" "" refl,
  λ d i. elim i [
    | inl f ↦ subst (λ z. z ≢ "") (sym f) (text_ne "/" "" refl)
    | inr (inl f) ↦ subst (λ z. z ≢ "") (sym f) (text_ne "p" "" refl)
    | inr (inr (inl f)) ↦ subst (λ z. z ≢ "") (sym f) (text_ne "s" "" refl)
    | inr (inr (inr j)) ↦ absurd j
  ],
)
photos-IsNamed y (inr (inl e)) = subst (IsNamed element_lists) (sym e) (
  text_ne "a" "" refl,
  λ d i. elim i [
    | inl f ↦ subst (λ z. z ≢ "") (sym f) (text_ne "/" "" refl)
    | inr (inl f) ↦ subst (λ z. z ≢ "") (sym f) (text_ne "p" "" refl)
    | inr (inr j) ↦ absurd j
  ],
)
photos-IsNamed y (inr (inr j)) = absurd j

photos_root : common_prefix_of element_lists ("/" ∷ "p" ∷ "s" ∷ []) photos ≡ "/" ∷ "p" ∷ []
unfolding common_prefix_of common_path_prefix common_from extend
photos_root = refl

scan_directory-Scanned_example :
    Returns (scan_directory element_lists photos no_nodes) (Scanned element_lists photos [])
scan_directory-Scanned_example =
    scan_directory-Scanned element_lists ("/p/s/b", record { size = 5; mtime = 1; sum = 7 })
      (("/p/a", record { size = 6; mtime = 1; sum = 8 }) ∷ []) no_nodes no_nodes-IsNew refl
      photos-IsNamed
      (λ e. text_ne "/p" "" refl (ap (Paths.native element_lists) (sym photos_root) ∙ e))

-- Files with relative paths in two directories.
abbrev strangers : List (String × FileInfo)
strangers =
    ("x/a", record { size = 5; mtime = 1; sum = 7 })
    ∷ ("y/b", record { size = 6; mtime = 1; sum = 8 })
    ∷ []

strangers_apart : (r : List String) → IsPrefix r ("x" ∷ []) → IsPrefix r ("y" ∷ []) → r ≡ []
strangers_apart [] p q = refl
strangers_apart (a ∷ r) (zs, d) (ws, e) = absurd (text_ne "x" "y" refl (first d ∙ sym (first e)))
  where
    first : {b : String} {us : List String} → b ∷ [] ≡ a ∷ us → b ≡ a
    first f = ap (λ (l : List String). elim l [ [] ↦ a | z ∷ _ ↦ z ]) f

scan_directory-unnamed_example : scan_directory element_lists strangers no_nodes ≡ none
scan_directory-unnamed_example =
    scan_directory-unnamed element_lists ("x/a", record { size = 5; mtime = 1; sum = 7 })
      ("y/b", record { size = 6; mtime = 1; sum = 8 })
      (("y/b", record { size = 6; mtime = 1; sum = 8 }) ∷ []) no_nodes tt (inr (inl refl))
      strangers_apart

-- A directory with one file, whose duplicate is elsewhere.
abbrev pub copied_node : ℕ → Node ℕ
copied_node zero = record (sample.node 1) {
  parent = none;
  children = 1 ∷ [];
  eq_class = some 1;
  not_evaluated_children = 0;
}
copied_node (suc zero) = record (sample.node 3) { parent = some 0 }
copied_node (suc (suc n)) = no_nodes.node n

abbrev pub copied : Heap ℕ
copied = record { node = copied_node; class_at = sample.class_at; num_nodes = 2; num_classes = 2 }

pub copied-IsTree : IsTree copied
copied-IsTree = record { below = below_; above = above_; once = once_; typed = typed_ }
  where
    below_ :
        (p c : ℕ)
        → In c (copied_node p).children
        → (p < c) × (c < 2) × ((copied_node c).parent ≡ some p)
    below_ zero c (inl e) = rw e (omega arith, omega arith, refl)
    below_ zero c (inr m) = absurd m
    below_ (suc zero) c m = absurd m
    below_ (suc (suc n)) c m = absurd m

    above_ : (p c : ℕ) → (copied_node c).parent ≡ some p → In c (copied_node p).children
    above_ p zero e = absurd (ground arith)
    above_ p (suc zero) e =
        let q : 0 ≡ p = ground arith in subst (λ z. In 1 (copied_node z).children) q (inl refl)
    above_ p (suc (suc n)) e = absurd (ground arith)

    once_ : (p : ℕ) → Distinct (copied_node p).children
    once_ zero = ((λ m. m), tt)
    once_ (suc zero) = tt
    once_ (suc (suc n)) = tt

    typed_ : (p c : ℕ) → In c (copied_node p).children → is_dir (copied_node p).type ≡ true
    typed_ zero c m = refl
    typed_ (suc zero) c m = absurd m
    typed_ (suc (suc n)) c m = absurd m

calculate_uniqueness-Done_example :
    Returns
      (calculate_uniqueness fixed_point true 2 0 copied)
      (Done fixed_point true copied (traverse copied 2 0) copied)
calculate_uniqueness-Done_example =
    calculate_uniqueness-Done fixed_point true copied 0 evaluated copied-IsTree (omega arith)
  where
    evaluated : (x : ℕ) → x < 2 → is_evaluated (copied_node x) ≡ true
    evaluated zero lt = refl
    evaluated (suc zero) lt = refl
    evaluated (suc (suc n)) lt = absurd (omega arith)
