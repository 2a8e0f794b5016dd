-- ===== src/FileTree/Tests.antt =====
-- A concrete tree of directories with equal files, numbers with one decimal in the place of doubles,
-- and the theorems at them. The tree is that of `a/x`, `b/y` and an empty `c` below a root.
use Prim.Native.Nat.{◌*◌, ◌/◌}
use native.Mathlib.Nat.{div-le_of_le-mul}
use dupa.Base.{
  ℕ, zero, suc, ◌+◌, ◌≤◌, ◌<◌, ◌≡◌, ◌↔◌, inl, inr, refl, sym, subst, true, none, some, List, [],
  ◌∷◌, ltb, if◌then◌else◌, In, Distinct, arith, Platform, Bool-cases,
}
use dupa.FileTree.Store.{dir, file, Node, EqClass, Heap, is_dir}
use dupa.FileTree.{mem, add_node, node_distance}
use dupa.FileTree.Invariant.{Returns, mem-In, not-In, open_count, IsTree, IsConsistent, Classified}
use dupa.FileTree.Walk.{traverse, is_ancestor_of}
use dupa.FileTree.Ancestors.{is_ancestor_of-traverse}
use dupa.FileTree.AddNode.{add_node-IsConsistent}
use dupa.FileTree.Weights.{WeightLaws}
use dupa.FileTree.Distance.{IsSmall, node_distance-IsSmall}

-- A list without its repetitions.
unfoldable pub distinct : List ℕ → List ℕ
distinct [] = []
distinct (x ∷ xs) = let rest = distinct xs in if mem x rest then rest else x ∷ rest

pub distinct-Distinct : (xs : List ℕ) → Distinct (distinct xs)
unfolding distinct
distinct-Distinct [] = tt
distinct-Distinct (x ∷ xs) =
    let rest = distinct-Distinct xs in
    elim (Bool-cases (mem x (distinct xs))) [
      | inl m ↦ rw m rest
      | inr m ↦ rw m (not-In x (distinct xs) m, rest)
    ]

pub distinct-In : (x : ℕ) (xs : List ℕ) → In x (distinct xs) ↔ In x xs
unfolding distinct
distinct-In x [] = ((λ m. m), (λ m. m))
distinct-In x (y ∷ ys) =
    let (there, back) = distinct-In x ys in
    elim (Bool-cases (mem y (distinct ys))) [
      | inl m ↦ rw m (
        (λ i. inr (there i)),
        (λ i. elim i [
          | inl e ↦ subst (λ z. In z (distinct ys)) (sym e) (mem-In y (distinct ys) m)
          | inr j ↦ back j
        ]),
      )
      | inr m ↦ rw m (
        (λ i. elim i [ inl e ↦ inl e | inr j ↦ inr (there j) ]),
        (λ i. elim i [ inl e ↦ inl e | inr j ↦ inr (back j) ]),
      )
    ]

-- Numbers with one decimal.
abbrev pub fixed_point : Platform
fixed_point = record {
  Double = ℕ;
  of_ℕ = λ n. n * 10;
  add = λ a b. a + b;
  mul = λ a b. a * b / 10;
  div = λ a b. a * 10 / b;
  lt = ltb;
  to_u64 = λ a. a / 10;
  elements = distinct;
  elements-Distinct = distinct-Distinct;
  elements-In = distinct-In;
}

pub ratio :
    (y s : ℕ) → y ≤ s → 0 < s → ltb (y * 10 * 10 / (s * 10)) (11 * 10 * 10 / (10 * 10)) ≡ true
ratio y s le pos =
    let b = div-le_of_le-mul (s * 10) {m = y * 10 * 10} {n = 10} (omega (arith, le)) in ground arith

abbrev pub fixed_point_laws : WeightLaws fixed_point
fixed_point_laws = record {
  IsWeight = λ w. Unit;
  of_ℕ-IsWeight = λ n. tt;
  add-IsWeight = λ a b p q. tt;
  mul-IsWeight = λ a b p q. tt;
  div-IsWeight = λ a n p lt. tt;
  add_grows = λ s w p q. omega arith;
  add_mono = λ s t w p le. omega (arith, le);
  ratio_small = λ y s le pos. ratio y s le pos;
  zero_small = refl;
}

abbrev pub blank : Node ℕ
blank = record {
  name = "";
  type = file;
  size = 0;
  parent = none;
  children = [];
  eq_class = none;
  not_evaluated_children = 0;
  unique_fraction = 0;
}

abbrev pub sample_node : ℕ → Node ℕ
sample_node zero = record blank {
  name = "root";
  type = dir;
  children = 1 ∷ 2 ∷ 5 ∷ [];
  not_evaluated_children = 3;
}
sample_node (suc zero) = record blank { name = "a"; type = dir; parent = some 0; children = 3 ∷ [] }
sample_node (suc (suc zero)) = record blank {
  name = "b";
  type = dir;
  parent = some 0;
  children = 4 ∷ [];
}
sample_node (suc (suc (suc zero))) = record blank {
  name = "x";
  size = 7;
  parent = some 1;
  eq_class = some 0;
}
sample_node (suc (suc (suc (suc zero)))) = record blank {
  name = "y";
  size = 7;
  parent = some 2;
  eq_class = some 0;
}
sample_node (suc (suc (suc (suc (suc zero))))) = record blank {
  name = "c";
  type = dir;
  parent = some 0;
}
sample_node (suc (suc (suc (suc (suc (suc n)))))) = blank

abbrev pub sample_class : ℕ → EqClass ℕ
sample_class zero = record { nodes = 3 ∷ 4 ∷ []; weight = 70 }
sample_class (suc n) = record { nodes = []; weight = 0 }

-- The tree after its files have been classified.
abbrev pub sample : Heap ℕ
sample = record { node = sample_node; class_at = sample_class; num_nodes = 6; num_classes = 1 }

sample-IsTree : IsTree sample
sample-IsTree = record { below = below_; above = above_; once = once_; typed = typed_ }
  where
    below_ :
        (p c : ℕ)
        → In c (sample_node p).children
        → (p < c) × (c < 6) × ((sample_node c).parent ≡ some p)
    below_ zero c (inl e) = rw e (omega arith, omega arith, refl)
    below_ zero c (inr (inl e)) = rw e (omega arith, omega arith, refl)
    below_ zero c (inr (inr (inl e))) = rw e (omega arith, omega arith, refl)
    below_ zero c (inr (inr (inr m))) = absurd m
    below_ (suc zero) c (inl e) = rw e (omega arith, omega arith, refl)
    below_ (suc zero) c (inr m) = absurd m
    below_ (suc (suc zero)) c (inl e) = rw e (omega arith, omega arith, refl)
    below_ (suc (suc zero)) c (inr m) = absurd m
    below_ (suc (suc (suc zero))) c m = absurd m
    below_ (suc (suc (suc (suc zero)))) c m = absurd m
    below_ (suc (suc (suc (suc (suc zero))))) c m = absurd m
    below_ (suc (suc (suc (suc (suc (suc n)))))) c m = absurd m

    above_ : (p c : ℕ) → (sample_node c).parent ≡ some p → In c (sample_node p).children
    above_ p zero e = absurd (ground arith)
    above_ p (suc zero) e =
        let q : 0 ≡ p = ground arith in subst (λ z. In 1 (sample_node z).children) q (inl refl)
    above_ p (suc (suc zero)) e =
        let q : 0 ≡ p = ground arith in
        subst (λ z. In 2 (sample_node z).children) q (inr (inl refl))
    above_ p (suc (suc (suc zero))) e =
        let q : 1 ≡ p = ground arith in subst (λ z. In 3 (sample_node z).children) q (inl refl)
    above_ p (suc (suc (suc (suc zero)))) e =
        let q : 2 ≡ p = ground arith in subst (λ z. In 4 (sample_node z).children) q (inl refl)
    above_ p (suc (suc (suc (suc (suc zero))))) e =
        let q : 0 ≡ p = ground arith in
        subst (λ z. In 5 (sample_node z).children) q (inr (inr (inl refl)))
    above_ p (suc (suc (suc (suc (suc (suc n)))))) e = absurd (ground arith)

    once_ : (p : ℕ) → Distinct (sample_node p).children
    once_ zero = (
      (λ m. elim m [ inl e ↦ omega arith | inr z ↦ elim z [ inl e ↦ omega arith | inr w ↦ w ] ]),
      ((λ m. elim m [ inl e ↦ omega arith | inr z ↦ z ]), ((λ m. m), tt)),
    )
    once_ (suc zero) = ((λ m. m), tt)
    once_ (suc (suc zero)) = ((λ m. m), tt)
    once_ (suc (suc (suc zero))) = tt
    once_ (suc (suc (suc (suc zero)))) = tt
    once_ (suc (suc (suc (suc (suc zero))))) = tt
    once_ (suc (suc (suc (suc (suc (suc n)))))) = tt

    typed_ : (p c : ℕ) → In c (sample_node p).children → is_dir (sample_node p).type ≡ true
    typed_ zero c m = refl
    typed_ (suc zero) c m = refl
    typed_ (suc (suc zero)) c m = refl
    typed_ (suc (suc (suc zero))) c m = absurd m
    typed_ (suc (suc (suc (suc zero)))) c m = absurd m
    typed_ (suc (suc (suc (suc (suc zero))))) c m = absurd m
    typed_ (suc (suc (suc (suc (suc (suc n)))))) c m = absurd m

pub sample-IsConsistent : IsConsistent sample
sample-IsConsistent = record {
  tree = sample-IsTree;
  counted = counted_;
  listed = λ i c. (there i c, back i c);
  listed_once = listed_once_;
  closed = closed_;
  allocated = allocated_;
}
  where
    counted_ :
        (p : ℕ)
        → (sample_node p).not_evaluated_children ≡ open_count sample (sample_node p).children
    counted_ zero = refl
    counted_ (suc zero) = refl
    counted_ (suc (suc zero)) = refl
    counted_ (suc (suc (suc zero))) = refl
    counted_ (suc (suc (suc (suc zero)))) = refl
    counted_ (suc (suc (suc (suc (suc zero))))) = refl
    counted_ (suc (suc (suc (suc (suc (suc n)))))) = refl

    there : (i c : ℕ) → (sample_node i).eq_class ≡ some c → In i (sample_class c).nodes
    there zero c e = absurd (ground arith)
    there (suc zero) c e = absurd (ground arith)
    there (suc (suc zero)) c e = absurd (ground arith)
    there (suc (suc (suc zero))) c e =
        let q : 0 ≡ c = ground arith in subst (λ z. In 3 (sample_class z).nodes) q (inl refl)
    there (suc (suc (suc (suc zero)))) c e =
        let q : 0 ≡ c = ground arith in subst (λ z. In 4 (sample_class z).nodes) q (inr (inl refl))
    there (suc (suc (suc (suc (suc zero))))) c e = absurd (ground arith)
    there (suc (suc (suc (suc (suc (suc n)))))) c e = absurd (ground arith)

    back : (i c : ℕ) → In i (sample_class c).nodes → (sample_node i).eq_class ≡ some c
    back i zero (inl e) = rw e refl
    back i zero (inr (inl e)) = rw e refl
    back i zero (inr (inr m)) = absurd m
    back i (suc n) m = absurd m

    listed_once_ : (c : ℕ) → Distinct (sample_class c).nodes
    listed_once_ zero = ((λ m. elim m [ inl e ↦ omega arith | inr z ↦ z ]), ((λ m. m), tt))
    listed_once_ (suc n) = tt

    closed_ :
        (i c : ℕ) → (sample_node i).eq_class ≡ some c → (sample_node i).not_evaluated_children ≡ 0
    closed_ zero c e = absurd (ground arith)
    closed_ (suc zero) c e = refl
    closed_ (suc (suc zero)) c e = refl
    closed_ (suc (suc (suc zero))) c e = refl
    closed_ (suc (suc (suc (suc zero)))) c e = refl
    closed_ (suc (suc (suc (suc (suc zero))))) c e = refl
    closed_ (suc (suc (suc (suc (suc (suc n)))))) c e = refl

    allocated_ : (i c : ℕ) → (sample_node i).eq_class ≡ some c → c < 1
    allocated_ zero c e = absurd (ground arith)
    allocated_ (suc zero) c e = absurd (ground arith)
    allocated_ (suc (suc zero)) c e = absurd (ground arith)
    allocated_ (suc (suc (suc zero))) c e = ground arith
    allocated_ (suc (suc (suc (suc zero)))) c e = ground arith
    allocated_ (suc (suc (suc (suc (suc zero))))) c e = absurd (ground arith)
    allocated_ (suc (suc (suc (suc (suc (suc n)))))) c e = absurd (ground arith)

add_node-IsConsistent_example :
    Returns
      (add_node fixed_point true 0 1 sample)
      (λ h'. Classified 0 1 sample h' × IsConsistent h')
add_node-IsConsistent_example =
    add_node-IsConsistent fixed_point true 0 1 sample sample-IsConsistent refl refl (omega arith)

node_distance-IsSmall_example :
    Returns
      (node_distance fixed_point true sample 1 2)
      (IsSmall fixed_point fixed_point_laws true sample (λ c. tt))
node_distance-IsSmall_example =
    node_distance-IsSmall fixed_point fixed_point_laws true sample (λ c. tt) 1 2 refl refl refl refl
      refl

is_ancestor_of-traverse_example : (is_ancestor_of sample 6 1 3 ≡ true) ↔ In 3 (traverse sample 6 1)
is_ancestor_of-traverse_example = is_ancestor_of-traverse sample 1 3 sample-IsTree (omega arith)
