-- ===== src/FileTree/Invariant.antt =====
-- What holds of the nodes and classes while they are built and evaluated. src/file_tree.cpp.
use dupa.Base.{
  ℕ, ◌+◌, ◌<◌, ◌≡◌, ◌≢◌, ◌↔◌, refl, Bool, true, false, Option, none, some, List, [], ◌∷◌, ◌++◌,
  if◌then◌else◌, In, Distinct, arith, ◌>>=◌, ◌>>◌, assert,
}
use dupa.FileTree.Store.{is_dir, Heap, is_evaluated}
use dupa.FileTree.{mem}

-- What a computation returns, if it does not fail: total correctness.
abbrev pub Returns : {A : Type 0} → Option A → (A → Type 0) → Type 0
Returns none P = ⊥
Returns (some a) P = P a

pub Returns-assert :
    {A : Type 0} {b : Bool} (m : Option A) (P : A → Type 0)
    → b ≡ true
    → Returns m P
    → Returns (assert b >> m) P
Returns-assert m P e r = rw e r

pub Returns-bind :
    {A B : Type 0} {m : Option A} (f : A → Option B) (P : B → Type 0) {a : A}
    → m ≡ some a
    → Returns (f a) P
    → Returns (m >>= f) P
Returns-bind f P e r = rw e r

pub Returns-map :
    {A : Type 0} (m : Option A) (P Q : A → Type 0)
    → ((a : A) → P a → Q a)
    → Returns m P
    → Returns m Q
Returns-map none P Q f r = r
Returns-map (some a) P Q f r = f a r

pub Returns-some :
    {A : Type 0} (m : Option A) (P : A → Type 0) → Returns m P → (a : A) × (m ≡ some a) × P a
Returns-some none P r = absurd r
Returns-some (some a) P r = (a, refl, r)

pub mem-In : (a : ℕ) (xs : List ℕ) → mem a xs ≡ true → In a xs
mem-In a [] e = absurd (ground arith)
mem-In a (x ∷ xs) e = ground (arith, mem-In a xs)

pub In-mem : (a : ℕ) (xs : List ℕ) → In a xs → mem a xs ≡ true
In-mem a [] i = absurd i
In-mem a (x ∷ xs) i = ground (arith, In-mem a xs)

pub not-In : (a : ℕ) (xs : List ℕ) → mem a xs ≡ false → ¬ In a xs
not-In a xs e i = let t = In-mem a xs i in cc

module _ {D : Type 0} (h : Heap D) where
  -- The number of nodes in a list that have no class.
  abbrev pub open_count : List ℕ → ℕ
  open_count [] = 0
  open_count (x ∷ xs) = (if is_evaluated (h.node x) then 0 else 1) + open_count xs

-- The tree of the nodes: a node comes after its parent, and parents and children agree.
pub record IsTree {D : Type 0} (h : Heap D) : Type 0 where
  pub below :
      (p c : ℕ)
      → In c (h.node p).children
      → (p < c) × (c < h.num_nodes) × ((h.node c).parent ≡ some p)
  pub above : (p c : ℕ) → (h.node c).parent ≡ some p → In c (h.node p).children
  pub once : (p : ℕ) → Distinct (h.node p).children
  -- only directories have children
  pub typed : (p c : ℕ) → In c (h.node p).children → is_dir (h.node p).type ≡ true

-- The counters count, and a class lists the nodes that point to it, each once.
pub record IsConsistent {D : Type 0} (h : Heap D) : Type 0 where
  pub tree : IsTree h
  pub counted : (p : ℕ) → (h.node p).not_evaluated_children ≡ open_count h (h.node p).children
  pub listed : (i c : ℕ) → ((h.node i).eq_class ≡ some c) ↔ In i (h.class_at c).nodes
  pub listed_once : (c : ℕ) → Distinct (h.class_at c).nodes
  -- a node with a class has no child without one, and its class has been allocated
  pub closed : (i c : ℕ) → (h.node i).eq_class ≡ some c → (h.node i).not_evaluated_children ≡ 0
  pub allocated : (i c : ℕ) → (h.node i).eq_class ≡ some c → c < h.num_classes

-- The node `i` has got the class `c`, and nothing else of the tree has changed.
pub record Classified {D : Type 0} (c i : ℕ) (h h' : Heap D) : Type 0 where
  pub size : h'.num_nodes ≡ h.num_nodes
  pub same_classes : h'.num_classes ≡ h.num_classes
  pub same_parent : (j : ℕ) → (h'.node j).parent ≡ (h.node j).parent
  pub same_children : (j : ℕ) → (h'.node j).children ≡ (h.node j).children
  pub same_type : (j : ℕ) → (h'.node j).type ≡ (h.node j).type
  pub same_name : (j : ℕ) → (h'.node j).name ≡ (h.node j).name
  pub same_size : (j : ℕ) → (h'.node j).size ≡ (h.node j).size
  pub same_fraction : (j : ℕ) → (h'.node j).unique_fraction ≡ (h.node j).unique_fraction
  pub hit : (h'.node i).eq_class ≡ some c
  pub others : (j : ℕ) → j ≢ i → (h'.node j).eq_class ≡ (h.node j).eq_class
  pub lowered :
      (p : ℕ)
      → (h.node i).parent ≡ some p
      → (h'.node p).not_evaluated_children + 1 ≡ (h.node p).not_evaluated_children
  pub kept :
      (p : ℕ)
      → (h.node i).parent ≢ some p
      → (h'.node p).not_evaluated_children ≡ (h.node p).not_evaluated_children
  pub grown : (h'.class_at c).nodes ≡ (h.class_at c).nodes ++ i ∷ []
  pub same_nodes : (k : ℕ) → k ≢ c → (h'.class_at k).nodes ≡ (h.class_at k).nodes
  pub same_weight : (k : ℕ) → k ≢ c → (h'.class_at k).weight ≡ (h.class_at k).weight
