-- ===== src/FuzzyDedup/Uniqueness.antt =====
-- CalculateUniqueness. src/fuzzy_dedup.cpp.
use dupa.Base.{
  ℕ, zero, suc, Bool, true, false, not, ◌&&◌, Option, none, some, List, [], ◌∷◌, ◌++◌,
  if◌then◌else◌, ◌>>=◌, ◌>>◌, assert, Platform,
}
use dupa.FileTree.Store.{NodeType, dir, file, Heap, set_node, is_evaluated, is_single}
use dupa.FileTree.{mem, get_weight}

-- The loop of HasDuplicateElsewhere.
abbrev pub any_outside : List ℕ → List ℕ → Bool
any_outside not_here [] = false
any_outside not_here (x ∷ xs) =
    let rest = any_outside not_here xs in if mem x not_here then rest else true

module _ (pl : Platform) (use_size : Bool) where
  open pl use {Double, of_ℕ, add, div, lt, elements}

  -- HasDuplicateElsewhere
  unfoldable pub has_duplicate_elsewhere : Heap Double → List ℕ → ℕ → Option Bool
  has_duplicate_elsewhere h not_here n = do
    c ← (h.node n).eq_class
    some (any_outside not_here (h.class_at c).nodes)

  -- The loop that sums total_weight and unique_weight.
  unfoldable pub sum_weights :
      Heap Double → List ℕ → Double × Double → List ℕ → Option (Double × Double)
  unfolding has_duplicate_elsewhere
  sum_weights h here sums [] = some sums
  sum_weights h here sums (x ∷ xs) = do
    w ← get_weight pl use_size h x
    dup ← has_duplicate_elsewhere h here x
    sum_weights h here (add sums.0 w, if dup then sums.1 else add sums.1 w) xs

  -- `unique_weight / total_weight`, or 0 for an empty directory. A weight is not a NaN.
  abbrev pub fraction : Double × Double → Double
  fraction (total, unique) =
      if not (lt total (of_ℕ 0)) && not (lt (of_ℕ 0) total) then of_ℕ 0 else div unique total

  abbrev pub set_fraction : ℕ → Double → Heap Double → Heap Double
  set_fraction i x h = set_node i (record (h.node i) { unique_fraction = x }) h

  -- The loop over the children, for the recursive call.
  unfoldable pub calculate_children :
      (ℕ → Heap Double → Option (List ℕ × Heap Double))
      → List ℕ
      → Heap Double
      → Option (List ℕ × Heap Double)
  calculate_children visit [] h = some ([], h)
  calculate_children visit (c ∷ cs) h = do
    (xs, h1) ← visit c h
    (ys, h2) ← calculate_children visit cs h1
    some (xs ++ ys, h2)

  -- The `switch` of CalculateUniqueness.
  unfoldable pub calculate_node :
      (ℕ → Heap Double → Option (List ℕ × Heap Double))
      → ℕ
      → Heap Double
      → NodeType
      → Option (List ℕ × Heap Double)
  unfolding calculate_children sum_weights
  calculate_node visit i h file = do
    c ← (h.node i).eq_class
    some (i ∷ [], set_fraction i (if is_single (h.class_at c) then of_ℕ 1 else of_ℕ 0) h)
  calculate_node visit i h dir = do
    (nodes, h1) ← calculate_children visit (h.node i).children h
    let descendants = elements nodes
    sums ← sum_weights h1 descendants (of_ℕ 0, of_ℕ 0) descendants
    some (descendants, set_fraction i (fraction sums) h1)

  -- CalculateUniqueness; the fuel bounds the depth.
  unfoldable pub calculate_uniqueness : ℕ → ℕ → Heap Double → Option (List ℕ × Heap Double)
  unfolding calculate_node
  calculate_uniqueness zero i h = none
  calculate_uniqueness (suc fuel) i h = do
    assert (is_evaluated (h.node i))
    calculate_node (calculate_uniqueness fuel) i h (h.node i).type
