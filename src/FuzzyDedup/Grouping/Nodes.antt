-- ===== src/FuzzyDedup/Grouping/Nodes.antt =====
-- The nodes of the groups: each one once, and no group without one.
use dupa.Base.{
  some_inj, ℕ, zero, suc, ◌≡◌, ◌≢◌, ◌⊎◌, inl, inr, refl, ap, ◌∙◌, subst, some, List, [], ◌∷◌, ◌++◌,
  ◌==◌, In, In-append, In-append_left, In-append_right, Distinct, map, arith, Bool-cases,
}
use dupa.FuzzyDedup.Building.{node_of}
use dupa.FuzzyDedup.Files.{all_nodes, nth, Distinct-left, Distinct-right, Distinct-apart}
use dupa.FuzzyDedup.Grouping.Ranges.{group, add_to}

-- Each node once.
nodes_of :
    (s n x : ℕ) (gs : List (ℕ × List ℕ))
    → In x (all_nodes (add_to s n gs))
    → (x ≡ n) ⊎ In x (all_nodes gs)
nodes_of s n x [] (inl e) = inl e
nodes_of s n x [] (inr j) = absurd j
nodes_of s n x (g ∷ gs) m = elim (Bool-cases (g.0 == s)) [
  | inl same ↦ rw same at m
  | inr other ↦
      let m' : In x (g.1 ++ all_nodes (add_to s n gs)) = rw other at m in
      elim (In-append x g.1 (all_nodes (add_to s n gs)) m') [
        | inl i ↦ inr (In-append_left x g.1 (all_nodes gs) i)
        | inr i ↦ elim (nodes_of s n x gs i) [
          | inl e ↦ inl e
          | inr j ↦ inr (In-append_right x g.1 (all_nodes gs) j)
        ]
      ]
]

Distinct-join :
    (xs ys : List ℕ)
    → Distinct xs
    → Distinct ys
    → ((a : ℕ) → In a xs → ¬ In a ys)
    → Distinct (xs ++ ys)
Distinct-join [] ys d e apart = e
Distinct-join (x ∷ xs) ys d e apart = (
  (λ m. elim (In-append x xs ys m) [ inl i ↦ d.0 i | inr i ↦ apart x (inl refl) i ]),
  Distinct-join xs ys d.1 e (λ a i. apart a (inr i)),
)

add_to-nodes :
    (s n : ℕ) (gs : List (ℕ × List ℕ))
    → ¬ In n (all_nodes gs)
    → Distinct (all_nodes gs)
    → Distinct (all_nodes (add_to s n gs))
add_to-nodes s n [] new d = (λ m. m, tt)
add_to-nodes s n (g ∷ gs) new d = elim (Bool-cases (g.0 == s)) [
  | inl same ↦ rw same (new, d)
  | inr other ↦ rw other (
      Distinct-join g.1 (all_nodes (add_to s n gs)) (Distinct-left g.1 (all_nodes gs) d)
        (add_to-nodes s n gs (λ m. new (In-append_right n g.1 (all_nodes gs) m))
          (Distinct-right g.1 (all_nodes gs) d))
        (λ a i m. elim (nodes_of s n a gs m) [
          | inl e ↦ new (In-append_left n g.1 (all_nodes gs) (subst (λ z. In z g.1) e i))
          | inr j ↦ Distinct-apart g.1 (all_nodes gs) a d i j
        ]))
]

group-nodes : (xs : List (ℕ × ℕ)) (x : ℕ) → In x (all_nodes (group xs)) → In x (map node_of xs)
group-nodes [] x m = m
group-nodes (y ∷ xs) x m = elim (nodes_of y.0 y.1 x (group xs) m) [
  | inl e ↦ inl e
  | inr i ↦ inr (group-nodes xs x i)
]

pub nodes-Distinct :
    (xs : List (ℕ × ℕ)) → Distinct (map node_of xs) → Distinct (all_nodes (group xs))
nodes-Distinct [] d = tt
nodes-Distinct (x ∷ xs) d =
    add_to-nodes x.0 x.1 (group xs) (λ m. d.0 (group-nodes xs x.1 m)) (nodes-Distinct xs d.1)

-- No group is empty.
add_to_filled :
    (s n k : ℕ) (g : ℕ × List ℕ) (gs : List (ℕ × List ℕ))
    → ((j : ℕ) (f : ℕ × List ℕ) → nth gs j ≡ some f → f.1 ≢ [])
    → nth (add_to s n gs) k ≡ some g
    → g.1 ≢ []
add_to_filled s n zero g [] all e =
    λ none_left. absurd (ground (arith, ap (λ z. z.1) (some_inj e) ∙ none_left))
add_to_filled s n (suc k) g [] all e = absurd (ground arith)
add_to_filled s n k g (f ∷ gs) all e = elim (Bool-cases (f.0 == s)) [
  | inl same ↦ joined k (rw same at e)
  | inr other ↦ later (λ j. add_to_filled s n j g gs (λ i. all (suc i))) k (rw other at e)
]
  where
    joined : (j : ℕ) → nth ((f.0, n ∷ f.1) ∷ gs) j ≡ some g → g.1 ≢ []
    joined zero d = λ none_left. absurd (ground (arith, ap (λ z. z.1) (some_inj d) ∙ none_left))
    joined (suc j) d = all (suc j) g d

    later :
        ((j : ℕ) → nth (add_to s n gs) j ≡ some g → g.1 ≢ [])
        → (j : ℕ) → nth (f ∷ add_to s n gs) j ≡ some g
        → g.1 ≢ []
    later rest zero d = all zero g d
    later rest (suc j) d = rest j d

pub group_filled :
    (xs : List (ℕ × ℕ)) (k : ℕ) (g : ℕ × List ℕ) → nth (group xs) k ≡ some g → g.1 ≢ []
group_filled [] k g e = absurd (ground arith)
group_filled (x ∷ xs) k g e = add_to_filled x.0 x.1 k g (group xs) (group_filled xs) e
