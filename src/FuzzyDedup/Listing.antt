-- ===== src/FuzzyDedup/Listing.antt =====
-- The vector of classes has exactly the classes of the nodes. src/fuzzy_dedup.cpp.
use dupa.Base.{
  ℕ, ◌≡◌, ◌≢◌, ◌↔◌, ◌⊎◌, inl, inr, sym, ap, ◌∙◌, subst, some, none, In, arith, Platform,
}
use dupa.Conf.{GlobalConfig}
use dupa.FileTree.Evaluation.{ℕ-cases}
use dupa.FuzzyDedup.{Classes}

module _ (pl : Platform) (conf : GlobalConfig) where
  -- A class is in the vector exactly if a node is in the class.
  abbrev pub Listed : Classes pl conf → Type 0
  Listed s = (d : ℕ) → In d s.eq_classes ↔ ((x : ℕ) × ((s.heap.node x).eq_class ≡ some d))

  -- A node has got a class that is in the vector now.
  pub gets-Listed :
      (i c : ℕ) (s s' : Classes pl conf)
      → (s.heap.node i).eq_class ≡ none
      → (s'.heap.node i).eq_class ≡ some c
      → ((x : ℕ) → x ≢ i → (s'.heap.node x).eq_class ≡ (s.heap.node x).eq_class)
      → ((d : ℕ) → In d s'.eq_classes ↔ (In d s.eq_classes ⊎ (d ≡ c)))
      → Listed s
      → Listed s'
  gets-Listed i c s s' open' hit others grown v d = (to, from)
    where
      to : In d s'.eq_classes → (x : ℕ) × ((s'.heap.node x).eq_class ≡ some d)
      to m = elim ((grown d).0 m) [
        | inr same ↦ (i, hit ∙ ap some (sym same))
        | inl old ↦
            let (x, e) = (v d).0 old in
            (
              x,
              others x (λ same.
                    absurd (
                      ground (arith, subst (λ z. (s.heap.node z).eq_class ≡ some d) same e, open')))
                  ∙ e,
            )
      ]

      from : ((x : ℕ) × ((s'.heap.node x).eq_class ≡ some d)) → In d s'.eq_classes
      from (x, e) = (grown d).1 (elim (ℕ-cases x i) [
        | inl same ↦
            inr (ground (arith, subst (λ z. (s'.heap.node z).eq_class ≡ some d) same e, hit))
        | inr other ↦ inl ((v d).1 (x, sym (others x other) ∙ e))
      ])
