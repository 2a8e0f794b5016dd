-- ===== src/FuzzyDedup/Grouping/Ranges.antt =====
-- A multimap as groups of equal keys, each key once.
use dupa.Base.{
  some_inj, ℕ, zero, suc, ◌≡◌, ◌↔◌, ◌⊎◌, inl, inr, refl, sym, ap, ◌∙◌, subst, some, List, [], ◌∷◌,
  ◌==◌, ==_iff, In, Distinct, map, arith, if◌then◌else◌, Bool-cases,
}
use dupa.FuzzyDedup.Files.{nth}

abbrev key : ℕ × List ℕ → ℕ
key g = g.0

abbrev pub add_to : ℕ → ℕ → List (ℕ × List ℕ) → List (ℕ × List ℕ)
add_to s n [] = (s, n ∷ []) ∷ []
add_to s n (g ∷ gs) = let rest = add_to s n gs in if g.0 == s then (g.0, n ∷ g.1) ∷ gs else g ∷ rest

abbrev pub group : List (ℕ × ℕ) → List (ℕ × List ℕ)
group [] = []
group (x ∷ xs) = add_to x.0 x.1 (group xs)

-- The pair stands in a group.
abbrev Has : ℕ → ℕ → List (ℕ × List ℕ) → Type 0
Has s n gs = (k : ℕ) × (g : ℕ × List ℕ) × (nth gs k ≡ some g) × (g.0 ≡ s) × In n g.1

Has-cons :
    (s n : ℕ) (g : ℕ × List ℕ) (gs : List (ℕ × List ℕ))
    → Has s n (g ∷ gs) ↔ (((g.0 ≡ s) × In n g.1) ⊎ Has s n gs)
Has-cons s n g gs = (to, from)
  where
    to : Has s n (g ∷ gs) → ((g.0 ≡ s) × In n g.1) ⊎ Has s n gs
    to (zero, f, e, same, m) =
        let d : g ≡ f = some_inj e in inl (ap (λ z. z.0) d ∙ same, subst (λ z. In n z.1) (sym d) m)
    to (suc k, f, e, same, m) = inr (k, f, e, same, m)

    from : ((g.0 ≡ s) × In n g.1) ⊎ Has s n gs → Has s n (g ∷ gs)
    from (inl (same, m)) = (zero, g, refl, same, m)
    from (inr (k, f, e, same, m)) = (suc k, f, e, same, m)

add_to-Has :
    (s n t m : ℕ) (gs : List (ℕ × List ℕ))
    → Has t m (add_to s n gs) ↔ (((s ≡ t) × (m ≡ n)) ⊎ Has t m gs)
add_to-Has s n t m [] = (
  λ h. elim ((Has-cons t m (s, n ∷ []) []).0 h) [
    | inl (same, inl e) ↦ inl (same, e)
    | inl (same, inr j) ↦ absurd j
    | inr h' ↦ inr h'
  ],
  λ h.
      (Has-cons t m (s, n ∷ []) []).1
        (elim h [ inl (same, e) ↦ inl (same, inl e) | inr h' ↦ inr h' ]),
)
add_to-Has s n t m (g ∷ gs) = elim (Bool-cases (g.0 == s)) [
  | inl same ↦ rw same (joined ((==_iff g.0 s).0 same))
  | inr other ↦ rw other (later (add_to-Has s n t m gs))
]
  where
    joined : g.0 ≡ s → Has t m ((g.0, n ∷ g.1) ∷ gs) ↔ (((s ≡ t) × (m ≡ n)) ⊎ Has t m (g ∷ gs))
    joined q = (
      λ h. elim ((Has-cons t m (g.0, n ∷ g.1) gs).0 h) [
        | inl (p, inl e) ↦ inl (sym q ∙ p, e)
        | inl (p, inr j) ↦ inr ((Has-cons t m g gs).1 (inl (p, j)))
        | inr h' ↦ inr ((Has-cons t m g gs).1 (inr h'))
      ],
      λ h. (Has-cons t m (g.0, n ∷ g.1) gs).1 (elim h [
        | inl (p, e) ↦ inl (q ∙ p, inl e)
        | inr h' ↦ elim ((Has-cons t m g gs).0 h') [
          | inl (p, j) ↦ inl (p, inr j)
          | inr h'' ↦ inr h''
        ]
      ]),
    )

    later :
        Has t m (add_to s n gs) ↔ (((s ≡ t) × (m ≡ n)) ⊎ Has t m gs)
        → Has t m (g ∷ add_to s n gs) ↔ (((s ≡ t) × (m ≡ n)) ⊎ Has t m (g ∷ gs))
    later rest = (
      λ h. elim ((Has-cons t m g (add_to s n gs)).0 h) [
        | inl p ↦ inr ((Has-cons t m g gs).1 (inl p))
        | inr h' ↦ elim (rest.0 h') [
          | inl p ↦ inl p
          | inr h'' ↦ inr ((Has-cons t m g gs).1 (inr h''))
        ]
      ],
      λ h. (Has-cons t m g (add_to s n gs)).1 (elim h [
        | inl p ↦ inr (rest.1 (inl p))
        | inr h' ↦ elim ((Has-cons t m g gs).0 h') [
          | inl p ↦ inl p
          | inr h'' ↦ inr (rest.1 (inr h''))
        ]
      ]),
    )

pub group-Has : (s n : ℕ) (xs : List (ℕ × ℕ)) → In (s, n) xs ↔ Has s n (group xs)
group-Has s n [] = (λ m. absurd m, λ h. let (k, g, e, _, _) = h in absurd (ground arith))
group-Has s n (x ∷ xs) = (
  λ m. (add_to-Has x.0 x.1 s n (group xs)).1 (elim m [
    | inl e ↦ inl (sym (ap (λ z. z.0) e), ap (λ z. z.1) e)
    | inr j ↦ inr ((group-Has s n xs).0 j)
  ]),
  λ h. elim ((add_to-Has x.0 x.1 s n (group xs)).0 h) [
    | inl (p, q) ↦ inl (subst (λ z. ◌≡◌ {A = ℕ × ℕ} (z, n) x) p (ap (λ z. (x.0, z)) q))
    | inr h' ↦ inr ((group-Has s n xs).1 h')
  ],
)

-- No key twice.
keys_of :
    (s n a : ℕ) (gs : List (ℕ × List ℕ))
    → In a (map key (add_to s n gs))
    → In a (map key gs) ⊎ (a ≡ s)
keys_of s n a [] (inl e) = inr e
keys_of s n a [] (inr j) = absurd j
keys_of s n a (g ∷ gs) m = elim (Bool-cases (g.0 == s)) [
  | inl same ↦ inl (rw same at m)
  | inr other ↦
      let m' : In a (g.0 ∷ map key (add_to s n gs)) = rw other at m in
      elim m' [
        | inl e ↦ inl (inl e)
        | inr j ↦ elim (keys_of s n a gs j) [ inl i ↦ inl (inr i) | inr e ↦ inr e ]
      ]
]

add_to-Distinct :
    (s n : ℕ) (gs : List (ℕ × List ℕ)) → Distinct (map key gs) → Distinct (map key (add_to s n gs))
add_to-Distinct s n [] d = (λ m. m, tt)
add_to-Distinct s n (g ∷ gs) d = elim (Bool-cases (g.0 == s)) [
  | inl same ↦ rw same d
  | inr other ↦ rw other (
    (λ m. elim (keys_of s n g.0 gs m) [
      | inl i ↦ d.0 i
      | inr e ↦ absurd (ground (arith, other, (==_iff g.0 s).1 e))
    ]),
    add_to-Distinct s n gs d.1,
  )
]

pub group-Distinct : (xs : List (ℕ × ℕ)) → Distinct (map key (group xs))
group-Distinct [] = tt
group-Distinct (x ∷ xs) = add_to-Distinct x.0 x.1 (group xs) (group-Distinct xs)

nth-In : (gs : List (ℕ × List ℕ)) (k : ℕ) (g : ℕ × List ℕ) → nth gs k ≡ some g → In g.0 (map key gs)
nth-In [] k g e = absurd (ground arith)
nth-In (f ∷ gs) zero g e = inl (ap (λ z. z.0) (sym (some_inj e)))
nth-In (f ∷ gs) (suc k) g e = inr (nth-In gs k g e)

pub nth_apart :
    (gs : List (ℕ × List ℕ)) (j k : ℕ) (f g : ℕ × List ℕ)
    → Distinct (map key gs)
    → nth gs j ≡ some f
    → nth gs k ≡ some g
    → f.0 ≡ g.0
    → j ≡ k
nth_apart [] j k f g d e q same = absurd (ground arith)
nth_apart (h ∷ gs) zero zero f g d e q same = refl
nth_apart (h ∷ gs) zero (suc k) f g d e q same = absurd (
    d.0 (
      subst (λ z. In z (map key gs)) (sym same ∙ ap (λ z. z.0) (sym (some_inj e)))
        (nth-In gs k g q)))
nth_apart (h ∷ gs) (suc j) zero f g d e q same = absurd (
    d.0
      (subst (λ z. In z (map key gs)) (same ∙ ap (λ z. z.0) (sym (some_inj q))) (nth-In gs j f e)))
nth_apart (h ∷ gs) (suc j) (suc k) f g d e q same = ap suc (nth_apart gs j k f g d.1 e q same)
