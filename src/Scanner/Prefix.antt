-- ===== src/Scanner/Prefix.antt =====
-- CommonPathPrefix is the greatest common prefix. src/scanner.cpp.
use dupa.Base.{
  ◌≡◌, ◌≢◌, inl, inr, refl, sym, ap, ◌∙◌, subst, true, String, List, [], ◌∷◌, ◌++◌, str_eq, eq_iff,
  if◌then◌else◌, In, All, arith, Bool-cases, List-cases,
}
use mathlib.Core.List.{append-nil, append_assoc}
use dupa.Scanner.FilePaths.{Paths}
use dupa.Scanner.{extend, common_from, common_path_prefix}

-- The common prefix of two lists.
abbrev pub common : List String → List String → List String
common [] bs = []
common (a ∷ as') [] = []
common (a ∷ as') (b ∷ bs) = let rest = common as' bs in if str_eq a b then a ∷ rest else []

-- The second list begins with the first.
abbrev pub IsPrefix : List String → List String → Type 0
IsPrefix xs ys = (zs : List String) × (ys ≡ xs ++ zs)

pub common-left : (xs ys : List String) → IsPrefix (common xs ys) xs
common-left [] ys = ([], refl)
common-left (x ∷ xs) [] = (x ∷ xs, refl)
common-left (x ∷ xs) (y ∷ ys) = elim (Bool-cases (str_eq x y)) [
  | inl e ↦ let (zs, d) = common-left xs ys in (zs, rw e (ap (λ t. x ∷ t) d))
  | inr e ↦ (x ∷ xs, rw e refl)
]

common-right : (xs ys : List String) → IsPrefix (common xs ys) ys
common-right [] ys = (ys, refl)
common-right (x ∷ xs) [] = ([], refl)
common-right (x ∷ xs) (y ∷ ys) = elim (Bool-cases (str_eq x y)) [
  | inl e ↦
      let (zs, d) = common-right xs ys in
      let same : y ≡ x = sym ((eq_iff x y).0 e) in
      (zs, rw e (ap (λ t. y ∷ t) d ∙ ap (λ z. z ∷ (common xs ys ++ zs)) same))
  | inr e ↦ (y ∷ ys, rw e refl)
]

-- Equal lists have equal heads and tails.
cons_inj : (x y : String) (xs ys : List String) → x ∷ xs ≡ y ∷ ys → (x ≡ y) × (xs ≡ ys)
cons_inj x y xs ys e = (
  ap (λ (l : List String). elim l [ [] ↦ x | a ∷ as' ↦ a ]) e,
  ap (λ (l : List String). elim l [ [] ↦ xs | a ∷ as' ↦ as' ]) e,
)

common-greatest :
    (r xs ys : List String) → IsPrefix r xs → IsPrefix r ys → IsPrefix r (common xs ys)
common-greatest [] xs ys p q = (common xs ys, refl)
common-greatest (a ∷ r) [] ys (zs, d) q = absurd (ground arith)
common-greatest (a ∷ r) (x ∷ xs) [] p (zs, d) = absurd (ground arith)
common-greatest (a ∷ r) (x ∷ xs) (y ∷ ys) (zs, d) (ws, f) =
    let (x_a, xs_r) = cons_inj x a xs (r ++ zs) d in
    let (y_a, ys_r) = cons_inj y a ys (r ++ ws) f in
    let e : str_eq x y ≡ true = (eq_iff x y).1 (x_a ∙ sym y_a) in
    let (us, g) = common-greatest r xs ys (zs, xs_r) (ws, ys_r) in
    (us, rw e (ap (λ t. x ∷ t) g ∙ ap (λ z. z ∷ (r ++ us)) x_a))

module _ (ps : Paths) where
  open ps use {FilePath, elements, empty, single, join, IsName, IsPlain}

  extend-join :
      (res : FilePath) (a : String) → elements res ≢ [] → extend ps res a ≡ join res (single a)
  unfolding extend
  extend-join res a ne = elim (List-cases (elements res)) [
    | inl z ↦ absurd (ne z)
    | inr (y, ys, d) ↦ rw (d, extend) refl
  ]

  append-ne-nil : (xs : List String) (a : String) → xs ++ a ∷ [] ≢ []
  append-ne-nil [] a e = ground arith
  append-ne-nil (x ∷ xs) a e = ground arith

  -- A plain path with these elements.
  abbrev Spells : FilePath → List String → Type 0
  Spells p xs = (elements p ≡ xs) × IsPlain p

  extend-Spells :
      (res : FilePath) (a : String)
      → IsPlain res
      → elements res ≢ []
      → IsName a
      → Spells (extend ps res a) (elements res ++ a ∷ [])
  extend-Spells res a k ne n =
      subst (λ p. Spells p (elements res ++ a ∷ [])) (sym (extend-join res a ne))
        (ps.elements-join res a k ne n, ps.join-IsPlain res a k ne n)

  common_from-names :
      (res : FilePath) (as' bs : List String)
      → IsPlain res
      → elements res ≢ []
      → All IsName as'
      → Spells (common_from ps res as' bs) (elements res ++ common as' bs)
  unfolding common_from
  common_from-names res [] bs k ne n = (sym (append-nil (elements res)), k)
  common_from-names res (a ∷ as') [] k ne n = (sym (append-nil (elements res)), k)
  common_from-names res (a ∷ as') (b ∷ bs) k ne n = elim (Bool-cases (str_eq a b)) [
    | inl e ↦
        let (extended, plain) = extend-Spells res a k ne n.0 in
        let (same, plain') =
          common_from-names (extend ps res a) as' bs plain
            (λ z. append-ne-nil (elements res) a (sym extended ∙ z)) n.1 in
        rw e (
          same
              ∙ (ap (λ l. l ++ common as' bs) extended
                  ∙ append_assoc (elements res) (a ∷ []) (common as' bs)),
          plain',
        )
    | inr e ↦ rw e (sym (append-nil (elements res)), k)
  ]

  -- The prefix of a plain path, element by element.
  common_from-Spells :
      (p : FilePath) (xs bs : List String)
      → elements p ≡ xs
      → IsPlain p
      → Spells (common_from ps empty xs bs) (common xs bs)
  unfolding common_from extend
  common_from-Spells p [] bs e k = (ps.elements-empty, ps.empty-IsPlain)
  common_from-Spells p (a ∷ as') [] e k = (ps.elements-empty, ps.empty-IsPlain)
  common_from-Spells p (a ∷ as') (b ∷ bs) e k = elim (Bool-cases (str_eq a b)) [
    | inl m ↦
        let member : In a (elements p) = subst (In a) (sym e) (inl refl) in
        let alone = ps.elements-single p a member in
        let first : extend ps empty a ≡ single a = rw (ps.elements-empty, extend) refl in
        let (same, plain) =
          common_from-names (single a) as' bs (ps.single-IsPlain p a k member)
            (λ z. append-ne-nil [] a (sym alone ∙ z)) (ps.names p a as' k e) in
        rw (m, first) (same ∙ ap (λ l. l ++ common as' bs) alone, plain)
    | inr m ↦ rw m (ps.elements-empty, ps.empty-IsPlain)
  ]

  common_path_prefix-Spells :
      (p q : FilePath)
      → IsPlain p
      → Spells (common_path_prefix ps p q) (common (elements p) (elements q))
  unfolding common_path_prefix
  common_path_prefix-Spells p q k = common_from-Spells p (elements p) (elements q) refl k

  pub common_path_prefix-IsPlain :
      (p q : FilePath) → IsPlain p → IsPlain (common_path_prefix ps p q)
  common_path_prefix-IsPlain p q k = (common_path_prefix-Spells p q k).1

  -- CommonPathPrefix of a plain path and any path is a prefix of both, and every common prefix of
  -- theirs is a prefix of it.
  pub common_path_prefix-IsPrefix :
      (p q : FilePath)
      → IsPlain p
      → IsPrefix (elements (common_path_prefix ps p q)) (elements p)
        × IsPrefix (elements (common_path_prefix ps p q)) (elements q)
        × ((r : List String)
            → IsPrefix r (elements p)
            → IsPrefix r (elements q)
            → IsPrefix r (elements (common_path_prefix ps p q)))
  common_path_prefix-IsPrefix p q k =
      let e = sym (common_path_prefix-Spells p q k).0 in
      (
        subst (λ c. IsPrefix c (elements p)) e (common-left (elements p) (elements q)),
        subst (λ c. IsPrefix c (elements q)) e (common-right (elements p) (elements q)),
        λ r a b. subst (IsPrefix r) e (common-greatest r (elements p) (elements q) a b),
      )
