-- ===== src/DirCompare/Candidates.antt =====
-- GetPathsForHash and the choice of candidates, against what the trees hold. src/dir_compare.cpp.
use dupa.Base.{
  ℕ, String, none, some, List, [], ◌∷◌, ◌≡◌, ◌↔◌, ◌⊎◌, inl, inr, ◌∙◌, ap, arith, In, map, In-map,
  In-map_of, Option-cases,
}
use dupa.DirCompare.Index.{PathHash, path_of, hash_of, hash_at, MultiIndex, In-find, find-In}
use dupa.DirCompare.{get_paths_for_hash, still_there}

module _ (mi : MultiIndex) where
  open mi use {PathHashes, by_path, equal_range, equal_range-In, find}

  -- The tree has the checksum `h` at the path `p`.
  abbrev pub Has : PathHashes → String → ℕ → Type 0
  Has c p h = hash_at mi c p ≡ some h

  In-Has : (c : PathHashes) (x : PathHash) → In x (by_path c) → Has c x.path x.hash
  In-Has c x i = ap hash_of (In-find mi x c i)

  Has-In :
      (c : PathHashes) (p : String) (h : ℕ)
      → Has c p h
      → (x : PathHash) × In x (by_path c) × (x.path ≡ p) × (x.hash ≡ h)
  Has-In c p h e = elim (Option-cases (find p c)) [
    | inl n ↦ absurd (ground arith)
    | inr (x, d) ↦ let (i, q) = find-In mi p c x d in (x, i, q, ground arith)
  ]

  -- GetPathsForHash returns exactly the paths that have the checksum.
  pub get_paths_for_hash_lem :
      (c : PathHashes) (h : ℕ) (p : String) → In p (get_paths_for_hash mi c h) ↔ Has c p h
  unfolding get_paths_for_hash
  get_paths_for_hash_lem c h p = (there, back)
    where
      there : In p (map path_of (equal_range h c)) → Has c p h
      there i =
          let (x, j, e) = In-map path_of p (equal_range h c) i in
          let (k, q) = (equal_range-In h c x).0 j in rw (e, ← q) (In-Has c x k)

      back : Has c p h → In p (map path_of (equal_range h c))
      back e =
          let (x, i, q, d) = Has-In c p h e in
          rw (← q) (In-map_of path_of x (equal_range h c) ((equal_range-In h c x).1 (i, d)))

  -- One round of the loop over the candidates, from the rest of the loop.
  module _ (c : PathHashes) (q : String) (qs : List String) (p : String)
      (ih : In p (still_there mi c qs) ↔ (In p qs × ((h : ℕ) × Has c p h))) where
    drop_step :
        find q c ≡ none → (p ≡ q) ⊎ In p qs → ((h : ℕ) × Has c p h) → In p (still_there mi c qs)
    drop_step n (inl d) (h, e) = ground (arith, ap (λ r. hash_at mi c r) d)
    drop_step n (inr j) e = ih.1 (j, e)

    keep_step :
        (x : PathHash)
        → find q c ≡ some x
        → (p ≡ q) ⊎ In p (still_there mi c qs)
        → ((p ≡ q) ⊎ In p qs) × ((h : ℕ) × Has c p h)
    keep_step x e (inl d) = (inl d, (x.hash, ap (λ r. hash_at mi c r) d ∙ ap hash_of e))
    keep_step x e (inr j) = let (k, h) = ih.0 j in (inr k, h)

    still_there_step : In p (still_there mi c (q ∷ qs)) ↔ (In p (q ∷ qs) × ((h : ℕ) × Has c p h))
    unfolding still_there
    still_there_step = elim (Option-cases (find q c)) [
      | inl n ↦
          rw (n, still_there) (λ i. let (j, d) = ih.0 i in (inr j, d), λ i. drop_step n i.0 i.1)
      | inr (x, e) ↦
          rw (e, still_there)
            (keep_step x e, λ i. elim i.0 [ inl d ↦ inl d | inr j ↦ inr (ih.1 (j, i.1)) ])
    ]

  -- The second pass keeps exactly the candidates that the second tree has.
  pub still_there_lem :
      (c : PathHashes) (cs : List String) (p : String)
      → In p (still_there mi c cs) ↔ (In p cs × ((h : ℕ) × Has c p h))
  unfolding still_there
  still_there_lem c [] p = (λ i. absurd i, λ i. absurd i.0)
  still_there_lem c (q ∷ qs) p = still_there_step c q qs p (still_there_lem c qs p)
