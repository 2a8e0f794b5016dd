-- ===== src/Scanner/Dirs.antt =====
-- The common prefix of a database's files, and the directories below it. src/scanner_int.h.
use dupa.Base.{
  ℕ, zero, suc, ◌≤◌, ◌≡◌, ◌≢◌, inl, inr, refl, sym, ap, ◌∙◌, subst, String, List, [], ◌∷◌, ◌++◌,
  length, In, All, arith, List-cases,
}
use mathlib.Core.List.{append-nil, append_assoc}
use dupa.HashCache.{FileInfo}
use dupa.Scanner.FilePaths.{Paths}
use dupa.Scanner.{common_path_prefix, common_prefix_of, drop}
use dupa.Scanner.Prefix.{IsPrefix, common_path_prefix-IsPlain, common_path_prefix-IsPrefix}

pub drop-append : (xs ys : List String) → drop (length xs) (xs ++ ys) ≡ ys
drop-append [] ys = refl
drop-append (x ∷ xs) ys = drop-append xs ys

pub drop-append_le :
    (n : ℕ) (xs ys : List String) → n ≤ length xs → drop n (xs ++ ys) ≡ drop n xs ++ ys
drop-append_le zero xs ys le = refl
drop-append_le (suc n) [] ys le = absurd (omega arith)
drop-append_le (suc n) (x ∷ xs) ys le = drop-append_le n xs ys (omega arith)

All-right : (P : String → Type 0) (xs ys : List String) → All P (xs ++ ys) → All P ys
All-right P [] ys a = a
All-right P (x ∷ xs) ys a = All-right P xs ys a.1

IsPrefix-trans : (xs ys zs : List String) → IsPrefix xs ys → IsPrefix ys zs → IsPrefix xs zs
IsPrefix-trans xs ys zs (us, d) (vs, e) =
    (us ++ vs, e ∙ (ap (λ l. l ++ vs) d ∙ append_assoc xs us vs))

module _ (ps : Paths) where
  open ps use {FilePath, elements, of_native, empty, single, join, parent_path, IsName, IsPlain}

  -- The directory of a file.
  abbrev pub dir_of : String × FileInfo → FilePath
  dir_of x = parent_path (of_native x.0)

  -- The loop's result is a prefix of what it began with and of each file's directory.
  pub common_prefix_of-IsPrefix :
      (c : FilePath) (xs : List (String × FileInfo))
      → IsPlain c
      → IsPrefix (elements (common_prefix_of ps c xs)) (elements c)
        × IsPlain (common_prefix_of ps c xs)
        × ((x : String × FileInfo)
            → In x xs
            → IsPrefix (elements (common_prefix_of ps c xs)) (elements (dir_of x)))
  unfolding common_prefix_of
  common_prefix_of-IsPrefix c [] n = (([], sym (append-nil (elements c))), n, λ x m. absurd m)
  common_prefix_of-IsPrefix c (y ∷ ys) n =
      let (left, right, best) = common_path_prefix-IsPrefix ps c (dir_of y) n in
      let c' = common_path_prefix ps c (dir_of y) in
      let (rest, plain, each) =
        common_prefix_of-IsPrefix c' ys (common_path_prefix-IsPlain ps c (dir_of y) n) in
      (
        IsPrefix-trans _ (elements c') (elements c) rest left,
        plain,
        λ x m. elim m [
          | inl same ↦
              subst (λ z. IsPrefix (elements (common_prefix_of ps c' ys)) (elements (dir_of z)))
                (sym same) (IsPrefix-trans _ (elements c') (elements (dir_of y)) rest right)
          | inr i ↦ each x i
        ],
      )

  -- Each element is appended to the path so far.
  abbrev pub Chain : FilePath → List String → Type 0
  Chain p [] = Unit
  Chain p (e ∷ es) =
      (elements (join p (single e)) ≡ elements p ++ e ∷ []) × Chain (join p (single e)) es

  names-Chain :
      (p : FilePath) (es : List String) → IsPlain p → elements p ≢ [] → All IsName es → Chain p es
  names-Chain p [] k ne n = tt
  names-Chain p (e ∷ es) k ne n =
      let step = ps.elements-join p e k ne n.0 in
      (
        step,
        names-Chain (join p (single e)) es (ps.join-IsPlain p e k ne n.0)
            (λ z. longer (elements p) e (sym step ∙ z)) n.1,
      )
    where
      longer : (xs : List String) (a : String) → xs ++ a ∷ [] ≢ []
      longer [] a d = ground arith
      longer (x ∷ xs) a d = ground arith

  -- The elements of a directory below a prefix of it can be appended to the prefix.
  pub below-Chain :
      (c q : FilePath) (zs : List String)
      → elements q ≡ elements c ++ zs
      → IsPlain c
      → IsPlain q
      → Chain c zs
  below-Chain c q [] d k n = tt
  below-Chain c q (z ∷ zs) d k n = elim (List-cases (elements c)) [
    | inl none_yet ↦
        let whole : elements q ≡ z ∷ zs = d ∙ ap (λ l. l ++ z ∷ zs) none_yet in
        let member : In z (elements q) = subst (In z) (sym whole) (inl refl) in
        let alone = ps.elements-single q z member in
        let joined : join c (single z) ≡ single z =
          ap (λ p. join p (single z)) (ps.empty_lem c none_yet) ∙ ps.join-empty (single z) in
        (
          ap elements joined ∙ (alone ∙ sym (ap (λ l. l ++ z ∷ []) none_yet)),
          subst (λ p. Chain p zs) (sym joined)
              (names-Chain (single z) zs (ps.single-IsPlain q z n member)
                (λ e. cons_ne (sym alone ∙ e)) (ps.names q z zs n whole)),
        )
    | inr (e, es, f) ↦
        names-Chain c (z ∷ zs) k (λ g. cons_ne (sym f ∙ g))
          (All-right IsName es (z ∷ zs)
            (ps.names q e (es ++ z ∷ zs) n (d ∙ ap (λ l. l ++ z ∷ zs) f)))
  ]
    where
      cons_ne : {x : String} {xs : List String} → x ∷ xs ≢ []
      cons_ne d = ground arith
