-- ===== src/DirCompare/Fill.antt =====
-- PathHashesFiller and FillPathHashes, for the files of a database. src/dir_compare.cpp.
use dupa.Base.{
  ℕ, ◌≤◌, ◌≡◌, refl, sym, ap, ◌∙◌, String, Option, some, List, [], ◌∷◌, ◌++◌, length, length-append,
  foldl, Option-cases, All, arith, Bool-cases, inl, inr,
}
use mathlib.Core.List.{append-nil, append_assoc}
use dupa.HashCache.{FileInfo}
use dupa.Scanner.FilePaths.{Paths, same_elements, same_elements-eq}
use dupa.Scanner.{
  ScanProcessor, CreatedDirs, Scan, find_dir, dir_handle, make_dirs, scan_db, common_prefix_of,
  drop,
}
use dupa.Scanner.Dirs.{drop-append_le, dir_of, Chain}
use dupa.DirCompare.Index.{PathHash, MultiIndex}

module _ (ps : Paths) (mi : MultiIndex) where
  open ps use {FilePath, elements, of_native, native, empty, single, join, filename, IsPlain}
  open mi use {PathHashes, insert}

  -- PathHashesFiller
  abbrev pub path_hashes_filler : ScanProcessor ps PathHashes FilePath
  path_hashes_filler = record {
    file = λ path parent f_info hashes.
        let relative = join parent (filename path) in
        some (insert (record { path = native relative; hash = f_info.sum }) hashes);
    root_dir = λ path hashes. some (empty, hashes);
    dir = λ path parent hashes. some (join parent (filename path), hashes);
  }

  -- FillPathHashes, from a database.
  unfoldable pub fill_path_hashes : List (String × FileInfo) → Option PathHashes
  unfolding scan_db
  fill_path_hashes db = scan_db ps path_hashes_filler db mi.empty

  -- The path of a directory, from the names below the tree's root.
  abbrev pub relative_dir : List String → FilePath
  relative_dir es = foldl (λ d e. join d (filename (single e))) empty es

  -- What a file is inserted as, when the root has n elements.
  abbrev pub entry : ℕ → String × FileInfo → PathHash
  entry n x = record {
    path = native (
        join (relative_dir (drop n (elements (dir_of ps x))))
          (filename (filename (of_native x.0))));
    hash = x.1.sum;
  }

  -- How many elements the common prefix of the files' directories has.
  unfoldable pub prefix_len : List (String × FileInfo) → ℕ
  unfolding common_prefix_of
  prefix_len [] = 0
  prefix_len (x ∷ xs) = length (elements (common_prefix_of ps (dir_of ps x) (x ∷ xs)))

  relative_dir-append :
      (d : FilePath) (es : List String) (e : String)
      → foldl (λ d e. join d (filename (single e))) d (es ++ e ∷ [])
        ≡ join (foldl (λ d e. join d (filename (single e))) d es) (filename (single e))
  relative_dir-append d [] e = refl
  relative_dir-append d (x ∷ es) e = relative_dir-append (join d (filename (single x))) es e

  -- Each directory's handle is its relative path.
  abbrev pub Known : ℕ → CreatedDirs ps path_hashes_filler → Type 0
  Known n dirs = All (λ x. x.1 ≡ relative_dir (drop n (elements x.0))) dirs

  find_dir-Known :
      (n : ℕ) (p : FilePath) (dirs : CreatedDirs ps path_hashes_filler) (h : FilePath)
      → Known n dirs
      → find_dir ps path_hashes_filler p dirs ≡ some h
      → h ≡ relative_dir (drop n (elements p))
  find_dir-Known n p [] h k e = ground arith
  find_dir-Known n p (x ∷ xs) h k e =
      elim (Bool-cases (same_elements (elements x.0) (elements p))) [
        | inl same ↦
            let found : x.1 ≡ h = ground arith in
            let names = same_elements-eq (elements x.0) (elements p) same in
            sym found ∙ (k.0 ∙ ap (λ es. relative_dir (drop n es)) names)
        | inr other ↦ find_dir-Known n p xs h k.1 (ground arith)
      ]

  -- What a step returns: a handle and what it adds to the map, with the container as it was.
  abbrev pub Reaches :
      ℕ
      → FilePath
      → Scan ps path_hashes_filler
      → Option (FilePath × Scan ps path_hashes_filler)
      → Type 0
  Reaches n h s r =
      (s' : Scan ps path_hashes_filler) × (r ≡ some (h, s'))
      × (s'.state ≡ s.state)
      × Known n s'.created_dirs

  -- A directory's handle is its relative path, whether it is found or created.
  dir_handle-Reaches :
      (n : ℕ) (p : FilePath) (e : String) (s : Scan ps path_hashes_filler)
      → n ≤ length (elements p)
      → elements (join p (single e)) ≡ elements p ++ e ∷ []
      → Known n s.created_dirs
      → Reaches n (relative_dir (drop n (elements p ++ e ∷ []))) s (
          dir_handle ps path_hashes_filler
            (join p (single e))
            e
            (relative_dir (drop n (elements p)))
            s)
  unfolding dir_handle
  dir_handle-Reaches n p e s le d k =
      let whole : relative_dir (drop n (elements p ++ e ∷ []))
          ≡ join (relative_dir (drop n (elements p))) (filename (single e)) =
        ap relative_dir (drop-append_le n (elements p) (e ∷ []) le)
        ∙ relative_dir-append empty (drop n (elements p)) e in
      elim (Option-cases (find_dir ps path_hashes_filler (join p (single e)) s.created_dirs)) [
        | inl none_yet ↦ (
          added (relative_dir (drop n (elements p ++ e ∷ []))),
          rw (none_yet, dir_handle) (ap (λ h. some (h, added h)) (sym whole)),
          refl,
          (ap (λ es. relative_dir (drop n es)) (sym d), k),
        )
        | inr (h, found) ↦
            let same = find_dir-Known n (join p (single e)) s.created_dirs h k found in
            (
              s,
              rw (found, dir_handle)
                  (ap (λ h. some (h, s)) (same ∙ ap (λ es. relative_dir (drop n es)) d)),
              refl,
              k,
            )
      ]
    where
      added : FilePath → Scan ps path_hashes_filler
      added h = record { created_dirs = (join p (single e), h) ∷ s.created_dirs; state = s.state }

  pub make_dirs-Reaches :
      (n : ℕ) (p : FilePath) (es : List String) (s : Scan ps path_hashes_filler)
      → n ≤ length (elements p)
      → Chain ps p es
      → Known n s.created_dirs
      → Reaches n
          (relative_dir (drop n (elements p ++ es)))
          s
          (make_dirs ps path_hashes_filler p (relative_dir (drop n (elements p))) es s)
  unfolding make_dirs
  make_dirs-Reaches n p [] s le c k =
      (s, ap (λ l. some (relative_dir (drop n l), s)) (sym (append-nil (elements p))), refl, k)
  make_dirs-Reaches n p (e ∷ es) s le (d, c) k =
      let (s1, returned, kept, known) = dir_handle-Reaches n p e s le d k in
      let q = join p (single e) in
      let le' : n ≤ length (elements q) =
        rw d (omega (arith, length-append (elements p) (e ∷ []))) in
      let (s2, rest, kept', known') = make_dirs-Reaches n q es s1 le' c known in
      let joined : elements q ++ es ≡ elements p ++ e ∷ es =
        ap (λ l. l ++ es) d ∙ append_assoc (elements p) (e ∷ []) es in
      (
        s2,
        rw returned (
            ap (λ l. make_dirs ps path_hashes_filler q (relative_dir (drop n l)) es s1) (sym d)
            ∙ (rest ∙ ap (λ l. some (relative_dir (drop n l), s2)) joined)),
        kept' ∙ kept,
        known',
      )
