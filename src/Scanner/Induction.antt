-- ===== src/Scanner/Induction.antt =====
-- An invariant of a processor holds after the scan of a database. src/scanner_int.h.
use dupa.Base.{
  ℕ, zero, suc, ◌≡◌, refl, subst, some, String, List, [], ◌∷◌, length, In, All, Option-cases,
  Bool-cases, arith, inl, inr,
}
use dupa.HashCache.{FileInfo}
use dupa.FileTree.Invariant.{Returns, Returns-bind, Returns-map, Returns-some}
use dupa.Scanner.FilePaths.{Paths, same_elements}
use dupa.Scanner.{
  ScanProcessor, CreatedDirs, find_dir, Scan, dir_handle, make_dirs, scan_file, scan_files, scan_db,
  common_prefix_of, drop,
}
use dupa.Scanner.Dirs.{dir_of}

pub In-drop : (n : ℕ) (e : String) (es : List String) → In e (drop n es) → In e es
In-drop zero e es i = i
In-drop (suc n) e [] i = i
In-drop (suc n) e (f ∷ fs) i = inr (In-drop n e fs i)

-- `Inv` says what holds when the files of a list are still to be scanned, `Good` what a handle is.
pub record Preserved (ps : Paths) {S Handle : Type 0} (processor : ScanProcessor ps S Handle)
    (Named : String × FileInfo → Type 0) (Inv : List (String × FileInfo) → S → Type 0)
    (Good : Handle → S → Type 0) : Type 1 where
  pub file_kept :
      (x : String × FileInfo) (xs : List (String × FileInfo)) (h : Handle) (s : S)
      → Named x
      → Inv (x ∷ xs) s
      → Good h s
      → Returns
          (processor.file (ps.filename (ps.of_native x.0)) h x.1 s)
          (λ s'. Inv xs s' × ((g : Handle) → Good g s → Good g s'))
  pub dir_kept :
      (x : String × FileInfo) (xs : List (String × FileInfo)) (e : String) (h : Handle) (s : S)
      → Named x
      → In e (ps.elements (dir_of ps x))
      → Inv xs s
      → Good h s
      → Returns
          (processor.dir (ps.single e) h s)
          (λ r. Good r.0 r.1 × Inv xs r.1 × ((g : Handle) → Good g s → Good g r.1))

module _ (ps : Paths) {S Handle : Type 0} (processor : ScanProcessor ps S Handle)
    (Named : String × FileInfo → Type 0) (Inv : List (String × FileInfo) → S → Type 0)
    (Good : Handle → S → Type 0) (k : Preserved ps processor Named Inv Good) where
  open ps use {FilePath, elements, single, join}

  abbrev AllGood : CreatedDirs ps processor → S → Type 0
  AllGood dirs s = All (λ x. Good x.1 s) dirs

  find_dir-Good :
      (p : FilePath) (dirs : CreatedDirs ps processor) (s : S) (h : Handle)
      → AllGood dirs s
      → find_dir ps processor p dirs ≡ some h
      → Good h s
  find_dir-Good p [] s h g e = ground arith
  find_dir-Good p (x ∷ xs) s h g e = elim (Bool-cases (same_elements (elements x.0) (elements p))) [
    | inl same ↦ let found : x.1 ≡ h = ground arith in subst (λ a. Good a s) found g.0
    | inr other ↦ find_dir-Good p xs s h g.1 (ground arith)
  ]

  AllGood-map :
      (dirs : CreatedDirs ps processor) (s s' : S)
      → ((g : Handle) → Good g s → Good g s')
      → AllGood dirs s
      → AllGood dirs s'
  AllGood-map [] s s' f a = tt
  AllGood-map (x ∷ xs) s s' f a = (f x.1 a.0, AllGood-map xs s s' f a.1)

  -- The scan goes on with a good handle.
  abbrev Ready : List (String × FileInfo) → Handle → Scan ps processor → Scan ps processor → Type 0
  Ready xs h s s' =
      Good h s'.state
      × Inv xs s'.state
      × AllGood s'.created_dirs s'.state
      × ((g : Handle) → Good g s.state → Good g s'.state)

  module _ (x : String × FileInfo) (xs : List (String × FileInfo)) (named : Named x) where
    dir_handle-Ready :
        (p : FilePath) (e : String) (h : Handle) (s : Scan ps processor)
        → In e (elements (dir_of ps x))
        → Good h s.state
        → Inv xs s.state
        → AllGood s.created_dirs s.state
        → Returns (dir_handle ps processor p e h s) (λ r. Ready xs r.0 s r.1)
    unfolding dir_handle
    dir_handle-Ready p e h s m g v a =
        elim (Option-cases (find_dir ps processor p s.created_dirs)) [
          | inl fresh ↦
              let ((h', s'), d, (g', v', f)) =
                Returns-some (processor.dir (single e) h s.state) _
                  (k.dir_kept x xs e h s.state named m v g) in
              rw (fresh, dir_handle, d) (g', v', (g', AllGood-map s.created_dirs s.state s' f a), f)
          | inr (h', found) ↦
              rw (found, dir_handle)
                (find_dir-Good p s.created_dirs s.state h' a found, v, a, λ b c. c)
        ]

    make_dirs-Ready :
        (p : FilePath) (h : Handle) (es : List String) (s : Scan ps processor)
        → ((e : String) → In e es → In e (elements (dir_of ps x)))
        → Good h s.state
        → Inv xs s.state
        → AllGood s.created_dirs s.state
        → Returns (make_dirs ps processor p h es s) (λ r. Ready xs r.0 s r.1)
    unfolding make_dirs
    make_dirs-Ready p h [] s m g v a = (g, v, a, λ b c. c)
    make_dirs-Ready p h (e ∷ es) s m g v a =
        let ((h1, s1), d, (g1, v1, a1, f1)) =
          Returns-some (dir_handle ps processor (join p (single e)) e h s) _
            (dir_handle-Ready (join p (single e)) e h s (m e (inl refl)) g v a) in
        Returns-bind _ _ d (
          Returns-map _ (λ r. Ready xs r.0 s1 r.1) _
            (λ r (g', v', a', f'). (g', v', a', λ b c. f' b (f1 b c)))
            (make_dirs-Ready (join p (single e)) h1 es s1 (λ b i. m b (inr i)) g1 v1 a1))

  module _ (c : FilePath) (root : Handle) where
    scan_file-Inv :
        (x : String × FileInfo) (xs : List (String × FileInfo)) (s : Scan ps processor)
        → Named x
        → Good root s.state
        → Inv (x ∷ xs) s.state
        → AllGood s.created_dirs s.state
        → Returns
            (scan_file ps processor c root x s)
            (λ s'. Good root s'.state × Inv xs s'.state × AllGood s'.created_dirs s'.state)
    unfolding scan_file
    scan_file-Inv x xs s named g v a =
        let n = length (elements c) in
        let ((h, s1), d, (g1, v1, a1, f1)) =
          Returns-some (make_dirs ps processor c root (drop n (elements (dir_of ps x))) s) _ (
            make_dirs-Ready x (x ∷ xs) named c root (drop n (elements (dir_of ps x))) s
              (λ e i. In-drop n e (elements (dir_of ps x)) i) g v a) in
        let (s2, e, (v2, f2)) =
          Returns-some (processor.file (ps.filename (ps.of_native x.0)) h x.1 s1.state) _
            (k.file_kept x xs h s1.state named v1 g1) in
        Returns-bind _ _ d (
          Returns-bind _ _ e
            (f2 root (f1 root g), v2, AllGood-map s1.created_dirs s1.state s2 f2 a1))

    scan_files-Inv :
        (xs : List (String × FileInfo)) (s : Scan ps processor)
        → ((x : String × FileInfo) → In x xs → Named x)
        → Good root s.state
        → Inv xs s.state
        → AllGood s.created_dirs s.state
        → Returns (scan_files ps processor c root xs s) (λ s'. Inv [] s'.state)
    unfolding scan_files
    scan_files-Inv [] s named g v a = v
    scan_files-Inv (x ∷ xs) s named g v a =
        let (s1, d, (g1, v1, a1)) =
          Returns-some (scan_file ps processor c root x s) _
            (scan_file-Inv x xs s (named x (inl refl)) g v a) in
        Returns-bind _ _ d (scan_files-Inv xs s1 (λ y i. named y (inr i)) g1 v1 a1)

  -- A scan that gets past RootDir ends, with the invariant.
  pub scan_db-Inv :
      (x : String × FileInfo) (xs : List (String × FileInfo)) (st : S)
      → ((y : String × FileInfo) → In y (x ∷ xs) → Named y)
      → Returns
          (processor.root_dir (common_prefix_of ps (dir_of ps x) (x ∷ xs)) st)
          (λ r. Good r.0 r.1 × Inv (x ∷ xs) r.1)
      → Returns (scan_db ps processor (x ∷ xs) st) (Inv [])
  unfolding scan_db
  scan_db-Inv x xs st named start =
      let c = common_prefix_of ps (dir_of ps x) (x ∷ xs) in
      let ((root, st1), d, (g, v)) = Returns-some (processor.root_dir c st) _ start in
      let (s, e, w) =
        Returns-some
          (scan_files ps processor c root (x ∷ xs)
            (record { created_dirs = (c, root) ∷ []; state = st1 }))
          _
          (scan_files-Inv c root (x ∷ xs) (record { created_dirs = (c, root) ∷ []; state = st1 })
            named g v (g, tt)) in
      Returns-bind _ _ d (Returns-bind _ _ e w)
