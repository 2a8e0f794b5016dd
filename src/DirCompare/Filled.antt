-- ===== src/DirCompare/Filled.antt =====
-- What FillPathHashes makes of a database: each file once, by its path below the common directory.
-- src/dir_compare.cpp.
use dupa.Base.{
  ℕ, ◌≡◌, refl, sym, ap, ◌∙◌, subst, String, some, List, [], ◌∷◌, ◌++◌, length, ◌⊎◌, inl, inr, In,
  arith, Option-cases,
}
use mathlib.Core.List.{append-nil}
use dupa.HashCache.{FileInfo}
use dupa.Scanner.FilePaths.{Paths}
use dupa.Scanner.{Scan, make_dirs, scan_file, scan_files, scan_db, common_prefix_of, drop}
use dupa.Scanner.Prefix.{IsPrefix}
use dupa.Scanner.Dirs.{drop-append, dir_of, common_prefix_of-IsPrefix, below-Chain}
use dupa.DirCompare.Index.{PathHash, MultiIndex, find-In}
use dupa.DirCompare.Fill.{
  path_hashes_filler, fill_path_hashes, relative_dir, entry, Known, make_dirs-Reaches, prefix_len,
}

module _ (ps : Paths) (mi : MultiIndex) where
  open ps use {FilePath, elements, of_native, native, empty, join, filename, IsPlain}
  open mi use {PathHashes, insert, by_path, find}

  -- What is known of each file.
  abbrev Below : FilePath → String × FileInfo → Type 0
  Below c x = IsPlain (of_native x.0) × IsPlain c × IsPrefix (elements c) (elements (dir_of ps x))

  -- A file is inserted once, as its entry.
  scan_file_lem :
      (c : FilePath) (x : String × FileInfo) (s : Scan ps (path_hashes_filler ps mi))
      → Below c x
      → Known ps mi (length (elements c)) s.created_dirs
      → (s' : Scan ps (path_hashes_filler ps mi)) × (scan_file ps
            (path_hashes_filler ps mi)
            c
            empty
            x
            s
          ≡ some s')
        × (s'.state ≡ insert (entry ps mi (length (elements c)) x) s.state)
        × Known ps mi (length (elements c)) s'.created_dirs
  unfolding scan_file
  scan_file_lem c x s (plain, plain_c, (zs, d)) k =
      let n = length (elements c) in
      let below : drop n (elements (dir_of ps x)) ≡ zs =
        ap (drop n) d ∙ drop-append (elements c) zs in
      let root : relative_dir ps mi (drop n (elements c)) ≡ empty =
        ap (λ l. relative_dir ps mi (drop n l)) (sym (append-nil (elements c)))
        ∙ ap (relative_dir ps mi) (drop-append (elements c) []) in
      let plain_dir = ps.parent_path-IsPlain (of_native x.0) plain in
      let (s1, made, kept, known) =
        make_dirs-Reaches ps mi n c zs s (omega arith)
          (below-Chain ps c (dir_of ps x) zs d plain_c plain_dir) k in
      let dir = relative_dir ps mi (drop n (elements c ++ zs)) in
      let path = join dir (filename (filename (of_native x.0))) in
      let made' : make_dirs ps (path_hashes_filler ps mi) c empty (drop n (elements (dir_of ps x)))
            s
          ≡ some (dir, s1) =
        ap (λ h. make_dirs ps (path_hashes_filler ps mi) c h (drop n (elements (dir_of ps x))) s)
          (sym root)
        ∙ (ap
              (λ l.
                make_dirs ps (path_hashes_filler ps mi) c (relative_dir ps mi (drop n (elements c)))
                  l s)
              below
            ∙ made) in
      (
        record {
          created_dirs = s1.created_dirs;
          state = insert (record { path = native path; hash = x.1.sum }) s1.state;
        },
        rw made' refl,
        ap (insert (record { path = native path; hash = x.1.sum })) kept
            ∙ ap
                (λ l.
                  insert
                    (record {
                      path = native (
                          join (relative_dir ps mi (drop n l))
                            (filename (filename (of_native x.0))));
                      hash = x.1.sum;
                    })
                    s.state)
                (sym d),
        known,
      )

  -- The entries of a list of files, inserted in its order.
  abbrev pub insert_entries : ℕ → List (String × FileInfo) → PathHashes → PathHashes
  insert_entries n [] hashes = hashes
  insert_entries n (x ∷ xs) hashes = insert_entries n xs (insert (entry ps mi n x) hashes)

  scan_files_lem :
      (c : FilePath) (xs : List (String × FileInfo)) (s : Scan ps (path_hashes_filler ps mi))
      → ((x : String × FileInfo) → In x xs → Below c x)
      → Known ps mi (length (elements c)) s.created_dirs
      → (s' : Scan ps (path_hashes_filler ps mi)) × (scan_files ps
            (path_hashes_filler ps mi)
            c
            empty
            xs
            s
          ≡ some s')
        × (s'.state ≡ insert_entries (length (elements c)) xs s.state)
  unfolding scan_files
  scan_files_lem c [] s b k = (s, refl, refl)
  scan_files_lem c (x ∷ xs) s b k =
      let (s1, scanned, inserted, known) = scan_file_lem c x s (b x (inl refl)) k in
      let (s2, rest, all) = scan_files_lem c xs s1 (λ y i. b y (inr i)) known in
      (s2, rw scanned rest, all ∙ ap (insert_entries (length (elements c)) xs) inserted)

  pub fill_path_hashes-insert_entries :
      (db : List (String × FileInfo))
      → ((x : String × FileInfo) → In x db → IsPlain (of_native x.0))
      → fill_path_hashes ps mi db ≡ some (insert_entries (prefix_len ps mi db) db mi.empty)
  unfolding fill_path_hashes scan_db prefix_len
  fill_path_hashes-insert_entries [] plain = refl
  fill_path_hashes-insert_entries (x ∷ xs) plain =
      let start = dir_of ps x in
      let c = common_prefix_of ps start (x ∷ xs) in
      let prefix =
        common_prefix_of-IsPrefix ps start (x ∷ xs)
          (ps.parent_path-IsPlain (of_native x.0) (plain x (inl refl))) in
      let root : relative_dir ps mi (drop (length (elements c)) (elements c)) ≡ empty =
        ap (λ l. relative_dir ps mi (drop (length (elements c)) l)) (sym (append-nil (elements c)))
        ∙ ap (relative_dir ps mi) (drop-append (elements c) []) in
      let (s, scanned, inserted) =
        scan_files_lem c (x ∷ xs) (record { created_dirs = (c, empty) ∷ []; state = mi.empty })
          (λ y i. (plain y i, prefix.1, prefix.2 y i)) (sym root, tt) in
      rw scanned (ap some inserted)

  -- A record is inserted if its path is new.
  pub insert-In :
      (x y : PathHash) (c : PathHashes) → In y (by_path (insert x c)) → (y ≡ x) ⊎ In y (by_path c)
  insert-In x y c i = elim (Option-cases (find x.path c)) [
    | inl fresh ↦ (mi.insert_new x c fresh y).0 i
    | inr (z, old) ↦ inr (subst (λ d. In y (by_path d)) (mi.insert_old x z c old) i)
  ]

  pub In-insert : (x y : PathHash) (c : PathHashes) → In y (by_path c) → In y (by_path (insert x c))
  In-insert x y c i = elim (Option-cases (find x.path c)) [
    | inl fresh ↦ (mi.insert_new x c fresh y).1 (inr i)
    | inr (z, old) ↦ subst (λ d. In y (by_path d)) (sym (mi.insert_old x z c old)) i
  ]

  -- The container has a record for the path.
  abbrev pub HasPath : String → PathHashes → Type 0
  HasPath p c = (r : PathHash) × In r (by_path c) × (r.path ≡ p)

  pub insert-HasPath : (x : PathHash) (c : PathHashes) → HasPath x.path (insert x c)
  insert-HasPath x c = elim (Option-cases (find x.path c)) [
    | inl fresh ↦ (x, (mi.insert_new x c fresh x).1 (inl refl), refl)
    | inr (z, old) ↦ let (i, same) = find-In mi x.path c z old in (z, In-insert x z c i, same)
  ]

  insert_entries-In :
      (n : ℕ) (xs : List (String × FileInfo)) (c : PathHashes) (r : PathHash)
      → In r (by_path (insert_entries n xs c))
      → ((x : String × FileInfo) × In x xs × (r ≡ entry ps mi n x)) ⊎ In r (by_path c)
  insert_entries-In n [] c r i = inr i
  insert_entries-In n (x ∷ xs) c r i =
      elim (insert_entries-In n xs (insert (entry ps mi n x) c) r i) [
        | inl (y, j, e) ↦ inl (y, inr j, e)
        | inr j ↦ elim (insert-In (entry ps mi n x) r c j) [
          | inl e ↦ inl (x, inl refl, e)
          | inr k ↦ inr k
        ]
      ]

  In-insert_entries :
      (n : ℕ) (xs : List (String × FileInfo)) (c : PathHashes) (r : PathHash)
      → In r (by_path c)
      → In r (by_path (insert_entries n xs c))
  In-insert_entries n [] c r i = i
  In-insert_entries n (x ∷ xs) c r i =
      In-insert_entries n xs (insert (entry ps mi n x) c) r (In-insert (entry ps mi n x) r c i)

  insert_entries-HasPath :
      (n : ℕ) (xs : List (String × FileInfo)) (c : PathHashes) (x : String × FileInfo)
      → In x xs
      → HasPath (PathHash.path (entry ps mi n x)) (insert_entries n xs c)
  insert_entries-HasPath n [] c x i = absurd i
  insert_entries-HasPath n (y ∷ ys) c x (inl e) =
      let (r, i, same) = insert-HasPath (entry ps mi n y) c in
      (
        r,
        In-insert_entries n ys (insert (entry ps mi n y) c) r i,
        same ∙ ap (λ z. PathHash.path (entry ps mi n z)) (sym e),
      )
  insert_entries-HasPath n (y ∷ ys) c x (inr j) =
      insert_entries-HasPath n ys (insert (entry ps mi n y) c) x j

  -- For a database whose paths are plain, FillPathHashes returns a container; each of its records is a
  -- file of the database, with its checksum and its path below the common prefix, and each file of the
  -- database has a record for its path.
  pub fill_path_hashes-HasPath :
      (db : List (String × FileInfo))
      → ((x : String × FileInfo) → In x db → IsPlain (of_native x.0))
      → (hashes : PathHashes) × (fill_path_hashes ps mi db ≡ some hashes)
        × ((r : PathHash)
            → In r (by_path hashes)
            → (x : String × FileInfo) × In x db × (r ≡ entry ps mi (prefix_len ps mi db) x))
        × ((x : String × FileInfo)
            → In x db
            → HasPath (PathHash.path (entry ps mi (prefix_len ps mi db) x)) hashes)
  fill_path_hashes-HasPath db plain =
      let n = prefix_len ps mi db in
      (
        insert_entries n db mi.empty,
        fill_path_hashes-insert_entries db plain,
        λ r i. elim (insert_entries-In n db mi.empty r i) [
          | inl found ↦ found
          | inr j ↦ absurd (subst (In r) mi.by_path-empty j)
        ],
        insert_entries-HasPath n db mi.empty,
      )
