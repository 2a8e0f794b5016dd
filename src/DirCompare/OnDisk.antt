-- ===== src/DirCompare/OnDisk.antt =====
-- What FillPathHashes makes of a directory on disk, in every order in which its files are analyzed.
-- src/dir_compare.cpp.
use dupa.Base.{ℕ, ◌≡◌, ◌≢◌, refl, subst, some, List, inl, inr, In}
use dupa.HashCache.{FileInfo}
use dupa.Scanner.FilePaths.{Paths}
use dupa.Scanner.Walk.{FileSystem, Walk, start, Run, IsOver}
use dupa.Scanner.Walk.Visit.{Descends, Regular}
use dupa.Scanner.Walk.Invariant.{Entry, Keeps}
use dupa.Scanner.Walk.Over.{Below, at_root, AllTold, scan_directory-AllTold}
use dupa.DirCompare.Index.{PathHash, MultiIndex}
use dupa.DirCompare.Fill.{path_hashes_filler}
use dupa.DirCompare.Filled.{HasPath, insert-In, In-insert, insert-HasPath}

module _ (ps : Paths) (fs : FileSystem ps) (mi : MultiIndex) where
  open ps use {FilePath, native, empty, join, filename}
  open fs use {open_dir, analyze}
  open mi use {PathHashes, insert, by_path}

  abbrev pub FillerWalk : Type 0
  FillerWalk = Walk ps fs (path_hashes_filler ps mi)

  -- The paths of a directory below the root, which is the empty path.
  pub data RelativePath (root : FilePath) : FilePath → FilePath → Type 0 where
    at_top : (d h : FilePath) → d ≡ root → h ≡ empty → RelativePath root d h
    inside :
        (d e h g : FilePath)
        → RelativePath root d h
        → Entry ps fs d e
        → Descends ps fs e
        → g ≡ join h (filename (filename e))
        → RelativePath root e g

  -- What a file of a directory is inserted as.
  abbrev pub record_of : FilePath → FilePath → FileInfo → PathHash
  record_of h f i = record { path = native (join h (filename (filename f))); hash = i.sum }

  -- A regular file that could be analyzed, with its relative path and its checksum.
  abbrev pub OnDisk : FilePath → PathHash → Type 0
  OnDisk root r =
      (d : FilePath) × (h : FilePath) × (f : FilePath) × (i : FileInfo) × RelativePath root d h
      × Entry ps fs d f
      × Regular ps fs f
      × (analyze f ≡ some i)
      × (i.sum ≢ 0)
      × (r ≡ record_of h f i)

  abbrev pub AllOnDisk : FilePath → PathHashes → Type 0
  AllOnDisk root c = (r : PathHash) → In r (by_path c) → OnDisk root r

  pub filler-Keeps :
      (root : FilePath)
      → Keeps ps fs
          (path_hashes_filler ps mi)
          root
          mi.empty
          (AllOnDisk root)
          (λ d h c. RelativePath root d h)
          (λ f h i c. HasPath ps mi (PathHash.path (record_of h f i)) c)
  filler-Keeps root = record {
    root_kept =
        λ es listed. (at_top root empty refl refl, λ r i. absurd (subst (In r) mi.by_path-empty i));
    dir_kept = λ d e h c all at en de.
        (inside d e h _ at en de refl, all, λ d' g at'. at', λ f g i told. told);
    file_kept = λ d f h i c all at en re done full. (
      insert-HasPath ps mi (record_of h f i) c,
      λ r j. elim (insert-In ps mi (record_of h f i) r c j) [
        | inl same ↦ (d, h, f, i, at, en, re, done, full, same)
        | inr old ↦ all r old
      ],
      λ d' g at'. at',
      λ f' g i' told. let (r, j, same) = told in (r, In-insert ps mi (record_of h f i) r c j, same),
    );
  }

  -- When the walk of a directory that can be opened is over, in whatever order its files were analyzed:
  -- each record is a regular file below the directory, with its path below it and its checksum, and
  -- each regular file in a directory that can be opened, which could be analyzed and whose checksum is
  -- not 0, has a record for a path of it below the directory.
  pub fill_path_hashes-OnDisk :
      (root : FilePath) (rs : List FilePath) (t : FillerWalk) (n : ℕ)
      → open_dir root ≡ some rs
      → Run ps fs
          (path_hashes_filler ps mi)
          (start ps fs (path_hashes_filler ps mi) root mi.empty)
          n
          t
      → IsOver ps fs (path_hashes_filler ps mi) t
      → ((r : PathHash) → In r (by_path t.state) → OnDisk root r)
        × ((d : FilePath) (es : List FilePath)
            → Below ps fs root d
            → open_dir d ≡ some es
            → (h : FilePath) × RelativePath root d h
              × AllTold ps fs
                  (path_hashes_filler ps mi)
                  (λ f h i c. HasPath ps mi (PathHash.path (record_of h f i)) c)
                  es
                  h
                  t.state)
  fill_path_hashes-OnDisk root rs t n opens r over =
      let told =
        scan_directory-AllTold ps fs (path_hashes_filler ps mi) root mi.empty (AllOnDisk root)
          (λ d h c. RelativePath root d h)
          (λ f h i c. HasPath ps mi (PathHash.path (record_of h f i)) c) (filler-Keeps root) t n r
          over in
      ((told root rs (at_root root refl) opens).0, λ d es b listed. (told d es b listed).1)
