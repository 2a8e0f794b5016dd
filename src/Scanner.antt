-- ===== src/Scanner.antt =====
-- src/scanner.h, src/scanner_int.h and src/scanner.cpp: how a tree is fed to a processor, from a
-- database of checksums.
pub mod FilePaths
pub mod Prefix
pub mod Dirs
pub mod Induction
pub mod Walk
pub mod Lists
pub mod Disk
mod Tests
use dupa.Base.{
  ℕ, zero, suc, Bool, true, false, not, ◌&&◌, String, Option, none, some, List, [], ◌∷◌, foldl,
  length, if◌then◌else◌, str_eq, starts_with, ◌>>=◌,
}
use dupa.Conf.{GlobalConfig}
use dupa.HashCache.{FileInfo}
use FilePaths.{Paths, same_elements}

-- `s.substr(n)`, whose first n characters are one byte each.
unfoldable pub substr : ℕ → String → String
substr zero s = s
substr (suc n) String.[] = ""
substr (suc n) (String.◌∷◌ c s) = substr n s

-- `++it` as often as the prefix has elements.
abbrev pub drop : ℕ → List String → List String
drop zero es = es
drop (suc n) [] = []
drop (suc n) (e ∷ es) = drop n es

module _ (ps : Paths) where
  open ps use {FilePath, elements, of_native, empty, single, join, parent_path, filename}

  -- ScanProcessor, over a state; `none` is a failed assertion.
  pub record ScanProcessor (S Handle : Type 0) : Type 0 where
    pub file : FilePath → Handle → FileInfo → S → Option S
    pub root_dir : FilePath → S → Option (Handle × S)
    pub dir : FilePath → Handle → S → Option (Handle × S)

  -- `res.empty() ? *p1i : (res / *p1i)`
  unfoldable pub extend : FilePath → String → FilePath
  extend res e = elim (elements res) [ [] ↦ single e | x ∷ xs ↦ join res (single e) ]

  -- The loop of CommonPathPrefix.
  unfoldable pub common_from : FilePath → List String → List String → FilePath
  unfolding extend
  common_from res [] bs = res
  common_from res (a ∷ as') [] = res
  common_from res (a ∷ as') (b ∷ bs) =
      let longer = common_from (extend res a) as' bs in if str_eq a b then longer else res

  -- CommonPathPrefix
  unfoldable pub common_path_prefix : FilePath → FilePath → FilePath
  unfolding common_from
  common_path_prefix p1 p2 = common_from empty (elements p1) (elements p2)

  -- The first loop of ScanDb.
  unfoldable pub common_prefix_of : FilePath → List (String × FileInfo) → FilePath
  unfolding common_path_prefix
  common_prefix_of common_prefix [] = common_prefix
  common_prefix_of common_prefix (x ∷ xs) =
      common_prefix_of (common_path_prefix common_prefix (parent_path (of_native x.0))) xs

  module _ {S Handle : Type 0} (processor : ScanProcessor S Handle) where
    -- created_dirs, a map from paths.
    abbrev pub CreatedDirs : Type 0
    CreatedDirs = List (FilePath × Handle)

    abbrev pub find_dir : FilePath → CreatedDirs → Option Handle
    find_dir p [] = none
    find_dir p (x ∷ xs) =
        if same_elements (elements x.0) (elements p) then some x.1 else find_dir p xs

    -- The state of the second loop: created_dirs and what the processor has.
    pub record Scan : Type 0 where
      pub created_dirs : CreatedDirs
      pub state : S

    -- The handle of the directory `to_insert`, which is created if it is not there.
    unfoldable pub dir_handle : FilePath → String → Handle → Scan → Option (Handle × Scan)
    dir_handle to_insert e parent_handle s = elim (find_dir to_insert s.created_dirs) [
      | some h ↦ some (h, s)
      | none ↦ do
        (h, st) ← processor.dir (single e) parent_handle s.state
        some (h, record { created_dirs = (to_insert, h) ∷ s.created_dirs; state = st })
    ]

    -- The loop over the elements of a file's directory below the common prefix.
    unfoldable pub make_dirs : FilePath → Handle → List String → Scan → Option (Handle × Scan)
    unfolding dir_handle
    make_dirs parent parent_handle [] s = some (parent_handle, s)
    make_dirs parent parent_handle (e ∷ es) s = do
      let to_insert = join parent (single e)
      (h, s') ← dir_handle to_insert e parent_handle s
      make_dirs to_insert h es s'

    -- The body of the second loop, for one file.
    unfoldable pub scan_file : FilePath → Handle → String × FileInfo → Scan → Option Scan
    unfolding make_dirs
    scan_file common_prefix root x s = do
      let analyzed = of_native x.0
      let below = drop (length (elements common_prefix)) (elements (parent_path analyzed))
      (h, s') ← make_dirs common_prefix root below s
      st ← processor.file (filename analyzed) h x.1 s'.state
      some (record s' { state = st })

    unfoldable pub scan_files : FilePath → Handle → List (String × FileInfo) → Scan → Option Scan
    unfolding scan_file
    scan_files common_prefix root [] s = some s
    scan_files common_prefix root (x ∷ xs) s = do
      s' ← scan_file common_prefix root x s
      scan_files common_prefix root xs s'

    -- ScanDb, from the map of the database on, in the order in which the map is walked.
    unfoldable pub scan_db : List (String × FileInfo) → S → Option S
    unfolding common_prefix_of scan_files
    scan_db [] st = some st
    scan_db (x ∷ xs) st = do
      let common_prefix = common_prefix_of (parent_path (of_native x.0)) (x ∷ xs)
      (root, st') ← processor.root_dir common_prefix st
      s ←
          scan_files common_prefix root (x ∷ xs)
            (record { created_dirs = (common_prefix, root) ∷ []; state = st' })
      some s.state

  -- Which of the two ScanDirectoryOrDb calls: the database at a path, or the directory.
  pub data Source : Type 0 where
    database : FilePath → Source
    directory : String → Source

  unfoldable pub scan_source : GlobalConfig → String → Source
  unfolding substr
  scan_source conf path =
      if not conf.ignore_db_prefix && starts_with path "db:"
      then database (of_native (substr 3 path))
      else directory path
