-- ===== src/Scanner/Walk.antt =====
-- ScanDirectory: the walk of a directory while the pool's threads analyze its files.
-- src/scanner_int.h.
pub mod Visit
pub mod Invariant
pub mod Parts
pub mod Opening
pub mod Looking
pub mod Steps
pub mod Over
pub mod Ends
pub mod Progress
use dupa.Base.{
  ℕ, suc, Bool, true, false, ◌==◌, Option, none, some, List, [], ◌∷◌, ◌++◌, ◌≡◌, if◌then◌else◌,
}
use dupa.HashCache.{FileInfo}
use dupa.Scanner.FilePaths.{Paths}
use dupa.Scanner.{ScanProcessor}

-- The file system, which does not change during the walk, and HashCache's call operator. `none` is
-- an exception; `open_dir` has the entries up to the one where the iterator throws, if it does.
pub record FileSystem (ps : Paths) : Type 0 where
  pub open_dir : ps.FilePath → Option (List ps.FilePath)
  pub is_symlink : ps.FilePath → Option Bool
  pub is_directory : ps.FilePath → Option Bool
  pub is_regular : ps.FilePath → Option Bool
  pub analyze : ps.FilePath → Option FileInfo

module _ (ps : Paths) (fs : FileSystem ps) {S Handle : Type 0}
    (processor : ScanProcessor ps S Handle) where
  open ps use {FilePath, filename}
  open fs use {open_dir, is_symlink, is_directory, is_regular, analyze}

  -- dirs_to_process, with its top first; the directory that is being walked, as its handle and the
  -- entries that are left; the tasks that have been submitted and not run; the processor.
  pub record Walk : Type 0 where
    pub dirs_to_process : List (FilePath × Option Handle)
    pub current : Option (Handle × List FilePath)
    pub tasks : List (FilePath × Handle)
    pub state : S

  unfoldable pub start : FilePath → S → Walk
  start root st = record {
    dirs_to_process = (root, none) ∷ [];
    current = none;
    tasks = [];
    state = st;
  }

  -- `maybe_parent_handle.has_value() ? processor.Dir(...) : processor.RootDir(dir)`
  abbrev pub add_dir : FilePath → Option Handle → S → Option (Handle × S)
  add_dir d none st = processor.root_dir d st
  add_dir d (some h) st = processor.dir (filename d) h st

  abbrev pub push : FilePath → Handle → Walk → Walk
  push p h s = record s { dirs_to_process = (p, some h) ∷ s.dirs_to_process }

  abbrev pub submit : FilePath → Handle → Walk → Walk
  submit p h s = record s { tasks = s.tasks ++ (p, h) ∷ [] }

  -- The end of the body, from is_regular on.
  unfoldable pub visit_regular : FilePath → Handle → Walk → Walk
  visit_regular p h s = elim (is_regular p) [ none ↦ s | some r ↦ if r then submit p h s else s ]

  -- The body of the loop over a directory's entries.
  unfoldable pub visit : FilePath → Handle → Walk → Walk
  unfolding visit_regular
  visit p h s = elim (is_symlink p) [
    | none ↦ s
    | some link ↦ if link then s else elim (is_directory p) [
      | none ↦ s
      | some dir ↦ visit_regular p h (if dir then push p h s else s)
    ]
  ]

  -- A task: files that cannot be analyzed, and those whose checksum is 0, are skipped.
  unfoldable pub run_task : FilePath → Handle → S → Option S
  run_task p h st = elim (analyze p) [
    | none ↦ some st
    | some f_info ↦ if f_info.sum == 0 then some st else processor.file (filename p) h f_info st
  ]

  -- A step is what the walking thread does between two locks of the mutex, or the end of a task,
  -- which holds it. A task may run whenever it has been submitted. Where the processor fails an
  -- assertion there is no step.
  pub data Step : Walk → Walk → Type 0 where
    refuse :
        (s : Walk) (d : FilePath) (o : Option Handle) (rest : List (FilePath × Option Handle))
        → s.current ≡ none
        → s.dirs_to_process ≡ (d, o) ∷ rest
        → open_dir d ≡ none
        → Step s (record s { dirs_to_process = rest })
    enter :
        (s : Walk) (d : FilePath) (o : Option Handle) (rest : List (FilePath × Option Handle))
        (es : List FilePath) (h : Handle) (st : S)
        → s.current ≡ none
        → s.dirs_to_process ≡ (d, o) ∷ rest
        → open_dir d ≡ some es
        → add_dir d o s.state ≡ some (h, st)
        → Step s (record s { dirs_to_process = rest; current = some (h, es); state = st })
    look :
        (s : Walk) (h : Handle) (e : FilePath) (es : List FilePath)
        → s.current ≡ some (h, e ∷ es)
        → Step s (visit e h (record s { current = some (h, es) }))
    leave :
        (s : Walk) (h : Handle) → s.current ≡ some (h, []) → Step s (record s { current = none })
    finish :
        (s : Walk) (before after : List (FilePath × Handle)) (p : FilePath) (h : Handle) (st : S)
        → s.tasks ≡ before ++ (p, h) ∷ after
        → run_task p h s.state ≡ some st
        → Step s (record s { tasks = before ++ after; state = st })

  -- The states after n steps.
  pub data Run (s : Walk) : ℕ → Walk → Type 0 where
    here : (n : ℕ) → n ≡ 0 → Run s n s
    next : {t u : Walk} (n m : ℕ) → m ≡ suc n → Run s n t → Step t u → Run s m u

  -- The walk has ended and the pool has stopped.
  abbrev pub IsOver : Walk → Type 0
  IsOver s = (s.dirs_to_process ≡ []) × (s.current ≡ none) × (s.tasks ≡ [])
