-- ===== src/Scanner/Walk/Invariant.antt =====
-- What holds in every state of a walk, whatever the order in which the tasks end. src/scanner_int.h.
use dupa.Base.{Option, none, some, List, [], ◌∷◌, ◌≡◌, ◌≢◌, ◌⊎◌, inl, inr, refl, In}
use dupa.HashCache.{FileInfo}
use dupa.FileTree.Invariant.{Returns}
use dupa.Scanner.FilePaths.{Paths}
use dupa.Scanner.{ScanProcessor}
use dupa.Scanner.Walk.{FileSystem, Walk, start}
use dupa.Scanner.Walk.Visit.{Descends, Regular}

module _ (ps : Paths) (fs : FileSystem ps) where
  open ps use {FilePath, filename}
  open fs use {open_dir, analyze}

  -- The entry stands in the directory.
  abbrev pub Entry : FilePath → FilePath → Type 0
  Entry d e = (es : List FilePath) × (open_dir d ≡ some es) × In e es

module _ (ps : Paths) (fs : FileSystem ps) {S Handle : Type 0}
    (processor : ScanProcessor ps S Handle) where
  open ps use {FilePath, filename}
  open fs use {open_dir, analyze}

  -- What a processor keeps. `Inv` holds of it once it has a root, `Good` says which handle stands for
  -- a directory, and `Told` that it has been told of a file.
  pub record Keeps (root : FilePath) (first : S) (Inv : S → Type 0)
      (Good : FilePath → Handle → S → Type 0) (Told : FilePath → Handle → FileInfo → S → Type 0)
      : Type 0 where
    pub root_kept :
        (es : List FilePath)
        → open_dir root ≡ some es
        → Returns (processor.root_dir root first) (λ r. Good root r.0 r.1 × Inv r.1)
    pub dir_kept :
        (d e : FilePath) (h : Handle) (st : S)
        → Inv st
        → Good d h st
        → Entry ps fs d e
        → Descends ps fs e
        → Returns (processor.dir (filename e) h st) (λ r.
          Good e r.0 r.1
          × Inv r.1
          × ((c : FilePath) (g : Handle) → Good c g st → Good c g r.1)
          × ((f : FilePath) (g : Handle) (i : FileInfo) → Told f g i st → Told f g i r.1))
    pub file_kept :
        (d e : FilePath) (h : Handle) (i : FileInfo) (st : S)
        → Inv st
        → Good d h st
        → Entry ps fs d e
        → Regular ps fs e
        → analyze e ≡ some i
        → i.sum ≢ 0
        → Returns (processor.file (filename e) h i st) (λ st'.
          Told e h i st'
          × Inv st'
          × ((c : FilePath) (g : Handle) → Good c g st → Good c g st')
          × ((f : FilePath) (g : Handle) (j : FileInfo) → Told f g j st → Told f g j st'))

  module _ (root : FilePath) (first : S) (Inv : S → Type 0) (Good : FilePath → Handle → S → Type 0)
      (Told : FilePath → Handle → FileInfo → S → Type 0) where
    -- An entry is still to be looked at.
    abbrev pub Left : Handle → FilePath → Option (Handle × List FilePath) → Type 0
    Left h e current = (es : List FilePath) × (current ≡ some (h, es)) × In e es

    -- Its task has ended.
    abbrev pub Ended : FilePath → Handle → S → Type 0
    Ended f h st =
        (analyze f ≡ none) ⊎ ((i : FileInfo) × (analyze f ≡ some i) × ((i.sum ≡ 0) ⊎ Told f h i st))

    pub Ended-keep :
        (f : FilePath) (h : Handle) (st st' : S)
        → ((e : FilePath) (g : Handle) (i : FileInfo) → Told e g i st → Told e g i st')
        → Ended f h st
        → Ended f h st'
    Ended-keep f h st st' keep (inl e) = inl e
    Ended-keep f h st st' keep (inr (i, e, inl z)) = inr (i, e, inl z)
    Ended-keep f h st st' keep (inr (i, e, inr t)) = inr (i, e, inr (keep f h i t))

    -- A state with the directories that have been opened so far, and their handles.
    pub record During (s : Walk ps fs processor) : Type 0 where
      pub opened : List (FilePath × Handle)
      pub inv : Inv s.state
      pub good : (d : FilePath) (h : Handle) → In (d, h) opened → Good d h s.state
      pub root_opened : (h : Handle) × In (root, h) opened
      pub dirs_wait :
          (p : FilePath) (o : Option Handle)
          → In (p, o) s.dirs_to_process
          → (d : FilePath) × (h : Handle) × (o ≡ some h)
            × In (d, h) opened
            × Entry ps fs d p
            × Descends ps fs p
      pub tasks_wait :
          (p : FilePath) (h : Handle)
          → In (p, h) s.tasks
          → (d : FilePath) × In (d, h) opened × Entry ps fs d p × Regular ps fs p
      pub left_over :
          (h : Handle) (es : List FilePath)
          → s.current ≡ some (h, es)
          → (d : FilePath) × In (d, h) opened × ((e : FilePath) → In e es → Entry ps fs d e)
      pub dirs_seen :
          (d e : FilePath) (h : Handle)
          → In (d, h) opened
          → Entry ps fs d e
          → Descends ps fs e
          → Left h e s.current
            ⊎ (In (e, some h) s.dirs_to_process
                ⊎ ((open_dir e ≡ none) ⊎ ((g : Handle) × In (e, g) opened)))
      pub files_seen :
          (d e : FilePath) (h : Handle)
          → In (d, h) opened
          → Entry ps fs d e
          → Regular ps fs e
          → Left h e s.current ⊎ (In (e, h) s.tasks ⊎ Ended e h s.state)

    -- Before the root is opened, or when it could not be.
    pub record Idle (s : Walk ps fs processor) : Type 0 where
      pub nothing_current : s.current ≡ none
      pub no_tasks : s.tasks ≡ []
      pub untouched : s.state ≡ first
      pub only_root :
          (s.dirs_to_process ≡ (root, none) ∷ [])
          ⊎ ((s.dirs_to_process ≡ []) × (open_dir root ≡ none))

    abbrev pub Holds : Walk ps fs processor → Type 0
    Holds s = Idle s ⊎ During s

    pub start-Holds : Holds (start ps fs processor root first)
    unfolding start
    start-Holds =
        inl (record {
          nothing_current = refl;
          no_tasks = refl;
          untouched = refl;
          only_root = inl refl;
        })
