-- ===== src/DirCompare/DiskTests.antt =====
-- A directory on disk, one order in which its files are analyzed, and the theorems on its walk.
use dupa.Base.{none, some, List, [], ◌∷◌, ◌≡◌, ◌⊎◌, ◌≤◌, refl, In}
use dupa.Scanner.Lists.{element_lists}
use dupa.Scanner.Walk.{
  Walk, start, visit, visit_regular, run_task, enter, look, leave, finish, Run, here, next, IsOver,
}
use dupa.Scanner.Walk.Progress.{WayOut, Moves, scan_directory-IsOver}
use dupa.DirCompare.Index.{PathHash}
use dupa.Scanner.Disk.{Names, entries_of, listings, disk, finite_disk}
use dupa.Scanner.Walk.Over.{Below, AllTold}
use dupa.DirCompare.Filled.{HasPath}
use dupa.DirCompare.Fill.{path_hashes_filler}
use dupa.DirCompare.OnDisk.{
  OnDisk, AllOnDisk, RelativePath, record_of, filler-Keeps, fill_path_hashes-OnDisk,
}
use dupa.DirCompare.Tests.{tables, insert}

abbrev FillerState : Type 0
FillerState = Walk element_lists disk (path_hashes_filler element_lists tables)

abbrev walked : FillerState
walked = record {
  dirs_to_process = [];
  current = none;
  tasks = [];
  state =
      insert (record { path = "a"; hash = 7 })
        (insert (record { path = "s/b"; hash = 8 }) ([], tt));
}

-- The file of the inner directory is analyzed first.
walked-Run :
    Run element_lists disk
      (path_hashes_filler element_lists tables)
      (start element_lists disk (path_hashes_filler element_lists tables) ("r" ∷ []) ([], tt))
      10
      walked
unfolding start visit visit_regular run_task
walked-Run =
    next 9 10 refl
      (next 8 9 refl
        (next 7 8 refl
          (next 6 7 refl
            (next 5 6 refl
              (next 4 5 refl
                (next 3 4 refl
                  (next 2 3 refl
                    (next 1 2 refl
                      (next 0 1 refl (here 0 refl)
                        (enter _ ("r" ∷ []) none [] _ [] _ refl refl refl refl))
                      (look _ [] ("r" ∷ "a" ∷ []) _ refl))
                    (look _ [] ("r" ∷ "s" ∷ []) _ refl))
                  (look _ [] ("r" ∷ "l" ∷ []) _ refl))
                (leave _ [] refl))
              (enter _ ("r" ∷ "s" ∷ []) (some []) [] _ ("s" ∷ []) _ refl refl refl refl))
            (look _ ("s" ∷ []) ("r" ∷ "s" ∷ "b" ∷ []) [] refl))
          (leave _ ("s" ∷ []) refl))
        (finish _ (("r" ∷ "a" ∷ [], []) ∷ []) [] ("r" ∷ "s" ∷ "b" ∷ []) ("s" ∷ []) _ refl refl))
      (finish _ [] [] ("r" ∷ "a" ∷ []) [] _ refl refl)

scan_directory-IsOver_example :
    (10 ≤ 21)
    × (IsOver element_lists disk (path_hashes_filler element_lists tables) walked
        ⊎ Moves element_lists disk (path_hashes_filler element_lists tables) walked)
    × WayOut element_lists disk (path_hashes_filler element_lists tables) ("r" ∷ []) ([], tt) 10
scan_directory-IsOver_example =
    scan_directory-IsOver element_lists disk (path_hashes_filler element_lists tables) ("r" ∷ [])
      ([], tt) (AllOnDisk element_lists disk tables ("r" ∷ []))
      (λ d h c. RelativePath element_lists disk tables ("r" ∷ []) d h)
      (λ f h i c.
        HasPath element_lists tables (PathHash.path (record_of element_lists disk tables h f i)) c)
      (filler-Keeps element_lists disk tables ("r" ∷ [])) finite_disk walked 10 walked-Run

fill_path_hashes-OnDisk_example :
    ((r : PathHash)
      → In r (tables.by_path walked.state)
      → OnDisk element_lists disk tables ("r" ∷ []) r)
    × ((d : Names) (es : List Names)
        → Below element_lists disk ("r" ∷ []) d
        → entries_of d listings ≡ some es
        → (h : Names) × RelativePath element_lists disk tables ("r" ∷ []) d h
          × AllTold element_lists disk
              (path_hashes_filler element_lists tables)
              (λ f h i c.
                HasPath element_lists tables
                  (PathHash.path (record_of element_lists disk tables h f i))
                  c)
              es
              h
              walked.state)
fill_path_hashes-OnDisk_example =
    fill_path_hashes-OnDisk element_lists disk tables ("r" ∷ []) _ walked 10 refl walked-Run
      (refl, refl, refl)
