-- ===== src/Scanner/Walk/Progress.antt =====
-- A walk is never stuck, and ends within a bound. src/scanner_int.h.
use dupa.Base.{
  ℕ, zero, suc, ◌≤◌, ◌==◌, ==_iff, Option, none, some, List, [], ◌∷◌, ◌≡◌, ◌⊎◌, inl, inr, refl, sym,
  ap, ◌∙◌, subst, In, Bool-cases, Option-cases, arith,
}
use dupa.HashCache.{FileInfo}
use dupa.FileTree.Invariant.{Returns-some}
use dupa.Scanner.FilePaths.{Paths}
use dupa.Scanner.{ScanProcessor}
use dupa.Scanner.Walk.{
  FileSystem, Walk, start, add_dir, run_task, Step, refuse, enter, look, leave, finish, Run, next,
  IsOver,
}
use dupa.Scanner.Walk.Visit.{Regular}
use dupa.Scanner.Walk.Invariant.{Entry, Keeps, Holds, start-Holds}
use dupa.Scanner.Walk.Parts.{pair_inj, cons_inj}
use dupa.Scanner.Walk.Steps.{Step-Holds, Run-Holds}
use dupa.Scanner.Walk.Ends.{Finite, steps_left, Step_lem, Run_lem}

module _ (ps : Paths) (fs : FileSystem ps) {S Handle : Type 0}
    (processor : ScanProcessor ps S Handle) where
  open ps use {FilePath, filename}
  open fs use {open_dir, analyze}

  -- There is a next step.
  abbrev pub Moves : Walk ps fs processor → Type 0
  Moves s = (t : Walk ps fs processor) × Step ps fs processor s t

  -- A way to the end, no shorter than n steps.
  abbrev pub WayOut : FilePath → S → ℕ → Type 0
  WayOut root first n =
      (u : Walk ps fs processor) × (l : ℕ) × (n ≤ l)
      × Run ps fs processor (start ps fs processor root first) l u
      × IsOver ps fs processor u

  module _ (root : FilePath) (first : S) (Inv : S → Type 0) (Good : FilePath → Handle → S → Type 0)
      (Told : FilePath → Handle → FileInfo → S → Type 0)
      (k : Keeps ps fs processor root first Inv Good Told) where
    abbrev Ok : Walk ps fs processor → Type 0
    Ok s = Holds ps fs processor root first Inv Good Told s

    run_task-returns :
        (d p : FilePath) (h : Handle) (st : S)
        → Inv st
        → Good d h st
        → Entry ps fs d p
        → Regular ps fs p
        → (st' : S) × (run_task ps fs processor p h st ≡ some st')
    unfolding run_task
    run_task-returns d p h st inv good en re = elim (Option-cases (analyze p)) [
      | inl failed ↦ (st, rw (failed, run_task) refl)
      | inr (i, done) ↦ elim (Bool-cases (i.sum == 0)) [
        | inl empty ↦ (st, rw (done, empty, run_task) refl)
        | inr full ↦
            let (st', told, _) = Returns-some (processor.file (filename p) h i st) _ (
              k.file_kept d p h i st inv good en re done
                (λ z. absurd (ground (arith, full, (==_iff i.sum 0).1 z)))) in
            (st', rw (done, full, run_task) told)
      ]
    ]

    -- The top of the stack can be added, if it can be opened.
    add_dir-returns :
        (s : Walk ps fs processor) (p : FilePath) (o : Option Handle)
        (rest : List (FilePath × Option Handle)) (es : List FilePath)
        → s.dirs_to_process ≡ (p, o) ∷ rest
        → open_dir p ≡ some es
        → Ok s
        → (r : Handle × S) × (add_dir ps fs processor p o s.state ≡ some r)
    add_dir-returns s p o rest es top listed (inr v) =
        let (d, h, handle, i, en, de) = v.dirs_wait p o (subst (In (p, o)) (sym top) (inl refl)) in
        let (r, added, _) =
          Returns-some (processor.dir (filename p) h s.state) _
            (k.dir_kept d p h s.state v.inv (v.good d h i) en de) in
        (r, ap (λ u. add_dir ps fs processor p u s.state) handle ∙ added)
    add_dir-returns s p o rest es top listed (inl v) = elim v.only_root [
      | inr (empty, shut) ↦ absurd (ground (arith, sym empty ∙ top))
      | inl one ↦
          let (same, _) = cons_inj (sym one ∙ top) in
          let (at_root, no_parent) = pair_inj same in
          let (r, added, _) =
            Returns-some (processor.root_dir root first) _
              (k.root_kept es (ap open_dir at_root ∙ listed)) in
          (
            r,
            ap (λ u. add_dir ps fs processor p u s.state) (sym no_parent)
                ∙ (ap (λ c. processor.root_dir p c) v.untouched
                    ∙ (ap (λ c. processor.root_dir c first) (sym at_root) ∙ added)),
          )
    ]

    task-Moves :
        (s : Walk ps fs processor) (p : FilePath) (h : Handle) (after : List (FilePath × Handle))
        → s.tasks ≡ (p, h) ∷ after
        → Ok s
        → Moves s
    task-Moves s p h after split (inl v) = absurd (ground (arith, sym split ∙ v.no_tasks))
    task-Moves s p h after split (inr v) =
        let (d, i, en, re) = v.tasks_wait p h (subst (In (p, h)) (sym split) (inl refl)) in
        let (st, ran) = run_task-returns d p h s.state v.inv (v.good d h i) en re in
        (_, finish s [] after p h st split ran)

    top-Moves :
        (s : Walk ps fs processor) (p : FilePath) (o : Option Handle)
        (rest : List (FilePath × Option Handle))
        → s.current ≡ none
        → s.dirs_to_process ≡ (p, o) ∷ rest
        → Ok s
        → Moves s
    top-Moves s p o rest idle top v = elim (Option-cases (open_dir p)) [
      | inl shut ↦ (_, refuse s p o rest idle top shut)
      | inr (es, listed) ↦
          let ((g, st), added) = add_dir-returns s p o rest es top listed v in
          (_, enter s p o rest es g st idle top listed added)
    ]

    moves :
        (s : Walk ps fs processor) (dirs : List (FilePath × Option Handle))
        (now : Option (Handle × List FilePath)) (tasks : List (FilePath × Handle))
        → s.dirs_to_process ≡ dirs
        → s.current ≡ now
        → s.tasks ≡ tasks
        → Ok s
        → IsOver ps fs processor s ⊎ Moves s
    moves s dirs (some (h, [])) tasks d c f v = inr (_, leave s h c)
    moves s dirs (some (h, e ∷ es)) tasks d c f v = inr (_, look s h e es c)
    moves s ((p, o) ∷ rest) none tasks d c f v = inr (top-Moves s p o rest c d v)
    moves s [] none ((p, h) ∷ after) d c f v = inr (task-Moves s p h after f v)
    moves s [] none [] d c f v = inl (d, c, f)

    ends :
        (finite : Finite ps fs) (m n : ℕ) (t : Walk ps fs processor)
        → steps_left ps fs processor finite t ≤ m
        → Run ps fs processor (start ps fs processor root first) n t
        → Ok t
        → WayOut root first n
    ends finite zero n t le r v = elim (moves t _ _ _ refl refl refl v) [
      | inl over ↦ (t, n, omega arith, r, over)
      | inr (u, step) ↦ absurd (omega (arith, le, Step_lem ps fs processor finite t u step))
    ]
    ends finite (suc m) n t le r v = elim (moves t _ _ _ refl refl refl v) [
      | inl over ↦ (t, n, omega arith, r, over)
      | inr (u, step) ↦
          let (w, l, later, rest, over) =
            ends finite m (suc n) u (omega (arith, le, Step_lem ps fs processor finite t u step))
              (next n (suc n) refl r step)
              (Step-Holds ps fs processor root first Inv Good Told k t u step v) in
          (w, l, omega (arith, later), rest, over)
    ]

    -- On a tree that is finite, with a processor whose calls return and keep what they have been told:
    -- in every order of the tasks, a walk has taken at most one step more than the size of the tree,
    -- it is over or has a next step, and it can go on to its end.
    pub scan_directory-IsOver :
        (finite : Finite ps fs) (t : Walk ps fs processor) (n : ℕ)
        → Run ps fs processor (start ps fs processor root first) n t
        → (n ≤ suc (finite.size root)) × (IsOver ps fs processor t ⊎ Moves t) × WayOut root first n
    unfolding start steps_left
    scan_directory-IsOver finite t n r =
        let ok =
          Run-Holds ps fs processor root first Inv Good Told k _ t n r
            (start-Holds ps fs processor root first Inv Good Told) in
        (
          omega (arith, Run_lem ps fs processor finite _ t n r),
          moves t _ _ _ refl refl refl ok,
          ends finite (steps_left ps fs processor finite t) n t (omega arith) r ok,
        )
