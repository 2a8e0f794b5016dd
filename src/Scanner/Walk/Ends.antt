-- ===== src/Scanner/Walk/Ends.antt =====
-- A walk ends, and never is stuck. src/scanner_int.h.
use dupa.Base.{
  ℕ, suc, ◌+◌, ◌<◌, ◌≤◌, true, false, Option, none, some, List, [], ◌∷◌, ◌≡◌, inl, inr,
  Option-cases, arith, length, length-append, if◌then◌else◌,
}
use dupa.Scanner.FilePaths.{Paths}
use dupa.Scanner.{ScanProcessor}
use dupa.Scanner.Walk.{
  FileSystem, Walk, visit, visit_regular, push, Step, refuse, enter, look, leave, finish, Run, here,
  next,
}

module _ (ps : Paths) (fs : FileSystem ps) where
  open ps use {FilePath}
  open fs use {open_dir, is_symlink, is_directory, is_regular}

  -- What looking at an entry may need, when a directory has a size.
  unfoldable pub weight : (FilePath → ℕ) → FilePath → ℕ
  weight size e = elim (is_symlink e) [
    | none ↦ 2
    | some link ↦
        if link
        then 2
        else elim (is_directory e) [ none ↦ 2 | some dir ↦ if dir then 3 + size e else 2 ]
  ]

  abbrev pub weights : (FilePath → ℕ) → List FilePath → ℕ
  weights size [] = 0
  weights size (e ∷ es) = weight size e + weights size es

  -- The tree on disk is finite: a directory is larger than what is in it.
  pub record Finite : Type 0 where
    pub size : FilePath → ℕ
    pub larger :
        (d : FilePath) (es : List FilePath) → open_dir d ≡ some es → weights size es < size d

module _ (ps : Paths) (fs : FileSystem ps) {S Handle : Type 0}
    (processor : ScanProcessor ps S Handle) where
  open ps use {FilePath}
  open fs use {open_dir, is_symlink, is_directory, is_regular}

  module _ (finite : Finite ps fs) where
    abbrev waiting : List (FilePath × Option Handle) → ℕ
    waiting [] = 0
    waiting ((d, o) ∷ ds) = suc (finite.size d) + waiting ds

    abbrev entries_left : Option (Handle × List FilePath) → ℕ
    entries_left none = 0
    entries_left (some (h, es)) = suc (weights ps fs finite.size es)

    -- An upper bound on the steps that are left.
    unfoldable pub steps_left : Walk ps fs processor → ℕ
    steps_left s = waiting s.dirs_to_process + (entries_left s.current + length s.tasks)

    visit_regular_lem :
        (e : FilePath) (h : Handle) (s : Walk ps fs processor)
        → steps_left (visit_regular ps fs processor e h s) ≤ suc (steps_left s)
    unfolding visit_regular steps_left
    visit_regular_lem e h s = elim (Option-cases (is_regular e)) [
      | inl bad ↦ rw (bad, visit_regular) (omega arith)
      | inr (true, yes_regular) ↦
          rw (yes_regular, visit_regular) (omega (arith, length-append s.tasks ((e, h) ∷ [])))
      | inr (false, not_regular) ↦ rw (not_regular, visit_regular) (omega arith)
    ]

    push_lem :
        (e : FilePath) (h : Handle) (s : Walk ps fs processor)
        → steps_left (push ps fs processor e h s) ≡ suc (finite.size e) + steps_left s
    unfolding steps_left
    push_lem e h s = omega arith

    visit_lem :
        (e : FilePath) (h : Handle) (s : Walk ps fs processor)
        → steps_left (visit ps fs processor e h s) < weight ps fs finite.size e + steps_left s
    unfolding visit weight
    visit_lem e h s = elim (Option-cases (is_symlink e)) [
      | inl bad ↦ rw (bad, visit, weight) (omega arith)
      | inr (true, link) ↦ rw (link, visit, weight) (omega arith)
      | inr (false, no_link) ↦ elim (Option-cases (is_directory e)) [
        | inl bad ↦ rw (no_link, bad, visit, weight) (omega arith)
        | inr (true, dir) ↦
            rw (no_link, dir, visit, weight)
              (omega (arith, push_lem e h s, visit_regular_lem e h (push ps fs processor e h s)))
        | inr (false, dir) ↦
            rw (no_link, dir, visit, weight) (omega (arith, visit_regular_lem e h s))
      ]
    ]

    pub Step_lem :
        (s t : Walk ps fs processor) → Step ps fs processor s t → steps_left t < steps_left s
    unfolding steps_left
    Step_lem s t (refuse _ p o rest idle top shut) = rw (top, steps_left) (omega arith)
    Step_lem s t (enter _ p o rest es g st idle top listed added) =
        rw (top, idle, steps_left) (omega (arith, finite.larger p es listed))
    Step_lem s t (look _ h e es now) =
        let taken : steps_left s
            ≡ weight ps fs finite.size e + steps_left (record s { current = some (h, es) }) =
          rw (now, steps_left) (omega arith) in
        omega (arith, taken, visit_lem e h (record s { current = some (h, es) }))
    Step_lem s t (leave _ h now) = rw (now, steps_left) (omega arith)
    Step_lem s t (finish _ before after p h st split ran) =
        rw (split, steps_left)
          (omega (arith, length-append before after, length-append before ((p, h) ∷ after)))

    pub Run_lem :
        (s t : Walk ps fs processor) (n : ℕ)
        → Run ps fs processor s n t
        → n + steps_left t ≤ steps_left s
    Run_lem s t n (here _ z) = omega arith
    Run_lem s u m (next {t} n _ z r last) = omega (arith, Run_lem s t n r, Step_lem t u last)
