-- ===== src/Scanner/Walk/Visit.antt =====
-- What the body of the loop over a directory's entries does. src/scanner_int.h.
use dupa.Base.{
  Bool, true, false, Option, some, List, [], ◌∷◌, ◌++◌, ◌≡◌, ◌⊎◌, inl, inr, refl, sym, ap, ◌∙◌,
  subst, In, In-append, In-append_left, In-append_right, Option-cases, arith,
}
use mathlib.Core.List.{append-nil}
use dupa.Scanner.FilePaths.{Paths}
use dupa.Scanner.{ScanProcessor}
use dupa.Scanner.Walk.{FileSystem, Walk, visit, visit_regular, push, submit}

module _ (ps : Paths) (fs : FileSystem ps) where
  open ps use {FilePath}
  open fs use {is_symlink, is_directory, is_regular}

  -- The entry is no symbolic link but a directory; a regular file.
  abbrev pub Descends : FilePath → Type 0
  Descends e = (is_symlink e ≡ some false) × (is_directory e ≡ some true)

  abbrev pub Regular : FilePath → Type 0
  Regular e =
      (is_symlink e ≡ some false)
      × ((dir : Bool) × (is_directory e ≡ some dir))
      × (is_regular e ≡ some true)

module _ (ps : Paths) (fs : FileSystem ps) {S Handle : Type 0}
    (processor : ScanProcessor ps S Handle) where
  open ps use {FilePath}
  open fs use {is_symlink, is_directory, is_regular}

  -- What a visit adds, in its four cases.
  pub record Visited (e : FilePath) (h : Handle) (s t : Walk ps fs processor) : Type 0 where
    pub same_state : t.state ≡ s.state
    pub same_current : t.current ≡ s.current
    pub dirs_kept : (x : FilePath × Option Handle) → In x s.dirs_to_process → In x t.dirs_to_process
    pub dirs_new :
        (x : FilePath × Option Handle)
        → In x t.dirs_to_process
        → ((x ≡ (e, some h)) × Descends ps fs e) ⊎ In x s.dirs_to_process
    pub tasks_kept : (x : FilePath × Handle) → In x s.tasks → In x t.tasks
    pub tasks_new :
        (x : FilePath × Handle) → In x t.tasks → ((x ≡ (e, h)) × Regular ps fs e) ⊎ In x s.tasks
    pub pushed : Descends ps fs e → In (e, some h) t.dirs_to_process
    pub submitted : Regular ps fs e → In (e, h) t.tasks

  -- A visit that adds some directories before those that wait and some tasks after those.
  adds-Visited :
      (e : FilePath) (h : Handle) (s t : Walk ps fs processor)
      (ds : List (FilePath × Option Handle)) (ts : List (FilePath × Handle))
      → t.state ≡ s.state
      → t.current ≡ s.current
      → t.dirs_to_process ≡ ds ++ s.dirs_to_process
      → t.tasks ≡ s.tasks ++ ts
      → ((x : FilePath × Option Handle) → In x ds → (x ≡ (e, some h)) × Descends ps fs e)
      → ((x : FilePath × Handle) → In x ts → (x ≡ (e, h)) × Regular ps fs e)
      → (Descends ps fs e → In (e, some h) ds)
      → (Regular ps fs e → In (e, h) ts)
      → Visited e h s t
  adds-Visited e h s t ds ts st cu d f only_d only_f all_d all_f = record {
    same_state = st;
    same_current = cu;
    dirs_kept = λ x i. subst (In x) (sym d) (In-append_right x ds s.dirs_to_process i);
    dirs_new = λ x i. elim (In-append x ds s.dirs_to_process (subst (In x) d i)) [
      | inl j ↦ inl (only_d x j)
      | inr j ↦ inr j
    ];
    tasks_kept = λ x i. subst (In x) (sym f) (In-append_left x s.tasks ts i);
    tasks_new = λ x i. elim (In-append x s.tasks ts (subst (In x) f i)) [
      | inl j ↦ inr j
      | inr j ↦ inl (only_f x j)
    ];
    pushed = λ z.
        subst (In (e, some h)) (sym d) (In-append_left (e, some h) ds s.dirs_to_process (all_d z));
    submitted = λ z. subst (In (e, h)) (sym f) (In-append_right (e, h) s.tasks ts (all_f z));
  }

  nothing :
      (e : FilePath) (h : Handle) (s : Walk ps fs processor)
      → ¬ Descends ps fs e
      → ¬ Regular ps fs e
      → Visited e h s s
  nothing e h s d r =
      adds-Visited e h s s [] [] refl refl refl (sym (append-nil s.tasks)) (λ x i. absurd i)
        (λ x i. absurd i) (λ z. absurd (d z)) (λ z. absurd (r z))

  -- The last test, after a directory has been pushed or not.
  regular-Visited :
      (e : FilePath) (h : Handle) (s s1 : Walk ps fs processor)
      (ds : List (FilePath × Option Handle)) (dir : Bool)
      → is_symlink e ≡ some false
      → is_directory e ≡ some dir
      → s1.state ≡ s.state
      → s1.current ≡ s.current
      → s1.tasks ≡ s.tasks
      → s1.dirs_to_process ≡ ds ++ s.dirs_to_process
      → ((x : FilePath × Option Handle) → In x ds → (x ≡ (e, some h)) × Descends ps fs e)
      → (Descends ps fs e → In (e, some h) ds)
      → Visited e h s (visit_regular ps fs processor e h s1)
  unfolding visit_regular
  regular-Visited e h s s1 ds dir no_link d st cu ta di only all =
      elim (Option-cases (is_regular e)) [
        | inl bad ↦
            rw (bad, visit_regular)
              (adds-Visited e h s s1 ds [] st cu di (ta ∙ sym (append-nil s.tasks)) only
                (λ x i. absurd i) all (λ r. absurd (ground (arith, r.2))))
        | inr (true, yes_regular) ↦
            rw (yes_regular, visit_regular)
              (adds-Visited e h s (submit ps fs processor e h s1) ds ((e, h) ∷ []) st cu di
                (ap (λ l. l ++ (e, h) ∷ []) ta) only
                (λ x i. elim i [
                  | inl same ↦ (same, (no_link, (dir, d), yes_regular))
                  | inr none_left ↦ absurd none_left
                ])
                all (λ r. inl refl))
        | inr (false, not_regular) ↦
            rw (not_regular, visit_regular)
              (adds-Visited e h s s1 ds [] st cu di (ta ∙ sym (append-nil s.tasks)) only
                (λ x i. absurd i) all (λ r. absurd (ground (arith, r.2))))
      ]

  pub visit-Visited :
      (e : FilePath) (h : Handle) (s : Walk ps fs processor)
      → Visited e h s (visit ps fs processor e h s)
  unfolding visit
  visit-Visited e h s = elim (Option-cases (is_symlink e)) [
    | inl bad ↦
        rw (bad, visit)
          (nothing e h s (λ z. absurd (ground (arith, z.0))) (λ z. absurd (ground (arith, z.0))))
    | inr (true, link) ↦
        rw (link, visit)
          (nothing e h s (λ z. absurd (ground (arith, z.0))) (λ z. absurd (ground (arith, z.0))))
    | inr (false, no_link) ↦ elim (Option-cases (is_directory e)) [
      | inl bad ↦
          rw (no_link, bad, visit)
            (nothing e h s (λ z. absurd (ground (arith, z.1)))
              (λ z. absurd (ground (arith, z.1.1))))
      | inr (true, dir) ↦
          rw (no_link, dir, visit)
            (regular-Visited e h s (push ps fs processor e h s) ((e, some h) ∷ []) true no_link dir
              refl refl refl refl
              (λ x i. elim i [
                | inl same ↦ (same, (no_link, dir))
                | inr none_left ↦ absurd none_left
              ])
              (λ z. inl refl))
      | inr (false, dir) ↦
          rw (no_link, dir, visit)
            (regular-Visited e h s s [] false no_link dir refl refl refl refl (λ x i. absurd i)
              (λ z. absurd (ground (arith, z.1))))
    ]
  ]
