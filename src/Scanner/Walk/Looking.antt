-- ===== src/Scanner/Walk/Looking.antt =====
-- Looking at an entry, leaving a directory and the end of a task keep the invariant.
-- src/scanner_int.h.
use dupa.Base.{
  some_inj, ◌==◌, ==_iff, none, some, List, [], ◌∷◌, ◌++◌, ◌≡◌, ◌⊎◌, inl, inr, refl, sym, ap, ◌∙◌,
  subst, In, In-append_right, Bool-cases, Option-cases, arith,
}
use dupa.HashCache.{FileInfo}
use dupa.Scanner.FilePaths.{Paths}
use dupa.Scanner.{ScanProcessor}
use dupa.Scanner.Walk.{FileSystem, Walk, run_task}
use dupa.Scanner.Walk.Visit.{Descends, Regular, Visited}
use dupa.Scanner.Walk.Invariant.{Entry, Keeps, Left, Ended, Ended-keep, During, Holds}
use dupa.Scanner.Walk.Parts.{pair_inj, Returns-at, In-without, In-split}

module _ (ps : Paths) (fs : FileSystem ps) {S Handle : Type 0}
    (processor : ScanProcessor ps S Handle) where
  open ps use {FilePath, filename}
  open fs use {open_dir, analyze}

  module _ (root : FilePath) (first : S) (Inv : S → Type 0) (Good : FilePath → Handle → S → Type 0)
      (Told : FilePath → Handle → FileInfo → S → Type 0)
      (k : Keeps ps fs processor root first Inv Good Told) where
    abbrev Ok : Walk ps fs processor → Type 0
    Ok s = Holds ps fs processor root first Inv Good Told s

    abbrev Mid : Walk ps fs processor → Type 0
    Mid s = During ps fs processor root first Inv Good Told s

    -- An entry that was left is still, or is the one that is looked at.
    still_or_now :
        (s t : Walk ps fs processor) (h : Handle) (e : FilePath) (es : List FilePath)
        → s.current ≡ some (h, e ∷ es)
        → Visited ps fs processor e h (record s { current = some (h, es) }) t
        → (x : FilePath) (g : Handle) → Left ps fs processor root first Inv Good Told g x s.current
        → Left ps fs processor root first Inv Good Told g x t.current ⊎ ((x ≡ e) × (g ≡ h))
    still_or_now s t h e es now w x g (ls, l, m) =
        let (hg, same) = pair_inj (some_inj (sym now ∙ l)) in
        elim (subst (In x) (sym same) m) [
          | inl xe ↦ inr (xe, sym hg)
          | inr i ↦ inl (es, w.same_current ∙ ap (λ c. some (c, es)) hg, i)
        ]

    none_left :
        (s : Walk ps fs processor) (h : Handle)
        → s.current ≡ some (h, [])
        → (x : FilePath) (g : Handle) (ls : List FilePath) → s.current ≡ some (g, ls)
        → ¬ In x ls
    none_left s h now x g ls l m =
        let (_, same) = pair_inj (some_inj (sym now ∙ l)) in subst (In x) (sym same) m

    pub look-During :
        (s t : Walk ps fs processor) (h : Handle) (e : FilePath) (es : List FilePath)
        → s.current ≡ some (h, e ∷ es)
        → Visited ps fs processor e h (record s { current = some (h, es) }) t
        → Mid s
        → Mid t
    look-During s t h e es now w v = record {
      opened = v.opened;
      inv = subst Inv (sym w.same_state) v.inv;
      good = λ d g i. subst (Good d g) (sym w.same_state) (v.good d g i);
      root_opened = v.root_opened;
      dirs_wait = λ q u i. elim (w.dirs_new (q, u) i) [
        | inl (same, de) ↦
            let (qe, uh) = pair_inj same in
            let (d, j, all) = v.left_over h (e ∷ es) now in
            (
              d,
              h,
              uh,
              j,
              subst (λ c. Entry ps fs d c) (sym qe) (all e (inl refl)),
              subst (Descends ps fs) (sym qe) de,
            )
        | inr j ↦ v.dirs_wait q u j
      ];
      tasks_wait = λ q g i. elim (w.tasks_new (q, g) i) [
        | inl (same, re) ↦
            let (qe, gh) = pair_inj same in
            let (d, j, all) = v.left_over h (e ∷ es) now in
            (
              d,
              subst (λ c. In (d, c) v.opened) (sym gh) j,
              subst (λ c. Entry ps fs d c) (sym qe) (all e (inl refl)),
              subst (Regular ps fs) (sym qe) re,
            )
        | inr j ↦ v.tasks_wait q g j
      ];
      left_over = λ g ls f.
          let (hg, same) = pair_inj (some_inj (sym w.same_current ∙ f)) in
          let (d, j, all) = v.left_over h (e ∷ es) now in
          (d, subst (λ c. In (d, c) v.opened) hg j, λ x i. all x (inr (subst (In x) (sym same) i)));
      dirs_seen = λ d x g i en de. elim (v.dirs_seen d x g i en de) [
        | inl l ↦ elim (still_or_now s t h e es now w x g l) [
          | inl still ↦ inl still
          | inr (xe, gh) ↦ inr (
              inl (
                subst (λ c. In (c, some g) t.dirs_to_process) (sym xe)
                  (subst (λ c. In (e, some c) t.dirs_to_process) (sym gh)
                    (w.pushed (subst (Descends ps fs) xe de)))))
        ]
        | inr (inl j) ↦ inr (inl (w.dirs_kept (x, some g) j))
        | inr (inr z) ↦ inr (inr z)
      ];
      files_seen = λ d x g i en re. elim (v.files_seen d x g i en re) [
        | inl l ↦ elim (still_or_now s t h e es now w x g l) [
          | inl still ↦ inl still
          | inr (xe, gh) ↦ inr (
              inl (
                subst (λ c. In (c, g) t.tasks) (sym xe)
                  (subst (λ c. In (e, c) t.tasks) (sym gh)
                    (w.submitted (subst (Regular ps fs) xe re)))))
        ]
        | inr (inl j) ↦ inr (inl (w.tasks_kept (x, g) j))
        | inr (inr z) ↦
            inr (
              inr (subst (Ended ps fs processor root first Inv Good Told x g) (sym w.same_state) z))
      ];
    }

    pub leave-During :
        (s : Walk ps fs processor) (h : Handle)
        → s.current ≡ some (h, [])
        → Mid s
        → Mid (record s { current = none })
    leave-During s h now v = record {
      opened = v.opened;
      inv = v.inv;
      good = v.good;
      root_opened = v.root_opened;
      dirs_wait = v.dirs_wait;
      tasks_wait = v.tasks_wait;
      left_over = λ g ls e. absurd (ground arith);
      dirs_seen = λ d x g i en de. elim (v.dirs_seen d x g i en de) [
        | inl (ls, l, m) ↦ absurd (none_left s h now x g ls l m)
        | inr z ↦ inr z
      ];
      files_seen = λ d x g i en re. elim (v.files_seen d x g i en re) [
        | inl (ls, l, m) ↦ absurd (none_left s h now x g ls l m)
        | inr z ↦ inr z
      ];
    }

    run_task-Told :
        (d p : FilePath) (h : Handle) (st st' : S)
        → run_task ps fs processor p h st ≡ some st'
        → Inv st
        → Good d h st
        → Entry ps fs d p
        → Regular ps fs p
        → Ended ps fs processor root first Inv Good Told p h st'
          × Inv st'
          × ((c : FilePath) (g : Handle) → Good c g st → Good c g st')
          × ((f : FilePath) (g : Handle) (j : FileInfo) → Told f g j st → Told f g j st')
    unfolding run_task
    run_task-Told d p h st st' e inv good' en re = elim (Option-cases (analyze p)) [
      | inl failed ↦
          let same : st ≡ st' = some_inj (rw (failed, run_task) at e) in
          (
            inl failed,
            subst Inv same inv,
            λ c g. subst (Good c g) same,
            λ f g j. subst (Told f g j) same,
          )
      | inr (i, done) ↦ elim (Bool-cases (i.sum == 0)) [
        | inl empty ↦
            let same : st ≡ st' = some_inj (rw (done, empty, run_task) at e) in
            (
              inr (i, done, inl ((==_iff i.sum 0).0 empty)),
              subst Inv same inv,
              λ c g. subst (Good c g) same,
              λ f g j. subst (Told f g j) same,
            )
        | inr full ↦
            let e' : processor.file (filename p) h i st ≡ some st' =
              rw (done, full, run_task) at e in
            let (told, inv', keep, keep_told) = Returns-at _ e' (
              k.file_kept d p h i st inv good' en re done
                (λ z. absurd (ground (arith, full, (==_iff i.sum 0).1 z)))) in
            (inr (i, done, inr told), inv', keep, keep_told)
      ]
    ]

    pub finish-During :
        (s : Walk ps fs processor) (before after : List (FilePath × Handle)) (p : FilePath)
        (h : Handle) (st : S)
        → s.tasks ≡ before ++ (p, h) ∷ after
        → run_task ps fs processor p h s.state ≡ some st
        → Mid s
        → Mid (record s { tasks = before ++ after; state = st })
    finish-During s before after p h st split ran v =
        let here : In (p, h) s.tasks =
          subst (In (p, h)) (sym split)
            (In-append_right (p, h) before ((p, h) ∷ after) (inl refl)) in
        let (d, j, en, re) = v.tasks_wait p h here in
        let (ended, inv', keep, keep_told) =
          run_task-Told d p h s.state st ran v.inv (v.good d h j) en re in
        record {
          opened = v.opened;
          inv = inv';
          good = λ c g i. keep c g (v.good c g i);
          root_opened = v.root_opened;
          dirs_wait = v.dirs_wait;
          tasks_wait = λ q g i.
              v.tasks_wait q g
                (subst (In (q, g)) (sym split) (In-without before after (p, h) (q, g) i));
          left_over = v.left_over;
          dirs_seen = v.dirs_seen;
          files_seen = λ c x g i ce xe. elim (v.files_seen c x g i ce xe) [
            | inl l ↦ inl l
            | inr (inl w) ↦
                inr (elim (In-split before after (p, h) (x, g) (subst (In (x, g)) split w)) [
                  | inl same ↦
                      let (xp, gh) = pair_inj same in
                      inr (
                        subst (λ y. Ended ps fs processor root first Inv Good Told y g st) (sym xp)
                          (subst (λ y. Ended ps fs processor root first Inv Good Told p y st)
                            (sym gh) ended))
                  | inr other ↦ inl other
                ])
            | inr (inr z) ↦ inr (
                inr
                  (Ended-keep ps fs processor root first Inv Good Told x g s.state st keep_told z))
          ];
        }
