-- ===== src/Scanner/Walk/Opening.antt =====
-- Taking a directory from the stack keeps the invariant. src/scanner_int.h.
use dupa.Base.{
  some_inj, Option, none, some, List, [], ◌∷◌, ◌≡◌, inl, inr, refl, sym, ap, ◌∙◌, subst, In, arith,
}
use dupa.HashCache.{FileInfo}
use dupa.Scanner.FilePaths.{Paths}
use dupa.Scanner.{ScanProcessor}
use dupa.Scanner.Walk.{FileSystem, Walk, add_dir}
use dupa.Scanner.Walk.Invariant.{Entry, Keeps, Ended-keep, During, Holds}
use dupa.Scanner.Walk.Parts.{pair_inj, Returns-at, cons_inj}

module _ (ps : Paths) (fs : FileSystem ps) {S Handle : Type 0}
    (processor : ScanProcessor ps S Handle) where
  open ps use {FilePath, filename}
  open fs use {open_dir, analyze}

  module _ (root : FilePath) (first : S) (Inv : S → Type 0) (Good : FilePath → Handle → S → Type 0)
      (Told : FilePath → Handle → FileInfo → S → Type 0)
      (k : Keeps ps fs processor root first Inv Good Told) where
    abbrev Ok : Walk ps fs processor → Type 0
    Ok s = Holds ps fs processor root first Inv Good Told s

    abbrev Mid : Walk ps fs processor → Type 0
    Mid s = During ps fs processor root first Inv Good Told s

    refuse-During :
        (s : Walk ps fs processor) (p : FilePath) (o : Option Handle)
        (rest : List (FilePath × Option Handle))
        → s.current ≡ none
        → s.dirs_to_process ≡ (p, o) ∷ rest
        → open_dir p ≡ none
        → Mid s
        → Mid (record s { dirs_to_process = rest })
    refuse-During s p o rest idle top shut v = record {
      opened = v.opened;
      inv = v.inv;
      good = v.good;
      root_opened = v.root_opened;
      dirs_wait = λ q u i. v.dirs_wait q u (subst (In (q, u)) (sym top) (inr i));
      tasks_wait = v.tasks_wait;
      left_over = v.left_over;
      dirs_seen = λ d e h i en de. elim (v.dirs_seen d e h i en de) [
        | inl l ↦ inl l
        | inr (inl w) ↦ inr (elim (subst (In (e, some h)) top w) [
          | inl same ↦ inr (inl (ap open_dir (pair_inj same).0 ∙ shut))
          | inr j ↦ inl j
        ])
        | inr (inr z) ↦ inr (inr z)
      ];
      files_seen = v.files_seen;
    }

    pub refuse-Holds :
        (s : Walk ps fs processor) (p : FilePath) (o : Option Handle)
        (rest : List (FilePath × Option Handle))
        → s.current ≡ none
        → s.dirs_to_process ≡ (p, o) ∷ rest
        → open_dir p ≡ none
        → Ok s
        → Ok (record s { dirs_to_process = rest })
    refuse-Holds s p o rest idle top shut (inr v) = inr (refuse-During s p o rest idle top shut v)
    refuse-Holds s p o rest idle top shut (inl v) = inl (record {
      nothing_current = v.nothing_current;
      no_tasks = v.no_tasks;
      untouched = v.untouched;
      only_root = elim v.only_root [
        | inl one ↦
            let (same, gone) = cons_inj (sym one ∙ top) in
            inr (sym gone, ap open_dir (pair_inj same).0 ∙ shut)
        | inr (empty, shut_root) ↦ absurd (ground (arith, sym empty ∙ top))
      ];
    })

    -- The root alone has been opened.
    first_opened :
        (s : Walk ps fs processor) (rest : List (FilePath × Option Handle)) (es : List FilePath)
        (g : Handle) (st : S)
        → open_dir root ≡ some es
        → rest ≡ []
        → s.tasks ≡ []
        → Good root g st
        → Inv st
        → Mid (record s { dirs_to_process = rest; current = some (g, es); state = st })
    first_opened s rest es g st listed gone no_tasks good' inv' = record {
      opened = (root, g) ∷ [];
      inv = inv';
      good = λ d h i. elim i [
        | inl same ↦
            let (dp, hg) = pair_inj same in
            subst (λ c. Good c h st) (sym dp) (subst (λ c. Good root c st) (sym hg) good')
        | inr j ↦ absurd j
      ];
      root_opened = (g, inl refl);
      dirs_wait = λ q u i. absurd (subst (λ l. In {A = FilePath × Option Handle} (q, u) l) gone i);
      tasks_wait = λ q h i. absurd (subst (λ l. In {A = FilePath × Handle} (q, h) l) no_tasks i);
      left_over = λ h es' e.
          let (gh, same) = pair_inj (some_inj e) in
          (
            root,
            inl (ap (λ c. (root, c)) (sym gh)),
            λ x i. (es, listed, subst (In x) (sym same) i),
          );
      dirs_seen = λ d e h i en de. inl (all_left d e h i en);
      files_seen = λ d e h i en re. inl (all_left d e h i en);
    }
      where
        all_left :
            (d e : FilePath) (h : Handle)
            → In {A = FilePath × Handle} (d, h) ((root, g) ∷ [])
            → Entry ps fs d e
            → (ls : List FilePath) × (◌≡◌ {A = Option (Handle × List FilePath)}
                (some (g, es))
                (some (h, ls)))
              × In e ls
        all_left d e h (inl same) (ls, l, m) =
            let (dp, hg) = pair_inj same in
            let whole : ls ≡ es = some_inj (sym l ∙ (ap open_dir dp ∙ listed)) in
            (es, ap (λ c. some (c, es)) (sym hg), subst (In e) whole m)
        all_left d e h (inr j) (ls, l, m) = absurd j

    enter-During :
        (s : Walk ps fs processor) (p : FilePath) (o : Option Handle)
        (rest : List (FilePath × Option Handle)) (es : List FilePath) (g : Handle) (st : S)
        → s.current ≡ none
        → s.dirs_to_process ≡ (p, o) ∷ rest
        → open_dir p ≡ some es
        → add_dir ps fs processor p o s.state ≡ some (g, st)
        → Mid s
        → Mid (record s { dirs_to_process = rest; current = some (g, es); state = st })
    enter-During s p o rest es g st idle top listed added v =
        let (d0, h0, handle, opened0, en0, de0) =
          v.dirs_wait p o (subst (In (p, o)) (sym top) (inl refl)) in
        let (good', inv', keep, keep_told) =
          Returns-at _ (ap (λ u. add_dir ps fs processor p u s.state) (sym handle) ∙ added)
            (k.dir_kept d0 p h0 s.state v.inv (v.good d0 h0 opened0) en0 de0) in
        record {
          opened = (p, g) ∷ v.opened;
          inv = inv';
          good = λ d h i. elim i [
            | inl same ↦
                let (dp, hg) = pair_inj same in
                subst (λ c. Good c h st) (sym dp) (subst (λ c. Good p c st) (sym hg) good')
            | inr j ↦ keep d h (v.good d h j)
          ];
          root_opened = let (h, i) = v.root_opened in (h, inr i);
          dirs_wait = λ q u i.
              let (d, h, e, j, en, de) = v.dirs_wait q u (subst (In (q, u)) (sym top) (inr i)) in
              (d, h, e, inr j, en, de);
          tasks_wait = λ q h i. let (d, j, en, re) = v.tasks_wait q h i in (d, inr j, en, re);
          left_over = λ h es' e.
              let (gh, same) = pair_inj (some_inj e) in
              (p, inl (ap (λ c. (p, c)) (sym gh)), λ x i. (es, listed, subst (In x) (sym same) i));
          dirs_seen = λ d e h i en de. elim i [
            | inl same ↦
                let (dp, hg) = pair_inj same in
                let (ls, l, m) = en in
                let whole : ls ≡ es = some_inj (sym l ∙ (ap open_dir dp ∙ listed)) in
                inl (es, ap (λ c. some (c, es)) (sym hg), subst (In e) whole m)
            | inr j ↦ elim (v.dirs_seen d e h j en de) [
              | inl (ls, l, m) ↦ absurd (ground (arith, sym idle ∙ l))
              | inr (inl w) ↦ inr (elim (subst (In (e, some h)) top w) [
                | inl same ↦ inr (inr (g, inl (ap (λ c. (c, g)) (pair_inj same).0)))
                | inr wait ↦ inl wait
              ])
              | inr (inr (inl shut)) ↦ inr (inr (inl shut))
              | inr (inr (inr (c, z))) ↦ inr (inr (inr (c, inr z)))
            ]
          ];
          files_seen = λ d e h i en re. elim i [
            | inl same ↦
                let (dp, hg) = pair_inj same in
                let (ls, l, m) = en in
                let whole : ls ≡ es = some_inj (sym l ∙ (ap open_dir dp ∙ listed)) in
                inl (es, ap (λ c. some (c, es)) (sym hg), subst (In e) whole m)
            | inr j ↦ elim (v.files_seen d e h j en re) [
              | inl (ls, l, m) ↦ absurd (ground (arith, sym idle ∙ l))
              | inr (inl w) ↦ inr (inl w)
              | inr (inr z) ↦ inr (
                  inr (
                    Ended-keep ps fs processor root first Inv Good Told e h s.state st keep_told z))
            ]
          ];
        }

    pub enter-Holds :
        (s : Walk ps fs processor) (p : FilePath) (o : Option Handle)
        (rest : List (FilePath × Option Handle)) (es : List FilePath) (g : Handle) (st : S)
        → s.current ≡ none
        → s.dirs_to_process ≡ (p, o) ∷ rest
        → open_dir p ≡ some es
        → add_dir ps fs processor p o s.state ≡ some (g, st)
        → Ok s
        → Ok (record s { dirs_to_process = rest; current = some (g, es); state = st })
    enter-Holds s p o rest es g st idle top listed added (inr v) =
        inr (enter-During s p o rest es g st idle top listed added v)
    enter-Holds s p o rest es g st idle top listed added (inl v) = elim v.only_root [
      | inr (empty, shut) ↦ absurd (ground (arith, sym empty ∙ top))
      | inl one ↦
          let (same, gone) = cons_inj (sym one ∙ top) in
          let (at_root, no_parent) = pair_inj same in
          let listed' : open_dir root ≡ some es = ap open_dir at_root ∙ listed in
          let made : processor.root_dir root first ≡ some (g, st) =
            ap (λ c. processor.root_dir c first) at_root
            ∙ (ap (λ c. processor.root_dir p c) (sym v.untouched)
                ∙ (ap (λ u. add_dir ps fs processor p u s.state) no_parent ∙ added)) in
          let (good', inv') = Returns-at _ made (k.root_kept es listed') in
          inr (first_opened s rest es g st listed' (sym gone) v.no_tasks good' inv')
    ]
