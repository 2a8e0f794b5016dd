-- ===== src/Scanner/Walk/Over.antt =====
-- What a walk has told the processor when it is over. src/scanner_int.h.
use dupa.Base.{some_inj, ℕ, some, List, ◌≡◌, ◌≢◌, inl, inr, sym, ap, ◌∙◌, subst, In, arith}
use dupa.HashCache.{FileInfo}
use dupa.Scanner.FilePaths.{Paths}
use dupa.Scanner.{ScanProcessor}
use dupa.Scanner.Walk.{FileSystem, Walk, start, Run, IsOver}
use dupa.Scanner.Walk.Visit.{Descends, Regular}
use dupa.Scanner.Walk.Invariant.{Entry, Keeps, During, Holds, start-Holds}
use dupa.Scanner.Walk.Steps.{Run-Holds}

module _ (ps : Paths) (fs : FileSystem ps) where
  open ps use {FilePath}
  open fs use {open_dir, analyze}

  -- The root and the directories below it, each an entry of one that can be opened.
  pub data Below (root : FilePath) : FilePath → Type 0 where
    at_root : (d : FilePath) → d ≡ root → Below root d
    under : (d e : FilePath) → Below root d → Entry ps fs d e → Descends ps fs e → Below root e

module _ (ps : Paths) (fs : FileSystem ps) {S Handle : Type 0}
    (processor : ScanProcessor ps S Handle) where
  open ps use {FilePath}
  open fs use {open_dir, analyze}

  -- The files of a list that a processor must be told of, with their directory's handle.
  abbrev pub AllTold :
      (FilePath → Handle → FileInfo → S → Type 0) → List FilePath → Handle → S → Type 0
  AllTold Told es h st =
      (f : FilePath) (i : FileInfo)
      → In f es
      → Regular ps fs f
      → analyze f ≡ some i
      → i.sum ≢ 0
      → Told f h i st

  module _ (root : FilePath) (first : S) (Inv : S → Type 0) (Good : FilePath → Handle → S → Type 0)
      (Told : FilePath → Handle → FileInfo → S → Type 0) where
    root_opens :
        (d : FilePath) (es : List FilePath)
        → Below ps fs root d
        → open_dir d ≡ some es
        → (rs : List FilePath) × (open_dir root ≡ some rs)
    root_opens d es (at_root _ same) listed = (es, ap open_dir (sym same) ∙ listed)
    root_opens e es (under d _ b (ds, l, i) de) listed = root_opens d ds b l

    Below-opened :
        (t : Walk ps fs processor) (v : During ps fs processor root first Inv Good Told t)
        → IsOver ps fs processor t
        → (d : FilePath) (es : List FilePath) → Below ps fs root d
        → open_dir d ≡ some es
        → (h : Handle) × In (d, h) v.opened
    Below-opened t v over d es (at_root _ same) listed =
        let (h, i) = v.root_opened in (h, subst (λ c. In (c, h) v.opened) (sym same) i)
    Below-opened t v (no_dirs, idle, no_tasks) e es (under d _ b (ds, l, i) de) listed =
        let (h, j) = Below-opened t v (no_dirs, idle, no_tasks) d ds b l in
        elim (v.dirs_seen d e h j (ds, l, i) de) [
          | inl (ls, now, m) ↦ absurd (ground (arith, sym idle ∙ now))
          | inr (inl w) ↦ absurd (subst (In (e, some h)) no_dirs w)
          | inr (inr (inl shut)) ↦ absurd (ground (arith, sym shut ∙ listed))
          | inr (inr (inr z)) ↦ z
        ]

    files_told :
        (t : Walk ps fs processor) (v : During ps fs processor root first Inv Good Told t)
        → IsOver ps fs processor t
        → (d : FilePath) (es : List FilePath) (h : Handle) → open_dir d ≡ some es
        → In (d, h) v.opened
        → AllTold Told es h t.state
    files_told t v (_, idle, no_tasks) d es h listed j f i m re done full =
        elim (v.files_seen d f h j (es, listed, m) re) [
          | inl (ls, now, _) ↦ absurd (ground (arith, sym idle ∙ now))
          | inr (inl w) ↦ absurd (subst (In (f, h)) no_tasks w)
          | inr (inr (inl failed)) ↦ absurd (ground (arith, sym failed ∙ done))
          | inr (inr (inr (i', done', outcome))) ↦
              let same : i' ≡ i = some_inj (sym done' ∙ done) in
              elim outcome [
                | inl zero_sum ↦ absurd (full (ap (λ c. c.sum) (sym same) ∙ zero_sum))
                | inr told ↦ subst (λ c. Told f h c t.state) same told
              ]
        ]

    over_lem :
        (t : Walk ps fs processor)
        → Holds ps fs processor root first Inv Good Told t
        → IsOver ps fs processor t
        → (d : FilePath) (es : List FilePath) → Below ps fs root d
        → open_dir d ≡ some es
        → Inv t.state × ((h : Handle) × Good d h t.state × AllTold Told es h t.state)
    over_lem t (inr v) over d es b listed =
        let (h, i) = Below-opened t v over d es b listed in
        (v.inv, (h, v.good d h i, files_told t v over d es h listed i))
    over_lem t (inl v) (no_dirs, _, _) d es b listed = elim v.only_root [
      | inl one ↦ absurd (ground (arith, sym one ∙ no_dirs))
      | inr (_, shut) ↦
          let (rs, l) = root_opens d es b listed in absurd (ground (arith, sym shut ∙ l))
    ]

    -- For every order in which the tasks end: when the walk is over, the processor has a handle for
    -- each directory below the root that can be opened, and has been told, with that handle, of each of its
    -- regular files that could be analyzed and has a checksum other than 0. The processor's calls are
    -- supposed to return and to keep what has been told.
    pub scan_directory-AllTold :
        Keeps ps fs processor root first Inv Good Told
        → (t : Walk ps fs processor) (n : ℕ)
        → Run ps fs processor (start ps fs processor root first) n t
        → IsOver ps fs processor t
        → (d : FilePath) (es : List FilePath) → Below ps fs root d
        → open_dir d ≡ some es
        → Inv t.state × ((h : Handle) × Good d h t.state × AllTold Told es h t.state)
    scan_directory-AllTold k t n r = over_lem t (
        Run-Holds ps fs processor root first Inv Good Told k _ t n r
          (start-Holds ps fs processor root first Inv Good Told))
