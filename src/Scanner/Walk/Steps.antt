-- ===== src/Scanner/Walk/Steps.antt =====
-- Every step of a walk keeps the invariant, and so does a walk. src/scanner_int.h.
use dupa.Base.{ℕ, some, inl, inr, sym, ◌∙◌, arith}
use dupa.HashCache.{FileInfo}
use dupa.Scanner.FilePaths.{Paths}
use dupa.Scanner.{ScanProcessor}
use dupa.Scanner.Walk.{FileSystem, Walk, Step, refuse, enter, look, leave, finish, Run, here, next}
use dupa.Scanner.Walk.Visit.{visit-Visited}
use dupa.Scanner.Walk.Invariant.{Keeps, During, Holds}
use dupa.Scanner.Walk.Parts.{In-nothing}
use dupa.Scanner.Walk.Opening.{refuse-Holds, enter-Holds}
use dupa.Scanner.Walk.Looking.{look-During, leave-During, finish-During}

module _ (ps : Paths) (fs : FileSystem ps) {S Handle : Type 0}
    (processor : ScanProcessor ps S Handle) where
  open ps use {FilePath, filename}
  open fs use {open_dir, analyze}

  module _ (root : FilePath) (first : S) (Inv : S → Type 0) (Good : FilePath → Handle → S → Type 0)
      (Told : FilePath → Handle → FileInfo → S → Type 0)
      (k : Keeps ps fs processor root first Inv Good Told) where
    abbrev Ok : Walk ps fs processor → Type 0
    Ok s = Holds ps fs processor root first Inv Good Told s

    abbrev Mid : Walk ps fs processor → Type 0
    Mid s = During ps fs processor root first Inv Good Told s

    pub Step-Holds : (s t : Walk ps fs processor) → Step ps fs processor s t → Ok s → Ok t
    Step-Holds s t (refuse _ p o rest idle top shut) v =
        refuse-Holds ps fs processor root first Inv Good Told k s p o rest idle top shut v
    Step-Holds s t (enter _ p o rest es g st idle top listed added) v =
        enter-Holds ps fs processor root first Inv Good Told k s p o rest es g st idle top listed
          added v
    Step-Holds s t (look _ h e es now) (inl v) =
        absurd (ground (arith, sym now ∙ v.nothing_current))
    Step-Holds s t (look _ h e es now) (inr v) = inr (
        look-During ps fs processor root first Inv Good Told k s _ h e es now
          (visit-Visited ps fs processor e h (record s { current = some (h, es) })) v)
    Step-Holds s t (leave _ h now) (inl v) = absurd (ground (arith, sym now ∙ v.nothing_current))
    Step-Holds s t (leave _ h now) (inr v) =
        inr (leave-During ps fs processor root first Inv Good Told k s h now v)
    Step-Holds s t (finish _ before after p h st split ran) (inl v) =
        absurd (In-nothing before after (p, h) (sym split ∙ v.no_tasks))
    Step-Holds s t (finish _ before after p h st split ran) (inr v) =
        inr (
          finish-During ps fs processor root first Inv Good Told k s before after p h st split ran
            v)

    pub Run-Holds : (s t : Walk ps fs processor) (n : ℕ) → Run ps fs processor s n t → Ok s → Ok t
    Run-Holds s t n (here _ z) v = v
    Run-Holds s u m (next {t} n _ z r last) v = Step-Holds t u last (Run-Holds s t n r v)
