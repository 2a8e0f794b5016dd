-- ===== src/DirCompare/Reports.antt =====
-- The calls that a stream receives, as a list: what DirCompare reports does not depend on the
-- stream. src/dir_compare.cpp.
use dupa.Base.{
  ℕ, String, Option, none, some, List, [], ◌∷◌, ◌++◌, ◌==◌, ◌≡◌, refl, sym, ◌∙◌, if◌then◌else◌,
  foldl, opt_list, arith,
}
use mathlib.Core.List.{append_assoc, append-nil}
use dupa.Conf.{GlobalConfig}
use dupa.DirCompare.Index.{PathHash, MultiIndex}
use dupa.DirCompare.Streams.{CompareOutputStream}
use dupa.DirCompare.{get_paths_for_hash, still_there, first_body, second_body, dir_compare}

-- One call of a method of CompareOutputStream.
pub data Report : Type 0 where
  overwritten_by : String → List String → Report
  copied_from : String → List String → Report
  rename_to : String → List String → Report
  content_changed : String → Report
  removed : String → Report
  new_file : String → Report

-- The file that a call is about.
abbrev pub subject : Report → String
subject (overwritten_by f cs) = f
subject (copied_from f cs) = f
subject (rename_to f cs) = f
subject (content_changed f) = f
subject (removed f) = f
subject (new_file f) = f

module _ {S : Type 0} (stream : CompareOutputStream S) where
  abbrev pub emit : Report → S → S
  emit (overwritten_by f cs) s = stream.overwritten_by f cs s
  emit (copied_from f cs) s = stream.copied_from f cs s
  emit (rename_to f cs) s = stream.rename_to f cs s
  emit (content_changed f) s = stream.content_changed f s
  emit (removed f) s = stream.removed f s
  emit (new_file f) s = stream.new_file f s

  abbrev pub replay : List Report → S → S
  replay [] s = s
  replay (r ∷ rs) s = replay rs (emit r s)

  replay-append : (xs ys : List Report) (s : S) → replay (xs ++ ys) s ≡ replay ys (replay xs s)
  replay-append [] ys s = refl
  replay-append (x ∷ xs) ys s = replay-append xs ys (emit x s)

-- The stream that keeps the calls it received, oldest first.
abbrev pub recorder : CompareOutputStream (List Report)
recorder = record {
  overwritten_by = λ f cs log. log ++ overwritten_by f cs ∷ [];
  copied_from = λ f cs log. log ++ copied_from f cs ∷ [];
  rename_to = λ f cs log. log ++ rename_to f cs ∷ [];
  content_changed = λ f log. log ++ content_changed f ∷ [];
  removed = λ f log. log ++ removed f ∷ [];
  new_file = λ f log. log ++ new_file f ∷ [];
}

emit-recorder : (r : Report) (log : List Report) → emit recorder r log ≡ log ++ r ∷ []
emit-recorder (overwritten_by f cs) log = refl
emit-recorder (copied_from f cs) log = refl
emit-recorder (rename_to f cs) log = refl
emit-recorder (content_changed f) log = refl
emit-recorder (removed f) log = refl
emit-recorder (new_file f) log = refl

replay-recorder : (rs log : List Report) → replay recorder rs log ≡ log ++ rs
replay-recorder [] log = sym (append-nil log)
replay-recorder (r ∷ rs) log =
    rw (emit-recorder r log) (replay-recorder rs (log ++ r ∷ []) ∙ append_assoc log (r ∷ []) rs)

abbrev pub gather : (PathHash → Option Report) → List PathHash → List Report
gather f [] = []
gather f (x ∷ xs) = opt_list (f x) ++ gather f xs

-- A loop whose body makes at most one call replays the calls gathered from its records.
loop-gather :
    {S : Type 0} (stream : CompareOutputStream S) (body : S → PathHash → S)
    (f : PathHash → Option Report)
    → ((s : S) (x : PathHash) → body s x ≡ replay stream (opt_list (f x)) s)
    → (xs : List PathHash) (s : S) → foldl body s xs ≡ replay stream (gather f xs) s
loop-gather stream body f h [] s = refl
loop-gather stream body f h (x ∷ xs) s =
    rw (replay-append stream (opt_list (f x)) (gather f xs) s, ← h s x)
      (loop-gather stream body f h xs (body s x))

module _ (mi : MultiIndex) (conf : GlobalConfig) (hashes1 hashes2 : mi.PathHashes) where
  open mi use {by_path, find}

  unfoldable pub changed_report : String → ℕ → Report
  changed_report p h2 = elim (get_paths_for_hash mi hashes1 h2) [
    | [] ↦ content_changed p
    | c ∷ cs ↦ overwritten_by p (c ∷ cs)
  ]

  unfoldable pub gone_report : String → ℕ → Option Report
  gone_report p h1 = elim (get_paths_for_hash mi hashes2 h1) [
    | [] ↦ some (removed p)
    | c ∷ cs ↦ if conf.skip_renames then none else some (rename_to p (c ∷ cs))
  ]

  unfoldable pub added_report : String → ℕ → Option Report
  added_report p h2 = elim (get_paths_for_hash mi hashes1 h2) [
    | [] ↦ some (new_file p)
    | c ∷ cs ↦ elim (still_there mi hashes2 (c ∷ cs)) [
      | [] ↦ none
      | q ∷ qs ↦ some (copied_from p (q ∷ qs))
    ]
  ]

  unfoldable pub first_report : PathHash → Option Report
  unfolding changed_report gone_report
  first_report x = elim (find x.path hashes2) [
    | some y ↦ if x.hash == y.hash then none else some (changed_report x.path y.hash)
    | none ↦ gone_report x.path x.hash
  ]

  unfoldable pub second_report : PathHash → Option Report
  unfolding added_report
  second_report x = elim (find x.path hashes1) [ some _ ↦ none | none ↦ added_report x.path x.hash ]

  -- Everything that DirCompare reports, in order.
  unfoldable pub reports : List Report
  reports = dir_compare mi conf recorder hashes1 hashes2 []

  module _ {S : Type 0} (stream : CompareOutputStream S) where
    first_body_lem :
        (s : S) (x : PathHash)
        → first_body mi conf stream hashes1 hashes2 s x
          ≡ replay stream (opt_list (first_report x)) s
    unfolding first_body first_report
    first_body_lem s x = ground arith

    second_body_lem :
        (s : S) (x : PathHash)
        → second_body mi conf stream hashes1 hashes2 s x
          ≡ replay stream (opt_list (second_report x)) s
    unfolding second_body second_report
    second_body_lem s x = ground arith

    dir_compare-gather :
        (s : S)
        → dir_compare mi conf stream hashes1 hashes2 s
          ≡ replay stream
              (gather first_report (by_path hashes1) ++ gather second_report (by_path hashes2))
              s
    unfolding dir_compare
    dir_compare-gather s =
        loop-gather stream _ second_report second_body_lem (by_path hashes2) _
        ∙ rw (loop-gather stream _ first_report first_body_lem (by_path hashes1) s)
            (sym (replay-append stream (gather first_report (by_path hashes1)) _ s))

  pub reports-gather :
      reports ≡ gather first_report (by_path hashes1) ++ gather second_report (by_path hashes2)
  unfolding reports
  reports-gather = dir_compare-gather recorder [] ∙ replay-recorder _ []

  -- A comparison written to any stream is the recorded list of reports, replayed to that stream.
  pub dir_compare-replay :
      {S : Type 0} (stream : CompareOutputStream S) (s : S)
      → dir_compare mi conf stream hashes1 hashes2 s ≡ replay stream reports s
  dir_compare-replay stream s = rw reports-gather (dir_compare-gather stream s)
