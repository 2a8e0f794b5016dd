-- ===== src/DirCompare/Verdict.antt =====
-- What the two loops of DirCompare say of one path between them.
-- src/dir_compare.cpp.
use dupa.Base.{
  ℕ, Bool, String, Option, none, some, List, [], ◌∷◌, ◌++◌, ◌==◌, ◌≡◌, refl, ◌∙◌, inl, inr,
  if◌then◌else◌, opt_list, select, arith, In, Distinct, map, str_eq, eq_iff, select-append, ap,
  String-cases, Option-cases,
}
use mathlib.Core.List.{append-nil}
use dupa.Conf.{GlobalConfig}
use dupa.DirCompare.Index.{PathHash, path_of, find_in, hash_at, MultiIndex, find-In}
use dupa.DirCompare.Reports.{
  Report, subject, gather, changed_report, gone_report, added_report, first_report, second_report,
  reports, reports-gather,
}

abbrev pub about : String → Report → Bool
about f r = str_eq (subject r) f

-- A function from records to calls, each about its record's path.
abbrev OwnSubject : (PathHash → Option Report) → Type 0
OwnSubject g = (x : PathHash) (r : Report) → g x ≡ some r → subject r ≡ x.path

module _ (g : PathHash → Option Report) (own : OwnSubject g) (f : String) where
  select_opt :
      (x : PathHash) (o : Option Report)
      → g x ≡ o
      → select (about f) (opt_list o) ≡ (if str_eq x.path f then opt_list o else [])
  select_opt x none e = ground arith
  select_opt x (some r) e = rw (own x r e) refl

  select_absent :
      (xs : List PathHash) → ¬ In f (map path_of xs) → select (about f) (gather g xs) ≡ []
  select_absent [] h = refl
  select_absent (x ∷ xs) h =
      select-append (about f) (opt_list (g x)) (gather g xs)
      ∙ rw (select_opt x (g x) refl, select_absent xs (λ i. h (inr i)))
          (ground (arith, eq_iff x.path f))

  select-gather :
      (xs : List PathHash)
      → Distinct (map path_of xs)
      → select (about f) (gather g xs) ≡ elim (find_in f xs) [ none ↦ [] | some x ↦ opt_list (g x) ]
  select-gather [] d = refl
  select-gather (x ∷ xs) d =
      select-append (about f) (opt_list (g x)) (gather g xs)
      ∙ rw (select_opt x (g x) refl) (elim (String-cases x.path f) [
        | inl e ↦
            rw (select_absent xs (λ i. d.0 (rw e i)))
              (ground (arith, eq_iff x.path f, append-nil (opt_list (g x))))
        | inr n ↦ ground (arith, eq_iff x.path f, select-gather xs d.1)
      ])

module _ (mi : MultiIndex) (conf : GlobalConfig) (hashes1 hashes2 : mi.PathHashes) where
  open mi use {by_path, by_path-Distinct, find, find-find_in}

  first_report-subject : OwnSubject (first_report mi conf hashes1 hashes2)
  unfolding first_report
  first_report-subject x r e = ground arith

  second_report-subject : OwnSubject (second_report mi conf hashes1 hashes2)
  unfolding second_report
  second_report-subject x r e = ground arith

  -- What both loops say of one path, by its checksum in the first tree and in the second.
  unfoldable pub verdict_of : String → Option ℕ → Option ℕ → Option Report
  verdict_of f none none = none
  verdict_of f none (some h2) = added_report mi conf hashes1 hashes2 f h2
  verdict_of f (some h1) none = gone_report mi conf hashes1 hashes2 f h1
  verdict_of f (some h1) (some h2) =
      if h1 == h2 then none else some (changed_report mi conf hashes1 hashes2 f h2)

  unfoldable pub verdict : String → Option Report
  verdict f = verdict_of f (hash_at mi hashes1 f) (hash_at mi hashes2 f)

  -- What each pass says of a path, given the record that it has there.
  first_piece : String → List Report
  first_piece f = elim (find f hashes1) [
    | none ↦ []
    | some x ↦ opt_list (first_report mi conf hashes1 hashes2 x)
  ]

  second_piece : String → List Report
  second_piece f = elim (find f hashes2) [
    | none ↦ []
    | some x ↦ opt_list (second_report mi conf hashes1 hashes2 x)
  ]

  pieces-verdict : (f : String) → first_piece f ++ second_piece f ≡ opt_list (verdict f)
  unfolding first_piece second_piece verdict verdict_of first_report second_report
  pieces-verdict f = elim (Option-cases (find f hashes1)) [
    | inl e ↦ elim (Option-cases (find f hashes2)) [
      | inl d ↦ ground arith
      | inr (y, d) ↦ ground (arith, find-In mi f hashes2 y d)
    ]
    | inr (x, e) ↦ elim (Option-cases (find f hashes2)) [
      | inl d ↦ ground (arith, find-In mi f hashes1 x e)
      | inr (y, d) ↦ ground (arith, find-In mi f hashes1 x e, find-In mi f hashes2 y d)
    ]
  ]

  -- The reports about a path are the verdict on it: one report, or none.
  pub reports-verdict :
      (f : String) → select (about f) (reports mi conf hashes1 hashes2) ≡ opt_list (verdict f)
  unfolding first_piece second_piece
  reports-verdict f =
      ap (select (about f)) (reports-gather mi conf hashes1 hashes2)
      ∙ select-append (about f) (gather (first_report mi conf hashes1 hashes2) (by_path hashes1))
          (gather (second_report mi conf hashes1 hashes2) (by_path hashes2))
      ∙ rw
          (
            select-gather _ first_report-subject f (by_path hashes1) (by_path-Distinct hashes1),
            select-gather _ second_report-subject f (by_path hashes2) (by_path-Distinct hashes2),
            ← find-find_in f hashes1,
            ← find-find_in f hashes2,
          )
          (pieces-verdict f)
