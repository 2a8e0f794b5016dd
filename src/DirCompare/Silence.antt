-- ===== src/DirCompare/Silence.antt =====
-- When DirCompare says nothing: of two trees, and of one new file. src/dir_compare.cpp.
use dupa.Base.{
  ℕ, false, String, Option, none, some, List, [], ◌∷◌, ◌≡◌, ◌≢◌, ◌↔◌, inl, inr, refl, ap, subst,
  subst₂, select, arith, In, List-cases, Option-cases, eq_nil_of_no_member,
}
use dupa.Conf.{GlobalConfig}
use dupa.DirCompare.Index.{hash_at, MultiIndex}
use dupa.DirCompare.{get_paths_for_hash, still_there}
use dupa.DirCompare.Reports.{Report, rename_to, subject, gone_report, added_report, reports}
use dupa.DirCompare.Verdict.{about, verdict, verdict_of, reports-verdict}
use dupa.DirCompare.Candidates.{Has, get_paths_for_hash_lem, still_there_lem}
use dupa.DirCompare.Meaning.{In-reports}

module _ (mi : MultiIndex) (conf : GlobalConfig) (hashes1 hashes2 : mi.PathHashes) where
  abbrev verdict_at : String → Option Report
  verdict_at = verdict mi conf hashes1 hashes2

  -- The trees have the same files with the same checksums.
  abbrev pub SameTrees : Type 0
  SameTrees = (f : String) → hash_at mi hashes1 f ≡ hash_at mi hashes2 f

  verdict_of_same : (f : String) (o : Option ℕ) → verdict_of mi conf hashes1 hashes2 f o o ≡ none
  unfolding verdict_of
  verdict_of_same f none = refl
  verdict_of_same f (some h) = ground arith

  reports_of_same : SameTrees → reports mi conf hashes1 hashes2 ≡ []
  unfolding verdict
  reports_of_same same = eq_nil_of_no_member _ λ r i.
      let e : verdict_at (subject r) ≡ some r = (In-reports mi conf hashes1 hashes2 r).0 i in
      let n : verdict_at (subject r) ≡ none =
        rw (same (subject r)) (verdict_of_same (subject r) _) in
      cc

  -- A path that only the second tree has, and of which nothing is said: one of the paths with its
  -- content is gone from the second tree.
  silent_addition :
      (f : String) (h : ℕ)
      → added_report mi conf hashes1 hashes2 f h ≡ none
      → (q : String) × Has mi hashes1 q h × (hash_at mi hashes2 q ≡ none)
  unfolding added_report
  silent_addition f h e = elim (List-cases (get_paths_for_hash mi hashes1 h)) [
    | inl d ↦ absurd (ground arith)
    | inr (c, cs, d) ↦
        let none_kept : still_there mi hashes2 (c ∷ cs) ≡ [] = ground arith in
        (
          c,
          (get_paths_for_hash_lem mi hashes1 h c).0 (rw d (inl refl)),
          elim (Option-cases (hash_at mi hashes2 c)) [
            | inl n ↦ n
            | inr k ↦
                absurd
                  (subst (In c) none_kept ((still_there_lem mi hashes2 (c ∷ cs) c).1 (inl refl, k)))
          ],
        )
  ]

  -- A file that is gone, while the second tree has its content elsewhere.
  gone_report-rename :
      (q f : String) (h : ℕ)
      → conf.skip_renames ≡ false
      → Has mi hashes2 f h
      → gone_report mi conf hashes1 hashes2 q h
        ≡ some (rename_to q (get_paths_for_hash mi hashes2 h))
  unfolding gone_report
  gone_report-rename q f h k e =
      let i = (get_paths_for_hash_lem mi hashes2 h f).1 e in
      elim (List-cases (get_paths_for_hash mi hashes2 h)) [
        | inl d ↦ absurd (subst (In f) d i)
        | inr (c, cs, d) ↦ ground arith
      ]

  -- A gone file is always reported, unless renames are skipped.
  gone_report-ne-none :
      (q : String) (h : ℕ)
      → conf.skip_renames ≡ false
      → gone_report mi conf hashes1 hashes2 q h ≢ none
  unfolding gone_report
  gone_report-ne-none q h k = ground arith

  verdict_of_silent :
      (f : String) → select (about f) (reports mi conf hashes1 hashes2) ≡ [] → verdict_at f ≡ none
  verdict_of_silent f e = elim (Option-cases (verdict_at f)) [
    | inl n ↦ n
    | inr (r, d) ↦ absurd (ground (arith, reports-verdict mi conf hashes1 hashes2 f))
  ]

  -- Unless renames are skipped, a file of the second tree alone of which nothing is said is a
  -- candidate of a rename that is reported: some path q had its content, is gone, and is said to be
  -- renamed to one of the candidates.
  pub silent_addition-renamed :
      (f : String) (h : ℕ)
      → conf.skip_renames ≡ false
      → Has mi hashes2 f h
      → hash_at mi hashes1 f ≡ none
      → select (about f) (reports mi conf hashes1 hashes2) ≡ []
      → (q : String) × (cs : List String) × In (rename_to q cs) (reports mi conf hashes1 hashes2)
        × In f cs
        × Has mi hashes1 q h
  unfolding verdict verdict_of
  silent_addition-renamed f h k b a e =
      let (q, had, gone) = silent_addition f h (subst₂ added_of a b (verdict_of_silent f e)) in
      (
        q,
        get_paths_for_hash mi hashes2 h,
        (In-reports mi conf hashes1 hashes2 (rename_to q _)).1
            (rw (had, gone) (gone_report-rename q f h k b)),
        (get_paths_for_hash_lem mi hashes2 h f).1 b,
        had,
      )
    where
      added_of : Option ℕ → Option ℕ → Type 0
      added_of o1 o2 = verdict_of mi conf hashes1 hashes2 f o1 o2 ≡ none

  verdict_of-none :
      (f : String) (o1 o2 : Option ℕ)
      → conf.skip_renames ≡ false
      → hash_at mi hashes1 f ≡ o1
      → hash_at mi hashes2 f ≡ o2
      → reports mi conf hashes1 hashes2 ≡ []
      → verdict_of mi conf hashes1 hashes2 f o1 o2 ≡ none
      → o1 ≡ o2
  unfolding verdict_of
  verdict_of-none f none none k a b e v = refl
  verdict_of-none f none (some h2) k a b e v =
      let (q, cs, i, _, _) = silent_addition-renamed f h2 k b a (ap (select (about f)) e) in
      absurd (subst (In (rename_to q cs)) e i)
  verdict_of-none f (some h1) none k a b e v = absurd (gone_report-ne-none f h1 k v)
  verdict_of-none f (some h1) (some h2) k a b e v = ground arith

  -- Unless renames are skipped, nothing is reported exactly if the trees have the same files with
  -- the same checksums.
  pub reports-eq-nil :
      conf.skip_renames ≡ false → (reports mi conf hashes1 hashes2 ≡ []) ↔ SameTrees
  unfolding verdict
  reports-eq-nil k = (
    λ e f. verdict_of-none f _ _ k refl refl e (verdict_of_silent f (ap (select (about f)) e)),
    reports_of_same,
  )
