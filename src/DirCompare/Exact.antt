-- ===== src/DirCompare/Exact.antt =====
-- Of which paths DirCompare says something, and what. src/dir_compare.cpp.
use dupa.Base.{
  ℕ, true, ◌⊎◌, String, Option, none, some, [], ◌∷◌, ◌≡◌, inl, inr, refl, sym, ◌∙◌, ap, subst,
  select, opt_list, arith, In, In-select, eq_iff, Bool-cases, List-cases, Option-cases,
}
use dupa.Conf.{GlobalConfig}
use dupa.DirCompare.Index.{hash_at, MultiIndex}
use dupa.DirCompare.{get_paths_for_hash, still_there}
use dupa.DirCompare.Reports.{
  Report, overwritten_by, copied_from, rename_to, content_changed, removed, new_file, subject,
  gone_report, added_report, reports,
}
use dupa.DirCompare.Verdict.{about, verdict, verdict_of, reports-verdict}
use dupa.DirCompare.Candidates.{Has, get_paths_for_hash_lem, still_there_lem}
use dupa.DirCompare.Meaning.{Explains, reports-Explains}

module _ (mi : MultiIndex) (conf : GlobalConfig) (hashes1 hashes2 : mi.PathHashes) where
  -- Why nothing is said of a path: both trees agree on it; or it is gone, its content is elsewhere in
  -- the second tree, and renames are skipped; or it is new, the first tree had its content elsewhere,
  -- and every path that had it is gone.
  abbrev pub Unreported : String → Type 0
  Unreported f =
      (hash_at mi hashes1 f ≡ hash_at mi hashes2 f)
      ⊎ ((conf.skip_renames ≡ true)
          × ((h : ℕ) × Has mi hashes1 f h
              × (hash_at mi hashes2 f ≡ none)
              × ((p : String) × Has mi hashes2 p h)))
      ⊎ ((h : ℕ) × Has mi hashes2 f h
          × (hash_at mi hashes1 f ≡ none)
          × ((p : String) × Has mi hashes1 p h)
          × ((p : String) → Has mi hashes1 p h → hash_at mi hashes2 p ≡ none))

  gone_report-none :
      (f : String) (h : ℕ)
      → gone_report mi conf hashes1 hashes2 f h ≡ none
      → (conf.skip_renames ≡ true) × ((p : String) × Has mi hashes2 p h)
  unfolding gone_report
  gone_report-none f h e = elim (List-cases (get_paths_for_hash mi hashes2 h)) [
    | inl d ↦ absurd (ground arith)
    | inr (c, cs, d) ↦ (
      elim (Bool-cases conf.skip_renames) [ inl s ↦ s | inr s ↦ absurd (ground arith) ],
      (c, (get_paths_for_hash_lem mi hashes2 h c).0 (rw d (inl refl))),
    )
  ]

  added_report-none :
      (f : String) (h : ℕ)
      → added_report mi conf hashes1 hashes2 f h ≡ none
      → ((p : String) × Has mi hashes1 p h)
        × ((p : String) → Has mi hashes1 p h → hash_at mi hashes2 p ≡ none)
  unfolding added_report
  added_report-none f h e = elim (List-cases (get_paths_for_hash mi hashes1 h)) [
    | inl d ↦ absurd (ground arith)
    | inr (c, cs, d) ↦
        let none_kept : still_there mi hashes2 (c ∷ cs) ≡ [] = ground arith in
        (
          (c, (get_paths_for_hash_lem mi hashes1 h c).0 (rw d (inl refl))),
          λ p had.
              let i : In p (c ∷ cs) =
                subst (In p) d ((get_paths_for_hash_lem mi hashes1 h p).1 had) in
              elim (Option-cases (hash_at mi hashes2 p)) [
                | inl n ↦ n
                | inr k ↦
                    absurd
                      (subst (In p) none_kept ((still_there_lem mi hashes2 (c ∷ cs) p).1 (i, k)))
              ],
        )
  ]

  verdict_of-Unreported :
      (f : String) (o1 o2 : Option ℕ)
      → hash_at mi hashes1 f ≡ o1
      → hash_at mi hashes2 f ≡ o2
      → verdict_of mi conf hashes1 hashes2 f o1 o2 ≡ none
      → Unreported f
  unfolding verdict_of
  verdict_of-Unreported f none none a b e = inl (a ∙ sym b)
  verdict_of-Unreported f none (some h) a b e =
      let (had, gone) = added_report-none f h e in inr (inr (h, b, a, had, gone))
  verdict_of-Unreported f (some h) none a b e =
      let (skip, there) = gone_report-none f h e in inr (inl (skip, (h, a, b, there)))
  verdict_of-Unreported f (some h1) (some h2) a b e =
      let same : h1 ≡ h2 = ground arith in inl (a ∙ (ap some same ∙ sym b))

  -- What is explained is not among the paths of which nothing is said.
  Explains-reported : (r : Report) → Explains mi conf hashes1 hashes2 r → ¬ Unreported (subject r)
  Explains-reported (overwritten_by f cs) (h1, h2, a, b, ne, _, _) u = elim u [
    | inl same ↦ ground arith
    | inr (inl (_, (h, _, c, _))) ↦ ground arith
    | inr (inr (h, _, c, _, _)) ↦ ground arith
  ]
  Explains-reported (content_changed f) (h1, h2, a, b, ne, _) u = elim u [
    | inl same ↦ ground arith
    | inr (inl (_, (h, _, c, _))) ↦ ground arith
    | inr (inr (h, _, c, _, _)) ↦ ground arith
  ]
  Explains-reported (rename_to f cs) (h, a, b, k, _, _) u = elim u [
    | inl same ↦ ground arith
    | inr (inl (skip, _)) ↦ ground arith
    | inr (inr (_, c, _, _, _)) ↦ ground arith
  ]
  Explains-reported (removed f) (h, a, b, alone) u = elim u [
    | inl same ↦ ground arith
    | inr (inl (_, (h', c, _, (p, d)))) ↦
        let e : h' ≡ h = ground arith in alone p (subst (Has mi hashes2 p) e d)
    | inr (inr (_, c, _, _, _)) ↦ ground arith
  ]
  Explains-reported (new_file f) (h, a, b, alone) u = elim u [
    | inl same ↦ ground arith
    | inr (inl (_, (h', c, _, _))) ↦ ground arith
    | inr (inr (h', c, _, (p, d), _)) ↦
        let e : h' ≡ h = ground arith in alone p (subst (Has mi hashes1 p) e d)
  ]
  Explains-reported (copied_from f cs) (h, a, b, ne, exact) u = elim u [
    | inl same ↦ ground arith
    | inr (inl (_, (h', c, _, _))) ↦ ground arith
    | inr (inr (h', c, _, _, gone)) ↦ elim (List-cases cs) [
      | inl n ↦ ne n
      | inr (q, qs, d) ↦
          let (had, (k, still)) = (exact q).0 (subst (In q) (sym d) (inl refl)) in
          let e : h ≡ h' = ground arith in
          let left : hash_at mi hashes2 q ≡ none = gone q (subst (Has mi hashes1 q) e had) in
          ground arith
    ]
  ]

  -- Of each path DirCompare says nothing, exactly if both trees agree on it, or it is gone but its
  -- content is elsewhere in the second tree and renames are skipped, or it is new and the paths that
  -- had its content are all gone; else it makes exactly one call about it, which is true of the trees.
  pub reports-Exact :
      (f : String)
      → ((select (about f) (reports mi conf hashes1 hashes2) ≡ []) × Unreported f)
        ⊎ ((r : Report) × (select (about f) (reports mi conf hashes1 hashes2) ≡ r ∷ [])
            × (subject r ≡ f)
            × Explains mi conf hashes1 hashes2 r
            × (¬ Unreported f))
  unfolding verdict
  reports-Exact f = elim (Option-cases (verdict mi conf hashes1 hashes2 f)) [
    | inl e ↦ inl (
      reports-verdict mi conf hashes1 hashes2 f ∙ ap opt_list e,
      verdict_of-Unreported f _ _ refl refl e,
    )
    | inr (r, e) ↦
        let one : select (about f) (reports mi conf hashes1 hashes2) ≡ r ∷ [] =
          reports-verdict mi conf hashes1 hashes2 f ∙ ap opt_list e in
        let (i, hit) = In-select (about f) r _ (subst (In r) (sym one) (inl refl)) in
        let own : subject r ≡ f = (eq_iff (subject r) f).0 hit in
        let true_of = reports-Explains mi conf hashes1 hashes2 r i in
        inr (r, one, own, true_of, subst (λ g. ¬ Unreported g) own (Explains-reported r true_of))
  ]
