-- ===== src/DirCompare/Meaning.antt =====
-- What each report says of the two trees. src/dir_compare.cpp.
use dupa.Base.{
  ℕ, false, String, Option, none, some, List, [], ◌∷◌, ◌==◌, ◌≡◌, ◌≢◌, ◌↔◌, inl, inr, refl, sym,
  ◌∙◌, ap, subst, opt_list, select, arith, In, eq_iff, In-select, In-select_of, Bool-cases,
  List-cases, AllSome, AllSome-some,
}
use dupa.Conf.{GlobalConfig}
use dupa.DirCompare.Index.{hash_at, MultiIndex}
use dupa.DirCompare.{get_paths_for_hash, still_there}
use dupa.DirCompare.Reports.{
  Report, overwritten_by, copied_from, rename_to, content_changed, removed, new_file, subject,
  changed_report, gone_report, added_report, reports,
}
use dupa.DirCompare.Verdict.{about, verdict, verdict_of, reports-verdict}
use dupa.DirCompare.Candidates.{Has, get_paths_for_hash_lem, still_there_lem}

module _ (mi : MultiIndex) (conf : GlobalConfig) (hashes1 hashes2 : mi.PathHashes) where
  -- A report is made exactly if it is the verdict on its subject.
  pub In-reports :
      (r : Report)
      → In r (reports mi conf hashes1 hashes2)
        ↔ (verdict mi conf hashes1 hashes2 (subject r) ≡ some r)
  In-reports r = (there, back)
    where
      v : Option Report
      v = verdict mi conf hashes1 hashes2 (subject r)

      same : select (about (subject r)) (reports mi conf hashes1 hashes2) ≡ opt_list v
      same = reports-verdict mi conf hashes1 hashes2 (subject r)

      only : (o : Option Report) → In r (opt_list o) → o ≡ some r
      only none i = absurd i
      only (some s) (inl e) = ap some (sym e)
      only (some s) (inr i) = absurd i

      there : In r (reports mi conf hashes1 hashes2) → v ≡ some r
      there i = only v (
          subst (In r) same
            (In-select_of (about (subject r)) r _ i ((eq_iff (subject r) (subject r)).1 refl)))

      back : v ≡ some r → In r (reports mi conf hashes1 hashes2)
      back e =
          (In-select (about (subject r)) r _
            (subst (In r) (sym (same ∙ ap opt_list e)) (inl refl))).0

  -- What a report says of the two trees.
  abbrev pub Explains : Report → Type 0
  Explains (overwritten_by f cs) =
      (h1 : ℕ) × (h2 : ℕ) × Has mi hashes1 f h1
      × Has mi hashes2 f h2
      × (h1 ≢ h2)
      × (cs ≢ [])
      × ((p : String) → In p cs ↔ Has mi hashes1 p h2)
  Explains (content_changed f) =
      (h1 : ℕ) × (h2 : ℕ) × Has mi hashes1 f h1
      × Has mi hashes2 f h2
      × (h1 ≢ h2)
      × ((p : String) → ¬ Has mi hashes1 p h2)
  Explains (rename_to f cs) =
      (h : ℕ) × Has mi hashes1 f h
      × (hash_at mi hashes2 f ≡ none)
      × (conf.skip_renames ≡ false)
      × (cs ≢ [])
      × ((p : String) → In p cs ↔ Has mi hashes2 p h)
  Explains (removed f) =
      (h : ℕ) × Has mi hashes1 f h
      × (hash_at mi hashes2 f ≡ none)
      × ((p : String) → ¬ Has mi hashes2 p h)
  Explains (copied_from f cs) =
      (h : ℕ) × Has mi hashes2 f h
      × (hash_at mi hashes1 f ≡ none)
      × (cs ≢ [])
      × ((p : String) → In p cs ↔ (Has mi hashes1 p h × ((k : ℕ) × Has mi hashes2 p k)))
  Explains (new_file f) =
      (h : ℕ) × Has mi hashes2 f h
      × (hash_at mi hashes1 f ≡ none)
      × ((p : String) → ¬ Has mi hashes1 p h)

  changed_report-Explains :
      (f : String) (h1 h2 : ℕ)
      → Has mi hashes1 f h1
      → Has mi hashes2 f h2
      → h1 ≢ h2
      → Explains (changed_report mi conf hashes1 hashes2 f h2)
  unfolding changed_report
  changed_report-Explains f h1 h2 a b ne =
      let paths = get_paths_for_hash_lem mi hashes1 h2 in
      elim (List-cases (get_paths_for_hash mi hashes1 h2)) [
        | inl e ↦ rw (e, changed_report) (h1, h2, a, b, ne, λ p d. subst (In p) e ((paths p).1 d))
        | inr (c, cs, e) ↦
            rw (e, changed_report)
              (
                h1,
                h2,
                a,
                b,
                ne,
                (λ q. cc),
                λ p. subst (λ l. In p l ↔ Has mi hashes1 p h2) e (paths p),
              )
      ]

  gone_report-Explains :
      (f : String) (h : ℕ)
      → Has mi hashes1 f h
      → hash_at mi hashes2 f ≡ none
      → AllSome Explains (gone_report mi conf hashes1 hashes2 f h)
  unfolding gone_report
  gone_report-Explains f h a b =
      let paths = get_paths_for_hash_lem mi hashes2 h in
      elim (List-cases (get_paths_for_hash mi hashes2 h)) [
        | inl e ↦ rw (e, gone_report) (h, a, b, λ p d. subst (In p) e ((paths p).1 d))
        | inr (c, cs, e) ↦ elim (Bool-cases conf.skip_renames) [
          | inl s ↦ rw (e, gone_report) (simp s tt)
          | inr s ↦
              rw (e, gone_report)
                (simp s (
                  h,
                  a,
                  b,
                  refl,
                  (λ q. cc),
                  λ p. subst (λ l. In p l ↔ Has mi hashes2 p h) e (paths p),
                ))
        ]
      ]

  -- The path is in both trees, in the first one with the checksum.
  abbrev InBoth : String → ℕ → Type 0
  InBoth p h = Has mi hashes1 p h × ((k : ℕ) × Has mi hashes2 p k)

  kept :
      (p : String) (h : ℕ) (c : String) (cs : List String)
      → get_paths_for_hash mi hashes1 h ≡ c ∷ cs
      → In p (still_there mi hashes2 (c ∷ cs)) ↔ InBoth p h
  kept p h c cs e =
      let paths : In p (c ∷ cs) ↔ Has mi hashes1 p h =
        subst (λ l. In p l ↔ Has mi hashes1 p h) e (get_paths_for_hash_lem mi hashes1 h p) in
      let there = still_there_lem mi hashes2 (c ∷ cs) p in
      (λ i. let (j, k) = there.0 i in (paths.0 j, k), λ i. there.1 (paths.1 i.0, i.1))

  added_report-Explains :
      (f : String) (h : ℕ)
      → Has mi hashes2 f h
      → hash_at mi hashes1 f ≡ none
      → AllSome Explains (added_report mi conf hashes1 hashes2 f h)
  unfolding added_report
  added_report-Explains f h a b =
      let paths = get_paths_for_hash_lem mi hashes1 h in
      elim (List-cases (get_paths_for_hash mi hashes1 h)) [
        | inl e ↦ rw (e, added_report) (h, a, b, λ p d. subst (In p) e ((paths p).1 d))
        | inr (c, cs, e) ↦ elim (List-cases (still_there mi hashes2 (c ∷ cs))) [
          | inl s ↦ rw (e, added_report, s) tt
          | inr (q, qs, s) ↦
              rw (e, added_report, s)
                (h, a, b, (λ d. cc), λ p. subst (λ l. In p l ↔ InBoth p h) s (kept p h c cs e))
        ]
      ]

  verdict_of-Explains :
      (f : String) (o1 o2 : Option ℕ)
      → hash_at mi hashes1 f ≡ o1
      → hash_at mi hashes2 f ≡ o2
      → AllSome Explains (verdict_of mi conf hashes1 hashes2 f o1 o2)
  unfolding verdict_of
  verdict_of-Explains f none none a b = tt
  verdict_of-Explains f none (some h2) a b = added_report-Explains f h2 b a
  verdict_of-Explains f (some h1) none a b = gone_report-Explains f h1 a b
  verdict_of-Explains f (some h1) (some h2) a b = elim (Bool-cases (h1 == h2)) [
    | inl e ↦ rw e tt
    | inr e ↦ rw e (changed_report-Explains f h1 h2 a b (λ d. ground arith))
  ]

  -- Every report is true of the two trees: the paths have the checksums that it tells of, and its
  -- candidates are all the paths, and only those, that they should be.
  pub reports-Explains : (r : Report) → In r (reports mi conf hashes1 hashes2) → Explains r
  unfolding verdict
  reports-Explains r i =
      AllSome-some Explains (verdict_of-Explains (subject r) _ _ refl refl) ((In-reports r).0 i)
