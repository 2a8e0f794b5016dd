-- ===== src/DbOutput/Unique.antt =====
-- A comparison never writes a path twice into a table that allows it once. src/db_output.cpp.
use dupa.Base.{
  ◌+◌, ◌≤◌, String, str_eq, eq_iff, ◌≡◌, ◌≢◌, ◌⊎◌, inl, inr, refl, sym, ap, ◌∙◌, subst, Bool, true,
  if◌then◌else◌, List, [], ◌∷◌, ◌++◌, map, length, In, In-append, In-map, select, opt_list, arith,
  Option, some, none,
}
use dupa.Conf.{GlobalConfig}
use dupa.DbLib.Monad.{returned}
use dupa.DbLib.Interface.{Value, text, Sqlite}
use dupa.DbLib.{Row}
use dupa.DbLib.Writing.{AllAccepted}
use dupa.DirCompare.Index.{MultiIndex}
use dupa.DirCompare.{dir_compare}
use dupa.DirCompare.Reports.{
  Report, overwritten_by, copied_from, rename_to, content_changed, removed, new_file, subject,
  reports, dir_compare-replay,
}
use dupa.DirCompare.Verdict.{about, verdict, reports-verdict}
use dupa.DbOutput.{DirCompDbStream, path_row, candidate_row, db_stream}
use dupa.DbOutput.Rows.{
  Table, stmt_of, width, row_list, rows_of, table_of, Table-cases, removed_table, new_file_table,
  content_changed_table, overwritten_by_table, copied_from_table, rename_to_table,
}
use dupa.DbOutput.Written.{Tables, rows_at, AllReady, replay-rows}

-- No path is the subject of two reports.
abbrev AtMostOnce : List Report → Type 0
AtMostOnce rs = (f : String) → length (select (about f) rs) ≤ 1

AtMostOnce-rest : (r : Report) (rs : List Report) → AtMostOnce (r ∷ rs) → AtMostOnce rs
AtMostOnce-rest r rs a f = let b = a f in ground arith

In-select_pos :
    (f : String) (r : Report) (rs : List Report)
    → In r rs
    → subject r ≡ f
    → 1 ≤ length (select (about f) rs)
In-select_pos f r [] i e = absurd i
In-select_pos f r (x ∷ xs) (inl same) e =
    let hit : str_eq (subject x) f ≡ true = (eq_iff (subject x) f).1 (ap subject (sym same) ∙ e) in
    rw hit (omega arith)
In-select_pos f r (x ∷ xs) (inr i) e = let rest = In-select_pos f r xs i e in ground arith

AtMostOnce-other :
    (r q : Report) (rs : List Report) → AtMostOnce (r ∷ rs) → In q rs → subject q ≢ subject r
AtMostOnce-other r q rs a i e =
    let own : str_eq (subject r) (subject r) ≡ true = (eq_iff (subject r) (subject r)).1 refl in
    let two : length (select (about (subject r)) (r ∷ rs))
        ≡ 1 + length (select (about (subject r)) rs) =
      rw own (omega arith) in
    omega (arith, two, a (subject r), In-select_pos (subject r) q rs i e)

width-cases : (t : Table) → (width t ≡ 1) ⊎ (width t ≡ 2)
width-cases removed_table = inl refl
width-cases new_file_table = inl refl
width-cases content_changed_table = inl refl
width-cases overwritten_by_table = inr refl
width-cases copied_from_table = inr refl
width-cases rename_to_table = inr refl

module _ {D : Type 0} where
  row_list-single :
      (r : Report) → width (table_of r) ≡ 1 → row_list {D = D} r ≡ path_row (subject r) ∷ []
  row_list-single (overwritten_by f cs) e = absurd (ground arith)
  row_list-single (copied_from f cs) e = absurd (ground arith)
  row_list-single (rename_to f cs) e = absurd (ground arith)
  row_list-single (content_changed f) e = refl
  row_list-single (removed f) e = refl
  row_list-single (new_file f) e = refl

  candidate_length :
      (f : String) (cs : List String) (x : List (Value D))
      → In x (map (candidate_row f) cs)
      → length x ≡ 2
  candidate_length f cs x i =
      let (c, _, e) = In-map (candidate_row f) x cs i in ap (λ l. length l) e

  row_list-pairs :
      (r : Report) (x : List (Value D)) → width (table_of r) ≡ 2 → In x (row_list r) → length x ≡ 2
  row_list-pairs (overwritten_by f cs) x e i = candidate_length f cs x i
  row_list-pairs (copied_from f cs) x e i = candidate_length f cs x i
  row_list-pairs (rename_to f cs) x e i = candidate_length f cs x i
  row_list-pairs (content_changed f) x e i = absurd (ground arith)
  row_list-pairs (removed f) x e i = absurd (ground arith)
  row_list-pairs (new_file f) x e i = absurd (ground arith)

  path_row-inj : (f g : String) → path_row {D = D} f ≡ path_row g → f ≡ g
  path_row-inj f g e = ap (λ (l : List (Value D)). elim l [ [] ↦ f | v ∷ vs ↦ text_of v ]) e
    where
      text_of : Value D → String
      text_of (text s) = s
      text_of v = f

  rows_of-pairs :
      (t : Table) (rs : List Report) (x : List (Value D))
      → width t ≡ 2
      → In x (rows_of t rs)
      → length x ≡ 2
  rows_of-pairs t [] x w i = absurd i
  rows_of-pairs t (r ∷ rs) x w i =
      let either : Bool → List (List (Value D)) =
        λ b. if b then row_list r ++ rows_of t rs else rows_of t rs in
      elim (Table-cases (table_of r) t) [
        | inl (e, same) ↦
            elim (In-append x (row_list r) (rows_of t rs) (subst (λ b. In x (either b)) e i)) [
              | inl j ↦ row_list-pairs r x (ap width same ∙ w) j
              | inr j ↦ rows_of-pairs t rs x w j
            ]
        | inr (e, _) ↦ rows_of-pairs t rs x w (subst (λ b. In x (either b)) e i)
      ]

module _ (sq : Sqlite) (st : DirCompDbStream sq.Stmt) (ts : Tables sq st) where
  open sq use {Db, Stmt, Double}
  open ts use {insert}

  abbrev Accepted : Table → List (Row sq) → List (Row sq) → Type 0
  Accepted t before xs = AllAccepted sq (stmt_of st t) (width t) (insert t) before xs

  pairs-Accepted :
      (t : Table) (before xs : List (Row sq))
      → width t ≡ 2
      → ((x : Row sq) → In x xs → length x ≡ 2)
      → Accepted t before xs
  pairs-Accepted t before [] w l = tt
  pairs-Accepted t before (x ∷ xs) w l = (
    l x (inl refl) ∙ sym w,
    ts.accepts_candidate t before x w,
    pairs-Accepted t (before ++ x ∷ []) xs w (λ y i. l y (inr i)),
  )

  -- None of the reports' paths is in the table.
  abbrev NotYet : List (Row sq) → List Report → Type 0
  NotYet before rs = (r : Report) → In r rs → ¬ In (path_row (subject r)) before

  NotYet-after :
      (before : List (Row sq)) (r : Report) (rs : List Report)
      → AtMostOnce (r ∷ rs)
      → NotYet before (r ∷ rs)
      → NotYet (before ++ path_row (subject r) ∷ []) rs
  NotYet-after before r rs a n q i j =
      elim (In-append (path_row (subject q)) before (path_row (subject r) ∷ []) j) [
        | inl k ↦ n q (inr i) k
        | inr (inl e) ↦ AtMostOnce-other r q rs a i (path_row-inj (subject q) (subject r) e)
        | inr (inr k) ↦ k
      ]

  paths-Accepted :
      (t : Table) (before : List (Row sq)) (rs : List Report)
      → width t ≡ 1
      → AtMostOnce rs
      → NotYet before rs
      → Accepted t before (rows_of t rs)
  paths-Accepted t before [] w a n = tt
  paths-Accepted t before (r ∷ rs) w a n =
      let either : Bool → List (Row sq) =
        λ b. if b then row_list r ++ rows_of t rs else rows_of t rs in
      elim (Table-cases (table_of r) t) [
        | inl (e, same) ↦
            let single = row_list-single r (ap width same ∙ w) in
            subst (λ b. Accepted t before (either b)) (sym e)
              (subst (λ l. Accepted t before (l ++ rows_of t rs)) (sym single)
                (
                  sym w,
                  ts.accepts_new t before (path_row (subject r)) (n r (inl refl)),
                  paths-Accepted t (before ++ path_row (subject r) ∷ []) rs w
                      (AtMostOnce-rest r rs a) (NotYet-after before r rs a n),
                ))
        | inr (e, _) ↦
            subst (λ b. Accepted t before (either b)) (sym e)
              (paths-Accepted t before rs w (AtMostOnce-rest r rs a) (λ q i. n q (inr i)))
      ]

  reports-AtMostOnce :
      (mi : MultiIndex) (conf : GlobalConfig) (hashes1 hashes2 : mi.PathHashes)
      → AtMostOnce (reports mi conf hashes1 hashes2)
  reports-AtMostOnce mi conf hashes1 hashes2 f =
      rw (reports-verdict mi conf hashes1 hashes2 f) (at_most (verdict mi conf hashes1 hashes2 f))
    where
      at_most : (o : Option Report) → length (opt_list o) ≤ 1
      at_most none = omega arith
      at_most (some r) = omega arith

  -- Into empty tables, whose statements are ready, a comparison writes without an exception: the paths
  -- of removed, new and changed files never violate UNIQUE. Each table then holds the rows of its
  -- reports, a path with one row for each of its candidates, in the order of the reports.
  pub dir_compare-rows :
      (mi : MultiIndex) (conf : GlobalConfig) (hashes1 hashes2 : mi.PathHashes) (d : Db)
      → AllReady sq st ts d
      → ((t : Table) → rows_at sq st ts t d ≡ [])
      → (d' : Db) × (dir_compare mi conf (db_stream sq st) hashes1 hashes2 (returned tt, d)
          ≡ (returned tt, d'))
        × AllReady sq st ts d'
        × ((t : Table) → rows_at sq st ts t d' ≡ rows_of t (reports mi conf hashes1 hashes2))
  dir_compare-rows mi conf hashes1 hashes2 d a e =
      let rs = reports mi conf hashes1 hashes2 in
      let (d', p, a', r) = replay-rows sq st ts rs d a (λ t.
        subst (λ b. Accepted t b (rows_of t rs)) (sym (e t))
          (elim (width-cases t) [
            | inl one ↦
                paths-Accepted t [] rs one (reports-AtMostOnce mi conf hashes1 hashes2) (λ q i j. j)
            | inr two ↦ pairs-Accepted t [] (rows_of t rs) two (λ x i. rows_of-pairs t rs x two i)
          ])) in
      (
        d',
        dir_compare-replay mi conf hashes1 hashes2 (db_stream sq st) (returned tt, d) ∙ p,
        a',
        λ t. r t ∙ ap (λ b. b ++ rows_of t rs) (e t),
      )
