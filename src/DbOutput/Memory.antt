-- ===== src/DbOutput/Memory.antt =====
-- Six tables in memory that fulfil what is supposed of SQLite.
use dupa.Base.{
  ℕ, ◌+◌, ◌==◌, ==_iff, str_eq, eq_iff, ◌≡◌, ◌≢◌, inl, inr, refl, sym, ap, ◌∙◌, subst, Bool, true,
  false, ◌&&◌, ◌||◌, if◌then◌else◌, List, [], ◌∷◌, ◌++◌, length, In, arith, Option, some, none,
  Bool-cases,
}
use dupa.DbLib.Interface.{Value, text, int64, double, sqlite_ok, sqlite_misuse, sqlite_done, Sqlite}
use dupa.DbLib.{bind1}
use dupa.DbLib.Writing.{IsInsert, Stage, at_start, at_end, elsewhere, begun}
use dupa.DbLib.Frame.{IsKept}
use dupa.DbOutput.{DirCompDbStream}
use dupa.DbOutput.Rows.{
  Table, removed_table, new_file_table, content_changed_table, overwritten_by_table,
  copied_from_table, rename_to_table, stmt_of, width, number, Table-cases,
}
use dupa.DbOutput.Written.{Tables, AllReady, rows_at}

pub record Memory : Type 0 where
  pub stored : Table → List (List (Value ℕ))
  pub bound : Table → List (Value ℕ)
  pub stages : Table → Stage

abbrev pub change : {A : Type 0} → (Table → A) → Table → A → Table → A
change f t x u = if number t == number u then x else f u

abbrev pub same_path : List (Value ℕ) → List (Value ℕ) → Bool
same_path (text a ∷ []) (text b ∷ []) = str_eq a b
same_path r q = false

abbrev pub has_row : List (Value ℕ) → List (List (Value ℕ)) → Bool
has_row r [] = false
has_row r (q ∷ qs) = same_path r q || has_row r qs

-- UNIQUE
abbrev pub refused : Table → List (List (Value ℕ)) → List (Value ℕ) → Bool
refused t before row = (width t == 1) && has_row row before

abbrev pub stepped : Table → Memory → Memory
stepped t d = record d {
  stored = change d.stored t (d.stored t ++ d.bound t ∷ []);
  stages = change d.stages t at_end;
}

abbrev pub run_step : Option Table → Memory → ℕ × Memory
run_step none d = (sqlite_misuse, d)
run_step (some t) d =
    if refused t (d.stored t) (d.bound t) then (19, d) else (sqlite_done, stepped t d)

abbrev pub bound_to : Table → Value ℕ → Memory → Memory
bound_to t v d = record d { bound = change d.bound t (d.bound t ++ v ∷ []) }

-- A statement that has not been reset takes no value.
abbrev pub bind_at : Stage → Table → Value ℕ → Memory → ℕ × Memory
bind_at at_start t v d = (sqlite_ok, bound_to t v d)
bind_at at_end t v d = (sqlite_misuse, d)
bind_at elsewhere t v d = (sqlite_misuse, d)

abbrev pub bind_value : Table → Value ℕ → Memory → ℕ × Memory
bind_value t v d = bind_at (d.stages t) t v d

abbrev pub was_reset : Table → Memory → Memory
was_reset t d = record d { stages = change d.stages t at_start }

abbrev pub memory : Sqlite
memory = record {
  Db = Memory;
  Stmt = Table;
  Double = ℕ;
  open_v2 = λ path flags.
      (sqlite_ok, record { stored = λ t. []; bound = λ t. []; stages = λ t. at_start });
  errcode = λ d. 0;
  exec = λ sql d. (sqlite_ok, d);
  prepare = λ sql d. ((sqlite_ok, removed_table), d);
  bind_int64 = λ s i n. bind_value s (int64 n);
  bind_double = λ s i x. bind_value s (double x);
  bind_text = λ s i t. bind_value s (text t);
  step = run_step;
  clear_bindings = λ s d. (sqlite_ok, record d { bound = change d.bound s [] });
  reset = λ s d. (sqlite_ok, was_reset s d);
  column_int64 = λ s i d. (0, d);
  column_double = λ s i d. (0, d);
  column_text = λ s i d. ("", d);
  step-none = λ d. refl;
}

abbrev pub statements : DirCompDbStream Table
statements = record {
  removed = removed_table;
  new_file = new_file_table;
  content_changed = content_changed_table;
  overwritten_by = overwritten_by_table;
  copied_from = copied_from_table;
  rename_to = rename_to_table;
}

stmt_of-statements : (t : Table) → stmt_of statements t ≡ t
stmt_of-statements removed_table = refl
stmt_of-statements new_file_table = refl
stmt_of-statements content_changed_table = refl
stmt_of-statements overwritten_by_table = refl
stmt_of-statements copied_from_table = refl
stmt_of-statements rename_to_table = refl

bind1-memory :
    (t : Table) (i : ℕ) (v : Value ℕ) (d : Memory) → bind1 memory t i v d ≡ bind_value t v d
bind1-memory t i (int64 n) d = refl
bind1-memory t i (double x) d = refl
bind1-memory t i (text s) d = refl

change-same : {A : Type 0} (f : Table → A) (t : Table) (x : A) → change f t x t ≡ x
change-same f t x = rw ((==_iff (number t) (number t)).1 refl) refl

change-other : {A : Type 0} (f : Table → A) (t u : Table) (x : A) → t ≢ u → change f t x u ≡ f u
change-other f t u x ne = elim (Table-cases t u) [
  | inl (_, same) ↦ absurd (ne same)
  | inr (e, _) ↦ rw e refl
]

memory_insert : (t : Table) → IsInsert memory t (width t)
memory_insert t = record {
  bound = λ d. d.bound t;
  rows = λ d. d.stored t;
  stage = λ d. d.stages t;
  has_table = λ d. true;
  mode = λ d. begun;
  Accepts = λ before row. refused t before row ≡ false;
  binds = λ d v g b. (
    _,
    bind1-memory t (length (d.bound t) + 1) v d ∙ ap (λ s. bind_at s t v d) g,
    change-same d.bound t (d.bound t ++ v ∷ []),
    refl,
    g,
    refl,
    refl,
  );
  inserts = λ d g h b a. (
    stepped t d,
    rw a refl,
    change-same d.stored t (d.stored t ++ d.bound t ∷ []),
    change-same d.stages t at_end,
    refl,
    refl,
  );
  clears = λ d. (_, refl, change-same d.bound t [], refl, refl, refl, refl);
  resets = λ d g. (_, refl, refl, refl, change-same d.stages t at_start, refl, refl);
}

same_path-eq : (r q : List (Value ℕ)) → same_path r q ≡ true → r ≡ q
same_path-eq (text a ∷ []) (text b ∷ []) e = ap (λ s. text s ∷ []) ((eq_iff a b).0 e)
same_path-eq (text a ∷ []) (text b ∷ w ∷ q) e = absurd (ground arith)
same_path-eq (text a ∷ []) (int64 n ∷ q) e = absurd (ground arith)
same_path-eq (text a ∷ []) (double n ∷ q) e = absurd (ground arith)
same_path-eq (text a ∷ []) [] e = absurd (ground arith)
same_path-eq (text a ∷ v ∷ r) q e = absurd (ground arith)
same_path-eq (int64 n ∷ r) q e = absurd (ground arith)
same_path-eq (double n ∷ r) q e = absurd (ground arith)
same_path-eq [] q e = absurd (ground arith)

has_row-In : (r : List (Value ℕ)) (qs : List (List (Value ℕ))) → has_row r qs ≡ true → In r qs
has_row-In r [] e = absurd (ground arith)
has_row-In r (q ∷ qs) e = elim (Bool-cases (same_path r q)) [
  | inl f ↦ inl (same_path-eq r q f)
  | inr f ↦ inr (has_row-In r qs (ground arith))
]

-- What binding, stepping, clearing and resetting leave alone is kept.
calls-IsKept :
    {X : Type 0} (g : Memory → X) (t : Table)
    → ((v : Value ℕ) (d : Memory) → g (bound_to t v d) ≡ g d)
    → ((d : Memory) → g (stepped t d) ≡ g d)
    → ((d : Memory) → g (record d { bound = change d.bound t [] }) ≡ g d)
    → ((d : Memory) → g (was_reset t d) ≡ g d)
    → IsKept memory g t
calls-IsKept g t binding stepping clearing resetting = record {
  binds = λ i v d ok. ap (λ p. g p.1) (bind1-memory t i v d) ∙ bind_at-kept (d.stages t) v d;
  steps = λ d ok. elim (Bool-cases (refused t (d.stored t) (d.bound t))) [
    | inl e ↦ rw e refl
    | inr e ↦ rw e (stepping d)
  ];
  clears = λ d ok. clearing d;
  resets = λ d ok. resetting d;
}
  where
    bind_at-kept : (s : Stage) (v : Value ℕ) (d : Memory) → g (bind_at s t v d).1 ≡ g d
    bind_at-kept at_start v d = binding v d
    bind_at-kept at_end v d = refl
    bind_at-kept elsewhere v d = refl

stored-IsKept : (t u : Table) → t ≢ u → IsKept memory (λ d. d.stored u) t
stored-IsKept t u ne =
    calls-IsKept (λ d. d.stored u) t (λ v d. refl) (λ d. change-other d.stored t u _ ne) (λ d. refl)
      (λ d. refl)

bound-IsKept : (t u : Table) → t ≢ u → IsKept memory (λ d. d.bound u) t
bound-IsKept t u ne =
    calls-IsKept (λ d. d.bound u) t (λ v d. change-other d.bound t u _ ne) (λ d. refl)
      (λ d. change-other d.bound t u _ ne) (λ d. refl)

stages-IsKept : (t u : Table) → t ≢ u → IsKept memory (λ d. d.stages u) t
stages-IsKept t u ne =
    calls-IsKept (λ d. d.stages u) t (λ v d. refl) (λ d. change-other d.stages t u _ ne) (λ d. refl)
      (λ d. change-other d.stages t u _ ne)

-- A table's statement is the table.
abbrev tables_insert : (t : Table) → IsInsert memory (stmt_of statements t) (width t)
tables_insert removed_table = memory_insert removed_table
tables_insert new_file_table = memory_insert new_file_table
tables_insert content_changed_table = memory_insert content_changed_table
tables_insert overwritten_by_table = memory_insert overwritten_by_table
tables_insert copied_from_table = memory_insert copied_from_table
tables_insert rename_to_table = memory_insert rename_to_table

IsSame : Table → Type 1
IsSame t =
    (IsInsert.rows (tables_insert t) ≡ (λ (d : Memory). d.stored t))
    × (IsInsert.bound (tables_insert t) ≡ (λ (d : Memory). d.bound t))
    × (IsInsert.Accepts (tables_insert t) ≡ (λ before row. refused t before row ≡ false))
    × (IsInsert.stage (tables_insert t) ≡ (λ (d : Memory). d.stages t))
    × (IsInsert.has_table (tables_insert t) ≡ (λ (d : Memory). true))

same : (t : Table) → IsSame t
unfolding IsSame memory_insert
same removed_table = (refl, refl, refl, refl, refl)
same new_file_table = (refl, refl, refl, refl, refl)
same content_changed_table = (refl, refl, refl, refl, refl)
same overwritten_by_table = (refl, refl, refl, refl, refl)
same copied_from_table = (refl, refl, refl, refl, refl)
same rename_to_table = (refl, refl, refl, refl, refl)

new_row :
    (t : Table) (before : List (List (Value ℕ))) (row : List (Value ℕ))
    → ¬ In row before
    → refused t before row ≡ false
new_row t before row n = elim (Bool-cases (has_row row before)) [
  | inl e ↦ absurd (n (has_row-In row before e))
  | inr e ↦ ground arith
]

pub memory_tables : Tables memory statements
unfolding IsSame
memory_tables = record {
  insert = tables_insert;
  rows_kept = λ t u ne.
      subst (λ f. IsKept memory f (stmt_of statements t)) (sym (same u).0)
        (subst (IsKept memory (λ d. d.stored u)) (sym (stmt_of-statements t))
          (stored-IsKept t u ne));
  bound_kept = λ t u ne.
      subst (λ f. IsKept memory f (stmt_of statements t)) (sym (same u).1)
        (subst (IsKept memory (λ d. d.bound u)) (sym (stmt_of-statements t)) (bound-IsKept t u ne));
  stage_kept = λ t u ne.
      subst (λ f. IsKept memory f (stmt_of statements t)) (sym (same u).3)
        (subst (IsKept memory (λ d. d.stages u)) (sym (stmt_of-statements t))
          (stages-IsKept t u ne));
  table_kept = λ t u ne.
      subst (λ f. IsKept memory f (stmt_of statements t)) (sym (same u).4)
        (calls-IsKept (λ d. true) (stmt_of statements t) (λ v d. refl) (λ d. refl) (λ d. refl)
          (λ d. refl));
  accepts_new =
      λ t before row n. subst (λ f. f before row) (sym (same t).2) (new_row t before row n);
  accepts_candidate = λ t before row w. subst (λ f. f before row) (sym (same t).2) (ground arith);
}

abbrev pub no_rows : Memory
no_rows = record { stored = λ t. []; bound = λ t. []; stages = λ t. at_start }

pub no_rows-AllReady : AllReady memory statements memory_tables no_rows
unfolding memory_tables IsSame
no_rows-AllReady t =
    (ap (λ f. f no_rows) (same t).1, ap (λ f. f no_rows) (same t).3, ap (λ f. f no_rows) (same t).4)

pub no_rows-empty : (t : Table) → rows_at memory statements memory_tables t no_rows ≡ []
unfolding memory_tables IsSame
no_rows-empty t = ap (λ f. f no_rows) (same t).0
