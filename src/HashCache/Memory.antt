-- ===== src/HashCache/Memory.antt =====
-- A table FileList in memory that fulfils what is supposed of SQLite.
use dupa.Base.{
  Bool, ℕ, zero, suc, ◌+◌, ◌≡◌, inl, inr, refl, ap, ◌∙◌, true, false, String, Option, none, some,
  List, [], ◌∷◌, ◌++◌, length, if◌then◌else◌, str_eq, In,
}
use dupa.DbLib.Interface.{
  Value, text, int64, double, sqlite_ok, sqlite_misuse, sqlite_row, sqlite_done, Sqlite,
}
use dupa.DbLib.{bind1, unpack_impl}
use dupa.DbLib.Reading.{Yields, last, next, finished}
use dupa.DbLib.Writing.{IsInsert, Stage, at_start, at_end, elsewhere, Mode, at_rest, begun, busy}
use dupa.HashCache.{FileInfo}
use dupa.HashCache.Table.{create_sql, insert_sql, columns, info_row}
use dupa.HashCache.Stored.{FileList}

pub data Statement : Type 0 where
  insertion selection : Statement

pub record Memory : Type 0 where
  pub table : List (List (Value ℕ))
  pub bound : List (Value ℕ)
  pub cursor : List (List (Value ℕ))
  pub current : List (Value ℕ)
  pub stage : Stage
  pub mode : Mode
  pub has_table : Bool

abbrev pub nth : List (Value ℕ) → ℕ → Option (Value ℕ)
nth [] i = none
nth (v ∷ vs) zero = some v
nth (v ∷ vs) (suc i) = nth vs i

abbrev pub as_int64 : Option (Value ℕ) → ℕ
as_int64 (some (int64 n)) = n
as_int64 _ = 0

abbrev pub as_text : Option (Value ℕ) → String
as_text (some (text t)) = t
as_text _ = ""

abbrev pub run_step : Option Statement → Memory → ℕ × Memory
run_step none d = (sqlite_misuse, d)
run_step (some insertion) d =
    (sqlite_done, record d { table = d.table ++ d.bound ∷ []; stage = at_end })
run_step (some selection) d = elim d.cursor [
  | [] ↦ (sqlite_done, d)
  | r ∷ rs ↦ (sqlite_row, record d { current = r; cursor = rs })
]

-- A statement that has not been reset takes no value.
abbrev pub bind_at : Stage → Value ℕ → Memory → ℕ × Memory
bind_at at_start v d = (sqlite_ok, record d { bound = d.bound ++ v ∷ [] })
bind_at at_end v d = (sqlite_misuse, d)
bind_at elsewhere v d = (sqlite_misuse, d)

abbrev pub bind_value : Value ℕ → Memory → ℕ × Memory
bind_value v d = bind_at d.stage v d

-- No transaction begins within another one, and none ends that has not begun.
abbrev begin_at : Mode → Memory → ℕ × Memory
begin_at at_rest d = (sqlite_ok, record d { mode = begun })
begin_at begun d = (1, d)
begin_at busy d = (1, d)

abbrev commit_at : Mode → Memory → ℕ × Memory
commit_at at_rest d = (1, d)
commit_at begun d = (sqlite_ok, record d { mode = at_rest })
commit_at busy d = (1, d)

abbrev pub run_exec : String → Memory → ℕ × Memory
run_exec sql d =
    if str_eq sql create_sql
    then (sqlite_ok, record d { table = []; has_table = true })
    else if str_eq sql "BEGIN TRANSACTION"
    then begin_at d.mode d
    else commit_at d.mode d

abbrev pub run_prepare : String → Memory → (ℕ × Statement) × Memory
run_prepare sql d =
    if d.has_table
    then if str_eq sql insert_sql
      then ((sqlite_ok, insertion), record d { bound = []; stage = at_start })
      else ((sqlite_ok, selection), record d { cursor = d.table })
    else ((1, selection), d)

abbrev pub no_table : Memory
no_table = record {
  table = [];
  bound = [];
  cursor = [];
  current = [];
  stage = at_start;
  mode = at_rest;
  has_table = false;
}

abbrev pub memory : Sqlite
memory = record {
  Db = Memory;
  Stmt = Statement;
  Double = ℕ;
  open_v2 = λ path flags. (sqlite_ok, no_table);
  errcode = λ d. 0;
  exec = run_exec;
  prepare = run_prepare;
  bind_int64 = λ s i n. bind_value (int64 n);
  bind_double = λ s i x. bind_value (double x);
  bind_text = λ s i t. bind_value (text t);
  step = run_step;
  clear_bindings = λ s d. (sqlite_ok, record d { bound = [] });
  reset = λ s d. (sqlite_ok, record d { stage = at_start });
  column_int64 = λ s i d. (as_int64 (nth d.current i), d);
  column_double = λ s i d. (0, d);
  column_text = λ s i d. (as_text (nth d.current i), d);
  step-none = λ d. refl;
}

pub bind1-memory :
    (i : ℕ) (v : Value ℕ) (d : Memory) → bind1 memory insertion i v d ≡ bind_value v d
bind1-memory i (int64 n) d = refl
bind1-memory i (double x) d = refl
bind1-memory i (text t) d = refl

unfoldable pub memory_insert : IsInsert memory insertion 4
memory_insert = record {
  bound = λ d. d.bound;
  rows = λ d. d.table;
  stage = λ d. d.stage;
  has_table = λ d. d.has_table;
  mode = λ d. d.mode;
  Accepts = λ rows r. Unit;
  binds = λ d v g b. (
    _,
    bind1-memory (length d.bound + 1) v d ∙ ap (λ s. bind_at s v d) g,
    refl,
    refl,
    g,
    refl,
    refl,
  );
  inserts = λ d g h b a. (_, refl, refl, refl, refl, refl);
  clears = λ d. (_, refl, refl, refl, refl, refl, refl);
  resets = λ d g. (_, refl, refl, refl, refl, refl, refl);
}

memory-Yields :
    (rs : List (List (Value ℕ))) (d : Memory)
    → d.cursor ≡ rs
    → ((r : List (Value ℕ)) → In r rs → (x : String × FileInfo) × (r ≡ info_row x))
    → (d' : Memory) × Yields memory columns selection d rs finished d'
unfolding unpack_impl
memory-Yields [] d e typed = (d, last (rw e refl))
memory-Yields (r ∷ rs) d e typed =
    let d1 : Memory = record d { current = r; cursor = rs } in
    let (x, f) = typed r (inl refl) in
    let (d', y) = memory-Yields rs d1 refl (λ q i. typed q (inr i)) in
    (d', next {d1 = d1} {d2 = d1} (rw e refl) (rw f refl) y)

pub memory-FileList : FileList memory
unfolding memory_insert
memory-FileList = record {
  content = λ d. d.table;
  creates = λ d m. (_, refl, refl, m, refl);
  begins = λ d m. (_, ap (λ x. begin_at x d) m, refl, refl, refl);
  commits = λ d m g. (_, ap (λ x. commit_at x d) m, refl, refl, refl);
  insert_stmt = insertion;
  insert = memory_insert;
  insert-rows = λ d. refl;
  prepares =
      λ d h. (record d { bound = []; stage = at_start }, rw h refl, refl, (refl, refl, h), refl);
  accepts = λ rows r p e apart. tt;
  select_stmt = selection;
  selects = λ d m h typed.
      let d1 : Memory = record d { cursor = d.table } in
      let (d', y) = memory-Yields d.table d1 refl typed in
      (d1, d', d.table, rw h refl, y, λ r. ((λ i. i), (λ i. i)));
}

pub no_table-at_rest : memory-FileList.insert.mode no_table ≡ at_rest
unfolding memory_insert memory-FileList
no_table-at_rest = refl
