-- ===== src/DbOutput/Dumps.antt =====
-- The dumps of a classified tree. src/db_output.cpp.
use dupa.Base.{
  ℕ, ◌<◌, ◌≡◌, refl, sym, subst, ◌∙◌, some_inj, ap, inl, inr, true, Option, none, some, List, [],
  ◌∷◌, map, length, if◌then◌else◌, String, In, arith, Option-cases,
}
use dupa.DbLib.Monad.{Outcome, returned, thrown, crashed, M, and_then, ◌>>=◌, ◌>>◌, pure, crash}
use dupa.DbLib.Interface.{int64, double, text, Sqlite}
use dupa.DbLib.{Row, exec, prepare_stmt, write, write_all, commit, leave, in_transaction}
use dupa.FileTree.Store.{NodeType, dir, file, Heap, is_dir, is_evaluated}
use dupa.FileTree.Invariant.{IsTree}
use dupa.FileTree.Walk.{traverse}
use dupa.FileTree.Traversal.{Rooted, traverse-In}
use dupa.FileTree.Printing.{build_path}
use dupa.FileTree.Scattered.{build_path-some}
use dupa.Scanner.FilePaths.{Paths}

abbrev results_sql : String
results_sql =
    "DROP TABLE IF EXISTS Node;DROP TABLE IF EXISTS EqClass;CREATE TABLE EqClass(id INT PRIMARY  KEY     NOT NULL,nodes           INT     NOT NULL,weight          DOUBLE  NOT NULL,interesting     BOOL    NOT NULL);CREATE TABLE Node(id INT PRIMARY  KEY     NOT NULL,name            TEXT    NOT NULL,path            TEXT    NOT NULL,type            CHAR(5) NOT NULL,cksum           INTEGER,unique_fraction DOUBLE  NOT NULL,eq_class        INT     NOT NULL,FOREIGN KEY(eq_class) REFERENCES EqClass(id)ON UPDATE RESTRICT ON DELETE RESTRICT);"

-- Two ways to go on that are the same.
and_then-same :
    {D A B : Type 0} {f g : A → M D B} (o : Outcome A × D)
    → ((a : A) (d : D) → f a d ≡ g a d)
    → and_then o f ≡ and_then o g
and_then-same (returned a, d) same = same a d
and_then-same (thrown code, d) same = refl
and_then-same (crashed, d) same = refl

-- The addresses of the store, as the numbers that reinterpret_cast gives.
module _ (ps : Paths) (sq : Sqlite) (node_address class_address : ℕ → ℕ) where
  open ps use {FilePath, native}
  open sq use {Db, Stmt, Double}

  -- CreateResultsDatabase
  unfoldable pub create_results_database : M Db (Unit {0})
  create_results_database = exec sq results_sql

  abbrev pub id_row : ℕ → Row sq
  id_row c = int64 (class_address c) ∷ []

  -- DumpInterestingEqClasses
  unfoldable pub dump_interesting_eq_classes : List ℕ → M Db (Unit {0})
  dump_interesting_eq_classes eq_classes = in_transaction sq (
      prepare_stmt sq "UPDATE EqClass SET interesting = 1 WHERE id == ?" >>= λ out.
      write_all sq out (map id_row eq_classes))

  abbrev pub class_row : Heap Double → ℕ → Row sq
  class_row h c =
      int64 (class_address c)
      ∷ int64 (length (h.class_at c).nodes)
      ∷ double (h.class_at c).weight
      ∷ []

  abbrev pub full_row : Heap Double → ℕ → FilePath → ℕ → Row sq
  full_row h n path c =
      int64 (node_address n)
      ∷ text (h.node n).name
      ∷ text (native path)
      ∷ text (if is_dir (h.node n).type then "DIR" else "FILE")
      ∷ double (h.node n).unique_fraction
      ∷ int64 (class_address c)
      ∷ []

  -- What the callback of Traverse writes; a node without a class is a null pointer.
  unfoldable pub node_row : Heap Double → ℕ → Option (Row sq)
  unfolding build_path
  node_row h n = elim (build_path ps h.num_nodes h n) [
    | none ↦ none
    | some path ↦ elim (h.node n).eq_class [ none ↦ none | some c ↦ some (full_row h n path c) ]
  ]

  unfoldable pub write_nodes : Stmt → Heap Double → List ℕ → M Db (Unit {0})
  unfolding node_row
  write_nodes out h [] = pure tt
  write_nodes out h (n ∷ ns) = elim (node_row h n) [
    | none ↦ crash
    | some row ↦ write sq out row >> write_nodes out h ns
  ]

  -- DumpFuzzyDedupRes
  unfoldable pub dump_fuzzy_dedup_res : Heap Double → ℕ → List ℕ → M Db (Unit {0})
  unfolding write_nodes
  dump_fuzzy_dedup_res h root eq_classes = in_transaction sq (
      prepare_stmt sq "INSERT INTO EqClass(id, nodes, weight, interesting) VALUES(?, ?, ?, 0)"
      >>= λ class_out.
          write_all sq class_out (map (class_row h) eq_classes)
          >> (prepare_stmt sq
                "INSERT INTO Node(id, name, path, type, unique_fraction, eq_class) VALUES(?, ?, ?, ?, ?, ?)"
              >>= λ node_out. write_nodes node_out h (traverse h h.num_nodes root)))

  -- A node of a tree that is classified has a row.
  node_row-some :
      (h : Heap Double) (n : ℕ)
      → IsTree h
      → n < h.num_nodes
      → is_evaluated (h.node n) ≡ true
      → (row : Row sq) × (node_row h n ≡ some row)
  unfolding node_row
  node_row-some h n t lt evaluated =
      let (p, path) = build_path-some ps h.num_nodes h n t lt in
      elim (Option-cases (h.node n).eq_class) [
        | inl open' ↦ absurd (ground (arith, evaluated, open'))
        | inr (c, q) ↦ (full_row h n p c, rw (path, q, node_row) refl)
      ]

  -- The specification of a node's row, column by column.
  abbrev type_name : NodeType → String
  type_name dir = "DIR"
  type_name file = "FILE"

  abbrev pub IsRowOf : Heap Double → ℕ → Row sq → Type 0
  IsRowOf h n row =
      (path : FilePath) × (c : ℕ) × (build_path ps h.num_nodes h n ≡ some path)
      × ((h.node n).eq_class ≡ some c)
      × (row
          ≡ int64 (node_address n)
            ∷ text (h.node n).name
            ∷ text (native path)
            ∷ text (type_name (h.node n).type)
            ∷ double (h.node n).unique_fraction
            ∷ int64 (class_address c)
            ∷ [])

  node_row-IsRowOf :
      (h : Heap Double) (n : ℕ) (row : Row sq) → node_row h n ≡ some row → IsRowOf h n row
  unfolding node_row
  node_row-IsRowOf h n row e = elim (Option-cases (build_path ps h.num_nodes h n)) [
    | inl d ↦ absurd (ground arith)
    | inr (path, d) ↦ elim (Option-cases (h.node n).eq_class) [
      | inl f ↦ absurd (ground arith)
      | inr (c, f) ↦
          let whole : some (full_row h n path c) ≡ some row = ground arith in
          (path, c, d, f, sym (some_inj whole) ∙ columns path c (h.node n).type refl)
    ]
  ]
    where
      columns :
          (path : FilePath) (c : ℕ) (t : NodeType)
          → (h.node n).type ≡ t
          → full_row h n path c
            ≡ int64 (node_address n)
              ∷ text (h.node n).name
              ∷ text (native path)
              ∷ text (type_name (h.node n).type)
              ∷ double (h.node n).unique_fraction
              ∷ int64 (class_address c)
              ∷ []
      columns path c dir e = rw e refl
      columns path c file e = rw e refl

  -- The specification of the classes' rows.
  abbrev pub class_rows : Heap Double → List ℕ → List (Row sq)
  class_rows h [] = []
  class_rows h (c ∷ cs) =
      (int64 (class_address c)
        ∷ int64 (length (h.class_at c).nodes)
        ∷ double (h.class_at c).weight
        ∷ [])
      ∷ class_rows h cs

  class_row-class_rows : (h : Heap Double) (cs : List ℕ) → map (class_row h) cs ≡ class_rows h cs
  class_row-class_rows h [] = refl
  class_row-class_rows h (c ∷ cs) = ap (λ rs. class_row h c ∷ rs) (class_row-class_rows h cs)

  -- The nodes' rows, in the order of the walk.
  abbrev Written : Heap Double → List ℕ → List (Row sq) → Type 0
  Written h [] [] = Unit
  Written h [] (r ∷ rs) = ⊥
  Written h (n ∷ ns) [] = ⊥
  Written h (n ∷ ns) (r ∷ rs) = (node_row h n ≡ some r) × Written h ns rs

  abbrev pub RowsOf : Heap Double → List ℕ → List (Row sq) → Type 0
  RowsOf h [] [] = Unit
  RowsOf h [] (r ∷ rs) = ⊥
  RowsOf h (n ∷ ns) [] = ⊥
  RowsOf h (n ∷ ns) (r ∷ rs) = IsRowOf h n r × RowsOf h ns rs

  Written-RowsOf :
      (h : Heap Double) (ns : List ℕ) (rows : List (Row sq)) → Written h ns rows → RowsOf h ns rows
  Written-RowsOf h [] [] k = tt
  Written-RowsOf h [] (r ∷ rs) k = k
  Written-RowsOf h (n ∷ ns) [] k = k
  Written-RowsOf h (n ∷ ns) (r ∷ rs) (e, k) = (node_row-IsRowOf h n r e, Written-RowsOf h ns rs k)

  node_rows :
      (h : Heap Double) (ns : List ℕ)
      → IsTree h
      → ((n : ℕ) → In n ns → (n < h.num_nodes) × (is_evaluated (h.node n) ≡ true))
      → (rows : List (Row sq)) × Written h ns rows
  node_rows h [] t all = ([], tt)
  node_rows h (n ∷ ns) t all =
      let (lt, evaluated) = all n (inl refl) in
      let (row, e) = node_row-some h n t lt evaluated in
      let (rows, k) = node_rows h ns t (λ m i. all m (inr i)) in (row ∷ rows, (e, k))

  -- Writing the nodes is writing their rows.
  write_nodes-Written :
      (out : Stmt) (h : Heap Double) (ns : List ℕ) (rows : List (Row sq))
      → Written h ns rows
      → (d : Db) → write_nodes out h ns d ≡ write_all sq out rows d
  unfolding write_nodes write_all
  write_nodes-Written out h [] [] k d = refl
  write_nodes-Written out h [] (r ∷ rows) k d = absurd k
  write_nodes-Written out h (n ∷ ns) [] k d = absurd k
  write_nodes-Written out h (n ∷ ns) (r ∷ rows) (e, k) d =
      rw (e, write_nodes)
        (and_then-same (write sq out r d) (λ _. write_nodes-Written out h ns rows k))

  -- The transaction that writes the rows of the classes and of the nodes.
  abbrev pub rows_written : List (Row sq) → List (Row sq) → M Db (Unit {0})
  rows_written class_rows node_rows = in_transaction sq (
      prepare_stmt sq "INSERT INTO EqClass(id, nodes, weight, interesting) VALUES(?, ?, ?, 0)"
      >>= λ class_out.
          write_all sq class_out class_rows
          >> (prepare_stmt sq
                "INSERT INTO Node(id, name, path, type, unique_fraction, eq_class) VALUES(?, ?, ?, ?, ?, ?)"
              >>= λ node_out. write_all sq node_out node_rows))

  -- For a tree all of whose nodes have a class, DumpFuzzyDedupRes follows no null pointer: it is one
  -- transaction that writes, for each class of the vector, its address, the number of its nodes and its
  -- weight, and then, for each node of the tree, in the order of Traverse, its address, its name,
  -- BuildPath's path, DIR or FILE after its type, its fraction and its class's address.
  pub dump_fuzzy_dedup_res-RowsOf :
      (h : Heap Double) (root : ℕ) (eq_classes : List ℕ)
      → IsTree h
      → Rooted h root
      → ((x : ℕ) → x < h.num_nodes → is_evaluated (h.node x) ≡ true)
      → (rows : List (Row sq)) × RowsOf h (traverse h h.num_nodes root) rows
        × ((d : Db)
            → dump_fuzzy_dedup_res h root eq_classes d
              ≡ rows_written (class_rows h eq_classes) rows d)
  unfolding dump_fuzzy_dedup_res in_transaction
  dump_fuzzy_dedup_res-RowsOf h root eq_classes t r all =
      let (rows, k) =
        node_rows h (traverse h h.num_nodes root) t
          (λ n m. let lt = (traverse-In h t root n r).0 m in (lt, all n lt)) in
      (
        rows,
        Written-RowsOf h (traverse h h.num_nodes root) rows k,
        λ d.
            subst (λ cs. dump_fuzzy_dedup_res h root eq_classes d ≡ rows_written cs rows d)
              (class_row-class_rows h eq_classes)
              (and_then-same (exec sq "BEGIN TRANSACTION" d) (λ _ d1.
                ap (λ o. leave sq (and_then o (λ _. commit sq >>= λ _. pure tt)))
                  (and_then-same
                    (prepare_stmt sq
                      "INSERT INTO EqClass(id, nodes, weight, interesting) VALUES(?, ?, ?, 0)" d1)
                    (λ class_out d2.
                      and_then-same (write_all sq class_out (map (class_row h) eq_classes) d2)
                        (λ _ d3.
                          and_then-same
                            (prepare_stmt sq
                              "INSERT INTO Node(id, name, path, type, unique_fraction, eq_class) VALUES(?, ?, ?, ?, ?, ?)"
                              d3)
                            (λ node_out.
                              write_nodes-Written node_out h (traverse h h.num_nodes root) rows
                                k)))))),
      )
