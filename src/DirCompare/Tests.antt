-- ===== src/DirCompare/Tests.antt =====
-- Concrete comparisons: a container, the cases of dir_compare_test.cpp, and the theorems at an input.
use dupa.Base.{
  ℕ, true, false, String, Option, none, some, List, [], ◌∷◌, ◌≡◌, ◌↔◌, ◌⊎◌, refl, inl, inr, arith,
  In, Distinct, In-select, In-select_of, map, select, eq_iff, ◌==◌, ==_iff,
}
use dupa.Conf.{GlobalConfig}
use dupa.DirCompare.Index.{PathHash, path_of, find_in, MultiIndex}
use dupa.DirCompare.Streams.{printing_output_stream, show_paths}
use dupa.DirCompare.{get_paths_for_hash, still_there, first_body, second_body, dir_compare}
use dupa.DirCompare.Reports.{
  overwritten_by, rename_to, content_changed, new_file, recorder, reports, subject, Report,
}
use dupa.DirCompare.Verdict.{about}
use dupa.DirCompare.Exact.{Unreported, reports-Exact}
use dupa.DirCompare.Candidates.{Has}
use dupa.DirCompare.Meaning.{Explains, reports-Explains}
use dupa.DirCompare.Silence.{SameTrees, silent_addition-renamed, reports-eq-nil}
use dupa.DirCompare.Fanout.{both, dir_compare-both}
use dupa.DirCompare.Fill.{fill_path_hashes, entry, prefix_len}
use dupa.DirCompare.Filled.{insert_entries, HasPath, fill_path_hashes-HasPath}
use dupa.HashCache.{FileInfo}
use dupa.Scanner.Lists.{element_lists}
use dupa.Scanner.{extend, common_from, common_path_prefix, common_prefix_of}

-- Records with distinct paths, in any order.
abbrev pub Table : Type 0
Table = (xs : List PathHash) × Distinct (map path_of xs)

pub find_in-none : (p : String) (xs : List PathHash) → find_in p xs ≡ none → ¬ In p (map path_of xs)
find_in-none p [] e i = i
find_in-none p (x ∷ xs) e (inl q) = ground (arith, eq_iff x.path p)
find_in-none p (x ∷ xs) e (inr i) = find_in-none p xs (ground (arith, eq_iff x.path p)) i

pub add : (x : PathHash) (t : Table) (o : Option PathHash) → find_in x.path t.0 ≡ o → Table
add x t none e = (x ∷ t.0, (find_in-none x.path t.0 e, t.1))
add x t (some y) e = t

pub insert : PathHash → Table → Table
insert x t = add x t (find_in x.path t.0) refl

pub with_hash : ℕ → List PathHash → List PathHash
with_hash h = select (λ x. x.hash == h)

add-some :
    (x : PathHash) (t : Table) (o : Option PathHash) (e : find_in x.path t.0 ≡ o) (y : PathHash)
    → o ≡ some y
    → add x t o e ≡ t
unfolding add
add-some x t none e y d = absurd (ground arith)
add-some x t (some z) e y d = refl

add-none :
    (x : PathHash) (t : Table) (o : Option PathHash) (e : find_in x.path t.0 ≡ o)
    → o ≡ none
    → (y : PathHash) → In y (add x t o e).0 ↔ ((y ≡ x) ⊎ In y t.0)
unfolding add
add-none x t none e d y = (λ i. i, λ i. i)
add-none x t (some z) e d y = absurd (ground arith)

pub insert_old : (x y : PathHash) (t : Table) → find_in x.path t.0 ≡ some y → insert x t ≡ t
unfolding insert
insert_old x y t e = add-some x t _ refl y e

pub insert_new :
    (x : PathHash) (t : Table)
    → find_in x.path t.0 ≡ none
    → (y : PathHash) → In y (insert x t).0 ↔ ((y ≡ x) ⊎ In y t.0)
unfolding insert
insert_new x t e y = add-none x t _ refl e y

pub with_hash-In :
    (h : ℕ) (t : Table) (y : PathHash) → In y (with_hash h t.0) ↔ (In y t.0 × (y.hash ≡ h))
unfolding with_hash
with_hash-In h t y = (
  λ i. let (j, e) = In-select (λ x. x.hash == h) y t.0 i in (j, (==_iff y.hash h).0 e),
  λ i. In-select_of (λ x. x.hash == h) y t.0 i.0 ((==_iff y.hash h).1 i.1),
)

-- The interface can be met.
abbrev pub tables : MultiIndex
tables = record {
  PathHashes = Table;
  empty = ([], tt);
  insert = insert;
  by_path = λ t. t.0;
  find = λ p t. find_in p t.0;
  equal_range = λ h t. with_hash h t.0;
  by_path-empty = refl;
  by_path-Distinct = λ t. t.1;
  find-find_in = λ p t. refl;
  insert_old = insert_old;
  insert_new = insert_new;
  equal_range-In = with_hash-In;
}

abbrev pub conf : GlobalConfig
conf = record {
  read_cache_from = "";
  dump_cache_to = "";
  sql_out = "";
  dirs = [];
  concurrency = 4;
  tolerable_diff_pct = 20;
  verbose = false;
  cache_only = false;
  use_size = false;
  ignore_db_prefix = false;
  skip_renames = false;
}

abbrev file : String → ℕ → PathHash
file p h = record { path = p; hash = h }

-- `a` is overwritten by `b`'s content, `b` is gone, `c` changes, `n` is a copy of `a`'s content
-- under a new name and `d` is new.
abbrev pub before : Table
unfolding insert add
before = insert (file "a" 1) (insert (file "b" 2) (insert (file "c" 3) ([], tt)))

abbrev pub after : Table
unfolding insert add
after = insert (file "a" 2) (insert (file "c" 4) (insert (file "d" 5) ([], tt)))

program : Unit {0}
unfolding insert add with_hash get_paths_for_hash still_there first_body second_body dir_compare
    reports
program = tt

comparison_result :
    reports tables conf before after
    ≡ overwritten_by "a" ("b" ∷ [])
      ∷ rename_to "b" ("a" ∷ [])
      ∷ content_changed "c"
      ∷ new_file "d"
      ∷ []
unfolding program
comparison_result = refl

-- `b` moved to `x`.
abbrev moved : Table
unfolding insert add
moved = insert (file "x" 2) ([], tt)

abbrev old_place : Table
unfolding insert add
old_place = insert (file "b" 2) ([], tt)

-- With renames skipped nothing is said of a move, though the trees differ.
skipped_rename : reports tables (record conf { skip_renames = true }) old_place moved ≡ []
unfolding program
skipped_rename = refl

reports-Exact_example :
    ((select (about "a") (reports tables conf before after) ≡ [])
      × Unreported tables conf before after "a")
    ⊎ ((r : Report) × (select (about "a") (reports tables conf before after) ≡ r ∷ [])
        × (subject r ≡ "a")
        × Explains tables conf before after r
        × (¬ Unreported tables conf before after "a"))
reports-Exact_example = reports-Exact tables conf before after "a"

reports-Explains_example : Explains tables conf before after (content_changed "c")
unfolding program
reports-Explains_example =
    reports-Explains tables conf before after (content_changed "c") (inr (inr (inl refl)))

silent_addition-renamed_example :
    (q : String) × (cs : List String) × In (rename_to q cs) (reports tables conf old_place moved)
    × In "x" cs
    × Has tables old_place q 2
unfolding program
silent_addition-renamed_example =
    silent_addition-renamed tables conf old_place moved "x" 2 refl refl refl refl

reports-eq-nil_example :
    (reports tables conf before after ≡ []) ↔ SameTrees tables conf before after
reports-eq-nil_example = reports-eq-nil tables conf before after refl

dir_compare-both_example :
    dir_compare tables conf (both printing_output_stream recorder) before after ("", []) ≡ (
      dir_compare tables conf printing_output_stream before after "",
      dir_compare tables conf recorder before after [],
    )
dir_compare-both_example =
    dir_compare-both printing_output_stream recorder tables conf before after "" []

printed_lines : Unit {0}
unfolding program printing_output_stream show_paths
printed_lines = tt

printed_move :
    dir_compare tables conf printing_output_stream old_place moved ""
    ≡ "RENAME_TO: b CANDIDATES: [x]\n"
unfolding printed_lines
printed_move = refl

abbrev tree_db : List (String × FileInfo)
tree_db =
    ("/t/s/b", record { size = 5; mtime = 1; sum = 7 })
    ∷ ("/t/a", record { size = 6; mtime = 1; sum = 8 })
    ∷ ("/t/s/c", record { size = 6; mtime = 1; sum = 8 })
    ∷ []

-- The paths begin below /t.
filled_tree :
    map path_of
      (insert_entries element_lists tables
        (prefix_len element_lists tables tree_db)
        tree_db
        ([], tt)).0
    ≡ "s/c" ∷ "a" ∷ "s/b" ∷ []
unfolding insert add prefix_len common_prefix_of common_path_prefix common_from extend
filled_tree = refl

fill_path_hashes-HasPath_example :
    (hashes : Table) × (fill_path_hashes element_lists tables tree_db ≡ some hashes)
    × ((r : PathHash)
        → In r hashes.0
        → (x : String × FileInfo) × In x tree_db
          × (r ≡ entry element_lists tables (prefix_len element_lists tables tree_db) x))
    × ((x : String × FileInfo)
        → In x tree_db
        → HasPath element_lists tables
            (PathHash.path (entry element_lists tables (prefix_len element_lists tables tree_db) x))
            hashes)
fill_path_hashes-HasPath_example = fill_path_hashes-HasPath element_lists tables tree_db (λ x i. tt)
