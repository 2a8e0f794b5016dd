-- ===== src/FileTree/Printing.antt =====
-- BuildPath and what is printed of a classified tree. src/file_tree.cpp.
use dupa.Base.{
  ℕ, zero, suc, Bool, false, ◌&&◌, Option, none, some, List, [], ◌∷◌, if◌then◌else◌, String, ◌>>=◌,
  Platform,
}
use Prim.Native.String
use dupa.Conf.{GlobalConfig}
use dupa.Scanner.FilePaths.{Paths}
use dupa.FileTree.Store.{Heap, is_dir, is_single}
use dupa.FileTree.Walk.{traverse}

module _ (ps : Paths) {D : Type 0} where
  open ps use {FilePath, of_native, native, join}

  -- BuildPath; the fuel bounds the depth.
  unfoldable pub build_path : ℕ → Heap D → ℕ → Option FilePath
  build_path zero h n = none
  build_path (suc fuel) h n = elim (h.node n).parent [
    | none ↦ some (of_native (h.node n).name)
    | some p ↦ do d ← build_path fuel h p; some (join d (of_native (h.node n).name))
  ]

  -- The paths of some nodes, as texts.
  unfoldable pub build_paths : Heap D → List ℕ → Option (List String)
  unfolding build_path
  build_paths h [] = some []
  build_paths h (n ∷ ns) = do
    p ← build_path h.num_nodes h n
    rest ← build_paths h ns
    some (native p ∷ rest)

-- The paths of a class, with blanks between them.
abbrev pub blanks_between : List String → String
blanks_between [] = ""
blanks_between (p ∷ []) = p
blanks_between (p ∷ q ∷ ps) = String.◌++◌ p (String.◌++◌ " " (blanks_between (q ∷ ps)))

module _ (ps : Paths) (pl : Platform) (conf : GlobalConfig)
    (sort : (ℕ → ℕ → Bool) → List ℕ → List ℕ) (text_before : String → String → Bool) where
  open ps use {native}
  open pl use {Double, of_ℕ, mul, lt}

  -- The comparison of two nodes by their paths.
  unfoldable pub path_before : Heap Double → ℕ → ℕ → Bool
  unfolding build_path
  path_before h a b = elim (build_path ps h.num_nodes h a) [
    | none ↦ false
    | some p ↦ elim (build_path ps h.num_nodes h b) [
      | none ↦ false
      | some q ↦ text_before (native p) (native q)
    ]
  ]

  -- The lines of PrintEqClassses after the first.
  unfoldable pub print_eq_classes : Heap Double → List ℕ → Option (List String)
  unfolding build_paths path_before
  print_eq_classes h [] = some []
  print_eq_classes h (c ∷ cs) = do
    paths ← build_paths ps h (sort (path_before h) (h.class_at c).nodes)
    rest ← print_eq_classes h cs
    some (blanks_between paths ∷ rest)

  -- The test of PrintScatteredDirectories; a node without a class is a null pointer.
  unfoldable pub is_scattered : Heap Double → ℕ → Option Bool
  is_scattered h n =
      if is_dir (h.node n).type
        && lt (mul (h.node n).unique_fraction (of_ℕ 100)) (of_ℕ conf.tolerable_diff_pct)
      then (do c ← (h.node n).eq_class; some (is_single (h.class_at c)))
      else some false

  -- The callback of PrintScatteredDirectories on the nodes that Traverse visits.
  unfoldable pub scattered_dirs : Heap Double → List ℕ → Option (List ℕ)
  unfolding is_scattered
  scattered_dirs h [] = some []
  scattered_dirs h (n ∷ ns) = do
    here ← is_scattered h n
    rest ← scattered_dirs h ns
    some (if here then n ∷ rest else rest)

  -- The lines of PrintScatteredDirectories after the first.
  unfoldable pub print_scattered_directories : Heap Double → ℕ → Option (List String)
  unfolding build_paths scattered_dirs
  print_scattered_directories h root = do
    dirs ← scattered_dirs h (traverse h h.num_nodes root)
    build_paths ps h (sort (λ a b. lt (h.node b).unique_fraction (h.node a).unique_fraction) dirs)
