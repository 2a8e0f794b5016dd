-- ===== src/FileTree/Scattered.antt =====
-- What PrintScatteredDirectories prints. src/file_tree.cpp.
use dupa.Base.{
  some_inj, ℕ, zero, suc, ◌<◌, ◌≡◌, ◌↔◌, inl, inr, refl, sym, ap, ◌∙◌, subst, Bool, true, ◌&&◌,
  some, List, [], ◌∷◌, String, In, arith, Platform, Option-cases, Bool-cases,
}
use dupa.Conf.{GlobalConfig}
use dupa.Scanner.FilePaths.{Paths}
use dupa.FileTree.Store.{Heap, is_dir, is_single, is_evaluated}
use dupa.FileTree.Invariant.{Returns, Returns-some, Returns-bind, IsTree}
use dupa.FileTree.Walk.{traverse}
use dupa.FileTree.Traversal.{Rooted, traverse-In}
use dupa.FileTree.Printing.{
  build_path, build_paths, is_scattered, scattered_dirs, print_scattered_directories,
}

module _ (ps : Paths) {D : Type 0} where
  open ps use {FilePath, native, of_native, join}

  -- Each node of a tree has a path.
  pub build_path-some :
      (fuel : ℕ) (h : Heap D) (n : ℕ)
      → IsTree h
      → n < fuel
      → (p : FilePath) × (build_path ps fuel h n ≡ some p)
  unfolding build_path
  build_path-some zero h n t lt = absurd (omega (arith, lt))
  build_path-some (suc fuel) h n t lt = elim (Option-cases (h.node n).parent) [
    | inl top ↦ (of_native (h.node n).name, rw (top, build_path) refl)
    | inr (p, up) ↦
        let (d, below) =
          build_path-some fuel h p t (omega (arith, lt, (t.below p n (t.above p n up)).0)) in
        (join d (of_native (h.node n).name), rw (up, build_path) (rw below refl))
  ]

  -- A line is the path of one of the nodes.
  abbrev pub LineOf : Heap D → ℕ → String → Type 0
  LineOf h n line = (p : FilePath) × (build_path ps h.num_nodes h n ≡ some p) × (line ≡ native p)

  pub build_paths-In :
      (h : Heap D) (ns : List ℕ)
      → IsTree h
      → ((n : ℕ) → In n ns → n < h.num_nodes)
      → Returns
          (build_paths ps h ns)
          (λ lines. (line : String) → In line lines ↔ ((n : ℕ) × In n ns × LineOf h n line))
  unfolding build_paths
  build_paths-In h [] t b = λ line. (λ m. absurd m, λ z. z.1)
  build_paths-In h (n ∷ ns) t b =
      let (p, path) = build_path-some h.num_nodes h n t (b n (inl refl)) in
      let (rest, d, k) =
        Returns-some (build_paths ps h ns) _ (build_paths-In h ns t (λ x m. b x (inr m))) in
      Returns-bind _ _ path (
        Returns-bind _ _ d (λ line. (
          λ m. elim m [
            | inl same ↦ (n, inl refl, (p, path, same))
            | inr i ↦ let (x, j, z) = (k line).0 i in (x, inr j, z)
          ],
          λ z.
              let (x, j, (q, found, same)) = z in
              elim j [
                | inl e ↦
                    let found' = subst (λ y. build_path ps h.num_nodes h y ≡ some q) e found in
                    inl (same ∙ ap native (some_inj (sym found' ∙ path)))
                | inr i ↦ inr ((k line).1 (x, i, (q, found, same)))
              ],
        )))

module _ (ps : Paths) (pl : Platform) (conf : GlobalConfig)
    (sort : (ℕ → ℕ → Bool) → List ℕ → List ℕ) (text_before : String → String → Bool) where
  open pl use {Double, of_ℕ, mul, lt}

  -- A directory with few unique files below it and no duplicate.
  abbrev pub Scattered : Heap Double → ℕ → Type 0
  Scattered h n =
      (is_dir (h.node n).type ≡ true)
      × (lt (mul (h.node n).unique_fraction (of_ℕ 100)) (of_ℕ conf.tolerable_diff_pct) ≡ true)
      × ((c : ℕ) × ((h.node n).eq_class ≡ some c) × (is_single (h.class_at c) ≡ true))

  -- The lines are the paths of these directories.
  abbrev pub ScatteredLines : Heap Double → List String → Type 0
  ScatteredLines h lines =
      (line : String)
      → In line lines ↔ ((n : ℕ) × (n < h.num_nodes) × Scattered h n × LineOf ps h n line)

  is_scattered_lem :
      (h : Heap Double) (n : ℕ)
      → is_evaluated (h.node n) ≡ true
      → Returns (is_scattered ps pl conf sort text_before h n) (λ b. (b ≡ true) ↔ Scattered h n)
  unfolding is_scattered
  is_scattered_lem h n evaluated =
      elim (Bool-cases (
        is_dir (h.node n).type
        && lt (mul (h.node n).unique_fraction (of_ℕ 100)) (of_ℕ conf.tolerable_diff_pct))) [
          | inr out ↦
              rw out (λ e. absurd (ground arith), λ z. absurd (let (a, b, _) = z in ground arith))
          | inl few ↦ elim (Option-cases (h.node n).eq_class) [
            | inl open' ↦ absurd (ground (arith, evaluated, open'))
            | inr (c, q) ↦
                rw (few, q)
                  (
                    (λ e. (ground arith, ground arith, (c, refl, e))),
                    (λ z.
                        let (_, _, (d, same, alone)) = z in
                        subst (λ x. is_single (h.class_at x) ≡ true) (ground arith) alone),
                  )
          ]
        ]

  scattered_dirs-In :
      (h : Heap Double) (ns : List ℕ)
      → ((n : ℕ) → In n ns → is_evaluated (h.node n) ≡ true)
      → Returns
          (scattered_dirs ps pl conf sort text_before h ns)
          (λ dirs. (n : ℕ) → In n dirs ↔ (In n ns × Scattered h n))
  unfolding scattered_dirs
  scattered_dirs-In h [] all = λ n. (λ m. absurd m, λ z. z.0)
  scattered_dirs-In h (n ∷ ns) all =
      let (here, d, test) =
        Returns-some (is_scattered ps pl conf sort text_before h n) _
          (is_scattered_lem h n (all n (inl refl))) in
      let (rest, e, k) =
        Returns-some (scattered_dirs ps pl conf sort text_before h ns) _
          (scattered_dirs-In h ns (λ x m. all x (inr m))) in
      Returns-bind _ _ d (
        Returns-bind _ _ e (elim (Bool-cases here) [
          | inl now ↦ rw now (λ x. (
            λ m. elim m [
              | inl same ↦ (inl same, subst (Scattered h) (sym same) (test.0 now))
              | inr i ↦ let (j, z) = (k x).0 i in (inr j, z)
            ],
            λ z. elim z.0 [ inl same ↦ inl same | inr j ↦ inr ((k x).1 (j, z.1)) ],
          ))
          | inr skipped ↦ rw skipped (λ x. (
            λ m. let (j, z) = (k x).0 m in (inr j, z),
            λ z. elim z.0 [
              | inl same ↦ absurd (ground (arith, skipped, test.1 (subst (Scattered h) same z.1)))
              | inr j ↦ (k x).1 (j, z.1)
            ],
          ))
        ]))

  -- On a tree all of whose nodes have a class, PrintScatteredDirectories follows no null pointer, and
  -- prints exactly the paths of the directories whose class has no other node and of whose content less
  -- than the tolerable difference is unique.
  pub print_scattered_directories-Scattered :
      (h : Heap Double) (root : ℕ)
      → ((before : ℕ → ℕ → Bool) (n : ℕ) (ns : List ℕ) → In n (sort before ns) ↔ In n ns)
      → IsTree h
      → Rooted h root
      → ((x : ℕ) → x < h.num_nodes → is_evaluated (h.node x) ≡ true)
      → Returns (print_scattered_directories ps pl conf sort text_before h root) (ScatteredLines h)
  unfolding print_scattered_directories
  print_scattered_directories-Scattered h root sorted t r evaluated =
      let visited = traverse h h.num_nodes root in
      let (dirs, d, k) =
        Returns-some (scattered_dirs ps pl conf sort text_before h visited) _
          (scattered_dirs-In h visited (λ n m. evaluated n ((traverse-In h t root n r).0 m))) in
      let before : ℕ → ℕ → Bool = λ a b. lt (h.node b).unique_fraction (h.node a).unique_fraction in
      let (lines, e, w) = Returns-some (build_paths ps h (sort before dirs)) _ (
        build_paths-In ps h (sort before dirs) t
          (λ n m. (traverse-In h t root n r).0 ((k n).0 ((sorted before n dirs).0 m)).0)) in
      Returns-bind _ _ d (
        subst (λ m. Returns m (ScatteredLines h)) (sym e)
          (λ line. (
            λ m.
                let (n, i, l) = (w line).0 m in
                let (j, z) = (k n).0 ((sorted before n dirs).0 i) in
                (n, (traverse-In h t root n r).0 j, z, l),
            λ q.
                let (n, lt', z, l) = q in
                (w line).1
                  (n, (sorted before n dirs).1 ((k n).1 ((traverse-In h t root n r).1 lt', z)), l),
          )))
