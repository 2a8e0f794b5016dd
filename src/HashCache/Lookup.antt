-- ===== src/HashCache/Lookup.antt =====
-- What HashCache returns for a file: the truth, as long as the caches hold it. src/hash_cache.cpp.
use dupa.Base.{
  ℕ, ◌≡◌, inl, inr, refl, sym, ap, ◌∙◌, subst, true, false, String, Option, none, some, List, [],
  ◌∷◌, ◌==◌, ◌&&◌, str_eq, eq_iff, arith, ◌>>=◌, Bool-cases, Option-cases,
}
use dupa.FileTree.Invariant.{Returns, Returns-bind}
use dupa.HashCache.{
  FileInfo, File, Sha, Caches, StatResult, find_path, assign, find_inode, insert_inode,
  get_inode_info, hash_file, compute_cksum, compute_info, is_current, lookup,
}

find_path-assign :
    (p : String) (i : FileInfo) (xs : List (String × FileInfo))
    → find_path p (assign p i xs) ≡ some i
find_path-assign p i [] = let e = (eq_iff p p).1 refl in rw e refl
find_path-assign p i (x ∷ xs) =
    let rest = find_path-assign p i xs in
    let e = (eq_iff p p).1 refl in
    elim (Bool-cases (str_eq x.0 p)) [ inl m ↦ rw (m, e) refl | inr m ↦ rw (m, m) rest ]

find_path-assign_other :
    (p q : String) (i : FileInfo) (xs : List (String × FileInfo))
    → str_eq p q ≡ false
    → find_path q (assign p i xs) ≡ find_path q xs
find_path-assign_other p q i [] d = rw d refl
find_path-assign_other p q i (x ∷ xs) d =
    let rest = find_path-assign_other p q i xs d in
    elim (Bool-cases (str_eq x.0 p)) [
      | inl m ↦ let same = (eq_iff x.0 p).0 m in rw (m, same, d) refl
      | inr m ↦ rw (m, rest) refl
    ]

module _ (sha : Sha) (disk : String → Option File) where
  -- Paths to one inode lead to the same bytes.
  abbrev pub SameInode : Type 0
  SameInode =
      (p q : String) (f g : File)
      → disk p ≡ some f
      → disk q ≡ some g
      → f.dev ≡ g.dev
      → f.ino ≡ g.ino
      → hash_file sha f ≡ hash_file sha g

  -- What is cached for a file on the disk, and is current, is its checksum.
  pub record Faithful (s : Caches) : Type 0 where
    pub paths :
        (p : String) (f : File) (i : FileInfo)
        → disk p ≡ some f
        → find_path p s.cache ≡ some i
        → i.size ≡ f.st_size
        → i.mtime ≡ f.st_mtime
        → hash_file sha f ≡ some i.sum
    pub inodes :
        (p : String) (f : File) (c : ℕ)
        → disk p ≡ some f
        → find_inode (f.dev, f.ino) s.ino_cache ≡ some c
        → hash_file sha f ≡ some c

  -- The size, the time and the checksum of a file.
  abbrev pub info : File → ℕ → FileInfo
  info f c = record { size = f.st_size; mtime = f.st_mtime; sum = c }

  abbrev stat_of : File → StatResult
  stat_of f = record { id = (f.dev, f.ino); size = f.st_size; mtime = f.st_mtime }

  module _ (p : String) (f : File) (c : ℕ) (s : Caches) (here : disk p ≡ some f)
      (good : hash_file sha f ≡ some c) (same : SameInode) (v : Faithful s) where
    Truth : FileInfo × Caches → Type 0
    Truth r = (r.0 ≡ info f c) × Faithful r.1

    assign-Faithful :
        (s' : Caches) → Faithful s' → Faithful (record s' { cache = assign p (info f c) s'.cache })
    assign-Faithful s' w = record {
      paths = λ q g i there e a b. elim (Bool-cases (str_eq p q)) [
        | inl m ↦
            let q_p : q ≡ p = sym ((eq_iff p q).0 m) in
            let found : some (info f c) ≡ some i =
              sym (find_path-assign p (info f c) s'.cache)
              ∙ subst (λ z. find_path z (assign p (info f c) s'.cache) ≡ some i) q_p e in
            sym (ap (λ o. o >>= hash_file sha) (sym here ∙ (ap disk (sym q_p) ∙ there)))
            ∙ (good ∙ ap (λ o. o >>= λ x. some x.sum) found)
        | inr m ↦
            w.paths q g i there (sym (find_path-assign_other p q (info f c) s'.cache m) ∙ e) a b
      ];
      inodes = w.inodes;
    }

    cons-Faithful : Faithful (record s { ino_cache = ((f.dev, f.ino), c) ∷ s.ino_cache })
    cons-Faithful = record {
      paths = v.paths;
      inodes = λ q g d there e. elim (Bool-cases ((f.dev == g.dev) && (f.ino == g.ino))) [
        | inl m ↦
            let first : some c ≡ some d = ground arith in
            sym (same p q f g here there (ground arith) (ground arith)) ∙ (good ∙ first)
        | inr m ↦ v.inodes q g d there (ground arith)
      ];
    }

    compute_cksum-new :
        find_inode (f.dev, f.ino) s.ino_cache ≡ none
        → compute_cksum sha f (f.dev, f.ino) s
          ≡ some (c, record s { ino_cache = ((f.dev, f.ino), c) ∷ s.ino_cache })
    unfolding compute_cksum insert_inode
    compute_cksum-new n = ground arith

    compute_cksum-known :
        find_inode (f.dev, f.ino) s.ino_cache ≡ some c
        → compute_cksum sha f (f.dev, f.ino) s ≡ some (c, s)
    unfolding compute_cksum
    compute_cksum-known e = ground arith

    compute_info-Truth : Returns (compute_info sha p f (stat_of f) s) Truth
    unfolding compute_info Truth
    compute_info-Truth = elim (Option-cases (find_inode (f.dev, f.ino) s.ino_cache)) [
      | inl n ↦ Returns-bind _ _ (compute_cksum-new n) (refl, assign-Faithful _ cons-Faithful)
      | inr (d, e) ↦
          let known : some d ≡ some c = sym (v.inodes p f d here e) ∙ good in
          Returns-bind _ _ (compute_cksum-known (e ∙ known)) (refl, assign-Faithful s v)
    ]

    current-Truth :
        (i : FileInfo)
        → find_path p s.cache ≡ some i
        → is_current sha (stat_of f) i ≡ true
        → Truth (i, s)
    unfolding is_current Truth
    current-Truth i e m =
        let size : i.size ≡ f.st_size = ground arith in
        let mtime : i.mtime ≡ f.st_mtime = ground arith in
        let sum : some c ≡ some i.sum = sym good ∙ v.paths p f i here e size mtime in
        let c_sum : c ≡ i.sum = ground arith in (ground arith, v)

    -- A call for a regular file that can be read, with caches that hold the truth about the disk,
    -- returns the file's size, time and checksum, whatever is cached, and leaves such caches, if
    -- paths to one inode lead to the same bytes.
    pub lookup-Faithful :
        f.fstat_ok ≡ true
        → f.is_reg ≡ true
        → Returns (lookup sha p (disk p) s) (λ r. (r.0 ≡ info f c) × Faithful r.1)
    unfolding lookup get_inode_info Truth
    lookup-Faithful ok reg =
        rw (here, ok, reg)
          (elim (Option-cases (find_path p s.cache)) [
            | inl n ↦ rw n compute_info-Truth
            | inr (i, e) ↦ elim (Bool-cases (is_current sha (stat_of f) i)) [
              | inl m ↦ rw (e, m) (current-Truth i e m)
              | inr m ↦ rw (e, m) compute_info-Truth
            ]
          ])
