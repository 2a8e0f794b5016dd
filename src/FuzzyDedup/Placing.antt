-- ===== src/FuzzyDedup/Placing.antt =====
-- The nodes of the files and directories of a walk. src/fuzzy_dedup.cpp.
use dupa.Base.{ℕ, ◌<◌, ◌≡◌, ◌≢◌, sym, ◌∙◌, subst, String, some, arith}
use dupa.FileTree.Store.{NodeType, dir, Heap}
use dupa.FileTree.Growth.{Attached}
use dupa.Scanner.FilePaths.{Paths}
use dupa.Scanner.Walk.{FileSystem}
use dupa.Scanner.Walk.Visit.{Descends}
use dupa.Scanner.Walk.Invariant.{Entry}

module _ (ps : Paths) (fs : FileSystem ps) {D : Type 0} where
  open ps use {FilePath, native, filename}

  -- Node n, below p, has the name of the entry.
  abbrev pub IsNode : Heap D → FilePath → ℕ → NodeType → ℕ → ℕ → Type 0
  IsNode h e p type size n =
      (n < h.num_nodes)
      × ((h.node n).type ≡ type)
      × ((h.node n).size ≡ size)
      × ((h.node n).name ≡ native (filename (filename e)))
      × ((h.node n).parent ≡ some p)

  -- The node of a directory: that of the root, or one below the node of the directory that it is in.
  pub data Placed (root : FilePath) (h : Heap D) : FilePath → ℕ → Type 0 where
    top : (d : FilePath) (n : ℕ) → d ≡ root → n ≡ 0 → Placed root h d n
    nested :
        (d e : FilePath) (p n : ℕ)
        → Placed root h d p
        → Entry ps fs d e
        → Descends ps fs e
        → IsNode h e p dir 0 n
        → Placed root h e n

  module _ (p : ℕ) (type : NodeType) (name : String) (size : ℕ) (h h' : Heap D)
      (k : Attached p type name size h h') where
    pub Attached-IsNode :
        (e : FilePath) (q : ℕ) (t : NodeType) (z n : ℕ) → IsNode h e q t z n → IsNode h' e q t z n
    Attached-IsNode e q t z n (lt, ty, sz, na, up) =
        let ne : n ≢ h.num_nodes = λ same. omega (arith, lt, same) in
        (
          subst (λ m. n < m) (sym k.num_nodes) (omega (arith, lt)),
          k.same_type n ne ∙ ty,
          k.same_size n ne ∙ sz,
          k.same_name n ne ∙ na,
          k.same_parent n ne ∙ up,
        )

    pub Attached-Placed : (root d : FilePath) (n : ℕ) → Placed root h d n → Placed root h' d n
    Attached-Placed root d n (top _ _ at_root z) = top d n at_root z
    Attached-Placed root e n (nested d _ q _ above en de node) =
        nested d e q n (Attached-Placed root d q above) en de (Attached-IsNode e q dir 0 n node)

    pub new_IsNode :
        (e : FilePath) → name ≡ native (filename (filename e)) → IsNode h' e p type size h.num_nodes
    new_IsNode e same = (
      subst (λ m. h.num_nodes < m) (sym k.num_nodes) (omega arith),
      k.new_type,
      k.new_size,
      k.new_name ∙ same,
      k.new_parent,
    )
