-- ===== src/DirCompare/Index.antt =====
-- src/dir_compare.cpp: the records of one tree's files, and the boost::multi_index container that
-- holds them, as a parameter.
use dupa.Base.{
  ℕ, String, Option, none, some, List, [], ◌∷◌, ◌≡◌, ◌↔◌, ◌⊎◌, inl, inr, str_eq, eq_iff,
  if◌then◌else◌, In, Distinct, map, In-map_of, sym, ◌∙◌, arith,
}

-- A file's path, relative to its tree's root, and its checksum.
pub record PathHash : Type 0 where
  pub path : String
  pub hash : ℕ

abbrev pub path_of : PathHash → String
path_of x = x.path

abbrev pub hash_of : Option PathHash → Option ℕ
hash_of none = none
hash_of (some x) = some x.hash

-- The first record with a path, in a list of records.
abbrev pub find_in : String → List PathHash → Option PathHash
find_in p [] = none
find_in p (x ∷ xs) = if str_eq x.path p then some x else find_in p xs

find_in-In :
    (p : String) (xs : List PathHash) (x : PathHash)
    → find_in p xs ≡ some x
    → In x xs × (x.path ≡ p)
find_in-In p [] x e = cc
find_in-In p (y ∷ ys) x e = ground (arith, find_in-In p ys x, eq_iff y.path p)

In-find_in :
    (x : PathHash) (xs : List PathHash)
    → Distinct (map path_of xs)
    → In x xs
    → find_in x.path xs ≡ some x
In-find_in x [] d i = absurd i
In-find_in x (y ∷ ys) d (inl e) = ground (arith, eq_iff y.path x.path)
In-find_in x (y ∷ ys) d (inr i) =
    let i' : In x.path (map path_of ys) = In-map_of path_of x ys i in
    ground (arith, eq_iff y.path x.path, In-find_in x ys d.1 i)

-- The container: a unique ordered index by path and a non-unique ordered index by hash, with what
-- the Boost documentation says of `insert`, `find`, `equal_range` and the iteration by path.
pub record MultiIndex : Type 1 where
  pub PathHashes : Type 0
  pub empty : PathHashes
  pub insert : PathHash → PathHashes → PathHashes
  -- begin() to end() of the index by path
  pub by_path : PathHashes → List PathHash
  -- find(path) in the index by path
  pub find : String → PathHashes → Option PathHash
  -- equal_range(hash) in the index by hash
  pub equal_range : ℕ → PathHashes → List PathHash
  pub by_path-empty : by_path empty ≡ []
  pub by_path-Distinct : (c : PathHashes) → Distinct (map path_of (by_path c))
  pub find-find_in : (p : String) (c : PathHashes) → find p c ≡ find_in p (by_path c)
  pub insert_old : (x y : PathHash) (c : PathHashes) → find x.path c ≡ some y → insert x c ≡ c
  pub insert_new :
      (x : PathHash) (c : PathHashes)
      → find x.path c ≡ none
      → (y : PathHash) → In y (by_path (insert x c)) ↔ ((y ≡ x) ⊎ In y (by_path c))
  pub equal_range-In :
      (h : ℕ) (c : PathHashes) (y : PathHash)
      → In y (equal_range h c) ↔ (In y (by_path c) × (y.hash ≡ h))

module _ (mi : MultiIndex) where
  open mi use {PathHashes, by_path, find, by_path-Distinct, find-find_in}

  pub find-In :
      (p : String) (c : PathHashes) (x : PathHash)
      → find p c ≡ some x
      → In x (by_path c) × (x.path ≡ p)
  find-In p c x e = find_in-In p (by_path c) x (sym (find-find_in p c) ∙ e)

  pub In-find : (x : PathHash) (c : PathHashes) → In x (by_path c) → find x.path c ≡ some x
  In-find x c i = rw (find-find_in x.path c) (In-find_in x (by_path c) (by_path-Distinct c) i)

  -- The checksum that a tree has at a path.
  abbrev pub hash_at : PathHashes → String → Option ℕ
  hash_at c p = hash_of (find p c)
