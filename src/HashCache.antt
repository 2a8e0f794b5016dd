-- ===== src/HashCache.antt =====
-- src/hash_cache.h and src/hash_cache.cpp: the checksums of files, with the cache by path and the
-- cache by inode. An exception is `none`.
pub mod Checksum
pub mod Lookup
pub mod Table
pub mod RoundTrip
pub mod Stored
pub mod Memory
mod Tests
use dupa.Base.{
  ℕ, Bool, true, false, String, Option, none, some, List, [], ◌∷◌, ◌++◌, ◌==◌, ◌+◌, length, ◌&&◌,
  ◌≡◌, if◌then◌else◌, str_eq, ◌>>=◌, ◌>>◌, assert,
}

pub record FileInfo : Type 0 where
  pub size : ℕ
  pub mtime : ℕ
  pub sum : ℕ

-- A file that has been opened: what fstat says of it, if it does not fail, and what the calls of
-- read return until the end of the file, `none` being a failed one.
pub record File : Type 0 where
  pub is_reg : Bool
  pub dev : ℕ
  pub ino : ℕ
  pub st_size : ℕ
  pub st_mtime : ℕ
  pub fstat_ok : Bool
  pub reads : List (Option (List ℕ))

-- OpenSSL's SHA1: an update with two pieces is an update with both in a row. `final` is the first
-- eight bytes of the digest, as the union reads them.
pub record Sha : Type 1 where
  pub Ctx : Type 0
  pub init : Ctx
  pub update : Ctx → List ℕ → Ctx
  pub final : Ctx → ℕ
  pub update-nil : (c : Ctx) → update c [] ≡ c
  pub update-append : (c : Ctx) (xs ys : List ℕ) → update (update c xs) ys ≡ update c (xs ++ ys)

abbrev pub Uuid : Type 0
Uuid = ℕ × ℕ

-- cache_ and ino_cache.
pub record Caches : Type 0 where
  pub cache : List (String × FileInfo)
  pub ino_cache : List (Uuid × ℕ)

abbrev pub find_path : String → List (String × FileInfo) → Option FileInfo
find_path p [] = none
find_path p (x ∷ xs) = if str_eq x.0 p then some x.1 else find_path p xs

-- cache_[p] = res
abbrev pub assign : String → FileInfo → List (String × FileInfo) → List (String × FileInfo)
assign p i [] = (p, i) ∷ []
assign p i (x ∷ xs) = let rest = assign p i xs in if str_eq x.0 p then (p, i) ∷ xs else x ∷ rest

-- InodeCache::Get
abbrev pub find_inode : Uuid → List (Uuid × ℕ) → Option ℕ
find_inode u [] = none
find_inode u (x ∷ xs) = if (x.0.0 == u.0) && (x.0.1 == u.1) then some x.1 else find_inode u xs

-- InodeCache::Update: insert does not overwrite.
unfoldable pub insert_inode : Uuid → ℕ → List (Uuid × ℕ) → List (Uuid × ℕ)
insert_inode u sum xs = elim (find_inode u xs) [ some c ↦ xs | none ↦ (u, sum) ∷ xs ]

-- The part of FileInfo that fstat yields: id, size and mtime.
pub record StatResult : Type 0 where
  pub id : Uuid
  pub size : ℕ
  pub mtime : ℕ

-- InodeCache::GetInodeInfo
unfoldable pub get_inode_info : File → Option StatResult
get_inode_info f = do
  assert f.fstat_ok
  assert f.is_reg
  some (record { id = (f.dev, f.ino); size = f.st_size; mtime = f.st_mtime })

module _ (sha : Sha) where
  open sha use {Ctx, init, update, final}

  -- The loop of ComputeCksum: the context and the number of bytes read.
  unfoldable pub read_all : Ctx → ℕ → List (Option (List ℕ)) → Option (Ctx × ℕ)
  read_all c size [] = some (c, size)
  read_all c size (none ∷ rs) = none
  read_all c size (some xs ∷ rs) = elim xs [
    | [] ↦ some (c, size)
    | y ∷ ys ↦ read_all (update c (y ∷ ys)) (size + length (y ∷ ys)) rs
  ]

  -- ComputeCksum when the inode is not known: a file without a byte has the checksum 0.
  unfoldable pub hash_file : File → Option ℕ
  unfolding read_all
  hash_file f = do (c, size) ← read_all init 0 f.reads; some (if size == 0 then 0 else final c)

  -- ComputeCksum
  unfoldable pub compute_cksum : File → Uuid → Caches → Option (ℕ × Caches)
  unfolding hash_file insert_inode
  compute_cksum f uuid s = elim (find_inode uuid s.ino_cache) [
    | some sum ↦ some (sum, s)
    | none ↦ do
      sum ← hash_file f
      some (sum, record s { ino_cache = insert_inode uuid sum s.ino_cache })
  ]

  -- HashCache::operator() when the cache by path does not help.
  unfoldable pub compute_info : String → File → StatResult → Caches → Option (FileInfo × Caches)
  unfolding compute_cksum
  compute_info p f stat_res s = do
    (cksum, s') ← compute_cksum f stat_res.id s
    let res : FileInfo = record { size = stat_res.size; mtime = stat_res.mtime; sum = cksum }
    some (res, record s' { cache = assign p res s'.cache })

  -- The test on what the cache by path has.
  unfoldable pub is_current : StatResult → FileInfo → Bool
  is_current stat_res cached = (cached.size == stat_res.size) && (cached.mtime == stat_res.mtime)

  -- HashCache::operator(), for the file that open returns for the path.
  unfoldable pub lookup : String → Option File → Caches → Option (FileInfo × Caches)
  unfolding get_inode_info compute_info is_current
  lookup p none s = none
  lookup p (some f) s = do
    stat_res ← get_inode_info f
    elim (find_path p s.cache) [
      | some cached ↦
          if is_current stat_res cached then some (cached, s) else compute_info p f stat_res s
      | none ↦ compute_info p f stat_res s
    ]
