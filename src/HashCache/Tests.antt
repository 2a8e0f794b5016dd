-- ===== src/HashCache/Tests.antt =====
-- A digest, a disk and the theorems at them.
use mathlib.Core.List.{append-nil, append_assoc}
use dupa.Base.{
  eq_iff, ℕ, ◌≡◌, refl, sym, ap, ◌∙◌, true, String, Option, none, some, List, [], ◌∷◌, ◌++◌, length,
  str_eq, if◌then◌else◌, Bool-cases, inl, inr, arith,
}
use dupa.FileTree.Invariant.{Returns}
use dupa.HashCache.{FileInfo, find_path, File, Sha, Caches, lookup, hash_file}
use dupa.HashCache.Checksum.{checksum, hash_file-checksum}
use dupa.HashCache.Memory.{Memory, memory, memory-FileList, no_table, no_table-at_rest}
use dupa.HashCache.Table.{store_cksums, read_cache_from_db}
use dupa.HashCache.RoundTrip.{IsMap}
use dupa.HashCache.Stored.{read_cache_from_db-store_cksums}
use dupa.DbLib.Monad.{returned, ◌>>=◌}
use dupa.HashCache.Lookup.{SameInode, Faithful, info, lookup-Faithful}

-- A digest that counts.
abbrev counting : Sha
counting = record {
  Ctx = List ℕ;
  init = [];
  update = λ c xs. c ++ xs;
  final = length;
  update-nil = append-nil;
  update-append = append_assoc;
}

abbrev three_bytes : File
three_bytes = record {
  is_reg = true;
  dev = 1;
  ino = 7;
  st_size = 3;
  st_mtime = 50;
  fstat_ok = true;
  reads = some (10 ∷ 20 ∷ []) ∷ some (30 ∷ []) ∷ [];
}

abbrev disk : String → Option File
disk p = if str_eq p "a" then some three_bytes else none

-- The path is cached with an older time.
abbrev stale : Caches
stale = record { cache = ("a", record { size = 3; mtime = 40; sum = 9 }) ∷ []; ino_cache = [] }

disk-three_bytes : (p : String) (f : File) → disk p ≡ some f → f ≡ three_bytes
disk-three_bytes p f e = elim (Bool-cases (str_eq p "a")) [
  | inl m ↦
      let found : some three_bytes ≡ some f = ground arith in
      sym (ap (λ o. elim o [ some x ↦ x | none ↦ three_bytes ]) found)
  | inr m ↦ absurd (ground arith)
]

disk-SameInode : SameInode counting disk
disk-SameInode p q f g a b d i =
    ap (hash_file counting) (disk-three_bytes p f a ∙ sym (disk-three_bytes q g b))

stale-Faithful : Faithful counting disk stale
stale-Faithful = record {
  paths = λ p f i d e a b.
      absurd (let mtime = ap (λ (g : File). g.st_mtime) (disk-three_bytes p f d) in ground arith);
  inodes = λ p f c e n. absurd (ground arith);
}

hash_file-checksum_example :
    hash_file counting three_bytes ≡ some (checksum counting (10 ∷ 20 ∷ 30 ∷ []))
hash_file-checksum_example =
    hash_file-checksum counting three_bytes ((10, 20 ∷ []) ∷ (30, []) ∷ []) refl

lookup-Faithful_example :
    Returns
      (lookup counting "a" (disk "a") stale)
      (λ r. (r.0 ≡ info counting disk three_bytes 3) × Faithful counting disk r.1)
lookup-Faithful_example =
    lookup-Faithful counting disk "a" three_bytes 3 stale refl three_bytes_hash disk-SameInode
      stale-Faithful refl refl
  where
    three_bytes_hash : hash_file counting three_bytes ≡ some 3
    three_bytes_hash = hash_file-checksum counting three_bytes ((10, 20 ∷ []) ∷ (30, []) ∷ []) refl

abbrev two_entries : List (String × FileInfo)
two_entries =
    ("a/x", record { size = 3; mtime = 50; sum = 9 })
    ∷ ("b", record { size = 0; mtime = 51; sum = 0 })
    ∷ []

read_cache_from_db-store_cksums_example :
    (fuel : ℕ) × (cache' : List (String × FileInfo)) × (d' : Memory) × ((store_cksums memory
            two_entries
          >>= λ _. read_cache_from_db memory fuel)
        no_table
      ≡ (returned cache', d'))
    × ((p : String) → find_path p cache' ≡ find_path p two_entries)
read_cache_from_db-store_cksums_example =
    read_cache_from_db-store_cksums memory memory-FileList two_entries no_table two_entries-IsMap
      no_table-at_rest
  where
    two_entries-IsMap : IsMap two_entries
    two_entries-IsMap =
        ((λ m. elim m [ inl e ↦ ground (arith, eq_iff "a/x" "b") | inr z ↦ z ]), ((λ m. m), tt))
