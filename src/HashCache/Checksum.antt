-- ===== src/HashCache/Checksum.antt =====
-- The checksum does not depend on how `read` cuts the file. src/hash_cache.cpp.
use dupa.Base.{
  ℕ, ◌+◌, ◌≡◌, ap, ◌∙◌, Option, some, List, [], ◌∷◌, ◌++◌, ◌==◌, length, length-append,
  if◌then◌else◌, arith,
}
use dupa.HashCache.{File, Sha, read_all, hash_file}

-- The reads that yield the pieces.
abbrev pub pieces : List (ℕ × List ℕ) → List (Option (List ℕ))
pieces [] = []
pieces ((y, ys) ∷ xs) = some (y ∷ ys) ∷ pieces xs

-- The bytes of the file.
abbrev pub content : List (ℕ × List ℕ) → List ℕ
content [] = []
content ((y, ys) ∷ xs) = (y ∷ ys) ++ content xs

module _ (sha : Sha) where
  open sha use {Ctx, init, update, final, update-nil, update-append}

  read_all_lem :
      (c : Ctx) (size : ℕ) (xs : List (ℕ × List ℕ))
      → read_all sha c size (pieces xs) ≡ some (update c (content xs), size + length (content xs))
  unfolding read_all
  read_all_lem c size [] = let e = update-nil c in rw e (ap (λ n. some (c, n)) (omega arith))
  read_all_lem c size ((y, ys) ∷ xs) =
      let rest = read_all_lem (update c (y ∷ ys)) (size + length (y ∷ ys)) xs in
      let e = update-append c (y ∷ ys) (content xs) in
      let l = length-append (y ∷ ys) (content xs) in
      rest ∙ rw e (ap (λ n. some (update c ((y ∷ ys) ++ content xs), n)) (omega (arith, l)))

  -- The checksum of a file's bytes: 0 for none, otherwise the digest's first bytes.
  abbrev pub checksum : List ℕ → ℕ
  checksum xs = if length xs == 0 then 0 else final (update init xs)

  -- However the bytes of a file come from `read`, the computed checksum is that of all its bytes.
  pub hash_file-checksum :
      (f : File) (xs : List (ℕ × List ℕ))
      → f.reads ≡ pieces xs
      → hash_file sha f ≡ some (checksum (content xs))
  unfolding hash_file
  hash_file-checksum f xs e =
      let r = read_all_lem init 0 xs in
      rw (e, r)
        (ap (λ n. some (if n == 0 then 0 else final (update init (content xs)))) (omega arith))
