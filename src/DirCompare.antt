-- ===== src/DirCompare.antt =====
-- src/dir_compare.cpp: the comparison of two directory trees. `DirCompare` gets the two filled
-- containers.
pub mod Index
pub mod Streams
pub mod Reports
pub mod Verdict
pub mod Candidates
pub mod Meaning
pub mod Silence
pub mod Exact
pub mod Fanout
pub mod Fill
pub mod Filled
pub mod OnDisk
mod DiskTests
pub mod Tests
use dupa.Base.{ℕ, Bool, String, Option, none, some, List, [], ◌∷◌, ◌==◌, if◌then◌else◌, map, foldl}
use dupa.Conf.{GlobalConfig}
use Index.{PathHash, path_of, MultiIndex}
use Streams.{CompareOutputStream}

module _ (mi : MultiIndex) where
  open mi use {PathHashes, by_path, find, equal_range}

  -- GetPathsForHash
  pub get_paths_for_hash : PathHashes → ℕ → List String
  get_paths_for_hash ps hash = map path_of (equal_range hash ps)

  -- Keeps the candidates that exist in the second tree: the inner loop of the second pass.
  pub still_there : PathHashes → List String → List String
  still_there hashes2 [] = []
  still_there hashes2 (c ∷ cs) =
      let rest = still_there hashes2 cs in elim (find c hashes2) [ some _ ↦ c ∷ rest | none ↦ rest ]

  module _ {S : Type 0} (conf : GlobalConfig) (stream : CompareOutputStream S)
      (hashes1 hashes2 : PathHashes) where
    -- The body of the loop over the first tree, the path found in the second tree or not.
    same_path_body : String → ℕ → ℕ → S → S
    same_path_body p1 h1 h2 s = if h1 == h2 then s else elim (get_paths_for_hash hashes1 h2) [
      | [] ↦ stream.content_changed p1 s
      | p ∷ ps ↦ stream.overwritten_by p1 (p ∷ ps) s
    ]

    missing_path_body : String → ℕ → S → S
    missing_path_body p1 h1 s = elim (get_paths_for_hash hashes2 h1) [
      | [] ↦ stream.removed p1 s
      | p ∷ ps ↦ if conf.skip_renames then s else stream.rename_to p1 (p ∷ ps) s
    ]

    first_body : S → PathHash → S
    unfolding same_path_body missing_path_body
    first_body s x = elim (find x.path hashes2) [
      | some same_path ↦ same_path_body x.path x.hash same_path.hash s
      | none ↦ missing_path_body x.path x.hash s
    ]

    -- The body of the loop over the second tree, for a path that the first does not have.
    new_path_body : String → ℕ → S → S
    new_path_body p2 h2 s = elim (get_paths_for_hash hashes1 h2) [
      | [] ↦ stream.new_file p2 s
      | p ∷ ps ↦ elim (still_there hashes2 (p ∷ ps)) [
        | [] ↦ s
        | q ∷ qs ↦ stream.copied_from p2 (q ∷ qs) s
      ]
    ]

    second_body : S → PathHash → S
    unfolding new_path_body
    second_body s x = elim (find x.path hashes1) [
      | some _ ↦ s
      | none ↦ new_path_body x.path x.hash s
    ]

    -- DirCompare, from the two filled containers on.
    pub dir_compare : S → S
    dir_compare s = foldl second_body (foldl first_body s (by_path hashes1)) (by_path hashes2)
