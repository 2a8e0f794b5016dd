-- ===== src/Scanner/FilePaths.antt =====
-- boost::filesystem::path, as far as src/scanner_int.h, src/scanner.cpp and the processors use it.
use dupa.Base.{
  String, Bool, true, false, ◌&&◌, List, [], ◌∷◌, ◌++◌, ◌≡◌, ◌≢◌, str_eq, In, All, refl, arith,
  eq_iff,
}

-- A list without its last entry.
abbrev pub init : List String → List String
init [] = []
init (x ∷ xs) = elim xs [ [] ↦ [] | y ∷ ys ↦ x ∷ init xs ]

-- The elements are what begin() to end() walk: the root directory, if the path is absolute, and the
-- names. `IsPlain` excludes root names (`//host`) and trailing slashes, `IsName` is a name.
pub record Paths : Type 1 where
  pub FilePath : Type 0
  pub IsPlain : FilePath → Type 0
  pub IsName : String → Type 0
  pub elements : FilePath → List String
  pub of_native : String → FilePath
  pub native : FilePath → String
  pub empty : FilePath
  -- an element as a path of its own
  pub single : String → FilePath
  -- operator/
  pub join : FilePath → FilePath → FilePath
  pub parent_path : FilePath → FilePath
  pub filename : FilePath → FilePath
  pub elements-empty : elements empty ≡ []
  pub native-empty : native empty ≡ ""
  -- the empty path has no element, and is the only such path
  pub empty_lem : (p : FilePath) → elements p ≡ [] → p ≡ empty
  pub join-empty : (p : FilePath) → join empty p ≡ p
  pub elements-single :
      (p : FilePath) (e : String) → In e (elements p) → elements (single e) ≡ e ∷ []
  pub elements-join :
      (p : FilePath) (e : String)
      → IsPlain p
      → elements p ≢ []
      → IsName e
      → elements (join p (single e)) ≡ elements p ++ e ∷ []
  pub empty-IsPlain : IsPlain empty
  pub single-IsPlain :
      (p : FilePath) (e : String) → IsPlain p → In e (elements p) → IsPlain (single e)
  pub join-IsPlain :
      (p : FilePath) (e : String)
      → IsPlain p
      → elements p ≢ []
      → IsName e
      → IsPlain (join p (single e))
  pub elements-parent_path :
      (p : FilePath) → IsPlain p → elements (parent_path p) ≡ init (elements p)
  pub parent_path-IsPlain : (p : FilePath) → IsPlain p → IsPlain (parent_path p)
  pub names :
      (p : FilePath) (e : String) (es : List String)
      → IsPlain p
      → elements p ≡ e ∷ es
      → All IsName es

-- operator== of path: element by element.
abbrev pub same_elements : List String → List String → Bool
same_elements [] [] = true
same_elements [] (y ∷ ys) = false
same_elements (x ∷ xs) [] = false
same_elements (x ∷ xs) (y ∷ ys) = str_eq x y && same_elements xs ys

pub same_elements-eq : (xs ys : List String) → same_elements xs ys ≡ true → xs ≡ ys
same_elements-eq [] [] e = refl
same_elements-eq [] (y ∷ ys) e = ground arith
same_elements-eq (x ∷ xs) [] e = ground arith
same_elements-eq (x ∷ xs) (y ∷ ys) e = ground (arith, eq_iff x y, same_elements-eq xs ys)
