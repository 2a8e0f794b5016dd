-- ===== src/Scanner/Lists.antt =====
-- Paths as lists of their elements, which fulfil what is supposed of boost::filesystem::path.
use Prim.Native.Char.{Char, code}
use dupa.Base.{refl, String, List, [], ◌∷◌, ◌++◌, All, if◌then◌else◌, str_eq, ◌==◌}
use Prim.Native.String
use dupa.Scanner.FilePaths.{Paths, init}

abbrev push : Char → List String → List String
push c [] = String.◌∷◌ c "" ∷ []
push c (e ∷ es) = String.◌∷◌ c e ∷ es

-- The parts between the slashes.
abbrev parts : String → List String
parts String.[] = "" ∷ []
parts (String.◌∷◌ c s) = let rest = parts s in if code c == b'/' then "" ∷ rest else push c rest

-- An empty first part of several is the root directory.
abbrev rooted : List String → List String
rooted [] = []
rooted (e ∷ []) = if str_eq e "" then [] else e ∷ []
rooted (e ∷ f ∷ fs) = if str_eq e "" then "/" ∷ f ∷ fs else e ∷ f ∷ fs

abbrev with_slashes : List String → String
with_slashes [] = ""
with_slashes (e ∷ []) = e
with_slashes (e ∷ f ∷ fs) =
    let rest = with_slashes (f ∷ fs) in
    if str_eq e "/" then String.◌++◌ "/" rest else String.◌++◌ e (String.◌++◌ "/" rest)

abbrev last_of : List String → List String
last_of [] = []
last_of (e ∷ []) = e ∷ []
last_of (e ∷ f ∷ fs) = last_of (f ∷ fs)

abbrev pub all_names : (es : List String) → All (λ e. Unit {0}) es
all_names [] = tt
all_names (e ∷ es) = (tt, all_names es)

abbrev pub element_lists : Paths
element_lists = record {
  FilePath = List String;
  IsPlain = λ p. Unit;
  IsName = λ e. Unit;
  elements = λ p. p;
  of_native = λ s. rooted (parts s);
  native = with_slashes;
  empty = [];
  single = λ e. e ∷ [];
  join = λ p q. p ++ q;
  parent_path = init;
  filename = last_of;
  elements-empty = refl;
  native-empty = refl;
  empty_lem = λ p e. e;
  join-empty = λ p. refl;
  elements-single = λ p e i. refl;
  elements-join = λ p e k ne n. refl;
  empty-IsPlain = tt;
  single-IsPlain = λ p e k i. tt;
  join-IsPlain = λ p e k ne n. tt;
  elements-parent_path = λ p k. refl;
  parent_path-IsPlain = λ p k. tt;
  names = λ p e es k d. all_names es;
}
