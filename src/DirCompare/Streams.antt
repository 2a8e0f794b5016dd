-- ===== src/DirCompare/Streams.antt =====
-- src/dir_compare.h and src/dir_compare.cpp: the interface CompareOutputStream and two of the
-- classes that implement it. A stream's methods act on a state `S` that they are handed: what was
-- printed, the tables of a database, or both.
use Prim.Native.String.{◌++◌}
use dupa.Base.{String, List, [], ◌∷◌}

-- The virtual methods.
pub record CompareOutputStream (S : Type 0) : Type 0 where
  pub overwritten_by : String → List String → S → S
  pub copied_from : String → List String → S → S
  pub rename_to : String → List String → S → S
  pub content_changed : String → S → S
  pub removed : String → S → S
  pub new_file : String → S → S

-- operator<< for Paths: the paths in brackets, a space between two.
spaced : List String → String
spaced [] = ""
spaced (p ∷ ps) = " " ++ p ++ spaced ps

unfoldable pub show_paths : List String → String
unfolding spaced
show_paths [] = "[" ++ "]"
show_paths (p ∷ ps) = "[" ++ p ++ spaced ps ++ "]"

-- What std::cout was sent so far is the state.
abbrev line : String → String → String
line s out = out ++ s ++ "\n"

unfoldable pub printing_output_stream : CompareOutputStream String
printing_output_stream = record {
  overwritten_by = λ f cs. line ("OVERWRITTEN_BY: " ++ f ++ " CANDIDATES: " ++ show_paths cs);
  copied_from = λ f cs. line ("COPIED_FROM: " ++ f ++ " CANDIDATES: " ++ show_paths cs);
  rename_to = λ f cs. line ("RENAME_TO: " ++ f ++ " CANDIDATES: " ++ show_paths cs);
  content_changed = λ f. line ("CONTENT_CHANGED: " ++ f);
  removed = λ f. line ("REMOVED: " ++ f);
  new_file = λ f. line ("NEW_FILE: " ++ f);
}

module _ {S : Type 0} where
  -- `for (auto &s : streams_) s.get().m(...)`, for the method call `m` of one stream.
  unfoldable pub each_stream :
      (CompareOutputStream S → S → S) → List (CompareOutputStream S) → S → S
  each_stream m [] s = s
  each_stream m (x ∷ xs) s = each_stream m xs (m x s)

  -- CompareOutputStreams: every call goes to each stream, in order.
  unfoldable pub compare_output_streams : List (CompareOutputStream S) → CompareOutputStream S
  compare_output_streams streams = record {
    overwritten_by = λ f cs. each_stream (λ x. x.overwritten_by f cs) streams;
    copied_from = λ f cs. each_stream (λ x. x.copied_from f cs) streams;
    rename_to = λ f cs. each_stream (λ x. x.rename_to f cs) streams;
    content_changed = λ f. each_stream (λ x. x.content_changed f) streams;
    removed = λ f. each_stream (λ x. x.removed f) streams;
    new_file = λ f. each_stream (λ x. x.new_file f) streams;
  }
