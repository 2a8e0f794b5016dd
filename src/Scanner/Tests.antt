-- ===== src/Scanner/Tests.antt =====
-- The theorems on scanning at lists of elements.
use dupa.Base.{◌≡◌, refl, String, List, [], ◌∷◌}
use dupa.Scanner.Lists.{element_lists}
use dupa.Scanner.{common_from, extend, common_path_prefix}
use dupa.Scanner.Prefix.{IsPrefix, common_path_prefix-IsPrefix}

parent_shared :
    common_path_prefix element_lists ("/" ∷ "a" ∷ "b" ∷ []) ("/" ∷ "a" ∷ "c" ∷ []) ≡ "/" ∷ "a" ∷ []
unfolding common_path_prefix common_from extend
parent_shared = refl

common_path_prefix-IsPrefix_example :
    IsPrefix
      (common_path_prefix element_lists ("/" ∷ "a" ∷ "b" ∷ []) ("/" ∷ "a" ∷ "c" ∷ []))
      ("/" ∷ "a" ∷ "b" ∷ [])
    × IsPrefix
        (common_path_prefix element_lists ("/" ∷ "a" ∷ "b" ∷ []) ("/" ∷ "a" ∷ "c" ∷ []))
        ("/" ∷ "a" ∷ "c" ∷ [])
    × ((r : List String)
        → IsPrefix r ("/" ∷ "a" ∷ "b" ∷ [])
        → IsPrefix r ("/" ∷ "a" ∷ "c" ∷ [])
        → IsPrefix r
            (common_path_prefix element_lists ("/" ∷ "a" ∷ "b" ∷ []) ("/" ∷ "a" ∷ "c" ∷ [])))
common_path_prefix-IsPrefix_example =
    common_path_prefix-IsPrefix element_lists ("/" ∷ "a" ∷ "b" ∷ []) ("/" ∷ "a" ∷ "c" ∷ []) tt
