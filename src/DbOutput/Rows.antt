-- ===== src/DbOutput/Rows.antt =====
-- The rows that a list of reports has for a table.
use dupa.Base.{
  ℕ, zero, suc, ◌==◌, ==_iff, true, false, Bool-cases, if◌then◌else◌, ◌⊎◌, inl, inr, ◌≢◌, refl, sym,
  ap, ◌∙◌, ◌≡◌, List, [], ◌∷◌, ◌++◌, String,
}
use dupa.DbLib.Interface.{Value, text}
use dupa.DirCompare.Reports.{
  Report, overwritten_by, copied_from, rename_to, content_changed, removed, new_file,
}
use dupa.DbOutput.{DirCompDbStream}

pub data Table : Type 0 where
  removed_table new_file_table content_changed_table overwritten_by_table copied_from_table
        rename_to_table :
      Table

-- The statement that inserts into a table.
abbrev pub stmt_of : {S : Type 0} → DirCompDbStream S → Table → S
stmt_of st removed_table = st.removed
stmt_of st new_file_table = st.new_file
stmt_of st content_changed_table = st.content_changed
stmt_of st overwritten_by_table = st.overwritten_by
stmt_of st copied_from_table = st.copied_from
stmt_of st rename_to_table = st.rename_to

abbrev pub width : Table → ℕ
width removed_table = 1
width new_file_table = 1
width content_changed_table = 1
width overwritten_by_table = 2
width copied_from_table = 2
width rename_to_table = 2

-- The table that a report goes to.
abbrev pub table_of : Report → Table
table_of (overwritten_by f cs) = overwritten_by_table
table_of (copied_from f cs) = copied_from_table
table_of (rename_to f cs) = rename_to_table
table_of (content_changed f) = content_changed_table
table_of (removed f) = removed_table
table_of (new_file f) = new_file_table

abbrev pub number : Table → ℕ
number removed_table = 0
number new_file_table = 1
number content_changed_table = 2
number overwritten_by_table = 3
number copied_from_table = 4
number rename_to_table = 5

abbrev numbered : ℕ → Table
numbered zero = removed_table
numbered (suc zero) = new_file_table
numbered (suc (suc zero)) = content_changed_table
numbered (suc (suc (suc zero))) = overwritten_by_table
numbered (suc (suc (suc (suc zero)))) = copied_from_table
numbered (suc (suc (suc (suc (suc n))))) = rename_to_table

numbered-number : (t : Table) → numbered (number t) ≡ t
numbered-number removed_table = refl
numbered-number new_file_table = refl
numbered-number content_changed_table = refl
numbered-number overwritten_by_table = refl
numbered-number copied_from_table = refl
numbered-number rename_to_table = refl

pub Table-cases :
    (t u : Table)
    → ((number t == number u ≡ true) × (t ≡ u)) ⊎ ((number t == number u ≡ false) × (t ≢ u))
Table-cases t u = elim (Bool-cases (number t == number u)) [
  | inl e ↦
      let same = (==_iff (number t) (number u)).0 e in
      inl (e, sym (numbered-number t) ∙ (ap numbered same ∙ numbered-number u))
  | inr e ↦ inr (e, λ same. let f = (==_iff (number t) (number u)).1 (ap number same) in cc)
]

module _ {D : Type 0} where
  -- A row (path, candidate) for each candidate.
  abbrev pub pairs : String → List String → List (List (Value D))
  pairs f [] = []
  pairs f (c ∷ cs) = (text f ∷ text c ∷ []) ∷ pairs f cs

  -- The rows of a report, in its table.
  abbrev pub row_list : Report → List (List (Value D))
  row_list (overwritten_by f cs) = pairs f cs
  row_list (copied_from f cs) = pairs f cs
  row_list (rename_to f cs) = pairs f cs
  row_list (content_changed f) = (text f ∷ []) ∷ []
  row_list (removed f) = (text f ∷ []) ∷ []
  row_list (new_file f) = (text f ∷ []) ∷ []

  -- The rows that reports have in a table.
  abbrev pub rows_of : Table → List Report → List (List (Value D))
  rows_of t [] = []
  rows_of t (r ∷ rs) =
      let rest = rows_of t rs in
      if number (table_of r) == number t then row_list r ++ rest else rest
