-- ===== src/Metadata/Tests.antt =====
-- Toy tables, with the columns of one, the constraints of another and a list of them, and the theorems there.
use arrow_adbc.Base.{
  ℕ, zero, suc, ◌<◌, ◌≡◌, ◌≢◌, refl, Option, none, some, List, [], ◌∷◌, ◌++◌, codes, arith,
}
use arrow_adbc.Engine.{ResultCode}
use arrow_adbc.Metadata.{Call, MetadataCalls, column_row, apply_all, built, get_columns}
use arrow_adbc.Metadata.Columns.{appended, all_calls, Rows, get_columns-Rows}
use arrow_adbc.Metadata.Constraints.{get_constraints}
use arrow_adbc.Metadata.Constraints.PrimaryKey.{get_constraints-fails}
use arrow_adbc.Metadata.Tables.{Depth, get_objects}
use arrow_adbc.Metadata.Tables.Filter.{name_calls, end_calls, only_tables}
use arrow_adbc.Metadata.Toy.{
  row_count, same_rows, counter, constraint_lengths, lengths, no_constraints, no_constraints-equal,
}

abbrev two_rows : List (List Call)
two_rows =
    column_row counter row_count same_rows (some tt) 1
    ∷ column_row counter row_count same_rows (some tt) 0
    ∷ []

two_steps :
    Rows counter row_count same_rows (some tt) two_rows (ResultCode.row, 1) ResultCode.done 0
two_steps = Rows.next (Rows.next (Rows.end (λ e. cc)))

get_columns-Rows_example :
    (get_columns counter row_count same_rows 2 (some tt) (codes "t") none 0 2 ≡ built 40 0)
    × ((k : ℕ) → k < 19 → appended k (all_calls two_rows) ≡ 2)
unfolding apply_all
get_columns-Rows_example =
    get_columns-Rows counter row_count same_rows (some tt) 2 (codes "t") none two_rows
      ResultCode.done 0 40 2 2 2 2 0 refl refl refl two_steps (omega arith) refl

get_constraints-fails_example :
    get_constraints constraint_lengths row_count same_rows 2
      (some tt)
      (some tt)
      (codes "t")
      no_constraints
      1
    ≢ built no_constraints 0
get_constraints-fails_example =
    get_constraints-fails constraint_lengths row_count same_rows lengths (some tt) (some tt) 2
      (codes "t") no_constraints 1 1 1 0 refl refl refl no_constraints-equal no_constraints 0

-- At the depth of schemas the one catalog and its schema are appended.
one_schema :
    get_objects counter row_count same_rows 0 0 tt Depth.db_schemas none none none none none 0 0
    ≡ built 7 0
unfolding get_objects apply_all
one_schema = refl

abbrev type_at : ℕ → ℕ → Option (List ℕ)
type_at (suc i) zero = some (codes "table")
type_at (suc i) (suc w) = some (codes "view")
type_at zero w = some (codes "t")

-- A view and then a table.
abbrev view_and_table : MetadataCalls row_count
view_and_table = record same_rows { column_text = λ stmt i w. type_at i w }

abbrev views : Option (List (List ℕ))
views = some (codes "view" ∷ [])

abbrev one_view : List (List Call)
one_view =
    (name_calls counter row_count view_and_table
        (only_tables counter row_count view_and_table (some tt)) 1
      ++ end_calls counter row_count view_and_table)
    ∷ []
