-- ===== src/Export/Tests.antt =====
-- A result of two rows, exported, and the theorems at it.
use arrow_adbc.Base.{
  ℕ, zero, suc, ◌≡◌, refl, Bool, true, false, none, List, [], ◌∷◌, length, ℤ, pos, arith,
}
use arrow_adbc.Adbc.{done, StatusCode}
use arrow_adbc.Platform.{Value}
use arrow_adbc.Platform.Toy.{toy, toy-IsPlatform, toy-Allocates}
use arrow_adbc.Engine.Toy.{Table, table_engine, value_at}
use arrow_adbc.Params.{Binder}
use arrow_adbc.Infer.{Column}
use arrow_adbc.Infer.Run.{IsReadable}
use arrow_adbc.Export.{export_reader}
use arrow_adbc.Export.Rows.{Rows}
use arrow_adbc.Export.Complete.{exported}
use arrow_adbc.Export.ReadBack.{ReadsBack, export-ReadsBack, export_full-ReadsBack}

abbrev no_binder : Binder ℤ
no_binder = record { schema = none; params = none; types = none; array = none; next_row = 0 }

abbrev views : ℕ → Bool
views n = true

abbrev start : Table
start = record {
  rows = (Value.integer (pos 7) ∷ []) ∷ (Value.text (b'a' ∷ []) ∷ []) ∷ [];
  current = [];
  width = 1;
  bindings = [];
}

abbrev first : Table
first = record start {
  rows = (Value.text (b'a' ∷ []) ∷ []) ∷ [];
  current = Value.integer (pos 7) ∷ [];
}

abbrev second : Table
second = record start { rows = []; current = Value.text (b'a' ∷ []) ∷ [] }

first-IsReadable : (col : ℕ) → IsReadable (value_at first.current col)
first-IsReadable zero = tt
first-IsReadable (suc col) = tt

second-IsReadable : (col : ℕ) → IsReadable (value_at second.current col)
second-IsReadable zero = tt
second-IsReadable (suc col) = tt

two_rows : Rows table_engine start (first ∷ second ∷ []) second
two_rows = Rows.next first refl first-IsReadable (Rows.next second refl second-IsReadable Rows.end)

export-ReadsBack_example :
    (columns : List (Column ℤ)) × (export_reader toy table_engine views false 4 no_binder start
      ≡ done (
        StatusCode.ok,
        exported toy table_engine views 4 columns second true 2,
        no_binder,
        second,
      ))
    × ReadsBack toy table_engine (first ∷ second ∷ []) 0 columns
    × (length columns ≡ 1)
export-ReadsBack_example =
    export-ReadsBack toy table_engine views toy-IsPlatform toy-Allocates 4 no_binder start
      (first ∷ second ∷ []) second second two_rows refl (omega arith)

export_full-ReadsBack_example :
    (columns : List (Column ℤ)) × (export_reader toy table_engine views false 2 no_binder start
      ≡ done (
        StatusCode.ok,
        exported toy table_engine views 2 columns second false 2,
        no_binder,
        second,
      ))
    × ReadsBack toy table_engine (first ∷ second ∷ []) 0 columns
    × (length columns ≡ 1)
export_full-ReadsBack_example =
    export_full-ReadsBack toy table_engine views toy-IsPlatform toy-Allocates 2 no_binder start
      (first ∷ second ∷ []) second two_rows refl
