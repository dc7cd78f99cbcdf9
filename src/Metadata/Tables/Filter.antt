-- ===== src/Metadata/Tables/Filter.antt =====
-- The tables that `SqliteConnectionGetTablesInner` lists, without their columns.
use arrow_adbc.Base.{ℕ, suc, Option, none, some, List, [], ◌∷◌, ◌++◌}
use arrow_adbc.Engine.{ResultCode}
use arrow_adbc.Library.{Library}
use arrow_adbc.Metadata.{
  tables_items, table, Call, append_null, append_string, finish, Builder, MetadataCalls,
  unless_null,
}
use arrow_adbc.Metadata.Tables.{Statements, no_statements}

-- A type is one of those asked for, or all are.
pub data Asks (cur_table_type : List ℕ) : Option (List (List ℕ)) → Type 0 where
  all : Asks cur_table_type none
  here : {types : List (List ℕ)} → Asks cur_table_type (some (cur_table_type ∷ types))
  there :
      {current : List ℕ} {types : List (List ℕ)}
      → Asks cur_table_type (some types)
      → Asks cur_table_type (some (current ∷ types))

module _ (builder : Builder) (l : Library) (calls : MetadataCalls l) where
  open builder use {Arrays}
  open l use {World, Handle, Stmt, prepare_v2, step_statement}

  abbrev pub name_calls : Statements builder l calls → World → List Call
  name_calls s w =
      append_string (table 1) (unless_null (calls.column_text s.tables_stmt 1 w))
      ∷ append_string (table 0) (unless_null (calls.column_text s.tables_stmt 0 w))
      ∷ []

  abbrev pub end_calls : List Call
  end_calls = append_null (table 2) ∷ append_null (table 3) ∷ finish tables_items ∷ []

  -- The rows of `tables_stmt`, so many, and the calls for those that are asked for.
  pub data TableRows (s : Statements builder l calls) (types : Option (List (List ℕ)))
      : ℕ → List (List Call) → ResultCode × World → World → Type 0 where
    end : {w : World} → TableRows s types 0 [] (ResultCode.done, w) w
    skipped :
        {n : ℕ} {rows : List (List Call)} {w w' : World}
        → (Asks (unless_null (calls.column_text s.tables_stmt 1 w)) types → ⊥)
        → TableRows s types n rows (step_statement s.tables_stmt w) w'
        → TableRows s types (suc n) rows (ResultCode.row, w) w'
    listed :
        {n : ℕ} {rows : List (List Call)} {w w' : World}
        → Asks (unless_null (calls.column_text s.tables_stmt 1 w)) types
        → TableRows s types n rows (step_statement s.tables_stmt w) w'
        → TableRows s types (suc n) ((name_calls s w ++ end_calls) ∷ rows) (ResultCode.row, w) w'

  abbrev pub only_tables : Option Stmt → Statements builder l calls
  only_tables stmt = record (no_statements builder l calls) { tables_stmt = stmt }
