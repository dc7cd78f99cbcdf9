-- ===== src/Ingest.antt =====
-- Bulk ingestion, c/driver/sqlite/sqlite.c: the texts that `SqliteStatementInitIngest` builds for
-- CREATE TABLE and INSERT.
pub mod Queries
pub mod Execute
pub mod Rows
mod Tests
use arrow_adbc.Base.{
  codes, ℕ, zero, suc, ◌+◌, List, [], ◌∷◌, ◌++◌, Bool, true, false, ltb, if◌then◌else◌,
}
use arrow_adbc.Adbc.{Outcome}
use arrow_adbc.StringBuilder.{StringBuilder, string_builder_init, append_all}

-- The calls of `StringBuilderAppend` on `create_query` in the loop, from column `i` on.
unfoldable pub create_columns : ℕ → List (List ℕ) → List (List ℕ)
create_columns i [] = []
create_columns i (name ∷ names) =
    if ltb 0 i
    then codes ", " ∷ name ∷ create_columns (i + 1) names
    else name ∷ create_columns (i + 1) names

-- The same on `insert_query`.
unfoldable pub insert_columns : ℕ → List (List ℕ) → List (List ℕ)
insert_columns i [] = []
insert_columns i (name ∷ names) =
    if ltb 0 i
    then codes ", " ∷ codes "?" ∷ insert_columns (i + 1) names
    else codes "?" ∷ insert_columns (i + 1) names

-- All calls, on a builder of 256 bytes, for `target_table` and the names of the parameters.
unfoldable pub create_query : List ℕ → List (List ℕ) → Outcome StringBuilder
unfolding create_columns
create_query target_table names =
    append_all
      (codes "CREATE TABLE "
        ∷ target_table
        ∷ codes " ("
        ∷ (create_columns 0 names ++ codes ")" ∷ []))
      (string_builder_init 256)

unfoldable pub insert_query : List ℕ → List (List ℕ) → Outcome StringBuilder
unfolding insert_columns
insert_query target_table names =
    append_all
      (codes "INSERT INTO "
        ∷ target_table
        ∷ codes " VALUES ("
        ∷ (insert_columns 0 names ++ codes ")" ∷ []))
      (string_builder_init 256)
