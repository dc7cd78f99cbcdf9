-- ===== src/TableSchema.antt =====
-- The schema of a table, `SqliteConnectionGetTableSchema` of c/driver/sqlite/sqlite.c, and
-- `StatementReaderGetSchema` of statement_reader.c. A string that is NULL is `none`.
pub mod Query
mod Tests
use arrow_adbc.Base.{codes, ℕ, Bool, true, false, Option, none, some, List, [], ◌∷◌}
use arrow_adbc.Adbc.{StatusCode, Outcome, done, ◌>>=◌}
use arrow_adbc.Platform.{Platform, ArrowType}
use arrow_adbc.Engine.{Engine}
use arrow_adbc.Params.{Binder}
use arrow_adbc.Stream.{Errno, Reader}
use arrow_adbc.Export.{export_reader}
use arrow_adbc.StringBuilder.{StringBuilder, string_builder_init, append_all}

abbrev pub Fields : Type 0
Fields = List (List ℕ × ArrowType)

-- `ArrowSchemaDeepCopy`: its error, or a copy.
abbrev pub copied : Option Errno → Fields → Option Errno × Option Fields
copied none fields = (none, some fields)
copied (some e) fields = (some e, none)

-- What the engine does beside the steps of the statement: `sqlite3_prepare_v2` on the connection, and
-- whether it returned `SQLITE_OK`, and `sqlite3_finalize`.
module _ (p : Platform) (engine : Engine p.Double) (view_init : ℕ → Bool)
    (deep_copy : Fields → Option Errno) (prepare : List ℕ → engine.World → Bool × engine.World)
    (finalize : engine.World → engine.World) where
  open p use {Double}
  open engine use {World}

  -- `StatementReaderGetSchema` on a stream that is not released.
  unfoldable pub reader_get_schema : Reader Double → Option Errno × Option Fields
  reader_get_schema reader = elim reader.schema [
    | none ↦ (some Errno.einval, none)
    | some fields ↦ copied (deep_copy fields) fields
  ]

  abbrev pub no_binder : Binder Double
  no_binder = record { schema = none; params = none; types = none; array = none; next_row = 0 }

  -- The status and `*schema`.
  abbrev pub Schemed : Type 0
  Schemed = StatusCode × Option Fields × World

  abbrev pub schema_read : Option Errno × Option Fields → World → Schemed
  schema_read (none, fields) w = (StatusCode.ok, fields, finalize w)
  schema_read (some e, fields) w = (StatusCode.io, fields, finalize w)

  abbrev pub after_export : StatusCode × Reader Double × Binder Double × World → Schemed
  after_export (StatusCode.ok, reader, b, w) = schema_read (reader_get_schema reader) w
  after_export (other, reader, b, w) = (other, none, finalize w)

  abbrev pub after_prepare : Bool × World → Outcome Schemed
  after_prepare (false, w) = done (StatusCode.internal, none, w)
  after_prepare (true, w) = do
    exported ← export_reader p engine view_init false 64 no_binder w
    done (after_export exported)

  -- The part for a table's name.
  unfoldable pub table_schema : List ℕ → World → Outcome Schemed
  unfolding reader_get_schema
  table_schema table_name w = do
    query ← append_all (codes "SELECT * FROM " ∷ table_name ∷ []) (string_builder_init 64)
    after_prepare (prepare query.chars w)

  -- A string that is neither NULL nor empty.
  abbrev pub named : Option (List ℕ) → Bool
  named none = false
  named (some []) = false
  named (some (c ∷ cs)) = true

  abbrev pub schema_of : Bool → Bool → Option (List ℕ) → World → Outcome Schemed
  schema_of true in_schema table_name w = done (StatusCode.ok, none, w)
  schema_of false true table_name w = done (StatusCode.ok, none, w)
  schema_of false false none w = done (StatusCode.invalid_argument, none, w)
  schema_of false false (some table_name) w = table_schema table_name w

  -- `SqliteConnectionGetTableSchema` on a connection that is initialised or not.
  unfoldable pub get_table_schema :
      Bool → Option (List ℕ) → Option (List ℕ) → Option (List ℕ) → World → Outcome Schemed
  unfolding table_schema
  get_table_schema false catalog db_schema table_name w = done (StatusCode.invalid_state, none, w)
  get_table_schema true catalog db_schema table_name w =
      schema_of (named catalog) (named db_schema) table_name w
