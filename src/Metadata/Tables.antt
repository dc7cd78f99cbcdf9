-- ===== src/Metadata/Tables.antt =====
-- The tables of a database, `SqliteConnectionGetTablesInner`, `GetTablesImpl` and `GetObjectsImpl` of
-- c/driver/sqlite/sqlite.c.
pub mod Filter
use arrow_adbc.Base.{
  ℕ, zero, suc, Bool, true, false, Option, none, some, List, [], ◌∷◌, codes, bytes_eq,
  if◌then◌else◌,
}
use arrow_adbc.Adbc.{StatusCode}
use arrow_adbc.Engine.{ResultCode}
use arrow_adbc.Library.{Library}
use arrow_adbc.Metadata.{
  root, schemas_items, tables_items, catalog, schema, table, Call, append_string, append_null,
  finish, finish_building, Builder, MetadataCalls, pattern_of, unless_null, apply_all, Built, built,
  refused, unfinished, fault, Next, applied, raise, get_columns,
}
use arrow_adbc.Metadata.Constraints.{get_constraints}

module _ (builder : Builder) (l : Library) (calls : MetadataCalls l) where
  open builder use {Arrays}
  open l use {World, Handle, Stmt, prepare_v2, step_statement, finalize}

  -- `RAISE_ADBC`
  abbrev pub when_built : Next builder l calls → Built builder l calls → Built builder l calls
  when_built next (built a w) = next a w
  when_built next (refused status w) = refused status w
  when_built next unfinished = unfinished
  when_built next fault = fault

  -- The statements of `SqliteConnectionGetTablesImpl`.
  pub record Statements : Type 0 where
    pub tables_stmt : Option Stmt
    pub columns_stmt : Option Stmt
    pub pk_stmt : Option Stmt
    pub fk_stmt : Option Stmt

  -- A table's type among those asked for, by `strcmp`. SQLite's `type` is never NULL.
  unfoldable pub found_type : List (List ℕ) → List ℕ → Bool
  found_type [] cur_table_type = false
  found_type (current ∷ table_type) cur_table_type =
      if bytes_eq current cur_table_type then true else found_type table_type cur_table_type

  abbrev pub is_asked : Option (List (List ℕ)) → List ℕ → Bool
  is_asked none cur_table_type = true
  is_asked (some table_type) cur_table_type = found_type table_type cur_table_type

  abbrev pub table_columns_part :
      ℕ
      → Option Stmt
      → Statements
      → List ℕ
      → Option (List ℕ)
      → Next builder l calls
      → Next builder l calls
  table_columns_part rounds none s cur_table column_name next a w = applied builder l calls next w (
      apply_all builder (append_null (table 2) ∷ append_null (table 3) ∷ finish tables_items ∷ [])
        a)
  table_columns_part rounds (some columns_stmt) s cur_table column_name next a w =
      when_built
        (λ a w.
          applied builder l calls
            (λ a w.
              when_built
                (λ a w.
                  applied builder l calls next
                    (calls.clear_bindings s.fk_stmt (calls.clear_bindings s.pk_stmt w))
                    (apply_all builder (finish (table 3) ∷ finish tables_items ∷ []) a))
                (get_constraints builder l calls rounds s.pk_stmt s.fk_stmt cur_table a w))
            (calls.clear_bindings s.columns_stmt w) (apply_all builder (finish (table 2) ∷ []) a))
        (get_columns builder l calls rounds s.columns_stmt cur_table column_name a w)

  -- A row of `tables_stmt`.
  abbrev pub table_row :
      ℕ
      → Statements
      → Option (List (List ℕ))
      → Option (List ℕ)
      → Next builder l calls
      → Next builder l calls
  table_row rounds s table_type column_name next a w =
      let cur_table_type = unless_null (calls.column_text s.tables_stmt 1 w) in
      let cur_table = unless_null (calls.column_text s.tables_stmt 0 w) in
      if is_asked table_type cur_table_type
      then applied builder l calls
          (table_columns_part rounds s.columns_stmt s cur_table column_name next) w
          (apply_all builder
            (append_string (table 1) cur_table_type ∷ append_string (table 0) cur_table ∷ []) a)
      else next a w

  -- `SqliteConnectionGetTablesInner`
  unfoldable pub tables_loop :
      ℕ
      → ℕ
      → Statements
      → Option (List (List ℕ))
      → Option (List ℕ)
      → Arrays
      → ResultCode × World
      → Built builder l calls
  unfolding get_columns get_constraints found_type apply_all
  tables_loop zero rounds s table_type column_name a (ResultCode.row, w) = unfinished
  tables_loop (suc turns) rounds s table_type column_name a (ResultCode.row, w) =
      table_row rounds s table_type column_name
        (λ a' w'.
          tables_loop turns rounds s table_type column_name a' (step_statement s.tables_stmt w'))
        a w
  tables_loop turns rounds s table_type column_name a (ResultCode.done, w) =
      applied builder l calls built w (apply_all builder (finish (schema 1) ∷ []) a)
  tables_loop turns rounds s table_type column_name a (rc, w) = refused StatusCode.internal w

  abbrev pub is_ok : ResultCode → Bool
  is_ok ResultCode.ok = true
  is_ok rc = false

  -- `if (rc == SQLITE_OK && depth == ADBC_OBJECT_DEPTH_COLUMNS)`
  abbrev pub prepare_if :
      Bool
      → Handle
      → List ℕ
      → (Option Stmt → Statements → Statements)
      → Bool × Statements × World
      → Bool × Statements × World
  prepare_if asked h text put (false, s, w) = (false, s, w)
  prepare_if false h text put (true, s, w) = (true, s, w)
  prepare_if true h text put (true, s, w) =
      let (rc, stmt, w) = prepare_v2 (some h) text w in (is_ok rc, put stmt s, w)

  abbrev pub no_statements : Statements
  no_statements = record { tables_stmt = none; columns_stmt = none; pk_stmt = none; fk_stmt = none }

  abbrev pub table_query : List ℕ
  table_query =
      codes
        "SELECT name, type FROM sqlite_master WHERE name LIKE ? AND type <> 'index'ORDER BY name ASC"

  abbrev pub column_query : List ℕ
  column_query =
      codes
        "SELECT cid, name, type, \"notnull\", dflt_value FROM pragma_table_info(?) WHERE name LIKE ? ORDER BY cid ASC"

  abbrev pub primary_key_query : List ℕ
  primary_key_query = codes "SELECT name FROM pragma_table_info(?) WHERE pk > 0 ORDER BY pk ASC"

  abbrev pub foreign_key_query : List ℕ
  foreign_key_query =
      codes
        "SELECT id, seq, \"table\", \"from\", \"to\" FROM pragma_foreign_key_list(?) ORDER BY id, seq ASC"

  abbrev pub prepare_all : Bool → Handle → World → Bool × Statements × World
  prepare_all asked h w =
      prepare_if asked h foreign_key_query (λ stmt s. record s { fk_stmt = stmt })
        (prepare_if asked h primary_key_query (λ stmt s. record s { pk_stmt = stmt })
          (prepare_if asked h column_query (λ stmt s. record s { columns_stmt = stmt })
            (prepare_if true h table_query (λ stmt s. record s { tables_stmt = stmt })
              (true, no_statements, w))))

  -- The four calls of `sqlite3_finalize`.
  abbrev pub finalize_all : Statements → World → World
  finalize_all s w =
      (finalize s.fk_stmt
        (finalize s.pk_stmt (finalize s.columns_stmt (finalize s.tables_stmt w).1).1).1).1

  abbrev pub finalized : Statements → Built builder l calls → Built builder l calls
  finalized s (built a w) = built a (finalize_all s w)
  finalized s (refused status w) = refused status (finalize_all s w)
  finalized s unfinished = unfinished
  finalized s fault = fault

  abbrev pub tables_prepared :
      ℕ
      → ℕ
      → Option (List ℕ)
      → Option (List (List ℕ))
      → Option (List ℕ)
      → Arrays
      → Bool × Statements × World
      → Built builder l calls
  tables_prepared turns rounds table_name table_type column_name a (false, s, w) =
      finalized s (refused StatusCode.internal w)
  tables_prepared turns rounds table_name table_type column_name a (true, s, w) = finalized s (
      raise builder l calls
        (λ w. tables_loop turns rounds s table_type column_name a (step_statement s.tables_stmt w))
        (calls.bind_text64 s.tables_stmt 1 (pattern_of table_name) w))

  -- `SqliteConnectionGetTablesImpl`, where `asked` is `depth == ADBC_OBJECT_DEPTH_COLUMNS`.
  unfoldable pub get_tables :
      ℕ
      → ℕ
      → Handle
      → Bool
      → Option (List ℕ)
      → Option (List (List ℕ))
      → Option (List ℕ)
      → Arrays
      → World
      → Built builder l calls
  unfolding tables_loop
  get_tables turns rounds h asked table_name table_type column_name a w =
      tables_prepared turns rounds table_name table_type column_name a (prepare_all asked h w)

  -- `ADBC_OBJECT_DEPTH_*`; `ALL` is `COLUMNS`.
  pub data Depth : Type 0 where
    catalogs db_schemas tables columns : Depth

  abbrev pub after_calls : List Call → Next builder l calls → Arrays → World → Built builder l calls
  after_calls cs next a w = applied builder l calls next w (apply_all builder cs a)

  -- The tables of the one schema, at a depth below `ADBC_OBJECT_DEPTH_CATALOGS`.
  abbrev pub schema_part :
      ℕ
      → ℕ
      → Handle
      → Depth
      → Option (List ℕ)
      → Option (List (List ℕ))
      → Option (List ℕ)
      → Next builder l calls
      → Next builder l calls
  schema_part turns rounds h Depth.catalogs table_name table_type column_name next a w =
      after_calls (append_null (catalog 1) ∷ []) next a w
  schema_part turns rounds h Depth.db_schemas table_name table_type column_name next a w =
      after_calls
        (append_null (schema 0)
          ∷ append_null (schema 1)
          ∷ finish schemas_items
          ∷ finish (catalog 1)
          ∷ [])
        next a w
  schema_part turns rounds h Depth.tables table_name table_type column_name next a w =
      after_calls (append_null (schema 0) ∷ [])
        (λ a w.
          when_built (after_calls (finish schemas_items ∷ finish (catalog 1) ∷ []) next)
            (get_tables turns rounds h false table_name table_type column_name a w))
        a w
  schema_part turns rounds h Depth.columns table_name table_type column_name next a w =
      after_calls (append_null (schema 0) ∷ [])
        (λ a w.
          when_built (after_calls (finish schemas_items ∷ finish (catalog 1) ∷ []) next)
            (get_tables turns rounds h true table_name table_type column_name a w))
        a w

  -- `if (depth == ADBC_OBJECT_DEPTH_CATALOGS) ... else if (!db_schema || db_schema == NULL)`
  abbrev pub catalog_part :
      ℕ
      → ℕ
      → Handle
      → Depth
      → Option (List ℕ)
      → Option (List ℕ)
      → Option (List (List ℕ))
      → Option (List ℕ)
      → Next builder l calls
      → Next builder l calls
  catalog_part turns rounds h depth none table_name table_type column_name next a w =
      schema_part turns rounds h depth table_name table_type column_name next a w
  catalog_part turns rounds h Depth.catalogs (some db_schema) table_name table_type column_name next
        a w =
      after_calls (append_null (catalog 1) ∷ []) next a w
  catalog_part turns rounds h depth (some db_schema) table_name table_type column_name next a w =
      after_calls (finish (catalog 1) ∷ []) next a w

  abbrev pub is_main : Option (List ℕ) → Bool
  is_main none = true
  is_main (some name) = bytes_eq name (codes "main")

  -- `SqliteConnectionGetObjectsImpl`, from the arrays that `ArrowArrayStartAppending` leaves on.
  unfoldable pub get_objects :
      ℕ
      → ℕ
      → Handle
      → Depth
      → Option (List ℕ)
      → Option (List ℕ)
      → Option (List ℕ)
      → Option (List (List ℕ))
      → Option (List ℕ)
      → Arrays
      → World
      → Built builder l calls
  unfolding get_tables
  get_objects turns rounds h depth name db_schema table_name table_type column_name a w =
      if is_main name
      then after_calls (append_string (catalog 0) (codes "main") ∷ [])
          (catalog_part turns rounds h depth db_schema table_name table_type column_name
            (after_calls (finish root ∷ finish_building ∷ []) built))
          a w
      else after_calls (finish_building ∷ []) built a w
