-- ===== src/Execute.antt =====
-- The execution of statements, c/driver/sqlite/sqlite.c: `SqliteStatementExecuteQuery`, with
-- `SqliteStatementInitIngest` and `SqliteStatementExecuteIngest`, and
-- `SqliteStatementGetParameterSchema`.
pub mod Toy
pub mod Ingestion
pub mod Dispatch
pub mod Parameters
pub mod Loops
pub mod Ends
mod Tests
use arrow_adbc.Base.{
  ℕ, zero, suc, ◌+◌, ◌==◌, Bool, true, false, Option, none, some, List, [], ◌∷◌, map, length,
  if◌then◌else◌, pos,
}
use arrow_adbc.Adbc.{StatusCode, Outcome, done, failed, fault, ◌>>=◌}
use arrow_adbc.Platform.{Platform, Value}
use arrow_adbc.Decimal.{print_int64}
use arrow_adbc.Engine.{Engine, ResultCode, Bound}
use arrow_adbc.Params.{Field, Binder, release}
use arrow_adbc.Stream.{Reader}
use arrow_adbc.Export.{export_reader}
use arrow_adbc.Library.{Library}
use arrow_adbc.StringBuilder.{StringBuilder}
use arrow_adbc.Ingest.{create_query, insert_query}
use arrow_adbc.Ingest.Execute.{Ingested, ingest_rows}
use arrow_adbc.Update.{Updated, execute_update}
use arrow_adbc.Statement.{Statement, statement_prepare}

-- The `sqlite3_*` calls on a prepared statement, beside those of the library. A number of parameters is
-- not negative.
pub record StatementCalls (Double : Type 0) (l : Library) : Type 0 where
  pub reset : Option l.Stmt → l.World → Bool × l.World
  pub clear_bindings : Option l.Stmt → l.World → Bool × l.World
  pub bind : Option l.Stmt → l.World → ℕ → Bound Double → Bool × l.World
  pub column_count : Option l.Stmt → l.World → ℕ
  pub column_name : Option l.Stmt → l.World → ℕ → List ℕ
  pub column : Option l.Stmt → l.World → ℕ → Value Double
  pub bind_parameter_count : Option l.Stmt → l.World → ℕ
  pub bind_parameter_name : Option l.Stmt → l.World → ℕ → Option (List ℕ)

-- What is written to `*rows_affected`: nothing, a number, or -1.
pub data Affected : Type 0 where
  untouched unknown : Affected
  counted : ℕ → Affected

abbrev pub name_of : Field → List ℕ
name_of f = f.name

module _ (p : Platform) (l : Library) (calls : StatementCalls p.Double l)
    (view_init : ℕ → Bool) where
  open p use {Double}
  open l use {World, Handle, Stmt, prepare_v2, step_statement, finalize}

  -- The engine of `Engine` for a statement of the library.
  abbrev pub engine_of : Option Stmt → Engine Double
  engine_of stmt = record {
    World = World;
    step = step_statement stmt;
    reset = calls.reset stmt;
    clear_bindings = calls.clear_bindings stmt;
    bind = calls.bind stmt;
    column_count = calls.column_count stmt;
    column_name = calls.column_name stmt;
    column = calls.column stmt;
  }

  -- What the call leaves: the status, `*rows_affected`, the stream, the statement and the library.
  pub data Executed : Type 0 where
    returned :
        StatusCode
        → Affected
        → Option (Reader Double)
        → Option (Statement Double l)
        → World
        → Executed
    undefined unfinished : Executed

  -- `rc != SQLITE_OK && rc != SQLITE_DONE`
  abbrev pub created : ResultCode → StatusCode
  created ResultCode.ok = StatusCode.ok
  created ResultCode.done = StatusCode.ok
  created rc = StatusCode.internal

  abbrev pub create_stepped : Option Stmt → ResultCode × World → StatusCode × Option Stmt × World
  create_stepped create (rc, w) = (created rc, create, w)

  abbrev pub create_prepared : ResultCode × Option Stmt × World → StatusCode × Option Stmt × World
  create_prepared (ResultCode.ok, create, w) = create_stepped create (step_statement create w)
  create_prepared (rc, create, w) = (created rc, create, w)

  -- `if (!stmt->append)`
  abbrev pub create_table : Bool → Handle → List ℕ → World → StatusCode × Option Stmt × World
  create_table true h text w = (StatusCode.ok, none, w)
  create_table false h text w = create_prepared (prepare_v2 (some h) text w)

  -- The end of `SqliteStatementInitIngest`: `create` is finalized.
  abbrev pub drop_create :
      Option Stmt → StatusCode → Option Stmt → World → StatusCode × Option Stmt × World
  drop_create create status insert w = let (rc, w) = finalize create w in (status, insert, w)

  abbrev pub insert_prepared :
      Option Stmt → ResultCode × Option Stmt × World → StatusCode × Option Stmt × World
  insert_prepared create (ResultCode.ok, insert, w) = drop_create create StatusCode.ok insert w
  insert_prepared create (rc, insert, w) = drop_create create StatusCode.internal insert w

  abbrev pub prepare_insert :
      Handle → List ℕ → StatusCode × Option Stmt × World → StatusCode × Option Stmt × World
  prepare_insert h text (StatusCode.ok, create, w) =
      insert_prepared create (prepare_v2 (some h) text w)
  prepare_insert h text (status, create, w) = drop_create create status none w

  -- `SqliteStatementInitIngest`: the status, `*insert_statement`, and the library.
  unfoldable pub init_ingest :
      List ℕ → List (List ℕ) → Bool → Handle → World → Outcome (StatusCode × Option Stmt × World)
  init_ingest target_table names append h w = do
    create ← create_query target_table names
    insert ← insert_query target_table names
    done (prepare_insert h insert.chars (create_table append h create.chars w))

  -- `if (insert) sqlite3_finalize(insert)`
  abbrev pub drop_insert : Option Stmt → World → World
  drop_insert none w = w
  drop_insert (some insert) w = (finalize (some insert) w).1

  abbrev pub ingest_end :
      Statement Double l → (insert : Option Stmt) → Ingested p (engine_of insert) → Executed
  ingest_end s insert (Ingested.ingested status rows b w) =
      returned status (Affected.counted rows) none (some (record s { binder = b }))
        (drop_insert insert w)
  ingest_end s insert Ingested.undefined = undefined
  ingest_end s insert Ingested.unfinished = unfinished

  abbrev pub ingest_started :
      ℕ → ℕ → Statement Double l → Outcome (StatusCode × Option Stmt × World) → Executed
  ingest_started turns rounds s (done (StatusCode.ok, insert, w)) =
      ingest_end s insert (ingest_rows p (engine_of insert) view_init turns rounds 0 s.binder w)
  ingest_started turns rounds s (done (status, insert, w)) =
      returned status (Affected.counted 0) none (some (record s { binder = release s.binder }))
        (drop_insert insert w)
  ingest_started turns rounds s (failed status) = undefined
  ingest_started turns rounds s fault = undefined

  abbrev pub ingest_by :
      ℕ → ℕ → Option (List Field) → List ℕ → Statement Double l → World → Executed
  ingest_by turns rounds none target_table s w =
      returned StatusCode.invalid_state Affected.untouched none (some s) w
  ingest_by turns rounds (some fields) target_table s w =
      ingest_started turns rounds s
        (init_ingest target_table (map name_of fields) s.append s.conn w)

  -- `SqliteStatementExecuteIngest`
  unfoldable pub execute_ingest : ℕ → ℕ → List ℕ → Statement Double l → World → Executed
  unfolding init_ingest
  execute_ingest turns rounds target_table s w =
      ingest_by turns rounds s.binder.schema target_table s w

  abbrev pub update_returned :
      Statement Double l → (stmt : Option Stmt) → Updated p (engine_of stmt) → Executed
  update_returned s stmt (Updated.updated status rows b w) =
      returned status (Affected.counted rows) none (some (record s { binder = b })) w
  update_returned s stmt Updated.undefined = undefined
  update_returned s stmt Updated.unfinished = unfinished

  abbrev pub query_returned :
      Statement Double l → Outcome (StatusCode × Reader Double × Binder Double × World) → Executed
  query_returned s (done (status, reader, b, w)) =
      returned status Affected.unknown (some reader) (some (record s { binder = b })) w
  query_returned s (failed status) = undefined
  query_returned s fault = undefined

  -- `stmt->binder.schema.release`
  abbrev pub bound : Option (List Field) → Bool
  bound none = false
  bound (some fields) = true

  -- With `out` or without, once the number of parameters is right.
  abbrev pub run_prepared : ℕ → ℕ → Bool → Statement Double l → World → Executed
  run_prepared turns rounds false s w =
      update_returned s s.stmt
        (execute_update p (engine_of s.stmt) view_init turns rounds s.binder w)
  run_prepared turns rounds true s w =
      query_returned s (
        export_reader p (engine_of s.stmt) view_init (bound s.binder.schema) s.batch_size s.binder
          w)

  -- `if (stmt->binder.schema.release)`, and the numbers of parameters.
  abbrev pub count_matches : Option (List Field) → ℕ → Bool
  count_matches none expected = true
  count_matches (some fields) expected = length fields == expected

  abbrev pub run_matching : ℕ → ℕ → Bool → Bool → Statement Double l → World → Executed
  run_matching turns rounds out false s w =
      returned StatusCode.invalid_state Affected.untouched none (some s) w
  run_matching turns rounds out true s w = run_prepared turns rounds out s w

  abbrev pub query_prepared : ℕ → ℕ → Bool → StatusCode × Statement Double l × World → Executed
  query_prepared turns rounds out (StatusCode.ok, s, w) =
      run_matching turns rounds out
        (count_matches s.binder.schema (calls.bind_parameter_count s.stmt w)) s w
  query_prepared turns rounds out (status, s, w) =
      returned status Affected.untouched none (some s) w

  abbrev pub execute_by : ℕ → ℕ → Bool → Option (List ℕ) → Statement Double l → World → Executed
  execute_by turns rounds out (some target_table) s w = execute_ingest turns rounds target_table s w
  execute_by turns rounds out none s w =
      query_prepared turns rounds out (statement_prepare Double l s w)

  -- `SqliteStatementExecuteQuery`, with an `out` or NULL. The loops of an ingestion or an update take
  -- so many turns, each with so many rounds.
  unfoldable pub statement_execute_query :
      ℕ → ℕ → Bool → Option (Statement Double l) → World → Executed
  unfolding execute_ingest
  statement_execute_query turns rounds out none w =
      returned StatusCode.invalid_state Affected.untouched none none w
  statement_execute_query turns rounds out (some s) w =
      execute_by turns rounds out s.target_table s w

  -- `name == NULL`: the index, which `snprintf` writes.
  abbrev pub parameter_name : ℕ → Option (List ℕ) → List ℕ
  parameter_name i none = print_int64 (pos i)
  parameter_name i (some name) = name

  -- The loop over the parameters, so many from parameter `i` on. `set` is whether nanoarrow can set the
  -- type and the name of a child.
  unfoldable pub parameter_names :
      (ℕ → Bool) → ℕ → ℕ → Option Stmt → World → Outcome (List (List ℕ))
  parameter_names set zero i stmt w = done []
  parameter_names set (suc more) i stmt w =
      if set i
      then (do
        names ← parameter_names set more (i + 1) stmt w
        done (parameter_name i (calls.bind_parameter_name stmt w (i + 1)) ∷ names))
      else failed StatusCode.internal

  abbrev pub Described : Type 0
  Described = StatusCode × Option (List (List ℕ)) × Statement Double l × World

  abbrev pub described : Statement Double l → World → Outcome (List (List ℕ)) → Outcome Described
  described s w (done names) = done (StatusCode.ok, some names, s, w)
  described s w (failed status) = done (status, none, s, w)
  described s w fault = fault

  abbrev pub allocated : (ℕ → Bool) → Bool → ℕ → Statement Double l → World → Outcome Described
  allocated set false num_params s w = done (StatusCode.internal, none, s, w)
  allocated set true num_params s w = described s w (parameter_names set num_params 0 s.stmt w)

  abbrev pub schema_prepared :
      (ℕ → Bool) → (ℕ → Bool) → StatusCode × Statement Double l × World → Outcome Described
  schema_prepared allocate set (StatusCode.ok, s, w) =
      let num_params = calls.bind_parameter_count s.stmt w in
      allocated set (allocate num_params) num_params s w
  schema_prepared allocate set (status, s, w) = done (status, none, s, w)

  -- `SqliteStatementGetParameterSchema`: the names of the children, all of type NA. `allocate` is
  -- whether nanoarrow can set the root's type and allocate so many children.
  unfoldable pub get_parameter_schema :
      (ℕ → Bool) → (ℕ → Bool) → Statement Double l → World → Outcome Described
  unfolding parameter_names
  get_parameter_schema allocate set s w =
      schema_prepared allocate set (statement_prepare Double l s w)
