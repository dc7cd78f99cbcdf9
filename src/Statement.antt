-- ===== src/Statement.antt =====
-- Statements, c/driver/sqlite/sqlite.c: the state of `struct SqliteStatement` and the operations that
-- set it. A `private_data` that is NULL is `none`, and so is a string, an `sqlite3*` or an
-- `sqlite3_stmt*`.
pub mod Invariant
pub mod Prepare
mod Tests
use arrow_adbc.Base.{
  ℕ, zero, suc, ◌-◌, ◌^◌, ltb, Bool, true, false, Option, none, some, List, [], ◌∷◌, if◌then◌else◌,
  ℤ, pos, negsuc,
}
use arrow_adbc.Adbc.{StatusCode}
use arrow_adbc.Engine.{ResultCode}
use arrow_adbc.Params.{Row, StreamItem, StreamSchema, Binder, release, binder_set, set_array_stream}
use arrow_adbc.Library.{Library}
use arrow_adbc.Connection.{Connection}

-- `INT_MAX`
abbrev pub int_max : ℕ
int_max = 2 ^ 31 - 1

-- `struct SqliteStatement`
pub record Statement (Double : Type 0) (l : Library) : Type 0 where
  pub conn : l.Handle
  pub stmt : Option l.Stmt
  pub prepared : Bool
  pub query : Option (List ℕ)
  pub binder : Binder Double
  pub target_table : Option (List ℕ)
  pub append : Bool
  pub batch_size : ℕ

-- A key and its value, as `strcmp` tells them apart. `batch_rows` carries what `strtol` makes of
-- the value, and whether `errno` is set after it.
pub data StatementOption : Type 0 where
  ingest_target_table : List ℕ → StatementOption
  ingest_mode_append ingest_mode_create ingest_mode_other unknown : StatementOption
  batch_rows : ℤ → Bool → StatementOption

module _ (Double : Type 0) (l : Library) where
  open l use {World, Handle, Stmt, prepare_v2, finalize}

  abbrev pub no_binder : Binder Double
  no_binder = record { schema = none; params = none; types = none; array = none; next_row = 0 }

  abbrev pub fresh_statement : Handle → Statement Double l
  fresh_statement h = record {
    conn = h;
    stmt = none;
    prepared = false;
    query = none;
    binder = no_binder;
    target_table = none;
    append = false;
    batch_size = 1_024;
  }

  -- `SqliteStatementNew`
  unfoldable pub statement_new :
      Option (Connection l) → Option (Statement Double l) → StatusCode × Option (Statement Double l)
  statement_new none s = (StatusCode.invalid_state, s)
  statement_new (some c) (some s) = (StatusCode.invalid_state, some s)
  statement_new (some c) none = elim c.conn [
    | none ↦ (StatusCode.invalid_state, none)
    | some h ↦ (StatusCode.ok, some (fresh_statement h))
  ]

  abbrev pub release_status : ResultCode × World → StatusCode × World
  release_status (ResultCode.ok, w) = (StatusCode.ok, w)
  release_status (rc, w) = (StatusCode.io, w)

  -- `SqliteStatementRelease`: the statement goes whatever `sqlite3_finalize` returns.
  unfoldable pub statement_release :
      Option (Statement Double l) → World → StatusCode × Option (Statement Double l) × World
  statement_release none w = (StatusCode.invalid_state, none, w)
  statement_release (some s) w = elim s.stmt [
    | none ↦ (StatusCode.ok, none, w)
    | some stmt ↦ let (status, w) = release_status (finalize (some stmt) w) in (status, none, w)
  ]

  abbrev pub Changed : Type 0
  Changed = StatusCode × Statement Double l × World

  abbrev pub after_prepare : Statement Double l → ResultCode × Option Stmt × World → Changed
  after_prepare s (ResultCode.ok, stmt, w) =
      (StatusCode.ok, record s { stmt = stmt; prepared = true }, w)
  after_prepare s (rc, stmt, w) =
      let (rc, w) = finalize stmt w in (StatusCode.invalid_argument, record s { stmt = none }, w)

  -- After the previous statement was finalized.
  abbrev pub after_finalize : Statement Double l → List ℕ → ResultCode × World → Changed
  after_finalize s query (ResultCode.ok, w) =
      after_prepare (record s { stmt = none }) (prepare_v2 (some s.conn) query w)
  after_finalize s query (rc, w) = (StatusCode.io, record s { stmt = none }, w)

  abbrev pub prepare_query :
      Statement Double l → Option (List ℕ) → Bool → Option Stmt → World → Changed
  prepare_query s none prepared stmt w = (StatusCode.invalid_state, s, w)
  prepare_query s (some query) true stmt w = (StatusCode.ok, s, w)
  prepare_query s (some query) false none w = after_prepare s (prepare_v2 (some s.conn) query w)
  prepare_query s (some query) false (some stmt) w = after_finalize s query (finalize (some stmt) w)

  -- `SqliteStatementPrepare` on a statement.
  unfoldable pub statement_prepare : Statement Double l → World → Changed
  statement_prepare s w = prepare_query s s.query s.prepared s.stmt w

  -- `SqliteStatementSetSqlQuery`
  unfoldable pub statement_set_sql_query :
      List ℕ → Statement Double l → StatusCode × Statement Double l
  statement_set_sql_query query s =
      (StatusCode.ok, record s { query = some query; target_table = none; prepared = false })

  -- `SqliteStatementBindStream`
  unfoldable pub statement_bind_stream :
      StreamSchema → List (StreamItem Double) → Statement Double l → StatusCode × Statement Double l
  statement_bind_stream schema values s =
      let (status, binder) = set_array_stream schema values s.binder in
      (status, record s { binder = binder })

  -- `SqliteStatementBind`, where `none` is an array or a schema that is released: these are tested by
  -- `BatchToArrayStream`, whose stream gives the one array.
  unfoldable pub statement_bind :
      Option StreamSchema
      → Option (StreamItem Double)
      → Statement Double l
      → StatusCode × Statement Double l
  unfolding statement_bind_stream
  statement_bind schema none s = (StatusCode.internal, record s { binder = release s.binder })
  statement_bind none (some values) s =
      (StatusCode.internal, record s { binder = release s.binder })
  statement_bind (some schema) (some values) s = statement_bind_stream schema (values ∷ []) s

  abbrev pub set_batch_size : ℤ → Bool → Statement Double l → StatusCode × Statement Double l
  set_batch_size z true s = (StatusCode.invalid_argument, s)
  set_batch_size (negsuc n) false s = (StatusCode.invalid_argument, s)
  set_batch_size (pos zero) false s = (StatusCode.invalid_argument, s)
  set_batch_size (pos (suc n)) false s =
      if ltb int_max (suc n)
      then (StatusCode.invalid_argument, s)
      else (StatusCode.ok, record s { batch_size = suc n })

  -- `SqliteStatementSetOption`
  unfoldable pub statement_set_option :
      StatementOption → Statement Double l → StatusCode × Statement Double l
  statement_set_option (StatementOption.ingest_target_table table) s =
      (StatusCode.ok, record s { query = none; target_table = some table })
  statement_set_option StatementOption.ingest_mode_append s =
      (StatusCode.ok, record s { append = true })
  statement_set_option StatementOption.ingest_mode_create s =
      (StatusCode.ok, record s { append = false })
  statement_set_option StatementOption.ingest_mode_other s = (StatusCode.invalid_argument, s)
  statement_set_option (StatementOption.batch_rows value errno) s = set_batch_size value errno s
  statement_set_option StatementOption.unknown s = (StatusCode.not_implemented, s)

  -- `SqliteStatementSetSubstraitPlan`
  unfoldable pub statement_set_substrait_plan : Option (Statement Double l) → StatusCode
  statement_set_substrait_plan none = StatusCode.invalid_state
  statement_set_substrait_plan (some s) = StatusCode.not_implemented
