-- ===== src/Manager/Session.antt =====
-- A database, a connection and a statement of the driver manager together,
-- c/driver_manager/adbc_driver_manager.cc: the three share one `struct AdbcDriver`, which
-- `AdbcDatabaseInit` makes and `AdbcDatabaseRelease` deletes.
pub mod Shares
pub mod Sound
use arrow_adbc.Base.{ℕ, ◌≡◌, ◌≢◌, Option, none, some, List}
use arrow_adbc.Adbc.{StatusCode, Outcome, done, failed, fault, ◌>>=◌}
use arrow_adbc.Manager.Table.{Function, Pointer}
use arrow_adbc.Manager.System.{System}
use arrow_adbc.Manager.Database as Database
use arrow_adbc.Manager.Database.{Driver}
use arrow_adbc.Manager.Database.Phases as Phases
use arrow_adbc.Manager.Database.Phases.{Phase}
use arrow_adbc.Manager.Connection.{Connection}
use arrow_adbc.Manager.Connection.Safe as Safe
use arrow_adbc.Manager.Forward as Forward
use arrow_adbc.Manager.Forward.{Statement}

-- The functions that are passed on.
pub data Request : Type 0 where
  commit rollback get_info get_objects get_table_schema get_table_types read_partition : Request
  bind bind_stream execute_partitions execute_query get_parameter_schema prepare : Request
  set_statement_option set_sql_query set_substrait_plan : Request

-- A driver need not have `StatementBindStream`, and the manager has no stub for it.
abbrev pub Serves : Request → Statement → Type 0
Serves Request.bind_stream t =
    (driver : Driver)
    → t.private_driver ≡ some driver
    → driver.table Function.statement_bind_stream ≢ Pointer.null
Serves q t = Unit

module _ (sys : System) where
  open sys use {World}

  pub record Session : Type 0 where
    pub database : Database.Database sys
    pub connection : Connection
    pub statement : Statement

  pub data Operation : Type 0 where
    on_database : Phases.Operation sys → Operation
    set_connection_option : List ℕ → List ℕ → Operation
    init_connection release_connection new_statement release_statement : Operation
    request : Request → Operation

  abbrev pub ask : Request → Connection → Statement → World → Outcome (StatusCode × World)
  ask Request.commit c s w = Forward.connection_commit sys c w
  ask Request.rollback c s w = Forward.connection_rollback sys c w
  ask Request.get_info c s w = Forward.connection_get_info sys c w
  ask Request.get_objects c s w = Forward.connection_get_objects sys c w
  ask Request.get_table_schema c s w = Forward.connection_get_table_schema sys c w
  ask Request.get_table_types c s w = Forward.connection_get_table_types sys c w
  ask Request.read_partition c s w = Forward.connection_read_partition sys c w
  ask Request.bind c s w = Forward.statement_bind sys s w
  ask Request.bind_stream c s w = Forward.statement_bind_stream sys s w
  ask Request.execute_partitions c s w = Forward.statement_execute_partitions sys s w
  ask Request.execute_query c s w = Forward.statement_execute_query sys s w
  ask Request.get_parameter_schema c s w = Forward.statement_get_parameter_schema sys s w
  ask Request.prepare c s w = Forward.statement_prepare sys s w
  ask Request.set_statement_option c s w = Forward.statement_set_option sys s w
  ask Request.set_sql_query c s w = Forward.statement_set_sql_query sys s w
  ask Request.set_substrait_plan c s w = Forward.statement_set_substrait_plan sys s w

  abbrev pub Ended : Type 0
  Ended = Outcome (StatusCode × Session × World)

  abbrev pub with_database : Session → StatusCode × Database.Database sys × World → Ended
  with_database s (status, d, w) = done (status, record s { database = d }, w)

  abbrev pub with_connection : Session → StatusCode × Connection × World → Ended
  with_connection s (status, c, w) = done (status, record s { connection = c }, w)

  abbrev pub with_statement : Session → StatusCode × Statement × World → Ended
  with_statement s (status, t, w) = done (status, record s { statement = t }, w)

  abbrev pub unchanged : Session → StatusCode × World → Ended
  unchanged s (status, w) = done (status, s, w)

  -- One call of the application.
  unfoldable pub perform : Operation → Session → World → Ended
  perform (on_database op) s w = do r ← Phases.perform sys op s.database w; with_database s r
  perform (set_connection_option key value) s w = do
    r ← Safe.perform sys (Safe.Operation.set_option key value) s.connection w
    with_connection s r
  perform init_connection s w = do
    r ← Safe.perform sys (Safe.Operation.init s.database.private_driver) s.connection w
    with_connection s r
  perform release_connection s w = do
    r ← Safe.perform sys Safe.Operation.release s.connection w
    with_connection s r
  perform new_statement s w = do
    r ← Forward.statement_new sys s.connection s.statement w
    with_statement s r
  perform release_statement s w = do
    r ← Forward.statement_release sys s.statement w
    with_statement s r
  perform (request q) s w = do r ← ask q s.connection s.statement w; unchanged s r

  -- The order of calls that adbc.h asks for: a database is released last, and a connection is not in use
  -- when it is initialised and has no statement when it is released. A stream is bound only with a driver
  -- that has a function for it.
  pub data Permits : Operation → Phase → Session → Type 0 where
    use_database :
        {op : Phases.Operation sys} {phase : Phase} {s : Session}
        → Phases.Allowed sys op phase
        → op ≢ Phases.Operation.release
        → Permits (on_database op) phase s
    drop_database :
        {phase : Phase} {s : Session}
        → s.connection.private_driver ≡ none
        → s.statement.private_driver ≡ none
        → Permits (on_database Phases.Operation.release) phase s
    set_option :
        {key value : List ℕ} {phase : Phase} {s : Session}
        → Permits (set_connection_option key value) phase s
    open_connection :
        {phase : Phase} {s : Session}
        → s.connection.private_driver ≡ none
        → Permits init_connection phase s
    close_connection :
        {phase : Phase} {s : Session}
        → s.statement.private_driver ≡ none
        → Permits release_connection phase s
    open_statement : {phase : Phase} {s : Session} → Permits new_statement phase s
    close_statement : {phase : Phase} {s : Session} → Permits release_statement phase s
    ask_driver :
        {q : Request} {phase : Phase} {s : Session}
        → Serves q s.statement
        → Permits (request q) phase s
