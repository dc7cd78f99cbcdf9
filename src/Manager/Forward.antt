-- ===== src/Manager/Forward.antt =====
-- The functions that the driver manager passes on, c/driver_manager/adbc_driver_manager.cc: what
-- `AdbcConnection*` and `AdbcStatement*` do with the driver of a connection or a statement.
use arrow_adbc.Base.{Option, none, some}
use arrow_adbc.Adbc.{StatusCode, Outcome, done, fault, ◌>>=◌}
use arrow_adbc.Manager.Table.{Function, Pointer}
use arrow_adbc.Manager.System.{System}
use arrow_adbc.Manager.Database.{Driver}
use arrow_adbc.Manager.Connection.{Connection}

-- `struct AdbcStatement`. Its `private_data` is the driver's alone.
pub record Statement : Type 0 where
  pub private_driver : Option Driver

module _ (sys : System) where
  open sys use {World, passed}

  -- A call through the table of functions, with NULL for a pointer that is not set.
  abbrev pub pass_pointer : Pointer → Function → World → Outcome (StatusCode × World)
  pass_pointer Pointer.null f w = fault
  pass_pointer Pointer.stub f w = done (StatusCode.not_implemented, w)
  pass_pointer Pointer.provided f w = done (passed f w)

  -- `if (!private_driver) return ADBC_STATUS_INVALID_STATE`, and the call.
  abbrev pub pass : Function → Option Driver → World → Outcome (StatusCode × World)
  pass f none w = done (StatusCode.invalid_state, w)
  pass f (some driver) w = pass_pointer (driver.table f) f w

  -- `AdbcConnectionCommit`
  unfoldable pub connection_commit : Connection → World → Outcome (StatusCode × World)
  connection_commit c w = pass Function.connection_commit c.private_driver w

  -- `AdbcConnectionGetInfo`
  unfoldable pub connection_get_info : Connection → World → Outcome (StatusCode × World)
  connection_get_info c w = pass Function.connection_get_info c.private_driver w

  -- `AdbcConnectionGetObjects`
  unfoldable pub connection_get_objects : Connection → World → Outcome (StatusCode × World)
  connection_get_objects c w = pass Function.connection_get_objects c.private_driver w

  -- `AdbcConnectionGetTableSchema`
  unfoldable pub connection_get_table_schema : Connection → World → Outcome (StatusCode × World)
  connection_get_table_schema c w = pass Function.connection_get_table_schema c.private_driver w

  -- `AdbcConnectionGetTableTypes`
  unfoldable pub connection_get_table_types : Connection → World → Outcome (StatusCode × World)
  connection_get_table_types c w = pass Function.connection_get_table_types c.private_driver w

  -- `AdbcConnectionReadPartition`
  unfoldable pub connection_read_partition : Connection → World → Outcome (StatusCode × World)
  connection_read_partition c w = pass Function.connection_read_partition c.private_driver w

  -- `AdbcConnectionRollback`
  unfoldable pub connection_rollback : Connection → World → Outcome (StatusCode × World)
  connection_rollback c w = pass Function.connection_rollback c.private_driver w

  -- `AdbcStatementBind`
  unfoldable pub statement_bind : Statement → World → Outcome (StatusCode × World)
  statement_bind s w = pass Function.statement_bind s.private_driver w

  -- `AdbcStatementBindStream`
  unfoldable pub statement_bind_stream : Statement → World → Outcome (StatusCode × World)
  statement_bind_stream s w = pass Function.statement_bind_stream s.private_driver w

  -- `AdbcStatementExecutePartitions`
  unfoldable pub statement_execute_partitions : Statement → World → Outcome (StatusCode × World)
  statement_execute_partitions s w = pass Function.statement_execute_partitions s.private_driver w

  -- `AdbcStatementExecuteQuery`
  unfoldable pub statement_execute_query : Statement → World → Outcome (StatusCode × World)
  statement_execute_query s w = pass Function.statement_execute_query s.private_driver w

  -- `AdbcStatementGetParameterSchema`
  unfoldable pub statement_get_parameter_schema : Statement → World → Outcome (StatusCode × World)
  statement_get_parameter_schema s w =
      pass Function.statement_get_parameter_schema s.private_driver w

  -- `AdbcStatementPrepare`
  unfoldable pub statement_prepare : Statement → World → Outcome (StatusCode × World)
  statement_prepare s w = pass Function.statement_prepare s.private_driver w

  -- `AdbcStatementSetOption`
  unfoldable pub statement_set_option : Statement → World → Outcome (StatusCode × World)
  statement_set_option s w = pass Function.statement_set_option s.private_driver w

  -- `AdbcStatementSetSqlQuery`
  unfoldable pub statement_set_sql_query : Statement → World → Outcome (StatusCode × World)
  statement_set_sql_query s w = pass Function.statement_set_sql_query s.private_driver w

  -- `AdbcStatementSetSubstraitPlan`
  unfoldable pub statement_set_substrait_plan : Statement → World → Outcome (StatusCode × World)
  statement_set_substrait_plan s w = pass Function.statement_set_substrait_plan s.private_driver w

  abbrev pub made_by : Driver → StatusCode × World → Outcome (StatusCode × Statement × World)
  made_by driver (status, w) = done (status, record { private_driver = some driver }, w)

  abbrev pub new_by : Option Driver → Statement → World → Outcome (StatusCode × Statement × World)
  new_by none s w = done (StatusCode.invalid_state, s, w)
  new_by (some driver) s w = do
    r ← pass_pointer (driver.table Function.statement_new) Function.statement_new w
    made_by driver r

  -- `AdbcStatementNew`, which sets the driver also where the driver's function fails.
  unfoldable pub statement_new :
      Connection → Statement → World → Outcome (StatusCode × Statement × World)
  statement_new c s w = new_by c.private_driver s w

  abbrev pub dropped : StatusCode × World → Outcome (StatusCode × Statement × World)
  dropped (status, w) = done (status, record { private_driver = none }, w)

  abbrev pub drop_by : Option Driver → Statement → World → Outcome (StatusCode × Statement × World)
  drop_by none s w = done (StatusCode.invalid_state, s, w)
  drop_by (some driver) s w = do
    r ← pass_pointer (driver.table Function.statement_release) Function.statement_release w
    dropped r

  -- `AdbcStatementRelease`
  unfoldable pub statement_release : Statement → World → Outcome (StatusCode × Statement × World)
  statement_release s w = drop_by s.private_driver s w
