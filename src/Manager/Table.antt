-- ===== src/Manager/Table.antt =====
-- The functions of a driver, c/driver_manager/adbc_driver_manager.cc: `AdbcLoadDriverFromInitFunc`
-- and the default stubs, on the function pointers of `struct AdbcDriver` (adbc.h).
pub mod Complete
use arrow_adbc.Base.{ℕ, Bool, true, false, List, [], ◌∷◌}
use mathlib.Core.Logic.{ite}
use arrow_adbc.Adbc.{StatusCode, Outcome, done, failed}

-- The fields of `struct AdbcDriver` that are functions, less `release`.
pub data Function : Type 0 where
  database_new database_init database_release database_set_option : Function
  connection_new connection_init connection_release connection_commit : Function
  connection_get_info connection_get_objects connection_get_table_schema : Function
  connection_get_table_types connection_read_partition connection_rollback : Function
  connection_set_option : Function
  statement_new statement_release statement_execute_query : Function
  statement_execute_partitions statement_bind statement_bind_stream : Function
  statement_get_parameter_schema statement_prepare statement_set_option : Function
  statement_set_sql_query statement_set_substrait_plan : Function

-- A function pointer: NULL, the driver's, or the manager's default stub.
pub data Pointer : Type 0 where
  null provided stub : Pointer

abbrev pub Table : Type 0
Table = Function → Pointer

abbrev pub pointer_of : Bool → Pointer
pointer_of true = provided
pointer_of false = null

-- A line of `AdbcLoadDriverFromInitFunc`.
pub data Line : Type 0 where
  check_required fill_default : Function → Line

-- The lines in their order.
abbrev pub lines : List Line
lines =
    check_required database_new
    ∷ check_required database_init
    ∷ check_required database_release
    ∷ fill_default database_set_option
    ∷ check_required connection_new
    ∷ check_required connection_init
    ∷ check_required connection_release
    ∷ fill_default connection_commit
    ∷ fill_default connection_get_info
    ∷ fill_default connection_get_objects
    ∷ fill_default connection_get_table_schema
    ∷ fill_default connection_get_table_types
    ∷ fill_default connection_read_partition
    ∷ fill_default connection_rollback
    ∷ fill_default connection_set_option
    ∷ fill_default statement_execute_partitions
    ∷ check_required statement_execute_query
    ∷ check_required statement_new
    ∷ check_required statement_release
    ∷ fill_default statement_bind
    ∷ fill_default statement_get_parameter_schema
    ∷ fill_default statement_prepare
    ∷ fill_default statement_set_option
    ∷ fill_default statement_set_sql_query
    ∷ fill_default statement_set_substrait_plan
    ∷ []

pub Function-discrete : Discrete Function
Function-discrete = hlevel

-- `driver->STUB = &STUB`, if the pointer is NULL.
abbrev pub default_pointer : Pointer → Pointer
default_pointer Pointer.null = Pointer.stub
default_pointer Pointer.provided = Pointer.provided
default_pointer Pointer.stub = Pointer.stub

-- The pointers after `init_func`: NULL where it did not set one.
abbrev pub set_by : (Function → Bool) → Table
set_by set f = pointer_of (set f)

abbrev pub set_pointer : Function → Pointer → Table → Table
set_pointer f pointer t g = ite (Function-discrete f g) pointer (t g)

-- `CHECK_REQUIRED`, before the rest.
abbrev pub check : Pointer → Outcome Table → Outcome Table
check Pointer.null rest = failed StatusCode.internal
check Pointer.provided rest = rest
check Pointer.stub rest = rest

unfoldable pub load_lines : List Line → Table → Outcome Table
load_lines [] t = done t
load_lines (check_required f ∷ ls) t = check (t f) (load_lines ls t)
load_lines (fill_default f ∷ ls) t = load_lines ls (set_pointer f (default_pointer (t f)) t)

-- `AdbcLoadDriverFromInitFunc` for version 1.0.0, on what `init_func` returned and set.
unfoldable pub load_driver : StatusCode → Table → Outcome Table
unfolding load_lines
load_driver StatusCode.ok t = load_lines lines t
load_driver status t = failed status
