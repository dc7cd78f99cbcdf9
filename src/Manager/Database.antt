-- ===== src/Manager/Database.antt =====
-- Databases of the driver manager, c/driver_manager/adbc_driver_manager.cc: `AdbcDatabaseNew`,
-- `AdbcDatabaseSetOption`, `AdbcDriverManagerDatabaseSetInitFunc`, `AdbcDatabaseInit`,
-- `AdbcDatabaseRelease` and `AdbcLoadDriver`.
pub mod Callable
pub mod Configure
pub mod Phases
pub mod Replay
pub mod Safe
pub mod Reached
use arrow_adbc.Base.{
  ℕ, Bool, true, false, Option, none, some, List, [], ◌∷◌, codes, bytes_eq, if◌then◌else◌,
}
use arrow_adbc.Adbc.{StatusCode, Outcome, done, failed, fault, ◌>>=◌}
use arrow_adbc.Manager.FileName.{open_driver}
use arrow_adbc.Manager.Table.{Function, Pointer, Table, set_by, load_driver}
use arrow_adbc.Manager.Options.{Options, set_entry}
use arrow_adbc.Manager.System.{System, Call}

-- `struct AdbcDriver`: its functions, and whether the driver has a `release` of its own. What
-- `ReleaseDriver` does beside calling that is not visible.
pub record Driver : Type 0 where
  pub table : Table
  pub own_release : Bool

module _ (sys : System) where
  open sys use {World, Handle, InitFunc, dlopen, dlsym, init_func, release, database, order}

  -- `struct TempDatabase`
  pub record TempDatabase : Type 0 where
    pub options : Options
    pub driver : List ℕ
    pub entrypoint : List ℕ
    pub init_func : Option InitFunc

  -- `private_data`: NULL, the manager's `TempDatabase`, or what the driver put there.
  pub data PrivateData : Type 0 where
    null : PrivateData
    temp : TempDatabase → PrivateData
    owned : PrivateData

  -- `struct AdbcDatabase`
  pub record Database : Type 0 where
    pub private_data : PrivateData
    pub private_driver : Option Driver

  -- What a function leaves. A fault is a call of NULL, a read through NULL, or the driver's data taken
  -- for a `TempDatabase`.
  abbrev pub Ended : Type 0
  Ended = Outcome (StatusCode × Database × World)

  -- What loading ends with; without a driver, whether there is a `release` to call.
  pub data Loading : Type 0 where
    loaded : Driver → World → Loading
    unloaded : StatusCode → Bool → World → Loading
    thrown : Loading

  abbrev pub checked : Bool → World → Outcome Table → Loading
  checked own w (done t) = loaded (record { table = t; own_release = own }) w
  checked own w (failed status) = unloaded status own w
  checked own w fault = thrown

  abbrev pub after_init : StatusCode × (Function → Bool) × Bool × World → Loading
  after_init (status, set, own, w) = checked own w (load_driver status (set_by set))

  -- `AdbcLoadDriverFromInitFunc`
  abbrev pub load_from_init_func : InitFunc → World → Loading
  load_from_init_func f w = after_init (init_func f w)

  abbrev pub after_symbol : Option InitFunc × World → Loading
  after_symbol (none, w) = unloaded StatusCode.internal false w
  after_symbol (some f, w) = load_from_init_func f w

  abbrev pub after_open : List ℕ → Option (Option Handle × World) → Loading
  after_open entrypoint none = thrown
  after_open entrypoint (some (none, w)) = unloaded StatusCode.internal false w
  after_open entrypoint (some (some h, w)) = after_symbol (dlsym h entrypoint w)

  -- `AdbcLoadDriver`
  unfoldable pub load_by_name : List ℕ → List ℕ → World → Loading
  load_by_name name entrypoint w = after_open entrypoint (open_driver dlopen name w)

  -- `if (driver->release) driver->release(driver, error)`
  abbrev pub released : Bool → World → World
  released own w = if own then release w else w

  abbrev pub function_of : Call → Function
  function_of Call.new = Function.database_new
  function_of Call.init = Function.database_init
  function_of Call.release = Function.database_release
  function_of (Call.set_option key value) = Function.database_set_option

  abbrev pub is_set : PrivateData → Bool
  is_set null = false
  is_set (temp t) = true
  is_set owned = true

  abbrev pub left : StatusCode × Bool × World → StatusCode × PrivateData × World
  left (status, true, w) = (status, owned, w)
  left (status, false, w) = (status, null, w)

  abbrev pub call_pointer :
      Pointer → Call → PrivateData → World → Outcome (StatusCode × PrivateData × World)
  call_pointer Pointer.null c priv w = fault
  call_pointer Pointer.stub c priv w = done (StatusCode.not_implemented, priv, w)
  call_pointer Pointer.provided c priv w = done (left (database c (is_set priv) w))

  -- A call through the table of functions.
  unfoldable pub call :
      Driver → Call → PrivateData → World → Outcome (StatusCode × PrivateData × World)
  call driver c priv w = call_pointer (driver.table (function_of c)) c priv w

  abbrev pub fresh : TempDatabase
  fresh = record {
    options = [];
    driver = [];
    entrypoint = codes "AdbcDriverInit";
    init_func = none;
  }

  -- `AdbcDatabaseNew`
  unfoldable pub database_new : Database
  database_new = record { private_data = temp fresh; private_driver = none }

  abbrev pub forwarded : Driver → StatusCode × PrivateData × World → Ended
  forwarded driver (status, priv, w) =
      done (status, record { private_data = priv; private_driver = some driver }, w)

  abbrev pub with_options : TempDatabase → List ℕ → List ℕ → TempDatabase
  with_options t key value =
      if bytes_eq key (codes "driver")
      then record t { driver = value }
      else if bytes_eq key (codes "entrypoint")
      then record t { entrypoint = value }
      else record t { options = set_entry key value t.options }

  abbrev pub keep_option : List ℕ → List ℕ → PrivateData → World → Ended
  keep_option key value null w = fault
  keep_option key value owned w = fault
  keep_option key value (temp t) w = done (
    StatusCode.ok,
    record { private_data = temp (with_options t key value); private_driver = none },
    w,
  )

  abbrev pub set_option_by : List ℕ → List ℕ → PrivateData → Option Driver → World → Ended
  set_option_by key value priv none w = keep_option key value priv w
  set_option_by key value priv (some driver) w = do
    r ← call driver (Call.set_option key value) priv w
    forwarded driver r

  -- `AdbcDatabaseSetOption`
  unfoldable pub database_set_option : List ℕ → List ℕ → Database → World → Ended
  unfolding call
  database_set_option key value d w = set_option_by key value d.private_data d.private_driver w

  abbrev pub keep_init_func : InitFunc → PrivateData → World → Ended
  keep_init_func f null w = fault
  keep_init_func f owned w = fault
  keep_init_func f (temp t) w = done (
    StatusCode.ok,
    record { private_data = temp (record t { init_func = some f }); private_driver = none },
    w,
  )

  abbrev pub set_init_func_by : InitFunc → PrivateData → Option Driver → World → Ended
  set_init_func_by f priv none w = keep_init_func f priv w
  set_init_func_by f priv (some driver) w =
      done
        (StatusCode.invalid_state, record { private_data = priv; private_driver = some driver }, w)

  -- `AdbcDriverManagerDatabaseSetInitFunc`
  unfoldable pub database_set_init_func : InitFunc → Database → World → Ended
  database_set_init_func f d w = set_init_func_by f d.private_data d.private_driver w

  -- A failed option: the driver's database is released, and nothing is left.
  abbrev pub option_failed : Driver → StatusCode → StatusCode × PrivateData × World → Ended
  option_failed driver status (ignored, priv, w) =
      done (
        status,
        record { private_data = null; private_driver = none },
        released driver.own_release w,
      )

  -- After an option of the loop, given the rest of the loop and `DatabaseInit`.
  abbrev pub after_option :
      Driver → (PrivateData → World → Ended) → StatusCode × PrivateData × World → Ended
  after_option driver rest (StatusCode.ok, priv, w) = rest priv w
  after_option driver rest (status, priv, w) = do
    r ← call driver Call.release priv w
    option_failed driver status r

  -- The loop over `args->options`, and `DatabaseInit`.
  unfoldable pub replay : Driver → Options → PrivateData → World → Ended
  unfolding call
  replay driver [] priv w = do r ← call driver Call.init priv w; forwarded driver r
  replay driver ((key, value) ∷ options) priv w = do
    r ← call driver (Call.set_option key value) priv w
    after_option driver (replay driver options) r

  abbrev pub after_new : Driver → Options → StatusCode × PrivateData × World → Ended
  after_new driver options (StatusCode.ok, priv, w) = replay driver options priv w
  after_new driver options (status, priv, w) =
      done (
        status,
        record { private_data = priv; private_driver = none },
        released driver.own_release w,
      )

  abbrev pub after_loading : TempDatabase → Loading → Ended
  after_loading t thrown = fault
  after_loading t (unloaded status own w) =
      done (status, record { private_data = temp t; private_driver = none }, released own w)
  after_loading t (loaded driver w) = do
    r ← call driver Call.new null w
    after_new driver (order t.options) r

  abbrev pub init_by_name : TempDatabase → List ℕ → Option Driver → World → Ended
  init_by_name t [] driver w =
      done
        (StatusCode.invalid_argument, record { private_data = temp t; private_driver = driver }, w)
  init_by_name t (c ∷ cs) driver w = after_loading t (load_by_name (c ∷ cs) t.entrypoint w)

  abbrev pub init_temp : TempDatabase → Option InitFunc → Option Driver → World → Ended
  init_temp t (some f) driver w = after_loading t (load_from_init_func f w)
  init_temp t none driver w = init_by_name t t.driver driver w

  abbrev pub init_by : PrivateData → Option Driver → World → Ended
  init_by null driver w =
      done (StatusCode.invalid_state, record { private_data = null; private_driver = driver }, w)
  init_by owned driver w = fault
  init_by (temp t) driver w = init_temp t t.init_func driver w

  -- `AdbcDatabaseInit`
  unfoldable pub database_init : Database → World → Ended
  unfolding replay load_by_name
  database_init d w = init_by d.private_data d.private_driver w

  abbrev pub drop_private : PrivateData → World → Ended
  drop_private null w =
      done (StatusCode.invalid_state, record { private_data = null; private_driver = none }, w)
  drop_private (temp t) w =
      done (StatusCode.ok, record { private_data = null; private_driver = none }, w)
  drop_private owned w = fault

  abbrev pub after_release : Driver → StatusCode × PrivateData × World → Ended
  after_release driver (status, priv, w) =
      done (
        status,
        record { private_data = null; private_driver = none },
        released driver.own_release w,
      )

  abbrev pub release_by : PrivateData → Option Driver → World → Ended
  release_by priv none w = drop_private priv w
  release_by priv (some driver) w = do r ← call driver Call.release priv w; after_release driver r

  -- `AdbcDatabaseRelease`
  unfoldable pub database_release : Database → World → Ended
  unfolding call
  database_release d w = release_by d.private_data d.private_driver w
