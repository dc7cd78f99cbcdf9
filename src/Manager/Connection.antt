-- ===== src/Manager/Connection.antt =====
-- Connections of the driver manager, c/driver_manager/adbc_driver_manager.cc: `AdbcConnectionNew`,
-- `AdbcConnectionSetOption`, `AdbcConnectionInit`, `AdbcConnectionRelease`, and the functions that are
-- passed on to the driver.
pub mod Safe
use arrow_adbc.Base.{ℕ, Bool, true, false, Option, none, some, List, [], ◌∷◌}
use arrow_adbc.Adbc.{StatusCode, Outcome, done, failed, fault, ◌>>=◌}
use arrow_adbc.Manager.Table.{Function, Pointer}
use arrow_adbc.Manager.Options.{Options, set_entry}
use arrow_adbc.Manager.System.{System, Call}
use arrow_adbc.Manager.Database.{Driver}

-- `private_data`: NULL, the manager's `TempConnection`, or what the driver put there.
pub data PrivateData : Type 0 where
  null : PrivateData
  temp : Options → PrivateData
  owned : PrivateData

-- `struct AdbcConnection`. Its driver is that of the database, which has to outlive it.
pub record Connection : Type 0 where
  pub private_data : PrivateData
  pub private_driver : Option Driver

abbrev pub function_of : Call → Function
function_of Call.new = Function.connection_new
function_of Call.init = Function.connection_init
function_of Call.release = Function.connection_release
function_of (Call.set_option key value) = Function.connection_set_option

abbrev pub is_set : PrivateData → Bool
is_set null = false
is_set (temp options) = true
is_set owned = true

-- `AdbcConnectionNew`
unfoldable pub connection_new : Connection
connection_new = record { private_data = temp []; private_driver = none }

module _ (sys : System) where
  open sys use {World, connection, passed, order}

  abbrev pub Ended : Type 0
  Ended = Outcome (StatusCode × Connection × World)

  abbrev pub left : StatusCode × Bool × World → StatusCode × PrivateData × World
  left (status, true, w) = (status, owned, w)
  left (status, false, w) = (status, null, w)

  abbrev pub call_pointer :
      Pointer → Call → PrivateData → World → Outcome (StatusCode × PrivateData × World)
  call_pointer Pointer.null c priv w = fault
  call_pointer Pointer.stub c priv w = done (StatusCode.not_implemented, priv, w)
  call_pointer Pointer.provided c priv w = done (left (connection c (is_set priv) w))

  unfoldable pub call :
      Driver → Call → PrivateData → World → Outcome (StatusCode × PrivateData × World)
  call driver c priv w = call_pointer (driver.table (function_of c)) c priv w

  abbrev pub forwarded : Option Driver → StatusCode × PrivateData × World → Ended
  forwarded driver (status, priv, w) =
      done (status, record { private_data = priv; private_driver = driver }, w)

  abbrev pub keep_option : List ℕ → List ℕ → PrivateData → World → Ended
  keep_option key value null w = fault
  keep_option key value owned w = fault
  keep_option key value (temp options) w =
      forwarded none (StatusCode.ok, temp (set_entry key value options), w)

  abbrev pub set_option_set : List ℕ → List ℕ → PrivateData → Option Driver → World → Ended
  set_option_set key value priv none w = keep_option key value priv w
  set_option_set key value priv (some driver) w = do
    r ← call driver (Call.set_option key value) priv w
    forwarded (some driver) r

  abbrev pub set_option_by : List ℕ → List ℕ → PrivateData → Option Driver → World → Ended
  set_option_by key value null driver w = forwarded driver (StatusCode.invalid_state, null, w)
  set_option_by key value (temp options) driver w = set_option_set key value (temp options) driver w
  set_option_by key value owned driver w = set_option_set key value owned driver w

  -- `AdbcConnectionSetOption`
  unfoldable pub connection_set_option : List ℕ → List ℕ → Connection → World → Ended
  unfolding call
  connection_set_option key value c w = set_option_by key value c.private_data c.private_driver w

  abbrev pub after_option :
      Driver → (PrivateData → World → Ended) → StatusCode × PrivateData × World → Ended
  after_option driver rest (StatusCode.ok, priv, w) = rest priv w
  after_option driver rest (status, priv, w) = forwarded (some driver) (status, priv, w)

  -- The loop over the options, and `ConnectionInit`.
  unfoldable pub replay : Driver → Options → PrivateData → World → Ended
  unfolding call
  replay driver [] priv w = do r ← call driver Call.init priv w; forwarded (some driver) r
  replay driver ((key, value) ∷ options) priv w = do
    r ← call driver (Call.set_option key value) priv w
    after_option driver (replay driver options) r

  abbrev pub after_new : Option Driver → Driver → Options → StatusCode × PrivateData × World → Ended
  after_new earlier driver options (StatusCode.ok, priv, w) = replay driver options priv w
  after_new earlier driver options (status, priv, w) = forwarded earlier (status, priv, w)

  abbrev pub init_temp : PrivateData → Option Driver → Driver → World → Ended
  init_temp null earlier driver w = fault
  init_temp owned earlier driver w = fault
  init_temp (temp options) earlier driver w = do
    r ← call driver Call.new null w
    after_new earlier driver (order options) r

  abbrev pub init_set : PrivateData → Option Driver → Option Driver → World → Ended
  init_set priv earlier none w = forwarded earlier (StatusCode.invalid_argument, priv, w)
  init_set priv earlier (some driver) w = init_temp priv earlier driver w

  abbrev pub init_by : PrivateData → Option Driver → Option Driver → World → Ended
  init_by null earlier database w = forwarded earlier (StatusCode.invalid_state, null, w)
  init_by (temp options) earlier database w = init_set (temp options) earlier database w
  init_by owned earlier database w = init_set owned earlier database w

  -- `AdbcConnectionInit`, on the database's `private_driver`.
  unfoldable pub connection_init : Option Driver → Connection → World → Ended
  unfolding replay
  connection_init database c w = init_by c.private_data c.private_driver database w

  abbrev pub drop_private : PrivateData → World → Ended
  drop_private null w = forwarded none (StatusCode.invalid_state, null, w)
  drop_private (temp options) w = forwarded none (StatusCode.ok, null, w)
  drop_private owned w = fault

  abbrev pub release_by : PrivateData → Option Driver → World → Ended
  release_by priv none w = drop_private priv w
  release_by priv (some driver) w = do r ← call driver Call.release priv w; forwarded none r

  -- `AdbcConnectionRelease`
  unfoldable pub connection_release : Connection → World → Ended
  unfolding call
  connection_release c w = release_by c.private_data c.private_driver w
