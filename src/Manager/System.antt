-- ===== src/Manager/System.antt =====
-- What the driver manager calls outside itself: the dynamic loader, and the functions of the driver
-- that it finds.
use arrow_adbc.Base.{ℕ, Bool, Option, List}
use arrow_adbc.Adbc.{StatusCode}
use arrow_adbc.Manager.Table.{Function}
use arrow_adbc.Manager.Options.{Options}

-- A call of a driver's function on an object, a database or a connection.
pub data Call : Type 0 where
  new init release : Call
  set_option : List ℕ → List ℕ → Call

pub record System : Type 1 where
  pub World : Type 0
  pub Handle : Type 0
  pub InitFunc : Type 0
  pub dlopen : List ℕ → World → Option Handle × World
  pub dlsym : Handle → List ℕ → World → Option InitFunc × World
  -- An `AdbcDriverInitFunc`: the status, which functions it set, and whether it set `release`.
  pub init_func : InitFunc → World → StatusCode × (Function → Bool) × Bool × World
  -- The driver's `release`. Its status is not used.
  pub release : World → World
  -- A function on a database, or a connection, whose `private_data` is NULL or not: the status, and
  -- whether it is set afterwards.
  pub database : Call → Bool → World → StatusCode × Bool × World
  pub connection : Call → Bool → World → StatusCode × Bool × World
  -- The order in which a loop goes through a `std::unordered_map`.
  pub order : Options → Options
  -- A function that the manager only passes on: the status.
  pub passed : Function → World → StatusCode × World
