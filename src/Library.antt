-- ===== src/Library.antt =====
-- SQLite as the driver's databases and connections call it, and what their functions end with.
pub mod Toy
use arrow_adbc.Base.{
  ℕ, zero, suc, ◌+◌, ltb, Bool, true, false, Option, none, some, List, [], ◌∷◌, if◌then◌else◌,
}
use arrow_adbc.Adbc.{StatusCode}
use arrow_adbc.Engine.{ResultCode}

-- SQLite as a library, with the databases that are open. A `Handle` is an `sqlite3*`, a `Stmt` an
-- `sqlite3_stmt*`.
pub record Library : Type 1 where
  pub World : Type 0
  pub Handle : Type 0
  pub Stmt : Type 0
  -- `sqlite3_open_v2` on a URI (`none` is the default): whether it returned `SQLITE_OK`, and `*db`.
  pub open_v2 : Option (List ℕ) → World → Bool × Option Handle × World
  -- `sqlite3_close`: whether it returned `SQLITE_BUSY`, on which the handle stays open. On NULL it
  -- does nothing.
  pub close : Handle → World → Bool × World
  -- `sqlite3_prepare_v2`: the code and `*stmt`. A NULL handle is an error code of its own.
  pub prepare_v2 : Option Handle → List ℕ → World → ResultCode × Option Stmt × World
  pub step_statement : Option Stmt → World → ResultCode × World
  -- `sqlite3_finalize`; it returns `SQLITE_OK` on NULL.
  pub finalize : Option Stmt → World → ResultCode × World

-- A status and what the call leaves, or an access that C leaves undefined, or a loop that did not end
-- within the rounds given.
pub data Run {ℓ} (A : Type ℓ) : Type ℓ where
  returned : StatusCode → A → Run A
  undefined : Run A
  unfinished : Run A

-- The strings that the driver compares a key or a value with.
pub data OptionKey : Type 0 where
  uri autocommit unknown : OptionKey

pub data OptionValue : Type 0 where
  enabled disabled : OptionValue
  text : List ℕ → OptionValue
