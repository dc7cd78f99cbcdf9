-- ===== src/Engine.antt =====
-- SQLite's interface as the driver calls it: a world that the engine alone knows, and one function
-- for each `sqlite3_*` call. The driver's definitions take an `Engine`.
pub mod Toy
use arrow_adbc.Base.{ℕ, Bool, List, ℤ}
use arrow_adbc.Platform.{Value}

-- A result code of `sqlite3_step` or `sqlite3_prepare_v2`, as the driver distinguishes them; `other`
-- is any further code, such as `SQLITE_BUSY` or `SQLITE_CONSTRAINT`.
pub data ResultCode : Type 0 where
  ok row done error : ResultCode
  other : ℕ → ResultCode

-- What `sqlite3_bind_*` is called with.
pub data Bound (Double : Type 0) : Type 0 where
  null : Bound Double
  text : List ℕ → Bound Double
  int64 : ℤ → Bound Double
  double : Double → Bound Double

-- A prepared statement on its connection. A `Bool` is whether the call returned `SQLITE_OK`.
pub record Engine (Double : Type 0) : Type 1 where
  pub World : Type 0
  pub step : World → ResultCode × World
  pub reset : World → Bool × World
  pub clear_bindings : World → Bool × World
  pub bind : World → ℕ → Bound Double → Bool × World
  pub column_count : World → ℕ
  pub column_name : World → ℕ → List ℕ
  -- The value of a column in the row that `step` reached.
  pub column : World → ℕ → Value Double
