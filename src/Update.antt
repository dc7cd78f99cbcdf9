-- ===== src/Update.antt =====
-- Statements without a result, c/driver/sqlite/sqlite.c: the part of `SqliteStatementExecuteQuery`
-- for a NULL `out`, after the statement was prepared.
pub mod Rows
mod Tests
use arrow_adbc.Base.{ℕ, zero, suc, ◌+◌, Bool, true, false, Option, none, some, List}
use arrow_adbc.Adbc.{StatusCode}
use arrow_adbc.Platform.{Platform}
use arrow_adbc.Engine.{Engine, ResultCode}
use arrow_adbc.Params.{Field, Binder, BindResult, release}
use arrow_adbc.Binder.{bind_next}

-- What the call leaves: the status, `*rows_affected`, the statement's binder and the engine. The
-- other two are an access that C leaves undefined, and loops not ended within their rounds.
pub data Updated (p : Platform) (engine : Engine p.Double) : Type 0 where
  updated : StatusCode → ℕ → Binder p.Double → engine.World → Updated p engine
  undefined : Updated p engine
  unfinished : Updated p engine

module _ (p : Platform) (engine : Engine p.Double) (view_init : ℕ → Bool) where
  open p use {Double}
  open engine use {World, step, reset}

  -- `while (sqlite3_step(stmt->stmt) == SQLITE_ROW) rows++`, from the code of a step on.
  unfoldable pub count_rows : ℕ → ℕ → ResultCode × World → Option (ℕ × World)
  count_rows zero rows (ResultCode.row, w) = none
  count_rows (suc rounds) rows (ResultCode.row, w) = count_rows rounds (rows + 1) (step w)
  count_rows rounds rows (rc, w) = some (rows, w)

  -- After the loop: `sqlite3_reset`, and the binder is released.
  abbrev pub update_reset : StatusCode → ℕ → Binder Double → Bool × World → Updated p engine
  update_reset status rows b (true, w) = Updated.updated status rows (release b) w
  update_reset status rows b (false, w) = Updated.updated StatusCode.io rows (release b) w

  unfoldable pub update_end : StatusCode → ℕ → Binder Double → World → Updated p engine
  update_end status rows b w = update_reset status rows b (reset w)

  abbrev pub Next : Type 0
  Next = ℕ → Binder Double → World → Updated p engine

  -- The rows of one run of the statement, then `next`.
  abbrev pub after_rows : Next → Binder Double → Option (ℕ × World) → Updated p engine
  after_rows next b none = Updated.unfinished
  after_rows next b (some (rows, w)) = next rows b w

  abbrev pub after_bind : ℕ → Next → ℕ → BindResult × Binder Double × World → Updated p engine
  after_bind rounds next rows (BindResult.bound, b, w) =
      after_rows next b (count_rows rounds rows (step w))
  after_bind rounds next rows (BindResult.finished, b, w) = update_end StatusCode.ok rows b w
  after_bind rounds next rows (BindResult.failed status, b, w) = update_end status rows b w
  after_bind rounds next rows (BindResult.fault, b, w) = Updated.undefined

  -- `while (1)` with parameters, in that many turns, each with so many rounds of the inner loop. The
  -- binder is released once it is finished, which ends the loop before its `release` is tested.
  unfoldable pub update_loop : ℕ → ℕ → Next
  unfolding count_rows update_end
  update_loop zero rounds rows b w = Updated.unfinished
  update_loop (suc turns) rounds rows b w =
      after_bind rounds (update_loop turns rounds) rows (bind_next p engine view_init b w)

  -- `if (stmt->binder.schema.release)`: without a schema the statement runs once.
  abbrev pub update_by : Option (List Field) → ℕ → ℕ → Binder Double → World → Updated p engine
  update_by none turns rounds b w =
      after_rows (update_end StatusCode.ok) b (count_rows rounds 0 (step w))
  update_by (some fields) turns rounds b w = update_loop turns rounds 0 b w

  unfoldable pub execute_update : ℕ → ℕ → Binder Double → World → Updated p engine
  unfolding update_loop
  execute_update turns rounds b w = update_by b.schema turns rounds b w
