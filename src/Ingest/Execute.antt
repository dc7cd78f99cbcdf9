-- ===== src/Ingest/Execute.antt =====
-- The rows of bulk ingestion: the loop of `SqliteStatementExecuteIngest`, c/driver/sqlite/sqlite.c,
-- once `SqliteStatementInitIngest` has prepared the INSERT statement.
use arrow_adbc.Base.{ℕ, zero, suc, ◌+◌, Bool}
use arrow_adbc.Adbc.{StatusCode}
use arrow_adbc.Platform.{Platform}
use arrow_adbc.Engine.{Engine, ResultCode}
use arrow_adbc.Params.{Binder, BindResult, release}
use arrow_adbc.Binder.{bind_next}

-- What the call leaves: the status, `*rows_affected`, the statement's binder and the engine. The
-- other two are an access that C leaves undefined, and loops not ended within their rounds.
pub data Ingested (p : Platform) (engine : Engine p.Double) : Type 0 where
  ingested : StatusCode → ℕ → Binder p.Double → engine.World → Ingested p engine
  undefined : Ingested p engine
  unfinished : Ingested p engine

module _ (p : Platform) (engine : Engine p.Double) (view_init : ℕ → Bool) where
  open p use {Double}
  open engine use {World, step}

  abbrev pub Next : Type 0
  Next = Binder Double → World → Ingested p engine

  -- `do { ... } while (rc == SQLITE_ROW)`, from the code of a step on; then the next row, or the end
  -- of the loop.
  unfoldable pub insert_row : ℕ → Next → ℕ → Binder Double → ResultCode × World → Ingested p engine
  insert_row rounds next row_count b (ResultCode.done, w) = next b w
  insert_row zero next row_count b (ResultCode.row, w) = Ingested.unfinished
  insert_row (suc rounds) next row_count b (ResultCode.row, w) =
      insert_row rounds next row_count b (step w)
  insert_row rounds next row_count b (rc, w) =
      Ingested.ingested StatusCode.internal row_count (release b) w

  -- After `AdbcSqliteBinderBindNext`. The binder is released after the loop.
  abbrev pub after_bind : ℕ → Next → ℕ → BindResult × Binder Double × World → Ingested p engine
  after_bind rounds next row_count (BindResult.bound, b, w) =
      insert_row rounds next row_count b (step w)
  after_bind rounds next row_count (BindResult.finished, b, w) =
      Ingested.ingested StatusCode.ok row_count (release b) w
  after_bind rounds next row_count (BindResult.failed status, b, w) =
      Ingested.ingested status row_count (release b) w
  after_bind rounds next row_count (BindResult.fault, b, w) = Ingested.undefined

  -- `while (1)`, in that many turns, each with so many rounds of the inner loop.
  unfoldable pub ingest_rows : ℕ → ℕ → ℕ → Next
  unfolding insert_row
  ingest_rows zero rounds row_count b w = Ingested.unfinished
  ingest_rows (suc turns) rounds row_count b w =
      after_bind rounds (ingest_rows turns rounds (row_count + 1)) row_count
        (bind_next p engine view_init b w)
