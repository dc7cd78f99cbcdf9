-- ===== src/Export.antt =====
-- The first batch of a result set, c/driver/sqlite/statement_reader.c: `AdbcSqliteExportReader` and
-- `StatementReaderInferFinalize`. The two parts of its state that outlive the call are the
-- statement's binder and the engine.
pub mod Rows
pub mod Complete
pub mod ReadBack
mod Tests
use arrow_adbc.Base.{
  ℕ, zero, suc, ◌+◌, not, ◌||◌, Bool, true, false, Option, none, some, List, [], ◌∷◌, map, ◌==◌,
  ◌&&◌, if◌then◌else◌,
}
use arrow_adbc.Adbc.{StatusCode, Outcome, done, failed, fault, ◌>>=◌}
use arrow_adbc.Platform.{Platform, ArrowType}
use arrow_adbc.Engine.{Engine, ResultCode}
use arrow_adbc.Params.{Binder, BindResult}
use arrow_adbc.Binder.{bind_next}
use arrow_adbc.Stream.{Reader, Batch}
use arrow_adbc.Infer.{Column, infer_one_value, initialize_infer}

-- `binary[col].data == NULL` in a column of text.
abbrev pub unbacked : ArrowType → ℕ → Bool
unbacked ArrowType.string capacity = capacity == 0
unbacked ArrowType.binary capacity = capacity == 0
unbacked ty capacity = false

-- A loop body: go on, or leave the loop.
pub data Turn (A : Type 0) : Type 0 where
  again : A → Turn A
  leave : A → Turn A

-- The variables of the loop, and the status that it leaves with.
pub record Exporting (p : Platform) (engine : Engine p.Double) : Type 0 where
  pub columns : List (Column p.Double)
  pub num_rows : ℕ
  pub ended : Bool
  pub status : StatusCode
  pub binder : Binder p.Double
  pub world : engine.World

module _ (p : Platform) (engine : Engine p.Double) (view_init : ℕ → Bool) where
  open p use {Double}
  open engine use {World, step, column, column_count, column_name}

  -- The loop over the columns, from `col` on.
  unfoldable pub infer_row : ℕ → List (Column Double) → World → Outcome (List (Column Double))
  infer_row col [] w = done []
  infer_row col (c ∷ columns) w = do
    c ← infer_one_value p (column w col) c
    rest ← infer_row (col + 1) columns w
    done (c ∷ rest)

  abbrev pub Turned : Type 0
  Turned = Outcome (Turn (Exporting p engine))

  -- `if (binder)`: whether a row of parameters is bound.
  abbrev pub after_bind : Exporting p engine → BindResult × Binder Double × World → Turned
  after_bind s (BindResult.bound, b, w) = done (Turn.again (record s { binder = b; world = w }))
  after_bind s (BindResult.finished, b, w) =
      done (Turn.leave (record s { ended = true; binder = b; world = w }))
  after_bind s (BindResult.failed status, b, w) =
      done (Turn.leave (record s { status = status; binder = b; world = w }))
  after_bind s (BindResult.fault, b, w) = fault

  abbrev pub bind_part : Bool → Exporting p engine → Turned
  bind_part false s = done (Turn.again s)
  bind_part true s = after_bind s (bind_next p engine view_init s.binder s.world)

  abbrev pub after_row : Exporting p engine → Outcome (List (Column Double)) → Turned
  after_row s (done columns) =
      done (Turn.again (record s { columns = columns; num_rows = s.num_rows + 1 }))
  after_row s (failed status) = done (Turn.leave (record s { status = status }))
  after_row s fault = fault

  -- `sqlite3_step`, and the row if the call did not end the result. Any code but `SQLITE_DONE` and
  -- `SQLITE_ERROR` counts as a row.
  abbrev pub after_step : Exporting p engine → ResultCode × World → Turned
  after_step s (ResultCode.done, w) = done (Turn.leave (record s { ended = true; world = w }))
  after_step s (ResultCode.error, w) =
      done (Turn.leave (record s { status = StatusCode.io; world = w }))
  after_step s (rc, w) = after_row (record s { world = w }) (infer_row 0 s.columns w)

  abbrev pub step_part : Turn (Exporting p engine) → Turned
  step_part (Turn.leave s) = done (Turn.leave s)
  step_part (Turn.again s) = after_step s (step s.world)

  unfoldable pub export_turn : Bool → Exporting p engine → Turned
  unfolding infer_row
  export_turn has_binder s = do t ← bind_part has_binder s; step_part t

  -- `while (num_rows < batch_size)`, by the rows still to come.
  unfoldable pub export_loop : Bool → ℕ → Exporting p engine → Outcome (Exporting p engine)
  unfolding export_turn
  export_loop has_binder zero s = done s
  export_loop has_binder (suc left) s = do
    t ← export_turn has_binder s
    elim t [ Turn.leave s' ↦ done s' | Turn.again s' ↦ export_loop has_binder left s' ]

  -- `sqlite3_column_name` and the inferred type of each column, from `col` on.
  unfoldable pub fields : ℕ → List (Column Double) → World → List (List ℕ × ArrowType)
  fields col [] w = []
  fields col (c ∷ columns) w = (column_name w col, c.current_type) ∷ fields (col + 1) columns w

  unfoldable pub any_unbacked : List (Column Double) → Bool
  any_unbacked [] = false
  any_unbacked (c ∷ columns) = unbacked c.current_type c.binary.capacity || any_unbacked columns

  -- `StatementReaderInferFinalize`: the buffers move into the first batch, all or none.
  unfoldable pub infer_finalize :
      List (Column Double) → ℕ → World → Reader Double → StatusCode × Reader Double
  unfolding fields any_unbacked
  infer_finalize columns num_rows w reader =
      let schema = fields 0 columns w in
      if not (p.init_schema schema)
      then (StatusCode.internal, reader)
      else if any_unbacked columns
      then (StatusCode.internal, record reader { schema = some schema })
      else (
        StatusCode.ok,
        record reader {
          schema = some schema;
          initial_batch = some (Batch.inferred num_rows columns);
        },
      )

  -- What the call leaves: the status, the stream's reader, the statement's binder and the engine.
  abbrev pub Exported : Type 0
  Exported = StatusCode × Reader Double × Binder Double × World

  -- From the end of the loop on.
  abbrev pub export_moved : Bool → Exporting p engine → StatusCode × Reader Double → Exported
  export_moved has_binder s (StatusCode.ok, reader) = (
    StatusCode.ok,
    record reader { types = some (map (λ c. c.current_type) s.columns); has_binder = has_binder },
    s.binder,
    s.world,
  )
  export_moved has_binder s (other, reader) = (other, reader, s.binder, s.world)

  abbrev pub export_status : StatusCode → Bool → Reader Double → Exporting p engine → Exported
  export_status StatusCode.ok has_binder reader s =
      export_moved has_binder s
        (infer_finalize s.columns s.num_rows s.world (record reader { ended = s.ended }))
  export_status other has_binder reader s =
      (other, record reader { ended = s.ended }, s.binder, s.world)

  unfoldable pub export_end : Bool → Reader Double → Exporting p engine → Exported
  unfolding infer_finalize
  export_end has_binder reader s = export_status s.status has_binder reader s

  abbrev pub fresh_reader : ℕ → Reader Double
  fresh_reader batch_size = record {
    types = none;
    schema = none;
    initial_batch = none;
    has_binder = false;
    ended = false;
    batch_size = batch_size;
  }

  abbrev pub export_start : List (Column Double) → Binder Double → World → Exporting p engine
  export_start columns binder w = record {
    columns = columns;
    num_rows = 0;
    ended = false;
    status = StatusCode.ok;
    binder = binder;
    world = w;
  }

  abbrev pub after_initialize :
      Bool → ℕ → Binder Double → World → Outcome (List (Column Double)) → Outcome Exported
  after_initialize has_binder batch_size binder w (done columns) = do
    s ← export_loop has_binder batch_size (export_start columns binder w)
    done (export_end has_binder (fresh_reader batch_size) s)
  after_initialize has_binder batch_size binder w other = fault

  -- `AdbcSqliteExportReader`. A refused allocation in `StatementReaderInitializeInfer` reaches the
  -- cleanup loop, which resets buffers that were not initialised.
  unfoldable pub export_reader : Bool → ℕ → Binder Double → World → Outcome Exported
  unfolding export_loop export_end
  export_reader has_binder batch_size binder w =
      after_initialize has_binder batch_size binder w
        (initialize_infer p (column_count w) batch_size)
