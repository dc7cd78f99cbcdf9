-- ===== src/Reader.antt =====
-- The later batches of a result set, c/driver/sqlite/statement_reader.c: `StatementReaderGetOneValue`,
-- `StatementReaderGetNext` and `StatementReaderRelease`. The text of `GetLastError` is not modelled.
pub mod Rows
pub mod Batches
mod Tests
use arrow_adbc.Base.{
  ℕ, zero, suc, ◌+◌, ◌==◌, Bool, true, false, Option, none, some, List, [], ◌∷◌, ◌++◌, map,
  if◌then◌else◌,
}
use arrow_adbc.Adbc.{Outcome, done, fault, ◌>>=◌}
use arrow_adbc.Platform.{Platform, ArrowType, Value}
use arrow_adbc.Engine.{Engine, ResultCode}
use arrow_adbc.Params.{Binder, BindResult, release}
use arrow_adbc.Binder.{bind_next}
use arrow_adbc.Export.{Turn}
use arrow_adbc.Stream.{Slot, Batch, Errno, Reader}

-- nanoarrow's array builder: the error of `ArrowArrayInitFromSchema` or `ArrowArrayStartAppending`,
-- of one append to a column that holds some values already, and of `ArrowArrayFinishBuilding`.
pub record Builder (Double : Type 0) : Type 0 where
  pub start : List (List ℕ × ArrowType) → Option Errno
  pub append : List (Slot Double) → Slot Double → Option Errno
  pub finish : List (Slot Double) → Option Errno

-- A value to append, or the error number of a type mismatch.
pub data Cast (Double : Type 0) : Type 0 where
  slot : Slot Double → Cast Double
  mismatch : Errno → Cast Double

-- The variables of the loop of `StatementReaderGetNext`, and the status that it leaves with.
pub record Filling (p : Platform) (engine : Engine p.Double) : Type 0 where
  pub columns : List (List (Slot p.Double))
  pub num_rows : ℕ
  pub ended : Bool
  pub status : Option Errno
  pub binder : Binder p.Double
  pub world : engine.World

module _ (p : Platform) where
  open p use {Double, column_int64, column_double, column_text}

  -- The `switch (reader->types[col])` of `StatementReaderGetOneValue`. `sqlite3_column_type` has no
  -- further values, so the `default:` of each inner `switch` is not reached.
  unfoldable pub cast : ArrowType → Value Double → Cast Double
  cast ty Value.null = Cast.slot Slot.null
  cast ArrowType.int64 (Value.integer z) = Cast.slot (Slot.int (column_int64 (Value.integer z)))
  cast ArrowType.int64 other = Cast.mismatch Errno.eio
  cast ArrowType.double (Value.integer z) =
      Cast.slot (Slot.double (column_double (Value.integer z)))
  cast ArrowType.double (Value.real d) = Cast.slot (Slot.double (column_double (Value.real d)))
  cast ArrowType.double other = Cast.mismatch Errno.eio
  cast ArrowType.string v = Cast.slot (Slot.string (column_text v))
  cast other v = Cast.mismatch Errno.enotsup

  module _ (engine : Engine Double) (view_init : ℕ → Bool) (builder : Builder Double) where
    open engine use {World, step, column}

    -- `StatementReaderGetOneValue`: the error, and the column afterwards.
    unfoldable pub get_one_value :
        ArrowType → Value Double → List (Slot Double) → Option Errno × List (Slot Double)
    unfolding cast
    get_one_value ty v out = elim (cast ty v) [
      | Cast.mismatch e ↦ (some e, out)
      | Cast.slot x ↦ elim (builder.append out x) [
        | none ↦ (none, out ++ x ∷ [])
        | some e ↦ (some e, out)
      ]
    ]

    abbrev pub Rowed : Type 0
    Rowed = Option Errno × List (List (Slot Double))

    -- A column after its value, the columns behind it, and what the loop makes of these.
    abbrev pub after_value :
        Option Errno × List (Slot Double) → List (List (Slot Double)) → Rowed → Rowed
    after_value (some e, out) columns rest = (some e, out ∷ columns)
    after_value (none, out) columns (e, rest) = (e, out ∷ rest)

    -- The loop over the columns, from `col` on: the first error ends it.
    unfoldable pub get_row : ℕ → List ArrowType → List (List (Slot Double)) → World → Rowed
    unfolding get_one_value
    get_row col [] columns w = (none, columns)
    get_row col (ty ∷ types) [] w = (none, [])
    get_row col (ty ∷ types) (out ∷ columns) w =
        after_value (get_one_value ty (column w col) out) columns
          (get_row (col + 1) types columns w)

    abbrev pub Turned : Type 0
    Turned = Outcome (Turn (Filling p engine))

    -- `if (reader->binder)`. The `status` assigned on an error is the inner one, so the outer one
    -- stays 0.
    abbrev pub after_bind : Filling p engine → BindResult × Binder Double × World → Turned
    after_bind s (BindResult.bound, b, w) = done (Turn.again (record s { binder = b; world = w }))
    after_bind s (BindResult.finished, b, w) =
        done (Turn.leave (record s { ended = true; binder = b; world = w }))
    after_bind s (BindResult.failed status, b, w) =
        done (Turn.leave (record s { ended = true; binder = b; world = w }))
    after_bind s (BindResult.fault, b, w) = fault

    abbrev pub bind_part : Bool → Filling p engine → Turned
    bind_part false s = done (Turn.again s)
    bind_part true s = after_bind s (bind_next p engine view_init s.binder s.world)

    abbrev pub after_row : Filling p engine → Option Errno × List (List (Slot Double)) → Turned
    after_row s (none, columns) =
        done (Turn.again (record s { columns = columns; num_rows = s.num_rows + 1 }))
    after_row s (some e, columns) =
        done (Turn.leave (record s { columns = columns; status = some e }))

    -- `sqlite3_step` and the row, where any code but `SQLITE_DONE` and `SQLITE_ERROR` counts as one.
    abbrev pub after_step : List ArrowType → Filling p engine → ResultCode × World → Turned
    after_step types s (ResultCode.done, w) =
        done (Turn.leave (record s { ended = true; world = w }))
    after_step types s (ResultCode.error, w) =
        done (Turn.leave (record s { ended = true; status = some Errno.eio; world = w }))
    after_step types s (rc, w) = after_row (record s { world = w }) (get_row 0 types s.columns w)

    abbrev pub step_part : List ArrowType → Turn (Filling p engine) → Turned
    step_part types (Turn.leave s) = done (Turn.leave s)
    step_part types (Turn.again s) = after_step types s (step s.world)

    unfoldable pub fill_turn : Bool → List ArrowType → Filling p engine → Turned
    unfolding get_row
    fill_turn has_binder types s = do t ← bind_part has_binder s; step_part types t

    -- `while (batch_size < reader->batch_size)`, by the rows still to come.
    unfoldable pub fill_loop :
        Bool → List ArrowType → ℕ → Filling p engine → Outcome (Filling p engine)
    unfolding fill_turn
    fill_loop has_binder types zero s = done s
    fill_loop has_binder types (suc left) s = do
      t ← fill_turn has_binder types s
      elim t [ Turn.leave s' ↦ done s' | Turn.again s' ↦ fill_loop has_binder types left s' ]

    -- `ArrowArrayFinishBuilding` on each column, up to an error.
    unfoldable pub finish_columns : List (List (Slot Double)) → Option Errno
    finish_columns [] = none
    finish_columns (out ∷ columns) = elim (builder.finish out) [
      | none ↦ finish_columns columns
      | some e ↦ some e
    ]

    -- What the call leaves: the status, `*out` (`none` where `release` is NULL), the reader, the
    -- binder and the engine.
    abbrev pub Got : Type 0
    Got = Option Errno × Option (Batch Double) × Reader Double × Binder Double × World

    -- After the loop. Where the status is an error `*out` is left as it was built.
    unfoldable pub fill_end : Reader Double → Filling p engine → Got
    unfolding finish_columns
    fill_end reader s =
        let reader' : Reader Double = record reader { ended = s.ended } in
        elim s.status [
          | some e ↦ (some e, some (Batch.built 0 s.columns), reader', s.binder, s.world)
          | none ↦
              let out = if s.num_rows == 0 then none else some (Batch.built s.num_rows s.columns) in
              (finish_columns s.columns, out, reader', s.binder, s.world)
        ]

    abbrev field_types : List (List ℕ × ArrowType) → List ArrowType
    field_types = map (λ (name, type). type)

    -- The part of `StatementReaderGetNext` that reads from the engine.
    unfoldable pub read_batch :
        List (List ℕ × ArrowType)
        → List ArrowType
        → Reader Double
        → Binder Double
        → World
        → Outcome Got
    unfolding fill_loop fill_end
    read_batch schema types reader binder w = elim (builder.start schema) [
      | some e ↦ done (some e, none, reader, binder, w)
      | none ↦ do
        s ← fill_loop reader.has_binder types reader.batch_size (record {
          columns = map (λ field. []) schema;
          num_rows = 0;
          ended = false;
          status = none;
          binder = binder;
          world = w;
        })
        done (fill_end reader s)
    ]

    -- `StatementReaderGetNext` on a stream that is not released. A reader whose export failed has no
    -- `types`, or no schema to build an array from.
    unfoldable pub get_next : Reader Double → Binder Double → World → Outcome Got
    unfolding read_batch
    get_next reader binder w = elim reader.initial_batch [
      | some batch ↦ done (none, some batch, record reader { initial_batch = none }, binder, w)
      | none ↦ if reader.ended then done (none, none, reader, binder, w) else elim reader.schema [
        | none ↦ done (some Errno.einval, none, reader, binder, w)
        | some schema ↦ elim reader.types [
          | none ↦ fault
          | some types ↦ read_batch schema types reader binder w
        ]
      ]
    ]

-- `StatementReaderRelease`: what it releases beside the reader's own memory is the binder.
unfoldable pub reader_release : {Double : Type 0} → Reader Double → Binder Double → Binder Double
reader_release reader binder = if reader.has_binder then release binder else binder
