-- ===== src/Binder.antt =====
-- One row of parameters bound to a statement: `AdbcSqliteBinderBindNext` of
-- c/driver/sqlite/statement_reader.c.
pub mod Next
pub mod Values
pub mod Take
pub mod Shapes
mod Tests
use arrow_adbc.Base.{
  Option, true, false, ℕ, ◌+◌, ◌-◌, ◌^◌, Bool, none, some, List, [], ◌∷◌, get_elem?, ltb,
  if◌then◌else◌, not, pos,
}
use arrow_adbc.Adbc.{StatusCode, Outcome, done}
use arrow_adbc.Platform.{Platform, ArrowType}
use arrow_adbc.Engine.{Engine, Bound}
use arrow_adbc.Params.{
  Param, Row, Field, Binder, BindResult, bound, failed, fault, fields_of, types_of, current_row,
  load_params,
}

-- `INT64_MAX`
abbrev pub int64_max : ℕ
int64_max = 2 ^ 63 - 1

-- The unsigned types: `sqlite3_bind_int64` takes what fits in an `int64_t`.
bind_uint : {Double : Type 0} → ℕ → Outcome (Bound Double)
bind_uint value =
    if ltb int64_max value
    then Outcome.failed StatusCode.invalid_argument
    else done (Bound.int64 (pos value))

module _ (p : Platform) where
  open p use {Double, of_int64, to_int64}

  -- The `switch (binder->types[col])`: what is bound, or the status.
  unfoldable pub bind_value : ArrowType → Param Double → Outcome (Bound Double)
  unfolding bind_uint
  bind_value ArrowType.binary v = done (Bound.text v.bytes)
  bind_value ArrowType.large_binary v = done (Bound.text v.bytes)
  bind_value ArrowType.uint8 v = bind_uint v.uint
  bind_value ArrowType.uint16 v = bind_uint v.uint
  bind_value ArrowType.uint32 v = bind_uint v.uint
  bind_value ArrowType.uint64 v = bind_uint v.uint
  bind_value ArrowType.int8 v = done (Bound.int64 v.int)
  bind_value ArrowType.int16 v = done (Bound.int64 v.int)
  bind_value ArrowType.int32 v = done (Bound.int64 v.int)
  bind_value ArrowType.int64 v = done (Bound.int64 v.int)
  bind_value ArrowType.float v = done (Bound.double (of_int64 (to_int64 v.real)))
  bind_value ArrowType.double v = done (Bound.double (of_int64 (to_int64 v.real)))
  bind_value ArrowType.string v = done (Bound.text v.bytes)
  bind_value ArrowType.large_string v = done (Bound.text v.bytes)
  bind_value other v = Outcome.failed StatusCode.not_implemented

  module _ (engine : Engine Double) (view_init : ℕ → Bool) where
    open engine use {World, reset, clear_bindings, bind}

    -- After a `sqlite3_bind_*`.
    abbrev pub sent : (World → BindResult × World) → Bool × World → BindResult × World
    sent rest (true, w) = rest w
    sent rest (false, w) = (BindResult.failed StatusCode.internal, w)

    abbrev pub bind_taken :
        (World → BindResult × World) → ℕ → Outcome (Bound Double) → World → BindResult × World
    bind_taken rest col (Outcome.done x) w = sent rest (bind w (col + 1) x)
    bind_taken rest col (Outcome.failed status) w = (BindResult.failed status, w)
    bind_taken rest col Outcome.fault w = (BindResult.fault, w)

    -- `switch (binder->types[col])`
    abbrev pub bind_typed :
        (World → BindResult × World)
        → ℕ
        → Option ArrowType
        → Param Double
        → World
        → BindResult × World
    bind_typed rest col none v w = (BindResult.fault, w)
    bind_typed rest col (some ty) v w = bind_taken rest col (bind_value ty v) w

    abbrev pub bind_column :
        (World → BindResult × World)
        → ℕ
        → Bool
        → Option ArrowType
        → Param Double
        → World
        → BindResult × World
    bind_column rest col true ty v w = sent rest (bind w (col + 1) Bound.null)
    bind_column rest col false ty v w = bind_typed rest col ty v w

    -- The loop over the columns, from `col` on.
    unfoldable pub bind_columns :
        ℕ → List Field → List ArrowType → Row Double → World → BindResult × World
    bind_columns col [] types row w = (BindResult.bound, w)
    bind_columns col (f ∷ fields) types [] w = (BindResult.fault, w)
    bind_columns col (f ∷ fields) types (v ∷ row) w =
        bind_column (bind_columns (col + 1) fields types row) col v.is_null (get_elem? types col) v
          w

    abbrev pub Bounded : Type 0
    Bounded = BindResult × Binder Double × World

    -- After the loop: `binder->next_row++`.
    abbrev pub after_columns : Binder Double → BindResult × World → Bounded
    after_columns b (BindResult.bound, w) =
        (BindResult.bound, record b { next_row = b.next_row + 1 }, w)
    after_columns b (other, w) = (other, b, w)

    abbrev pub bind_current : Binder Double → Option (Row Double) → World → Bounded
    bind_current b none w = (BindResult.fault, b, w)
    bind_current b (some row) w = after_columns b (bind_columns 0 (fields_of b) (types_of b) row w)

    abbrev pub after_clear : Binder Double → Bool × World → Bounded
    after_clear b (false, w) = (BindResult.failed StatusCode.internal, b, w)
    after_clear b (true, w) = bind_current b (current_row b) w

    abbrev pub after_reset : Binder Double → Bool × World → Bounded
    after_reset b (false, w) = (BindResult.failed StatusCode.internal, b, w)
    after_reset b (true, w) = after_clear b (clear_bindings w)

    -- From `sqlite3_reset` on.
    unfoldable pub bind_row : Binder Double → World → Bounded
    unfolding bind_columns
    bind_row b w = after_reset b (reset w)

    abbrev pub after_load : BindResult × Binder Double → World → Bounded
    after_load (BindResult.bound, b) w = bind_row b w
    after_load (other, b) w = (other, b, w)

    -- `AdbcSqliteBinderBindNext`
    unfoldable pub bind_next : Binder Double → World → Bounded
    unfolding load_params bind_row
    bind_next b w = after_load (load_params view_init b) w
