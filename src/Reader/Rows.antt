-- ===== src/Reader/Rows.antt =====
-- The rows that `StatementReaderGetNext` appends to a batch, by the types of the first one.
use arrow_adbc.Base.{ℕ, Bool, ◌+◌, ◌≡◌, refl, none, List, [], ◌∷◌, ◌++◌, map, map-append}
use arrow_adbc.Platform.{Platform, ArrowType, Value}
use arrow_adbc.Engine.{Engine, ResultCode}
use arrow_adbc.Stream.{Slot}
use arrow_adbc.Reader.{Builder, Cast, cast, get_one_value, get_row}

-- A value that a column of the type takes: NULL always, integers in a column of integers, numbers
-- in a column of doubles, and anything in a column of text.
abbrev pub Fits : {Double : Type 0} → ArrowType → Value Double → Type 0
Fits ArrowType.int64 Value.null = Unit
Fits ArrowType.int64 (Value.integer z) = Unit
Fits ArrowType.int64 other = ⊥
Fits ArrowType.double Value.null = Unit
Fits ArrowType.double (Value.integer z) = Unit
Fits ArrowType.double (Value.real d) = Unit
Fits ArrowType.double other = ⊥
Fits ArrowType.string v = Unit
Fits other v = ⊥

-- The array builder takes every value.
pub record Appends {Double : Type 0} (builder : Builder Double) : Type 0 where
  pub start : (fields : List (List ℕ × ArrowType)) → builder.start fields ≡ none
  pub append : (out : List (Slot Double)) (x : Slot Double) → builder.append out x ≡ none
  pub finish : (out : List (Slot Double)) → builder.finish out ≡ none

module _ (p : Platform) where
  open p use {Double, column_int64, column_double, column_text}

  -- What such a column holds for a value.
  abbrev pub slot_of : ArrowType → Value Double → Slot Double
  slot_of ty Value.null = Slot.null
  slot_of ArrowType.int64 v = Slot.int (column_int64 v)
  slot_of ArrowType.double v = Slot.double (column_double v)
  slot_of ty v = Slot.string (column_text v)

  cast-Fits :
      (ty : ArrowType) (v : Value Double) → Fits ty v → cast p ty v ≡ Cast.slot (slot_of ty v)
  unfolding cast
  cast-Fits ArrowType.int64 Value.null h = refl
  cast-Fits ArrowType.int64 (Value.integer z) h = refl
  cast-Fits ArrowType.double Value.null h = refl
  cast-Fits ArrowType.double (Value.integer z) h = refl
  cast-Fits ArrowType.double (Value.real d) h = refl
  cast-Fits ArrowType.string Value.null h = refl
  cast-Fits ArrowType.string (Value.integer z) h = refl
  cast-Fits ArrowType.string (Value.real d) h = refl
  cast-Fits ArrowType.string (Value.text s) h = refl
  cast-Fits ArrowType.string (Value.blob s) h = refl
  cast-Fits other v h = absurd h

  module _ (engine : Engine Double) where
    open engine use {World, step, column}

    -- Each column of a row fits, from `col` on.
    abbrev pub RowFits : ℕ → List ArrowType → World → Type 0
    RowFits col [] w = Unit
    RowFits col (ty ∷ types) w = Fits ty (column w col) × RowFits (col + 1) types w

    -- The engine goes through rows that fit, from one world to another.
    pub data Fetched (types : List ArrowType) : World → List World → World → Type 0 where
      end : {w : World} → Fetched types w [] w
      next :
          {w : World} (w1 : World) {ws : List World} {w' : World}
          → step w ≡ (ResultCode.row, w1)
          → RowFits 0 types w1
          → Fetched types w1 ws w'
          → Fetched types w (w1 ∷ ws) w'

    -- The columns of a batch of those rows.
    abbrev pub slots : ℕ → List ArrowType → List World → List (List (Slot Double))
    slots col [] ws = []
    slots col (ty ∷ types) ws = map (λ w. slot_of ty (column w col)) ws ∷ slots (col + 1) types ws

    module _ (view_init : ℕ → Bool) (builder : Builder Double) (takes : Appends builder) where
      get_one_value-Fits :
          (ty : ArrowType) (v : Value Double) (out : List (Slot Double))
          → Fits ty v
          → get_one_value p engine view_init builder ty v out ≡ (none, out ++ slot_of ty v ∷ [])
      unfolding get_one_value
      get_one_value-Fits ty v out h =
          rw (get_one_value, cast-Fits ty v h, takes.append out (slot_of ty v))

      pub get_row-slots :
          (col : ℕ) (types : List ArrowType) (ws : List World) (w : World)
          → RowFits col types w
          → get_row p engine view_init builder col types (slots col types ws) w
            ≡ (none, slots col types (ws ++ w ∷ []))
      unfolding get_row
      get_row-slots col [] ws w h = refl
      get_row-slots col (ty ∷ types) ws w (here, rest) = rw (
        get_one_value-Fits ty (column w col) (map (λ w. slot_of ty (column w col)) ws) here,
        get_row-slots (col + 1) types ws w rest,
        map-append (λ w. slot_of ty (column w col)) ws (w ∷ []),
      )
