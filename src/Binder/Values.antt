-- ===== src/Binder/Values.antt =====
-- The values that `AdbcSqliteBinderBindNext` binds for a row, column by column.
use arrow_adbc.Base.{
  ℕ, ◌+◌, ◌≡◌, ◌<◌, Bool, true, false, List, [], ◌∷◌, ltb, ◌^◌, Bool-cases, inl, inr, ℤ, pos,
  IsInt64, arith,
}
use arrow_adbc.Adbc.{done}
use arrow_adbc.Platform.{Platform, ArrowType}
use arrow_adbc.Engine.{Engine, Bound}
use arrow_adbc.Params.{Param, Row, BindResult, bound}
use arrow_adbc.Binder.{int64_max, bind_uint, bind_value, sent}

pub data IsText : ArrowType → Type 0 where
  binary : IsText ArrowType.binary
  large_binary : IsText ArrowType.large_binary
  string : IsText ArrowType.string
  large_string : IsText ArrowType.large_string

pub data IsUnsigned : ArrowType → Type 0 where
  uint8 : IsUnsigned ArrowType.uint8
  uint16 : IsUnsigned ArrowType.uint16
  uint32 : IsUnsigned ArrowType.uint32
  uint64 : IsUnsigned ArrowType.uint64

pub data IsSigned : ArrowType → Type 0 where
  int8 : IsSigned ArrowType.int8
  int16 : IsSigned ArrowType.int16
  int32 : IsSigned ArrowType.int32
  int64 : IsSigned ArrowType.int64

pub data IsReal : ArrowType → Type 0 where
  float : IsReal ArrowType.float
  double : IsReal ArrowType.double

module _ (p : Platform) where
  open p use {Double}

  bind_uint-IsInt64 :
      (n : ℕ) (z : ℤ) → bind_uint {Double = Double} n ≡ done (Bound.int64 z) → IsInt64 z
  unfolding bind_uint
  bind_uint-IsInt64 n z e = elim (Bool-cases (ltb int64_max n)) [
    | inl over ↦ let refused = rw over at e in cc
    | inr fits ↦
        let taken = rw fits at e in
        let same : pos n ≡ z = cc in rw (← same) (fits_int64 n fits, omega arith)
  ]
    where
      fits_int64 : (n : ℕ) → ltb int64_max n ≡ false → n < 9_223_372_036_854_775_808
      fits_int64 n e = ground arith

  -- What is bound as an integer is in the range of `int64_t`: the unsigned columns are checked, and
  -- the signed ones hold nothing else.
  pub bind_value-IsInt64 :
      (ty : ArrowType) (v : Param Double) (z : ℤ)
      → IsInt64 v.int
      → bind_value p ty v ≡ done (Bound.int64 z)
      → IsInt64 z
  unfolding bind_value
  bind_value-IsInt64 ArrowType.uint8 v z h e = bind_uint-IsInt64 v.uint z e
  bind_value-IsInt64 ArrowType.uint16 v z h e = bind_uint-IsInt64 v.uint z e
  bind_value-IsInt64 ArrowType.uint32 v z h e = bind_uint-IsInt64 v.uint z e
  bind_value-IsInt64 ArrowType.uint64 v z h e = bind_uint-IsInt64 v.uint z e
  bind_value-IsInt64 ArrowType.int8 v z h e = let same : v.int ≡ z = cc in rw same at h
  bind_value-IsInt64 ArrowType.int16 v z h e = let same : v.int ≡ z = cc in rw same at h
  bind_value-IsInt64 ArrowType.int32 v z h e = let same : v.int ≡ z = cc in rw same at h
  bind_value-IsInt64 ArrowType.int64 v z h e = let same : v.int ≡ z = cc in rw same at h
  bind_value-IsInt64 other v z h e = cc

  -- What SQLite is given for a value of a type. The fraction of a FLOAT or DOUBLE is lost.
  pub data IsBound : ArrowType → Param Double → Bound Double → Type 0 where
    null : {ty : ArrowType} {v : Param Double} → v.is_null ≡ true → IsBound ty v Bound.null
    text :
        {ty : ArrowType} {v : Param Double}
        → v.is_null ≡ false
        → IsText ty
        → IsBound ty v (Bound.text v.bytes)
    unsigned :
        {ty : ArrowType} {v : Param Double}
        → v.is_null ≡ false
        → IsUnsigned ty
        → v.uint < 2 ^ 63
        → IsBound ty v (Bound.int64 (pos v.uint))
    signed :
        {ty : ArrowType} {v : Param Double}
        → v.is_null ≡ false
        → IsSigned ty
        → IsBound ty v (Bound.int64 v.int)
    truncated :
        {ty : ArrowType} {v : Param Double}
        → v.is_null ≡ false
        → IsReal ty
        → IsBound ty v (Bound.double (p.of_int64 (p.to_int64 v.real)))

  -- The values of a row, column by column.
  pub data RowBounds : List ArrowType → Row Double → List (Bound Double) → Type 0 where
    nil : RowBounds [] [] []
    cons :
        {ty : ArrowType} {types : List ArrowType} {v : Param Double} {row : Row Double}
        {x : Bound Double} {xs : List (Bound Double)}
        → IsBound ty v x
        → RowBounds types row xs
        → RowBounds (ty ∷ types) (v ∷ row) (x ∷ xs)

  module _ (engine : Engine Double) (view_init : ℕ → Bool) where
    open engine use {World, bind}

    -- Values bound one after the other, from the parameter `col + 1` on, until a call fails.
    unfoldable pub bind_all : ℕ → List (Bound Double) → World → BindResult × World
    bind_all col [] w = (bound, w)
    bind_all col (x ∷ xs) w = sent p engine view_init (bind_all (col + 1) xs) (bind w (col + 1) x)
