-- ===== src/Infer/Logical.antt =====
-- The abstract view of a result column while its type is inferred: optional values of one type.
use mathlib.Core.Option
use arrow_adbc.Base.{ℕ, Option, none, some, List, [], ◌∷◌, ◌++◌, map, length, ℤ}
use arrow_adbc.Platform.{Platform, ArrowType, Value}
use arrow_adbc.Decimal.{print_int64}

pub data Logical (Double : Type 0) : Type 0 where
  ints : List (Option ℤ) → Logical Double
  doubles : List (Option Double) → Logical Double
  strings : List (Option (List ℕ)) → Logical Double

abbrev pub count : {Double : Type 0} → Logical Double → ℕ
count (Logical.ints xs) = length xs
count (Logical.doubles xs) = length xs
count (Logical.strings xs) = length xs

abbrev pub type_of : {Double : Type 0} → Logical Double → ArrowType
type_of (Logical.ints xs) = ArrowType.int64
type_of (Logical.doubles xs) = ArrowType.double
type_of (Logical.strings xs) = ArrowType.string

-- A value added to the end; what stands there already is converted where the new value is wider.
module _ (p : Platform) where
  open p use {Double, of_int64, print_e, column_int64, column_double, column_text}

  unfoldable pub logical_step : Value Double → Logical Double → Option (Logical Double)
  logical_step Value.null (Logical.ints xs) = some (Logical.ints (xs ++ none ∷ []))
  logical_step Value.null (Logical.doubles xs) = some (Logical.doubles (xs ++ none ∷ []))
  logical_step Value.null (Logical.strings xs) = some (Logical.strings (xs ++ none ∷ []))
  logical_step (Value.integer z) (Logical.ints xs) =
      some (Logical.ints (xs ++ some (column_int64 (Value.integer z)) ∷ []))
  logical_step (Value.integer z) (Logical.doubles xs) =
      some (Logical.doubles (xs ++ some (column_double (Value.integer z)) ∷ []))
  logical_step (Value.integer z) (Logical.strings xs) =
      some (Logical.strings (xs ++ some (print_int64 (column_int64 (Value.integer z))) ∷ []))
  logical_step (Value.real d) (Logical.ints xs) =
      some
        (Logical.doubles (map (Option.map of_int64) xs ++ some (column_double (Value.real d)) ∷ []))
  logical_step (Value.real d) (Logical.doubles xs) =
      some (Logical.doubles (xs ++ some (column_double (Value.real d)) ∷ []))
  logical_step (Value.real d) (Logical.strings xs) =
      some (Logical.strings (xs ++ some (print_e (column_double (Value.real d))) ∷ []))
  logical_step (Value.text s) (Logical.ints xs) =
      some (
        Logical.strings (map (Option.map print_int64) xs ++ some (column_text (Value.text s)) ∷ []))
  logical_step (Value.text s) (Logical.doubles xs) =
      some (Logical.strings (map (Option.map print_e) xs ++ some (column_text (Value.text s)) ∷ []))
  logical_step (Value.text s) (Logical.strings xs) =
      some (Logical.strings (xs ++ some (column_text (Value.text s)) ∷ []))
  logical_step (Value.blob s) l = none
