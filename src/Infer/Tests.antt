-- ===== src/Infer/Tests.antt =====
-- Runs of the inference, and the theorems at concrete inputs.
use arrow_adbc.Base.{◌≡◌, true, false, none, some, [], ◌∷◌, ℤ, pos, arith}
use arrow_adbc.Adbc.{Ensures}
use arrow_adbc.Platform.{ArrowType, Value}
use arrow_adbc.Platform.Toy.{toy, toy-IsPlatform}
use arrow_adbc.Memory.{Cell}
use arrow_adbc.Infer.{Column, infer_one_value}
use arrow_adbc.Infer.Logical.{Logical, logical_step}
use arrow_adbc.Infer.Refines.{FixedRows, Content, Refines}
use arrow_adbc.Infer.Decode.{read_column, read_column-Refines}
use arrow_adbc.Infer.OneValue.{InferError, infer_one_value-Refines}

-- A column of an integer and a NULL, in buffers for four rows.
abbrev two_rows : Column ℤ
two_rows = record {
  validity = record { bits = true ∷ false ∷ []; capacity = 4 };
  buffer = record { cells = Cell.int64 (pos 5) ∷ Cell.int64 (pos 0) ∷ []; capacity = 32 };
  binary = record { chars = []; capacity = 0 };
  current_type = ArrowType.int64;
}

abbrev two_values : Logical ℤ
two_values = Logical.ints (some (pos 5) ∷ none ∷ [])

two_rows-Refines : Refines 4 two_rows two_values
two_rows-Refines = record {
  bitmap_room = omega arith;
  buffer_room = omega arith;
  content = Content.ints (FixedRows.present (pos 5) (FixedRows.absent (pos 0) FixedRows.nil));
}

infer_one_value-Refines_example :
    Ensures
      (InferError toy (Value.text (b'a' ∷ [])))
      (λ c.
        (l : Logical ℤ) × (logical_step toy (Value.text (b'a' ∷ [])) two_values ≡ some l)
        × Refines 4 c l)
      (infer_one_value toy (Value.text (b'a' ∷ [])) two_rows)
infer_one_value-Refines_example =
    infer_one_value-Refines toy toy-IsPlatform (Value.text (b'a' ∷ [])) two_rows two_values
      two_rows-Refines (omega arith)

read_column-Refines_example : read_column two_rows ≡ some two_values
read_column-Refines_example = read_column-Refines two_rows two_values two_rows-Refines (omega arith)
