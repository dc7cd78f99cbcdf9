-- ===== src/Infer/OneValue.antt =====
-- The `SQLITE_TEXT` case of `StatementReaderInferOneValue`, and the whole function.
use mathlib.Core.Option
use arrow_adbc.Base.{
  ℕ, ◌*◌, ◌≤◌, ◌<◌, ◌≡◌, ap, refl, Bool, true, false, Option, some, List, [], ◌∷◌, ◌++◌, length,
  map, arith,
}
use arrow_adbc.Adbc.{StatusCode, Ensures, Ensures-bind, Ensures-mono}
use arrow_adbc.Platform.{Platform, IsPlatform, ArrowType, Value}
use arrow_adbc.Memory.{Cell, Bytes}
use arrow_adbc.Decimal.{print_int64}
use arrow_adbc.Infer.{Column, add_int32, to_string_column, append_text, infer_one_value}
use arrow_adbc.Infer.Logical.{Logical, count, logical_step}
use arrow_adbc.Infer.Refines.{StringRows, Content, Refines}
use arrow_adbc.Infer.Rows.{FixedRows-bits, StringRows-bits, StringRows-last, StringRows-present}
use arrow_adbc.Infer.Append.{
  Internal, bitmap_append_unsafe-done, append_cell-Ensures, append_chars-Ensures,
}
use arrow_adbc.Infer.Texts.{upcast_int64_to_binary-Ensures, upcast_double_to_binary-Ensures}
use arrow_adbc.Infer.Step.{
  column, Stepped, held, infer_null-Ensures, infer_integer-Ensures, infer_float-Ensures,
}

Content-bits :
    {Double : Type 0} {binary : Bytes} {ty : ArrowType} {bits : List Bool}
    {cells : List (Cell Double)} {l : Logical Double}
    → Content binary ty bits cells l
    → length bits ≡ count l
Content-bits (Content.ints r) = FixedRows-bits r
Content-bits (Content.doubles r) = FixedRows-bits r
Content-bits (Content.strings r positive) = StringRows-bits r

-- The errors of one value: SQLite's BLOB, and a refused allocation otherwise.
abbrev pub InferError : (p : Platform) → Value p.Double → StatusCode → Type 0
InferError p (Value.blob s) status = status ≡ StatusCode.io
InferError p other status = Internal p status

module _ (p : Platform) (valid : IsPlatform p) {rows vc bc : ℕ} (bitmap_room : rows ≤ vc)
    (buffer_room : 8 * rows ≤ bc) where
  open p use {Double, print_e, column_text}

  -- The abstract column as text.
  abbrev texts : Logical Double → List (Option (List ℕ))
  texts (Logical.ints xs) = map (Option.map print_int64) xs
  texts (Logical.doubles xs) = map (Option.map print_e) xs
  texts (Logical.strings xs) = xs

  -- A text column whose new row has its bit but not yet its text.
  abbrev TextReady : List Bool → List (Option (List ℕ)) → Column Double → Type 0
  TextReady bits xs c =
      (cs : List (Cell Double)) × (bc' : ℕ) × (binary : Bytes) × (c
        ≡ column (bits ++ true ∷ []) vc (Cell.int32 0 ∷ cs) bc' binary ArrowType.string)
      × (bc ≤ bc')
      × (0 < binary.capacity)
      × StringRows 0 xs bits cs binary.chars

  to_string_column-Ensures :
      {binary : Bytes} {ty : ArrowType} {bits : List Bool} {cells : List (Cell Double)}
      {l : Logical Double}
      → Content binary ty bits cells l
      → count l < rows
      → Ensures
          (Internal p)
          (TextReady bits (texts l))
          (to_string_column p (column (bits ++ true ∷ []) vc cells bc binary ty) ty)
  unfolding to_string_column
  to_string_column-Ensures {bits = bits} {cells = cells} (Content.ints r) room =
      Ensures-bind _
        (upcast_int64_to_binary-Ensures p valid (record { cells = cells; capacity = bc }) r
          (omega arith))
        λ b (cs, e, grown, positive, rows). Ensures.returns (
          cs,
          b.0.capacity,
          b.1,
          ap (λ ds. column (bits ++ true ∷ []) vc ds b.0.capacity b.1 ArrowType.string) e,
          grown,
          positive,
          rows,
        )
  to_string_column-Ensures {bits = bits} {cells = cells} (Content.doubles r) room =
      Ensures-bind _
        (upcast_double_to_binary-Ensures p valid (record { cells = cells; capacity = bc }) r
          (omega arith))
        λ b (cs, e, grown, positive, rows). Ensures.returns (
          cs,
          b.0.capacity,
          b.1,
          ap (λ ds. column (bits ++ true ∷ []) vc ds b.0.capacity b.1 ArrowType.string) e,
          grown,
          positive,
          rows,
        )
  to_string_column-Ensures {binary = binary} (Content.strings {cs = cs} r positive) room =
      Ensures.returns (cs, bc, binary, refl, omega arith, positive, r)

  append_text-Ensures :
      (t : List ℕ) (bits : List Bool) (xs : List (Option (List ℕ))) (c : Column Double)
      → TextReady bits xs c
      → Ensures
          (Internal p)
          (λ c'. Refines rows c' (Logical.strings (xs ++ some t ∷ [])))
          (append_text p t c)
  unfolding append_text
  append_text-Ensures t bits xs c (cs, bc', binary, e, grown, positive, r) =
      let (o, last, small) = StringRows-last r (omega arith) in
      rw (e, last)
        (Ensures-bind _ (append_chars-Ensures p valid binary t) λ b h.
          Ensures-bind _
            (append_cell-Ensures p valid (record { cells = Cell.int32 0 ∷ cs; capacity = bc' })
              (Cell.int32 (add_int32 o (length t))))
            λ b' h'. Ensures.returns (
              held p valid bitmap_room buffer_room b'.capacity (omega (arith, h'.1)) (
                rw h'.0
                  (Content.strings (rw h.0 (StringRows-present o t r last)) (omega (arith, h.1))))))

  logical_step-text :
      (s : List ℕ) (l : Logical Double)
      → logical_step p (Value.text s) l
        ≡ some (Logical.strings (texts l ++ some (column_text (Value.text s)) ∷ []))
  unfolding logical_step
  logical_step-text s (Logical.ints xs) = refl
  logical_step-text s (Logical.doubles xs) = refl
  logical_step-text s (Logical.strings xs) = refl

  infer_parts-Ensures :
      (v : Value Double) {binary : Bytes} {ty : ArrowType} {bits : List Bool}
      {cells : List (Cell Double)} {l : Logical Double}
      → Content binary ty bits cells l
      → count l < rows
      → Ensures
          (InferError p v)
          (Stepped p valid bitmap_room buffer_room v l)
          (infer_one_value p v (column bits vc cells bc binary ty))
  unfolding infer_one_value
  infer_parts-Ensures Value.null {bits = bits} content room =
      rw
        (bitmap_append_unsafe-done (record { bits = bits; capacity = vc }) false
          (omega (arith, Content-bits content)))
        (infer_null-Ensures p valid bitmap_room buffer_room content room)
  infer_parts-Ensures (Value.integer z) {bits = bits} content room =
      rw
        (bitmap_append_unsafe-done (record { bits = bits; capacity = vc }) true
          (omega (arith, Content-bits content)))
        (infer_integer-Ensures p valid bitmap_room buffer_room z content room)
  infer_parts-Ensures (Value.real d) {bits = bits} content room =
      rw
        (bitmap_append_unsafe-done (record { bits = bits; capacity = vc }) true
          (omega (arith, Content-bits content)))
        (infer_float-Ensures p valid bitmap_room buffer_room d content room)
  infer_parts-Ensures (Value.text s) {bits = bits} {l = l} content room =
      rw
        (bitmap_append_unsafe-done (record { bits = bits; capacity = vc }) true
          (omega (arith, Content-bits content)))
        (Ensures-bind _ (to_string_column-Ensures content room) λ c ready.
          Ensures-mono (append_text-Ensures (column_text (Value.text s)) bits (texts l) c ready)
            λ c' h. (_, logical_step-text s l, h))
  infer_parts-Ensures (Value.blob s) content room = Ensures.raises refl

module _ (p : Platform) (valid : IsPlatform p) where
  -- A column whose buffers were reserved for `rows` rows and that holds an abstract column `l` of
  -- fewer rows takes any value without an access out of bounds. The result holds `l` with the
  -- value added at the end, and the column widened as the value asks. The only errors are
  -- `ADBC_STATUS_IO` at a BLOB, and `ADBC_STATUS_INTERNAL` when an allocation was refused.
  pub infer_one_value-Refines :
      {rows : ℕ} (v : Value p.Double) (c : Column p.Double) (l : Logical p.Double)
      → Refines rows c l
      → count l < rows
      → Ensures
          (InferError p v)
          (λ c'. (l' : Logical p.Double) × (logical_step p v l ≡ some l') × Refines rows c' l')
          (infer_one_value p v c)
  infer_one_value-Refines v c l h room =
      infer_parts-Ensures p valid h.bitmap_room h.buffer_room v h.content room
