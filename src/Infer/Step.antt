-- ===== src/Infer/Step.antt =====
-- One value added to one column, by the type of the value: `StatementReaderInferOneValue` on a
-- column that holds an abstract column adds the value there, without a fault.
use mathlib.Core.Option
use arrow_adbc.Base.{
  map, length-map, ℕ, ◌*◌, ◌≤◌, ◌<◌, ◌≡◌, refl, Bool, true, false, none, some, List, [], ◌∷◌, ◌++◌,
  ℤ, pos, arith,
}
use arrow_adbc.Adbc.{Ensures, Ensures-bind}
use arrow_adbc.Platform.{Platform, IsPlatform, ArrowType, Value}
use arrow_adbc.Memory.{Cell, Bytes}
use arrow_adbc.Decimal.Length.{length-print_int64}
use arrow_adbc.Decimal.{print_int64}
use arrow_adbc.Infer.{
  Column, infer_null, infer_integer, infer_float, append_int64_to_binary, append_double_to_binary,
}
use arrow_adbc.Infer.Logical.{Logical, count, logical_step}
use arrow_adbc.Infer.Refines.{Content, Refines}
use arrow_adbc.Infer.Rows.{
  FixedRows-present, FixedRows-absent, FixedRows-size, StringRows-last, StringRows-present,
  StringRows-null, StringRows-size,
}
use arrow_adbc.Infer.Append.{
  Internal, append_unsafe-done, append_cell-Ensures, append_printed-Ensures,
}
use arrow_adbc.Infer.Upcast.{upcast_int64_to_double-Ensures}

-- A column by its parts, so that they can be matched on.
abbrev pub column :
    {Double : Type 0} → List Bool → ℕ → List (Cell Double) → ℕ → Bytes → ArrowType → Column Double
column bits vc cells bc binary ty = record {
  validity = record { bits = bits; capacity = vc };
  buffer = record { cells = cells; capacity = bc };
  binary = binary;
  current_type = ty;
}

module _ (p : Platform) (valid : IsPlatform p) {rows vc bc : ℕ} (bitmap_room : rows ≤ vc)
    (buffer_room : 8 * rows ≤ bc) where
  open p use {Double, double_zero, of_int64, print_e, column_int64, column_double, column_text}

  abbrev pub Stepped : Value Double → Logical Double → Column Double → Type 0
  Stepped v l c = (l' : Logical Double) × (logical_step p v l ≡ some l') × Refines rows c l'

  pub held :
      {binary : Bytes} {ty : ArrowType} {bits : List Bool} {cells : List (Cell Double)}
      {l : Logical Double} (bc' : ℕ)
      → bc ≤ bc'
      → Content binary ty bits cells l
      → Refines rows (column bits vc cells bc' binary ty) l
  held bc' grown content = record {
    bitmap_room = bitmap_room;
    buffer_room = omega arith;
    content = content;
  }

  pub infer_null-Ensures :
      {binary : Bytes} {ty : ArrowType} {bits : List Bool} {cells : List (Cell Double)}
      {l : Logical Double}
      → Content binary ty bits cells l
      → count l < rows
      → Ensures
          (Internal p)
          (Stepped Value.null l)
          (infer_null p (column (bits ++ false ∷ []) vc cells bc binary ty) ty)
  unfolding infer_null logical_step
  infer_null-Ensures {cells = cells} (Content.ints {xs = xs} r) room =
      rw
        (append_unsafe-done (record { cells = cells; capacity = bc }) (Cell.int64 (pos 0))
          (omega (arith, FixedRows-size (λ a. refl) r)))
        (Ensures.returns (
          Logical.ints (xs ++ none ∷ []),
          refl,
          held bc (omega arith) (Content.ints (FixedRows-absent (pos 0) r)),
        ))
  infer_null-Ensures {cells = cells} (Content.doubles {xs = xs} r) room =
      rw
        (append_unsafe-done (record { cells = cells; capacity = bc }) (Cell.double double_zero)
          (omega (arith, FixedRows-size (λ a. refl) r)))
        (Ensures.returns (
          Logical.doubles (xs ++ none ∷ []),
          refl,
          held bc (omega arith) (Content.doubles (FixedRows-absent double_zero r)),
        ))
  infer_null-Ensures {cells = cells} (Content.strings {xs = xs} {cs = cs} r positive) room =
      let (o, last, small) = StringRows-last r (omega arith) in
      rw last (
        Ensures-bind _
          (append_cell-Ensures p valid (record { cells = cells; capacity = bc }) (Cell.int32 o))
          λ b h. Ensures.returns (
            Logical.strings (xs ++ none ∷ []),
            refl,
            held b.capacity h.1
                (rw h.0 (Content.strings (StringRows-null o r last small) positive)),
          ))

  pub infer_integer-Ensures :
      (z : ℤ) {binary : Bytes} {ty : ArrowType} {bits : List Bool} {cells : List (Cell Double)}
      {l : Logical Double}
      → Content binary ty bits cells l
      → count l < rows
      → Ensures
          (Internal p)
          (Stepped (Value.integer z) l)
          (infer_integer p (Value.integer z) (column (bits ++ true ∷ []) vc cells bc binary ty) ty)
  unfolding infer_integer logical_step append_int64_to_binary
  infer_integer-Ensures z {cells = cells} (Content.ints {xs = xs} r) room =
      rw
        (append_unsafe-done (record { cells = cells; capacity = bc })
          (Cell.int64 (column_int64 (Value.integer z)))
          (omega (arith, FixedRows-size (λ a. refl) r)))
        (Ensures.returns (
          Logical.ints (xs ++ some (column_int64 (Value.integer z)) ∷ []),
          refl,
          held bc (omega arith)
              (Content.ints (FixedRows-present (column_int64 (Value.integer z)) r)),
        ))
  infer_integer-Ensures z {cells = cells} (Content.doubles {xs = xs} r) room =
      rw
        (append_unsafe-done (record { cells = cells; capacity = bc })
          (Cell.double (column_double (Value.integer z)))
          (omega (arith, FixedRows-size (λ a. refl) r)))
        (Ensures.returns (
          Logical.doubles (xs ++ some (column_double (Value.integer z)) ∷ []),
          refl,
          held bc (omega arith)
              (Content.doubles (FixedRows-present (column_double (Value.integer z)) r)),
        ))
  infer_integer-Ensures z {cells = cells} (Content.strings {xs = xs} r positive) room =
      let (o, last, small) = StringRows-last r (omega arith) in
      let t : List ℕ = print_int64 (column_int64 (Value.integer z)) in
      rw last (
        Ensures-bind _
          (append_printed-Ensures p valid 21 t (record { cells = cells; capacity = bc }) _ o
            (omega (arith, length-print_int64 (column_int64 (Value.integer z))))
            (omega (arith, StringRows-size r)))
          λ next h. Ensures.returns (
            Logical.strings (xs ++ some t ∷ []),
            refl,
            held next.0.capacity (rw h.0 (omega arith))
                (rw h.0 (Content.strings (rw h.1 (StringRows-present o t r last)) h.2)),
          ))

  pub infer_float-Ensures :
      (d : Double) {binary : Bytes} {ty : ArrowType} {bits : List Bool} {cells : List (Cell Double)}
      {l : Logical Double}
      → Content binary ty bits cells l
      → count l < rows
      → Ensures
          (Internal p)
          (Stepped (Value.real d) l)
          (infer_float p (Value.real d) (column (bits ++ true ∷ []) vc cells bc binary ty) ty)
  unfolding infer_float logical_step append_double_to_binary
  infer_float-Ensures d {cells = cells} (Content.ints {xs = xs} r) room =
      let x : Double = column_double (Value.real d) in
      Ensures-bind _
        (upcast_int64_to_double-Ensures p valid (record { cells = cells; capacity = bc }) r
          (omega arith))
        λ b h.
          rw
            (append_unsafe-done b (Cell.double x)
              (omega (arith, FixedRows-size (λ a. refl) h.0, length-map (Option.map of_int64) xs)))
            (Ensures.returns (
              Logical.doubles (map (Option.map of_int64) xs ++ some x ∷ []),
              refl,
              held b.capacity h.1 (Content.doubles (FixedRows-present x h.0)),
            ))
  infer_float-Ensures d {cells = cells} (Content.doubles {xs = xs} r) room =
      rw
        (append_unsafe-done (record { cells = cells; capacity = bc })
          (Cell.double (column_double (Value.real d)))
          (omega (arith, FixedRows-size (λ a. refl) r)))
        (Ensures.returns (
          Logical.doubles (xs ++ some (column_double (Value.real d)) ∷ []),
          refl,
          held bc (omega arith)
              (Content.doubles (FixedRows-present (column_double (Value.real d)) r)),
        ))
  infer_float-Ensures d {cells = cells} (Content.strings {xs = xs} r positive) room =
      let (o, last, small) = StringRows-last r (omega arith) in
      let t : List ℕ = print_e (column_double (Value.real d)) in
      rw last (
        Ensures-bind _
          (append_printed-Ensures p valid 64 t (record { cells = cells; capacity = bc }) _ o
            (valid.print_e_short (column_double (Value.real d))) (omega (arith, StringRows-size r)))
          λ next h. Ensures.returns (
            Logical.strings (xs ++ some t ∷ []),
            refl,
            held next.0.capacity (rw h.0 (omega arith))
                (rw h.0 (Content.strings (rw h.1 (StringRows-present o t r last)) h.2)),
          ))
