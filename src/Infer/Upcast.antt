-- ===== src/Infer/Upcast.antt =====
-- The upcasts rewrite a column without a fault: each value is converted, and the rows stay.
use mathlib.Core.Option
use arrow_adbc.Base.{
  ◌+◌, ◌*◌, ◌≤◌, ◌≡◌, Bool, Option, List, [], ◌∷◌, ◌++◌, append_assoc, append-nil, map, length, ℤ,
  arith,
}
use arrow_adbc.Adbc.{done, Ensures, Ensures-bind}
use arrow_adbc.Platform.{Platform, IsPlatform}
use arrow_adbc.Memory.{Cell, Buffer, size_bytes}
use arrow_adbc.Infer.{doubles_loop, upcast_int64_to_double}
use arrow_adbc.Infer.Refines.{FixedRows}
use arrow_adbc.Infer.Rows.{size_bytes-append}
use arrow_adbc.Infer.Append.{Internal, append_unsafe-done, reserve_cells-Ensures}

module _ (p : Platform) (valid : IsPlatform p) where
  open p use {Double, of_int64, print_e}

  doubles_loop-done :
      {xs : List (Option ℤ)} {bs : List Bool} {cs : List (Cell Double)} (b : Buffer Double)
      → FixedRows Cell.int64 xs bs cs
      → size_bytes b.cells + 8 * length xs ≤ b.capacity
      → (es : List (Cell Double)) × (doubles_loop p cs b
          ≡ done (record b { cells = b.cells ++ es }))
        × FixedRows Cell.double (map (Option.map of_int64) xs) bs es
  unfolding doubles_loop
  doubles_loop-done b FixedRows.nil room = ([], rw append-nil, FixedRows.nil)
  doubles_loop-done b (FixedRows.present a r) room =
      let c : Cell Double = Cell.double (of_int64 a) in
      let (es, loop, rows) =
        doubles_loop-done (record b { cells = b.cells ++ c ∷ [] }) r
          (omega (arith, size_bytes-append b.cells (c ∷ []))) in
      (
        c ∷ es,
        rw (append_unsafe-done b c (omega arith), loop, append_assoc b.cells (c ∷ []) es),
        FixedRows.present (of_int64 a) rows,
      )
  doubles_loop-done b (FixedRows.absent a r) room =
      let c : Cell Double = Cell.double (of_int64 a) in
      let (es, loop, rows) =
        doubles_loop-done (record b { cells = b.cells ++ c ∷ [] }) r
          (omega (arith, size_bytes-append b.cells (c ∷ []))) in
      (
        c ∷ es,
        rw (append_unsafe-done b c (omega arith), loop, append_assoc b.cells (c ∷ []) es),
        FixedRows.absent (of_int64 a) rows,
      )

  pub upcast_int64_to_double-Ensures :
      {xs : List (Option ℤ)} {bs : List Bool} (b : Buffer Double)
      → FixedRows Cell.int64 xs bs b.cells
      → 8 * length xs ≤ b.capacity
      → Ensures
          (Internal p)
          (λ (b' : Buffer Double).
            FixedRows Cell.double (map (Option.map of_int64) xs) bs b'.cells
            × (b.capacity ≤ b'.capacity))
          (upcast_int64_to_double p b)
  unfolding upcast_int64_to_double
  upcast_int64_to_double-Ensures b r room =
      Ensures-bind _ (reserve_cells-Ensures p valid _ b.capacity) λ b' h.
        let (es, loop, rows) = doubles_loop-done b' r (rw h.0 (omega (arith, h.1))) in
        rw (loop, h.0) (Ensures.returns (rows, omega (arith, h.1)))
