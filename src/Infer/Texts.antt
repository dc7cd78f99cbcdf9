-- ===== src/Infer/Texts.antt =====
-- The upcasts to text: the loops that print a column and the buffers that they start from.
use mathlib.Core.Option
use arrow_adbc.Base.{
  ℕ, suc, ◌+◌, ◌*◌, ◌≤◌, ◌<◌, ◌≡◌, ◌∙◌, ap, refl, Bool, true, false, Option, none, some, List, [],
  ◌∷◌, ◌++◌, append_assoc, append-nil, map, length, ℤ, arith,
}
use arrow_adbc.Adbc.{Ensures, Ensures-bind, Ensures-mono}
use arrow_adbc.Platform.{Platform, IsPlatform}
use arrow_adbc.Memory.{Cell, Buffer, Bytes, size_bytes}
use arrow_adbc.Decimal.{print_int64}
use arrow_adbc.Decimal.Length.{length-print_int64}
use arrow_adbc.Infer.{
  add_int32, append_int64_to_binary, append_double_to_binary, int64_loop, double_loop,
  start_offsets, upcast_int64_to_binary, upcast_double_to_binary,
}
use arrow_adbc.Infer.Refines.{FixedRows, StringRows}
use arrow_adbc.Infer.Rows.{size_bytes-append}
use arrow_adbc.Infer.Append.{
  Internal, append_unsafe-done, reserve_cells-Ensures, reserve_chars-Ensures, Printed,
  append_printed-Ensures,
}

module _ (p : Platform) (valid : IsPlatform p) where
  open p use {Double, of_int64, print_e}

  -- The offsets and characters that a loop of appended texts adds, from `offset` on.
  abbrev Texts :
      Buffer Double
      → Bytes
      → ℕ
      → List (Option (List ℕ))
      → List Bool
      → Buffer Double × Bytes
      → Type 0
  Texts offsets binary offset xs bs (offsets', binary') =
      (es : List (Cell Double)) × (rest : List ℕ) × (offsets'
        ≡ record offsets { cells = offsets.cells ++ es })
      × (binary'.chars ≡ binary.chars ++ rest)
      × (0 < binary'.capacity)
      × StringRows offset xs bs es rest

  Texts-present :
      (offsets : Buffer Double) (binary : Bytes) (offset : ℕ) (t : List ℕ)
      (next : Buffer Double × Bytes × ℕ) {xs : List (Option (List ℕ))} {bs : List Bool}
      (end : Buffer Double × Bytes)
      → Printed p valid offsets binary offset t next
      → Texts next.0 next.1 next.2 xs bs end
      → Texts offsets binary offset (some t ∷ xs) (true ∷ bs) end
  Texts-present offsets binary offset t next end (o, b, positive, f)
        (es, rest, o', b', pos', rows) =
      let c : Cell Double = Cell.int32 (add_int32 offset (length t)) in
      (
        c ∷ es,
        t ++ rest,
        o' ∙ rw (o, append_assoc offsets.cells (c ∷ []) es),
        b' ∙ rw (b, append_assoc binary.chars t rest),
        pos',
        StringRows.present t refl refl (rw f at rows),
      )

  Texts-absent :
      (offsets : Buffer Double) (binary : Bytes) (offset : ℕ) (t : List ℕ)
      (next : Buffer Double × Bytes × ℕ) {xs : List (Option (List ℕ))} {bs : List Bool}
      (end : Buffer Double × Bytes)
      → Printed p valid offsets binary offset t next
      → Texts next.0 next.1 next.2 xs bs end
      → Texts offsets binary offset (none ∷ xs) (false ∷ bs) end
  Texts-absent offsets binary offset t next end (o, b, positive, f) (es, rest, o', b', pos', rows) =
      let c : Cell Double = Cell.int32 (add_int32 offset (length t)) in
      (
        c ∷ es,
        t ++ rest,
        o' ∙ rw (o, append_assoc offsets.cells (c ∷ []) es),
        b' ∙ rw (b, append_assoc binary.chars t rest),
        pos',
        StringRows.absent t refl refl (rw f at rows),
      )

  -- The room for the next offset is still there after a printed value.
  room-Printed :
      (offsets : Buffer Double) (binary : Bytes) (offset : ℕ) (t : List ℕ)
      (next : Buffer Double × Bytes × ℕ) (n : ℕ)
      → Printed p valid offsets binary offset t next
      → size_bytes offsets.cells + 4 * suc n ≤ offsets.capacity
      → size_bytes next.0.cells + 4 * n ≤ next.0.capacity
  room-Printed offsets binary offset t next n (o, _, _, _) room = rw o (
      omega
        (arith, size_bytes-append offsets.cells (Cell.int32 (add_int32 offset (length t)) ∷ [])))

  int64_loop-Ensures :
      {xs : List (Option ℤ)} {bs : List Bool} {cs : List (Cell Double)} (offsets : Buffer Double)
      (binary : Bytes) (offset : ℕ)
      → FixedRows Cell.int64 xs bs cs
      → size_bytes offsets.cells + 4 * length xs ≤ offsets.capacity
      → 0 < binary.capacity
      → Ensures
          (Internal p)
          (Texts offsets binary offset (map (Option.map print_int64) xs) bs)
          (int64_loop p cs offsets binary offset)
  unfolding int64_loop append_int64_to_binary
  int64_loop-Ensures offsets binary offset FixedRows.nil room positive =
      Ensures.returns ([], [], rw append-nil, rw append-nil, positive, StringRows.nil)
  int64_loop-Ensures offsets binary offset (FixedRows.present {xs = xs} a r) room positive =
      Ensures-bind _
        (append_printed-Ensures p valid 21 (print_int64 a) offsets binary offset
          (omega (arith, length-print_int64 a)) (omega arith))
        λ next h.
          Ensures-mono
            (int64_loop-Ensures next.0 next.1 next.2 r
              (room-Printed offsets binary offset (print_int64 a) next (length xs) h room) h.2)
            λ end k. Texts-present offsets binary offset (print_int64 a) next end h k
  int64_loop-Ensures offsets binary offset (FixedRows.absent {xs = xs} a r) room positive =
      Ensures-bind _
        (append_printed-Ensures p valid 21 (print_int64 a) offsets binary offset
          (omega (arith, length-print_int64 a)) (omega arith))
        λ next h.
          Ensures-mono
            (int64_loop-Ensures next.0 next.1 next.2 r
              (room-Printed offsets binary offset (print_int64 a) next (length xs) h room) h.2)
            λ end k. Texts-absent offsets binary offset (print_int64 a) next end h k

  double_loop-Ensures :
      {xs : List (Option Double)} {bs : List Bool} {cs : List (Cell Double)}
      (offsets : Buffer Double) (binary : Bytes) (offset : ℕ)
      → FixedRows Cell.double xs bs cs
      → size_bytes offsets.cells + 4 * length xs ≤ offsets.capacity
      → 0 < binary.capacity
      → Ensures
          (Internal p)
          (Texts offsets binary offset (map (Option.map print_e) xs) bs)
          (double_loop p cs offsets binary offset)
  unfolding double_loop append_double_to_binary
  double_loop-Ensures offsets binary offset FixedRows.nil room positive =
      Ensures.returns ([], [], rw append-nil, rw append-nil, positive, StringRows.nil)
  double_loop-Ensures offsets binary offset (FixedRows.present {xs = xs} a r) room positive =
      Ensures-bind _
        (append_printed-Ensures p valid 64 (print_e a) offsets binary offset (valid.print_e_short a)
          (omega arith))
        λ next h.
          Ensures-mono
            (double_loop-Ensures next.0 next.1 next.2 r
              (room-Printed offsets binary offset (print_e a) next (length xs) h room) h.2)
            λ end k. Texts-present offsets binary offset (print_e a) next end h k
  double_loop-Ensures offsets binary offset (FixedRows.absent {xs = xs} a r) room positive =
      Ensures-bind _
        (append_printed-Ensures p valid 64 (print_e a) offsets binary offset (valid.print_e_short a)
          (omega arith))
        λ next h.
          Ensures-mono
            (double_loop-Ensures next.0 next.1 next.2 r
              (room-Printed offsets binary offset (print_e a) next (length xs) h room) h.2)
            λ end k. Texts-absent offsets binary offset (print_e a) next end h k

  start_offsets-Ensures :
      (b : Buffer Double)
      → 4 ≤ b.capacity
      → Ensures
          (Internal p)
          (λ (r : Buffer Double × Bytes).
            (r.0.cells ≡ Cell.int32 0 ∷ [])
            × (b.capacity ≤ r.0.capacity)
            × (r.1.chars ≡ [])
            × (b.capacity ≤ r.1.capacity))
          (start_offsets p b)
  unfolding start_offsets
  start_offsets-Ensures b room =
      Ensures-bind _
        (reserve_cells-Ensures p valid (record { cells = []; capacity = 0 }) b.capacity)
        λ offsets h.
          Ensures-bind _
            (reserve_chars-Ensures p valid (record { chars = []; capacity = 0 }) b.capacity)
            λ binary k.
              rw (append_unsafe-done offsets (Cell.int32 0) (rw h.0 (omega arith)))
                (Ensures.returns (rw h.0, omega arith, k.0, omega arith))

  -- A text column with its buffers: the offsets from 0 on, and the characters between them.
  abbrev pub IsText : ℕ → List (Option (List ℕ)) → List Bool → Buffer Double × Bytes → Type 0
  IsText capacity xs bs (offsets, binary) =
      (cs : List (Cell Double)) × (offsets.cells ≡ Cell.int32 0 ∷ cs)
      × (capacity ≤ offsets.capacity)
      × (0 < binary.capacity)
      × StringRows 0 xs bs cs binary.chars

  IsText-Texts :
      (capacity : ℕ) (start end : Buffer Double × Bytes) {xs : List (Option (List ℕ))}
      {bs : List Bool}
      → (start.0.cells ≡ Cell.int32 0 ∷ []) × (capacity ≤ start.0.capacity) × (start.1.chars ≡ [])
      → Texts start.0 start.1 0 xs bs end
      → IsText capacity xs bs end
  IsText-Texts capacity start end {xs = xs} {bs = bs} (cells, room, chars)
        (es, rest, o, b, positive, rows) =
      (
        es,
        ap (λ (x : Buffer Double). x.cells) o ∙ rw cells,
        rw o room,
        positive,
        rw (b, chars) rows,
      )

  pub upcast_int64_to_binary-Ensures :
      {xs : List (Option ℤ)} {bs : List Bool} (b : Buffer Double)
      → FixedRows Cell.int64 xs bs b.cells
      → 4 + 4 * length xs ≤ b.capacity
      → Ensures
          (Internal p)
          (IsText b.capacity (map (Option.map print_int64) xs) bs)
          (upcast_int64_to_binary p b)
  unfolding upcast_int64_to_binary
  upcast_int64_to_binary-Ensures b r room =
      Ensures-bind _ (start_offsets-Ensures b (omega arith)) λ start h.
        Ensures-mono
          (int64_loop-Ensures start.0 start.1 0 r (rw h.0 (omega (arith, h.1)))
            (omega (arith, h.3)))
          λ end k. IsText-Texts b.capacity start end (h.0, h.1, h.2) k

  pub upcast_double_to_binary-Ensures :
      {xs : List (Option Double)} {bs : List Bool} (b : Buffer Double)
      → FixedRows Cell.double xs bs b.cells
      → 4 + 4 * length xs ≤ b.capacity
      → Ensures
          (Internal p)
          (IsText b.capacity (map (Option.map print_e) xs) bs)
          (upcast_double_to_binary p b)
  unfolding upcast_double_to_binary
  upcast_double_to_binary-Ensures b r room =
      Ensures-bind _ (start_offsets-Ensures b (omega arith)) λ start h.
        Ensures-mono
          (double_loop-Ensures start.0 start.1 0 r (rw h.0 (omega (arith, h.1)))
            (omega (arith, h.3)))
          λ end k. IsText-Texts b.capacity start end (h.0, h.1, h.2) k
