-- ===== src/Infer/Decode.antt =====
-- What an Arrow consumer reads from an inferred text column: the value of a row is the slice of the
-- characters between two neighbouring offsets, and null where its validity bit is unset. An offset is
-- an `int32_t`, so a pattern from 2^31 on is negative and marks no place.
use mathlib.Core.Option
use arrow_adbc.Base.{
  ℕ, ◌+◌, ◌-◌, ◌<◌, ltb, lt→ltb, ◌≡◌, ◌∙◌, append_assoc, ◌^◌, refl, ap, Bool, true, false, Option,
  none, some, List, [], ◌∷◌, ◌++◌, length, length-append, take, drop, take-append, take-length,
  drop-append, drop-length, leb, le→leb, ◌&&◌, if◌then◌else◌, ℤ, arith,
}
use arrow_adbc.Platform.{ArrowType}
use arrow_adbc.Memory.{Cell, Bytes}
use arrow_adbc.Infer.{Column, add_int32}
use arrow_adbc.Infer.Logical.{Logical}
use arrow_adbc.Infer.Refines.{FixedRows, StringRows, Content, Refines}

-- The slice between two offsets, where it lies in the characters.
abbrev pub slice : List ℕ → ℕ → ℕ → Option (List ℕ)
slice chars start stop =
    if ltb stop (2 ^ 31) && (leb start stop && leb stop (length chars))
    then some (take (stop - start) (drop start chars))
    else none

abbrev nullable : Bool → List ℕ → Option (List ℕ)
nullable true t = some t
nullable false t = none

abbrev cons_slot :
    Bool → Option (List ℕ) → Option (List (Option (List ℕ))) → Option (List (Option (List ℕ)))
cons_slot b none rest = none
cons_slot b (some t) none = none
cons_slot b (some t) (some rest) = some (nullable b t ∷ rest)

slice_lem :
    (before t rest : List ℕ)
    → length before + length t < 2 ^ 31
    → slice (before ++ (t ++ rest)) (length before) (length before + length t) ≡ some t
slice_lem before t rest fits =
    let size : length before + length t - length before ≡ length t = omega arith in
    rw (
      lt→ltb (length before + length t) (2 ^ 31) fits,
      le→leb (length before) (length before + length t) (omega arith),
      le→leb (length before + length t) (length (before ++ (t ++ rest)))
          (omega (arith, length-append before (t ++ rest), length-append t rest)),
      drop-append (length before) before (t ++ rest) (omega arith),
      drop-length before,
      size,
      take-append (length t) t rest (omega arith),
      take-length t,
    )

row_lem :
    (before t rest chars : List ℕ) (start stop : ℕ)
    → start ≡ length before
    → stop ≡ add_int32 start (length t)
    → chars ≡ t ++ rest
    → length before + length chars < 2 ^ 31
    → (slice (before ++ chars) start stop ≡ some t)
      × (stop ≡ length (before ++ t))
      × (before ++ chars ≡ (before ++ t) ++ rest)
      × (length (before ++ t) + length rest < 2 ^ 31)
row_lem before t rest chars start stop e s q fits =
    let long : length chars ≡ length t + length rest =
      ap (λ (c : List ℕ). length c) q ∙ length-append t rest in
    let end : stop ≡ length before + length t = omega (arith, long) in
    (
      rw (q, e, end) (slice_lem before t rest (omega (arith, long))),
      omega (arith, length-append before t),
      rw (q, append_assoc before t rest),
      omega (arith, length-append before t),
    )

abbrev cons_cell : {A : Type 0} → Bool → A → Option (List (Option A)) → Option (List (Option A))
cons_cell b a none = none
cons_cell true a (some rest) = some (some a ∷ rest)
cons_cell false a (some rest) = some (none ∷ rest)

module _ {Double : Type 0} where
  pub read_strings : List ℕ → ℕ → List Bool → List (Cell Double) → Option (List (Option (List ℕ)))
  read_strings chars start [] [] = some []
  read_strings chars start (b ∷ bs) (Cell.int32 stop ∷ cs) =
      cons_slot b (slice chars start stop) (read_strings chars stop bs cs)
  read_strings chars start bs cs = none

  read_strings-rows :
      {start : ℕ} {xs : List (Option (List ℕ))} {bs : List Bool} {cs : List (Cell Double)}
      {chars : List ℕ} (before : List ℕ)
      → StringRows start xs bs cs chars
      → start ≡ length before
      → length before + length chars < 2 ^ 31
      → read_strings (before ++ chars) start bs cs ≡ some xs
  unfolding read_strings
  read_strings-rows before StringRows.nil e fits = refl
  read_strings-rows {start = start} {chars = chars} before
        (StringRows.present {stop = stop} {xs = xs} {bs = bs} {cs = cs} {rest = rest} t s q r) e
        fits =
      let (cut, next, same, fits') = row_lem before t rest chars start stop e s q fits in
      let later : read_strings (before ++ chars) stop bs cs ≡ some xs =
        rw same (read_strings-rows (before ++ t) r next fits') in
      rw (cut, later)
  read_strings-rows {start = start} {chars = chars} before
        (StringRows.absent {stop = stop} {xs = xs} {bs = bs} {cs = cs} {rest = rest} t s q r) e
        fits =
      let (cut, next, same, fits') = row_lem before t rest chars start stop e s q fits in
      let later : read_strings (before ++ chars) stop bs cs ≡ some xs =
        rw same (read_strings-rows (before ++ t) r next fits') in
      rw (cut, later)

  pub read_ints : List Bool → List (Cell Double) → Option (List (Option ℤ))
  read_ints [] [] = some []
  read_ints (b ∷ bs) (Cell.int64 z ∷ cs) = cons_cell b z (read_ints bs cs)
  read_ints bs cs = none

  pub read_doubles : List Bool → List (Cell Double) → Option (List (Option Double))
  read_doubles [] [] = some []
  read_doubles (b ∷ bs) (Cell.double d ∷ cs) = cons_cell b d (read_doubles bs cs)
  read_doubles bs cs = none

  read_ints-rows :
      {xs : List (Option ℤ)} {bs : List Bool} {cs : List (Cell Double)}
      → FixedRows Cell.int64 xs bs cs
      → read_ints bs cs ≡ some xs
  unfolding read_ints
  read_ints-rows FixedRows.nil = refl
  read_ints-rows (FixedRows.present a r) = rw (read_ints-rows r)
  read_ints-rows (FixedRows.absent a r) = rw (read_ints-rows r)

  read_doubles-rows :
      {xs : List (Option Double)} {bs : List Bool} {cs : List (Cell Double)}
      → FixedRows Cell.double xs bs cs
      → read_doubles bs cs ≡ some xs
  unfolding read_doubles
  read_doubles-rows FixedRows.nil = refl
  read_doubles-rows (FixedRows.present a r) = rw (read_doubles-rows r)
  read_doubles-rows (FixedRows.absent a r) = rw (read_doubles-rows r)

  -- The array of a column by its type, as the Arrow format lays it out.
  pub read_parts : ArrowType → Bytes → List Bool → List (Cell Double) → Option (Logical Double)
  unfolding read_ints read_doubles read_strings
  read_parts ArrowType.int64 binary bits cells = Option.map Logical.ints (read_ints bits cells)
  read_parts ArrowType.double binary bits cells =
      Option.map Logical.doubles (read_doubles bits cells)
  read_parts ArrowType.string binary bits (Cell.int32 start ∷ cells) =
      Option.map Logical.strings (read_strings binary.chars start bits cells)
  read_parts ty binary bits cells = none

  pub read_column : Column Double → Option (Logical Double)
  unfolding read_parts
  read_column c = read_parts c.current_type c.binary c.validity.bits c.buffer.cells

  read_parts-Content :
      {binary : Bytes} {ty : ArrowType} {bits : List Bool} {cells : List (Cell Double)}
      {l : Logical Double}
      → Content binary ty bits cells l
      → length binary.chars < 2 ^ 31
      → read_parts ty binary bits cells ≡ some l
  unfolding read_parts
  read_parts-Content (Content.ints r) fits = rw (read_ints-rows r)
  read_parts-Content (Content.doubles r) fits = rw (read_doubles-rows r)
  read_parts-Content (Content.strings r positive) fits =
      rw (read_strings-rows [] r refl (omega arith))

  -- A consumer that reads the buffers of a column by the Arrow format gets the abstract column,
  -- with its type, its values and its nulls, as long as its text has fewer than 2^31 bytes.
  pub read_column-Refines :
      {rows : ℕ} (c : Column Double) (l : Logical Double)
      → Refines rows c l
      → length c.binary.chars < 2 ^ 31
      → read_column c ≡ some l
  unfolding read_column
  read_column-Refines c l h fits = read_parts-Content h.content fits
