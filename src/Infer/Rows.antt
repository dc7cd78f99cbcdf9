-- ===== src/Infer/Rows.antt =====
-- The row relations under an append at the end, and the sizes that they give.
use arrow_adbc.Base.{
  ℕ, suc, ◌+◌, ◌*◌, ◌^◌, ◌<◌, ◌≡◌, refl, ap, Bool, true, false, Option, none, some, List, [], ◌∷◌,
  ◌++◌, append_assoc, append-nil, length, arith,
}
use arrow_adbc.Memory.{Cell, width, size_bytes, last_offset}
use arrow_adbc.Infer.{add_int32}
use arrow_adbc.Infer.Refines.{FixedRows, StringRows}

regroup : {chars : List ℕ} (u rest t : List ℕ) → chars ≡ u ++ rest → chars ++ t ≡ u ++ (rest ++ t)
regroup u rest t q = rw q (append_assoc u rest t)

module _ {Double : Type 0} where
  pub size_bytes-append :
      (cs ds : List (Cell Double)) → size_bytes (cs ++ ds) ≡ size_bytes cs + size_bytes ds
  size_bytes-append [] ds = omega arith
  size_bytes-append (c ∷ cs) ds = omega (arith, size_bytes-append cs ds)

  module _ {A : Type 0} {cell : A → Cell Double} where
    pub FixedRows-present :
        {xs : List (Option A)} {bs : List Bool} {cs : List (Cell Double)} (a : A)
        → FixedRows cell xs bs cs
        → FixedRows cell (xs ++ some a ∷ []) (bs ++ true ∷ []) (cs ++ cell a ∷ [])
    FixedRows-present a FixedRows.nil = FixedRows.present a FixedRows.nil
    FixedRows-present a (FixedRows.present b r) = FixedRows.present b (FixedRows-present a r)
    FixedRows-present a (FixedRows.absent b r) = FixedRows.absent b (FixedRows-present a r)

    pub FixedRows-absent :
        {xs : List (Option A)} {bs : List Bool} {cs : List (Cell Double)} (a : A)
        → FixedRows cell xs bs cs
        → FixedRows cell (xs ++ none ∷ []) (bs ++ false ∷ []) (cs ++ cell a ∷ [])
    FixedRows-absent a FixedRows.nil = FixedRows.absent a FixedRows.nil
    FixedRows-absent a (FixedRows.present b r) = FixedRows.present b (FixedRows-absent a r)
    FixedRows-absent a (FixedRows.absent b r) = FixedRows.absent b (FixedRows-absent a r)

    pub FixedRows-bits :
        {xs : List (Option A)} {bs : List Bool} {cs : List (Cell Double)}
        → FixedRows cell xs bs cs
        → length bs ≡ length xs
    FixedRows-bits FixedRows.nil = refl
    FixedRows-bits (FixedRows.present b r) = ap (λ (n : ℕ). suc n) (FixedRows-bits r)
    FixedRows-bits (FixedRows.absent b r) = ap (λ (n : ℕ). suc n) (FixedRows-bits r)

    pub FixedRows-size :
        {xs : List (Option A)} {bs : List Bool} {cs : List (Cell Double)}
        → ((a : A) → width (cell a) ≡ 8)
        → FixedRows cell xs bs cs
        → size_bytes cs ≡ 8 * length xs
    FixedRows-size w FixedRows.nil = omega arith
    FixedRows-size w (FixedRows.present b r) = omega (arith, w b, FixedRows-size w r)
    FixedRows-size w (FixedRows.absent b r) = omega (arith, w b, FixedRows-size w r)

  -- The last offset of a text column is there, and is an `int32_t`.
  pub StringRows-last :
      {start : ℕ} {xs : List (Option (List ℕ))} {bs : List Bool} {cs : List (Cell Double)}
      {chars : List ℕ}
      → StringRows start xs bs cs chars
      → start < 2 ^ 32
      → (o : ℕ) × (last_offset (Cell.int32 start ∷ cs) ≡ some o) × (o < 2 ^ 32)
  StringRows-last {start = start} StringRows.nil h = (start, refl, h)
  StringRows-last (StringRows.present t e q r) h = StringRows-last r (omega (arith, e))
  StringRows-last (StringRows.absent t e q r) h = StringRows-last r (omega (arith, e))

  pub StringRows-present :
      {start : ℕ} {xs : List (Option (List ℕ))} {bs : List Bool} {cs : List (Cell Double)}
      {chars : List ℕ} (o : ℕ) (t : List ℕ)
      → StringRows start xs bs cs chars
      → last_offset (Cell.int32 start ∷ cs) ≡ some o
      → StringRows start
          (xs ++ some t ∷ [])
          (bs ++ true ∷ [])
          (cs ++ Cell.int32 (add_int32 o (length t)) ∷ [])
          (chars ++ t)
  StringRows-present o t StringRows.nil h = StringRows.present t (cc) (rw append-nil) StringRows.nil
  StringRows-present o t (StringRows.present {rest = rest} u e q r) h =
      StringRows.present u e (regroup u rest t q) (StringRows-present o t r h)
  StringRows-present o t (StringRows.absent {rest = rest} u e q r) h =
      StringRows.absent u e (regroup u rest t q) (StringRows-present o t r h)

  pub StringRows-absent :
      {start : ℕ} {xs : List (Option (List ℕ))} {bs : List Bool} {cs : List (Cell Double)}
      {chars : List ℕ} (o : ℕ) (t : List ℕ)
      → StringRows start xs bs cs chars
      → last_offset (Cell.int32 start ∷ cs) ≡ some o
      → StringRows start
          (xs ++ none ∷ [])
          (bs ++ false ∷ [])
          (cs ++ Cell.int32 (add_int32 o (length t)) ∷ [])
          (chars ++ t)
  StringRows-absent o t StringRows.nil h = StringRows.absent t (cc) (rw append-nil) StringRows.nil
  StringRows-absent o t (StringRows.present {rest = rest} u e q r) h =
      StringRows.present u e (regroup u rest t q) (StringRows-absent o t r h)
  StringRows-absent o t (StringRows.absent {rest = rest} u e q r) h =
      StringRows.absent u e (regroup u rest t q) (StringRows-absent o t r h)

  pub StringRows-bits :
      {start : ℕ} {xs : List (Option (List ℕ))} {bs : List Bool} {cs : List (Cell Double)}
      {chars : List ℕ}
      → StringRows start xs bs cs chars
      → length bs ≡ length xs
  StringRows-bits StringRows.nil = refl
  StringRows-bits (StringRows.present t e q r) = ap (λ (n : ℕ). suc n) (StringRows-bits r)
  StringRows-bits (StringRows.absent t e q r) = ap (λ (n : ℕ). suc n) (StringRows-bits r)

  pub StringRows-size :
      {start : ℕ} {xs : List (Option (List ℕ))} {bs : List Bool} {cs : List (Cell Double)}
      {chars : List ℕ}
      → StringRows start xs bs cs chars
      → size_bytes cs ≡ 4 * length xs
  StringRows-size StringRows.nil = omega arith
  StringRows-size (StringRows.present t e q r) = omega (arith, StringRows-size r)
  StringRows-size (StringRows.absent t e q r) = omega (arith, StringRows-size r)

  -- A NULL in a text column repeats the last offset.
  pub StringRows-null :
      {xs : List (Option (List ℕ))} {bs : List Bool} {cs : List (Cell Double)} {chars : List ℕ}
      (o : ℕ)
      → StringRows 0 xs bs cs chars
      → last_offset (Cell.int32 0 ∷ cs) ≡ some o
      → o < 2 ^ 32
      → StringRows 0 (xs ++ none ∷ []) (bs ++ false ∷ []) (cs ++ Cell.int32 o ∷ []) chars
  StringRows-null {xs = xs} {bs = bs} {cs = cs} {chars = chars} o r e small =
      let same : add_int32 o 0 ≡ o = omega arith in
      let whole : chars ++ [] ≡ chars = append-nil chars in
      let row = StringRows-absent o [] r e in rw (← same, ← whole) row
