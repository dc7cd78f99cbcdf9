-- ===== src/Infer/Refines.antt =====
-- When the buffers of a column hold an abstract column, with room for the rows still to come.
use arrow_adbc.Base.{
  ℕ, ◌*◌, ◌≤◌, ◌<◌, ◌≡◌, Bool, true, false, Option, none, some, List, [], ◌∷◌, ◌++◌, length, ℤ,
}
use arrow_adbc.Platform.{ArrowType}
use arrow_adbc.Memory.{Cell, Bytes}
use arrow_adbc.Infer.{Column, add_int32}
use arrow_adbc.Infer.Logical.{Logical}

module _ {Double : Type 0} where
  -- One bit and one cell for each row. The cell of a NULL is arbitrary.
  pub data FixedRows {A : Type 0} (cell : A → Cell Double)
      : List (Option A) → List Bool → List (Cell Double) → Type 0 where
    nil : FixedRows cell [] [] []
    present :
        {xs : List (Option A)} {bs : List Bool} {cs : List (Cell Double)} (a : A)
        → FixedRows cell xs bs cs
        → FixedRows cell (some a ∷ xs) (true ∷ bs) (cell a ∷ cs)
    absent :
        {xs : List (Option A)} {bs : List Bool} {cs : List (Cell Double)} (a : A)
        → FixedRows cell xs bs cs
        → FixedRows cell (none ∷ xs) (false ∷ bs) (cell a ∷ cs)

  -- From an offset on: each row adds its end, as an `int32_t`, and its characters.
  pub data StringRows
      : ℕ → List (Option (List ℕ)) → List Bool → List (Cell Double) → List ℕ → Type 0 where
    nil : {start : ℕ} → StringRows start [] [] [] []
    present :
        {start stop : ℕ} {xs : List (Option (List ℕ))} {bs : List Bool} {cs : List (Cell Double)}
        {chars rest : List ℕ} (t : List ℕ)
        → stop ≡ add_int32 start (length t)
        → chars ≡ t ++ rest
        → StringRows stop xs bs cs rest
        → StringRows start (some t ∷ xs) (true ∷ bs) (Cell.int32 stop ∷ cs) chars
    absent :
        {start stop : ℕ} {xs : List (Option (List ℕ))} {bs : List Bool} {cs : List (Cell Double)}
        {chars rest : List ℕ} (t : List ℕ)
        → stop ≡ add_int32 start (length t)
        → chars ≡ t ++ rest
        → StringRows stop xs bs cs rest
        → StringRows start (none ∷ xs) (false ∷ bs) (Cell.int32 stop ∷ cs) chars

  pub data Content (binary : Bytes)
      : ArrowType → List Bool → List (Cell Double) → Logical Double → Type 0 where
    ints :
        {xs : List (Option ℤ)} {bs : List Bool} {cs : List (Cell Double)}
        → FixedRows Cell.int64 xs bs cs
        → Content binary ArrowType.int64 bs cs (Logical.ints xs)
    doubles :
        {xs : List (Option Double)} {bs : List Bool} {cs : List (Cell Double)}
        → FixedRows Cell.double xs bs cs
        → Content binary ArrowType.double bs cs (Logical.doubles xs)
    strings :
        {xs : List (Option (List ℕ))} {bs : List Bool} {cs : List (Cell Double)}
        → StringRows 0 xs bs cs binary.chars
        → 0 < binary.capacity
        → Content binary ArrowType.string bs (Cell.int32 0 ∷ cs) (Logical.strings xs)

  -- `rows` is the `infer_rows` that the buffers were reserved for.
  pub record Refines (rows : ℕ) (c : Column Double) (l : Logical Double) : Type 0 where
    pub bitmap_room : rows ≤ c.validity.capacity
    pub buffer_room : 8 * rows ≤ c.buffer.capacity
    pub content : Content c.binary c.current_type c.validity.bits c.buffer.cells l
