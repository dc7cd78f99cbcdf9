-- ===== src/Infer/Append.antt =====
-- The buffer operations of the inference, given nanoarrow's contract: each either fails with
-- `ADBC_STATUS_INTERNAL` on a refused allocation or has its effect, within the capacity.
use arrow_adbc.Base.{
  ℕ, suc, ◌+◌, ◌≤◌, ◌<◌, ◌≡◌, refl, Bool, true, Option, none, some, List, [], ◌∷◌, ◌++◌, length,
  le→leb, lt→leb_false, arith,
}
use arrow_adbc.Adbc.{StatusCode, done, check_na, access, Ensures, Ensures-bind}
use arrow_adbc.Platform.{Platform, IsPlatform, AllocFails}
use arrow_adbc.Memory.{
  Cell, Buffer, Bytes, Bitmap, width, size_bytes, append_unsafe, bitmap_append_unsafe,
  reserve_cells, reserve_chars, bitmap_reserve, append_cell, append_chars,
}
use arrow_adbc.Infer.{add_int32, print_retry, append_printed}

abbrev pub Internal : Platform → StatusCode → Type 0
Internal p s = (s ≡ StatusCode.internal) × AllocFails p

check_na-Ensures :
    {A : Type 0} {Q : StatusCode → Type 0} {P : A → Type 0} (o : Option A)
    → (o ≡ none → Q StatusCode.internal)
    → ((a : A) → o ≡ some a → P a)
    → Ensures Q P (check_na StatusCode.internal o)
check_na-Ensures none h k = Ensures.raises (h refl)
check_na-Ensures (some a) h k = Ensures.returns (k a refl)

pub access-Ensures :
    {A : Type 0} {Q : StatusCode → Type 0} {P : A → Type 0} {t : Bool} (a : A)
    → t ≡ true
    → P a
    → Ensures Q P (access t a)
access-Ensures a h k = rw h (Ensures.returns k)

module _ {Double : Type 0} where
  pub append_unsafe-done :
      (b : Buffer Double) (c : Cell Double)
      → size_bytes b.cells + width c ≤ b.capacity
      → append_unsafe b c ≡ done (record b { cells = b.cells ++ c ∷ [] })
  unfolding append_unsafe
  append_unsafe-done b c h = rw (le→leb _ _ h)

pub bitmap_append_unsafe-done :
    (m : Bitmap) (set : Bool)
    → length m.bits + 1 ≤ m.capacity
    → bitmap_append_unsafe m set ≡ done (record m { bits = m.bits ++ set ∷ [] })
unfolding bitmap_append_unsafe
bitmap_append_unsafe-done m set h = rw (le→leb _ _ h)

module _ (p : Platform) (valid : IsPlatform p) where
  open p use {Double}

  pub reserve_chars-Ensures :
      (b : Bytes) (more : ℕ)
      → Ensures
          (Internal p)
          (λ (b' : Bytes).
            (b'.chars ≡ b.chars)
            × (length b.chars + more ≤ b'.capacity)
            × (b.capacity ≤ b'.capacity))
          (reserve_chars p b more)
  unfolding reserve_chars
  reserve_chars-Ensures b more =
      Ensures-bind _
        (check_na-Ensures {P = λ cap. (length b.chars + more ≤ cap) × (b.capacity ≤ cap)} _
          (λ e. (refl, AllocFails.bytes _ _ _ e)) (λ cap e. valid.bytes _ _ _ cap e))
        λ cap h. Ensures.returns (refl, h.0, h.1)

  pub reserve_cells-Ensures :
      (b : Buffer Double) (more : ℕ)
      → Ensures
          (Internal p)
          (λ (b' : Buffer Double).
            (b'.cells ≡ b.cells)
            × (size_bytes b.cells + more ≤ b'.capacity)
            × (b.capacity ≤ b'.capacity))
          (reserve_cells p b more)
  unfolding reserve_cells
  reserve_cells-Ensures b more =
      Ensures-bind _
        (check_na-Ensures {P = λ cap. (size_bytes b.cells + more ≤ cap) × (b.capacity ≤ cap)} _
          (λ e. (refl, AllocFails.bytes _ _ _ e)) (λ cap e. valid.bytes _ _ _ cap e))
        λ cap h. Ensures.returns (refl, h.0, h.1)

  pub bitmap_reserve-Ensures :
      (m : Bitmap) (more : ℕ)
      → Ensures
          (Internal p)
          (λ (m' : Bitmap). (m'.bits ≡ m.bits) × (length m.bits + more ≤ m'.capacity))
          (bitmap_reserve p m more)
  unfolding bitmap_reserve
  bitmap_reserve-Ensures m more =
      Ensures-bind _
        (check_na-Ensures {P = λ cap. length m.bits + more ≤ cap} _
          (λ e. (refl, AllocFails.bits _ _ _ e)) (λ cap e. valid.bits _ _ _ cap e))
        λ cap h. Ensures.returns (refl, h)

  pub append_cell-Ensures :
      (b : Buffer Double) (c : Cell Double)
      → Ensures
          (Internal p)
          (λ (b' : Buffer Double). (b'.cells ≡ b.cells ++ c ∷ []) × (b.capacity ≤ b'.capacity))
          (append_cell p b c)
  unfolding append_cell
  append_cell-Ensures b c =
      Ensures-bind _ (reserve_cells-Ensures b (width c))
        λ room h. access-Ensures _ (rw h.0 (le→leb _ _ h.1)) (rw h.0, h.2)

  pub append_chars-Ensures :
      (b : Bytes) (s : List ℕ)
      → Ensures
          (Internal p)
          (λ (b' : Bytes). (b'.chars ≡ b.chars ++ s) × (b.capacity ≤ b'.capacity))
          (append_chars p b s)
  unfolding append_chars
  append_chars-Ensures b s =
      Ensures-bind _ (reserve_chars-Ensures b (length s))
        λ room h. access-Ensures _ (rw h.0 (le→leb _ _ h.1)) (rw h.0, h.2)

  -- A text shorter than the reservation is written in the first round of the loop.
  pub print_retry-done :
      (rounds : ℕ) (text : List ℕ) (buffer_size : ℕ) (b : Bytes)
      → length text < buffer_size
      → length b.chars + buffer_size ≤ b.capacity
      → print_retry p (suc rounds) text buffer_size b ≡ done (record b { chars = b.chars ++ text })
  unfolding print_retry
  print_retry-done rounds text buffer_size b short room =
      rw
        (lt→leb_false _ _ short, le→leb (length b.chars + length text + 1) b.capacity (omega arith))

  -- What the appended text leaves behind: offsets, characters, and the new `*offset`.
  abbrev pub Printed : Buffer Double → Bytes → ℕ → List ℕ → Buffer Double × Bytes × ℕ → Type 0
  Printed offsets binary offset text (offsets', binary', offset') =
      (offsets' ≡ record offsets {
        cells = offsets.cells ++ Cell.int32 (add_int32 offset (length text)) ∷ [];
      })
      × (binary'.chars ≡ binary.chars ++ text)
      × (0 < binary'.capacity)
      × (offset' ≡ add_int32 offset (length text))

  pub append_printed-Ensures :
      (reserved : ℕ) (text : List ℕ) (offsets : Buffer Double) (binary : Bytes) (offset : ℕ)
      → length text < reserved
      → size_bytes offsets.cells + 4 ≤ offsets.capacity
      → Ensures
          (Internal p)
          (Printed offsets binary offset text)
          (append_printed p reserved text offsets binary offset)
  unfolding append_printed
  append_printed-Ensures reserved text offsets binary offset short room =
      Ensures-bind _ (reserve_chars-Ensures binary reserved) λ b h.
        rw
          (
            print_retry-done 31 text reserved b short (rw h.0 h.1),
            append_unsafe-done offsets (Cell.int32 (add_int32 offset (length text))) room,
          )
          (Ensures.returns (refl, rw h.0, omega arith, refl))
