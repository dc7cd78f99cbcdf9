-- ===== src/Memory.antt =====
-- The raw buffers of c/driver/sqlite/statement_reader.c: `struct ArrowBuffer` and
-- `struct ArrowBitmap` as typed cells with a capacity. A buffer holds what was written to it, so a
-- read at another type is no value, and an unchecked write past the capacity is a fault.
use arrow_adbc.Base.{ℕ, ◌+◌, Bool, Option, none, some, List, [], ◌∷◌, ◌++◌, length, leb, ℤ}
use arrow_adbc.Adbc.{StatusCode, Outcome, done, ◌>>=◌, check_na, access}
use arrow_adbc.Platform.{Platform}

-- One element of a data buffer: an `int64_t`, a `double`, or an `int32_t` offset.
pub data Cell (Double : Type 0) : Type 0 where
  int64 : ℤ → Cell Double
  double : Double → Cell Double
  int32 : ℕ → Cell Double

-- `struct ArrowBuffer`, with `size_bytes` the width of its cells.
pub record Buffer (Double : Type 0) : Type 0 where
  pub cells : List (Cell Double)
  pub capacity : ℕ

-- `struct ArrowBuffer` of characters. Its `data` is NULL exactly while the capacity is 0.
pub record Bytes : Type 0 where
  pub chars : List ℕ
  pub capacity : ℕ

-- `struct ArrowBitmap`, in bits.
pub record Bitmap : Type 0 where
  pub bits : List Bool
  pub capacity : ℕ

module _ {Double : Type 0} where
  abbrev pub width : Cell Double → ℕ
  width (int64 z) = 8
  width (double d) = 8
  width (int32 o) = 4

  -- `size_bytes`
  abbrev pub size_bytes : List (Cell Double) → ℕ
  size_bytes [] = 0
  size_bytes (c ∷ cs) = width c + size_bytes cs

  -- `((int32_t*)data->data)[data->size_bytes / 4 - 1]`, a value if the last element is an offset.
  abbrev pub last_offset : List (Cell Double) → Option ℕ
  last_offset [] = none
  last_offset (int32 o ∷ []) = some o
  last_offset (int64 z ∷ []) = none
  last_offset (double d ∷ []) = none
  last_offset (c ∷ d ∷ cs) = last_offset (d ∷ cs)

  -- `ArrowBufferAppendUnsafe`
  unfoldable pub append_unsafe : Buffer Double → Cell Double → Outcome (Buffer Double)
  append_unsafe b c =
      access (leb (size_bytes b.cells + width c) b.capacity)
        (record b { cells = b.cells ++ c ∷ [] })

-- `ArrowBitmapAppendUnsafe` of one bit.
unfoldable pub bitmap_append_unsafe : Bitmap → Bool → Outcome Bitmap
bitmap_append_unsafe m set =
    access (leb (length m.bits + 1) m.capacity) (record m { bits = m.bits ++ set ∷ [] })

module _ (p : Platform) where
  open p use {Double, reserve, reserve_bits}

  -- `CHECK_NA(INTERNAL, ArrowBufferReserve(...), error)` on a data buffer and on a text buffer.
  unfoldable pub reserve_cells : Buffer Double → ℕ → Outcome (Buffer Double)
  reserve_cells b more = do
    cap ← check_na StatusCode.internal (reserve (size_bytes b.cells) b.capacity more)
    done (record b { capacity = cap })

  unfoldable pub reserve_chars : Bytes → ℕ → Outcome Bytes
  reserve_chars b more = do
    cap ← check_na StatusCode.internal (reserve (length b.chars) b.capacity more)
    done (record b { capacity = cap })

  unfoldable pub bitmap_reserve : Bitmap → ℕ → Outcome Bitmap
  bitmap_reserve m more = do
    cap ← check_na StatusCode.internal (reserve_bits (length m.bits) m.capacity more)
    done (record m { capacity = cap })

  -- `CHECK_NA(INTERNAL, ArrowBufferAppend(...), error)`
  unfoldable pub append_cell : Buffer Double → Cell Double → Outcome (Buffer Double)
  unfolding reserve_cells append_unsafe
  append_cell b c = do room ← reserve_cells b (width c); append_unsafe room c

  unfoldable pub append_chars : Bytes → List ℕ → Outcome Bytes
  unfolding reserve_chars
  append_chars b s = do
    room ← reserve_chars b (length s)
    access (leb (length room.chars + length s) room.capacity)
        (record room { chars = room.chars ++ s })
