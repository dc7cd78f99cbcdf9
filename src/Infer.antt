-- ===== src/Infer.antt =====
-- Type inference of a result set, c/driver/sqlite/statement_reader.c: `StatementReaderInitializeInfer`,
-- the upcasts, and `StatementReaderInferOneValue`. On an error the caller frees the buffers, so an
-- error carries the status alone.
pub mod Logical
pub mod Refines
pub mod Rows
pub mod Append
pub mod Upcast
pub mod Texts
pub mod Step
pub mod OneValue
pub mod Run
pub mod Done
pub mod Decode
mod Tests
use arrow_adbc.Base.{
  ℕ, zero, suc, ◌+◌, ◌-◌, ◌*◌, ◌%◌, ◌^◌, Bool, true, false, none, some, List, [], ◌∷◌, ◌++◌, length,
  leb, ltb, ◌==◌, if◌then◌else◌, ℤ, pos,
}
use arrow_adbc.Adbc.{StatusCode, Outcome, done, failed, fault, ◌>>=◌, access}
use arrow_adbc.Platform.{Platform, ArrowType, Value}
use arrow_adbc.Memory.{
  Cell, Buffer, Bytes, Bitmap, size_bytes, last_offset, append_unsafe, bitmap_append_unsafe,
  reserve_cells, reserve_chars, bitmap_reserve, append_cell, append_chars,
}
use arrow_adbc.Decimal.{print_int64}

-- The four arrays that `AdbcSqliteExportReader` keeps, at one column.
pub record Column (Double : Type 0) : Type 0 where
  pub validity : Bitmap
  pub buffer : Buffer Double
  pub binary : Bytes
  pub current_type : ArrowType

-- `UINT_MAX`
abbrev pub uint_max : ℕ
uint_max = 4_294_967_295

-- An `int32_t` sum, as its bit pattern. C leaves a sum of 2^31 or more undefined, and the model takes it to
-- wrap around, to a pattern that is a negative number.
abbrev pub add_int32 : ℕ → ℕ → ℕ
add_int32 a b = (a + b) % 2 ^ 32

-- A read of the last `int32_t`, a fault where the buffer does not end in one.
abbrev pub read_offset : {Double : Type 0} → Buffer Double → Outcome ℕ
read_offset b = elim (last_offset b.cells) [ none ↦ fault | some o ↦ done o ]

module _ (p : Platform) where
  open p use {Double, double_zero, of_int64, print_e, column_int64, column_double, column_text}

  -- The `while (1)` of `StatementReaderAppendInt64ToBinary` and `...DoubleToBinary` around
  -- `snprintf(output, buffer_size, ...)`, which would print `text`. `output` is not computed again
  -- after a reservation, so it is stale where that moved the buffer.
  pub print_retry : ℕ → List ℕ → ℕ → Bytes → Outcome Bytes
  print_retry zero text buffer_size b = fault
  print_retry (suc rounds) text buffer_size b =
      let rest = λ (room : Bytes). print_retry rounds text (buffer_size + buffer_size) room in
      if leb buffer_size (length text)
      then (do
        b ← access (leb (length b.chars + buffer_size) b.capacity) b
        b ← if ltb (uint_max - buffer_size) buffer_size then failed StatusCode.internal else done b
        room ← reserve_chars p b buffer_size
        if room.capacity == b.capacity then rest room else fault)
      else access (leb (length b.chars + length text + 1) b.capacity)
          (record b { chars = b.chars ++ text })

  -- The common body of the two functions, from the reservation on: the offsets, the text, and the
  -- new `*offset`.
  pub append_printed : ℕ → List ℕ → Buffer Double → Bytes → ℕ → Outcome (Buffer Double × Bytes × ℕ)
  unfolding print_retry
  append_printed reserved text offsets binary offset = do
    room ← reserve_chars p binary reserved
    binary ← print_retry 32 text reserved room
    let offset = add_int32 offset (length text)
    offsets ← append_unsafe offsets (Cell.int32 offset)
    done (offsets, binary, offset)

  pub append_int64_to_binary : Buffer Double → Bytes → ℤ → ℕ → Outcome (Buffer Double × Bytes × ℕ)
  append_int64_to_binary offsets binary value offset =
      append_printed 21 (print_int64 value) offsets binary offset

  pub append_double_to_binary :
      Buffer Double → Bytes → Double → ℕ → Outcome (Buffer Double × Bytes × ℕ)
  append_double_to_binary offsets binary value offset =
      append_printed 64 (print_e value) offsets binary offset

  -- `(const int64_t*)data->data` and `(const double*)data->data`, read in a loop.
  pub doubles_loop : List (Cell Double) → Buffer Double → Outcome (Buffer Double)
  doubles_loop [] doubles = done doubles
  doubles_loop (Cell.int64 z ∷ cells) doubles = do
    doubles ← append_unsafe doubles (Cell.double (of_int64 z))
    doubles_loop cells doubles
  doubles_loop (Cell.double d ∷ cells) doubles = fault
  doubles_loop (Cell.int32 o ∷ cells) doubles = fault

  pub upcast_int64_to_double : Buffer Double → Outcome (Buffer Double)
  unfolding doubles_loop
  upcast_int64_to_double b = do
    doubles ← reserve_cells p (record { cells = []; capacity = 0 }) b.capacity
    doubles_loop b.cells doubles

  pub int64_loop : List (Cell Double) → Buffer Double → Bytes → ℕ → Outcome (Buffer Double × Bytes)
  int64_loop [] offsets binary offset = done (offsets, binary)
  int64_loop (Cell.int64 z ∷ cells) offsets binary offset = do
    (offsets, binary, offset) ← append_int64_to_binary offsets binary z offset
    int64_loop cells offsets binary offset
  int64_loop (Cell.double d ∷ cells) offsets binary offset = fault
  int64_loop (Cell.int32 o ∷ cells) offsets binary offset = fault

  pub double_loop : List (Cell Double) → Buffer Double → Bytes → ℕ → Outcome (Buffer Double × Bytes)
  double_loop [] offsets binary offset = done (offsets, binary)
  double_loop (Cell.double d ∷ cells) offsets binary offset = do
    (offsets, binary, offset) ← append_double_to_binary offsets binary d offset
    double_loop cells offsets binary offset
  double_loop (Cell.int64 z ∷ cells) offsets binary offset = fault
  double_loop (Cell.int32 o ∷ cells) offsets binary offset = fault

  -- The two upcasts to text share all but the loop.
  pub start_offsets : Buffer Double → Outcome (Buffer Double × Bytes)
  start_offsets b = do
    offsets ← reserve_cells p (record { cells = []; capacity = 0 }) b.capacity
    binary ← reserve_chars p (record { chars = []; capacity = 0 }) b.capacity
    offsets ← append_unsafe offsets (Cell.int32 0)
    done (offsets, binary)

  pub upcast_int64_to_binary : Buffer Double → Outcome (Buffer Double × Bytes)
  unfolding int64_loop
  upcast_int64_to_binary b = do
    (offsets, binary) ← start_offsets b
    int64_loop b.cells offsets binary 0

  pub upcast_double_to_binary : Buffer Double → Outcome (Buffer Double × Bytes)
  unfolding double_loop
  upcast_double_to_binary b = do
    (offsets, binary) ← start_offsets b
    double_loop b.cells offsets binary 0

  -- `StatementReaderInferOneValue`, by the type of the value and then by `*current_type`.
  pub infer_null : Column Double → ArrowType → Outcome (Column Double)
  infer_null c ArrowType.int64 = do
    buffer ← append_unsafe c.buffer (Cell.int64 (pos 0))
    done (record c { buffer = buffer })
  infer_null c ArrowType.double = do
    buffer ← append_unsafe c.buffer (Cell.double double_zero)
    done (record c { buffer = buffer })
  infer_null c ArrowType.string = do
    offset ← read_offset c.buffer
    buffer ← append_cell p c.buffer (Cell.int32 offset)
    done (record c { buffer = buffer })
  infer_null c ArrowType.binary = do
    offset ← read_offset c.buffer
    buffer ← append_cell p c.buffer (Cell.int32 offset)
    done (record c { buffer = buffer })
  infer_null c other = failed StatusCode.internal

  abbrev with_text : Column Double → Outcome (Buffer Double × Bytes × ℕ) → Outcome (Column Double)
  with_text c m = do
    (buffer, binary, offset) ← m
    done (record c { buffer = buffer; binary = binary })

  pub infer_integer : Value Double → Column Double → ArrowType → Outcome (Column Double)
  infer_integer v c ArrowType.int64 = do
    buffer ← append_unsafe c.buffer (Cell.int64 (column_int64 v))
    done (record c { buffer = buffer })
  infer_integer v c ArrowType.double = do
    buffer ← append_unsafe c.buffer (Cell.double (column_double v))
    done (record c { buffer = buffer })
  infer_integer v c ArrowType.string = do
    offset ← read_offset c.buffer
    with_text c (append_int64_to_binary c.buffer c.binary (column_int64 v) offset)
  infer_integer v c ArrowType.binary = do
    offset ← read_offset c.buffer
    with_text c (append_int64_to_binary c.buffer c.binary (column_int64 v) offset)
  infer_integer v c other = failed StatusCode.internal

  pub infer_float : Value Double → Column Double → ArrowType → Outcome (Column Double)
  infer_float v c ArrowType.int64 = do
    doubles ← upcast_int64_to_double c.buffer
    buffer ← append_unsafe doubles (Cell.double (column_double v))
    done (record c { buffer = buffer; current_type = ArrowType.double })
  infer_float v c ArrowType.double = do
    buffer ← append_unsafe c.buffer (Cell.double (column_double v))
    done (record c { buffer = buffer })
  infer_float v c ArrowType.string = do
    offset ← read_offset c.buffer
    with_text c (append_double_to_binary c.buffer c.binary (column_double v) offset)
  infer_float v c ArrowType.binary = do
    offset ← read_offset c.buffer
    with_text c (append_double_to_binary c.buffer c.binary (column_double v) offset)
  infer_float v c other = failed StatusCode.internal

  -- The part of the `SQLITE_TEXT` case before the text is read: the column holds text afterwards.
  pub to_string_column : Column Double → ArrowType → Outcome (Column Double)
  to_string_column c ArrowType.int64 = do
    (buffer, binary) ← upcast_int64_to_binary c.buffer
    done (record c { buffer = buffer; binary = binary; current_type = ArrowType.string })
  to_string_column c ArrowType.double = do
    (buffer, binary) ← upcast_double_to_binary c.buffer
    done (record c { buffer = buffer; binary = binary; current_type = ArrowType.string })
  to_string_column c ArrowType.string = done c
  to_string_column c ArrowType.binary = done c
  to_string_column c other = failed StatusCode.internal

  pub append_text : List ℕ → Column Double → Outcome (Column Double)
  append_text text c = do
    last ← read_offset c.buffer
    let offset = add_int32 last (length text)
    binary ← append_chars p c.binary text
    buffer ← append_cell p c.buffer (Cell.int32 offset)
    done (record c { buffer = buffer; binary = binary })

  abbrev mark : Column Double → Bool → Outcome (Column Double)
  mark c set = do
    validity ← bitmap_append_unsafe c.validity set
    done (record c { validity = validity })

  unfoldable pub infer_one_value : Value Double → Column Double → Outcome (Column Double)
  unfolding infer_null infer_integer infer_float to_string_column append_text
  infer_one_value Value.null c = do c ← mark c false; infer_null c c.current_type
  infer_one_value (Value.integer z) c = do
    c ← mark c true
    infer_integer (Value.integer z) c c.current_type
  infer_one_value (Value.real d) c = do c ← mark c true; infer_float (Value.real d) c c.current_type
  infer_one_value (Value.text s) c = do
    c ← mark c true
    c ← to_string_column c c.current_type
    append_text (column_text (Value.text s)) c
  infer_one_value (Value.blob s) c = failed StatusCode.io

  -- `StatementReaderInitializeInfer`: one column of the loop, then the loop.
  unfoldable pub initial_column : ℕ → Outcome (Column Double)
  initial_column infer_rows = do
    validity ← bitmap_reserve p (record { bits = []; capacity = 0 }) infer_rows
    buffer ← reserve_cells p (record { cells = []; capacity = 0 }) (infer_rows * 8)
    done (record {
      validity = validity;
      buffer = buffer;
      binary = record { chars = []; capacity = 0 };
      current_type = ArrowType.int64;
    })

  unfoldable pub initialize_infer : ℕ → ℕ → Outcome (List (Column Double))
  unfolding initial_column
  initialize_infer zero infer_rows = done []
  initialize_infer (suc num_columns) infer_rows = do
    c ← initial_column infer_rows
    rest ← initialize_infer num_columns infer_rows
    done (c ∷ rest)
