-- ===== src/Platform.antt =====
-- What the SQLite driver takes from code outside it: nanoarrow's allocation, the C library's
-- floating point, and SQLite's typed values. The driver's definitions take a `Platform`.
pub mod Toy
use arrow_adbc.Base.{ℕ, Bool, ◌+◌, ◌≤◌, ◌<◌, ◌≡◌, ◌≢◌, true, Option, none, some, List, length, ℤ}

-- `enum ArrowType`.
pub data ArrowType : Type 0 where
  uninitialized na bool uint8 int8 uint16 int16 uint32 int32 uint64 int64 : ArrowType
  half_float float double string binary fixed_size_binary date32 date64 timestamp : ArrowType
  time32 time64 interval_months interval_day_time decimal128 decimal256 list struct : ArrowType
  sparse_union dense_union dictionary map extension fixed_size_list duration : ArrowType
  large_string large_binary large_list interval_month_day_nano : ArrowType

-- A value of a result row by its `sqlite3_column_type`: `SQLITE_NULL`, `SQLITE_INTEGER`,
-- `SQLITE_FLOAT`, `SQLITE_TEXT` or `SQLITE_BLOB`.
pub data Value (Double : Type 0) : Type 0 where
  null : Value Double
  integer : ℤ → Value Double
  real : Double → Value Double
  text : List ℕ → Value Double
  blob : List ℕ → Value Double

pub record Platform : Type 1 where
  -- C's `double`, its conversions from and to `int64_t`, and what `snprintf` writes for `%e`.
  pub Double : Type 0
  pub double_zero : Double
  pub of_int64 : ℤ → Double
  pub to_int64 : Double → ℤ
  pub print_e : Double → List ℕ
  -- `ArrowBufferReserve` on a size, a capacity and a number of bytes to add: the new capacity, or
  -- `none` for an error code. `ArrowBitmapReserve` the same in bits.
  pub reserve : ℕ → ℕ → ℕ → Option ℕ
  pub reserve_bits : ℕ → ℕ → ℕ → Option ℕ
  -- Whether `ArrowSchemaInit`, `...SetTypeStruct`, `...SetType`, `...SetName` and
  -- `ArrowArrayInitFromSchema` all succeed on fields of these names and types.
  pub init_schema : List (List ℕ × ArrowType) → Bool
  -- `sqlite3_column_int64`, `sqlite3_column_double` and `sqlite3_column_text` with
  -- `sqlite3_column_bytes`, which convert a value of another type.
  pub column_int64 : Value Double → ℤ
  pub column_double : Value Double → Double
  pub column_text : Value Double → List ℕ

-- The documented behaviour that the proofs rely on. A reservation that succeeds leaves room for what
-- was asked and never shrinks the buffer; `%e` prints fewer than 64 characters.
pub record IsPlatform (p : Platform) : Type 0 where
  pub bytes :
      (size cap more cap' : ℕ)
      → p.reserve size cap more ≡ some cap'
      → (size + more ≤ cap') × (cap ≤ cap')
  pub bits :
      (size cap more cap' : ℕ) → p.reserve_bits size cap more ≡ some cap' → size + more ≤ cap'
  pub print_e_short : (d : p.Double) → length (p.print_e d) < 64

-- What an allocation failure looks like: some reservation is refused.
pub data AllocFails (p : Platform) : Type 0 where
  bytes : (size cap more : ℕ) → p.reserve size cap more ≡ none → AllocFails p
  bits : (size cap more : ℕ) → p.reserve_bits size cap more ≡ none → AllocFails p

-- An environment that never runs out of memory.
pub record Allocates (p : Platform) : Type 0 where
  pub bytes : (size cap more : ℕ) → p.reserve size cap more ≢ none
  pub bits : (size cap more : ℕ) → p.reserve_bits size cap more ≢ none
  pub schema : (fields : List (List ℕ × ArrowType)) → p.init_schema fields ≡ true
