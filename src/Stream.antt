-- ===== src/Stream.antt =====
-- The result stream of c/driver/sqlite/statement_reader.c: `struct StatementReader` and the batches
-- that it hands out.
use arrow_adbc.Base.{ℕ, Bool, Option, List, ℤ}
use arrow_adbc.Platform.{ArrowType}
use arrow_adbc.Infer.{Column}

-- What `ArrowArrayAppendNull`, `...Int`, `...Double` and `...String` put into an array.
pub data Slot (Double : Type 0) : Type 0 where
  null : Slot Double
  int : ℤ → Slot Double
  double : Double → Slot Double
  string : List ℕ → Slot Double

-- A batch: the one whose type was inferred, in its buffers, or one built by appends.
pub data Batch (Double : Type 0) : Type 0 where
  inferred : (length : ℕ) → List (Column Double) → Batch Double
  built : (length : ℕ) → List (List (Slot Double)) → Batch Double

-- The error numbers that the stream's functions return; 0 is `none`.
pub data Errno : Type 0 where
  einval eio enotsup : Errno
  other : ℕ → Errno

-- `struct StatementReader`, less its pointers to the connection, the statement and the binder. A
-- schema that is not set is `none`, and so are `types`, a batch and an error message.
pub record Reader (Double : Type 0) : Type 0 where
  pub types : Option (List ArrowType)
  pub schema : Option (List (List ℕ × ArrowType))
  pub initial_batch : Option (Batch Double)
  pub has_binder : Bool
  pub ended : Bool
  pub batch_size : ℕ
