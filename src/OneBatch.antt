-- ===== src/OneBatch.antt =====
-- A stream of one batch, c/driver/sqlite/utils.c: `BatchToArrayStream` and the functions of
-- `struct SingleBatchArrayStream`. A structure that is released, or that was moved, is `none`.
pub mod Handed
mod Tests
use arrow_adbc.Base.{ℕ, Option, none, some}
use arrow_adbc.Adbc.{StatusCode}
use arrow_adbc.Stream.{Errno}

module _ (Schema Array : Type 0) where
  -- `struct SingleBatchArrayStream`
  pub record SingleBatch : Type 0 where
    pub schema : Schema
    pub batch : Option Array

  -- `SingleBatchArrayStreamGetNext` on `private_data`: the error, `*batch`, and what is left.
  unfoldable pub single_batch_get_next :
      Option SingleBatch → Option Errno × Option Array × Option SingleBatch
  single_batch_get_next none = (some Errno.einval, none, none)
  single_batch_get_next (some s) = (none, s.batch, some (record s { batch = none }))

  -- `SingleBatchArrayStreamGetSchema`, by nanoarrow's `ArrowSchemaDeepCopy`: its error, or a copy.
  unfoldable pub single_batch_get_schema :
      (Schema → Option Errno × Option Schema) → Option SingleBatch → Option Errno × Option Schema
  single_batch_get_schema deep_copy none = (some Errno.einval, none)
  single_batch_get_schema deep_copy (some s) = deep_copy s.schema

  -- `SingleBatchArrayStreamRelease`: the stream afterwards.
  unfoldable pub single_batch_release : Option SingleBatch → Option SingleBatch
  single_batch_release s = none

  -- `BatchToArrayStream` on `values`, `schema` and `stream`: the status and the three afterwards.
  unfoldable pub batch_to_array_stream :
      Option Array
      → Option Schema
      → Option SingleBatch
      → StatusCode × Option Array × Option Schema × Option SingleBatch
  batch_to_array_stream none schema stream = (StatusCode.internal, none, schema, stream)
  batch_to_array_stream (some values) none stream = (StatusCode.internal, some values, none, stream)
  batch_to_array_stream (some values) (some schema) (some s) =
      (StatusCode.internal, some values, some schema, some s)
  batch_to_array_stream (some values) (some schema) none =
      (StatusCode.ok, none, none, some (record { schema = schema; batch = some values }))
