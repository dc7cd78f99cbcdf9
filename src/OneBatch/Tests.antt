-- ===== src/OneBatch/Tests.antt =====
-- A stream of one batch, with numbers for schemas and arrays, and the theorem at it.
use arrow_adbc.Base.{ℕ, ◌≡◌, Option, none, some, [], ◌∷◌}
use arrow_adbc.Adbc.{StatusCode}
use arrow_adbc.Stream.{Errno}
use arrow_adbc.OneBatch.{
  SingleBatch, single_batch_get_schema, single_batch_release, batch_to_array_stream,
}
use arrow_adbc.OneBatch.Handed.{arrays, batch_to_array_stream-arrays}

batch_to_array_stream-arrays_example :
    (s : Option (SingleBatch ℕ ℕ)) × (batch_to_array_stream ℕ ℕ (some 5) (some 1) none
      ≡ (StatusCode.ok, none, none, s))
    × (arrays ℕ ℕ 3 s ≡ some 5 ∷ none ∷ none ∷ [])
    × ((deep_copy : ℕ → Option Errno × Option ℕ)
        → single_batch_get_schema ℕ ℕ deep_copy s ≡ deep_copy 1)
    × ((values schema : ℕ)
        → batch_to_array_stream ℕ ℕ (some values) (some schema) (single_batch_release ℕ ℕ s)
          ≡ (StatusCode.ok, none, none, some (record { schema = schema; batch = some values })))
batch_to_array_stream-arrays_example = batch_to_array_stream-arrays ℕ ℕ 5 1 3
