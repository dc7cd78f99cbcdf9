-- ===== src/OneBatch/Handed.antt =====
-- What a consumer gets from the stream that `BatchToArrayStream` makes.
use arrow_adbc.Base.{ℕ, zero, suc, ◌≡◌, refl, Option, none, some, List, [], ◌∷◌}
use arrow_adbc.Adbc.{StatusCode}
use arrow_adbc.Stream.{Errno}
use arrow_adbc.OneBatch.{
  SingleBatch, single_batch_get_next, single_batch_get_schema, single_batch_release,
  batch_to_array_stream,
}

module _ (Schema Array : Type 0) where
  -- The arrays of so many calls of `get_next`, as long as there is no error; `none` is the end.
  unfoldable pub arrays : ℕ → Option (SingleBatch Schema Array) → List (Option Array)
  unfolding single_batch_get_next
  arrays zero s = []
  arrays (suc n) s =
      let (e, array, s') = single_batch_get_next Schema Array s in
      let rest = arrays n s' in elim e [ none ↦ array ∷ rest | some e ↦ [] ]

  abbrev ends : ℕ → List (Option Array)
  ends zero = []
  ends (suc n) = none ∷ ends n

  -- The batch first, and then the end of the stream, however often it is asked for.
  abbrev pub once : ℕ → Array → List (Option Array)
  once zero a = []
  once (suc n) a = some a ∷ ends n

  arrays-empty :
      (n : ℕ) (schema : Schema)
      → arrays n (some (record { schema = schema; batch = none })) ≡ ends n
  unfolding arrays
  arrays-empty zero schema = refl
  arrays-empty (suc n) schema = rw (arrays-empty n schema)

  -- From an array and a schema that are set, into a stream that is not, the conversion succeeds and
  -- takes both over. The stream gives the array once and is then at its end, with any number of
  -- calls, and has the schema all the time. After its release the structure is unset again, so that
  -- another array and schema can be put into it.
  pub batch_to_array_stream-arrays :
      (values : Array) (schema : Schema) (n : ℕ)
      → (s : Option (SingleBatch Schema Array)) × (batch_to_array_stream Schema Array
            (some values)
            (some schema)
            none
          ≡ (StatusCode.ok, none, none, s))
        × (arrays n s ≡ once n values)
        × ((deep_copy : Schema → Option Errno × Option Schema)
            → single_batch_get_schema Schema Array deep_copy s ≡ deep_copy schema)
        × ((values' : Array) (schema' : Schema)
            → batch_to_array_stream Schema Array
                (some values')
                (some schema')
                (single_batch_release Schema Array s)
              ≡ (
                StatusCode.ok,
                none,
                none,
                some (record { schema = schema'; batch = some values' }),
              ))
  unfolding batch_to_array_stream arrays single_batch_get_schema single_batch_release
  batch_to_array_stream-arrays values schema zero =
      (_, refl, refl, λ deep_copy. refl, λ values' schema'. refl)
  batch_to_array_stream-arrays values schema (suc n) =
      (_, refl, rw (arrays-empty n schema), λ deep_copy. refl, λ values' schema'. refl)
