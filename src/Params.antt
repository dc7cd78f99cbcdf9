-- ===== src/Params.antt =====
-- The parameters of a statement, c/driver/sqlite/statement_reader.c: the state of `struct
-- AdbcSqliteBinder`, `AdbcSqliteBinderSet`, `AdbcSqliteBinderRelease`, and the loop of
-- `AdbcSqliteBinderBindNext` that fetches a batch. The caller's `ArrowArrayStream` is the list of
-- what its `get_next` returns, one item a call, and ends with a released array.
pub mod Rows
use arrow_adbc.Base.{
  ℕ, ◌++◌, Bool, false, Option, none, some, List, [], ◌∷◌, length, get_elem?, ltb, if◌then◌else◌,
  not, ℤ,
}
use arrow_adbc.Adbc.{StatusCode, Outcome, done}
use arrow_adbc.Platform.{ArrowType}

-- An element of a parameter column, as the accessors of `struct ArrowArrayView` return it:
-- `ArrowArrayViewIsNull`, `...GetBytesUnsafe`, `...GetUIntUnsafe`, `...GetIntUnsafe` and
-- `...GetDoubleUnsafe`.
pub record Param (Double : Type 0) : Type 0 where
  pub is_null : Bool
  pub bytes : List ℕ
  pub uint : ℕ
  pub int : ℤ
  pub real : Double

-- A row of a parameter batch.
abbrev pub Row : Type 0 → Type 0
Row Double = List (Param Double)

-- One call of `get_next`: an error code, an array that `ArrowArrayViewSetArray` refuses, or an array.
pub data StreamItem (Double : Type 0) : Type 0 where
  failure : ℕ → StreamItem Double
  malformed : List (Row Double) → StreamItem Double
  batch : List (Row Double) → StreamItem Double

-- A child of the parameter schema; the type is what `ArrowSchemaViewInit` finds, if it succeeds.
pub record Field : Type 0 where
  pub name : List ℕ
  pub type : Option ArrowType

-- `get_schema` and `ArrowArrayViewInitFromSchema` on its result: an error of either, a root type
-- other than struct, or the children.
pub data StreamSchema : Type 0 where
  failure : ℕ → StreamSchema
  unreadable : List Field → StreamSchema
  not_struct : List Field → StreamSchema
  struct : List Field → StreamSchema

-- `struct AdbcSqliteBinder`: `none` where a `release` or a pointer is NULL. `types` is filled from
-- the front. `array` is the rows of the current batch.
pub record Binder (Double : Type 0) : Type 0 where
  pub schema : Option (List Field)
  pub params : Option (List (StreamItem Double))
  pub types : Option (List ArrowType)
  pub array : Option (List (Row Double))
  pub next_row : ℕ

-- `AdbcSqliteBinderRelease`, which ends in `memset(binder, 0, sizeof(*binder))`.
unfoldable pub release : {Double : Type 0} → Binder Double → Binder Double
release b = record { schema = none; params = none; types = none; array = none; next_row = 0 }

-- `ArrowSchemaViewInit` on a child, and the test of `view.type`.
field_type : Option ArrowType → Outcome ArrowType
field_type none = Outcome.failed StatusCode.invalid_argument
field_type (some ArrowType.uninitialized) = Outcome.failed StatusCode.internal
field_type (some ty) = done ty

-- The loop of `AdbcSqliteBinderSet` over the children: the status, and the types found so far.
unfoldable pub set_types : List Field → List ArrowType → StatusCode × List ArrowType
unfolding field_type
set_types [] found = (StatusCode.ok, found)
set_types (f ∷ fields) found = elim (field_type f.type) [
  | Outcome.done ty ↦ set_types fields (found ++ ty ∷ [])
  | Outcome.failed status ↦ (status, found)
  | Outcome.fault ↦ (StatusCode.ok, found)
]

module _ {Double : Type 0} where
  unfoldable pub binder_set : StreamSchema → Binder Double → StatusCode × Binder Double
  unfolding set_types
  binder_set (StreamSchema.failure code) b = (StatusCode.invalid_argument, b)
  binder_set (StreamSchema.unreadable fields) b =
      (StatusCode.invalid_argument, record b { schema = some fields })
  binder_set (StreamSchema.not_struct fields) b =
      (StatusCode.invalid_argument, record b { schema = some fields })
  binder_set (StreamSchema.struct fields) b =
      let (status, types) = set_types fields [] in
      (status, record b { schema = some fields; types = some types })

  -- `AdbcSqliteBinderSetArrayStream` on a stream of that schema and those arrays.
  unfoldable pub set_array_stream :
      StreamSchema → List (StreamItem Double) → Binder Double → StatusCode × Binder Double
  unfolding release binder_set
  set_array_stream schema values b = binder_set schema (record (release b) { params = some values })

-- What `AdbcSqliteBinderBindNext` returns: `*finished` on `ADBC_STATUS_OK`, a status, or an access
-- that C leaves undefined.
pub data BindResult : Type 0 where
  bound finished : BindResult
  failed : StatusCode → BindResult
  fault : BindResult

module _ {Double : Type 0} where
  -- `!(!binder->array.release || binder->next_row >= binder->array.length)`
  abbrev pub has_row : Binder Double → Bool
  has_row b = elim b.array [ none ↦ false | some rows ↦ ltb b.next_row (length rows) ]

  abbrev pub fields_of : Binder Double → List Field
  fields_of b = elim b.schema [ none ↦ [] | some fields ↦ fields ]

  abbrev pub types_of : Binder Double → List ArrowType
  types_of b = elim b.types [ none ↦ [] | some types ↦ types ]

  abbrev pub current_row : Binder Double → Option (Row Double)
  current_row b = elim b.array [ none ↦ none | some rows ↦ get_elem? rows b.next_row ]

module _ {Double : Type 0} (view_init : ℕ → Bool) where
  -- `if (binder->array.release)`: the array is released and the view set up again, which
  -- `view_init` decides from the number of calls of `get_next` still to come.
  abbrev pub view_fails : Binder Double → ℕ → Bool
  view_fails b left = elim b.array [ none ↦ false | some rows ↦ not (view_init left) ]

  -- The `while` loop: `bound` once the current row is there.
  unfoldable pub load : List (StreamItem Double) → Binder Double → BindResult × Binder Double
  unfolding release
  load [] b =
      if has_row b
      then (bound, b)
      else if view_fails b 0
      then (failed StatusCode.internal, record b { array = none })
      else (finished, release b)
  load (item ∷ items) b =
      let rest : BindResult × Binder Double = elim item [
        | StreamItem.failure code ↦
            (failed StatusCode.io, record b { array = none; params = some items })
        | StreamItem.malformed rows ↦
            (failed StatusCode.internal, record b { array = some rows; params = some items })
        | StreamItem.batch rows ↦
            load items (record b { array = some rows; params = some items; next_row = 0 })
      ] in
      if has_row b
      then (bound, b)
      else if view_fails b (length (item ∷ items))
      then (failed StatusCode.internal, record b { array = none })
      else rest

  -- `get_next` of a released stream is NULL.
  unfoldable pub load_params : Binder Double → BindResult × Binder Double
  unfolding load
  load_params b = elim b.params [
    | none ↦ if has_row b then (bound, b) else (fault, b)
    | some items ↦ load items b
  ]
