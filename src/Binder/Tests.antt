-- ===== src/Binder/Tests.antt =====
-- Two parameters, an empty batch and a batch of one row, and the theorems at them.
use arrow_adbc.Base.{
  ℕ, ◌≡◌, refl, Bool, true, false, some, none, List, [], ◌∷◌, ℤ, pos, IsInt64, arith,
}
use arrow_adbc.Platform.{ArrowType}
use arrow_adbc.Platform.Toy.{toy}
use arrow_adbc.Engine.{Bound}
use arrow_adbc.Engine.Toy.{Table, table_engine}
use arrow_adbc.Params.{Param, Row, Field, StreamItem, Binder, BindResult}
use arrow_adbc.Params.Rows.{stream_rows, stream_end}
use arrow_adbc.Binder.{bind_value, bind_next}
use arrow_adbc.Binder.Next.{Next, bind_next-Next}
use arrow_adbc.Binder.Values.{bind_value-IsInt64}

abbrev views : ℕ → Bool
views n = true

abbrev number : Param ℤ
number = record { is_null = false; bytes = []; uint = 5; int = pos 5; real = pos 0 }

abbrev missing : Param ℤ
missing = record number { is_null = true }

abbrev row : Row ℤ
row = number ∷ missing ∷ []

abbrev two_fields : List Field
two_fields =
    record { name = []; type = some ArrowType.uint64 }
    ∷ record { name = []; type = some ArrowType.string }
    ∷ []

abbrev types : List ArrowType
types = ArrowType.uint64 ∷ ArrowType.string ∷ []

abbrev items : List (StreamItem ℤ)
items = StreamItem.batch [] ∷ StreamItem.batch (row ∷ []) ∷ []

abbrev ready : Binder ℤ
ready = record {
  schema = some two_fields;
  params = some items;
  types = some types;
  array = none;
  next_row = 0;
}

abbrev table : Table
table = record { rows = []; current = []; width = 0; bindings = [] }

bind_next-Next_example :
    Next toy table_engine views
      (some two_fields)
      (some types)
      BindResult.finished
      table
      (row ∷ [])
      (bind_next toy table_engine views ready table)
unfolding stream_rows stream_end
bind_next-Next_example = bind_next-Next toy table_engine views (λ n. refl) ready items table refl

bind_value-IsInt64_example : IsInt64 (pos 5)
unfolding bind_value
bind_value-IsInt64_example =
    bind_value-IsInt64 toy ArrowType.uint64 number (pos 5) (omega arith, omega arith) refl

-- The row of the second batch is bound, to the parameters 1 and 2.
binds_the_row : bind_next toy table_engine views ready table ≡ (
  BindResult.bound,
  record ready { params = some []; array = some (row ∷ []); next_row = 1 },
  record table { bindings = (2, Bound.null) ∷ (1, Bound.int64 (pos 5)) ∷ [] },
)
unfolding bind_next bind_value
binds_the_row = refl
