-- ===== src/Update/Tests.antt =====
-- An update with one row of parameters, and the theorem at it.
use arrow_adbc.Base.{ℕ, ◌≡◌, refl, Bool, true, false, some, none, List, [], ◌∷◌, ℤ, pos, arith}
use arrow_adbc.Adbc.{StatusCode}
use arrow_adbc.Platform.{ArrowType, Value}
use arrow_adbc.Platform.Toy.{toy}
use arrow_adbc.Engine.{Bound, ResultCode}
use arrow_adbc.Engine.Toy.{Table, table_engine}
use arrow_adbc.Params.{Param, Field, StreamItem, Binder, release}
use arrow_adbc.Params.Rows.{stream_rows, stream_end}
use arrow_adbc.Binder.{bind_value, bind_columns}
use arrow_adbc.Update.{Updated, execute_update}
use arrow_adbc.Update.Rows.{Steps, Runs, execute_update-Runs}

abbrev views : ℕ → Bool
views n = true

abbrev number : Param ℤ
number = record { is_null = false; bytes = []; uint = 1; int = pos 1; real = pos 0 }

abbrev items : List (StreamItem ℤ)
items = StreamItem.batch [] ∷ StreamItem.batch ((number ∷ []) ∷ []) ∷ []

abbrev one_field : List Field
one_field = record { name = []; type = some ArrowType.int8 } ∷ []

abbrev ready : Binder ℤ
ready = record {
  schema = some one_field;
  params = some items;
  types = some (ArrowType.int8 ∷ []);
  array = none;
  next_row = 0;
}

-- A statement with one result row, as UPDATE ... RETURNING has.
abbrev start : Table
start = record { rows = (Value.integer (pos 7) ∷ []) ∷ []; current = []; width = 1; bindings = [] }

abbrev with_number : Table
with_number = record start { bindings = (1, Bound.int64 (pos 1)) ∷ [] }

abbrev over : Table
over = record with_number { rows = []; current = Value.integer (pos 7) ∷ [] }

one_run :
    Runs toy table_engine views 1 one_field (ArrowType.int8 ∷ []) ((number ∷ []) ∷ []) 1 start over
unfolding bind_columns bind_value
one_run =
    Runs.next 1 0 start start with_number over refl refl refl
      (Steps.result_row over refl (Steps.stop ResultCode.done refl (λ e. cc))) (omega arith) refl
      Runs.end

execute_update-Runs_example :
    execute_update toy table_engine views 2 1 ready start
    ≡ Updated.updated StatusCode.ok 1 (release ready) over
unfolding stream_rows stream_end
execute_update-Runs_example =
    execute_update-Runs toy table_engine views ready one_field items 2 1 1 start over over
      (λ n. refl) refl refl refl one_run (omega arith) refl
