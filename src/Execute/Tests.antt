-- ===== src/Execute/Tests.antt =====
-- Executions on the library of `Toy`, and the theorems at them.
use arrow_adbc.Base.{
  codes, ℕ, ◌≡◌, refl, inl, Bool, true, false, none, some, List, [], ◌∷◌, ℤ, pos, arith,
}
use arrow_adbc.Adbc.{StatusCode}
use arrow_adbc.Platform.{ArrowType}
use arrow_adbc.Platform.Toy.{toy}
use arrow_adbc.Engine.{Bound}
use arrow_adbc.Params.{Param, Field, StreamItem, Binder, release}
use arrow_adbc.Params.Rows.{stream_rows, stream_end}
use arrow_adbc.Binder.{bind_value, bind_columns}
use arrow_adbc.Ingest.Rows.{Inserts}
use arrow_adbc.Statement.{Statement}
use arrow_adbc.Statement.Invariant.{IsValid}
use arrow_adbc.Execute.{Affected, returned, engine_of, statement_execute_query}
use arrow_adbc.Execute.Toy.{Bindings, quiet, one_parameter}
use arrow_adbc.Execute.Ingestion.{
  Creates, Refuses, statement_execute_query-Inserts, statement_execute_query-refused,
}
use arrow_adbc.Execute.Dispatch.{Same, Leaves, statement_execute_query-IsValid}

abbrev views : ℕ → Bool
views n = true

abbrev number : ℕ → Param ℤ
number n = record { is_null = false; bytes = []; uint = n; int = pos n; real = pos 0 }

abbrev one_field : List Field
one_field = record { name = codes "a"; type = some ArrowType.int32 } ∷ []

abbrev items : List (StreamItem ℤ)
items = StreamItem.batch ((number 1 ∷ []) ∷ []) ∷ StreamItem.batch ((number 2 ∷ []) ∷ []) ∷ []

abbrev two_rows : Binder ℤ
two_rows = record {
  schema = some one_field;
  params = some items;
  types = some (ArrowType.int32 ∷ []);
  array = none;
  next_row = 0;
}

abbrev into_table : (broken : Bool) → Statement ℤ (quiet broken)
into_table broken = record {
  conn = tt;
  stmt = none;
  prepared = false;
  query = none;
  binder = two_rows;
  target_table = some (codes "t");
  append = false;
  batch_size = 1_024;
}

abbrev bound_to : ℕ → Bindings
bound_to n = (1, Bound.int64 (pos n)) ∷ []

both_inserted :
    Inserts toy
      (engine_of toy (quiet false) (one_parameter false) views (some tt))
      views
      one_field
      (ArrowType.int32 ∷ [])
      ((number 1 ∷ []) ∷ (number 2 ∷ []) ∷ [])
      []
      (bound_to 2)
unfolding bind_columns bind_value
both_inserted =
    Inserts.next [] [] (bound_to 1) (bound_to 1) refl refl refl refl
      (Inserts.next (bound_to 1) [] (bound_to 2) (bound_to 2) refl refl refl refl Inserts.end)

statement_execute_query-Inserts_example :
    statement_execute_query toy
      (quiet false)
      (one_parameter false)
      views
      3
      0
      false
      (some (into_table false))
      []
    ≡ returned StatusCode.ok
        (Affected.counted 2)
        none
        (some (record (into_table false) { binder = release two_rows }))
        (bound_to 2)
unfolding stream_rows stream_end
statement_execute_query-Inserts_example =
    statement_execute_query-Inserts toy (quiet false) (one_parameter false) views 3 0 false
      (into_table false) (codes "t") one_field items (some tt) tt [] [] [] (bound_to 2) (λ n. refl)
      refl refl refl refl (omega arith) (omega arith) (Creates.creates (some tt) refl refl) refl
      both_inserted (omega arith)

statement_execute_query-refused_example :
    statement_execute_query toy
      (quiet true)
      (one_parameter true)
      views
      3
      0
      false
      (some (into_table true))
      []
    ≡ returned StatusCode.internal
        (Affected.counted 0)
        none
        (some (record (into_table true) { binder = release two_rows }))
        []
statement_execute_query-refused_example =
    statement_execute_query-refused toy (quiet true) (one_parameter true) views 3 0 false
      (into_table true) (codes "t") one_field (some tt) [] [] refl refl (omega arith) (omega arith)
      refl (Refuses.at_step (some tt) refl refl (λ e. cc) (λ e. cc))

into_table-IsValid : IsValid (into_table false)
into_table-IsValid = record {
  one_source = inl refl;
  batch_positive = omega arith;
  batch_int = omega arith;
}

statement_execute_query-IsValid_example :
    Leaves toy
      (quiet false)
      (one_parameter false)
      views
      (λ s'. Same (into_table false) s' × IsValid s')
      (statement_execute_query toy
        (quiet false)
        (one_parameter false)
        views
        3
        0
        false
        (some (into_table false))
        [])
statement_execute_query-IsValid_example =
    statement_execute_query-IsValid toy (quiet false) (one_parameter false) views 3 0 false
      (into_table false) [] into_table-IsValid

abbrev with_query : Statement ℤ (quiet false)
with_query = record (into_table false) {
  query = some (codes "SELECT ?");
  target_table = none;
  stmt = some tt;
  prepared = true;
}
