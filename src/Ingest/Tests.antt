-- ===== src/Ingest/Tests.antt =====
-- Ingestion into a table of two columns, and the theorems at it.
use arrow_adbc.Base.{
  codes, ℕ, zero, suc, ◌≡◌, refl, Bool, true, false, some, none, List, [], ◌∷◌, ℤ, pos, arith,
}
use arrow_adbc.Adbc.{done, fault, StatusCode}
use arrow_adbc.Platform.{ArrowType}
use arrow_adbc.Platform.Toy.{toy}
use arrow_adbc.Engine.{Bound}
use arrow_adbc.Engine.Toy.{Table, table_engine}
use arrow_adbc.Params.{Param, Field, StreamItem, Binder, release}
use arrow_adbc.Params.Rows.{stream_rows, stream_end}
use arrow_adbc.Binder.{bind_value, bind_columns}
use arrow_adbc.Ingest.{create_query, insert_query}
use arrow_adbc.Ingest.Queries.{insert_text, ingest-texts, create_query-overflow}
use arrow_adbc.Ingest.Execute.{Ingested, ingest_rows}
use arrow_adbc.Ingest.Rows.{Inserts, ingest_rows-Inserts}

abbrev table : List ℕ
table = codes "t"

abbrev names : List (List ℕ)
names = codes "a" ∷ codes "b" ∷ []

two_placeholders : insert_text table names ≡ codes "INSERT INTO t VALUES (?, ?)"
two_placeholders = refl

ingest-texts_example :
    (create_query table names
      ≡ done (record { chars = codes "CREATE TABLE t (a, b)"; capacity = 256 }))
    × (insert_query table names
        ≡ done (record { chars = codes "INSERT INTO t VALUES (?, ?)"; capacity = 256 }))
ingest-texts_example = ingest-texts table names (omega arith) (omega arith)

-- A name of 256 bytes.
abbrev letters : ℕ → List ℕ
letters zero = []
letters (suc n) = b'a' ∷ letters n

create_query-overflow_example : create_query table (letters 256 ∷ []) ≡ fault
create_query-overflow_example = create_query-overflow table (letters 256 ∷ []) (omega arith)

abbrev views : ℕ → Bool
views n = true

abbrev number : ℕ → Param ℤ
number n = record { is_null = false; bytes = []; uint = n; int = pos n; real = pos 0 }

-- Two rows, in two batches with an empty one between them.
abbrev items : List (StreamItem ℤ)
items =
    StreamItem.batch ((number 1 ∷ []) ∷ [])
    ∷ StreamItem.batch []
    ∷ StreamItem.batch ((number 2 ∷ []) ∷ [])
    ∷ []

abbrev one_field : List Field
one_field = record { name = codes "a"; type = some ArrowType.int32 } ∷ []

abbrev ready : Binder ℤ
ready = record {
  schema = some one_field;
  params = some items;
  types = some (ArrowType.int32 ∷ []);
  array = none;
  next_row = 0;
}

abbrev bound_to : ℕ → Table
bound_to n = record { rows = []; current = []; width = 0; bindings = (1, Bound.int64 (pos n)) ∷ [] }

abbrev cleared : Table
cleared = record { rows = []; current = []; width = 0; bindings = [] }

both_inserted :
    Inserts toy table_engine views one_field
      (ArrowType.int32 ∷ [])
      ((number 1 ∷ []) ∷ (number 2 ∷ []) ∷ [])
      cleared
      (bound_to 2)
unfolding bind_columns bind_value
both_inserted =
    Inserts.next cleared cleared (bound_to 1) (bound_to 1) refl refl refl refl
      (Inserts.next (bound_to 1) cleared (bound_to 2) (bound_to 2) refl refl refl refl Inserts.end)

ingest_rows-Inserts_example :
    ingest_rows toy table_engine views 3 0 0 ready cleared
    ≡ Ingested.ingested StatusCode.ok 2 (release ready) (bound_to 2)
unfolding stream_rows stream_end
ingest_rows-Inserts_example =
    ingest_rows-Inserts toy table_engine views ready items 3 0 cleared (bound_to 2) (λ n. refl) refl
      refl both_inserted (omega arith)
