-- ===== src/TableSchema/Tests.antt =====
-- The schema of a table with a long name, and the theorem at it.
use arrow_adbc.Base.{ℕ, zero, suc, ◌≡◌, ◌⊎◌, Option, true, none, some, List, [], ◌∷◌, arith}
use arrow_adbc.Adbc.{StatusCode, Outcome, done, fault}
use arrow_adbc.Platform.Toy.{toy}
use arrow_adbc.Engine.Toy.{Table, table_engine}
use arrow_adbc.TableSchema.{Fields, get_table_schema}
use arrow_adbc.TableSchema.Query.{IsBlank, IsName, get_table_schema-overflow}

abbrev letters : ℕ → List ℕ
letters zero = []
letters (suc n) = b'a' ∷ letters n

abbrev empty : Table
empty = record { rows = []; current = []; width = 1; bindings = [] }

abbrev long_schema : Option (List ℕ) → Outcome (StatusCode × Option Fields × Table)
long_schema db_schema =
    get_table_schema toy table_engine (λ n. true) (λ fields. none) (λ query w. (true, w)) (λ w. w)
      true (some []) db_schema (some (letters 50)) empty

get_table_schema-overflow_example :
    ((IsBlank (some []) × IsBlank none) × (long_schema none ≡ fault))
    ⊎ ((IsName (some []) ⊎ IsName none) × (long_schema none ≡ done (StatusCode.ok, none, empty)))
get_table_schema-overflow_example =
    get_table_schema-overflow toy table_engine (λ n. true) (λ fields. none) (λ query w. (true, w))
      (λ w. w) (letters 50) empty (omega arith) (some []) none
