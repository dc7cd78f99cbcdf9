-- ===== src/Engine/Toy.antt =====
-- An engine on which the tests run: a result is a list of rows, and bindings are recorded.
use arrow_adbc.Base.{ℕ, zero, suc, true, List, [], ◌∷◌, ℤ}
use arrow_adbc.Platform.{Value}
use arrow_adbc.Engine.{Engine, ResultCode, Bound}

pub record Table : Type 0 where
  pub rows : List (List (Value ℤ))
  pub current : List (Value ℤ)
  pub width : ℕ
  pub bindings : List (ℕ × Bound ℤ)

abbrev take_row : Table → List (List (Value ℤ)) → ResultCode × Table
take_row t [] = (ResultCode.done, t)
take_row t (r ∷ rows) = (ResultCode.row, record t { rows = rows; current = r })

abbrev pub value_at : List (Value ℤ) → ℕ → Value ℤ
value_at [] i = Value.null
value_at (v ∷ vs) zero = v
value_at (v ∷ vs) (suc i) = value_at vs i

abbrev pub table_engine : Engine ℤ
table_engine = record {
  World = Table;
  step = λ t. take_row t t.rows;
  reset = λ t. (true, t);
  clear_bindings = λ t. (true, record t { bindings = [] });
  bind = λ t i x. (true, record t { bindings = (i, x) ∷ t.bindings });
  column_count = λ t. t.width;
  column_name = λ t col. [];
  column = λ t col. value_at t.current col;
}
