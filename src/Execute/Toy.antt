-- ===== src/Execute/Toy.antt =====
-- A library whose statements yield no rows and keep their bindings, and in which CREATE TABLE may fail.
use arrow_adbc.Base.{ℕ, Bool, true, false, none, some, List, [], ◌∷◌, ℤ, if◌then◌else◌}
use arrow_adbc.Platform.{Value}
use arrow_adbc.Engine.{ResultCode, Bound}
use arrow_adbc.Library.{Library}
use arrow_adbc.Execute.{StatementCalls}

abbrev pub Bindings : Type 0
Bindings = List (ℕ × Bound ℤ)

abbrev pub quiet : Bool → Library
quiet broken = record {
  World = Bindings;
  Handle = Unit;
  Stmt = Unit;
  open_v2 = λ path w. (true, some tt, w);
  close = λ h w. (false, w);
  prepare_v2 = λ h query w. (ResultCode.ok, some tt, w);
  step_statement = λ stmt w. (if broken then ResultCode.error else ResultCode.done, w);
  finalize = λ stmt w. (ResultCode.ok, w);
}

-- Every statement has one parameter, without a name.
abbrev pub one_parameter : (broken : Bool) → StatementCalls ℤ (quiet broken)
one_parameter broken = record {
  reset = λ stmt w. (true, w);
  clear_bindings = λ stmt w. (true, []);
  bind = λ stmt w i x. (true, (i, x) ∷ w);
  column_count = λ stmt w. 0;
  column_name = λ stmt w col. [];
  column = λ stmt w col. Value.null;
  bind_parameter_count = λ stmt w. 1;
  bind_parameter_name = λ stmt w i. none;
}
