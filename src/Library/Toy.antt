-- ===== src/Library/Toy.antt =====
-- A library on which the tests run: one handle, and whether it is in a transaction. A handle with
-- `held` set is busy.
use arrow_adbc.Base.{ℕ, Bool, true, false, Option, none, some, List, [], ◌∷◌, ◌==◌}
use arrow_adbc.Engine.{ResultCode}
use arrow_adbc.Library.{Library}

pub record State : Type 0 where
  pub in_transaction : Bool
  pub held : Bool

-- The statement `BEGIN` is the one that starts with a B.
abbrev starts_transaction : List ℕ → Bool
starts_transaction [] = false
starts_transaction (c ∷ cs) = c == b'B'

abbrev run_statement : Option Bool → State → ResultCode × State
run_statement none s = (ResultCode.error, s)
run_statement (some starts) s = (ResultCode.done, record s { in_transaction = starts })

abbrev pub one_handle : Library
one_handle = record {
  World = State;
  Handle = Unit;
  Stmt = Bool;
  open_v2 = λ path s. (true, some tt, s);
  close = λ h s. (s.held, s);
  prepare_v2 = λ h query s. (ResultCode.ok, some (starts_transaction query), s);
  step_statement = run_statement;
  finalize = λ stmt s. (ResultCode.ok, s);
}
