-- ===== src/Connection/Tests.antt =====
-- A connection on the library of `Library.Toy`, and the theorems at it.
use arrow_adbc.Base.{◌≡◌, refl, Bool, true, false, Option, some, arith}
use arrow_adbc.Adbc.{StatusCode}
use arrow_adbc.Engine.{ResultCode}
use arrow_adbc.Library.{Run}
use arrow_adbc.Library.Toy.{State, one_handle}
use arrow_adbc.Connection.{connection_commit}
use arrow_adbc.Connection.Transactions.{
  Steps, Executes, Transactions, Operation, perform, connected, Settled, perform-Settled,
}

one_step :
    {stmt : Option Bool} {s s' : State}
    → one_handle.step_statement stmt s ≡ (ResultCode.done, s')
    → Steps one_handle stmt 1 (ResultCode.ok, s) (ResultCode.done, s')
one_step e = Steps.again (λ h. cc) (λ h. cc) (rw e Steps.here)

toy_transactions : Transactions one_handle
toy_transactions = record {
  patience = 1;
  txn = λ h s. s.in_transaction;
  begins = λ h s. Executes.success 1 (some true) s _ _ (omega arith) refl (one_step refl) refl refl;
  commits =
      λ h s. Executes.success 1 (some false) s _ _ (omega arith) refl (one_step refl) refl refl;
  rolls_back =
      λ h s. Executes.success 1 (some false) s _ _ (omega arith) refl (one_step refl) refl refl;
}

abbrev inside : State
inside = record { in_transaction = true; held = false }

perform-Settled_example :
    Settled one_handle toy_transactions tt true inside
      (perform one_handle 2 Operation.commit (connected one_handle toy_transactions tt true) inside)
unfolding toy_transactions
perform-Settled_example =
    perform-Settled one_handle toy_transactions tt 2 Operation.commit true inside (omega arith)

-- A commit ends the transaction and begins the next one.
commits_and_begins :
    connection_commit one_handle 2 (some (connected one_handle toy_transactions tt true)) inside
    ≡ Run.returned StatusCode.ok (some (connected one_handle toy_transactions tt true), inside)
unfolding connection_commit
commits_and_begins = refl
