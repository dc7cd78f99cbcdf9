-- ===== src/Statement/Tests.antt =====
-- A statement on the library of `Library.Toy`, and the theorems at it.
use arrow_adbc.Base.{◌≡◌, refl, true, false, some, [], ◌∷◌, ℤ}
use arrow_adbc.Adbc.{StatusCode}
use arrow_adbc.Library.Toy.{State, one_handle}
use arrow_adbc.Connection.{Connection, begin_text}
use arrow_adbc.Statement.{
  Statement, StatementOption, fresh_statement, statement_new, statement_prepare,
  statement_set_sql_query, statement_set_option,
}
use arrow_adbc.Statement.Invariant.{IsValid, Operation, Reached, Reached-IsValid}
use arrow_adbc.Statement.Prepare.{statement_prepare-twice}

abbrev idle : State
idle = record { in_transaction = false; held = false }

abbrev connection : Connection one_handle
connection = record { conn = some tt; active_transaction = false }

abbrev fresh : Statement ℤ one_handle
fresh = fresh_statement ℤ one_handle tt

abbrev ingesting : Statement ℤ one_handle
ingesting = record fresh { target_table = some (b't' ∷ []) }

ingesting_reached : Reached ℤ one_handle ingesting
unfolding statement_new statement_set_sql_query statement_set_option
ingesting_reached =
    Reached.performed (Operation.set_option (StatementOption.ingest_target_table (b't' ∷ []))) idle
      (Reached.performed (Operation.set_sql_query begin_text) idle (Reached.made connection refl)
        refl)
      refl

Reached-IsValid_example : IsValid ingesting
Reached-IsValid_example = Reached-IsValid ℤ one_handle ingesting ingesting_reached

abbrev asked : Statement ℤ one_handle
asked = record fresh { query = some begin_text }

abbrev prepared : Statement ℤ one_handle
prepared = record asked { stmt = some true; prepared = true }

statement_prepare-twice_example :
    statement_prepare ℤ one_handle prepared idle ≡ (StatusCode.ok, prepared, idle)
unfolding statement_prepare
statement_prepare-twice_example =
    statement_prepare-twice ℤ one_handle asked prepared idle idle refl idle
