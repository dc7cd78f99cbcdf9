-- ===== src/Connection/Transactions.antt =====
-- The transaction flag of a connection against the transactions of the engine.
use arrow_adbc.Base.{
  ℕ, zero, suc, ◌≤◌, ◌≡◌, ◌≢◌, ◌∙◌, ◌⊎◌, inl, inr, sym, refl, Bool, true, false, Option, some, List,
  arith,
}
use arrow_adbc.Adbc.{StatusCode}
use arrow_adbc.Engine.{ResultCode}
use arrow_adbc.Library.{Library, Run, OptionKey, OptionValue}
use arrow_adbc.Connection.{
  Connection, begin_text, commit_text, rollback_text, step_loop, execute_query, switched, finished,
  begin_again, connection_set_option, connection_commit, connection_rollback,
}

module _ (l : Library) where
  open l use {World, Handle, Stmt, prepare_v2, step_statement, finalize}

  -- Steps of a statement, so many, after codes at which the loop of `ExecuteQuery` goes on, such as
  -- `SQLITE_BUSY` while another connection has the lock.
  pub data Steps (stmt : Option Stmt) : ℕ → ResultCode × World → ResultCode × World → Type 0 where
    here : {r : ResultCode × World} → Steps stmt zero r r
    again :
        {n : ℕ} {rc : ResultCode} {w : World} {r : ResultCode × World}
        → rc ≢ ResultCode.done
        → rc ≢ ResultCode.error
        → Steps stmt n (step_statement stmt w) r
        → Steps stmt (suc n) (rc, w) r

  -- A statement run by the engine, with at most `patience` steps: it is prepared, and its last step
  -- succeeds, after which `P` holds, or fails with `SQLITE_ERROR`, after which `Q` holds.
  pub data Executes (patience : ℕ) (h : Option Handle) (query : List ℕ) (w : World)
      (P Q : World → Type 0) : Type 0 where
    success :
        (n : ℕ) (stmt : Option Stmt) (w1 w2 w3 : World)
        → n ≤ patience
        → prepare_v2 h query w ≡ (ResultCode.ok, stmt, w1)
        → Steps stmt n (ResultCode.ok, w1) (ResultCode.done, w2)
        → finalize stmt w2 ≡ (ResultCode.ok, w3)
        → P w3
        → Executes patience h query w P Q
    failure :
        (n : ℕ) (stmt : Option Stmt) (w1 w2 w3 : World)
        → n ≤ patience
        → prepare_v2 h query w ≡ (ResultCode.ok, stmt, w1)
        → Steps stmt n (ResultCode.ok, w1) (ResultCode.error, w2)
        → finalize stmt w2 ≡ (ResultCode.error, w3)
        → Q w3
        → Executes patience h query w P Q

  -- SQLite's transactions: whether a handle is in one, as `sqlite3_get_autocommit` tells, and what
  -- the three statements do to that. The engine stops being busy within `patience` steps.
  pub record Transactions : Type 0 where
    pub patience : ℕ
    pub txn : Handle → World → Bool
    pub begins :
        (h : Handle) (w : World)
        → Executes patience (some h) begin_text w (λ w'. txn h w' ≡ true) (λ w'. txn h w' ≡ txn h w)
    pub commits :
        (h : Handle) (w : World)
        → Executes patience
            (some h)
            commit_text
            w
            (λ w'. txn h w' ≡ false)
            (λ w'. txn h w' ≡ txn h w)
    pub rolls_back :
        (h : Handle) (w : World)
        → Executes patience
            (some h)
            rollback_text
            w
            (λ w'. txn h w' ≡ false)
            (λ w'. txn h w' ≡ txn h w)

  data Ran (P Q : World → Type 0) : Run World → Type 0 where
    ran : {w : World} → P w → Ran P Q (Run.returned StatusCode.ok w)
    refused : {w : World} → Q w → Ran P Q (Run.returned StatusCode.internal w)

  abbrev Ends : ResultCode → Type 0
  Ends rc = (rc ≡ ResultCode.done) ⊎ (rc ≡ ResultCode.error)

  step_loop-Steps :
      {stmt : Option Stmt} (rounds : ℕ) {n : ℕ} {r : ResultCode × World} {rc : ResultCode}
      {w' : World}
      → Ends rc
      → n ≤ rounds
      → Steps stmt n r (rc, w')
      → step_loop l rounds stmt r ≡ some w'
  unfolding step_loop
  step_loop-Steps {stmt} rounds {rc = rc} {w' = w'} ends enough Steps.here = elim ends [
    | inl done ↦ rw done (stopped rounds)
    | inr error ↦ rw error (failed rounds)
  ]
    where
      stopped : (rounds : ℕ) → step_loop l rounds stmt (ResultCode.done, w') ≡ some w'
      stopped zero = refl
      stopped (suc rounds) = refl

      failed : (rounds : ℕ) → step_loop l rounds stmt (ResultCode.error, w') ≡ some w'
      failed zero = refl
      failed (suc rounds) = refl
  step_loop-Steps zero ends enough (Steps.again more_done more_error more) =
      absurd (omega (arith, enough))
  step_loop-Steps (suc rounds) ends enough (Steps.again {rc = ResultCode.done} ne ne' more) =
      absurd (ne refl)
  step_loop-Steps (suc rounds) ends enough (Steps.again {rc = ResultCode.error} ne ne' more) =
      absurd (ne' refl)
  step_loop-Steps (suc rounds) ends enough (Steps.again {rc = code} ne ne' more) =
      step_loop-Steps rounds ends (omega (arith, enough)) more

  execute_query-Ran :
      (rounds patience : ℕ) (h : Option Handle) (query : List ℕ) (w : World) {P Q : World → Type 0}
      → patience ≤ rounds
      → Executes patience h query w P Q
      → Ran P Q (execute_query l rounds h query w)
  unfolding execute_query
  execute_query-Ran rounds patience h query w enough
        (Executes.success n stmt w1 w2 w3 quick p s f holds) =
      rw (p, step_loop-Steps rounds (inl refl) (omega (arith, quick, enough)) s, f) (Ran.ran holds)
  execute_query-Ran rounds patience h query w enough
        (Executes.failure n stmt w1 w2 w3 quick p s f holds) =
      rw (p, step_loop-Steps rounds (inr refl) (omega (arith, quick, enough)) s, f)
        (Ran.refused holds)

  -- The operations on the transactions of a connection.
  pub data Operation : Type 0 where
    set_option : OptionKey → OptionValue → Operation
    commit rollback : Operation

  abbrev pub perform : ℕ → Operation → Connection l → World → Run (Option (Connection l) × World)
  perform rounds (set_option key value) c w = connection_set_option l rounds key value (some c) w
  perform rounds commit c w = connection_commit l rounds (some c) w
  perform rounds rollback c w = connection_rollback l rounds (some c) w

  module _ (t : Transactions) (h : Handle) where
    open t use {txn}

    abbrev pub connected : Bool → Connection l
    connected active = record { conn = some h; active_transaction = active }

    -- What an operation on the connection with the flag `active` ends with: it returns, and leaves
    -- the connection open with a flag `active'`. If the engine's transaction was known to the driver
    -- it still is, and if the flag was exact and the status is `ADBC_STATUS_OK` it still is exact.
    pub data Settled (active : Bool) (w : World)
        : Run (Option (Connection l) × World) → Type 0 where
      settled :
          {status : StatusCode} (active' : Bool) {w' : World}
          → ((txn h w ≡ true → active ≡ true) → txn h w' ≡ true → active' ≡ true)
          → (txn h w ≡ active → status ≡ StatusCode.ok → txn h w' ≡ active')
          → Settled active w (Run.returned status (some (connected active'), w'))

    switched-Settled :
        (before after : Bool) (w : World) (r : Run World) (rounds : ℕ)
        → Ran (λ w'. txn h w' ≡ after) (λ w'. txn h w' ≡ txn h w) r
        → Settled before w (switched l rounds (connected before) after r)
    switched-Settled before after w r rounds (Ran.ran now) =
        Settled.settled after (λ known e. sym now ∙ e) λ exact ok. now
    switched-Settled before after w r rounds (Ran.refused same) =
        Settled.settled before (λ known e. known (sym same ∙ e)) λ exact ok. cc

    begin_again-Settled :
        (w w1 : World) (rounds : ℕ) (r : Run World)
        → Ran (λ w'. txn h w' ≡ true) (λ w'. txn h w' ≡ txn h w1) r
        → Settled true w (finished l rounds (connected true) r)
    begin_again-Settled w w1 rounds r (Ran.ran now) =
        Settled.settled true (λ known e. refl) λ exact ok. now
    begin_again-Settled w w1 rounds r (Ran.refused same) =
        Settled.settled true (λ known e. refl) λ exact ok. cc

    end_transaction-Settled :
        (w : World) (rounds : ℕ) (r : Run World)
        → t.patience ≤ rounds
        → Ran (λ w'. txn h w' ≡ false) (λ w'. txn h w' ≡ txn h w) r
        → Settled true w (begin_again l rounds (connected true) r)
    end_transaction-Settled w rounds r enough (Ran.ran {w = w1} now) =
        begin_again-Settled w w1 rounds (execute_query l rounds (some h) begin_text w1)
          (execute_query-Ran rounds t.patience (some h) begin_text w1 enough (t.begins h w1))
    end_transaction-Settled w rounds r enough (Ran.refused same) =
        Settled.settled true (λ known e. refl) λ exact ok. cc

    unchanged :
        (active : Bool) (w : World) (status : StatusCode)
        → Settled active w (Run.returned status (some (connected active), w))
    unchanged active w status = Settled.settled active (λ known. known) λ exact ok. exact

    -- Every operation on an open connection returns and leaves the connection open, where SQLite ends
    -- BEGIN, COMMIT and ROLLBACK with their effect or with `SQLITE_ERROR` and none, after being busy
    -- for a while, and `ExecuteQuery`'s loop has as many rounds as that takes steps (it goes on as long
    -- as SQLite is busy). A transaction of the engine stays known to the driver.
    -- The flag stays exact as long as the status is `ADBC_STATUS_OK`: after that autocommit is off
    -- exactly while the engine is in a transaction.
    pub perform-Settled :
        (rounds : ℕ) (op : Operation) (active : Bool) (w : World)
        → t.patience ≤ rounds
        → Settled active w (perform rounds op (connected active) w)
    unfolding connection_set_option connection_commit connection_rollback
    perform-Settled rounds (set_option OptionKey.autocommit OptionValue.enabled) true w enough =
        switched-Settled true false w _ rounds
          (execute_query-Ran rounds t.patience (some h) commit_text w enough (t.commits h w))
    perform-Settled rounds (set_option OptionKey.autocommit OptionValue.enabled) false w enough =
        unchanged false w StatusCode.ok
    perform-Settled rounds (set_option OptionKey.autocommit OptionValue.disabled) true w enough =
        unchanged true w StatusCode.ok
    perform-Settled rounds (set_option OptionKey.autocommit OptionValue.disabled) false w enough =
        switched-Settled false true w _ rounds
          (execute_query-Ran rounds t.patience (some h) begin_text w enough (t.begins h w))
    perform-Settled rounds (set_option OptionKey.autocommit (OptionValue.text s)) active w enough =
        unchanged active w StatusCode.invalid_argument
    perform-Settled rounds (set_option OptionKey.uri value) active w enough =
        unchanged active w StatusCode.not_implemented
    perform-Settled rounds (set_option OptionKey.unknown value) active w enough =
        unchanged active w StatusCode.not_implemented
    perform-Settled rounds commit true w enough =
        end_transaction-Settled w rounds _ enough
          (execute_query-Ran rounds t.patience (some h) commit_text w enough (t.commits h w))
    perform-Settled rounds commit false w enough = unchanged false w StatusCode.invalid_state
    perform-Settled rounds rollback true w enough =
        end_transaction-Settled w rounds _ enough
          (execute_query-Ran rounds t.patience (some h) rollback_text w enough (t.rolls_back h w))
    perform-Settled rounds rollback false w enough = unchanged false w StatusCode.invalid_state
