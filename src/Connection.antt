-- ===== src/Connection.antt =====
-- Connections, c/driver/sqlite/sqlite.c: `ExecuteQuery`, and the lifecycle and transactions of
-- `SqliteConnection*`. A `private_data` that is NULL is `none`, and so is an `sqlite3*`.
pub mod Transactions
mod Tests
use arrow_adbc.Base.{
  ℕ, zero, suc, ◌+◌, ltb, Bool, true, false, Option, none, some, List, [], ◌∷◌, if◌then◌else◌,
}
use arrow_adbc.Adbc.{StatusCode}
use arrow_adbc.Engine.{ResultCode}
use arrow_adbc.Library.{Library, Run, OptionKey, OptionValue}
use arrow_adbc.Database.{Database, with_uri, open_database}

-- `struct SqliteConnection`
pub record Connection (l : Library) : Type 0 where
  pub conn : Option l.Handle
  pub active_transaction : Bool

-- The statements that the driver runs on its own.
abbrev pub begin_text : List ℕ
begin_text = b'B' ∷ b'E' ∷ b'G' ∷ b'I' ∷ b'N' ∷ []

abbrev pub commit_text : List ℕ
commit_text = b'C' ∷ b'O' ∷ b'M' ∷ b'M' ∷ b'I' ∷ b'T' ∷ []

abbrev pub rollback_text : List ℕ
rollback_text = b'R' ∷ b'O' ∷ b'L' ∷ b'L' ∷ b'B' ∷ b'A' ∷ b'C' ∷ b'K' ∷ []

module _ (l : Library) where
  open l use {World, Handle, Stmt, close, prepare_v2, step_statement, finalize}

  -- The loop of `ExecuteQuery`, in that many rounds: the code does not stop at one that is neither
  -- `SQLITE_DONE` nor `SQLITE_ERROR`.
  unfoldable pub step_loop : ℕ → Option Stmt → ResultCode × World → Option World
  step_loop rounds stmt (ResultCode.done, w) = some w
  step_loop rounds stmt (ResultCode.error, w) = some w
  step_loop zero stmt (rc, w) = none
  step_loop (suc rounds) stmt (rc, w) = step_loop rounds stmt (step_statement stmt w)

  abbrev pub query_result : ResultCode × World → Run World
  query_result (ResultCode.ok, w) = Run.returned StatusCode.ok w
  query_result (ResultCode.done, w) = Run.returned StatusCode.ok w
  query_result (rc, w) = Run.returned StatusCode.internal w

  abbrev pub query_looped : Option Stmt → Option World → Run World
  query_looped stmt none = Run.unfinished
  query_looped stmt (some w) = query_result (finalize stmt w)

  abbrev pub query_prepared : ℕ → ResultCode × Option Stmt × World → Run World
  query_prepared rounds (rc, stmt, w) = query_looped stmt (step_loop rounds stmt (rc, w))

  -- `ExecuteQuery`
  unfoldable pub execute_query : ℕ → Option Handle → List ℕ → World → Run World
  unfolding step_loop
  execute_query rounds h query w = query_prepared rounds (prepare_v2 h query w)

  -- `SqliteConnectionNew`
  unfoldable pub connection_new : Option (Connection l) → StatusCode × Option (Connection l)
  connection_new (some c) = (StatusCode.invalid_state, some c)
  connection_new none = (StatusCode.ok, some (record { conn = none; active_transaction = false }))

  abbrev pub connection_opened :
      Connection l → StatusCode × Option Handle × World → Run (Option (Connection l) × World)
  connection_opened c (status, h, w) = Run.returned status (some (record c { conn = h }), w)

  -- `SqliteConnectionInit`: the database is only read.
  unfoldable pub connection_init :
      Option (Connection l) → Option (Database l) → World → Run (Option (Connection l) × World)
  unfolding open_database
  connection_init none db w = Run.returned StatusCode.invalid_state (none, w)
  connection_init (some c) none w = Run.returned StatusCode.invalid_state (some c, w)
  connection_init (some c) (some db) w = elim c.conn [
    | some h ↦ Run.returned StatusCode.invalid_state (some c, w)
    | none ↦ with_uri l db.uri λ path. connection_opened c (open_database l path w)
  ]

  abbrev pub connection_closed :
      Connection l → Bool × World → StatusCode × Option (Connection l) × World
  connection_closed c (true, w) = (StatusCode.io, some c, w)
  connection_closed c (false, w) = (StatusCode.ok, none, w)

  abbrev pub connection_close :
      Connection l → Option Handle → World → StatusCode × Option (Connection l) × World
  connection_close c none w = (StatusCode.ok, none, w)
  connection_close c (some h) w = connection_closed c (close h w)

  -- `SqliteConnectionRelease`
  unfoldable pub connection_release :
      Option (Connection l) → World → StatusCode × Option (Connection l) × World
  connection_release none w = (StatusCode.invalid_state, none, w)
  connection_release (some c) w = connection_close c c.conn w

  module _ (rounds : ℕ) where
    abbrev pub Operated : Type 0
    Operated = Run (Option (Connection l) × World)

    -- After an `ExecuteQuery` that sets `active_transaction` where it succeeds.
    abbrev pub switched : Connection l → Bool → Run World → Operated
    switched c active (Run.returned StatusCode.ok w) =
        Run.returned StatusCode.ok (some (record c { active_transaction = active }), w)
    switched c active (Run.returned other w) = Run.returned other (some c, w)
    switched c active Run.undefined = Run.undefined
    switched c active Run.unfinished = Run.unfinished

    abbrev pub set_autocommit : Connection l → OptionValue → Bool → World → Operated
    set_autocommit c OptionValue.enabled true w =
        switched c false (execute_query rounds c.conn commit_text w)
    set_autocommit c OptionValue.enabled false w = Run.returned StatusCode.ok (some c, w)
    set_autocommit c OptionValue.disabled true w = Run.returned StatusCode.ok (some c, w)
    set_autocommit c OptionValue.disabled false w =
        switched c true (execute_query rounds c.conn begin_text w)
    set_autocommit c (OptionValue.text s) active w =
        Run.returned StatusCode.invalid_argument (some c, w)

    -- `SqliteConnectionSetOption`
    unfoldable pub connection_set_option :
        OptionKey → OptionValue → Option (Connection l) → World → Operated
    unfolding execute_query
    connection_set_option key value none w = Run.returned StatusCode.invalid_state (none, w)
    connection_set_option OptionKey.autocommit value (some c) w =
        set_autocommit c value c.active_transaction w
    connection_set_option key value (some c) w = Run.returned StatusCode.not_implemented (some c, w)

    abbrev pub finished : Connection l → Run World → Operated
    finished c (Run.returned status w) = Run.returned status (some c, w)
    finished c Run.undefined = Run.undefined
    finished c Run.unfinished = Run.unfinished

    -- `return ExecuteQuery(conn, "BEGIN", error)` after a first statement.
    abbrev pub begin_again : Connection l → Run World → Operated
    begin_again c (Run.returned StatusCode.ok w) =
        finished c (execute_query rounds c.conn begin_text w)
    begin_again c (Run.returned other w) = Run.returned other (some c, w)
    begin_again c Run.undefined = Run.undefined
    begin_again c Run.unfinished = Run.unfinished

    abbrev pub end_transaction : List ℕ → Connection l → Bool → World → Operated
    end_transaction query c false w = Run.returned StatusCode.invalid_state (some c, w)
    end_transaction query c true w = begin_again c (execute_query rounds c.conn query w)

    -- `SqliteConnectionCommit`
    unfoldable pub connection_commit : Option (Connection l) → World → Operated
    unfolding execute_query
    connection_commit none w = Run.returned StatusCode.invalid_state (none, w)
    connection_commit (some c) w = end_transaction commit_text c c.active_transaction w

    -- `SqliteConnectionRollback`
    unfoldable pub connection_rollback : Option (Connection l) → World → Operated
    unfolding execute_query
    connection_rollback none w = Run.returned StatusCode.invalid_state (none, w)
    connection_rollback (some c) w = end_transaction rollback_text c c.active_transaction w
