-- ===== src/Execute/Dispatch.antt =====
-- What an execution leaves of a statement.
use arrow_adbc.Base.{ℕ, ◌≡◌, ◌∙◌, ◌⊎◌, inl, inr, refl, Bool, true, false, Option, none, some, List}
use arrow_adbc.Adbc.{StatusCode, Outcome, done, failed, fault}
use arrow_adbc.Platform.{Platform}
use arrow_adbc.Engine.{ResultCode}
use arrow_adbc.Params.{Field, Binder}
use arrow_adbc.Stream.{Reader}
use arrow_adbc.Library.{Library}
use arrow_adbc.Ingest.Execute.{Ingested}
use arrow_adbc.Update.{Updated}
use arrow_adbc.Statement.{
  Statement, statement_prepare, prepare_query, after_prepare, after_finalize,
}
use arrow_adbc.Statement.Invariant.{IsValid}
use arrow_adbc.Execute.{
  StatementCalls, Executed, returned, undefined, unfinished, engine_of, ingest_end, ingest_started,
  ingest_by, execute_ingest, update_returned, query_returned, run_matching, query_prepared,
  execute_by, statement_execute_query,
}

-- What was set on a statement.
pub record Same {Double : Type 0} {l : Library} (s s' : Statement Double l) : Type 0 where
  pub conn : s'.conn ≡ s.conn
  pub query : s'.query ≡ s.query
  pub target_table : s'.target_table ≡ s.target_table
  pub append : s'.append ≡ s.append
  pub batch_size : s'.batch_size ≡ s.batch_size

module _ {Double : Type 0} {l : Library} where
  same : {s : Statement Double l} → Same s s
  same = record { conn = refl; query = refl; target_table = refl; append = refl; batch_size = refl }

  prepared-Same :
      (s s' : Statement Double l) (stmt : Option l.Stmt) (prepared : Bool)
      → Same s s'
      → Same s (record s' { stmt = stmt; prepared = prepared })
  prepared-Same s s' stmt prepared h = record {
    conn = h.conn;
    query = h.query;
    target_table = h.target_table;
    append = h.append;
    batch_size = h.batch_size;
  }

  bound-Same :
      (s s' : Statement Double l) (b : Binder Double)
      → Same s s'
      → Same s (record s' { binder = b })
  bound-Same s s' b h = record {
    conn = h.conn;
    query = h.query;
    target_table = h.target_table;
    append = h.append;
    batch_size = h.batch_size;
  }

  Same-IsValid : {s s' : Statement Double l} → Same s s' → IsValid s → IsValid s'
  Same-IsValid {s = s} {s' = s'} h v = record {
    one_source = one v.one_source;
    batch_positive = rw h.batch_size v.batch_positive;
    batch_int = rw h.batch_size v.batch_int;
  }
    where
      one :
          ((s.query ≡ none) ⊎ (s.target_table ≡ none))
          → (s'.query ≡ none) ⊎ (s'.target_table ≡ none)
      one (inl e) = inl (h.query ∙ e)
      one (inr e) = inr (h.target_table ∙ e)

module _ (p : Platform) (l : Library) (calls : StatementCalls p.Double l)
    (view_init : ℕ → Bool) where
  open p use {Double}
  open l use {World, Stmt}

  -- A call that returns leaves a statement of which this holds.
  abbrev pub Leaves : (Statement Double l → Type 0) → Executed p l calls view_init → Type 0
  Leaves P (returned status rows reader (some s) w) = P s
  Leaves P (returned status rows reader none w) = ⊥
  Leaves P undefined = Unit
  Leaves P unfinished = Unit

  module _ (s : Statement Double l) where
    after_prepare-Same :
        (s' : Statement Double l) (r : ResultCode × Option Stmt × World)
        → Same s s'
        → Same s (after_prepare Double l s' r).1
    after_prepare-Same s' (ResultCode.ok, stmt, w) h = prepared-Same s s' stmt true h
    after_prepare-Same s' (rc, stmt, w) h = prepared-Same s s' none s'.prepared h

    statement_prepare-Same : (w : World) → Same s (statement_prepare Double l s w).1
    unfolding statement_prepare
    statement_prepare-Same w = prepared s.query s.prepared s.stmt
      where
        finalized :
            (query : List ℕ) (r : ResultCode × World) → Same s (after_finalize Double l s query r).1
        finalized query (ResultCode.ok, w') =
            after_prepare-Same (record s { stmt = none }) _ (prepared-Same s s none s.prepared same)
        finalized query (rc, w') = prepared-Same s s none s.prepared same

        prepared :
            (query : Option (List ℕ)) (ready : Bool) (stmt : Option Stmt)
            → Same s (prepare_query Double l s query ready stmt w).1
        prepared none ready stmt = same
        prepared (some query) true stmt = same
        prepared (some query) false none = after_prepare-Same s _ same
        prepared (some query) false (some stmt) = finalized query _

    ingest_end-Same :
        (insert : Option Stmt) (r : Ingested p (engine_of p l calls view_init insert))
        → Leaves (Same s) (ingest_end p l calls view_init s insert r)
    ingest_end-Same insert (Ingested.ingested status rows b w) = bound-Same s s b same
    ingest_end-Same insert Ingested.undefined = tt
    ingest_end-Same insert Ingested.unfinished = tt

    ingest_started-Same :
        (turns rounds : ℕ) (r : Outcome (StatusCode × Option Stmt × World))
        → Leaves (Same s) (ingest_started p l calls view_init turns rounds s r)
    ingest_started-Same turns rounds (done (StatusCode.ok, insert, w)) = ingest_end-Same insert _
    ingest_started-Same turns rounds (done (status, insert, w)) = bound-Same s s _ same
    ingest_started-Same turns rounds (failed status) = tt
    ingest_started-Same turns rounds fault = tt

    execute_ingest-Same :
        (turns rounds : ℕ) (table : List ℕ) (w : World)
        → Leaves (Same s) (execute_ingest p l calls view_init turns rounds table s w)
    unfolding execute_ingest
    execute_ingest-Same turns rounds table w = by_schema s.binder.schema
      where
        by_schema :
            (schema : Option (List Field))
            → Leaves (Same s) (ingest_by p l calls view_init turns rounds schema table s w)
        by_schema none = same
        by_schema (some fields) = ingest_started-Same turns rounds _

    run_matching-Same :
        (turns rounds : ℕ) (out matches : Bool) (s' : Statement Double l) (w : World)
        → Same s s'
        → Leaves (Same s) (run_matching p l calls view_init turns rounds out matches s' w)
    run_matching-Same turns rounds out false s' w h = h
    run_matching-Same turns rounds false true s' w h = updated _
      where
        updated :
            (r : Updated p (engine_of p l calls view_init s'.stmt))
            → Leaves (Same s) (update_returned p l calls view_init s' s'.stmt r)
        updated (Updated.updated status rows b w) = bound-Same s s' b h
        updated Updated.undefined = tt
        updated Updated.unfinished = tt
    run_matching-Same turns rounds true true s' w h = exported _
      where
        exported :
            (r : Outcome (StatusCode × Reader Double × Binder Double × World))
            → Leaves (Same s) (query_returned p l calls view_init s' r)
        exported (done (status, reader, b, w)) = bound-Same s s' b h
        exported (failed status) = tt
        exported fault = tt

    query_prepared-Same :
        (turns rounds : ℕ) (out : Bool) (r : StatusCode × Statement Double l × World)
        → Same s r.1
        → Leaves (Same s) (query_prepared p l calls view_init turns rounds out r)
    query_prepared-Same turns rounds out (StatusCode.ok, s', w) h =
        run_matching-Same turns rounds out _ s' w h
    query_prepared-Same turns rounds out (status, s', w) h = h

    execute_query-Same :
        (turns rounds : ℕ) (out : Bool) (w : World)
        → Leaves (Same s) (statement_execute_query p l calls view_init turns rounds out (some s) w)
    unfolding statement_execute_query
    execute_query-Same turns rounds out w = by_table s.target_table
      where
        by_table :
            (table : Option (List ℕ))
            → Leaves (Same s) (execute_by p l calls view_init turns rounds out table s w)
        by_table (some table) = execute_ingest-Same turns rounds table w
        by_table none = query_prepared-Same turns rounds out _ (statement_prepare-Same w)

  Leaves-mono :
      {P Q : Statement Double l → Type 0} (r : Executed p l calls view_init)
      → Leaves P r
      → ((s : Statement Double l) → P s → Q s)
      → Leaves Q r
  Leaves-mono (returned status rows reader (some s) w) h k = k s h
  Leaves-mono (returned status rows reader none w) h k = absurd h
  Leaves-mono undefined h k = tt
  Leaves-mono unfinished h k = tt

  -- However an execution of a valid statement returns, by an ingestion, an update or a query, or by an
  -- error of any of their steps, it leaves the statement, which is valid, with the connection, the query,
  -- the table, the mode and the batch size that were set on it.
  pub statement_execute_query-IsValid :
      (turns rounds : ℕ) (out : Bool) (s : Statement Double l) (w : World)
      → IsValid s
      → Leaves
          (λ s'. Same s s' × IsValid s')
          (statement_execute_query p l calls view_init turns rounds out (some s) w)
  statement_execute_query-IsValid turns rounds out s w valid =
      Leaves-mono {P = Same s} {Q = λ s'. Same s s' × IsValid s'} _
        (execute_query-Same s turns rounds out w) λ s' h. (h, Same-IsValid h valid)
