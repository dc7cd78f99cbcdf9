-- ===== src/Execute/Ingestion.antt =====
-- What `SqliteStatementExecuteQuery` does for a table to ingest into.
use arrow_adbc.Base.{
  ℕ, ◌<◌, ◌≡◌, ◌≢◌, ◌∙◌, ap, refl, Bool, true, false, Option, none, some, List, map, length,
}
use arrow_adbc.Adbc.{StatusCode, Outcome, done}
use arrow_adbc.Platform.{Platform}
use arrow_adbc.Engine.{ResultCode}
use arrow_adbc.Params.{Field, StreamItem, BindResult, release, fields_of, types_of}
use arrow_adbc.Params.Rows.{rows_left, stream_end}
use arrow_adbc.Library.{Library}
use arrow_adbc.Ingest.Queries.{create_text, insert_text, ingest-texts}
use arrow_adbc.Ingest.Rows.{Inserts, ingest_rows-Inserts}
use arrow_adbc.Statement.{Statement}
use arrow_adbc.Execute.{
  StatementCalls, Affected, returned, engine_of, create_table, create_prepared, create_stepped,
  created, prepare_insert, insert_prepared, init_ingest, ingest_end, ingest_started, ingest_by,
  execute_ingest, execute_by, statement_execute_query, name_of,
}

module _ (p : Platform) (l : Library) (calls : StatementCalls p.Double l)
    (view_init : ℕ → Bool) where
  open p use {Double}
  open l use {World, Handle, Stmt, prepare_v2, step_statement, finalize}

  -- Both texts fit their buffers, so the end of `SqliteStatementInitIngest` is reached.
  pub init_ingest-texts :
      (table : List ℕ) (names : List (List ℕ)) (append : Bool) (h : Handle) (w : World)
      → length (create_text table names) < 256
      → length (insert_text table names) < 256
      → init_ingest p l calls view_init table names append h w
        ≡ done (
            prepare_insert p l calls view_init h
              (insert_text table names)
              (create_table p l calls view_init append h (create_text table names) w))
  unfolding init_ingest
  init_ingest-texts table names append h w short short' =
      let (c, i) = ingest-texts table names short short' in rw (c, i)

  init_ingest-prepared :
      (table : List ℕ) (names : List (List ℕ)) (append : Bool) (h : Handle) (create : Option Stmt)
      (insert : Stmt) (w w1 w2 : World)
      → length (create_text table names) < 256
      → length (insert_text table names) < 256
      → create_table p l calls view_init append h (create_text table names) w
        ≡ (StatusCode.ok, create, w1)
      → prepare_v2 (some h) (insert_text table names) w1 ≡ (ResultCode.ok, some insert, w2)
      → init_ingest p l calls view_init table names append h w
        ≡ done (StatusCode.ok, some insert, (finalize create w2).1)
  init_ingest-prepared table names append h create insert w w1 w2 short short' made prepared =
      init_ingest-texts table names append h w short short'
      ∙ ap (λ r. done (prepare_insert p l calls view_init h (insert_text table names) r)) made
      ∙ ap (λ r. done (insert_prepared p l calls view_init create r)) prepared

  init_ingest-refused :
      (table : List ℕ) (names : List (List ℕ)) (append : Bool) (h : Handle) (create : Option Stmt)
      (status : StatusCode) (w w1 : World)
      → length (create_text table names) < 256
      → length (insert_text table names) < 256
      → status ≢ StatusCode.ok
      → create_table p l calls view_init append h (create_text table names) w ≡ (status, create, w1)
      → init_ingest p l calls view_init table names append h w
        ≡ done (status, none, (finalize create w1).1)
  init_ingest-refused table names append h create status w w1 short short' bad made =
      init_ingest-texts table names append h w short short'
      ∙ ap (λ r. done (prepare_insert p l calls view_init h (insert_text table names) r)) made
      ∙ ap done (dropped status bad)
    where
      dropped :
          (status : StatusCode)
          → status ≢ StatusCode.ok
          → prepare_insert p l calls view_init h (insert_text table names) (status, create, w1)
            ≡ (status, none, (finalize create w1).1)
      dropped StatusCode.ok bad = absurd (bad refl)
      dropped other bad = refl

  execute_query-started :
      (turns rounds : ℕ) (out : Bool) (s : Statement Double l) (table : List ℕ)
      (fields : List Field) (w : World) (r : Outcome (StatusCode × Option Stmt × World))
      → s.target_table ≡ some table
      → s.binder.schema ≡ some fields
      → init_ingest p l calls view_init table (map name_of fields) s.append s.conn w ≡ r
      → statement_execute_query p l calls view_init turns rounds out (some s) w
        ≡ ingest_started p l calls view_init turns rounds s r
  unfolding statement_execute_query execute_ingest
  execute_query-started turns rounds out s table fields w r target schema init =
      ap (λ t. execute_by p l calls view_init turns rounds out t s w) target
      ∙ ap (λ f. ingest_by p l calls view_init turns rounds f table s w) schema
      ∙ ap (ingest_started p l calls view_init turns rounds s) init

  -- SQLite creates the table, with the statement for it and the world after it, or the rows are to be
  -- appended.
  pub data Creates (h : Handle) (text : List ℕ) (w : World)
      : Bool → Option Stmt → World → Type 0 where
    appends : Creates h text w true none w
    creates :
        (create : Option Stmt) {w1 w2 : World}
        → prepare_v2 (some h) text w ≡ (ResultCode.ok, create, w1)
        → step_statement create w1 ≡ (ResultCode.done, w2)
        → Creates h text w false create w2

  -- SQLite refuses to.
  pub data Refuses (h : Handle) (text : List ℕ) (w : World) : Option Stmt → World → Type 0 where
    at_prepare :
        (create : Option Stmt) {rc : ResultCode} {w1 : World}
        → prepare_v2 (some h) text w ≡ (rc, create, w1)
        → rc ≢ ResultCode.ok
        → rc ≢ ResultCode.done
        → Refuses h text w create w1
    at_step :
        (create : Option Stmt) {rc : ResultCode} {w1 w2 : World}
        → prepare_v2 (some h) text w ≡ (ResultCode.ok, create, w1)
        → step_statement create w1 ≡ (rc, w2)
        → rc ≢ ResultCode.ok
        → rc ≢ ResultCode.done
        → Refuses h text w create w2

  create_table-Creates :
      {h : Handle} {text : List ℕ} {w w1 : World} {append : Bool} {create : Option Stmt}
      → Creates h text w append create w1
      → create_table p l calls view_init append h text w ≡ (StatusCode.ok, create, w1)
  create_table-Creates Creates.appends = refl
  create_table-Creates (Creates.creates create prepared stepped) =
      ap (create_prepared p l calls view_init) prepared
      ∙ ap (create_stepped p l calls view_init create) stepped

  created-internal :
      (rc : ResultCode)
      → rc ≢ ResultCode.ok
      → rc ≢ ResultCode.done
      → created p l calls view_init rc ≡ StatusCode.internal
  created-internal ResultCode.ok ne ne' = absurd (ne refl)
  created-internal ResultCode.done ne ne' = absurd (ne' refl)
  created-internal rc ne ne' = refl

  create_table-Refuses :
      {h : Handle} {text : List ℕ} {w w1 : World} {create : Option Stmt}
      → Refuses h text w create w1
      → create_table p l calls view_init false h text w ≡ (StatusCode.internal, create, w1)
  create_table-Refuses (Refuses.at_prepare create {rc} {w1} prepared ne ne') =
      ap (create_prepared p l calls view_init) prepared ∙ unprepared rc ne ne'
    where
      unprepared :
          (rc : ResultCode)
          → rc ≢ ResultCode.ok
          → rc ≢ ResultCode.done
          → create_prepared p l calls view_init (rc, create, w1) ≡ (StatusCode.internal, create, w1)
      unprepared ResultCode.ok ne ne' = absurd (ne refl)
      unprepared rc ne ne' = rw (created-internal rc ne ne')
  create_table-Refuses (Refuses.at_step create {rc} {w2 = w2} prepared stepped ne ne') =
      ap (create_prepared p l calls view_init) prepared
      ∙ ap (create_stepped p l calls view_init create) stepped
      ∙ ap (λ status. (status, create, w2)) (created-internal rc ne ne')

  -- With a table to ingest into and a stream of parameters that ends well, where both texts are shorter
  -- than 256 bytes, SQLite creates the table or the rows are to be appended, INSERT can be prepared, and
  -- the engine takes each row that is left: `SqliteStatementExecuteQuery` inserts every row once, in
  -- order, returns OK with their number, finalizes both statements, and releases the binder. One turn
  -- more than there are rows is enough.
  pub statement_execute_query-Inserts :
      (turns rounds : ℕ) (out : Bool) (s : Statement Double l) (table : List ℕ)
      (fields : List Field) (items : List (StreamItem Double)) (create : Option Stmt)
      (insert : Stmt) (w w1 w2 w3 : World)
      → ((n : ℕ) → view_init n ≡ true)
      → s.target_table ≡ some table
      → s.binder.schema ≡ some fields
      → s.binder.params ≡ some items
      → stream_end items ≡ BindResult.finished
      → length (create_text table (map name_of fields)) < 256
      → length (insert_text table (map name_of fields)) < 256
      → Creates s.conn (create_text table (map name_of fields)) w s.append create w1
      → prepare_v2 (some s.conn) (insert_text table (map name_of fields)) w1
        ≡ (ResultCode.ok, some insert, w2)
      → Inserts p
          (engine_of p l calls view_init (some insert))
          view_init
          (fields_of s.binder)
          (types_of s.binder)
          (rows_left s.binder)
          (finalize create w2).1
          w3
      → length (rows_left s.binder) < turns
      → statement_execute_query p l calls view_init turns rounds out (some s) w
        ≡ returned StatusCode.ok
            (Affected.counted (length (rows_left s.binder)))
            none
            (some (record s { binder = release s.binder }))
            (finalize (some insert) w3).1
  statement_execute_query-Inserts turns rounds out s table fields items create insert w w1 w2 w3
        readable target schema given ends short short' made prepared inserts enough =
      execute_query-started turns rounds out s table fields w _ target schema (
        init_ingest-prepared table (map name_of fields) s.append s.conn create insert w w1 w2 short
          short' (create_table-Creates made) prepared)
      ∙ ap (ingest_end p l calls view_init s (some insert)) (
          ingest_rows-Inserts p (engine_of p l calls view_init (some insert)) view_init s.binder
            items turns rounds _ w3 readable given ends inserts enough)

  -- Where SQLite refuses to create the table, `SqliteStatementExecuteQuery` returns INTERNAL with 0 rows. INSERT
  -- is not prepared, no row is taken from the parameters, CREATE TABLE is finalized, and the binder is
  -- released. Both texts are shorter than 256 bytes.
  pub statement_execute_query-refused :
      (turns rounds : ℕ) (out : Bool) (s : Statement Double l) (table : List ℕ)
      (fields : List Field) (create : Option Stmt) (w w1 : World)
      → s.target_table ≡ some table
      → s.binder.schema ≡ some fields
      → length (create_text table (map name_of fields)) < 256
      → length (insert_text table (map name_of fields)) < 256
      → s.append ≡ false
      → Refuses s.conn (create_text table (map name_of fields)) w create w1
      → statement_execute_query p l calls view_init turns rounds out (some s) w
        ≡ returned StatusCode.internal
            (Affected.counted 0)
            none
            (some (record s { binder = release s.binder }))
            (finalize create w1).1
  statement_execute_query-refused turns rounds out s table fields create w w1 target schema short
        short' creating made =
      execute_query-started turns rounds out s table fields w _ target schema (
        init_ingest-refused table (map name_of fields) s.append s.conn create StatusCode.internal w
          w1 short short' (λ e. cc) (rw creating (create_table-Refuses made)))
