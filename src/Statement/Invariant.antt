-- ===== src/Statement/Invariant.antt =====
-- What holds of a statement between the calls.
use arrow_adbc.Base.{
  ℕ, zero, suc, ◌<◌, ◌≤◌, ◌≡◌, ◌⊎◌, inl, inr, refl, ltb, Bool, true, false, Bool-cases,
  Option-cases, Option, none, some, List, ℤ, pos, negsuc, arith,
}
use arrow_adbc.Adbc.{StatusCode}
use arrow_adbc.Engine.{ResultCode}
use arrow_adbc.Params.{StreamItem, StreamSchema, Binder}
use arrow_adbc.Library.{Library}
use arrow_adbc.Connection.{Connection}
use arrow_adbc.Statement.{
  Statement, StatementOption, int_max, fresh_statement, statement_new, after_prepare,
  after_finalize, prepare_query, statement_prepare, statement_set_sql_query, statement_bind,
  statement_bind_stream, set_batch_size, statement_set_option,
}

-- A statement has a query or a table to ingest into, not both, and its batch size is positive and an
-- `int`.
pub record IsValid {Double : Type 0} {l : Library} (s : Statement Double l) : Type 0 where
  pub one_source : (s.query ≡ none) ⊎ (s.target_table ≡ none)
  pub batch_positive : 0 < s.batch_size
  pub batch_int : s.batch_size ≤ int_max

module _ (Double : Type 0) (l : Library) where
  open l use {World, Stmt}

  -- The operations on a statement, less those that only run it.
  pub data Operation : Type 0 where
    prepare : Operation
    set_sql_query : List ℕ → Operation
    bind : Option StreamSchema → Option (StreamItem Double) → Operation
    bind_stream : StreamSchema → List (StreamItem Double) → Operation
    set_option : StatementOption → Operation

  abbrev in_world :
      World → StatusCode × Statement Double l → StatusCode × Statement Double l × World
  in_world w (status, s) = (status, s, w)

  abbrev pub perform :
      Operation → Statement Double l → World → StatusCode × Statement Double l × World
  perform prepare s w = statement_prepare Double l s w
  perform (set_sql_query query) s w = in_world w (statement_set_sql_query Double l query s)
  perform (bind schema values) s w = in_world w (statement_bind Double l schema values s)
  perform (bind_stream schema values) s w =
      in_world w (statement_bind_stream Double l schema values s)
  perform (set_option option) s w = in_world w (statement_set_option Double l option s)

  -- The statements that a new one comes to by operations, whatever they return.
  pub data Reached : Statement Double l → Type 0 where
    made :
        (c : Connection l) {s : Statement Double l}
        → statement_new Double l (some c) none ≡ (StatusCode.ok, some s)
        → Reached s
    performed :
        {s : Statement Double l} (op : Operation) (w : World) {s' : Statement Double l}
        → Reached s
        → (perform op s w).1 ≡ s'
        → Reached s'

  -- Changes that leave what `IsValid` reads.
  same_source :
      (s : Statement Double l) (stmt : Option Stmt) (prepared : Bool) (binder : Binder Double)
      (append : Bool)
      → IsValid s
      → IsValid (record s { stmt = stmt; prepared = prepared; binder = binder; append = append })
  same_source s stmt prepared binder append h = record {
    one_source = h.one_source;
    batch_positive = h.batch_positive;
    batch_int = h.batch_int;
  }

  after_prepare-IsValid :
      (s : Statement Double l) (r : ResultCode × Option Stmt × World)
      → IsValid s
      → IsValid (after_prepare Double l s r).1
  after_prepare-IsValid s (ResultCode.ok, stmt, w) h = same_source s stmt true s.binder s.append h
  after_prepare-IsValid s (rc, stmt, w) h = same_source s none s.prepared s.binder s.append h

  after_finalize-IsValid :
      (s : Statement Double l) (query : List ℕ) (r : ResultCode × World)
      → IsValid s
      → IsValid (after_finalize Double l s query r).1
  after_finalize-IsValid s query (ResultCode.ok, w) h =
      after_prepare-IsValid (record s { stmt = none }) _
        (same_source s none s.prepared s.binder s.append h)
  after_finalize-IsValid s query (rc, w) h = same_source s none s.prepared s.binder s.append h

  prepare_query-IsValid :
      (s : Statement Double l) (query : Option (List ℕ)) (prepared : Bool) (stmt : Option Stmt)
      (w : World)
      → IsValid s
      → IsValid (prepare_query Double l s query prepared stmt w).1
  prepare_query-IsValid s none prepared stmt w h = h
  prepare_query-IsValid s (some query) true stmt w h = h
  prepare_query-IsValid s (some query) false none w h = after_prepare-IsValid s _ h
  prepare_query-IsValid s (some query) false (some stmt) w h = after_finalize-IsValid s query _ h

  set_batch_size-IsValid :
      (z : ℤ) (errno : Bool) (s : Statement Double l)
      → IsValid s
      → IsValid (set_batch_size Double l z errno s).1
  set_batch_size-IsValid z true s h = h
  set_batch_size-IsValid (negsuc n) false s h = h
  set_batch_size-IsValid (pos zero) false s h = h
  set_batch_size-IsValid (pos (suc n)) false s h = elim (Bool-cases (ltb int_max (suc n))) [
    | inl over ↦ rw over h
    | inr fits ↦ rw fits (record {
      one_source = h.one_source;
      batch_positive = omega arith;
      batch_int = below (suc n) fits;
    })
  ]
    where
      below : (n : ℕ) → ltb int_max n ≡ false → n ≤ int_max
      below n e = ground arith

  perform-IsValid :
      (op : Operation) (s : Statement Double l) (w : World) → IsValid s → IsValid (perform op s w).1
  unfolding statement_prepare statement_set_sql_query statement_bind statement_bind_stream
      statement_set_option
  perform-IsValid prepare s w h = prepare_query-IsValid s s.query s.prepared s.stmt w h
  perform-IsValid (set_sql_query query) s w h = record {
    one_source = inr refl;
    batch_positive = h.batch_positive;
    batch_int = h.batch_int;
  }
  perform-IsValid (bind schema none) s w h = same_source s s.stmt s.prepared _ s.append h
  perform-IsValid (bind none (some values)) s w h = same_source s s.stmt s.prepared _ s.append h
  perform-IsValid (bind (some schema) (some values)) s w h =
      same_source s s.stmt s.prepared _ s.append h
  perform-IsValid (bind_stream schema values) s w h = same_source s s.stmt s.prepared _ s.append h
  perform-IsValid (set_option (StatementOption.ingest_target_table table)) s w h = record {
    one_source = inl refl;
    batch_positive = h.batch_positive;
    batch_int = h.batch_int;
  }
  perform-IsValid (set_option StatementOption.ingest_mode_append) s w h =
      same_source s s.stmt s.prepared s.binder true h
  perform-IsValid (set_option StatementOption.ingest_mode_create) s w h =
      same_source s s.stmt s.prepared s.binder false h
  perform-IsValid (set_option StatementOption.ingest_mode_other) s w h = h
  perform-IsValid (set_option (StatementOption.batch_rows z errno)) s w h =
      set_batch_size-IsValid z errno s h
  perform-IsValid (set_option StatementOption.unknown) s w h = h

  new-IsValid :
      (c : Connection l) (s : Statement Double l)
      → statement_new Double l (some c) none ≡ (StatusCode.ok, some s)
      → IsValid s
  unfolding statement_new
  new-IsValid c s e = elim (Option-cases c.conn) [
    | inl closed ↦ let refused = rw closed at e in cc
    | inr (h, opened) ↦
        let made = rw opened at e in
        let same : fresh_statement Double l h ≡ s = cc in
        rw (← same)
          (record { one_source = inl refl; batch_positive = omega arith; batch_int = omega arith })
  ]

  -- In every statement that comes from `SqliteStatementNew` by operations, whether they succeed or
  -- not, a query and a table to ingest into are never both set, and the batch size is between 1 and
  -- `INT_MAX`.
  pub Reached-IsValid : (s : Statement Double l) → Reached s → IsValid s
  Reached-IsValid s (Reached.made c e) = new-IsValid c s e
  Reached-IsValid s (Reached.performed {s = before} op w reached e) =
      rw (← e) (perform-IsValid op before w (Reached-IsValid before reached))
