-- ===== src/Statement/Prepare.antt =====
-- `SqliteStatementPrepare` called again.
use arrow_adbc.Base.{ℕ, ◌≡◌, ap, refl, Bool, true, false, Option, none, some, List}
use arrow_adbc.Adbc.{StatusCode}
use arrow_adbc.Engine.{ResultCode}
use arrow_adbc.Library.{Library}
use arrow_adbc.Statement.{
  Statement, after_prepare, after_finalize, prepare_query, statement_prepare,
}

module _ (Double : Type 0) (l : Library) where
  open l use {World, Stmt, prepare_v2, finalize}

  abbrev Changed : Type 0
  Changed = StatusCode × Statement Double l × World

  abbrev Ready : Statement Double l → List ℕ → Type 0
  Ready s query = (s.prepared ≡ true) × (s.query ≡ some query)

  after_prepare-Ready :
      (s s' : Statement Double l) (query : List ℕ) (r : ResultCode × Option Stmt × World)
      (w' : World)
      → s.query ≡ some query
      → after_prepare Double l s r ≡ (StatusCode.ok, s', w')
      → Ready s' query
  after_prepare-Ready s s' query (ResultCode.ok, stmt, w) w' given e =
      let same : record s { stmt = stmt; prepared = true } ≡ s' = ap (λ t. t.1) e in
      rw (← same) (refl, given)
  after_prepare-Ready s s' query (rc, stmt, w) w' given e =
      let refused : StatusCode.invalid_argument ≡ StatusCode.ok = ap (λ t. t.0) e in cc

  after_finalize-Ready :
      (s s' : Statement Double l) (query : List ℕ) (r : ResultCode × World) (w' : World)
      → s.query ≡ some query
      → after_finalize Double l s query r ≡ (StatusCode.ok, s', w')
      → Ready s' query
  after_finalize-Ready s s' query (ResultCode.ok, w) w' given e =
      after_prepare-Ready (record s { stmt = none }) s' query _ w' given e
  after_finalize-Ready s s' query (rc, w) w' given e =
      let refused : StatusCode.io ≡ StatusCode.ok = ap (λ t. t.0) e in cc

  prepare_query-Ready :
      (s s' : Statement Double l) (query : Option (List ℕ)) (prepared : Bool) (stmt : Option Stmt)
      (w w' : World)
      → s.query ≡ query
      → s.prepared ≡ prepared
      → prepare_query Double l s query prepared stmt w ≡ (StatusCode.ok, s', w')
      → (text : List ℕ) × Ready s' text
  prepare_query-Ready s s' none prepared stmt w w' given flag e =
      let refused : StatusCode.invalid_state ≡ StatusCode.ok = ap (λ t. t.0) e in cc
  prepare_query-Ready s s' (some query) true stmt w w' given flag e =
      let same : s ≡ s' = ap (λ t. t.1) e in (query, rw (← same) (flag, given))
  prepare_query-Ready s s' (some query) false none w w' given flag e =
      (query, after_prepare-Ready s s' query _ w' given e)
  prepare_query-Ready s s' (some query) false (some stmt) w w' given flag e =
      (query, after_finalize-Ready s s' query _ w' given e)

  -- A call that succeeded is not repeated: another one, at any state of the engine, returns
  -- `ADBC_STATUS_OK` and changes neither the statement nor the engine.
  pub statement_prepare-twice :
      (s s' : Statement Double l) (w w' : World)
      → statement_prepare Double l s w ≡ (StatusCode.ok, s', w')
      → (w2 : World) → statement_prepare Double l s' w2 ≡ (StatusCode.ok, s', w2)
  unfolding statement_prepare
  statement_prepare-twice s s' w w' e w2 =
      let (text, ready) = prepare_query-Ready s s' s.query s.prepared s.stmt w w' refl refl e in
      let (flag, given) = ready in rw (given, flag)
