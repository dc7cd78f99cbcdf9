-- ===== src/Manager/Session/Shares.antt =====
-- The driver that a database, its connection and its statement share, and calls of it.
use arrow_adbc.Base.{◌≡◌, ◌≢◌, some_inj, refl, Option, none, some}
use arrow_adbc.Adbc.{Ensures}
use arrow_adbc.Manager.Table.{Function, Pointer}
use arrow_adbc.Manager.Table.Complete.{Kind, kind}
use arrow_adbc.Manager.System.{System}
use arrow_adbc.Manager.Database as Database
use arrow_adbc.Manager.Database.{Driver}
use arrow_adbc.Manager.Database.Callable.{Callable, Serves-ne-null}
use arrow_adbc.Manager.Database.Phases as Phases
use arrow_adbc.Manager.Database.Phases.{Never, Phase}
use arrow_adbc.Manager.Connection.{Connection}
use arrow_adbc.Manager.Connection.Safe as Safe
use arrow_adbc.Manager.Connection.Safe.{perform-Moves}
use arrow_adbc.Manager.Forward as Forward
use arrow_adbc.Manager.Forward.{Statement, pass_pointer, pass, new_by, drop_by}
use arrow_adbc.Manager.Session.{Request, Session, Serves, ask}

-- The driver of a connection or a statement is none, or the one that the database has.
pub data Shares : Option Driver → Option Driver → Type 0 where
  free : {database : Option Driver} → Shares none database
  shared : {driver : Driver} → Shares (some driver) (some driver)

pub Shares-none : {o database : Option Driver} → Shares o none → Shares o database
Shares-none Shares.free = Shares.free

pub Shares-released : {o database : Option Driver} → o ≡ none → Shares o database
Shares-released e = rw e Shares.free

module _ (sys : System) where
  open sys use {World}

  pub record Sound (phase : Phase) (s : Session sys) : Type 0 where
    pub connection_phase : Phase
    pub connection_driver : Option Driver
    pub database_in : Phases.IsIn sys phase s.database
    pub connection_in : Safe.IsIn connection_phase connection_driver s.connection
    pub connection_shares : Shares connection_driver s.database.private_driver
    pub statement_shares : Shares s.statement.private_driver s.database.private_driver

  pub shared-Callable :
      {phase : Phase} {d : Database.Database sys} {o : Option Driver}
      → Phases.IsIn sys phase d
      → Shares o d.private_driver
      → (driver : Driver) → o ≡ some driver
      → Callable driver
  shared-Callable (Phases.IsIn.configured t) Shares.free driver e = cc
  shared-Callable (Phases.IsIn.running priv callable) Shares.free driver e = cc
  shared-Callable (Phases.IsIn.running priv callable) Shares.shared driver e =
      rw (← some_inj e) callable
  shared-Callable Phases.IsIn.empty Shares.free driver e = cc

  pointer-Ensures :
      (pointer : Pointer) (f : Function) (w : World)
      → pointer ≢ Pointer.null
      → Ensures Never (λ r. Unit {0}) (pass_pointer sys pointer f w)
  pointer-Ensures Pointer.null f w there = absurd (there refl)
  pointer-Ensures Pointer.stub f w there = Ensures.returns tt
  pointer-Ensures Pointer.provided f w there = Ensures.returns tt

  pub called-Ensures :
      (f : Function) (driver : Driver) (w : World)
      → kind f ≢ Kind.unchecked
      → Callable driver
      → Ensures Never (λ r. Unit {0}) (pass_pointer sys (driver.table f) f w)
  called-Ensures f driver w asked callable =
      pointer-Ensures (driver.table f) f w (Serves-ne-null _ _ asked (callable f))

  pass-Ensures :
      (f : Function) (o : Option Driver) (w : World)
      → kind f ≢ Kind.unchecked
      → ((driver : Driver) → o ≡ some driver → Callable driver)
      → Ensures Never (λ r. Unit {0}) (pass sys f o w)
  pass-Ensures f none w asked callable = Ensures.returns tt
  pass-Ensures f (some driver) w asked callable =
      called-Ensures f driver w asked (callable driver refl)

  there-Ensures :
      (f : Function) (o : Option Driver) (w : World)
      → ((driver : Driver) → o ≡ some driver → driver.table f ≢ Pointer.null)
      → Ensures Never (λ r. Unit {0}) (pass sys f o w)
  there-Ensures f none w there = Ensures.returns tt
  there-Ensures f (some driver) w there = pointer-Ensures (driver.table f) f w (there driver refl)

  pub ask-Ensures :
      (q : Request) (c : Connection) (s : Statement) (w : World)
      → ((driver : Driver) → c.private_driver ≡ some driver → Callable driver)
      → ((driver : Driver) → s.private_driver ≡ some driver → Callable driver)
      → Serves q s
      → Ensures Never (λ r. Unit {0}) (ask sys q c s w)
  unfolding Forward.connection_commit Forward.connection_get_info Forward.connection_get_objects
      Forward.connection_get_table_schema Forward.connection_get_table_types
      Forward.connection_read_partition Forward.connection_rollback Forward.statement_bind
      Forward.statement_bind_stream Forward.statement_execute_partitions
      Forward.statement_execute_query Forward.statement_get_parameter_schema
      Forward.statement_prepare Forward.statement_set_option Forward.statement_set_sql_query
      Forward.statement_set_substrait_plan
  ask-Ensures Request.commit c s w hc hs serves = pass-Ensures _ c.private_driver w (λ e. cc) hc
  ask-Ensures Request.rollback c s w hc hs serves = pass-Ensures _ c.private_driver w (λ e. cc) hc
  ask-Ensures Request.get_info c s w hc hs serves = pass-Ensures _ c.private_driver w (λ e. cc) hc
  ask-Ensures Request.get_objects c s w hc hs serves =
      pass-Ensures _ c.private_driver w (λ e. cc) hc
  ask-Ensures Request.get_table_schema c s w hc hs serves =
      pass-Ensures _ c.private_driver w (λ e. cc) hc
  ask-Ensures Request.get_table_types c s w hc hs serves =
      pass-Ensures _ c.private_driver w (λ e. cc) hc
  ask-Ensures Request.read_partition c s w hc hs serves =
      pass-Ensures _ c.private_driver w (λ e. cc) hc
  ask-Ensures Request.bind_stream c s w hc hs serves =
      there-Ensures Function.statement_bind_stream s.private_driver w serves
  ask-Ensures other c s w hc hs serves = pass-Ensures _ s.private_driver w (λ e. cc) hs
