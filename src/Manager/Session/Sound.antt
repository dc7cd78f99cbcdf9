-- ===== src/Manager/Session/Sound.antt =====
-- A session never uses a driver that was deleted.
use arrow_adbc.Base.{◌≡◌, ◌≢◌, ◌∙◌, some_inj, sym, refl, Option, none, some}
use arrow_adbc.Adbc.{StatusCode, Outcome, ◌>>=◌, Ensures, Ensures-bind}
use arrow_adbc.Manager.Table.{Function}
use arrow_adbc.Manager.System.{System, Call}
use arrow_adbc.Manager.Database as Database
use arrow_adbc.Manager.Database.{Driver}
use arrow_adbc.Manager.Database.Callable.{Callable}
use arrow_adbc.Manager.Database.Phases as Phases
use arrow_adbc.Manager.Database.Phases.{Never, Phase}
use arrow_adbc.Manager.Database.Safe.{call-Ensures, perform-Lands}
use arrow_adbc.Manager.Connection.{Connection}
use arrow_adbc.Manager.Connection.Safe as Safe
use arrow_adbc.Manager.Connection.Safe.{perform-Moves}
use arrow_adbc.Manager.Forward as Forward
use arrow_adbc.Manager.Forward.{Statement, pass_pointer, pass, new_by, drop_by}
use arrow_adbc.Manager.Session.{
  Session, Operation, Ended, with_database, with_connection, with_statement, perform, Permits,
}
use arrow_adbc.Manager.Session.Shares.{
  Shares, Shares-none, Shares-released, Sound, shared-Callable, called-Ensures, ask-Ensures,
}

module _ (sys : System) where
  open sys use {World}

  abbrev Stays : StatusCode × Session sys × World → Type 0
  Stays (status, s, w) = (phase : Phase) × Sound sys phase s

  abbrev Kept : Phase → Ended sys → Type 0
  Kept phase m = Ensures Never Stays m

  on_running :
      {driver : Driver} (priv : Database.PrivateData sys) (op : Phases.Operation sys) (w : World)
      → Callable driver
      → Phases.Allowed sys op Phase.running
      → op ≢ Phases.Operation.release
      → Ensures Never
          (λ r. (r.1).private_driver ≡ some driver × Phases.IsIn sys Phase.running r.1)
          (Phases.perform sys op (record { private_data = priv; private_driver = some driver }) w)
  unfolding Database.database_set_option Database.database_set_init_func
  on_running {driver} priv (Phases.Operation.set_option key value) w callable h ne =
      Ensures-bind _ (call-Ensures sys driver (Call.set_option key value) priv w callable)
        λ r ok. Ensures.returns (refl, Phases.IsIn.running _ callable)
  on_running priv (Phases.Operation.set_init_func f) w callable h ne =
      Ensures.returns (refl, Phases.IsIn.running priv callable)
  on_running priv Phases.Operation.init w callable h ne = elim h [ ]
  on_running priv Phases.Operation.release w callable h ne = absurd (ne refl)

  abbrev together : Database.Database sys → Connection → Statement → Session sys
  together d c t = record { database = d; connection = c; statement = t }

  abbrev parts :
      {phase : Phase} {d : Database.Database sys} {c : Connection} {t : Statement}
      (connection_phase : Phase) (o : Option Driver)
      → Phases.IsIn sys phase d
      → Safe.IsIn connection_phase o c
      → Shares o d.private_driver
      → Shares t.private_driver d.private_driver
      → Sound sys phase (together d c t)
  parts connection_phase o h g cs ts = record {
    connection_phase = connection_phase;
    connection_driver = o;
    database_in = h;
    connection_in = g;
    connection_shares = cs;
    statement_shares = ts;
  }

  module _ (databases : Phases.Conventions sys) (connections : Safe.Conventions sys) where
    without_driver-Kept :
        (op : Phases.Operation sys) (phase : Phase) (d : Database.Database sys) (c : Connection)
        (t : Statement) (w : World) (connection_phase : Phase) (o : Option Driver)
        → Phases.IsIn sys phase d
        → Phases.Allowed sys op phase
        → Safe.IsIn connection_phase o c
        → Shares o none
        → Shares t.private_driver none
        → Kept phase (do r ← Phases.perform sys op d w; with_database sys (together d c t) r)
    without_driver-Kept op phase d c t w connection_phase o h allowed g cs ts =
        Ensures-bind _ (perform-Lands sys databases op phase d w h allowed) λ r landed.
          Ensures.returns (_, parts connection_phase o landed.1 g (Shares-none cs) (Shares-none ts))

    used-Kept :
        (op : Phases.Operation sys) (phase : Phase) (d : Database.Database sys) (c : Connection)
        (t : Statement) (w : World) (connection_phase : Phase) (o : Option Driver)
        → Phases.IsIn sys phase d
        → Phases.Allowed sys op phase
        → op ≢ Phases.Operation.release
        → Safe.IsIn connection_phase o c
        → Shares o d.private_driver
        → Shares t.private_driver d.private_driver
        → Kept phase (do r ← Phases.perform sys op d w; with_database sys (together d c t) r)
    used-Kept op phase d c t w connection_phase o (Phases.IsIn.configured u) allowed ne g cs ts =
        without_driver-Kept op phase _ c t w connection_phase o (Phases.IsIn.configured u) allowed g
          cs ts
    used-Kept op phase d c t w connection_phase o Phases.IsIn.empty allowed ne g cs ts =
        without_driver-Kept op phase _ c t w connection_phase o Phases.IsIn.empty allowed g cs ts
    used-Kept op phase d c t w connection_phase o (Phases.IsIn.running {driver} priv callable)
          allowed ne g cs ts =
        Ensures-bind _ (on_running priv op w callable allowed ne) λ r after.
          Ensures.returns (_, parts connection_phase o after.1 g (rw after.0 cs) (rw after.0 ts))

    driver-IsIn :
        {connection_phase : Phase} {o : Option Driver} {c : Connection}
        → Safe.IsIn connection_phase o c
        → c.private_driver ≡ o
    driver-IsIn (Safe.IsIn.configured options) = refl
    driver-IsIn (Safe.IsIn.running priv callable) = refl
    driver-IsIn Safe.IsIn.empty = refl

    released-Kept :
        (phase : Phase) (d : Database.Database sys) (c : Connection) (t : Statement) (w : World)
        (connection_phase : Phase) (o : Option Driver)
        → Phases.IsIn sys phase d
        → Safe.IsIn connection_phase o c
        → c.private_driver ≡ none
        → t.private_driver ≡ none
        → Kept phase (do
          r ← Phases.perform sys Phases.Operation.release d w
          with_database sys (together d c t) r)
    released-Kept phase d c t w connection_phase o h g cn tn =
        without_driver-Kept Phases.Operation.release phase d c t w connection_phase o h
          Phases.Allowed.drop g (Shares-released (sym (driver-IsIn g) ∙ cn)) (Shares-released tn)

    Moves-Shares :
        {op : Safe.Operation} {phase phase' : Phase} {status : StatusCode}
        {o o' database : Option Driver}
        → Safe.Moves op phase o status phase' o'
        → ((asked : Option Driver) → op ≡ Safe.Operation.init asked → asked ≡ database)
        → Shares o database
        → Shares o' database
    Moves-Shares Safe.Moves.kept from cs = cs
    Moves-Shares Safe.Moves.refused from cs = cs
    Moves-Shares Safe.Moves.started from cs = rw (← from _ refl) Shares.shared
    Moves-Shares (Safe.Moves.failed_to_start bad) from cs = cs
    Moves-Shares Safe.Moves.never_made from cs = cs
    Moves-Shares Safe.Moves.dropped from cs = Shares.free

    connection-Kept :
        (op : Safe.Operation) (phase : Phase) (d : Database.Database sys) (c : Connection)
        (t : Statement) (w : World) (connection_phase : Phase) (o : Option Driver)
        → ((asked : Option Driver) → op ≡ Safe.Operation.init asked → asked ≡ d.private_driver)
        → Safe.Allowed op connection_phase
        → Phases.IsIn sys phase d
        → Safe.IsIn connection_phase o c
        → Shares o d.private_driver
        → Shares t.private_driver d.private_driver
        → Kept phase (do r ← Safe.perform sys op c w; with_connection sys (together d c t) r)
    connection-Kept op phase d c t w connection_phase o from allowed h g cs ts =
        Ensures-bind _ (perform-Moves sys connections op connection_phase o c w g allowed)
          λ r landed. Ensures.returns (_, parts _ _ h landed.2 (Moves-Shares landed.3 from cs) ts)

    start-Allowed :
        {connection_phase : Phase} {o : Option Driver} {c : Connection} (asked : Option Driver)
        → Safe.IsIn connection_phase o c
        → c.private_driver ≡ none
        → ((driver : Driver) → asked ≡ some driver → Callable driver)
        → Safe.Allowed (Safe.Operation.init asked) connection_phase
    start-Allowed none (Safe.IsIn.configured options) e callable = Safe.Allowed.not_ready
    start-Allowed (some driver) (Safe.IsIn.configured options) e callable =
        Safe.Allowed.start (callable driver refl)
    start-Allowed asked (Safe.IsIn.running priv h) e callable = cc
    start-Allowed asked Safe.IsIn.empty e callable = Safe.Allowed.not_made

    database-Callable :
        {phase : Phase} {d : Database.Database sys}
        → Phases.IsIn sys phase d
        → (driver : Driver) → d.private_driver ≡ some driver
        → Callable driver
    database-Callable (Phases.IsIn.configured t) driver e = cc
    database-Callable (Phases.IsIn.running priv callable) driver e = rw (← some_inj e) callable
    database-Callable Phases.IsIn.empty driver e = cc

    new_statement-Ensures :
        (o : Option Driver) (t : Statement) (w : World) (database : Option Driver)
        → ((driver : Driver) → o ≡ some driver → Callable driver)
        → Shares o database
        → Shares t.private_driver database
        → Ensures Never (λ r. Shares (r.1).private_driver database) (new_by sys o t w)
    new_statement-Ensures none t w database callable cs ts = Ensures.returns ts
    new_statement-Ensures (some driver) t w database callable cs ts =
        Ensures-bind _
          (called-Ensures sys Function.statement_new driver w (λ e. cc) (callable driver refl))
          λ r ok. Ensures.returns cs

    release_statement-Ensures :
        (o : Option Driver) (t : Statement) (w : World) (database : Option Driver)
        → ((driver : Driver) → o ≡ some driver → Callable driver)
        → Shares t.private_driver database
        → Ensures Never (λ r. Shares (r.1).private_driver database) (drop_by sys o t w)
    release_statement-Ensures none t w database callable ts = Ensures.returns ts
    release_statement-Ensures (some driver) t w database callable ts =
        Ensures-bind _
          (called-Ensures sys Function.statement_release driver w (λ e. cc) (callable driver refl))
          λ r ok. Ensures.returns Shares.free

    statement-Kept :
        {m : Outcome (StatusCode × Statement × World)} (phase : Phase) (d : Database.Database sys)
        (c : Connection) (t : Statement) (connection_phase : Phase) (o : Option Driver)
        → Phases.IsIn sys phase d
        → Safe.IsIn connection_phase o c
        → Shares o d.private_driver
        → Ensures Never (λ r. Shares (r.1).private_driver d.private_driver) m
        → Kept phase (do r ← m; with_statement sys (together d c t) r)
    statement-Kept phase d c t connection_phase o h g cs ts =
        Ensures-bind _ ts λ r shares. Ensures.returns (_, parts _ _ h g cs shares)

    -- A session in which every driver in use is the one that the database has, loaded with the functions
    -- that adbc.h requires, stays so under every call that is made in the order of adbc.h, where a
    -- stream is bound only with a driver that has `StatementBindStream`. The call
    -- returns: it does not call NULL, use a driver that was deleted, or take the driver's data for the
    -- manager's. The driver is assumed to set `private_data` as the manager expects of it where its
    -- `DatabaseNew` or `ConnectionNew` fails and after its `ConnectionRelease`.
    pub perform-Sound :
        (op : Operation sys) (phase : Phase) (s : Session sys) (w : World)
        → Sound sys phase s
        → Permits sys op phase s
        → Ensures Never (λ r. (phase' : Phase) × Sound sys phase' r.1) (perform sys op s w)
    unfolding perform Forward.statement_new Forward.statement_release
    perform-Sound (Operation.on_database op) phase s w h (Permits.use_database allowed ne) =
        used-Kept op phase s.database s.connection s.statement w h.connection_phase
          h.connection_driver h.database_in allowed ne h.connection_in h.connection_shares
          h.statement_shares
    perform-Sound (Operation.on_database op) phase s w h (Permits.drop_database cn tn) =
        released-Kept phase s.database s.connection s.statement w h.connection_phase
          h.connection_driver h.database_in h.connection_in cn tn
    perform-Sound (Operation.set_connection_option key value) phase s w h p =
        connection-Kept (Safe.Operation.set_option key value) phase s.database s.connection
          s.statement w h.connection_phase h.connection_driver (λ asked e. cc)
          Safe.Allowed.configure h.database_in h.connection_in h.connection_shares
          h.statement_shares
    perform-Sound Operation.init_connection phase s w h (Permits.open_connection cn) =
        connection-Kept (Safe.Operation.init s.database.private_driver) phase s.database
          s.connection s.statement w h.connection_phase h.connection_driver (λ asked e. cc)
          (start-Allowed _ h.connection_in cn (database-Callable h.database_in)) h.database_in
          h.connection_in h.connection_shares h.statement_shares
    perform-Sound Operation.release_connection phase s w h p =
        connection-Kept Safe.Operation.release phase s.database s.connection s.statement w
          h.connection_phase h.connection_driver (λ asked e. cc) Safe.Allowed.drop h.database_in
          h.connection_in h.connection_shares h.statement_shares
    perform-Sound Operation.new_statement phase s w h p =
        statement-Kept phase s.database s.connection s.statement h.connection_phase
          h.connection_driver h.database_in h.connection_in h.connection_shares
          (new_statement-Ensures s.connection.private_driver s.statement w _
            (λ driver e.
              shared-Callable sys h.database_in h.connection_shares driver
                (sym (driver-IsIn h.connection_in) ∙ e))
            (rw (driver-IsIn h.connection_in) h.connection_shares) h.statement_shares)
    perform-Sound Operation.release_statement phase s w h p =
        statement-Kept phase s.database s.connection s.statement h.connection_phase
          h.connection_driver h.database_in h.connection_in h.connection_shares
          (release_statement-Ensures s.statement.private_driver s.statement w _
            (shared-Callable sys h.database_in h.statement_shares) h.statement_shares)
    perform-Sound (Operation.request q) phase s w h (Permits.ask_driver serves) =
        Ensures-bind _
          (ask-Ensures sys q s.connection s.statement w
            (λ driver e.
              shared-Callable sys h.database_in h.connection_shares driver
                (sym (driver-IsIn h.connection_in) ∙ e))
            (shared-Callable sys h.database_in h.statement_shares) serves)
          λ r ok. Ensures.returns (phase, h)
