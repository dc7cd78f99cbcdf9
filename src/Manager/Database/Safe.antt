-- ===== src/Manager/Database/Safe.antt =====
-- Calls of a database's functions keep to the state machine of its phases.
use arrow_adbc.Base.{ℕ, ◌≡◌, ◌≢◌, refl, Bool, true, false, Option, none, some, List, [], ◌∷◌}
use arrow_adbc.Adbc.{StatusCode, Outcome, done, failed, fault, ◌>>=◌, Ensures, Ensures-bind}
use arrow_adbc.Manager.Table.{Function, Pointer, Table, set_by, load_driver}
use arrow_adbc.Manager.Table.Complete.{Kind, kind}
use arrow_adbc.Manager.Options.{Options}
use arrow_adbc.Manager.System.{System, Call}
use arrow_adbc.Manager.Database.{
  Driver, TempDatabase, PrivateData, null, temp, owned, Database, Ended, checked, function_of,
  call_pointer, call, replay, after_option, option_failed, left, after_new, after_loading,
  after_init, after_open, after_symbol, init_temp, init_by_name, load_by_name, database_set_option,
  database_set_init_func, database_init, database_release,
}
use arrow_adbc.Manager.Database.Callable.{
  Callable, Serves, Serves-ne-null, load_driver-Serves, load_driver-Ensures, open_driver-total,
}
use arrow_adbc.Manager.Database.Phases.{
  Never, Phase, IsIn, Operation, set_option, set_init_func, init, release, perform, Allowed, Moves,
  Lands, Conventions, Ends,
}

module _ (sys : System) where
  open sys use {World, InitFunc}

  abbrev before : TempDatabase sys → Database sys
  before t = record { private_data = temp t; private_driver = none }

  function_of-asked : (c : Call) → kind (function_of sys c) ≢ Kind.unchecked
  function_of-asked Call.new e = cc
  function_of-asked Call.init e = cc
  function_of-asked Call.release e = cc
  function_of-asked (Call.set_option key value) e = cc

  call_pointer-Ensures :
      (pointer : Pointer) (c : Call) (priv : PrivateData sys) (w : World)
      → pointer ≢ Pointer.null
      → Ensures Never (λ r. Unit {0}) (call_pointer sys pointer c priv w)
  call_pointer-Ensures Pointer.null c priv w there = absurd (there refl)
  call_pointer-Ensures Pointer.stub c priv w there = Ensures.returns tt
  call_pointer-Ensures Pointer.provided c priv w there = Ensures.returns tt

  pub call-Ensures :
      (driver : Driver) (c : Call) (priv : PrivateData sys) (w : World)
      → Callable driver
      → Ensures Never (λ r. Unit {0}) (call sys driver c priv w)
  unfolding call
  call-Ensures driver c priv w callable =
      call_pointer-Ensures (driver.table (function_of sys c)) c priv w
        (Serves-ne-null _ _ (function_of-asked c) (callable (function_of sys c)))

  set_option-Ends :
      (key value : List ℕ) (phase : Phase) (d : Database sys) (w : World)
      → IsIn sys phase d
      → Allowed sys (set_option key value) phase
      → Ends sys (set_option key value) phase d (database_set_option sys key value d w)
  unfolding database_set_option
  set_option-Ends key value phase d w (IsIn.configured t) h =
      Ensures.returns (_, IsIn.configured _, Moves.kept, tt)
  set_option-Ends key value phase d w (IsIn.running {driver = driver} priv callable) h =
      Ensures-bind _ (call-Ensures driver (Call.set_option key value) priv w callable)
        λ r ok. Ensures.returns (_, IsIn.running _ callable, Moves.kept, tt)
  set_option-Ends key value phase d w IsIn.empty h = elim h [ ]

  option_failed-Ends :
      {d : Database sys} (driver : Driver) (status : StatusCode) (priv : PrivateData sys)
      (w : World)
      → Callable driver
      → status ≢ StatusCode.ok
      → Ends sys init Phase.configured d
          (do r ← call sys driver Call.release priv w; option_failed sys driver status r)
  option_failed-Ends driver status priv w callable bad =
      Ensures-bind _ (call-Ensures driver Call.release priv w callable)
        λ r ok. Ensures.returns (_, IsIn.empty, Moves.failed_to_start bad, tt)

  after_option-Ends :
      {d : Database sys} (driver : Driver) (rest : PrivateData sys → World → Ended sys)
      (r : StatusCode × PrivateData sys × World)
      → Callable driver
      → ((priv : PrivateData sys) (w : World) → Ends sys init Phase.configured d (rest priv w))
      → Ends sys init Phase.configured d (after_option sys driver rest r)
  after_option-Ends driver rest (StatusCode.ok, priv, w) callable later = later priv w
  after_option-Ends driver rest (status, priv, w) callable later =
      option_failed-Ends driver status priv w callable (λ e. cc)

  replay-Ends :
      {d : Database sys} (driver : Driver) (options : Options) (priv : PrivateData sys) (w : World)
      → Callable driver
      → Ends sys init Phase.configured d (replay sys driver options priv w)
  unfolding replay
  replay-Ends driver [] priv w callable =
      Ensures-bind _ (call-Ensures driver Call.init priv w callable)
        λ r ok. Ensures.returns (_, IsIn.running _ callable, Moves.started, tt)
  replay-Ends driver ((key, value) ∷ options) priv w callable =
      Ensures-bind _ (call-Ensures driver (Call.set_option key value) priv w callable) λ r ok.
        after_option-Ends driver (replay sys driver options) r callable
          λ priv' w'. replay-Ends driver options priv' w' callable

  module _ (follows : Conventions sys) where
    new_pointer-Ends :
        {d : Database sys} (driver : Driver) (options : Options) (w : World) (pointer : Pointer)
        → pointer ≢ Pointer.null
        → Callable driver
        → Ends sys init Phase.configured d
            (do r ← call_pointer sys pointer Call.new null w; after_new sys driver options r)
    new_pointer-Ends driver options w Pointer.null there callable = absurd (there refl)
    new_pointer-Ends driver options w Pointer.stub there callable =
        Ensures.returns (_, IsIn.empty, Moves.failed_to_start (λ e. cc), tt)
    new_pointer-Ends {d} driver options w Pointer.provided there callable =
        new_left (sys.database Call.new false w) refl
      where
        failed_set :
            (status : StatusCode) (w' : World)
            → status ≡ StatusCode.ok
            → Ends sys init Phase.configured d (after_new sys driver options (status, owned, w'))
        failed_set StatusCode.ok w' e = replay-Ends driver options owned w' callable
        failed_set other w' e = cc

        new_left :
            (r : StatusCode × Bool × World)
            → sys.database Call.new false w ≡ r
            → Ends sys init Phase.configured d (after_new sys driver options (left sys r))
        new_left (StatusCode.ok, false, w') e = replay-Ends driver options null w' callable
        new_left (status, false, w') e =
            Ensures.returns (_, IsIn.empty, Moves.failed_to_start (λ e. cc), tt)
        new_left (status, true, w') e = failed_set status w' (follows.new_failed w w' status e)

    checked-Ends :
        (t : TempDatabase sys) (own : Bool) (w : World) (m : Outcome Table)
        → Ensures (λ status. status ≢ StatusCode.ok) (λ t'. Unit {0}) m
        → ((t' : Table) → m ≡ done t' → (f : Function) → Serves (kind f) (t' f))
        → Ends sys init Phase.configured (before t) (after_loading sys t (checked sys own w m))
    unfolding call
    checked-Ends t own w (done t') h callable =
        new_pointer-Ends (record { table = t'; own_release = own }) (sys.order t.options) w
          (t' Function.database_new)
          (Serves-ne-null Kind.required _ (λ e. cc) (callable t' refl Function.database_new))
          (callable t' refl)
    checked-Ends t own w (failed status) (Ensures.raises bad) callable =
        Ensures.returns (_, IsIn.configured t, Moves.failed_to_start bad, refl)
    checked-Ends t own w fault h callable = elim h [ ]

    loaded-Ends :
        (t : TempDatabase sys) (r : StatusCode × (Function → Bool) × Bool × World)
        → Ends sys init Phase.configured (before t) (after_loading sys t (after_init sys r))
    loaded-Ends t (status, set, own, w) =
        checked-Ends t own w (load_driver status (set_by set))
          (load_driver-Ensures status (set_by set)) (load_driver-Serves status set)

    opened-Ends :
        (t : TempDatabase sys) (entrypoint : List ℕ) (r : Option (Option sys.Handle × World))
        → ((o : Option sys.Handle × World) × (r ≡ some o))
        → Ends sys init Phase.configured
            (before t)
            (after_loading sys t (after_open sys entrypoint r))
    opened-Ends t entrypoint none (o, e) = cc
    opened-Ends t entrypoint (some (none, w)) e =
        Ensures.returns (_, IsIn.configured t, Moves.failed_to_start (λ e. cc), refl)
    opened-Ends t entrypoint (some (some h, w)) e = found (sys.dlsym h entrypoint w)
      where
        found :
            (r : Option InitFunc × World)
            → Ends sys init Phase.configured (before t) (after_loading sys t (after_symbol sys r))
        found (none, w') =
            Ensures.returns (_, IsIn.configured t, Moves.failed_to_start (λ e. cc), refl)
        found (some f, w') = loaded-Ends t (sys.init_func f w')

    temp-Ends :
        (t : TempDatabase sys) (f : Option InitFunc) (w : World)
        → Ends sys init Phase.configured (before t) (init_temp sys t f none w)
    unfolding load_by_name
    temp-Ends t (some f) w = loaded-Ends t (sys.init_func f w)
    temp-Ends t none w = by_name t.driver
      where
        by_name :
            (name : List ℕ)
            → Ends sys init Phase.configured (before t) (init_by_name sys t name none w)
        by_name [] = Ensures.returns (_, IsIn.configured t, Moves.failed_to_start (λ e. cc), refl)
        by_name (c ∷ cs) = opened-Ends t t.entrypoint _ (open_driver-total sys.dlopen (c ∷ cs) w)

  init-Ends :
      Conventions sys
      → (phase : Phase) (d : Database sys) (w : World) → IsIn sys phase d
      → Allowed sys init phase
      → Ends sys init phase d (database_init sys d w)
  unfolding database_init
  init-Ends follows phase d w (IsIn.configured t) h = temp-Ends follows t t.init_func w
  init-Ends follows phase d w (IsIn.running priv callable) h = elim h [ ]
  init-Ends follows phase d w IsIn.empty h = Ensures.returns (_, IsIn.empty, Moves.never_made, tt)

  set_init_func-Ends :
      (f : InitFunc) (phase : Phase) (d : Database sys) (w : World)
      → IsIn sys phase d
      → Allowed sys (set_init_func f) phase
      → Ends sys (set_init_func f) phase d (database_set_init_func sys f d w)
  unfolding database_set_init_func
  set_init_func-Ends f phase d w (IsIn.configured t) h =
      Ensures.returns (_, IsIn.configured _, Moves.chosen, tt)
  set_init_func-Ends f phase d w (IsIn.running priv callable) h =
      Ensures.returns (_, IsIn.running priv callable, Moves.refused, tt)
  set_init_func-Ends f phase d w IsIn.empty h = elim h [ ]

  release-Ends :
      (phase : Phase) (d : Database sys) (w : World)
      → IsIn sys phase d
      → Ends sys release phase d (database_release sys d w)
  unfolding database_release
  release-Ends phase d w (IsIn.configured t) = Ensures.returns (_, IsIn.empty, Moves.dropped, tt)
  release-Ends phase d w (IsIn.running {driver = driver} priv callable) =
      Ensures-bind _ (call-Ensures driver Call.release priv w callable)
        λ r ok. Ensures.returns (_, IsIn.empty, Moves.dropped, tt)
  release-Ends phase d w IsIn.empty = Ensures.returns (_, IsIn.empty, Moves.dropped, tt)

  -- Calls in the order that adbc.h allows never call NULL, never throw and never take the driver's data
  -- for the manager's: each returns, and the database is in the phase that the call moves to. A failed
  -- `AdbcDatabaseInit` leaves it exactly as it was configured, in use, or empty. The driver is assumed to leave
  -- `private_data` alone where its `DatabaseNew` fails.
  pub perform-Lands :
      Conventions sys
      → (op : Operation sys) (phase : Phase) (d : Database sys) (w : World) → IsIn sys phase d
      → Allowed sys op phase
      → Ensures Never (Lands sys op phase d) (perform sys op d w)
  perform-Lands follows (set_option key value) phase d w h allowed =
      set_option-Ends key value phase d w h allowed
  perform-Lands follows (set_init_func f) phase d w h allowed =
      set_init_func-Ends f phase d w h allowed
  perform-Lands follows init phase d w h allowed = init-Ends follows phase d w h allowed
  perform-Lands follows release phase d w h allowed = release-Ends phase d w h

  -- A second `AdbcDatabaseInit` after one that worked takes the driver's data for a `TempDatabase`.
  init_again :
      (driver : Driver) (w : World)
      → database_init sys (record { private_data = owned; private_driver = some driver }) w ≡ fault
  unfolding database_init
  init_again driver w = refl
