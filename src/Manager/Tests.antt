-- ===== src/Manager/Tests.antt =====
-- Tests of the driver manager on the driver of `Toy`.
use arrow_adbc.Base.{
  ℕ, ◌≡◌, ◌≢◌, ◌∙◌, ap, refl, Bool, true, false, Option, none, some, List, [], ◌∷◌, codes,
}
use arrow_adbc.Adbc.{StatusCode, done, failed, Ensures, ◌>>=◌}
use arrow_adbc.Manager.FileName.{full_driver_name, full_driver_name-twice}
use arrow_adbc.Manager.Table.{Function, Pointer, Table, set_by, load_driver}
use arrow_adbc.Manager.Table.Complete.{
  Kind, kind, completed, load_driver-completed, load_driver-missing,
}
use arrow_adbc.Manager.Options.{Options, set_entry}
use arrow_adbc.Manager.System.{Call}
use arrow_adbc.Manager.Database.{
  Driver, TempDatabase, null, temp, owned, Database, loaded, load_from_init_func, call, fresh,
  checked, call_pointer, function_of, is_set, left, PrivateData, database_new, database_init,
  database_release, database_set_option, database_set_init_func,
}
use arrow_adbc.Manager.Database.Configure.{
  last_value, configure, configured, kept, configure-last_value,
}
use arrow_adbc.Manager.Database.Replay.{run, option_calls, finish, database_init-run}
use arrow_adbc.Manager.Database.Phases.{Never, Phase, IsIn, Operation, perform, Allowed, Lands}
use arrow_adbc.Manager.Database.Safe.{perform-Lands}
use arrow_adbc.Manager.Database.Reached.{Reachable, Reachable-release}
use arrow_adbc.Manager.Database.Callable.{Callable, Serves}
use arrow_adbc.Manager.Connection as Connection
use arrow_adbc.Manager.Connection.{Connection}
use arrow_adbc.Manager.Connection.Safe as Safe
use arrow_adbc.Manager.Connection.Safe.{perform-Moves}
use arrow_adbc.Manager.Session as Session
use arrow_adbc.Manager.Session.Shares.{Shares, Sound}
use arrow_adbc.Manager.Session.Sound.{perform-Sound}
use arrow_adbc.Manager.Toy.{toy_system, sets, databases, connections}

abbrev file_name : List ℕ
file_name = codes "toy"

full_driver_name-twice_example :
    (full : List ℕ) × (full ≡ codes "libtoy.so")
    × (full_driver_name file_name ≡ some full)
    × (full_driver_name full ≡ some full)
full_driver_name-twice_example = full_driver_name-twice file_name refl

-- A driver without the functions of transactions, and one without statements.
abbrev no_transactions : Function → Bool
no_transactions Function.connection_commit = false
no_transactions Function.connection_rollback = false
no_transactions f = true

abbrev no_statements : Function → Bool
no_statements Function.statement_new = false
no_statements f = true

load_driver-missing_example :
    load_driver StatusCode.ok (set_by no_statements) ≡ failed StatusCode.internal
load_driver-missing_example =
    load_driver-missing (set_by no_statements) Function.statement_new refl refl

abbrev settings : Options
settings =
    (codes "driver", codes "old")
    ∷ (codes "uri", codes "a")
    ∷ (codes "driver", codes "toy")
    ∷ (codes "uri", codes "b")
    ∷ []

abbrev kept_value : List ℕ → Option (List ℕ)
kept_value key = last_value key settings (kept toy_system key (fresh toy_system))

configure-last_value_example :
    (t : TempDatabase toy_system) × (configure toy_system settings (database_new toy_system) 0
      ≡ done (StatusCode.ok, configured toy_system t, 0))
    × ((key : List ℕ) → kept toy_system key t ≡ kept_value key)
configure-last_value_example = configure-last_value toy_system settings 0

kept_driver : kept_value (codes "driver") ≡ some (codes "toy")
unfolding last_value
kept_driver = refl

kept_entrypoint : kept_value (codes "entrypoint") ≡ some (codes "AdbcDriverInit")
unfolding last_value
kept_entrypoint = refl

sets_required : (f : Function) → kind f ≡ Kind.required → set_by sets f ≢ Pointer.null
sets_required f e h = cc

toy_loaded :
    (t' : Table) × (load_driver StatusCode.ok (set_by sets) ≡ done t')
    × ((f : Function) → t' f ≡ completed (kind f) Pointer.provided)
toy_loaded = load_driver-completed (set_by sets) sets_required

abbrev toy_driver : Driver
toy_driver = record { table = toy_loaded.0; own_release = true }

toy_provides : (f : Function) → toy_loaded.0 f ≡ Pointer.provided
toy_provides f = toy_loaded.2 f ∙ kept_pointer (kind f)
  where
    kept_pointer : (k : Kind) → completed k Pointer.provided ≡ Pointer.provided
    kept_pointer Kind.required = refl
    kept_pointer Kind.optional = refl
    kept_pointer Kind.unchecked = refl

abbrev chosen : TempDatabase toy_system
chosen = record {
  options = (codes "uri", codes "b") ∷ [];
  driver = [];
  entrypoint = codes "AdbcDriverInit";
  init_func = some 7;
}

toy_loads : load_from_init_func toy_system 7 0 ≡ loaded toy_driver 1
toy_loads = ap (checked toy_system true 1) toy_loaded.1

toy_call :
    (c : Call) (priv : PrivateData toy_system) (w : ℕ)
    → call toy_system toy_driver c priv w
      ≡ done (left toy_system (toy_system.database c (is_set toy_system priv) w))
unfolding call
toy_call c priv w =
    ap (λ pointer. call_pointer toy_system pointer c priv w)
      (toy_provides (function_of toy_system c))

database_init-run_example :
    database_init toy_system (record { private_data = temp chosen; private_driver = none }) 0 ≡ (do
      r ← run toy_system toy_driver (option_calls toy_system chosen.options) owned 2
      finish toy_system toy_driver r)
database_init-run_example =
    database_init-run toy_system toy_driver chosen 7 owned 0 1 2 refl toy_loads
      (toy_call Call.new null 1)

perform-Lands_example :
    Ensures Never
      (Lands toy_system Operation.init Phase.configured (configured toy_system chosen))
      (perform toy_system Operation.init (configured toy_system chosen) 0)
perform-Lands_example =
    perform-Lands toy_system databases Operation.init Phase.configured
      (configured toy_system chosen) 0 (IsIn.configured chosen) Allowed.start

initialised :
    database_init toy_system (configured toy_system chosen) 0
    ≡ done (StatusCode.ok, record { private_data = owned; private_driver = some toy_driver }, 4)
unfolding run
initialised =
    database_init-run_chosen
    ∙ rw (toy_call (Call.set_option (codes "uri") (codes "b")) owned 2, toy_call Call.init owned 3)
  where
    database_init-run_chosen : database_init toy_system (configured toy_system chosen) 0 ≡ (do
      r ← run toy_system toy_driver (option_calls toy_system chosen.options) owned 2
      finish toy_system toy_driver r)
    database_init-run_chosen =
        database_init-run toy_system toy_driver chosen 7 owned 0 1 2 refl toy_loads
          (toy_call Call.new null 1)

abbrev open_database : Database toy_system
open_database = record { private_data = owned; private_driver = some toy_driver }

named : Reachable toy_system (configured toy_system (record chosen { init_func = none })) 0
unfolding database_new database_set_option set_entry
named =
    Reachable.after (Operation.set_option (codes "uri") (codes "b")) Reachable.made
      (IsIn.configured (fresh toy_system)) Allowed.configure refl

reached : Reachable toy_system open_database 4
unfolding database_set_init_func
reached =
    Reachable.after Operation.init
      (Reachable.after (Operation.set_init_func 7) named
        (IsIn.configured (record chosen { init_func = none })) Allowed.choose refl)
      (IsIn.configured chosen) Allowed.start initialised

Reachable-release_example :
    (status : StatusCode) × (w' : ℕ) × (database_release toy_system open_database 4
      ≡ done (status, record { private_data = null; private_driver = none }, w'))
Reachable-release_example = Reachable-release toy_system databases reached

toy-Callable : Callable toy_driver
toy-Callable f = rw (toy_provides f) (served (kind f))
  where
    served : (k : Kind) → Serves k Pointer.provided
    served Kind.required = refl
    served Kind.optional = λ e. cc
    served Kind.unchecked = tt

abbrev ready : Connection
ready = record {
  private_data = Connection.PrivateData.temp ((codes "k", codes "v") ∷ []);
  private_driver = none;
}

perform-Moves_example :
    Ensures Never
      (Safe.Lands toy_system (Safe.Operation.init (some toy_driver)) Phase.configured none ready)
      (Safe.perform toy_system (Safe.Operation.init (some toy_driver)) ready 0)
perform-Moves_example =
    perform-Moves toy_system connections (Safe.Operation.init (some toy_driver)) Phase.configured
      none ready 0 (Safe.IsIn.configured ((codes "k", codes "v") ∷ []))
      (Safe.Allowed.start toy-Callable)

abbrev session : Session.Session toy_system
session = record {
  database = open_database;
  connection = ready;
  statement = record { private_driver = none };
}

session-Sound : Sound toy_system Phase.running session
session-Sound = record {
  connection_phase = Phase.configured;
  connection_driver = none;
  database_in = IsIn.running owned toy-Callable;
  connection_in = Safe.IsIn.configured ((codes "k", codes "v") ∷ []);
  connection_shares = Shares.free;
  statement_shares = Shares.free;
}

perform-Sound_example :
    Ensures Never
      (λ r. (phase' : Phase) × Sound toy_system phase' r.1)
      (Session.perform toy_system Session.Operation.init_connection session 0)
perform-Sound_example =
    perform-Sound toy_system databases connections Session.Operation.init_connection Phase.running
      session 0 session-Sound (Session.Permits.open_connection refl)
