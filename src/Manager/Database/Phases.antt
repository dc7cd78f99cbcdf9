-- ===== src/Manager/Database/Phases.antt =====
-- The life of a database of the driver manager as a state machine: its phases, the calls that adbc.h
-- allows in each, and where a call leads.
use arrow_adbc.Base.{ℕ, ◌≡◌, ◌≢◌, true, false, none, some, List}
use arrow_adbc.Adbc.{StatusCode, Ensures}
use arrow_adbc.Manager.System.{System, Call}
use arrow_adbc.Manager.Database.{
  Driver, TempDatabase, PrivateData, null, temp, Database, Ended, database_set_option,
  database_set_init_func, database_init, database_release,
}
use arrow_adbc.Manager.Database.Callable.{Callable}

abbrev pub Never : StatusCode → Type 0
Never status = ⊥

-- Where a database is: being configured, in use with a driver, or neither.
pub data Phase : Type 0 where
  configured running empty : Phase

module _ (sys : System) where
  open sys use {World, InitFunc}

  pub data IsIn : Phase → Database sys → Type 0 where
    configured :
        (t : TempDatabase sys)
        → IsIn Phase.configured (record { private_data = temp t; private_driver = none })
    running :
        {driver : Driver} (priv : PrivateData sys)
        → Callable driver
        → IsIn Phase.running (record { private_data = priv; private_driver = some driver })
    empty : IsIn Phase.empty (record { private_data = null; private_driver = none })

  pub data Operation : Type 0 where
    set_option : List ℕ → List ℕ → Operation
    set_init_func : InitFunc → Operation
    init release : Operation

  abbrev pub perform : Operation → Database sys → World → Ended sys
  perform (set_option key value) d w = database_set_option sys key value d w
  perform (set_init_func f) d w = database_set_init_func sys f d w
  perform init d w = database_init sys d w
  perform release d w = database_release sys d w

  -- The calls that adbc.h allows: a database is configured before it is used, and initialised once.
  pub data Allowed : Operation → Phase → Type 0 where
    configure : {key value : List ℕ} → Allowed (set_option key value) Phase.configured
    change : {key value : List ℕ} → Allowed (set_option key value) Phase.running
    choose : {f : InitFunc} → Allowed (set_init_func f) Phase.configured
    too_late : {f : InitFunc} → Allowed (set_init_func f) Phase.running
    start : Allowed init Phase.configured
    not_made : Allowed init Phase.empty
    drop : {phase : Phase} → Allowed release phase

  -- What an operation in a phase ends with, and the phase after it.
  pub data Moves : Operation → Phase → StatusCode → Phase → Type 0 where
    kept :
        {key value : List ℕ} {status : StatusCode} {phase : Phase}
        → Moves (set_option key value) phase status phase
    chosen :
        {f : InitFunc} → Moves (set_init_func f) Phase.configured StatusCode.ok Phase.configured
    refused :
        {f : InitFunc}
        → Moves (set_init_func f) Phase.running StatusCode.invalid_state Phase.running
    started : {status : StatusCode} → Moves init Phase.configured status Phase.running
    failed_to_start :
        {status : StatusCode} {phase : Phase}
        → status ≢ StatusCode.ok
        → Moves init Phase.configured status phase
    never_made : Moves init Phase.empty StatusCode.invalid_state Phase.empty
    dropped : {phase : Phase} {status : StatusCode} → Moves release phase status Phase.empty

  -- A call of `AdbcDatabaseInit` after which the database is still being configured changes nothing in it.
  abbrev pub Keeps : Operation → Phase → Database sys → Database sys → Type 0
  Keeps init Phase.configured d d' = d' ≡ d
  Keeps init Phase.running d d' = Unit
  Keeps init Phase.empty d d' = Unit
  Keeps release phase d d' = Unit
  Keeps (set_option key value) phase d d' = Unit
  Keeps (set_init_func f) phase d d' = Unit

  abbrev pub Lands : Operation → Phase → Database sys → StatusCode × Database sys × World → Type 0
  Lands op phase d (status, d', w) =
      (phase' : Phase) × IsIn phase' d' × Moves op phase status phase' × Keeps op phase' d d'

  -- A driver whose `DatabaseNew` fails leaves `private_data` as it was, NULL.
  pub record Conventions : Type 0 where
    pub new_failed :
        (w w' : World) (status : StatusCode)
        → sys.database Call.new false w ≡ (status, true, w')
        → status ≡ StatusCode.ok

  abbrev pub Ends : Operation → Phase → Database sys → Ended sys → Type 0
  Ends op phase d m = Ensures Never (Lands op phase d) m
