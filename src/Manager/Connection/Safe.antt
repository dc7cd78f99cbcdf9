-- ===== src/Manager/Connection/Safe.antt =====
-- The life of a connection of the driver manager as a state machine, and that its functions keep to it.
use arrow_adbc.Base.{ℕ, ◌≡◌, ◌≢◌, refl, Bool, true, false, Option, none, some, List, [], ◌∷◌}
use arrow_adbc.Adbc.{StatusCode, ◌>>=◌, Ensures}
use arrow_adbc.Manager.Table.{Function, Pointer}
use arrow_adbc.Manager.Table.Complete.{Kind, kind}
use arrow_adbc.Manager.Options.{Options}
use arrow_adbc.Manager.System.{System, Call}
use arrow_adbc.Manager.Database.{Driver}
use arrow_adbc.Manager.Database.Callable.{Callable, Serves-ne-null}
use arrow_adbc.Manager.Database.Phases.{Never, Phase}
use arrow_adbc.Manager.Connection.{
  PrivateData, null, temp, owned, Connection, function_of, is_set, Ended, left, call_pointer, call,
  after_option, replay, after_new, forwarded, connection_set_option, connection_init,
  connection_release,
}

pub data IsIn : Phase → Option Driver → Connection → Type 0 where
  configured :
      (options : Options)
      → IsIn Phase.configured none (record { private_data = temp options; private_driver = none })
  running :
      {driver : Driver} (priv : PrivateData)
      → Callable driver
      → IsIn Phase.running
          (some driver)
          (record { private_data = priv; private_driver = some driver })
  empty : IsIn Phase.empty none (record { private_data = null; private_driver = none })

pub data Operation : Type 0 where
  set_option : List ℕ → List ℕ → Operation
  init : Option Driver → Operation
  release : Operation

-- The calls that adbc.h allows: a connection is initialised once, with a database that is ready or not.
pub data Allowed : Operation → Phase → Type 0 where
  configure : {key value : List ℕ} {phase : Phase} → Allowed (set_option key value) phase
  start : {driver : Driver} → Callable driver → Allowed (init (some driver)) Phase.configured
  not_ready : Allowed (init none) Phase.configured
  not_made : {database : Option Driver} → Allowed (init database) Phase.empty
  drop : {phase : Phase} → Allowed release phase

-- What an operation in a phase ends with, and the phase and the driver after it, given those before.
pub data Moves
    : Operation → Phase → Option Driver → StatusCode → Phase → Option Driver → Type 0 where
  kept :
      {key value : List ℕ} {status : StatusCode} {phase : Phase} {driver : Option Driver}
      → Moves (set_option key value) phase driver status phase driver
  refused :
      Moves (init none) Phase.configured none StatusCode.invalid_argument Phase.configured none
  started :
      {driver : Driver} {status : StatusCode}
      → Moves (init (some driver)) Phase.configured none status Phase.running (some driver)
  failed_to_start :
      {driver : Driver} {status : StatusCode}
      → status ≢ StatusCode.ok
      → Moves (init (some driver)) Phase.configured none status Phase.empty none
  never_made :
      {database : Option Driver}
      → Moves (init database) Phase.empty none StatusCode.invalid_state Phase.empty none
  dropped :
      {phase : Phase} {driver : Option Driver} {status : StatusCode}
      → Moves release phase driver status Phase.empty none

module _ (sys : System) where
  open sys use {World}

  abbrev pub perform : Operation → Connection → World → Ended sys
  perform (set_option key value) c w = connection_set_option sys key value c w
  perform (init database) c w = connection_init sys database c w
  perform release c w = connection_release sys c w

  -- A call of `AdbcConnectionInit` after which the connection is still being configured changes nothing
  -- in it.
  abbrev pub Keeps : Operation → Phase → Connection → Connection → Type 0
  Keeps (init database) Phase.configured c c' = c' ≡ c
  Keeps (init database) Phase.running c c' = Unit
  Keeps (init database) Phase.empty c c' = Unit
  Keeps release phase c c' = Unit
  Keeps (set_option key value) phase c c' = Unit

  abbrev pub Lands :
      Operation → Phase → Option Driver → Connection → StatusCode × Connection × World → Type 0
  Lands op phase driver c (status, c', w) =
      (phase' : Phase) × (driver' : Option Driver) × IsIn phase' driver' c'
      × Moves op phase driver status phase' driver'
      × Keeps op phase' c c'

  abbrev pub Ends : Operation → Phase → Option Driver → Connection → Ended sys → Type 0
  Ends op phase driver c m = Ensures Never (Lands op phase driver c) m

  -- A driver leaves `private_data` as it was, NULL, where its `ConnectionNew` fails, and its
  -- `ConnectionRelease` sets it to NULL.
  pub record Conventions : Type 0 where
    pub new_failed :
        (w w' : World) (status : StatusCode)
        → sys.connection Call.new false w ≡ (status, true, w')
        → status ≡ StatusCode.ok
    pub released :
        (set kept : Bool) (w w' : World) (status : StatusCode)
        → sys.connection Call.release set w ≡ (status, kept, w')
        → kept ≡ false

  function_of-asked : (c : Call) → kind (function_of c) ≢ Kind.unchecked
  function_of-asked Call.new e = cc
  function_of-asked Call.init e = cc
  function_of-asked Call.release e = cc
  function_of-asked (Call.set_option key value) e = cc

  -- A call of a function that is there ends with the manager's stub, or with what the driver leaves.
  pointer-Ends :
      {op : Operation} {phase : Phase} {driver : Option Driver} (c0 : Connection)
      (pointer : Pointer) (c : Call) (priv : PrivateData) (w : World)
      (next : StatusCode × PrivateData × World → Ended sys)
      → pointer ≢ Pointer.null
      → Ends op phase driver c0 (next (StatusCode.not_implemented, priv, w))
      → ((r : StatusCode × Bool × World)
          → sys.connection c (is_set priv) w ≡ r
          → Ends op phase driver c0 (next (left sys r)))
      → Ends op phase driver c0 (do r ← call_pointer sys pointer c priv w; next r)
  pointer-Ends c0 Pointer.null c priv w next there h k = absurd (there refl)
  pointer-Ends c0 Pointer.stub c priv w next there h k = h
  pointer-Ends c0 Pointer.provided c priv w next there h k =
      k (sys.connection c (is_set priv) w) refl

  call-Ends :
      {op : Operation} {phase : Phase} {earlier : Option Driver} (c0 : Connection) (driver : Driver)
      (c : Call) (priv : PrivateData) (w : World)
      (next : StatusCode × PrivateData × World → Ended sys)
      → Callable driver
      → ((r : StatusCode × PrivateData × World) → Ends op phase earlier c0 (next r))
      → Ends op phase earlier c0 (do r ← call sys driver c priv w; next r)
  unfolding call
  call-Ends c0 driver c priv w next callable k =
      pointer-Ends c0 (driver.table (function_of c)) c priv w next
        (Serves-ne-null _ _ (function_of-asked c) (callable (function_of c))) (k _)
        (λ r e. k (left sys r))

  set_option-Ends :
      (key value : List ℕ) (phase : Phase) (driver : Option Driver) (c : Connection) (w : World)
      → IsIn phase driver c
      → Ends (set_option key value) phase driver c (connection_set_option sys key value c w)
  unfolding connection_set_option
  set_option-Ends key value phase d c w (IsIn.configured options) =
      Ensures.returns (_, _, IsIn.configured _, Moves.kept, tt)
  set_option-Ends key value phase d c w (IsIn.running null callable) =
      Ensures.returns (_, _, IsIn.running _ callable, Moves.kept, tt)
  set_option-Ends key value phase d c w (IsIn.running {driver} (temp options) callable) =
      call-Ends c driver (Call.set_option key value) (temp options) w (forwarded sys (some driver))
        callable λ r. Ensures.returns (_, _, IsIn.running _ callable, Moves.kept, tt)
  set_option-Ends key value phase d c w (IsIn.running {driver} owned callable) =
      call-Ends c driver (Call.set_option key value) owned w (forwarded sys (some driver)) callable
        λ r. Ensures.returns (_, _, IsIn.running _ callable, Moves.kept, tt)
  set_option-Ends key value phase d c w IsIn.empty =
      Ensures.returns (_, _, IsIn.empty, Moves.kept, tt)

  abbrev Starts : Driver → Connection → Ended sys → Type 0
  Starts driver c m = Ends (init (some driver)) Phase.configured none c m

  after_option-Ends :
      (c0 : Connection) (driver : Driver) (rest : PrivateData → World → Ended sys)
      (r : StatusCode × PrivateData × World)
      → Callable driver
      → ((priv : PrivateData) (w : World) → Starts driver c0 (rest priv w))
      → Starts driver c0 (after_option sys driver rest r)
  after_option-Ends c0 driver rest (StatusCode.ok, priv, w) callable later = later priv w
  after_option-Ends c0 driver rest (status, priv, w) callable later =
      Ensures.returns (_, _, IsIn.running _ callable, Moves.started, tt)

  replay-Ends :
      (c0 : Connection) (driver : Driver) (options : Options) (priv : PrivateData) (w : World)
      → Callable driver
      → Starts driver c0 (replay sys driver options priv w)
  unfolding replay
  replay-Ends c0 driver [] priv w callable =
      call-Ends c0 driver Call.init priv w (forwarded sys (some driver)) callable
        λ r. Ensures.returns (_, _, IsIn.running _ callable, Moves.started, tt)
  replay-Ends c0 driver ((key, value) ∷ options) priv w callable =
      call-Ends c0 driver (Call.set_option key value) priv w
        (after_option sys driver (replay sys driver options)) callable
        λ r.
          after_option-Ends c0 driver (replay sys driver options) r callable
            λ priv' w'. replay-Ends c0 driver options priv' w' callable

  new-Ends :
      Conventions
      → (c0 : Connection) (driver : Driver) (options : Options) (w : World) → Callable driver
      → Starts driver c0
          (do r ← call sys driver Call.new null w; after_new sys none driver options r)
  unfolding call
  new-Ends follows c0 driver options w callable =
      pointer-Ends c0 (driver.table Function.connection_new) Call.new null w
        (after_new sys none driver options)
        (Serves-ne-null Kind.required _ (λ e. cc) (callable Function.connection_new))
        (Ensures.returns (_, _, IsIn.empty, Moves.failed_to_start (λ e. cc), tt)) made
    where
      failed_set :
          (status : StatusCode) (w' : World)
          → status ≡ StatusCode.ok
          → Starts driver c0 (after_new sys none driver options (status, owned, w'))
      failed_set StatusCode.ok w' e = replay-Ends c0 driver options owned w' callable
      failed_set other w' e = cc

      made :
          (r : StatusCode × Bool × World)
          → sys.connection Call.new false w ≡ r
          → Starts driver c0 (after_new sys none driver options (left sys r))
      made (StatusCode.ok, false, w') e = replay-Ends c0 driver options null w' callable
      made (status, false, w') e =
          Ensures.returns (_, _, IsIn.empty, Moves.failed_to_start (λ e. cc), tt)
      made (status, true, w') e = failed_set status w' (follows.new_failed w w' status e)

  init-Ends :
      Conventions
      → (database : Option Driver) (phase : Phase) (driver : Option Driver) (c : Connection)
        (w : World)
      → IsIn phase driver c
      → Allowed (init database) phase
      → Ends (init database) phase driver c (connection_init sys database c w)
  unfolding connection_init
  init-Ends follows database phase d c w (IsIn.configured options)
        (Allowed.start {driver} callable) =
      new-Ends follows c driver (sys.order options) w callable
  init-Ends follows database phase d c w (IsIn.configured options) Allowed.not_ready =
      Ensures.returns (_, _, IsIn.configured _, Moves.refused, refl)
  init-Ends follows database phase d c w (IsIn.running priv callable) h = elim h [ ]
  init-Ends follows database phase d c w IsIn.empty h =
      Ensures.returns (_, _, IsIn.empty, Moves.never_made, tt)

  release-Ends :
      Conventions
      → (phase : Phase) (driver : Option Driver) (c : Connection) (w : World) → IsIn phase driver c
      → Ends release phase driver c (connection_release sys c w)
  unfolding connection_release call
  release-Ends follows phase d c w (IsIn.configured options) =
      Ensures.returns (_, _, IsIn.empty, Moves.dropped, tt)
  release-Ends follows phase d c w (IsIn.running {driver} priv callable) =
      released_by (driver.table Function.connection_release) (callable Function.connection_release)
    where
      gone :
          (r : StatusCode × Bool × World)
          → sys.connection Call.release (is_set priv) w ≡ r
          → Ends release Phase.running (some driver) c (forwarded sys none (left sys r))
      gone (status, false, w') e = Ensures.returns (_, _, IsIn.empty, Moves.dropped, tt)
      gone (status, true, w') e =
          let kept : true ≡ false = follows.released (is_set priv) true w w' status e in cc

      released_by :
          (pointer : Pointer)
          → pointer ≡ Pointer.provided
          → Ends release Phase.running
              (some driver)
              c
              (do r ← call_pointer sys pointer Call.release priv w; forwarded sys none r)
      released_by Pointer.provided e = gone (sys.connection Call.release (is_set priv) w) refl
      released_by other e = cc
  release-Ends follows phase d c w IsIn.empty =
      Ensures.returns (_, _, IsIn.empty, Moves.dropped, tt)

  -- Calls in the order that adbc.h allows never call NULL and never take the driver's data for the
  -- manager's: each returns, and the connection is in the phase, and has the driver, that the call
  -- moves to. A failed `AdbcConnectionInit` leaves it exactly as it was, in use, or empty. The database has a
  -- driver that was loaded or none. The driver is assumed to leave `private_data` alone where its
  -- `ConnectionNew` fails, and NULL after its `ConnectionRelease`.
  pub perform-Moves :
      Conventions
      → (op : Operation) (phase : Phase) (driver : Option Driver) (c : Connection) (w : World)
      → IsIn phase driver c
      → Allowed op phase
      → Ensures Never (Lands op phase driver c) (perform op c w)
  perform-Moves follows (set_option key value) phase driver c w h allowed =
      set_option-Ends key value phase driver c w h
  perform-Moves follows (init database) phase driver c w h allowed =
      init-Ends follows database phase driver c w h allowed
  perform-Moves follows release phase driver c w h allowed = release-Ends follows phase driver c w h
