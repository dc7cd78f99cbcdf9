-- ===== src/Manager/Database/Replay.antt =====
-- The calls that a driver sees from `AdbcDatabaseInit` of the driver manager.
use arrow_adbc.Base.{◌≡◌, ◌∙◌, ap, refl, Bool, true, false, none, some, List, [], ◌∷◌}
use arrow_adbc.Adbc.{StatusCode, Outcome, done, failed, fault, ◌>>=◌}
use arrow_adbc.Manager.Options.{Options}
use arrow_adbc.Manager.System.{System, Call}
use arrow_adbc.Manager.Database.{
  Driver, TempDatabase, PrivateData, null, temp, Ended, loaded, call, option_failed, after_option,
  replay, after_new, after_loading, init_temp, load_from_init_func, database_init,
}

module _ (sys : System) where
  open sys use {World, order}

  abbrev pub option_calls : Options → List Call
  option_calls [] = []
  option_calls ((key, value) ∷ options) = Call.set_option key value ∷ option_calls options

  abbrev stop_or :
      (PrivateData sys → World → Outcome (StatusCode × PrivateData sys × World))
      → StatusCode × PrivateData sys × World
      → Outcome (StatusCode × PrivateData sys × World)
  stop_or rest (StatusCode.ok, priv, w) = rest priv w
  stop_or rest r = done r

  -- Calls of a driver in a row, as far as the first that fails.
  unfoldable pub run :
      Driver → List Call → PrivateData sys → World → Outcome (StatusCode × PrivateData sys × World)
  unfolding call
  run driver [] priv w = done (StatusCode.ok, priv, w)
  run driver (c ∷ cs) priv w = do r ← call sys driver c priv w; stop_or (run driver cs) r

  -- After a refused option: its status, nothing left in the database, and the driver's own `release`
  -- called where it has one.
  abbrev pub abandoned : Bool → StatusCode → World → Ended sys
  abandoned false status w = done (status, record { private_data = null; private_driver = none }, w)
  abandoned true status w =
      done (status, record { private_data = null; private_driver = none }, sys.release w)

  -- `DatabaseInit` once the options are set, and `DatabaseRelease` and the driver's `release` after one
  -- that was refused.
  abbrev pub finish : Driver → StatusCode × PrivateData sys × World → Ended sys
  finish driver (StatusCode.ok, priv, w) = do
    r ← call sys driver Call.init priv w
    done (r.0, record { private_data = r.1; private_driver = some driver }, r.2)
  finish driver (status, priv, w) = do
    r ← call sys driver Call.release priv w
    abandoned driver.own_release status r.2

  after_option-run :
      (driver : Driver) (rest : PrivateData sys → World → Ended sys)
      (run_rest : PrivateData sys → World → Outcome (StatusCode × PrivateData sys × World))
      (r : StatusCode × PrivateData sys × World)
      → ((priv : PrivateData sys) (w : World)
          → rest priv w ≡ (do r ← run_rest priv w; finish driver r))
      → after_option sys driver rest r ≡ (do r ← stop_or run_rest r; finish driver r)
  after_option-run driver rest run_rest (StatusCode.ok, priv, w) same = same priv w
  after_option-run driver rest run_rest (status, priv, w) same =
      abandons (call sys driver Call.release priv w) driver.own_release
    where
      abandons :
          (m : Outcome (StatusCode × PrivateData sys × World)) (own : Bool)
          → (do r ← m; option_failed sys (record driver { own_release = own }) status r)
            ≡ (do r ← m; abandoned own status r.2)
      abandons (done r) true = refl
      abandons (done r) false = refl
      abandons (failed status) own = refl
      abandons fault own = refl

  bind-call :
      (m : Outcome (StatusCode × PrivateData sys × World))
      (f : StatusCode × PrivateData sys × World → Ended sys)
      (g : StatusCode × PrivateData sys × World → Outcome (StatusCode × PrivateData sys × World))
      (h : StatusCode × PrivateData sys × World → Ended sys)
      → ((r : StatusCode × PrivateData sys × World) → f r ≡ (do r' ← g r; h r'))
      → (do r ← m; f r) ≡ (do r' ← (do r ← m; g r); h r')
  bind-call (done r) f g h same = same r
  bind-call (failed status) f g h same = refl
  bind-call fault f g h same = refl

  replay-run :
      (driver : Driver) (options : Options) (priv : PrivateData sys) (w : World)
      → replay sys driver options priv w
        ≡ (do r ← run driver (option_calls options) priv w; finish driver r)
  unfolding replay run
  replay-run driver [] priv w = refl
  replay-run driver ((key, value) ∷ options) priv w =
      bind-call (call sys driver (Call.set_option key value) priv w)
        (after_option sys driver (replay sys driver options))
        (stop_or (run driver (option_calls options))) (finish driver)
        λ r.
          after_option-run driver (replay sys driver options) (run driver (option_calls options)) r
            λ priv' w'. replay-run driver options priv' w'

  after_loading-run :
      (driver : Driver) (t : TempDatabase sys) (priv : PrivateData sys) (w w' : World)
      → call sys driver Call.new null w ≡ done (StatusCode.ok, priv, w')
      → after_loading sys t (loaded driver w)
        ≡ (do r ← run driver (option_calls (order t.options)) priv w'; finish driver r)
  after_loading-run driver t priv w w' new =
      ap
        (λ (m : Outcome (StatusCode × PrivateData sys × World)). (do
          r ← m
          after_new sys driver (order t.options) r))
        new
      ∙ replay-run driver (order t.options) priv w'

  -- `AdbcDatabaseInit` with an `init_func` whose driver is loaded and whose `DatabaseNew` succeeds:
  -- the driver gets the options that were kept, in the order of the map, as far as the
  -- first that it refuses. `DatabaseInit` follows when it refuses none. Otherwise `DatabaseRelease` and
  -- the driver's `release` follow, and the status is that of the option.
  pub database_init-run :
      (driver : Driver) (t : TempDatabase sys) (f : sys.InitFunc) (priv : PrivateData sys)
      (w w' w'' : World)
      → t.init_func ≡ some f
      → load_from_init_func sys f w ≡ loaded driver w'
      → call sys driver Call.new null w' ≡ done (StatusCode.ok, priv, w'')
      → database_init sys (record { private_data = temp t; private_driver = none }) w
        ≡ (do r ← run driver (option_calls (order t.options)) priv w''; finish driver r)
  unfolding database_init
  database_init-run driver t f priv w w' w'' chosen loads new =
      ap (λ o. init_temp sys t o none w) chosen
      ∙ ap (after_loading sys t) loads
      ∙ after_loading-run driver t priv w' w'' new
