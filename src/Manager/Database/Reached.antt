-- ===== src/Manager/Database/Reached.antt =====
-- The databases that an application reaches by calls that adbc.h allows.
use arrow_adbc.Base.{◌≡◌, refl, none}
use arrow_adbc.Adbc.{StatusCode, Outcome, done, Ensures}
use arrow_adbc.Manager.System.{System}
use arrow_adbc.Manager.Database.{null, Database, Ended, database_new, database_release}
use arrow_adbc.Manager.Database.Phases.{
  Never, Phase, IsIn, Operation, perform, Allowed, Moves, Lands, Conventions,
}
use arrow_adbc.Manager.Database.Safe.{perform-Lands}

module _ (sys : System) where
  open sys use {World}

  -- `AdbcDatabaseNew`, and any calls that adbc.h allows.
  pub data Reachable : Database sys → World → Type 0 where
    made : {w : World} → Reachable (database_new sys) w
    after :
        {d d' : Database sys} {w w' : World} {status : StatusCode} {phase : Phase}
        (op : Operation sys)
        → Reachable d w
        → IsIn sys phase d
        → Allowed sys op phase
        → perform sys op d w ≡ done (status, d', w')
        → Reachable d' w'

  landed :
      {P : StatusCode × Database sys × World → Type 0}
      {m : Outcome (StatusCode × Database sys × World)} (r : StatusCode × Database sys × World)
      → Ensures Never P m
      → m ≡ done r
      → P r
  landed {P = P} r (Ensures.returns {a = a} h) e = rw (← done_inj e) h
    where
      done_inj : {A : Type 0} {a b : A} → done a ≡ done b → a ≡ b
      done_inj e = cc
  landed r (Ensures.raises h) e = elim h [ ]

  Reachable-IsIn :
      Conventions sys
      → {d : Database sys} {w : World} → Reachable d w
      → (phase : Phase) × IsIn sys phase d
  unfolding database_new
  Reachable-IsIn follows Reachable.made = (_, IsIn.configured _)
  Reachable-IsIn follows
        (Reachable.after {d} {d'} {w} {w'} {status} {phase} op earlier h allowed e) =
      let (phase', h', moved, kept) =
        landed (status, d', w') (perform-Lands sys follows op phase d w h allowed) e in
      (phase', h')

  -- `AdbcDatabaseRelease` on a database that an application reached returns, with some status, and
  -- leaves neither the manager's nor the driver's data. The driver is assumed to leave `private_data`
  -- alone where its `DatabaseNew` fails.
  pub Reachable-release :
      Conventions sys
      → {d : Database sys} {w : World} → Reachable d w
      → (status : StatusCode) × (w' : World) × (database_release sys d w
          ≡ done (status, record { private_data = null; private_driver = none }, w'))
  unfolding database_release
  Reachable-release follows {d} {w} r =
      let (phase, h) = Reachable-IsIn follows r in
      gone d (perform-Lands sys follows Operation.release phase d w h Allowed.drop) refl
    where
      emptied :
          {phase phase' : Phase} {status : StatusCode} {d : Database sys}
          → Moves sys Operation.release phase status phase'
          → IsIn sys phase' d
          → d ≡ record { private_data = null; private_driver = none }
      emptied Moves.dropped IsIn.empty = refl

      gone :
          {phase : Phase} (d : Database sys) {m m' : Ended sys}
          → Ensures Never (Lands sys Operation.release phase d) m
          → m' ≡ m
          → (status : StatusCode) × (w' : World) × (m'
              ≡ done (status, record { private_data = null; private_driver = none }, w'))
      gone d (Ensures.returns {a = (status, d', w')} (phase', h', moved, kept)) e =
          (status, w', rw (e, emptied moved h') refl)
      gone d (Ensures.raises h) e = elim h [ ]
