-- ===== src/Manager/Toy.antt =====
-- A dynamic loader and a driver for tests: one library, one entrypoint, and a driver that accepts
-- everything and counts its calls.
use arrow_adbc.Base.{ℕ, ◌+◌, ◌≡◌, ap, Bool, true, false, none, some, codes, bytes_eq, if◌then◌else◌}
use arrow_adbc.Adbc.{StatusCode}
use arrow_adbc.Manager.Table.{Function}
use arrow_adbc.Manager.System.{System, Call}
use arrow_adbc.Manager.Database.Phases as Phases
use arrow_adbc.Manager.Connection.Safe as Safe

abbrev pub sets : Function → Bool
sets f = true

abbrev pub held : Call → Bool → Bool
held Call.new set = true
held Call.init set = set
held Call.release set = false
held (Call.set_option key value) set = set

abbrev pub toy_system : System
toy_system = record {
  World = ℕ;
  Handle = ℕ;
  InitFunc = ℕ;
  dlopen = λ name w. (if bytes_eq name (codes "libtoy.so") then some 1 else none, w + 1);
  dlsym = λ h entrypoint w. (some h, w + 1);
  init_func = λ f w. (StatusCode.ok, sets, true, w + 1);
  release = λ w. w + 1;
  database = λ c set w. (StatusCode.ok, held c set, w + 1);
  connection = λ c set w. (StatusCode.ok, held c set, w + 1);
  order = λ options. options;
  passed = λ f w. (StatusCode.ok, w + 1);
}

pub databases : Phases.Conventions toy_system
databases = record { new_failed = λ w w' status e. sym_status (ap (λ r. r.0) e) }
  where
    sym_status : {status : StatusCode} → StatusCode.ok ≡ status → status ≡ StatusCode.ok
    sym_status e = cc

pub connections : Safe.Conventions toy_system
connections = record {
  new_failed = λ w w' status e. sym_status (ap (λ r. r.0) e);
  released = λ set kept w w' status e. cleared (ap (λ r. r.1) e);
}
  where
    sym_status : {status : StatusCode} → StatusCode.ok ≡ status → status ≡ StatusCode.ok
    sym_status e = cc

    cleared : {kept : Bool} → false ≡ kept → kept ≡ false
    cleared e = cc
