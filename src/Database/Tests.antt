-- ===== src/Database/Tests.antt =====
-- A database on the library of `Library.Toy`, and the theorems at it.
use arrow_adbc.Base.{ℕ, ◌≡◌, refl, true, false, none, some, List, [], ◌∷◌}
use arrow_adbc.Adbc.{StatusCode}
use arrow_adbc.Library.{Run, OptionKey, OptionValue}
use arrow_adbc.Library.Toy.{State, one_handle}
use arrow_adbc.Database.{
  Database, Uri, database_new, database_set_option, database_init, database_release,
}
use arrow_adbc.Database.Lifecycle.{database-life, database_release-busy}

abbrev idle : State
idle = record { in_transaction = false; held = false }

abbrev held : State
held = record { in_transaction = true; held = true }

abbrev path : List ℕ
path = b'd' ∷ b'b' ∷ []

abbrev open_db : Database one_handle
open_db = record { db = some tt; uri = Uri.set path; connection_count = 0 }

database-life_example :
    (made named opened : Database one_handle) × (database_new one_handle none
      ≡ (StatusCode.ok, some made))
    × (database_set_option one_handle OptionKey.uri (OptionValue.text path) path (some made)
        ≡ Run.returned StatusCode.ok (some named))
    × (database_init one_handle (some named) idle ≡ Run.returned StatusCode.ok (some opened, idle))
    × (database_init one_handle (some opened) idle
        ≡ Run.returned StatusCode.invalid_state (some opened, idle))
    × (database_release one_handle (some opened) idle ≡ Run.returned StatusCode.ok (none, idle))
database-life_example =
    database-life one_handle path (OptionValue.text path) tt idle idle idle refl refl

database_release-busy_example :
    (db' : Database one_handle) × (database_release one_handle (some open_db) held
      ≡ Run.returned StatusCode.io (some db', held))
    × ((w2 : State) → database_release one_handle (some db') w2 ≡ Run.undefined)
    × ((value : OptionValue) (path' : List ℕ)
        → database_set_option one_handle OptionKey.uri value path' (some db') ≡ Run.undefined)
database_release-busy_example =
    database_release-busy one_handle open_db path tt held held refl refl refl
