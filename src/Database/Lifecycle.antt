-- ===== src/Database/Lifecycle.antt =====
-- The life of a database, from `SqliteDatabaseNew` to `SqliteDatabaseRelease`.
use arrow_adbc.Base.{ℕ, ◌≡◌, refl, true, false, none, some, List}
use arrow_adbc.Adbc.{StatusCode}
use arrow_adbc.Library.{Library, Run, OptionKey, OptionValue}
use arrow_adbc.Database.{
  Database, Uri, database_new, database_set_option, database_init, database_release,
}

module _ (l : Library) where
  open l use {World, Handle, open_v2, close}

  -- A new database that is given a URI opens that URI, cannot be opened twice, and is gone after it
  -- was released, where SQLite opens it and is not busy when it is closed.
  pub database-life :
      (path : List ℕ) (value : OptionValue) (h : Handle) (w w1 w2 : World)
      → open_v2 (some path) w ≡ (true, some h, w1)
      → close h w1 ≡ (false, w2)
      → (made named opened : Database l) × (database_new l none ≡ (StatusCode.ok, some made))
        × (database_set_option l OptionKey.uri value path (some made)
            ≡ Run.returned StatusCode.ok (some named))
        × (database_init l (some named) w ≡ Run.returned StatusCode.ok (some opened, w1))
        × (database_init l (some opened) w1
            ≡ Run.returned StatusCode.invalid_state (some opened, w1))
        × (database_release l (some opened) w1 ≡ Run.returned StatusCode.ok (none, w2))
  unfolding database_new database_set_option database_init database_release
  database-life path value h w w1 w2 opens closes = (
    _,
    _,
    record { db = some h; uri = Uri.set path; connection_count = 0 },
    refl,
    refl,
    rw opens,
    refl,
    rw closes,
  )

  -- Where SQLite is busy, the release of a database with a URI returns `ADBC_STATUS_IO` and leaves
  -- the database, but its URI is freed: releasing it again, or setting its URI, frees it twice.
  pub database_release-busy :
      (db : Database l) (path : List ℕ) (h : Handle) (w w1 : World)
      → db.uri ≡ Uri.set path
      → db.db ≡ some h
      → close h w ≡ (true, w1)
      → (db' : Database l) × (database_release l (some db) w
          ≡ Run.returned StatusCode.io (some db', w1))
        × ((w2 : World) → database_release l (some db') w2 ≡ Run.undefined)
        × ((value : OptionValue) (path' : List ℕ)
            → database_set_option l OptionKey.uri value path' (some db') ≡ Run.undefined)
  unfolding database_set_option database_release
  database_release-busy db path h w w1 named opened busy =
      (record db { uri = Uri.dangling }, rw (named, opened, busy), λ w2. refl, λ value path'. refl)
