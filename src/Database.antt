-- ===== src/Database.antt =====
-- Databases, c/driver/sqlite/sqlite.c: `SqliteDatabase*` and `OpenDatabase`. A `private_data` that is
-- NULL is `none`, and so is an `sqlite3*`.
pub mod Lifecycle
mod Tests
use arrow_adbc.Base.{
  ℕ, zero, suc, ◌+◌, ltb, Bool, true, false, Option, none, some, List, [], ◌∷◌, if◌then◌else◌,
}
use arrow_adbc.Adbc.{StatusCode}
use arrow_adbc.Engine.{ResultCode}
use arrow_adbc.Library.{Library, Run, OptionKey, OptionValue}

-- `struct SqliteDatabase`. A `uri` that was freed is `dangling`.
pub data Uri : Type 0 where
  unset : Uri
  set : List ℕ → Uri
  dangling : Uri

pub record Database (l : Library) : Type 0 where
  pub db : Option l.Handle
  pub uri : Uri
  pub connection_count : ℕ

module _ (l : Library) where
  open l use {World, Handle, Stmt, open_v2, close, prepare_v2, step_statement, finalize}

  -- `SqliteDatabaseNew` on `private_data`.
  unfoldable pub database_new : Option (Database l) → StatusCode × Option (Database l)
  database_new (some db) = (StatusCode.invalid_state, some db)
  database_new none =
      (StatusCode.ok, some (record { db = none; uri = Uri.unset; connection_count = 0 }))

  -- `if (db->uri) free(db->uri)`
  abbrev pub after_free : {A : Type 0} → Uri → Run A → Run A
  after_free Uri.dangling rest = Run.undefined
  after_free Uri.unset rest = rest
  after_free (Uri.set s) rest = rest

  -- `SqliteDatabaseSetOption`
  unfoldable pub database_set_option :
      OptionKey → OptionValue → List ℕ → Option (Database l) → Run (Option (Database l))
  database_set_option key value raw none = Run.returned StatusCode.invalid_state none
  database_set_option OptionKey.uri value raw (some db) =
      after_free db.uri (Run.returned StatusCode.ok (some (record db { uri = Uri.set raw })))
  database_set_option key value raw (some db) = Run.returned StatusCode.not_implemented (some db)

  abbrev close_failed : Option Handle → World → World
  close_failed none w = w
  close_failed (some h) w = let (busy, w) = close h w in w

  abbrev pub opened : Bool × Option Handle × World → StatusCode × Option Handle × World
  opened (true, h, w) = (StatusCode.ok, h, w)
  opened (false, h, w) = (StatusCode.io, none, close_failed h w)

  -- `OpenDatabase`: the status and `*db`.
  unfoldable pub open_database : Option (List ℕ) → World → StatusCode × Option Handle × World
  open_database path w = opened (open_v2 path w)

  -- A `uri` that is read where it may be dangling.
  abbrev pub with_uri : {A : Type 0} → Uri → (Option (List ℕ) → Run A) → Run A
  with_uri Uri.unset f = f none
  with_uri (Uri.set s) f = f (some s)
  with_uri Uri.dangling f = Run.undefined

  abbrev pub database_opened :
      Database l → StatusCode × Option Handle × World → Run (Option (Database l) × World)
  database_opened db (status, h, w) = Run.returned status (some (record db { db = h }), w)

  -- `SqliteDatabaseInit`
  unfoldable pub database_init : Option (Database l) → World → Run (Option (Database l) × World)
  unfolding open_database
  database_init none w = Run.returned StatusCode.invalid_state (none, w)
  database_init (some db) w = elim db.db [
    | some h ↦ Run.returned StatusCode.invalid_state (some db, w)
    | none ↦ with_uri db.uri λ path. database_opened db (open_database path w)
  ]

  abbrev pub database_freed : Database l → World → Run (Option (Database l) × World)
  database_freed db w =
      Run.returned (if ltb 0 db.connection_count then StatusCode.invalid_state else StatusCode.ok)
        (none, w)

  abbrev pub database_closed : Database l → Bool × World → Run (Option (Database l) × World)
  database_closed db (true, w) = Run.returned StatusCode.io (some db, w)
  database_closed db (false, w) = database_freed db w

  -- What `free(db->uri)` leaves.
  abbrev pub freed_uri : Uri → Uri
  freed_uri Uri.unset = Uri.unset
  freed_uri (Uri.set s) = Uri.dangling
  freed_uri Uri.dangling = Uri.dangling

  abbrev pub database_close : Database l → Option Handle → World → Run (Option (Database l) × World)
  database_close db none w = database_freed db w
  database_close db (some h) w = database_closed db (close h w)

  -- `SqliteDatabaseRelease`: the `uri` is freed first, also where the database stays.
  unfoldable pub database_release : Option (Database l) → World → Run (Option (Database l) × World)
  database_release none w = Run.returned StatusCode.invalid_state (none, w)
  database_release (some db) w =
      after_free db.uri (database_close (record db { uri = freed_uri db.uri }) db.db w)
