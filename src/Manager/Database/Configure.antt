-- ===== src/Manager/Database/Configure.antt =====
-- What an application sets on a database of the driver manager before `AdbcDatabaseInit`.
use arrow_adbc.Base.{
  ℕ, ◌≡◌, ◌∙◌, inl, inr, ap, refl, Bool, true, false, Bool-cases, Option, none, some, List, [], ◌∷◌,
  codes, bytes_eq, bytes_eq→eq, bytes_eq_comm, if◌then◌else◌,
}
use arrow_adbc.Adbc.{StatusCode, done, ◌>>=◌}
use arrow_adbc.Manager.Options.{Options, set_entry, find, find-set_entry}
use arrow_adbc.Manager.System.{System}
use arrow_adbc.Manager.Database.{
  TempDatabase, temp, Database, Ended, with_options, fresh, database_new, database_set_option,
}

-- The value that was given last for a key.
unfoldable pub last_value : List ℕ → Options → Option (List ℕ) → Option (List ℕ)
last_value key [] kept = kept
last_value key ((k, v) ∷ set) kept = last_value key set (if bytes_eq k key then some v else kept)

module _ (sys : System) where
  open sys use {World, order}

  -- Calls of `AdbcDatabaseSetOption` in a row.
  unfoldable pub configure : Options → Database sys → World → Ended sys
  configure [] d w = done (StatusCode.ok, d, w)
  configure ((k, v) ∷ set) d w = do r ← database_set_option sys k v d w; configure set r.1 r.2

  unfoldable with_all : Options → TempDatabase sys → TempDatabase sys
  with_all [] t = t
  with_all ((k, v) ∷ set) t = with_all set (with_options sys t k v)

  -- What a `TempDatabase` holds for a key.
  abbrev pub kept : List ℕ → TempDatabase sys → Option (List ℕ)
  kept key t =
      if bytes_eq key (codes "driver")
      then some t.driver
      else if bytes_eq key (codes "entrypoint")
      then some t.entrypoint
      else find key t.options

  abbrev pub configured : TempDatabase sys → Database sys
  configured t = record { private_data = temp t; private_driver = none }

  configure-with_all :
      (set : Options) (t : TempDatabase sys) (w : World)
      → configure set (configured t) w ≡ done (StatusCode.ok, configured (with_all set t), w)
  unfolding configure with_all database_set_option
  configure-with_all [] t w = refl
  configure-with_all ((k, v) ∷ set) t w = configure-with_all set (with_options sys t k v) w

  with_driver :
      (key v : List ℕ) (t : TempDatabase sys)
      → kept key (record t { driver = v })
        ≡ (if bytes_eq (codes "driver") key then some v else kept key t)
  with_driver key v t =
      rw (bytes_eq_comm (codes "driver") key) (given (bytes_eq key (codes "driver")) _ t.driver)
    where
      given :
          (b : Bool) (rest : Option (List ℕ)) (driver : List ℕ)
          → (if b then some v else rest) ≡ (if b then some v else (if b then some driver else rest))
      given true rest driver = refl
      given false rest driver = refl

  with_entrypoint :
      (key v : List ℕ) (t : TempDatabase sys)
      → kept key (record t { entrypoint = v })
        ≡ (if bytes_eq (codes "entrypoint") key then some v else kept key t)
  with_entrypoint key v t = rw (bytes_eq_comm (codes "entrypoint") key) (
      given (bytes_eq key (codes "driver")) (bytes_eq key (codes "entrypoint")) (find key t.options)
        apart)
    where
      apart : bytes_eq key (codes "driver") ≡ true → bytes_eq key (codes "entrypoint") ≡ false
      apart h = rw (bytes_eq→eq key (codes "driver") h) refl

      given :
          (d e : Bool) (rest : Option (List ℕ))
          → (d ≡ true → e ≡ false)
          → (if d then some t.driver else (if e then some v else rest)) ≡ (
              if e
              then some v
              else (if d then some t.driver else (if e then some t.entrypoint else rest)))
      given true e rest h = rw (h refl)
      given false true rest h = refl
      given false false rest h = refl

  with_entry :
      (k key v : List ℕ) (t : TempDatabase sys)
      → bytes_eq k (codes "driver") ≡ false
      → bytes_eq k (codes "entrypoint") ≡ false
      → kept key (record t { options = set_entry k v t.options })
        ≡ (if bytes_eq k key then some v else kept key t)
  with_entry k key v t d e = rw (find-set_entry k v key t.options) (
      given (bytes_eq key (codes "driver")) (bytes_eq key (codes "entrypoint")) (bytes_eq k key)
        (find key t.options) (λ h. rw (← bytes_eq→eq k key h) d)
        (λ h. rw (← bytes_eq→eq k key h) e))
    where
      given :
          (d e same : Bool) (rest : Option (List ℕ))
          → (same ≡ true → d ≡ false)
          → (same ≡ true → e ≡ false)
          → (if d
              then some t.driver
              else (if e then some t.entrypoint else (if same then some v else rest)))
            ≡ (if same
                then some v
                else (if d then some t.driver else (if e then some t.entrypoint else rest)))
      given d e false rest h g = refl
      given d e true rest h g = rw (h refl, g refl)

  with_options-kept :
      (k key v : List ℕ) (t : TempDatabase sys)
      → kept key (with_options sys t k v) ≡ (if bytes_eq k key then some v else kept key t)
  with_options-kept k key v t = elim (Bool-cases (bytes_eq k (codes "driver"))) [
    | inl d ↦ rw (d, bytes_eq→eq k (codes "driver") d) (with_driver key v t)
    | inr d ↦ elim (Bool-cases (bytes_eq k (codes "entrypoint"))) [
      | inl e ↦ rw (d, e, bytes_eq→eq k (codes "entrypoint") e) (with_entrypoint key v t)
      | inr e ↦ rw (d, e) (with_entry k key v t d e)
    ]
  ]

  with_all-kept :
      (key : List ℕ) (set : Options) (t : TempDatabase sys)
      → kept key (with_all set t) ≡ last_value key set (kept key t)
  unfolding with_all last_value
  with_all-kept key [] t = refl
  with_all-kept key ((k, v) ∷ set) t =
      with_all-kept key set (with_options sys t k v)
      ∙ ap (last_value key set) (with_options-kept k key v t)

  -- Calls of `AdbcDatabaseSetOption` before `AdbcDatabaseInit` all succeed. What is kept for a key, the
  -- driver and the entrypoint included, is the value that was given last, or else what
  -- `AdbcDatabaseNew` put there.
  pub configure-last_value :
      (set : Options) (w : World)
      → (t : TempDatabase sys) × (configure set (database_new sys) w
          ≡ done (StatusCode.ok, configured t, w))
        × ((key : List ℕ) → kept key t ≡ last_value key set (kept key (fresh sys)))
  unfolding database_new
  configure-last_value set w = (
    with_all set (fresh sys),
    configure-with_all set (fresh sys) w,
    λ key. with_all-kept key set (fresh sys),
  )
