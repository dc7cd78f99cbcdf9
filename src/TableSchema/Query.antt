-- ===== src/TableSchema/Query.antt =====
-- The schema of a table is that of all its rows, read by one query.
use arrow_adbc.Base.{
  codes, ℕ, ◌+◌, ◌<◌, ◌≤◌, ◌≡◌, ◌⊎◌, inl, inr, refl, Bool, true, false, Option, none, some, List,
  [], ◌∷◌, ◌++◌, append-nil, length, arith,
}
use arrow_adbc.Adbc.{StatusCode, done, fault}
use arrow_adbc.Platform.{Platform}
use arrow_adbc.Engine.{Engine}
use arrow_adbc.Params.{Binder}
use arrow_adbc.Stream.{Errno, Reader}
use arrow_adbc.Export.{export_reader}
use arrow_adbc.StringBuilder.{string_builder_init}
use arrow_adbc.StringBuilder.Bounds.{concat, append_all-fits, append_all-overflow}
use arrow_adbc.TableSchema.{Fields, no_binder, get_table_schema, table_schema}

abbrev pub select_text : List ℕ → List ℕ
select_text table_name = codes "SELECT * FROM " ++ table_name

-- A string that is NULL or empty, and one that is not.
abbrev pub IsBlank : Option (List ℕ) → Type 0
IsBlank none = Unit
IsBlank (some []) = Unit
IsBlank (some (c ∷ cs)) = ⊥

abbrev pub IsName : Option (List ℕ) → Type 0
IsName none = ⊥
IsName (some []) = ⊥
IsName (some (c ∷ cs)) = Unit

select_length :
    (name : List ℕ) → length (concat (codes "SELECT * FROM " ∷ name ∷ [])) ≡ 14 + length name
select_length name = rw append-nil (omega arith)

module _ (p : Platform) (engine : Engine p.Double) (view_init : ℕ → Bool)
    (deep_copy : Fields → Option Errno) (prepare : List ℕ → engine.World → Bool × engine.World)
    (finalize : engine.World → engine.World) where
  open p use {Double}
  open engine use {World}

  -- For a table whose name has fewer than 50 bytes, where the query can be prepared and exported and
  -- the schema copied, the call prepares `SELECT * FROM name`, gives the schema of its export in
  -- batches of 64 rows, without parameters, and finalizes the statement.
  pub get_table_schema-select :
      (name : List ℕ) (w w1 w2 : World) (reader : Reader Double) (b : Binder Double)
      (fields : Fields)
      → length name < 50
      → prepare (select_text name) w ≡ (true, w1)
      → export_reader p engine view_init false 64
          (no_binder p engine view_init deep_copy prepare finalize)
          w1
        ≡ done (StatusCode.ok, reader, b, w2)
      → reader.schema ≡ some fields
      → deep_copy fields ≡ none
      → get_table_schema p engine view_init deep_copy prepare finalize true none none (some name) w
        ≡ done (StatusCode.ok, some fields, finalize w2)
  unfolding get_table_schema string_builder_init
  get_table_schema-select name w w1 w2 reader b fields short prepared exported known copies =
      let sized = select_length name in
      let built =
        append_all-fits (codes "SELECT * FROM " ∷ name ∷ []) (string_builder_init 64)
          (omega (arith, sized)) in
      rw (built, append-nil, prepared, exported, known, copies)

  table_schema-overflow :
      (name : List ℕ) (w : World)
      → 50 ≤ length name
      → table_schema p engine view_init deep_copy prepare finalize name w ≡ fault
  unfolding table_schema string_builder_init
  table_schema-overflow name w long =
      let sized = select_length name in
      rw (
        append_all-overflow (codes "SELECT * FROM " ∷ name ∷ []) (string_builder_init 64)
          (omega arith) (omega (arith, sized)))

  -- On an initialised connection, with a name of 50 bytes or more, where a catalog and a schema are each
  -- NULL or empty, the call writes past the end of the buffer that it builds its query in, whatever the
  -- engine would do. Where one of them is a name it returns OK at once, with no schema, and the engine
  -- is not called.
  pub get_table_schema-overflow :
      (name : List ℕ) (w : World)
      → 50 ≤ length name
      → (catalog db_schema : Option (List ℕ))
      → ((IsBlank catalog × IsBlank db_schema)
          × (get_table_schema p engine view_init deep_copy prepare finalize true catalog db_schema
                (some name)
                w
              ≡ fault))
        ⊎ ((IsName catalog ⊎ IsName db_schema)
            × (get_table_schema p engine view_init deep_copy prepare finalize true catalog db_schema
                  (some name)
                  w
                ≡ done (StatusCode.ok, none, w)))
  unfolding get_table_schema
  get_table_schema-overflow name w long none none =
      inl ((tt, tt), table_schema-overflow name w long)
  get_table_schema-overflow name w long none (some []) =
      inl ((tt, tt), table_schema-overflow name w long)
  get_table_schema-overflow name w long none (some (c ∷ cs)) = inr (inr tt, refl)
  get_table_schema-overflow name w long (some []) none =
      inl ((tt, tt), table_schema-overflow name w long)
  get_table_schema-overflow name w long (some []) (some []) =
      inl ((tt, tt), table_schema-overflow name w long)
  get_table_schema-overflow name w long (some []) (some (c ∷ cs)) = inr (inr tt, refl)
  get_table_schema-overflow name w long (some (c ∷ cs)) db_schema = inr (inl tt, refl)
