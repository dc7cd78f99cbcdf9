-- ===== src/Binder/Take.antt =====
-- A call of `AdbcSqliteBinderBindNext` where it is known whether there is a row left.
use arrow_adbc.Base.{ℕ, ◌≡◌, refl, Bool, true, Option, some, none, List, [], ◌∷◌}
use arrow_adbc.Platform.{Platform, ArrowType}
use arrow_adbc.Engine.{Engine}
use arrow_adbc.Params.{Row, Field, Binder, BindResult, load_params, fields_of, types_of}
use arrow_adbc.Params.Rows.{rows_left, advance, Keeps, Loaded, stream_end, load_params-Loaded}
use arrow_adbc.Binder.{bind_columns, bind_row, after_load}

module _ (p : Platform) (engine : Engine p.Double) (view_init : ℕ → Bool) where
  open p use {Double}
  open engine use {World, reset, clear_bindings}

  abbrev pub some_fields : Option (List Field) → List Field
  some_fields none = []
  some_fields (some fields) = fields

  abbrev pub some_types : Option (List ArrowType) → List ArrowType
  some_types none = []
  some_types (some types) = types

  pub after_load-bound :
      (schema : Option (List Field)) (types : Option (List ArrowType)) (stop : BindResult)
      (row : Row Double) (rows : List (Row Double)) (w w1 w2 w3 : World)
      (r : BindResult × Binder Double)
      → Loaded schema types stop (row ∷ rows) r
      → reset w ≡ (true, w1)
      → clear_bindings w1 ≡ (true, w2)
      → bind_columns p engine view_init 0 (some_fields schema) (some_types types) row w2
        ≡ (BindResult.bound, w3)
      → (b : Binder Double) × (after_load p engine view_init r w ≡ (BindResult.bound, b, w3))
        × (rows_left b ≡ rows)
        × Keeps schema types stop b
  unfolding bind_row
  after_load-bound schema types stop row rows w w1 w2 w3 r
        (Loaded.loaded {b = b} here now later keeps) e c bind =
      let bind' : bind_columns p engine view_init 0 (fields_of b) (types_of b) row w2
          ≡ (BindResult.bound, w3) =
        rw (keeps.schema_eq, keeps.types_eq) bind in
      (
        advance b,
        rw (e, c, here, bind'),
        later,
        record {
          schema_eq = keeps.schema_eq;
          types_eq = keeps.types_eq;
          params = keeps.params;
          stop_eq = keeps.stop_eq;
        },
      )

  module _ (readable : (n : ℕ) → view_init n ≡ true) (schema : Option (List Field))
      (types : Option (List ArrowType)) where
    abbrev pub Stream : Binder Double → Type 0
    Stream b = Keeps schema types BindResult.finished b

    pub loaded :
        (b : Binder Double)
        → Stream b
        → Loaded schema types BindResult.finished (rows_left b) (load_params view_init b)
    loaded b keeps =
        let (items, given) = keeps.params in
        let stop : stream_end items ≡ BindResult.finished = rw given at keeps.stop_eq in
        rw (← keeps.schema_eq, ← keeps.types_eq, ← stop)
          (load_params-Loaded view_init readable b items given)

    pub ended :
        (b : Binder Double) (rows : List (Row Double)) (w : World) (r : BindResult × Binder Double)
        → rows ≡ []
        → Loaded schema types BindResult.finished rows r
        → (b' : Binder Double) × (after_load p engine view_init r w ≡ (BindResult.finished, b', w))
    ended b rows w r none_left (Loaded.stopped {b = b'} freed) = (b', refl)
    ended b rows w r none_left (Loaded.loaded here now later keeps) = cc
