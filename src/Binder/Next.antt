-- ===== src/Binder/Next.antt =====
-- `AdbcSqliteBinderBindNext` against the rows that the binder has still to give.
use arrow_adbc.Base.{ℕ, ◌≡◌, ◌≢◌, refl, Bool, true, false, Option, some, List, [], ◌∷◌}
use arrow_adbc.Adbc.{StatusCode}
use arrow_adbc.Platform.{Platform, ArrowType}
use arrow_adbc.Engine.{Engine}
use arrow_adbc.Params.{
  Row, Field, StreamItem, Binder, BindResult, bound, release, current_row, load_params, fields_of,
  types_of,
}
use arrow_adbc.Params.Rows.{rows_left, advance, Keeps, Loaded, stream_end, load_params-Loaded}
use arrow_adbc.Binder.{
  bind_columns, after_columns, after_clear, after_reset, after_load, bind_row, bind_next,
}

module _ (p : Platform) (engine : Engine p.Double) (view_init : ℕ → Bool) where
  open p use {Double}
  open engine use {World, reset, clear_bindings}

  -- A call by the rows left before it. With none left it ends as the stream does and the engine is
  -- not called. A row is consumed exactly where all its columns were bound, on a statement that was
  -- reset and cleared. It is still there where the engine refused the reset or the clearing, or where
  -- `bind_columns` stopped, and the result is then theirs.
  pub data Next (schema : Option (List Field)) (types : Option (List ArrowType)) (stop : BindResult)
      (w : World) : List (Row Double) → BindResult × Binder Double × World → Type 0 where
    stopped :
        {b : Binder Double}
        → (stop ≡ BindResult.finished → b ≡ release b)
        → Next schema types stop w [] (stop, b, w)
    not_reset :
        {row : Row Double} {rows : List (Row Double)} {b : Binder Double} {w' : World}
        → reset w ≡ (false, w')
        → rows_left b ≡ row ∷ rows
        → Next schema types stop w (row ∷ rows) (BindResult.failed StatusCode.internal, b, w')
    not_cleared :
        {row : Row Double} {rows : List (Row Double)} {b : Binder Double} (w1 : World) {w' : World}
        → reset w ≡ (true, w1)
        → clear_bindings w1 ≡ (false, w')
        → rows_left b ≡ row ∷ rows
        → Next schema types stop w (row ∷ rows) (BindResult.failed StatusCode.internal, b, w')
    refused :
        {row : Row Double} {rows : List (Row Double)} {r : BindResult} {b : Binder Double}
        (w1 w2 : World) {w' : World}
        → reset w ≡ (true, w1)
        → clear_bindings w1 ≡ (true, w2)
        → bind_columns p engine view_init 0 (fields_of b) (types_of b) row w2 ≡ (r, w')
        → r ≢ bound
        → rows_left b ≡ row ∷ rows
        → Keeps schema types stop b
        → Next schema types stop w (row ∷ rows) (r, b, w')
    consumed :
        {row : Row Double} {rows : List (Row Double)} {b : Binder Double} (w1 w2 : World)
        {w' : World}
        → reset w ≡ (true, w1)
        → clear_bindings w1 ≡ (true, w2)
        → bind_columns p engine view_init 0 (fields_of b) (types_of b) row w2 ≡ (bound, w')
        → rows_left b ≡ rows
        → Keeps schema types stop b
        → Next schema types stop w (row ∷ rows) (bound, b, w')

  after_columns-Next :
      (schema : Option (List Field)) (types : Option (List ArrowType)) (stop : BindResult)
      (b : Binder Double) (w w1 w2 : World) (row : Row Double) (rows : List (Row Double))
      (r : BindResult × World)
      → reset w ≡ (true, w1)
      → clear_bindings w1 ≡ (true, w2)
      → bind_columns p engine view_init 0 (fields_of b) (types_of b) row w2 ≡ r
      → rows_left b ≡ row ∷ rows
      → rows_left (advance b) ≡ rows
      → Keeps schema types stop b
      → Next schema types stop w (row ∷ rows) (after_columns p engine view_init b r)
  after_columns-Next schema types stop b w w1 w2 row rows (BindResult.bound, w') r c e now later
        keeps =
      Next.consumed w1 w2 r c e later (record {
        schema_eq = keeps.schema_eq;
        types_eq = keeps.types_eq;
        params = keeps.params;
        stop_eq = keeps.stop_eq;
      })
  after_columns-Next schema types stop b w w1 w2 row rows (BindResult.finished, w') r c e now later
        keeps =
      Next.refused w1 w2 r c e (λ e. cc) now keeps
  after_columns-Next schema types stop b w w1 w2 row rows (BindResult.failed s, w') r c e now later
        keeps =
      Next.refused w1 w2 r c e (λ e. cc) now keeps
  after_columns-Next schema types stop b w w1 w2 row rows (BindResult.fault, w') r c e now later
        keeps =
      Next.refused w1 w2 r c e (λ e. cc) now keeps

  module _ (schema : Option (List Field)) (types : Option (List ArrowType)) (stop : BindResult)
      (b : Binder Double) (w : World) (row : Row Double) (rows : List (Row Double))
      (here : current_row b ≡ some row) (now : rows_left b ≡ row ∷ rows)
      (later : rows_left (advance b) ≡ rows) (keeps : Keeps schema types stop b) where
    after_clear-Next :
        (w1 : World) (r : Bool × World)
        → reset w ≡ (true, w1)
        → clear_bindings w1 ≡ r
        → Next schema types stop w (row ∷ rows) (after_clear p engine view_init b r)
    after_clear-Next w1 (false, w2) e c = Next.not_cleared w1 e c now
    after_clear-Next w1 (true, w2) e c = rw here (
        after_columns-Next schema types stop b w w1 w2 row rows
          (bind_columns p engine view_init 0 (fields_of b) (types_of b) row w2) e c refl now later
          keeps)

    after_reset-Next :
        (r : Bool × World)
        → reset w ≡ r
        → Next schema types stop w (row ∷ rows) (after_reset p engine view_init b r)
    after_reset-Next (false, w1) e = Next.not_reset e now
    after_reset-Next (true, w1) e = after_clear-Next w1 (clear_bindings w1) e refl

  after_load-Next :
      (schema : Option (List Field)) (types : Option (List ArrowType)) (stop : BindResult)
      (w : World) (rows : List (Row Double)) (r : BindResult × Binder Double)
      → stop ≢ bound
      → Loaded schema types stop rows r
      → Next schema types stop w rows (after_load p engine view_init r w)
  unfolding bind_row
  after_load-Next schema types BindResult.finished w rows r h (Loaded.stopped freed) =
      Next.stopped freed
  after_load-Next schema types (BindResult.failed s) w rows r h (Loaded.stopped freed) =
      Next.stopped freed
  after_load-Next schema types BindResult.fault w rows r h (Loaded.stopped freed) =
      Next.stopped freed
  after_load-Next schema types BindResult.bound w rows r h (Loaded.stopped freed) = absurd (h refl)
  after_load-Next schema types stop w (row ∷ rows) r h
        (Loaded.loaded {b = b} here now later keeps) =
      after_reset-Next schema types stop b w row rows here now later keeps (reset w) refl

module _ (p : Platform) (engine : Engine p.Double) (view_init : ℕ → Bool)
    (readable : (n : ℕ) → view_init n ≡ true) where
  open p use {Double}
  open engine use {World}

  pub stream_end-ne-bound : (items : List (StreamItem Double)) → stream_end items ≢ bound
  unfolding stream_end
  stream_end-ne-bound [] e = cc
  stream_end-ne-bound (StreamItem.batch rows ∷ items) e = stream_end-ne-bound items e
  stream_end-ne-bound (StreamItem.failure code ∷ items) e = cc
  stream_end-ne-bound (StreamItem.malformed rows ∷ items) e = cc

  -- A call on a binder with a stream of parameters follows the rows that it has still to give, over
  -- batches of any size, empty ones included, as long as the view can be set up again. With none
  -- left it ends as the stream does: finished, and then released, or the stream's error; the engine
  -- is not called. Otherwise it resets and clears the statement and binds the first of them, and
  -- leaves the others. Where the engine refuses the reset or the clearing the result is INTERNAL, and
  -- where binding the columns stops it is the result of that; all the rows are then left.
  pub bind_next-Next :
      (b : Binder Double) (items : List (StreamItem Double)) (w : World)
      → b.params ≡ some items
      → Next p engine view_init b.schema b.types
          (stream_end items)
          w
          (rows_left b)
          (bind_next p engine view_init b w)
  unfolding bind_next
  bind_next-Next b items w e =
      after_load-Next p engine view_init b.schema b.types (stream_end items) w (rows_left b)
        (load_params view_init b) (stream_end-ne-bound items)
        (load_params-Loaded view_init readable b items e)
