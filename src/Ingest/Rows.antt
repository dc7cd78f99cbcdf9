-- ===== src/Ingest/Rows.antt =====
-- Bulk ingestion inserts every row of the parameters.
use arrow_adbc.Base.{
  ℕ, zero, suc, ◌+◌, ◌<◌, ◌≡◌, ◌∙◌, ap, refl, Bool, true, Option, some, List, [], ◌∷◌, length,
  arith,
}
use arrow_adbc.Adbc.{StatusCode}
use arrow_adbc.Platform.{Platform, ArrowType}
use arrow_adbc.Engine.{Engine, ResultCode}
use arrow_adbc.Params.{Row, Field, StreamItem, Binder, BindResult, release, fields_of, types_of}
use arrow_adbc.Params.Rows.{rows_left, items_of, Keeps, stream_end}
use arrow_adbc.Binder.{bind_columns, bind_next}
use arrow_adbc.Binder.Take.{some_fields, some_types, after_load-bound, Stream, loaded, ended}
use arrow_adbc.Ingest.Execute.{Ingested, ingest_rows}

module _ (p : Platform) (engine : Engine p.Double) (view_init : ℕ → Bool) where
  open p use {Double}
  open engine use {World, step, reset, clear_bindings}

  -- The engine takes these rows: for each, the statement is reset and cleared, the row's values are
  -- bound to the parameters, and a step inserts it.
  pub data Inserts (fields : List Field) (types : List ArrowType)
      : List (Row Double) → World → World → Type 0 where
    end : {w : World} → Inserts fields types [] w w
    next :
        {row : Row Double} {rows : List (Row Double)} {w : World} (w1 w2 w3 w4 : World) {w' : World}
        → reset w ≡ (true, w1)
        → clear_bindings w1 ≡ (true, w2)
        → bind_columns p engine view_init 0 fields types row w2 ≡ (BindResult.bound, w3)
        → step w3 ≡ (ResultCode.done, w4)
        → Inserts fields types rows w4 w'
        → Inserts fields types (row ∷ rows) w w'

  module _ (readable : (n : ℕ) → view_init n ≡ true) (schema : Option (List Field))
      (types : Option (List ArrowType)) where
    rows_inserted :
        (turns rounds row_count : ℕ) (b : Binder Double) (rows : List (Row Double)) (w w' : World)
        → Stream p engine view_init readable schema types b
        → rows_left b ≡ rows
        → Inserts
            (some_fields p engine view_init schema)
            (some_types p engine view_init types)
            rows
            w
            w'
        → length rows < turns
        → ingest_rows p engine view_init turns rounds row_count b w
          ≡ Ingested.ingested StatusCode.ok (row_count + length rows) (release b) w'
    unfolding ingest_rows bind_next release
    rows_inserted zero rounds row_count b rows w w' keeps left h enough = absurd (omega arith)
    rows_inserted (suc turns) rounds row_count b rows w w' keeps left Inserts.end enough =
        let (b', over) =
          ended p engine view_init readable schema types b (rows_left b) w _ left
            (loaded p engine view_init readable schema types b keeps) in
        let same : row_count + 0 ≡ row_count = omega arith in rw (over, same)
    rows_inserted (suc turns) rounds row_count b rows w w' keeps left
          (Inserts.next {row = row} {rows = more} w1 w2 w3 w4 e c bind stepped later) enough =
        let (b', run, rest, keeps') =
          after_load-bound p engine view_init schema types BindResult.finished row more w w1 w2 w3 _
            (rw left at (loaded p engine view_init readable schema types b keeps)) e c bind in
        let total : row_count + suc (length more) ≡ row_count + 1 + length more = omega arith in
        rw (run, stepped, total)
          (rows_inserted turns rounds (row_count + 1) b' more w4 w' keeps' rest later (omega arith))

  -- Where the stream of parameters ends well, the view can be set up again, and the engine takes
  -- each of the rows that are left, the loop inserts every one of them once, in order, over batches
  -- of any size. It returns `ADBC_STATUS_OK` with the number of rows, and the binder is released.
  -- One turn more than there are rows is enough.
  pub ingest_rows-Inserts :
      (b : Binder Double) (items : List (StreamItem Double)) (turns rounds : ℕ) (w w' : World)
      → ((n : ℕ) → view_init n ≡ true)
      → b.params ≡ some items
      → stream_end items ≡ BindResult.finished
      → Inserts (fields_of b) (types_of b) (rows_left b) w w'
      → length (rows_left b) < turns
      → ingest_rows p engine view_init turns rounds 0 b w
        ≡ Ingested.ingested StatusCode.ok (length (rows_left b)) (release b) w'
  ingest_rows-Inserts b items turns rounds w w' readable given ends inserts enough =
      let stop : stream_end (items_of b.params) ≡ BindResult.finished =
        ap (λ q. stream_end (items_of q)) given ∙ ends in
      let keeps : Keeps b.schema b.types BindResult.finished b = record {
        schema_eq = refl;
        types_eq = refl;
        params = (items, given);
        stop_eq = stop;
      } in
      let total : 0 + length (rows_left b) ≡ length (rows_left b) = omega arith in
      rw total at (
        rows_inserted readable b.schema b.types turns rounds 0 b (rows_left b) w w' keeps refl
          inserts enough)
