-- ===== src/Execute/Loops.antt =====
-- The loops of an ingestion and of an update end, and return.
use arrow_adbc.Base.{
  ℕ, zero, suc, ◌+◌, ◌<◌, ◌≡◌, ◌≢◌, ap, refl, Bool, true, false, Option, none, some, List, ◌∷◌,
  length, arith,
}
use arrow_adbc.Adbc.{StatusCode}
use arrow_adbc.Platform.{Platform}
use arrow_adbc.Engine.{Engine, ResultCode}
use arrow_adbc.Params.{Row, Field, StreamItem, Binder, BindResult}
use arrow_adbc.Params.Rows.{rows_left, Keeps, stream_end}
use arrow_adbc.Binder.{bind_next}
use arrow_adbc.Binder.Next.{bind_next-Next, stream_end-ne-bound}
use arrow_adbc.Binder.Shapes.{
  AllShaped, IsShaped, stream_end-ne-fault, Keeps-columns, Next-bound, Next-ne-fault,
}
use arrow_adbc.Ingest.Execute as Ingest
use arrow_adbc.Ingest.Execute.{Ingested, insert_row, ingest_rows}
use arrow_adbc.Update as Update
use arrow_adbc.Update.{
  Updated, count_rows, update_reset, update_end, update_loop, update_by, execute_update,
}

-- A binder that has a schema has a stream.
abbrev pub IsGiven : {Double : Type 0} → Binder Double → Type 0
IsGiven {Double} b =
    (fields : List Field)
    → b.schema ≡ some fields
    → (items : List (StreamItem Double)) × (b.params ≡ some items)

-- The call returned, within its rounds and without an access that C leaves undefined.
abbrev pub IsIngested : (p : Platform) (engine : Engine p.Double) → Ingested p engine → Type 0
IsIngested p engine (Ingested.ingested status rows b w) = Unit
IsIngested p engine Ingested.undefined = ⊥
IsIngested p engine Ingested.unfinished = ⊥

abbrev pub IsUpdated : (p : Platform) (engine : Engine p.Double) → Updated p engine → Type 0
IsUpdated p engine (Updated.updated status rows b w) = Unit
IsUpdated p engine Updated.undefined = ⊥
IsUpdated p engine Updated.unfinished = ⊥

module _ (p : Platform) (engine : Engine p.Double) (view_init : ℕ → Bool)
    (readable : (n : ℕ) → view_init n ≡ true)
    (no_rows : (w : engine.World) → (engine.step w).0 ≢ ResultCode.row) where
  open p use {Double}
  open engine use {World, step}

  insert_row-ends :
      (rounds : ℕ) (next : Ingest.Next p engine view_init) (row_count : ℕ) (b : Binder Double)
      (r : ResultCode × World)
      → r.0 ≢ ResultCode.row
      → ((w : World) → IsIngested p engine (next b w))
      → IsIngested p engine (insert_row p engine view_init rounds next row_count b r)
  unfolding insert_row
  insert_row-ends rounds next row_count b (ResultCode.done, w) quiet later = later w
  insert_row-ends rounds next row_count b (ResultCode.row, w) quiet later = absurd (quiet refl)
  insert_row-ends rounds next row_count b (rc, w) quiet later = tt

  after_bind-ends :
      (rounds : ℕ) (next : Ingest.Next p engine view_init) (row_count : ℕ)
      (r : BindResult × Binder Double × World)
      → r.0 ≢ BindResult.fault
      → (r.0 ≡ BindResult.bound → (w : World) → IsIngested p engine (next r.1 w))
      → IsIngested p engine (Ingest.after_bind p engine view_init rounds next row_count r)
  after_bind-ends rounds next row_count (BindResult.bound, b, w) ne later =
      insert_row-ends rounds next row_count b (step w) (no_rows w) (later refl)
  after_bind-ends rounds next row_count (BindResult.finished, b, w) ne later = tt
  after_bind-ends rounds next row_count (BindResult.failed s, b, w) ne later = tt
  after_bind-ends rounds next row_count (BindResult.fault, b, w) ne later = absurd (ne refl)

  -- A call of `bind_next` on a binder with a stream does not fault, and what it leaves where it binds a
  -- row has the stream, the columns and one row less.
  record Taken (n : ℕ) (b : Binder Double) (r : BindResult × Binder Double × World) : Type 0 where
    faultless : r.0 ≢ BindResult.fault
    params :
        r.0 ≡ BindResult.bound → (items : List (StreamItem Double)) × ((r.1).params ≡ some items)
    shaped : r.0 ≡ BindResult.bound → IsShaped n r.1
    fewer : r.0 ≡ BindResult.bound → length (rows_left b) ≡ suc (length (rows_left r.1))

  rest_shaped :
      (n : ℕ) {rows : List (Row Double)} (row : Row Double) (more : List (Row Double))
      → rows ≡ row ∷ more
      → AllShaped n rows
      → AllShaped n more
  rest_shaped n row more e h = (rw e at h).1

  bind_next-Taken :
      (n : ℕ) (b : Binder Double) (items : List (StreamItem Double)) (w : World)
      → b.params ≡ some items
      → IsShaped n b
      → Taken n b (bind_next p engine view_init b w)
  bind_next-Taken n b items w given shaped =
      let next = bind_next-Next p engine view_init readable b items w given in
      record {
        faultless =
            Next-ne-fault p engine view_init n b (stream_end-ne-fault p items) shaped shaped.rows
              next;
        params = λ is. (took is).2.params;
        shaped = λ is.
            let (row, left, keeps) = took is in
            let (fields, types) = Keeps-columns p engine view_init n b _ keeps shaped in
            record {
              field_count = fields;
              type_count = types;
              rows = rest_shaped n row _ left shaped.rows;
            };
        fewer = λ is. ap (λ (rows : List (Row Double)). length rows) (took is).1;
      }
    where
      took :
          (bind_next p engine view_init b w).0 ≡ BindResult.bound
          → (row : Row Double) × (rows_left b
              ≡ row ∷ rows_left (bind_next p engine view_init b w).1)
            × Keeps b.schema b.types (stream_end items) (bind_next p engine view_init b w).1
      took is =
          Next-bound p engine view_init (stream_end-ne-bound p engine view_init readable items) is
            (bind_next-Next p engine view_init readable b items w given)

  pub ingest_rows-ends :
      (turns rounds row_count n : ℕ) (b : Binder Double) (items : List (StreamItem Double))
      (w : World)
      → b.params ≡ some items
      → IsShaped n b
      → length (rows_left b) < turns
      → IsIngested p engine (ingest_rows p engine view_init turns rounds row_count b w)
  unfolding ingest_rows
  ingest_rows-ends zero rounds row_count n b items w given shaped enough =
      absurd (omega (arith, enough))
  ingest_rows-ends (suc turns) rounds row_count n b items w given shaped enough =
      let taken = bind_next-Taken n b items w given shaped in
      after_bind-ends rounds (ingest_rows p engine view_init turns rounds (row_count + 1)) row_count
        (bind_next p engine view_init b w) taken.faultless
        λ is w'.
          ingest_rows-ends turns rounds (row_count + 1) n (bind_next p engine view_init b w).1
            (taken.params is).0 w' (taken.params is).1 (taken.shaped is)
            (omega (arith, taken.fewer is, enough))

  count_rows-ends :
      (rounds rows : ℕ) (r : ResultCode × World)
      → r.0 ≢ ResultCode.row
      → count_rows p engine view_init rounds rows r ≢ none
  unfolding count_rows
  count_rows-ends zero rows (ResultCode.row, w) quiet = absurd (quiet refl)
  count_rows-ends (suc rounds) rows (ResultCode.row, w) quiet = absurd (quiet refl)
  count_rows-ends rounds rows (rc, w) quiet = λ e. cc

  after_rows-ends :
      (next : Update.Next p engine view_init) (b : Binder Double) (o : Option (ℕ × World))
      → o ≢ none
      → ((rows : ℕ) (w : World) → IsUpdated p engine (next rows b w))
      → IsUpdated p engine (Update.after_rows p engine view_init next b o)
  after_rows-ends next b none counted later = absurd (counted refl)
  after_rows-ends next b (some (rows, w)) counted later = later rows w

  update_end-ends :
      (status : StatusCode) (rows : ℕ) (b : Binder Double) (w : World)
      → IsUpdated p engine (update_end p engine view_init status rows b w)
  unfolding update_end
  update_end-ends status rows b w = reset_ends (engine.reset w)
    where
      reset_ends :
          (r : Bool × World) → IsUpdated p engine (update_reset p engine view_init status rows b r)
      reset_ends (true, w') = tt
      reset_ends (false, w') = tt

  run-ends :
      (rounds : ℕ) (next : Update.Next p engine view_init) (count : ℕ)
      (r : BindResult × Binder Double × World)
      → r.0 ≢ BindResult.fault
      → (r.0 ≡ BindResult.bound → (count : ℕ) (w : World) → IsUpdated p engine (next count r.1 w))
      → IsUpdated p engine (Update.after_bind p engine view_init rounds next count r)
  run-ends rounds next count (BindResult.bound, b, w) ne later =
      after_rows-ends next b _ (count_rows-ends rounds count (step w) (no_rows w)) (later refl)
  run-ends rounds next count (BindResult.finished, b, w) ne later =
      update_end-ends StatusCode.ok count b w
  run-ends rounds next count (BindResult.failed s, b, w) ne later = update_end-ends s count b w
  run-ends rounds next count (BindResult.fault, b, w) ne later = absurd (ne refl)

  update_loop-ends :
      (turns rounds count n : ℕ) (b : Binder Double) (items : List (StreamItem Double)) (w : World)
      → b.params ≡ some items
      → IsShaped n b
      → length (rows_left b) < turns
      → IsUpdated p engine (update_loop p engine view_init turns rounds count b w)
  unfolding update_loop
  update_loop-ends zero rounds count n b items w given shaped enough =
      absurd (omega (arith, enough))
  update_loop-ends (suc turns) rounds count n b items w given shaped enough =
      let taken = bind_next-Taken n b items w given shaped in
      run-ends rounds (update_loop p engine view_init turns rounds) count
        (bind_next p engine view_init b w) taken.faultless
        λ is count' w'.
          update_loop-ends turns rounds count' n (bind_next p engine view_init b w).1
            (taken.params is).0 w' (taken.params is).1 (taken.shaped is)
            (omega (arith, taken.fewer is, enough))

  pub execute_update-ends :
      (turns rounds n : ℕ) (b : Binder Double) (w : World)
      → IsGiven b
      → IsShaped n b
      → length (rows_left b) < turns
      → IsUpdated p engine (execute_update p engine view_init turns rounds b w)
  unfolding execute_update
  execute_update-ends turns rounds n b w given shaped enough = by_schema b.schema refl
    where
      by_schema :
          (schema : Option (List Field))
          → b.schema ≡ schema
          → IsUpdated p engine (update_by p engine view_init schema turns rounds b w)
      by_schema none e =
          after_rows-ends (update_end p engine view_init StatusCode.ok) b _
            (count_rows-ends rounds 0 (step w) (no_rows w))
            λ rows w'. update_end-ends StatusCode.ok rows b w'
      by_schema (some fields) e =
          let (items, h) = given fields e in
          update_loop-ends turns rounds 0 n b items w h shaped enough
