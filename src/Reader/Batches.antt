-- ===== src/Reader/Batches.antt =====
-- What `StatementReaderGetNext` hands out, call by call, without bound parameters.
use arrow_adbc.Base.{
  ℕ, suc, ◌+◌, ◌-◌, ◌<◌, ◌≡◌, ◌∙◌, ap, refl, Bool, true, false, Option, none, some, List, [], ◌∷◌,
  ◌++◌, append_assoc, append-nil, map, length, length-append, ◌==◌, arith,
}
use arrow_adbc.Adbc.{StatusCode, done}
use arrow_adbc.Platform.{Platform, ArrowType}
use arrow_adbc.Engine.{Engine, ResultCode}
use arrow_adbc.Params.{Binder, BindResult}
use arrow_adbc.Binder.{bind_next}
use arrow_adbc.Export.{Turn}
use arrow_adbc.Stream.{Slot, Batch, Reader}
use arrow_adbc.Reader.{
  Builder, Filling, fill_turn, fill_loop, finish_columns, fill_end, read_batch, get_next,
}
use arrow_adbc.Reader.Rows.{Appends, RowFits, Fetched, slots, get_row-slots}

module _ (p : Platform) (engine : Engine p.Double) (view_init : ℕ → Bool)
    (builder : Builder p.Double) (takes : Appends builder) (types : List ArrowType) where
  open p use {Double}
  open engine use {World, step}

  -- The loop's variables after the rows `ws`.
  abbrev filled : List World → Binder Double → World → Filling p engine
  filled ws b w = record {
    columns = slots p engine 0 types ws;
    num_rows = length ws;
    ended = false;
    status = none;
    binder = b;
    world = w;
  }

  turn-filled :
      (before : List World) (b : Binder Double) (w w1 : World)
      → step w ≡ (ResultCode.row, w1)
      → RowFits p engine 0 types w1
      → fill_turn p engine view_init builder false types (filled before b w)
        ≡ done (Turn.again (filled (before ++ w1 ∷ []) b w1))
  unfolding fill_turn
  turn-filled before b w w1 stepped fits = rw (
    stepped,
    get_row-slots p engine view_init builder takes 0 types before w1 fits,
    length-append before (w1 ∷ []),
  )

  loop-filled :
      (left : ℕ) (before : List World) (b : Binder Double) {w w' : World} {ws : List World}
      → Fetched p engine types w ws w'
      → fill_loop p engine view_init builder false types (length ws + left) (filled before b w)
        ≡ fill_loop p engine view_init builder false types left (filled (before ++ ws) b w')
  unfolding fill_loop
  loop-filled left before b Fetched.end =
      let same_left : 0 + left ≡ left = omega arith in rw (same_left, append-nil)
  loop-filled left before b {w = w} (Fetched.next w1 {ws = ws} stepped fits more) =
      let one_turn : suc (length ws) + left ≡ suc (length ws + left) = omega arith in
      rw (one_turn, turn-filled before b w w1 stepped fits)
        (loop-filled left (before ++ w1 ∷ []) b more ∙ rw append_assoc)

  finish-none :
      (columns : List (List (Slot Double)))
      → finish_columns p engine view_init builder columns ≡ none
  unfolding finish_columns
  finish-none [] = refl
  finish-none (out ∷ columns) = rw (finish_columns, takes.finish out, finish-none columns)

  -- A batch that is empty is not handed out.
  abbrev pub handed : List World → Option (Batch Double)
  handed [] = none
  handed (w ∷ ws) = some (Batch.built (length (w ∷ ws)) (slots p engine 0 types (w ∷ ws)))

  -- A stream whose first batch is handed out.
  abbrev pub later : List (List ℕ × ArrowType) → ℕ → Reader Double
  later schema batch_size = record {
    types = some types;
    schema = some schema;
    initial_batch = none;
    has_binder = false;
    ended = false;
    batch_size = batch_size;
  }

  empty_columns :
      (schema : List (List ℕ × ArrowType)) (types : List ArrowType) (col : ℕ)
      → length schema ≡ length types
      → map (λ field. []) schema ≡ slots p engine col types []
  empty_columns [] [] col h = refl
  empty_columns (f ∷ schema) (ty ∷ types) col h =
      ap (λ t. [] ∷ t) (empty_columns schema types (col + 1) (omega arith))
  empty_columns [] (ty ∷ types) col h = absurd (omega arith)
  empty_columns (f ∷ schema) [] col h = absurd (omega arith)

  fill_end-handed :
      (schema : List (List ℕ × ArrowType)) (batch_size : ℕ) (ws : List World) (ended : Bool)
      (b : Binder Double) (w : World)
      → fill_end p engine view_init builder
          (later schema batch_size)
          (record (filled ws b w) { ended = ended })
        ≡ (none, handed ws, record (later schema batch_size) { ended = ended }, b, w)
  unfolding fill_end
  fill_end-handed schema batch_size [] ended b w = rw (finish-none (slots p engine 0 types []))
  fill_end-handed schema batch_size (v ∷ ws) ended b w =
      let some_rows : (suc (length ws) == 0) ≡ false = ground arith in
      rw (finish-none (slots p engine 0 types (v ∷ ws)), some_rows)

  -- The rest of a result that has fewer rows than a batch takes, all of which fit the types of the
  -- first batch: the call hands out exactly these rows, or no batch if there are none, without an
  -- error, and the stream is at its end.
  pub get_next-last :
      (schema : List (List ℕ × ArrowType)) (batch_size : ℕ) (b : Binder Double) (w : World)
      (ws : List World) (w' w'' : World)
      → length schema ≡ length types
      → Fetched p engine types w ws w'
      → step w' ≡ (ResultCode.done, w'')
      → length ws < batch_size
      → get_next p engine view_init builder (later schema batch_size) b w
        ≡ done (none, handed ws, record (later schema batch_size) { ended = true }, b, w'')
  unfolding get_next read_batch fill_loop fill_turn
  get_next-last schema batch_size b w ws w' w'' same rows stopped room =
      let left : ℕ = batch_size - length ws - 1 in
      let total : length ws + suc left ≡ batch_size = omega arith in
      let last : fill_loop p engine view_init builder false types (suc left) (filled ws b w')
          ≡ done (record (filled ws b w'') { ended = true }) =
        rw stopped in
      let loop = rw total at (loop-filled (suc left) [] b rows ∙ last) in
      rw (read_batch, takes.start schema, empty_columns schema types 0 same, loop)
        (ap done (fill_end-handed schema batch_size ws true b w''))

  -- Rows that fit the types of the first batch and are as many as a batch takes, at least one: the
  -- call hands out exactly these rows without asking the engine for more, and the stream goes on.
  pub get_next-full :
      (schema : List (List ℕ × ArrowType)) (batch_size : ℕ) (b : Binder Double) (w : World)
      (ws : List World) (w' : World)
      → length schema ≡ length types
      → Fetched p engine types w ws w'
      → length ws ≡ batch_size
      → get_next p engine view_init builder (later schema batch_size) b w
        ≡ done (none, handed ws, later schema batch_size, b, w')
  unfolding get_next read_batch fill_loop
  get_next-full schema batch_size b w ws w' same rows full =
      let total : length ws + 0 ≡ batch_size = omega arith in
      let loop = rw total at (loop-filled 0 [] b rows) in
      rw (read_batch, takes.start schema, empty_columns schema types 0 same, loop)
        (ap done (fill_end-handed schema batch_size ws false b w'))

  -- Where binding the next parameters fails before the first row of a batch, for whatever reason,
  -- the call reports no error: it is the end of the stream.
  pub get_next-unbound :
      (schema : List (List ℕ × ArrowType)) (rows : ℕ) (b b' : Binder Double) (w w' : World)
      (status : StatusCode)
      → bind_next p engine view_init b w ≡ (BindResult.failed status, b', w')
      → length schema ≡ length types
      → get_next p engine view_init builder
          (record (later schema (suc rows)) { has_binder = true })
          b
          w
        ≡ done (
          none,
          none,
          record (later schema (suc rows)) { has_binder = true; ended = true },
          b',
          w',
        )
  unfolding get_next read_batch fill_loop fill_turn fill_end
  get_next-unbound schema rows b b' w w' status refused same = rw (
    read_batch,
    takes.start schema,
    empty_columns schema types 0 same,
    refused,
    finish-none (slots p engine 0 types []),
  )
