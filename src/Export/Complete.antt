-- ===== src/Export/Complete.antt =====
-- The whole export without bound parameters: the first batch has the rows of the result up to the
-- batch size, and its buffers read back as the values of the engine.
use arrow_adbc.Base.{
  ℕ, zero, suc, ◌+◌, ◌-◌, ◌<◌, ◌≤◌, ◌≡◌, ◌∙◌, ap, refl, Bool, true, false, some, List, [], ◌∷◌,
  ◌++◌, append_assoc, append-nil, map, length, length-append, arith,
}
use arrow_adbc.Adbc.{done, StatusCode}
use arrow_adbc.Platform.{Platform, IsPlatform, Allocates, ArrowType}
use arrow_adbc.Engine.{Engine, ResultCode}
use arrow_adbc.Params.{Binder}
use arrow_adbc.Stream.{Reader, Batch}
use arrow_adbc.Memory.{Cell, Bytes}
use arrow_adbc.Infer.{Column, initialize_infer}
use arrow_adbc.Infer.Logical.{Logical}
use arrow_adbc.Infer.Refines.{Content}
use arrow_adbc.Infer.Done.{initial_column-done}
use arrow_adbc.Infer.Run.{logical_run, IsReadable}
use arrow_adbc.Export.{
  Turn, Exporting, unbacked, export_turn, export_loop, any_unbacked, fields, export_end,
  export_reader, fresh_reader,
}
use arrow_adbc.Export.Rows.{Rows, AllHold, infer_row-done}

backed :
    {Double : Type 0} {binary : Bytes} {ty : ArrowType} {bits : List Bool}
    {cells : List (Cell Double)} {l : Logical Double}
    → Content binary ty bits cells l
    → unbacked ty binary.capacity ≡ false
backed (Content.ints r) = refl
backed (Content.doubles r) = refl
backed (Content.strings r positive) = ground arith

module _ (p : Platform) (engine : Engine p.Double) (view_init : ℕ → Bool) where
  open p use {Double}
  open engine use {World}

  -- The stream that a successful export leaves.
  abbrev pub exported : ℕ → List (Column Double) → World → Bool → ℕ → Reader Double
  exported batch_size columns w ended num_rows = record {
    types = some (map (λ c. c.current_type) columns);
    schema = some (fields p engine view_init 0 columns w);
    initial_batch = some (Batch.inferred num_rows columns);
    has_binder = false;
    ended = ended;
    batch_size = batch_size;
  }

module _ (p : Platform) (engine : Engine p.Double) (view_init : ℕ → Bool) (valid : IsPlatform p)
    (memory : Allocates p) where
  open p use {Double}
  open engine use {World, step, column, column_count}

  -- The loop's variables after `n` rows.
  abbrev running : List (Column Double) → ℕ → Binder Double → World → Exporting p engine
  running columns n b w = record {
    columns = columns;
    num_rows = n;
    ended = false;
    status = StatusCode.ok;
    binder = b;
    world = w;
  }

  turn-row :
      (rows n : ℕ) (before : List World) (columns : List (Column Double)) (b : Binder Double)
      (w w1 : World)
      → step w ≡ (ResultCode.row, w1)
      → ((col : ℕ) → IsReadable (column w1 col))
      → AllHold p engine rows before 0 columns
      → length before < rows
      → (columns' : List (Column Double)) × (export_turn p engine view_init false
            (running columns n b w)
          ≡ done (Turn.again (running columns' (n + 1) b w1)))
        × AllHold p engine rows (before ++ w1 ∷ []) 0 columns'
        × (length columns' ≡ length columns)
  unfolding export_turn
  turn-row rows n before columns b w w1 stepped readable h room =
      let (columns', row, held, same) =
        infer_row-done p engine view_init valid memory rows before w1 0 columns h room readable in
      (columns', rw (stepped, row), held, same)

  loop-rows :
      (rows left n : ℕ) (before : List World) (columns : List (Column Double)) (b : Binder Double)
      {w w' : World} {ws : List World}
      → Rows engine w ws w'
      → AllHold p engine rows before 0 columns
      → length before + length ws ≤ rows
      → (columns' : List (Column Double)) × (export_loop p engine view_init false
            (length ws + left)
            (running columns n b w)
          ≡ export_loop p engine view_init false left (running columns' (n + length ws) b w'))
        × AllHold p engine rows (before ++ ws) 0 columns'
        × (length columns' ≡ length columns)
  unfolding export_loop
  loop-rows rows left n before columns b Rows.end h room =
      let same_count : n + 0 ≡ n = omega arith in
      let same_left : 0 + left ≡ left = omega arith in
      (columns, rw (same_count, same_left), rw append-nil h, refl)
  loop-rows rows left n before columns b {w = w} (Rows.next w1 {ws = ws} stepped readable more) h
        room =
      let (columns1, turn, held, same) =
        turn-row rows n before columns b w w1 stepped readable h (omega arith) in
      let (columns2, loop, held2, same2) =
        loop-rows rows left (n + 1) (before ++ w1 ∷ []) columns1 b more held
          (omega (arith, length-append before (w1 ∷ []))) in
      let one_turn : suc (length ws) + left ≡ suc (length ws + left) = omega arith in
      let one_row : n + suc (length ws) ≡ n + 1 + length ws = omega arith in
      (columns2, rw (one_turn, one_row, turn) loop, rw append_assoc at held2, same2 ∙ same)

  initialize-done :
      (rows col n : ℕ)
      → (columns : List (Column Double)) × (initialize_infer p n rows ≡ done columns)
        × AllHold p engine rows [] col columns
        × (length columns ≡ n)
  unfolding initialize_infer logical_run
  initialize-done rows col zero = ([], refl, tt, refl)
  initialize-done rows col (suc n) =
      let (c, fresh, held) = initial_column-done p valid memory rows in
      let (columns, more, all, size) = initialize-done rows (col + 1) n in
      (c ∷ columns, rw (fresh, more), ((Logical.ints [], refl, held), all), ap suc size)

  all_backed :
      (rows col : ℕ) (ws : List World) (columns : List (Column Double))
      → AllHold p engine rows ws col columns
      → any_unbacked p engine view_init columns ≡ false
  unfolding any_unbacked
  all_backed rows col ws [] h = refl
  all_backed rows col ws (c ∷ columns) ((l, run, held), rest) =
      rw (backed held.content, all_backed rows (col + 1) ws columns rest)

  -- The loop's end, from its variables there.
  export_end-done :
      (batch_size : ℕ) (b : Binder Double) (w : World) (ws : List World)
      (columns : List (Column Double)) (ended : Bool)
      → AllHold p engine batch_size ws 0 columns
      → export_end p engine view_init false
          (fresh_reader p engine view_init batch_size)
          (record (running columns (length ws) b w) { ended = ended })
        ≡ (StatusCode.ok, exported p engine view_init batch_size columns w ended (length ws), b, w)
  unfolding export_end
  export_end-done batch_size b w ws columns ended held = rw (
    memory.schema (fields p engine view_init 0 columns w),
    all_backed batch_size 0 ws columns held,
  )

  loop-end :
      (left n : ℕ) (columns : List (Column Double)) (b : Binder Double) (w w' : World)
      → step w ≡ (ResultCode.done, w')
      → export_loop p engine view_init false (suc left) (running columns n b w)
        ≡ done (record (running columns n b w') { ended = true })
  unfolding export_loop export_turn
  loop-end left n columns b w w' stopped = rw stopped

  -- A result of fewer rows than the batch size, all of readable values, is exported whole: the call
  -- returns `ADBC_STATUS_OK`, the stream is at its end, the binder is untouched, and the first
  -- batch has all the rows, with one column for each of the result, and in each the values that the
  -- engine had there, widened to one type.
  pub export_complete :
      (batch_size : ℕ) (b : Binder Double) (w : World) (ws : List World) (w' w'' : World)
      → Rows engine w ws w'
      → step w' ≡ (ResultCode.done, w'')
      → length ws < batch_size
      → (columns : List (Column Double)) × (export_reader p engine view_init false batch_size b w
          ≡ done (
            StatusCode.ok,
            exported p engine view_init batch_size columns w'' true (length ws),
            b,
            w'',
          ))
        × AllHold p engine batch_size ws 0 columns
        × (length columns ≡ column_count w)
  unfolding export_reader
  export_complete batch_size b w ws w' w'' rows stopped room =
      let (start, fresh, empty, size) = initialize-done batch_size 0 (column_count w) in
      let left : ℕ = batch_size - length ws - 1 in
      let (columns, loop, held, same) =
        loop-rows batch_size (suc left) 0 [] start b rows empty (omega arith) in
      let total : length ws + suc left ≡ batch_size = omega arith in
      let counted : 0 + length ws ≡ length ws = omega arith in
      let whole : export_loop p engine view_init false batch_size (running start 0 b w)
          ≡ done (record (running columns (length ws) b w'') { ended = true }) =
        rw (total, counted) at (loop ∙ loop-end left (0 + length ws) columns b w' w'' stopped) in
      (
        columns,
        rw (fresh, whole) (ap done (export_end-done batch_size b w'' ws columns true held)),
        held,
        same ∙ size,
      )

  -- A result of at least as many rows as the batch size fills the first batch: the call stops after
  -- that many rows, without asking the engine for more, and the stream is not at its end.
  pub export_full :
      (batch_size : ℕ) (b : Binder Double) (w : World) (ws : List World) (w' : World)
      → Rows engine w ws w'
      → length ws ≡ batch_size
      → (columns : List (Column Double)) × (export_reader p engine view_init false batch_size b w
          ≡ done (
            StatusCode.ok,
            exported p engine view_init batch_size columns w' false (length ws),
            b,
            w',
          ))
        × AllHold p engine batch_size ws 0 columns
        × (length columns ≡ column_count w)
  unfolding export_reader export_loop
  export_full batch_size b w ws w' rows full =
      let (start, fresh, empty, size) = initialize-done batch_size 0 (column_count w) in
      let (columns, loop, held, same) =
        loop-rows batch_size 0 0 [] start b rows empty (omega arith) in
      let total : length ws + 0 ≡ batch_size = omega arith in
      let counted : 0 + length ws ≡ length ws = omega arith in
      let whole : export_loop p engine view_init false batch_size (running start 0 b w)
          ≡ done (running columns (length ws) b w') =
        rw total at (rw counted at loop) in
      (
        columns,
        rw (fresh, whole) (ap done (export_end-done batch_size b w' ws columns false held)),
        held,
        same ∙ size,
      )
