-- ===== src/Update/Rows.antt =====
-- An update with parameters runs its statement once for each row of them.
use arrow_adbc.Base.{
  ℕ, zero, suc, ◌+◌, ◌<◌, ◌≤◌, ◌≡◌, ◌≢◌, ◌∙◌, ap, refl, Bool, true, Option, some, none, List, [],
  ◌∷◌, length, arith,
}
use arrow_adbc.Adbc.{StatusCode}
use arrow_adbc.Platform.{Platform, ArrowType}
use arrow_adbc.Engine.{Engine, ResultCode}
use arrow_adbc.Params.{Row, Field, StreamItem, Binder, BindResult, release, fields_of, types_of}
use arrow_adbc.Params.Rows.{rows_left, items_of, Keeps, stream_end}
use arrow_adbc.Binder.{bind_columns, bind_next}
use arrow_adbc.Binder.Take.{some_fields, some_types, after_load-bound, Stream, loaded, ended}
use arrow_adbc.Update.{Updated, count_rows, update_loop, update_by, execute_update}

module _ (p : Platform) (engine : Engine p.Double) (view_init : ℕ → Bool) where
  open p use {Double}
  open engine use {World, step, reset, clear_bindings}

  -- The statement gives so many rows and then another code.
  pub data Steps : ℕ → World → World → Type 0 where
    stop :
        {w : World} (rc : ResultCode) {w' : World}
        → step w ≡ (rc, w')
        → rc ≢ ResultCode.row
        → Steps 0 w w'
    result_row :
        {n : ℕ} {w : World} (w1 : World) {w' : World}
        → step w ≡ (ResultCode.row, w1)
        → Steps n w1 w'
        → Steps (suc n) w w'

  -- The engine runs the statement for these rows of parameters, with `total` rows of results, at most
  -- `rounds` for each.
  pub data Runs (rounds : ℕ) (fields : List Field) (types : List ArrowType)
      : List (Row Double) → ℕ → World → World → Type 0 where
    end : {w : World} → Runs rounds fields types [] 0 w w
    next :
        {row : Row Double} {rows : List (Row Double)} (n m : ℕ) {total : ℕ} {w : World}
        (w1 w2 w3 w4 : World) {w' : World}
        → reset w ≡ (true, w1)
        → clear_bindings w1 ≡ (true, w2)
        → bind_columns p engine view_init 0 fields types row w2 ≡ (BindResult.bound, w3)
        → Steps n w3 w4
        → n ≤ rounds
        → total ≡ n + m
        → Runs rounds fields types rows m w4 w'
        → Runs rounds fields types (row ∷ rows) total w w'

  count_rows-stop :
      (rounds rows : ℕ) (rc : ResultCode) (w : World)
      → rc ≢ ResultCode.row
      → count_rows p engine view_init rounds rows (rc, w) ≡ some (rows, w)
  unfolding count_rows
  count_rows-stop zero rows ResultCode.row w other = absurd (other refl)
  count_rows-stop (suc rounds) rows ResultCode.row w other = absurd (other refl)
  count_rows-stop zero rows rc w other = refl
  count_rows-stop (suc rounds) rows rc w other = refl

  count_rows-Steps :
      (rounds rows : ℕ) {n : ℕ} {w w' : World}
      → Steps n w w'
      → n ≤ rounds
      → count_rows p engine view_init rounds rows (step w) ≡ some (rows + n, w')
  unfolding count_rows
  count_rows-Steps rounds rows (Steps.stop rc {w' = w'} stepped other) enough =
      let same : rows + 0 ≡ rows = omega arith in
      rw (stepped, same) (count_rows-stop rounds rows rc w' other)
  count_rows-Steps zero rows (Steps.result_row w1 stepped more) enough = absurd (omega arith)
  count_rows-Steps (suc rounds) rows (Steps.result_row {n = n} w1 stepped more) enough =
      let total : rows + suc n ≡ rows + 1 + n = omega arith in
      rw (stepped, total) (count_rows-Steps rounds (rows + 1) more (omega arith))

  module _ (readable : (n : ℕ) → view_init n ≡ true) (schema : Option (List Field))
      (types : Option (List ArrowType)) where
    loop-Runs :
        (turns rounds count : ℕ) (b : Binder Double) (rows : List (Row Double)) (total : ℕ)
        (w w' w'' : World)
        → Stream p engine view_init readable schema types b
        → rows_left b ≡ rows
        → Runs rounds
            (some_fields p engine view_init schema)
            (some_types p engine view_init types)
            rows
            total
            w
            w'
        → length rows < turns
        → reset w' ≡ (true, w'')
        → update_loop p engine view_init turns rounds count b w
          ≡ Updated.updated StatusCode.ok (count + total) (release b) w''
    unfolding update_loop bind_next release
    loop-Runs zero rounds count b rows total w w' w'' keeps left h enough ok = absurd (omega arith)
    loop-Runs (suc turns) rounds count b rows total w w' w'' keeps left Runs.end enough ok =
        let (b', over) =
          ended p engine view_init readable schema types b (rows_left b) w _ left
            (loaded p engine view_init readable schema types b keeps) in
        let same : count + 0 ≡ count = omega arith in rw (over, ok, same)
    loop-Runs (suc turns) rounds count b rows total w w' w'' keeps left
          (Runs.next {row = row} {rows = more} n m w1 w2 w3 w4 e c bind steps fits sum later) enough
          ok =
        let (b', run, rest, keeps') =
          after_load-bound p engine view_init schema types BindResult.finished row more w w1 w2 w3 _
            (rw left at (loaded p engine view_init readable schema types b keeps)) e c bind in
        let all : count + total ≡ count + n + m = omega arith in
        rw (run, count_rows-Steps rounds count steps fits, all)
          (loop-Runs turns rounds (count + n) b' more m w4 w' w'' keeps' rest later (omega arith)
            ok)

  -- Where the stream of parameters ends well, the view can be set up again, the engine runs the
  -- statement for each of the rows that are left, and the reset at the end succeeds, the update runs
  -- it once for each row, in order, returns `ADBC_STATUS_OK` with the number of all result rows, and
  -- releases the binder. One turn more than there are rows is enough, with as many rounds in each as
  -- the statement has rows.
  pub execute_update-Runs :
      (b : Binder Double) (fields : List Field) (items : List (StreamItem Double))
      (turns rounds total : ℕ) (w w' w'' : World)
      → ((n : ℕ) → view_init n ≡ true)
      → b.schema ≡ some fields
      → b.params ≡ some items
      → stream_end items ≡ BindResult.finished
      → Runs rounds (fields_of b) (types_of b) (rows_left b) total w w'
      → length (rows_left b) < turns
      → reset w' ≡ (true, w'')
      → execute_update p engine view_init turns rounds b w
        ≡ Updated.updated StatusCode.ok total (release b) w''
  unfolding execute_update
  execute_update-Runs b fields items turns rounds total w w' w'' readable given_schema given ends
        runs enough ok =
      let stop : stream_end (items_of b.params) ≡ BindResult.finished =
        ap (λ q. stream_end (items_of q)) given ∙ ends in
      let keeps : Keeps b.schema b.types BindResult.finished b = record {
        schema_eq = refl;
        types_eq = refl;
        params = (items, given);
        stop_eq = stop;
      } in
      let from_zero : 0 + total ≡ total = omega arith in
      let loop = rw from_zero at (
        loop-Runs readable b.schema b.types turns rounds 0 b (rows_left b) total w w' w'' keeps refl
          runs enough ok) in
      with_schema b.schema given_schema ∙ loop
    where
      with_schema :
          (schema : Option (List Field))
          → schema ≡ some fields
          → update_by p engine view_init schema turns rounds b w
            ≡ update_loop p engine view_init turns rounds 0 b w
      with_schema none e = cc
      with_schema (some given) e = refl
