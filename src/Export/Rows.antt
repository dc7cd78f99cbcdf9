-- ===== src/Export/Rows.antt =====
-- What the export reads, described from the engine's side: the states of the engine at the rows of
-- the result, and for each column the abstract column of its values in those states.
use arrow_adbc.Base.{
  ℕ, Bool, ◌+◌, ◌<◌, ◌≡◌, refl, some, List, [], ◌∷◌, ◌++◌, map, map-append, length, length-map,
  arith,
}
use arrow_adbc.Adbc.{done}
use arrow_adbc.Platform.{Platform, IsPlatform, Allocates, Value}
use arrow_adbc.Engine.{Engine, ResultCode}
use arrow_adbc.Infer.{Column}
use arrow_adbc.Infer.Logical.{Logical, count}
use arrow_adbc.Infer.Refines.{Refines}
use arrow_adbc.Infer.Run.{IsReadable, logical_run, logical_run-snoc, logical_run-count}
use arrow_adbc.Infer.Done.{infer_one_value-done}
use arrow_adbc.Export.{infer_row}

module _ {Double : Type 0} (engine : Engine Double) where
  open engine use {World, step, column}

  -- From one state `sqlite3_step` reaches rows, at the states listed, up to a last state. Every value
  -- of such a row can be read.
  pub data Rows : World → List World → World → Type 0 where
    end : {w : World} → Rows w [] w
    next :
        {w : World} (w1 : World) {ws : List World} {w2 : World}
        → step w ≡ (ResultCode.row, w1)
        → ((col : ℕ) → IsReadable (column w1 col))
        → Rows w1 ws w2
        → Rows w (w1 ∷ ws) w2

  abbrev pub values : ℕ → List World → List (Value Double)
  values col ws = map (λ w. column w col) ws

module _ (p : Platform) (engine : Engine p.Double) where
  open p use {Double}
  open engine use {World, column}

  -- Each column, from `col` on, holds the abstract column of its values in the states `ws`.
  abbrev pub AllHold : ℕ → List World → ℕ → List (Column Double) → Type 0
  AllHold rows ws col [] = Unit
  AllHold rows ws col (c ∷ columns) =
      ((l : Logical Double) × (logical_run p (values engine col ws) (Logical.ints []) ≡ some l)
        × Refines rows c l)
      × AllHold rows ws (col + 1) columns

  module _ (view_init : ℕ → Bool) (valid : IsPlatform p) (memory : Allocates p) where
    -- One more row is added to every column.
    pub infer_row-done :
        (rows : ℕ) (ws : List World) (w : World) (col : ℕ) (columns : List (Column Double))
        → AllHold rows ws col columns
        → length ws < rows
        → ((col : ℕ) → IsReadable (column w col))
        → (columns' : List (Column Double)) × (infer_row p engine view_init col columns w
            ≡ done columns')
          × AllHold rows (ws ++ w ∷ []) col columns'
          × (length columns' ≡ length columns)
    unfolding infer_row
    infer_row-done rows ws w col [] h room readable = ([], refl, tt, refl)
    infer_row-done rows ws w col (c ∷ columns) ((l, run, held), rest) room readable =
        let v : Value Double = column w col in
        let counted : count l ≡ length ws = omega (
          arith,
          logical_run-count p (values engine col ws) (Logical.ints []) run,
          length-map (λ w. column w col) ws,
        ) in
        let (c', taken, more) =
          infer_one_value-done p valid memory v c l held (omega (arith, counted)) (readable col) in
        let (l', stepped, held') = more in
        let (columns', row, rest', same) =
          infer_row-done rows ws w (col + 1) columns rest room readable in
        let extended : logical_run p (values engine col (ws ++ w ∷ [])) (Logical.ints [])
            ≡ some l' =
          rw (map-append, logical_run-snoc p (values engine col ws) v (Logical.ints []), run)
            stepped in
        (c' ∷ columns', rw (taken, row), ((l', extended, held'), rest'), omega (arith, same))
