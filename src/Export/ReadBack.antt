-- ===== src/Export/ReadBack.antt =====
-- One column of an exported batch, as an Arrow consumer reads it.
use arrow_adbc.Base.{
  ◌⊎◌, inl, inr, ◌≤◌, ltb, ltb→lt, Bool-cases, ℕ, Bool, false, true, ◌+◌, ◌<◌, ◌≡◌, ◌∙◌, sym, refl,
  ◌^◌, some, List, [], ◌∷◌, length, arith,
}
use arrow_adbc.Adbc.{done, StatusCode}
use arrow_adbc.Platform.{Platform, IsPlatform, Allocates, ArrowType}
use arrow_adbc.Memory.{Bytes, Cell}
use arrow_adbc.Engine.{Engine, ResultCode}
use arrow_adbc.Params.{Binder}
use arrow_adbc.Export.{export_reader}
use arrow_adbc.Export.Complete.{exported, export_complete, export_full}
use arrow_adbc.Infer.{Column}
use arrow_adbc.Infer.Logical.{Logical, type_of}
use arrow_adbc.Infer.Refines.{Content, Refines}
use arrow_adbc.Infer.Run.{logical_run, widest, type_of-logical_run}
use arrow_adbc.Infer.Decode.{read_column, read_column-Refines}
use arrow_adbc.Export.Rows.{Rows, values, AllHold}

type_of-Content :
    {Double : Type 0} {binary : Bytes} {ty : ArrowType} {bits : List Bool}
    {cells : List (Cell Double)} {l : Logical Double}
    → Content binary ty bits cells l
    → ty ≡ type_of l
type_of-Content (Content.ints r) = refl
type_of-Content (Content.doubles r) = refl
type_of-Content (Content.strings r positive) = refl

module _ (p : Platform) (engine : Engine p.Double) where
  open p use {Double}
  open engine use {World}

  -- What an Arrow consumer reads of a column that has fewer than 2^31 bytes of text: the engine's
  -- values in it, at their widest type.
  abbrev pub ColumnReads : List World → ℕ → Column Double → Type 0
  ColumnReads ws col c =
      (2 ^ 31 ≤ length c.binary.chars)
      ⊎ ((read_column c ≡ logical_run p (values engine col ws) (Logical.ints []))
          × (c.current_type ≡ widest (values engine col ws)))

  -- The same of each column, from `col` on.
  abbrev pub ReadsBack : List World → ℕ → List (Column Double) → Type 0
  ReadsBack ws col [] = Unit
  ReadsBack ws col (c ∷ columns) = ColumnReads ws col c × ReadsBack ws (col + 1) columns

  column-ColumnReads :
      {rows : ℕ} (ws : List World) (col : ℕ) (c : Column Double) (l : Logical Double)
      → logical_run p (values engine col ws) (Logical.ints []) ≡ some l
      → Refines rows c l
      → ColumnReads ws col c
  column-ColumnReads ws col c l run held =
      elim (Bool-cases (ltb (length c.binary.chars) (2 ^ 31))) [
        | inl fits ↦ inr (
          read_column-Refines c l held (ltb→lt (length c.binary.chars) (2 ^ 31) fits) ∙ sym run,
          type_of-Content held.content ∙ type_of-logical_run p (values engine col ws) l run,
        )
        | inr long ↦ inl (too_long (length c.binary.chars) long)
      ]
    where
      too_long : (n : ℕ) → ltb n (2 ^ 31) ≡ false → 2 ^ 31 ≤ n
      too_long n e = ground arith

  columns-ReadsBack :
      (rows : ℕ) (ws : List World) (col : ℕ) (columns : List (Column Double))
      → AllHold p engine rows ws col columns
      → ReadsBack ws col columns
  columns-ReadsBack rows ws col [] h = tt
  columns-ReadsBack rows ws col (c ∷ columns) ((l, run, held), rest) =
      (column-ColumnReads ws col c l run held, columns-ReadsBack rows ws (col + 1) columns rest)

module _ (p : Platform) (engine : Engine p.Double) (view_init : ℕ → Bool) (valid : IsPlatform p)
    (memory : Allocates p) where
  open p use {Double}
  open engine use {World, step, column_count}

  -- Without parameters, and with memory at hand, a result of fewer rows than the batch size, all of
  -- readable values, is exported whole: the call returns `ADBC_STATUS_OK` and the stream is at its
  -- end; its first batch has all the rows and a column for each of the engine's. Each column with
  -- fewer than 2^31 bytes of text reads back, by the Arrow format, as the values that the engine had
  -- in it, and its type is the widest of theirs.
  pub export-ReadsBack :
      (batch_size : ℕ) (b : Binder Double) (w : World) (ws : List World) (w' w'' : World)
      → Rows engine w ws w'
      → step w' ≡ (ResultCode.done, w'')
      → length ws < batch_size
      → (columns : List (Column Double)) × (export_reader p engine view_init false batch_size b w
          ≡ done (
            StatusCode.ok,
            exported p engine view_init batch_size columns w'' true (length ws),
            b,
            w'',
          ))
        × ReadsBack p engine ws 0 columns
        × (length columns ≡ column_count w)
  export-ReadsBack batch_size b w ws w' w'' rows stopped room =
      let (columns, run, held, size) =
        export_complete p engine view_init valid memory batch_size b w ws w' w'' rows stopped
          room in
      (columns, run, columns-ReadsBack p engine batch_size ws 0 columns held, size)

  -- Without parameters, and with memory at hand, a result of at least as many readable rows as the
  -- batch size fills the first batch, without asking the engine for more, and the stream is not at
  -- its end. Each column with fewer than 2^31 bytes of text reads back as the engine's values.
  pub export_full-ReadsBack :
      (batch_size : ℕ) (b : Binder Double) (w : World) (ws : List World) (w' : World)
      → Rows engine w ws w'
      → length ws ≡ batch_size
      → (columns : List (Column Double)) × (export_reader p engine view_init false batch_size b w
          ≡ done (
            StatusCode.ok,
            exported p engine view_init batch_size columns w' false (length ws),
            b,
            w',
          ))
        × ReadsBack p engine ws 0 columns
        × (length columns ≡ column_count w)
  export_full-ReadsBack batch_size b w ws w' rows full =
      let (columns, run, held, size) =
        export_full p engine view_init valid memory batch_size b w ws w' rows full in
      (columns, run, columns-ReadsBack p engine batch_size ws 0 columns held, size)
