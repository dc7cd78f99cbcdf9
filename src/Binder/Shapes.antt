-- ===== src/Binder/Shapes.antt =====
-- Rows of as many values as there are columns are bound without a read out of bounds.
use arrow_adbc.Base.{
  ℕ, ◌+◌, ◌<◌, ◌≤◌, ◌≡◌, ◌≢◌, ◌∙◌, sym, ap, refl, Bool, true, false, Option, none, some, List, [],
  ◌∷◌, length, zero, suc, get_elem?, ltb, Bool-cases, inl, inr, arith,
}
use arrow_adbc.Adbc.{Outcome}
use arrow_adbc.Platform.{Platform, ArrowType}
use arrow_adbc.Engine.{Engine, Bound}
use arrow_adbc.Params.{
  Param, Row, Field, StreamItem, Binder, BindResult, bound, fields_of, types_of,
}
use arrow_adbc.Params.Rows.{rows_left, Keeps, stream_end}
use arrow_adbc.Binder.{
  int64_max, bind_uint, bind_value, sent, bind_taken, bind_typed, bind_column, bind_columns,
}
use arrow_adbc.Binder.Next.{Next}

abbrev width : {A : Type 0} → Option (List A) → ℕ
width none = 0
width (some xs) = length xs

abbrev pub AllShaped : {Double : Type 0} → ℕ → List (Row Double) → Type 0
AllShaped n [] = Unit
AllShaped n (row ∷ rows) = (length row ≡ n) × AllShaped n rows

-- A binder with `n` columns, and as many values in each row.
pub record IsShaped {Double : Type 0} (n : ℕ) (b : Binder Double) : Type 0 where
  pub field_count : length (fields_of b) ≡ n
  pub type_count : length (types_of b) ≡ n
  pub rows : AllShaped n (rows_left b)

module _ (p : Platform) where
  open p use {Double}

  bind_uint-ne-fault : (n : ℕ) → bind_uint {Double = Double} n ≢ Outcome.fault
  unfolding bind_uint
  bind_uint-ne-fault n e = elim (Bool-cases (ltb int64_max n)) [
    | inl over ↦ let refused = rw over at e in cc
    | inr fits ↦ let taken = rw fits at e in cc
  ]

  bind_value-ne-fault : (ty : ArrowType) (v : Param Double) → bind_value p ty v ≢ Outcome.fault
  unfolding bind_value
  bind_value-ne-fault ArrowType.uint8 v e = bind_uint-ne-fault v.uint e
  bind_value-ne-fault ArrowType.uint16 v e = bind_uint-ne-fault v.uint e
  bind_value-ne-fault ArrowType.uint32 v e = bind_uint-ne-fault v.uint e
  bind_value-ne-fault ArrowType.uint64 v e = bind_uint-ne-fault v.uint e
  bind_value-ne-fault other v e = cc

  pub stream_end-ne-fault : (items : List (StreamItem Double)) → stream_end items ≢ BindResult.fault
  unfolding stream_end
  stream_end-ne-fault [] e = cc
  stream_end-ne-fault (StreamItem.batch rows ∷ items) e = stream_end-ne-fault items e
  stream_end-ne-fault (StreamItem.failure code ∷ items) e = cc
  stream_end-ne-fault (StreamItem.malformed rows ∷ items) e = cc

  module _ (engine : Engine Double) (view_init : ℕ → Bool) where
    open engine use {World, bind}

    abbrev IsFaultless : BindResult × World → Type 0
    IsFaultless r = r.0 ≢ BindResult.fault

    sent-ne-fault :
        (rest : World → BindResult × World) (r : Bool × World)
        → ((w : World) → IsFaultless (rest w))
        → IsFaultless (sent p engine view_init rest r)
    sent-ne-fault rest (true, w) later = later w
    sent-ne-fault rest (false, w) later = λ e. cc

    taken-ne-fault :
        (rest : World → BindResult × World) (col : ℕ) (o : Outcome (Bound Double)) (w : World)
        → o ≢ Outcome.fault
        → ((w : World) → IsFaultless (rest w))
        → IsFaultless (bind_taken p engine view_init rest col o w)
    taken-ne-fault rest col (Outcome.done x) w ne later =
        sent-ne-fault rest (bind w (col + 1) x) later
    taken-ne-fault rest col (Outcome.failed status) w ne later = λ e. cc
    taken-ne-fault rest col Outcome.fault w ne later = absurd (ne refl)

    typed-ne-fault :
        (rest : World → BindResult × World) (col : ℕ) (o : Option ArrowType) (v : Param Double)
        (w : World)
        → o ≢ none
        → ((w : World) → IsFaultless (rest w))
        → IsFaultless (bind_typed p engine view_init rest col o v w)
    typed-ne-fault rest col none v w there later = absurd (there refl)
    typed-ne-fault rest col (some ty) v w there later =
        taken-ne-fault rest col (bind_value p ty v) w (bind_value-ne-fault ty v) later

    column-ne-fault :
        (rest : World → BindResult × World) (col : ℕ) (null : Bool) (o : Option ArrowType)
        (v : Param Double) (w : World)
        → o ≢ none
        → ((w : World) → IsFaultless (rest w))
        → IsFaultless (bind_column p engine view_init rest col null o v w)
    column-ne-fault rest col true o v w there later = sent-ne-fault rest _ later
    column-ne-fault rest col false o v w there later = typed-ne-fault rest col o v w there later

    get_elem-there : {A : Type 0} (xs : List A) (k : ℕ) → k < length xs → get_elem? xs k ≢ none
    get_elem-there [] k h = absurd (omega (arith, h))
    get_elem-there (x ∷ xs) zero h = λ e. cc
    get_elem-there (x ∷ xs) (suc k) h = get_elem-there xs k (omega (arith, h))

    bind_columns-ne-fault :
        (col : ℕ) (fields : List Field) (types : List ArrowType) (row : Row Double) (w : World)
        → length row ≡ length fields
        → col + length fields ≤ length types
        → IsFaultless (bind_columns p engine view_init col fields types row w)
    unfolding bind_columns
    bind_columns-ne-fault col [] types row w same fits = λ e. cc
    bind_columns-ne-fault col (f ∷ fields) types [] w same fits = absurd (omega (arith, same))
    bind_columns-ne-fault col (f ∷ fields) types (v ∷ row) w same fits =
        column-ne-fault (bind_columns p engine view_init (col + 1) fields types row) col v.is_null
          (get_elem? types col) v w (get_elem-there types col (omega (arith, fits)))
          λ w'.
            bind_columns-ne-fault (col + 1) fields types row w' (omega (arith, same))
              (omega (arith, fits))

    fields_of-width : (b : Binder Double) → length (fields_of b) ≡ width b.schema
    fields_of-width b = by_schema b.schema
      where
        by_schema :
            (o : Option (List Field))
            → length (elim o [ none ↦ [] | some fields ↦ fields ]) ≡ width o
        by_schema none = refl
        by_schema (some fields) = refl

    types_of-width : (b : Binder Double) → length (types_of b) ≡ width b.types
    types_of-width b = by_types b.types
      where
        by_types :
            (o : Option (List ArrowType))
            → length (elim o [ none ↦ [] | some types ↦ types ]) ≡ width o
        by_types none = refl
        by_types (some types) = refl

    -- What `bind_next` keeps of a binder keeps its columns.
    pub Keeps-columns :
        {stop : BindResult} (n : ℕ) (b b' : Binder Double)
        → Keeps b.schema b.types stop b'
        → IsShaped n b
        → (length (fields_of b') ≡ n) × (length (types_of b') ≡ n)
    Keeps-columns n b b' keeps shaped = (
      fields_of-width b' ∙ ap width keeps.schema_eq ∙ sym (fields_of-width b) ∙ shaped.field_count,
      types_of-width b' ∙ ap width keeps.types_eq ∙ sym (types_of-width b) ∙ shaped.type_count,
    )

    -- A call that binds takes the first row away.
    pub Next-bound :
        {schema : Option (List Field)} {types : Option (List ArrowType)} {stop : BindResult}
        {w : World} {rows : List (Row Double)} {r : BindResult × Binder Double × World}
        → stop ≢ bound
        → r.0 ≡ bound
        → Next p engine view_init schema types stop w rows r
        → (row : Row Double) × (rows ≡ row ∷ rows_left r.1) × Keeps schema types stop r.1
    Next-bound ne is (Next.stopped h) = absurd (ne is)
    Next-bound ne is (Next.not_reset e same) = cc
    Next-bound ne is (Next.not_cleared w1 e c same) = cc
    Next-bound ne is (Next.refused w1 w2 e c bind h same keeps) = absurd (h is)
    Next-bound ne is (Next.consumed {row = row} w1 w2 e c bind left keeps) =
        (row, ap (λ xs. row ∷ xs) (sym left), keeps)

    pub Next-ne-fault :
        {stop : BindResult} {w : World} {rows : List (Row Double)}
        {r : BindResult × Binder Double × World} (n : ℕ) (b : Binder Double)
        → stop ≢ BindResult.fault
        → IsShaped n b
        → AllShaped n rows
        → Next p engine view_init b.schema b.types stop w rows r
        → r.0 ≢ BindResult.fault
    Next-ne-fault n b ne shaped rows (Next.stopped h) = ne
    Next-ne-fault n b ne shaped rows (Next.not_reset e same) = λ e. cc
    Next-ne-fault n b ne shaped rows (Next.not_cleared w1 e c same) = λ e. cc
    Next-ne-fault n b ne shaped rows (Next.consumed w1 w2 e c bind left keeps) = λ e. cc
    Next-ne-fault n b ne shaped rows
          (Next.refused {row = row} {r = r} {b = b'} w1 w2 e c bind h same keeps) =
        let (fields, types) = Keeps-columns n b b' keeps shaped in
        rw bind at (
          bind_columns-ne-fault 0 (fields_of b') (types_of b') row w2
            (omega (arith, rows.0, fields)) (omega (arith, fields, types)))
