-- ===== src/Params/Rows.antt =====
-- The rows of parameters that a binder has still to give, in the order of the caller's stream, and
-- the batch loop of `AdbcSqliteBinderBindNext` against them.
use arrow_adbc.Base.{
  ℕ, zero, suc, ◌+◌, ◌<◌, ◌≤◌, ◌≡◌, ap, refl, Bool, true, false, Option, none, some, List, [], ◌∷◌,
  ◌++◌, length, get_elem?, drop, ltb, ltb→lt, Bool-cases, some_inj, inl, inr, arith,
}
use arrow_adbc.Adbc.{StatusCode}
use arrow_adbc.Platform.{ArrowType}
use arrow_adbc.Params.{
  Row, Field, StreamItem, Binder, BindResult, release, current_row, load, load_params,
}

module _ {ℓ} {A : Type ℓ} where
  pub drop-next :
      (n : ℕ) (xs : List A)
      → n < length xs
      → (x : A) × (get_elem? xs n ≡ some x) × (drop n xs ≡ x ∷ drop (n + 1) xs)
  drop-next n [] h = absurd (omega arith)
  drop-next zero (x ∷ xs) h = (x, refl, refl)
  drop-next (suc n) (x ∷ xs) h =
      let (y, at_n, cut) = drop-next n xs (omega arith) in
      let step : suc n + 1 ≡ suc (n + 1) = omega arith in (y, at_n, rw (step, cut))

  pub drop_le : (n : ℕ) (xs : List A) → length xs ≤ n → drop n xs ≡ []
  drop_le zero [] h = refl
  drop_le zero (x ∷ xs) h = absurd (omega arith)
  drop_le (suc n) [] h = refl
  drop_le (suc n) (x ∷ xs) h = drop_le n xs (omega arith)

module _ {Double : Type 0} where
  -- The rows that a stream gives before it ends or fails, and how the loop then ends.
  unfoldable pub stream_rows : List (StreamItem Double) → List (Row Double)
  stream_rows [] = []
  stream_rows (StreamItem.batch rows ∷ items) = rows ++ stream_rows items
  stream_rows (StreamItem.failure code ∷ items) = []
  stream_rows (StreamItem.malformed rows ∷ items) = []

  unfoldable pub stream_end : List (StreamItem Double) → BindResult
  stream_end [] = BindResult.finished
  stream_end (StreamItem.batch rows ∷ items) = stream_end items
  stream_end (StreamItem.failure code ∷ items) = BindResult.failed StatusCode.io
  stream_end (StreamItem.malformed rows ∷ items) = BindResult.failed StatusCode.internal

  abbrev array_rows : Option (List (Row Double)) → ℕ → List (Row Double)
  array_rows none n = []
  array_rows (some rows) n = drop n rows

  abbrev pub items_of : Option (List (StreamItem Double)) → List (StreamItem Double)
  items_of none = []
  items_of (some items) = items

  -- What a binder has still to give.
  abbrev pub rows_left : Binder Double → List (Row Double)
  rows_left b = array_rows b.array b.next_row ++ stream_rows (items_of b.params)

  abbrev pub advance : Binder Double → Binder Double
  advance b = record b { next_row = b.next_row + 1 }

  -- What a binder was made for, and what `bind_next` keeps of it.
  pub record Keeps (schema : Option (List Field)) (types : Option (List ArrowType))
      (stop : BindResult) (b : Binder Double) : Type 0 where
    pub schema_eq : b.schema ≡ schema
    pub types_eq : b.types ≡ types
    pub params : (items : List (StreamItem Double)) × (b.params ≡ some items)
    pub stop_eq : stream_end (items_of b.params) ≡ stop

  -- The result of the loop, by the rows left: it stops as the stream does, released where that
  -- ended well, or has the next row at hand and all others still to give.
  pub data Loaded (schema : Option (List Field)) (types : Option (List ArrowType))
      (stop : BindResult) : List (Row Double) → BindResult × Binder Double → Type 0 where
    stopped :
        {b : Binder Double}
        → (stop ≡ BindResult.finished → b ≡ release b)
        → Loaded schema types stop [] (stop, b)
    loaded :
        {row : Row Double} {rows : List (Row Double)} {b : Binder Double}
        → current_row b ≡ some row
        → rows_left b ≡ row ∷ rows
        → rows_left (advance b) ≡ rows
        → Keeps schema types stop b
        → Loaded schema types stop (row ∷ rows) (BindResult.bound, b)

module _ {Double : Type 0} (view_init : ℕ → Bool) (readable : (n : ℕ) → view_init n ≡ true)
    (schema : Option (List Field)) (types : Option (List ArrowType)) where
  abbrev made : List (StreamItem Double) → Option (List (Row Double)) → ℕ → Binder Double
  made items array next_row = record {
    schema = schema;
    params = some items;
    types = types;
    array = array;
    next_row = next_row;
  }

  at_row :
      (items : List (StreamItem Double)) (rows : List (Row Double)) (n : ℕ)
      → ltb n (length rows) ≡ true
      → Loaded schema types
          (stream_end items)
          (rows_left (made items (some rows) n))
          (BindResult.bound, made items (some rows) n)
  at_row items rows n more =
      let (row, at_n, cut) = drop-next n rows (ltb→lt n (length rows) more) in
      rw cut (
        Loaded.loaded at_n (ap (λ t. t ++ stream_rows items) cut) refl
          (record { schema_eq = refl; types_eq = refl; params = (items, refl); stop_eq = refl }))

  exhausted : (rows : List (Row Double)) (n : ℕ) → ltb n (length rows) ≡ false → drop n rows ≡ []
  exhausted rows n none_left = drop_le n rows (ground arith)

  -- One call of the stream's `get_next`, given what holds of the calls after it.
  load-fetch :
      (item : StreamItem Double) (items : List (StreamItem Double)) (n : ℕ)
      → ((rows : List (Row Double))
          → Loaded schema types
              (stream_end items)
              (rows_left (made items (some rows) 0))
              (load view_init items (made items (some rows) 0)))
      → Loaded schema types
          (stream_end (item ∷ items))
          (rows_left (made (item ∷ items) none n))
          (load view_init (item ∷ items) (made (item ∷ items) none n))
  unfolding load stream_rows stream_end
  load-fetch (StreamItem.failure code) items n later = Loaded.stopped λ e. cc
  load-fetch (StreamItem.malformed rows) items n later = Loaded.stopped λ e. cc
  load-fetch (StreamItem.batch rows) items n later = later rows

  load-Loaded :
      (items : List (StreamItem Double)) (array : Option (List (Row Double))) (n : ℕ)
      → Loaded schema types
          (stream_end items)
          (rows_left (made items array n))
          (load view_init items (made items array n))
  unfolding load stream_rows stream_end release
  load-Loaded [] none n = Loaded.stopped λ e. refl
  load-Loaded [] (some rows) n = elim (Bool-cases (ltb n (length rows))) [
    | inl more ↦ rw more (at_row [] rows n more)
    | inr none_left ↦
        rw (none_left, readable 0, exhausted rows n none_left) (Loaded.stopped λ e. refl)
  ]
  load-Loaded (item ∷ items) none n =
      load-fetch item items n λ rows. load-Loaded items (some rows) 0
  load-Loaded (item ∷ items) (some rows) n = elim (Bool-cases (ltb n (length rows))) [
    | inl more ↦ rw more (at_row (item ∷ items) rows n more)
    | inr none_left ↦
        rw (none_left, readable (suc (length items)), exhausted rows n none_left)
          (load-fetch item items n λ rows. load-Loaded items (some rows) 0)
  ]

  load_params-made :
      (params : Option (List (StreamItem Double))) (items : List (StreamItem Double))
      (array : Option (List (Row Double))) (n : ℕ)
      → params ≡ some items
      → Loaded schema types
          (stream_end items)
          (rows_left (record (made items array n) { params = params }))
          (load_params view_init (record (made items array n) { params = params }))
  unfolding load_params
  load_params-made none items array n e = cc
  load_params-made (some here) items array n e = rw (← some_inj e) (load-Loaded here array n)

module _ {Double : Type 0} (view_init : ℕ → Bool) (readable : (n : ℕ) → view_init n ≡ true) where
  pub load_params-Loaded :
      (b : Binder Double) (items : List (StreamItem Double))
      → b.params ≡ some items
      → Loaded b.schema b.types (stream_end items) (rows_left b) (load_params view_init b)
  load_params-Loaded b items e =
      load_params-made view_init readable b.schema b.types b.params items b.array b.next_row e
