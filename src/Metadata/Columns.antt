-- ===== src/Metadata/Columns.antt =====
-- What `SqliteConnectionGetColumnsImpl` puts into the arrays.
use arrow_adbc.Base.{
  ℕ, zero, suc, ◌+◌, ◌<◌, ◌≤◌, ◌≡◌, ◌≢◌, ◌∙◌, ap, refl, Bool, true, false, Option, none, some, List,
  [], ◌∷◌, ◌++◌, length, ◌==◌, arith,
}
use arrow_adbc.Engine.{ResultCode}
use arrow_adbc.Library.{Library}
use arrow_adbc.Metadata.{
  column, Call, append, Builder, MetadataCalls, apply_all, built, unfinished, applied, pattern_of,
  column_row, columns_loop, get_columns,
}

-- How many values the calls append to a child of the columns.
abbrev pub one_if : Bool → ℕ
one_if true = 1
one_if false = 0

unfoldable pub appended : ℕ → List Call → ℕ
appended k [] = 0
appended k (append (column j) cell ∷ cs) = one_if (j == k) + appended k cs
appended k (c ∷ cs) = appended k cs

appended-append :
    (k : ℕ) (cs ds : List Call) → appended k (cs ++ ds) ≡ appended k cs + appended k ds
unfolding appended
appended-append k [] ds = omega arith
appended-append k (append (column j) cell ∷ cs) ds = omega (arith, appended-append k cs ds)
appended-append k (c ∷ cs) ds = appended-append k cs ds

abbrev pub all_calls : List (List Call) → List Call
all_calls [] = []
all_calls (cs ∷ rows) = cs ++ all_calls rows

module _ (builder : Builder) (l : Library) (calls : MetadataCalls l) where
  open builder use {Arrays, apply}
  open l use {World, Stmt, step_statement}

  column_row-appended :
      (stmt : Option Stmt) (w : World) (k : ℕ)
      → k < 19
      → appended k (column_row builder l calls stmt w) ≡ 1
  unfolding appended
  column_row-appended stmt w k h = each k h
    where
      each : (k : ℕ) → k < 19 → appended k (column_row builder l calls stmt w) ≡ 1
      each zero h = refl
      each (suc zero) h = refl
      each (suc (suc zero)) h = refl
      each (suc (suc (suc zero))) h = refl
      each (suc (suc (suc (suc zero)))) h = refl
      each (suc (suc (suc (suc (suc zero))))) h = refl
      each (suc (suc (suc (suc (suc (suc zero)))))) h = refl
      each (suc (suc (suc (suc (suc (suc (suc zero))))))) h = refl
      each (suc (suc (suc (suc (suc (suc (suc (suc zero)))))))) h = refl
      each (suc (suc (suc (suc (suc (suc (suc (suc (suc zero))))))))) h = refl
      each (suc (suc (suc (suc (suc (suc (suc (suc (suc (suc zero)))))))))) h = refl
      each (suc (suc (suc (suc (suc (suc (suc (suc (suc (suc (suc zero))))))))))) h = refl
      each (suc (suc (suc (suc (suc (suc (suc (suc (suc (suc (suc (suc zero)))))))))))) h = refl
      each (suc (suc (suc (suc (suc (suc (suc (suc (suc (suc (suc (suc (suc zero))))))))))))) h =
          refl
      each (suc (suc (suc (suc (suc (suc (suc (suc (suc (suc (suc (suc (suc (suc zero))))))))))))))
            h =
          refl
      each
            (suc (
              suc
                (suc (suc (suc (suc (suc (suc (suc (suc (suc (suc (suc (suc (suc zero)))))))))))))))
            h =
          refl
      each
            (suc (
              suc (
                suc (
                  suc
                    (suc (suc (suc (suc (suc (suc (suc (suc (suc (suc (suc (suc zero))))))))))))))))
            h =
          refl
      each
            (suc (
              suc (
                suc (
                  suc (
                    suc (
                      suc
                        (suc (suc (suc (suc (suc (suc (suc (suc (suc (suc (suc zero)))))))))))))))))
            h =
          refl
      each
            (suc (
              suc (
                suc (
                  suc (
                    suc (
                      suc (
                        suc (
                          suc
                            (suc (suc (suc (suc (suc (suc (suc (suc (suc (suc zero))))))))))))))))))
            h =
          refl
      each
            (suc (
              suc (
                suc (
                  suc (
                    suc (
                      suc (
                        suc (
                          suc (
                            suc
                              (suc (suc (suc (suc (suc (suc (suc (suc (suc (suc k)))))))))))))))))))
            h =
          absurd (omega arith)

  -- The rows of a statement, as the calls for each, from the code of a step to that of the last one.
  pub data Rows (stmt : Option Stmt)
      : List (List Call) → ResultCode × World → ResultCode → World → Type 0 where
    end : {rc : ResultCode} {w : World} → rc ≢ ResultCode.row → Rows stmt [] (rc, w) rc w
    next :
        {rows : List (List Call)} {rc : ResultCode} {w w' : World}
        → Rows stmt rows (step_statement stmt w) rc w'
        → Rows stmt (column_row builder l calls stmt w ∷ rows) (ResultCode.row, w) rc w'

  all_calls-appended :
      {stmt : Option Stmt} {rows : List (List Call)} {r : ResultCode × World} {rc : ResultCode}
      {w' : World} (k : ℕ)
      → k < 19
      → Rows stmt rows r rc w'
      → appended k (all_calls rows) ≡ length rows
  unfolding appended
  all_calls-appended k h (Rows.end ne) = refl
  all_calls-appended {stmt} k h (Rows.next {rows = rows} {w = w} more) = omega (
    arith,
    appended-append k (column_row builder l calls stmt w) (all_calls rows),
    column_row-appended stmt w k h,
    all_calls-appended k h more,
  )

  pub apply_all-append :
      (cs ds : List Call) (a a' : Arrays)
      → apply_all builder (cs ++ ds) a ≡ some a'
      → (a1 : Arrays) × (apply_all builder cs a ≡ some a1) × (apply_all builder ds a1 ≡ some a')
  unfolding apply_all
  apply_all-append [] ds a a' e = (a, refl, e)
  apply_all-append (c ∷ cs) ds a a' e = by_call (apply c a) (λ a1. apply_all-append cs ds a1 a') e
    where
      by_call :
          (o : Option Arrays)
          → ((a1 : Arrays)
              → apply_all builder (cs ++ ds) a1 ≡ some a'
              → (a2 : Arrays) × (apply_all builder cs a1 ≡ some a2)
                × (apply_all builder ds a2 ≡ some a'))
          → elim o [ none ↦ none | some a1 ↦ apply_all builder (cs ++ ds) a1 ] ≡ some a'
          → (a1 : Arrays) × (elim o [ none ↦ none | some a2 ↦ apply_all builder cs a2 ] ≡ some a1)
            × (apply_all builder ds a1 ≡ some a')
      by_call none later e = cc
      by_call (some a1) later e = later a1 e

  columns_loop-Rows :
      (stmt : Option Stmt) (rounds : ℕ) (rows : List (List Call)) (r : ResultCode × World)
      (rc : ResultCode) (a a' : Arrays) (w' : World)
      → Rows stmt rows r rc w'
      → length rows ≤ rounds
      → apply_all builder (all_calls rows) a ≡ some a'
      → columns_loop builder l calls rounds stmt a r ≡ built a' w'
  unfolding columns_loop apply_all
  columns_loop-Rows stmt rounds rows r rc a a' w' (Rows.end ne) enough taken =
      ended rounds rc ne ∙ ap (λ o. elim o [ none ↦ unfinished | some a ↦ built a w' ]) taken
    where
      ended :
          (rounds : ℕ) (rc : ResultCode)
          → rc ≢ ResultCode.row
          → columns_loop builder l calls rounds stmt a (rc, w') ≡ built a w'
      ended zero ResultCode.row ne = absurd (ne refl)
      ended zero rc ne = refl
      ended (suc rounds) ResultCode.row ne = absurd (ne refl)
      ended (suc rounds) rc ne = refl
  columns_loop-Rows stmt zero rows r rc a a' w' (Rows.next more) enough taken =
      absurd (omega (arith, enough))
  columns_loop-Rows stmt (suc rounds) _ _ rc a a' w' (Rows.next {rows = rows} {w = w} more) enough
        taken =
      let (a1, first, rest) =
        apply_all-append (column_row builder l calls stmt w) (all_calls rows) a a' taken in
      ap
        (applied builder l calls
          (λ a'' w''. columns_loop builder l calls rounds stmt a'' (step_statement stmt w'')) w)
        first
      ∙ columns_loop-Rows stmt rounds rows (step_statement stmt w) rc a1 a' w' more
          (omega (arith, enough)) rest

  -- Where the statement can be reset and bound, and nanoarrow takes the calls, the columns of a table are
  -- read to the last row: the arrays are built by the calls for each row in order, and every one of the
  -- 19 children gets one value for each row. The function returns OK whatever the code of the last step
  -- is, an error included. As many rounds as there are rows are enough.
  pub get_columns-Rows :
      (stmt : Option Stmt) (rounds : ℕ) (table_name : List ℕ) (column_name : Option (List ℕ))
      (rows : List (List Call)) (rc : ResultCode) (a a' : Arrays) (w w1 w2 w3 w' : World)
      → calls.reset stmt w ≡ (true, w1)
      → calls.bind_text64 stmt 1 table_name w1 ≡ (true, w2)
      → calls.bind_text64 stmt 2 (pattern_of column_name) w2 ≡ (true, w3)
      → Rows stmt rows (step_statement stmt w3) rc w'
      → length rows ≤ rounds
      → apply_all builder (all_calls rows) a ≡ some a'
      → (get_columns builder l calls rounds stmt table_name column_name a w ≡ built a' w')
        × ((k : ℕ) → k < 19 → appended k (all_calls rows) ≡ length rows)
  unfolding get_columns
  get_columns-Rows stmt rounds table_name column_name rows rc a a' w w1 w2 w3 w' reset table pattern
        yields enough taken =
      (
        rw (reset, table, pattern)
            (columns_loop-Rows stmt rounds rows (step_statement stmt w3) rc a a' w' yields enough
              taken),
        λ k h. all_calls-appended k h yields,
      )
