-- ===== src/Infer/Done.antt =====
-- With memory at hand a readable value is always taken: the step returns, and returns a column.
use arrow_adbc.Base.{ℕ, ◌<◌, ◌*◌, ◌≡◌, refl, some, [], arith}
use arrow_adbc.Adbc.{Outcome, done, StatusCode, Ensures, Ensures-bind}
use arrow_adbc.Platform.{Platform, IsPlatform, Allocates, AllocFails, Value}
use arrow_adbc.Infer.{Column, infer_one_value, initial_column}
use arrow_adbc.Infer.Logical.{Logical, count, logical_step}
use arrow_adbc.Infer.Refines.{FixedRows, Content, Refines}
use arrow_adbc.Infer.Append.{Internal, bitmap_reserve-Ensures, reserve_cells-Ensures}
use arrow_adbc.Infer.Run.{IsReadable}
use arrow_adbc.Infer.OneValue.{InferError, infer_one_value-Refines}

-- An outcome with no possible error has a result.
pub Ensures-done :
    {A : Type 0} {Q : StatusCode → Type 0} {P : A → Type 0} {m : Outcome A}
    → Ensures Q P m
    → ((s : StatusCode) → Q s → ⊥)
    → (a : A) × (m ≡ done a) × P a
Ensures-done (Ensures.returns {a = a} h) never = (a, refl, h)
Ensures-done (Ensures.raises {s = s} h) never = absurd (never s h)

module _ (p : Platform) (valid : IsPlatform p) (memory : Allocates p) where
  never_fails : AllocFails p → ⊥
  never_fails (AllocFails.bytes size cap more e) = memory.bytes size cap more e
  never_fails (AllocFails.bits size cap more e) = memory.bits size cap more e

  never-Internal : (s : StatusCode) → Internal p s → ⊥
  never-Internal s h = never_fails h.1

  never_error : (v : Value p.Double) → IsReadable v → (s : StatusCode) → InferError p v s → ⊥
  never_error Value.null h s e = never_fails e.1
  never_error (Value.integer z) h s e = never_fails e.1
  never_error (Value.real d) h s e = never_fails e.1
  never_error (Value.text t) h s e = never_fails e.1
  never_error (Value.blob b) h s e = h

  pub infer_one_value-done :
      {rows : ℕ} (v : Value p.Double) (c : Column p.Double) (l : Logical p.Double)
      → Refines rows c l
      → count l < rows
      → IsReadable v
      → (c' : Column p.Double) × (infer_one_value p v c ≡ done c')
        × ((l' : Logical p.Double) × (logical_step p v l ≡ some l') × Refines rows c' l')
  infer_one_value-done v c l h room readable =
      Ensures-done (infer_one_value-Refines p valid v c l h room) (never_error v readable)

  -- A fresh column is an empty INT64 column with room for the rows.
  pub initial_column-done :
      (rows : ℕ)
      → (c : Column p.Double) × (initial_column p rows ≡ done c) × Refines rows c (Logical.ints [])
  unfolding initial_column
  initial_column-done rows =
      Ensures-done
        (Ensures-bind _ (bitmap_reserve-Ensures p valid (record { bits = []; capacity = 0 }) rows)
          λ m h.
            Ensures-bind _
              (reserve_cells-Ensures p valid (record { cells = []; capacity = 0 }) (rows * 8))
              λ b k. Ensures.returns (record {
                bitmap_room = omega (arith, h.1);
                buffer_room = omega (arith, k.1);
                content = rw (h.0, k.0) (Content.ints FixedRows.nil);
              }))
        never-Internal
