-- ===== src/Info/Answers.antt =====
-- What `SqliteConnectionGetInfo` answers to a list of codes.
use arrow_adbc.Base.{ℕ, ◌≡◌, Option, some, List, [], ◌∷◌, ◌++◌, codes}
use arrow_adbc.Info.{
  InfoBuilder, append_code, append_value, finish_union, finish_element, finish_building,
}

-- The codes that the driver knows, with its answers.
pub data IsAnswer (b : InfoBuilder) : ℕ → List ℕ → Type 0 where
  vendor_name : IsAnswer b 0 (codes "SQLite")
  vendor_version : IsAnswer b 1 b.sqlite3_libversion
  driver_name : IsAnswer b 100 (codes "ADBC SQLite Driver")
  driver_version : IsAnswer b 101 (codes "(unknown)")
  driver_arrow_version : IsAnswer b 102 b.nanoarrow_version

-- A row for each code that is known, in the order of the codes.
pub data Answers (b : InfoBuilder) : List ℕ → List (ℕ × List ℕ) → Type 0 where
  end : Answers b [] []
  ignored :
      {code : ℕ} {info_codes : List ℕ} {rows : List (ℕ × List ℕ)}
      → ((text : List ℕ) → IsAnswer b code text → ⊥)
      → Answers b info_codes rows
      → Answers b (code ∷ info_codes) rows
  answered :
      {code : ℕ} {text : List ℕ} {info_codes : List ℕ} {rows : List (ℕ × List ℕ)}
      → IsAnswer b code text
      → Answers b info_codes rows
      → Answers b (code ∷ info_codes) ((code, text) ∷ rows)

-- nanoarrow where memory is enough: the four calls of a row add it, and to finish keeps the rows.
pub record InfoRows (b : InfoBuilder) : Type 0 where
  pub rows : b.Arrays → List (ℕ × List ℕ)
  pub add_row :
      (code : ℕ) (text : List ℕ) (a : b.Arrays)
      → (a1 : b.Arrays) × (a2 : b.Arrays) × (a3 : b.Arrays) × (a4 : b.Arrays) × (b.apply
            (append_code code)
            a
          ≡ some a1)
        × (b.apply (append_value text) a1 ≡ some a2)
        × (b.apply (finish_union 0) a2 ≡ some a3)
        × (b.apply finish_element a3 ≡ some a4)
        × (rows a4 ≡ rows a ++ ((code, text) ∷ []))
  pub end_rows :
      (a : b.Arrays) → (a' : b.Arrays) × (b.apply finish_building a ≡ some a') × (rows a' ≡ rows a)

module _ (b : InfoBuilder) where
  open b use {Arrays}

  module _ (n : InfoRows b) where
    -- What is left of the arrays `a` by a run over the codes.
    abbrev Told : List ℕ → Arrays → Option Arrays → Type 0
    Told info_codes a left =
        (a' : Arrays) × (rs : List (ℕ × List ℕ)) × (left ≡ some a')
        × Answers b info_codes rs
        × (n.rows a' ≡ n.rows a ++ rs)
