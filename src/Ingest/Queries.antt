-- ===== src/Ingest/Queries.antt =====
-- The statements of bulk ingestion as text, and the buffer that they are built in.
use arrow_adbc.Base.{
  codes, ℕ, suc, ◌+◌, ◌<◌, ◌≤◌, ◌≡◌, sym, ap, refl, List, [], ◌∷◌, ◌++◌, append_assoc, append-nil,
  map, length, true, ltb, arith,
}
use arrow_adbc.Adbc.{done, fault}
use arrow_adbc.StringBuilder.{string_builder_init, append_all}
use arrow_adbc.StringBuilder.Bounds.{concat, append_all-fits, append_all-overflow}
use arrow_adbc.Ingest.{create_columns, insert_columns, create_query, insert_query}

-- Texts with a comma and a space between them.
abbrev commas : List ℕ → List (List ℕ) → List ℕ
commas name [] = name
commas name (other ∷ names) = name ++ (codes ", " ++ commas other names)

abbrev pub comma_separated : List (List ℕ) → List ℕ
comma_separated [] = []
comma_separated (name ∷ names) = commas name names

abbrev pub create_text : List ℕ → List (List ℕ) → List ℕ
create_text table names =
    codes "CREATE TABLE " ++ (table ++ (codes " (" ++ (comma_separated names ++ codes ")")))

abbrev pub insert_text : List ℕ → List (List ℕ) → List ℕ
insert_text table names =
    codes "INSERT INTO "
    ++ (table
        ++ (codes " VALUES (" ++ (comma_separated (map (λ name. codes "?") names) ++ codes ")")))

concat-append : (xs ys : List (List ℕ)) → concat (xs ++ ys) ≡ concat xs ++ concat ys
concat-append [] ys = refl
concat-append (x ∷ xs) ys = rw (concat-append xs ys) (sym (append_assoc x (concat xs) (concat ys)))

not_first : (i : ℕ) → ltb 0 (suc i) ≡ true
not_first i = ground arith

create_columns-later :
    (i : ℕ) (name : List ℕ) (names : List (List ℕ))
    → name ++ concat (create_columns (suc i) names) ≡ commas name names
unfolding create_columns
create_columns-later i name [] = rw append-nil
create_columns-later i name (other ∷ names) =
    let next : suc i + 1 ≡ suc (i + 1) = omega arith in
    rw (not_first i, next, create_columns-later (i + 1) other names)

insert_columns-later :
    (i : ℕ) (names : List (List ℕ))
    → codes "?" ++ concat (insert_columns (suc i) names)
      ≡ commas (codes "?") (map (λ name. codes "?") names)
unfolding insert_columns
insert_columns-later i [] = refl
insert_columns-later i (other ∷ names) =
    let next : suc i + 1 ≡ suc (i + 1) = omega arith in
    rw (not_first i, next)
      (ap (λ t. codes "?" ++ codes ", " ++ t) (insert_columns-later (i + 1) names))

concat-create_columns :
    (names : List (List ℕ)) → concat (create_columns 0 names) ≡ comma_separated names
unfolding create_columns
concat-create_columns [] = refl
concat-create_columns (name ∷ names) = create_columns-later 0 name names

concat-insert_columns :
    (names : List (List ℕ))
    → concat (insert_columns 0 names) ≡ comma_separated (map (λ name. codes "?") names)
unfolding insert_columns
concat-insert_columns [] = refl
concat-insert_columns (name ∷ names) = insert_columns-later 0 names

-- A text built from a builder of 256 bytes.
build :
    (values : List (List ℕ)) (text : List ℕ)
    → concat values ≡ text
    → (length text < 256
        → append_all values (string_builder_init 256)
          ≡ done (record { chars = text; capacity = 256 }))
      × (256 ≤ length text → append_all values (string_builder_init 256) ≡ fault)
unfolding string_builder_init
build values text same = (
  λ room.
      rw same at
        (append_all-fits values (string_builder_init 256) (omega (arith, room, ap length same))),
  λ over.
      append_all-overflow values (string_builder_init 256) (omega arith)
        (omega (arith, over, ap length same)),
)

module _ (table : List ℕ) (names : List (List ℕ)) where
  create_values : List (List ℕ)
  create_values =
      codes "CREATE TABLE " ∷ table ∷ codes " (" ∷ (create_columns 0 names ++ codes ")" ∷ [])

  insert_values : List (List ℕ)
  insert_values =
      codes "INSERT INTO " ∷ table ∷ codes " VALUES (" ∷ (insert_columns 0 names ++ codes ")" ∷ [])

  concat-create_values : concat create_values ≡ create_text table names
  unfolding create_values
  concat-create_values =
      rw (concat-append (create_columns 0 names) (codes ")" ∷ []), concat-create_columns names)

  concat-insert_values : concat insert_values ≡ insert_text table names
  unfolding insert_values
  concat-insert_values =
      rw (concat-append (insert_columns 0 names) (codes ")" ∷ []), concat-insert_columns names)

  -- Where both statements are shorter than 256 bytes, the driver builds
  -- `CREATE TABLE table (name, name)`, with the columns' names in order, and
  -- `INSERT INTO table VALUES (?, ?)`, with one placeholder for each column.
  pub ingest-texts :
      length (create_text table names) < 256
      → length (insert_text table names) < 256
      → (create_query table names
          ≡ done (record { chars = create_text table names; capacity = 256 }))
        × (insert_query table names
            ≡ done (record { chars = insert_text table names; capacity = 256 }))
  unfolding create_query insert_query create_values insert_values
  ingest-texts short short' = (
    (build create_values (create_text table names) concat-create_values).0 short,
    (build insert_values (insert_text table names) concat-insert_values).0 short',
  )

  -- A CREATE TABLE of 256 bytes or more is written past the end of its buffer.
  pub create_query-overflow :
      256 ≤ length (create_text table names) → create_query table names ≡ fault
  unfolding create_query create_values
  create_query-overflow long =
      (build create_values (create_text table names) concat-create_values).1 long
