-- ===== src/Metadata/Constraints/PrimaryKey.antt =====
-- Tables with a primary key, and the arrays of their constraints.
use arrow_adbc.Base.{
  ℕ, zero, suc, ◌+◌, ◌<◌, ◌≡◌, ◌≢◌, ◌∙◌, sym, ap, refl, true, false, Option, none, some, List, [],
  ◌∷◌, codes, arith,
}
use arrow_adbc.Adbc.{StatusCode}
use arrow_adbc.Engine.{ResultCode}
use arrow_adbc.Library.{Library}
use arrow_adbc.Metadata.{
  constraint, constraints_items, names_items, Cell, Call, append, finish, append_null,
  append_string, unless_null, Builder, MetadataCalls, apply_all, Built, built, refused, Next,
  applied,
}
use arrow_adbc.Metadata.Constraints.{key_end, keys_loop, foreign_keys, get_constraints}

-- What nanoarrow documents of the lengths of the constraints, `total`, and of their children: an append
-- to a child adds one to it and to no other, an append to the column names adds to none of them,
-- FinishElement on a list adds to it alone, and a struct is not finished where a child is not one
-- longer.
pub record Lengths (builder : Builder) : Type 0 where
  pub size : ℕ → builder.Arrays → ℕ
  pub total : builder.Arrays → ℕ
  pub append_size :
      (k : ℕ) (cell : Cell) (a a' : builder.Arrays)
      → builder.apply (append (constraint k) cell) a ≡ some a'
      → (size k a' ≡ size k a + 1) × (total a' ≡ total a)
  pub append_other :
      (k j : ℕ) (cell : Cell) (a a' : builder.Arrays)
      → builder.apply (append (constraint k) cell) a ≡ some a'
      → j ≢ k
      → size j a' ≡ size j a
  pub append_name :
      (j : ℕ) (cell : Cell) (a a' : builder.Arrays)
      → builder.apply (append names_items cell) a ≡ some a'
      → (size j a' ≡ size j a) × (total a' ≡ total a)
  pub finish_list :
      (k j : ℕ) (a a' : builder.Arrays)
      → builder.apply (finish (constraint k)) a ≡ some a'
      → j ≢ k
      → (size j a' ≡ size j a) × (total a' ≡ total a)
  pub finish_struct :
      (k : ℕ) (a a' : builder.Arrays)
      → builder.apply (finish constraints_items) a ≡ some a'
      → k < 4
      → size k a ≡ total a + 1

not_zero : (k : ℕ) → zero ≢ suc k
not_zero k e = cc

module _ (builder : Builder) (l : Library) (calls : MetadataCalls l)
    (lengths : Lengths builder) where
  open builder use {Arrays, apply}
  open l use {World, Stmt, step_statement}
  open lengths use {size, total, append_size, append_other, append_name, finish_list, finish_struct}

  -- The constraint names are two ahead.
  abbrev Ahead : Arrays → Type 0
  Ahead a = size 0 a ≡ total a + 2

  -- Calls in a row, one at a time.
  applied-cons :
      (P : Built builder l calls → Type 0) (next : Next builder l calls) (w : World) (c : Call)
      (cs : List Call) (a : Arrays)
      → P (refused StatusCode.internal w)
      → ((a' : Arrays)
          → apply c a ≡ some a'
          → P (applied builder l calls next w (apply_all builder cs a')))
      → P (applied builder l calls next w (apply_all builder (c ∷ cs) a))
  unfolding apply_all
  applied-cons P next w c cs a stopped later = by_call (apply c a) refl
    where
      by_call :
          (o : Option Arrays)
          → apply c a ≡ o
          → P (
              applied builder l calls next w
                (elim o [ none ↦ none | some a' ↦ apply_all builder cs a' ]))
      by_call none e = stopped
      by_call (some a') e = later a' e

  abbrev NotBuilt : Built builder l calls → Type 0
  NotBuilt b = (a : Arrays) (w : World) → b ≢ built a w

  refused-NotBuilt : (status : StatusCode) (w : World) → NotBuilt (refused status w)
  refused-NotBuilt status w a w' e = cc

  kept : (a a' : Arrays) → (size 0 a' ≡ size 0 a) × (total a' ≡ total a) → Ahead a → Ahead a'
  kept a a' (names, items) h = names ∙ h ∙ ap (λ n. n + 2) (sym items)

  keys_end :
      (next : Next builder l calls) (w : World) (a : Arrays)
      → Ahead a
      → NotBuilt
          (applied builder l calls next w (apply_all builder (key_end builder l calls true) a))
  keys_end next w a h = applied-cons NotBuilt next w _ _ a (refused-NotBuilt _ w) λ a1 e1.
      applied-cons NotBuilt next w _ _ a1 (refused-NotBuilt _ w) λ a2 e2.
        applied-cons NotBuilt next w _ _ a2 (refused-NotBuilt _ w) λ a3 e3.
          let h1 : Ahead a1 = kept a a1 (finish_list 2 0 a a1 e1 (not_zero 1)) h in
          let same : size 0 a2 ≡ size 0 a1 = append_other 3 0 _ a1 a2 e2 (not_zero 2) in
          let h2 : Ahead a2 = kept a1 a2 (same, (append_size 3 _ a1 a2 e2).1) h1 in
          let equal = finish_struct 0 a2 a3 e3 (omega arith) in absurd (omega (arith, equal, h2))

  keys_loop-NotBuilt :
      (next : Next builder l calls) (stmt : Option Stmt) (rounds : ℕ) (a : Arrays)
      (r : ResultCode × World)
      → Ahead a
      → NotBuilt (keys_loop builder l calls rounds next stmt true a r)
  unfolding keys_loop apply_all
  keys_loop-NotBuilt next stmt zero a (ResultCode.row, w) h = λ a' w' e. cc
  keys_loop-NotBuilt next stmt (suc rounds) a (ResultCode.row, w) h =
      applied-cons NotBuilt
        (λ a' w'. keys_loop builder l calls rounds next stmt true a' (step_statement stmt w')) w _
        [] a (refused-NotBuilt _ w)
        λ a1 e1.
          keys_loop-NotBuilt next stmt rounds a1 (step_statement stmt w)
            (kept a a1 (append_name 0 _ a a1 e1) h)
  keys_loop-NotBuilt next stmt zero a (rc, w) h = keys_end next w a h
  keys_loop-NotBuilt next stmt (suc rounds) a (rc, w) h = keys_end next w a h

  first_row :
      (next : Next builder l calls) (stmt : Option Stmt) (rounds : ℕ) (a : Arrays) (w : World)
      → size 0 a ≡ total a
      → NotBuilt (keys_loop builder l calls rounds next stmt false a (ResultCode.row, w))
  unfolding keys_loop apply_all
  first_row next stmt zero a w same = λ a' w' e. cc
  first_row next stmt (suc rounds) a w same =
      let more = λ (a' : Arrays) (w' : World).
        keys_loop builder l calls rounds next stmt true a' (step_statement stmt w') in
      let name = unless_null (calls.column_text stmt 0 w) in
      let type = append_string (constraint 0) (codes "PRIMARY KEY") in
      applied-cons NotBuilt more w (append_null (constraint 0))
        (type ∷ append_string names_items name ∷ []) a (refused-NotBuilt _ w)
        λ a1 e1.
          applied-cons NotBuilt more w type (append_string names_items name ∷ []) a1
            (refused-NotBuilt _ w)
            λ a2 e2.
              applied-cons NotBuilt more w (append_string names_items name) [] a2
                (refused-NotBuilt _ w)
                λ a3 e3.
                  keys_loop-NotBuilt next stmt rounds a3 (step_statement stmt w)
                    (kept a2 a3 (append_name 0 _ a2 a3 e3) (two_ahead a a1 a2 e1 e2 same))
    where
      two_ahead :
          {c c' : Cell} (a a1 a2 : Arrays)
          → apply (append (constraint 0) c) a ≡ some a1
          → apply (append (constraint 0) c') a1 ≡ some a2
          → size 0 a ≡ total a
          → Ahead a2
      two_ahead a a1 a2 e1 e2 same =
          let (n1, i1) = append_size 0 _ a a1 e1 in
          let (n2, i2) = append_size 0 _ a1 a2 e2 in omega (arith, n1, n2, i1, i2, same)

  -- `SqliteConnectionGetConstraintsImpl` fails for a table with a primary key, whatever the engine returns
  -- after its first row: it appends two values to the constraint's name and none to its type, so the
  -- constraint is not finished. nanoarrow is taken to keep the documented lengths, and the names to be
  -- as many as the constraints before the call.
  pub get_constraints-fails :
      (pk_stmt fk_stmt : Option Stmt) (rounds : ℕ) (table_name : List ℕ) (a : Arrays)
      (w w1 w2 w3 : World)
      → calls.reset pk_stmt w ≡ (true, w1)
      → calls.bind_text64 pk_stmt 1 table_name w1 ≡ (true, w2)
      → step_statement pk_stmt w2 ≡ (ResultCode.row, w3)
      → size 0 a ≡ total a
      → (a' : Arrays) (w' : World)
      → get_constraints builder l calls rounds pk_stmt fk_stmt table_name a w ≢ built a' w'
  unfolding get_constraints
  get_constraints-fails pk_stmt fk_stmt rounds table_name a w w1 w2 w3 reset table stepped same =
      rw (reset, table, stepped)
        (first_row (foreign_keys builder l calls rounds pk_stmt fk_stmt table_name) pk_stmt rounds a
          w3 same)
