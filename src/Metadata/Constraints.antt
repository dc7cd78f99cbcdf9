-- ===== src/Metadata/Constraints.antt =====
-- The constraints of a table, `SqliteConnectionGetConstraintsImpl` of c/driver/sqlite/sqlite.c.
pub mod PrimaryKey
use arrow_adbc.Base.{
  ℕ, zero, suc, ◌+◌, Bool, true, false, not, Option, none, some, List, [], ◌∷◌, ◌++◌, ◌&&◌, ◌==◌,
  length, take, leb, codes, bytes_eq, if◌then◌else◌, ℤ, pos, negsuc,
}
use arrow_adbc.Adbc.{StatusCode}
use arrow_adbc.Engine.{ResultCode}
use arrow_adbc.Library.{Library}
use arrow_adbc.Metadata.{
  Target, root, schemas_items, tables_items, columns_items, constraints_items, names_items,
  usages_items, catalog, schema, table, column, constraint, usage, Call, append_string, append_null,
  append_int, finish, Builder, MetadataCalls, pattern_of, unless_null, apply_all, Built, built,
  refused, unfinished, fault, Next, applied, raise, get_columns,
}

module _ (builder : Builder) (l : Library) (calls : MetadataCalls l) where
  open builder use {Arrays}
  open l use {World, Handle, Stmt, prepare_v2, step_statement, finalize}

  -- `if (!has_primary_key)`
  abbrev pub key_calls : Bool → List ℕ → List Call
  key_calls true name = append_string names_items name ∷ []
  key_calls false name =
      append_null (constraint 0)
      ∷ append_string (constraint 0) (codes "PRIMARY KEY")
      ∷ append_string names_items name
      ∷ []

  -- `if (has_primary_key)`
  abbrev pub key_end : Bool → List Call
  key_end false = []
  key_end true = finish (constraint 2) ∷ append_null (constraint 3) ∷ finish constraints_items ∷ []

  -- The loop over the primary key, and what follows it.
  unfoldable pub keys_loop :
      ℕ
      → Next builder l calls
      → Option Stmt
      → Bool
      → Arrays
      → ResultCode × World
      → Built builder l calls
  unfolding apply_all
  keys_loop zero next stmt has a (ResultCode.row, w) = unfinished
  keys_loop (suc rounds) next stmt has a (ResultCode.row, w) =
      applied builder l calls (λ a' w'. keys_loop rounds next stmt true a' (step_statement stmt w'))
        w (apply_all builder (key_calls has (unless_null (calls.column_text stmt 0 w))) a)
  keys_loop rounds next stmt has a (rc, w) =
      applied builder l calls next w (apply_all builder (key_end has) a)

  -- The string views of a foreign key, whose sizes are those of `pk_stmt`'s columns.
  abbrev pub sized : ℕ → Option (List ℕ) → List ℕ
  sized n text = take n (unless_null text)

  abbrev pub in_bounds : ℕ → Option (List ℕ) → Bool
  in_bounds n text = leb n (length (unless_null text))

  abbrev pub foreign_key_end : Bool → List Call
  foreign_key_end false = []
  foreign_key_end true =
      finish (constraint 2) ∷ finish (constraint 3) ∷ finish constraints_items ∷ []

  abbrev pub foreign_key_calls : Bool → List ℕ → List ℕ → List ℕ → List Call
  foreign_key_calls later from_col to_table to_col =
      append_null (constraint 0)
      ∷ append_string (constraint 0) (codes "FOREIGN KEY")
      ∷ (foreign_key_end later
          ++ (append_string names_items from_col
              ∷ append_string (usage 0) (codes "main")
              ∷ append_null (usage 1)
              ∷ append_string (usage 2) to_table
              ∷ append_string (usage 3) to_col
              ∷ []))

  abbrev pub foreign_key_row : Bool → Option Stmt → Option Stmt → World → List Call
  foreign_key_row later pk_stmt fk_stmt w =
      foreign_key_calls later
        (sized (calls.column_bytes pk_stmt 3 w) (calls.column_text fk_stmt 3 w))
        (sized (calls.column_bytes pk_stmt 2 w) (calls.column_text fk_stmt 2 w))
        (sized (calls.column_bytes pk_stmt 4 w) (calls.column_text fk_stmt 4 w))

  abbrev pub foreign_key_in_bounds : Option Stmt → Option Stmt → World → Bool
  foreign_key_in_bounds pk_stmt fk_stmt w =
      in_bounds (calls.column_bytes pk_stmt 3 w) (calls.column_text fk_stmt 3 w)
      && in_bounds (calls.column_bytes pk_stmt 2 w) (calls.column_text fk_stmt 2 w)
      && in_bounds (calls.column_bytes pk_stmt 4 w) (calls.column_text fk_stmt 4 w)

  abbrev pub none_yet : ℤ
  none_yet = negsuc 0

  -- `fk_id != prev_fk_id`: only the first column of a foreign key is taken.
  abbrev pub foreign_key_turn :
      Bool
      → Bool
      → Bool
      → Next builder l calls
      → Option Stmt
      → Option Stmt
      → Arrays
      → World
      → Built builder l calls
  foreign_key_turn true inside later next pk_stmt fk_stmt a w = next a w
  foreign_key_turn false false later next pk_stmt fk_stmt a w = fault
  foreign_key_turn false true later next pk_stmt fk_stmt a w =
      applied builder l calls next w (apply_all builder (foreign_key_row later pk_stmt fk_stmt w) a)

  abbrev pub same_id : ℤ → ℤ → Bool
  same_id (pos m) (pos n) = m == n
  same_id (negsuc m) (negsuc n) = m == n
  same_id other id = false

  -- The loop over the foreign keys, and what follows it.
  unfoldable pub foreign_keys_loop :
      ℕ → Option Stmt → Option Stmt → ℤ → Arrays → ResultCode × World → Built builder l calls
  unfolding apply_all
  foreign_keys_loop zero pk_stmt fk_stmt prev a (ResultCode.row, w) = unfinished
  foreign_keys_loop (suc rounds) pk_stmt fk_stmt prev a (ResultCode.row, w) =
      let fk_id = calls.column_int fk_stmt 0 w in
      foreign_key_turn (same_id fk_id prev) (foreign_key_in_bounds pk_stmt fk_stmt w)
        (not (same_id prev none_yet))
        (λ a' w'. foreign_keys_loop rounds pk_stmt fk_stmt fk_id a' (step_statement fk_stmt w'))
        pk_stmt fk_stmt a w
  foreign_keys_loop rounds pk_stmt fk_stmt prev a (rc, w) =
      applied builder l calls built w
        (apply_all builder (foreign_key_end (not (same_id prev none_yet))) a)

  abbrev pub foreign_keys : ℕ → Option Stmt → Option Stmt → List ℕ → Next builder l calls
  foreign_keys rounds pk_stmt fk_stmt table_name a w =
      raise builder l calls
        (λ w.
          raise builder l calls
            (λ w. foreign_keys_loop rounds pk_stmt fk_stmt none_yet a (step_statement fk_stmt w))
            (calls.bind_text64 fk_stmt 1 table_name w))
        (calls.reset fk_stmt w)

  -- `SqliteConnectionGetConstraintsImpl`
  unfoldable pub get_constraints :
      ℕ → Option Stmt → Option Stmt → List ℕ → Arrays → World → Built builder l calls
  unfolding keys_loop foreign_keys_loop
  get_constraints rounds pk_stmt fk_stmt table_name a w =
      raise builder l calls
        (λ w.
          raise builder l calls
            (λ w.
              keys_loop rounds (foreign_keys rounds pk_stmt fk_stmt table_name) pk_stmt false a
                (step_statement pk_stmt w))
            (calls.bind_text64 pk_stmt 1 table_name w))
        (calls.reset pk_stmt w)
