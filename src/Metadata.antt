-- ===== src/Metadata.antt =====
-- The metadata of a connection, c/driver/sqlite/sqlite.c: nanoarrow's arrays, which the code builds in
-- rows of calls, and the columns of a table, `SqliteConnectionGetColumnsImpl`.
pub mod Columns
pub mod Constraints
pub mod Tables
pub mod Toy
mod Tests
use arrow_adbc.Base.{
  ℕ, zero, suc, ◌+◌, Bool, true, false, not, Option, none, some, List, [], ◌∷◌, ◌++◌, ◌&&◌, ◌==◌,
  length, take, leb, codes, bytes_eq, if◌then◌else◌, ℤ, pos, negsuc,
}
use arrow_adbc.Adbc.{StatusCode}
use arrow_adbc.Engine.{ResultCode}
use arrow_adbc.Library.{Library}

-- The arrays by their place in the schema, `children[k]` of a struct under its name. `names_items` is
-- the child of `constraint 2`, and `usages_items` that of `constraint 3`.
pub data Target : Type 0 where
  root schemas_items tables_items columns_items constraints_items names_items usages_items : Target
  catalog schema table column constraint usage : ℕ → Target

pub data Cell : Type 0 where
  null : Cell
  string : List ℕ → Cell
  int : ℤ → Cell

-- `ArrowArrayAppendNull` (of one), `AppendString` and `AppendInt`, by what they append, `FinishElement`
-- and `FinishBuilding`.
pub data Call : Type 0 where
  append : Target → Cell → Call
  finish : Target → Call
  finish_building : Call

abbrev pub append_null : Target → Call
append_null t = append t null

abbrev pub append_string : Target → List ℕ → Call
append_string t text = append t (string text)

abbrev pub append_int : Target → ℤ → Call
append_int t n = append t (int n)

-- nanoarrow, with `none` for a call that is not NANOARROW_OK.
pub record Builder : Type 1 where
  pub Arrays : Type 0
  pub apply : Call → Arrays → Option Arrays

-- The `sqlite3_*` calls on a prepared statement, beside those of the library. A `Bool` is whether the
-- call returned `SQLITE_OK`.
pub record MetadataCalls (l : Library) : Type 0 where
  pub reset : Option l.Stmt → l.World → Bool × l.World
  pub bind_text64 : Option l.Stmt → ℕ → List ℕ → l.World → Bool × l.World
  pub clear_bindings : Option l.Stmt → l.World → l.World
  pub column_text : Option l.Stmt → ℕ → l.World → Option (List ℕ)
  pub column_bytes : Option l.Stmt → ℕ → l.World → ℕ
  pub column_int : Option l.Stmt → ℕ → l.World → ℤ

abbrev pub incremented : ℤ → ℤ
incremented (pos n) = pos (n + 1)
incremented (negsuc zero) = pos 0
incremented (negsuc (suc n)) = negsuc n

abbrev pub is_zero : ℤ → Bool
is_zero (pos zero) = true
is_zero (pos (suc n)) = false
is_zero (negsuc n) = false

-- `column_name`, or `"%"`
abbrev pub pattern_of : Option (List ℕ) → List ℕ
pattern_of none = codes "%"
pattern_of (some text) = text

-- A string, or NULL.
abbrev pub text_or_null : Option (List ℕ) → Cell
text_or_null none = null
text_or_null (some text) = string text

abbrev pub string_or_null : Target → Option (List ℕ) → Call
string_or_null t text = append t (text_or_null text)

-- A string that the code does not test for NULL. nanoarrow appends NULL as an empty one.
abbrev pub unless_null : Option (List ℕ) → List ℕ
unless_null none = []
unless_null (some text) = text

module _ (builder : Builder) where
  open builder use {Arrays, apply}

  -- Calls in a row, each with `CHECK_NA(INTERNAL, ...)`.
  unfoldable pub apply_all : List Call → Arrays → Option Arrays
  apply_all [] a = some a
  apply_all (c ∷ cs) a = elim (apply c a) [ none ↦ none | some a' ↦ apply_all cs a' ]

  module _ (l : Library) (calls : MetadataCalls l) where
    open l use {World, Handle, Stmt, prepare_v2, step_statement, finalize}

    -- What a function leaves: the arrays, or an error, after which the caller releases them, or a loop
    -- that did not end within its rounds.
    pub data Built : Type 0 where
      built : Arrays → World → Built
      refused : StatusCode → World → Built
      unfinished : Built
      -- A string is read past its end.
      fault : Built

    abbrev pub Next : Type 0
    Next = Arrays → World → Built

    abbrev pub applied : Next → World → Option Arrays → Built
    applied next w none = refused StatusCode.internal w
    applied next w (some a) = next a w

    -- `RAISE(INTERNAL, rc == SQLITE_OK, ...)`
    abbrev pub raise : (World → Built) → Bool × World → Built
    raise next (false, w) = refused StatusCode.internal w
    raise next (true, w) = next w

    abbrev pub nullable_calls : Bool → ℤ
    nullable_calls true = pos 1
    nullable_calls false = pos 0

    abbrev pub nullable_text : Bool → List ℕ
    nullable_text true = codes "YES"
    nullable_text false = codes "NO"

    -- The calls for a row of `columns_stmt`.
    abbrev pub column_calls :
        Option (List ℕ) → ℤ → Option (List ℕ) → Bool → Option (List ℕ) → List Call
    column_calls name cid type nullable default =
        append_string (column 0) (unless_null name)
        ∷ append_int (column 1) (incremented cid)
        ∷ append_null (column 2)
        ∷ append_null (column 3)
        ∷ string_or_null (column 4) type
        ∷ append_null (column 5)
        ∷ append_null (column 6)
        ∷ append_null (column 7)
        ∷ append_int (column 8) (nullable_calls nullable)
        ∷ string_or_null (column 9) default
        ∷ append_null (column 10)
        ∷ append_null (column 11)
        ∷ append_null (column 12)
        ∷ append_string (column 13) (nullable_text nullable)
        ∷ append_null (column 14)
        ∷ append_null (column 15)
        ∷ append_null (column 16)
        ∷ append_null (column 17)
        ∷ append_null (column 18)
        ∷ finish columns_items
        ∷ []

    abbrev pub column_row : Option Stmt → World → List Call
    column_row stmt w =
        column_calls (calls.column_text stmt 1 w) (calls.column_int stmt 0 w)
          (calls.column_text stmt 2 w) (is_zero (calls.column_int stmt 3 w))
          (calls.column_text stmt 4 w)

    -- `while ((rc = sqlite3_step(stmt)) == SQLITE_ROW)`, from the code of a step on. `rc` is not tested
    -- after it.
    unfoldable pub columns_loop : ℕ → Option Stmt → Arrays → ResultCode × World → Built
    unfolding apply_all
    columns_loop zero stmt a (ResultCode.row, w) = unfinished
    columns_loop (suc rounds) stmt a (ResultCode.row, w) =
        applied (λ a' w'. columns_loop rounds stmt a' (step_statement stmt w')) w
          (apply_all (column_row stmt w) a)
    columns_loop rounds stmt a (rc, w) = built a w

    -- `SqliteConnectionGetColumnsImpl`
    unfoldable pub get_columns : ℕ → Option Stmt → List ℕ → Option (List ℕ) → Arrays → World → Built
    unfolding columns_loop
    get_columns rounds stmt table_name column_name a w =
        raise
          (λ w.
            raise
              (λ w.
                raise (λ w. columns_loop rounds stmt a (step_statement stmt w))
                  (calls.bind_text64 stmt 2 (pattern_of column_name) w))
              (calls.bind_text64 stmt 1 table_name w))
          (calls.reset stmt w)
