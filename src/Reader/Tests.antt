-- ===== src/Reader/Tests.antt =====
-- A stream over the rest of a result, and the theorems at it.
use arrow_adbc.Base.{ℕ, ◌^◌, ◌≡◌, refl, Bool, true, false, some, none, List, [], ◌∷◌, ℤ, pos, arith}
use arrow_adbc.Adbc.{done, StatusCode}
use arrow_adbc.Platform.{ArrowType, Value}
use arrow_adbc.Platform.Toy.{toy}
use arrow_adbc.Engine.Toy.{Table, table_engine}
use arrow_adbc.Params.{Param, Binder}
use arrow_adbc.Binder.{bind_value, bind_next}
use arrow_adbc.Stream.{Slot, Batch, Reader}
use arrow_adbc.Reader.{Builder, get_next}
use arrow_adbc.Reader.Rows.{Appends, Fetched}
use arrow_adbc.Reader.Batches.{later, get_next-last, get_next-full, get_next-unbound}

abbrev views : ℕ → Bool
views n = true

abbrev builder : Builder ℤ
builder = record { start = λ fields. none; append = λ out x. none; finish = λ out. none }

builder-Appends : Appends builder
builder-Appends = record { start = λ fields. refl; append = λ out x. refl; finish = λ out. refl }

abbrev types : List ArrowType
types = ArrowType.int64 ∷ ArrowType.string ∷ []

abbrev schema : List (List ℕ × ArrowType)
schema = ((b'n' ∷ []), ArrowType.int64) ∷ ((b't' ∷ []), ArrowType.string) ∷ []

abbrev no_binder : Binder ℤ
no_binder = record { schema = none; params = none; types = none; array = none; next_row = 0 }

abbrev start : Table
start = record {
  rows = (Value.integer (pos 7) ∷ Value.text (b'a' ∷ []) ∷ []) ∷ [];
  current = [];
  width = 2;
  bindings = [];
}

abbrev first : Table
first = record start { rows = []; current = Value.integer (pos 7) ∷ Value.text (b'a' ∷ []) ∷ [] }

one_row : Fetched toy table_engine types start (first ∷ []) first
one_row = Fetched.next first refl (tt, (tt, tt)) Fetched.end

abbrev one_batch : Batch ℤ
one_batch = Batch.built 1 ((Slot.int (pos 7) ∷ []) ∷ (Slot.string (b'a' ∷ []) ∷ []) ∷ [])

abbrev waiting : ℕ → Reader ℤ
waiting batch_size = later toy table_engine views builder builder-Appends types schema batch_size

get_next-last_example :
    get_next toy table_engine views builder (waiting 4) no_binder start
    ≡ done (none, some one_batch, record (waiting 4) { ended = true }, no_binder, first)
get_next-last_example =
    get_next-last toy table_engine views builder builder-Appends types schema 4 no_binder start
      (first ∷ []) first first refl one_row refl (omega arith)

get_next-full_example :
    get_next toy table_engine views builder (waiting 1) no_binder start
    ≡ done (none, some one_batch, waiting 1, no_binder, first)
get_next-full_example =
    get_next-full toy table_engine views builder builder-Appends types schema 1 no_binder start
      (first ∷ []) first refl one_row refl

-- A parameter above `INT64_MAX`.
abbrev huge : Param ℤ
huge = record { is_null = false; bytes = []; uint = 2 ^ 63; int = pos 0; real = pos 0 }

abbrev overflowing : Binder ℤ
overflowing = record {
  schema = some (record { name = []; type = some ArrowType.uint64 } ∷ []);
  params = some [];
  types = some (ArrowType.uint64 ∷ []);
  array = some ((huge ∷ []) ∷ []);
  next_row = 0;
}

get_next-unbound_example :
    get_next toy table_engine views builder
      (record (waiting 4) { has_binder = true })
      overflowing
      start
    ≡ done (none, none, record (waiting 4) { has_binder = true; ended = true }, overflowing, start)
unfolding bind_next bind_value
get_next-unbound_example =
    get_next-unbound toy table_engine views builder builder-Appends types schema 3 overflowing
      overflowing start start StatusCode.invalid_argument refl refl
