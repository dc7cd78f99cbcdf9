-- ===== src/Info/Tests.antt =====
-- Batches as their rows, and the answers to a list of codes.
use arrow_adbc.Base.{ℕ, refl, Option, some, List, [], ◌∷◌, ◌++◌, codes}
use arrow_adbc.Info.{
  InfoCall, append_code, append_value, finish_union, finish_element, finish_building, InfoBuilder,
}
use arrow_adbc.Info.Answers.{InfoRows, Answers}

-- The rows, with the code and the text of the next one.
abbrev Batch : Type 0
Batch = List (ℕ × List ℕ) × ℕ × List ℕ

abbrev take_call : InfoCall → Batch → Option Batch
take_call (append_code code) (rows, _, text) = some (rows, code, text)
take_call (append_value text) (rows, code, _) = some (rows, code, text)
take_call (finish_union type_id) a = some a
take_call finish_element (rows, code, text) = some (rows ++ ((code, text) ∷ []), code, text)
take_call finish_building a = some a

abbrev batch_rows : InfoBuilder
batch_rows = record {
  Arrays = Batch;
  apply = take_call;
  sqlite3_libversion = codes "3";
  nanoarrow_version = codes "0";
}

abbrev all_rows : InfoRows batch_rows
all_rows = record {
  rows = λ a. a.0;
  add_row = λ code text a. (
    (a.0, code, a.2),
    (a.0, code, text),
    (a.0, code, text),
    (a.0 ++ ((code, text) ∷ []), code, text),
    refl,
    refl,
    refl,
    refl,
    refl,
  );
  end_rows = λ a. (a, refl, refl);
}

abbrev some_codes : Option (List ℕ)
some_codes = some (101 ∷ 2 ∷ 1 ∷ [])
