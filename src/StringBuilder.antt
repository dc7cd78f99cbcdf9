-- ===== src/StringBuilder.antt =====
-- `struct StringBuilder` and its functions, c/driver/sqlite/utils.c. The allocation behind `buffer`
-- has `capacity` bytes; a write past it is a fault. Allocations succeed.
pub mod Bounds
use arrow_adbc.Base.{ℕ, ◌+◌, ◌-◌, List, [], ◌∷◌, ◌++◌, length, leb, ltb, ◌==◌, if◌then◌else◌}
use arrow_adbc.Adbc.{Outcome, done, ◌>>=◌, access}

-- `chars` are the bytes before `size`, which is their number.
pub record StringBuilder : Type 0 where
  pub chars : List ℕ
  pub capacity : ℕ

-- `StringBuilderInit`
unfoldable pub string_builder_init : ℕ → StringBuilder
string_builder_init initial_size = record { chars = []; capacity = initial_size }

-- `new_capacity`, where the text does not fit.
abbrev pub grown : StringBuilder → ℕ → ℕ
grown b more =
    let new_capacity = length b.chars + more - b.capacity in
    if length b.chars == 0 then new_capacity + 1 else new_capacity

-- `StringBuilderAppend`: the bytes of the value, and a NUL behind them.
unfoldable pub string_builder_append : StringBuilder → List ℕ → Outcome StringBuilder
string_builder_append b value =
    let new_size = length b.chars + length value in
    let capacity = if ltb b.capacity new_size then grown b (length value) else b.capacity in
    access (ltb new_size capacity) (record { chars = b.chars ++ value; capacity = capacity })

-- Calls of `StringBuilderAppend` one after the other.
unfoldable pub append_all : List (List ℕ) → StringBuilder → Outcome StringBuilder
unfolding string_builder_append
append_all [] b = done b
append_all (value ∷ values) b = do b ← string_builder_append b value; append_all values b

-- `StringBuilderReset`
unfoldable pub string_builder_reset : StringBuilder → StringBuilder
string_builder_reset b = record { chars = []; capacity = 0 }
