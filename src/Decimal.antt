-- ===== src/Decimal.antt =====
-- `snprintf(..., "%" PRId64, value)`: the decimal text of an `int64_t`, as character codes.
pub mod Length
use arrow_adbc.Base.{
  ℕ, zero, suc, ◌+◌, ◌/◌, ◌%◌, List, [], ◌∷◌, ◌++◌, ltb, if◌then◌else◌, ℤ, pos, negsuc,
}

-- The digits of a number below `10 ^ rounds`.
pub digits : ℕ → ℕ → List ℕ
digits zero n = []
digits (suc rounds) n =
    let rest = digits rounds (n / 10) in
    if ltb n 10 then (48 + n) ∷ [] else rest ++ (48 + n % 10) ∷ []

-- An `int64_t` has at most 19 digits.
unfoldable pub print_int64 : ℤ → List ℕ
unfolding digits
print_int64 (pos n) = digits 19 n
print_int64 (negsuc n) = b'-' ∷ digits 19 (suc n)
