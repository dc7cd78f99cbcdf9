-- ===== src/Decimal/Length.antt =====
-- The length of a printed `int64_t`.
use arrow_adbc.Base.{
  ℕ, zero, suc, ◌+◌, ◌/◌, ◌%◌, ◌*◌, ◌<◌, ◌≡◌, ◌≤◌, true, inl, inr, Bool-cases, ltb, lt→ltb, [], ◌∷◌,
  length, length-append, ℤ, pos, negsuc, arith,
}
use arrow_adbc.Decimal.{digits, print_int64}

length-digits : (rounds n : ℕ) → length (digits rounds n) ≤ rounds
unfolding digits
length-digits zero n = omega arith
length-digits (suc rounds) n = ground (
  arith,
  length-digits rounds (n / 10),
  length-append (digits rounds (n / 10)) ((48 + n % 10) ∷ []),
)

-- 19 digits and a sign.
pub length-print_int64 : (z : ℤ) → length (print_int64 z) ≤ 20
unfolding print_int64
length-print_int64 (pos n) = omega (arith, length-digits 19 n)
length-print_int64 (negsuc n) = omega (arith, length-digits 19 (suc n))

-- The numbers of at most so many digits are below this.
abbrev numbers : ℕ → ℕ
numbers zero = 1
numbers (suc k) = 10 * numbers k

tenth : (n m : ℕ) → n < 10 * m → n / 10 < m
tenth n m h = omega (arith, h)

digits_within : (rounds n k : ℕ) → n < numbers (suc k) → length (digits rounds n) ≤ suc k
unfolding digits
digits_within zero n k h = omega arith
digits_within (suc rounds) n zero h =
    let small : ltb n 10 ≡ true = lt→ltb n 10 h in rw small (omega arith)
digits_within (suc rounds) n (suc k) h = elim (Bool-cases (ltb n 10)) [
  | inl small ↦ rw small (omega arith)
  | inr large ↦
      let shorter = digits_within rounds (n / 10) k (tenth n (numbers (suc k)) h) in
      rw large (omega (arith, shorter, length-append (digits rounds (n / 10)) ((48 + n % 10) ∷ [])))
]

-- A number of at most ten digits.
pub length-print_ten : (n : ℕ) → n < 10_000_000_000 → length (print_int64 (pos n)) ≤ 10
unfolding print_int64
length-print_ten n h = digits_within 19 n 9 h
