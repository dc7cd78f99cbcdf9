-- ===== src/Platform/Toy.antt =====
-- A platform on which the tests run: doubles are integers, and an allocation gets what it asks for.
use arrow_adbc.Base.{ℕ, ◌+◌, true, refl, some, [], List, ℤ, pos, arith}
use arrow_adbc.Platform.{Platform, Value, IsPlatform, Allocates}
use arrow_adbc.Decimal.{print_int64}
use arrow_adbc.Decimal.Length.{length-print_int64}

abbrev as_int64 : Value ℤ → ℤ
as_int64 (Value.integer z) = z
as_int64 (Value.real d) = d
as_int64 _ = pos 0

abbrev as_text : Value ℤ → List ℕ
as_text (Value.text s) = s
as_text (Value.blob s) = s
as_text (Value.integer z) = print_int64 z
as_text (Value.real d) = print_int64 d
as_text Value.null = []

abbrev pub toy : Platform
toy = record {
  Double = ℤ;
  double_zero = pos 0;
  of_int64 = λ z. z;
  to_int64 = λ z. z;
  print_e = print_int64;
  reserve = λ size cap more. some (size + cap + more);
  reserve_bits = λ size cap more. some (size + cap + more);
  init_schema = λ fields. true;
  column_int64 = as_int64;
  column_double = as_int64;
  column_text = as_text;
}

pub toy-IsPlatform : IsPlatform toy
toy-IsPlatform = record {
  bytes = λ size cap more cap' e. ground arith;
  bits = λ size cap more cap' e. ground arith;
  print_e_short = λ d. omega (arith, length-print_int64 d);
}

pub toy-Allocates : Allocates toy
toy-Allocates = record {
  bytes = λ size cap more e. cc;
  bits = λ size cap more e. cc;
  schema = λ fields. refl;
}
