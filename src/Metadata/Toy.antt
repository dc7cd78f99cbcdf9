-- ===== src/Metadata/Toy.antt =====
-- Tables of so many rows, arrays that take every call, and arrays that keep the lengths of the
-- constraints.
use arrow_adbc.Base.{
  ℕ, zero, suc, ◌+◌, ◌<◌, ◌≡◌, ◌≢◌, refl, some_inj, Bool-cases, inl, inr, Bool, true, false, ◌&&◌,
  ◌==◌, Option, none, some, codes, if◌then◌else◌, pos, arith,
}
use arrow_adbc.Engine.{ResultCode}
use arrow_adbc.Library.{Library}
use arrow_adbc.Metadata.{
  constraint, constraints_items, Call, append, finish, Builder, MetadataCalls,
}
use arrow_adbc.Metadata.Constraints.PrimaryKey.{Lengths}

abbrev take_row : ℕ → ResultCode × ℕ
take_row zero = (ResultCode.done, 0)
take_row (suc n) = (ResultCode.row, n)

abbrev pub row_count : Library
row_count = record {
  World = ℕ;
  Handle = Unit;
  Stmt = Unit;
  open_v2 = λ path w. (true, some tt, w);
  close = λ h w. (false, w);
  prepare_v2 = λ h query w. (ResultCode.ok, some tt, w);
  step_statement = λ stmt w. take_row w;
  finalize = λ stmt w. (ResultCode.ok, w);
}

abbrev pub same_rows : MetadataCalls row_count
same_rows = record {
  reset = λ stmt w. (true, w);
  bind_text64 = λ stmt i text w. (true, w);
  clear_bindings = λ stmt w. w;
  column_text = λ stmt i w. some (codes "a");
  column_bytes = λ stmt i w. 0;
  column_int = λ stmt i w. pos 0;
}

abbrev pub counter : Builder
counter = record { Arrays = ℕ; apply = λ c n. some (n + 1) }

abbrev bump : ℕ → (ℕ → ℕ) → ℕ → ℕ
bump k sizes j = if j == k then sizes j + 1 else sizes j

abbrev is_longer : (ℕ → ℕ) → ℕ → Bool
is_longer sizes total =
    (sizes 0 == total + 1)
    && ((sizes 1 == total + 1) && ((sizes 2 == total + 1) && (sizes 3 == total + 1)))

abbrev pub Sizes : Type 0
Sizes = (ℕ → ℕ) × ℕ

abbrev apply_call : Call → Sizes → Option Sizes
apply_call (append (constraint k) cell) (sizes, total) = some (bump k sizes, total)
apply_call (finish (constraint k)) (sizes, total) = some (bump k sizes, total)
apply_call (finish constraints_items) (sizes, total) =
    if is_longer sizes total then some (sizes, total + 1) else none
apply_call c a = some a

abbrev pub constraint_lengths : Builder
constraint_lengths = record { Arrays = Sizes; apply = apply_call }

bump_here : (k n : ℕ) → (if k == k then n + 1 else n) ≡ n + 1
bump_here k n = ground arith

bump_other : (k j n : ℕ) → j ≢ k → (if j == k then n + 1 else n) ≡ n
bump_other k j n ne = elim (Bool-cases (j == k)) [
  | inl same ↦ absurd (ne (ground arith))
  | inr other ↦ rw other
]

if_some : (b : Bool) (a a' : Sizes) → (if b then some a else none) ≡ some a' → b ≡ true
if_some true a a' e = refl
if_some false a a' e = cc

all_longer :
    (sizes : ℕ → ℕ) (total k : ℕ) → is_longer sizes total ≡ true → k < 4 → sizes k ≡ total + 1
all_longer sizes total zero e h = ground arith
all_longer sizes total (suc zero) e h = ground arith
all_longer sizes total (suc (suc zero)) e h = ground arith
all_longer sizes total (suc (suc (suc zero))) e h = ground arith
all_longer sizes total (suc (suc (suc (suc k)))) e h = absurd (omega arith)

pub lengths : Lengths constraint_lengths
lengths = record {
  size = λ k a. a.0 k;
  total = λ a. a.1;
  append_size = λ k cell a a' e. rw (← some_inj e) (bump_here k (a.0 k), refl);
  append_other = λ k j cell a a' e ne. rw (← some_inj e) (bump_other k j (a.0 j) ne);
  append_name = λ j cell a a' e. rw (← some_inj e) (refl, refl);
  finish_list = λ k j a a' e ne. rw (← some_inj e) (bump_other k j (a.0 j) ne, refl);
  finish_struct =
      λ k a a' e h. all_longer a.0 a.1 k (if_some (is_longer a.0 a.1) (a.0, a.1 + 1) a' e) h;
}

abbrev pub no_constraints : Sizes
no_constraints = (λ k. 0, 0)

pub no_constraints-equal : lengths.size 0 no_constraints ≡ lengths.total no_constraints
unfolding lengths
no_constraints-equal = refl
