-- ===== src/Manager/Table/Complete.antt =====
-- What the table of a loaded driver holds.
use arrow_adbc.Base.{◌≡◌, ◌≢◌, ◌∙◌, ap, refl, Bool, true, false, List, [], ◌∷◌}
use mathlib.Core.Logic.{ite}
use arrow_adbc.Adbc.{StatusCode, Outcome, done, failed}
use arrow_adbc.Manager.Table.{
  Function, Pointer, Table, Line, check_required, fill_default, lines, Function-discrete,
  default_pointer, set_pointer, check, load_lines, load_driver,
}

-- How adbc.h treats a function: a driver has to have it, may leave it to the stub, or is not asked.
pub data Kind : Type 0 where
  required optional unchecked : Kind

abbrev pub kind : Function → Kind
kind Function.database_new = required
kind Function.database_init = required
kind Function.database_release = required
kind Function.connection_new = required
kind Function.connection_init = required
kind Function.connection_release = required
kind Function.statement_new = required
kind Function.statement_release = required
kind Function.statement_execute_query = required
kind Function.statement_bind_stream = unchecked
kind other = optional

-- The pointer of a loaded driver.
abbrev pub completed : Kind → Pointer → Pointer
completed required pointer = pointer
completed optional pointer = default_pointer pointer
completed unchecked pointer = pointer

unfoldable filled : List Line → Function → Bool
filled [] g = false
filled (check_required f ∷ ls) g = filled ls g
filled (fill_default f ∷ ls) g = ite (Function-discrete f g) true (filled ls g)

abbrev filled_pointer : Bool → Pointer → Pointer
filled_pointer true pointer = default_pointer pointer
filled_pointer false pointer = pointer

-- Every required function that the lines check is there.
abbrev Provides : List Line → Table → Type 0
Provides [] t = Unit
Provides (check_required f ∷ ls) t = (t f ≢ Pointer.null) × Provides ls t
Provides (fill_default f ∷ ls) t = Provides ls t

default-default :
    (pointer : Pointer) → default_pointer (default_pointer pointer) ≡ default_pointer pointer
default-default Pointer.null = refl
default-default Pointer.provided = refl
default-default Pointer.stub = refl

filled_default :
    (b : Bool) (pointer : Pointer)
    → filled_pointer b (default_pointer pointer) ≡ default_pointer pointer
filled_default true pointer = default-default pointer
filled_default false pointer = refl

default-ne-null : (pointer : Pointer) → default_pointer pointer ≢ Pointer.null
default-ne-null Pointer.null e = cc
default-ne-null Pointer.provided e = cc
default-ne-null Pointer.stub e = cc

check-there :
    (pointer : Pointer) (rest : Outcome Table) → pointer ≢ Pointer.null → check pointer rest ≡ rest
check-there Pointer.null rest there = absurd (there refl)
check-there Pointer.provided rest there = refl
check-there Pointer.stub rest there = refl

set_pointer-ne-null :
    (f g : Function) (t : Table) (d : Dec (f ≡ g))
    → t g ≢ Pointer.null
    → ite d (default_pointer (t f)) (t g) ≢ Pointer.null
set_pointer-ne-null f g t (yes e) there = default-ne-null (t f)
set_pointer-ne-null f g t (no ne) there = there

filled_set :
    (f g : Function) (t : Table) (later : Bool) (d : Dec (f ≡ g))
    → filled_pointer later (ite d (default_pointer (t f)) (t g))
      ≡ filled_pointer (ite d true later) (t g)
filled_set f g t later (yes e) = filled_default later (t f) ∙ ap (λ h. default_pointer (t h)) e
filled_set f g t later (no ne) = refl

set-Provides :
    (ls : List Line) (f : Function) (t : Table)
    → Provides ls t
    → Provides ls (set_pointer f (default_pointer (t f)) t)
set-Provides [] f t h = tt
set-Provides (check_required g ∷ ls) f t (there, more) =
    (set_pointer-ne-null f g t (Function-discrete f g) there, set-Provides ls f t more)
set-Provides (fill_default g ∷ ls) f t h = set-Provides ls f t h

load_lines-Provides :
    (ls : List Line) (t : Table)
    → Provides ls t
    → (t' : Table) × (load_lines ls t ≡ done t')
      × ((g : Function) → t' g ≡ filled_pointer (filled ls g) (t g))
unfolding load_lines filled
load_lines-Provides [] t h = (t, refl, λ g. refl)
load_lines-Provides (check_required f ∷ ls) t (there, more) =
    let (t', loaded, same) = load_lines-Provides ls t more in
    (t', check-there (t f) (load_lines ls t) there ∙ loaded, same)
load_lines-Provides (fill_default f ∷ ls) t h =
    let (t', loaded, same) =
      load_lines-Provides ls (set_pointer f (default_pointer (t f)) t) (set-Provides ls f t h) in
    (t', loaded, λ g. same g ∙ filled_set f g t (filled ls g) (Function-discrete f g))

-- What the lines of the code fill is what is optional.
filled-kind :
    (g : Function) (pointer : Pointer)
    → filled_pointer (filled lines g) pointer ≡ completed (kind g) pointer
unfolding filled Function-discrete
filled-kind Function.database_new pointer = refl
filled-kind g pointer = refl

all_there :
    (t : Table) → ((f : Function) → kind f ≡ required → t f ≢ Pointer.null) → Provides lines t
all_there t there = (
  there Function.database_new refl,
  (
    there Function.database_init refl,
    (
      there Function.database_release refl,
      (
        there Function.connection_new refl,
        (
          there Function.connection_init refl,
          (
            there Function.connection_release refl,
            (
              there Function.statement_execute_query refl,
              (there Function.statement_new refl, (there Function.statement_release refl, tt)),
            ),
          ),
        ),
      ),
    ),
  ),
)

unfoldable checked : List Line → Function → Bool
checked [] g = false
checked (check_required f ∷ ls) g = ite (Function-discrete f g) true (checked ls g)
checked (fill_default f ∷ ls) g = checked ls g

check-failed :
    (pointer : Pointer) (rest : Outcome Table)
    → rest ≡ failed StatusCode.internal
    → check pointer rest ≡ failed StatusCode.internal
check-failed Pointer.null rest e = refl
check-failed Pointer.provided rest e = e
check-failed Pointer.stub rest e = e

set_pointer-other :
    (f g : Function) (t : Table) (later : Bool) (d : Dec (f ≡ g))
    → ite d true later ≡ false
    → (ite d (default_pointer (t f)) (t g) ≡ t g) × (later ≡ false)
set_pointer-other f g t later (yes e) h = cc
set_pointer-other f g t later (no ne) h = (refl, h)

check_or :
    (f g : Function) (t : Table) (ls : List Line) (d : Dec (f ≡ g))
    → t g ≡ Pointer.null
    → ite d true (checked ls g) ≡ true
    → (checked ls g ≡ true → load_lines ls t ≡ failed StatusCode.internal)
    → check (t f) (load_lines ls t) ≡ failed StatusCode.internal
check_or f g t ls (yes e) missing h later =
    let null_here : t f ≡ Pointer.null = ap t e ∙ missing in rw null_here
check_or f g t ls (no ne) missing h later = check-failed (t f) (load_lines ls t) (later h)

load_lines-missing :
    (ls : List Line) (t : Table) (g : Function)
    → t g ≡ Pointer.null
    → checked ls g ≡ true
    → filled ls g ≡ false
    → load_lines ls t ≡ failed StatusCode.internal
unfolding load_lines checked filled
load_lines-missing [] t g missing c f = cc
load_lines-missing (check_required h ∷ ls) t g missing c f =
    check_or h g t ls (Function-discrete h g) missing c
      λ later. load_lines-missing ls t g missing later f
load_lines-missing (fill_default h ∷ ls) t g missing c f =
    let (same, later) = set_pointer-other h g t (filled ls g) (Function-discrete h g) f in
    load_lines-missing ls (set_pointer h (default_pointer (t h)) t) g (same ∙ missing) c later

required_checked :
    (g : Function) → kind g ≡ required → (checked lines g ≡ true) × (filled lines g ≡ false)
unfolding checked filled Function-discrete
required_checked Function.database_new e = (refl, refl)
required_checked Function.database_init e = (refl, refl)
required_checked Function.database_release e = (refl, refl)
required_checked Function.connection_new e = (refl, refl)
required_checked Function.connection_init e = (refl, refl)
required_checked Function.connection_release e = (refl, refl)
required_checked Function.statement_new e = (refl, refl)
required_checked Function.statement_release e = (refl, refl)
required_checked Function.statement_execute_query e = (refl, refl)
required_checked Function.statement_bind_stream e = cc
required_checked other e = cc

pub load_driver-completed :
    (t : Table)
    → ((f : Function) → kind f ≡ required → t f ≢ Pointer.null)
    → (t' : Table) × (load_driver StatusCode.ok t ≡ done t')
      × ((f : Function) → t' f ≡ completed (kind f) (t f))
unfolding load_driver
load_driver-completed t there =
    let (t', loaded, same) = load_lines-Provides lines t (all_there t there) in
    (t', loaded, λ f. same f ∙ filled-kind f (t f))

-- A driver that leaves out a required function is refused with `ADBC_STATUS_INTERNAL`, whatever else
-- it sets.
pub load_driver-missing :
    (t : Table) (f : Function)
    → kind f ≡ required
    → t f ≡ Pointer.null
    → load_driver StatusCode.ok t ≡ failed StatusCode.internal
unfolding load_driver
load_driver-missing t f need missing =
    let (c, unfilled) = required_checked f need in load_lines-missing lines t f missing c unfilled
