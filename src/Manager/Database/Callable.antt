-- ===== src/Manager/Database/Callable.antt =====
-- What `AdbcLoadDriverFromInitFunc` and `AdbcLoadDriver` end with, for the functions of a database.
use arrow_adbc.Base.{
  ℕ, ◌≡◌, ◌≢◌, ◌∙◌, inl, inr, sym, ap, refl, Bool, true, false, Bool-cases, Option, none, some,
  List, [], ◌∷◌,
}
use arrow_adbc.Adbc.{StatusCode, Outcome, done, failed, Ensures}
use arrow_adbc.Manager.FileName.{open_driver, first_try, second_try, full_driver_name-total}
use arrow_adbc.Manager.Table.{
  Function, Pointer, Table, Line, check_required, fill_default, lines, default_pointer, pointer_of,
  set_by, set_pointer, check, load_lines, load_driver,
}
use arrow_adbc.Manager.Table.Complete.{
  Kind, kind, completed, load_driver-completed, load_driver-missing,
}
use arrow_adbc.Manager.Database.{Driver}

abbrev pub Serves : Kind → Pointer → Type 0
Serves Kind.required pointer = pointer ≡ Pointer.provided
Serves Kind.optional pointer = pointer ≢ Pointer.null
Serves Kind.unchecked pointer = Unit

-- The required functions are the driver's, and the optional ones are there.
abbrev pub Callable : Driver → Type 0
Callable driver = (f : Function) → Serves (kind f) (driver.table f)

completed-Serves :
    (k : Kind) (set : Bool)
    → (k ≡ Kind.required → set ≡ true)
    → Serves k (completed k (pointer_of set))
completed-Serves Kind.required set there = ap pointer_of (there refl)
completed-Serves Kind.optional true there = λ e. cc
completed-Serves Kind.optional false there = λ e. cc
completed-Serves Kind.unchecked set there = tt

pub load_driver-Serves :
    (status : StatusCode) (set : Function → Bool) (t' : Table)
    → load_driver status (set_by set) ≡ done t'
    → (f : Function) → Serves (kind f) (t' f)
unfolding load_driver
load_driver-Serves StatusCode.ok set t' loads f =
    let (t'', loads', same) =
      load_driver-completed (set_by set) (λ g need missing. refused g need missing) in
    let agree : t'' f ≡ t' f = ap (λ (h : Table). h f) (done_inj (sym loads' ∙ loads)) in
    rw (← agree, same f) (completed-Serves (kind f) (set f) (is_set f))
  where
    impossible : {t : Table} → failed StatusCode.internal ≡ done t → ⊥
    impossible e = cc

    refused : (g : Function) → kind g ≡ Kind.required → set_by set g ≢ Pointer.null
    refused g need missing =
        impossible (sym (load_driver-missing (set_by set) g need missing) ∙ loads)

    is_set : (g : Function) → kind g ≡ Kind.required → set g ≡ true
    is_set g need = elim (Bool-cases (set g)) [
      | inl e ↦ e
      | inr e ↦ absurd (refused g need (ap pointer_of e))
    ]

    done_inj : {t t' : Table} → done t ≡ done t' → t ≡ t'
    done_inj e = cc
load_driver-Serves other set t' loads f = cc

pub Serves-ne-null :
    (k : Kind) (pointer : Pointer) → k ≢ Kind.unchecked → Serves k pointer → pointer ≢ Pointer.null
Serves-ne-null Kind.required pointer asked h = λ e. provided_ne (sym h ∙ e)
  where
    provided_ne : Pointer.provided ≡ Pointer.null → ⊥
    provided_ne e = cc
Serves-ne-null Kind.optional pointer asked h = h
Serves-ne-null Kind.unchecked pointer asked h = absurd (asked refl)

check-Ensures :
    (pointer : Pointer) (rest : Outcome Table)
    → Ensures (λ status. status ≢ StatusCode.ok) (λ t. Unit {0}) rest
    → Ensures (λ status. status ≢ StatusCode.ok) (λ t. Unit {0}) (check pointer rest)
check-Ensures Pointer.null rest h = Ensures.raises (λ e. cc)
check-Ensures Pointer.provided rest h = h
check-Ensures Pointer.stub rest h = h

load_lines-Ensures :
    (ls : List Line) (t : Table)
    → Ensures (λ status. status ≢ StatusCode.ok) (λ t'. Unit {0}) (load_lines ls t)
unfolding load_lines
load_lines-Ensures [] t = Ensures.returns tt
load_lines-Ensures (check_required f ∷ ls) t =
    check-Ensures (t f) (load_lines ls t) (load_lines-Ensures ls t)
load_lines-Ensures (fill_default f ∷ ls) t =
    load_lines-Ensures ls (set_pointer f (default_pointer (t f)) t)

pub load_driver-Ensures :
    (status : StatusCode) (t : Table)
    → Ensures (λ status. status ≢ StatusCode.ok) (λ t'. Unit {0}) (load_driver status t)
unfolding load_driver
load_driver-Ensures StatusCode.ok t = load_lines-Ensures lines t
load_driver-Ensures status t = Ensures.raises (λ e. cc)

pub open_driver-total :
    {Handle World : Type 0} (dlopen : List ℕ → World → Option Handle × World) (name : List ℕ)
    (w : World)
    → (o : Option Handle × World) × (open_driver dlopen name w ≡ some o)
unfolding open_driver
open_driver-total {Handle = Handle} {World = World} dlopen name w = tried (dlopen name w)
  where
    tried :
        (r : Option Handle × World)
        → (o : Option Handle × World) × (first_try dlopen name r ≡ some o)
    tried (some h, w') = (_, refl)
    tried (none, w') =
        let (full, e) = full_driver_name-total name in (_, ap (λ n. second_try dlopen n w') e)
