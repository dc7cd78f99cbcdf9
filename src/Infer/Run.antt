-- ===== src/Infer/Run.antt =====
-- A whole column of values: the abstract column that it gives, its length and its type.
use mathlib.Core.Option
use arrow_adbc.Decimal.{print_int64}
use arrow_adbc.Base.{
  ◌+◌, ◌≡◌, ◌∙◌, sym, ap, inl, inr, Option-cases, some_inj, refl, Bool, true, false, Option, none,
  some, List, [], ◌∷◌, ◌++◌, length, map, length-append, length-map, if◌then◌else◌, arith,
}
use arrow_adbc.Platform.{Platform, ArrowType, Value}
use arrow_adbc.Infer.Logical.{Logical, count, type_of, logical_step}

length-snoc {ℓ} : {A : Type ℓ} (xs : List A) (x : A) → length (xs ++ x ∷ []) ≡ length xs + 1
length-snoc xs x = length-append xs (x ∷ [])

-- Every value type but BLOB can be read.
abbrev pub IsReadable : {Double : Type 0} → Value Double → Type 0
IsReadable (Value.blob s) = ⊥
IsReadable other = Unit

-- The type of a column by what occurs in it: text, else a float, else integers.
unfoldable pub has_text : {Double : Type 0} → List (Value Double) → Bool
has_text [] = false
has_text (Value.text s ∷ vs) = true
has_text (v ∷ vs) = has_text vs

unfoldable pub has_real : {Double : Type 0} → List (Value Double) → Bool
has_real [] = false
has_real (Value.real d ∷ vs) = true
has_real (v ∷ vs) = has_real vs

unfoldable pub widest : {Double : Type 0} → List (Value Double) → ArrowType
unfolding has_text has_real
widest vs =
    if has_text vs
    then ArrowType.string
    else if has_real vs
    then ArrowType.double
    else ArrowType.int64

abbrev widen : ArrowType → Bool → Bool → ArrowType
widen ty true r = ArrowType.string
widen ArrowType.string false r = ArrowType.string
widen ty false true = ArrowType.double
widen ty false false = ty

same_count :
    {Double : Type 0} {o : Option (Logical Double)} (l : Logical Double) {l' : Logical Double}
    → (m : Logical Double) × (o ≡ some m) × (count m ≡ count l + 1)
    → o ≡ some l'
    → count l' ≡ count l + 1
same_count l (m, stepped, counted) e = ap count (sym (some_inj (sym stepped ∙ e))) ∙ counted

widen_string : (t r : Bool) → widen ArrowType.string t r ≡ ArrowType.string
widen_string true r = refl
widen_string false r = refl

widen_real : (ty : ArrowType) (t r : Bool) → widen (widen ty false true) t r ≡ widen ty t true
widen_real ty true r = refl
widen_real ArrowType.string false r = refl
widen_real ArrowType.int64 false true = refl
widen_real _ false false = refl
widen_real _ false true = refl

widen_none : {Double : Type 0} (l : Logical Double) → widen (type_of l) false false ≡ type_of l
widen_none (Logical.ints xs) = refl
widen_none (Logical.doubles xs) = refl
widen_none (Logical.strings xs) = refl

widen_int64 :
    (t r : Bool)
    → widen ArrowType.int64 t r
      ≡ (if t then ArrowType.string else if r then ArrowType.double else ArrowType.int64)
widen_int64 true r = refl
widen_int64 false true = refl
widen_int64 false false = refl

abbrev pub AllReadable : {Double : Type 0} → List (Value Double) → Type 0
AllReadable [] = Unit
AllReadable (v ∷ vs) = IsReadable v × AllReadable vs

module _ (p : Platform) where
  open p use {Double, of_int64, print_e}

  abbrev pub and_then :
      Option (Logical Double) → (Logical Double → Option (Logical Double)) → Option (Logical Double)
  and_then none f = none
  and_then (some l) f = f l

  unfoldable pub logical_run : List (Value Double) → Logical Double → Option (Logical Double)
  logical_run [] l = some l
  logical_run (v ∷ vs) l = and_then (logical_step p v l) (logical_run vs)

  pub logical_run-snoc :
      (vs : List (Value Double)) (v : Value Double) (l : Logical Double)
      → logical_run (vs ++ v ∷ []) l ≡ and_then (logical_run vs l) (logical_step p v)
  unfolding logical_run
  logical_run-snoc [] v l = and_then_some (logical_step p v l)
    where
      and_then_some : (o : Option (Logical Double)) → and_then o (λ l. some l) ≡ o
      and_then_some none = refl
      and_then_some (some l) = refl
  logical_run-snoc (u ∷ vs) v l = go (logical_step p u l) (logical_run-snoc vs v)
    where
      go :
          (o : Option (Logical Double))
          → ((l : Logical Double)
              → logical_run (vs ++ v ∷ []) l ≡ and_then (logical_run vs l) (logical_step p v))
          → and_then o (logical_run (vs ++ v ∷ []))
            ≡ and_then (and_then o (logical_run vs)) (logical_step p v)
      go none ih = refl
      go (some l) ih = ih l

  pub logical_step-readable :
      (v : Value Double) (l : Logical Double)
      → IsReadable v
      → (l' : Logical Double) × (logical_step p v l ≡ some l') × (count l' ≡ count l + 1)
  unfolding logical_step
  logical_step-readable Value.null (Logical.ints xs) h = (_, refl, length-snoc xs _)
  logical_step-readable Value.null (Logical.doubles xs) h = (_, refl, length-snoc xs _)
  logical_step-readable Value.null (Logical.strings xs) h = (_, refl, length-snoc xs _)
  logical_step-readable (Value.integer z) (Logical.ints xs) h = (_, refl, length-snoc xs _)
  logical_step-readable (Value.integer z) (Logical.doubles xs) h = (_, refl, length-snoc xs _)
  logical_step-readable (Value.integer z) (Logical.strings xs) h = (_, refl, length-snoc xs _)
  logical_step-readable (Value.real d) (Logical.ints xs) h = (
    _,
    refl,
    omega (arith, length-snoc (map (Option.map of_int64) xs), length-map (Option.map of_int64) xs),
  )
  logical_step-readable (Value.real d) (Logical.doubles xs) h = (_, refl, length-snoc xs _)
  logical_step-readable (Value.real d) (Logical.strings xs) h = (_, refl, length-snoc xs _)
  logical_step-readable (Value.text t) (Logical.ints xs) h = (
    _,
    refl,
    omega (
      arith,
      length-snoc (map (Option.map print_int64) xs),
      length-map (Option.map print_int64) xs,
    ),
  )
  logical_step-readable (Value.text t) (Logical.doubles xs) h = (
    _,
    refl,
    omega (arith, length-snoc (map (Option.map print_e) xs), length-map (Option.map print_e) xs),
  )
  logical_step-readable (Value.text t) (Logical.strings xs) h = (_, refl, length-snoc xs _)
  logical_step-readable (Value.blob b) l h = elim h [ ]

  logical_step-count :
      (v : Value Double) (l : Logical Double) {l' : Logical Double}
      → logical_step p v l ≡ some l'
      → count l' ≡ count l + 1
  logical_step-count (Value.blob b) l e = unfold logical_step in cc
  logical_step-count Value.null l e = same_count l (logical_step-readable Value.null l tt) e
  logical_step-count (Value.integer z) l e =
      same_count l (logical_step-readable (Value.integer z) l tt) e
  logical_step-count (Value.real d) l e = same_count l (logical_step-readable (Value.real d) l tt) e
  logical_step-count (Value.text t) l e = same_count l (logical_step-readable (Value.text t) l tt) e

  -- A run that succeeds adds one row for each value.
  pub logical_run-count :
      (vs : List (Value Double)) (l : Logical Double) {l' : Logical Double}
      → logical_run vs l ≡ some l'
      → count l' ≡ count l + length vs
  unfolding logical_run
  logical_run-count [] l e = ap count (sym (some_inj e)) ∙ omega arith
  logical_run-count (v ∷ vs) l e = elim (Option-cases (logical_step p v l)) [
    | inl refused ↦ cc
    | inr (m, stepped) ↦
        omega (arith, logical_step-count v l stepped, logical_run-count vs m (rw stepped at e))
  ]

  logical_run-widen :
      (vs : List (Value Double)) (l : Logical Double) {l' : Logical Double}
      → logical_run vs l ≡ some l'
      → type_of l' ≡ widen (type_of l) (has_text vs) (has_real vs)
  unfolding logical_run logical_step has_text has_real
  logical_run-widen [] l e = ap type_of (sym (some_inj e)) ∙ sym (widen_none l)
  logical_run-widen (Value.null ∷ vs) (Logical.ints xs) e = logical_run-widen vs _ e
  logical_run-widen (Value.null ∷ vs) (Logical.doubles xs) e = logical_run-widen vs _ e
  logical_run-widen (Value.null ∷ vs) (Logical.strings xs) e = logical_run-widen vs _ e
  logical_run-widen (Value.integer z ∷ vs) (Logical.ints xs) e = logical_run-widen vs _ e
  logical_run-widen (Value.integer z ∷ vs) (Logical.doubles xs) e = logical_run-widen vs _ e
  logical_run-widen (Value.integer z ∷ vs) (Logical.strings xs) e = logical_run-widen vs _ e
  logical_run-widen (Value.real d ∷ vs) (Logical.ints xs) e =
      logical_run-widen vs _ e ∙ widen_real ArrowType.int64 (has_text vs) (has_real vs)
  logical_run-widen (Value.real d ∷ vs) (Logical.doubles xs) e =
      logical_run-widen vs _ e ∙ widen_real ArrowType.double (has_text vs) (has_real vs)
  logical_run-widen (Value.real d ∷ vs) (Logical.strings xs) e =
      logical_run-widen vs _ e ∙ widen_real ArrowType.string (has_text vs) (has_real vs)
  logical_run-widen (Value.text t ∷ vs) (Logical.ints xs) e =
      logical_run-widen vs _ e ∙ widen_string (has_text vs) (has_real vs)
  logical_run-widen (Value.text t ∷ vs) (Logical.doubles xs) e =
      logical_run-widen vs _ e ∙ widen_string (has_text vs) (has_real vs)
  logical_run-widen (Value.text t ∷ vs) (Logical.strings xs) e =
      logical_run-widen vs _ e ∙ widen_string (has_text vs) (has_real vs)
  logical_run-widen (Value.blob b ∷ vs) l e = cc

  -- A column that starts empty, as an INT64 column, gets the type of what occurs in it: STRING if
  -- there is a text, else DOUBLE if there is a float, else INT64.
  pub type_of-logical_run :
      (vs : List (Value Double)) (l : Logical Double)
      → logical_run vs (Logical.ints []) ≡ some l
      → type_of l ≡ widest vs
  unfolding widest
  type_of-logical_run vs l e =
      logical_run-widen vs (Logical.ints []) e ∙ widen_int64 (has_text vs) (has_real vs)

  logical_run-readable :
      (vs : List (Value Double)) (l : Logical Double)
      → AllReadable vs
      → (l' : Logical Double) × (logical_run vs l ≡ some l')
  unfolding logical_run
  logical_run-readable [] l h = (l, refl)
  logical_run-readable (v ∷ vs) l h =
      let (m, e, counted) = logical_step-readable v l h.0 in
      let (l', r) = logical_run-readable vs m h.1 in (l', rw e r)
