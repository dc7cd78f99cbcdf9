-- ===== src/Manager/FileName.antt =====
-- The names under which the driver manager loads a driver, c/driver_manager/adbc_driver_manager.cc:
-- the part of `AdbcLoadDriver` before `dlsym`, on a system with `lib` and `.so`.
use arrow_adbc.Base.{
  Bool-cases, inl, inr, ℕ, ◌-◌, ◌≤◌, ◌≡◌, ◌⊎◌, ap, refl, Bool, true, false, not, Option, none, some,
  List, ◌++◌, length, length-append, take, drop, drop-append, drop-length, ltb, codes, bytes_eq,
  if◌then◌else◌, arith,
}

-- `s.compare(position, count, other) != 0`, which throws `std::out_of_range` past the end.
abbrev pub differs_at : List ℕ → ℕ → ℕ → List ℕ → Option Bool
differs_at s position count other =
    if ltb (length s) position
    then none
    else some (not (bytes_eq (take count (drop position s)) other))

abbrev pub prefix : List ℕ
prefix = codes "lib"

abbrev pub suffix : List ℕ
suffix = codes ".so"

abbrev pub prefixed : List ℕ → Bool → Bool → List ℕ
prefixed name true same = prefix ++ name
prefixed name false true = name
prefixed name false false = prefix ++ name

-- `full_driver_name` after the test for the prefix.
unfoldable pub with_prefix : List ℕ → List ℕ
with_prefix name = prefixed name (ltb (length name) 3) (bytes_eq (take 3 name) prefix)

abbrev pub suffixed : List ℕ → Bool → Option Bool → Option (List ℕ)
suffixed full true differs = some (full ++ suffix)
suffixed full false none = none
suffixed full false (some true) = some (full ++ suffix)
suffixed full false (some false) = some full

-- The test for the suffix counts the position on `full_driver_name`, but looks in `driver_str`.
unfoldable pub full_driver_name : List ℕ → Option (List ℕ)
unfolding with_prefix
full_driver_name name =
    suffixed (with_prefix name) (ltb (length name) 3)
      (differs_at name (length (with_prefix name) - 3) 3 suffix)

-- The two calls of `dlopen`: the handle, if either gives one, or an exception.
abbrev pub second_try :
    {Handle World : Type 0}
    → (List ℕ → World → Option Handle × World)
    → Option (List ℕ)
    → World
    → Option (Option Handle × World)
second_try dlopen none w = none
second_try dlopen (some full) w = some (dlopen full w)

abbrev pub first_try :
    {Handle World : Type 0}
    → (List ℕ → World → Option Handle × World)
    → List ℕ
    → Option Handle × World
    → Option (Option Handle × World)
first_try dlopen name (some handle, w) = some (some handle, w)
first_try dlopen name (none, w) = second_try dlopen (full_driver_name name) w

unfoldable pub open_driver :
    {Handle World : Type 0}
    → (List ℕ → World → Option Handle × World)
    → List ℕ
    → World
    → Option (Option Handle × World)
unfolding full_driver_name
open_driver dlopen name w = first_try dlopen name (dlopen name w)

suffix_at_end :
    (stem : List ℕ) → bytes_eq (take 3 (drop (length stem) (stem ++ suffix))) suffix ≡ true
suffix_at_end stem = rw (drop-append (length stem) stem suffix (omega arith), drop-length stem) refl

has_three : (n : ℕ) → 3 ≤ n → ltb n 3 ≡ false
has_three n h = ground arith

not_beyond : (n m : ℕ) → m ≤ n → ltb n m ≡ false
not_beyond n m h = ground arith

-- What follows the position is the suffix.
differs_at-end :
    (stem : List ℕ) (position : ℕ)
    → position ≡ length stem
    → differs_at (stem ++ suffix) position 3 suffix ≡ some false
differs_at-end stem position e =
    let fits : length stem ≤ length (stem ++ suffix) = omega (arith, length-append stem suffix) in
    rw (e, not_beyond (length (stem ++ suffix)) (length stem) fits, suffix_at_end stem)

-- Nothing follows it.
differs_at-length : (name : List ℕ) → differs_at name (length name) 3 suffix ≡ some true
differs_at-length name = rw (not_beyond (length name) (length name) (omega arith), drop-length name)

suffixed-false :
    (full : List ℕ) (short : Bool) (differs : Option Bool)
    → short ≡ false
    → differs ≡ some false
    → suffixed full short differs ≡ some full
suffixed-false full short differs e d = rw (e, d)

suffixed-true :
    (full : List ℕ) (short : Bool) (differs : Option Bool)
    → differs ≡ some true
    → suffixed full short differs ≡ some (full ++ suffix)
suffixed-true full true differs d = refl
suffixed-true full false differs d = rw d

prefixed-false : (name : List ℕ) (short : Bool) → short ≡ false → prefixed name short true ≡ name
prefixed-false name short e = rw e

with_prefix-kept :
    (rest : List ℕ) → 3 ≤ length (prefix ++ rest) → with_prefix (prefix ++ rest) ≡ prefix ++ rest
unfolding with_prefix
with_prefix-kept rest long =
    prefixed-false (prefix ++ rest) _ (has_three (length (prefix ++ rest)) long)

with_prefix-bare :
    (name : List ℕ) → bytes_eq (take 3 name) prefix ≡ false → with_prefix name ≡ prefix ++ name
unfolding with_prefix
with_prefix-bare name bare = added (ltb (length name) 3) (bytes_eq (take 3 name) prefix) bare
  where
    added : (short same : Bool) → same ≡ false → prefixed name short same ≡ prefix ++ name
    added true same e = refl
    added false false e = refl
    added false true e = cc

-- A name with the prefix and the suffix is left as it is.
full_driver_name_complete :
    (stem : List ℕ)
    → full_driver_name (prefix ++ (stem ++ suffix)) ≡ some (prefix ++ (stem ++ suffix))
unfolding full_driver_name
full_driver_name_complete stem =
    let sized = length-append stem suffix in
    let long : 3 ≤ length (prefix ++ (stem ++ suffix)) = omega (arith, sized) in
    rw (with_prefix-kept (stem ++ suffix) long) (
      suffixed-false (prefix ++ (stem ++ suffix)) _ _ (has_three _ long) (
        differs_at-end (prefix ++ stem) (length (prefix ++ (stem ++ suffix)) - 3)
          (omega (arith, sized))))

-- A name without the prefix gets both, also where it has the suffix.
full_driver_name-bare :
    (name : List ℕ)
    → bytes_eq (take 3 name) prefix ≡ false
    → full_driver_name name ≡ some (prefix ++ (name ++ suffix))
unfolding full_driver_name
full_driver_name-bare name bare =
    let position : length (prefix ++ name) - 3 ≡ length name = omega arith in
    rw (with_prefix-bare name bare)
      (suffixed-true (prefix ++ name) _ _ (rw position (differs_at-length name)))

-- A driver's name that does not start with `lib` is completed to `lib`, the name and `.so`, without
-- an exception, and that name is complete. A name that ends in `.so` already gets a second one.
pub full_driver_name-twice :
    (name : List ℕ)
    → bytes_eq (take 3 name) prefix ≡ false
    → (full : List ℕ) × (full ≡ prefix ++ (name ++ suffix))
      × (full_driver_name name ≡ some full)
      × (full_driver_name full ≡ some full)
full_driver_name-twice name bare =
    (_, refl, full_driver_name-bare name bare, full_driver_name_complete name)

not_beyond_prefixed :
    (name : List ℕ) (short same : Bool)
    → short ≡ false
    → 3 ≤ length name
    → ltb (length name) (length (prefixed name short same) - 3) ≡ false
not_beyond_prefixed name true same e long = cc
not_beyond_prefixed name false true e long =
    not_beyond (length name) (length name - 3) (omega arith)
not_beyond_prefixed name false false e long =
    not_beyond (length name) (length (prefix ++ name) - 3) (omega arith)

long_enough : (n : ℕ) → ltb n 3 ≡ false → 3 ≤ n
long_enough n h = ground arith

differs_at-there :
    (name : List ℕ) (position : ℕ)
    → ltb (length name) position ≡ false
    → (differs : Bool) × (differs_at name position 3 suffix ≡ some differs)
differs_at-there name position e = (not (bytes_eq (take 3 (drop position name)) suffix), rw e)

-- The test for the suffix never reads past the end of the name.
pub full_driver_name-total : (name : List ℕ) → (full : List ℕ) × (full_driver_name name ≡ some full)
unfolding full_driver_name with_prefix
full_driver_name-total name =
    given (with_prefix name) (ltb (length name) 3) _ (elim (Bool-cases (ltb (length name) 3)) [
      | inl short ↦ inl short
      | inr enough ↦ inr (
          differs_at-there name _ (
            not_beyond_prefixed name (ltb (length name) 3) (bytes_eq (take 3 name) prefix) enough
              (long_enough (length name) enough)))
    ])
  where
    given :
        (full : List ℕ) (short : Bool) (found : Option Bool)
        → (short ≡ true) ⊎ ((differs : Bool) × (found ≡ some differs))
        → (full' : List ℕ) × (suffixed full short found ≡ some full')
    given full true found h = (_, refl)
    given full false found (inl e) = cc
    given full false found (inr (true, e)) = (_, ap (suffixed full false) e)
    given full false found (inr (false, e)) = (_, ap (suffixed full false) e)
