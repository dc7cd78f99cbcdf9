-- ===== src/Manager/Options.antt =====
-- The options that the driver manager keeps until it has a driver: a `std::unordered_map` of strings,
-- c/driver_manager/adbc_driver_manager.cc.
use arrow_adbc.Base.{
  ℕ, ◌≡◌, refl, Bool, true, false, Bool-cases, Option, none, some, List, [], ◌∷◌, inl, inr,
  bytes_eq, bytes_eq_self, bytes_eq→eq, if◌then◌else◌,
}

abbrev pub Options : Type 0
Options = List (List ℕ × List ℕ)

-- `args->options[key] = value`
unfoldable pub set_entry : List ℕ → List ℕ → Options → Options
set_entry key value [] = (key, value) ∷ []
set_entry key value ((k, v) ∷ options) =
    if bytes_eq k key then (k, value) ∷ options else (k, v) ∷ set_entry key value options

unfoldable pub find : List ℕ → Options → Option (List ℕ)
find key [] = none
find key ((k, v) ∷ options) = if bytes_eq k key then some v else find key options

find_same :
    (key k k0 value : List ℕ) (rest : Option (List ℕ)) (v0 : List ℕ)
    → k0 ≡ key
    → (if bytes_eq k0 k then some value else rest)
      ≡ (if bytes_eq key k then some value else (if bytes_eq k0 k then some v0 else rest))
find_same key k k0 value rest v0 e = rw e (given (bytes_eq key k))
  where
    given :
        (b : Bool)
        → (if b then some value else rest)
          ≡ (if b then some value else (if b then some v0 else rest))
    given true = refl
    given false = refl

find_other :
    (same0 same : Bool) (value v0 : List ℕ) (later rest : Option (List ℕ))
    → (same0 ≡ true → same ≡ false)
    → later ≡ (if same then some value else rest)
    → (if same0 then some v0 else later)
      ≡ (if same then some value else (if same0 then some v0 else rest))
find_other true same value v0 later rest apart e = rw (apart refl)
find_other false same value v0 later rest apart e = e

-- `args->options[key] = value` changes what is kept for the key, and for no other.
pub find-set_entry :
    (key value k : List ℕ) (options : Options)
    → find k (set_entry key value options) ≡ (if bytes_eq key k then some value else find k options)
unfolding set_entry find
find-set_entry key value k [] = refl
find-set_entry key value k ((k0, v0) ∷ options) = elim (Bool-cases (bytes_eq k0 key)) [
  | inl same ↦ rw same (find_same key k k0 value (find k options) v0 (bytes_eq→eq k0 key same))
  | inr other ↦ rw other (
      find_other (bytes_eq k0 k) (bytes_eq key k) value v0 (find k (set_entry key value options))
        (find k options) (apart other) (find-set_entry key value k options))
]
  where
    apart : bytes_eq k0 key ≡ false → bytes_eq k0 k ≡ true → bytes_eq key k ≡ false
    apart other here = elim (Bool-cases (bytes_eq key k)) [
      | inl there ↦
          let k0_k = bytes_eq→eq k0 k here in
          let key_k = bytes_eq→eq key k there in
          let e : bytes_eq k0 key ≡ true = rw (k0_k, key_k) (bytes_eq_self k) in cc
      | inr differ ↦ differ
    ]
