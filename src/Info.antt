-- ===== src/Info.antt =====
-- The information on the driver, `SqliteConnectionGetInfo` of c/driver/sqlite/sqlite.c. nanoarrow's
-- arrays are a parameter, as are the versions of SQLite and of nanoarrow.
pub mod Answers
mod Tests
use arrow_adbc.Base.{
  ℕ, Bool, false, true, Option, none, some, List, [], ◌∷◌, ◌==◌, codes, if◌then◌else◌,
}
use arrow_adbc.Adbc.{StatusCode}
use arrow_adbc.OneBatch.{SingleBatch, batch_to_array_stream}

-- `ArrowArrayAppendUInt` to the child 0, `ArrowArrayAppendString` to the first member of the union,
-- `ArrowArrayFinishUnionElement` with its type, `ArrowArrayFinishElement` and `ArrowArrayFinishBuilding`.
pub data InfoCall : Type 0 where
  append_code : ℕ → InfoCall
  append_value : List ℕ → InfoCall
  finish_union : ℕ → InfoCall
  finish_element finish_building : InfoCall

-- `apply` is `none` for a call that is not NANOARROW_OK.
pub record InfoBuilder : Type 1 where
  pub Arrays : Type 0
  pub apply : InfoCall → Arrays → Option Arrays
  pub sqlite3_libversion : List ℕ
  pub nanoarrow_version : List ℕ

abbrev pub vendor_name : ℕ
vendor_name = 0

abbrev pub vendor_version : ℕ
vendor_version = 1

abbrev pub driver_name : ℕ
driver_name = 100

abbrev pub driver_version : ℕ
driver_version = 101

abbrev pub driver_arrow_version : ℕ
driver_arrow_version = 102

-- `kSupportedInfoCodes`
abbrev pub supported_info_codes : List ℕ
supported_info_codes =
    vendor_name ∷ vendor_version ∷ driver_name ∷ driver_version ∷ driver_arrow_version ∷ []

abbrev pub after {ℓ} : {A : Type ℓ} → Option A → (A → Option A) → Option A
after none next = none
after (some a) next = next a

module _ (b : InfoBuilder) where
  open b use {Arrays, apply, sqlite3_libversion, nanoarrow_version}

  -- `SqliteConnectionGetInfoAppendStringImpl`
  unfoldable pub append_string_impl : ℕ → List ℕ → Arrays → Option Arrays
  append_string_impl info_code info_value a =
      after (apply (append_code info_code) a)
        (λ a. after (apply (append_value info_value) a) (λ a. apply (finish_union 0) a))

  -- The `switch` on a code, where `default` is `none`.
  unfoldable pub info_value : ℕ → Option (List ℕ)
  info_value info_code =
      if info_code == vendor_name
      then some (codes "SQLite")
      else if info_code == vendor_version
      then some sqlite3_libversion
      else if info_code == driver_name
      then some (codes "ADBC SQLite Driver")
      else if info_code == driver_version
      then some (codes "(unknown)")
      else if info_code == driver_arrow_version
      then some nanoarrow_version
      else none

  -- One turn of the loop.
  abbrev pub append_info : ℕ → Option (List ℕ) → Arrays → Option Arrays
  append_info info_code none a = some a
  append_info info_code (some value) a =
      after (append_string_impl info_code value a) (λ a. apply finish_element a)

  unfoldable pub append_infos : List ℕ → Arrays → Option Arrays
  unfolding append_string_impl info_value
  append_infos [] a = some a
  append_infos (info_code ∷ info_codes) a =
      after (append_info info_code (info_value info_code) a) (λ a. append_infos info_codes a)

  -- `SqliteConnectionGetInfoImpl`, from the arrays that `ArrowArrayStartAppending` leaves on, with `none`
  -- for INTERNAL.
  unfoldable pub get_info_impl : List ℕ → Arrays → Option Arrays
  unfolding append_infos
  get_info_impl info_codes a = after (append_infos info_codes a) (λ a. apply finish_building a)

  abbrev pub asked_codes : Option (List ℕ) → List ℕ
  asked_codes none = supported_info_codes
  asked_codes (some info_codes) = info_codes

  module _ (Schema : Type 0) where
    abbrev pub info_stream :
        Option Arrays
        → Schema
        → Option (SingleBatch Schema Arrays)
        → StatusCode × Option (SingleBatch Schema Arrays)
    info_stream none schema out = (StatusCode.internal, out)
    info_stream (some array) schema out =
        let (status, array, schema, out) =
          batch_to_array_stream Schema Arrays (some array) (some schema) out in
        (status, out)

    -- The schema and the arrays that the code starts from, or a failed call.
    abbrev pub info_started :
        Option (Schema × Arrays)
        → Option (List ℕ)
        → Option (SingleBatch Schema Arrays)
        → StatusCode × Option (SingleBatch Schema Arrays)
    info_started none info_codes out = (StatusCode.internal, out)
    info_started (some (schema, array)) info_codes out =
        info_stream (get_info_impl (asked_codes info_codes) array) schema out

    -- `SqliteConnectionGetInfo`: the status and `out`.
    unfoldable pub get_info :
        Bool
        → Option (Schema × Arrays)
        → Option (List ℕ)
        → Option (SingleBatch Schema Arrays)
        → StatusCode × Option (SingleBatch Schema Arrays)
    unfolding get_info_impl batch_to_array_stream
    get_info false started info_codes out = (StatusCode.invalid_state, out)
    get_info true started info_codes out = info_started started info_codes out
