-- ===== src/Config/Json.antt =====
-- src/recorder.c: the `json_get_` functions that read one key of the configuration. The values of
-- the JSON library are a data type; what the C library does with numbers and paths is a parameter.
use recorder.Common.{ℕ, ℤ, pos, negsuc, ◌^◌, ◌<◌, ◌≡◌, Bool, true, not, ◌||◌, ◌&&◌}
use recorder.Common.{
  Option, none, some, List, [], ◌∷◌, length, set, replicate, bytes_eq, ltb, ◌==◌, codes,
  if◌then◌else◌,
}
use mathlib.Core.Option

mutual
  pub data Json : Type 0 where
    json_null : Json
    json_boolean : Bool → Json
    json_integer : ℤ → Json
    json_real : Json
    json_string : List ℕ → Json
    json_array : Elements → Json
    json_object : Members → Json

  pub data Elements : Type 0 where
    no_more : Elements
    element : Json → Elements → Elements

  pub data Members : Type 0 where
    no_member : Members
    member : List ℕ → Json → Members → Members

-- `strtoull` and `strtol` in base 10, with the value and what stands behind it; `none` if `errno` was
-- set, for `strtoull` also if nothing was converted. Where `strtol` converts nothing, the value is 0
-- and the whole text stands behind it. `regex_compiles` is the regex library's, `readable` is `access`.
pub record Libc : Type 0 where
  pub strtoull : List ℕ → Option (ℕ × List ℕ)
  pub strtol : List ℕ → Option (ℤ × List ℕ)
  pub isalnum : ℕ → Bool
  pub toupper : ℕ → ℕ
  pub regex_compiles : List ℕ → Bool
  pub readable : List ℕ → Bool
  pub strtoull_range :
      (text rest : List ℕ) (value : ℕ) → strtoull text ≡ some (value, rest) → value < 2 ^ 64

unfoldable pub find_member : Members → List ℕ → Option Json
find_member no_member key = none
find_member (member name value rest) key =
    if bytes_eq name key then some value else find_member rest key

-- NULL for a missing key, and for a value that is no object
unfoldable pub json_object_get : Json → List ℕ → Option Json
json_object_get (json_object members) key = find_member members key
json_object_get json key = none

unfoldable pub elements : Elements → List Json
elements no_more = []
elements (element json rest) = json ∷ elements rest

-- a read of a key: `none` is -1, and a missing key leaves the value as it was
abbrev pub with_default {ℓ} : {A : Type ℓ} → Json → List ℕ → (Json → Option A) → A → Option A
with_default root key read dst = elim (json_object_get root key) [
  | none ↦ some dst
  | some node ↦ read node
]

unfoldable pub read_bool : Json → Option Bool
read_bool (json_boolean b) = some b
read_bool json = none

unfoldable pub json_get_bool_default : Json → List ℕ → Bool → Option Bool
json_get_bool_default root key dst = with_default root key read_bool dst

abbrev uint_max : ℕ
uint_max = 0xffffffff

-- an integer from 0 to UINT_MAX
unfoldable pub read_uint : Json → Option ℕ
read_uint (json_integer (pos n)) = if ltb uint_max n then none else some n
read_uint json = none

unfoldable pub json_get_uint_default : Json → List ℕ → ℕ → Option ℕ
json_get_uint_default root key dst = with_default root key read_uint dst

unfoldable pub json_get_group_uint_default : Json → List ℕ → ℕ → Option ℕ
json_get_group_uint_default group key dst = with_default group key read_uint dst

-- an integer from -1 to `max_value`
unfoldable pub read_int_from_minus_one : ℕ → Json → Option ℤ
read_int_from_minus_one max_value (json_integer (pos n)) =
    if ltb max_value n then none else some (pos n)
read_int_from_minus_one max_value (json_integer (negsuc n)) =
    if n == 0 then some (negsuc 0) else none
read_int_from_minus_one max_value json = none

-- `json_get_int_default(root, key, -1, max_value, dst)`, the only way it is called
unfoldable pub json_get_int_default : Json → List ℕ → ℕ → ℤ → Option ℤ
json_get_int_default root key max_value dst =
    with_default root key (read_int_from_minus_one max_value) dst

unfoldable pub read_nonempty : Json → Option (List ℕ)
read_nonempty (json_string text) = if length text == 0 then none else some text
read_nonempty json = none

unfoldable pub json_get_optional_nonempty_string :
    Json → List ℕ → Option (List ℕ) → Option (Option (List ℕ))
json_get_optional_nonempty_string root key dst =
    with_default root key (λ node. Option.map some (read_nonempty node)) dst

-- a list whose elements all can be read
unfoldable pub read_all {ℓ} : {A : Type ℓ} → (Json → Option A) → List Json → Option (List A)
read_all read [] = some []
read_all read (json ∷ rest) =
    let others = read_all read rest in
    elim (read json) [ none ↦ none | some a ↦ Option.map (λ later. a ∷ later) others ]

unfoldable pub read_string_array : Json → Option (List (List ℕ))
read_string_array (json_array items) = read_all read_nonempty (elements items)
read_string_array json = none

unfoldable pub json_get_string_array : Json → List ℕ → List (List ℕ) → Option (List (List ℕ))
json_get_string_array root key dst = with_default root key read_string_array dst

module _ (libc : Libc) where
  -- one round of the loop over the members
  unfoldable pub read_dict_path :
      List ℕ → Json → List (Option (List ℕ)) → Option (List (Option (List ℕ)))
  read_dict_path key (json_string path) paths = elim (libc.strtol key) [
    | none ↦ none
    | some (prio, rest) ↦ elim prio [
      | negsuc n ↦ none
      | pos p ↦ if not (length rest == 0) || ltb 7 p then none else some (set paths p (some path))
    ]
  ]
  read_dict_path key json paths = none

  unfoldable pub read_dict_paths :
      Members → List (Option (List ℕ)) → Option (List (Option (List ℕ)))
  read_dict_paths no_member paths = some paths
  read_dict_paths (member key value rest) paths = elim (read_dict_path key value paths) [
    | none ↦ none
    | some paths' ↦ read_dict_paths rest paths'
  ]

  unfoldable pub read_dict_object : Json → Option (List (Option (List ℕ)))
  read_dict_object (json_object members) = read_dict_paths members (replicate 8 none)
  read_dict_object json = none

  unfoldable pub json_get_static_dict_paths :
      Json → List (Option (List ℕ)) → Option (List (Option (List ℕ)))
  json_get_static_dict_paths root dst =
      with_default root (codes "static_dict_paths") read_dict_object dst

  unfoldable pub name_characters : List ℕ → Bool
  name_characters [] = true
  name_characters (ch ∷ name) =
      (libc.isalnum ch || ((ch == b'_') || (ch == b'-'))) && name_characters name

  unfoldable pub valid_group_name : List ℕ → Bool
  valid_group_name name = not (length name == 0) && name_characters name
