-- ===== src/Router/Tests.antt =====
-- Keys and paths of the unit tests of kv-service/server/src/router.rs, and an instance of each theorem.
use context_store.Prelude.{
  length, ◌≢◌, ◌+◌, ◌^◌, ◌<◌, ℕ, true, false, some, List, [], ◌∷◌, ◌≡◌, refl, arith, All,
}
use context_store.Router
use context_store.Router.{
  ObjectKey, to_string_key, from_string_key, decoded, invalid, no_colon, bad_length, bad_boundary,
}
use context_store.Router.Files.{
  to_route, chunk_device, ShardRouter, chunk_versioned_path, key_to_versioned_path, path_component,
  is_kept, no_name, data_name,
}
use context_store.Router.Groups.{
  group_by_device, groups_of, group_by_device_lem, chunk_device-injective,
}
use context_store.Router.Keys.{IsKey, from_string_key-to}
use context_store.Router.Paths.{
  chunk_versioned_path-injective, key_to_versioned_path-injective, path_component_lem,
}

program : Unit {0}
unfolding to_string_key from_string_key Router.cut_key Router.is_char_boundary Router.split_at
    Router.split_once Router.get Router.Decimal.show Router.Decimal.show_digits Router.Decimal.parse
    Router.Decimal.parse_sign Router.Decimal.parse_digits Router.Decimal.push_digit
    Router.Files.file_path Router.Files.object_digest Router.Files.device_root path_component
    Router.Files.kept_chars chunk_versioned_path key_to_versioned_path
program = tt

-- "t:a" and "/1:"
abbrev tenant : ObjectKey
tenant = record { namespace = 116 ∷ 58 ∷ 97 ∷ []; object_key = 47 ∷ 49 ∷ 58 ∷ [] }

to_string_key_run : to_string_key tenant ≡ 51 ∷ 58 ∷ 116 ∷ 58 ∷ 97 ∷ 47 ∷ 49 ∷ 58 ∷ []
unfolding program
to_string_key_run = refl

-- "3", "x:a", "5:ab" and "1:é"
from_string_key_run :
    (from_string_key (51 ∷ []) ≡ invalid no_colon)
    × (from_string_key (120 ∷ 58 ∷ 97 ∷ []) ≡ invalid bad_length)
    × (from_string_key (53 ∷ 58 ∷ 97 ∷ 98 ∷ []) ≡ invalid bad_boundary)
    × (from_string_key (49 ∷ 58 ∷ 195 ∷ 169 ∷ []) ≡ invalid bad_boundary)
unfolding program
from_string_key_run = (refl, refl, refl, refl)

tenant-IsKey : IsKey tenant
tenant-IsKey = record { short = omega arith; starts = refl }

from_string_key-to_example : from_string_key (to_string_key tenant) ≡ decoded tenant
from_string_key-to_example = from_string_key-to tenant tenant-IsKey

abbrev first : ℕ
first = 1

abbrev third : ℕ
third = 3

abbrev twelve : ℕ
twelve = 12

-- A digest of eight digits.
abbrev some_digest : List ℕ → List ℕ
some_digest bytes = 97 ∷ 98 ∷ 99 ∷ 100 ∷ 48 ∷ 49 ∷ 50 ∷ 51 ∷ []

abbrev router : ShardRouter
router = record { devices = (47 ∷ 97 ∷ []) ∷ (47 ∷ 98 ∷ []) ∷ []; data_subdir = 100 ∷ [] }

-- "/b", "d", "data", "t_a", "ab", "cd", "0123.g12.l1.chunk3.bin"
abbrev chunk_file : List (List ℕ)
chunk_file =
    (47 ∷ 98 ∷ [])
    ∷ (100 ∷ [])
    ∷ data_name
    ∷ (116 ∷ 95 ∷ 97 ∷ [])
    ∷ (97 ∷ 98 ∷ [])
    ∷ (99 ∷ 100 ∷ [])
    ∷ (48 ∷ 49 ∷ 50 ∷ 51 ∷ 46 ∷ 103 ∷ 49 ∷ 50 ∷ 46 ∷ 108 ∷ 49 ∷ 46 ∷ 99 ∷ 104 ∷ 117 ∷ 110 ∷ 107 ∷ 51
        ∷ 46 ∷ 98 ∷ 105 ∷ 110 ∷ [])
    ∷ []

chunk_run : chunk_versioned_path some_digest router tenant 3 1 12 1 ≡ some chunk_file
unfolding program
chunk_run = refl

chunk_versioned_path-injective_example : (third ≡ 3) × (twelve ≡ 12) × (first ≡ 1)
chunk_versioned_path-injective_example =
    chunk_versioned_path-injective some_digest router tenant chunk_file (omega arith) (omega arith)
      (omega arith) (omega arith) 1 1 3 3 (omega arith) (omega arith) chunk_run chunk_run

-- "/a", "d", "data", "t_a", "ab", "cd", "0123.g12.l1.bin"
abbrev whole_file : List (List ℕ)
whole_file =
    (47 ∷ 97 ∷ [])
    ∷ (100 ∷ [])
    ∷ data_name
    ∷ (116 ∷ 95 ∷ 97 ∷ [])
    ∷ (97 ∷ 98 ∷ [])
    ∷ (99 ∷ 100 ∷ [])
    ∷ (48 ∷ 49 ∷ 50 ∷ 51 ∷ 46 ∷ 103 ∷ 49 ∷ 50 ∷ 46 ∷ 108 ∷ 49 ∷ 46 ∷ 98 ∷ 105 ∷ 110 ∷ [])
    ∷ []

whole_run : key_to_versioned_path some_digest router tenant 0 12 1 ≡ some whole_file
unfolding program
whole_run = refl

key_to_versioned_path-injective_example : (twelve ≡ 12) × (first ≡ 1)
key_to_versioned_path-injective_example =
    key_to_versioned_path-injective some_digest router tenant whole_file (omega arith) (omega arith)
      (omega arith) (omega arith) 0 0 whole_run whole_run

path_component_lem_example :
    All (λ b. is_kept b ≡ true) (path_component (46 ∷ 46 ∷ []))
    × (no_name (path_component (46 ∷ 46 ∷ [])) ≡ false)
path_component_lem_example = path_component_lem (46 ∷ 46 ∷ [])

-- A hash that is the length of the key.
abbrev length_hash : List ℕ → ℕ
length_hash bytes = length bytes

abbrev longer : ObjectKey
longer = record { namespace = 116 ∷ 58 ∷ 97 ∷ []; object_key = 47 ∷ 49 ∷ 58 ∷ 49 ∷ [] }

-- The keys have 8, 9 and 8 bytes.
group_run :
    group_by_device length_hash router (tenant ∷ longer ∷ tenant ∷ [])
    ≡ some ((0, tenant ∷ tenant ∷ []) ∷ (1, longer ∷ []) ∷ [])
unfolding program group_by_device
group_run = refl

group_by_device_lem_example :
    group_by_device length_hash router (tenant ∷ longer ∷ tenant ∷ [])
    ≡ some (groups_of length_hash router 0 2 (tenant ∷ longer ∷ tenant ∷ []))
group_by_device_lem_example =
    group_by_device_lem length_hash router (tenant ∷ longer ∷ tenant ∷ []) (omega arith)

devices_run :
    (chunk_device length_hash router tenant 3 ≡ some 1)
    × (chunk_device length_hash router tenant 4 ≡ some 0)
    × (to_route length_hash router tenant + 4 < 2 ^ 64)
unfolding program chunk_device
devices_run = (refl, refl, omega arith)

chunk_device-injective_example : first ≢ 0
chunk_device-injective_example =
    chunk_device-injective length_hash router tenant 3 4 1 0 (omega arith) (omega arith)
      devices_run.2 devices_run.0 devices_run.1
