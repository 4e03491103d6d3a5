-- ===== src/Router/Files.antt =====
-- The files of an object: `ShardRouter` of kv-service/server/src/router.rs. The hash of the routing
-- and the digest of the names, MD5 in hexadecimal, are parameters.
use context_store.Prelude.{
  ℕ, zero, suc, ◌+◌, ◌%◌, ◌^◌, Bool, true, false, ◌&&◌, ◌||◌, Option, none, some, List, [], ◌∷◌,
  ◌++◌, length, ltb, leb, ◌==◌, if◌then◌else◌,
}
use context_store.Router.{ObjectKey, to_string_key, split_at}
use context_store.Router.Decimal.{show}

-- A directory is a string; a path is the list of what was joined.
pub record ShardRouter : Type 0 where
  pub devices : List (List ℕ)
  pub data_subdir : List ℕ

-- `self.devices[device_id]`, which panics out of range
unfoldable pub device_root : ℕ → List (List ℕ) → Option (List ℕ)
device_root i [] = none
device_root zero (d ∷ devices) = some d
device_root (suc i) (d ∷ devices) = device_root i devices

-- `ch.is_ascii_alphanumeric() || matches!(ch, '.' | '-' | '_')`, of the first byte of a character
abbrev pub is_kept : ℕ → Bool
is_kept b =
    (leb 48 b && leb b 57)
    || (leb 65 b && leb b 90)
    || (leb 97 b && leb b 122)
    || b == 46
    || b == 45
    || b == 95

-- The characters, each kept or replaced: a byte from 128 to 191 goes on with a character.
unfoldable pub kept_chars : List ℕ → List ℕ
kept_chars [] = []
kept_chars (b ∷ bytes) =
    let rest = kept_chars bytes in
    if is_kept b then b ∷ rest else if leb 128 b && ltb b 192 then rest else 95 ∷ rest

abbrev pub no_name : List ℕ → Bool
no_name [] = true
no_name (b ∷ []) = b == 46
no_name (b ∷ c ∷ []) = b == 46 && c == 46
no_name (b ∷ c ∷ d ∷ bytes) = false

unfoldable pub path_component : List ℕ → List ℕ
unfolding kept_chars
path_component value = let out = kept_chars value in if no_name out then 95 ∷ [] else out

abbrev pub bin : List ℕ
bin = 46 ∷ 98 ∷ 105 ∷ 110 ∷ []

-- `.chunk{}`
abbrev pub chunk_part : ℕ → List ℕ → List ℕ
chunk_part chunk_idx rest = 46 ∷ 99 ∷ 104 ∷ 117 ∷ 110 ∷ 107 ∷ (show chunk_idx ++ rest)

-- `.g{}.l{}`
abbrev pub version_part : ℕ → ℕ → List ℕ → List ℕ
version_part generation layout_version rest =
    46 ∷ 103 ∷ (show generation ++ (46 ∷ 108 ∷ (show layout_version ++ rest)))

-- `device_root.join(data_subdir).join("data").join(…).join(hi).join(lo).join(name)`
abbrev pub data_name : List ℕ
data_name = 100 ∷ 97 ∷ 116 ∷ 97 ∷ []

module _ (digest : List ℕ → List ℕ) where
  -- `object_digest`
  unfoldable pub object_digest : ObjectKey → List ℕ
  object_digest key = digest (to_string_key key)

  -- The directories and the start of the file's name are cut from the digest; `suffix` is the rest.
  unfoldable pub file_path : ShardRouter → ObjectKey → ℕ → List ℕ → Option (List (List ℕ))
  unfolding object_digest device_root path_component split_at
  file_path router key device_id suffix =
      let (hi, rest) = split_at 2 (object_digest key) in
      let (lo, file) = split_at 2 rest in
      elim (device_root device_id router.devices) [
        | none ↦ none
        | some root ↦ some (
            root
            ∷ router.data_subdir
            ∷ data_name
            ∷ path_component key.namespace
            ∷ hi
            ∷ lo
            ∷ (file ++ suffix)
            ∷ [])
      ]

  unfoldable pub key_to_path_on_device : ShardRouter → ObjectKey → ℕ → Option (List (List ℕ))
  unfolding file_path
  key_to_path_on_device router key device_id = file_path router key device_id bin

  unfoldable pub key_to_versioned_path :
      ShardRouter → ObjectKey → ℕ → ℕ → ℕ → Option (List (List ℕ))
  unfolding file_path
  key_to_versioned_path router key device_id generation layout_version =
      file_path router key device_id (version_part generation layout_version bin)

  unfoldable pub chunk_path : ShardRouter → ObjectKey → ℕ → ℕ → Option (List (List ℕ))
  unfolding file_path
  chunk_path router key chunk_idx device_id =
      file_path router key device_id (chunk_part chunk_idx bin)

  unfoldable pub chunk_versioned_path :
      ShardRouter → ObjectKey → ℕ → ℕ → ℕ → ℕ → Option (List (List ℕ))
  unfolding file_path
  chunk_versioned_path router key chunk_idx device_id generation layout_version =
      file_path router key device_id
        (version_part generation layout_version (chunk_part chunk_idx bin))

-- `hash64(key) as usize % devices.len()`
module _ (hash64 : List ℕ → ℕ) where
  abbrev pub to_route : ShardRouter → ObjectKey → ℕ
  to_route router key = hash64 (to_string_key key) % length router.devices

  -- It panics without devices.
  unfoldable pub route : ShardRouter → ObjectKey → Option ℕ
  route router key = if length router.devices == 0 then none else some (to_route router key)

  unfoldable pub chunk_device : ShardRouter → ObjectKey → ℕ → Option ℕ
  unfolding route
  chunk_device router key chunk_idx = elim (route router key) [
    | none ↦ none
    | some base ↦ some ((base + chunk_idx) % 2 ^ 64 % length router.devices)
  ]
