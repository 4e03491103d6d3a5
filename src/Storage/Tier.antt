-- ===== src/Storage/Tier.antt =====
-- The state of the storage tier and the helpers of its operations, of
-- kv-service/server/src/storage_tier.rs. The operations on one key hold its lock, so they follow one
-- another here; the directories of the files, logs and the optional metrics are left out. Paths are
-- strings.
use context_store.Prelude.{
  ℕ, zero, suc, ◌+◌, ◌-◌, ◌/◌, ◌%◌, ◌^◌, Bool, true, false, not, ◌&&◌, ◌||◌, ltb, leb,
  if◌then◌else◌, Option, none, some, List, [], ◌∷◌, ◌++◌, length, eq_bytes,
}
use context_store.Prelude.Int.{ℤ, pos, negsuc, ◌+ℤ◌}
use context_store.Prelude.Results.{Result, ok, err}
use context_store.Prelude.Actions.{Action, pure, modify, gets, or_raise, ◌>>=◌, ◌>>◌}
use context_store.Metadata.{StripingInfo, BlockMeta}
use context_store.Router.{ObjectKey}
use context_store.Router.Decimal.{show}
use context_store.Router.Files.{
  ShardRouter, route, key_to_path_on_device, key_to_versioned_path, chunk_versioned_path,
}
use context_store.Storage.Paths.{path_string, components, starts_with}
use context_store.Storage.Executor.{KvError, not_found, panicked, Executor, MetadataService}

-- The fields of `StorageTier` that do not change, and the hashes: MD5 in hexadecimal, and xxHash of
-- bytes and of a stream of segments.
pub record Tier : Type 1 where
  pub executor : Executor
  pub service : MetadataService
  pub router : ShardRouter
  pub striping_threshold : ℕ
  pub striping_chunk_size : ℕ
  pub verify_stripe_checksums : Bool
  pub gc_grace_seconds : ℕ
  pub digest : List ℕ → List ℕ
  pub hash64 : List ℕ → ℕ
  pub hash_stream : List (List ℕ) → ℕ

abbrev pub hex_digit : ℕ → ℕ
hex_digit n = if ltb n 10 then 48 + n else 87 + n

unfoldable pub hex_digits : ℕ → ℕ → List ℕ
hex_digits zero n = []
hex_digits (suc w) n = hex_digits w (n / 16) ++ (hex_digit (n % 16) ∷ [])

-- `format!("{:016x}", n)`
abbrev pub hex16 : ℕ → List ℕ
hex16 n = hex_digits 16 n

abbrev pub show_ℤ : ℤ → List ℕ
show_ℤ (pos n) = show n
show_ℤ (negsuc n) = 45 ∷ show (suc n)

abbrev pub fetch_add : ℕ → ℕ → ℕ
fetch_add a b = (a + b) % 2 ^ 64

-- A counter of a device, if there is that device.
unfoldable pub update_at : ℕ → (ℕ → ℕ) → List ℕ → List ℕ
update_at i f [] = []
update_at zero f (c ∷ counters) = f c ∷ counters
update_at (suc i) f (c ∷ counters) = c ∷ update_at i f counters

unfoldable pub get_nth : {A : Type 0} → ℕ → List A → Option A
get_nth i [] = none
get_nth zero (a ∷ rest) = some a
get_nth (suc i) (a ∷ rest) = get_nth i rest

abbrev pub is_better : ℕ → Option (ℕ × ℕ) → Bool
is_better count none = true
is_better count (some (i, most)) = leb most count

-- The device and its number with the most components, the last one of those.
unfoldable pub best_device : List ℕ → ℕ → Option (ℕ × ℕ) → List (List ℕ) → Option (ℕ × ℕ)
unfolding starts_with components
best_device path i best [] = best
best_device path i best (device ∷ devices) =
    let count = length (components device) in
    best_device path (suc i)
      (if starts_with path device && is_better count best then some (i, count) else best) devices

unfoldable pub is_managed : List ℕ → List (List ℕ) → Bool
unfolding starts_with
is_managed path [] = false
is_managed path (device ∷ devices) = starts_with path device || is_managed path devices

-- "|generation=", "|layout=", "|size=", "|created_at=", "ctxobj-v1-"
abbrev pub generation_label : List ℕ
generation_label = 124 ∷ 103 ∷ 101 ∷ 110 ∷ 101 ∷ 114 ∷ 97 ∷ 116 ∷ 105 ∷ 111 ∷ 110 ∷ 61 ∷ []

abbrev pub layout_label : List ℕ
layout_label = 124 ∷ 108 ∷ 97 ∷ 121 ∷ 111 ∷ 117 ∷ 116 ∷ 61 ∷ []

abbrev pub size_label : List ℕ
size_label = 124 ∷ 115 ∷ 105 ∷ 122 ∷ 101 ∷ 61 ∷ []

abbrev pub created_label : List ℕ
created_label = 124 ∷ 99 ∷ 114 ∷ 101 ∷ 97 ∷ 116 ∷ 101 ∷ 100 ∷ 95 ∷ 97 ∷ 116 ∷ 61 ∷ []

abbrev pub handle_label : List ℕ
handle_label = 99 ∷ 116 ∷ 120 ∷ 111 ∷ 98 ∷ 106 ∷ 45 ∷ 118 ∷ 49 ∷ 45 ∷ []

module _ (T : Tier) where
  pub record World : Type 0 where
    pub metadata : T.service.State
    pub files : T.executor.Files
    pub reads_total : ℕ
    pub writes_total : ℕ
    pub striped_writes : ℕ
    pub bytes_read : ℕ
    pub bytes_written : ℕ
    pub device_read_bytes_total : List ℕ
    pub device_used_bytes_total : List ℕ

  abbrev pub Run : Type 0 → Type 0
  Run A = Action World KvError A

  unfoldable pub on_metadata :
      {A : Type 0} → (T.service.State → Result KvError A × T.service.State) → Run A
  on_metadata call w = let (r, s) = call w.metadata in (r, record w { metadata = s })

  unfoldable pub on_files :
      {A : Type 0} → (T.executor.Files → Result KvError A × T.executor.Files) → Run A
  on_files call w = let (r, f) = call w.files in (r, record w { files = f })

  abbrev pub gc_not_before : ℤ → ℤ
  gc_not_before now = now +ℤ pos T.gc_grace_seconds

  -- A write of `put` and the like, and a read of `get` and the like, as they are counted.
  abbrev pub counted_write : ℕ → World → World
  counted_write bytes w = record w {
    writes_total = fetch_add w.writes_total 1;
    bytes_written = fetch_add w.bytes_written bytes;
  }

  abbrev pub counted_read : ℕ → World → World
  counted_read bytes w = record w {
    reads_total = fetch_add w.reads_total 1;
    bytes_read = fetch_add w.bytes_read bytes;
  }

  abbrev pub record_device_read : ℕ → ℕ → World → World
  record_device_read device_id bytes w = record w {
    device_read_bytes_total =
        update_at device_id (λ c. fetch_add c bytes) w.device_read_bytes_total;
  }

  abbrev pub record_device_write : ℕ → ℕ → World → World
  record_device_write device_id bytes w = record w {
    device_used_bytes_total =
        update_at device_id (λ c. fetch_add c bytes) w.device_used_bytes_total;
  }

  -- `saturating_sub`
  abbrev pub record_device_delete : ℕ → ℕ → World → World
  record_device_delete device_id bytes w = record w {
    device_used_bytes_total = update_at device_id (λ c. c - bytes) w.device_used_bytes_total;
  }

  abbrev pub size_of : Option (List ℕ) → ℕ
  size_of none = 0
  size_of (some bytes) = length bytes

  abbrev pub file_size : List ℕ → World → ℕ
  file_size path w = size_of (T.executor.contents path w.files)

  abbrev pub checksum_bytes : List ℕ → List ℕ
  checksum_bytes bytes = hex16 (T.hash64 bytes)

  abbrev pub checksum_segments : List (List ℕ) → List ℕ
  checksum_segments segments = hex16 (T.hash_stream segments)

  abbrev pub some_unless_empty : Option (List ℕ) → Option (List ℕ)
  some_unless_empty none = none
  some_unless_empty (some []) = none
  some_unless_empty (some (b ∷ bytes)) = some (b ∷ bytes)

  -- `none` inside is that nothing is checked.
  unfoldable pub expected_stripe_checksum : StripingInfo → ℕ → Result KvError (Option (List ℕ))
  unfolding get_nth
  expected_stripe_checksum stripe index =
      if not T.verify_stripe_checksums
      then ok none
      else (elim (some_unless_empty (get_nth index stripe.chunk_checksums)) [
        | none ↦ err not_found
        | some checksum ↦ ok (some checksum)
      ])

  unfoldable pub verify_stripe_bytes : StripingInfo → ℕ → List ℕ → Result KvError (Unit {0})
  unfolding expected_stripe_checksum hex_digits
  verify_stripe_bytes stripe index bytes = elim (expected_stripe_checksum stripe index) [
    | err e ↦ err e
    | ok none ↦ ok tt
    | ok (some expected) ↦ if eq_bytes (checksum_bytes bytes) expected then ok tt else err not_found
  ]

  unfoldable pub from_result : {A : Type 0} → Result KvError A → Run A
  from_result r w = (r, w)

  unfoldable pub write_file_on_device : ℕ → List ℕ → List ℕ → Run (Unit {0})
  unfolding update_at
  write_file_on_device device_id path bytes = do
    on_files (T.executor.write_file path bytes)
    modify (λ w. record_device_write device_id (file_size path w) w)

  unfoldable pub read_file_on_device : ℕ → List ℕ → Run (List ℕ)
  read_file_on_device device_id path = on_files (T.executor.read_file path)

  unfoldable pub delete_file_on_device : ℕ → List ℕ → Run (Unit {0})
  unfolding update_at
  delete_file_on_device device_id path = do
    bytes ← gets (file_size path)
    on_files (T.executor.delete_file path)
    modify (record_device_delete device_id bytes)

  abbrev pub first_of : Option (ℕ × ℕ) → Option ℕ
  first_of none = none
  first_of (some (i, count)) = some i

  unfoldable pub device_id_for_path : List ℕ → Option ℕ
  unfolding best_device
  device_id_for_path path = first_of (best_device path 0 none T.router.devices)

  abbrev pub to_string_lossy : Option (List (List ℕ)) → Option (List ℕ)
  to_string_lossy none = none
  to_string_lossy (some names) = some (path_string names)

  -- The router's choices panic where there is no such device.
  abbrev pub routed : ObjectKey → Run ℕ
  routed key = or_raise panicked (route T.hash64 T.router key)

  abbrev pub versioned_path : ObjectKey → ℕ → ℕ → ℕ → Run (List ℕ)
  versioned_path key device_id generation layout_version = or_raise panicked (
      to_string_lossy
        (key_to_versioned_path T.digest T.router key device_id generation layout_version))

  abbrev pub chunk_path : ObjectKey → ℕ → ℕ → ℕ → ℕ → Run (List ℕ)
  chunk_path key stripe_index device_id generation layout_version = or_raise panicked (
      to_string_lossy (
        chunk_versioned_path T.digest T.router key stripe_index device_id generation
          layout_version))

  unfoldable pub meta_path_or_route : ObjectKey → BlockMeta → Run (List ℕ)
  unfolding route key_to_path_on_device path_string
  meta_path_or_route key meta = elim meta.file_path [
    | [] ↦ do
      device_id ← routed key
      or_raise panicked (to_string_lossy (key_to_path_on_device T.digest T.router key device_id))
    | b ∷ bytes ↦ pure (b ∷ bytes)
  ]

  unfoldable pub meta_device_or_route : ObjectKey → BlockMeta → Run ℕ
  unfolding route
  meta_device_or_route key meta =
      if ltb meta.device_id (length T.router.devices) then pure meta.device_id else routed key

  -- Errors are dropped.
  unfoldable pub delete_paths_best_effort : List (List ℕ) → World → World
  unfolding device_id_for_path delete_file_on_device
  delete_paths_best_effort [] w = w
  delete_paths_best_effort (path ∷ paths) w =
      delete_paths_best_effort paths (elim (device_id_for_path path) [
        | none ↦ (on_files (T.executor.delete_file path) w).1
        | some device_id ↦ (delete_file_on_device device_id path w).1
      ])
