-- ===== src/Storage/Batch.antt =====
-- `get_batch` of kv-service/server/src/storage_tier.rs: the whole objects are read in the order of
-- their paths, and each result goes to the slot of its key.
use context_store.Prelude.{
  ℕ, zero, suc, Bool, true, false, ltb, ◌==◌, ◌||◌, ◌&&◌, if◌then◌else◌, Option, none, some, List,
  [], ◌∷◌, length, map, eq_bytes,
}
use context_store.Prelude.Int.{ℤ}
use context_store.Prelude.Results.{Result, ok, err}
use context_store.Prelude.Actions.{pure, gets, ◌>>=◌}
use context_store.Metadata.{BlockMeta}
use context_store.Router.{ObjectKey, to_string_key}
use context_store.Storage.Paths.{components}
use context_store.Storage.Executor.{KvError, internal}
use context_store.Storage.Tier.{
  Tier, World, Run, on_metadata, meta_path_or_route, meta_device_or_route, counted_read,
  record_device_read, update_at,
}
use context_store.Storage.Commit.{delete_metadata_if_current, purge_if_expired}
use context_store.Storage.Reads.{read_aligned_batch, read_object, drop_metadata}

-- `Ord` of the components of a path: the root, a dot, two dots, names by their bytes
abbrev pub rank : List ℕ → ℕ
rank part =
    if eq_bytes part (47 ∷ [])
    then 0
    else if eq_bytes part (46 ∷ [])
    then 1
    else if eq_bytes part (46 ∷ 46 ∷ [])
    then 2
    else 3

unfoldable pub leb_bytes : List ℕ → List ℕ → Bool
leb_bytes [] bs = true
leb_bytes (a ∷ as') [] = false
leb_bytes (a ∷ as') (b ∷ bs) = ltb a b || (a == b && leb_bytes as' bs)

unfoldable pub leb_parts : List (List ℕ) → List (List ℕ) → Bool
unfolding leb_bytes
leb_parts [] qs = true
leb_parts (p ∷ ps) [] = false
leb_parts (p ∷ ps) (q ∷ qs) =
    if eq_bytes p q
    then leb_parts ps qs
    else ltb (rank p) (rank q) || (rank p == rank q && leb_bytes p q)

pub record Request : Type 0 where
  pub idx : ℕ
  pub path : List ℕ
  pub meta : BlockMeta
  pub device_id : ℕ

abbrev pub leb_request : Request → Request → Bool
leb_request r s = leb_parts (components r.path) (components s.path)

-- `sort_by`, which is stable
unfoldable pub insert : Request → List Request → List Request
unfolding leb_parts components
insert r [] = r ∷ []
insert r (s ∷ rest) = let more = insert r rest in if leb_request r s then r ∷ s ∷ rest else s ∷ more

unfoldable pub sort : List Request → List Request
unfolding insert
sort [] = []
sort (r ∷ rest) = insert r (sort rest)

-- What the first loop finds for a key.
pub data Gathered : Type 0 where
  answer : Option (List ℕ × BlockMeta) → Gathered
  to_read : List ℕ → BlockMeta → ℕ → Gathered

abbrev pub Slot : Type 0
Slot = Option (Result KvError (Option (List ℕ × BlockMeta)))

unfoldable pub set_nth : ℕ → Slot → List Slot → List Slot
set_nth i slot [] = []
set_nth zero slot (old ∷ slots) = slot ∷ slots
set_nth (suc i) slot (old ∷ slots) = old ∷ set_nth i slot slots

abbrev pub fill_slot : Slot → Result KvError (Option (List ℕ × BlockMeta))
fill_slot none = err internal
fill_slot (some r) = r

module _ (T : Tier) where
  unfoldable pub gather_known : ObjectKey → BlockMeta → Run T Gathered
  unfolding read_object meta_path_or_route meta_device_or_route delete_metadata_if_current
  gather_known key meta = elim meta.striping [
    | some stripe ↦ do found ← read_object T key meta; pure (answer found)
    | none ↦ do
      path ← meta_path_or_route T key meta
      present ← gets (λ (w : World T). T.executor.file_exists path w.files)
      if present
          then (do device_id ← meta_device_or_route T key meta; pure (to_read path meta device_id))
          else (do found ← drop_metadata T key meta; pure (answer found))
  ]

  unfoldable pub gather : ℤ → ObjectKey → Run T Gathered
  unfolding purge_if_expired gather_known
  gather now key = do
    found ← on_metadata T (T.service.get_block (to_string_key key))
    elim found [
      | none ↦ pure (answer none)
      | some meta ↦ do
        purged ← purge_if_expired T now key meta
        if purged then pure (answer none) else gather_known key meta
    ]

  -- The slots and the requests of the keys from number `idx` on.
  abbrev pub add_gathered :
      ℕ → Result KvError Gathered → List Slot × List Request → List Slot × List Request
  add_gathered idx (err e) (slots, reqs) = (some (err e) ∷ slots, reqs)
  add_gathered idx (ok (answer found)) (slots, reqs) = (some (ok found) ∷ slots, reqs)
  add_gathered idx (ok (to_read path meta device_id)) (slots, reqs) =
      (none ∷ slots, record { idx = idx; path = path; meta = meta; device_id = device_id } ∷ reqs)

  unfoldable pub collect : ℤ → ℕ → List ObjectKey → World T → (List Slot × List Request) × World T
  unfolding gather
  collect now idx [] w = (([], []), w)
  collect now idx (key ∷ keys) w =
      let (r, w₁) = gather now key w in
      let (rest, w₂) = collect now (suc idx) keys w₁ in (add_gathered idx r rest, w₂)

  unfoldable pub fill_in :
      List Request → List (Result KvError (List ℕ)) → List Slot → World T → List Slot × World T
  unfolding set_nth update_at
  fill_in [] rs slots w = (slots, w)
  fill_in (r ∷ reqs) [] slots w = (slots, w)
  fill_in (r ∷ reqs) (err e ∷ rs) slots w = fill_in reqs rs (set_nth r.idx (some (err e)) slots) w
  fill_in (r ∷ reqs) (ok bytes ∷ rs) slots w =
      fill_in reqs rs (set_nth r.idx (some (ok (some (bytes, r.meta)))) slots)
        (record_device_read T r.device_id (length bytes) (counted_read T (length bytes) w))

  unfoldable pub get_batch :
      List ObjectKey → ℤ → World T → List (Result KvError (Option (List ℕ × BlockMeta))) × World T
  unfolding collect sort read_aligned_batch fill_in
  get_batch keys now w =
      let (gathered, w₁) = collect now 0 keys w in
      let reqs = sort gathered.1 in
      let (rs, files) = read_aligned_batch T (map (λ (r : Request). r.path) reqs) w₁.files in
      let (slots, w₂) = fill_in reqs rs gathered.0 (record w₁ { files = files }) in
      (map fill_slot slots, w₂)
