-- ===== src/Storage/ReadBack.antt =====
-- Reads of an object whose files are there, when the service and the executor answer.
use context_store.Prelude.{
  ℕ, false, ltb, Option, some, List, ◌∷◌, length, ◌≡◌, refl, ap, sym, ◌∙◌, inl, inr, Bool-cases,
}
use context_store.Prelude.Int.{ℤ}
use context_store.Prelude.Results.{Result, ok}
use context_store.Prelude.Actions.{or_raise-some, bind_ok}
use context_store.Metadata.{BlockMeta, is_expired_at}
use context_store.Metadata.Redis.{is_some}
use context_store.Router.{ObjectKey, to_string_key}
use context_store.Router.Files.{route}
use context_store.Storage.Executor.{KvError}
use context_store.Storage.Tier.{Tier, World, meta_path_or_route, meta_device_or_route}
use context_store.Storage.Calls.{on_metadata_lem, read_file_on_device_lem}
use context_store.Storage.Commit.{purge_if_expired}
use context_store.Storage.Reads.{
  read_whole, read_present, read_object, read_object_chunks, get_with_meta, get,
  get_chunks_with_meta, get_chunks,
}

pub some_cancel : {A : Type 0} (a b : A) → some a ≡ some b → a ≡ b
some_cancel a b e = cc

module _ (T : Tier) (key : ObjectKey) (meta : BlockMeta) where
  pub meta_path_or_route_lem :
      (b : ℕ) (rest : List ℕ) (w : World T)
      → meta.file_path ≡ b ∷ rest
      → meta_path_or_route T key meta w ≡ (ok (b ∷ rest), w)
  unfolding meta_path_or_route
  meta_path_or_route_lem b rest w e = rw (e, meta_path_or_route) refl

  meta_device_or_route_lem :
      (device : ℕ) (w : World T)
      → route T.hash64 T.router key ≡ some device
      → (i : ℕ) × (meta_device_or_route T key meta w ≡ (ok i, w))
  unfolding meta_device_or_route
  meta_device_or_route_lem device w e =
      elim (Bool-cases (ltb meta.device_id (length T.router.devices))) [
        | inl h ↦ (meta.device_id, rw (h, meta_device_or_route) refl)
        | inr h ↦ (device, rw (h, meta_device_or_route) (or_raise-some _ _ _ e))
      ]

  -- A live version is not purged.
  purge_alive :
      (now : ℤ) (w : World T)
      → is_expired_at meta now ≡ false
      → purge_if_expired T now key meta w ≡ (ok false, w)
  unfolding purge_if_expired
  purge_alive now w alive = rw (alive, purge_if_expired) refl

  -- The bytes that are in the file of the object are read, if the executor answers.
  pub read_whole_lem :
      (b device : ℕ) (rest bytes got : List ℕ) (w : World T) (f : T.executor.Files)
      → meta.file_path ≡ b ∷ rest
      → route T.hash64 T.router key ≡ some device
      → T.executor.contents (b ∷ rest) w.files ≡ some bytes
      → T.executor.read_file (b ∷ rest) w.files ≡ (ok got, f)
      → (w' : World T) × (read_whole T key meta w ≡ (ok (some bytes), w'))
  unfolding read_whole read_present
  read_whole_lem b device rest bytes got w f named routed there answered =
      let (i, on_device) = meta_device_or_route_lem device w routed in
      let right : got ≡ bytes =
        some_cancel _ _
          (sym (T.executor.read_ok (b ∷ rest) got w.files (ap (λ p. p.0) answered)) ∙ there) in
      (
        _,
        bind_ok _ _ (meta_path_or_route_lem b rest w named)
            ∙ bind_ok _ _ (
                ap (λ c. (ok c, w))
                  (T.executor.file_exists_lem (b ∷ rest) w.files ∙ ap is_some there))
            ∙ bind_ok _ _ on_device
            ∙ bind_ok _ _ (
                read_file_on_device_lem T i (b ∷ rest) bytes w f
                  (answered ∙ ap (λ g. (ok g, f)) right))
            ∙ bind_ok _ _ refl,
      )

  module _ (now : ℤ) (w : World T) (alive : is_expired_at meta now ≡ false) where
    pub get_with_meta_alive :
        {r : Result KvError (Option (List ℕ × BlockMeta)) × World T}
        → read_object T key meta w ≡ r
        → get_with_meta T key meta now w ≡ r
    unfolding get_with_meta
    get_with_meta_alive e = bind_ok _ _ (purge_alive now w alive) ∙ e

    pub get_chunks_with_meta_alive :
        {r : Result KvError (Option (List (List ℕ) × BlockMeta)) × World T}
        → read_object_chunks T key meta w ≡ r
        → get_chunks_with_meta T key meta now w ≡ r
    unfolding get_chunks_with_meta
    get_chunks_with_meta_alive e = bind_ok _ _ (purge_alive now w alive) ∙ e

  module _ (now : ℤ) (w : World T) (s : T.service.State)
      (found : T.service.get_block (to_string_key key) w.metadata ≡ (ok (some meta), s)) where
    pub get_found :
        {r : Result KvError (Option (List ℕ × BlockMeta)) × World T}
        → get_with_meta T key meta now (record w { metadata = s }) ≡ r
        → get T key now w ≡ r
    unfolding get
    get_found e = bind_ok _ _ (on_metadata_lem T w _ found) ∙ e

    pub get_chunks_found :
        {r : Result KvError (Option (List (List ℕ) × BlockMeta)) × World T}
        → get_chunks_with_meta T key meta now (record w { metadata = s }) ≡ r
        → get_chunks T key now w ≡ r
    unfolding get_chunks
    get_chunks_found e = bind_ok _ _ (on_metadata_lem T w _ found) ∙ e
