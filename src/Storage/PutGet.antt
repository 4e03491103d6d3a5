-- ===== src/Storage/PutGet.antt =====
-- An object that is stored in one file is read back.
use context_store.Prelude.{
  ℕ, true, false, if◌then◌else◌, Option, some, List, [], ◌∷◌, length, eq_bytes_refl, ◌≡◌, refl, ap,
  sym, ◌∙◌,
}
use context_store.Prelude.Int.{ℤ}
use context_store.Prelude.Results.{ok}
use context_store.Prelude.Actions.{or_raise-some, bind_ok}
use context_store.Metadata.{BlockMeta, is_expired_at}
use context_store.Router.{ObjectKey, to_string_key}
use context_store.Router.Files.{route, key_to_versioned_path}
use context_store.Storage.Paths.{path_string}
use context_store.Storage.Tier.{
  Tier, World, gc_not_before, counted_write, record_device_write, file_size, to_string_lossy,
}
use context_store.Storage.Commit.{versioned}
use context_store.Storage.Calls.{wrote, write_file_on_device_lem}
use context_store.Storage.Names.{path_string_nonempty}
use context_store.Storage.ReadBack.{read_whole_lem, get_with_meta_alive, get_found}
use context_store.Storage.Published.{prepare_write_meta_lem, commit_replaced}
use context_store.Storage.Writes.{in_file, put_file, put, should_stripe}
use context_store.Storage.Reads.{read_layout, read_object, get}

module _ (T : Tier) (key : ObjectKey) where
  -- The file of a new version is written: the calls are answered, and the router has a device.
  pub record Written (bytes : List ℕ) (meta : BlockMeta) (w : World T) : Type 0 where
    pub generation : ℕ
    pub device : ℕ
    pub names : List (List ℕ)
    pub s₁ : T.service.State
    pub f₁ : T.executor.Files
    pub numbered : T.service.next_generation (to_string_key key) w.metadata ≡ (ok generation, s₁)
    pub has_device : route T.hash64 T.router key ≡ some device
    pub named : key_to_versioned_path T.digest T.router key device generation 1 ≡ some names
    pub written : T.executor.write_file (path_string names) bytes w.files ≡ (ok tt, f₁)

  module _ (bytes : List ℕ) (meta : BlockMeta) (w : World T) (a : Written bytes meta w) where
    -- The metadata that are published.
    abbrev pub stored : BlockMeta
    stored =
        in_file T (path_string a.names) (length bytes) a.device
          (versioned T key meta (length bytes) a.generation)

    path_nonempty : (b : ℕ) × (rest : List ℕ) × (path_string a.names ≡ b ∷ rest)
    unfolding key_to_versioned_path
    path_nonempty = path_string_nonempty T.digest T.router key a.device _ a.names a.named

    module _ (now : ℤ) (old : Option BlockMeta) (s₂ : T.service.State)
        (published : T.service.replace_block (to_string_key key) stored (gc_not_before T now) a.s₁
          ≡ (ok old, s₂)) where
      abbrev pub after : World T
      after =
          counted_write T (length bytes)
            (record (record_device_write T a.device
              (file_size T (path_string a.names) (record w { metadata = a.s₁; files = a.f₁ }))
              (record w { metadata = a.s₁; files = a.f₁ })) { metadata = s₂ })

      put_file-Written : put_file T key bytes meta false now w ≡ (ok true, after)
      unfolding put_file
      put_file-Written =
          bind_ok _ _
            (prepare_write_meta_lem T key meta w (length bytes) a.generation a.s₁ a.numbered)
          ∙ bind_ok _ _ (or_raise-some _ _ _ a.has_device)
          ∙ bind_ok _ _ (or_raise-some _ _ _ (ap (to_string_lossy T) a.named))
          ∙ bind_ok _ _ (
              write_file_on_device_lem T a.device (path_string a.names) bytes
                (record w { metadata = a.s₁ }) a.f₁ a.written)
          ∙ bind_ok _ _ (
              commit_replaced T key stored
                (wrote T a.device (path_string a.names) bytes (record w { metadata = a.s₁ }) a.f₁)
                (path_string a.names ∷ []) now s₂ old published)
          ∙ bind_ok _ _ refl

      pub put-Written :
          should_stripe T (length bytes) ≡ false → put T key bytes meta now w ≡ (ok tt, after)
      unfolding put
      put-Written small = rw (small, put) (bind_ok _ _ put_file-Written)

      visible_after : T.service.visible (to_string_key key) after.metadata ≡ some stored
      visible_after =
          ap (λ p. T.service.visible (to_string_key key) p.1) (sym published)
          ∙ T.service.visible-replace_block (to_string_key key) (to_string_key key) stored _ a.s₁
              old (ap (λ p. p.0) published)
          ∙ ap (λ b. if b then some stored else T.service.visible (to_string_key key) a.s₁)
              (eq_bytes_refl (to_string_key key))

      contents_after : T.executor.contents (path_string a.names) after.files ≡ some bytes
      contents_after =
          ap (λ p. T.executor.contents (path_string a.names) p.1) (sym a.written)
          ∙ T.executor.write_ok (path_string a.names) bytes w.files (ap (λ p. p.0) a.written)

      pub found_after :
          (found : Option BlockMeta) (s : T.service.State)
          → T.service.get_block (to_string_key key) after.metadata ≡ (ok found, s)
          → T.service.get_block (to_string_key key) after.metadata ≡ (ok (some stored), s)
      found_after found s asked =
          asked
          ∙ ap (λ m. (ok m, s))
              (sym (
                  T.service.get_block_ok (to_string_key key) found after.metadata
                    (ap (λ p. p.0) asked))
                ∙ visible_after)

      pub get_after :
          (now' : ℤ) (found : Option BlockMeta) (got : List ℕ) (s : T.service.State)
          (f : T.executor.Files)
          → is_expired_at meta now' ≡ false
          → T.service.get_block (to_string_key key) after.metadata ≡ (ok found, s)
          → T.executor.read_file (path_string a.names) after.files ≡ (ok got, f)
          → (get T key now' after).0 ≡ ok (some (bytes, stored))
      unfolding is_expired_at read_object read_layout
      get_after now' found got s f alive asked read =
          let (b, rest, nonempty) = path_nonempty in
          let (w', e) =
            read_whole_lem T key stored b a.device rest bytes got (record after { metadata = s }) f
              nonempty a.has_device
              (ap (λ p. T.executor.contents p after.files) (sym nonempty) ∙ contents_after)
              (ap (λ p. T.executor.read_file p after.files) (sym nonempty) ∙ read) in
          ap (λ p. p.0)
            (get_found T key stored now' after s (found_after found s asked) (
              get_with_meta_alive T key stored now' (record after { metadata = s }) alive
                (bind_ok _ _ e)))

      -- If the calls of a `put` of an object that is not striped are answered, it succeeds and publishes
      -- the metadata of the new version; a later `get` whose calls are answered, before that version
      -- expires, returns the bytes that were put, with that version's metadata.
      pub put-get_bytes :
          (now' : ℤ) (found : Option BlockMeta) (got : List ℕ) (s : T.service.State)
          (f : T.executor.Files)
          → should_stripe T (length bytes) ≡ false
          → is_expired_at meta now' ≡ false
          → T.service.get_block (to_string_key key) (put T key bytes meta now w).1.metadata
            ≡ (ok found, s)
          → T.executor.read_file stored.file_path (put T key bytes meta now w).1.files ≡ (ok got, f)
          → ((put T key bytes meta now w).0 ≡ ok tt)
            × (T.service.visible (to_string_key key) (put T key bytes meta now w).1.metadata
                ≡ some stored)
            × ((get T key now' (put T key bytes meta now w).1).0 ≡ ok (some (bytes, stored)))
      put-get_bytes now' found got s f small alive asked read =
          let done = put-Written small in
          let asked' =
            ap (λ p. T.service.get_block (to_string_key key) p.1.metadata) (sym done) ∙ asked in
          let read' =
            ap (λ p. T.executor.read_file (path_string a.names) p.1.files) (sym done) ∙ read in
          (
            ap (λ p. p.0) done,
            ap (λ p. T.service.visible (to_string_key key) p.1.metadata) done ∙ visible_after,
            ap (λ p. (get T key now' p.1).0) done ∙ get_after now' found got s f alive asked' read',
          )
