-- ===== src/Storage/Serves.antt =====
-- What a read serves, over all answers of the metadata service and the executor.
use context_store.Prelude.{
  ℕ, Bool, true, false, not, ◌||◌, ltb, if◌then◌else◌, Option, none, some, List, [], ◌∷◌, length,
  ◌≡◌, refl, ap, sym, ◌∙◌, ◌⊎◌, inl, inr, Bool-cases,
}
use context_store.Prelude.Int.{ℤ}
use context_store.Prelude.Results.{Result, ok}
use context_store.Prelude.Actions.{Keeps, bind_Keeps, bind_inv, eq-ok, or_raise-Keeps, pure}
use context_store.Metadata.{BlockMeta, is_expired_at, same_version}
use context_store.Router.{ObjectKey, to_string_key}
use context_store.Storage.Executor.{KvError, panicked}
use context_store.Router.Files.{route}
use context_store.Storage.Tier.{
  Tier, World, on_metadata, on_files, meta_path_or_route, meta_device_or_route, read_file_on_device,
}
use context_store.Storage.Commit.{expired_answer, delete_expired_current_locked, purge_if_expired}
use context_store.Storage.Reads.{
  read_whole, read_present, read_layout, read_object, with_meta, get_known, get_with_meta, get,
}
use context_store.Storage.ReadBack.{some_cancel, meta_path_or_route_lem}
use context_store.Storage.Keeps.{Kept, on_metadata-Keeps}

List-cases : {A : Type 0} (xs : List A) → (xs ≡ []) ⊎ ((x : A) × (rest : List A) × (xs ≡ x ∷ rest))
List-cases [] = inl refl
List-cases (x ∷ rest) = inr (x, rest, refl)

module _ (T : Tier) (q : List ℕ) (c : Option (List ℕ)) (key : ObjectKey) where
  delete_expired-Keeps :
      (now : ℤ) (meta : BlockMeta) (found : Option BlockMeta)
      → Keeps (Kept T q c) (expired_answer T now key meta found)
  unfolding expired_answer
  delete_expired-Keeps now meta none = λ w h. h
  delete_expired-Keeps now meta (some current) = λ w h.
      elim (Bool-cases (not (is_expired_at current now) || not (same_version current meta))) [
        | inl e ↦ rw (e) h
        | inr e ↦ rw (e) (on_metadata-Keeps T q c _ w h)
      ]

  purge-Keeps : (now : ℤ) (meta : BlockMeta) → Keeps (Kept T q c) (purge_if_expired T now key meta)
  unfolding purge_if_expired delete_expired_current_locked
  purge-Keeps now meta w h = elim (Bool-cases (is_expired_at meta now)) [
    | inl e ↦
        rw (e, purge_if_expired)
          (bind_Keeps _ _ (Kept T q c) (on_metadata-Keeps T q c _) (delete_expired-Keeps now meta) w
            h)
    | inr e ↦ rw (e, purge_if_expired) h
  ]

  path-Keeps : (meta : BlockMeta) → Keeps (Kept T q c) (meta_path_or_route T key meta)
  unfolding meta_path_or_route
  path-Keeps meta w h = elim (List-cases meta.file_path) [
    | inl e ↦
        rw (e, meta_path_or_route)
          (bind_Keeps _ _ (Kept T q c) (or_raise-Keeps _ _ _) (λ d. or_raise-Keeps _ _ _) w h)
    | inr (b, rest, e) ↦ rw (e, meta_path_or_route) h
  ]

  device-Keeps : (meta : BlockMeta) → Keeps (Kept T q c) (meta_device_or_route T key meta)
  unfolding meta_device_or_route
  device-Keeps meta w h = elim (Bool-cases (ltb meta.device_id (length T.router.devices))) [
    | inl e ↦ rw (e, meta_device_or_route) h
    | inr e ↦
        rw (e, meta_device_or_route)
          (or_raise-Keeps panicked (route T.hash64 T.router key) (Kept T q c) w h)
  ]

module _ (T : Tier) (key : ObjectKey) (meta : BlockMeta) where
  none-some_ok :
      {A : Type 0} (a : A) → ◌≡◌ {A = Result KvError (Option A)} (ok none) (ok (some a)) → ⊥
  none-some_ok a e = cc

  read_present_inv :
      (p : List ℕ) (present : Bool) (w : World T) (bytes : List ℕ)
      → (read_present T key meta p present w).0 ≡ ok (some bytes)
      → T.executor.contents p w.files ≡ some bytes
  unfolding read_present read_file_on_device on_files
  read_present_inv p false w bytes e =
      let (dropped, asked, e₁) = bind_inv _ _ w (some bytes) e in absurd (none-some_ok bytes e₁)
  read_present_inv p true w bytes e =
      let (device, there, e₁) = bind_inv _ _ w (some bytes) e in
      let (read, answered, e₂) = bind_inv _ _ _ (some bytes) e₁ in
      let (counted, u, e₃) = bind_inv _ _ _ (some bytes) e₂ in
      sym (device-Keeps T p (T.executor.contents p w.files) key meta w refl)
      ∙ T.executor.read_ok p read _ answered
      ∙ eq-ok _ _ _ refl e₃

  read_whole_inv :
      (b : ℕ) (rest : List ℕ) (w : World T) (bytes : List ℕ)
      → meta.file_path ≡ b ∷ rest
      → (read_whole T key meta w).0 ≡ ok (some bytes)
      → T.executor.contents (b ∷ rest) w.files ≡ some bytes
  unfolding read_whole
  read_whole_inv b rest w bytes path e =
      let (p, named, e₁) = bind_inv _ _ w (some bytes) e in
      let (present, there, e₂) = bind_inv _ _ _ (some bytes) e₁ in
      let same =
        eq-ok _ _ _ (ap (λ r. r.0) (meta_path_or_route_lem T key meta b rest w path)) named in
      ap (λ r. T.executor.contents r w.files) same
      ∙ sym (path-Keeps T p (T.executor.contents p w.files) key meta w refl)
      ∙ read_present_inv p present _ bytes e₂

  with_meta_inv :
      (found : Option (List ℕ)) (bytes : List ℕ) (m : BlockMeta)
      → ◌≡◌ {A = Result KvError (Option (List ℕ × BlockMeta))}
          (ok (with_meta T (λ x. x) meta found))
          (ok (some (bytes, m)))
      → (found ≡ some bytes) × (m ≡ meta)
  with_meta_inv none bytes m e = absurd (none-some_ok _ e)
  with_meta_inv (some got) bytes m e =
      let same : some (got, meta) ≡ some (bytes, m) = eq-ok _ _ _ refl e in
      let pairs : (got, meta) ≡ (bytes, m) = some_cancel _ _ same in
      (
        ap (λ (p : List ℕ × BlockMeta). some p.0) pairs,
        sym (ap (λ (p : List ℕ × BlockMeta). p.1) pairs),
      )

  after_purge :
      (purged : Bool) (b : ℕ) (rest : List ℕ) (w : World T) (bytes : List ℕ) (m : BlockMeta)
      → meta.striping ≡ none
      → meta.file_path ≡ b ∷ rest
      → ((if purged then pure none else read_object T key meta) w).0 ≡ ok (some (bytes, m))
      → (m ≡ meta) × (T.executor.contents (b ∷ rest) w.files ≡ some bytes)
  unfolding read_object read_layout
  after_purge true b rest w bytes m whole path e = absurd (none-some_ok _ e)
  after_purge false b rest w bytes m whole path e =
      let (found, there, e₁) =
        bind_inv _ _ w (some (bytes, m))
          (ap (λ o. (read_layout T key meta o w).0) (sym whole) ∙ e) in
      let (got, same) = with_meta_inv found bytes m e₁ in
      (same, read_whole_inv b rest w bytes path (there ∙ ap ok got))

  known_inv :
      (now : ℤ) (b : ℕ) (rest : List ℕ) (w : World T) (bytes : List ℕ) (m : BlockMeta)
      → meta.striping ≡ none
      → meta.file_path ≡ b ∷ rest
      → (get_with_meta T key meta now w).0 ≡ ok (some (bytes, m))
      → (m ≡ meta) × (T.executor.contents (b ∷ rest) w.files ≡ some bytes)
  unfolding get_with_meta
  known_inv now b rest w bytes m whole path e =
      let (purged, asked, e₁) = bind_inv _ _ w (some (bytes, m)) e in
      let (same, there) =
        after_purge purged b rest (purge_if_expired T now key meta w).1 bytes m whole path e₁ in
      (
        same,
        sym (purge-Keeps T (b ∷ rest) (T.executor.contents (b ∷ rest) w.files) key now meta w refl)
            ∙ there,
      )

module _ (T : Tier) (key : ObjectKey) (meta : BlockMeta) (now : ℤ) (w : World T) where
  -- While readers are shown a version that is not striped and names its file, a `get` that returns
  -- bytes, whatever the metadata service and the executor answer, returns those that are in that file,
  -- with the metadata of that version.
  pub get_shown :
      (b : ℕ) (rest bytes : List ℕ) (m : BlockMeta)
      → T.service.visible (to_string_key key) w.metadata ≡ some meta
      → meta.striping ≡ none
      → meta.file_path ≡ b ∷ rest
      → (get T key now w).0 ≡ ok (some (bytes, m))
      → (m ≡ meta) × (T.executor.contents (b ∷ rest) w.files ≡ some bytes)
  unfolding get on_metadata
  get_shown b rest bytes m shown whole path e =
      let (found, asked, e₁) = bind_inv _ _ w (some (bytes, m)) e in
      let same = sym (T.service.get_block_ok (to_string_key key) found w.metadata asked) ∙ shown in
      known_inv T key meta now b rest _ bytes m whole path (
        ap
          (λ o.
            (get_known T key now o (on_metadata T (T.service.get_block (to_string_key key)) w).1).0)
          (sym same)
        ∙ e₁)
