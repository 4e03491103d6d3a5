-- ===== src/Storage/Older.antt =====
-- What a write leaves alone, however it ends: the files of the version that readers see.
use context_store.Prelude.{
  ℕ, suc, ◌^◌, ◌<◌, Bool, false, Option, none, some, List, [], ◌∷◌, length, map, ◌≡◌, ◌≢◌, refl, ap,
  sym, ◌∙◌, subst, inl, inr, Bool-cases, Option-cases, arith, ◌==◌,
}
use context_store.Prelude.Int.{ℤ}
use context_store.Prelude.Results.{Result, ok}
use context_store.Prelude.Actions.{
  Leads, Keeps, bind_ok, bind_Leads, bind_Keeps, or_raise-Keeps, or_raise_inv, bind_inv, eq-ok,
}
use context_store.Metadata.{BlockMeta}
use context_store.Router.{ObjectKey, to_string_key}
use context_store.Router.Files.{
  object_digest, key_to_versioned_path, chunk_versioned_path, file_path, version_part,
}
use context_store.Storage.Paths.{has_slash}
use context_store.Storage.Executor.{KvError}
use context_store.Storage.Tier.{Tier, World, counted_write, to_string_lossy, on_metadata, on_files}
use context_store.Storage.Commit.{prepare_write_meta}
use context_store.Storage.Writes.{
  Item, put_file, put, should_stripe, place, write_stripes, put_striped_chunks_impl,
  put_striped_chunks, put_striped, put_chunks,
}
use context_store.Storage.Names.{none-some}
use context_store.Storage.ReadBack.{some_cancel}
use context_store.MemoryTier.Objects.{total_len}
use context_store.Storage.Pointers.{put_from_ptr, put_from_ptr_with_options, put_from_ptr_striped}
use context_store.Storage.Keeps.{
  Kept, AreApart, ItemsApart, write_file_on_device-Keeps, commit-Keeps, count_if-Keeps,
  write_batch_keeps, check_writes-Keeps,
}
use context_store.Storage.Apart.{IsFile, name_end, generations_apart}

module _ (T : Tier) (key : ObjectKey) (plain : has_slash (object_digest T.digest key) ≡ false)
    (q : List ℕ) (c : Option (List ℕ)) (m : BlockMeta) (o : Option ℕ)
    (hq : IsFile T key plain q m.object_generation m.layout_version o)
    (hg : m.object_generation < 2 ^ 53) (hl : m.layout_version < 2 ^ 64) where
  -- Readers see the version `m`, and one of its files has its bytes.
  abbrev pub Shown : World T → Type 0
  Shown w = Kept T q c w × (T.service.visible (to_string_key key) w.metadata ≡ some m)

  -- The generation of a version that is prepared.
  abbrev pub IsNew : BlockMeta → Type 0
  IsNew b =
      (b.object_generation < 2 ^ 64)
      × (b.object_generation ≢ m.object_generation)
      × (b.layout_version < 2 ^ 64)

  prepare_Leads :
      (meta : BlockMeta) (size : ℕ) → Leads Shown (Kept T q c) (prepare_write_meta T key meta size)
  unfolding prepare_write_meta on_metadata
  prepare_Leads meta size =
      bind_Leads _ _ Shown (Kept T q c) (λ g. Unit {0}) (λ w h. h.0) (λ w a h e. tt) (λ g u w h. h)

  newer :
      (g : ℕ) (s : T.service.State)
      → T.service.visible (to_string_key key) s ≡ some m
      → (T.service.next_generation (to_string_key key) s).0 ≡ ok g
      → (g < 2 ^ 64) × (g ≢ m.object_generation) × (1 < 2 ^ 64)
  newer g s shown e =
      let above : m.object_generation < g =
        T.service.next_generation_ok (to_string_key key) g m s shown hg e in
      (
        T.service.next_generation_u64 (to_string_key key) g s e,
        (λ same. ground (arith, above, same)),
        (ground arith),
      )

  prepare_known :
      (meta : BlockMeta) (size : ℕ) (w : World T) (b : BlockMeta)
      → Shown w
      → (prepare_write_meta T key meta size w).0 ≡ ok b
      → IsNew b
  unfolding prepare_write_meta on_metadata
  prepare_known meta size w b h e =
      let (g, asked, there) = bind_inv _ _ w b e in
      subst IsNew (eq-ok _ _ b refl there) (newer g w.metadata h.1 asked)

  -- A path of a new version is apart.
  new_path :
      (device : ℕ) (b : BlockMeta) (o' : Option ℕ) (p : List ℕ)
      → IsNew b
      → to_string_lossy T (
          file_path T.digest T.router key device
            (version_part b.object_generation b.layout_version (name_end o')))
        ≡ some p
      → T.executor.touches p q ≡ false
  new_path device b o' p new e =
      elim (Option-cases (
        file_path T.digest T.router key device
          (version_part b.object_generation b.layout_version (name_end o')))) [
            | inl i ↦ absurd (none-some p (ap (to_string_lossy T) (sym i) ∙ e))
            | inr (names, i) ↦
                generations_apart T key plain p q b.object_generation b.layout_version
                  m.object_generation m.layout_version o' o
                  (record {
                    device = device;
                    names = names;
                    named = i;
                    joined = some_cancel _ _ (sym e ∙ ap (to_string_lossy T) i);
                  })
                  hq new.0 new.2 (ground (arith, hg)) hl new.1
          ]

  put_file-Leads :
      (bytes : List ℕ) (meta : BlockMeta) (if_absent : Bool) (now : ℤ)
      → Leads Shown (Kept T q c) (put_file T key bytes meta if_absent now)
  unfolding put_file key_to_versioned_path
  put_file-Leads bytes meta if_absent now =
      bind_Leads _ _ Shown (Kept T q c) IsNew (prepare_Leads meta (length bytes))
        (prepare_known meta (length bytes))
        (λ b new. bind_Keeps _ _ (Kept T q c) (or_raise-Keeps _ _ _) (λ device.
          bind_Leads _ _ (Kept T q c) (Kept T q c) (λ p. T.executor.touches p q ≡ false)
            (or_raise-Keeps _ _ _)
            (λ w p h e. new_path device b none p new (or_raise_inv _ _ w p e))
            (λ p apart.
              bind_Keeps _ _ (Kept T q c) (write_file_on_device-Keeps T q c device p bytes apart)
                (λ u.
                  bind_Keeps _ _ (Kept T q c)
                    (commit-Keeps T q c key _ (p ∷ []) if_absent now (apart, tt))
                    (count_if-Keeps T q c (counted_write T (length bytes)) (λ w h. h))))))

  place-Keeps :
      (g l i : ℕ) (stripes : List (List (List ℕ))) → Keeps (Kept T q c) (place T key g l i stripes)
  unfolding place
  place-Keeps g l i [] = λ w h. h
  place-Keeps g l i (segments ∷ stripes) =
      bind_Keeps _ _ (Kept T q c) (or_raise-Keeps _ _ _) (λ device.
        bind_Keeps _ _ (Kept T q c) (or_raise-Keeps _ _ _)
          (λ p. bind_Keeps _ _ (Kept T q c) (place-Keeps g l (suc i) stripes) (λ items w h. h)))

  place_known :
      (b : BlockMeta) (i : ℕ) (stripes : List (List (List ℕ))) (w : World T) (items : List Item)
      → IsNew b
      → (place T key b.object_generation b.layout_version i stripes w).0 ≡ ok items
      → ItemsApart T q c items
  unfolding place chunk_versioned_path
  place_known b i [] w items new e = subst (ItemsApart T q c) (eq-ok _ _ items refl e) tt
  place_known b i (segments ∷ stripes) w items new e =
      let (device, here, e₁) = bind_inv _ _ w items e in
      let (p, there, e₂) = bind_inv _ _ _ items e₁ in
      let (rest, behind, e₃) = bind_inv _ _ _ items e₂ in
      subst (ItemsApart T q c) (eq-ok _ _ items refl e₃) (
        new_path device b (some i) p new (or_raise_inv _ _ _ p there),
        place_known b (suc i) stripes _ rest new behind,
      )

  paths_apart :
      (items : List Item)
      → ItemsApart T q c items
      → AreApart T q c (map (λ (i : Item). i.path) items)
  paths_apart [] h = tt
  paths_apart (item ∷ items) h = (h.0, paths_apart items h.1)

  write_stripes-Keeps :
      (checksum : List (List ℕ) → List ℕ) (stripes : List (List (List ℕ))) (total : ℕ)
      (b : BlockMeta) (if_absent : Bool) (now : ℤ)
      → IsNew b
      → Keeps (Kept T q c) (write_stripes T checksum key stripes total b if_absent now)
  unfolding write_stripes on_files
  write_stripes-Keeps checksum stripes total b if_absent now new =
      bind_Leads _ _ (Kept T q c) (Kept T q c) (ItemsApart T q c)
        (place-Keeps b.object_generation b.layout_version 0 stripes)
        (λ w items h e. place_known b 0 stripes w items new e)
        (λ items apart.
          bind_Keeps _ _ (Kept T q c) (λ w h. write_batch_keeps T q c items w.files apart ∙ h)
            (λ rs. bind_Keeps _ _ (Kept T q c) (check_writes-Keeps T q c [] items rs tt apart) (λ u.
              bind_Keeps _ _ (Kept T q c) (or_raise-Keeps _ _ _) (λ device.
                bind_Keeps _ _ (Kept T q c)
                  (commit-Keeps T q c key _ (map (λ (i : Item). i.path) items) if_absent now
                    (paths_apart items apart))
                  (count_if-Keeps T q c _ (λ w h. h))))))

  impl_Leads :
      (segments : List (List ℕ)) (total : ℕ) (meta : BlockMeta) (if_absent : Bool) (now : ℤ)
      → Leads Shown (Kept T q c) (put_striped_chunks_impl T key segments total meta if_absent now)
  unfolding put_striped_chunks_impl
  impl_Leads segments total meta if_absent now =
      bind_Leads _ _ Shown (Kept T q c) IsNew (prepare_Leads meta total) (prepare_known meta total)
        (λ b new. write_stripes-Keeps _ _ total b if_absent now new)

  striped_Leads :
      (segments : List (List ℕ)) (total : ℕ) (meta : BlockMeta) (now : ℤ)
      → Leads Shown (Kept T q c) (put_striped_chunks T key segments total meta now)
  unfolding put_striped_chunks
  striped_Leads segments total meta now =
      bind_Leads _ _ Shown (Kept T q c) (λ b. Unit {0}) (impl_Leads segments total meta false now)
        (λ w b h e. tt) (λ b u w h. h)

  put-Leads :
      (bytes : List ℕ) (meta : BlockMeta) (now : ℤ)
      → Leads Shown (Kept T q c) (put T key bytes meta now)
  unfolding put put_striped
  put-Leads bytes meta now w h = elim (Bool-cases (should_stripe T (length bytes))) [
    | inl e ↦ rw (e, put) (striped_Leads _ _ meta now w h)
    | inr e ↦
        rw (e, put)
          (bind_Leads _ _ Shown (Kept T q c) (λ b. Unit {0}) (put_file-Leads bytes meta false now)
            (λ w' b h' e'. tt) (λ b u w' h'. h') w h)
  ]

  put_chunks-Leads :
      (segments : List (List ℕ)) (meta : BlockMeta) (now : ℤ)
      → Leads Shown (Kept T q c) (put_chunks T key segments meta now)
  unfolding put_chunks
  put_chunks-Leads segments meta now w h =
      elim (Bool-cases (should_stripe T (total_len segments))) [
        | inl e ↦ rw (e, put_chunks) (striped_Leads _ _ meta now w h)
        | inr e ↦ rw (e, put_chunks) (put-Leads _ meta now w h)
      ]

  ptr_striped_Leads :
      (bytes : List ℕ) (meta : BlockMeta) (now : ℤ)
      → Leads Shown (Kept T q c) (put_from_ptr_striped T key bytes meta false now)
  unfolding put_from_ptr_striped
  ptr_striped_Leads bytes meta now =
      bind_Leads _ _ Shown (Kept T q c) IsNew (prepare_Leads meta (length bytes))
        (prepare_known meta (length bytes))
        (λ b new. write_stripes-Keeps _ _ (length bytes) b false now new)

  ptr_Leads :
      (bytes : List ℕ) (meta : BlockMeta) (now : ℤ)
      → Leads Shown (Kept T q c) (put_from_ptr_with_options T key bytes meta false now)
  unfolding put_from_ptr_with_options
  ptr_Leads bytes meta now w h = elim (Bool-cases (length bytes == 0)) [
    | inl e ↦ rw (e, put_from_ptr_with_options) h.0
    | inr e ↦
        rw (e, put_from_ptr_with_options)
          (subst (λ (p : Result KvError Bool × World T). Kept T q c p.1) (sym (bind_ok _ _ refl))
            (elim (Bool-cases (should_stripe T (length bytes))) [
              | inl i ↦ rw (i) (ptr_striped_Leads bytes meta now w h)
              | inr i ↦ rw (i) (put_file-Leads bytes meta false now w h)
            ]))
  ]

  put_from_ptr-Leads :
      (bytes : List ℕ) (meta : BlockMeta) (now : ℤ)
      → Leads Shown (Kept T q c) (put_from_ptr T key bytes meta now)
  unfolding put_from_ptr
  put_from_ptr-Leads bytes meta now =
      bind_Leads _ _ Shown (Kept T q c) (λ b. Unit {0}) (ptr_Leads bytes meta now) (λ w b h e. tt)
        (λ b u w h. h)

  -- While readers are shown a version of an object, a write of a new one, by `put`, `put_chunks` or
  -- `put_from_ptr`, leaves the bytes of every file of that version, whatever the metadata service and
  -- the executor answer; the digest of the key has no separator of paths, and the generation of the
  -- version is below 2^53.
  pub puts_keep :
      (w : World T) (bytes : List ℕ) (segments : List (List ℕ)) (meta : BlockMeta) (now : ℤ)
      → T.executor.contents q w.files ≡ c
      → T.service.visible (to_string_key key) w.metadata ≡ some m
      → (T.executor.contents q (put T key bytes meta now w).1.files ≡ c)
        × (T.executor.contents q (put_chunks T key segments meta now w).1.files ≡ c)
        × (T.executor.contents q (put_from_ptr T key bytes meta now w).1.files ≡ c)
  puts_keep w bytes segments meta now here shown = (
    put-Leads bytes meta now w (here, shown),
    put_chunks-Leads segments meta now w (here, shown),
    put_from_ptr-Leads bytes meta now w (here, shown),
  )
