-- ===== src/Storage/Keeps.antt =====
-- The steps of a write leave every file that they do not touch, however they end.
use context_store.Prelude.{
  ℕ, Bool, true, false, Option, List, [], ◌∷◌, ◌++◌, concat, All, ◌≡◌, refl, ◌∙◌, inl, inr,
  Option-cases,
}
use context_store.Prelude.Int.{ℤ}
use context_store.Prelude.Results.{Result, ok, err}
use context_store.Prelude.Actions.{Keeps, bind_Keeps}
use context_store.Metadata.{BlockMeta}
use context_store.Router.Decimal.{All-append}
use context_store.Router.{ObjectKey}
use context_store.Storage.Executor.{KvError}
use context_store.Storage.Tier.{
  Tier, World, on_metadata, on_files, write_file_on_device, delete_file_on_device,
  delete_paths_best_effort, device_id_for_path,
}
use context_store.Storage.Commit.{publish, settle, commit_metadata_with_rollback}
use context_store.Storage.Writes.{Item, count_if, write_batch_vectored, delete_all, check_writes}

module _ (T : Tier) (q : List ℕ) (c : Option (List ℕ)) where
  -- The file still has its bytes.
  abbrev pub Kept : World T → Type 0
  Kept w = T.executor.contents q w.files ≡ c

  pub on_metadata-Keeps :
      {A : Type 0} (call : T.service.State → Result KvError A × T.service.State)
      → Keeps Kept (on_metadata T call)
  unfolding on_metadata
  on_metadata-Keeps call w h = h

  pub write_file_on_device-Keeps :
      (device_id : ℕ) (p bytes : List ℕ)
      → T.executor.touches p q ≡ false
      → Keeps Kept (write_file_on_device T device_id p bytes)
  unfolding write_file_on_device on_files
  write_file_on_device-Keeps device_id p bytes apart =
      bind_Keeps _ _ Kept (λ w h. T.executor.contents_write p bytes q w.files apart ∙ h)
        (λ u w h. h)

  delete_file_Keeps :
      (p : List ℕ)
      → T.executor.touches p q ≡ false
      → Keeps Kept (on_files T (T.executor.delete_file p))
  unfolding on_files
  delete_file_Keeps p apart w h = T.executor.contents_delete p q w.files apart ∙ h

  delete_file_on_device-Keeps :
      (device_id : ℕ) (p : List ℕ)
      → T.executor.touches p q ≡ false
      → Keeps Kept (delete_file_on_device T device_id p)
  unfolding delete_file_on_device
  delete_file_on_device-Keeps device_id p apart =
      bind_Keeps _ _ Kept (λ w h. h)
        (λ bytes. bind_Keeps _ _ Kept (delete_file_Keeps p apart) (λ u w h. h))

  abbrev pub AreApart : List (List ℕ) → Type 0
  AreApart paths = All (λ p. T.executor.touches p q ≡ false) paths

  delete_paths-Keeps :
      (paths : List (List ℕ))
      → AreApart paths
      → (w : World T) → Kept w
      → Kept (delete_paths_best_effort T paths w)
  unfolding delete_paths_best_effort
  delete_paths-Keeps [] h w kept = kept
  delete_paths-Keeps (p ∷ paths) h w kept = elim (Option-cases (device_id_for_path T p)) [
    | inl e ↦
        rw (e, delete_paths_best_effort)
          (delete_paths-Keeps paths h.1 _ (delete_file_Keeps p h.0 w kept))
    | inr (i, e) ↦
        rw (e, delete_paths_best_effort)
          (delete_paths-Keeps paths h.1 _ (delete_file_on_device-Keeps i p h.0 w kept))
  ]

  publish-Keeps :
      (key : ObjectKey) (meta : BlockMeta) (if_absent : Bool) (now : ℤ)
      → Keeps Kept (publish T key meta if_absent now)
  publish-Keeps key meta true now = on_metadata-Keeps _
  publish-Keeps key meta false now = bind_Keeps _ _ Kept (on_metadata-Keeps _) (λ old w h. h)

  settle-Keeps :
      (paths : List (List ℕ))
      → AreApart paths
      → (r : Result KvError Bool) → Keeps Kept (settle T paths r)
  unfolding settle
  settle-Keeps paths h (ok true) = λ w kept. kept
  settle-Keeps paths h (ok false) =
      bind_Keeps _ _ Kept (delete_paths-Keeps paths h) (λ u w kept. kept)
  settle-Keeps paths h (err e) = bind_Keeps _ _ Kept (delete_paths-Keeps paths h) (λ u w kept. kept)

  pub commit-Keeps :
      (key : ObjectKey) (meta : BlockMeta) (paths : List (List ℕ)) (if_absent : Bool) (now : ℤ)
      → AreApart paths
      → Keeps Kept (commit_metadata_with_rollback T key meta paths if_absent now)
  unfolding commit_metadata_with_rollback
  commit-Keeps key meta paths if_absent now h =
      bind_Keeps _ _ Kept (publish-Keeps key meta if_absent now) (settle-Keeps paths h)

  pub count_if-Keeps :
      (counted : World T → World T)
      → ((w : World T) → Kept w → Kept (counted w))
      → (committed : Bool) → Keeps Kept (count_if T counted committed)
  count_if-Keeps counted h true = bind_Keeps _ _ Kept h (λ u w kept. kept)
  count_if-Keeps counted h false = λ w kept. kept

  -- The batch of the stripes.
  abbrev pub ItemsApart : List Item → Type 0
  ItemsApart items = All (λ (i : Item). T.executor.touches i.path q ≡ false) items

  pub write_batch_keeps :
      (items : List Item) (files : T.executor.Files)
      → ItemsApart items
      → T.executor.contents q (write_batch_vectored T items files).1 ≡ T.executor.contents q files
  unfolding write_batch_vectored
  write_batch_keeps [] files h = refl
  write_batch_keeps (item ∷ items) files h =
      write_batch_keeps items (T.executor.write_file item.path (concat item.segments) files).1 h.1
      ∙ T.executor.contents_write item.path (concat item.segments) q files h.0

  delete_all_keeps :
      (paths : List (List ℕ)) (files : T.executor.Files)
      → AreApart paths
      → T.executor.contents q (delete_all T paths files) ≡ T.executor.contents q files
  unfolding delete_all
  delete_all_keeps [] files h = refl
  delete_all_keeps (p ∷ paths) files h =
      delete_all_keeps paths (T.executor.delete_file p files).1 h.1
      ∙ T.executor.contents_delete p q files h.0

  pub check_writes-Keeps :
      (written : List (List ℕ)) (items : List Item) (rs : List (Result KvError (Unit {0})))
      → AreApart written
      → ItemsApart items
      → Keeps Kept (check_writes T written items rs)
  unfolding check_writes
  check_writes-Keeps written [] rs h i = λ w kept. kept
  check_writes-Keeps written (item ∷ items) [] h i = λ w kept. kept
  check_writes-Keeps written (item ∷ items) (err e ∷ rs) h i =
      bind_Keeps _ _ Kept (λ w kept. delete_all_keeps written w.files h ∙ kept) (λ u w kept. kept)
  check_writes-Keeps written (item ∷ items) (ok u ∷ rs) h i =
      bind_Keeps _ _ Kept (λ w kept. kept)
        (λ v.
          check_writes-Keeps (written ++ (item.path ∷ [])) items rs
            (All-append (λ p. T.executor.touches p q ≡ false) written (item.path ∷ []) h (i.0, tt))
            i.1)
