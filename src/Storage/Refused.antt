-- ===== src/Storage/Refused.antt =====
-- A write whose version is not published.
use context_store.Prelude.{
  ℕ, false, none, List, [], ◌∷◌, length, ◌≡◌, refl, ap, sym, ◌∙◌, inl, inr, Option-cases,
}
use context_store.Prelude.Int.{ℤ}
use context_store.Prelude.Results.{ok, err}
use context_store.Prelude.Actions.{or_raise-some, bind_ok, bind_err}
use context_store.Metadata.{BlockMeta}
use context_store.Router.{ObjectKey, to_string_key}
use context_store.Storage.Paths.{path_string}
use context_store.Storage.Executor.{KvError}
use context_store.Storage.Tier.{
  Tier, World, gc_not_before, to_string_lossy, device_id_for_path, delete_file_on_device,
  delete_paths_best_effort,
}
use context_store.Storage.Calls.{wrote, write_file_on_device_lem, on_files_lem}
use context_store.Storage.Published.{prepare_write_meta_lem, commit_refused}
use context_store.Storage.Writes.{put_file, put, should_stripe}
use context_store.Storage.PutGet.{Written, stored}

module _ (T : Tier) (path : List ℕ) (w : World T) (f : T.executor.Files)
    (deleted : T.executor.delete_file path w.files ≡ (ok tt, f)) where
  delete_file_on_device_lem :
      (device_id : ℕ)
      → ((delete_file_on_device T device_id path w).1.files ≡ f)
        × ((delete_file_on_device T device_id path w).1.metadata ≡ w.metadata)
  unfolding delete_file_on_device
  delete_file_on_device_lem device_id =
      let run =
        bind_ok _ _ refl
        ∙ bind_ok _ _ (on_files_lem T w (T.executor.delete_file path) deleted)
        ∙ refl in
      (ap (λ p. p.1.files) run, ap (λ p. p.1.metadata) run)

  -- The file goes, and the metadata stay.
  delete_paths_lem :
      ((delete_paths_best_effort T (path ∷ []) w).files ≡ f)
      × ((delete_paths_best_effort T (path ∷ []) w).metadata ≡ w.metadata)
  unfolding delete_paths_best_effort
  delete_paths_lem = elim (Option-cases (device_id_for_path T path)) [
    | inl e ↦
        let run = on_files_lem T w (T.executor.delete_file path) deleted in
        rw (e, delete_paths_best_effort) (ap (λ p. p.1.files) run, ap (λ p. p.1.metadata) run)
    | inr (i, e) ↦ rw (e, delete_paths_best_effort) (delete_file_on_device_lem i)
  ]

module _ (T : Tier) (key : ObjectKey) (bytes : List ℕ) (meta : BlockMeta) (now : ℤ) (w : World T)
    (a : Written T key bytes meta w) where
  abbrev before : World T
  before = wrote T a.device (path_string a.names) bytes (record w { metadata = a.s₁ }) a.f₁

  abbrev left : T.service.State → World T
  left s = delete_paths_best_effort T (path_string a.names ∷ []) (record before { metadata = s })

  put_refused :
      (e : KvError) (s : T.service.State)
      → should_stripe T (length bytes) ≡ false
      → T.service.replace_block
          (to_string_key key)
          (stored T key bytes meta w a)
          (gc_not_before T now)
          a.s₁
        ≡ (err e, s)
      → put T key bytes meta now w ≡ (err e, left s)
  unfolding put put_file
  put_refused e s small refused =
      rw (small, put)
        (bind_err _ _ (
          bind_ok _ _
            (prepare_write_meta_lem T key meta w (length bytes) a.generation a.s₁ a.numbered)
          ∙ bind_ok _ _ (or_raise-some _ _ _ a.has_device)
          ∙ bind_ok _ _ (or_raise-some _ _ _ (ap (to_string_lossy T) a.named))
          ∙ bind_ok _ _ (
              write_file_on_device_lem T a.device (path_string a.names) bytes
                (record w { metadata = a.s₁ }) a.f₁ a.written)
          ∙ bind_err _ _ (
              commit_refused T key (stored T key bytes meta w a) before (path_string a.names ∷ [])
                now s e refused)))

  -- The file of a version that the metadata service refuses is written, and deleted again, if the
  -- executor does so: the put ends with the error of the service, and nothing is left of the file.
  pub put-refused :
      (e : KvError) (s : T.service.State) (f : T.executor.Files)
      → should_stripe T (length bytes) ≡ false
      → T.service.replace_block
          (to_string_key key)
          (stored T key bytes meta w a)
          (gc_not_before T now)
          a.s₁
        ≡ (err e, s)
      → T.executor.delete_file (path_string a.names) a.f₁ ≡ (ok tt, f)
      → ((put T key bytes meta now w).0 ≡ err e)
        × (T.executor.contents (path_string a.names) (put T key bytes meta now w).1.files ≡ none)
        × ((put T key bytes meta now w).1.metadata ≡ s)
  put-refused e s f small refused deleted =
      let done = put_refused e s small refused in
      let (files, metadata') =
        delete_paths_lem T (path_string a.names) (record before { metadata = s }) f deleted in
      (
        ap (λ p. p.0) done,
        ap (λ p. T.executor.contents (path_string a.names) p.1.files) done
            ∙ ap (T.executor.contents (path_string a.names)) (files ∙ ap (λ p. p.1) (sym deleted))
            ∙ T.executor.delete_ok (path_string a.names) a.f₁ (ap (λ p. p.0) deleted),
        ap (λ p. p.1.metadata) done ∙ metadata',
      )
