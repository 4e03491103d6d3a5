-- ===== src/Storage/Calls.antt =====
-- Calls of the metadata service and of the executor whose answers are known.
use context_store.Prelude.{List, ℕ, ◌≡◌, ap}
use context_store.Prelude.Results.{Result, ok}
use context_store.Prelude.Actions.{bind_ok}
use context_store.Storage.Executor.{KvError}
use context_store.Storage.Tier.{
  Tier, World, on_metadata, on_files, write_file_on_device, read_file_on_device,
  record_device_write, file_size,
}

module _ (T : Tier) {A : Type 0} (w : World T) where
  pub on_metadata_lem :
      (call : T.service.State → Result KvError A × T.service.State) {r : Result KvError A}
      {s : T.service.State}
      → call w.metadata ≡ (r, s)
      → on_metadata T call w ≡ (r, record w { metadata = s })
  unfolding on_metadata
  on_metadata_lem call e = ap (λ p. (p.0, record w { metadata = p.1 })) e

  pub on_files_lem :
      (call : T.executor.Files → Result KvError A × T.executor.Files) {r : Result KvError A}
      {f : T.executor.Files}
      → call w.files ≡ (r, f)
      → on_files T call w ≡ (r, record w { files = f })
  unfolding on_files
  on_files_lem call e = ap (λ p. (p.0, record w { files = p.1 })) e

module _ (T : Tier) (device_id : ℕ) (path bytes : List ℕ) (w : World T) (f : T.executor.Files) where
  -- The world after a write to a file.
  abbrev pub wrote : World T
  wrote =
      let w' = record w { files = f } in record_device_write T device_id (file_size T path w') w'

  pub write_file_on_device_lem :
      T.executor.write_file path bytes w.files ≡ (ok tt, f)
      → write_file_on_device T device_id path bytes w ≡ (ok tt, wrote)
  unfolding write_file_on_device
  write_file_on_device_lem e = bind_ok _ _ (on_files_lem T w _ e)

  pub read_file_on_device_lem :
      T.executor.read_file path w.files ≡ (ok bytes, f)
      → read_file_on_device T device_id path w ≡ (ok bytes, record w { files = f })
  unfolding read_file_on_device
  read_file_on_device_lem e = on_files_lem T w _ e
