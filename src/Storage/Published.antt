-- ===== src/Storage/Published.antt =====
-- What the steps of a write do with the metadata when the service answers.
use context_store.Prelude.{ℕ, true, false, Option, List, ◌≡◌, refl, ap, ◌∙◌}
use context_store.Prelude.Int.{ℤ}
use context_store.Prelude.Results.{ok, err}
use context_store.Prelude.Actions.{bind_ok, bind_err, pure}
use context_store.Metadata.{BlockMeta}
use context_store.Router.{ObjectKey, to_string_key}
use context_store.Storage.Executor.{KvError}
use context_store.Storage.Tier.{Tier, World, on_metadata, gc_not_before, delete_paths_best_effort}
use context_store.Storage.Calls.{on_metadata_lem}
use context_store.Storage.Commit.{
  versioned, prepare_write_meta, settle, commit_metadata_with_rollback,
}

module _ (T : Tier) (key : ObjectKey) (meta : BlockMeta) (w : World T) where
  pub prepare_write_meta_lem :
      (size generation : ℕ) (s : T.service.State)
      → T.service.next_generation (to_string_key key) w.metadata ≡ (ok generation, s)
      → prepare_write_meta T key meta size w
        ≡ (ok (versioned T key meta size generation), record w { metadata = s })
  unfolding prepare_write_meta
  prepare_write_meta_lem size generation s e = bind_ok _ _ (on_metadata_lem T w _ e)

  module _ (paths : List (List ℕ)) (now : ℤ) (s : T.service.State) where
    pub commit_replaced :
        (old : Option BlockMeta)
        → T.service.replace_block (to_string_key key) meta (gc_not_before T now) w.metadata
          ≡ (ok old, s)
        → commit_metadata_with_rollback T key meta paths false now w
          ≡ (ok true, record w { metadata = s })
    unfolding commit_metadata_with_rollback settle
    commit_replaced old e = bind_ok _ _ (
        ap (λ p. (ok p.0, p.1))
          (bind_ok
            (on_metadata T (T.service.replace_block (to_string_key key) meta (gc_not_before T now)))
            (λ o. pure true) (on_metadata_lem T w _ e)))

    pub commit_refused :
        (e : KvError)
        → T.service.replace_block (to_string_key key) meta (gc_not_before T now) w.metadata
          ≡ (err e, s)
        → commit_metadata_with_rollback T key meta paths false now w
          ≡ (err e, delete_paths_best_effort T paths (record w { metadata = s }))
    unfolding commit_metadata_with_rollback settle
    commit_refused e h =
        bind_ok _ _ (
          ap (λ p. (ok p.0, p.1))
            (bind_err
              (on_metadata T
                (T.service.replace_block (to_string_key key) meta (gc_not_before T now)))
              (λ o. pure true) (on_metadata_lem T w _ h)))
        ∙ bind_ok _ _ refl
