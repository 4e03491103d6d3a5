-- ===== src/Metadata/Retry.antt =====
-- `run_with_reconnect` around commands whose first reply is lost.
use context_store.Prelude.{
  ℕ, Bool, true, false, Option, none, some, List, eq_bytes_refl, ◌≡◌, refl, ap, ◌∙◌, if◌then◌else◌,
}
use context_store.Metadata.{BlockMeta}
use context_store.Metadata.Redis.{Redis, Json}
use context_store.Metadata.Versions.{get_block-set}
use context_store.Metadata.Backend.{
  block_key, Attempt, lost, answered, run_with_reconnect, put_block_if_absent, get_block,
}

module _ (J : Json) (R : Redis J.Doc) (prefix : List ℕ) where
  -- The command of `put_block_if_absent`.
  abbrev pub putting : List ℕ → BlockMeta → R.Store → Option Bool × R.Store
  putting key meta s = let (r, s') = put_block_if_absent J R prefix key meta s in (some r, s')

  abbrev written : List ℕ → BlockMeta → R.Store → R.Store
  written key meta s = R.set (block_key prefix key) (J.serialize meta) s

  put_absent :
      (key : List ℕ) (meta : BlockMeta) (s : R.Store)
      → R.get (block_key prefix key) s ≡ none
      → put_block_if_absent J R prefix key meta s ≡ (true, written key meta s)
  unfolding put_block_if_absent
  put_absent key meta s e = rw (e, put_block_if_absent)

  put_present :
      (key : List ℕ) (meta : BlockMeta) (s : R.Store) (d : J.Doc)
      → R.get (block_key prefix key) s ≡ some d
      → put_block_if_absent J R prefix key meta s ≡ (false, s)
  unfolding put_block_if_absent
  put_present key meta s d e = rw (e, put_block_if_absent)

  -- If the key is absent and the first reply is lost, the second attempt finds the metadata that the
  -- first one wrote: the caller is told that it did not publish its version, which the key shows; the
  -- store is the one of a publication that the caller is told of.
  pub put_block_if_absent-lost :
      (key : List ℕ) (meta : BlockMeta) (second : Attempt) (s : R.Store)
      → R.get (block_key prefix key) s ≡ none
      → ((run_with_reconnect lost true answered (putting key meta) s).0 ≡ some false)
        × (get_block J R prefix key (run_with_reconnect lost true answered (putting key meta) s).1
            ≡ some (some meta))
        × ((run_with_reconnect answered true second (putting key meta) s).0 ≡ some true)
        × ((run_with_reconnect answered true second (putting key meta) s).1
            ≡ (run_with_reconnect lost true answered (putting key meta) s).1)
  unfolding run_with_reconnect
  put_block_if_absent-lost key meta second s absent =
      let first = put_absent key meta s absent in
      let again = put_present key meta (written key meta s) (J.serialize meta) (
        R.get_set (block_key prefix key) (block_key prefix key) (J.serialize meta) s
        ∙ ap (λ b. if b then some (J.serialize meta) else R.get (block_key prefix key) s)
            (eq_bytes_refl (block_key prefix key))) in
      rw (first) (
        rw (again) (
          refl,
          get_block-set J R prefix key key meta s
              ∙ ap (λ b. if b then some (some meta) else get_block J R prefix key s)
                  (eq_bytes_refl key),
          refl,
          refl,
        ))
