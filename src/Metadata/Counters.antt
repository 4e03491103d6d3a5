-- ===== src/Metadata/Counters.antt =====
-- Which operations leave the counter of an object: all but `next_generation`.
use context_store.Prelude.{
  ℕ, true, false, Option, List, ◌≡◌, ◌∙◌, inl, inr, Bool-cases, Option-cases,
}
use context_store.Prelude.Int.{ℤ}
use context_store.Metadata.{BlockMeta}
use context_store.Metadata.Redis.{Redis, Json}
use context_store.Metadata.Backend.{
  replace_script, retire_script, block_key, generation_key, put_block_if_absent, replace_block,
  retire_block, retire_block_if_matches, delete_block_if_matches, enqueue_gc,
}
use context_store.Metadata.Keys.{block-ne-generation}
use context_store.Metadata.Versions.{get-enqueue_gc}

module _ (J : Json) (R : Redis J.Doc) (prefix : List ℕ) (key : List ℕ) where
  abbrev pub stored : R.Store → Option J.Doc
  stored s = R.get (generation_key prefix key) s

  pub stored-set :
      (k : List ℕ) (d : J.Doc) (s : R.Store) → stored (R.set (block_key prefix k) d s) ≡ stored s
  stored-set k d s = R.get_set _ _ d s ∙ rw (block-ne-generation prefix k key)

  pub stored-del : (k : List ℕ) (s : R.Store) → stored (R.del (block_key prefix k) s) ≡ stored s
  stored-del k s = R.get_del _ _ s ∙ rw (block-ne-generation prefix k key)

  stored-enqueue_gc :
      (k : List ℕ) (old : J.Doc) (not_before : ℤ) (s : R.Store)
      → stored (enqueue_gc J R prefix k old not_before s).1 ≡ stored s
  stored-enqueue_gc k old not_before s = get-enqueue_gc J R prefix _ k old not_before s

  pub stored-put_block_if_absent :
      (k : List ℕ) (meta : BlockMeta) (s : R.Store)
      → stored (put_block_if_absent J R prefix k meta s).1 ≡ stored s
  unfolding put_block_if_absent
  stored-put_block_if_absent k meta s = elim (Option-cases (R.get (block_key prefix k) s)) [
    | inl e ↦ rw (e, put_block_if_absent) (stored-set k (J.serialize meta) s)
    | inr (old, e) ↦ rw (e, put_block_if_absent)
  ]

  pub stored-replace_block :
      (k : List ℕ) (meta : BlockMeta) (not_before : ℤ) (s : R.Store)
      → stored (replace_block J R prefix k meta not_before s).1 ≡ stored s
  unfolding replace_block
  stored-replace_block k meta not_before s = elim (Option-cases (R.get (block_key prefix k) s)) [
    | inl e ↦ rw (e, replace_block, replace_script) (stored-set k (J.serialize meta) s)
    | inr (old, e) ↦
        rw (e, replace_block, replace_script)
          (stored-enqueue_gc k old not_before _ ∙ stored-set k (J.serialize meta) s)
  ]

  pub stored-retire_block :
      (k : List ℕ) (not_before : ℤ) (s : R.Store)
      → stored (retire_block J R prefix k not_before s).1 ≡ stored s
  unfolding retire_block
  stored-retire_block k not_before s = elim (Option-cases (R.get (block_key prefix k) s)) [
    | inl e ↦ rw (e, retire_block, retire_script)
    | inr (old, e) ↦
        rw (e, retire_block, retire_script) (stored-enqueue_gc k old not_before _ ∙ stored-del k s)
  ]

  pub stored-retire_block_if_matches :
      (k : List ℕ) (expected : BlockMeta) (not_before : ℤ) (s : R.Store)
      → stored (retire_block_if_matches J R prefix k expected not_before s).1 ≡ stored s
  unfolding retire_block_if_matches
  stored-retire_block_if_matches k expected not_before s =
      elim (Option-cases (R.get (block_key prefix k) s)) [
        | inl e ↦ rw (e, retire_block_if_matches)
        | inr (old, e) ↦ elim (Option-cases (J.lua_same_version old (J.serialize expected))) [
          | inl f ↦ rw (e, f, retire_block_if_matches)
          | inr (true, f) ↦
              rw (e, f, retire_block_if_matches)
                (stored-enqueue_gc k old not_before _ ∙ stored-del k s)
          | inr (false, f) ↦ rw (e, f, retire_block_if_matches)
        ]
      ]

  pub stored-delete_block_if_matches :
      (k : List ℕ) (expected : BlockMeta) (s : R.Store)
      → stored (delete_block_if_matches J R prefix k expected s).1 ≡ stored s
  unfolding delete_block_if_matches
  stored-delete_block_if_matches k expected s = elim (Option-cases (R.get (block_key prefix k) s)) [
    | inl e ↦ rw (e, delete_block_if_matches)
    | inr (old, e) ↦ elim (Bool-cases (J.lua_generation_is old expected.object_generation)) [
      | inl h ↦ rw (e, h, delete_block_if_matches) (stored-del k s)
      | inr h ↦ rw (e, h, delete_block_if_matches)
    ]
  ]
