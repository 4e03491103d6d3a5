-- ===== src/Metadata/Backend.antt =====
-- `RedisMetadataBackend` of kv-service/server/src/metadata.rs: its commands and scripts as functions
-- on the store. `none` as a result is a document that cannot be read.
use context_store.Prelude.{
  take, ℕ, suc, Bool, true, false, ltb, Option, none, some, List, [], ◌∷◌, ◌++◌, if◌then◌else◌,
}
use context_store.Prelude.Int.{ℤ, ◌+ℤ◌, pos}
use context_store.Metadata.{BlockMeta, GcTask}
use context_store.Metadata.Redis.{Redis, Json, is_some}

-- "block_meta", "generation", "gc:due", "gc:inflight", "gc:task:"
abbrev pub block_meta_segment : List ℕ
block_meta_segment = 98 ∷ 108 ∷ 111 ∷ 99 ∷ 107 ∷ 95 ∷ 109 ∷ 101 ∷ 116 ∷ 97 ∷ []

abbrev pub generation_segment : List ℕ
generation_segment = 103 ∷ 101 ∷ 110 ∷ 101 ∷ 114 ∷ 97 ∷ 116 ∷ 105 ∷ 111 ∷ 110 ∷ []

abbrev pub gc_due_segment : List ℕ
gc_due_segment = 103 ∷ 99 ∷ 58 ∷ 100 ∷ 117 ∷ 101 ∷ []

abbrev pub gc_inflight_segment : List ℕ
gc_inflight_segment = 103 ∷ 99 ∷ 58 ∷ 105 ∷ 110 ∷ 102 ∷ 108 ∷ 105 ∷ 103 ∷ 104 ∷ 116 ∷ []

abbrev pub gc_task_segment : List ℕ
gc_task_segment = 103 ∷ 99 ∷ 58 ∷ 116 ∷ 97 ∷ 115 ∷ 107 ∷ 58 ∷ []

module _ (prefix : List ℕ) where
  unfoldable pub block_key : List ℕ → List ℕ
  block_key key = prefix ++ (block_meta_segment ++ (58 ∷ key))

  unfoldable pub generation_key : List ℕ → List ℕ
  generation_key key = prefix ++ (generation_segment ++ (58 ∷ key))

  unfoldable pub gc_due_key : List ℕ
  gc_due_key = prefix ++ gc_due_segment

  unfoldable pub gc_inflight_key : List ℕ
  gc_inflight_key = prefix ++ gc_inflight_segment

  unfoldable pub gc_task_key : List ℕ → List ℕ
  gc_task_key id = prefix ++ (gc_task_segment ++ id)

-- What the network does to one attempt at a command: it fails before it is executed, or its reply is
-- lost after it was, or it is answered.
pub data Attempt : Type 0 where
  refused lost answered : Attempt

-- A command gives `none` where Redis replies with an error.
module _ {S A : Type 0} where
  abbrev pub attempt : Attempt → (S → Option A × S) → S → Option A × S
  attempt refused command s = (none, s)
  attempt lost command s = (none, (command s).1)
  attempt answered command s = command s

  -- An error leads to a new connection, if there is one, and to a second attempt.
  unfoldable pub run_with_reconnect :
      Attempt → Bool → Attempt → (S → Option A × S) → S → Option A × S
  run_with_reconnect first reconnects second command s =
      let (r, s₁) = attempt first command s in
      elim r [
        | some a ↦ (some a, s₁)
        | none ↦ if reconnects then attempt second command s₁ else (none, s₁)
      ]

module _ (J : Json) (R : Redis J.Doc) (prefix : List ℕ) where
  unfoldable pub put_block : List ℕ → BlockMeta → R.Store → R.Store
  put_block key meta s = R.set (block_key prefix key) (J.serialize meta) s

  -- SET with NX
  unfoldable pub put_block_if_absent : List ℕ → BlockMeta → R.Store → Bool × R.Store
  put_block_if_absent key meta s = elim (R.get (block_key prefix key) s) [
    | none ↦ (true, R.set (block_key prefix key) (J.serialize meta) s)
    | some old ↦ (false, s)
  ]

  abbrev pub read_old : Option J.Doc → Option (Option BlockMeta)
  read_old none = some none
  read_old (some old) = elim (J.deserialize old) [ none ↦ none | some m ↦ some (some m) ]

  unfoldable pub get_block : List ℕ → R.Store → Option (Option BlockMeta)
  get_block key s = read_old (R.get (block_key prefix key) s)

  unfoldable pub delete_block : List ℕ → R.Store → R.Store
  delete_block key s = R.del (block_key prefix key) s

  unfoldable pub exists_block : List ℕ → R.Store → Bool
  exists_block key s = is_some (R.get (block_key prefix key) s)

  abbrev pub task_key_of : List ℕ → J.Doc → List ℕ
  task_key_of key old = gc_task_key prefix (J.sha1hex (block_key prefix key) old)

  -- The end of the scripts that retire a version: the task is written and becomes due. `false` is the
  -- error of a version that `cjson` cannot decode, which keeps what the script did before.
  unfoldable pub enqueue_gc : List ℕ → J.Doc → ℤ → R.Store → Bool × R.Store
  enqueue_gc key old not_before s =
      let id = J.sha1hex (block_key prefix key) old in
      elim (J.lua_task id key old not_before) [
        | none ↦ (false, s)
        | some task ↦ (
          true,
          R.zadd (gc_due_key prefix) not_before (gc_task_key prefix id)
              (R.hset (gc_task_key prefix id) task s),
        )
      ]

  -- The scripts; `none` is an error reply.
  unfoldable pub replace_script : List ℕ → BlockMeta → ℤ → R.Store → Option (Option J.Doc) × R.Store
  unfolding enqueue_gc
  replace_script key meta not_before s =
      let s₁ = R.set (block_key prefix key) (J.serialize meta) s in
      elim (R.get (block_key prefix key) s) [
        | none ↦ (some none, s₁)
        | some old ↦
            let (queued, s₂) = enqueue_gc key old not_before s₁ in
            ((if queued then some (some old) else none), s₂)
      ]

  unfoldable pub retire_script : List ℕ → ℤ → R.Store → Option (Option J.Doc) × R.Store
  unfolding enqueue_gc
  retire_script key not_before s = elim (R.get (block_key prefix key) s) [
    | none ↦ (some none, s)
    | some old ↦
        let (queued, s₁) = enqueue_gc key old not_before (R.del (block_key prefix key) s) in
        ((if queued then some (some old) else none), s₁)
  ]

  -- The old version is read outside of the script.
  abbrev pub read_reply : Option (Option J.Doc) → Option (Option BlockMeta)
  read_reply none = none
  read_reply (some old) = read_old old

  unfoldable pub replace_block :
      List ℕ → BlockMeta → ℤ → R.Store → Option (Option BlockMeta) × R.Store
  unfolding replace_script
  replace_block key meta not_before s =
      let (reply, s') = replace_script key meta not_before s in (read_reply reply, s')

  unfoldable pub retire_block : List ℕ → ℤ → R.Store → Option (Option BlockMeta) × R.Store
  unfolding retire_script
  retire_block key not_before s =
      let (reply, s') = retire_script key not_before s in (read_reply reply, s')

  unfoldable pub retire_block_if_matches : List ℕ → BlockMeta → ℤ → R.Store → Option Bool × R.Store
  unfolding enqueue_gc
  retire_block_if_matches key expected not_before s = elim (R.get (block_key prefix key) s) [
    | none ↦ (some false, s)
    | some current ↦ elim (J.lua_same_version current (J.serialize expected)) [
      | none ↦ (none, s)
      | some matches ↦
          let (queued, s₁) = enqueue_gc key current not_before (R.del (block_key prefix key) s) in
          if matches then ((if queued then some true else none), s₁) else (some false, s)
    ]
  ]

  unfoldable pub delete_block_if_matches : List ℕ → BlockMeta → R.Store → Bool × R.Store
  delete_block_if_matches key expected s = elim (R.get (block_key prefix key) s) [
    | none ↦ (false, s)
    | some meta ↦
        if J.lua_generation_is meta expected.object_generation
        then (true, R.del (block_key prefix key) s)
        else (false, s)
  ]

  abbrev pub counter : Option J.Doc → Option ℕ
  counter none = some 0
  counter (some d) = J.tonumber d

  abbrev pub published : Option J.Doc → ℕ
  published none = 0
  published (some d) = elim (J.lua_generation d) [ none ↦ 0 | some n ↦ n ]

  -- `none` is the error of arithmetic on a counter that is not a number.
  unfoldable pub next_generation : List ℕ → R.Store → Option ℕ × R.Store
  next_generation key s = elim (counter (R.get (generation_key prefix key) s)) [
    | none ↦ (none, s)
    | some current ↦
        let old_generation = published (R.get (block_key prefix key) s) in
        let base = if ltb current old_generation then old_generation else current in
        (some (suc base), R.set (generation_key prefix key) (J.number (suc base)) s)
  ]

  -- The first loop of `take_due_gc_tasks`: leases that ran out become due again.
  abbrev pub requeued : ℤ → List ℕ → Bool × R.Store → R.Store
  requeued now k (false, s) = s
  requeued now k (true, s) = R.zadd (gc_due_key prefix) now k s

  unfoldable pub requeue : ℤ → List (List ℕ) → R.Store → R.Store
  requeue now [] s = s
  requeue now (k ∷ ks) s = requeue now ks (requeued now k (R.zrem (gc_inflight_key prefix) k s))

  -- The second one: a due task is leased, and its payload is returned.
  abbrev pub leased : ℤ → List ℕ → Bool × R.Store → List J.Doc × R.Store
  leased until k (false, s) = ([], s)
  leased until k (true, s) = elim (R.hget k s) [
    | none ↦ ([], s)
    | some payload ↦ (payload ∷ [], R.zadd (gc_inflight_key prefix) until k s)
  ]

  unfoldable pub claim : ℤ → List (List ℕ) → R.Store → List J.Doc × R.Store
  claim until [] s = ([], s)
  claim until (k ∷ ks) s =
      let (payload, s₁) = leased until k (R.zrem (gc_due_key prefix) k s) in
      let (payloads, s₂) = claim until ks s₁ in (payload ++ payloads, s₂)

  unfoldable pub requeue_expired : ℤ → R.Store → R.Store
  unfolding requeue
  requeue_expired now s = requeue now (R.zrangebyscore (gc_inflight_key prefix) now s) s

  abbrev pub task_keys : ℤ → ℕ → R.Store → List (List ℕ)
  task_keys now limit s = take limit (R.zrangebyscore (gc_due_key prefix) now s)

  unfoldable pub claim_due : ℤ → ℕ → ℕ → R.Store → List J.Doc × R.Store
  unfolding requeue_expired claim
  claim_due now limit lease_seconds s =
      let s₁ = requeue_expired now s in claim (now +ℤ pos lease_seconds) (task_keys now limit s₁) s₁

  -- One payload that cannot be read fails the call, after the script ran.
  unfoldable pub read_tasks : List J.Doc → Option (List GcTask)
  read_tasks [] = some []
  read_tasks (d ∷ ds) = elim (J.deserialize_task d) [
    | none ↦ none
    | some t ↦ elim (read_tasks ds) [ none ↦ none | some ts ↦ some (t ∷ ts) ]
  ]

  unfoldable pub take_due_gc_tasks : ℤ → ℕ → ℕ → R.Store → Option (List GcTask) × R.Store
  unfolding claim_due read_tasks
  take_due_gc_tasks now limit lease_seconds s =
      let (payloads, s₁) = claim_due now limit lease_seconds s in (read_tasks payloads, s₁)
