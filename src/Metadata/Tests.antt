-- ===== src/Metadata/Tests.antt =====
-- Instances of the theorems, on a small Redis: an object that was made at 100 and lives for 50 seconds.
use context_store.Prelude.{
  ℕ, ◌<◌, List, ◌∷◌, some, eq_bytes, ◌^◌, ◌≡◌, ◌↔◌, ◌⊎◌, true, false, none, [], refl, arith,
}
use context_store.Prelude.Int.{ℤ, leb_ℤ, pos, negsuc, ◌+ℤ◌, ◌≤ℤ◌, ◌<ℤ◌}
use context_store.Metadata.{GcTask, BlockMeta, is_expired_at, same_version}
use context_store.Metadata.Redis.{IsPlain, has}
use context_store.Metadata.Instance.{
  Doc, meta_doc, task_doc, Written, docs, small_redis, empty_store,
}
use context_store.Metadata.Backend.{
  block_key, generation_key, gc_due_key, gc_inflight_key, gc_task_key, lost, answered,
  run_with_reconnect, get_block, replace_block, retire_block_if_matches, next_generation,
  requeue_expired, requeue, claim_due, enqueue_gc, take_due_gc_tasks,
}
use context_store.Metadata.Expiry.{is_expired_at_lem}
use context_store.Metadata.Keys.{keys_apart}
use context_store.Metadata.Sets.{Among, due, inflight}
use context_store.Metadata.Leases.{claimed, claim_all, claim_due-once}
use context_store.Metadata.Versions.{
  IsReplaced, replace_block-IsReplaced, retire_block_if_matches_lem,
}
use context_store.Metadata.Generations.{shown}
use context_store.Metadata.Steps.{operating, taking, replacing, done, next}
use context_store.Metadata.Histories.{next_generation-grows}
use context_store.Metadata.Tasks.{tracked}
use context_store.Metadata.Commands.{
  release, write, queue, run_command, complete_commands, reschedule_commands,
}
use context_store.Metadata.Pending.{
  Call, HasCall, completing, rescheduling, one, last, start, operated, began, sent, History,
  History-tracked,
}
use context_store.Metadata.Retry.{putting, put_block_if_absent-lost}

abbrev short_lived : BlockMeta
short_lived = record {
  device_id = 0;
  file_path = [];
  size = 2;
  object_handle = [];
  object_generation = 1;
  content_etag = [];
  layout_version = 1;
  created_at = pos 100;
  last_accessed_at = pos 100;
  ttl_seconds = pos 50;
  num_tokens = pos 0;
  num_layers = pos 0;
  dtype = [];
  compressed = false;
  striping = none;
}

expiry_run :
    (is_expired_at short_lived (pos 149) ≡ false)
    × (is_expired_at short_lived (pos 150) ≡ true)
    × (is_expired_at (record short_lived { ttl_seconds = negsuc 4 }) (pos 150) ≡ false)
    × (is_expired_at (record short_lived { ttl_seconds = pos 9223372036854775807 }) (pos 150)
        ≡ true)
unfolding is_expired_at
expiry_run = (refl, refl, refl, refl)

is_expired_at_lem_example :
    (is_expired_at short_lived (pos 150) ≡ true)
    ↔ ((pos 0 <ℤ pos 50) × ((pos 100 +ℤ pos 50 ≤ℤ pos 150) ⊎ (pos (2 ^ 63) ≤ℤ pos 100 +ℤ pos 50)))
is_expired_at_lem_example = is_expired_at_lem short_lived (pos 150) refl refl

-- "1:nk"
abbrev test_key : List ℕ
test_key = 49 ∷ 58 ∷ 110 ∷ 107 ∷ []

abbrev newer : BlockMeta
newer = record short_lived { object_generation = 2; size = 3 }

short_lived-IsPlain : IsPlain short_lived
short_lived-IsPlain = record {
  short_size = omega arith;
  short_generation = omega arith;
  short_layout = omega arith;
  short_created = (omega arith, omega arith);
  short_accessed = (omega arith, omega arith);
  short_ttl = (omega arith, omega arith);
  full = tt;
}

keys_apart_example :
    (eq_bytes (block_key [] test_key) (generation_key [] test_key) ≡ false)
    × (eq_bytes (block_key [] test_key) (gc_due_key []) ≡ false)
    × (eq_bytes (block_key [] test_key) (gc_inflight_key []) ≡ false)
    × (eq_bytes (block_key [] test_key) (gc_task_key [] test_key) ≡ false)
    × (eq_bytes (generation_key [] test_key) (gc_due_key []) ≡ false)
    × (eq_bytes (generation_key [] test_key) (gc_inflight_key []) ≡ false)
    × (eq_bytes (generation_key [] test_key) (gc_task_key [] test_key) ≡ false)
    × (eq_bytes (gc_due_key []) (gc_inflight_key []) ≡ false)
    × (eq_bytes (gc_due_key []) (gc_task_key [] test_key) ≡ false)
    × (eq_bytes (gc_inflight_key []) (gc_task_key [] test_key) ≡ false)
keys_apart_example = keys_apart [] test_key test_key test_key

-- A store that shows `short_lived`, and one with a task that retired it.
abbrev shown_store : Written
shown_store = record {
  strings = (block_key [] test_key, some (meta_doc short_lived)) ∷ [];
  hashes = [];
  sets = [];
}

shown_store-get : small_redis.get (block_key [] test_key) shown_store ≡ some (meta_doc short_lived)
unfolding block_key eq_bytes
shown_store-get = refl

abbrev retired_task : Doc
retired_task = task_doc (record {
  id = test_key;
  key = test_key;
  retired = short_lived;
  not_before = pos 150;
  attempts = 0;
})

abbrev queued_store : Written
queued_store = record {
  strings = [];
  hashes = (gc_task_key [] test_key, some retired_task) ∷ [];
  sets = (gc_due_key [], gc_task_key [] test_key, some (pos 150)) ∷ [];
}

queued_store-claimed :
    has (gc_task_key [] test_key) (claimed docs small_redis [] (pos 200) 10 queued_store) ≡ true
unfolding gc_task_key gc_due_key gc_inflight_key requeue_expired requeue has eq_bytes
queued_store-claimed = refl

queued_store-hget : small_redis.hget (gc_task_key [] test_key) queued_store ≡ some retired_task
unfolding gc_task_key eq_bytes
queued_store-hget = refl

queued_store-tracked : tracked docs small_redis [] (gc_task_key [] test_key) queued_store ≡ true
unfolding gc_task_key gc_due_key gc_inflight_key eq_bytes
queued_store-tracked = refl

lease_end : leb_ℤ (pos 200 +ℤ pos 60) (pos 230) ≡ false
unfolding ◌+ℤ◌
lease_end = refl

-- Two other calls before that.
abbrev other_calls : List (ℤ × ℕ × ℕ)
other_calls = (pos 210, 10, 60) ∷ (pos 210, 1, 5) ∷ []

lease_open : leb_ℤ (pos 200 +ℤ pos 60) (pos 210) ≡ false
unfolding ◌+ℤ◌
lease_open = refl

claim_due-once_example :
    Among docs small_redis [] retired_task
      (claim_due docs small_redis [] (pos 200) 10 60 queued_store).0
    × (inflight docs small_redis [] (gc_task_key [] test_key) (
          claim_all docs small_redis [] other_calls
            (claim_due docs small_redis [] (pos 200) 10 60 queued_store).1)
        ≡ some (pos 200 +ℤ pos 60))
    × (due docs small_redis [] (gc_task_key [] test_key) (
          claim_all docs small_redis [] other_calls
            (claim_due docs small_redis [] (pos 200) 10 60 queued_store).1)
        ≡ none)
    × (has (gc_task_key [] test_key) (
          claimed docs small_redis [] (pos 230) 10 (
            claim_all docs small_redis [] other_calls
              (claim_due docs small_redis [] (pos 200) 10 60 queued_store).1))
        ≡ false)
claim_due-once_example =
    claim_due-once docs small_redis [] (pos 200) (pos 230) 10 10 60 other_calls
      (gc_task_key [] test_key) retired_task queued_store queued_store-claimed queued_store-hget
      (lease_open, (lease_open, tt)) lease_end

replace_block-IsReplaced_example :
    ((replace_block docs small_redis [] test_key newer (pos 150) shown_store).0
      ≡ some (some short_lived))
    × IsReplaced docs small_redis [] test_key short_lived
        (some newer)
        (pos 150)
        shown_store
        (replace_block docs small_redis [] test_key newer (pos 150) shown_store).1
replace_block-IsReplaced_example =
    replace_block-IsReplaced docs small_redis [] test_key short_lived (pos 150) shown_store
      shown_store-get short_lived-IsPlain (omega arith, omega arith) newer

retire_block_if_matches_lem_example :
    ((same_version short_lived short_lived ≡ true)
      × (((retire_block_if_matches docs small_redis [] test_key short_lived (pos 150) shown_store).0
            ≡ some true)
          × IsReplaced docs small_redis [] test_key short_lived none
              (pos 150)
              shown_store
              (retire_block_if_matches docs small_redis [] test_key short_lived
                (pos 150)
                shown_store).1))
    ⊎ ((same_version short_lived short_lived ≡ false)
        × (retire_block_if_matches docs small_redis [] test_key short_lived (pos 150) shown_store
            ≡ (some false, shown_store)))
retire_block_if_matches_lem_example =
    retire_block_if_matches_lem docs small_redis [] test_key short_lived (pos 150) shown_store
      shown_store-get short_lived-IsPlain (omega arith, omega arith) short_lived short_lived-IsPlain

abbrev counted_store : Written
counted_store = (next_generation docs small_redis [] test_key shown_store).1

abbrev replaced_store : Written
replaced_store = (replace_block docs small_redis [] test_key newer (pos 150) counted_store).1

first_generation : (next_generation docs small_redis [] test_key shown_store).0 ≡ some 2
unfolding next_generation block_key generation_key eq_bytes
first_generation = refl

second_generation : (next_generation docs small_redis [] test_key replaced_store).0 ≡ some 3
unfolding next_generation replace_block enqueue_gc block_key generation_key eq_bytes
second_generation = refl

next_generation-grows_example : (2 < 3) × (shown docs small_redis [] test_key replaced_store < 3)
next_generation-grows_example =
    next_generation-grows docs small_redis [] test_key 2 3 shown_store replaced_store
      first_generation (omega arith)
      (next (operating (replacing test_key newer (pos 150) counted_store)) (done replaced_store))
      second_generation (omega arith)

-- The task is claimed, and a worker puts it back while another one completes it.
abbrev taken_store : Written
taken_store = (take_due_gc_tasks docs small_redis [] (pos 200) 10 60 queued_store).1

abbrev again_task : GcTask
again_task = record {
  id = test_key;
  key = test_key;
  retired = short_lived;
  not_before = pos 210;
  attempts = 1;
}

abbrev completing_call : Call Doc
completing_call = record {
  key = gc_task_key [] test_key;
  todo = complete_commands docs small_redis [] test_key;
}

abbrev again_key : List ℕ
again_key = gc_task_key [] test_key

abbrev put_back_store : Written
put_back_store = run_command docs small_redis [] (queue again_key (pos 210)) (
    run_command docs small_redis [] (write again_key (task_doc again_task))
      (run_command docs small_redis [] (release again_key) taken_store))

two_workers : History docs small_redis [] queued_store put_back_store (completing_call ∷ [])
unfolding reschedule_commands
two_workers =
    sent
      (sent
        (sent
          (began _
            (began _ (operated start (taking (pos 200) 10 60 queued_store)) (completing test_key))
            (rescheduling again_task))
          (one again_key _ _ _ (completing_call ∷ [])))
        (one again_key _ _ _ (completing_call ∷ [])))
      (last again_key _ (completing_call ∷ []))

History-tracked_example :
    (tracked docs small_redis [] again_key put_back_store ≡ true)
    ⊎ HasCall again_key (completing_call ∷ [])
History-tracked_example =
    History-tracked docs small_redis [] again_key queued_store put_back_store (completing_call ∷ [])
      queued_store-tracked two_workers

put_block_if_absent-lost_example :
    ((run_with_reconnect lost true answered
        (putting docs small_redis [] test_key newer)
        empty_store).0
      ≡ some false)
    × (get_block docs small_redis [] test_key
          (run_with_reconnect lost true answered
            (putting docs small_redis [] test_key newer)
            empty_store).1
        ≡ some (some newer))
    × ((run_with_reconnect answered true answered
          (putting docs small_redis [] test_key newer)
          empty_store).0
        ≡ some true)
    × ((run_with_reconnect answered true answered
          (putting docs small_redis [] test_key newer)
          empty_store).1
        ≡ (run_with_reconnect lost true answered
            (putting docs small_redis [] test_key newer)
            empty_store).1)
put_block_if_absent-lost_example =
    put_block_if_absent-lost docs small_redis [] test_key newer answered empty_store refl
