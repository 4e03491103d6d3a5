-- ===== src/Metadata/Versions.antt =====
-- Publishing and retiring versions of an object, and the counter of generations.
use context_store.Prelude.{
  ℕ, true, false, Option, none, some, List, eq_bytes, eq_bytes_refl, if◌then◌else◌, ◌≡◌, refl, ap,
  ◌∙◌, arith, inl, inr, Bool-cases, ◌⊎◌, Option-cases,
}
use context_store.Prelude.Int.{ℤ}
use context_store.Metadata.{BlockMeta, same_version}
use context_store.Metadata.Redis.{Redis, Json, IsPlain, IsShortInt}
use context_store.Metadata.Backend.{
  replace_script, retire_script, block_key, get_block, read_old, task_key_of, enqueue_gc,
  replace_block, retire_block, retire_block_if_matches,
}
use context_store.Metadata.Keys.{eq-block_key}
use context_store.Metadata.Sets.{due, due-zadd_due}

module _ (J : Json) (R : Redis J.Doc) (prefix : List ℕ) where
  -- A retired version is due for reclamation, with all that is known of it.
  pub record IsQueued (key : List ℕ) (old : BlockMeta) (not_before : ℤ) (s : R.Store) : Type 0 where
    pub payload : J.Doc
    pub kept : R.hget (task_key_of J R prefix key (J.serialize old)) s ≡ some payload
    pub read :
        J.deserialize_task payload
        ≡ some (record {
          id = J.sha1hex (block_key prefix key) (J.serialize old);
          key = key;
          retired = old;
          not_before = not_before;
          attempts = 0;
        })
    pub waiting : due J R prefix (task_key_of J R prefix key (J.serialize old)) s ≡ some not_before

  enqueue_gc-IsQueued :
      (key : List ℕ) (old : BlockMeta) (not_before : ℤ) (s : R.Store)
      → IsPlain old
      → IsShortInt not_before
      → ((enqueue_gc J R prefix key (J.serialize old) not_before s).0 ≡ true)
        × IsQueued key old not_before (enqueue_gc J R prefix key (J.serialize old) not_before s).1
  unfolding enqueue_gc
  enqueue_gc-IsQueued key old not_before s h short =
      let k = task_key_of J R prefix key (J.serialize old) in
      let (task, e, read) =
        J.lua_task_lem (J.sha1hex (block_key prefix key) (J.serialize old)) key old not_before h
          short in
      rw (e, enqueue_gc)
        (
          refl,
          record {
            payload = task;
            kept = rw (R.hget_zadd, R.hget_hset, eq_bytes_refl k);
            read = read;
            waiting = due-zadd_due J R prefix k k not_before _ ∙ rw (eq_bytes_refl k);
          },
        )

  pub get-enqueue_gc :
      (j key : List ℕ) (old : J.Doc) (not_before : ℤ) (s : R.Store)
      → R.get j (enqueue_gc J R prefix key old not_before s).1 ≡ R.get j s
  unfolding enqueue_gc
  get-enqueue_gc j key old not_before s =
      elim (Option-cases (J.lua_task (J.sha1hex (block_key prefix key) old) key old not_before)) [
        | inl e ↦ rw (e, enqueue_gc)
        | inr (task, e) ↦ rw (e, enqueue_gc) (R.get_zadd j _ _ not_before _ ∙ R.get_hset j _ task s)
      ]

  -- What a script leaves that makes `meta` the visible version of a key, or none, and retires `old`.
  pub record IsReplaced (key : List ℕ) (old : BlockMeta) (meta : Option BlockMeta) (not_before : ℤ)
      (s s' : R.Store) : Type 0 where
    pub visible : get_block J R prefix key s' ≡ some meta
    pub queued : IsQueued key old not_before s'
    pub others :
        (j : List ℕ)
        → get_block J R prefix j s'
          ≡ (if eq_bytes key j then some meta else get_block J R prefix j s)

  read_written : (m : BlockMeta) → read_old J R prefix (some (J.serialize m)) ≡ some (some m)
  read_written m = rw (J.deserialize_lem m, read_old)

  pub get_block-set :
      (key j : List ℕ) (m : BlockMeta) (s : R.Store)
      → get_block J R prefix j (R.set (block_key prefix key) (J.serialize m) s)
        ≡ (if eq_bytes key j then some (some m) else get_block J R prefix j s)
  unfolding get_block
  get_block-set key j m s = rw (R.get_set, eq-block_key prefix) (ground (arith, read_written m))

  get_block-del :
      (key j : List ℕ) (s : R.Store)
      → get_block J R prefix j (R.del (block_key prefix key) s)
        ≡ (if eq_bytes key j then some none else get_block J R prefix j s)
  unfolding get_block
  get_block-del key j s = rw (R.get_del, eq-block_key prefix) (ground arith)

  get_block-enqueue_gc :
      (j key : List ℕ) (old : J.Doc) (not_before : ℤ) (s : R.Store)
      → get_block J R prefix j (enqueue_gc J R prefix key old not_before s).1
        ≡ get_block J R prefix j s
  unfolding get_block
  get_block-enqueue_gc j key old not_before s =
      ap (read_old J R prefix) (get-enqueue_gc (block_key prefix j) key old not_before s)

  module _ (key : List ℕ) (old : BlockMeta) (not_before : ℤ) (s : R.Store)
      (stored : R.get (block_key prefix key) s ≡ some (J.serialize old)) (plain : IsPlain old)
      (short : IsShortInt not_before) where
    -- Publishing over a stored version that Lua reads and writes back as it is, with a time of at most
    -- 14 digits: it returns the old version, makes the new one visible for its key and for no other,
    -- and queues the old one with its whole placement, due from that time. A version is such if its
    -- numbers have at most 14 digits and, if it is striped, none of the lists of its striping is empty.
    -- A version that is striped over the disks of this node alone is not: its list of locations is
    -- empty.
    pub replace_block-IsReplaced :
        (meta : BlockMeta)
        → ((replace_block J R prefix key meta not_before s).0 ≡ some (some old))
          × IsReplaced key old
              (some meta)
              not_before
              s
              (replace_block J R prefix key meta not_before s).1
    unfolding replace_block
    replace_block-IsReplaced meta =
        let s₁ = R.set (block_key prefix key) (J.serialize meta) s in
        let (done, queued) = enqueue_gc-IsQueued key old not_before s₁ plain short in
        rw (stored, replace_block, replace_script)
          (
            rw (done) (read_written old),
            record {
              visible =
                  get_block-enqueue_gc key key (J.serialize old) not_before s₁
                  ∙ get_block-set key key meta s
                  ∙ rw (eq_bytes_refl key);
              queued = queued;
              others = λ j.
                  get_block-enqueue_gc j key (J.serialize old) not_before s₁
                  ∙ get_block-set key j meta s;
            },
          )

    retired :
        ((enqueue_gc J R prefix key (J.serialize old) not_before (R.del (block_key prefix key) s)).0
          ≡ true)
        × IsReplaced key old none not_before s
            (enqueue_gc J R prefix key
              (J.serialize old)
              not_before
              (R.del (block_key prefix key) s)).1
    retired =
        let s₁ = R.del (block_key prefix key) s in
        let (done, queued) = enqueue_gc-IsQueued key old not_before s₁ plain short in
        (
          done,
          record {
            visible =
                get_block-enqueue_gc key key (J.serialize old) not_before s₁
                ∙ get_block-del key key s
                ∙ rw (eq_bytes_refl key);
            queued = queued;
            others = λ j.
                get_block-enqueue_gc j key (J.serialize old) not_before s₁ ∙ get_block-del key j s;
          },
        )

    -- Retiring a key returns the stored version, which no reader sees afterwards, leaves every other
    -- key, and queues the version, due from the time given, under the same conditions.
    retire_block-IsReplaced :
        ((retire_block J R prefix key not_before s).0 ≡ some (some old))
        × IsReplaced key old none not_before s (retire_block J R prefix key not_before s).1
    unfolding retire_block
    retire_block-IsReplaced =
        rw (stored, retire_block, retire_script) (rw (retired.0) (read_written old), retired.1)

    same_lem :
        (expected : BlockMeta)
        → IsPlain expected
        → J.lua_same_version (J.serialize old) (J.serialize expected)
          ≡ some (same_version old expected)
    same_lem expected p = J.lua_same_version_lem old expected plain p

    -- Retiring only a version that was seen, when Lua reads and writes back both the stored and the
    -- seen one as they are (numbers of at most 14 digits, and no empty list in a striping, so neither
    -- is striped over the disks of this node alone) and the time has at most 14 digits: if the stored
    -- one is that version, it is no longer visible, no other key changes, and it is queued with its
    -- whole placement, due from that time; if it is another one, nothing changes.
    pub retire_block_if_matches_lem :
        (expected : BlockMeta)
        → IsPlain expected
        → ((same_version old expected ≡ true)
            × (((retire_block_if_matches J R prefix key expected not_before s).0 ≡ some true)
                × IsReplaced key old none not_before s
                    (retire_block_if_matches J R prefix key expected not_before s).1))
          ⊎ ((same_version old expected ≡ false)
              × (retire_block_if_matches J R prefix key expected not_before s ≡ (some false, s)))
    unfolding retire_block_if_matches
    retire_block_if_matches_lem expected p = elim (Bool-cases (same_version old expected)) [
      | inl same ↦ inl (
        same,
        rw (stored, same_lem expected p ∙ ap some same, retire_block_if_matches)
            (rw (retired.0), retired.1),
      )
      | inr other ↦
          inr (other, rw (stored, same_lem expected p ∙ ap some other, retire_block_if_matches))
    ]
