-- ===== src/Metadata/Redis.antt =====
-- What the metadata service uses of Redis and of the JSON of `serde_json` and of Lua's `cjson`, as
-- their documentation has it. The keys of the service hold strings (metadata, counters), hashes with
-- the one field `payload` (tasks) or sorted sets of tasks (due, in flight), and no key is of two
-- kinds (Metadata/Keys), so the kinds are apart here. Scores are whole numbers.
use context_store.Prelude.{
  ℕ, ◌<◌, ◌^◌, Bool, true, false, ◌||◌, Option, none, some, List, [], ◌∷◌, eq_bytes, ◌==◌,
  if◌then◌else◌, ◌≡◌, ◌≢◌, All,
}
use context_store.Prelude.Int.{ℤ, leb_ℤ, pos_part, neg_part}
use context_store.Metadata.{ChunkLocation, StripingInfo, BlockMeta, GcTask, same_version}

unfoldable pub has : List ℕ → List (List ℕ) → Bool
has k [] = false
has k (j ∷ ks) = eq_bytes j k || has k ks

abbrev pub is_some : {A : Type 0} → Option A → Bool
is_some none = false
is_some (some a) = true

abbrev pub is_due : Option ℤ → ℤ → Bool
is_due none now = false
is_due (some s) now = leb_ℤ s now

-- `D` is a stored document.
pub record Redis (D : Type 0) : Type 1 where
  pub Store : Type 0
  -- GET, SET and DEL of a string
  pub get : List ℕ → Store → Option D
  pub set : List ℕ → D → Store → Store
  pub del : List ℕ → Store → Store
  -- HGET and HSET of the field `payload`, and DEL of a hash
  pub hget : List ℕ → Store → Option D
  pub hset : List ℕ → D → Store → Store
  pub hdel : List ℕ → Store → Store
  -- ZSCORE, ZADD, ZREM with its count, and ZRANGEBYSCORE from -inf
  pub score : List ℕ → List ℕ → Store → Option ℤ
  pub zadd : List ℕ → ℤ → List ℕ → Store → Store
  pub zrem : List ℕ → List ℕ → Store → Bool × Store
  pub zrangebyscore : List ℕ → ℤ → Store → List (List ℕ)
  pub get_set :
      (j k : List ℕ) (d : D) (s : Store)
      → get j (set k d s) ≡ (if eq_bytes k j then some d else get j s)
  pub get_del :
      (j k : List ℕ) (s : Store) → get j (del k s) ≡ (if eq_bytes k j then none else get j s)
  pub get_hset : (j k : List ℕ) (d : D) (s : Store) → get j (hset k d s) ≡ get j s
  pub get_hdel : (j k : List ℕ) (s : Store) → get j (hdel k s) ≡ get j s
  pub get_zadd : (j z k : List ℕ) (x : ℤ) (s : Store) → get j (zadd z x k s) ≡ get j s
  pub get_zrem : (j z k : List ℕ) (s : Store) → get j (zrem z k s).1 ≡ get j s
  pub hget_set : (j k : List ℕ) (d : D) (s : Store) → hget j (set k d s) ≡ hget j s
  pub hget_del : (j k : List ℕ) (s : Store) → hget j (del k s) ≡ hget j s
  pub hget_hset :
      (j k : List ℕ) (d : D) (s : Store)
      → hget j (hset k d s) ≡ (if eq_bytes k j then some d else hget j s)
  pub hget_hdel :
      (j k : List ℕ) (s : Store) → hget j (hdel k s) ≡ (if eq_bytes k j then none else hget j s)
  pub hget_zadd : (j z k : List ℕ) (x : ℤ) (s : Store) → hget j (zadd z x k s) ≡ hget j s
  pub hget_zrem : (j z k : List ℕ) (s : Store) → hget j (zrem z k s).1 ≡ hget j s
  pub score_set : (z i k : List ℕ) (d : D) (s : Store) → score z i (set k d s) ≡ score z i s
  pub score_del : (z i k : List ℕ) (s : Store) → score z i (del k s) ≡ score z i s
  pub score_hset : (z i k : List ℕ) (d : D) (s : Store) → score z i (hset k d s) ≡ score z i s
  pub score_hdel : (z i k : List ℕ) (s : Store) → score z i (hdel k s) ≡ score z i s
  pub score_zadd :
      (z i y k : List ℕ) (x : ℤ) (s : Store)
      → score z i (zadd y x k s)
        ≡ (if eq_bytes y z then (if eq_bytes k i then some x else score z i s) else score z i s)
  pub score_zrem :
      (z i y k : List ℕ) (s : Store)
      → score z i (zrem y k s).1
        ≡ (if eq_bytes y z then (if eq_bytes k i then none else score z i s) else score z i s)
  pub zrem_count : (z k : List ℕ) (s : Store) → (zrem z k s).0 ≡ is_some (score z k s)
  pub zrangebyscore_lem :
      (z k : List ℕ) (now : ℤ) (s : Store)
      → has k (zrangebyscore z now s) ≡ is_due (score z k s) now

-- Numbers that a double and the 14 digits of `cjson.encode` carry.
abbrev pub IsShort : ℕ → Type 0
IsShort n = n < 10 ^ 14

abbrev pub IsShortInt : ℤ → Type 0
IsShortInt n = IsShort (pos_part n) × IsShort (neg_part n)

-- A striping whose numbers are short, and none of whose lists is empty: `cjson` writes an empty list
-- as an empty object.
pub record IsFull (s : StripingInfo) : Type 0 where
  pub short_chunk : IsShort s.chunk_size
  pub short_total : IsShort s.total_size
  pub devices : s.chunk_devices ≢ []
  pub paths : s.chunk_paths ≢ []
  pub locations : s.chunk_locations ≢ []
  pub checksums : s.chunk_checksums ≢ []
  pub short_locations :
      All (λ (l : ChunkLocation). IsShort l.offset × IsShort l.length) s.chunk_locations

abbrev pub IsFullOption : Option StripingInfo → Type 0
IsFullOption none = Unit {0}
IsFullOption (some s) = IsFull s

-- Metadata that Lua reads and writes back as they are.
pub record IsPlain (m : BlockMeta) : Type 0 where
  pub short_size : IsShort m.size
  pub short_generation : IsShort m.object_generation
  pub short_layout : IsShort m.layout_version
  pub short_created : IsShortInt m.created_at
  pub short_accessed : IsShortInt m.last_accessed_at
  pub short_ttl : IsShortInt m.ttl_seconds
  pub full : IsFullOption m.striping

-- Documents, written and read by `serde_json` and by the scripts.
pub record Json : Type 1 where
  pub Doc : Type 0
  pub serialize : BlockMeta → Doc
  pub deserialize : Doc → Option BlockMeta
  pub serialize_task : GcTask → Doc
  pub deserialize_task : Doc → Option GcTask
  -- `tonumber(cjson.decode(meta)["object_generation"])`
  pub lua_generation : Doc → Option ℕ
  -- `tonumber(decoded["object_generation"]) == tonumber(ARGV[1])`, an equation of two doubles, and
  -- false where the document cannot be decoded
  pub lua_generation_is : Doc → ℕ → Bool
  -- the comparison of five fields of two decoded documents
  pub lua_same_version : Doc → Doc → Option Bool
  -- `cjson.encode({id=id, key=key, retired=cjson.decode(old), not_before=not_before, attempts=0})`
  pub lua_task : List ℕ → List ℕ → Doc → ℤ → Option Doc
  -- a number in a script, and `tonumber` of a string
  pub number : ℕ → Doc
  pub tonumber : Doc → Option ℕ
  -- `redis.sha1hex(KEYS[1] .. ":" .. old)`
  pub sha1hex : List ℕ → Doc → List ℕ
  pub deserialize_lem : (m : BlockMeta) → deserialize (serialize m) ≡ some m
  pub deserialize_task_lem : (t : GcTask) → deserialize_task (serialize_task t) ≡ some t
  pub lua_generation_lem :
      (m : BlockMeta)
      → m.object_generation < 2 ^ 53
      → lua_generation (serialize m) ≡ some m.object_generation
  pub lua_generation_is_lem :
      (m : BlockMeta) (n : ℕ)
      → m.object_generation < 2 ^ 53
      → n < 2 ^ 53
      → lua_generation_is (serialize m) n ≡ (m.object_generation == n)
  pub lua_same_version_lem :
      (a b : BlockMeta)
      → IsPlain a
      → IsPlain b
      → lua_same_version (serialize a) (serialize b) ≡ some (same_version a b)
  pub lua_task_lem :
      (id key : List ℕ) (m : BlockMeta) (not_before : ℤ)
      → IsPlain m
      → IsShortInt not_before
      → (task : Doc) × (lua_task id key (serialize m) not_before ≡ some task)
        × (deserialize_task task
            ≡ some
                (record { id = id; key = key; retired = m; not_before = not_before; attempts = 0 }))
  pub tonumber_lem : (n : ℕ) → n < 2 ^ 53 → tonumber (number n) ≡ some n
