-- ===== src/Metadata/Instance.antt =====
-- A small Redis and small documents, for the tests: a store is the list of what was written, the last
-- write first.
use context_store.Prelude.{
  ℕ, Bool, true, false, ◌&&◌, ◌==◌, Option, none, some, List, [], ◌∷◌, eq_bytes, eq_bytes→eq,
  if◌then◌else◌, ◌≡◌, refl, ap, sym, subst, ◌∙◌, inl, inr, Bool-cases, arith,
}
use context_store.Prelude.Int.{ℤ}
use context_store.Metadata.{BlockMeta, GcTask, same_version}
use context_store.Metadata.Redis.{Redis, Json, has, is_some, is_due}

pub data Doc : Type 0 where
  meta_doc : BlockMeta → Doc
  task_doc : GcTask → Doc
  number_doc : ℕ → Doc

abbrev pub read_meta : Doc → Option BlockMeta
read_meta (meta_doc m) = some m
read_meta (task_doc t) = none
read_meta (number_doc n) = none

abbrev pub read_task : Doc → Option GcTask
read_task (meta_doc m) = none
read_task (task_doc t) = some t
read_task (number_doc n) = none

abbrev pub read_number : Doc → Option ℕ
read_number (meta_doc m) = none
read_number (task_doc t) = none
read_number (number_doc n) = some n

abbrev pub read_generation : Doc → Option ℕ
read_generation (meta_doc m) = some m.object_generation
read_generation (task_doc t) = none
read_generation (number_doc n) = none

abbrev pub compare_docs : Doc → Doc → Option Bool
compare_docs (meta_doc a) (meta_doc b) = some (same_version a b)
compare_docs (meta_doc a) (task_doc t) = none
compare_docs (meta_doc a) (number_doc n) = none
compare_docs (task_doc t) d = none
compare_docs (number_doc n) d = none

abbrev pub make_task : List ℕ → List ℕ → Doc → ℤ → Option Doc
make_task id key (meta_doc m) not_before =
    some
      (task_doc (record { id = id; key = key; retired = m; not_before = not_before; attempts = 0 }))
make_task id key (task_doc t) not_before = none
make_task id key (number_doc n) not_before = none

abbrev generation_is : Doc → ℕ → Bool
generation_is (meta_doc m) n = m.object_generation == n
generation_is (task_doc t) n = false
generation_is (number_doc m) n = false

-- The digest of a document is its key.
abbrev pub docs : Json
docs = record {
  Doc = Doc;
  serialize = meta_doc;
  deserialize = read_meta;
  serialize_task = task_doc;
  deserialize_task = read_task;
  lua_generation = read_generation;
  lua_generation_is = generation_is;
  lua_same_version = compare_docs;
  lua_task = make_task;
  number = number_doc;
  tonumber = read_number;
  sha1hex = λ key d. key;
  deserialize_lem = λ m. refl;
  deserialize_task_lem = λ t. refl;
  lua_generation_lem = λ m h. refl;
  lua_generation_is_lem = λ m n h h'. refl;
  lua_same_version_lem = λ a b h h'. refl;
  lua_task_lem = λ id key m t h h'. (_, refl, refl);
  tonumber_lem = λ n h. refl;
}

abbrev pub find : List ℕ → List (List ℕ × Option Doc) → Option Doc
find j [] = none
find j ((k, d) ∷ ws) = if eq_bytes k j then d else find j ws

abbrev pub lookup : List ℕ → List ℕ → List (List ℕ × List ℕ × Option ℤ) → Option ℤ
lookup z i [] = none
lookup z i ((y, k, x) ∷ ws) =
    if eq_bytes y z then (if eq_bytes k i then x else lookup z i ws) else lookup z i ws

abbrev pub members : List (List ℕ × List ℕ × Option ℤ) → List (List ℕ)
members [] = []
members ((y, k, x) ∷ ws) = k ∷ members ws

abbrev pub keep : List ℕ → ℤ → List (List ℕ × List ℕ × Option ℤ) → List (List ℕ) → List (List ℕ)
keep z now ws [] = []
keep z now ws (k ∷ ks) =
    let rest = keep z now ws ks in if is_due (lookup z k ws) now then k ∷ rest else rest

has-keep :
    (z k : List ℕ) (now : ℤ) (ws : List (List ℕ × List ℕ × Option ℤ)) (ks : List (List ℕ))
    → has k (keep z now ws ks) ≡ (has k ks && is_due (lookup z k ws) now)
unfolding has
has-keep z k now ws [] = refl
has-keep z k now ws (j ∷ ks) = elim (Bool-cases (eq_bytes j k)) [
  | inr e ↦ elim (Bool-cases (is_due (lookup z j ws) now)) [
    | inl f ↦ rw (f, keep) (rw (e) (has-keep z k now ws ks))
    | inr f ↦ rw (f, keep) (rw (e) (has-keep z k now ws ks))
  ]
  | inl e ↦
      let same = ap (λ i. is_due (lookup z i ws) now) (eq_bytes→eq j k e) in
      elim (Bool-cases (is_due (lookup z j ws) now)) [
        | inl f ↦ rw (f, keep) (rw (e) (sym f ∙ same))
        | inr f ↦ rw (f, keep) (rw (e) (has-keep z k now ws ks ∙ ground (arith, same, f)))
      ]
]

has-members :
    (z k : List ℕ) (now : ℤ) (ws : List (List ℕ × List ℕ × Option ℤ))
    → is_due (lookup z k ws) now ≡ true
    → has k (members ws) ≡ true
unfolding has
has-members z k now [] h = absurd (ground arith)
has-members z k now ((y, j, x) ∷ ws) h = elim (Bool-cases (eq_bytes j k)) [
  | inl e ↦ rw (e)
  | inr e ↦ rw (e) (has-members z k now ws (rest (eq_bytes y z) e h))
]
  where
    rest :
        (b : Bool)
        → eq_bytes j k ≡ false
        → is_due (if b then (if eq_bytes j k then x else lookup z k ws) else lookup z k ws) now
          ≡ true
        → is_due (lookup z k ws) now ≡ true
    rest true e h = subst (λ c. is_due (if c then x else lookup z k ws) now ≡ true) e h
    rest false e h = h

pub record Written : Type 0 where
  pub strings : List (List ℕ × Option Doc)
  pub hashes : List (List ℕ × Option Doc)
  pub sets : List (List ℕ × List ℕ × Option ℤ)

pub range_lem :
    (z k : List ℕ) (now : ℤ) (ws : List (List ℕ × List ℕ × Option ℤ))
    → has k (keep z now ws (members ws)) ≡ is_due (lookup z k ws) now
range_lem z k now ws =
    has-keep z k now ws (members ws)
    ∙ both (has k (members ws)) (is_due (lookup z k ws) now) (has-members z k now ws)
  where
    both : (a b : Bool) → (b ≡ true → a ≡ true) → (a && b) ≡ b
    both true b h = refl
    both false true h = h refl
    both false false h = refl

abbrev pub small_redis : Redis Doc
small_redis = record {
  Store = Written;
  get = λ k s. find k s.strings;
  set = λ k d s. record s { strings = (k, some d) ∷ s.strings };
  del = λ k s. record s { strings = (k, none) ∷ s.strings };
  hget = λ k s. find k s.hashes;
  hset = λ k d s. record s { hashes = (k, some d) ∷ s.hashes };
  hdel = λ k s. record s { hashes = (k, none) ∷ s.hashes };
  score = λ z k s. lookup z k s.sets;
  zadd = λ z x k s. record s { sets = (z, k, some x) ∷ s.sets };
  zrem = λ z k s. (is_some (lookup z k s.sets), record s { sets = (z, k, none) ∷ s.sets });
  zrangebyscore = λ z now s. keep z now s.sets (members s.sets);
  get_set = λ j k d s. refl;
  get_del = λ j k s. refl;
  get_hset = λ j k d s. refl;
  get_hdel = λ j k s. refl;
  get_zadd = λ j z k x s. refl;
  get_zrem = λ j z k s. refl;
  hget_set = λ j k d s. refl;
  hget_del = λ j k s. refl;
  hget_hset = λ j k d s. refl;
  hget_hdel = λ j k s. refl;
  hget_zadd = λ j z k x s. refl;
  hget_zrem = λ j z k s. refl;
  score_set = λ z i k d s. refl;
  score_del = λ z i k s. refl;
  score_hset = λ z i k d s. refl;
  score_hdel = λ z i k s. refl;
  score_zadd = λ z i y k x s. refl;
  score_zrem = λ z i y k s. refl;
  zrem_count = λ z k s. refl;
  zrangebyscore_lem = λ z k now s. range_lem z k now s.sets;
}

abbrev pub empty_store : Written
empty_store = record { strings = []; hashes = []; sets = [] }
