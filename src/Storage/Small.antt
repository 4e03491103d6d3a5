-- ===== src/Storage/Small.antt =====
-- A small file system and a small metadata service, for the tests: what was written, the last write
-- first.
use context_store.Prelude.{
  ℕ, suc, ◌<◌, ◌^◌, Bool, true, false, ltb, if◌then◌else◌, Option, none, some, List, [], ◌∷◌,
  eq_bytes, eq_bytes_refl, eq_bytes→eq, ◌≡◌, refl, ap, sym, ◌∙◌, inl, inr, Bool-cases, arith,
}
use context_store.Prelude.Results.{Result, ok, err}
use context_store.Prelude.Actions.{eq-ok, err-ok}
use context_store.Metadata.{BlockMeta, same_version}
use context_store.Metadata.Redis.{is_some}
use context_store.Storage.Paths.{file_name}
use context_store.Storage.Executor.{KvError, io, internal, metadata, Executor, MetadataService}

abbrev pub find : {A : Type 0} → List ℕ → List (List ℕ × Option A) → Option A
find j [] = none
find j ((k, a) ∷ ws) = if eq_bytes k j then a else find j ws

abbrev pub Disk : Type 0
Disk = List (List ℕ × Option (List ℕ))

abbrev pub read : List ℕ → Disk → Result KvError (List ℕ) × Disk
read p s = ((elim (find p s) [ none ↦ err (io true) | some b ↦ ok b ]), s)

pub read_lem :
    (o : Option (List ℕ)) (b : List ℕ)
    → (elim o as (λ o. Result KvError (List ℕ)) [ none ↦ err (io true) | some b ↦ ok b ]) ≡ ok b
    → o ≡ some b
read_lem none b e = cc
read_lem (some a) b e = cc

pub find_new :
    {A : Type 0} (p : List ℕ) (a : Option A) (s : List (List ℕ × Option A))
    → find p ((p, a) ∷ s) ≡ a
find_new p a s = ap (λ b. if b then a else find p s) (eq_bytes_refl p)

pub find_other :
    {A : Type 0} (p q : List ℕ) (a : Option A) (s : List (List ℕ × Option A))
    → eq_bytes p q ≡ false
    → find q ((p, a) ∷ s) ≡ find q s
find_other p q a s e = ap (λ b. if b then a else find q s) e

abbrev pub disk : Executor
disk = record {
  Files = Disk;
  contents = find;
  touches = eq_bytes;
  read_file = read;
  write_file = λ p b s. (ok tt, (p, some b) ∷ s);
  delete_file = λ p s. (ok tt, (p, none) ∷ s);
  file_exists = λ p s. is_some (find p s);
  touches_lem = λ p q name e h. ap file_name (eq_bytes→eq p q h);
  read_ok = λ p b s e. read_lem (find p s) b e;
  read_absent = λ p s e. ap (λ o. elim o [ none ↦ err (io true) | some b ↦ ok b ]) e;
  contents_read = λ p q s. refl;
  write_ok = λ p b s e. find_new p (some b) s;
  contents_write = λ p b q s e. find_other p q (some b) s e;
  delete_ok = λ p s e. find_new p none s;
  contents_delete = λ p q s e. find_other p q none s e;
  file_exists_lem = λ p s. refl;
}

abbrev pub Book : Type 0
Book = List (List ℕ × Option BlockMeta)

abbrev pub next_of : Option BlockMeta → ℕ
next_of none = 1
next_of (some m) = suc m.object_generation

abbrev pub number : ℕ → Result KvError ℕ
number g = if ltb g (2 ^ 64) then ok g else err internal

pub number_lem : (g n : ℕ) → number g ≡ ok n → (g ≡ n) × (n < 2 ^ 64)
number_lem g n e = elim (Bool-cases (ltb g (2 ^ 64))) [
  | inl h ↦
      let same = eq-ok _ g n (ap (λ b. if b then ok g else err internal) h) e in
      (same, ground (arith, h, same))
  | inr h ↦ absurd (err-ok internal n (sym (ap (λ b. if b then ok g else err internal) h) ∙ e))
]

abbrev pub put_absent : Bool → List ℕ → BlockMeta → Book → Result KvError Bool × Book
put_absent true k m s = (ok false, s)
put_absent false k m s = (ok true, (k, some m) ∷ s)

pub absent_lem :
    (b : Bool) (k j : List ℕ) (m : BlockMeta) (s : List (List ℕ × Option BlockMeta))
    → (put_absent b k m s).0 ≡ ok true
    → find j (put_absent b k m s).1 ≡ (if eq_bytes k j then some m else find j s)
absent_lem true k j m s e = cc
absent_lem false k j m s e = refl

pub newer_lem :
    (o : Option BlockMeta) (g : ℕ) (m : BlockMeta)
    → o ≡ some m
    → number (next_of o) ≡ ok g
    → m.object_generation < g
newer_lem o g m shown e =
    let above = ap next_of shown in
    let same = (number_lem (next_of o) g e).0 in omega (arith, above, same)

abbrev pub retire_if : Bool → List ℕ → Book → Result KvError Bool × Book
retire_if true k s = (ok true, (k, none) ∷ s)
retire_if false k s = (ok false, s)

abbrev pub is_shown : Option BlockMeta → BlockMeta → Bool
is_shown none m = false
is_shown (some a) m = same_version a m

abbrev pub book : MetadataService
book = record {
  State = Book;
  visible = find;
  get_block = λ k s. (ok (find k s), s);
  replace_block = λ k m t s. (ok (find k s), (k, some m) ∷ s);
  put_block_if_absent = λ k m s. put_absent (is_some (find k s)) k m s;
  retire_block = λ k t s. (ok (find k s), (k, none) ∷ s);
  retire_block_if_matches = λ k m t s. retire_if (is_shown (find k s) m) k s;
  delete_block_if_matches = λ k m s. retire_if (is_shown (find k s) m) k s;
  next_generation = λ k s. (number (next_of (find k s)), s);
  get_block_ok = λ k m s e. eq-ok _ _ _ refl e;
  visible-get_block = λ k j s. refl;
  visible-replace_block = λ k j m t s old e. refl;
  visible-put_block_if_absent = λ k j m s e. absent_lem (is_some (find k s)) k j m s e;
  visible-next_generation = λ k j s. refl;
  next_generation_u64 = λ k g s e. (number_lem (next_of (find k s)) g e).1;
  next_generation_ok = λ k g m s shown h e. newer_lem (find k s) g m shown e;
}

-- A service that publishes nothing.
abbrev pub refusing : MetadataService
refusing = record book {
  replace_block = λ k m t s. (err metadata, s);
  visible-replace_block = λ k j m t s old e. absurd (err-ok metadata old e);
}
