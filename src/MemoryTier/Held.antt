-- ===== src/MemoryTier/Held.antt =====
-- The bytes of the entries of segments, and that every such entry records how many it holds.
use context_store.Prelude.{
  ℕ, ◌%◌, ◌^◌, some, List, [], ◌∷◌, length, length-append, concat, All, eq_bytes, ◌≡◌, refl, sym,
  subst, arith, inl, inr, Bool-cases, Option-cases,
}
use context_store.Metadata.{BlockMeta}
use context_store.MemoryTier.{ChunksCacheEntry, chunks_len}
use context_store.MemoryTier.Lru.{find, remove, touch}
use context_store.MemoryTier.Entries.{total, All-init, All-remove}
use context_store.MemoryTier.Account.{IsStored}
use context_store.MemoryTier.Objects.{total_len}

-- The number of bytes in the segments of an entry, as a `u64`.
abbrev pub held : ChunksCacheEntry → ℕ
held e = length (concat e.segments) % 2 ^ 64

total_len_lem : (segments : List (List ℕ)) → total_len segments ≡ length (concat segments) % 2 ^ 64
unfolding total_len
total_len_lem [] = refl
total_len_lem (s ∷ segments) =
    omega (arith, total_len_lem segments, length-append {0} s (concat segments))

-- Every entry records the number of its bytes.
abbrev pub AllSized : List (List ℕ × ChunksCacheEntry) → Type 0
AllSized es = All (λ e. chunks_len e.1 ≡ held e.1) es

pub total-AllSized :
    (es : List (List ℕ × ChunksCacheEntry)) → AllSized es → total chunks_len es ≡ total held es
total-AllSized [] h = refl
total-AllSized (e ∷ es) h = omega (arith, h.0, total-AllSized es h.1)

find-AllSized :
    (k : List ℕ) (e : ChunksCacheEntry) (es : List (List ℕ × ChunksCacheEntry))
    → AllSized es
    → find k es ≡ some e
    → chunks_len e ≡ held e
unfolding find
find-AllSized k e [] h f = absurd (cc)
find-AllSized k e ((j, d) ∷ es) h f = elim (Bool-cases (eq_bytes j k)) [
  | inl same ↦ subst (λ x. chunks_len x ≡ held x) (found d e (rw (same, find) at f)) h.0
  | inr other ↦ find-AllSized k e es h.1 (rw (other, find) at f)
]
  where
    found : (a b : ChunksCacheEntry) → some a ≡ some b → a ≡ b
    found a b p = cc

pub touch-AllSized :
    (k : List ℕ) (es : List (List ℕ × ChunksCacheEntry)) → AllSized es → AllSized (touch k es)
unfolding touch
touch-AllSized k es h = elim (Option-cases (find k es)) [
  | inl e ↦ rw (e, touch) h
  | inr (v, e) ↦
      rw (e, touch) (find-AllSized k v es h e, All-remove (λ x. chunks_len x.1 ≡ held x.1) k es h)
]

-- A new entry that records its bytes in front of what is left of the others.
stored-AllSized :
    {capacity other : ℕ} {key : List ℕ} {entry : ChunksCacheEntry}
    {before after : List (List ℕ × ChunksCacheEntry)}
    → IsStored chunks_len capacity other key entry before after
    → chunks_len entry ≡ held entry
    → AllSized before
    → AllSized after
stored-AllSized {key = key} {entry = entry} {before = before} i p h =
    subst AllSized (sym i.stored) (
      p,
      All-init (λ x. chunks_len x.1 ≡ held x.1) i.rest i.trimmed.gone
          (subst AllSized i.trimmed.split
            (All-remove (λ x. chunks_len x.1 ≡ held x.1) key before h)),
    )

pub insert-AllSized :
    {capacity other : ℕ} {key : List ℕ} {meta : BlockMeta}
    {before after : List (List ℕ × ChunksCacheEntry)} (segments : List (List ℕ))
    → IsStored chunks_len capacity other key
        (record { segments = segments; meta = meta; total_size = total_len segments })
        before
        after
    → AllSized before
    → AllSized after
insert-AllSized segments i h = stored-AllSized i (total_len_lem segments) h

pub remove-AllSized :
    (k : List ℕ) (es : List (List ℕ × ChunksCacheEntry)) → AllSized es → AllSized (remove k es)
remove-AllSized k es h = All-remove (λ x. chunks_len x.1 ≡ held x.1) k es h
