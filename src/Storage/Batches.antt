-- ===== src/Storage/Batches.antt =====
-- Batches of stripes that are answered: each file has the bytes of its stripe afterwards, and reading
-- the files gives the bytes of the stripes.
use context_store.Prelude.{
  ℕ, suc, ◌+◌, ◌^◌, ◌<◌, false, none, some, List, [], ◌∷◌, ◌++◌, length, map, concat, All, ◌≡◌,
  refl, ap, ap₂, sym, ◌∙◌, subst, arith, inl, inr, Option-cases,
}
use context_store.Prelude.Results.{Result, ok}
use context_store.Prelude.Actions.{bind_ok, bind_inv, eq-ok, or_raise_inv}
use context_store.Router.{ObjectKey}
use context_store.Router.Files.{object_digest, file_path, version_part, chunk_versioned_path}
use context_store.Storage.Paths.{has_slash}
use context_store.Storage.Executor.{KvError}
use context_store.Storage.Tier.{Tier, World, to_string_lossy, record_device_write, file_size}
use context_store.Storage.Writes.{Item, place, write_batch_vectored, check_writes}
use context_store.Storage.Reads.{read_aligned_batch}
use context_store.Storage.Apart.{IsFile, stripes_apart, name_end}
use context_store.Storage.Names.{none-some}
use context_store.Storage.ReadBack.{some_cancel}
use context_store.Storage.Keeps.{ItemsApart, write_batch_keeps}

cons_cancel : {A : Type 0} (x y : A) (xs ys : List A) → x ∷ xs ≡ y ∷ ys → (x ≡ y) × (xs ≡ ys)
cons_cancel x y xs ys e = let head : x ≡ y = cc in let tail : xs ≡ ys = cc in (head, tail)

nil-cons : {A : Type 0} (x : A) (xs : List A) → [] ≡ x ∷ xs → ⊥
nil-cons x xs e = cc

module _ (T : Tier) where
  abbrev pub bytes_of : Item → List ℕ
  bytes_of i = concat i.segments

  -- Each file has its bytes.
  abbrev pub Holds : T.executor.Files → List Item → Type 0
  Holds files items = All (λ (i : Item). T.executor.contents i.path files ≡ some (bytes_of i)) items

  -- No file is that of an earlier stripe.
  abbrev pub AreDistinct : List Item → Type 0
  AreDistinct [] = Unit {0}
  AreDistinct (item ∷ items) = ItemsApart T item.path none items × AreDistinct items

  abbrev pub oks : {A B : Type 0} → (A → B) → List A → List (Result KvError B)
  oks f [] = []
  oks f (a ∷ rest) = ok (f a) ∷ oks f rest

  pub write_batch-Holds :
      (items : List Item) (files : T.executor.Files)
      → AreDistinct items
      → (write_batch_vectored T items files).0 ≡ oks (λ i. tt) items
      → Holds (write_batch_vectored T items files).1 items
  unfolding write_batch_vectored
  write_batch-Holds [] files h e = tt
  write_batch-Holds (item ∷ items) files h e =
      let (first, rest) = cons_cancel _ _ _ _ e in
      (
        write_batch_keeps T item.path none items
              (T.executor.write_file item.path (bytes_of item) files).1 h.0
            ∙ T.executor.write_ok item.path (bytes_of item) files first,
        write_batch-Holds items _ h.1 rest,
      )

  kept_by_read :
      (p : List ℕ) (items : List Item) (files : T.executor.Files)
      → Holds files items
      → Holds (T.executor.read_file p files).1 items
  kept_by_read p [] files h = tt
  kept_by_read p (item ∷ items) files h =
      (T.executor.contents_read p item.path files ∙ h.0, kept_by_read p items files h.1)

  pub read_batch_lem :
      (items : List Item) (files : T.executor.Files) (got : List (List ℕ))
      → Holds files items
      → (read_aligned_batch T (map (λ (i : Item). i.path) items) files).0 ≡ oks (λ g. g) got
      → got ≡ map bytes_of items
  unfolding read_aligned_batch
  read_batch_lem [] files [] h e = refl
  read_batch_lem [] files (g ∷ got) h e = absurd (nil-cons _ _ e)
  read_batch_lem (item ∷ items) files [] h e = absurd (nil-cons _ _ (sym e))
  read_batch_lem (item ∷ items) files (g ∷ got) h e =
      let (first, rest) = cons_cancel _ _ _ _ e in
      ap₂ (λ x xs. x ∷ xs)
        (some_cancel _ _ (sym (T.executor.read_ok item.path g files first) ∙ h.0))
        (read_batch_lem items (T.executor.read_file item.path files).1 got
          (kept_by_read item.path items files h.1) rest)

  -- Writes that are answered are only counted.
  pub check_writes_ok :
      (written : List (List ℕ)) (items : List Item) (w : World T)
      → (w' : World T) × (check_writes T written items (oks (λ i. tt) items) w ≡ (ok tt, w'))
        × (w'.files ≡ w.files)
        × (w'.metadata ≡ w.metadata)
  unfolding check_writes
  check_writes_ok written [] w = (w, refl, refl, refl)
  check_writes_ok written (item ∷ items) w =
      let (w', e, files, metadata') =
        check_writes_ok (written ++ (item.path ∷ [])) items
          (record_device_write T item.device (file_size T item.path w) w) in
      (w', bind_ok _ _ refl ∙ e, files, metadata')

  module _ (key : ObjectKey) (plain : has_slash (object_digest T.digest key) ≡ false)
      (g l : ℕ) where
    -- The stripes from number `i` on, in the files of the version.
    abbrev pub ArePlaced : ℕ → List (List (List ℕ)) → List Item → Type 0
    ArePlaced i [] [] = Unit {0}
    ArePlaced i [] (item ∷ items) = ⊥
    ArePlaced i (segments ∷ stripes) [] = ⊥
    ArePlaced i (segments ∷ stripes) (item ∷ items) =
        (item.segments ≡ segments)
        × IsFile T key plain item.path g l (some i)
        × ArePlaced (suc i) stripes items

    chunk_file :
        (i device : ℕ) (p : List ℕ)
        → to_string_lossy T
            (file_path T.digest T.router key device (version_part g l (name_end (some i))))
          ≡ some p
        → IsFile T key plain p g l (some i)
    chunk_file i device p e =
        elim (Option-cases
          (file_path T.digest T.router key device (version_part g l (name_end (some i))))) [
            | inl h ↦ absurd (none-some p (ap (to_string_lossy T) (sym h) ∙ e))
            | inr (names, h) ↦ record {
              device = device;
              names = names;
              named = h;
              joined = some_cancel _ _ (sym e ∙ ap (to_string_lossy T) h);
            }
          ]

    -- Later stripes are in other files.
    later_apart :
        (p : List ℕ) (k i : ℕ) (stripes : List (List (List ℕ))) (items : List Item)
        → IsFile T key plain p g l (some k)
        → k < i
        → i + length stripes < 2 ^ 64
        → g < 2 ^ 64
        → l < 2 ^ 64
        → ArePlaced i stripes items
        → ItemsApart T p none items
    later_apart p k i [] [] h lt bound hg hl placed = tt
    later_apart p k i [] (item ∷ items) h lt bound hg hl placed = absurd placed
    later_apart p k i (s ∷ stripes) [] h lt bound hg hl placed = absurd placed
    later_apart p k i (s ∷ stripes) (item ∷ items) h lt bound hg hl placed = (
      stripes_apart T key plain item.path p g l i k placed.1 h hg hl (omega arith) (omega arith)
          (λ e. ground (arith, lt, e)),
      later_apart p k (suc i) stripes items h (omega arith) (omega arith) hg hl placed.2,
    )

    pub ArePlaced-AreDistinct :
        (i : ℕ) (stripes : List (List (List ℕ))) (items : List Item)
        → i + length stripes < 2 ^ 64
        → g < 2 ^ 64
        → l < 2 ^ 64
        → ArePlaced i stripes items
        → AreDistinct items
    ArePlaced-AreDistinct i [] [] bound hg hl placed = tt
    ArePlaced-AreDistinct i [] (item ∷ items) bound hg hl placed = absurd placed
    ArePlaced-AreDistinct i (s ∷ stripes) [] bound hg hl placed = absurd placed
    ArePlaced-AreDistinct i (s ∷ stripes) (item ∷ items) bound hg hl placed = (
      later_apart item.path i (suc i) stripes items placed.1 (omega arith) (omega arith) hg hl
          placed.2,
      ArePlaced-AreDistinct (suc i) stripes items (omega arith) hg hl placed.2,
    )

    pub ArePlaced-segments :
        (i : ℕ) (stripes : List (List (List ℕ))) (items : List Item)
        → ArePlaced i stripes items
        → map bytes_of items ≡ map concat stripes
    ArePlaced-segments i [] [] placed = refl
    ArePlaced-segments i [] (item ∷ items) placed = absurd placed
    ArePlaced-segments i (s ∷ stripes) [] placed = absurd placed
    ArePlaced-segments i (s ∷ stripes) (item ∷ items) placed =
        ap₂ (λ x xs. x ∷ xs) (ap concat placed.0)
          (ArePlaced-segments (suc i) stripes items placed.2)

    pub place-ArePlaced :
        (i : ℕ) (stripes : List (List (List ℕ))) (w : World T) (items : List Item)
        → (place T key g l i stripes w).0 ≡ ok items
        → ArePlaced i stripes items
    unfolding place chunk_versioned_path
    place-ArePlaced i [] w items e = subst (ArePlaced i []) (eq-ok _ _ items refl e) tt
    place-ArePlaced i (segments ∷ stripes) w items e =
        let (device, here, e₁) = bind_inv _ _ w items e in
        let (p, there, e₂) = bind_inv _ _ _ items e₁ in
        let (rest, behind, e₃) = bind_inv _ _ _ items e₂ in
        subst (ArePlaced i (segments ∷ stripes)) (eq-ok _ _ items refl e₃) (
          refl,
          chunk_file i device p (or_raise_inv _ _ _ p there),
          place-ArePlaced (suc i) stripes _ rest behind,
        )
