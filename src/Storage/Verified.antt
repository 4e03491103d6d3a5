-- ===== src/Storage/Verified.antt =====
-- Stripes whose checksums are those of their bytes pass the check of the reads.
use context_store.Prelude.{
  ℕ, suc, true, false, if◌then◌else◌, some, List, [], ◌∷◌, length, map, concat, eq_bytes_refl, ◌≡◌,
  refl, ap, sym, subst, ◌∙◌, inl, inr, Bool-cases,
}
use context_store.Prelude.Results.{Result, ok}
use context_store.Prelude.Actions.{bind_ok}
use context_store.Metadata.{StripingInfo}
use context_store.Storage.Executor.{KvError}
use context_store.Storage.Tier.{
  Tier, World, get_nth, hex_digits, checksum_bytes, expected_stripe_checksum, verify_stripe_bytes,
  from_result,
}
use context_store.Storage.Writes.{Item, checksums}
use context_store.Storage.Reads.{check_chunks, record_read_at}
use context_store.Storage.Batches.{bytes_of, oks}

module _ (T : Tier) where
  -- The checksums, from number `i` on, of items.
  abbrev AreSummed : (List (List ℕ) → List ℕ) → List (List ℕ) → ℕ → List Item → Type 0
  AreSummed checksum sums i [] = Unit {0}
  AreSummed checksum sums i (item ∷ items) =
      (get_nth i sums ≡ some (checksum item.segments)) × AreSummed checksum sums (suc i) items

  AreSummed-shift :
      (checksum : List (List ℕ) → List ℕ) (c : List ℕ) (sums : List (List ℕ)) (i : ℕ)
      (items : List Item)
      → AreSummed checksum sums i items
      → AreSummed checksum (c ∷ sums) (suc i) items
  unfolding get_nth
  AreSummed-shift checksum c sums i [] h = tt
  AreSummed-shift checksum c sums i (item ∷ items) h =
      (h.0, AreSummed-shift checksum c sums (suc i) items h.1)

  AreSummed-all :
      (checksum : List (List ℕ) → List ℕ) (items : List Item)
      → AreSummed checksum (map (λ (i : Item). checksum i.segments) items) 0 items
  unfolding get_nth
  AreSummed-all checksum [] = tt
  AreSummed-all checksum (item ∷ items) =
      (refl, AreSummed-shift checksum _ _ 0 items (AreSummed-all checksum items))

  -- The check passes, from number `i` on.
  abbrev pub AreVerified : StripingInfo → ℕ → List Item → Type 0
  AreVerified stripe i [] = Unit {0}
  AreVerified stripe i (item ∷ items) =
      (verify_stripe_bytes T stripe i (bytes_of T item) ≡ ok tt) × AreVerified stripe (suc i) items

  module _ (checksum : List (List ℕ) → List ℕ)
      (streams : (ss : List (List ℕ)) → checksum ss ≡ checksum_bytes T (concat ss)) where
    unverified :
        (stripe : StripingInfo) (i : ℕ) (bytes : List ℕ)
        → T.verify_stripe_checksums ≡ false
        → verify_stripe_bytes T stripe i bytes ≡ ok tt
    unfolding verify_stripe_bytes expected_stripe_checksum
    unverified stripe i bytes e = rw (e, verify_stripe_bytes, expected_stripe_checksum) refl

    verified_one :
        (stripe : StripingInfo) (i : ℕ) (item : Item)
        → T.verify_stripe_checksums ≡ true
        → get_nth i stripe.chunk_checksums ≡ some (checksum item.segments)
        → verify_stripe_bytes T stripe i (bytes_of T item) ≡ ok tt
    unfolding verify_stripe_bytes expected_stripe_checksum hex_digits
    verified_one stripe i item e h =
        rw
          (
            e,
            h ∙ ap some (streams item.segments),
            verify_stripe_bytes,
            expected_stripe_checksum,
            eq_bytes_refl (checksum_bytes T (bytes_of T item)),
          )
          refl

    AreUnverified :
        (stripe : StripingInfo) (i : ℕ) (items : List Item)
        → T.verify_stripe_checksums ≡ false
        → AreVerified stripe i items
    AreUnverified stripe i [] e = tt
    AreUnverified stripe i (item ∷ items) e =
        (unverified stripe i (bytes_of T item) e, AreUnverified stripe (suc i) items e)

    AreSummed-AreVerified :
        (stripe : StripingInfo) (i : ℕ) (items : List Item)
        → T.verify_stripe_checksums ≡ true
        → AreSummed checksum stripe.chunk_checksums i items
        → AreVerified stripe i items
    AreSummed-AreVerified stripe i [] e h = tt
    AreSummed-AreVerified stripe i (item ∷ items) e h =
        (verified_one stripe i item e h.0, AreSummed-AreVerified stripe (suc i) items e h.1)

    -- The checksums that a write stores are those that a read expects.
    pub checksums-AreVerified :
        (stripe : StripingInfo) (items : List Item)
        → stripe.chunk_checksums ≡ checksums T checksum items
        → AreVerified stripe 0 items
    checksums-AreVerified stripe items e = elim (Bool-cases T.verify_stripe_checksums) [
      | inl h ↦ AreSummed-AreVerified stripe 0 items h (
          subst (λ sums. AreSummed checksum sums 0 items)
            (sym (e ∙ ap (λ b. if b then map (λ (i : Item). checksum i.segments) items else []) h))
            (AreSummed-all checksum items))
      | inr h ↦ AreUnverified stripe 0 items h
    ]

  from_result_ok :
      {A : Type 0} (r : Result KvError A) (a : A) (w : World T)
      → r ≡ ok a
      → from_result T r w ≡ (ok a, w)
  unfolding from_result
  from_result_ok r a w e = ap (λ r'. (r', w)) e

  -- Chunks that pass the check are returned.
  pub check_chunks_ok :
      (stripe : StripingInfo) (i : ℕ) (items : List Item) (w : World T)
      → AreVerified stripe i items
      → (w' : World T) × (check_chunks T stripe i (oks T (λ g. g) (map (bytes_of T) items)) w
          ≡ (ok (map (bytes_of T) items), w'))
  unfolding check_chunks
  check_chunks_ok stripe i [] w h = (w, refl)
  check_chunks_ok stripe i (item ∷ items) w h =
      let w₁ = record_read_at T (get_nth i stripe.chunk_devices) (length (bytes_of T item)) w in
      let (w', e) = check_chunks_ok stripe (suc i) items w₁ h.1 in
      (w', bind_ok _ _ refl ∙ bind_ok _ _ (from_result_ok _ _ w₁ h.0) ∙ bind_ok _ _ e ∙ refl)
