-- ===== src/Storage/Cuts.antt =====
-- The stripes of an object are its bytes, cut at the multiples of the chunk size.
use context_store.Prelude.{
  ℕ, zero, suc, ◌+◌, ◌-◌, ◌*◌, ◌≤◌, ◌<◌, ◌==◌, ◌&&◌, ltb, List, [], ◌∷◌, ◌++◌, length, take, drop,
  concat, map, ◌≡◌, refl, ap, ap₂, sym, ◌∙◌, arith, inl, inr, Bool-cases, take-append, drop-append,
  take_all, drop_all, take-append_past, drop-append_past, take-append-drop, drop-drop, length-drop,
  append-nil,
}
use context_store.Storage.Stripes.{min, Filled, piece, fill, bucket, n_stripes, stripes_of, slices}

-- The bytes that the loop has still to place.
abbrev pub left : ℕ → List (List ℕ) → List ℕ
left cur_offset [] = []
left cur_offset (seg ∷ segments) = drop cur_offset seg ++ concat segments

abbrev pub IsInside : ℕ → List (List ℕ) → Type 0
IsInside cur_offset [] = Unit {0}
IsInside cur_offset (seg ∷ segments) = cur_offset ≤ length seg

left_zero : (segments : List (List ℕ)) → left 0 segments ≡ concat segments
left_zero [] = refl
left_zero (seg ∷ segments) = refl

IsInside-zero : (segments : List (List ℕ)) → IsInside 0 segments
IsInside-zero [] = tt
IsInside-zero (seg ∷ segments) = omega arith

piece_lem :
    (cur_offset taken : ℕ) (seg : List ℕ)
    → piece cur_offset taken seg ≡ take taken (drop cur_offset seg)
piece_lem cur_offset taken seg = elim (Bool-cases (taken == length seg && cur_offset == 0)) [
  | inl e ↦
      let a : taken ≡ length seg = ground arith in
      let b : cur_offset ≡ 0 = ground arith in
      rw e (sym (ap (λ k. take taken (drop k seg)) b ∙ take_all taken seg (omega (arith, a))))
  | inr e ↦ rw e refl
]

-- What one stripe takes.
pub record IsFilled (need cur_offset : ℕ) (segments : List (List ℕ)) (f : Filled) : Type 0 where
  pub taken : concat f.pieces ≡ take need (left cur_offset segments)
  pub remains : left f.cur_offset f.rest ≡ drop need (left cur_offset segments)
  pub inside : IsInside f.cur_offset f.rest

module _ (need cur_offset : ℕ) (seg : List ℕ) (segments : List (List ℕ)) where
  -- A segment that is used up.
  through :
      (t : ℕ) (f : Filled)
      → t ≤ need
      → cur_offset + t ≡ length seg
      → IsFilled (need - t) 0 segments f
      → IsFilled need cur_offset
          (seg ∷ segments)
          (record f { pieces = piece cur_offset t seg ∷ f.pieces })
  through t f h e ih =
      let len : length (drop cur_offset seg) ≡ t = omega (arith, length-drop cur_offset seg, e) in
      let rest = ap (λ (k : ℕ). need - k) len in
      record {
        taken =
            ap (λ ys. piece cur_offset t seg ++ ys)
              (ih.taken ∙ ap (take (need - t)) (left_zero segments))
            ∙ ap (λ xs. xs ++ take (need - t) (concat segments))
                (piece_lem cur_offset t seg ∙ take_all t (drop cur_offset seg) (omega (arith, len)))
            ∙ ap (λ k. drop cur_offset seg ++ take k (concat segments)) (sym rest)
            ∙ sym (
                take-append_past need (drop cur_offset seg) (concat segments)
                  (omega (arith, len, h)));
        remains =
            ih.remains
            ∙ ap (drop (need - t)) (left_zero segments)
            ∙ ap (λ k. drop k (concat segments)) (sym rest)
            ∙ sym (
                drop-append_past need (drop cur_offset seg) (concat segments)
                  (omega (arith, len, h)));
        inside = ih.inside;
      }

  -- A segment that is longer than what the stripe needs.
  within :
      cur_offset + need ≤ length seg
      → IsFilled need cur_offset (seg ∷ segments) (record {
        pieces = piece cur_offset need seg ∷ [];
        cur_offset = cur_offset + need;
        rest = seg ∷ segments;
      })
  within h =
      let len : need ≤ length (drop cur_offset seg) =
        omega (arith, length-drop cur_offset seg, h) in
      record {
        taken =
            append-nil (piece cur_offset need seg)
            ∙ piece_lem cur_offset need seg
            ∙ sym (take-append need (drop cur_offset seg) (concat segments) len);
        remains =
            ap (λ xs. xs ++ concat segments) (sym (drop-drop need cur_offset seg))
            ∙ sym (drop-append need (drop cur_offset seg) (concat segments) len);
        inside = h;
      }

pub fill-IsFilled :
    (need cur_offset : ℕ) (segments : List (List ℕ))
    → IsInside cur_offset segments
    → IsFilled need cur_offset segments (fill need cur_offset segments)
unfolding fill
fill-IsFilled need cur_offset [] h = record {
  taken = sym (take_all need [] (omega arith));
  remains = sym (drop_all need [] (omega arith));
  inside = tt;
}
fill-IsFilled need cur_offset (seg ∷ segments) h =
    let t = min (length seg - cur_offset) need in
    let ih = fill-IsFilled (need - t) 0 segments (IsInside-zero segments) in
    elim (Bool-cases (need == 0)) [
      | inl e ↦
          let z : need ≡ 0 = ground arith in
          rw (e, fill)
            (record {
              taken = ap (λ k. take k (left cur_offset (seg ∷ segments))) (sym z);
              remains = ap (λ k. drop k (left cur_offset (seg ∷ segments))) (sym z);
              inside = h;
            })
      | inr e ↦ elim (Bool-cases (cur_offset + t == length seg)) [
        | inl whole ↦
            rw (e, whole, fill)
              (through need cur_offset seg segments t (fill (need - t) 0 segments) (ground arith)
                (ground arith) ih)
        | inr part ↦
            let all : t ≡ need = ground arith in
            rw (e, part, fill) (rw all (within need cur_offset seg segments (ground arith)))
      ]
    ]

-- The bytes from `start` to `end`.
abbrev pub range : ℕ → ℕ → List ℕ → List ℕ
range start end bytes = take (end - start) (drop start bytes)

-- Behind one stripe the next one starts.
next_start :
    (chunk_size i : ℕ) (bytes : List ℕ)
    → drop
        (min (i * chunk_size + chunk_size) (length bytes) - i * chunk_size)
        (drop (i * chunk_size) bytes)
      ≡ drop (suc i * chunk_size) bytes
next_start chunk_size i bytes =
    elim (Bool-cases (ltb (i * chunk_size + chunk_size) (length bytes))) [
      | inl e ↦
          let all : i * chunk_size
                + (min (i * chunk_size + chunk_size) (length bytes) - i * chunk_size)
              ≡ suc i * chunk_size =
            ground arith in
          drop-drop _ (i * chunk_size) bytes ∙ ap (λ k. drop k bytes) all
      | inr e ↦
          drop-drop _ (i * chunk_size) bytes
          ∙ drop_all _ bytes (ground arith)
          ∙ sym (drop_all (suc i * chunk_size) bytes (ground arith))
    ]

-- The loop over the stripes cuts at the multiples of the chunk size, wherever the segments end.
bucket_lem :
    (chunk_size count i cur_offset : ℕ) (bytes : List ℕ) (segments : List (List ℕ))
    → IsInside cur_offset segments
    → left cur_offset segments ≡ drop (i * chunk_size) bytes
    → map concat (bucket chunk_size (length bytes) count i cur_offset segments)
      ≡ slices chunk_size bytes count i
unfolding bucket slices
bucket_lem chunk_size zero i cur_offset bytes segments h e = refl
bucket_lem chunk_size (suc count) i cur_offset bytes segments h e =
    let need = min (i * chunk_size + chunk_size) (length bytes) - i * chunk_size in
    let f = fill-IsFilled need cur_offset segments h in
    ap₂ (λ x xs. x ∷ xs) (f.taken ∙ ap (take need) e)
      (bucket_lem chunk_size count (suc i) _ bytes _ f.inside
        (f.remains ∙ ap (drop need) e ∙ next_start chunk_size i bytes))

-- The slices from number `i` on are what is left of the bytes.
slices_lem :
    (chunk_size count i : ℕ) (bytes : List ℕ)
    → length bytes ≤ (i + count) * chunk_size
    → concat (slices chunk_size bytes count i) ≡ drop (i * chunk_size) bytes
unfolding slices
slices_lem chunk_size zero i bytes h = sym (drop_all (i * chunk_size) bytes (ground arith))
slices_lem chunk_size (suc count) i bytes h =
    ap
      (λ ys.
        take (min (i * chunk_size + chunk_size) (length bytes) - i * chunk_size)
          (drop (i * chunk_size) bytes)
        ++ ys)
      (slices_lem chunk_size count (suc i) bytes (ground arith)
        ∙ sym (next_start chunk_size i bytes))
    ∙ take-append-drop _ (drop (i * chunk_size) bytes)

enough :
    (chunk_size total : ℕ) → 0 < chunk_size → total ≤ (0 + n_stripes chunk_size total) * chunk_size
enough chunk_size total h = grind arith

-- Whatever the segments of an object are, its stripes are the slices of its bytes at the multiples of
-- the chunk size, as when the bytes come in one piece, and together they are the bytes: nothing is
-- lost, doubled or moved. The chunk size is not zero.
pub stripes_of_lem :
    (chunk_size : ℕ) (segments : List (List ℕ))
    → 0 < chunk_size
    → (map concat (stripes_of chunk_size (length (concat segments)) segments)
        ≡ slices chunk_size (concat segments) (n_stripes chunk_size (length (concat segments))) 0)
      × (concat (map concat (stripes_of chunk_size (length (concat segments)) segments))
          ≡ concat segments)
unfolding stripes_of
stripes_of_lem chunk_size segments h =
    let bytes = concat segments in
    let zero_start : drop (0 * chunk_size) bytes ≡ bytes =
      (let z : 0 * chunk_size ≡ 0 = omega arith in ap (λ k. drop k bytes) z) in
    let cut =
      bucket_lem chunk_size (n_stripes chunk_size (length bytes)) 0 0 bytes segments
        (IsInside-zero segments) (left_zero segments ∙ sym zero_start) in
    (
      cut,
      ap concat cut
          ∙ slices_lem chunk_size (n_stripes chunk_size (length bytes)) 0 bytes
              (enough chunk_size (length bytes) h)
          ∙ zero_start,
    )
