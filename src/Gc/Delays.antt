-- ===== src/Gc/Delays.antt =====
-- When a task that failed is tried again.
use context_store.Prelude.{
  ℕ, zero, suc, ◌*◌, ◌^◌, ◌≤◌, ◌<◌, true, false, ltb, ◌≡◌, ap, sym, subst, arith, ◌⊎◌, inl, inr,
  Bool-cases, ◌-◌,
}
use context_store.Prelude.Int.{ℤ, pos, negsuc, ◌+ℤ◌, ◌≤ℤ◌, fits_i64, checked_add}
use context_store.Metadata.{GcTask}
use context_store.Gc.{retry_delay, delayed, saturating_add, min}

small : (n : ℕ) → (n < 6) ⊎ (6 ≤ n)
small n = elim (Bool-cases (ltb n 6)) [ inl e ↦ inl (ground arith) | inr e ↦ inr (ground arith) ]

min_six : (n : ℕ) → 6 ≤ n → min n 6 ≡ 6
min_six n h = ground (arith, h)

retry_delay_late : (n : ℕ) → 6 ≤ n → retry_delay n ≡ 300
unfolding retry_delay
retry_delay_late n h = ap (λ m. min (5 * 2 ^ m) 300) (min_six n h)

retry_delay_small :
    (n : ℕ)
    → n < 6
    → (5 ≤ retry_delay n) × (retry_delay n ≤ 300) × (retry_delay n ≤ retry_delay (suc n))
unfolding retry_delay
retry_delay_small zero h = (omega arith, omega arith, omega arith)
retry_delay_small (suc zero) h = (omega arith, omega arith, omega arith)
retry_delay_small (suc (suc zero)) h = (omega arith, omega arith, omega arith)
retry_delay_small (suc (suc (suc zero))) h = (omega arith, omega arith, omega arith)
retry_delay_small (suc (suc (suc (suc zero)))) h = (omega arith, omega arith, omega arith)
retry_delay_small (suc (suc (suc (suc (suc zero))))) h = (omega arith, omega arith, omega arith)
retry_delay_small (suc (suc (suc (suc (suc (suc n)))))) h = absurd (omega arith)

-- The delays in seconds grow with the attempts and stay below five minutes.
retry_delay_lem :
    (n : ℕ) → (5 ≤ retry_delay n) × (retry_delay n ≤ 300) × (retry_delay n ≤ retry_delay (suc n))
retry_delay_lem n = elim (small n) [
  | inl h ↦ retry_delay_small n h
  | inr h ↦
      let e = retry_delay_late n h in
      let f = retry_delay_late (suc n) (omega (arith, h)) in
      (omega (arith, e), omega (arith, e), omega (arith, e, f))
]

ten : 10 ≤ retry_delay 1
unfolding retry_delay
ten = omega arith

retry_delay_ten : (n : ℕ) → 1 ≤ n → 10 ≤ retry_delay n
retry_delay_ten zero h = absurd (omega (arith, h))
retry_delay_ten (suc zero) h = ten
retry_delay_ten (suc (suc n)) h =
    omega (arith, retry_delay_ten (suc n) (omega arith), (retry_delay_lem (suc n)).2)

saturating_add_lem :
    (a : ℤ) (d : ℕ)
    → fits_i64 a ≡ true
    → d < 2 ^ 62
    → (fits_i64 (saturating_add a (pos d)) ≡ true)
      × (a ≤ℤ saturating_add a (pos d))
      × (saturating_add a (pos d) ≤ℤ a +ℤ pos d)
      × (fits_i64 (a +ℤ pos d) ≡ true → saturating_add a (pos d) ≡ a +ℤ pos d)
unfolding saturating_add checked_add ◌+ℤ◌
saturating_add_lem (pos n) d h g = ground (arith, h, g)
saturating_add_lem (negsuc n) d h g = ground (arith, h, g)

attempts_positive : (n : ℕ) → 1 ≤ min (suc n) (2 ^ 32 - 1)
attempts_positive n = ground arith

le_trans_pos : (a : ℤ) (m n : ℕ) → m ≤ n → a +ℤ pos m ≤ℤ a +ℤ pos n
unfolding ◌+ℤ◌
le_trans_pos (pos x) m n h = ground (arith, h)
le_trans_pos (negsuc x) m n h = ground (arith, h)

le_trans : (a b c : ℤ) → a ≤ℤ b → b ≤ℤ c → a ≤ℤ c
le_trans a b c h h' = omega (arith, h, h')

fits_below :
    (a : ℤ) (m n : ℕ)
    → m ≤ n
    → fits_i64 a ≡ true
    → fits_i64 (a +ℤ pos n) ≡ true
    → fits_i64 (a +ℤ pos m) ≡ true
unfolding ◌+ℤ◌
fits_below (pos x) m n h f g = ground (arith, h, f, g)
fits_below (negsuc x) m n h f g = ground (arith, h, f, g)

-- If the clock is an `i64`, the next attempt is not before now and at most five minutes later, and it
-- is at least ten seconds later unless the clock is within five minutes of the end of `i64`.
pub delayed_lem :
    (now : ℤ) (task : GcTask)
    → fits_i64 now ≡ true
    → (now ≤ℤ (delayed now task).not_before)
      × ((delayed now task).not_before ≤ℤ now +ℤ pos 300)
      × ((now +ℤ pos 10 ≤ℤ (delayed now task).not_before) ⊎ (fits_i64 (now +ℤ pos 300) ≡ false))
unfolding delayed
delayed_lem now task h =
    let n = min (suc task.attempts) (2 ^ 32 - 1) in
    let (five, most, grows) = retry_delay_lem n in
    let (fits, above, below, exact) =
      saturating_add_lem now (retry_delay n) h (omega (arith, most)) in
    (
      above,
      le_trans (saturating_add now (pos (retry_delay n))) (now +ℤ pos (retry_delay n))
          (now +ℤ pos 300) below (le_trans_pos now (retry_delay n) 300 most),
      elim (Bool-cases (fits_i64 (now +ℤ pos 300))) [
        | inr f ↦ inr f
        | inl f ↦ inl (
            subst (λ t. now +ℤ pos 10 ≤ℤ t)
              (sym (exact (fits_below now (retry_delay n) 300 most h f)))
              (le_trans_pos now 10 (retry_delay n)
                (retry_delay_ten n (attempts_positive task.attempts))))
      ],
    )
