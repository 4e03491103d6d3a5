-- ===== src/Router/Decimal.antt =====
-- Decimal numbers as text: `format!("{}", n)` and `str::parse::<usize>`.
use context_store.Prelude.{
  ℕ, zero, suc, ◌+◌, ◌-◌, ◌*◌, ◌/◌, ◌%◌, ◌^◌, ◌<◌, ◌≤◌, ◌&&◌, Option, none, some, List, [], ◌∷◌,
  ◌++◌, ltb, leb, ◌==◌, if◌then◌else◌, ◌≡◌, refl, arith, All, inl, inr, Bool-cases, ltb→lt, ◌∙◌,
  subst,
}

-- The digits of `n`, with fuel.
unfoldable pub show_digits : ℕ → ℕ → List ℕ
show_digits zero n = (48 + n % 10) ∷ []
show_digits (suc fuel) n =
    let before = show_digits fuel (n / 10) in
    if ltb n 10 then (48 + n) ∷ [] else before ++ (48 + n % 10) ∷ []

unfoldable pub show : ℕ → List ℕ
unfolding show_digits
show n = show_digits n n

-- Each digit is checked, and so is the value that it leads to.
unfoldable pub push_digit : ℕ → ℕ → Option ℕ
push_digit acc b =
    let v = acc * 10 + (b - 48) in
    if leb 48 b && leb b 57 then (if ltb v (2 ^ 64) then some v else none) else none

unfoldable pub parse_digits : ℕ → List ℕ → Option ℕ
unfolding push_digit
parse_digits acc [] = some acc
parse_digits acc (b ∷ bytes) = elim (push_digit acc b) [
  | none ↦ none
  | some v ↦ parse_digits v bytes
]

-- A leading `+` is taken; there must be a digit.
unfoldable pub parse_sign : ℕ → List ℕ → Option ℕ
unfolding parse_digits
parse_sign b [] = if b == 43 then none else parse_digits 0 (b ∷ [])
parse_sign b (c ∷ bytes) =
    if b == 43 then parse_digits 0 (c ∷ bytes) else parse_digits 0 (b ∷ c ∷ bytes)

unfoldable pub parse : List ℕ → Option ℕ
unfolding parse_sign
parse [] = none
parse (b ∷ bytes) = parse_sign b bytes

abbrev pub IsDigit : ℕ → Type 0
IsDigit b = (48 ≤ b) × (b ≤ 57)

pub All-append {ℓ κ} :
    {A : Type ℓ} (P : A → Type κ) (xs ys : List A) → All P xs → All P ys → All P (xs ++ ys)
All-append P [] ys h k = k
All-append P (x ∷ xs) ys h k = (h.0, All-append P xs ys h.1 k)

digits_All : (fuel n : ℕ) → All IsDigit (show_digits fuel n)
unfolding show_digits
digits_All zero n = ((omega arith, omega arith), tt)
digits_All (suc fuel) n = elim (Bool-cases (ltb n 10)) [
  | inl e ↦ rw e ((omega arith, omega (arith, ltb→lt n 10 e)), tt)
  | inr e ↦ rw e (
      All-append IsDigit (show_digits fuel (n / 10)) _ (digits_All fuel (n / 10))
        ((omega arith, omega arith), tt))
]

-- A number is written with digits only.
pub show-All : (n : ℕ) → All IsDigit (show n)
unfolding show
show-All n = digits_All n n

after_digit :
    (o : Option ℕ) (v b : ℕ) (bytes : List ℕ)
    → ((w : ℕ) → parse_digits w bytes ≡ some v → parse_digits w (bytes ++ b ∷ []) ≡ push_digit v b)
    → (elim o [ none ↦ none | some w ↦ parse_digits w bytes ]) ≡ some v
    → (elim o [ none ↦ none | some w ↦ parse_digits w (bytes ++ b ∷ []) ]) ≡ push_digit v b
after_digit none v b bytes ih h = ground arith
after_digit (some w) v b bytes ih h = ih w h

parse_digits-append :
    (acc v b : ℕ) (bytes : List ℕ)
    → parse_digits acc bytes ≡ some v
    → parse_digits acc (bytes ++ b ∷ []) ≡ push_digit v b
unfolding parse_digits
parse_digits-append acc v b [] h = ground arith
parse_digits-append acc v b (c ∷ bytes) h =
    after_digit (push_digit acc c) v b bytes (λ w. parse_digits-append w v b bytes) h

parse_digits-show :
    (fuel n : ℕ) → n ≤ fuel → n < 2 ^ 64 → parse_digits 0 (show_digits fuel n) ≡ some n
unfolding show_digits parse_digits push_digit
parse_digits-show zero n h k = ground arith
parse_digits-show (suc fuel) n h k = elim (Bool-cases (ltb n 10)) [
  | inl e ↦ rw e (ground arith)
  | inr e ↦
      rw
        (
          e,
          parse_digits-append 0 (n / 10) (48 + n % 10) (show_digits fuel (n / 10))
              (parse_digits-show fuel (n / 10) (omega arith) (omega arith)),
        )
        (ground arith)
]

parse_digits-parse :
    (b : ℕ) (bytes : List ℕ) → IsDigit b → parse (b ∷ bytes) ≡ parse_digits 0 (b ∷ bytes)
unfolding parse
parse_digits-parse b [] h = ground arith
parse_digits-parse b (c ∷ bytes) h = ground arith

digits-nonempty : (fuel n : ℕ) → (b : ℕ) × (bytes : List ℕ) × (show_digits fuel n ≡ b ∷ bytes)
unfolding show_digits
digits-nonempty zero n = (48 + n % 10, [], refl)
digits-nonempty (suc fuel) n = elim (Bool-cases (ltb n 10)) [
  | inl e ↦ (48 + n, [], rw e refl)
  | inr e ↦
      let (b, bytes, p) = digits-nonempty fuel (n / 10) in
      (b, bytes ++ (48 + n % 10) ∷ [], rw (e, p) refl)
]

-- A number of 64 bits that was written is parsed as itself.
pub parse-show : (n : ℕ) → n < 2 ^ 64 → parse (show n) ≡ some n
unfolding show
parse-show n h =
    let (b, bytes, p) = digits-nonempty n n in
    let d : All IsDigit (b ∷ bytes) = subst (All IsDigit) p (digits_All n n) in
    let q : parse_digits 0 (b ∷ bytes) ≡ some n =
      subst (λ xs. parse_digits 0 xs ≡ some n) p (parse_digits-show n n (omega arith) h) in
    rw p (parse_digits-parse b bytes d.0 ∙ q)
