-- ===== src/Digits/Laws.antt =====
-- Decimal texts stand for their numbers.
use native.Mathlib.Nat.{pow-suc}
use merchant_operations_plat.Prelude.{
  ℕ, zero, suc, ◌+◌, ◌-◌, ◌*◌, ◌/◌, ◌%◌, ◌^◌, ◌≤◌, ◌<◌, ◌≡◌, refl, ap, sym, ◌∙◌, inl, inr, Bool,
  ◌&&◌, true, false, [], ◌∷◌, ◌++◌, arith, All, length, ltb, leb, ◌==◌, Bool-cases,
}
use merchant_operations_plat.Digits.{
  Chars, is_digit, digit, digits_of, to_text, number_from, to_number, zeros, pad_start, pad_end,
  is_empty, trim_zeros, span_digits, is_space, trim_start, trim_end, trim,
}

pub number_from-append :
    (n : ℕ) (xs ys : Chars) → number_from n (xs ++ ys) ≡ number_from (number_from n xs) ys
unfolding number_from
number_from-append n [] ys = refl
number_from-append n (x ∷ xs) ys = number_from-append (n * 10 + (x - b'0')) xs ys

-- Enough fuel gives all the digits.
number_from-digits_of : (fuel n : ℕ) → n < fuel → number_from 0 (digits_of fuel n) ≡ n
unfolding digits_of number_from
number_from-digits_of zero n h = absurd (omega arith)
number_from-digits_of (suc fuel) n h = elim (Bool-cases (ltb n 10)) [
  | inl e ↦ rw e (ground arith)
  | inr e ↦
      let before = number_from-digits_of fuel (n / 10) (ground arith) in
      rw e (number_from-append 0 (digits_of fuel (n / 10)) _ ∙ rw before (ground arith))
]

pub to_number-to_text : (n : ℕ) → to_number (to_text n) ≡ n
unfolding to_number to_text
to_number-to_text n = number_from-digits_of (suc n) n (omega arith)

abbrev pub AreDigits : Chars → Type 0
AreDigits = All (λ c. is_digit c ≡ true)

AreDigits-append : (xs ys : Chars) → AreDigits xs → AreDigits ys → AreDigits (xs ++ ys)
AreDigits-append [] ys hx hy = hy
AreDigits-append (x ∷ xs) ys (h, hx) hy = (h, AreDigits-append xs ys hx hy)

pub digit-lt : (n : ℕ) → n < 10 → is_digit (digit n) ≡ true
digit-lt n h = ground arith

digits_of-AreDigits : (fuel n : ℕ) → AreDigits (digits_of fuel n)
unfolding digits_of
digits_of-AreDigits zero n = tt
digits_of-AreDigits (suc fuel) n =
    let last : AreDigits (digit (n % 10) ∷ []) = (digit-lt (n % 10) (ground arith), tt) in
    elim (Bool-cases (ltb n 10)) [
      | inl e ↦ rw e last
      | inr e ↦
          rw e
            (AreDigits-append (digits_of fuel (n / 10)) _ (digits_of-AreDigits fuel (n / 10)) last)
    ]

pub to_text-AreDigits : (n : ℕ) → AreDigits (to_text n)
unfolding to_text
to_text-AreDigits n = digits_of-AreDigits (suc n) n

pub zeros-AreDigits : (n : ℕ) → AreDigits (zeros n)
zeros-AreDigits zero = tt
zeros-AreDigits (suc n) = (refl, zeros-AreDigits n)

pub length-append : (xs ys : Chars) → length (xs ++ ys) ≡ length xs + length ys
length-append [] ys = omega arith
length-append (x ∷ xs) ys = omega (arith, length-append xs ys)

pub length-zeros : (n : ℕ) → length (zeros n) ≡ n
length-zeros zero = refl
length-zeros (suc n) = omega (arith, length-zeros n)

-- A number below 10 ^ k has at most k digits.
length-digits_of-le : (fuel n k : ℕ) → n < 10 ^ suc k → length (digits_of fuel n) ≤ suc k
unfolding digits_of
length-digits_of-le zero n k h = omega arith
length-digits_of-le (suc fuel) n zero h = elim (Bool-cases (ltb n 10)) [
  | inl e ↦ rw e (omega arith)
  | inr e ↦ absurd (ground arith)
]
length-digits_of-le (suc fuel) n (suc k) h = elim (Bool-cases (ltb n 10)) [
  | inl e ↦ rw e (omega arith)
  | inr e ↦
      let fewer : n / 10 < 10 ^ suc k = grind (arith, pow-suc 10 (suc k)) in
      let before = length-digits_of-le fuel (n / 10) k fewer in
      rw e (omega (arith, before, length-append (digits_of fuel (n / 10)) (digit (n % 10) ∷ [])))
]

pub length-to_text-le : (n k : ℕ) → n < 10 ^ suc k → length (to_text n) ≤ suc k
unfolding to_text
length-to_text-le n k h = length-digits_of-le (suc n) n k h

number_from-zeros : (k : ℕ) → number_from 0 (zeros k) ≡ 0
unfolding number_from
number_from-zeros zero = refl
number_from-zeros (suc k) = number_from-zeros k

pub length-to_text-pos : (n : ℕ) → 1 ≤ length (to_text n)
unfolding to_text digits_of
length-to_text-pos n = elim (Bool-cases (ltb n 10)) [
  | inl e ↦ rw e (omega arith)
  | inr e ↦ rw e (omega (arith, length-append (digits_of n (n / 10)) (digit (n % 10) ∷ [])))
]

-- No text of a positive number starts with a zero.
abbrev pub starts_positive : Chars → Bool
starts_positive [] = false
starts_positive (c ∷ cs) = leb b'1' c && leb c b'9'

starts_positive-append :
    (xs ys : Chars) → starts_positive xs ≡ true → starts_positive (xs ++ ys) ≡ true
starts_positive-append [] ys h = cc
starts_positive-append (x ∷ xs) ys h = h

digits_of-starts_positive :
    (fuel n : ℕ) → n < fuel → 1 ≤ n → starts_positive (digits_of fuel n) ≡ true
unfolding digits_of
digits_of-starts_positive zero n h positive = absurd (omega arith)
digits_of-starts_positive (suc fuel) n h positive = elim (Bool-cases (ltb n 10)) [
  | inl e ↦ rw e (ground arith)
  | inr e ↦ rw e (
      starts_positive-append (digits_of fuel (n / 10)) _
        (digits_of-starts_positive fuel (n / 10) (ground arith) (ground arith)))
]

pub to_text-starts_positive : (n : ℕ) → 1 ≤ n → starts_positive (to_text n) ≡ true
unfolding to_text
to_text-starts_positive n h = digits_of-starts_positive (suc n) n (omega arith) h

-- Padding at the front keeps the number.
pub to_number-pad_start : (k : ℕ) (cs : Chars) → to_number (pad_start k cs) ≡ to_number cs
unfolding to_number pad_start
to_number-pad_start k cs =
    number_from-append 0 (zeros (k - length cs)) cs
    ∙ ap (λ n. number_from n cs) (number_from-zeros (k - length cs))

pub length-pad_start : (k : ℕ) (cs : Chars) → length cs ≤ k → length (pad_start k cs) ≡ k
unfolding pad_start
length-pad_start k cs h =
    omega (arith, length-append (zeros (k - length cs)) cs, length-zeros (k - length cs))

pub pad_start-AreDigits : (k : ℕ) (cs : Chars) → AreDigits cs → AreDigits (pad_start k cs)
unfolding pad_start
pad_start-AreDigits k cs h = AreDigits-append (zeros (k - length cs)) cs (zeros-AreDigits _) h

pub length-trim_zeros-le : (cs : Chars) → length (trim_zeros cs) ≤ length cs
unfolding trim_zeros
length-trim_zeros-le [] = omega arith
length-trim_zeros-le (c ∷ cs) = ground (arith, length-trim_zeros-le cs)

pub trim_zeros-AreDigits : (cs : Chars) → AreDigits cs → AreDigits (trim_zeros cs)
unfolding trim_zeros
trim_zeros-AreDigits [] h = tt
trim_zeros-AreDigits (c ∷ cs) (h, hs) = elim (Bool-cases (c == b'0' && is_empty (trim_zeros cs))) [
  | inl e ↦ rw e tt
  | inr e ↦ rw e (h, trim_zeros-AreDigits cs hs)
]

pub empty_lem : (cs : Chars) → is_empty cs ≡ true → cs ≡ []
empty_lem [] h = refl
empty_lem (c ∷ cs) h = cc

pub length-not_empty : (cs : Chars) → is_empty cs ≡ false → 1 ≤ length cs
length-not_empty [] h = cc
length-not_empty (c ∷ cs) h = omega arith

-- What trimming takes off, padding to the old length puts back.
pub pad_end-trim_zeros : (cs : Chars) → pad_end (length cs) (trim_zeros cs) ≡ cs
unfolding pad_end trim_zeros
pad_end-trim_zeros [] = refl
pad_end-trim_zeros (c ∷ cs) =
    let again = pad_end-trim_zeros cs in
    elim (Bool-cases (c == b'0' && is_empty (trim_zeros cs))) [
      | inl e ↦ rw e (
          let none_left : trim_zeros cs ≡ [] = empty_lem (trim_zeros cs) (ground arith) in
          let same : c ≡ b'0' = ground arith in
          let size : suc (length cs) - 0 ≡ suc (length cs) = omega arith in
          let rest : zeros (length cs) ≡ cs =
            ap zeros (omega arith)
            ∙ ap (λ t. t ++ zeros (length cs - length t)) (sym none_left)
            ∙ again in
          ap zeros size ∙ ap (λ t. b'0' ∷ t) rest ∙ ap (λ d. d ∷ cs) (sym same))
      | inr e ↦ rw e (
          let less : suc (length cs) - suc (length (trim_zeros cs))
              ≡ length cs - length (trim_zeros cs) =
            omega arith in
          ap (λ n. c ∷ trim_zeros cs ++ zeros n) less ∙ ap (λ t. c ∷ t) again)
    ]

pub span_digits-append :
    (ds : Chars) (c : ℕ) (rest : Chars)
    → AreDigits ds
    → is_digit c ≡ false
    → span_digits (ds ++ c ∷ rest) ≡ (ds, c ∷ rest)
unfolding span_digits
span_digits-append [] c rest h stop = rw stop refl
span_digits-append (d ∷ ds) c rest (h, hs) stop =
    rw h (rw (span_digits-append ds c rest hs stop) refl)

pub span_digits-all : (ds : Chars) → AreDigits ds → span_digits ds ≡ (ds, [])
unfolding span_digits
span_digits-all [] h = refl
span_digits-all (d ∷ ds) (h, hs) = rw h (rw (span_digits-all ds hs) refl)

-- A text without white space is its own trim.
trim_start-none : (cs : Chars) → All (λ c. is_space c ≡ false) cs → trim_start cs ≡ cs
unfolding trim_start
trim_start-none [] h = refl
trim_start-none (c ∷ cs) (h, hs) = rw h refl

trim_end-none : (cs : Chars) → All (λ c. is_space c ≡ false) cs → trim_end cs ≡ cs
unfolding trim_end
trim_end-none [] h = refl
trim_end-none (c ∷ cs) (h, hs) = rw h (ap (λ t. c ∷ t) (trim_end-none cs hs))

pub trim-none : (cs : Chars) → All (λ c. is_space c ≡ false) cs → trim cs ≡ cs
unfolding trim
trim-none cs h = ap trim_end (trim_start-none cs h) ∙ trim_end-none cs h

pub digit-no_space : (c : ℕ) → is_digit c ≡ true → is_space c ≡ false
digit-no_space c h = ground arith

pub AreDigits-no_space : (cs : Chars) → AreDigits cs → All (λ c. is_space c ≡ false) cs
AreDigits-no_space [] h = tt
AreDigits-no_space (c ∷ cs) (h, hs) = (digit-no_space c h, AreDigits-no_space cs hs)

pub no_space-append :
    (xs ys : Chars)
    → All (λ c. is_space c ≡ false) xs
    → All (λ c. is_space c ≡ false) ys
    → All (λ c. is_space c ≡ false) (xs ++ ys)
no_space-append [] ys hx hy = hy
no_space-append (x ∷ xs) ys (h, hx) hy = (h, no_space-append xs ys hx hy)
