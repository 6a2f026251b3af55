-- ===== src/Playground/Usd/Decimal.antt =====
-- `toString` of a bigint that is not negative, against the reading of digits in
-- src/playground/amount.ts.
use rozo_mpprouter.Base.{
  ℕ, zero, suc, ◌+◌, ◌/◌, ◌%◌, ◌^◌, ◌<◌, ◌≤◌, ◌≡◌, refl, inl, inr, true, false, some, [], ◌∷◌, ◌++◌,
  arith, All, Bool-cases, length, length-append, replicate, ◌==◌, ==_iff, if◌then◌else◌,
}
use rozo_mpprouter.Playground.Amount.{Text, is_digit, read_digits, read_number}

-- The digits of a number in front of a text; there are fewer digits than the number itself says,
-- so it serves as the fuel.
pub prepend_digits : ℕ → ℕ → Text → Text
prepend_digits zero n out = out
prepend_digits (suc fuel) n out = elim (n == 0) [
  | true ↦ out
  | false ↦ prepend_digits fuel (n / 10) ((b'0' + n % 10) ∷ out)
]

pub decimal : ℕ → Text
decimal n = if n == 0 then b'0' ∷ [] else prepend_digits n n []

-- One round of the loop, on a number that is left or not.
round_stops : (fuel n : ℕ) (out : Text) → (n == 0) ≡ true → prepend_digits (suc fuel) n out ≡ out
unfolding prepend_digits
round_stops fuel n out stop = rw (stop, prepend_digits) refl

round_goes :
    (fuel n : ℕ) (out : Text)
    → (n == 0) ≡ false
    → prepend_digits (suc fuel) n out ≡ prepend_digits fuel (n / 10) ((b'0' + n % 10) ∷ out)
unfolding prepend_digits
round_goes fuel n out go = rw (go, prepend_digits) refl

-- What holds of a text, and passes from a number's text to that of its tenth, holds of its print.
prepend_digits_lem {ℓ} :
    (P : ℕ → Text → Type ℓ)
    → ((n : ℕ) (out : Text) → 0 < n → P n out → P (n / 10) ((b'0' + n % 10) ∷ out))
    → (fuel n : ℕ) (out : Text) → n ≤ fuel
    → P n out
    → P 0 (prepend_digits fuel n out)
unfolding prepend_digits
prepend_digits_lem P pass zero n out enough h =
    let none_left : n ≡ 0 = omega (arith, enough) in rw none_left at h
prepend_digits_lem P pass (suc fuel) n out enough h = elim (Bool-cases (n == 0)) [
  | inl stop ↦
      let none_left : n ≡ 0 = (==_iff n 0).0 stop in
      rw (round_stops fuel n out stop) (rw none_left at h)
  | inr go ↦
      let some_left : 0 < n = ground (arith, go) in
      rw (round_goes fuel n out go) (
        prepend_digits_lem P pass fuel (n / 10) ((b'0' + n % 10) ∷ out) (omega arith)
          (pass n out some_left h))
]

-- Reading the last digit behind the value of the others gives the number.
last_read :
    (n m : ℕ) (out : Text)
    → read_digits n out ≡ some m
    → read_digits (n / 10) ((b'0' + n % 10) ∷ out) ≡ some m
unfolding read_digits
last_read n m out h = ground (arith, h)

pub read_digits-decimal : (n : ℕ) → read_digits 0 (decimal n) ≡ some n
unfolding decimal read_digits
read_digits-decimal n = elim (Bool-cases (n == 0)) [
  | inl nil ↦ rw nil (ground (arith, nil))
  | inr pos_n ↦ rw pos_n (
      prepend_digits_lem (λ k out. read_digits k out ≡ some n) (λ k out left. last_read k n out) n n
        [] (omega arith) refl)
]

last_digit : (n : ℕ) → is_digit (b'0' + n % 10) ≡ true
last_digit n = ground arith

-- A decimal has only digits.
pub decimal-All : (n : ℕ) → All (λ c. is_digit c ≡ true) (decimal n)
unfolding decimal
decimal-All n = elim (Bool-cases (n == 0)) [
  | inl nil ↦ rw nil (refl, tt)
  | inr pos_n ↦ rw pos_n (
      prepend_digits_lem (λ k out. All (λ c. is_digit c ≡ true) out)
        (λ k out left h. (last_digit k, h)) n n [] (omega arith) tt)
]

pub length-decimal_pos : (n : ℕ) → 1 ≤ length (decimal n)
unfolding decimal
length-decimal_pos n = elim (Bool-cases (n == 0)) [
  | inl nil ↦ rw nil (omega arith)
  | inr pos_n ↦
      let left : 1 ≤ n = ground (arith, pos_n) in
      rw pos_n (
        omega (
          arith,
          prepend_digits_lem (λ k out. 1 ≤ k + length out) (λ k out some_left h. omega arith) n n []
              (omega arith) (omega (arith, left)),
        ))
]

-- The number is below a power of ten, and the exponent and the text fit the bound.
abbrev FitsIn : ℕ → ℕ → Text → Type 0
FitsIn bound n out = (k : ℕ) × (n < 10 ^ k) × (k + length out ≤ bound)

tenth-FitsIn :
    (bound n : ℕ) (out : Text)
    → 0 < n
    → FitsIn bound n out
    → FitsIn bound (n / 10) ((b'0' + n % 10) ∷ out)
tenth-FitsIn bound n out left (zero, small, fits) = absurd (omega (arith, small, left))
tenth-FitsIn bound n out left (suc k, small, fits) =
    let smaller : n / 10 < 10 ^ k = omega (arith, small) in
    let longer : k + suc (length out) ≤ bound = omega (arith, fits) in (k, smaller, longer)

length-FitsIn : (bound n : ℕ) (out : Text) → FitsIn bound n out → length out ≤ bound
length-FitsIn bound n out (k, small, fits) = omega (arith, fits)

pub length-decimal : (n k : ℕ) → n < 10 ^ suc k → length (decimal n) ≤ suc k
unfolding decimal
length-decimal n k small = elim (Bool-cases (n == 0)) [
  | inl nil ↦ rw nil (omega arith)
  | inr pos_n ↦
      let bound : suc k + 0 ≤ suc k = omega arith in
      rw pos_n (
        length-FitsIn (suc k) 0 (prepend_digits n n []) (
          prepend_digits_lem (FitsIn (suc k)) (tenth-FitsIn (suc k)) n n [] (omega arith)
            (suc k, small, bound)))
]

read_number_lem : (s : Text) → 1 ≤ length s → read_number s ≡ read_digits 0 s
unfolding read_number
read_number_lem [] h = absurd (omega (arith, h))
read_number_lem (c ∷ s) h = refl

pub read_number-decimal : (n : ℕ) → read_number (decimal n) ≡ some n
read_number-decimal n =
    rw (read_number_lem (decimal n) (length-decimal_pos n)) (read_digits-decimal n)

read_digits-zeros : (k : ℕ) (s : Text) → read_digits 0 (replicate k b'0' ++ s) ≡ read_digits 0 s
unfolding read_digits
read_digits-zeros zero s = refl
read_digits-zeros (suc k) s = ground (arith, read_digits-zeros k s)

pub read_number-zeros : (k n : ℕ) → read_number (replicate k b'0' ++ decimal n) ≡ some n
read_number-zeros k n =
    let long : 1 ≤ length (replicate k b'0' ++ decimal n) =
      omega (arith, length-append (replicate k b'0') (decimal n), length-decimal_pos n) in
    rw (read_number_lem _ long, read_digits-zeros k (decimal n)) (read_digits-decimal n)
