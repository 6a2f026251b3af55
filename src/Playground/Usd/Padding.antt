-- ===== src/Playground/Usd/Padding.antt =====
-- The zeros that src/playground/amount.ts pads with and trims, and the parts of its prints.
use rozo_mpprouter.Base.{
  ℕ, zero, suc, ◌+◌, ◌-◌, ◌%◌, ◌≤◌, ◌≡◌, refl, inl, inr, ap, ◌∙◌, Bool, true, ◌&&◌, some, [], ◌∷◌,
  ◌++◌, arith, All, Bool-cases, length, length-append, ltb, replicate, leb, ◌==◌,
}
use native.Mathlib.Numerals.{unary_clauses}
use mathlib.Core.List.{append_assoc, append-nil}
use rozo_mpprouter.Playground.Amount.{Text, one_usdc, usdc_decimals, is_digit}
use rozo_mpprouter.Playground.Deposit.{split_point, pad_zeros}
use rozo_mpprouter.Playground.Usd.Decimal.{decimal, length-decimal, decimal-All}
use rozo_mpprouter.Playground.Usd.{pad_end, fraction7, trim_zeros, is_empty, two_decimals}

-- A visible ASCII character: no white space.
abbrev pub is_visible : ℕ → Bool
is_visible c = leb 33 c && leb c 126

-- What is asked of `trim`: a text without white space stays as it is.
abbrev pub KeepsVisible : (Text → Text) → Type 0
KeepsVisible trim = (s : Text) → All (λ c. is_visible c ≡ true) s → trim s ≡ s

abbrev pub zeros : ℕ → Text
zeros k = replicate k b'0'

module _ (P : ℕ → Type 0) where
  pub All-append : (s t : Text) → All P s → All P t → All P (s ++ t)
  All-append [] t hs ht = ht
  All-append (c ∷ s) t hs ht = (hs.0, All-append s t hs.1 ht)

  pub All-zeros : (k : ℕ) → P b'0' → All P (zeros k)
  All-zeros zero h = tt
  All-zeros (suc k) h = (h, All-zeros k h)

  pub All-map : (Q : ℕ → Type 0) → ((c : ℕ) → Q c → P c) → (s : Text) → All Q s → All P s
  All-map Q f [] h = tt
  All-map Q f (c ∷ s) h = (f c h.0, All-map Q f s h.1)

pub visible_digit : (c : ℕ) → is_digit c ≡ true → is_visible c ≡ true
visible_digit c h = ground (arith, h)

pub decimal_visible : (n : ℕ) → All (λ c. is_visible c ≡ true) (decimal n)
decimal_visible n =
    All-map (λ c. is_visible c ≡ true) (λ c. is_digit c ≡ true) visible_digit (decimal n)
      (decimal-All n)

pub split_point-append :
    (w f : Text) → All (λ c. is_digit c ≡ true) w → split_point (w ++ b'.' ∷ f) ≡ (w, some f)
unfolding split_point
split_point-append [] f h = refl
split_point-append (c ∷ w) f h = ground (arith, h.0, split_point-append w f h.1)

pub length-zeros : (k : ℕ) → length (zeros k) ≡ k
length-zeros zero = refl
length-zeros (suc k) = omega (arith, length-zeros k)

pub length-fraction7 : (n : ℕ) → length (fraction7 n) ≡ usdc_decimals
length-fraction7 n =
    let few : length (decimal (n % one_usdc)) ≤ 7 = length-decimal (n % one_usdc) 6 (omega arith) in
    omega (
      arith,
      few,
      length-append (replicate (7 - length (decimal (n % one_usdc))) b'0') (decimal (n % one_usdc)),
      length-zeros (7 - length (decimal (n % one_usdc))),
    )

pub fraction7_visible : (n : ℕ) → All (λ c. is_visible c ≡ true) (fraction7 n)
fraction7_visible n =
    All-append (λ c. is_visible c ≡ true) _ _
      (All-zeros (λ c. is_visible c ≡ true) (7 - length (decimal (n % one_usdc))) refl)
      (decimal_visible (n % one_usdc))

pub replicate_add : (j k : ℕ) → zeros j ++ zeros k ≡ zeros (j + k)
replicate_add zero k = ap zeros (omega arith)
replicate_add (suc j) k =
    let longer : suc (j + k) ≡ suc j + k = omega arith in
    ap (λ q. b'0' ∷ q) (replicate_add j k) ∙ ap zeros longer

pub length-trim_zeros : (s : Text) → length (trim_zeros s) ≤ length s
unfolding trim_zeros
length-trim_zeros [] = omega arith
length-trim_zeros (c ∷ s) = ground (arith, length-trim_zeros s)

pub trim_zeros_visible :
    (s : Text) → All (λ c. is_visible c ≡ true) s → All (λ c. is_visible c ≡ true) (trim_zeros s)
unfolding trim_zeros
trim_zeros_visible [] h = tt
trim_zeros_visible (c ∷ s) h = ground (arith, h.0, trim_zeros_visible s h.1)

pub is_empty_eq : (s : Text) → is_empty s ≡ true → s ≡ []
is_empty_eq [] h = refl
is_empty_eq (c ∷ s) h = absurd (ground (arith, h))

pub trim_zeros_padded : (s : Text) → pad_end (length s) (trim_zeros s) ≡ s
unfolding trim_zeros
trim_zeros_padded [] = refl
trim_zeros_padded (c ∷ s) = elim (Bool-cases (c == b'0' && is_empty (trim_zeros s))) [
  | inl last ↦
      let padded = trim_zeros_padded s in
      let all_zero : trim_zeros s ≡ [] = is_empty_eq (trim_zeros s) (ground (arith, last)) in
      let zero_head : c ≡ b'0' = ground (arith, last) in
      let rest : zeros (length s - 0) ≡ s = rw all_zero at padded in
      let longer : suc (length s) - 0 ≡ suc (length s - 0) = omega arith in
      rw last (rw zero_head (ap zeros longer ∙ ap (λ (r : Text). b'0' ∷ r) rest))
  | inr kept ↦ rw kept (simp unary_clauses (ap (λ r. c ∷ r) (trim_zeros_padded s)))
]

pub zeros_again : (s : Text) → length s ≤ 2 → pad_zeros (pad_end 2 s) ≡ pad_end 7 s
zeros_again s h =
    rw (append_assoc, replicate_add)
      (ap (λ k. s ++ zeros k)
        (omega (arith, h, length-append s (zeros (2 - length s)), length-zeros (2 - length s))))

pub pad_zeros-two_decimals : (s : Text) → pad_zeros (two_decimals s) ≡ pad_end 7 s
pad_zeros-two_decimals s = elim (Bool-cases (ltb (length s) 2)) [
  | inl short ↦ rw short (zeros_again s (ground (arith, short)))
  | inr long ↦ rw long refl
]

pub pad_full : (s : Text) → length s ≡ 7 → pad_zeros s ≡ s
pad_full s h =
    let none_left : 7 - length s ≡ 0 = omega (arith, h) in
    ap (λ k. s ++ zeros k) none_left ∙ append-nil s

pub length-two_decimals :
    (s : Text) → length s ≤ 7 → (1 ≤ length (two_decimals s)) × (length (two_decimals s) ≤ 7)
length-two_decimals s h =
    ground (arith, h, length-append s (zeros (2 - length s)), length-zeros (2 - length s))

pub two_decimals_visible :
    (s : Text) → All (λ c. is_visible c ≡ true) s → All (λ c. is_visible c ≡ true) (two_decimals s)
two_decimals_visible s h = elim (Bool-cases (ltb (length s) 2)) [
  | inl short ↦ rw short (
      All-append (λ c. is_visible c ≡ true) s _ h
        (All-zeros (λ c. is_visible c ≡ true) (2 - length s) refl))
  | inr long ↦ rw long h
]
