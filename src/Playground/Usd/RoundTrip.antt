-- ===== src/Playground/Usd/RoundTrip.antt =====
-- Reading back what src/playground/amount.ts prints.
use rozo_mpprouter.Base.{
  ℕ, suc, ◌+◌, ◌-◌, ◌*◌, ◌/◌, ◌%◌, ◌≤◌, ◌≡◌, refl, ap, ◌∙◌, sym, true, false, ◌&&◌, some, [], ◌∷◌,
  ◌++◌, arith, All, length, leb, ◌==◌,
}
use rozo_mpprouter.Base.Int.{ℤ, pos, negsuc}
use rozo_mpprouter.Playground.Amount.{
  Text, map_option, one_usdc, usdc_decimals, is_digit, read_number,
}
use rozo_mpprouter.Playground.Deposit.{split_point, pad_zeros}
use rozo_mpprouter.Playground.Usd.Decimal.{
  decimal, length-decimal_pos, read_number-decimal, read_number-zeros, decimal-All,
}
use rozo_mpprouter.Playground.Usd.{
  pad_end, with_sign, fraction7, format_usdc7, trim_zeros, two_decimals, format_usd, parse_parts,
  parse_trimmed, parse_usd,
}
use rozo_mpprouter.Playground.Usd.Padding.{
  is_visible, KeepsVisible, All-append, decimal_visible, split_point-append, length-fraction7,
  fraction7_visible, length-trim_zeros, trim_zeros_visible, trim_zeros_padded,
  pad_zeros-two_decimals, pad_full, length-two_decimals, two_decimals_visible,
}

read_number-fraction7 : (n : ℕ) → read_number (fraction7 n) ≡ some (n % one_usdc)
read_number-fraction7 n =
    read_number-zeros (usdc_decimals - length (decimal (n % one_usdc))) (n % one_usdc)

-- A whole part in decimal and a fraction that stands for seven digits.
parse_parts_lem :
    (n : ℕ) (frac : Text)
    → 1 ≤ length frac
    → length frac ≤ 7
    → pad_zeros frac ≡ fraction7 n
    → parse_parts (split_point (decimal (n / one_usdc) ++ b'.' ∷ frac)) ≡ some n
parse_parts_lem n frac some_digits few padded =
    let whole : n / one_usdc * one_usdc + n % one_usdc ≡ n = omega arith in
    let in_range : (leb 1 (length frac) && leb (length frac) usdc_decimals) ≡ true =
      ground (arith, some_digits, few) in
    rw
      (
        split_point-append (decimal (n / one_usdc)) frac (decimal-All (n / one_usdc)),
        in_range,
        padded,
        read_number-decimal (n / one_usdc),
        read_number-fraction7 n,
      )
      (ap some whole)

parse_trimmed_digits :
    (w t : Text)
    → 1 ≤ length w
    → All (λ c. is_digit c ≡ true) w
    → parse_trimmed (w ++ t) ≡ map_option pos (parse_parts (split_point (w ++ t)))
parse_trimmed_digits [] t h digits = absurd (omega (arith, h))
parse_trimmed_digits (c ∷ w) t h digits =
    let no_sign : (c == b'-') ≡ false = ground (arith, digits.0) in rw no_sign refl

-- The fraction that `format_usd` prints.
abbrev fraction2 : ℕ → Text
fraction2 n = two_decimals (trim_zeros (fraction7 n))

abbrev printed : (ℕ → Text) → ℕ → Text
printed frac n = decimal (n / one_usdc) ++ b'.' ∷ frac n

-- What a printed fraction has to be like to be read back.
record Readable (frac : ℕ → Text) : Type 0 where
  some_digits : (n : ℕ) → 1 ≤ length (frac n)
  few : (n : ℕ) → length (frac n) ≤ 7
  padded : (n : ℕ) → pad_zeros (frac n) ≡ fraction7 n
  visible : (n : ℕ) → All (λ c. is_visible c ≡ true) (frac n)

parse_trimmed-with_sign :
    (frac : ℕ → Text)
    → Readable frac
    → (n : ℤ) → parse_trimmed (with_sign (printed frac) n) ≡ some n
parse_trimmed-with_sign frac r (pos n) =
    rw
      (
        parse_trimmed_digits (decimal (n / one_usdc)) (b'.' ∷ frac n)
            (length-decimal_pos (n / one_usdc)) (decimal-All (n / one_usdc)),
        parse_parts_lem n (frac n) (r.some_digits n) (r.few n) (r.padded n),
      )
      refl
parse_trimmed-with_sign frac r (negsuc n) =
    rw
      (parse_parts_lem (suc n) (frac (suc n)) (r.some_digits (suc n)) (r.few (suc n))
        (r.padded (suc n)))
      refl

printed_visible :
    (frac : ℕ → Text)
    → Readable frac
    → (n : ℤ) → All (λ c. is_visible c ≡ true) (with_sign (printed frac) n)
printed_visible frac r (pos n) =
    All-append (λ c. is_visible c ≡ true) _ _ (decimal_visible (n / one_usdc)) (refl, r.visible n)
printed_visible frac r (negsuc n) = (
  refl,
  All-append (λ c. is_visible c ≡ true) _ _ (decimal_visible (suc n / one_usdc))
      (refl, r.visible (suc n)),
)

parse_usd-printed :
    (trim : Text → Text)
    → KeepsVisible trim
    → (frac : ℕ → Text) → Readable frac
    → (n : ℤ) → parse_usd trim (with_sign (printed frac) n) ≡ some n
unfolding parse_usd
parse_usd-printed trim keeps frac r n =
    rw (keeps (with_sign (printed frac) n) (printed_visible frac r n))
      (parse_trimmed-with_sign frac r n)

fraction7-Readable : Readable fraction7
fraction7-Readable = record {
  some_digits = λ n. omega (arith, length-fraction7 n);
  few = λ n. omega (arith, length-fraction7 n);
  padded = λ n. pad_full (fraction7 n) (length-fraction7 n);
  visible = fraction7_visible;
}

trimmed_few : (n : ℕ) → length (trim_zeros (fraction7 n)) ≤ 7
trimmed_few n = omega (arith, length-trim_zeros (fraction7 n), length-fraction7 n)

fraction2_padded : (n : ℕ) → pad_zeros (fraction2 n) ≡ fraction7 n
fraction2_padded n =
    pad_zeros-two_decimals (trim_zeros (fraction7 n))
    ∙ ap (λ k. pad_end k (trim_zeros (fraction7 n))) (sym (length-fraction7 n))
    ∙ trim_zeros_padded (fraction7 n)

fraction2-Readable : Readable fraction2
fraction2-Readable = record {
  some_digits = λ n. (length-two_decimals (trim_zeros (fraction7 n)) (trimmed_few n)).0;
  few = λ n. (length-two_decimals (trim_zeros (fraction7 n)) (trimmed_few n)).1;
  padded = fraction2_padded;
  visible = λ n.
      two_decimals_visible (trim_zeros (fraction7 n))
        (trim_zeros_visible (fraction7 n) (fraction7_visible n));
}

-- Every amount is read back from its print with seven decimals.
pub parse_usd-format_usdc7 :
    (trim : Text → Text) → KeepsVisible trim → (n : ℤ) → parse_usd trim (format_usdc7 n) ≡ some n
unfolding format_usdc7
parse_usd-format_usdc7 trim keeps n = parse_usd-printed trim keeps fraction7 fraction7-Readable n

format_usd_lem : (n : ℤ) → format_usd n ≡ with_sign (printed fraction2) n
unfolding format_usd format_usdc7 split_point
format_usd_lem (pos n) =
    rw (split_point-append (decimal (n / one_usdc)) (fraction7 n) (decimal-All (n / one_usdc))) refl
format_usd_lem (negsuc n) =
    rw
      (split_point-append (decimal (suc n / one_usdc)) (fraction7 (suc n))
        (decimal-All (suc n / one_usdc)))
      refl

-- Every amount is read back from its print with the trailing zeros trimmed: the print loses
-- nothing.
pub parse_usd-format_usd :
    (trim : Text → Text) → KeepsVisible trim → (n : ℤ) → parse_usd trim (format_usd n) ≡ some n
parse_usd-format_usd trim keeps n =
    rw (format_usd_lem n) (parse_usd-printed trim keeps fraction2 fraction2-Readable n)
