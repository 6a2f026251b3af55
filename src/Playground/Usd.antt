-- ===== src/Playground/Usd.antt =====
-- The printers of src/playground/amount.ts, and its reader of decimal USD strings; a thrown
-- RangeError is `none`. JavaScript's `trim` is an argument.
pub mod Decimal
pub mod Padding
pub mod RoundTrip
use rozo_mpprouter.Base.{
  ℕ, ◌-◌, ◌*◌, ◌/◌, ◌%◌, Bool, false, true, ◌&&◌, Option, none, some, List, [], ◌∷◌, ◌++◌, suc, leb,
  ltb, ◌==◌, length, replicate, if◌then◌else◌,
}
use rozo_mpprouter.Base.Int.{ℤ, pos, negsuc}
use rozo_mpprouter.Playground.Amount.{
  Text, negate, map_option, one_usdc, usdc_decimals, read_number,
}
use rozo_mpprouter.Playground.Deposit.{split_point, pad_zeros, with_fraction}
use rozo_mpprouter.Playground.Usd.Decimal.{decimal}

-- `s.padStart(w, '0')`
abbrev pub pad_start : ℕ → Text → Text
pad_start w s = replicate (w - length s) b'0' ++ s

-- `s.padEnd(w, '0')`
abbrev pub pad_end : ℕ → Text → Text
pad_end w s = s ++ replicate (w - length s) b'0'

abbrev pub with_sign : (ℕ → Text) → ℤ → Text
with_sign print (pos n) = print n
with_sign print (negsuc n) = b'-' ∷ print (suc n)

abbrev pub fraction7 : ℕ → Text
fraction7 n = pad_start usdc_decimals (decimal (n % one_usdc))

abbrev pub magnitude7 : ℕ → Text
magnitude7 n = decimal (n / one_usdc) ++ b'.' ∷ fraction7 n

unfoldable pub format_usdc7 : ℤ → Text
format_usdc7 n = with_sign magnitude7 n

abbrev pub is_empty : Text → Bool
is_empty [] = true
is_empty (c ∷ s) = false

-- `s.replace(/0+$/, '')`
unfoldable pub trim_zeros : Text → Text
trim_zeros [] = []
trim_zeros (c ∷ s) = let rest = trim_zeros s in if c == b'0' && is_empty rest then [] else c ∷ rest

abbrev pub two_decimals : Text → Text
two_decimals s = if ltb (length s) 2 then pad_end 2 s else s

-- The parts of `fixed.split('.')`, one point being in it.
abbrev pub join_trimmed : Text × Option Text → Text
join_trimmed (whole, none) = whole
join_trimmed (whole, some frac) = whole ++ b'.' ∷ two_decimals (trim_zeros frac)

unfoldable pub format_usd : ℤ → Text
format_usd n = join_trimmed (split_point (format_usdc7 n))

-- `^\d+(\.\d+)?$` with at most seven decimals.
abbrev pub parse_parts : Text × Option Text → Option ℕ
parse_parts (whole, none) = with_fraction (read_number whole) (some 0)
parse_parts (whole, some frac) =
    if leb 1 (length frac) && leb (length frac) usdc_decimals
    then with_fraction (read_number whole) (read_number (pad_zeros frac))
    else none

abbrev pub parse_trimmed : Text → Option ℤ
parse_trimmed [] = none
parse_trimmed (c ∷ s) =
    if c == b'-'
    then map_option negate (parse_parts (split_point s))
    else map_option pos (parse_parts (split_point (c ∷ s)))

unfoldable pub parse_usd : (Text → Text) → Text → Option ℤ
parse_usd trim s = parse_trimmed (trim s)

-- `(atomic7 / 10n).toString()`: a bigint's division drops the fraction, so there is no `-0`.
abbrev pub tenth : ℤ → ℤ
tenth (pos n) = pos (n / 10)
tenth (negsuc n) = negate (suc n / 10)

unfoldable pub to_tempo_raw6 : ℤ → Text
to_tempo_raw6 n = with_sign decimal (tenth n)
