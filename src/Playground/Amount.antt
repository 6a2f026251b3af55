-- ===== src/Playground/Amount.antt =====
-- src/playground/amount.ts: money arithmetic in 7-decimal atomic units. A string is the list of
-- its code points; a thrown RangeError is `none`.
use rozo_mpprouter.Base.{
  ℕ, zero, suc, ◌+◌, ◌-◌, ◌*◌, Bool, ◌&&◌, Option, none, some, List, [], ◌∷◌, leb, ◌==◌,
  if◌then◌else◌,
}
use rozo_mpprouter.Base.Int.{ℤ, pos, negsuc}

abbrev pub Text : Type 0
Text = List ℕ

abbrev pub usdc_decimals : ℕ
usdc_decimals = 7

abbrev pub one_usdc : ℕ
one_usdc = 10000000

abbrev pub is_digit : ℕ → Bool
is_digit c = leb b'0' c && leb c b'9'

-- The value of a run of digits, behind those already read; `none` on any other character.
unfoldable pub read_digits : ℕ → Text → Option ℕ
read_digits n [] = some n
read_digits n (c ∷ s) =
    let rest = read_digits (n * 10 + (c - b'0')) s in if is_digit c then rest else none

-- `BigInt(s)` under the test `/^\d+$/`.
unfoldable pub read_number : Text → Option ℕ
read_number [] = none
read_number (c ∷ s) = read_digits 0 (c ∷ s)

-- `-n` of a bigint: there is one zero.
abbrev pub negate : ℕ → ℤ
negate zero = pos 0
negate (suc n) = negsuc n

abbrev pub map_option {ℓ κ} : {A : Type ℓ} {B : Type κ} → (A → B) → Option A → Option B
map_option f none = none
map_option f (some a) = some (f a)

unfoldable pub parse_atomic : Text → Option ℤ
parse_atomic [] = some (pos 0)
parse_atomic (c ∷ s) =
    if c == b'-' then map_option negate (read_number s) else map_option pos (read_number (c ∷ s))
