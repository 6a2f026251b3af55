-- ===== src/Playground/Deposit.antt =====
-- src/playground/deposit.ts: the check of a deposit against the chain. Horizon's replies are
-- arguments, parsed; so are JavaScript's `trim` and the reading of an instant.
pub mod Sound
use text.Mathlib.Text.{◌==◌ as str_eq}
use rozo_mpprouter.Base.{
  ℕ, zero, suc, ◌+◌, ◌-◌, ◌*◌, String, Bool, true, false, not, ◌&&◌, ◌||◌, Option, none, some, List,
  [], ◌∷◌, ◌++◌, leb, ◌==◌, length, replicate, or_else, if◌then◌else◌,
}
use rozo_mpprouter.Playground.Amount.{Text, read_number, one_usdc, usdc_decimals, is_digit}

pub record Transaction : Type 0 where
  pub successful : Bool
  pub memo_type : Option String
  pub memo : Option String
  -- `created_at`, where it parses.
  pub closed_at : Option ℕ

pub record Operation : Type 0 where
  pub kind : Option String
  pub asset_code : Option String
  pub asset_issuer : Option String
  pub sender : Option String
  pub to : Option String
  pub amount : Option Text
  pub source_account : Option String

-- A request to Horizon: it throws, has another status than success, or a parsed body.
pub data HorizonReply (A : Type 0) : Type 0 where
  unreachable : HorizonReply A
  absent : HorizonReply A
  refused : HorizonReply A
  body : A → HorizonReply A

pub data DepositFailure : Type 0 where
  tx_not_found tx_failed memo_mismatch no_matching_payment horizon_unavailable : DepositFailure

pub data Verification : Type 0 where
  verified : ℕ → ℕ → Verification
  rejected : DepositFailure → Verification

pub record DepositArgs : Type 0 where
  pub tx_hash : Text
  pub memo : String
  pub destination : String
  pub account : String
  pub amount : ℕ

abbrev pub usdc_issuer : String
usdc_issuer = "GA5ZSEJYB37JRC5AVCIA5MOP4RHTM335X2KGX3IHOJAPP5RE34K4KZVN"

-- The part before the first point, and the part after it where there is one.
unfoldable pub split_point : Text → Text × Option Text
split_point [] = ([], none)
split_point (c ∷ s) =
    let (whole, frac) = split_point s in if c == b'.' then ([], some s) else (c ∷ whole, frac)

abbrev pub pad_zeros : Text → Text
pad_zeros frac = frac ++ replicate (usdc_decimals - length frac) b'0'

abbrev pub with_fraction : Option ℕ → Option ℕ → Option ℕ
with_fraction (some whole) (some frac) = some (whole * one_usdc + frac)
with_fraction (some whole) none = none
with_fraction none frac = none

-- Of a trimmed amount: digits, or digits with one to seven decimals.
unfoldable pub horizon_amount : Text → Option ℕ
horizon_amount s =
    let (whole, decimals) = split_point s in
    elim decimals [
      | none ↦ with_fraction (read_number whole) (some 0)
      | some frac ↦
          if leb 1 (length frac) && leb (length frac) usdc_decimals
          then with_fraction (read_number whole) (read_number (pad_zeros frac))
          else none
    ]

abbrev pub is_text : Option String → String → Bool
is_text none t = false
is_text (some s) t = str_eq s t

-- `a ?? b`
abbrev pub first_of : Option String → Option String → Option String
first_of none b = b
first_of (some a) b = some a

abbrev pub is_amount : Option ℕ → ℕ → Bool
is_amount none n = false
is_amount (some m) n = m == n

-- `!op.amount`: an empty amount is passed over too, as `trim` keeps it empty.
abbrev pub pays_amount : (Text → Text) → Option Text → ℕ → Bool
pays_amount trim none n = false
pays_amount trim (some s) n = is_amount (horizon_amount (trim s)) n

-- The conditions of the loop's body.
unfoldable pub matches : (Text → Text) → DepositArgs → Operation → Bool
matches trim args op =
    is_text op.kind "payment"
    && is_text op.to args.destination
    && is_text op.asset_code "USDC"
    && is_text op.asset_issuer usdc_issuer
    && is_text (first_of op.source_account op.sender) args.account
    && pays_amount trim op.amount args.amount

-- The loop, from an index on.
unfoldable pub first_match : (Text → Text) → DepositArgs → ℕ → List Operation → Option ℕ
first_match trim args index [] = none
first_match trim args index (op ∷ ops) =
    let rest = first_match trim args (suc index) ops in
    if matches trim args op then some index else rest

abbrev pub is_hex : ℕ → Bool
is_hex c = is_digit c || (leb b'a' c && leb c b'f') || (leb b'A' c && leb c b'F')

unfoldable pub all_hex : Text → Bool
all_hex [] = true
all_hex (c ∷ s) = is_hex c && all_hex s

abbrev pub is_hash : Text → Bool
is_hash s = length s == 64 && all_hex s

abbrev pub by_match : ℕ → Option ℕ → Verification
by_match confirmed_at none = rejected no_matching_payment
by_match confirmed_at (some index) = verified index confirmed_at

abbrev pub verify_operations :
    (Text → Text) → DepositArgs → ℕ → HorizonReply (List Operation) → Verification
verify_operations trim args confirmed_at (body ops) =
    by_match confirmed_at (first_match trim args 0 ops)
verify_operations trim args confirmed_at unreachable = rejected horizon_unavailable
verify_operations trim args confirmed_at absent = rejected horizon_unavailable
verify_operations trim args confirmed_at refused = rejected horizon_unavailable

abbrev pub verify_transaction :
    (Text → Text) → DepositArgs → ℕ → Transaction → HorizonReply (List Operation) → Verification
verify_transaction trim args now tx ops =
    if not tx.successful
    then rejected tx_failed
    else (if not (is_text tx.memo_type "text" && is_text tx.memo args.memo)
        then rejected memo_mismatch
        else verify_operations trim args (or_else tx.closed_at now) ops)

abbrev pub verify_reply :
    (Text → Text)
    → DepositArgs
    → ℕ
    → HorizonReply Transaction
    → HorizonReply (List Operation)
    → Verification
verify_reply trim args now (body tx) ops = verify_transaction trim args now tx ops
verify_reply trim args now unreachable ops = rejected horizon_unavailable
verify_reply trim args now absent ops = rejected tx_not_found
verify_reply trim args now refused ops = rejected horizon_unavailable

unfoldable pub verify_deposit :
    (Text → Text)
    → DepositArgs
    → ℕ
    → HorizonReply Transaction
    → HorizonReply (List Operation)
    → Verification
verify_deposit trim args now tx ops =
    if is_hash args.tx_hash then verify_reply trim args now tx ops else rejected tx_not_found
