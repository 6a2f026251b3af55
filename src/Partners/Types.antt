-- ===== src/Partners/Types.antt =====
-- The records of src/routes/partner-store.ts, and the coupon record of src/routes/coupon.ts in the
-- part of it that partners' coupons use. An instant is its milliseconds; what a JSON record leaves
-- out or holds as null is `none`; credentials and event lists are left out.
use rozo_mpprouter.Base.{
  ℕ, String, Bool, false, Option, none, some, List, [], ◌∷◌, ltb, length, take, if◌then◌else◌,
}
use rozo_mpprouter.Base.Int.{ℤ}
use rozo_mpprouter.Base.Keys.{◌=?◌, string_eq}
use rozo_mpprouter.Base.Dict.{Dict}

abbrev pub pending_stale_ms : ℕ
pending_stale_ms = 60000

abbrev pub max_pending_ops : ℕ
max_pending_ops = 50

abbrev pub max_coupon_index : ℕ
max_coupon_index = 200

abbrev pub max_ledger_index : ℕ
max_ledger_index = 500

abbrev pub max_idem_keys : ℕ
max_idem_keys = 200

pub data LedgerKind : Type 0 where
  topup issue_hold void_refund expire_refund adjust : LedgerKind

pub record LedgerEntry : Type 0 where
  pub id : String
  pub partner_id : String
  pub made_at : ℕ
  pub kind : LedgerKind
  pub delta : ℤ
  pub balance_after : Option ℤ
  pub ref : Option String
  pub source_address : Option String
  pub operator : Option String

pub record PendingIssue : Type 0 where
  pub op_id : String
  pub client_key : String
  pub code : String
  pub amount : ℤ
  pub made_at : ℕ

pub record PendingRefund : Type 0 where
  pub refund_op_id : String
  pub code : String
  pub amount : ℤ
  pub kind : LedgerKind
  pub made_at : ℕ

pub record CouponIndexEntry : Type 0 where
  pub code : String
  pub amount : ℤ
  pub credits : Option String
  pub issued_at : ℕ
  pub expires_at : ℕ

-- An idempotency key, without the partner's id: one of the four prefixes `topup`, `issue`,
-- `issue_refund` and `refund`, and what stands behind its colon.
abbrev pub IdemKey : Type 0
IdemKey = String × String

-- `{ k, e, c? }`
pub record Applied : Type 0 where
  pub k : IdemKey
  pub e : String
  pub c : Option String

pub record PartnerRecord : Type 0 where
  pub id : String
  pub email : String
  pub suspended : Bool
  pub balance : ℤ
  pub created_at : ℕ
  pub pending_issues : List PendingIssue
  pub pending_refunds : List PendingRefund
  pub coupon_index : List CouponIndexEntry
  pub ledger_index : List String
  pub applied : List Applied

pub data CouponStatus : Type 0 where
  issued redeeming paying redeemed manual_review void : CouponStatus

pub record CouponRecord : Type 0 where
  pub code : String
  pub amount : ℤ
  pub status : CouponStatus
  pub issued_at : ℕ
  pub expires_at : ℕ
  pub payment_proof : Option String
  pub redeeming_at : Option ℕ
  pub attempt_id : Option String
  pub pl_id : Option String
  pub redeemed_at : Option ℕ
  pub failure_reason : Option String
  pub invoice_key : Option String
  pub paid_amount : Option ℤ
  pub partner_id : Option String
  pub issue_ledger_id : Option String
  pub refund_ledger_id : Option String
  pub tombstone : Bool
  pub refund_op_id : Option String
  pub refund_pending : Bool

pub data ClaimState : Type 0 where
  settled pending released : ClaimState

-- The record of one idempotency key; `settled` is the source's `done`.
pub record Claim : Type 0 where
  pub state : ClaimState
  pub made_at : ℕ
  pub entry : Option String
  pub coupon : Option String

pub data PartnerError : Type 0 where
  partner_not_found partner_suspended insufficient_balance coupon_not_found : PartnerError
  coupon_not_refundable not_your_coupon code_allocation_failed too_many_pending : PartnerError
  issue_in_flight invalid_amount : PartnerError

-- What a call gives: it throws, or returns.
pub data Attempt {ℓ} (A : Type ℓ) : Type ℓ where
  threw : PartnerError → Attempt A
  gave : A → Attempt A

-- The keys of the store: `partner:`, the coupons', `pidem:` and `pledger:`.
pub record Books : Type 0 where
  pub partners : Dict String PartnerRecord
  pub coupons : Dict String CouponRecord
  pub claims : Dict (String × IdemKey) Claim
  pub entries : Dict (String × String) LedgerEntry

-- A call of which only the exception matters.
abbrev pub without_reply {ℓ} : {A : Type ℓ} → Attempt A × Books → Attempt (Unit {0}) × Books
without_reply (threw e, w) = (threw e, w)
without_reply (gave a, w) = (gave tt, w)

abbrev pub push_bounded {ℓ} : {A : Type ℓ} → List A → A → ℕ → List A
push_bounded xs x max = let ys = x ∷ xs in if ltb max (length ys) then take max ys else ys

-- Whether an optional text is this one.
abbrev pub is_text : Option String → String → Bool
is_text none t = false
is_text (some s) t = s =? t

-- `xs.splice(i, 1)` at the first element that passes the test.
unfoldable pub remove_first {ℓ} : {A : Type ℓ} → (A → Bool) → List A → List A
remove_first test [] = []
remove_first test (x ∷ xs) = let rest = remove_first test xs in if test x then xs else x ∷ rest

-- `xs.find(test)`
unfoldable pub find_first {ℓ} : {A : Type ℓ} → (A → Bool) → List A → Option A
find_first test [] = none
find_first test (x ∷ xs) = let rest = find_first test xs in if test x then some x else rest
