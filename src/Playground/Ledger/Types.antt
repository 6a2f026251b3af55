-- ===== src/Playground/Ledger/Types.antt =====
-- The stored rows of `PlaygroundLedger`, its storage, and the shape of its handlers.
-- An atomic amount in storage is the integer that its decimal string denotes; an amount in a
-- request body is still text. A key prefix of the storage is a field, and a key under it is the
-- part behind the prefix: `dep:<account>:<day>` is the pair of the account and the day.
use rozo_mpprouter.Base.{
  ℕ, ◌+◌, ◌-◌, ◌*◌, ◌/◌, String, Bool, true, false, Option, none, some, List, [], leb, or_else,
  if◌then◌else◌,
}
use rozo_mpprouter.Base.Int.{ℤ, pos}
use rozo_mpprouter.Base.Keys.{string_eq, pair_eq, nat_eq}
use rozo_mpprouter.Base.Dict.{Dict, lookup}
use rozo_mpprouter.Playground.Amount.{Text, parse_atomic}

pub data IntentStatus : Type 0 where
  opened consumed expired over_cap : IntentStatus

pub record StoredIntent : Type 0 where
  pub intent_id : String
  pub account : String
  pub amount : ℤ
  pub memo : String
  pub destination : String
  pub created_at : ℕ
  pub expires_at : ℕ
  pub status : IntentStatus
  pub tx_hash : Option String
  pub op_index : Option ℕ
  pub session_jti : Option String
  pub session_exp : Option ℕ

pub data CallStatus : Type 0 where
  reserved committed released : CallStatus

-- An optional flag that is absent reads as `false`.
pub record StoredCall : Type 0 where
  pub call_id : String
  pub account : String
  pub chip : String
  pub model : Option String
  pub status : CallStatus
  pub max_price : ℤ
  pub charged : ℤ
  pub at : ℕ
  pub dispatched : Bool
  pub release_reason : Option String
  pub reaped : Bool
  pub reaped_release_possible_paid : Bool

pub data CapReason : Type 0 where
  over_day over_global : CapReason

-- The row `overcap:<intent_id>` that support refunds from.
pub record OverCap : Type 0 where
  pub intent_id : String
  pub account : String
  pub amount : ℤ
  pub tx_hash : String
  pub op_index : ℕ
  pub reason : CapReason
  pub at : ℕ

-- The codes of `err(...)` with their details; the message texts are left out.
pub data Code : Type 0 where
  invalid_amount intent_not_found intent_already_used payment_already_claimed : Code
  intent_expired memo_collision call_not_found : Code
  rate_limited : ℕ → Code
  deposit_cap_exceeded global_cap_exceeded : ℤ → ℤ → Code
  too_many_open_intents : ℤ → ℕ → Code
  deposit_exceeds_cap : Option (CapReason × ℤ × ℤ × ℤ × ℤ) → Code

pub record Ledger : Type 0 where
  pub intents : Dict String StoredIntent
  pub memos : Dict String String
  pub consumed_by : Dict (String × ℕ) String
  pub balances : Dict String ℤ
  pub deposits : Dict (String × ℕ) ℤ
  pub rates : Dict (String × ℕ) ℤ
  pub open_slots : Dict String ℤ
  pub calls : Dict String StoredCall
  pub history : Dict String (List String)
  pub over_caps : Dict String OverCap
  pub credited : ℤ
  pub committed_total : ℤ
  pub outstanding : ℤ
  pub alarm_at : Option ℕ

unfoldable pub empty : Ledger
empty = record {
  intents = [];
  memos = [];
  consumed_by = [];
  balances = [];
  deposits = [];
  rates = [];
  open_slots = [];
  calls = [];
  history = [];
  over_caps = [];
  credited = pos 0;
  committed_total = pos 0;
  outstanding = pos 0;
  alarm_at = none;
}

abbrev pub balance_of : String → Ledger → ℤ
balance_of account s = or_else (lookup account s.balances) (pos 0)

abbrev pub deposited_on : String → ℕ → Ledger → ℤ
deposited_on account day s = or_else (lookup (account, day) s.deposits) (pos 0)

abbrev pub rate_in : String → ℕ → Ledger → ℤ
rate_in account hour s = or_else (lookup (account, hour) s.rates) (pos 0)

abbrev pub slots_of : String → Ledger → ℤ
slots_of account s = or_else (lookup account s.open_slots) (pos 0)

-- The keys that `toISOString().slice(0, 10)` and `.slice(0, 13)` give are equal just where the
-- counts of whole days and of whole hours since the epoch are.
abbrev pub utc_day_key : ℕ → ℕ
utc_day_key now = now / 86400000

abbrev pub utc_hour_key : ℕ → ℕ
utc_hour_key now = now / 3600000

-- Milliseconds are rounded up to whole seconds, and to at least one.
unfoldable pub seconds_until_next_hour : ℕ → ℕ
seconds_until_next_hour now =
    let next = (utc_hour_key now + 1) * 3600000 in
    let secs = (next - now + 999) / 1000 in if leb secs 1 then 1 else secs

abbrev pub reserved_lease_ms : ℕ
reserved_lease_ms = 300000

abbrev pub reaper_interval_ms : ℕ
reaper_interval_ms = 60000

-- `Result<T>`, and an exception, after which the storage is as it was before the call.
pub data Reply {ℓ} (A : Type ℓ) : Type ℓ where
  ok : A → Reply A
  err : Code → Reply A
  throws : Reply A

-- A handler; what it has written stays written when it returns an `err`.
abbrev pub Action : Type 0 → Type 0
Action A = Ledger → Reply A × Ledger

abbrev pub pure : {A : Type 0} → A → Action A
pure a s = (ok a, s)

abbrev pub fail : {A : Type 0} → Code → Action A
fail c s = (err c, s)

abbrev pub bind_reply : {A B : Type 0} → Reply A × Ledger → (A → Action B) → Reply B × Ledger
bind_reply (ok a, t) f = f a t
bind_reply (err c, t) f = (err c, t)
bind_reply (throws, t) f = (throws, t)

infixl 5 ◌>>=◌ ◌>>◌
abbrev pub ◌>>=◌ : {A B : Type 0} → Action A → (A → Action B) → Action B
◌>>=◌ m f s = bind_reply (m s) f

abbrev pub ◌>>◌ : {A B : Type 0} → Action A → Action B → Action B
m >> k = m >>= λ _. k

abbrev pub fail_if : Bool → Code → Action (Unit {0})
fail_if true c s = (err c, s)
fail_if false c s = (ok tt, s)

abbrev pub or_fail : {A : Type 0} → Option A → Code → Action A
or_fail none c s = (err c, s)
or_fail (some a) c s = (ok a, s)

abbrev pub gets : {A : Type 0} → (Ledger → A) → Action A
gets f s = (ok (f s), s)

abbrev pub modify : (Ledger → Ledger) → Action (Unit {0})
modify f s = (ok tt, f s)

-- `parseAtomic(text)`
abbrev pub parse : Text → Action ℤ
parse text s = (elim (parse_atomic text) [ none ↦ throws | some n ↦ ok n ], s)

-- `storage.transaction`: an exception rolls its writes back to `s`.
abbrev pub roll_back : {A : Type 0} → Ledger → Reply A × Ledger → Reply A × Ledger
roll_back s (ok a, t) = (ok a, t)
roll_back s (err c, t) = (err c, t)
roll_back s (throws, t) = (throws, s)

abbrev pub transaction : {A : Type 0} → Action A → Action A
transaction m s = roll_back s (m s)
