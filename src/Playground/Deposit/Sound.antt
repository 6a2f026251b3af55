-- ===== src/Playground/Deposit/Sound.antt =====
-- Which operation src/playground/deposit.ts accepts as a deposit.
use text.Mathlib.TextEquality.{eq_iff}
use rozo_mpprouter.Base.{
  ℕ, String, ◌⊎◌, ◌↔◌, ==_iff, Bool, zero, suc, ◌+◌, ◌≡◌, refl, subst, inl, inr, true, false, ◌&&◌,
  Option, none, some, List, [], ◌∷◌, arith, All, Bool-cases, or_else,
}
use rozo_mpprouter.Playground.Amount.{Text}
use rozo_mpprouter.Playground.Deposit.{
  Transaction, Operation, HorizonReply, unreachable, absent, refused, body, DepositArgs,
  Verification, verified, rejected, tx_failed, memo_mismatch, no_matching_payment, is_text, is_hash,
  is_amount, first_of, pays_amount, horizon_amount, matches, first_match, by_match,
  verify_operations, verify_transaction, verify_reply, verify_deposit, usdc_issuer,
}

is_text_iff : (o : Option String) (t : String) → (is_text o t ≡ true) ↔ (o ≡ some t)
is_text_iff none t = ground arith
is_text_iff (some s) t = ground (arith, eq_iff s t)

is_amount_iff : (o : Option ℕ) (n : ℕ) → (is_amount o n ≡ true) ↔ (o ≡ some n)
is_amount_iff none n = ground arith
is_amount_iff (some m) n = ground (arith, ==_iff m n)

payer_parts :
    (a b : Option String) (t : String)
    → (is_text (first_of a b) t ≡ true) ↔ ((a ≡ some t) ⊎ ((a ≡ none) × (b ≡ some t)))
payer_parts none b t = ground (arith, is_text_iff b t)
payer_parts (some s) b t = ground (arith, eq_iff s t)

amount_parts :
    (trim : Text → Text) (o : Option Text) (n : ℕ)
    → pays_amount trim o n ≡ true
    → (text : Text) × (o ≡ some text) × (horizon_amount (trim text) ≡ some n)
amount_parts trim none n h = absurd (ground (arith, h))
amount_parts trim (some text) n h = (text, refl, (is_amount_iff (horizon_amount (trim text)) n).0 h)

six_parts :
    (a b c d e f : Bool)
    → (a && b && c && d && e && f) ≡ true
    → (a ≡ true) × (b ≡ true) × (c ≡ true) × (d ≡ true) × (e ≡ true) × (f ≡ true)
six_parts a b c d e f h = (
  ground (arith, h),
  ground (arith, h),
  ground (arith, h),
  ground (arith, h),
  ground (arith, h),
  ground (arith, h),
)

module _ (trim : Text → Text) (args : DepositArgs) where
  -- The operation pays the deposit: USDC of Circle's issuer, from the account to the destination, in
  -- exactly the amount.
  pub record Pays (op : Operation) : Type 0 where
    pub payment : op.kind ≡ some "payment"
    pub destination : op.to ≡ some args.destination
    pub code : op.asset_code ≡ some "USDC"
    pub issuer : op.asset_issuer ≡ some "GA5ZSEJYB37JRC5AVCIA5MOP4RHTM335X2KGX3IHOJAPP5RE34K4KZVN"
    pub payer :
        (op.source_account ≡ some args.account)
        ⊎ ((op.source_account ≡ none) × (op.sender ≡ some args.account))
    pub text : Text
    pub listed : op.amount ≡ some text
    pub exact : horizon_amount (trim text) ≡ some args.amount

  matches-Pays : (op : Operation) → matches trim args op ≡ true → Pays op
  unfolding matches
  matches-Pays op h =
      let (kind, to, code, issuer, payer, amount) =
        six_parts (is_text op.kind "payment") (is_text op.to args.destination)
          (is_text op.asset_code "USDC") (is_text op.asset_issuer usdc_issuer)
          (is_text (first_of op.source_account op.sender) args.account)
          (pays_amount trim op.amount args.amount) h in
      let (text, listed, exact) = amount_parts trim op.amount args.amount amount in
      record {
        payment = (is_text_iff op.kind "payment").0 kind;
        destination = (is_text_iff op.to args.destination).0 to;
        code = (is_text_iff op.asset_code "USDC").0 code;
        issuer = (is_text_iff op.asset_issuer usdc_issuer).0 issuer;
        payer = (payer_parts op.source_account op.sender args.account).0 payer;
        text = text;
        listed = listed;
        exact = exact;
      }

  Pays-matches : (op : Operation) → Pays op → matches trim args op ≡ true
  unfolding matches
  Pays-matches op p =
      let kind = (is_text_iff op.kind "payment").1 p.payment in
      let to = (is_text_iff op.to args.destination).1 p.destination in
      let code = (is_text_iff op.asset_code "USDC").1 p.code in
      let issuer = (is_text_iff op.asset_issuer usdc_issuer).1 p.issuer in
      let payer = (payer_parts op.source_account op.sender args.account).1 p.payer in
      let amount : pays_amount trim op.amount args.amount ≡ true =
        rw p.listed ((is_amount_iff (horizon_amount (trim p.text)) args.amount).1 p.exact) in
      rw (kind, to, code, issuer, payer, amount) refl

  unmatched : (op : Operation) → matches trim args op ≡ false → ¬ Pays op
  unmatched op h p = ground (arith, Pays-matches op p, h)

  -- The operation at the index pays the deposit, and none before it does.
  abbrev pub PaidAt : ℕ → List Operation → Type 0
  PaidAt n [] = ⊥
  PaidAt zero (op ∷ ops) = Pays op
  PaidAt (suc n) (op ∷ ops) = (¬ Pays op) × PaidAt n ops

  -- What the search from an index on may give.
  abbrev pub Found : ℕ → List Operation → Option ℕ → Type 0
  Found from ops none = All (λ op. ¬ Pays op) ops
  Found from ops (some index) = (n : ℕ) × (index ≡ from + n) × PaidAt n ops

  Found-later :
      (from : ℕ) (op : Operation) (ops : List Operation) (o : Option ℕ)
      → (¬ Pays op)
      → Found (suc from) ops o
      → Found from (op ∷ ops) o
  Found-later from op ops none h f = (h, f)
  Found-later from op ops (some index) h (n, e, p) = (suc n, omega (arith, e), (h, p))

  first_match-Found :
      (from : ℕ) (ops : List Operation) → Found from ops (first_match trim args from ops)
  unfolding first_match
  first_match-Found from [] = tt
  first_match-Found from (op ∷ ops) = elim (Bool-cases (matches trim args op)) [
    | inl pays ↦ rw (first_match, pays) (zero, omega arith, matches-Pays op pays)
    | inr other ↦
        rw (first_match, other)
          (Found-later from op ops _ (unmatched op other) (first_match-Found (suc from) ops))
  ]

  abbrev pub Accepted :
      ℕ → HorizonReply Transaction → HorizonReply (List Operation) → ℕ → ℕ → Type 0
  Accepted now (body tx) (body ops) index confirmed_at =
      (tx.successful ≡ true)
      × (tx.memo_type ≡ some "text")
      × (tx.memo ≡ some args.memo)
      × (confirmed_at ≡ or_else tx.closed_at now)
      × PaidAt index ops
  Accepted now tx ops index confirmed_at = ⊥

  abbrev pub NonePays : HorizonReply (List Operation) → Type 0
  NonePays (body ops) = All (λ op. ¬ Pays op) ops
  NonePays ops = ⊥

  abbrev pub Verifies :
      ℕ → HorizonReply Transaction → HorizonReply (List Operation) → Verification → Type 0
  Verifies now tx ops (verified index confirmed_at) = Accepted now tx ops index confirmed_at
  Verifies now tx ops (rejected why) = elim why [ no_matching_payment ↦ NonePays ops | _ ↦ Unit ]

  by_match-Verifies :
      (now : ℕ) (tx : Transaction) (ops : List Operation) (o : Option ℕ)
      → tx.successful ≡ true
      → is_text tx.memo_type "text" ≡ true
      → is_text tx.memo args.memo ≡ true
      → Found 0 ops o
      → Verifies now (body tx) (body ops) (by_match (or_else tx.closed_at now) o)
  by_match-Verifies now tx ops none s t m f = f
  by_match-Verifies now tx ops (some index) s t m (n, e, p) =
      let same : n ≡ index = omega (arith, e) in
      (
        s,
        (is_text_iff tx.memo_type "text").0 t,
        (is_text_iff tx.memo args.memo).0 m,
        refl,
        subst (λ k. PaidAt k ops) same p,
      )

  verify_operations-Verifies :
      (now : ℕ) (tx : Transaction) (ops : HorizonReply (List Operation))
      → tx.successful ≡ true
      → is_text tx.memo_type "text" ≡ true
      → is_text tx.memo args.memo ≡ true
      → Verifies now (body tx) ops (verify_operations trim args (or_else tx.closed_at now) ops)
  verify_operations-Verifies now tx (body ops) s t m =
      by_match-Verifies now tx ops _ s t m (first_match-Found 0 ops)
  verify_operations-Verifies now tx unreachable s t m = tt
  verify_operations-Verifies now tx absent s t m = tt
  verify_operations-Verifies now tx refused s t m = tt

  verify_transaction-failed :
      (now : ℕ) (tx : Transaction) (ops : HorizonReply (List Operation))
      → tx.successful ≡ false
      → verify_transaction trim args now tx ops ≡ rejected tx_failed
  verify_transaction-failed now tx ops h = rw (verify_transaction, h) refl

  verify_transaction-foreign :
      (now : ℕ) (tx : Transaction) (ops : HorizonReply (List Operation))
      → tx.successful ≡ true
      → (is_text tx.memo_type "text" && is_text tx.memo args.memo) ≡ false
      → verify_transaction trim args now tx ops ≡ rejected memo_mismatch
  verify_transaction-foreign now tx ops h m = rw (verify_transaction, m, h) refl

  verify_transaction-matching :
      (now : ℕ) (tx : Transaction) (ops : HorizonReply (List Operation))
      → tx.successful ≡ true
      → (is_text tx.memo_type "text" && is_text tx.memo args.memo) ≡ true
      → verify_transaction trim args now tx ops
        ≡ verify_operations trim args (or_else tx.closed_at now) ops
  verify_transaction-matching now tx ops h m = rw (verify_transaction, m, h) refl

  verify_transaction-Verifies :
      (now : ℕ) (tx : Transaction) (ops : HorizonReply (List Operation))
      → Verifies now (body tx) ops (verify_transaction trim args now tx ops)
  verify_transaction-Verifies now tx ops = elim (Bool-cases tx.successful) [
    | inr failed ↦ rw (verify_transaction-failed now tx ops failed) tt
    | inl done ↦ elim (Bool-cases (is_text tx.memo_type "text" && is_text tx.memo args.memo)) [
      | inr other ↦ rw (verify_transaction-foreign now tx ops done other) tt
      | inl both ↦
          let text : is_text tx.memo_type "text" ≡ true = ground (arith, both) in
          let memo : is_text tx.memo args.memo ≡ true = ground (arith, both) in
          rw (verify_transaction-matching now tx ops done both)
            (verify_operations-Verifies now tx ops done text memo)
    ]
  ]

  -- An accepted deposit: Horizon knows the transaction, it succeeded with the intent's text memo, and
  -- the index is that of its first operation that pays the deposit: a payment of USDC of Circle's
  -- issuer, from the account to the destination, whose listed amount reads as the amount. Where the answer is that no
  -- payment matches, none of the operations pays it.
  pub verify_deposit-Verifies :
      (now : ℕ) (tx : HorizonReply Transaction) (ops : HorizonReply (List Operation))
      → Verifies now tx ops (verify_deposit trim args now tx ops)
  unfolding verify_deposit
  verify_deposit-Verifies now tx ops = elim (Bool-cases (is_hash args.tx_hash)) [
    | inr bad ↦ rw (verify_deposit, bad) tt
    | inl hash ↦ rw (verify_deposit, hash) (verify_reply-Verifies tx)
  ]
    where
      verify_reply-Verifies :
          (tx : HorizonReply Transaction) → Verifies now tx ops (verify_reply trim args now tx ops)
      verify_reply-Verifies (body tx) = verify_transaction-Verifies now tx ops
      verify_reply-Verifies unreachable = tt
      verify_reply-Verifies absent = tt
      verify_reply-Verifies refused = tt
