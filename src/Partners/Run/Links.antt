-- ===== src/Partners/Run/Links.antt =====
-- What a step of a worker in src/routes/partner-store.ts may change when it creates no coupon, and
-- how such changes follow each other.
use rozo_mpprouter.Base.{
  String, ◌≡◌, refl, subst, ◌∙◌, inl, inr, Bool, false, Option, none, some, arith, Bool-cases,
}
use rozo_mpprouter.Base.Keys.{◌=?◌, string_eq, pair_eq}
use rozo_mpprouter.Base.Dict.{lookup, insert, lookup-insert, lookup-insert_ne, measure}
use rozo_mpprouter.Partners.Types.{LedgerEntry, IdemKey, PartnerRecord, CouponRecord, Books}
use rozo_mpprouter.Partners.Ledger.{Mutation, put_partner}
use rozo_mpprouter.Partners.Ledger.Begun.{Link, IsBooked, balance}
use rozo_mpprouter.Partners.Issue.{issue_refund_key}
use rozo_mpprouter.Partners.Void.{put_coupon}

-- The same coupon, in what its issue has fixed.
pub record SameIssue (c d : CouponRecord) : Type 0 where
  pub tombstone : d.tombstone ≡ c.tombstone
  pub partner_id : d.partner_id ≡ c.partner_id
  pub issue_ledger_id : d.issue_ledger_id ≡ c.issue_ledger_id
  pub amount : d.amount ≡ c.amount

abbrev pub Evolves : Option CouponRecord → Option CouponRecord → Type 0
Evolves none none = Unit
Evolves none (some d) = ⊥
Evolves (some c) none = ⊥
Evolves (some c) (some d) = SameIssue c d

abbrev pub hits : Option (String × String) → String × String → Bool
hits none j = false
hits (some k) j = k =? j

-- `x` is the partner and the issue whose refund may be claimed.
pub record Moves (x : Option (String × String)) (w t : Books) : Type 0 where
  pub entries :
      (k : String × String) (e : LedgerEntry)
      → lookup k w.entries ≡ some e
      → lookup k t.entries ≡ some e
  pub coupons : (code : String) → Evolves (lookup code w.coupons) (lookup code t.coupons)
  pub claims :
      (partner_id op_id : String)
      → hits x (partner_id, op_id) ≡ false
      → lookup (partner_id, issue_refund_key op_id) t.claims
        ≡ lookup (partner_id, issue_refund_key op_id) w.claims
  pub booked : IsBooked w → IsBooked t

SameIssue-refl : (c : CouponRecord) → SameIssue c c
SameIssue-refl c = record {
  tombstone = refl;
  partner_id = refl;
  issue_ledger_id = refl;
  amount = refl;
}

pub Evolves-refl : (o : Option CouponRecord) → Evolves o o
Evolves-refl none = tt
Evolves-refl (some c) = SameIssue-refl c

Evolves-trans : (o p q : Option CouponRecord) → Evolves o p → Evolves p q → Evolves o q
Evolves-trans none none none h k = tt
Evolves-trans none none (some e) h k = k
Evolves-trans none (some d) q h k = absurd h
Evolves-trans (some c) none q h k = absurd h
Evolves-trans (some c) (some d) none h k = k
Evolves-trans (some c) (some d) (some e) h k = record {
  tombstone = k.tombstone ∙ h.tombstone;
  partner_id = k.partner_id ∙ h.partner_id;
  issue_ledger_id = k.issue_ledger_id ∙ h.issue_ledger_id;
  amount = k.amount ∙ h.amount;
}

pub Moves-refl : (x : Option (String × String)) (w : Books) → Moves x w w
Moves-refl x w = record {
  entries = λ k e h. h;
  coupons = λ code. Evolves-refl (lookup code w.coupons);
  claims = λ p o h. refl;
  booked = λ b. b;
}

pub Moves-trans :
    {x : Option (String × String)} {w t u : Books} → Moves x w t → Moves x t u → Moves x w u
Moves-trans {x} {w} {t} {u} f g = record {
  entries = λ k e h. g.entries k e (f.entries k e h);
  coupons = λ code. Evolves-trans _ (lookup code t.coupons) _ (f.coupons code) (g.coupons code);
  claims = λ p o h. g.claims p o h ∙ f.claims p o h;
  booked = λ b. g.booked (f.booked b);
}

abbrev pub full_key : String → IdemKey → String × IdemKey
full_key partner_id key = (partner_id, key)

abbrev op_key : String → String → String × String
op_key partner_id op_id = (partner_id, op_id)

refund_keys_differ :
    (partner_id op_id p o : String)
    → (op_key partner_id op_id =? op_key p o) ≡ false
    → (full_key p (issue_refund_key o) =? full_key partner_id (issue_refund_key op_id)) ≡ false
refund_keys_differ partner_id op_id p o h = ground (
  arith,
  h,
  string_eq.beq_iff partner_id p,
  string_eq.beq_iff p partner_id,
  string_eq.beq_iff op_id o,
  string_eq.beq_iff o op_id,
)

other_keys_differ :
    (partner_id p o : String) (key : IdemKey)
    → ("issue_refund" =? key.0) ≡ false
    → (full_key p (issue_refund_key o) =? full_key partner_id key) ≡ false
other_keys_differ partner_id p o (kind, rest) h = ground (arith, h)

pub keys_differ :
    (partner_id p o : String) (key : IdemKey)
    → ("issue_refund" =? key.0) ≡ false
    → (full_key partner_id key =? full_key p (issue_refund_key o)) ≡ false
keys_differ partner_id p o (kind, rest) h =
    ground (arith, h, string_eq.beq_iff "issue_refund" kind, string_eq.beq_iff kind "issue_refund")

-- A call of `applyLedger` under a key that is not a refund's.
pub Link-Moves :
    (partner_id : String) (m : Mutation) (w t : Books)
    → ("issue_refund" =? m.key.0) ≡ false
    → Link partner_id m w t
    → Moves none w t
Link-Moves partner_id m w t other link = record {
  entries = link.entries;
  coupons = λ code. rw link.coupons (Evolves-refl (lookup code w.coupons));
  claims =
      λ p o h. link.claims (p, issue_refund_key o) (other_keys_differ partner_id p o m.key other);
  booked = link.booked;
}

pub Link-Moves_refund :
    (partner_id op_id : String) (m : Mutation) (w t : Books)
    → m.key ≡ issue_refund_key op_id
    → Link partner_id m w t
    → Moves (some (partner_id, op_id)) w t
Link-Moves_refund partner_id op_id m w t key link = record {
  entries = link.entries;
  coupons = λ code. rw link.coupons (Evolves-refl (lookup code w.coupons));
  claims = λ p o h.
      link.claims (p, issue_refund_key o) (rw key (refund_keys_differ partner_id op_id p o h));
  booked = link.booked;
}

-- A write of a partner's record with the balance that it has.
pub put_partner-IsBooked :
    (partner_id : String) (o : Option PartnerRecord) (q : PartnerRecord) (w : Books)
    → lookup partner_id w.partners ≡ o
    → q.balance ≡ measure balance o
    → IsBooked w
    → IsBooked (put_partner partner_id q w)
put_partner-IsBooked partner_id o q w found same b =
    let balances : (j : String)
        → measure balance (lookup j (insert partner_id q w.partners))
          ≡ measure balance (lookup j w.partners) =
      λ j. elim (Bool-cases (partner_id =? j)) [
        | inl here ↦
            let at : lookup j w.partners ≡ o =
              subst (λ i. lookup i w.partners ≡ o) ((string_eq.beq_iff partner_id j).0 here)
                found in
            rw (lookup-insert, here, at) same
        | inr other ↦ rw (lookup-insert_ne partner_id j q w.partners other) refl
      ] in
    record {
      conserved = λ j. balances j ∙ b.conserved j;
      nonneg = λ j. rw (balances j) (b.nonneg j);
    }

pub put_partner-Moves :
    (x : Option (String × String)) (partner_id : String) (o : Option PartnerRecord)
    (q : PartnerRecord) (w : Books)
    → lookup partner_id w.partners ≡ o
    → q.balance ≡ measure balance o
    → Moves x w (put_partner partner_id q w)
put_partner-Moves x partner_id o q w found same = record {
  entries = λ k e h. h;
  coupons = λ code. Evolves-refl (lookup code w.coupons);
  claims = λ j op h. refl;
  booked = put_partner-IsBooked partner_id o q w found same;
}

-- A write of a coupon that leaves what its issue has fixed.
pub put_coupon-Moves :
    (x : Option (String × String)) (code : String) (c d : CouponRecord) (w : Books)
    → lookup code w.coupons ≡ some c
    → SameIssue c d
    → Moves x w (put_coupon code d w)
put_coupon-Moves x code c d w found same = record {
  entries = λ k e h. h;
  coupons = λ j. elim (Bool-cases (code =? j)) [
    | inl here ↦
        let at : lookup j w.coupons ≡ some c =
          subst (λ i. lookup i w.coupons ≡ some c) ((string_eq.beq_iff code j).0 here) found in
        rw (lookup-insert, here, at) same
    | inr other ↦ rw (lookup-insert_ne code j d w.coupons other) (Evolves-refl (lookup j w.coupons))
  ];
  claims = λ j o h. refl;
  booked = λ b. record { conserved = b.conserved; nonneg = b.nonneg };
}
