-- ===== src/Gate/Admits.antt =====
-- How many requests the gate of src/routes/create-invoice-gate.ts lets pass in an hour.
use text.Mathlib.TextEquality.{eq_iff}
use rozo_mpprouter.Base.{
  ℕ, ◌+◌, ◌-◌, ◌≤◌, ◌<◌, String, ◌≡◌, ◌≢◌, refl, ◌∙◌, inl, inr, Bool, true, false, Option, some,
  List, [], ◌∷◌, arith, All, leb, ltb, Bool-cases, if◌then◌else◌,
}
use rozo_mpprouter.Base.Keys.{string_eq, ◌=?◌, beq_refl}
use rozo_mpprouter.Base.Dict.{lookup-insert_self}
use rozo_mpprouter.AtomicStore.{
  Store, value, set, write, CounterCodec, parse_gate_count, bump, gate,
}
use rozo_mpprouter.AtomicStore.Versions.{value-write_other}
use rozo_mpprouter.Gate.{
  GateLimits, GateDecision, allowed, ip_rate_limited, global_circuit_open, gate_decision,
  check_gate, Delivery, answered, unreached, unanswered,
}

abbrev pub is_allowed : GateDecision → Bool
is_allowed allowed = true
is_allowed (ip_rate_limited l s) = false
is_allowed (global_circuit_open l s) = false

module _ {V : Type 0} (codec : CounterCodec V) (bucket : String)
    (decode_encode : (n : ℕ) → codec.decode (codec.encode n bucket) ≡ some (n, bucket)) where
  -- The counter under a key in this hour.
  abbrev pub counted : String → Store V → ℕ
  counted k s = parse_gate_count codec (value k s) bucket

  counted-bump : (k : String) (s : Store V) → counted k (bump codec k bucket s).1 ≡ counted k s + 1
  unfolding bump write
  counted-bump k s =
      rw
        (
          lookup-insert_self k (codec.encode (counted k s + 1) bucket) s.values,
          decode_encode (counted k s + 1),
          beq_refl bucket,
        )
        refl

  counted-bump_other :
      (k j : String) (s : Store V) → k ≢ j → counted j (bump codec k bucket s).1 ≡ counted j s
  unfolding bump
  counted-bump_other k j s ne =
      let other : (k =? j) ≡ false = ground (arith, eq_iff k j) in
      rw (value-write_other k j (set (codec.encode (counted k s + 1) bucket)) s other) refl

  module _ (global_key : String) (limits : GateLimits) (now : ℕ) where
    -- The requests one after another, by address key and how the store's request ends: how many
    -- pass.
    unfoldable pub admitted : List (String × Delivery) → Store V → ℕ
    admitted [] s = 0
    admitted ((ip_key, delivery) ∷ rs) s =
        let (decision, t) = check_gate codec global_key ip_key bucket limits now delivery s in
        let rest = admitted rs t in if is_allowed decision then rest + 1 else rest

    -- The requests for which the store gave no answer.
    abbrev pub failures : List (String × Delivery) → ℕ
    failures [] = 0
    failures ((ip_key, answered) ∷ rs) = failures rs
    failures ((ip_key, unreached) ∷ rs) = failures rs + 1
    failures ((ip_key, unanswered) ∷ rs) = failures rs + 1

    -- One request counts under the global key, and passes only within the global limit.
    abbrev Within : Store V → (ℕ × Option ℕ) × Store V → Type 0
    Within s (reply, t) =
        (counted global_key t ≡ counted global_key s + 1)
        × (is_allowed (gate_decision limits now (some reply)) ≡ true
            → counted global_key s < limits.global_per_hour)

    gate-Within :
        (ip_key : String) (s : Store V)
        → ip_key ≢ global_key
        → Within s (gate codec global_key ip_key bucket limits.global_per_hour s)
    unfolding gate gate_decision bump
    gate-Within ip_key s ne =
        let t = (bump codec global_key bucket s).1 in
        elim (Bool-cases (leb (counted global_key s + 1) limits.global_per_hour)) [
          | inl within ↦
              rw (gate, within)
                (
                  counted-bump_other ip_key global_key t ne ∙ counted-bump global_key s,
                  λ e. ground (arith, within),
                )
          | inr over ↦
              let past : ltb limits.global_per_hour (counted global_key s + 1) ≡ true =
                ground (arith, over) in
              rw (gate, over)
                (
                  counted-bump global_key s,
                  λ e. absurd (ground (arith, rw (gate_decision, past) at e)),
                )
        ]

    -- In an hour the requests that pass are at most what the global limit leaves when they start, and
    -- one for each request that the store did not answer, whatever their addresses.
    pub admitted_bounded :
        (rs : List (String × Delivery)) (s : Store V)
        → All (λ r. r.0 ≢ global_key) rs
        → admitted rs s ≤ (limits.global_per_hour - counted global_key s) + failures rs
    unfolding admitted check_gate gate_decision
    admitted_bounded [] s h = omega arith
    admitted_bounded ((ip_key, answered) ∷ rs) s h =
        let g = gate codec global_key ip_key bucket limits.global_per_hour s in
        let w = gate-Within ip_key s h.0 in
        let ih = admitted_bounded rs g.1 h.1 in
        elim (Bool-cases (is_allowed (gate_decision limits now (some g.0)))) [
          | inl passed ↦ rw (admitted, passed) (omega (arith, ih, w.0, w.1 passed))
          | inr refused ↦ rw (admitted, refused) (omega (arith, ih, w.0))
        ]
    admitted_bounded ((ip_key, unreached) ∷ rs) s h =
        let ih = admitted_bounded rs s h.1 in omega (arith, ih)
    admitted_bounded ((ip_key, unanswered) ∷ rs) s h =
        let g = gate codec global_key ip_key bucket limits.global_per_hour s in
        let w = gate-Within ip_key s h.0 in
        let ih = admitted_bounded rs g.1 h.1 in omega (arith, ih, w.0)
