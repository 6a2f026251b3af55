-- ===== src/Idempotency/Keys.antt =====
-- What one cache key of src/mpp/idempotency.ts stands for.
use rozo_mpprouter.Base.{
  ◌≡◌, ◌≢◌, ◌⊎◌, refl, inl, inr, [], ◌∷◌, ◌++◌, arith, Bool-cases, ◌==◌, ==_iff, or_else,
}
use rozo_mpprouter.Playground.Amount.{Text}
use rozo_mpprouter.Idempotency.{
  IdempotencyParams, X402ReplayParams, idempotency_key_prefix, x402_replay_key_prefix, joined,
  idempotency_fields, build_idempotency_key, x402_fields, build_x402_replay_key,
}
use rozo_mpprouter.Idempotency.Fields.{joined_injective}

compare_texts : (s t : Text) → (s ≡ t) ⊎ (s ≢ t)
compare_texts [] [] = inl refl
compare_texts [] (d ∷ t) = inr λ e. grind (arith, e)
compare_texts (c ∷ s) [] = inr λ e. grind (arith, e)
compare_texts (c ∷ s) (d ∷ t) = elim (Bool-cases (c == d)) [
  | inr other ↦ inr λ e. grind (arith, e, ==_iff c d, other)
  | inl same ↦ elim (compare_texts s t) [
    | inl rest ↦ inl (rw ((==_iff c d).0 same, rest) refl)
    | inr differ ↦ inr λ e. differ (cc e)
  ]
]

append_cancel : (s t r : Text) → s ++ t ≡ s ++ r → t ≡ r
append_cancel [] t r e = e
append_cancel (c ∷ s) t r e = append_cancel s t r (cc e)

module _ (sha256_hex : Text → Text) where
  -- Two texts with one digest.
  abbrev pub Collision : Type 0
  Collision = (s : Text) × (t : Text) × (s ≢ t) × (sha256_hex s ≡ sha256_hex t)

  same_or_collision : (s t : Text) → sha256_hex s ≡ sha256_hex t → (s ≡ t) ⊎ Collision
  same_or_collision s t e = elim (compare_texts s t) [
    | inl same ↦ inl same
    | inr differ ↦ inr (s, t, differ, e)
  ]

  -- The two requests agree in all that their keys are made of.
  pub record SameRequest (p q : IdempotencyParams) : Type 0 where
    pub payer : p.payer ≡ q.payer
    pub route_id : p.route_id ≡ q.route_id
    pub method : p.method ≡ q.method
    pub upstream_path : p.upstream_path ≡ q.upstream_path
    pub forwarded_search : p.forwarded_search ≡ q.forwarded_search
    pub request_id : p.request_id ≡ q.request_id
    pub body : or_else p.body [] ≡ or_else q.body []

  SameRequest-bodies :
      (p q : IdempotencyParams)
      → idempotency_fields sha256_hex p ≡ idempotency_fields sha256_hex q
      → SameRequest p q ⊎ Collision
  SameRequest-bodies p q e =
      elim (same_or_collision (or_else p.body []) (or_else q.body []) (cc e)) [
        | inr collision ↦ inr collision
        | inl body ↦ inl (record {
          payer = cc e;
          route_id = cc e;
          method = cc e;
          upstream_path = cc e;
          forwarded_search = cc e;
          request_id = cc e;
          body = body;
        })
      ]

  -- Two requests with one cache key agree in the payer, the route, the method, the path, the query,
  -- the request id and the body (an absent body being the empty one), or they exhibit two texts
  -- with one digest.
  pub build_idempotency_key_injective :
      (p q : IdempotencyParams)
      → build_idempotency_key sha256_hex p ≡ build_idempotency_key sha256_hex q
      → SameRequest p q ⊎ Collision
  unfolding build_idempotency_key
  build_idempotency_key_injective p q e =
      elim (same_or_collision (joined (idempotency_fields sha256_hex p))
        (joined (idempotency_fields sha256_hex q)) (append_cancel idempotency_key_prefix _ _ e)) [
          | inr collision ↦ inr collision
          | inl same ↦ SameRequest-bodies p q (
              joined_injective (idempotency_fields sha256_hex p) (idempotency_fields sha256_hex q)
                refl same)
        ]

  pub record SamePayment (p q : X402ReplayParams) : Type 0 where
    pub payload_hash : p.payload_hash ≡ q.payload_hash
    pub route_id : p.route_id ≡ q.route_id
    pub method : p.method ≡ q.method
    pub upstream_path : p.upstream_path ≡ q.upstream_path
    pub forwarded_search : p.forwarded_search ≡ q.forwarded_search
    pub body : or_else p.body [] ≡ or_else q.body []

  SamePayment-bodies :
      (p q : X402ReplayParams)
      → x402_fields sha256_hex p ≡ x402_fields sha256_hex q
      → SamePayment p q ⊎ Collision
  SamePayment-bodies p q e =
      elim (same_or_collision (or_else p.body []) (or_else q.body []) (cc e)) [
        | inr collision ↦ inr collision
        | inl body ↦ inl (record {
          payload_hash = cc e;
          route_id = cc e;
          method = cc e;
          upstream_path = cc e;
          forwarded_search = cc e;
          body = body;
        })
      ]

  -- Two requests with one replay key agree in the signed payload's hash, the route, the method, the
  -- path, the query and the body, or they exhibit two texts with one digest; and their replay key
  -- is not the cache key of any request of the other payment methods.
  pub build_x402_replay_key_injective :
      (p q : X402ReplayParams) (r : IdempotencyParams)
      → build_x402_replay_key sha256_hex p ≡ build_x402_replay_key sha256_hex q
      → (SamePayment p q ⊎ Collision)
        × (build_x402_replay_key sha256_hex p ≢ build_idempotency_key sha256_hex r)
  unfolding build_x402_replay_key build_idempotency_key
  build_x402_replay_key_injective p q r e = (
    elim (same_or_collision (joined (x402_fields sha256_hex p)) (joined (x402_fields sha256_hex q))
        (append_cancel x402_replay_key_prefix _ _ e)) [
          | inr collision ↦ inr collision
          | inl same ↦
              SamePayment-bodies p q
                (joined_injective (x402_fields sha256_hex p) (x402_fields sha256_hex q) refl same)
        ],
    λ same. grind (arith, same),
  )
