-- ===== src/Tests/Amounts.antt =====
-- Runs of the printers and the reader of src/playground/amount.ts, and of the keys of
-- src/mpp/idempotency.ts.
use rozo_mpprouter.Base.{◌≡◌, ◌≢◌, ◌⊎◌, refl, Option, none, some, []}
use rozo_mpprouter.Base.Int.{pos, negsuc}
use rozo_mpprouter.Playground.Amount.{Text, read_number, read_digits}
use rozo_mpprouter.Playground.Deposit.{split_point}
use rozo_mpprouter.Playground.Usd.{format_usdc7, format_usd, parse_usd}
use rozo_mpprouter.Playground.Usd.Padding.{KeepsVisible}
use rozo_mpprouter.Playground.Usd.RoundTrip.{parse_usd-format_usdc7, parse_usd-format_usd}
use rozo_mpprouter.Idempotency.{
  IdempotencyParams, X402ReplayParams, codes, build_idempotency_key, build_x402_replay_key,
}
use rozo_mpprouter.Idempotency.Keys.{
  Collision, SameRequest, SamePayment, build_idempotency_key_injective,
  build_x402_replay_key_injective,
}

abbrev untrimmed : Text → Text
untrimmed s = s

abbrev untrimmed-KeepsVisible : KeepsVisible untrimmed
untrimmed-KeepsVisible s visible = refl

-- More than seven decimals, an exponent, and a lone point.
refused_amounts :
    (parse_usd untrimmed (codes "0.00000001") ≡ none)
    × (parse_usd untrimmed (codes "1e3") ≡ none)
    × (parse_usd untrimmed (codes "1.") ≡ none)
unfolding parse_usd split_point read_number read_digits
refused_amounts = (refl, refl, refl)

parse_usd-format_usdc7_example :
    parse_usd untrimmed (format_usdc7 (negsuc 12345678)) ≡ some (negsuc 12345678)
parse_usd-format_usdc7_example =
    parse_usd-format_usdc7 untrimmed untrimmed-KeepsVisible (negsuc 12345678)

parse_usd-format_usd_example : parse_usd untrimmed (format_usd (pos 200000)) ≡ some (pos 200000)
parse_usd-format_usd_example = parse_usd-format_usd untrimmed untrimmed-KeepsVisible (pos 200000)

-- The identity in place of the digest.
abbrev plain : Text → Text
plain s = s

abbrev request : Option Text → IdempotencyParams
request body = record {
  request_id = codes "r1";
  route_id = codes "openrouter";
  payer = codes "GA";
  method = codes "POST";
  upstream_path = codes "/v1/chat";
  forwarded_search = [];
  body = body;
}

build_idempotency_key_injective_example :
    SameRequest plain (request none) (request (some [])) ⊎ Collision plain
unfolding build_idempotency_key
build_idempotency_key_injective_example =
    build_idempotency_key_injective plain (request none) (request (some [])) refl

abbrev payment : Option Text → X402ReplayParams
payment body = record {
  payload_hash = codes "ab";
  route_id = codes "openrouter";
  method = codes "POST";
  upstream_path = codes "/v1/chat";
  forwarded_search = [];
  body = body;
}

build_x402_replay_key_injective_example :
    (SamePayment plain (payment none) (payment (some [])) ⊎ Collision plain)
    × (build_x402_replay_key plain (payment none) ≢ build_idempotency_key plain (request none))
unfolding build_x402_replay_key
build_x402_replay_key_injective_example =
    build_x402_replay_key_injective plain (payment none) (payment (some [])) (request none) refl
