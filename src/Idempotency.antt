-- ===== src/Idempotency.antt =====
-- src/mpp/idempotency.ts: the cache keys of the paid proxy path. A string is the list of its UTF-8
-- bytes. `sha256Hex` is an argument: the digest is the platform's.
pub mod Fields
pub mod Keys
use Prim.Native.String
use Prim.Native.Char.{code}
use rozo_mpprouter.Base.{String, Option, List, [], ◌∷◌, ◌++◌, length, or_else}
use rozo_mpprouter.Playground.Amount.{Text}
use rozo_mpprouter.Playground.Usd.Decimal.{decimal}

-- The bytes of a literal, which is ASCII here.
abbrev pub codes : String → Text
codes String.[] = []
codes (String.◌∷◌ c s) = code c ∷ codes s

abbrev pub idempotency_key_prefix : Text
idempotency_key_prefix = codes "idempotency:v2:"

abbrev pub x402_replay_key_prefix : Text
x402_replay_key_prefix = codes "idempotency:x402:"

pub record IdempotencyParams : Type 0 where
  pub request_id : Text
  pub route_id : Text
  pub payer : Text
  pub method : Text
  pub upstream_path : Text
  pub forwarded_search : Text
  pub body : Option Text

pub record X402ReplayParams : Type 0 where
  pub payload_hash : Text
  pub route_id : Text
  pub method : Text
  pub upstream_path : Text
  pub forwarded_search : Text
  pub body : Option Text

unfoldable pub length_prefixed : Text → Text
length_prefixed value = decimal (length value) ++ b':' ∷ value

-- `fields.map(lengthPrefixed).join('')`
unfoldable pub joined : List Text → Text
joined [] = []
joined (value ∷ values) = length_prefixed value ++ joined values

module _ (sha256_hex : Text → Text) where
  abbrev pub body_hash : Option Text → Text
  body_hash body = sha256_hex (or_else body [])

  abbrev pub idempotency_fields : IdempotencyParams → List Text
  idempotency_fields p =
      p.payer
      ∷ p.route_id
      ∷ p.method
      ∷ p.upstream_path
      ∷ p.forwarded_search
      ∷ p.request_id
      ∷ body_hash p.body
      ∷ []

  unfoldable pub build_idempotency_key : IdempotencyParams → Text
  build_idempotency_key p = idempotency_key_prefix ++ sha256_hex (joined (idempotency_fields p))

  abbrev pub x402_fields : X402ReplayParams → List Text
  x402_fields p =
      p.payload_hash
      ∷ p.route_id
      ∷ p.method
      ∷ p.upstream_path
      ∷ p.forwarded_search
      ∷ body_hash p.body
      ∷ []

  unfoldable pub build_x402_replay_key : X402ReplayParams → Text
  build_x402_replay_key p = x402_replay_key_prefix ++ sha256_hex (joined (x402_fields p))
