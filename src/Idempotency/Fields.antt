-- ===== src/Idempotency/Fields.antt =====
-- Which fields the material of a key in src/mpp/idempotency.ts stands for.
use rozo_mpprouter.Base.{
  ℕ, zero, suc, ◌≡◌, refl, ap, sym, ◌∙◌, true, Option, none, some, List, [], ◌∷◌, ◌++◌, arith, All,
  length, take, ◌==◌, if◌then◌else◌,
}
use mathlib.Core.List.{append_assoc}
use rozo_mpprouter.Playground.Amount.{Text, is_digit, read_number}
use rozo_mpprouter.Playground.Usd.Decimal.{decimal, read_number-decimal, decimal-All}
use rozo_mpprouter.Idempotency.{length_prefixed, joined}

-- A reader of one field, to tell the fields apart again.
abbrev split_colon : Text → Text × Text
split_colon [] = ([], [])
split_colon (c ∷ s) =
    let (before, after) = split_colon s in if c == b':' then ([], s) else (c ∷ before, after)

abbrev drop : ℕ → Text → Text
drop zero s = s
drop (suc n) [] = []
drop (suc n) (c ∷ s) = drop n s

abbrev cut : Text → Option ℕ → Option (Text × Text)
cut s none = none
cut s (some n) = some (take n s, drop n s)

abbrev first_field : Text → Option (Text × Text)
first_field s = let (before, after) = split_colon s in cut after (read_number before)

split_colon-append :
    (w r : Text) → All (λ c. is_digit c ≡ true) w → split_colon (w ++ b':' ∷ r) ≡ (w, r)
split_colon-append [] r h = refl
split_colon-append (c ∷ w) r h = ground (arith, h.0, split_colon-append w r h.1)

take-length : (s r : Text) → take (length s) (s ++ r) ≡ s
take-length [] r = refl
take-length (c ∷ s) r = ap (λ q. c ∷ q) (take-length s r)

drop-length : (s r : Text) → drop (length s) (s ++ r) ≡ r
drop-length [] r = refl
drop-length (c ∷ s) r = drop-length s r

first_field-length_prefixed :
    (value r : Text) → first_field (length_prefixed value ++ r) ≡ some (value, r)
unfolding length_prefixed
first_field-length_prefixed value r =
    rw
      (
        append_assoc,
        split_colon-append (decimal (length value)) (value ++ r) (decimal-All (length value)),
        read_number-decimal (length value),
        take-length value r,
        drop-length value r,
      )
      refl

abbrev paired : Text → Text → Option (Text × Text)
paired a b = some (a, b)

pair_of : {a b c d : Text} → paired a b ≡ paired c d → (a ≡ c) × (b ≡ d)
pair_of e = (cc e, cc e)

-- No field can take on a part of its neighbour.
pub joined_injective : (xs ys : List Text) → length xs ≡ length ys → joined xs ≡ joined ys → xs ≡ ys
unfolding joined
joined_injective [] [] n e = refl
joined_injective [] (y ∷ ys) n e = absurd (omega (arith, n))
joined_injective (x ∷ xs) [] n e = absurd (omega (arith, n))
joined_injective (x ∷ xs) (y ∷ ys) n e =
    let (same, rest) = pair_of (
      sym (first_field-length_prefixed x (joined xs))
      ∙ ap first_field e
      ∙ first_field-length_prefixed y (joined ys)) in
    rw (same, joined_injective xs ys (omega (arith, n)) rest) refl
