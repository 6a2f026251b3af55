-- ===== src/Channel/Writeoffs.antt =====
-- The write-off aggregate of src/playground/channel-voucher-store.ts.
use text.Mathlib.TextEquality.{eq_iff}
use rozo_mpprouter.Base.{
  ℕ, ◌+◌, String, ◌≡◌, refl, inl, inr, Option, none, some, List, [], ◌∷◌, arith, length, or_else,
  Bool-cases, Option-cases,
}
use rozo_mpprouter.Base.Keys.{string_eq, ◌=?◌}
use rozo_mpprouter.Base.Dict.{Dict, lookup, insert, lookup-insert, lookup-insert_self}
use rozo_mpprouter.Channel.{Recon, no_writeoffs, count_writeoff}
use rozo_mpprouter.Channel.Changes.{stored}

unfoldable pub count_writeoffs : List (String × ℕ) → Option Recon → Option Recon
count_writeoffs [] o = o
count_writeoffs ((c, n) ∷ ws) o = count_writeoffs ws (stored (count_writeoff c n o) o)

abbrev pub sum_values : Dict String ℕ → ℕ
sum_values [] = 0
sum_values ((c, n) ∷ m) = n + sum_values m

-- The count is that of the channels, the total the sum of their amounts.
abbrev pub IsTallied : Option Recon → Type 0
IsTallied o =
    let r = or_else o no_writeoffs in
    (r.count ≡ length r.channels) × (r.total ≡ sum_values r.channels)

insert_absent :
    (c : String) (n : ℕ) (m : Dict String ℕ)
    → lookup c m ≡ none
    → (length (insert c n m) ≡ length m + 1) × (sum_values (insert c n m) ≡ sum_values m + n)
unfolding lookup insert
insert_absent c n [] h = (refl, omega arith)
insert_absent c n ((d, k) ∷ m) h = elim (Bool-cases (d =? c)) [
  | inl same ↦ absurd (ground (arith, rw same at h))
  | inr other ↦
      let ih = insert_absent c n m (rw other at h) in
      rw other (omega (arith, ih.0), omega (arith, ih.1))
]

count_writeoff-IsTallied :
    (c : String) (n : ℕ) (o : Option Recon)
    → IsTallied o
    → IsTallied (stored (count_writeoff c n o) o)
unfolding count_writeoff
count_writeoff-IsTallied c n o h =
    elim (Option-cases (lookup c (or_else o no_writeoffs).channels)) [
      | inl new ↦
          let g = insert_absent c n (or_else o no_writeoffs).channels new in
          rw (new, count_writeoff) (omega (arith, g.0, h.0), omega (arith, g.1, h.1))
      | inr (m, old) ↦ rw (old, count_writeoff) h
    ]

count_writeoffs-IsTallied_from :
    (ws : List (String × ℕ)) (o : Option Recon) → IsTallied o → IsTallied (count_writeoffs ws o)
unfolding count_writeoffs
count_writeoffs-IsTallied_from [] o h = h
count_writeoffs-IsTallied_from ((c, n) ∷ ws) o h =
    count_writeoffs-IsTallied_from ws _ (count_writeoff-IsTallied c n o h)

-- After any write-offs, repeated ones among them, the count and the total of the aggregate are those
-- of its channels.
pub count_writeoffs-IsTallied : (ws : List (String × ℕ)) → IsTallied (count_writeoffs ws none)
count_writeoffs-IsTallied ws = count_writeoffs-IsTallied_from ws none (refl, refl)

-- The amount that is counted for a channel.
abbrev pub entry : String → Option Recon → Option ℕ
entry c o = lookup c (or_else o no_writeoffs).channels

entry-count_writeoff :
    (c d : String) (n m : ℕ) (o : Option Recon)
    → entry c o ≡ some m
    → entry c (stored (count_writeoff d n o) o) ≡ some m
unfolding count_writeoff
entry-count_writeoff c d n m o h =
    elim (Option-cases (lookup d (or_else o no_writeoffs).channels)) [
      | inl new ↦
          let r = or_else o no_writeoffs in
          rw (new, count_writeoff)
            (ground (arith, lookup-insert d c n r.channels, eq_iff d c, new, h))
      | inr (k, old) ↦ rw (old, count_writeoff) h
    ]

entry-count_writeoffs :
    (c : String) (m : ℕ) (ws : List (String × ℕ)) (o : Option Recon)
    → entry c o ≡ some m
    → entry c (count_writeoffs ws o) ≡ some m
unfolding count_writeoffs
entry-count_writeoffs c m [] o h = h
entry-count_writeoffs c m ((d, n) ∷ ws) o h =
    entry-count_writeoffs c m ws _ (entry-count_writeoff c d n m o h)

-- The first write-off of a channel is the one counted: later ones, of any amount, change nothing.
pub count_writeoffs-first :
    (c : String) (n : ℕ) (ws : List (String × ℕ)) (o : Option Recon)
    → entry c o ≡ none
    → entry c (count_writeoffs ((c, n) ∷ ws) o) ≡ some n
unfolding count_writeoffs count_writeoff
count_writeoffs-first c n ws o new =
    entry-count_writeoffs c n ws _
      (rw (new, count_writeoff) (lookup-insert_self c n (or_else o no_writeoffs).channels))
