-- ===== src/RateLimit/Counts.antt =====
-- What the counters of src/mpp/rate-limit-do.ts grant.
use rozo_mpprouter.Base.{
  ℕ, zero, suc, ◌+◌, ◌≤◌, ◌<◌, String, ◌≡◌, refl, subst, inl, inr, Option, none, some, List, arith,
  leb, Bool-cases, if◌then◌else◌,
}
use rozo_mpprouter.Base.Keys.{string_eq, beq_refl}
use rozo_mpprouter.Base.Dict.{lookup-insert_self}
use rozo_mpprouter.AtomicStore.{Store, value, set, write, CounterCodec, Request}
use rozo_mpprouter.AtomicStore.Client.Linear.{atomic_update, Linear, Tame, update-Linear}
use rozo_mpprouter.RateLimit.{LimitResult, used_in, bump_within, check_and_bump, max_cas_retries}

module _ {V : Type 0} (codec : CounterCodec V) (k window : String) (limit : ℕ)
    (decode_encode : (n : ℕ) → codec.decode (codec.encode n window) ≡ some (n, window)) where
  -- The window's counter as the store holds it.
  abbrev pub used_now : Store V → ℕ
  used_now s = used_in codec (value k s) window

  used_now-write : (n : ℕ) (s : Store V) → used_now (write k (set (codec.encode n window)) s) ≡ n
  unfolding write
  used_now-write n s =
      rw (lookup-insert_self k (codec.encode n window) s.values, decode_encode n, beq_refl window)
        refl

  -- What an answer means: a granted call is counted in the store and within the limit; a refused
  -- one found the limit reached.
  abbrev pub Counts : LimitResult × Store V → Type 0
  Counts (r, t) =
      (r.limit ≡ limit)
      × (used_now t ≡ r.used)
      × (if r.ok then (0 < r.used) × (r.used ≤ limit) else (limit ≤ r.used))

  bump_within-Counts : (s : Store V) → Counts (atomic_update k (bump_within codec window limit) s)
  unfolding bump_within
  bump_within-Counts s = elim (Bool-cases (leb limit (used_now s))) [
    | inl full ↦ rw (full, bump_within) (refl, refl, ground (arith, full))
    | inr room ↦
        rw (room, bump_within)
          (refl, used_now-write (used_now s + 1) s, (omega arith, ground (arith, room)))
  ]

  abbrev pub CountsIf : Option LimitResult × Store V → Type 0
  CountsIf (none, t) = Unit
  CountsIf (some r, t) = Counts (r, t)

  Linear-CountsIf :
      (others : List (List (Request V))) (s : Store V) (p : Option LimitResult × Store V)
      → Linear codec k (bump_within codec window limit) others s p
      → CountsIf p
  Linear-CountsIf others s (none, t) h = tt
  Linear-CountsIf others s (some r, t) (n, e) = subst Counts e (bump_within-Counts _)

  -- Whatever other clients do to the store between the reads and the commits, short of seeding the
  -- key: an answer that the call returns is true of the store it leaves.
  pub check_and_bump-Counts :
      (others : List (List (Request V))) (s : Store V)
      → Tame codec k (bump_within codec window limit) others
      → CountsIf (check_and_bump codec k window limit others s)
  unfolding check_and_bump
  check_and_bump-Counts others s h =
      Linear-CountsIf others s _
        (update-Linear codec k (bump_within codec window limit) max_cas_retries others s h)

  -- Calls one after another, with the number of those granted.
  unfoldable pub grants : ℕ → Store V → ℕ × Store V
  grants zero s = (0, s)
  grants (suc n) s =
      let (r, t) = atomic_update k (bump_within codec window limit) s in
      let (granted, u) = grants n t in ((if r.ok then granted + 1 else granted), u)

  -- However many calls are made in a window, those granted and those counted before are together at
  -- most the limit, when those before were; and each granted call is counted.
  pub grants_bounded :
      (n : ℕ) (s : Store V)
      → used_now s ≤ limit
      → ((grants n s).0 + used_now s ≡ used_now (grants n s).1) × (used_now (grants n s).1 ≤ limit)
  unfolding grants bump_within
  grants_bounded zero s h = (omega arith, h)
  grants_bounded (suc n) s h = elim (Bool-cases (leb limit (used_now s))) [
    | inl full ↦ rw (full, grants, bump_within) (grants_bounded n s h)
    | inr room ↦
        let t : Store V = write k (set (codec.encode (used_now s + 1) window)) s in
        let counted : used_now t ≡ used_now s + 1 = used_now-write (used_now s + 1) s in
        let free : used_now s < limit = ground (arith, room) in
        let ih = grants_bounded n t (omega (arith, counted, free)) in
        rw (room, grants, bump_within) (omega (arith, ih.0, counted), ih.1)
  ]
