-- ===== src/AtomicStore/Versions.antt =====
-- Versions and values of src/mpp/atomic-store-do.ts from one request to a later one.
use text.Mathlib.TextEquality.{eq_iff}
use rozo_mpprouter.Base.{
  ℕ, ◌+◌, ◌≤◌, String, ◌≡◌, ◌≢◌, refl, inl, inr, false, List, [], ◌∷◌, arith, ◌==◌, leb, Bool-cases,
  Option-cases, All, if◌then◌else◌, ◌∙◌,
}
use rozo_mpprouter.Base.Keys.{string_eq, ◌=?◌}
use rozo_mpprouter.Base.Dict.{lookup-insert, lookup-remove}
use rozo_mpprouter.AtomicStore.{
  Store, value, version, Write, set, delete, write, commit, seed, CounterCodec, bump, gate, Request,
  commits, seeds, gates, reads, serve, serve_all,
}

-- From `s` to `t` the version of the key has not fallen, and an equal version means an equal value.
pub record Follows {V : Type 0} (k : String) (s t : Store V) : Type 0 where
  pub grows : version k s ≤ version k t
  pub same_value : version k t ≡ version k s → value k t ≡ value k s

pub Follows-refl : {V : Type 0} (k : String) (s : Store V) → Follows k s s
Follows-refl k s = record { grows = omega arith; same_value = λ e. refl }

pub Follows-trans :
    {V : Type 0} (k : String) (s t u : Store V) → Follows k s t → Follows k t u → Follows k s u
Follows-trans k s t u a b = record {
  grows = omega (arith, a.grows, b.grows);
  same_value = λ e.
      let e1 : version k u ≡ version k t = omega (arith, a.grows, b.grows) in
      let e2 : version k t ≡ version k s = omega (arith, a.grows, b.grows) in
      b.same_value e1 ∙ a.same_value e2;
}

pub version-write :
    {V : Type 0} (k j : String) (op : Write V) (s : Store V)
    → version j (write k op s) ≡ (if k =? j then version k s + 1 else version j s)
unfolding write
version-write k j op s = ground (arith, lookup-insert k j (version k s + 1) s.versions)

pub value-write_other :
    {V : Type 0} (k j : String) (op : Write V) (s : Store V)
    → (k =? j) ≡ false
    → value j (write k op s) ≡ value j s
unfolding write
value-write_other k j (set v) s other = rw (lookup-insert k j v s.values, other) refl
value-write_other k j delete s other = rw (lookup-remove k j s.values, other) refl

pub write-Follows :
    {V : Type 0} (k j : String) (op : Write V) (s : Store V) → Follows j s (write k op s)
write-Follows k j op s = elim (Bool-cases (k =? j)) [
  | inl same ↦
      let e : k ≡ j = (eq_iff k j).0 same in
      let v : version j (write k op s) ≡ version j s + 1 =
        rw (version-write k j op s, same, e) refl in
      record { grows = omega (arith, v); same_value = λ h. absurd (omega (arith, v)) }
  | inr other ↦
      let v : version j (write k op s) ≡ version j s = rw (version-write k j op s, other) refl in
      record { grows = omega (arith, v); same_value = λ h. value-write_other k j op s other }
]

pub commit-Follows :
    {V : Type 0} (k j : String) (n : ℕ) (op : Write V) (s : Store V)
    → Follows j s (commit k n op s).1
unfolding commit
commit-Follows k j n op s = elim (Bool-cases (version k s == n)) [
  | inl match ↦ rw match (write-Follows k j op s)
  | inr stale ↦ rw stale (Follows-refl j s)
]

gate-Follows :
    {V : Type 0} (codec : CounterCodec V) (g i b : String) (l : ℕ) (j : String) (s : Store V)
    → Follows j s (gate codec g i b l s).1
unfolding gate bump
gate-Follows codec g i b l j s = elim (Bool-cases (leb (bump codec g b s).0 l)) [
  | inl within ↦
      rw within
        (Follows-trans j s _ _ (write-Follows g j _ s) (write-Follows i j _ (bump codec g b s).1))
  | inr over ↦ rw over (write-Follows g j _ s)
]

-- The request does not seed the key.
abbrev pub KeepsVersion : {V : Type 0} → String → Request V → Type 0
KeepsVersion j (seeds k v) = k ≢ j
KeepsVersion j (commits k n op) = Unit
KeepsVersion j (gates g i b l) = Unit
KeepsVersion j reads = Unit

seed-Follows :
    {V : Type 0} (k j : String) (v : V) (s : Store V) → k ≢ j → Follows j s (seed k v s).1
unfolding seed
seed-Follows k j v s ne = elim (Option-cases (value k s)) [
  | inl missing ↦
      let other : (k =? j) ≡ false = ground (arith, eq_iff k j) in
      rw (missing, seed)
        (record {
          grows = rw (lookup-insert k j 1 s.versions, other) (omega arith);
          same_value = λ h. rw (lookup-insert k j v s.values, other) refl;
        })
  | inr (old, e) ↦ rw (e, seed) (Follows-refl j s)
]

pub serve-Follows :
    {V : Type 0} (codec : CounterCodec V) (r : Request V) (j : String) (s : Store V)
    → KeepsVersion j r
    → Follows j s (serve codec r s)
unfolding serve
serve-Follows codec (commits k n op) j s h = commit-Follows k j n op s
serve-Follows codec (seeds k v) j s h = seed-Follows k j v s h
serve-Follows codec (gates g i b l) j s h = gate-Follows codec g i b l j s
serve-Follows codec reads j s h = Follows-refl j s

-- Whatever requests are served, as long as none of them seeds the key: its version has not fallen,
-- and where it is the same the value is the same.
pub serve_all-Follows :
    {V : Type 0} (codec : CounterCodec V) (rs : List (Request V)) (j : String) (s : Store V)
    → All (KeepsVersion j) rs
    → Follows j s (serve_all codec rs s)
unfolding serve_all
serve_all-Follows codec [] j s h = Follows-refl j s
serve_all-Follows codec (r ∷ rs) j s h =
    Follows-trans j s _ _ (serve-Follows codec r j s h.0)
      (serve_all-Follows codec rs j (serve codec r s) h.1)
