-- ===== src/SettlingOrder/Sound.antt =====
-- Sequences of reports to the settling order of src/routes/settling-order.ts.
use text.Mathlib.Text.{◌==◌ as str_eq}
use text.Mathlib.TextEquality.{eq_iff}
use rozo_mpprouter.Base.{
  String, ◌≡◌, refl, sym, subst, inl, inr, Bool, true, false, Option, none, some, List, [], ◌∷◌,
  ◌++◌, arith, Bool-cases, Option-cases, All, if◌then◌else◌,
}
use rozo_mpprouter.Base.Keys.{string_eq, beq_refl}
use rozo_mpprouter.SettlingOrder.{
  SettlingTrack, first_of, includes, settling_id, track_against, track_settling_order,
}

-- A report: the order's id, whether it settles, and whether the record is locked.
pub record Report : Type 0 where
  pub incoming : Option String
  pub settles : Bool
  pub locked : Bool

unfoldable pub track_all : List Report → SettlingTrack → SettlingTrack
track_all [] rec = rec
track_all (r ∷ rs) rec = track_all rs (track_settling_order rec r.incoming r.settles r.locked).1

abbrev pub AllOnce : List String → Type 0
AllOnce [] = Unit
AllOnce (x ∷ xs) = (includes xs x ≡ false) × AllOnce xs

-- The duplicates stand once each, and the settling order is none of them.
abbrev pub Apart : Option String → List String → Type 0
Apart none ds = ds ≡ []
Apart (some s) ds = (includes ds s ≡ false) × AllOnce ds

includes-append :
    (xs : List String) (y id : String)
    → includes (xs ++ y ∷ []) id ≡ (if includes xs id then true else str_eq y id)
unfolding includes
includes-append [] y id = ground arith
includes-append (x ∷ xs) y id = ground (arith, includes-append xs y id)

AllOnce-append :
    (xs : List String) (y : String) → AllOnce xs → includes xs y ≡ false → AllOnce (xs ++ y ∷ [])
unfolding includes
AllOnce-append [] y h n = (refl, tt)
AllOnce-append (x ∷ xs) y h n =
    let other : str_eq y x ≡ false = ground (arith, eq_iff x y, eq_iff y x, n) in
    let later : includes xs y ≡ false = ground (arith, n) in
    (rw (includes-append xs y x, h.0) other, AllOnce-append xs y h.1 later)

abbrev pub Keeps : Option String → SettlingTrack → Type 0
Keeps none rec = Apart rec.settling rec.duplicates
Keeps (some s) rec = (rec.settling ≡ some s) × Apart (some s) rec.duplicates

track_against-known :
    (rec : SettlingTrack) (incoming s : String)
    → first_of rec.settling (some s) ≡ some s
    → Apart (some s) rec.duplicates
    → Keeps (some s) (track_against rec incoming (some s)).1
track_against-known rec incoming s e h = elim (Bool-cases (str_eq s incoming)) [
  | inl equal ↦ rw (equal, track_against) (e, h)
  | inr other ↦ elim (Bool-cases (includes rec.duplicates incoming)) [
    | inl seen ↦ rw (other, track_against, seen) (e, h)
    | inr new ↦
        let unlike : str_eq incoming s ≡ false =
          ground (arith, eq_iff s incoming, eq_iff incoming s, other) in
        rw (other, track_against, new)
          (
            e,
            (
              rw (includes-append rec.duplicates incoming s, h.0) unlike,
              AllOnce-append rec.duplicates incoming h.1 new,
            ),
          )
  ]
]

Keeps-Apart :
    (o : Option String) (rec : SettlingTrack) → Keeps o rec → Apart rec.settling rec.duplicates
Keeps-Apart none rec h = h
Keeps-Apart (some s) rec h = subst (λ o. Apart o rec.duplicates) (sym h.0) h.1

track_settled-Keeps :
    (rec : SettlingTrack) (r : Report) (s : String)
    → rec.settling ≡ some s
    → Apart (some s) rec.duplicates
    → Keeps (some s) (track_settling_order rec r.incoming r.settles r.locked).1
unfolding track_settling_order
track_settled-Keeps rec r s e h = elim (Option-cases r.incoming) [
  | inl absent ↦ rw (absent, track_settling_order) (e, h)
  | inr (incoming, named) ↦ elim (Bool-cases r.settles) [
    | inr quiet ↦ rw (named, track_settling_order, quiet) (e, h)
    | inl paid ↦
        let at : settling_id rec r.locked ≡ some s = rw (e, settling_id) refl in
        let first : first_of rec.settling (some s) ≡ some s = rw (e, first_of) refl in
        rw (named, track_settling_order, paid)
          (subst (λ o. Keeps (some s) (track_against rec incoming o).1) (sym at)
            (track_against-known rec incoming s first h))
  ]
]

track_unsettled-Apart :
    (rec : SettlingTrack) (r : Report)
    → rec.settling ≡ none
    → rec.duplicates ≡ []
    → let next = (track_settling_order rec r.incoming r.settles r.locked).1 in
      Apart next.settling next.duplicates
unfolding track_settling_order includes
track_unsettled-Apart rec r e h = elim (Option-cases r.incoming) [
  | inl absent ↦ rw (absent, track_settling_order, e) h
  | inr (incoming, named) ↦ elim (Bool-cases r.settles) [
    | inr quiet ↦ rw (named, track_settling_order, quiet, e) h
    | inl paid ↦ elim (Option-cases (settling_id rec r.locked)) [
      | inl fresh ↦
          rw (named, track_settling_order, paid)
            (subst
              (λ o.
                let next = (track_against rec incoming o).1 in Apart next.settling next.duplicates)
              (sym fresh) (rw h (refl, tt)))
      | inr (s, legacy) ↦
          let first : first_of rec.settling (some s) ≡ some s = rw (e, first_of) refl in
          let bare : Apart (some s) rec.duplicates = rw h (refl, tt) in
          rw (named, track_settling_order, paid)
            (subst
              (λ o.
                let next = (track_against rec incoming o).1 in Apart next.settling next.duplicates)
              (sym legacy)
              (Keeps-Apart (some s) (track_against rec incoming (some s)).1
                (track_against-known rec incoming s first bare)))
    ]
  ]
]

track_all-Keeps_from :
    (rs : List Report) (rec : SettlingTrack) (o : Option String)
    → Keeps o rec
    → Keeps o (track_all rs rec)
unfolding track_all
track_all-Keeps_from [] rec o h = h
track_all-Keeps_from (r ∷ rs) rec (some s) h =
    track_all-Keeps_from rs (track_settling_order rec r.incoming r.settles r.locked).1 (some s)
      (track_settled-Keeps rec r s h.0 h.1)
track_all-Keeps_from (r ∷ rs) rec none h = elim (Option-cases rec.settling) [
  | inl e ↦
      track_all-Keeps_from rs (track_settling_order rec r.incoming r.settles r.locked).1 none
        (track_unsettled-Apart rec r e (subst (λ o. Apart o rec.duplicates) e h))
  | inr (s, e) ↦
      track_all-Keeps_from rs (track_settling_order rec r.incoming r.settles r.locked).1 none (
        Keeps-Apart (some s) (track_settling_order rec r.incoming r.settles r.locked).1
          (track_settled-Keeps rec r s e (subst (λ o. Apart o rec.duplicates) e h)))
]

-- From a record without a settling order, whatever reports come, duplicates stand once each, none
-- without a settling order, and the settling order is none of them.
pub track_all-Apart :
    (rs : List Report) (rec : SettlingTrack)
    → Apart rec.settling rec.duplicates
    → Apart (track_all rs rec).settling (track_all rs rec).duplicates
track_all-Apart rs rec h = track_all-Keeps_from rs rec none h

-- An order whose payment is reported, other than the settling one, stands among the duplicates.
abbrev pub IsListed : String → List String → Report → Type 0
IsListed s ds r =
    (id : String)
    → r.incoming ≡ some id
    → r.settles ≡ true
    → str_eq s id ≡ false
    → includes ds id ≡ true

track_settled-IsListed :
    (rec : SettlingTrack) (r : Report) (s : String)
    → rec.settling ≡ some s
    → IsListed s (track_settling_order rec r.incoming r.settles r.locked).1.duplicates r
unfolding track_settling_order
track_settled-IsListed rec r s e id named paid other =
    let at : settling_id rec r.locked ≡ some s = rw (e, settling_id) refl in
    rw (named, track_settling_order, paid, at, other)
      (elim (Bool-cases (includes rec.duplicates id)) [
        | inl seen ↦ rw seen seen
        | inr new ↦ rw new (rw (includes-append rec.duplicates id id, new) (beq_refl id))
      ])

track_settled_keeps :
    (rec : SettlingTrack) (r : Report) (s id : String)
    → rec.settling ≡ some s
    → includes rec.duplicates id ≡ true
    → includes (track_settling_order rec r.incoming r.settles r.locked).1.duplicates id ≡ true
unfolding track_settling_order
track_settled_keeps rec r s id e h = elim (Option-cases r.incoming) [
  | inl absent ↦ rw (absent, track_settling_order) h
  | inr (incoming, named) ↦ elim (Bool-cases r.settles) [
    | inr quiet ↦ rw (named, track_settling_order, quiet) h
    | inl paid ↦
        let at : settling_id rec r.locked ≡ some s = rw (e, settling_id) refl in
        elim (Bool-cases (str_eq s incoming)) [
          | inl same ↦ rw (named, track_settling_order, paid, at, same) h
          | inr other ↦ elim (Bool-cases (includes rec.duplicates incoming)) [
            | inl seen ↦ rw (named, track_settling_order, paid, at, other, seen) h
            | inr new ↦
                rw (named, track_settling_order, paid, at, other, new)
                  (rw (includes-append rec.duplicates incoming id, h) refl)
          ]
        ]
  ]
]

track_all_keeps :
    (rs : List Report) (rec : SettlingTrack) (s id : String)
    → rec.settling ≡ some s
    → Apart (some s) rec.duplicates
    → includes rec.duplicates id ≡ true
    → includes (track_all rs rec).duplicates id ≡ true
unfolding track_all
track_all_keeps [] rec s id e h listed = listed
track_all_keeps (r ∷ rs) rec s id e h listed =
    let k = track_settled-Keeps rec r s e h in
    track_all_keeps rs (track_settling_order rec r.incoming r.settles r.locked).1 s id k.0 k.1
      (track_settled_keeps rec r s id e listed)

track_all-IsListed :
    (rs : List Report) (rec : SettlingTrack) (s : String)
    → rec.settling ≡ some s
    → Apart (some s) rec.duplicates
    → All (IsListed s (track_all rs rec).duplicates) rs
unfolding track_all
track_all-IsListed [] rec s e h = tt
track_all-IsListed (r ∷ rs) rec s e h =
    let next = (track_settling_order rec r.incoming r.settles r.locked).1 in
    let k = track_settled-Keeps rec r s e h in
    (
      λ id named paid other.
          track_all_keeps rs next s id k.0 k.1
            (track_settled-IsListed rec r s e id named paid other),
      track_all-IsListed rs next s k.0 k.1,
    )

-- Once an order settles the invoice, no reports change which; every other order whose payment is
-- reported is then listed as a duplicate, each listed once and the settling one never.
pub track_all-settling :
    (rs : List Report) (rec : SettlingTrack) (s : String)
    → rec.settling ≡ some s
    → Apart (some s) rec.duplicates
    → Keeps (some s) (track_all rs rec) × All (IsListed s (track_all rs rec).duplicates) rs
track_all-settling rs rec s e h =
    (track_all-Keeps_from rs rec (some s) (e, h), track_all-IsListed rs rec s e h)
