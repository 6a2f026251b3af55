-- ===== src/SettlingOrder.antt =====
-- src/routes/settling-order.ts: which Rozo order pays a provider invoice. An id is a string that is
-- not empty, and `none` an id that is absent, null or empty.
pub mod Sound
use text.Mathlib.Text.{◌==◌ as str_eq}
use rozo_mpprouter.Base.{
  String, Bool, true, false, Option, none, some, List, [], ◌∷◌, ◌++◌, if◌then◌else◌,
}

pub record SettlingTrack : Type 0 where
  pub rozo : Option String
  pub settling : Option String
  pub duplicates : List String

pub data SettlingDecision : Type 0 where
  no_decision : SettlingDecision
  adopted : SettlingDecision
  same : SettlingDecision
  duplicate : SettlingDecision
  duplicate_seen : SettlingDecision

-- `a ?? b`
abbrev pub first_of : Option String → Option String → Option String
first_of none b = b
first_of (some a) b = some a

-- `includes`
unfoldable pub includes : List String → String → Bool
includes [] id = false
includes (x ∷ xs) id = let rest = includes xs id in if str_eq x id then true else rest

-- The order that settles; a record of before that field, once locked, follows its first order.
abbrev pub settling_id : SettlingTrack → Bool → Option String
settling_id rec locked = first_of rec.settling (if locked then rec.rozo else none)

abbrev pub track_against : SettlingTrack → String → Option String → SettlingDecision × SettlingTrack
track_against rec incoming none =
    (adopted, record rec { settling = some incoming; rozo = some incoming })
track_against rec incoming (some settling) =
    let known = record rec { settling = first_of rec.settling (some settling) } in
    if str_eq settling incoming
    then (same, known)
    else (if includes rec.duplicates incoming
        then (duplicate_seen, known)
        else (duplicate, record known { duplicates = rec.duplicates ++ incoming ∷ [] }))

unfoldable pub track_settling_order :
    SettlingTrack → Option String → Bool → Bool → SettlingDecision × SettlingTrack
track_settling_order rec none settles locked = (no_decision, rec)
track_settling_order rec (some incoming) settles locked =
    if settles
    then track_against rec incoming (settling_id rec locked)
    else (no_decision, record rec { rozo = first_of rec.rozo (some incoming) })
