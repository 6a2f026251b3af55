-- ===== src/Tests/Stores.antt =====
-- Runs of the atomic store (src/mpp/atomic-store-do.ts), its clients and the settling order.
use rozo_mpprouter.Base.{
  All, ℕ, ◌+◌, ◌≤◌, String, ◌≡◌, refl, true, false, Option, none, some, List, [], ◌∷◌, arith,
  is_some,
}
use rozo_mpprouter.Base.Dict.{lookup, insert}
use rozo_mpprouter.AtomicStore.{
  Store, set, delete, CounterCodec, Request, commits, gates, write, commit, serve, serve_all, bump,
  gate,
}
use rozo_mpprouter.AtomicStore.Versions.{Follows, serve_all-Follows}
use rozo_mpprouter.AtomicStore.Client.{Change, change, update, update_loop, cas_update}
use rozo_mpprouter.AtomicStore.Client.Linear.{
  Linear, update-Linear, update_returns, cas_update-Linear,
}
use rozo_mpprouter.RateLimit.{check_and_bump}
use rozo_mpprouter.RateLimit.Counts.{
  CountsIf, check_and_bump-Counts, used_now, grants, grants_bounded,
}
use rozo_mpprouter.SettlingOrder.{SettlingTrack, track_settling_order, includes}
use rozo_mpprouter.SettlingOrder.Sound.{
  Report, track_all, Apart, Keeps, IsListed, track_all-Apart, track_all-settling,
}

-- Counters stored as they are.
abbrev plain : CounterCodec (ℕ × String)
plain = record { encode = λ n b. (n, b); decode = λ v. some v }

abbrev counters : Store (ℕ × String)
counters = record {
  values = ("a", (2, "day")) ∷ ("b", (7, "old")) ∷ [];
  versions = ("a", 2) ∷ ("b", 9) ∷ [];
}

-- Others take a slot of the counter, and work on another.
abbrev others : List (List (Request (ℕ × String)))
others = (commits "a" 2 (set (3, "day")) ∷ []) ∷ (gates "g" "b" "day" 5 ∷ []) ∷ []

abbrev raise : Option (ℕ × String) → Change (ℕ × String) ℕ
raise none = change (set (1, "day")) 1
raise (some (n, b)) = change (set (n + 10, b)) (n + 10)

-- The first attempt meets a conflict, the second one commits.
update_conflict : (update plain "a" raise 5 others counters).0 ≡ some 13
unfolding update update_loop commit write serve_all serve gate bump lookup insert
update_conflict = refl

serve_all-Follows_example :
    Follows "a" counters
      (serve_all plain (commits "a" 2 delete ∷ commits "a" 7 delete ∷ []) counters)
serve_all-Follows_example =
    serve_all-Follows plain (commits "a" 2 delete ∷ commits "a" 7 delete ∷ []) "a" counters
      (tt, (tt, tt))

update-Linear_example :
    Linear plain "a" raise others counters (update plain "a" raise 5 others counters)
update-Linear_example = update-Linear plain "a" raise 5 others counters ((tt, tt), ((tt, tt), tt))

update_returns_example : is_some (update plain "a" raise 5 others counters).0 ≡ true
update_returns_example = update_returns plain "a" raise 5 others counters (omega arith)

check_and_bump-Counts_example :
    CountsIf plain "a" "day" 3 (λ n. refl) (check_and_bump plain "a" "day" 3 others counters)
check_and_bump-Counts_example =
    check_and_bump-Counts plain "a" "day" 3 (λ n. refl) others counters ((tt, tt), ((tt, tt), tt))

grants_bounded_example :
    ((grants plain "a" "day" 3 (λ n. refl) 4 counters).0
        + used_now plain "a" "day" 3 (λ n. refl) counters
      ≡ used_now plain "a" "day" 3 (λ n. refl) (grants plain "a" "day" 3 (λ n. refl) 4 counters).1)
    × (used_now plain "a" "day" 3 (λ n. refl) (grants plain "a" "day" 3 (λ n. refl) 4 counters).1
        ≤ 3)
unfolding lookup
grants_bounded_example = grants_bounded plain "a" "day" 3 (λ n. refl) 4 counters (omega arith)

abbrev reports : List Report
reports =
    record { incoming = some "first"; settles = false; locked = false }
    ∷ record { incoming = some "second"; settles = true; locked = false }
    ∷ record { incoming = some "third"; settles = true; locked = true }
    ∷ record { incoming = some "third"; settles = true; locked = true }
    ∷ []

abbrev fresh : SettlingTrack
fresh = record { rozo = none; settling = none; duplicates = [] }

abbrev paid : SettlingTrack
paid = record { rozo = some "first"; settling = some "first"; duplicates = [] }

track_reports :
    track_all reports fresh
    ≡ record { rozo = some "second"; settling = some "second"; duplicates = "third" ∷ [] }
unfolding track_all track_settling_order includes
track_reports = refl

track_all-Apart_example :
    Apart (track_all reports fresh).settling (track_all reports fresh).duplicates
track_all-Apart_example = track_all-Apart reports fresh refl

track_all-settling_example :
    Keeps (some "first") (track_all reports paid)
    × All (IsListed "first" (track_all reports paid).duplicates) reports
unfolding includes
track_all-settling_example = track_all-settling reports paid "first" refl (refl, tt)

cas_update-Linear_example :
    Linear plain "a" raise others counters (cas_update plain "a" raise 6 others counters)
cas_update-Linear_example =
    cas_update-Linear plain "a" raise 6 others counters ((tt, tt), ((tt, tt), tt))
