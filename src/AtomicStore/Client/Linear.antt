-- ===== src/AtomicStore/Client/Linear.antt =====
-- The compare-and-set loop of src/mpp/kv-atomic-store.ts against one atomic step.
use rozo_mpprouter.Base.{
  ℕ, zero, suc, String, ◌≡◌, refl, inl, inr, ◌⊎◌, true, false, Option, none, some, List, [], ◌∷◌,
  arith, All, Bool-cases, length, is_some, ◌<◌, ◌==◌, ==_iff,
}
use rozo_mpprouter.Base.Keys.{string_eq}
use rozo_mpprouter.AtomicStore.{
  Store, Write, done, conflict, value, version, write, commit, CounterCodec, Request, serve_all,
}
use rozo_mpprouter.AtomicStore.Versions.{Follows, KeepsVersion, serve_all-Follows}
use rozo_mpprouter.AtomicStore.Client.{
  Change, noop, change, next, later, update_loop, update, cas_update,
}

-- The specification: the transform sees the current value, and its write follows at once.
abbrev pub applied : {V R : Type 0} → String → Change V R → Store V → R × Store V
applied k (noop r) s = (r, s)
applied k (change op r) s = (r, write k op s)

abbrev pub atomic_update : {V R : Type 0} → String → (Option V → Change V R) → Store V → R × Store V
atomic_update k fn s = applied k (fn (value k s)) s

-- The store that the first so many rounds of other clients' requests lead to, and nothing else.
unfoldable pub rounds :
    {V : Type 0} → CounterCodec V → ℕ → List (List (Request V)) → Store V → Store V
rounds codec zero others s = s
rounds codec (suc n) others s = rounds codec n (later others) (serve_all codec (next others) s)

-- What a run of the loop may return, against these rounds of requests: the result of the transform
-- applied in one step behind the first of them, with nothing after it; or no result, and the store
-- that some first rounds alone lead to.
abbrev pub Linear :
    {V R : Type 0}
    → CounterCodec V
    → String
    → (Option V → Change V R)
    → List (List (Request V))
    → Store V
    → Option R × Store V
    → Type 0
Linear {V} codec k fn others s (none, t) = (n : ℕ) × (rounds codec n others s ≡ t)
Linear {V} codec k fn others s (some r, t) =
    (n : ℕ) × (atomic_update k fn (rounds codec n others s) ≡ (r, t))

-- A later start: its round comes first.
Linear-after :
    {V R : Type 0} (codec : CounterCodec V) (k : String) (fn : Option V → Change V R)
    (others : List (List (Request V))) (s : Store V) (p : Option R × Store V)
    → Linear codec k fn (later others) (serve_all codec (next others) s) p
    → Linear codec k fn others s p
unfolding rounds
Linear-after codec k fn others s (none, t) (n, e) = (suc n, e)
Linear-after codec k fn others s (some r, t) (n, e) = (suc n, e)

Change-cases :
    {V R : Type 0} (c : Change V R)
    → ((r : R) × (c ≡ noop r)) ⊎ ((op : Write V) × (r : R) × (c ≡ change op r))
Change-cases (noop r) = inl (r, refl)
Change-cases (change op r) = inr (op, r, refl)

commit_taken :
    {V : Type 0} (k : String) (n : ℕ) (op : Write V) (s : Store V)
    → (version k s == n) ≡ true
    → commit k n op s ≡ (done, write k op s)
unfolding commit
commit_taken k n op s h = rw h refl

commit_refused :
    {V : Type 0} (k : String) (n : ℕ) (op : Write V) (s : Store V)
    → (version k s == n) ≡ false
    → commit k n op s ≡ (conflict (value k s) (version k s), s)
unfolding commit
commit_refused k n op s h = rw h refl

module _ {V R : Type 0} (codec : CounterCodec V) (k : String) (fn : Option V → Change V R) where
  abbrev pub Tame : List (List (Request V)) → Type 0
  Tame others = All (All (KeepsVersion k)) others

  next-Tame : (others : List (List (Request V))) → Tame others → All (KeepsVersion k) (next others)
  next-Tame [] h = tt
  next-Tame (rs ∷ rest) h = h.0

  later-Tame : (others : List (List (Request V))) → Tame others → Tame (later others)
  later-Tame [] h = tt
  later-Tame (rs ∷ rest) h = h.1

  update_loop-Linear :
      (attempts : ℕ) (others : List (List (Request V))) (s : Store V)
      → Tame others
      → Linear codec k fn others s
          (update_loop codec k fn attempts (value k s) (version k s) others s)
  unfolding update_loop serve_all rounds
  update_loop-Linear zero others s h = (0, refl)
  update_loop-Linear (suc attempts) others s h = elim (Change-cases (fn (value k s))) [
    | inl (r, e) ↦ rw (e, update_loop) (0, rw e refl)
    | inr (op, r, e) ↦
        let t = serve_all codec (next others) s in
        let f : Follows k s t = serve_all-Follows codec (next others) k s (next-Tame others h) in
        elim (Bool-cases (version k t == version k s)) [
          | inl match ↦
              let same : value k t ≡ value k s =
                f.same_value ((==_iff (version k t) (version k s)).0 match) in
              rw (e, update_loop, commit_taken k (version k s) op t match)
                (1, rw (same, e, commit_taken k (version k s) op t match) refl)
          | inr stale ↦
              rw (e, update_loop, commit_refused k (version k s) op t stale)
                (rw (commit_refused k (version k s) op t stale) (
                  Linear-after codec k fn others s _
                    (update_loop-Linear attempts (later others) t (later-Tame others h))))
        ]
  ]

  -- Whatever other clients' requests run between the reads and the commits of `update`, as long as
  -- they do not seed the key: a result it returns is that of the transform applied in one step, read
  -- and write at once, to the store that the first rounds of those requests alone have led to, and
  -- that step is the last; without a result the store is one that first rounds alone have led to, so
  -- that it wrote nothing.
  pub update-Linear :
      (retries : ℕ) (others : List (List (Request V))) (s : Store V)
      → Tame others
      → Linear codec k fn others s (update codec k fn retries others s)
  unfolding update
  update-Linear retries others s h = update_loop-Linear retries others s h

  update_loop_returns :
      (attempts : ℕ) (others : List (List (Request V))) (s : Store V)
      → length others < attempts
      → is_some (update_loop codec k fn attempts (value k s) (version k s) others s).0 ≡ true
  unfolding update_loop serve_all
  update_loop_returns zero others s few = absurd (omega (arith, few))
  update_loop_returns (suc attempts) others s few = elim (Change-cases (fn (value k s))) [
    | inl (r, e) ↦ rw (e, update_loop) refl
    | inr (op, r, e) ↦
        let t = serve_all codec (next others) s in
        elim (Bool-cases (version k t == version k s)) [
          | inl match ↦ rw (e, update_loop, commit_taken k (version k s) op t match) refl
          | inr stale ↦
              rw (e, update_loop, commit_refused k (version k s) op t stale)
                (rw (commit_refused k (version k s) op t stale) (
                  update_loop_returns attempts (later others) t
                    (later-few others attempts s few stale)))
        ]
  ]
    where
      later-few :
          (others : List (List (Request V))) (attempts : ℕ) (s : Store V)
          → length others < suc attempts
          → (version k (serve_all codec (next others) s) == version k s) ≡ false
          → length (later others) < attempts
      later-few [] attempts s few stale =
          absurd (ground (arith, (==_iff (version k s) (version k s)).1 refl, stale))
      later-few (rs ∷ rest) attempts s few stale = omega (arith, few)

  -- `update` returns a result when fewer of its attempts than it has see requests of others.
  pub update_returns :
      (retries : ℕ) (others : List (List (Request V))) (s : Store V)
      → length others < retries
      → is_some (update codec k fn retries others s).0 ≡ true
  unfolding update
  update_returns retries others s few = update_loop_returns retries others s few

  -- Whatever other clients' requests run before the reads and the commits of `casUpdate`, which reads
  -- anew in each attempt, as long as they do not seed the key: a result it returns is that of the
  -- transform applied in one step to the store that the first rounds of those requests alone have led
  -- to, and that step is the last; without a result the store is one that first rounds alone have led
  -- to, so that it wrote nothing.
  pub cas_update-Linear :
      (attempts : ℕ) (others : List (List (Request V))) (s : Store V)
      → Tame others
      → Linear codec k fn others s (cas_update codec k fn attempts others s)
  unfolding cas_update serve_all rounds
  cas_update-Linear zero others s h = (0, refl)
  cas_update-Linear (suc attempts) others s h =
      let t = serve_all codec (next others) s in
      let more = next (later others) in
      let w = serve_all codec more t in
      Linear-after codec k fn others s (cas_update codec k fn (suc attempts) others s)
        (elim (Change-cases (fn (value k t))) [
          | inl (r, e) ↦ rw (e, cas_update) (0, rw e refl)
          | inr (op, r, e) ↦
              let f : Follows k t w =
                serve_all-Follows codec more k t (next-Tame (later others) (later-Tame others h)) in
              elim (Bool-cases (version k w == version k t)) [
                | inl match ↦
                    let same : value k w ≡ value k t =
                      f.same_value ((==_iff (version k w) (version k t)).0 match) in
                    rw (e, cas_update, commit_taken k (version k t) op w match)
                      (1, rw (same, e, commit_taken k (version k t) op w match) refl)
                | inr stale ↦
                    rw (e, cas_update, commit_refused k (version k t) op w stale)
                      (rw (commit_refused k (version k t) op w stale) (
                        Linear-after codec k fn (later others) t _ (
                          cas_update-Linear attempts (later (later others)) w
                            (later-Tame (later others) (later-Tame others h)))))
              ]
        ])
