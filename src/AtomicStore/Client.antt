-- ===== src/AtomicStore/Client.antt =====
-- The compare-and-set loops of the clients: `doAtomicParams` in src/mpp/kv-atomic-store.ts and
-- `casUpdate` in src/routes/stripe-atomic.ts. Between a read and the commit that follows it other
-- clients' requests run: they are an argument, one list for each attempt.
pub mod Linear
use rozo_mpprouter.Base.{
  ℕ, zero, suc, String, Option, none, some, List, [], ◌∷◌, is_some, if◌then◌else◌,
}
use rozo_mpprouter.AtomicStore.{
  Store, Write, set, delete, CommitReply, done, conflict, value, version, commit, CounterCodec,
  Request, serve_all,
}

-- `Store.Change`: what the transform wants written, and the result it then has.
pub data Change (V R : Type 0) : Type 0 where
  noop : R → Change V R
  change : Write V → R → Change V R

-- The requests of the next attempt, and those after it; none are left when the list ends.
abbrev pub next : {A : Type 0} → List (List A) → List A
next [] = []
next (rs ∷ rest) = rs

abbrev pub later : {A : Type 0} → List (List A) → List (List A)
later [] = []
later (rs ∷ rest) = rest

abbrev pub max_update_retries : ℕ
max_update_retries = 5

module _ {V R : Type 0} (codec : CounterCodec V) (k : String) (fn : Option V → Change V R) where
  -- The loop of `update`, on the attempts left; `none` is the exception after the last one.
  unfoldable pub update_loop :
      ℕ → Option V → ℕ → List (List (Request V)) → Store V → Option R × Store V
  update_loop zero v n others s = (none, s)
  update_loop (suc attempts) v n others s = elim (fn v) [
    | noop r ↦ (some r, s)
    | change op r ↦
        let (reply, t) = commit k n op (serve_all codec (next others) s) in
        elim reply [
          | done ↦ (some r, t)
          | conflict v' n' ↦ update_loop attempts v' n' (later others) t
        ]
  ]

  unfoldable pub update : ℕ → List (List (Request V)) → Store V → Option R × Store V
  update retries others s = update_loop retries (value k s) (version k s) others s

  -- `casUpdate` reads again in each attempt; the requests before a read are the list's first ones,
  -- those before the commit the next ones.
  unfoldable pub cas_update : ℕ → List (List (Request V)) → Store V → Option R × Store V
  cas_update zero others s = (none, s)
  cas_update (suc attempts) others s =
      let t = serve_all codec (next others) s in
      elim (fn (value k t)) [
        | noop r ↦ (some r, t)
        | change op r ↦
            let (reply, u) = commit k (version k t) op (serve_all codec (next (later others)) t) in
            elim reply [
              | done ↦ (some r, u)
              | conflict v' n' ↦ cas_update attempts (later (later others)) u
            ]
      ]

-- `put` of `doAtomicParams`: a read and a commit of its version, until one commit is taken.
unfoldable pub put :
    {V : Type 0}
    → CounterCodec V
    → String
    → V
    → ℕ
    → List (List (Request V))
    → Store V
    → Option (Unit {0}) × Store V
put codec k v zero others s = (none, s)
put codec k v (suc attempts) others s =
    let (reply, t) = commit k (version k s) (set v) (serve_all codec (next others) s) in
    elim reply [ done ↦ (some tt, t) | conflict v' n' ↦ put codec k v attempts (later others) t ]

-- `delete` of `doAtomicParams`: an absent key is left alone.
unfoldable pub delete_key :
    {V : Type 0}
    → CounterCodec V
    → String
    → ℕ
    → List (List (Request V))
    → Store V
    → Option (Unit {0}) × Store V
delete_key codec k zero others s = (none, s)
delete_key codec k (suc attempts) others s = elim (value k s) [
  | none ↦ (some tt, s)
  | some v ↦
      let (reply, t) = commit k (version k s) delete (serve_all codec (next others) s) in
      elim reply [
        | done ↦ (some tt, t)
        | conflict v' n' ↦ delete_key codec k attempts (later others) t
      ]
]
