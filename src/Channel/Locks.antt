-- ===== src/Channel/Locks.antt =====
-- Sequences of calls on the delivery lock of src/mpp/stellar-channel-dispatch.ts.
use text.Mathlib.Text.{◌==◌ as str_eq}
use rozo_mpprouter.Base.{
  ℕ, ◌<◌, String, ◌≡◌, refl, Bool, true, false, Option, some, List, [], ◌∷◌, ltb, arith, All,
}
use rozo_mpprouter.Base.Keys.{string_eq}
use rozo_mpprouter.AtomicStore.Client.{Change}
use rozo_mpprouter.Channel.{Lock, acquire_lock, revalidate_lock, release_lock}
use rozo_mpprouter.Channel.Changes.{result, stored}

-- A call on the lock's key.
pub data LockOp : Type 0 where
  acquires : ℕ → String → LockOp
  revalidates : ℕ → String → LockOp
  releases : String → LockOp

unfoldable pub lock_change : LockOp → Option Lock → Change Lock Bool
lock_change (acquires now id) o = acquire_lock now id o
lock_change (revalidates now id) o = revalidate_lock now id o
lock_change (releases id) o = release_lock id o

unfoldable pub lock_ops : List LockOp → Option Lock → List Bool × Option Lock
lock_ops [] o = ([], o)
lock_ops (op ∷ ops) o =
    let (rs, p) = lock_ops ops (stored (lock_change op o) o) in (result (lock_change op o) ∷ rs, p)

-- A call by another than the holder, and an acquisition only before the lock expires.
abbrev pub IsForeign : String → ℕ → LockOp → Type 0
IsForeign id until (acquires now other) = (str_eq id other ≡ false) × (now < until)
IsForeign id until (revalidates now other) = str_eq id other ≡ false
IsForeign id until (releases other) = str_eq id other ≡ false

-- Whatever others call while a lock lives, each call is refused and the lock stays the holder's.
pub lock_ops-foreign :
    (ops : List LockOp) (id : String) (until : ℕ) (since : Option ℕ)
    → All (IsForeign id until) ops
    → let lock : Lock = record { id = id; acquired_at = since; expires_at = some until } in
      (All (λ r. r ≡ false) (lock_ops ops (some lock)).0)
      × ((lock_ops ops (some lock)).1 ≡ some lock)
unfolding lock_ops lock_change acquire_lock revalidate_lock release_lock
lock_ops-foreign [] id until since h = (tt, refl)
lock_ops-foreign (acquires now other ∷ ops) id until since h =
    let live : ltb now until ≡ true = ground (arith, h.0.1) in
    let ih = lock_ops-foreign ops id until since h.1 in rw (live, acquire_lock) ((refl, ih.0), ih.1)
lock_ops-foreign (revalidates now other ∷ ops) id until since h =
    let ih = lock_ops-foreign ops id until since h.1 in
    rw (h.0, revalidate_lock) ((refl, ih.0), ih.1)
lock_ops-foreign (releases other ∷ ops) id until since h =
    let ih = lock_ops-foreign ops id until since h.1 in rw (h.0, release_lock) ((refl, ih.0), ih.1)
