-- ===== src/Channel/Settle/Outcome.antt =====
-- What a settlement of src/playground/channel-settle.ts submits to the chain, and when.
use text.Mathlib.Text.{◌==◌ as str_eq}
use rozo_mpprouter.Base.{
  ◌⊎◌, ℕ, zero, suc, ◌≤◌, ◌<◌, String, ◌≡◌, refl, ap, subst, inl, inr, Bool, true, false, ◌&&◌,
  Option, none, some, List, [], ◌∷◌, leb, is_some, arith, Bool-cases, Option-cases,
}
use rozo_mpprouter.Channel.{
  LatestVoucher, VoucherWriteoff, Lock, mark_voucher_settled, mark_now, acquire_lock,
  revalidate_lock, write_off,
}
use rozo_mpprouter.Channel.Changes.{result, stored}
use rozo_mpprouter.Channel.Settle.{
  Channel, ChainState, CloseAnswer, landed, insufficient, failed, Settled, settled, nothing, throws,
  StoreCall, replied, not_made, no_reply, call_store, Submission, ended, record_writeoff,
  tally_writeoff, after_mark, Run, Outside, fence, fence_attempts, settle_voucher,
  write_off_refunded, mark_closed, balance_is_zero, submit, collect, is_not_due, close_channel,
  observe, settle_due, settle_locked, release, settle_one_channel,
}

fence-keeps :
    (n now : ℕ) (written : List Bool) (ch : Channel)
    → ((fence n now written ch).lock ≡ ch.lock) × ((fence n now written ch).closed ≡ ch.closed)
unfolding fence
fence-keeps zero now written ch = (refl, refl)
fence-keeps (suc n) now [] ch = (refl, refl)
fence-keeps (suc n) now (true ∷ rest) ch = (refl, refl)
fence-keeps (suc n) now (false ∷ rest) ch = fence-keeps n now rest ch

-- The settled watermark of a stored voucher.
abbrev pub SettledTo : ℕ → Option LatestVoucher → Type 0
SettledTo amount none = Unit
SettledTo amount (some row) = amount ≤ row.last_settled

mark_voucher_settled-SettledTo :
    (now amount : ℕ) (o : Option LatestVoucher)
    → SettledTo amount (stored (mark_voucher_settled now amount o) o)
unfolding mark_voucher_settled
mark_voucher_settled-SettledTo now amount none = tt
mark_voucher_settled-SettledTo now amount (some row) =
    elim (Bool-cases (leb amount row.last_settled)) [
      | inl done ↦ rw (done, mark_voucher_settled) (ground (arith, done))
      | inr due ↦ rw (due, mark_voucher_settled) (omega arith)
    ]

abbrev pub NotSettled : Settled → Type 0
NotSettled (settled tx) = ⊥
NotSettled nothing = Unit
NotSettled throws = Unit

-- The run's answer to that of the close, where a call to the store may throw behind it.
abbrev pub Collected : StoreCall → String → ℕ → Settled → Option LatestVoucher → Type 0
Collected replied tx amount r row = (r ≡ settled tx) × SettledTo amount row
Collected not_made tx amount r row = r ≡ throws
Collected no_reply tx amount r row = (r ≡ throws) × SettledTo amount row

-- A debt that is given up: recorded and settled, or an exception on the way.
abbrev pub Forgiven : ℕ → Settled → Option LatestVoucher → Option VoucherWriteoff → Type 0
Forgiven amount (settled tx) row writeoff = ⊥
Forgiven amount nothing row writeoff = (is_some writeoff ≡ true) × SettledTo amount row
Forgiven amount throws row writeoff = Unit

abbrev pub Answers :
    StoreCall → CloseAnswer → ℕ → Settled → Option LatestVoucher → Option VoucherWriteoff → Type 0
Answers settling (landed tx) amount r row writeoff = Collected settling tx amount r row
Answers settling insufficient amount r row writeoff = Forgiven amount r row writeoff
Answers settling failed amount r row writeoff = r ≡ throws

abbrev pub HeldBy : String → Option Lock → Type 0
HeldBy id none = ⊥
HeldBy id (some lock) = str_eq lock.id id ≡ true

module _ {Sig : Type 0} (out : Outside Sig) where
  -- The channel after the lock is taken.
  abbrev pub locked : Channel → Channel
  locked ch = record ch { lock = stored (acquire_lock out.acquired_at out.lock_id ch.lock) ch.lock }

  -- A submitted close redeems the row's whole voucher, which is not yet settled, on a channel that
  -- is already marked closed.
  abbrev pub Redeems : LatestVoucher → Run Sig → Type 0
  Redeems row (r, none, after) = NotSettled r
  Redeems row (r, some c, after) =
      (c.amount ≡ row.cumulative)
      × (row.last_settled < row.cumulative)
      × (out.decode row.signature ≡ some c.sig)
      × (is_some c.seen.closed ≡ true)
      × Answers out.settling (out.close c.amount c.sig) c.amount r after.voucher after.writeoff

  Answer-cases :
      (a : CloseAnswer) → ((tx : String) × (a ≡ landed tx)) ⊎ (a ≡ insufficient) ⊎ (a ≡ failed)
  Answer-cases (landed tx) = inl (tx, refl)
  Answer-cases insufficient = inr (inl refl)
  Answer-cases failed = inr (inr refl)

  Call-cases : (c : StoreCall) → (c ≡ replied) ⊎ (c ≡ not_made) ⊎ (c ≡ no_reply)
  Call-cases replied = inl refl
  Call-cases not_made = inr (inl refl)
  Call-cases no_reply = inr (inr refl)

  settle_call-Collected :
      (tx : String) (c : Submission Sig) (amount : ℕ) (ch : Channel)
      → let run : Run Sig =
          ended
            (settled tx)
            (some c)
            (call_store out.settling (settle_voucher out.closed_at amount) ch) in
        Collected out.settling tx amount run.0 run.2.voucher
  unfolding settle_voucher
  settle_call-Collected tx c amount ch =
      let marked = mark_voucher_settled-SettledTo out.closed_at amount ch.voucher in
      elim (Call-cases out.settling) [
        | inl e ↦ rw e (refl, marked)
        | inr (inl e) ↦ rw e refl
        | inr (inr e) ↦ rw e (refl, marked)
      ]

  recorded :
      (amount : ℕ) (ch : Channel)
      → is_some (record_writeoff out.closed_at amount ch).writeoff ≡ true
  unfolding record_writeoff write_off
  recorded amount ch = elim (Option-cases ch.writeoff) [
    | inl new ↦ rw new refl
    | inr (old, e) ↦ rw (e, write_off) refl
  ]

  write_off_refunded-Forgiven :
      (close : Option (Submission Sig)) (amount : ℕ) (ch : Channel)
      → let run : Run Sig = ended nothing close (write_off_refunded out amount ch) in
        Forgiven amount run.0 run.2.voucher run.2.writeoff
  unfolding settle_voucher tally_writeoff
  write_off_refunded-Forgiven close amount ch =
      let marked = mark_voucher_settled-SettledTo out.closed_at amount in
      elim (Call-cases out.writing_off) [
        | inr (inl e) ↦ rw e tt
        | inr (inr e) ↦ rw e tt
        | inl e ↦ elim (Call-cases out.tallying) [
          | inr (inl f) ↦ rw (e, f) tt
          | inr (inr f) ↦ rw (e, f) tt
          | inl f ↦ elim (Call-cases out.settling) [
            | inr (inl g) ↦ rw (e, f, g) tt
            | inr (inr g) ↦ rw (e, f, g) tt
            | inl g ↦ rw (e, f, g) (recorded amount ch, marked _)
          ]
        ]
      ]

  -- What others do before the close does not erase the marker.
  abbrev pub KeepsClosed : Type 0
  KeepsClosed =
      (ch : Channel) → is_some ch.closed ≡ true → is_some (out.before_close ch).closed ≡ true

  ended-Redeems :
      (row : LatestVoucher) (c : Submission Sig) (r : Settled) (x : Bool × Channel)
      → c.amount ≡ row.cumulative
      → row.last_settled < row.cumulative
      → out.decode row.signature ≡ some c.sig
      → is_some c.seen.closed ≡ true
      → Answers out.settling
          (out.close c.amount c.sig)
          c.amount
          (ended r (some c) x).0
          (ended r (some c) x).2.voucher
          (ended r (some c) x).2.writeoff
      → Redeems row (ended r (some c) x)
  ended-Redeems row c r (true, ch) whole due d closed answer = (whole, due, d, closed, answer)
  ended-Redeems row c r (false, ch) whole due d closed answer = (whole, due, d, closed, answer)

  ended_unsubmitted :
      (row : LatestVoucher) (x : Bool × Channel) → Redeems row (ended nothing none x)
  ended_unsubmitted row (true, ch) = tt
  ended_unsubmitted row (false, ch) = tt

  submit-Redeems :
      (row : LatestVoucher) (sig : Sig) (ch : Channel)
      → row.last_settled < row.cumulative
      → out.decode row.signature ≡ some sig
      → is_some ch.closed ≡ true
      → Redeems row (submit out row sig ch)
  submit-Redeems row sig ch due d c =
      let sub : Submission Sig = record { amount = row.cumulative; sig = sig; seen = ch } in
      elim (Answer-cases (out.close row.cumulative sig)) [
        | inl (tx, e) ↦
            rw (e, submit)
              (ended-Redeems row sub (settled tx) _ refl due d c
                (rw e (settle_call-Collected tx sub row.cumulative ch)))
        | inr (inl e) ↦
            rw (e, submit)
              (ended-Redeems row sub nothing _ refl due d c
                (rw e (write_off_refunded-Forgiven (some sub) row.cumulative ch)))
        | inr (inr e) ↦ rw (e, submit) (refl, due, d, c, rw e refl)
      ]

  collect-Redeems :
      (kept : KeepsClosed) (row : LatestVoucher) (chain : ChainState) (ch : Channel)
      → row.last_settled < row.cumulative
      → is_some ch.closed ≡ true
      → Redeems row (collect out row chain ch)
  collect-Redeems kept row chain ch due c =
      elim (Bool-cases (is_some chain.close_effective_at && balance_is_zero chain.balance)) [
        | inl empty ↦
            rw (empty, collect) (ended_unsubmitted row (write_off_refunded out row.cumulative ch))
        | inr full ↦ elim (Option-cases (out.decode row.signature)) [
          | inl bad ↦ rw (full, collect, bad) tt
          | inr (sig, d) ↦
              rw (full, collect, d) (submit-Redeems row sig (out.before_close ch) due d (kept ch c))
        ]
      ]

  -- The run, and that the lock was still ours when a close was submitted.
  abbrev pub RedeemsUnder : Option Lock → LatestVoucher → Run Sig → Type 0
  RedeemsUnder lock row (r, none, after) = NotSettled r
  RedeemsUnder lock row (r, some c, after) =
      HeldBy out.lock_id lock × Redeems row (r, some c, after)

  held-RedeemsUnder :
      (lock : Option Lock) (row : LatestVoucher) (run : Run Sig)
      → HeldBy out.lock_id lock
      → Redeems row run
      → RedeemsUnder lock row run
  held-RedeemsUnder lock row (r, none, after) h f = f
  held-RedeemsUnder lock row (r, some c, after) h f = (h, f)

  revalidated-HeldBy :
      (lock : Option Lock)
      → result (revalidate_lock out.revalidated_at out.lock_id lock) ≡ true
      → HeldBy out.lock_id lock
  unfolding revalidate_lock
  revalidated-HeldBy none h = ground (arith, h)
  revalidated-HeldBy (some lock) h = elim (Bool-cases (str_eq lock.id out.lock_id)) [
    | inl same ↦ same
    | inr other ↦ absurd (ground (arith, rw (other, revalidate_lock) at h))
  ]

  after_mark-Redeems :
      (kept : KeepsClosed) (row : LatestVoucher) (chain : ChainState) (ch : Channel)
      → row.last_settled < row.cumulative
      → Redeems row
          (after_mark out row chain (call_store out.marking (mark_closed out.closed_at) ch))
  unfolding mark_closed mark_now
  after_mark-Redeems kept row chain ch due = elim (Call-cases out.marking) [
    | inr (inl e) ↦ rw e tt
    | inr (inr e) ↦ rw e tt
    | inl e ↦
        let marked = mark_closed out.closed_at ch in
        let fenced = fence fence_attempts out.closed_at out.second_fence marked in
        rw e (
          collect-Redeems kept row chain fenced due
            (ap is_some (fence-keeps fence_attempts out.closed_at out.second_fence marked).1))
  ]

  close_channel-RedeemsUnder :
      (kept : KeepsClosed) (row : LatestVoucher) (chain : ChainState) (ch : Channel)
      → row.last_settled < row.cumulative
      → RedeemsUnder ch.lock row (close_channel out row chain ch)
  close_channel-RedeemsUnder kept row chain ch due =
      elim (Bool-cases (result (revalidate_lock out.revalidated_at out.lock_id ch.lock))) [
        | inl ours ↦
            rw (close_channel, ours)
              (held-RedeemsUnder ch.lock row _ (revalidated-HeldBy ch.lock ours)
                (after_mark-Redeems kept row chain _ due))
        | inr lost ↦ rw (close_channel, lost) tt
      ]

  observe-lock : (chain : ChainState) (ch : Channel) → (observe out chain ch).lock ≡ ch.lock
  observe-lock chain ch = elim (Bool-cases (is_some chain.close_effective_at)) [
    | inl closing ↦
        rw (observe, closing) ((fence-keeps fence_attempts out.acquired_at out.first_fence ch).0)
    | inr running ↦ rw (observe, running) refl
  ]

  settle_due-RedeemsUnder :
      (kept : KeepsClosed) (row : LatestVoucher) (chain : ChainState) (ch : Channel)
      → RedeemsUnder ch.lock row (settle_due out row chain ch)
  settle_due-RedeemsUnder kept row chain ch =
      elim (Bool-cases (leb row.cumulative row.last_settled)) [
        | inl over ↦ rw (settle_due, over) tt
        | inr under ↦
            let due : row.last_settled < row.cumulative = ground (arith, under) in
            elim (Bool-cases (is_not_due out row chain)) [
              | inl later ↦ rw (settle_due, later) tt
              | inr now ↦
                  rw (settle_due, now)
                    (subst
                      (λ l. RedeemsUnder l row (close_channel out row chain (observe out chain ch)))
                      (observe-lock chain ch)
                      (close_channel-RedeemsUnder kept row chain (observe out chain ch) due))
            ]
      ]

  -- What a run under the lock may be: either it returns without a hash and submits nothing, or it
  -- redeems the voucher that was read, and the lock was still ours after the chain was read.
  abbrev pub Justified : Option LatestVoucher → Option Lock → Run Sig → Type 0
  Justified v lock (r, none, after) = NotSettled r
  Justified v lock (r, some c, after) =
      (row : LatestVoucher) × (v ≡ some row)
      × HeldBy out.lock_id lock
      × Redeems row (r, some c, after)

  RedeemsUnder-Justified :
      (row : LatestVoucher) (lock : Option Lock) (run : Run Sig)
      → RedeemsUnder lock row run
      → Justified (some row) lock run
  RedeemsUnder-Justified row lock (r, none, after) h = h
  RedeemsUnder-Justified row lock (r, some c, after) h = (row, refl, h.0, h.1)

  settle_locked-Justified :
      (kept : KeepsClosed) (v : Option LatestVoucher) (chain : Option ChainState) (ch : Channel)
      → Justified v (out.meanwhile ch).lock (settle_locked out v chain ch)
  settle_locked-Justified kept none chain ch = tt
  settle_locked-Justified kept (some row) none ch = tt
  settle_locked-Justified kept (some row) (some chain) ch =
      RedeemsUnder-Justified row _ _ (settle_due-RedeemsUnder kept row chain (out.meanwhile ch))

  release-Justified :
      (v : Option LatestVoucher) (lock : Option Lock) (run : Run Sig)
      → Justified v lock run
      → Justified v lock (release out run)
  release-Justified v lock (r, none, after) h = h
  release-Justified v lock (r, some c, after) h = h

  -- A settlement, whatever others do while it reads the chain and before its close, short of erasing
  -- the closed marker, either submits no close and returns no hash, or submits exactly one: for the
  -- whole unsettled voucher that stood in the store when it took the lock, with the lock still its
  -- own after the chain was read, and with the channel marked closed in the store when it is
  -- submitted. A close that landed gives its hash, with a stored voucher marked settled up to the
  -- amount, unless that call throws, which the run then does. When the balance did not suffice, the
  -- run returns no hash with the write-off recorded and a stored voucher marked settled, or throws.
  pub settle_one_channel-Justified :
      (kept : KeepsClosed) (ch : Channel)
      → Justified ch.voucher (out.meanwhile (locked ch)).lock (settle_one_channel out ch)
  unfolding settle_one_channel
  settle_one_channel-Justified kept ch =
      elim (Bool-cases (result (acquire_lock out.acquired_at out.lock_id ch.lock))) [
        | inr busy ↦ rw (busy, settle_one_channel) tt
        | inl ours ↦
            rw (ours, settle_one_channel)
              (release-Justified ch.voucher _ _
                (settle_locked-Justified kept ch.voucher out.chain (locked ch)))
      ]
