-- ===== src/WaitCell/Exclusion.antt =====
-- The waker of a `WaitCell` has one owner at most.
use wasm_kernel.Base.{ℕ, ◌≡◌, ◌≢◌, inl, refl, sym, ◌∙◌, true, false, ℕ_discrete}
use wasm_kernel.WaitCell.Threads.{Cell, new, Reach}
use wasm_kernel.WaitCell.Owner.{outside, polling, waking, place, Owns, Owner}
use wasm_kernel.WaitCell.Inside.{as-poller, as-waker}
use wasm_kernel.WaitCell.Moves.{Step-Owner}

single_owner : (t : Cell) (k i : ℕ) → Owns k t → place (t.phase i) ≢ outside → i ≡ k
single_owner t k i o a = elim (ℕ_discrete i k) [ yes e ↦ e | no n ↦ absurd (a (o.1 i n)) ]

single :
    {t : Cell}
    → Owner t
    → (i j : ℕ) → place (t.phase i) ≢ outside
    → place (t.phase j) ≢ outside
    → i ≡ j
single (Owner.free (r, w, k, o)) i j a b = absurd (a (o i))
single {t} (Owner.poller k r q o) i j a b = single_owner t k i o a ∙ sym (single_owner t k j o b)
single {t} (Owner.waker k r w q o) i j a b = single_owner t k i o a ∙ sym (single_owner t k j o b)

pub Reach-Owner : {t : Cell} → Reach new t → Owner t
Reach-Owner Reach.here = Owner.free (refl, (λ h. cc), inl refl, λ j. refl)
Reach-Owner (Reach.next i r st) = Step-Owner st (Reach-Owner r)

-- Whatever threads poll, wake and close a cell, and in whatever order: at most one thread at a time
-- is inside, where the waker is read or written, and a thread is inside as a poller only while the
-- word says REGISTERING, as a waker only while it says WAKING and not REGISTERING.
pub exclusive :
    {t : Cell} (i j : ℕ)
    → Reach new t
    → (place (t.phase i) ≢ outside → place (t.phase j) ≢ outside → i ≡ j)
      × (place (t.phase i) ≡ polling → t.state.registering ≡ true)
      × (place (t.phase i) ≡ waking → (t.state.waking ≡ true) × (t.state.registering ≡ false))
exclusive {t} i j r =
    let o = Reach-Owner r in
    (single o i j, λ h. (as-poller i o h).0, λ h. let (a, b, c) = as-waker i o h in (b, a))
