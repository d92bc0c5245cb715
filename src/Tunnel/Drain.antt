-- ===== src/Tunnel/Drain.antt =====
-- `drain_capsules` of aether/src/masque_h2.rs on any buffer.
use aether_gui.Common.{
  ℕ, zero, suc, ◌≤◌, ◌<◌, ◌≡◌, refl, ap, ◌≢◌, inl, inr, Bool, true, false, Option, none, some, List,
  arith, length, length-append,
}
use aether_gui.Common.Outcome.{Outcome, ok, err, panic, stuck, Absent, Ensures, Ensures-weaken}
use native.Mathlib.Nat.{le_refl}
use aether_gui.Error.{AetherError}
use aether_gui.Octets.{Octets, IsOctets}
use aether_gui.Masque.{
  Capsule, capsule_of, next, datagram, address_assign, address_request, route_advertisement,
  unknown,
}
use aether_gui.Masque.Framing.{next_cases}
use aether_gui.Masque.Values.{capsule_of-Ensures}
use aether_gui.Tunnel.{Drained, fresh, handle_capsule, drain_loop, drain_capsules}

handle_capsule-Ensures :
    (P : Drained → Type 0) (inbound_open : Bool) (result : Outcome AetherError (Option Capsule))
    (d : Drained) (again : Drained → Outcome Absent Drained)
    → Ensures (λ c. c ≢ none) result
    → ((d' : Drained) → d'.buf ≡ d.buf → Ensures P (again d'))
    → ((d' : Drained) → d'.buf ≡ d.buf → P d')
    → Ensures P (handle_capsule inbound_open result d again)
unfolding handle_capsule
handle_capsule-Ensures P open_ (ok none) d again h go stop = absurd (h refl)
handle_capsule-Ensures P true (ok (some (datagram pkt))) d again h go stop = go _ refl
handle_capsule-Ensures P false (ok (some (datagram pkt))) d again h go stop = stop _ refl
handle_capsule-Ensures P open_ (ok (some (address_assign addrs))) d again h go stop = go _ refl
handle_capsule-Ensures P open_ (ok (some address_request)) d again h go stop = go _ refl
handle_capsule-Ensures P open_ (ok (some (route_advertisement r))) d again h go stop = go _ refl
handle_capsule-Ensures P open_ (ok (some (unknown k v))) d again h go stop = go _ refl
handle_capsule-Ensures P open_ (err e) d again h go stop = stop _ refl
handle_capsule-Ensures P open_ panic d again h go stop = absurd h
handle_capsule-Ensures P open_ stuck d again h go stop = absurd h

module _ (o : Octets) (laws : IsOctets o) where
  -- Everything is fed to the loop through what `next` returns.
  pub drain_loop_step :
      (inbound_open : Bool) (fuel : ℕ) (d : Drained) (buf : List ℕ)
      (result : Outcome AetherError (Option Capsule))
      → next o d.buf ≡ (result, buf)
      → drain_loop o inbound_open (suc fuel) d
        ≡ handle_capsule inbound_open result
            (record d { buf = buf })
            (drain_loop o inbound_open fuel)
  unfolding drain_loop
  drain_loop_step inbound_open fuel d buf result e =
      ap
        (λ (p : Outcome AetherError (Option Capsule) × List ℕ).
          handle_capsule inbound_open p.0 (record d { buf = p.1 }) (drain_loop o inbound_open fuel))
        e

  pub drain_loop_waits :
      (inbound_open : Bool) (fuel : ℕ) (d : Drained)
      → next o d.buf ≡ (ok none, d.buf)
      → drain_loop o inbound_open (suc fuel) d ≡ ok d
  unfolding handle_capsule
  drain_loop_waits inbound_open fuel d e = drain_loop_step inbound_open fuel d d.buf (ok none) e

  abbrev NoLonger : Drained → Drained → Type 0
  NoLonger d d' = length d'.buf ≤ length d.buf

  -- A round that goes on has taken a capsule off the buffer.
  drain_loop-Ensures :
      (inbound_open : Bool) (fuel : ℕ) (d : Drained)
      → length d.buf ≤ fuel
      → Ensures (NoLonger d) (drain_loop o inbound_open (suc fuel) d)
  drain_loop-Ensures inbound_open zero d h = elim (next_cases o laws d.buf) [
    | inl e ↦ rw (drain_loop_waits inbound_open zero d e) (le_refl _)
    | inr f ↦ absurd (omega (arith, ap length f.split, length-append f.front f.rest, f.nonempty))
  ]
  drain_loop-Ensures inbound_open (suc fuel) d h = elim (next_cases o laws d.buf) [
    | inl e ↦ rw (drain_loop_waits inbound_open (suc fuel) d e) (le_refl _)
    | inr f ↦
        let shorter : length f.rest < length d.buf =
          omega (arith, ap length f.split, length-append f.front f.rest, f.nonempty) in
        rw (drain_loop_step inbound_open (suc fuel) d f.rest _ f.now) (
          handle_capsule-Ensures (NoLonger d) inbound_open (capsule_of o f.kind f.value) _ _
            (capsule_of-Ensures o laws f.kind f.value)
            (λ d' same.
              Ensures-weaken (NoLonger d') (NoLonger d) (drain_loop o inbound_open (suc fuel) d')
                (λ d'' k. omega (arith, ap length same))
                (drain_loop-Ensures inbound_open fuel d' (omega (arith, ap length same))))
            (λ d' same. omega (arith, ap length same)))
  ]

  -- On any buffer, also one that holds malformed capsules, and with the receiver of the packets gone
  -- or not, a drain ends: it neither panics nor loops, and the buffer does not grow.
  pub drain_capsules-Ensures :
      (inbound_open : Bool) (buf : List ℕ)
      → Ensures (λ d. length d.buf ≤ length buf) (drain_capsules o inbound_open buf)
  unfolding drain_capsules fresh
  drain_capsules-Ensures inbound_open buf =
      drain_loop-Ensures inbound_open (length buf) (fresh buf) (le_refl _)
