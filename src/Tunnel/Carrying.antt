-- ===== src/Tunnel/Carrying.antt =====
-- When a drain of aether/src/masque_h2.rs says that it delivered a packet.
use aether_gui.Common.{
  ℕ, zero, suc, ◌≡◌, refl, sym, ap, ◌∙◌, subst, ◌⊎◌, inl, inr, Bool, true, false, Option, none,
  some, List, length,
}
use aether_gui.Common.Outcome.{Outcome, ok, err, panic, stuck, Absent}
use aether_gui.Error.{AetherError}
use aether_gui.Octets.{Octets}
use aether_gui.Masque.{
  Capsule, datagram, address_assign, address_request, route_advertisement, unknown, next,
}
use aether_gui.Tunnel.{Drained, fresh, handle_capsule, drain_loop, drain_capsules}

-- The capsules at the front of the buffer, up to some DATAGRAM capsule, are complete and parse.
pub data Carries (o : Octets) : List ℕ → Type 0 where
  here :
      {buf : List ℕ} (pkt rest : List ℕ)
      → next o buf ≡ (ok (some (datagram pkt)), rest)
      → Carries o buf
  later :
      {buf : List ℕ} (c : Capsule) (rest : List ℕ)
      → next o buf ≡ (ok (some c), rest)
      → Carries o rest
      → Carries o buf

abbrev flag_of : Outcome Absent Drained → Bool
flag_of (ok d) = d.delivered
flag_of (err e) = false
flag_of panic = false
flag_of stuck = false

module _ (o : Octets) (open_ : Bool) where
  drain_loop-Carries :
      (fuel : ℕ) (d d' : Drained)
      → drain_loop o open_ fuel d ≡ ok d'
      → d'.delivered ≡ true
      → (d.delivered ≡ true) ⊎ Carries o d.buf
  unfolding drain_loop handle_capsule
  drain_loop-Carries zero d d' e h = cc
  drain_loop-Carries (suc fuel) d d' e h =
      on (next o d.buf).0 open_ refl e
        (λ c d'' k e'. passed_on c d'' k (drain_loop-Carries fuel d'' d' e' h))
    where
      passed_on :
          (c : Capsule) (d'' : Drained)
          → ((next o d.buf).0 ≡ ok (some c))
            × (d''.buf ≡ (next o d.buf).1)
            × (d''.delivered ≡ d.delivered)
          → (d''.delivered ≡ true) ⊎ Carries o d''.buf
          → (d.delivered ≡ true) ⊎ Carries o d.buf
      passed_on c d'' (taken, rest, same) (inl k) = inl (sym same ∙ k)
      passed_on c d'' (taken, rest, same) (inr k) = inr (
          later c (next o d.buf).1 (ap (λ x. (x, (next o d.buf).1)) taken)
            (subst (Carries o) rest k))

      on :
          (result : Outcome AetherError (Option Capsule)) (there : Bool)
          → (next o d.buf).0 ≡ result
          → handle_capsule there result
              (record d { buf = (next o d.buf).1 })
              (drain_loop o open_ fuel)
            ≡ ok d'
          → ((c : Capsule) (d'' : Drained)
              → ((next o d.buf).0 ≡ ok (some c))
                × (d''.buf ≡ (next o d.buf).1)
                × (d''.delivered ≡ d.delivered)
              → drain_loop o open_ fuel d'' ≡ ok d'
              → (d.delivered ≡ true) ⊎ Carries o d.buf)
          → (d.delivered ≡ true) ⊎ Carries o d.buf
      on (ok none) there taken e' again = inl (ap flag_of e' ∙ h)
      on (ok (some (datagram pkt))) there taken e' again =
          inr (here pkt (next o d.buf).1 (ap (λ x. (x, (next o d.buf).1)) taken))
      on (ok (some (address_assign addrs))) there taken e' again = again _ _ (taken, refl, refl) e'
      on (ok (some address_request)) there taken e' again = again _ _ (taken, refl, refl) e'
      on (ok (some (route_advertisement routes))) there taken e' again =
          again _ _ (taken, refl, refl) e'
      on (ok (some (unknown kind payload))) there taken e' again = again _ _ (taken, refl, refl) e'
      on (err x) there taken e' again = inl (ap flag_of e' ∙ h)
      on panic there taken e' again = cc
      on stuck there taken e' again = cc

  -- A drain that says it delivered a packet found a whole DATAGRAM capsule in its buffer.
  pub drain_capsules-Carries :
      (buf : List ℕ) (d : Drained)
      → drain_capsules o open_ buf ≡ ok d
      → d.delivered ≡ true
      → Carries o buf
  unfolding drain_capsules fresh
  drain_capsules-Carries buf d e h = found (drain_loop-Carries (suc (length buf)) (fresh buf) d e h)
    where
      found : (false ≡ true) ⊎ Carries o buf → Carries o buf
      found (inl k) = cc
      found (inr k) = k
