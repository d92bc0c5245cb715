-- ===== src/Quic/Returning.antt =====
-- How the loop of aether/src/quic.rs ends: by a return of `run`.
use aether_gui.Common.{
  ℕ, zero, suc, ◌<◌, ◌≡◌, refl, sym, ap, subst, ◌≢◌, ◌⊎◌, inl, inr, Bool, true, false, ◌&&◌, not,
  Option, none, some, List, [], ◌∷◌, ◌++◌, arith, length, length-append, ◌==◌, if_both,
}
use aether_gui.Common.Outcome.{Outcome, ok, err, panic, stuck, Absent, Ensures}
use aether_gui.Error.{AetherError}
use aether_gui.Net.{SocketAddr}
use aether_gui.Octets.{Octets, IsOctets}
use aether_gui.H2.{Settings, passed}
use aether_gui.Masque.{
  Capsule, capsule_of, datagram, address_assign, address_request, route_advertisement, unknown,
}
use aether_gui.Masque.Framing.{next_cases}
use aether_gui.Masque.Values.{capsule_of-Ensures}
use aether_gui.Tunnel.{AssignedAddr, assigned}
use aether_gui.Quic.Connection.{
  Link, Next, go, stop, and_then, Written, flush_loop, socket_for, send_on, Poll, headers, body,
  finished, reset, poll_failed, on_poll, poll_h3, push_all, drained_stream, drain_stream_loop,
  drain_stream_capsules, handle_stream_capsule, drain_datagrams,
}
use aether_gui.Quic.Run.{
  QuicRound, on_quic_event, on_opened, open_request, poll_stream, confirm_link, reconnected_with,
  retry_or_end, at_closed, after_event, quic_turn, is_some,
}

-- `run` returns a value or an error: it has not panicked, and no loop of it hangs.
abbrev pub IsReturn : Outcome AetherError (Unit {0}) → Type 0
IsReturn (ok u) = Unit
IsReturn (err e) = Unit
IsReturn panic = ⊥
IsReturn stuck = ⊥

-- A stretch of the loop goes on, or `run` returns.
abbrev pub Returns : Next → Type 0
Returns (go s) = Unit
Returns (stop result s) = IsReturn result

and_then-Returns :
    (m : Next) (f : Link → Next) → Returns m → ((s : Link) → Returns (f s)) → Returns (and_then m f)
and_then-Returns (go s) f h k = k s
and_then-Returns (stop result s) f h k = h

pub flush_loop-Returns :
    (writes : List Written) (fails : Bool) (s : Link) → Returns (flush_loop writes fails s)
unfolding flush_loop
flush_loop-Returns [] fails s = if_both Returns fails _ _ tt tt
flush_loop-Returns (w ∷ writes) fails s =
    and_then-Returns (send_on (socket_for s.sockets w.from) w s) (flush_loop writes fails)
      (sent (socket_for s.sockets w.from)) (λ s'. flush_loop-Returns writes fails s')
  where
    sent : (local : Option SocketAddr) → Returns (send_on local w s)
    sent none = tt
    sent (some local) = if_both Returns w.taken _ _ tt tt

-- A drain gives the rest of the buffer and the addresses.
abbrev Drains : Outcome Absent (List ℕ × List AssignedAddr) → Type 0
Drains (ok d) = Unit
Drains (err e) = ⊥
Drains panic = ⊥
Drains stuck = ⊥

module _ (o : Octets) (laws : IsOctets o) where
  handle_stream_capsule-Drains :
      (result : Outcome AetherError (Option Capsule)) (d : List ℕ × List AssignedAddr)
      (again : List ℕ × List AssignedAddr → Outcome Absent (List ℕ × List AssignedAddr))
      → Ensures (λ c. c ≢ none) result
      → ((d' : List ℕ × List AssignedAddr) → d'.0 ≡ d.0 → Drains (again d'))
      → Drains (handle_stream_capsule result d again)
  handle_stream_capsule-Drains (ok none) d again h k = tt
  handle_stream_capsule-Drains (ok (some (datagram pkt))) d again h k = k d refl
  handle_stream_capsule-Drains (ok (some (address_assign addrs))) d again h k =
      k (d.0, d.1 ++ assigned addrs) refl
  handle_stream_capsule-Drains (ok (some address_request)) d again h k = k d refl
  handle_stream_capsule-Drains (ok (some (route_advertisement r))) d again h k = k d refl
  handle_stream_capsule-Drains (ok (some (unknown kind v))) d again h k = k d refl
  handle_stream_capsule-Drains (err e) d again h k = tt
  handle_stream_capsule-Drains panic d again h k = absurd h
  handle_stream_capsule-Drains stuck d again h k = absurd h

  -- Each round that goes on has taken a capsule off the buffer.
  drain_stream_loop-Drains :
      (fuel : ℕ) (d : List ℕ × List AssignedAddr)
      → length d.0 < fuel
      → Drains (drain_stream_loop o fuel d)
  unfolding drain_stream_loop
  drain_stream_loop-Drains zero d h = absurd (clash h)
    where
      clash : length d.0 < 0 → ⊥
      clash lt = omega arith
  drain_stream_loop-Drains (suc fuel) (buf, more) h = elim (next_cases o laws buf) [
    | inl e ↦
        subst
          (λ (p : Outcome AetherError (Option Capsule) × List ℕ).
            Drains (handle_stream_capsule p.0 (p.1, more) (drain_stream_loop o fuel)))
          (sym e) tt
    | inr f ↦
        let shorter : length f.rest < length buf =
          omega (arith, ap length f.split, length-append f.front f.rest, f.nonempty) in
        subst
          (λ (p : Outcome AetherError (Option Capsule) × List ℕ).
            Drains (handle_stream_capsule p.0 (p.1, more) (drain_stream_loop o fuel)))
          (sym f.now)
          (handle_stream_capsule-Drains (capsule_of o f.kind f.value) (f.rest, more)
            (drain_stream_loop o fuel) (capsule_of-Ensures o laws f.kind f.value)
            (λ d' same. drain_stream_loop-Drains fuel d' (omega (arith, ap length same, shorter))))
  ]

  drain_stream_capsules-Drains : (buf : List ℕ) → Drains (drain_stream_capsules o buf)
  unfolding drain_stream_capsules
  drain_stream_capsules-Drains buf =
      drain_stream_loop-Drains (suc (length buf)) (buf, []) (omega arith)

  drained_stream-Returns :
      (s : Link) (d : Outcome Absent (List ℕ × List AssignedAddr))
      → Drains d
      → Returns (drained_stream s d)
  drained_stream-Returns s (ok (buf, more)) h = tt
  drained_stream-Returns s (err e) h = absurd h
  drained_stream-Returns s panic h = absurd h
  drained_stream-Returns s stuck h = absurd h

  on_poll-Returns : (sid : ℕ) (p : Poll) (s : Link) → Returns (on_poll o sid p s)
  unfolding on_poll
  on_poll-Returns sid headers s = tt
  on_poll-Returns sid (body stream_id chunks) s =
      if_both Returns (stream_id == sid) _ _
        (drained_stream-Returns s (drain_stream_capsules o (push_all s.capsules chunks))
          (drain_stream_capsules-Drains (push_all s.capsules chunks)))
        tt
  on_poll-Returns sid finished s = tt
  on_poll-Returns sid reset s = tt
  on_poll-Returns sid poll_failed s = tt

  poll_h3-Returns : (sid : ℕ) (polls : List Poll) (s : Link) → Returns (poll_h3 o sid polls s)
  unfolding poll_h3
  poll_h3-Returns sid [] s = tt
  poll_h3-Returns sid (p ∷ polls) s =
      and_then-Returns (on_poll o sid p s) (poll_h3 o sid polls) (on_poll-Returns sid p s)
        (λ s'. poll_h3-Returns sid polls s')

  module _ (cfg : Settings) where
    open_request-Returns : (r : QuicRound) (s : Link) → Returns (open_request o cfg r s)
    unfolding open_request
    open_request-Returns r s =
        if_both Returns (r.established && not s.core.h3_conn) _ _ (opened r.opened) tt
      where
        opened : (x : AetherError ⊎ ℕ) → Returns (on_opened o cfg r.opened_at x s)
        opened (inl e) = tt
        opened (inr sid) = tt

    poll_stream-Returns :
        (h3 : Bool) (req : Option ℕ) (polls : List Poll) (s : Link)
        → Returns (poll_stream o cfg h3 req polls s)
    poll_stream-Returns false req polls s = tt
    poll_stream-Returns true none polls s = tt
    poll_stream-Returns true (some sid) polls s = poll_h3-Returns sid polls s

    at_closed-Returns : (r : QuicRound) (s : Link) → Returns (at_closed o cfg r s)
    unfolding at_closed
    at_closed-Returns r s =
        if_both Returns r.closed _ _
          (if_both Returns
            (not s.core.established_ever && not s.ech_retried && is_some s.current_ech) _ _
            (retried r.retry_configs) tt)
          tt
      where
        again :
            (x : Option AetherError) (retry : List ℕ) → Returns (reconnected_with o cfg r retry s x)
        again none retry = flush_loop-Returns r.reflushed.writes r.reflushed.fails _
        again (some e) retry = tt

        retried : (retry : Option (List ℕ)) → Returns (retry_or_end o cfg r retry s)
        retried none = tt
        retried (some retry) = again r.reconnected retry

    pub quic_turn-Returns : (r : QuicRound) (s : Link) → Returns (quic_turn o cfg r s)
    unfolding quic_turn after_event
    quic_turn-Returns r s =
        if_both Returns
          (cfg.data_check && not s.core.ready_fired && passed s.core.validate_deadline r.top) _ _ tt
          (and_then-Returns (open_request o cfg r (on_quic_event o cfg r.event s)) _
            (open_request-Returns r (on_quic_event o cfg r.event s))
            λ s1.
              and_then-Returns (poll_stream o cfg s1.core.h3_conn s1.core.req_stream r.polls s1) _
                (poll_stream-Returns s1.core.h3_conn s1.core.req_stream r.polls s1)
                λ s2.
                  and_then-Returns _ (at_closed o cfg r)
                    (flush_loop-Returns r.flushed.writes r.flushed.fails (
                      confirm_link o cfg
                        (drain_datagrams o s2.core.req_stream r.inbound_open r.datagrams s2)))
                    (λ s3. at_closed-Returns r s3))
