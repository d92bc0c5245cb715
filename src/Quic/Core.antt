-- ===== src/Quic/Core.antt =====
-- What the loop of aether/src/quic.rs keeps of its variables, by its pieces.
use aether_gui.Common.{
  ◌⊎◌, inl, inr, ℕ, ◌≡◌, refl, sym, ap, ◌∙◌, subst, Bool, true, false, ◌&&◌, not, Option, none,
  some, List, [], ◌∷◌, ◌++◌, ◌==◌, if_both, if_known,
}
use aether_gui.Common.Outcome.{Outcome, ok, err, panic, stuck, Absent}
use aether_gui.Common.{and_left, and_right, of_not}
use aether_gui.Error.{AetherError}
use aether_gui.Net.{SocketAddr}
use aether_gui.Octets.{Octets}
use aether_gui.H2.{Settings, close, migrate, passed}
use aether_gui.Masque.{encode_ip_datagram}
use aether_gui.Tunnel.{AssignedAddr}
use aether_gui.Quic.Connection.{
  Readiness, Link, Next, go, stop, and_then, Written, flush_loop, socket_for, send_on, Migration,
  do_migrate, bound_at, Poll, headers, body, finished, reset, poll_failed, on_poll, poll_h3,
  drained_stream, packet_of, take_datagram, drain_loop_datagrams, drain_datagrams, send_framed,
  send_packet,
}
use aether_gui.Quic.Run.{
  QuicEvent, keepalive, probe_tick, packet, control, outbound, timer, QuicRound, on_quic_event,
  opened_core, on_opened, open_request, poll_stream, confirm_core, confirm_link, reconnected_with,
  retry_or_end, at_closed, after_event, quic_turn, next_quic_rounds, quic_loop, is_some,
}

-- Where a stretch of the loop leads, on and at a return.
abbrev pub AllNext : (Readiness → Type 0) → Next → Type 0
AllNext P (go s) = P s.core
AllNext P (stop result s) = P s.core

abbrev Asked : Option ℕ → Type 0
Asked req = (sid : ℕ) × (req ≡ some sid)

-- What the steps that change the variables keep.
pub record Kept (cfg : Settings) (o : Octets) (P : Readiness → Type 0) : Type 0 where
  pub opens :
      (sid now : ℕ) (c : Readiness) → c.h3_conn ≡ false → P c → P (opened_core o cfg sid now c)
  pub fails : (c : Readiness) → P c → P (record c { established_ever = true })
  pub confirms :
      (c : Readiness) → c.ready_fired ≡ false → Asked c.req_stream → P c → P (confirm_core o cfg c)
  pub reconnects :
      (c : Readiness)
      → c.established_ever ≡ false
      → P c
      → P (record c { h3_conn = false; req_stream = none })

module _ (P : Readiness → Type 0) where
  and_then-AllNext :
      (m : Next) (f : Link → Next)
      → AllNext P m
      → ((s : Link) → P s.core → AllNext P (f s))
      → AllNext P (and_then m f)
  and_then-AllNext (go s) f h k = k s h
  and_then-AllNext (stop result s) f h k = h

  send_on-AllNext :
      (local : Option SocketAddr) (w : Written) (s : Link)
      → P s.core
      → AllNext P (send_on local w s)
  send_on-AllNext none w s h = h
  send_on-AllNext (some local) w s h = if_both (AllNext P) w.taken _ _ h h

  pub flush_loop-AllNext :
      (writes : List Written) (fails : Bool) (s : Link)
      → P s.core
      → AllNext P (flush_loop writes fails s)
  unfolding flush_loop
  flush_loop-AllNext [] fails s h = if_both (AllNext P) fails _ _ h h
  flush_loop-AllNext (w ∷ writes) fails s h =
      and_then-AllNext (send_on (socket_for s.sockets w.from) w s) (flush_loop writes fails)
        (send_on-AllNext (socket_for s.sockets w.from) w s h)
        (λ s' h'. flush_loop-AllNext writes fails s' h')

do_migrate-core : (m : Migration) (s : Link) → (do_migrate m s).core ≡ s.core
unfolding do_migrate
do_migrate-core m s =
    if_both (λ (s' : Link). s'.core ≡ s.core) (m.available_dcids == 0) _ _ refl (at m.bound)
  where
    at : (local : Option SocketAddr) → (bound_at m local s).core ≡ s.core
    at none = refl
    at (some local) = if_both (λ (s' : Link). s'.core ≡ s.core) m.probed _ _ refl refl

module _ (o : Octets) where
  drained_stream-AllNext :
      (P : Readiness → Type 0) (s : Link) (d : Outcome Absent (List ℕ × List AssignedAddr))
      → P s.core
      → AllNext P (drained_stream s d)
  drained_stream-AllNext P s (ok (buf, more)) h = h
  drained_stream-AllNext P s (err e) h = h
  drained_stream-AllNext P s panic h = h
  drained_stream-AllNext P s stuck h = h

  on_poll-AllNext :
      (P : Readiness → Type 0) (sid : ℕ) (p : Poll) (s : Link)
      → P s.core
      → AllNext P (on_poll o sid p s)
  unfolding on_poll
  on_poll-AllNext P sid headers s h = h
  on_poll-AllNext P sid (body stream_id chunks) s h =
      if_both (AllNext P) (stream_id == sid) _ _ (drained_stream-AllNext P s _ h) h
  on_poll-AllNext P sid finished s h = h
  on_poll-AllNext P sid reset s h = h
  on_poll-AllNext P sid poll_failed s h = h

  poll_h3-AllNext :
      (P : Readiness → Type 0) (sid : ℕ) (polls : List Poll) (s : Link)
      → P s.core
      → AllNext P (poll_h3 o sid polls s)
  unfolding poll_h3
  poll_h3-AllNext P sid [] s h = h
  poll_h3-AllNext P sid (p ∷ polls) s h =
      and_then-AllNext P (on_poll o sid p s) (poll_h3 o sid polls) (on_poll-AllNext P sid p s h)
        (λ s' h'. poll_h3-AllNext P sid polls s' h')

  send_packet-core :
      (req : Option ℕ) (pkt : List ℕ) (s : Link) → (send_packet o req pkt s).core ≡ s.core
  unfolding send_packet
  send_packet-core none pkt s = refl
  send_packet-core (some sid) pkt s = framed (encode_ip_datagram o sid pkt)
    where
      framed : (x : Outcome AetherError (List ℕ)) → (send_framed o x s).core ≡ s.core
      framed (ok bytes) = refl
      framed (err e) = refl
      framed panic = refl
      framed stuck = refl

  drain_loop_datagrams-core :
      (sid : ℕ) (open_ : Bool) (answers : List (Option (List ℕ))) (d : Bool × Link)
      → (drain_loop_datagrams o sid open_ answers d).1.core ≡ d.1.core
  unfolding drain_loop_datagrams
  drain_loop_datagrams-core sid open_ [] d = refl
  drain_loop_datagrams-core sid open_ (none ∷ answers) d = refl
  drain_loop_datagrams-core sid open_ (some bytes ∷ answers) d =
      taken (packet_of o sid bytes) open_ d (drain_loop_datagrams-core sid open_ answers)
    where
      taken :
          (found : Option (List ℕ)) (open' : Bool) (d' : Bool × Link)
          → ((d'' : Bool × Link)
              → (drain_loop_datagrams o sid open_ answers d'').1.core ≡ d''.1.core)
          → (take_datagram found open' d' (drain_loop_datagrams o sid open_ answers)).1.core
            ≡ d'.1.core
      taken none open' d' ih = ih d'
      taken (some pkt) true (delivered, s) ih =
          ih (true, record s { inbound = s.inbound ++ (pkt ∷ []) })
      taken (some pkt) false (delivered, s) ih = refl

module _ (o : Octets) (cfg : Settings) (P : Readiness → Type 0) (k : Kept cfg o P) where
  on_quic_event-core : (e : QuicEvent) (s : Link) → (on_quic_event o cfg e s).core ≡ s.core
  unfolding on_quic_event
  on_quic_event-core (keepalive established) s =
      if_both (λ (s' : Link). s'.core ≡ s.core) established _ _ refl refl
  on_quic_event-core probe_tick s =
      if_both (λ (s' : Link). s'.core ≡ s.core) (cfg.data_check && not s.core.ready_fired) _ _
        (send_packet-core o s.core.req_stream cfg.probe_packet s) refl
  on_quic_event-core (packet bytes) s = refl
  on_quic_event-core (control (some migrate) m) s = do_migrate-core m s
  on_quic_event-core (control (some close) m) s = refl
  on_quic_event-core (control none m) s = refl
  on_quic_event-core (outbound (some pkt)) s = send_packet-core o s.core.req_stream pkt s
  on_quic_event-core (outbound none) s = refl
  on_quic_event-core timer s = refl

  open_request-AllNext : (r : QuicRound) (s : Link) → P s.core → AllNext P (open_request o cfg r s)
  unfolding open_request
  open_request-AllNext r s h =
      if_known (AllNext P) (r.established && not s.core.h3_conn) _ _
        (λ e.
          opened r.opened (of_not s.core.h3_conn (and_right r.established (not s.core.h3_conn) e)))
        (λ _. h)
    where
      opened :
          (x : AetherError ⊎ ℕ)
          → s.core.h3_conn ≡ false
          → AllNext P (on_opened o cfg r.opened_at x s)
      opened (inr sid) e = k.opens sid r.opened_at s.core e h
      opened (inl x) e = k.fails s.core h

  poll_stream-AllNext :
      (h3 : Bool) (req : Option ℕ) (polls : List Poll) (s : Link)
      → P s.core
      → AllNext P (poll_stream o cfg h3 req polls s)
  poll_stream-AllNext false req polls s h = h
  poll_stream-AllNext true none polls s h = h
  poll_stream-AllNext true (some sid) polls s h = poll_h3-AllNext o P sid polls s h

  confirm_link-kept :
      (req : Option ℕ) (open_ : Bool) (answers : List (Option (List ℕ))) (s : Link)
      → s.core.req_stream ≡ req
      → P s.core
      → P (confirm_link o cfg (drain_datagrams o req open_ answers s)).core
  unfolding drain_datagrams
  confirm_link-kept none open_ answers s e h = h
  confirm_link-kept (some sid) open_ answers s e h =
      confirmed (drain_loop_datagrams o sid open_ answers (false, s))
        (drain_loop_datagrams-core o sid open_ answers (false, s))
    where
      confirmed : (d : Bool × Link) → d.1.core ≡ s.core → P (confirm_link o cfg d).core
      confirmed (got, s') same =
          if_known (λ (x : Link). P x.core) (got && not s'.core.ready_fired) _ _
            (λ t.
              k.confirms s'.core
                (of_not s'.core.ready_fired (and_right got (not s'.core.ready_fired) t))
                (sid, ap (λ (c : Readiness). c.req_stream) same ∙ e) (subst P (sym same) h))
            (λ _. subst P (sym same) h)

  at_closed-AllNext : (r : QuicRound) (s : Link) → P s.core → AllNext P (at_closed o cfg r s)
  unfolding at_closed
  at_closed-AllNext r s h =
      if_both (AllNext P) r.closed _ _
        (if_known (AllNext P)
          (not s.core.established_ever && not s.ech_retried && is_some s.current_ech) _ _
          (λ e. retried r.retry_configs (of_not s.core.established_ever (first e))) (λ _. h))
        h
    where
      first :
          (not s.core.established_ever && not s.ech_retried && is_some s.current_ech) ≡ true
          → not s.core.established_ever ≡ true
      first e =
          and_left (not s.core.established_ever) (not s.ech_retried)
            (and_left (not s.core.established_ever && not s.ech_retried) (is_some s.current_ech) e)

      again :
          (x : Option AetherError) (retry : List ℕ)
          → s.core.established_ever ≡ false
          → AllNext P (reconnected_with o cfg r retry s x)
      again none retry e =
          flush_loop-AllNext P r.reflushed.writes r.reflushed.fails _ (k.reconnects s.core e h)
      again (some x) retry e = h

      retried :
          (retry : Option (List ℕ))
          → s.core.established_ever ≡ false
          → AllNext P (retry_or_end o cfg r retry s)
      retried none e = h
      retried (some retry) e = again r.reconnected retry e

  after_event-AllNext : (r : QuicRound) (s : Link) → P s.core → AllNext P (after_event o cfg r s)
  unfolding after_event
  after_event-AllNext r s h =
      and_then-AllNext P (open_request o cfg r s) _ (open_request-AllNext r s h) λ s1 h1.
        and_then-AllNext P (poll_stream o cfg s1.core.h3_conn s1.core.req_stream r.polls s1) _
          (poll_stream-AllNext s1.core.h3_conn s1.core.req_stream r.polls s1 h1)
          λ s2 h2.
            and_then-AllNext P _ (at_closed o cfg r)
              (flush_loop-AllNext P r.flushed.writes r.flushed.fails _
                (confirm_link-kept s2.core.req_stream r.inbound_open r.datagrams s2 refl h2))
              (λ s3 h3. at_closed-AllNext r s3 h3)

  pub quic_turn-AllNext : (r : QuicRound) (s : Link) → P s.core → AllNext P (quic_turn o cfg r s)
  unfolding quic_turn
  quic_turn-AllNext r s h =
      if_both (AllNext P)
        (cfg.data_check && not s.core.ready_fired && passed s.core.validate_deadline r.top) _ _ h
        (after_event-AllNext r (on_quic_event o cfg r.event s)
          (subst P (sym (on_quic_event-core r.event s)) h))

  pub next_quic_rounds-kept :
      (rest : Link → Link × Option (Outcome AetherError (Unit {0}))) (x : Next)
      → AllNext P x
      → ((s' : Link) → P s'.core → P (rest s').0.core)
      → P (next_quic_rounds o cfg rest x).0.core
  next_quic_rounds-kept rest (go s') h ih = ih s' h
  next_quic_rounds-kept rest (stop result s') h ih = h

  pub quic_loop-kept :
      (rounds : List QuicRound) (s : Link) → P s.core → P (quic_loop o cfg rounds s).0.core
  unfolding quic_loop
  quic_loop-kept [] s h = h
  quic_loop-kept (r ∷ rounds) s h =
      next_quic_rounds-kept (quic_loop o cfg rounds) (quic_turn o cfg r s) (quic_turn-AllNext r s h)
        (λ s' h'. quic_loop-kept rounds s' h')
