-- ===== src/Netstack/Runs.antt =====
-- The bytes of a connection over whole runs of the loop of aether/src/netstack.rs.
use aether_gui.Common.{
  ℕ, ◌≤◌, ◌<◌, ◌≡◌, refl, sym, ap, ◌∙◌, subst, Bool, true, false, Option, none, some, List, [], ◌∷◌,
  ◌++◌, append-nil, append_assoc, arith, if◌then◌else◌,
}
use aether_gui.Common.Outcome.{}
use aether_gui.Net.{SocketAddr}
use aether_gui.Common.Assoc.{lookup, keys}
use aether_gui.Netstack.{
  Smoltcp, alloc_port, Cmd, open_tcp, open_udp, set_addrs, DataIn, tcp, tcp_close, udp, udp_close,
  TcpState, Effect, NetStack, add_tcp, add_udp, handle_cmd, update_tcp, send_udp, close_udp,
  handle_data,
}
use aether_gui.Netstack.Service.{
  StackEvent, inbound, inbound_closed, command, commands_closed, app_data, slept, Turn, serve_entry,
  serve_ids, service_tcp, serve_udp_ids, service_udp, flush_tx, polled, handle_all, handle_event,
  service, run,
}
use aether_gui.Netstack.Served.{transmitted_bytes}
use aether_gui.Netstack.Streams.{Flows, Flows-trans, Flows-same, serve_ids-Flows}
use aether_gui.Netstack.Delivery.{
  put_by, submitted_bytes, handle_all-Flows, handle_cmd-Flows, serve_udp_ids-IsAside, IsAside-trans,
  flush_tx-IsAside, polled-IsAside, IsAside-Flows,
}

abbrev pub taken_by : StackEvent → List DataIn → List DataIn
taken_by inbound_closed rest = []
taken_by commands_closed rest = []
taken_by (app_data ds) rest = ds ++ rest
taken_by (inbound pkt more) rest = rest
taken_by (command c) rest = rest
taken_by slept rest = rest

-- What the loop takes from its channel of data before it returns.
unfoldable pub data_taken : List Turn → List DataIn
data_taken [] = []
data_taken (t ∷ turns) = taken_by t.event (data_taken turns)

submitted_bytes-append :
    (o : ℕ) (xs ys : List DataIn)
    → submitted_bytes o (xs ++ ys) ≡ submitted_bytes o xs ++ submitted_bytes o ys
unfolding submitted_bytes
submitted_bytes-append o [] ys = refl
submitted_bytes-append o (x ∷ xs) ys =
    ap (λ l. put_by o x ++ l) (submitted_bytes-append o xs ys)
    ∙ sym (append_assoc (put_by o x) (submitted_bytes o xs) (submitted_bytes o ys))

module _ (net : Smoltcp) where
  serve_entry-next_id :
      (s : NetStack net) (id : ℕ) (takes : List ℕ → Bool) (entry : Option TcpState)
      → (serve_entry net s id takes entry).0.next_id ≡ s.next_id
  serve_entry-next_id s id takes none = refl
  serve_entry-next_id s id takes (some st) = refl

  serve_ids-next_id :
      (ids : List ℕ) (takes : ℕ → List ℕ → Bool) (s : NetStack net)
      → (serve_ids net ids takes s).0.next_id ≡ s.next_id
  unfolding serve_ids
  serve_ids-next_id [] takes s = refl
  serve_ids-next_id (id ∷ ids) takes s =
      serve_ids-next_id ids takes (serve_entry net s id (takes id) (lookup id s.tcp_conns)).0
      ∙ serve_entry-next_id s id (takes id) (lookup id s.tcp_conns)

  pub service-next_id :
      (takes : ℕ → List ℕ → Bool) (out : List ℕ → Bool) (s : NetStack net)
      → (service net takes out s).0.next_id ≡ s.next_id
  unfolding service service_tcp service_udp
  service-next_id takes out s =
      let s0 = polled net s (net.poll s.rx s.sockets) in
      let s1 = (serve_ids net (keys s0.tcp_conns) takes s0).0 in
      let s2 = (serve_udp_ids net (keys s1.udp_conns) takes s1).0 in
      (flush_tx-IsAside net 0 out s2).1
      ∙ (serve_udp_ids-IsAside net 0 (keys s1.udp_conns) takes s1).1
      ∙ serve_ids-next_id (keys s0.tcp_conns) takes s0
      ∙ (polled-IsAside net 0 s (net.poll s.rx s.sockets)).1

  service-Flows :
      (o : ℕ) (takes : ℕ → List ℕ → Bool) (out : List ℕ → Bool) (s : NetStack net)
      → Flows net o s (service net takes out s) []
  unfolding service service_tcp service_udp
  service-Flows o takes out s =
      let s0 = polled net s (net.poll s.rx s.sockets) in
      let r1 = serve_ids net (keys s0.tcp_conns) takes s0 in
      let r2 = serve_udp_ids net (keys r1.0.udp_conns) takes r1.0 in
      let r3 = flush_tx net out r2.0 in
      Flows-trans net o s s0 r3.0 [] (r1.1 ++ (r2.1 ++ r3.1)) [] []
        (IsAside-Flows net o s (s0, []) (polled-IsAside net o s (net.poll s.rx s.sockets)))
        (Flows-trans net o s0 r1.0 r3.0 r1.1 (r2.1 ++ r3.1) [] []
          (serve_ids-Flows net o (keys s0.tcp_conns) takes s0)
          (IsAside-Flows net o r1.0 (r3.0, r2.1 ++ r3.1)
            (IsAside-trans net o r1.0 r2.0 r3.0 r2.1 r3.1
              (serve_udp_ids-IsAside net o (keys r1.0.udp_conns) takes r1.0)
              (flush_tx-IsAside net o out r2.0))))

  handle_all-next_id :
      (ds : List DataIn) (s : NetStack net) → (handle_all net s ds).next_id ≡ s.next_id
  unfolding handle_all handle_data
  handle_all-next_id [] s = refl
  handle_all-next_id (d ∷ ds) s = handle_all-next_id ds (handle_data net s d) ∙ one d
    where
      updated :
          (id : ℕ) (f : TcpState → TcpState) (found : Option TcpState)
          → (update_tcp net s id f found).next_id ≡ s.next_id
      updated id f none = refl
      updated id f (some st) = refl

      sent :
          (dst : SocketAddr) (bytes : List ℕ) (found : Option ℕ)
          → (send_udp net s dst bytes found).next_id ≡ s.next_id
      sent dst bytes none = refl
      sent dst bytes (some handle) = refl

      shut : (id : ℕ) (found : Option ℕ) → (close_udp net s id found).next_id ≡ s.next_id
      shut id none = refl
      shut id (some handle) = refl

      one : (x : DataIn) → (handle_data net s x).next_id ≡ s.next_id
      one (tcp id bytes) = updated id _ (lookup id s.tcp_conns)
      one (tcp_close id) = updated id _ (lookup id s.tcp_conns)
      one (udp id dst bytes) = sent dst bytes (lookup id s.udp_conns)
      one (udp_close id) = shut id (lookup id s.udp_conns)

  handle_cmd-next_id : (s : NetStack net) (c : Cmd) → s.next_id ≤ (handle_cmd net s c).0.next_id
  unfolding handle_cmd
  handle_cmd-next_id s (open_tcp dst) = grown (net.connect dst s.next_port s.sockets)
    where
      grown :
          (r : Option (ℕ × net.Sockets))
          → s.next_id
            ≤ (add_tcp net (record s { next_port = (alloc_port s.next_port).1 }) r).0.next_id
      grown none = omega arith
      grown (some (handle, sockets)) = omega arith
  handle_cmd-next_id s open_udp = grown (net.bind s.next_port s.sockets)
    where
      grown :
          (r : Option (ℕ × net.Sockets))
          → s.next_id
            ≤ (add_udp net (record s { next_port = (alloc_port s.next_port).1 }) r).0.next_id
      grown none = omega arith
      grown (some (handle, sockets)) = omega arith
  handle_cmd-next_id s (set_addrs v4 v6) = omega arith

  pub handle_event-next_id :
      (s : NetStack net) (e : StackEvent) → s.next_id ≤ (handle_event net s e).0.next_id
  unfolding handle_event
  handle_event-next_id s (inbound pkt more) = omega arith
  handle_event-next_id s inbound_closed = omega arith
  handle_event-next_id s (command c) = handle_cmd-next_id s c
  handle_event-next_id s commands_closed = omega arith
  handle_event-next_id s (app_data ds) = omega (arith, handle_all-next_id ds s)
  handle_event-next_id s slept = omega arith

  handle_event-Flows :
      (o : ℕ) (s : NetStack net) (e : StackEvent)
      → o < s.next_id
      → Flows net o s
          ((handle_event net s e).0, (handle_event net s e).1)
          (submitted_bytes o (taken_by e []))
  unfolding handle_event submitted_bytes transmitted_bytes
  handle_event-Flows o s (inbound pkt more) h =
      Flows-same net o s (handle_event net s (inbound pkt more)).0 [] refl refl
  handle_event-Flows o s inbound_closed h = Flows-same net o s s [] refl refl
  handle_event-Flows o s (command c) h = handle_cmd-Flows net o s c h
  handle_event-Flows o s commands_closed h = Flows-same net o s s [] refl refl
  handle_event-Flows o s (app_data ds) h =
      subst (λ l. Flows net o s (handle_all net s ds, []) (submitted_bytes o l))
        (sym (append-nil ds)) (handle_all-Flows net o ds s)
  handle_event-Flows o s slept h = Flows-same net o s s [] refl refl

-- After an event that ends the loop nothing more is taken; after any other, what the event brings and
-- then the rest.
taken_by-split :
    (net : Smoltcp) (s : NetStack net) (e : StackEvent) (rest : List DataIn)
    → taken_by e rest ≡ taken_by e [] ++ (if (handle_event net s e).2 then [] else rest)
unfolding handle_event
taken_by-split net s (inbound pkt more) rest = refl
taken_by-split net s inbound_closed rest = refl
taken_by-split net s (command c) rest = refl
taken_by-split net s commands_closed rest = refl
taken_by-split net s (app_data ds) rest = ap (λ l. l ++ rest) (sym (append-nil ds))
taken_by-split net s slept rest = refl

module _ (net : Smoltcp) (o : ℕ) (s s1 s2 : NetStack net) (e1 e2 : List Effect)
    (bytes : List DataIn) where
  -- A turn, and the turns behind it unless it ended the loop.
  turn-Flows :
      (ended : Bool) (last : NetStack net) (more : List Effect) (rest : List DataIn)
      → Flows net o s (s1, e1) []
      → Flows net o s1 (s2, e2) (submitted_bytes o bytes)
      → Flows net o s2 (last, more) (submitted_bytes o rest)
      → Flows net o s
          (if ended then (s2, e1 ++ e2) else (last, e1 ++ (e2 ++ more)))
          (submitted_bytes o (bytes ++ (if ended then [] else rest)))
  turn-Flows true last more rest served handled later =
      subst (λ l. Flows net o s (s2, e1 ++ e2) (submitted_bytes o l)) (sym (append-nil bytes))
        (Flows-trans net o s s1 s2 e1 e2 [] (submitted_bytes o bytes) served handled)
  turn-Flows false last more rest served handled later =
      subst (Flows net o s (last, e1 ++ (e2 ++ more))) (sym (submitted_bytes-append o bytes rest)) (
        Flows-trans net o s s1 last e1 (e2 ++ more) []
          (submitted_bytes o bytes ++ submitted_bytes o rest) served
          (Flows-trans net o s1 s2 last e2 more (submitted_bytes o bytes) (submitted_bytes o rest)
            handled later))

-- Whatever the sockets, the applications and the tunnel do in a run of the loop: if a connection is in
-- the table at the end, then the bytes that its socket was handed, followed by those that still wait,
-- are the bytes that waited at the start, followed by those that the application handed in, in order.
pub run-Flows :
    (net : Smoltcp) (o : ℕ) (turns : List Turn) (s : NetStack net)
    → o < s.next_id
    → Flows net o s (run net turns s) (submitted_bytes o (data_taken turns))
unfolding run data_taken transmitted_bytes submitted_bytes
run-Flows net o [] s h = Flows-same net o s s [] refl nothing
  where
    nothing : transmitted_bytes o [] ≡ []
    nothing = refl
run-Flows net o (t ∷ turns) s h =
    let r1 = service net t.takes t.out s in
    let r2 = handle_event net r1.0 t.event in
    let lt : o < r1.0.next_id = omega (arith, h, service-next_id net t.takes t.out s) in
    let rest = run net turns r2.0 in
    subst
      (λ l.
        Flows net o s (if r2.2 then (r2.0, r1.1 ++ r2.1) else (rest.0, r1.1 ++ (r2.1 ++ rest.1)))
          (submitted_bytes o l))
      (sym (taken_by-split net r1.0 t.event (data_taken turns)))
      (turn-Flows net o s r1.0 r2.0 r1.1 r2.1 (taken_by t.event []) r2.2 rest.0 rest.1
        (data_taken turns) (service-Flows net o t.takes t.out s)
        (handle_event-Flows net o r1.0 t.event lt)
        (run-Flows net o turns r2.0 (omega (arith, lt, handle_event-next_id net r1.0 t.event))))
