-- ===== src/Netstack/Service.antt =====
-- The service of the connections in aether/src/netstack.rs, and one turn of its loop. Whether an
-- application still takes a chunk from its channel is an argument.
use aether_gui.Common.{
  ℕ, zero, suc, Bool, true, false, ◌&&◌, not, Option, none, some, List, [], ◌∷◌, ◌++◌, map, take,
  drop, ltb, if◌then◌else◌,
}
use aether_gui.Common.Outcome.{}
use aether_gui.Common.Text.{is_empty}
use aether_gui.Common.Assoc.{lookup, insert, remove, keys}
use aether_gui.Net.{SocketAddr}
use aether_gui.Netstack.{
  TcpSocketState, Smoltcp, max_recv_chunks, max_ingest_per_tick, Cmd, DataIn, TcpState, Effect,
  opened_tcp, refused_tcp, transmitted, delivered, delivered_udp, outbound, is_empty,
  is_established, is_dead, is_close_wait, is_closed, NetStack, handle_cmd, handle_data,
}

-- The entry of the connection under service, the sockets, and what the stack did so far.
pub record Serving (net : Smoltcp) : Type 0 where
  pub st : TcpState
  pub sockets : net.Sockets
  pub effects : List Effect

-- What `tokio::select!` delivers, with what stands behind it in its channel.
pub data StackEvent : Type 0 where
  inbound : List ℕ → List (List ℕ) → StackEvent
  inbound_closed : StackEvent
  command : Cmd → StackEvent
  commands_closed : StackEvent
  app_data : List DataIn → StackEvent
  slept : StackEvent

-- A turn of the loop: which chunks each application and the tunnel take, and the event.
pub record Turn : Type 0 where
  pub takes : ℕ → List ℕ → Bool
  pub out : List ℕ → Bool
  pub event : StackEvent

abbrev pub drain : List ℕ → ℕ → List ℕ
drain pending sent = if ltb 0 sent then drop sent pending else pending

-- The chunks that the application takes, and whether it is gone before the last.
unfoldable pub deliver : (List ℕ → Bool) → List (List ℕ) → List (List ℕ) × Bool
deliver takes [] = ([], false)
deliver takes (chunk ∷ chunks) =
    let rest = deliver takes chunks in if takes chunk then (chunk ∷ rest.0, rest.1) else ([], true)

-- The packets that the application takes, up to the first that it does not.
unfoldable pub deliver_udp : ℕ → (List ℕ → Bool) → List (SocketAddr × List ℕ) → List Effect
deliver_udp id takes [] = []
deliver_udp id takes ((src, bytes) ∷ packets) =
    let rest = deliver_udp id takes packets in
    if takes bytes then delivered_udp id src bytes ∷ rest else []

-- The packets that the tunnel takes; the packet that it does not take is gone, the rest stays.
unfoldable pub flush : (List ℕ → Bool) → List (List ℕ) → List (List ℕ) × List Effect
flush takes [] = ([], [])
flush takes (pkt ∷ tx) =
    let rest = flush takes tx in if takes pkt then (rest.0, outbound pkt ∷ rest.1) else (tx, [])

module _ (net : Smoltcp) where
  open net use {
    Sockets, state, can_send, send_slice, close, can_recv, recv, recv_from, remove_socket, poll,
  }

  -- `st.established = true`, with both `take()`s and the answer to the application.
  abbrev pub established_now : ℕ → Serving net → Serving net
  established_now id v = record v {
    st = record v.st { established = true; connect_resp = false; from_stack_rx = false };
    effects =
        v.effects ++ (if v.st.connect_resp && v.st.from_stack_rx then opened_tcp id ∷ [] else []);
  }

  unfoldable pub establish : ℕ → TcpSocketState → Serving net → Serving net
  establish id now v =
      if not v.st.established && is_established now then established_now id v else v

  abbrev pub sent_to : ℕ → Serving net → ℕ × Sockets → Serving net
  sent_to id v (sent, sockets) = record v {
    st = record v.st { pending = drain v.st.pending sent };
    sockets = sockets;
    effects = v.effects ++ (transmitted id (take sent v.st.pending) ∷ []);
  }

  unfoldable pub send_pending : ℕ → Serving net → Serving net
  send_pending id v =
      if can_send v.st.handle v.sockets && not (is_empty v.st.pending)
      then sent_to id v (send_slice v.st.handle v.st.pending v.sockets)
      else v

  unfoldable pub finish_half : Serving net → Serving net
  finish_half v =
      if v.st.half_closed && is_empty v.st.pending
      then record v { sockets = close v.st.handle v.sockets }
      else v

  abbrev pub received :
      (Sockets → List (List ℕ) × Sockets) → Option (List ℕ) × Sockets → List (List ℕ) × Sockets
  received next (none, after) = ([], after)
  received next (some [], after) = ([], after)
  received next (some (b ∷ bytes), after) = ((b ∷ bytes) ∷ (next after).0, (next after).1)

  -- The loop over `recv`, with at most as many chunks as the first argument says.
  unfoldable pub receive : ℕ → ℕ → Sockets → List (List ℕ) × Sockets
  receive zero handle sockets = ([], sockets)
  receive (suc n) handle sockets = elim (can_recv handle sockets) [
    | true ↦ received (receive n handle) (recv handle sockets)
    | false ↦ ([], sockets)
  ]

  unfoldable pub pass_on : ℕ → (List ℕ → Bool) → Serving net → Serving net
  unfolding deliver
  pass_on id takes v =
      let (chunks, sockets) = receive max_recv_chunks v.st.handle v.sockets in
      let (passed, app_gone) = deliver takes chunks in
      record v {
        sockets = if app_gone then close v.st.handle sockets else sockets;
        effects = v.effects ++ map (delivered id) passed;
      }

  -- The last lines: close on CloseWait, and whether the entry is removed.
  unfoldable pub finish_service : Serving net → Serving net × Bool
  finish_service v =
      let last = state v.st.handle v.sockets in
      let v' = record v {
        sockets = if is_close_wait last then close v.st.handle v.sockets else v.sockets;
      } in
      if is_closed last && v.st.established
      then (record v' { sockets = remove_socket v.st.handle v'.sockets }, true)
      else (v', false)

  unfoldable pub serve_live : ℕ → (List ℕ → Bool) → Serving net → Serving net × Bool
  serve_live id takes v = finish_service (pass_on id takes (finish_half (send_pending id v)))

  unfoldable pub refuse : ℕ → Serving net → Serving net × Bool
  refuse id v = (
    record v {
      st = record v.st { connect_resp = false };
      sockets = remove_socket v.st.handle v.sockets;
      effects = v.effects ++ (if v.st.connect_resp then refused_tcp id ∷ [] else []);
    },
    true,
  )

  -- One round of the loop for an entry: what is left of it, and whether it is removed.
  unfoldable pub serve : ℕ → (List ℕ → Bool) → Serving net → Serving net × Bool
  serve id takes v =
      let now = state v.st.handle v.sockets in
      let v' = establish id now v in
      if not v'.st.established && is_dead now then refuse id v' else serve_live id takes v'

  abbrev pub write_back : NetStack net → ℕ → Serving net × Bool → NetStack net × List Effect
  write_back s id (v, gone) = (
    record s {
      sockets = v.sockets;
      tcp_conns = if gone then remove id s.tcp_conns else insert id v.st s.tcp_conns;
    },
    v.effects,
  )

  abbrev pub serve_entry :
      NetStack net → ℕ → (List ℕ → Bool) → Option TcpState → NetStack net × List Effect
  serve_entry s id takes none = (s, [])
  serve_entry s id takes (some st) =
      write_back s id (serve id takes (record { st = st; sockets = s.sockets; effects = [] }))

  unfoldable pub serve_ids :
      List ℕ → (ℕ → List ℕ → Bool) → NetStack net → NetStack net × List Effect
  serve_ids [] takes s = (s, [])
  serve_ids (id ∷ ids) takes s =
      let (s', effects) = serve_entry s id (takes id) (lookup id s.tcp_conns) in
      let (last, more) = serve_ids ids takes s' in (last, effects ++ more)

  unfoldable pub service_tcp : (ℕ → List ℕ → Bool) → NetStack net → NetStack net × List Effect
  service_tcp takes s = serve_ids (keys s.tcp_conns) takes s

  abbrev pub packet_received :
      (Sockets → List (SocketAddr × List ℕ) × Sockets)
      → Option (SocketAddr × List ℕ) × Sockets
      → List (SocketAddr × List ℕ) × Sockets
  packet_received next (none, after) = ([], after)
  packet_received next (some packet, after) = (packet ∷ (next after).0, (next after).1)

  unfoldable pub receive_udp : ℕ → ℕ → Sockets → List (SocketAddr × List ℕ) × Sockets
  receive_udp zero handle sockets = ([], sockets)
  receive_udp (suc n) handle sockets = elim (can_recv handle sockets) [
    | true ↦ packet_received (receive_udp n handle) (recv_from handle sockets)
    | false ↦ ([], sockets)
  ]

  abbrev pub serve_udp : NetStack net → ℕ → (List ℕ → Bool) → Option ℕ → NetStack net × List Effect
  serve_udp s id takes none = (s, [])
  serve_udp s id takes (some handle) =
      let (packets, sockets) = receive_udp max_recv_chunks handle s.sockets in
      (record s { sockets = sockets }, deliver_udp id takes packets)

  unfoldable pub serve_udp_ids :
      List ℕ → (ℕ → List ℕ → Bool) → NetStack net → NetStack net × List Effect
  serve_udp_ids [] takes s = (s, [])
  serve_udp_ids (id ∷ ids) takes s =
      let (s', effects) = serve_udp s id (takes id) (lookup id s.udp_conns) in
      let (last, more) = serve_udp_ids ids takes s' in (last, effects ++ more)

  unfoldable pub service_udp : (ℕ → List ℕ → Bool) → NetStack net → NetStack net × List Effect
  service_udp takes s = serve_udp_ids (keys s.udp_conns) takes s

  unfoldable pub flush_tx : (List ℕ → Bool) → NetStack net → NetStack net × List Effect
  unfolding flush
  flush_tx takes s = let (tx, effects) = flush takes s.tx in (record s { tx = tx }, effects)

  -- `iface.poll`, with both queues cleared where it panics.
  abbrev pub polled : NetStack net → Option (List (List ℕ) × List (List ℕ)) × Sockets → NetStack net
  polled s (none, sockets) = record s { sockets = sockets; rx = []; tx = [] }
  polled s (some (rx, out), sockets) = record s { sockets = sockets; rx = rx; tx = s.tx ++ out }

  unfoldable pub handle_all : NetStack net → List DataIn → NetStack net
  handle_all s [] = s
  handle_all s (d ∷ ds) = handle_all (handle_data net s d) ds

  -- The state after an event, what it did, and whether the loop returns.
  unfoldable pub handle_event : NetStack net → StackEvent → NetStack net × List Effect × Bool
  handle_event s (inbound pkt more) =
      (record s { rx = s.rx ++ (pkt ∷ take max_ingest_per_tick more) }, [], false)
  handle_event s inbound_closed = (s, [], true)
  handle_event s (command c) = let (s', effects) = handle_cmd net s c in (s', effects, false)
  handle_event s commands_closed = (s, [], true)
  handle_event s (app_data ds) = (handle_all s ds, [], false)
  handle_event s slept = (s, [], false)

  -- The lines of the loop before it waits.
  unfoldable pub service :
      (ℕ → List ℕ → Bool) → (List ℕ → Bool) → NetStack net → NetStack net × List Effect
  service takes out s =
      let (s1, effects1) = service_tcp takes (polled s (poll s.rx s.sockets)) in
      let (s2, effects2) = service_udp takes s1 in
      let (s3, effects3) = flush_tx out s2 in (s3, effects1 ++ (effects2 ++ effects3))

  unfoldable pub run : List Turn → NetStack net → NetStack net × List Effect
  run [] s = (s, [])
  run (t ∷ turns) s =
      let (s1, effects1) = service t.takes t.out s in
      let (s2, effects2, ended) = handle_event s1 t.event in
      let rest = run turns s2 in
      if ended then (s2, effects1 ++ effects2) else (rest.0, effects1 ++ (effects2 ++ rest.1))
