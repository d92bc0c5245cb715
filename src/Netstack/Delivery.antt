-- ===== src/Netstack/Delivery.antt =====
-- The bytes of a connection over whole runs of the loop of aether/src/netstack.rs.
use aether_gui.Common.{
  ℕ, ◌<◌, ◌≡◌, refl, sym, ap, ◌∙◌, subst, inl, inr, Bool, true, false, Option, none, some, List, [],
  ◌∷◌, ◌++◌, append-nil, arith, ◌==◌, if◌then◌else◌, if_both, ==_iff, Bool-cases,
}
use aether_gui.Common.Outcome.{}
use mathlib.Core.Option.{some-injective}
use aether_gui.Net.{SocketAddr}
use aether_gui.Common.Assoc.{lookup, lookup-insert}
use aether_gui.Netstack.{
  Smoltcp, alloc_port, Cmd, open_tcp, open_udp, set_addrs, DataIn, tcp, tcp_close, udp, udp_close,
  TcpState, Effect, failed, opened_udp, NetStack, new_conn, add_tcp, add_udp, handle_cmd,
  update_tcp, send_udp, close_udp, handle_data,
}
use aether_gui.Netstack.Service.{
  serve_udp, serve_udp_ids, deliver_udp, flush, flush_tx, polled, handle_all,
}
use aether_gui.Netstack.Served.{transmitted_bytes, transmitted_bytes-append}
use aether_gui.Netstack.Streams.{Flows, Flows-trans, Flows-same, none-ne-some}

-- The bytes handed in for a connection.
abbrev pub put_by : ℕ → DataIn → List ℕ
put_by id (tcp j bytes) = if j == id then bytes else []
put_by id _ = []

unfoldable pub submitted_bytes : ℕ → List DataIn → List ℕ
submitted_bytes id [] = []
submitted_bytes id (d ∷ ds) = put_by id d ++ submitted_bytes id ds

module _ (net : Smoltcp) (o : ℕ) where
  update_tcp-Flows :
      (s : NetStack net) (id : ℕ) (f : TcpState → TcpState) (bytes : List ℕ)
      (entry : Option TcpState)
      → ((st : TcpState) → (f st).pending ≡ st.pending ++ bytes)
      → lookup id s.tcp_conns ≡ entry
      → Flows net o s (update_tcp net s id f entry, []) (if id == o then bytes else [])
  unfolding transmitted_bytes
  update_tcp-Flows s id f bytes entry grows e = elim (Bool-cases (id == o)) [
    | inl same ↦
        rw same
          (mine entry (subst (λ k. lookup k s.tcp_conns ≡ entry) ((==_iff id o).0 same) e) same)
    | inr other ↦
        rw other (Flows-same net o s (update_tcp net s id f entry) [] (unmoved entry other) refl)
  ]
    where
      mine :
          (found : Option TcpState)
          → lookup o s.tcp_conns ≡ found
          → (id == o) ≡ true
          → Flows net o s (update_tcp net s id f found, []) bytes
      mine none at_o same st' at' = absurd (none-ne-some (sym at_o ∙ at'))
      mine (some st) at_o same st' at' = (
        st,
        at_o,
        ap (λ (t : TcpState). t.pending)
              (sym (some-injective _ _ (rw (lookup-insert id o (f st) s.tcp_conns, same) at at')))
            ∙ grows st,
      )

      unmoved :
          (found : Option TcpState)
          → (id == o) ≡ false
          → lookup o (update_tcp net s id f found).tcp_conns ≡ lookup o s.tcp_conns
      unmoved none other = refl
      unmoved (some st) other = rw (lookup-insert id o (f st) s.tcp_conns, other) refl

  no_bytes : (test : Bool) → ◌≡◌ {A = List ℕ} (if test then [] else []) []
  no_bytes true = refl
  no_bytes false = refl

  handle_data-Flows :
      (s : NetStack net) (d : DataIn) → Flows net o s (handle_data net s d, []) (put_by o d)
  unfolding handle_data transmitted_bytes
  handle_data-Flows s (tcp id bytes) =
      update_tcp-Flows s id _ bytes (lookup id s.tcp_conns) (λ st. refl) refl
  handle_data-Flows s (tcp_close id) =
      subst (Flows net o s (handle_data net s (tcp_close id), [])) (no_bytes (id == o)) (
        update_tcp-Flows s id _ [] (lookup id s.tcp_conns) (λ st. sym (append-nil st.pending)) refl)
  handle_data-Flows s (udp id dst bytes) =
      Flows-same net o s (handle_data net s (udp id dst bytes)) []
        (untouched (lookup id s.udp_conns)) refl
    where
      untouched :
          (found : Option ℕ)
          → lookup o (send_udp net s dst bytes found).tcp_conns ≡ lookup o s.tcp_conns
      untouched none = refl
      untouched (some handle) = refl
  handle_data-Flows s (udp_close id) =
      Flows-same net o s (handle_data net s (udp_close id)) [] (untouched (lookup id s.udp_conns))
        refl
    where
      untouched :
          (found : Option ℕ) → lookup o (close_udp net s id found).tcp_conns ≡ lookup o s.tcp_conns
      untouched none = refl
      untouched (some handle) = refl

  pub handle_all-Flows :
      (ds : List DataIn) (s : NetStack net)
      → Flows net o s (handle_all net s ds, []) (submitted_bytes o ds)
  unfolding handle_all submitted_bytes transmitted_bytes
  handle_all-Flows [] s = Flows-same net o s s [] refl refl
  handle_all-Flows (d ∷ ds) s =
      Flows-trans net o s (handle_data net s d) (handle_all net (handle_data net s d) ds) [] []
        (put_by o d) (submitted_bytes o ds) (handle_data-Flows s d)
        (handle_all-Flows ds (handle_data net s d))

  -- A new connection has an id of its own.
  add_tcp-Flows :
      (s : NetStack net) (r : Option (ℕ × net.Sockets))
      → o < s.next_id
      → Flows net o s (add_tcp net s r) []
  unfolding transmitted_bytes
  add_tcp-Flows s none h = Flows-same net o s s (failed ∷ []) refl refl
  add_tcp-Flows s (some (handle, sockets)) h =
      Flows-same net o s (add_tcp net s (some (handle, sockets))).0 []
        (rw (lookup-insert s.next_id o (new_conn handle) s.tcp_conns, fresh s.next_id h) refl) refl
    where
      fresh : (n : ℕ) → o < n → (n == o) ≡ false
      fresh n lt = ground arith

  add_udp-Flows :
      (s : NetStack net) (r : Option (ℕ × net.Sockets)) → Flows net o s (add_udp net s r) []
  unfolding transmitted_bytes
  add_udp-Flows s none = Flows-same net o s s (failed ∷ []) refl refl
  add_udp-Flows s (some (handle, sockets)) =
      Flows-same net o s (add_udp net s (some (handle, sockets))).0 (opened_udp s.next_id ∷ []) refl
        refl

  pub handle_cmd-Flows :
      (s : NetStack net) (c : Cmd) → o < s.next_id → Flows net o s (handle_cmd net s c) []
  unfolding handle_cmd transmitted_bytes
  handle_cmd-Flows s (open_tcp dst) h =
      add_tcp-Flows (record s { next_port = (alloc_port s.next_port).1 })
        (net.connect dst s.next_port s.sockets) h
  handle_cmd-Flows s open_udp h =
      add_udp-Flows (record s { next_port = (alloc_port s.next_port).1 })
        (net.bind s.next_port s.sockets)
  handle_cmd-Flows s (set_addrs v4 v6) h =
      Flows-same net o s (handle_cmd net s (set_addrs v4 v6)).0 [] refl refl

  -- A part of the service that leaves the connections alone and hands nothing over.
  abbrev pub IsAside : NetStack net → NetStack net × List Effect → Type 0
  IsAside s (s', effects) =
      (s'.tcp_conns ≡ s.tcp_conns) × (s'.next_id ≡ s.next_id) × (transmitted_bytes o effects ≡ [])

  deliver_udp_sends_nothing :
      (id : ℕ) (takes : List ℕ → Bool) (packets : List (SocketAddr × List ℕ))
      → transmitted_bytes o (deliver_udp id takes packets) ≡ []
  unfolding deliver_udp transmitted_bytes
  deliver_udp_sends_nothing id takes [] = refl
  deliver_udp_sends_nothing id takes ((src, bytes) ∷ packets) =
      if_both (λ es. transmitted_bytes o es ≡ []) (takes bytes) _ []
        (deliver_udp_sends_nothing id takes packets) refl

  serve_udp-IsAside :
      (s : NetStack net) (id : ℕ) (takes : List ℕ → Bool) (entry : Option ℕ)
      → IsAside s (serve_udp net s id takes entry)
  unfolding transmitted_bytes
  serve_udp-IsAside s id takes none = (refl, refl, refl)
  serve_udp-IsAside s id takes (some handle) = (refl, refl, deliver_udp_sends_nothing id takes _)

  pub IsAside-trans :
      (s s1 s2 : NetStack net) (e1 e2 : List Effect)
      → IsAside s (s1, e1)
      → IsAside s1 (s2, e2)
      → IsAside s (s2, e1 ++ e2)
  IsAside-trans s s1 s2 e1 e2 (c1, n1, t1) (c2, n2, t2) = (
    c2 ∙ c1,
    n2 ∙ n1,
    transmitted_bytes-append o e1 e2 ∙ ap (λ l. l ++ transmitted_bytes o e2) t1 ∙ t2,
  )

  pub serve_udp_ids-IsAside :
      (ids : List ℕ) (takes : ℕ → List ℕ → Bool) (s : NetStack net)
      → IsAside s (serve_udp_ids net ids takes s)
  unfolding serve_udp_ids transmitted_bytes
  serve_udp_ids-IsAside [] takes s = (refl, refl, refl)
  serve_udp_ids-IsAside (id ∷ ids) takes s =
      let r = serve_udp net s id (takes id) (lookup id s.udp_conns) in
      let more = serve_udp_ids net ids takes r.0 in
      IsAside-trans s r.0 more.0 r.1 more.1
        (serve_udp-IsAside s id (takes id) (lookup id s.udp_conns))
        (serve_udp_ids-IsAside ids takes r.0)

  flush_sends_nothing :
      (takes : List ℕ → Bool) (tx : List (List ℕ)) → transmitted_bytes o (flush takes tx).1 ≡ []
  unfolding flush transmitted_bytes
  flush_sends_nothing takes [] = refl
  flush_sends_nothing takes (pkt ∷ tx) =
      if_both (λ (r : List (List ℕ) × List Effect). transmitted_bytes o r.1 ≡ []) (takes pkt) _
        (tx, []) (flush_sends_nothing takes tx) refl

  pub flush_tx-IsAside :
      (takes : List ℕ → Bool) (s : NetStack net) → IsAside s (flush_tx net takes s)
  unfolding flush_tx
  flush_tx-IsAside takes s = (refl, refl, flush_sends_nothing takes s.tx)

  pub polled-IsAside :
      (s : NetStack net) (r : Option (List (List ℕ) × List (List ℕ)) × net.Sockets)
      → IsAside s (polled net s r, [])
  unfolding transmitted_bytes
  polled-IsAside s (none, sockets) = (refl, refl, refl)
  polled-IsAside s (some (rx, out), sockets) = (refl, refl, refl)

  pub IsAside-Flows :
      (s : NetStack net) (r : NetStack net × List Effect) → IsAside s r → Flows net o s r []
  IsAside-Flows s (s', effects) (conns, ids, nothing) =
      Flows-same net o s s' effects (ap (lookup o) conns) nothing
