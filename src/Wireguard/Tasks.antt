-- ===== src/Wireguard/Tasks.antt =====
-- The client id on the wire while the tasks of WgTunnel::run of aether/src/wireguard.rs run.
use aether_gui.Common.{
  ℕ, zero, suc, Bool, ◌&&◌, not, Option, none, some, List, [], ◌∷◌, All, All-append, ltb, if_both,
}
use aether_gui.Common.Outcome.{}
use aether_gui.Noize.{NoizeConfig, is_enabled}
use aether_gui.Wireguard.{inject_client_id}
use aether_gui.Wireguard.ClientId.{IsTagged}
use aether_gui.Wireguard.Tagging.{
  IsTaggedSent, IsAddressed, put-IsAddressed, inject_client_id-IsTagged, decapsulate-IsAddressed,
}
use aether_gui.Wireguard.Session.{
  TunnResult, done, tunn_err, write_to_network, write_to_tunnel, Sent, obfuscation,
  post_handshake_junk, keepalive_junk, message, program_message, Session, decapsulate,
}
use aether_gui.Wireguard.Run.{
  RecvTask, listening, replying, delivering, recv_over, SendTask, waiting, encapsulated,
  obfuscating, ready, send_over, Spawned, post_junk, keepalive, follow, WgTunnel, WgStep, arrived,
  recv_error, reply, deliver, outbound, claim, obfuscated, send, tick, tick_send, spawned_turn,
  begin_tunnel, put_if, without, nth_spawned, on_arrived, on_recv_error, on_reply, on_deliver,
  on_outbound, on_claim, on_obfuscated, on_send, on_tick, on_tick_send, on_spawned, wg_step, wg_run,
}

module _ (x y z : ℕ) where
  abbrev pub IsTaggedRecv : RecvTask → Type 0
  IsTaggedRecv listening = Unit
  IsTaggedRecv (replying pkt) = IsTagged x y z pkt
  IsTaggedRecv (delivering pkt) = Unit
  IsTaggedRecv recv_over = Unit

  abbrev pub IsTaggedSend : SendTask → Type 0
  IsTaggedSend waiting = Unit
  IsTaggedSend (encapsulated pkt) = IsTagged x y z pkt
  IsTaggedSend (obfuscating pkt) = IsTagged x y z pkt
  IsTaggedSend (ready pkt) = IsTagged x y z pkt
  IsTaggedSend send_over = Unit

  abbrev pub IsTaggedTick : Option (List ℕ) → Type 0
  IsTaggedTick none = Unit
  IsTaggedTick (some pkt) = IsTagged x y z pkt

  abbrev pub IsTaggedSpawned : Spawned → Type 0
  IsTaggedSpawned post_junk = Unit
  IsTaggedSpawned (keepalive pkt) = IsTagged x y z pkt
  IsTaggedSpawned (follow pkt) = IsTagged x y z pkt

  abbrev IsTaggedNth : Option Spawned → Type 0
  IsTaggedNth none = Unit
  IsTaggedNth (some t) = IsTaggedSpawned t

  -- The messages on the wire and those that the tasks hold carry the client id; the tunnel gets none.
  abbrev pub IsTaggedTunnel : WgTunnel → Type 0
  IsTaggedTunnel w =
      IsAddressed x y z w.session
      × IsTaggedRecv w.receiving
      × IsTaggedSend w.sending
      × IsTaggedTick w.ticking
      × All IsTaggedSpawned w.spawned

  put_if-IsAddressed :
      (taken : Bool) (sent : Sent) (s : Session)
      → IsTaggedSent x y z sent
      → IsAddressed x y z s
      → IsAddressed x y z (put_if taken sent s)
  put_if-IsAddressed taken sent s h k =
      if_both (IsAddressed x y z) taken _ _ (put-IsAddressed x y z sent s h k) k

  All-without :
      (n : ℕ) (tasks : List Spawned)
      → All IsTaggedSpawned tasks
      → All IsTaggedSpawned (without n tasks)
  All-without n [] h = tt
  All-without zero (t ∷ tasks) (h, hs) = hs
  All-without (suc n) (t ∷ tasks) (h, hs) = (h, All-without n tasks hs)

  All-nth :
      (n : ℕ) (tasks : List Spawned) → All IsTaggedSpawned tasks → IsTaggedNth (nth_spawned n tasks)
  All-nth n [] h = tt
  All-nth zero (t ∷ tasks) (h, hs) = h
  All-nth (suc n) (t ∷ tasks) (h, hs) = All-nth n tasks hs

  module _ (cfg : NoizeConfig) where
    on_arrived-IsTaggedTunnel :
        (task : RecvTask) (bytes : List ℕ) (result : TunnResult) (w : WgTunnel)
        → IsTaggedTunnel w
        → IsTaggedTunnel (on_arrived cfg (x ∷ y ∷ z ∷ []) task bytes result w)
    on_arrived-IsTaggedTunnel task bytes result w h = at task result
      where
        got : IsAddressed x y z (decapsulate bytes w.session)
        got = decapsulate-IsAddressed x y z bytes w.session h.0

        at :
            (task' : RecvTask) (result' : TunnResult)
            → IsTaggedTunnel (on_arrived cfg (x ∷ y ∷ z ∷ []) task' bytes result' w)
        at listening done = (got, h.1, h.2, h.3, h.4)
        at listening tunn_err = (got, h.1, h.2, h.3, h.4)
        at listening (write_to_network pkt) =
            (got, inject_client_id-IsTagged x y z pkt, h.2, h.3, h.4)
        at listening (write_to_tunnel pkt) = (got, tt, h.2, h.3, h.4)
        at (replying pkt') result' = h
        at (delivering pkt') result' = h
        at recv_over result' = h

    on_recv_error-IsTaggedTunnel :
        (task : RecvTask) (w : WgTunnel)
        → IsTaggedTunnel w
        → IsTaggedTunnel (on_recv_error cfg (x ∷ y ∷ z ∷ []) task w)
    on_recv_error-IsTaggedTunnel listening w h = (h.0, tt, h.2, h.3, h.4)
    on_recv_error-IsTaggedTunnel (replying pkt) w h = h
    on_recv_error-IsTaggedTunnel (delivering pkt) w h = h
    on_recv_error-IsTaggedTunnel recv_over w h = h

    on_reply-IsTaggedTunnel :
        (task : RecvTask) (taken : Bool) (w : WgTunnel)
        → IsTaggedRecv task
        → IsTaggedTunnel w
        → IsTaggedTunnel (on_reply cfg (x ∷ y ∷ z ∷ []) task taken w)
    on_reply-IsTaggedTunnel listening taken w k h = h
    on_reply-IsTaggedTunnel (replying pkt) taken w k h =
        (put_if-IsAddressed taken (message pkt) w.session k h.0, tt, h.2, h.3, h.4)
    on_reply-IsTaggedTunnel (delivering pkt) taken w k h = h
    on_reply-IsTaggedTunnel recv_over taken w k h = h

    on_deliver-IsTaggedTunnel :
        (task : RecvTask) (open_ : Bool) (w : WgTunnel)
        → IsTaggedTunnel w
        → IsTaggedTunnel (on_deliver cfg (x ∷ y ∷ z ∷ []) task open_ w)
    on_deliver-IsTaggedTunnel listening open_ w h = h
    on_deliver-IsTaggedTunnel (replying pkt) open_ w h = h
    on_deliver-IsTaggedTunnel (delivering pkt) open_ w h = (h.0, tt, h.2, h.3, h.4)
    on_deliver-IsTaggedTunnel recv_over open_ w h = h

    on_outbound-IsTaggedTunnel :
        (task : SendTask) (packet : Option (List ℕ)) (result : TunnResult) (w : WgTunnel)
        → IsTaggedTunnel w
        → IsTaggedTunnel (on_outbound cfg (x ∷ y ∷ z ∷ []) task packet result w)
    on_outbound-IsTaggedTunnel waiting none result w h = (h.0, h.1, tt, h.3, h.4)
    on_outbound-IsTaggedTunnel waiting (some pkt) done w h = h
    on_outbound-IsTaggedTunnel waiting (some pkt) tunn_err w h = h
    on_outbound-IsTaggedTunnel waiting (some pkt) (write_to_network pkt') w h =
        (h.0, h.1, inject_client_id-IsTagged x y z pkt', h.3, h.4)
    on_outbound-IsTaggedTunnel waiting (some pkt) (write_to_tunnel pkt') w h = h
    on_outbound-IsTaggedTunnel (encapsulated pkt') packet result w h = h
    on_outbound-IsTaggedTunnel (obfuscating pkt') packet result w h = h
    on_outbound-IsTaggedTunnel (ready pkt') packet result w h = h
    on_outbound-IsTaggedTunnel send_over packet result w h = h

    on_claim-IsTaggedTunnel :
        (task : SendTask) (w : WgTunnel)
        → IsTaggedSend task
        → IsTaggedTunnel w
        → IsTaggedTunnel (on_claim cfg (x ∷ y ∷ z ∷ []) task w)
    on_claim-IsTaggedTunnel waiting w k h = h
    on_claim-IsTaggedTunnel (encapsulated pkt) w k h =
        if_both IsTaggedTunnel (not w.obf_sent && is_enabled cfg) _ _ (h.0, h.1, k, h.3, h.4)
          (h.0, h.1, k, h.3, h.4)
    on_claim-IsTaggedTunnel (obfuscating pkt) w k h = h
    on_claim-IsTaggedTunnel (ready pkt) w k h = h
    on_claim-IsTaggedTunnel send_over w k h = h

    on_obfuscated-IsTaggedTunnel :
        (task : SendTask) (w : WgTunnel)
        → IsTaggedSend task
        → IsTaggedTunnel w
        → IsTaggedTunnel (on_obfuscated cfg (x ∷ y ∷ z ∷ []) task w)
    on_obfuscated-IsTaggedTunnel waiting w k h = h
    on_obfuscated-IsTaggedTunnel (encapsulated pkt) w k h = h
    on_obfuscated-IsTaggedTunnel (obfuscating pkt) w k h =
        (put-IsAddressed x y z obfuscation w.session tt h.0, h.1, k, h.3, h.4)
    on_obfuscated-IsTaggedTunnel (ready pkt) w k h = h
    on_obfuscated-IsTaggedTunnel send_over w k h = h

    on_send-IsTaggedTunnel :
        (task : SendTask) (taken : Bool) (w : WgTunnel)
        → IsTaggedSend task
        → IsTaggedTunnel w
        → IsTaggedTunnel (on_send cfg (x ∷ y ∷ z ∷ []) task taken w)
    on_send-IsTaggedTunnel waiting taken w k h = h
    on_send-IsTaggedTunnel (encapsulated pkt) taken w k h = h
    on_send-IsTaggedTunnel (obfuscating pkt) taken w k h = h
    on_send-IsTaggedTunnel (ready pkt) taken w k h = (
      put_if-IsAddressed taken (program_message pkt) w.session k h.0,
      h.1,
      tt,
      h.3,
      if_both (All IsTaggedSpawned) (ltb 0 cfg.jc_after_hs) _ _
          (All-append IsTaggedSpawned w.spawned (post_junk ∷ []) h.4 (tt, tt)) h.4,
    )
    on_send-IsTaggedTunnel send_over taken w k h = h

    on_tick-IsTaggedTunnel :
        (held : Option (List ℕ)) (result : TunnResult) (w : WgTunnel)
        → IsTaggedTunnel w
        → IsTaggedTunnel (on_tick cfg (x ∷ y ∷ z ∷ []) held result w)
    on_tick-IsTaggedTunnel none done w h = h
    on_tick-IsTaggedTunnel none tunn_err w h = h
    on_tick-IsTaggedTunnel none (write_to_network pkt) w h =
        let tagged = inject_client_id-IsTagged x y z pkt in
        if_both IsTaggedTunnel (is_enabled cfg) _ _
          (
            h.0,
            h.1,
            h.2,
            h.3,
            All-append IsTaggedSpawned w.spawned
                (keepalive (inject_client_id pkt (x ∷ y ∷ z ∷ [])) ∷ []) h.4 (tagged, tt),
          )
          (h.0, h.1, h.2, tagged, h.4)
    on_tick-IsTaggedTunnel none (write_to_tunnel pkt) w h = h
    on_tick-IsTaggedTunnel (some pkt') result w h = h

    on_tick_send-IsTaggedTunnel :
        (held : Option (List ℕ)) (taken : Bool) (w : WgTunnel)
        → IsTaggedTick held
        → IsTaggedTunnel w
        → IsTaggedTunnel (on_tick_send cfg (x ∷ y ∷ z ∷ []) held taken w)
    on_tick_send-IsTaggedTunnel none taken w k h = h
    on_tick_send-IsTaggedTunnel (some pkt) taken w k h =
        (put_if-IsAddressed taken (message pkt) w.session k h.0, h.1, h.2, tt, h.4)

    on_spawned-IsTaggedTunnel :
        (n : ℕ) (t : Option Spawned) (taken : Bool) (w : WgTunnel)
        → IsTaggedNth t
        → IsTaggedTunnel w
        → IsTaggedTunnel (on_spawned cfg (x ∷ y ∷ z ∷ []) n t taken w)
    on_spawned-IsTaggedTunnel n none taken w k h = h
    on_spawned-IsTaggedTunnel n (some post_junk) taken w k h = (
      put-IsAddressed x y z post_handshake_junk w.session tt h.0,
      h.1,
      h.2,
      h.3,
      All-without n w.spawned h.4,
    )
    on_spawned-IsTaggedTunnel n (some (keepalive pkt)) taken w k h = (
      put-IsAddressed x y z keepalive_junk w.session tt h.0,
      h.1,
      h.2,
      h.3,
      All-append IsTaggedSpawned (without n w.spawned) (follow pkt ∷ [])
          (All-without n w.spawned h.4) (k, tt),
    )
    on_spawned-IsTaggedTunnel n (some (follow pkt)) taken w k h = (
      put_if-IsAddressed taken (message pkt) w.session k h.0,
      h.1,
      h.2,
      h.3,
      All-without n w.spawned h.4,
    )

    wg_step-IsTaggedTunnel :
        (step : WgStep) (w : WgTunnel)
        → IsTaggedTunnel w
        → IsTaggedTunnel (wg_step cfg (x ∷ y ∷ z ∷ []) step w)
    unfolding wg_step
    wg_step-IsTaggedTunnel (arrived bytes result) w h =
        on_arrived-IsTaggedTunnel w.receiving bytes result w h
    wg_step-IsTaggedTunnel recv_error w h = on_recv_error-IsTaggedTunnel w.receiving w h
    wg_step-IsTaggedTunnel (reply taken) w h = on_reply-IsTaggedTunnel w.receiving taken w h.1 h
    wg_step-IsTaggedTunnel (deliver open_) w h = on_deliver-IsTaggedTunnel w.receiving open_ w h
    wg_step-IsTaggedTunnel (outbound packet result) w h =
        on_outbound-IsTaggedTunnel w.sending packet result w h
    wg_step-IsTaggedTunnel claim w h = on_claim-IsTaggedTunnel w.sending w h.2 h
    wg_step-IsTaggedTunnel obfuscated w h = on_obfuscated-IsTaggedTunnel w.sending w h.2 h
    wg_step-IsTaggedTunnel (send taken) w h = on_send-IsTaggedTunnel w.sending taken w h.2 h
    wg_step-IsTaggedTunnel (tick result) w h = on_tick-IsTaggedTunnel w.ticking result w h
    wg_step-IsTaggedTunnel (tick_send taken) w h =
        on_tick_send-IsTaggedTunnel w.ticking taken w h.3 h
    wg_step-IsTaggedTunnel (spawned_turn n taken) w h =
        on_spawned-IsTaggedTunnel n (nth_spawned n w.spawned) taken w (All-nth n w.spawned h.4) h

    wg_run-keeps_tags :
        (steps : List WgStep) (w : WgTunnel)
        → IsTaggedTunnel w
        → IsTaggedTunnel (wg_run cfg (x ∷ y ∷ z ∷ []) steps w)
    unfolding wg_run
    wg_run-keeps_tags [] w h = h
    wg_run-keeps_tags (step ∷ steps) w h =
        wg_run-keeps_tags steps (wg_step cfg (x ∷ y ∷ z ∷ []) step w)
          (wg_step-IsTaggedTunnel step w h)

    -- In whatever order the tasks of the tunnel run, and whatever the tunnel, the endpoint and the
    -- sockets do, each message on the wire and each that a task holds carries the client id in its
    -- reserved bytes, and each that comes in reaches the tunnel with zeros there.
    pub wg_run-IsTaggedTunnel :
        (established : Bool) (steps : List WgStep)
        → IsTaggedTunnel (wg_run cfg (x ∷ y ∷ z ∷ []) steps (begin_tunnel established))
    unfolding begin_tunnel
    wg_run-IsTaggedTunnel established steps =
        wg_run-keeps_tags steps (begin_tunnel established)
          (record { tagged = tt; plain = tt }, tt, tt, tt, tt)
