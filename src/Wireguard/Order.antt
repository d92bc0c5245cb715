-- ===== src/Wireguard/Order.antt =====
-- The obfuscation before the first message of the send task of WgTunnel::run of aether/src/wireguard.rs.
use aether_gui.Common.{
  ℕ, ◌+◌, ◌≤◌, ◌≡◌, refl, subst, Bool, true, false, ◌&&◌, not, Option, none, some, List, [], ◌∷◌,
  ◌++◌, arith, if◌then◌else◌, if_both, if_known,
}
use aether_gui.Noize.{NoizeConfig, is_enabled}
use aether_gui.Wireguard.Session.{
  TunnResult, done, tunn_err, write_to_network, write_to_tunnel, obfuscation, post_handshake_junk,
  keepalive_junk, message, program_message, Session,
}
use aether_gui.Wireguard.Run.{
  RecvTask, listening, replying, delivering, recv_over, SendTask, waiting, encapsulated,
  obfuscating, ready, send_over, Spawned, post_junk, keepalive, follow, WgTunnel, WgStep, arrived,
  recv_error, reply, deliver, outbound, claim, obfuscated, send, tick, tick_send, spawned_turn,
  begin_tunnel, nth_spawned, on_arrived, on_recv_error, on_reply, on_deliver, on_outbound, on_claim,
  on_obfuscated, on_send, on_tick, on_tick_send, on_spawned, wg_step, wg_run,
}
use aether_gui.Wireguard.Covered.{
  obfuscations, Covered, obfuscations-append, Covered-append_behind, Covered-append, one_of,
  in_progress, IsObfuscated, Required-weaken, Ordered, IsOrdered, put-Ordered, put_if-IsOrdered,
}

module _ (cfg : NoizeConfig) (established : Bool) where
  module _ (client_id : List ℕ) where
    on_receiving-IsOrdered :
        (w : WgTunnel) (task : RecvTask)
        → IsOrdered cfg established w
        → ((bytes : List ℕ) (result : TunnResult)
            → IsOrdered cfg established (on_arrived cfg client_id task bytes result w))
          × IsOrdered cfg established (on_recv_error cfg client_id task w)
          × ((taken : Bool) → IsOrdered cfg established (on_reply cfg client_id task taken w))
          × ((open_ : Bool) → IsOrdered cfg established (on_deliver cfg client_id task open_ w))
    on_receiving-IsOrdered w listening h = (on, h, λ taken. h, λ open_. h)
      where
        on :
            (bytes : List ℕ) (result : TunnResult)
            → IsOrdered cfg established (on_arrived cfg client_id listening bytes result w)
        on bytes done = h
        on bytes tunn_err = h
        on bytes (write_to_network pkt) = h
        on bytes (write_to_tunnel pkt) = h
    on_receiving-IsOrdered w (replying pkt) h = (
      λ bytes result. h,
      h,
      λ taken. put_if-IsOrdered cfg established taken (message pkt) w tt h,
      λ open_. h,
    )
    on_receiving-IsOrdered w (delivering pkt) h = (λ bytes result. h, h, λ taken. h, λ open_. h)
    on_receiving-IsOrdered w recv_over h = (λ bytes result. h, h, λ taken. h, λ open_. h)

    on_outbound-IsOrdered :
        (task : SendTask) (packet : Option (List ℕ)) (result : TunnResult) (w : WgTunnel)
        → w.sending ≡ task
        → IsOrdered cfg established w
        → IsOrdered cfg established (on_outbound cfg client_id task packet result w)
    on_outbound-IsOrdered waiting packet result w e h = on packet result
      where
        still : Ordered cfg established w.session.wire waiting w.obf_sent
        still = subst (λ t. Ordered cfg established w.session.wire t w.obf_sent) e h

        on :
            (packet' : Option (List ℕ)) (result' : TunnResult)
            → IsOrdered cfg established (on_outbound cfg client_id waiting packet' result' w)
        on none result' = still
        on (some pkt) done = h
        on (some pkt) tunn_err = h
        on (some pkt) (write_to_network pkt') = still
        on (some pkt) (write_to_tunnel pkt') = h
    on_outbound-IsOrdered (encapsulated pkt) packet result w e h = h
    on_outbound-IsOrdered (obfuscating pkt) packet result w e h = h
    on_outbound-IsOrdered (ready pkt) packet result w e h = h
    on_outbound-IsOrdered send_over packet result w e h = h

    on_claim-IsOrdered :
        (task : SendTask) (w : WgTunnel)
        → w.sending ≡ task
        → IsOrdered cfg established w
        → IsOrdered cfg established (on_claim cfg client_id task w)
    on_claim-IsOrdered waiting w e h = h
    on_claim-IsOrdered (encapsulated pkt) w e h =
        if_known (IsOrdered cfg established) (not w.obf_sent && is_enabled cfg) _ _
          (λ fires. (claimed w.obf_sent (is_enabled cfg) fires still.0, still.1, tt))
          (λ kept.
            (still.0, still.1, was_claimed w.obf_sent (is_enabled cfg) established kept still.0))
      where
        still : Ordered cfg established w.session.wire (encapsulated pkt) w.obf_sent
        still = subst (λ t. Ordered cfg established w.session.wire t w.obf_sent) e h

        claimed :
            (flag enabled : Bool)
            → not flag && enabled ≡ true
            → obfuscations w.session.wire + 0 + one_of established ≡ one_of flag
            → obfuscations w.session.wire + 1 + one_of established ≡ 1
        claimed true enabled fires count = cc
        claimed false enabled fires count = omega arith

        was_claimed :
            (flag enabled before : Bool)
            → not flag && enabled ≡ false
            → obfuscations w.session.wire + 0 + one_of before ≡ one_of flag
            → if enabled && not before then 1 ≤ obfuscations w.session.wire else Unit
        was_claimed flag false before kept count = tt
        was_claimed flag true true kept count = tt
        was_claimed true true false kept count = omega arith
        was_claimed false true false kept count = cc
    on_claim-IsOrdered (obfuscating pkt) w e h = h
    on_claim-IsOrdered (ready pkt) w e h = h
    on_claim-IsOrdered send_over w e h = h

    on_obfuscated-IsOrdered :
        (task : SendTask) (w : WgTunnel)
        → w.sending ≡ task
        → IsOrdered cfg established w
        → IsOrdered cfg established (on_obfuscated cfg client_id task w)
    on_obfuscated-IsOrdered waiting w e h = h
    on_obfuscated-IsOrdered (encapsulated pkt) w e h = h
    on_obfuscated-IsOrdered (obfuscating pkt) w e h = (
      omega (arith, still.0, more),
      Required-weaken cfg established (Covered w.session.wire)
          (Covered (w.session.wire ++ (obfuscation ∷ [])))
          (λ c. Covered-append w.session.wire (obfuscation ∷ []) c tt) still.1,
      Required-weaken cfg established (Covered w.session.wire)
          (1 ≤ obfuscations (w.session.wire ++ (obfuscation ∷ []))) (λ c. omega (arith, more))
          still.1,
    )
      where
        still : Ordered cfg established w.session.wire (obfuscating pkt) w.obf_sent
        still = subst (λ t. Ordered cfg established w.session.wire t w.obf_sent) e h

        more : obfuscations (w.session.wire ++ (obfuscation ∷ [])) ≡ obfuscations w.session.wire + 1
        more = obfuscations-append w.session.wire (obfuscation ∷ [])
    on_obfuscated-IsOrdered (ready pkt) w e h = h
    on_obfuscated-IsOrdered send_over w e h = h

    on_send-IsOrdered :
        (task : SendTask) (taken : Bool) (w : WgTunnel)
        → w.sending ≡ task
        → IsOrdered cfg established w
        → IsOrdered cfg established (on_send cfg client_id task taken w)
    on_send-IsOrdered waiting taken w e h = h
    on_send-IsOrdered (encapsulated pkt) taken w e h = h
    on_send-IsOrdered (obfuscating pkt) taken w e h = h
    on_send-IsOrdered (ready pkt) taken w e h =
        if_both (λ (s : Session). Ordered cfg established s.wire waiting w.obf_sent) taken _ _
          (
            omega (arith, still.0, same),
            behind (is_enabled cfg && not established) still.1 still.2,
            tt,
          )
          (still.0, still.1, tt)
      where
        still : Ordered cfg established w.session.wire (ready pkt) w.obf_sent
        still = subst (λ t. Ordered cfg established w.session.wire t w.obf_sent) e h

        same :
            obfuscations (w.session.wire ++ (program_message pkt ∷ []))
            ≡ obfuscations w.session.wire + 0
        same = obfuscations-append w.session.wire (program_message pkt ∷ [])

        behind :
            (b : Bool)
            → (if b then Covered w.session.wire else Unit)
            → (if b then 1 ≤ obfuscations w.session.wire else Unit)
            → if b then Covered (w.session.wire ++ (program_message pkt ∷ [])) else Unit
        behind true c k = Covered-append_behind w.session.wire (program_message pkt ∷ []) k c
        behind false c k = tt
    on_send-IsOrdered send_over taken w e h = h

    on_tick-IsOrdered :
        (held : Option (List ℕ)) (result : TunnResult) (w : WgTunnel)
        → IsOrdered cfg established w
        → IsOrdered cfg established (on_tick cfg client_id held result w)
    on_tick-IsOrdered none done w h = h
    on_tick-IsOrdered none tunn_err w h = h
    on_tick-IsOrdered none (write_to_network pkt) w h =
        if_both (IsOrdered cfg established) (is_enabled cfg) _ _ h h
    on_tick-IsOrdered none (write_to_tunnel pkt) w h = h
    on_tick-IsOrdered (some pkt) result w h = h

    on_tick_send-IsOrdered :
        (held : Option (List ℕ)) (taken : Bool) (w : WgTunnel)
        → IsOrdered cfg established w
        → IsOrdered cfg established (on_tick_send cfg client_id held taken w)
    on_tick_send-IsOrdered none taken w h = h
    on_tick_send-IsOrdered (some pkt) taken w h =
        put_if-IsOrdered cfg established taken (message pkt) w tt h

    on_spawned-IsOrdered :
        (n : ℕ) (t : Option Spawned) (taken : Bool) (w : WgTunnel)
        → IsOrdered cfg established w
        → IsOrdered cfg established (on_spawned cfg client_id n t taken w)
    on_spawned-IsOrdered n none taken w h = h
    on_spawned-IsOrdered n (some post_junk) taken w h =
        put-Ordered cfg established post_handshake_junk w.session.wire w.sending w.obf_sent tt h
    on_spawned-IsOrdered n (some (keepalive pkt)) taken w h =
        put-Ordered cfg established keepalive_junk w.session.wire w.sending w.obf_sent tt h
    on_spawned-IsOrdered n (some (follow pkt)) taken w h =
        put_if-IsOrdered cfg established taken (message pkt) w tt h

    wg_step-IsOrdered :
        (step : WgStep) (w : WgTunnel)
        → IsOrdered cfg established w
        → IsOrdered cfg established (wg_step cfg client_id step w)
    unfolding wg_step
    wg_step-IsOrdered (arrived bytes result) w h =
        (on_receiving-IsOrdered w w.receiving h).0 bytes result
    wg_step-IsOrdered recv_error w h = (on_receiving-IsOrdered w w.receiving h).1
    wg_step-IsOrdered (reply taken) w h = (on_receiving-IsOrdered w w.receiving h).2 taken
    wg_step-IsOrdered (deliver open_) w h = (on_receiving-IsOrdered w w.receiving h).3 open_
    wg_step-IsOrdered (outbound packet result) w h =
        on_outbound-IsOrdered w.sending packet result w refl h
    wg_step-IsOrdered claim w h = on_claim-IsOrdered w.sending w refl h
    wg_step-IsOrdered obfuscated w h = on_obfuscated-IsOrdered w.sending w refl h
    wg_step-IsOrdered (send taken) w h = on_send-IsOrdered w.sending taken w refl h
    wg_step-IsOrdered (tick result) w h = on_tick-IsOrdered w.ticking result w h
    wg_step-IsOrdered (tick_send taken) w h = on_tick_send-IsOrdered w.ticking taken w h
    wg_step-IsOrdered (spawned_turn n taken) w h =
        on_spawned-IsOrdered n (nth_spawned n w.spawned) taken w h

    wg_run-keeps_order :
        (steps : List WgStep) (w : WgTunnel)
        → IsOrdered cfg established w
        → IsOrdered cfg established (wg_run cfg client_id steps w)
    unfolding wg_run
    wg_run-keeps_order [] w h = h
    wg_run-keeps_order (step ∷ steps) w h =
        wg_run-keeps_order steps (wg_step cfg client_id step w) (wg_step-IsOrdered step w h)

    -- In whatever order the tasks of the tunnel run, the obfuscation is on the wire once at most, and
    -- never on a session that the check established; when it is on and the session is new, no message
    -- of the send task goes out before it.
    pub wg_run-IsObfuscated :
        (steps : List WgStep)
        → IsObfuscated cfg established
            (wg_run cfg client_id steps (begin_tunnel established)).session.wire
    unfolding begin_tunnel
    wg_run-IsObfuscated steps = (
      at_most established w.obf_sent (obfuscations w.session.wire) (in_progress w.sending)
          ordered.0,
      ordered.1,
    )
      where
        w : WgTunnel
        w = wg_run cfg client_id steps (begin_tunnel established)

        nothing_yet : (before : Bool) → 0 + 0 + one_of before ≡ one_of before
        nothing_yet true = refl
        nothing_yet false = refl

        ordered : IsOrdered cfg established w
        ordered = wg_run-keeps_order steps (begin_tunnel established) (
          nothing_yet established,
          if_both (λ A. A) (is_enabled cfg && not established) _ _ tt tt,
          tt,
        )

        at_most :
            (before flag : Bool) (count doing : ℕ)
            → count + doing + one_of before ≡ one_of flag
            → count ≤ (if before then 0 else 1)
        at_most true true count doing e = omega arith
        at_most true false count doing e = omega arith
        at_most false true count doing e = omega arith
        at_most false false count doing e = omega arith
