-- ===== src/Wireguard/Run.antt =====
-- The three tasks of WgTunnel::run of aether/src/wireguard.rs and the tasks that they spawn, as steps: a
-- step is what a task does up to its next await. A step of a task that does not stand there does nothing.
use aether_gui.Common.{
  ℕ, zero, suc, Bool, true, ◌&&◌, not, Option, none, some, List, [], ◌∷◌, ◌++◌, ltb, if◌then◌else◌,
}
use aether_gui.Common.Outcome.{}
use aether_gui.Noize.{NoizeConfig, is_enabled}
use aether_gui.Wireguard.{inject_client_id}
use aether_gui.Wireguard.Session.{
  TunnResult, done, tunn_err, write_to_network, write_to_tunnel, Sent, obfuscation,
  post_handshake_junk, keepalive_junk, message, program_message, Session, put, decapsulate,
}

-- Where the receive task stands.
pub data RecvTask : Type 0 where
  listening : RecvTask
  replying : List ℕ → RecvTask
  delivering : List ℕ → RecvTask
  recv_over : RecvTask

-- Where the send task stands: with a message it asks for `obf_sent`, waits for the obfuscation, or
-- sends.
pub data SendTask : Type 0 where
  waiting : SendTask
  encapsulated : List ℕ → SendTask
  obfuscating : List ℕ → SendTask
  ready : List ℕ → SendTask
  send_over : SendTask

-- A spawned task: the junk behind a message, or the junk before a message of the timer, or that message.
pub data Spawned : Type 0 where
  post_junk : Spawned
  keepalive : List ℕ → Spawned
  follow : List ℕ → Spawned

pub record WgTunnel : Type 0 where
  pub session : Session
  pub obf_sent : Bool
  pub receiving : RecvTask
  pub sending : SendTask
  pub ticking : Option (List ℕ)
  pub spawned : List Spawned
  pub inbound : List (List ℕ)

pub data WgStep : Type 0 where
  arrived : List ℕ → TunnResult → WgStep
  recv_error : WgStep
  reply : Bool → WgStep
  deliver : Bool → WgStep
  outbound : Option (List ℕ) → TunnResult → WgStep
  claim : WgStep
  obfuscated : WgStep
  send : Bool → WgStep
  tick : TunnResult → WgStep
  tick_send : Bool → WgStep
  spawned_turn : ℕ → Bool → WgStep

-- `WgTunnel::new`, and, with a session of the check, `from_established`.
unfoldable pub begin_tunnel : Bool → WgTunnel
begin_tunnel established = record {
  session = record { wire = []; decapsulated = [] };
  obf_sent = established;
  receiving = listening;
  sending = waiting;
  ticking = none;
  spawned = [];
  inbound = [];
}

abbrev pub put_if : Bool → Sent → Session → Session
put_if taken sent s = if taken then put sent s else s

abbrev pub without : ℕ → List Spawned → List Spawned
without n [] = []
without zero (t ∷ tasks) = tasks
without (suc n) (t ∷ tasks) = t ∷ without n tasks

abbrev pub nth_spawned : ℕ → List Spawned → Option Spawned
nth_spawned n [] = none
nth_spawned zero (t ∷ tasks) = some t
nth_spawned (suc n) (t ∷ tasks) = nth_spawned n tasks

module _ (cfg : NoizeConfig) (client_id : List ℕ) where
  abbrev pub on_arrived : RecvTask → List ℕ → TunnResult → WgTunnel → WgTunnel
  on_arrived listening bytes done w = record w { session = decapsulate bytes w.session }
  on_arrived listening bytes tunn_err w = record w { session = decapsulate bytes w.session }
  on_arrived listening bytes (write_to_network pkt) w = record w {
    session = decapsulate bytes w.session;
    receiving = replying (inject_client_id pkt client_id);
  }
  on_arrived listening bytes (write_to_tunnel pkt) w = record w {
    session = decapsulate bytes w.session;
    receiving = delivering pkt;
  }
  on_arrived (replying pkt') bytes result w = w
  on_arrived (delivering pkt') bytes result w = w
  on_arrived recv_over bytes result w = w

  -- An error of the socket ends the receive task.
  abbrev pub on_recv_error : RecvTask → WgTunnel → WgTunnel
  on_recv_error listening w = record w { receiving = recv_over }
  on_recv_error (replying pkt) w = w
  on_recv_error (delivering pkt) w = w
  on_recv_error recv_over w = w

  abbrev pub on_reply : RecvTask → Bool → WgTunnel → WgTunnel
  on_reply listening taken w = w
  on_reply (replying pkt) taken w = record w {
    session = put_if taken (message pkt) w.session;
    receiving = listening;
  }
  on_reply (delivering pkt) taken w = w
  on_reply recv_over taken w = w

  abbrev pub on_deliver : RecvTask → Bool → WgTunnel → WgTunnel
  on_deliver listening open_ w = w
  on_deliver (replying pkt) open_ w = w
  on_deliver (delivering pkt) open_ w = record w {
    inbound = if open_ then w.inbound ++ (pkt ∷ []) else w.inbound;
    receiving = listening;
  }
  on_deliver recv_over open_ w = w

  abbrev pub on_encapsulated : TunnResult → WgTunnel → WgTunnel
  on_encapsulated done w = w
  on_encapsulated tunn_err w = w
  on_encapsulated (write_to_network pkt) w = record w {
    sending = encapsulated (inject_client_id pkt client_id);
  }
  on_encapsulated (write_to_tunnel pkt) w = w

  -- A packet of the program with the result of `encapsulate`, or the end of its packets.
  abbrev pub on_outbound : SendTask → Option (List ℕ) → TunnResult → WgTunnel → WgTunnel
  on_outbound waiting none result w = record w { sending = send_over }
  on_outbound waiting (some pkt) result w = on_encapsulated result w
  on_outbound (encapsulated pkt') packet result w = w
  on_outbound (obfuscating pkt') packet result w = w
  on_outbound (ready pkt') packet result w = w
  on_outbound send_over packet result w = w

  -- The lock on `obf_sent`.
  abbrev pub on_claim : SendTask → WgTunnel → WgTunnel
  on_claim waiting w = w
  on_claim (encapsulated pkt) w =
      if not w.obf_sent && is_enabled cfg
      then record w { obf_sent = true; sending = obfuscating pkt }
      else record w { sending = ready pkt }
  on_claim (obfuscating pkt) w = w
  on_claim (ready pkt) w = w
  on_claim send_over w = w

  abbrev pub on_obfuscated : SendTask → WgTunnel → WgTunnel
  on_obfuscated waiting w = w
  on_obfuscated (encapsulated pkt) w = w
  on_obfuscated (obfuscating pkt) w = record w {
    session = put obfuscation w.session;
    sending = ready pkt;
  }
  on_obfuscated (ready pkt) w = w
  on_obfuscated send_over w = w

  abbrev pub on_send : SendTask → Bool → WgTunnel → WgTunnel
  on_send waiting taken w = w
  on_send (encapsulated pkt) taken w = w
  on_send (obfuscating pkt) taken w = w
  on_send (ready pkt) taken w = record w {
    session = put_if taken (program_message pkt) w.session;
    spawned = if ltb 0 cfg.jc_after_hs then w.spawned ++ (post_junk ∷ []) else w.spawned;
    sending = waiting;
  }
  on_send send_over taken w = w

  abbrev pub on_timer_message : List ℕ → WgTunnel → WgTunnel
  on_timer_message pkt w =
      if is_enabled cfg
      then record w { spawned = w.spawned ++ (keepalive pkt ∷ []) }
      else record w { ticking = some pkt }

  abbrev pub on_tick : Option (List ℕ) → TunnResult → WgTunnel → WgTunnel
  on_tick none done w = w
  on_tick none tunn_err w = w
  on_tick none (write_to_network pkt) w = on_timer_message (inject_client_id pkt client_id) w
  on_tick none (write_to_tunnel pkt) w = w
  on_tick (some pkt') result w = w

  abbrev pub on_tick_send : Option (List ℕ) → Bool → WgTunnel → WgTunnel
  on_tick_send none taken w = w
  on_tick_send (some pkt) taken w = record w {
    session = put_if taken (message pkt) w.session;
    ticking = none;
  }

  abbrev pub on_spawned : ℕ → Option Spawned → Bool → WgTunnel → WgTunnel
  on_spawned n none taken w = w
  on_spawned n (some post_junk) taken w = record w {
    session = put post_handshake_junk w.session;
    spawned = without n w.spawned;
  }
  on_spawned n (some (keepalive pkt)) taken w = record w {
    session = put keepalive_junk w.session;
    spawned = without n w.spawned ++ (follow pkt ∷ []);
  }
  on_spawned n (some (follow pkt)) taken w = record w {
    session = put_if taken (message pkt) w.session;
    spawned = without n w.spawned;
  }

  unfoldable pub wg_step : WgStep → WgTunnel → WgTunnel
  wg_step (arrived bytes result) w = on_arrived w.receiving bytes result w
  wg_step recv_error w = on_recv_error w.receiving w
  wg_step (reply taken) w = on_reply w.receiving taken w
  wg_step (deliver open_) w = on_deliver w.receiving open_ w
  wg_step (outbound packet result) w = on_outbound w.sending packet result w
  wg_step claim w = on_claim w.sending w
  wg_step obfuscated w = on_obfuscated w.sending w
  wg_step (send taken) w = on_send w.sending taken w
  wg_step (tick result) w = on_tick w.ticking result w
  wg_step (tick_send taken) w = on_tick_send w.ticking taken w
  wg_step (spawned_turn n taken) w = on_spawned n (nth_spawned n w.spawned) taken w

  -- The steps in the order in which they happen.
  unfoldable pub wg_run : List WgStep → WgTunnel → WgTunnel
  wg_run [] w = w
  wg_run (step ∷ steps) w = wg_run steps (wg_step step w)
