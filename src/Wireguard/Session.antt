-- ===== src/Wireguard/Session.antt =====
-- What aether/src/wireguard.rs does with its socket and with the tunnel of the crate boringtun, whose
-- results are arguments.
use aether_gui.Common.{ℕ, Bool, List, [], ◌∷◌, ◌++◌, if◌then◌else◌}
use aether_gui.Common.Outcome.{}
use aether_gui.Wireguard.{inject_client_id, strip_client_id}

-- `TunnResult`, one constructor for the packets of both versions.
pub data TunnResult : Type 0 where
  done : TunnResult
  tunn_err : TunnResult
  write_to_network : List ℕ → TunnResult
  write_to_tunnel : List ℕ → TunnResult

-- What goes out on the socket: the datagrams of `apply_obfuscation`, of the two kinds of junk, or a
-- message of the tunnel; those of the send task have a name of their own.
pub data Sent : Type 0 where
  obfuscation : Sent
  post_handshake_junk : Sent
  keepalive_junk : Sent
  message : List ℕ → Sent
  program_message : List ℕ → Sent

-- What the socket took, and the datagrams that `decapsulate` was called on.
pub record Session : Type 0 where
  pub wire : List Sent
  pub decapsulated : List (List ℕ)

-- The result of a call of `encapsulate`, and whether the socket takes what it writes.
pub record Encapsulated : Type 0 where
  pub result : TunnResult
  pub taken : Bool

abbrev pub put : Sent → Session → Session
put sent s = record s { wire = s.wire ++ (sent ∷ []) }

-- `inject_client_id` on a copy of the packet, and `sock.send`.
abbrev pub send_message : List ℕ → List ℕ → Bool → Session → Session
send_message client_id pkt taken s =
    if taken then put (message (inject_client_id pkt client_id)) s else s

-- `strip_client_id` on what was received, and `decapsulate` of it.
abbrev pub decapsulate : List ℕ → Session → Session
decapsulate bytes s = record s { decapsulated = s.decapsulated ++ (strip_client_id bytes ∷ []) }
