-- ===== src/Netstack.antt =====
-- The user-space network stack of aether/src/netstack.rs: its table of connections over the sockets of
-- the crate smoltcp, which are a parameter.
pub mod Service
pub mod Served
pub mod Streams
pub mod Delivery
pub mod Runs
pub mod Addresses
mod Tests
use aether_gui.Common.{
  ℕ, zero, suc, ◌+◌, ◌-◌, ◌*◌, ◌/◌, ◌%◌, ◌^◌, ◌≤◌, ◌<◌, ◌≡◌, refl, sym, ap, ◌∙◌, subst, ◌≢◌, ◌↔◌,
  ◌⊎◌, inl, inr, Bool, true, false, ◌&&◌, ◌||◌, not, Option, none, some, List, [], ◌∷◌, ◌++◌, map,
  append-nil, append_assoc, arith, bit_and, min, max, length, get_elem?, take, drop, replicate, All,
  length-append, length-take, length-drop, take-append-drop, drop-nil, drop-add, drop-length_append,
  take-length_append, take-length, drop-length, take-append_le, drop-append_le, get_elem?-add,
  get_elem?-lt, get_elem?-drop, get_elem?-drop_zero, drop-step, get_elem?-All, All-append, ltb, leb,
  ◌==◌, if◌then◌else◌, ltb→lt, lt→ltb, le→ltb, ltb→le, leb→le, le→leb, lt→leb, ==_iff, ==_refl,
  Bool-cases, Option-cases,
}
use aether_gui.Common.Outcome.{
  Outcome, ok, err, panic, stuck, Absent, absent, ◌>>=◌, ◌>>◌, guard, of_index, or_err, index,
  checked_add, Ensures, Ensures-bind, Ensures-weaken, Ensures-if, get_elem?-some, index-Ensures,
  index-Ensures-All, guard-Ensures,
}
use aether_gui.Common.Bytes.{IsByte, IsBytes, u16_be, be16, be32}
use aether_gui.Common.Assoc.{lookup, insert, remove, keys}
use aether_gui.Common.Text.{is_empty}
use aether_gui.Error.{AetherError}
use aether_gui.Netstack.Addresses.{Iface, Cidr, parse_v4, parse_v6, apply_addrs}
use aether_gui.Net.{IpAddr, SocketAddr}

-- `tcp::State` of smoltcp.
pub data TcpSocketState : Type 0 where
  closed listen syn_sent syn_received established fin_wait1 fin_wait2 close_wait closing last_ack
        time_wait :
      TcpSocketState

-- What the stack calls of smoltcp. A handle is a number; `connect` and `bind` stand for the call and,
-- where it succeeds, `SocketSet::add`.
pub record Smoltcp : Type 1 where
  pub Sockets : Type 0
  pub connect : SocketAddr → ℕ → Sockets → Option (ℕ × Sockets)
  pub bind : ℕ → Sockets → Option (ℕ × Sockets)
  pub state : ℕ → Sockets → TcpSocketState
  pub can_send : ℕ → Sockets → Bool
  pub send_slice : ℕ → List ℕ → Sockets → ℕ × Sockets
  pub close : ℕ → Sockets → Sockets
  pub can_recv : ℕ → Sockets → Bool
  pub recv : ℕ → Sockets → Option (List ℕ) × Sockets
  pub recv_from : ℕ → Sockets → Option (SocketAddr × List ℕ) × Sockets
  pub send_to : ℕ → SocketAddr → List ℕ → Sockets → Sockets
  pub remove_socket : ℕ → Sockets → Sockets
  pub poll : List (List ℕ) → Sockets → Option (List (List ℕ) × List (List ℕ)) × Sockets

abbrev pub max_recv_chunks : ℕ
max_recv_chunks = 128

abbrev pub max_ingest_per_tick : ℕ
max_ingest_per_tick = 512

pub data Cmd : Type 0 where
  open_tcp : SocketAddr → Cmd
  open_udp : Cmd
  set_addrs : Cidr → Cidr → Cmd

pub data DataIn : Type 0 where
  tcp : ℕ → List ℕ → DataIn
  tcp_close : ℕ → DataIn
  udp : ℕ → SocketAddr → List ℕ → DataIn
  udp_close : ℕ → DataIn

-- `connect_resp` and `from_stack_rx` by whether they are there. A channel is known by its id.
pub record TcpState : Type 0 where
  pub handle : ℕ
  pub from_stack_rx : Bool
  pub connect_resp : Bool
  pub pending : List ℕ
  pub established : Bool
  pub half_closed : Bool

-- What the stack does to the outside: it answers a command, passes bytes on to an application, hands
-- bytes of an application to a socket, or sends a packet out.
pub data Effect : Type 0 where
  opened_tcp : ℕ → Effect
  refused_tcp : ℕ → Effect
  failed : Effect
  opened_udp : ℕ → Effect
  transmitted : ℕ → List ℕ → Effect
  delivered : ℕ → List ℕ → Effect
  delivered_udp : ℕ → SocketAddr → List ℕ → Effect
  outbound : List ℕ → Effect

-- `alloc_port`: the port, and the next one.
unfoldable pub alloc_port : ℕ → ℕ × ℕ
alloc_port port = (port, if leb 65_000 port then 49_152 else port + 1)

abbrev pub is_established : TcpSocketState → Bool
is_established TcpSocketState.established = true
is_established _ = false

abbrev pub is_dead : TcpSocketState → Bool
is_dead closed = true
is_dead time_wait = true
is_dead _ = false

abbrev pub is_close_wait : TcpSocketState → Bool
is_close_wait close_wait = true
is_close_wait _ = false

abbrev pub is_closed : TcpSocketState → Bool
is_closed closed = true
is_closed _ = false

pub record NetStack (net : Smoltcp) : Type 0 where
  pub rx : List (List ℕ)
  pub tx : List (List ℕ)
  pub sockets : net.Sockets
  pub tcp_conns : List (ℕ × TcpState)
  pub udp_conns : List (ℕ × ℕ)
  pub next_id : ℕ
  pub next_port : ℕ
  pub iface : Iface

abbrev pub new_conn : ℕ → TcpState
new_conn handle = record {
  handle = handle;
  from_stack_rx = true;
  connect_resp = true;
  pending = [];
  established = false;
  half_closed = false;
}

module _ (net : Smoltcp) where
  open net use {
    Sockets, connect, bind, state, can_send, send_slice, close, can_recv, recv, recv_from, send_to,
    remove_socket, poll,
  }

  abbrev pub add_tcp : NetStack net → Option (ℕ × Sockets) → NetStack net × List Effect
  add_tcp s none = (s, failed ∷ [])
  add_tcp s (some (handle, sockets)) = (
    record s {
      sockets = sockets;
      next_id = s.next_id + 1;
      tcp_conns = insert s.next_id (new_conn handle) s.tcp_conns;
    },
    [],
  )

  abbrev pub add_udp : NetStack net → Option (ℕ × Sockets) → NetStack net × List Effect
  add_udp s none = (s, failed ∷ [])
  add_udp s (some (handle, sockets)) = (
    record s {
      sockets = sockets;
      next_id = s.next_id + 1;
      udp_conns = insert s.next_id handle s.udp_conns;
    },
    opened_udp s.next_id ∷ [],
  )

  unfoldable pub handle_cmd : NetStack net → Cmd → NetStack net × List Effect
  unfolding alloc_port
  handle_cmd s (open_tcp dst) =
      let (local_port, next_port) = alloc_port s.next_port in
      add_tcp (record s { next_port = next_port }) (connect dst local_port s.sockets)
  handle_cmd s open_udp =
      let (local_port, next_port) = alloc_port s.next_port in
      add_udp (record s { next_port = next_port }) (bind local_port s.sockets)
  handle_cmd s (set_addrs v4 v6) = (record s { iface = apply_addrs s.iface v4 v6 }, [])

  abbrev pub update_tcp : NetStack net → ℕ → (TcpState → TcpState) → Option TcpState → NetStack net
  update_tcp s id f none = s
  update_tcp s id f (some st) = record s { tcp_conns = insert id (f st) s.tcp_conns }

  abbrev pub send_udp : NetStack net → SocketAddr → List ℕ → Option ℕ → NetStack net
  send_udp s dst bytes none = s
  send_udp s dst bytes (some handle) = record s { sockets = send_to handle dst bytes s.sockets }

  abbrev pub close_udp : NetStack net → ℕ → Option ℕ → NetStack net
  close_udp s id none = s
  close_udp s id (some handle) = record s {
    sockets = remove_socket handle s.sockets;
    udp_conns = remove id s.udp_conns;
  }

  unfoldable pub handle_data : NetStack net → DataIn → NetStack net
  handle_data s (tcp id bytes) =
      update_tcp s id (λ st. record st { pending = st.pending ++ bytes }) (lookup id s.tcp_conns)
  handle_data s (tcp_close id) =
      update_tcp s id (λ st. record st { half_closed = true }) (lookup id s.tcp_conns)
  handle_data s (udp id dst bytes) = send_udp s dst bytes (lookup id s.udp_conns)
  handle_data s (udp_close id) = close_udp s id (lookup id s.udp_conns)

  abbrev pub fresh_stack : Sockets → Cidr → Cidr → NetStack net
  fresh_stack sockets v4 v6 = record {
    rx = [];
    tx = [];
    sockets = sockets;
    tcp_conns = [];
    udp_conns = [];
    next_id = 1;
    next_port = 49_152;
    iface = apply_addrs (record { addrs = []; ipv4_route = none; ipv6_route = none }) v4 v6;
  }

  -- `spawn`: the stack that the task starts with, given the readers of addresses of std::net.
  pub spawn :
      (List ℕ → Option (List ℕ))
      → (List ℕ → Option (List ℕ))
      → Sockets
      → List ℕ
      → List ℕ
      → Outcome AetherError (NetStack net)
  spawn read_v4 read_v6 sockets ipv4 ipv6 = do
    v4 ← parse_v4 read_v4 ipv4
    v6 ← parse_v6 read_v6 ipv6
    ok (fresh_stack sockets v4 v6)
