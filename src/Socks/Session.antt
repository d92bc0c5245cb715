-- ===== src/Socks/Session.antt =====
-- The dialogue of a client with the SOCKS5 server of aether/src/socks.rs, up to the point where the
-- relay of a connection or an association begins.
use aether_gui.Common.{
  ℕ, zero, suc, Bool, Option, none, some, List, [], ◌∷◌, ◌++◌, length, take, drop, ltb, ◌==◌,
  if◌then◌else◌,
}
use aether_gui.Common.Outcome.{Outcome, ok, err, panic, stuck, Absent, guard, index}
use aether_gui.Common.Bytes.{u16_be}
use aether_gui.Error.{AetherError}
use aether_gui.Net.{IpAddr, v4, SocketAddr}
use aether_gui.Dns.{parse_dns_a}
use aether_gui.Dns.Query.{build_dns_query}
use aether_gui.Socks.{
  ver, cmd_connect, cmd_udp_associate, atyp_v4, atyp_v6, atyp_domain, rep_ok, rep_general,
  rep_not_supported, Target, ip, domain, push_addr,
}
use aether_gui.Socks.Utf8.{from_utf8_lossy}
use aether_gui.Net.{v6}

-- The client's socket: what it still sends before the end of its stream, how many more writes it
-- takes before one fails, and what is written to it.
pub record Conn : Type 0 where
  pub input : List ℕ
  pub writes : ℕ
  pub written : List ℕ

abbrev pub Io : Type 0 → Type 0
Io A = Conn → Outcome AetherError A × Conn

abbrev pub and_then :
    {A B : Type 0} → Outcome AetherError A × Conn → (A → Io B) → Outcome AetherError B × Conn
and_then (ok a, c) f = f a c
and_then (err e, c) f = (err e, c)
and_then (panic, c) f = (panic, c)
and_then (stuck, c) f = (stuck, c)

infixl 5 ◌>>=◌ ◌>>◌
abbrev pub ◌>>=◌ : {A B : Type 0} → Io A → (A → Io B) → Io B
◌>>=◌ m f c = and_then (m c) f

abbrev pub ◌>>◌ : {B : Type 0} → Io (Unit {0}) → Io B → Io B
m >> k = m >>= λ _. k

abbrev pub return : {A : Type 0} → A → Io A
return a c = (ok a, c)

abbrev pub fail : {A : Type 0} → AetherError → Io A
fail e c = (err e, c)

-- A step that does not touch the socket.
abbrev pub lift : {A : Type 0} → Outcome AetherError A → Io A
lift m c = (m, c)

-- `let _ = m`
abbrev pub ignore : Io (Unit {0}) → Io (Unit {0})
ignore m c = (ok tt, (m c).1)

-- `read_exact` fails with UnexpectedEof, when all is read.
unfoldable pub read_exact : ℕ → Io (List ℕ)
read_exact n c =
    if ltb (length c.input) n
    then (err AetherError.io, record c { input = [] })
    else (ok (take n c.input), record c { input = drop n c.input })

-- A write that fails is taken to put nothing on the wire.
abbrev pub write_with : ℕ → List ℕ → Io (Unit {0})
write_with zero bytes c = (err AetherError.io, c)
write_with (suc n) bytes c = (ok tt, record c { writes = n; written = c.written ++ bytes })

unfoldable pub write_all : List ℕ → Io (Unit {0})
write_all bytes c = write_with c.writes bytes c

-- `b[i]` of an array whose length is known.
abbrev pub at : List ℕ → ℕ → Io ℕ
at bytes i = lift (index bytes i)

abbrev pub check : Bool → Io (Unit {0})
check test = lift (guard test AetherError.other)

unfoldable pub handshake : Io (Unit {0})
handshake = do
  prefix ← read_exact 2
  v ← at prefix 0
  check (v == ver)
  nmethods ← at prefix 1
  methods ← read_exact nmethods
  write_all (ver ∷ 0x00 ∷ [])

unfoldable pub read_ip : ℕ → Io Target
read_ip atyp =
    if atyp == atyp_v4
    then (do b ← read_exact 4; return (ip (v4 b)))
    else if atyp == atyp_v6
    then (do b ← read_exact 16; return (ip (v6 b)))
    else if atyp == atyp_domain
    then (do
      len ← read_exact 1
      n ← at len 0
      name ← read_exact n
      return (domain (from_utf8_lossy name)))
    else fail AetherError.other

unfoldable pub read_target : ℕ → Io (Target × ℕ)
read_target atyp = do
  target ← read_ip atyp
  port ← read_exact 2
  hi ← at port 0
  lo ← at port 1
  return (target, u16_be hi lo)

unfoldable pub reply : ℕ → Io (Unit {0})
reply code = write_all (ver ∷ code ∷ 0x00 ∷ atyp_v4 ∷ 0 ∷ 0 ∷ 0 ∷ 0 ∷ 0 ∷ 0 ∷ [])

unfoldable pub reply_bound : SocketAddr → Io (Unit {0})
reply_bound bound = write_all (ver ∷ rep_ok ∷ 0x00 ∷ push_addr bound)

-- What `from_stack.recv()` under its timeout gives.
pub data Answer : Type 0 where
  timeout : Answer
  closed : Answer
  datagram : List ℕ → Answer

-- What the server asks of the rest of the program and of the host: the reader of addresses of
-- `std::net`, the handle of the network stack, the answer of the resolver to a query of `dns_resolve`,
-- and the binding of the relay's socket.
pub record World : Type 0 where
  pub parse_ip : List ℕ → Option IpAddr
  pub open_udp : Outcome AetherError (Unit {0})
  pub open_tcp : SocketAddr → Outcome AetherError (Unit {0})
  pub send_query : List ℕ → Outcome AetherError Answer
  pub query_id : ℕ
  pub bind_relay : Outcome AetherError SocketAddr

abbrev pub answered : Answer → Outcome AetherError (List ℕ)
answered timeout = err AetherError.other
answered closed = err AetherError.other
answered (datagram bytes) = ok bytes

-- `.ok_or_else(..)` on an Option of the model.
abbrev pub or_other {ℓ} : {A : Type ℓ} → Outcome Absent A → Outcome AetherError A
or_other (ok a) = ok a
or_other (err e) = err AetherError.other
or_other panic = panic
or_other stuck = stuck

abbrev pub first_address : Outcome AetherError (List ℕ) → Outcome AetherError IpAddr
first_address (ok bytes) = or_other (parse_dns_a bytes)
first_address (err e) = err e
first_address panic = panic
first_address stuck = stuck

unfoldable pub resolve_answer : Outcome AetherError Answer → Outcome AetherError IpAddr
resolve_answer (ok a) = first_address (answered a)
resolve_answer (err e) = err e
resolve_answer panic = panic
resolve_answer stuck = stuck

abbrev pub query : World → List ℕ → Outcome AetherError (Unit {0}) → Outcome AetherError Answer
query w name (ok _) = w.send_query (build_dns_query w.query_id name 1)
query w name (err e) = err e
query w name panic = panic
query w name stuck = stuck

unfoldable pub dns_resolve : World → List ℕ → Outcome AetherError IpAddr
dns_resolve w name = resolve_answer (query w name w.open_udp)

abbrev pub literal_or : Option IpAddr → Outcome AetherError IpAddr → Outcome AetherError IpAddr
literal_or none other = other
literal_or (some a) other = ok a

unfoldable pub resolve : World → Target → Outcome AetherError IpAddr
resolve w (ip a) = ok a
resolve w (domain name) = literal_or (w.parse_ip name) (dns_resolve w name)

abbrev pub unspecified : SocketAddr
unspecified = record { ip = v4 (0 ∷ 0 ∷ 0 ∷ 0 ∷ []); port = 0 }

-- What the server goes on with: the relay of a connection, or that of an association.
pub data Served : Type 0 where
  connected : SocketAddr → Served
  associated : SocketAddr → Served

-- `Err(e) => { let _ = reply(REP_GENERAL); return Err(e) }`
unfoldable pub or_refuse : {A : Type 0} → Outcome AetherError A → Io A
or_refuse (ok a) = return a
or_refuse (err e) = ignore (reply rep_general) >> fail e
or_refuse panic = lift panic
or_refuse stuck = lift stuck

unfoldable pub handle_connect : World → Target → ℕ → Io Served
handle_connect w target port = do
  a ← or_refuse (resolve w target)
  let dst : SocketAddr = record { ip = a; port = port }
  or_refuse (w.open_tcp dst)
  reply_bound unspecified
  return (connected dst)

unfoldable pub handle_udp_associate : World → Io Served
handle_udp_associate w = do
  relay_addr ← lift w.bind_relay
  reply_bound relay_addr
  lift w.open_udp
  return (associated relay_addr)

unfoldable pub dispatch : World → ℕ → Target × ℕ → Io Served
dispatch w cmd (target, port) =
    if cmd == cmd_connect
    then handle_connect w target port
    else if cmd == cmd_udp_associate
    then handle_udp_associate w
    else (reply rep_not_supported >> fail AetherError.other)

unfoldable pub handle_client : World → Io Served
handle_client w = do
  handshake
  head ← read_exact 4
  v ← at head 0
  check (v == ver)
  cmd ← at head 1
  atyp ← at head 3
  found ← read_target atyp
  dispatch w cmd found
