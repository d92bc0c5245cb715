-- ===== src/Socks/Requests.antt =====
-- The requests of a client, as it encodes them, and what the server of aether/src/socks.rs reads.
use aether_gui.Common.{
  ℕ, suc, ◌/◌, ◌%◌, ◌<◌, ◌≡◌, refl, List, [], ◌∷◌, ◌++◌, append_assoc, arith, length, length-append,
  drop-length_append, take-length_append, le→ltb,
}
use aether_gui.Common.Outcome.{ok}
use aether_gui.Common.Bytes.{u16_be, be16}
use aether_gui.Net.{v4, v6, IsIpAddr}
use aether_gui.Socks.{ver, atyp_v4, atyp_v6, atyp_domain, Target, ip, domain}
use aether_gui.Socks.Utf8.{from_utf8_lossy}
use aether_gui.Socks.Session.{
  Conn, read_exact, write_all, handshake, read_ip, read_target, handle_client, dispatch, World,
}

abbrev pub greeting : List ℕ → List ℕ
greeting methods = ver ∷ length methods ∷ methods

abbrev pub atyp_of : Target → ℕ
atyp_of (ip (v4 o)) = atyp_v4
atyp_of (ip (v6 o)) = atyp_v6
atyp_of (domain name) = atyp_domain

abbrev pub address_of : Target → List ℕ
address_of (ip (v4 o)) = o
address_of (ip (v6 o)) = o
address_of (domain name) = length name ∷ name

abbrev pub IsTarget : Target → Type 0
IsTarget (ip a) = IsIpAddr a
IsTarget (domain name) = length name < 256

-- The target as the server has it: a name is made valid UTF-8.
abbrev pub seen : Target → Target
seen (ip a) = ip a
seen (domain name) = domain (from_utf8_lossy name)

abbrev pub request : ℕ → ℕ → Target → ℕ → List ℕ
request cmd reserved target port =
    ver ∷ cmd ∷ reserved ∷ atyp_of target ∷ (address_of target ++ be16 port)

pub u16_be-be16 : (port : ℕ) → port < 65_536 → u16_be (port / 256 % 256) (port % 256) ≡ port
u16_be-be16 port h = omega arith

module _ (writes : ℕ) (written : List ℕ) where
  abbrev conn : List ℕ → Conn
  conn input = record { input = input; writes = writes; written = written }

  read_exact-front :
      (n : ℕ) (bytes rest : List ℕ)
      → length bytes ≡ n
      → read_exact n (conn (bytes ++ rest)) ≡ (ok bytes, conn rest)
  unfolding read_exact
  read_exact-front n bytes rest e = rw (← e) (
      rw (
        le→ltb (length (bytes ++ rest)) (length bytes)
            (omega (arith, length-append {0} bytes rest)),
        take-length_append bytes rest,
        drop-length_append bytes rest,
      ))

  read_ip-seen :
      (target : Target) (rest : List ℕ)
      → IsTarget target
      → read_ip (atyp_of target) (conn (address_of target ++ rest)) ≡ (ok (seen target), conn rest)
  unfolding read_ip
  read_ip-seen (ip (v4 o)) rest (four, bytes) = rw (read_exact-front 4 o rest four)
  read_ip-seen (ip (v6 o)) rest (sixteen, bytes) = rw (read_exact-front 16 o rest sixteen)
  read_ip-seen (domain name) rest h =
      rw (read_exact-front 1 (length name ∷ []) (name ++ rest) refl)
        (rw (read_exact-front (length name) name rest refl))

  pub read_target-seen :
      (target : Target) (port : ℕ) (rest : List ℕ)
      → IsTarget target
      → port < 65_536
      → read_target (atyp_of target) (conn (address_of target ++ (be16 port ++ rest)))
        ≡ (ok (seen target, port), conn rest)
  unfolding read_target
  read_target-seen target port rest h small =
      rw (read_ip-seen target (be16 port ++ rest) h)
        (rw (read_exact-front 2 (be16 port) rest refl) (rw (u16_be-be16 port small) refl))

handshake-greeting :
    (writes : ℕ) (written methods rest : List ℕ)
    → handshake (conn (suc writes) written (greeting methods ++ rest))
      ≡ (ok tt, conn writes (written ++ ver ∷ 0x00 ∷ []) rest)
unfolding handshake write_all
handshake-greeting writes written methods rest =
    rw (read_exact-front (suc writes) written 2 (ver ∷ length methods ∷ []) (methods ++ rest) refl)
      (rw (read_exact-front (suc writes) written (length methods) methods rest refl) refl)

-- A client that sends a greeting and a request, with any bytes behind them, is answered by the
-- greeting's reply, and its command is carried out for the target and the port that it asked for; the
-- bytes behind the request stay in the stream.
pub handle_client-request :
    (w : World) (methods : List ℕ) (cmd reserved : ℕ) (target : Target) (port : ℕ) (rest : List ℕ)
    (writes : ℕ)
    → IsTarget target
    → port < 65_536
    → handle_client w (record {
      input = greeting methods ++ (request cmd reserved target port ++ rest);
      writes = suc writes;
      written = [];
    })
      ≡ dispatch w cmd
          (seen target, port)
          (record { input = rest; writes = writes; written = ver ∷ 0x00 ∷ [] })
unfolding handle_client
handle_client-request w methods cmd reserved target port rest writes h small =
    rw (handshake-greeting writes [] methods (request cmd reserved target port ++ rest)) (
      rw
        (read_exact-front writes (ver ∷ 0x00 ∷ []) 4 (ver ∷ cmd ∷ reserved ∷ atyp_of target ∷ [])
          ((address_of target ++ be16 port) ++ rest) refl)
        (rw (append_assoc (address_of target) (be16 port) rest)
          (rw (read_target-seen writes (ver ∷ 0x00 ∷ []) target port rest h small) refl)))
