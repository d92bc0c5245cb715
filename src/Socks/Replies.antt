-- ===== src/Socks/Replies.antt =====
-- What the SOCKS5 server of aether/src/socks.rs writes to a client, on every input.
use aether_gui.Common.{
  ℕ, ◌≡◌, refl, sym, subst, ◌⊎◌, inl, inr, Option, none, some, List, [], ◌∷◌, ◌++◌, arith, length,
  ◌==◌,
}
use aether_gui.Common.Outcome.{Outcome, ok, err, panic, stuck, Absent, Ensures}
use aether_gui.Common.Bytes.{IsBytes}
use aether_gui.Error.{AetherError}
use aether_gui.Net.{IpAddr, SocketAddr, IsIpAddr}
use aether_gui.Dns.{parse_dns_a}
use aether_gui.Dns.Safety.{parse_dns_a-Ensures}
use aether_gui.Socks.{
  ver, cmd_connect, cmd_udp_associate, rep_ok, rep_general, rep_not_supported, Target, ip, domain,
  push_addr,
}
use aether_gui.Socks.Session.{
  Conn, ◌>>=◌, return, at, check, lift, read_exact, write_all, handshake, read_target, reply,
  reply_bound, Answer, timeout, closed, datagram, World, or_other, answered, first_address,
  resolve_answer, query, dns_resolve, literal_or, resolve, unspecified, Served, connected,
  associated, or_refuse, handle_connect, handle_udp_associate, dispatch, handle_client,
}
use aether_gui.Socks.Steps.{
  Says, Says-bind, Says-if, refusal, read_exact-Says, at-Says, check-Says, lift-Says,
  write_all-Says, read_target-Says, or_refuse-Says,
}

abbrev pub hello : List ℕ
hello = ver ∷ 0x00 ∷ []

abbrev pub success : SocketAddr → List ℕ
success a = ver ∷ rep_ok ∷ 0x00 ∷ push_addr a

-- After the reply to the greeting a failure leaves nothing more, a refusal, or the address of a relay
-- whose association the network stack then did not open.
abbrev pub IsRefused : World → List ℕ → Type 0
IsRefused w out =
    (out ≡ [])
    ⊎ (out ≡ hello)
    ⊎ (out ≡ hello ++ refusal rep_general)
    ⊎ (out ≡ hello ++ refusal rep_not_supported)
    ⊎ ((a : SocketAddr) × (w.bind_relay ≡ ok a) × (out ≡ hello ++ success a))

-- Whoever is served has been told so, with the address of the relay where there is one.
abbrev pub IsServed : Served → List ℕ → Type 0
IsServed (connected dst) out = out ≡ hello ++ success unspecified
IsServed (associated a) out = out ≡ hello ++ success a

abbrev pub IsAnswer : Answer → Type 0
IsAnswer timeout = Unit
IsAnswer closed = Unit
IsAnswer (datagram bytes) = IsBytes bytes

-- The stack and the host answer, with a result or an error, and a datagram has bytes.
pub record IsWorld (w : World) : Type 0 where
  pub open_udp : Ensures (λ _. Unit {0}) w.open_udp
  pub open_tcp : (a : SocketAddr) → Ensures (λ _. Unit {0}) (w.open_tcp a)
  pub send_query : (q : List ℕ) → Ensures IsAnswer (w.send_query q)
  pub bind_relay : Ensures (λ _. Unit {0}) w.bind_relay

first_address-Ensures :
    (a : Answer) → IsAnswer a → Ensures (λ _. Unit {0}) (first_address (answered a))
first_address-Ensures timeout h = tt
first_address-Ensures closed h = tt
first_address-Ensures (datagram bytes) h = forget (parse_dns_a bytes) (parse_dns_a-Ensures bytes h)
  where
    forget : (m : Outcome Absent IpAddr) → Ensures IsIpAddr m → Ensures (λ _. Unit {0}) (or_other m)
    forget (ok a) k = tt
    forget (err e) k = tt
    forget panic k = k
    forget stuck k = k

dns_resolve-Ensures :
    (w : World) (name : List ℕ) → IsWorld w → Ensures (λ _. Unit {0}) (dns_resolve w name)
unfolding dns_resolve resolve_answer
dns_resolve-Ensures w name h = by_query w.open_udp h.open_udp
  where
    by_answer :
        (m : Outcome AetherError Answer)
        → Ensures IsAnswer m
        → Ensures (λ _. Unit {0}) (resolve_answer m)
    by_answer (ok a) k = first_address-Ensures a k
    by_answer (err e) k = tt
    by_answer panic k = k
    by_answer stuck k = k

    by_query :
        (m : Outcome AetherError (Unit {0}))
        → Ensures (λ _. Unit {0}) m
        → Ensures (λ _. Unit {0}) (resolve_answer (query w name m))
    by_query (ok _) k = by_answer _ (h.send_query _)
    by_query (err e) k = tt
    by_query panic k = k
    by_query stuck k = k

resolve-Ensures :
    (w : World) (target : Target) → IsWorld w → Ensures (λ _. Unit {0}) (resolve w target)
unfolding resolve
resolve-Ensures w (ip a) h = tt
resolve-Ensures w (domain name) h = by_literal (w.parse_ip name)
  where
    by_literal :
        (found : Option IpAddr) → Ensures (λ _. Unit {0}) (literal_or found (dns_resolve w name))
    by_literal none = dns_resolve-Ensures w name h
    by_literal (some a) = tt

handshake-Says :
    (Q : List ℕ → Type 0) (c : Conn)
    → Q []
    → c.written ≡ []
    → Says (λ _ out. out ≡ hello) Q (handshake c)
unfolding handshake
handshake-Says Q c q e =
    Says-bind _ (λ _ out. out ≡ hello) Q (read_exact 2 c) _ (read_exact-Says Q [] q 2 c e)
      λ prefix c1 h1.
        Says-bind _ (λ _ out. out ≡ hello) Q (at prefix 0 c1) _
          (at-Says Q [] q prefix 0 c1 (omega (arith, h1.0)) h1.1)
          λ v c2 h2.
            Says-bind _ (λ _ out. out ≡ hello) Q (check (v == ver) c2) _
              (check-Says Q [] q (v == ver) c2 h2)
              λ _ c3 h3.
                Says-bind _ (λ _ out. out ≡ hello) Q (at prefix 1 c3) _
                  (at-Says Q [] q prefix 1 c3 (omega (arith, h1.0)) h3)
                  λ n c4 h4.
                    Says-bind _ (λ _ out. out ≡ hello) Q (read_exact n c4) _
                      (read_exact-Says Q [] q n c4 h4)
                      λ methods c5 h5. write_all-Says Q [] q hello c5 h5.1

module _ (w : World) (h : IsWorld w) where
  hello-IsRefused : IsRefused w hello
  hello-IsRefused = inr (inl refl)

  handle_connect-Says :
      (target : Target) (port : ℕ) (c : Conn)
      → c.written ≡ hello
      → Says IsServed (IsRefused w) (handle_connect w target port c)
  unfolding handle_connect reply_bound
  handle_connect-Says target port c e =
      Says-bind _ IsServed (IsRefused w) (or_refuse (resolve w target) c) _
        (or_refuse-Says (IsRefused w) hello hello-IsRefused _ c (resolve-Ensures w target h) e
          (inr (inr (inl refl))))
        λ a c1 h1.
          Says-bind _ IsServed (IsRefused w) (or_refuse (w.open_tcp _) c1) _
            (or_refuse-Says (IsRefused w) hello hello-IsRefused _ c1 (h.open_tcp _) h1
              (inr (inr (inl refl))))
            λ _ c2 h2.
              Says-bind _ IsServed (IsRefused w) (write_all (success unspecified) c2) _
                (write_all-Says (IsRefused w) hello hello-IsRefused (success unspecified) c2 h2)
                λ _ c3 h3. h3

  handle_udp_associate-Says :
      (c : Conn) → c.written ≡ hello → Says IsServed (IsRefused w) (handle_udp_associate w c)
  unfolding handle_udp_associate reply_bound
  handle_udp_associate-Says c e = by_relay w.bind_relay refl h.bind_relay
    where
      opened :
          (a : SocketAddr) (c1 : Conn)
          → w.bind_relay ≡ ok a
          → c1.written ≡ hello ++ success a
          → Says IsServed (IsRefused w) ((lift w.open_udp >>= λ _. return (associated a)) c1)
      opened a c1 bound e1 =
          Says-bind _ IsServed (IsRefused w) (lift w.open_udp c1) _
            (lift-Says (IsRefused w) (hello ++ success a) (inr (inr (inr (inr (a, bound, refl)))))
              (λ _. Unit {0}) w.open_udp c1 h.open_udp e1)
            λ _ c2 h2. h2.1

      by_relay :
          (m : Outcome AetherError SocketAddr)
          → w.bind_relay ≡ m
          → Ensures (λ _. Unit {0}) m
          → Says IsServed (IsRefused w) (
              (lift m >>= λ a.
              write_all (success a) >>= λ _. lift w.open_udp >>= λ _. return (associated a))
                c)
      by_relay (ok a) bound k =
          Says-bind _ IsServed (IsRefused w) (write_all (success a) c) _
            (write_all-Says (IsRefused w) hello hello-IsRefused (success a) c e)
            λ _ c1 h1. opened a c1 bound h1
      by_relay (err x) bound k = subst (IsRefused w) (sym e) hello-IsRefused
      by_relay panic bound k = absurd k
      by_relay stuck bound k = absurd k

  dispatch-Says :
      (cmd : ℕ) (found : Target × ℕ) (c : Conn)
      → c.written ≡ hello
      → Says IsServed (IsRefused w) (dispatch w cmd found c)
  unfolding dispatch reply
  dispatch-Says cmd (target, port) c e =
      Says-if _ _ (cmd == cmd_connect) _ _ c (handle_connect-Says target port c e) (
        Says-if _ _ (cmd == cmd_udp_associate) _ _ c (handle_udp_associate-Says c e) (
          Says-bind _ IsServed (IsRefused w) (write_all (refusal rep_not_supported) c) _
            (write_all-Says (IsRefused w) hello hello-IsRefused (refusal rep_not_supported) c e)
            λ _ c1 h1. inr (inr (inr (inl h1)))))

  -- The rest of the dialogue behind the head of the request.
  request-Says :
      (head : List ℕ) (c : Conn)
      → length head ≡ 4
      → c.written ≡ hello
      → Says IsServed (IsRefused w) (
          (at head 1 >>= λ cmd.
          at head 3 >>= λ atyp. read_target atyp >>= λ found. dispatch w cmd found)
            c)
  request-Says head c four e =
      Says-bind _ IsServed (IsRefused w) (at head 1 c) _
        (at-Says (IsRefused w) hello hello-IsRefused head 1 c (omega (arith, four)) e)
        λ cmd c1 h1.
          Says-bind _ IsServed (IsRefused w) (at head 3 c1) _
            (at-Says (IsRefused w) hello hello-IsRefused head 3 c1 (omega (arith, four)) h1)
            λ atyp c2 h2.
              Says-bind _ IsServed (IsRefused w) (read_target atyp c2) _
                (read_target-Says (IsRefused w) hello hello-IsRefused atyp c2 h2)
                λ found c3 h3. dispatch-Says cmd found c3 h3

-- On every stream of bytes, and whenever the socket stops taking writes, the dialogue ends without
-- panic; a client that is served was sent the reply to its greeting and one success reply, and a
-- client that is not was sent nothing, that reply alone, or that reply and one more as `IsRefused` says.
pub handle_client-Says :
    (w : World) (c : Conn)
    → IsWorld w
    → c.written ≡ []
    → Says IsServed (IsRefused w) (handle_client w c)
unfolding handle_client
handle_client-Says w c h e =
    Says-bind _ IsServed (IsRefused w) (handshake c) _ (handshake-Says (IsRefused w) c (inl refl) e)
      λ _ c1 h1.
        Says-bind _ IsServed (IsRefused w) (read_exact 4 c1) _
          (read_exact-Says (IsRefused w) hello (hello-IsRefused w h) 4 c1 h1)
          λ head c2 h2.
            Says-bind _ IsServed (IsRefused w) (at head 0 c2) _
              (at-Says (IsRefused w) hello (hello-IsRefused w h) head 0 c2 (omega (arith, h2.0))
                h2.1)
              λ v c3 h3.
                Says-bind _ IsServed (IsRefused w) (check (v == ver) c3) _
                  (check-Says (IsRefused w) hello (hello-IsRefused w h) (v == ver) c3 h3)
                  λ _ c4 h4. request-Says w h head c4 h2.0 h4
