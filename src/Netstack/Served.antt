-- ===== src/Netstack/Served.antt =====
-- What the service of one connection in aether/src/netstack.rs does with the bytes that wait in it.
use aether_gui.Common.{
  ℕ, zero, suc, ◌≡◌, refl, sym, ap, ◌∙◌, ◌⊎◌, inl, inr, Bool, true, false, ◌&&◌, not, List, [], ◌∷◌,
  ◌++◌, map, append-nil, append_assoc, arith, take, take-append-drop, ◌==◌, if◌then◌else◌, lt→ltb,
  if_both, Bool-cases,
}
use aether_gui.Common.Outcome.{}
use aether_gui.Netstack.{
  Smoltcp, Effect, opened_tcp, refused_tcp, transmitted, delivered, is_dead, is_closed,
  TcpSocketState,
}
use aether_gui.Netstack.Service.{
  Serving, established_now, establish, drain, sent_to, send_pending, finish_half, pass_on,
  finish_service, serve_live, refuse, serve,
}

-- The bytes handed to the socket of a connection.
abbrev pub sent_by : ℕ → Effect → List ℕ
sent_by id (transmitted j bytes) = if j == id then bytes else []
sent_by id _ = []

unfoldable pub transmitted_bytes : ℕ → List Effect → List ℕ
transmitted_bytes id [] = []
transmitted_bytes id (e ∷ es) = sent_by id e ++ transmitted_bytes id es

pub transmitted_bytes-append :
    (id : ℕ) (xs ys : List Effect)
    → transmitted_bytes id (xs ++ ys) ≡ transmitted_bytes id xs ++ transmitted_bytes id ys
unfolding transmitted_bytes
transmitted_bytes-append id [] ys = refl
transmitted_bytes-append id (x ∷ xs) ys =
    ap (λ l. sent_by id x ++ l) (transmitted_bytes-append id xs ys)
    ∙ sym (append_assoc (sent_by id x) (transmitted_bytes id xs) (transmitted_bytes id ys))

-- What is left of the bytes of the connection `o` in an entry under service for `id`.
abbrev pub left_in : ℕ → ℕ → List ℕ → List ℕ
left_in o id pending = if id == o then pending else []

-- A step of the service of `id` keeps the bytes of `o` in order.
abbrev pub Keeps : (net : Smoltcp) → ℕ → ℕ → Serving net → Serving net → Type 0
Keeps net o id v v' =
    transmitted_bytes o v'.effects ++ left_in o id v'.st.pending
    ≡ transmitted_bytes o v.effects ++ left_in o id v.st.pending

take-append-drain : (n : ℕ) (pending : List ℕ) → take n pending ++ drain pending n ≡ pending
take-append-drain zero pending = refl
take-append-drain (suc n) pending =
    rw (lt→ltb 0 (suc n) (omega arith)) (take-append-drop (suc n) pending)

-- Handing over a front of the bytes of `id`.
sent_by-left_in :
    (o id n : ℕ) (pending : List ℕ)
    → sent_by o (transmitted id (take n pending)) ++ left_in o id (drain pending n)
      ≡ left_in o id pending
sent_by-left_in o id n pending = elim (Bool-cases (id == o)) [
  | inl same ↦ rw same (take-append-drain n pending)
  | inr other ↦ rw other refl
]

module _ (net : Smoltcp) (o id : ℕ) where
  -- A step that leaves the pending bytes and hands nothing over.
  Keeps-effects :
      (v v' : Serving net) (more : List Effect)
      → v'.st.pending ≡ v.st.pending
      → v'.effects ≡ v.effects ++ more
      → transmitted_bytes o more ≡ []
      → Keeps net o id v v'
  Keeps-effects v v' more same es none_sent =
      rw
        (
          same,
          es,
          transmitted_bytes-append o v.effects more,
          none_sent,
          append-nil (transmitted_bytes o v.effects),
        )
        refl

  sent_to-Keeps : (v : Serving net) (r : ℕ × net.Sockets) → Keeps net o id v (sent_to net id v r)
  unfolding transmitted_bytes
  sent_to-Keeps v (n, sockets) =
      ap (λ l. l ++ left_in o id (drain v.st.pending n))
        (transmitted_bytes-append o v.effects (transmitted id (take n v.st.pending) ∷ []))
      ∙ append_assoc (transmitted_bytes o v.effects) _ (left_in o id (drain v.st.pending n))
      ∙ ap (λ l. transmitted_bytes o v.effects ++ l)
          (ap (λ l. l ++ left_in o id (drain v.st.pending n))
              (append-nil (sent_by o (transmitted id (take n v.st.pending))))
            ∙ sent_by-left_in o id n v.st.pending)

  send_pending-Keeps : (v : Serving net) → Keeps net o id v (send_pending net id v)
  unfolding send_pending
  send_pending-Keeps v =
      if_both (Keeps net o id v) _ _ v
        (sent_to-Keeps v (net.send_slice v.st.handle v.st.pending v.sockets)) refl

  opened_sends_nothing :
      (test : Bool) → transmitted_bytes o (if test then opened_tcp id ∷ [] else []) ≡ []
  unfolding transmitted_bytes
  opened_sends_nothing true = refl
  opened_sends_nothing false = refl

  delivered_sends_nothing :
      (chunks : List (List ℕ)) → transmitted_bytes o (map (delivered id) chunks) ≡ []
  unfolding transmitted_bytes
  delivered_sends_nothing [] = refl
  delivered_sends_nothing (chunk ∷ chunks) = delivered_sends_nothing chunks

  establish-Keeps :
      (now : TcpSocketState) (v : Serving net) → Keeps net o id v (establish net id now v)
  unfolding establish
  establish-Keeps now v =
      if_both (Keeps net o id v) _ (established_now net id v) v
        (Keeps-effects v (established_now net id v) _ refl refl
          (opened_sends_nothing (v.st.connect_resp && v.st.from_stack_rx)))
        refl

  finish_half-Keeps : (v : Serving net) → Keeps net o id v (finish_half net v)
  unfolding finish_half
  finish_half-Keeps v =
      if_both (Keeps net o id v) _ (record v { sockets = net.close v.st.handle v.sockets }) v refl
        refl

  pass_on-Keeps :
      (takes : List ℕ → Bool) (v : Serving net) → Keeps net o id v (pass_on net id takes v)
  unfolding pass_on
  pass_on-Keeps takes v =
      Keeps-effects v (pass_on net id takes v) _ refl refl (delivered_sends_nothing _)

  finish_service-Keeps : (v : Serving net) → Keeps net o id v (finish_service net v).0
  unfolding finish_service
  finish_service-Keeps v =
      if_both (λ (r : Serving net × Bool). Keeps net o id v r.0)
        (is_closed (net.state v.st.handle v.sockets) && v.st.established) _ _ refl refl

  serve_live-Keeps :
      (takes : List ℕ → Bool) (v : Serving net) → Keeps net o id v (serve_live net id takes v).0
  unfolding serve_live
  serve_live-Keeps takes v =
      finish_service-Keeps (pass_on net id takes (finish_half net (send_pending net id v)))
      ∙ pass_on-Keeps takes (finish_half net (send_pending net id v))
      ∙ finish_half-Keeps (send_pending net id v)
      ∙ send_pending-Keeps v

  -- A refused connection has its entry removed, with whatever is left in it.
  refuse-Keeps :
      (v : Serving net)
      → (transmitted_bytes o (refuse net id v).0.effects ≡ transmitted_bytes o v.effects)
        × ((refuse net id v).1 ≡ true)
  unfolding refuse transmitted_bytes
  refuse-Keeps v = (
    transmitted_bytes-append o v.effects _
        ∙ ap (λ l. transmitted_bytes o v.effects ++ l) (nothing v.st.connect_resp)
        ∙ append-nil _,
    refl,
  )
    where
      nothing : (test : Bool) → transmitted_bytes o (if test then refused_tcp id ∷ [] else []) ≡ []
      nothing true = refl
      nothing false = refl

  establish_sends_nothing :
      (now : TcpSocketState) (v : Serving net)
      → transmitted_bytes o (establish net id now v).effects ≡ transmitted_bytes o v.effects
  unfolding establish
  establish_sends_nothing now v =
      if_both (λ (w : Serving net). transmitted_bytes o w.effects ≡ transmitted_bytes o v.effects) _
        (established_now net id v) v
        (transmitted_bytes-append o v.effects _
          ∙ ap (λ l. transmitted_bytes o v.effects ++ l)
              (opened_sends_nothing (v.st.connect_resp && v.st.from_stack_rx))
          ∙ append-nil _)
        refl

  -- A service keeps the bytes of `o` in order, or it hands nothing over and removes its entry.
  abbrev pub IsServiced : Serving net → Serving net × Bool → Type 0
  IsServiced v r =
      Keeps net o id v r.0
      ⊎ ((transmitted_bytes o r.0.effects ≡ transmitted_bytes o v.effects) × (r.1 ≡ true))

  pub serve-IsServiced :
      (takes : List ℕ → Bool) (v : Serving net) → IsServiced v (serve net id takes v)
  unfolding serve
  serve-IsServiced takes v =
      let now = net.state v.st.handle v.sockets in
      let v' = establish net id now v in
      if_both (IsServiced v) (not v'.st.established && is_dead now) _ _
        (inr ((refuse-Keeps v').0 ∙ establish_sends_nothing now v, (refuse-Keeps v').1))
        (inl (serve_live-Keeps takes v' ∙ establish-Keeps now v))
