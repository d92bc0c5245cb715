-- ===== src/Quic/Framing.antt =====
-- The datagrams that the loop of aether/src/quic.rs takes from the connection.
use aether_gui.Common.{
  ℕ, ◌/◌, ◌≡◌, refl, sym, ap, ◌∙◌, subst, ◌≢◌, inl, inr, Bool, true, false, ◌||◌, not, Option, none,
  some, List, [], ◌∷◌, ◌++◌, append-nil, append_assoc, arith, ◌==◌, if◌then◌else◌, ==_iff,
  Bool-cases,
}
use aether_gui.Common.Outcome.{ok, ◌>>=◌}
use aether_gui.Common.Text.{is_empty}
use aether_gui.Octets.{Octets, IsOctets, IsVarint}
use aether_gui.Masque.{encode_ip_datagram, decode_ip_datagram, quarter_stream_id}
use aether_gui.Masque.Datagram.{decode-encode_ip_datagram, decode_ip_datagram_foreign}
use aether_gui.Quic.Connection.{Link, packet_of, found_in, drain_loop_datagrams, drain_datagrams}

-- A datagram as its sender means it: the stream that it is framed for, and the packet.
pub record Arrival : Type 0 where
  pub stream : ℕ
  pub packet : List ℕ

-- The packets framed for the stream, by the quarter of its id.
abbrev pub packets_for : ℕ → List Arrival → List (List ℕ)
packets_for sid [] = []
packets_for sid (a ∷ arrivals) =
    if a.stream / 4 == sid / 4
    then a.packet ∷ packets_for sid arrivals
    else packets_for sid arrivals

module _ (o : Octets) (laws : IsOctets o) where
  -- What `dgram_recv` gives is what the arrivals were framed to.
  abbrev pub Framed : List Arrival → List (Option (List ℕ)) → Type 0
  Framed [] [] = Unit
  Framed [] (answer ∷ answers) = ⊥
  Framed (a ∷ arrivals) [] = ⊥
  Framed (a ∷ arrivals) (none ∷ answers) = ⊥
  Framed (a ∷ arrivals) (some bytes ∷ answers) =
      IsVarint a.stream
      × (encode_ip_datagram o a.stream a.packet ≡ ok bytes)
      × Framed arrivals answers

  decode_same :
      (bytes : List ℕ) (a b : ℕ)
      → a / 4 ≡ b / 4
      → decode_ip_datagram o bytes a ≡ decode_ip_datagram o bytes b
  unfolding decode_ip_datagram quarter_stream_id
  decode_same bytes a b e = rw e

  packet_of_own :
      (sid : ℕ) (a : Arrival) (bytes : List ℕ)
      → IsVarint a.stream
      → encode_ip_datagram o a.stream a.packet ≡ ok bytes
      → a.stream / 4 ≡ sid / 4
      → packet_of o sid bytes ≡ some a.packet
  unfolding packet_of
  packet_of_own sid a bytes h e same = ap found_in (
      sym (decode_same bytes a.stream sid same)
      ∙ subst (λ x. (x >>= λ framed. decode_ip_datagram o framed a.stream) ≡ ok (some a.packet)) e
          (decode-encode_ip_datagram o laws a.stream a.packet h))

  packet_of_foreign :
      (sid : ℕ) (a : Arrival) (bytes : List ℕ)
      → IsVarint a.stream
      → encode_ip_datagram o a.stream a.packet ≡ ok bytes
      → a.stream / 4 ≢ sid / 4
      → packet_of o sid bytes ≡ none
  unfolding packet_of
  packet_of_foreign sid a bytes h e other = ap found_in (
      subst (λ x. (x >>= λ framed. decode_ip_datagram o framed sid) ≡ ok none) e
        (decode_ip_datagram_foreign o laws a.stream sid a.packet h other))

  -- What the drain leaves: the packets in order behind those already handed on, and whether there is one.
  abbrev pub Handed : List (List ℕ) → Bool × Link → Bool × Link → Type 0
  Handed packets d d' =
      (d'.1.inbound ≡ d.1.inbound ++ packets) × (d'.0 ≡ (d.0 || not (is_empty packets)))

  drain_loop_datagrams-Handed :
      (sid : ℕ) (arrivals : List Arrival) (answers : List (Option (List ℕ))) (d : Bool × Link)
      → Framed arrivals answers
      → Handed (packets_for sid arrivals) d (drain_loop_datagrams o sid true answers d)
  unfolding drain_loop_datagrams
  drain_loop_datagrams-Handed sid [] [] (b, s) h = (sym (append-nil s.inbound), or_false b)
    where
      or_false : (b' : Bool) → b' ≡ b' || false
      or_false true = refl
      or_false false = refl
  drain_loop_datagrams-Handed sid [] (answer ∷ answers) d h = absurd h
  drain_loop_datagrams-Handed sid (a ∷ arrivals) [] d h = absurd h
  drain_loop_datagrams-Handed sid (a ∷ arrivals) (none ∷ answers) d h = absurd h
  drain_loop_datagrams-Handed sid (a ∷ arrivals) (some bytes ∷ answers) (b, s) (h, e, framed) =
      elim (Bool-cases (a.stream / 4 == sid / 4)) [
        | inl own ↦
            let (order, some_one) =
              drain_loop_datagrams-Handed sid arrivals answers
                (true, record s { inbound = s.inbound ++ (a.packet ∷ []) }) framed in
            rw own (
              rw (packet_of_own sid a bytes h e ((==_iff (a.stream / 4) (sid / 4)).0 own)) (
                order ∙ append_assoc s.inbound (a.packet ∷ []) (packets_for sid arrivals),
                some_one ∙ sym (or_true b),
              ))
        | inr foreign ↦ rw foreign (
            rw (packet_of_foreign sid a bytes h e (distinct foreign))
              (drain_loop_datagrams-Handed sid arrivals answers (b, s) framed))
      ]
    where
      or_true : (b' : Bool) → b' || true ≡ true
      or_true true = refl
      or_true false = refl

      distinct : (a.stream / 4 == sid / 4) ≡ false → a.stream / 4 ≢ sid / 4
      distinct foreign same = ground arith

  -- While the program reads, the datagrams of a round are taken whole: the packets framed for the
  -- request's stream are handed on in order, those of other streams are left, and the round confirms
  -- traffic exactly when there is a packet of the stream.
  pub drain_datagrams-Handed :
      (sid : ℕ) (arrivals : List Arrival) (answers : List (Option (List ℕ))) (s : Link)
      → Framed arrivals answers
      → Handed (packets_for sid arrivals) (false, s) (drain_datagrams o (some sid) true answers s)
  unfolding drain_datagrams
  drain_datagrams-Handed sid arrivals answers s h =
      drain_loop_datagrams-Handed sid arrivals answers (false, s) h
