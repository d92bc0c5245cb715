-- ===== src/Tunnel/Chunks.antt =====
-- The chunks in which the body of an HTTP/2 response arrives, aether/src/masque_h2.rs: where they are
-- cut makes no difference to the packets that the tunnel hands out.
use aether_gui.Common.{
  ℕ, zero, suc, ◌≤◌, ◌≡◌, refl, sym, ap, ◌∙◌, subst, ◌≢◌, inl, inr, true, ◌||◌, Option, none, some,
  List, [], ◌∷◌, ◌++◌, append-nil, append_assoc, arith, length, All, length-append,
}
use aether_gui.Common.Outcome.{Outcome, ok, Absent, Ensures}
use native.Mathlib.Nat.{le_refl}
use mathlib.Core.Path.{ap₂}
use aether_gui.Error.{AetherError}
use aether_gui.Octets.{Octets, IsOctets, IsVarint}
use aether_gui.Masque.{Capsule, capsule_of, next, push, encode_capsule}
use aether_gui.Masque.Framing.{Frame, next_cases, next-encode_capsule}
use aether_gui.Masque.Values.{capsule_of-Ensures}
use aether_gui.Tunnel.{Drained, fresh, drain_loop, drain_capsules, feed_chunks}
use aether_gui.Tunnel.Drain.{drain_loop_step, drain_loop_waits}
use aether_gui.Tunnel.Stream.{
  Sent, packets_of, addresses_of, all_packets, all_addresses, all_packets-append,
  all_addresses-append, joined, absorb, handle_capsule-absorb, absorb_lem,
}

module _ (o : Octets) (laws : IsOctets o) where
  pub record IsSent (s : Sent) : Type 0 where
    pub kind : IsVarint s.kind
    pub value : IsVarint (length s.value)
    pub parses : capsule_of o s.kind s.value ≡ ok (some s.capsule)

  abbrev pub encode_stream : List Sent → List ℕ
  encode_stream [] = []
  encode_stream (s ∷ rest) = encode_capsule o s.kind s.value ++ encode_stream rest

  -- What is left of the stream: the buffer holds no complete capsule.
  abbrev pub Waits : List ℕ → Type 0
  Waits buf = next o buf ≡ (ok none, buf)

  next-encode_stream :
      (s : Sent) (rest : List Sent) (tail : List ℕ)
      → IsSent s
      → next o (encode_stream (s ∷ rest) ++ tail)
        ≡ (ok (some s.capsule), encode_stream rest ++ tail)
  next-encode_stream s rest tail h =
      ap (next o) (append_assoc (encode_capsule o s.kind s.value) (encode_stream rest) tail)
      ∙ next-encode_capsule o laws s.kind s.value (encode_stream rest ++ tail) h.kind h.value
      ∙ ap (λ r. (r, encode_stream rest ++ tail)) h.parses

  -- A buffer that waits and is all that is left of a stream is its tail.
  Waits-tail :
      (sent : List Sent) (buf tail : List ℕ)
      → All IsSent sent
      → Waits buf
      → buf ≡ encode_stream sent ++ tail
      → (sent ≡ []) × (buf ≡ tail)
  Waits-tail [] buf tail h w e = (refl, e)
  Waits-tail (s ∷ rest) buf tail (h, hs) w e =
      cc (w, ap (next o) e, next-encode_stream s rest tail h)

  -- How far a drain of `d` comes in the stream `sent`, when `more` has not arrived yet.
  record Progress (sent : List Sent) (tail more : List ℕ) (d : Drained)
      (run : Outcome Absent Drained) : Type 0 where
    done : List Sent
    left : List Sent
    after : Drained
    returns : run ≡ ok after
    parts : sent ≡ done ++ left
    stream : after.buf ++ more ≡ encode_stream left ++ tail
    waits : Waits after.buf
    packets : after.packets ≡ d.packets ++ all_packets done
    addresses : after.addresses ≡ d.addresses ++ all_addresses done

  capsule_of-ne-none : (kind : ℕ) (value : List ℕ) → capsule_of o kind value ≢ ok none
  capsule_of-ne-none kind value e =
      subst (Ensures (λ c. c ≢ none)) e (capsule_of-Ensures o laws kind value) refl

  -- The head of the stream, when a complete capsule stands at the front of the buffer.
  head_taken :
      (s : Sent) (rest : List Sent) (buf tail more : List ℕ) (f : Frame o laws buf)
      → IsSent s
      → buf ++ more ≡ encode_stream (s ∷ rest) ++ tail
      → (next o buf ≡ (ok (some s.capsule), f.rest)) × (f.rest ++ more ≡ encode_stream rest ++ tail)
  head_taken s rest buf tail more f h e =
      let both = sym (f.later more) ∙ ap (next o) e ∙ next-encode_stream s rest tail h in
      let same = ap (λ (p : Outcome AetherError (Option Capsule) × List ℕ). p.0) both in
      (
        f.now ∙ ap (λ r. (r, f.rest)) same,
        ap (λ (p : Outcome AetherError (Option Capsule) × List ℕ). p.1) both,
      )

  no_head : (buf tail more : List ℕ) (f : Frame o laws buf) → Waits tail → buf ++ more ≡ tail → ⊥
  no_head buf tail more f w e = capsule_of-ne-none f.kind f.value (
      ap (λ (p : Outcome AetherError (Option Capsule) × List ℕ). p.0)
        (sym (f.later more) ∙ ap (next o) e ∙ w))

  abbrev stalled :
      (fuel : ℕ) (sent : List Sent) (tail more : List ℕ) (d : Drained)
      → Waits d.buf
      → d.buf ++ more ≡ encode_stream sent ++ tail
      → Progress sent tail more d (drain_loop o true (suc fuel) d)
  stalled fuel sent tail more d waits e = record {
    done = [];
    left = sent;
    after = d;
    returns = drain_loop_waits o laws true fuel d waits;
    parts = refl;
    stream = e;
    waits = waits;
    packets = sym (append-nil d.packets);
    addresses = sym (append-nil d.addresses);
  }

  after_head :
      (fuel : ℕ) (s : Sent) (rest : List Sent) (tail more buf : List ℕ) (d : Drained)
      → next o d.buf ≡ (ok (some s.capsule), buf)
      → Progress rest tail more
          (absorb s.capsule (record d { buf = buf }))
          (drain_loop o true fuel (absorb s.capsule (record d { buf = buf })))
      → Progress (s ∷ rest) tail more d (drain_loop o true (suc fuel) d)
  after_head fuel s rest tail more buf d e p =
      let (_, packets, addresses) = absorb_lem s.capsule (record d { buf = buf }) in
      record {
        done = s ∷ p.done;
        left = p.left;
        after = p.after;
        returns =
            drain_loop_step o laws true fuel d buf _ e
            ∙ handle_capsule-absorb s.capsule _ (drain_loop o true fuel)
            ∙ p.returns;
        parts = ap (λ l. s ∷ l) p.parts;
        stream = p.stream;
        waits = p.waits;
        packets =
            p.packets
            ∙ ap (λ l. l ++ all_packets p.done) packets
            ∙ append_assoc d.packets (packets_of s.capsule) (all_packets p.done);
        addresses =
            p.addresses
            ∙ ap (λ l. l ++ all_addresses p.done) addresses
            ∙ append_assoc d.addresses (addresses_of s.capsule) (all_addresses p.done);
      }

  drain_loop-Progress :
      (fuel : ℕ) (sent : List Sent) (tail more : List ℕ) (d : Drained)
      → All IsSent sent
      → Waits tail
      → d.buf ++ more ≡ encode_stream sent ++ tail
      → length d.buf ≤ fuel
      → Progress sent tail more d (drain_loop o true (suc fuel) d)
  drain_loop-Progress fuel [] tail more d h w e enough = elim (next_cases o laws d.buf) [
    | inl waits ↦ stalled fuel [] tail more d waits e
    | inr f ↦ absurd (no_head d.buf tail more f w e)
  ]
  drain_loop-Progress zero (s ∷ rest) tail more d h w e enough = elim (next_cases o laws d.buf) [
    | inl waits ↦ stalled zero (s ∷ rest) tail more d waits e
    | inr f ↦ absurd (omega (arith, ap length f.split, length-append f.front f.rest, f.nonempty))
  ]
  drain_loop-Progress (suc fuel) (s ∷ rest) tail more d (h, hs) w e enough =
      elim (next_cases o laws d.buf) [
        | inl waits ↦ stalled (suc fuel) (s ∷ rest) tail more d waits e
        | inr f ↦
            let (taken, stream) = head_taken s rest d.buf tail more f h e in
            let d' = absorb s.capsule (record d { buf = f.rest }) in
            let same : d'.buf ≡ f.rest = (absorb_lem s.capsule (record d { buf = f.rest })).0 in
            after_head (suc fuel) s rest tail more f.rest d taken (
              drain_loop-Progress fuel rest tail more d' hs w (ap (λ l. l ++ more) same ∙ stream) (
                omega (
                  arith,
                  ap length same,
                  ap length f.split,
                  length-append f.front f.rest,
                  f.nonempty,
                )))
      ]

  suffix-IsSent : (done left : List Sent) → All IsSent (done ++ left) → All IsSent left
  suffix-IsSent [] left h = h
  suffix-IsSent (s ∷ done) left (h, hs) = suffix-IsSent done left hs

  -- What feeding the rest of a stream comes to.
  pub record Fed (sent : List Sent) (tail : List ℕ) (run : Outcome Absent Drained) : Type 0 where
    pub result : Drained
    pub returns : run ≡ ok result
    pub buf : result.buf ≡ tail
    pub packets : result.packets ≡ all_packets sent
    pub addresses : result.addresses ≡ all_addresses sent

  -- One chunk, and then the others.
  feed_chunk :
      (chunk : List ℕ) (chunks : List (List ℕ)) (sent : List Sent) (buf tail : List ℕ)
      (p : Progress sent tail
        (joined chunks)
        (fresh (buf ++ chunk))
        (drain_capsules o true (buf ++ chunk)))
      → Fed p.left tail (feed_chunks o true chunks p.after.buf)
      → Fed sent tail (feed_chunks o true (chunk ∷ chunks) buf)
  unfolding feed_chunks push fresh
  feed_chunk chunk chunks sent buf tail p f = record {
    result = record f.result {
      delivered = p.after.delivered || f.result.delivered;
      packets = p.after.packets ++ f.result.packets;
      addresses = p.after.addresses ++ f.result.addresses;
    };
    returns = rw p.returns (rw f.returns);
    buf = f.buf;
    packets =
        ap₂ (λ a b. a ++ b) p.packets f.packets
        ∙ sym (all_packets-append p.done p.left)
        ∙ ap all_packets (sym p.parts);
    addresses =
        ap₂ (λ a b. a ++ b) p.addresses f.addresses
        ∙ sym (all_addresses-append p.done p.left)
        ∙ ap all_addresses (sym p.parts);
  }

  drain_capsules-Progress :
      (sent : List Sent) (tail more buf : List ℕ)
      → All IsSent sent
      → Waits tail
      → buf ++ more ≡ encode_stream sent ++ tail
      → Progress sent tail more (fresh buf) (drain_capsules o true buf)
  unfolding drain_capsules fresh
  drain_capsules-Progress sent tail more buf h w e =
      drain_loop-Progress (length buf) sent tail more (fresh buf) h w e (le_refl _)

  feed_chunks-Fed :
      (chunks : List (List ℕ)) (sent : List Sent) (buf tail : List ℕ)
      → All IsSent sent
      → Waits tail
      → Waits buf
      → buf ++ joined chunks ≡ encode_stream sent ++ tail
      → Fed sent tail (feed_chunks o true chunks buf)
  unfolding feed_chunks fresh
  feed_chunks-Fed [] sent buf tail h w waits e =
      let (none_left, at_tail) = Waits-tail sent buf tail h waits (sym (append-nil buf) ∙ e) in
      record {
        result = fresh buf;
        returns = refl;
        buf = at_tail;
        packets = ap all_packets (sym none_left);
        addresses = ap all_addresses (sym none_left);
      }
  feed_chunks-Fed (chunk ∷ chunks) sent buf tail h w waits e =
      let p =
        drain_capsules-Progress sent tail (joined chunks) (buf ++ chunk) h w
          (append_assoc buf chunk (joined chunks) ∙ e) in
      feed_chunk chunk chunks sent buf tail p (
        feed_chunks-Fed chunks p.left p.after.buf tail
          (suffix-IsSent p.done p.left (subst (All IsSent) p.parts h)) w p.waits p.stream)

  nil-Waits : Waits []
  nil-Waits = elim (next_cases o laws []) [
    | inl e ↦ e
    | inr f ↦ absurd (omega (arith, ap length f.split, length-append f.front f.rest, f.nonempty))
  ]

  -- However the bytes of a stream of capsules are cut into chunks, the tunnel hands out the packets of
  -- its datagram capsules and the addresses of its assignments, all of them and in the order in which
  -- they were sent, and keeps the incomplete capsule at the end of the stream in its buffer.
  pub feed_chunks-encode_stream :
      (chunks : List (List ℕ)) (sent : List Sent) (tail : List ℕ)
      → All IsSent sent
      → Waits tail
      → joined chunks ≡ encode_stream sent ++ tail
      → Fed sent tail (feed_chunks o true chunks [])
  feed_chunks-encode_stream chunks sent tail h w e =
      feed_chunks-Fed chunks sent [] tail h w nil-Waits e
