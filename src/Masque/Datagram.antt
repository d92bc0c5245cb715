-- ===== src/Masque/Datagram.antt =====
-- What `encode_ip_datagram` and `encode_capsule` of aether/src/masque.rs write, and what
-- `decode_ip_datagram` reads back.
use aether_gui.Common.{
  ℕ, ◌+◌, ◌-◌, ◌/◌, ◌≤◌, ◌≡◌, ap, ◌∙◌, ◌≢◌, none, some, List, [], ◌++◌, append-nil, append_assoc,
  arith, length, take-length, le→leb, ==_refl,
}
use aether_gui.Common.Outcome.{ok, ◌>>=◌}
use aether_gui.Octets.{Octets, IsOctets, IsVarint, Writer, with_capacity, append_bytes}
use aether_gui.Masque.{
  quarter_stream_id, varint_len, encode_ip_datagram, decode_ip_datagram, encode_capsule,
}

module _ (o : Octets) (laws : IsOctets o) where
  open laws use {varint}

  -- `varint_len` is the length that the crate writes.
  pub varint_len_lem : (v : ℕ) → IsVarint v → length (varint v) ≡ varint_len v
  unfolding varint_len
  varint_len_lem v h = ground (
    arith,
    laws.length-varint_one v,
    laws.length-varint_two v,
    laws.length-varint_four v,
    laws.length-varint_eight v,
  )

  -- A write that fits, and the last one, which fills the buffer.
  append_bytes_fits :
      (bs : List ℕ) (w : Writer)
      → length bs ≤ w.room
      → append_bytes bs w ≡ some (record { written = w.written ++ bs; room = w.room - length bs })
  append_bytes_fits bs w h = rw (le→leb (length bs) w.room h)

  append_bytes_fills :
      (bs : List ℕ) (w : Writer)
      → length bs ≡ w.room
      → append_bytes bs w ≡ some (record { written = w.written ++ bs; room = 0 })
  append_bytes_fills bs w h =
      rw (le→leb (length bs) w.room (omega arith))
        (ap (λ n. some (record { written = w.written ++ bs; room = n })) (omega arith))

  -- Two integers and some bytes fill a buffer of their total length.
  module _ (a b : ℕ) (bs : List ℕ) (ha : IsVarint a) (hb : IsVarint b) where
    cap : ℕ
    cap = varint_len a + varint_len b + length bs

    write_first :
        o.put_varint a (with_capacity cap)
        ≡ some (record { written = varint a; room = cap - length (varint a) })
    unfolding cap
    write_first =
        laws.put_varint a _ ha
        ∙ append_bytes_fits (varint a) (with_capacity cap) (omega (arith, varint_len_lem a ha))

    write_second :
        o.put_varint b (record { written = varint a; room = cap - length (varint a) })
        ≡ some (record {
          written = varint a ++ varint b;
          room = cap - length (varint a) - length (varint b);
        })
    unfolding cap
    write_second =
        laws.put_varint b _ hb
        ∙ append_bytes_fits (varint b) _ (omega (arith, varint_len_lem a ha, varint_len_lem b hb))

    write_bytes :
        o.put_bytes bs (record {
          written = varint a ++ varint b;
          room = cap - length (varint a) - length (varint b);
        })
        ≡ some (record { written = (varint a ++ varint b) ++ bs; room = 0 })
    unfolding cap
    write_bytes =
        laws.put_bytes_lem bs _
        ∙ append_bytes_fills bs _ (omega (arith, varint_len_lem a ha, varint_len_lem b hb))

    written : (((varint a ++ varint b) ++ bs) ++ []) ≡ varint a ++ (varint b ++ bs)
    written = simp (append-nil, append_assoc)

  zero_IsVarint : IsVarint 0
  zero_IsVarint = omega arith

  quarter_IsVarint : (sid : ℕ) → IsVarint sid → IsVarint (sid / 4)
  quarter_IsVarint sid h = omega arith

  pub encode_ip_datagram_lem :
      (sid : ℕ) (pkt : List ℕ)
      → IsVarint sid
      → encode_ip_datagram o sid pkt ≡ ok (varint (sid / 4) ++ (varint 0 ++ pkt))
  unfolding encode_ip_datagram quarter_stream_id cap
  encode_ip_datagram_lem sid pkt h =
      let q = quarter_IsVarint sid h in
      let z = zero_IsVarint in
      rw (write_first (sid / 4) 0 pkt q z) (
        rw (write_second (sid / 4) 0 pkt q z)
          (rw (write_bytes (sid / 4) 0 pkt q z) (ap ok (written (sid / 4) 0 pkt q z))))

  pub encode_capsule_lem :
      (kind : ℕ) (value : List ℕ)
      → IsVarint kind
      → IsVarint (length value)
      → encode_capsule o kind value ≡ varint kind ++ (varint (length value) ++ value)
  unfolding encode_capsule cap
  encode_capsule_lem kind value hk hv = rw (write_first kind (length value) value hk hv) (
      rw (write_second kind (length value) value hk hv) (
        rw (write_bytes kind (length value) value hk hv) (written kind (length value) value hk hv)))

  -- A packet framed for a stream is read back as it was by the reader for that stream.
  pub decode-encode_ip_datagram :
      (sid : ℕ) (pkt : List ℕ)
      → IsVarint sid
      → (encode_ip_datagram o sid pkt >>= λ framed. decode_ip_datagram o framed sid) ≡ ok (some pkt)
  unfolding decode_ip_datagram quarter_stream_id
  decode-encode_ip_datagram sid pkt h = rw (encode_ip_datagram_lem sid pkt h) (
      rw (laws.get-varint (sid / 4) (varint 0 ++ pkt) (quarter_IsVarint sid h)) (
        rw (laws.get-varint 0 pkt zero_IsVarint) (
          rw (==_refl (sid / 4)) (
            rw (laws.get_bytes_lem (length pkt) pkt)
              (rw (le→leb (length pkt) (length pkt) (omega arith)) (rw (take-length pkt)))))))

  -- A reader for a stream of another quarter leaves the packet alone.
  pub decode_ip_datagram_foreign :
      (sid other : ℕ) (pkt : List ℕ)
      → IsVarint sid
      → sid / 4 ≢ other / 4
      → (encode_ip_datagram o sid pkt >>= λ framed. decode_ip_datagram o framed other) ≡ ok none
  unfolding decode_ip_datagram quarter_stream_id
  decode_ip_datagram_foreign sid other pkt h ne =
      rw (encode_ip_datagram_lem sid pkt h)
        (rw (laws.get-varint (sid / 4) (varint 0 ++ pkt) (quarter_IsVarint sid h)) (ground arith))
