-- ===== src/Masque/Tests.antt =====
-- Runs of the capsule code over RFC 9000 integers, and its theorems at concrete inputs.
use aether_gui.Common.{ℕ, ◌≡◌, refl, inl, some, List, [], ◌∷◌, arith}
use aether_gui.Common.Outcome.{ok, ◌>>=◌}
use aether_gui.Octets.Wire.{octets, octets-IsOctets}
use aether_gui.Masque.{
  AssignedAddress, encode_ip_datagram, decode_ip_datagram, parse_address_assign, quarter_stream_id,
  varint_len,
}
use aether_gui.Masque.Datagram.{decode-encode_ip_datagram}
use aether_gui.Masque.Addresses.{encode_all, parse_address_assign-encode_all}

abbrev packet : List ℕ
packet = 0x45 ∷ 0 ∷ 1 ∷ []

encode_run : encode_ip_datagram octets 400 packet ≡ ok (64 ∷ 100 ∷ 0 ∷ 0x45 ∷ 0 ∷ 1 ∷ [])
unfolding encode_ip_datagram quarter_stream_id varint_len
encode_run = refl

decode-encode_ip_datagram_example :
    (encode_ip_datagram octets 400 packet >>= λ framed. decode_ip_datagram octets framed 400)
    ≡ ok (some packet)
decode-encode_ip_datagram_example =
    decode-encode_ip_datagram octets octets-IsOctets 400 packet (omega arith)

abbrev given : List AssignedAddress
given =
    record { request_id = 1; ip_version = 4; address = 10 ∷ 0 ∷ 0 ∷ 2 ∷ []; prefix_len = 32 } ∷ []

parse_address_assign-encode_all_example :
    parse_address_assign octets (encode_all octets octets-IsOctets given) ≡ ok given
parse_address_assign-encode_all_example =
    parse_address_assign-encode_all octets octets-IsOctets given
      (record { request_id = omega arith; versioned = inl (refl, refl) }, tt)
