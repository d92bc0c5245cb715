-- ===== src/Octets/Wire.antt =====
-- Variable-length integers as RFC 9000 writes them: an instance of `Octets` that runs, for the tests.
use aether_gui.Common.{
  ℕ, zero, suc, ◌+◌, ◌*◌, ◌/◌, ◌%◌, ◌^◌, ◌<◌, ◌≡◌, refl, ap, Option, none, some, List, [], ◌∷◌,
  ◌++◌, arith, length, take, drop, ltb, leb, if◌then◌else◌,
}
use aether_gui.Common.Outcome.{}
use aether_gui.Octets.{Reader, Octets, IsOctets, IsVarint, append_bytes}

-- The two top bits of the first byte say how many bytes follow: 0, 1, 3 or 7.
abbrev extra : ℕ → ℕ
extra zero = 0
extra (suc zero) = 1
extra (suc (suc zero)) = 3
extra (suc (suc (suc n))) = 7

abbrev take_be : ℕ → ℕ → Reader → Option (ℕ × Reader)
take_be zero acc r = some (acc, r)
take_be (suc n) acc [] = none
take_be (suc n) acc (b ∷ r) = take_be n (acc * 256 + b) r

abbrev get_wire : Reader → Option (ℕ × Reader)
get_wire [] = none
get_wire (b ∷ r) = take_be (extra (b / 64)) (b % 64) r

abbrev four : ℕ → List ℕ → List ℕ
four v rest = (v / 16777216 % 256) ∷ (v / 65536 % 256) ∷ (v / 256 % 256) ∷ (v % 256) ∷ rest

abbrev wire : ℕ → List ℕ
wire v =
    if ltb v 64
    then v ∷ []
    else if ltb v 16384
    then (64 + v / 256) ∷ (v % 256) ∷ []
    else if ltb v 1073741824
    then (128 + v / 16777216) ∷ (v / 65536 % 256) ∷ (v / 256 % 256) ∷ (v % 256) ∷ []
    else (192 + v / 2 ^ 56)
      ∷ (v / 2 ^ 48 % 256)
      ∷ (v / 2 ^ 40 % 256)
      ∷ (v / 2 ^ 32 % 256)
      ∷ four v []

abbrev uncons : Reader → Option (ℕ × Reader)
uncons [] = none
uncons (b ∷ r) = some (b, r)

abbrev pub octets : Octets
octets = record {
  get_varint = get_wire;
  get_u8 = uncons;
  get_bytes = λ n r. if leb n (length r) then some (take n r, drop n r) else none;
  put_varint = λ v w. append_bytes (wire v) w;
  put_u8 = λ b w. append_bytes (b ∷ []) w;
  put_bytes = append_bytes;
}

take_be_front :
    (n acc : ℕ) (r : Reader) (v : ℕ) (rest : Reader)
    → take_be n acc r ≡ some (v, rest)
    → (front : List ℕ) × (r ≡ front ++ rest)
take_be_front zero acc r v rest e = ([], cc)
take_be_front (suc n) acc [] v rest e = cc
take_be_front (suc n) acc (b ∷ r) v rest e =
    let (front, split) = take_be_front n (acc * 256 + b) r v rest e in
    (b ∷ front, ap (λ l. b ∷ l) split)

take_be-append :
    (n acc : ℕ) (r more : Reader) (v : ℕ) (rest : Reader)
    → take_be n acc r ≡ some (v, rest)
    → take_be n acc (r ++ more) ≡ some (v, rest ++ more)
take_be-append zero acc r more v rest e = cc
take_be-append (suc n) acc [] more v rest e = cc
take_be-append (suc n) acc (b ∷ r) more v rest e = take_be-append n (acc * 256 + b) r more v rest e

pub get_wire_front :
    (r : Reader) (v : ℕ) (rest : Reader)
    → get_wire r ≡ some (v, rest)
    → (front : List ℕ) × (r ≡ front ++ rest) × (0 < length front)
get_wire_front [] v rest e = cc
get_wire_front (b ∷ r) v rest e =
    let (front, split) = take_be_front (extra (b / 64)) (b % 64) r v rest e in
    (b ∷ front, ap (λ l. b ∷ l) split, omega arith)

pub get_wire-append :
    (r more : Reader) (v : ℕ) (rest : Reader)
    → get_wire r ≡ some (v, rest)
    → get_wire (r ++ more) ≡ some (v, rest ++ more)
get_wire-append [] more v rest e = cc
get_wire-append (b ∷ r) more v rest e = take_be-append (extra (b / 64)) (b % 64) r more v rest e

pub get_wire-wire :
    (v : ℕ) (rest : Reader) → IsVarint v → get_wire (wire v ++ rest) ≡ some (v, rest)
get_wire-wire v rest h = ground arith

abbrev pub octets-IsOctets : IsOctets octets
octets-IsOctets = record {
  varint = wire;
  length-varint_one = λ v h. ground arith;
  length-varint_two = λ v h k. ground arith;
  length-varint_four = λ v h k. ground arith;
  length-varint_eight = λ v h k. ground arith;
  put_varint = λ v w h. refl;
  get-varint = get_wire-wire;
  get_varint_front = get_wire_front;
  get_varint-append = get_wire-append;
  get_u8_nil = refl;
  get_u8_cons = λ b rest. refl;
  get_bytes_lem = λ n r. refl;
  put_u8_lem = λ b w. refl;
  put_bytes_lem = λ bs w. refl;
}
