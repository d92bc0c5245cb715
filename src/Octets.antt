-- ===== src/Octets.antt =====
-- What the program uses of the crate `octets`, which it does not contain: a reader and a writer over a
-- byte buffer, and variable-length integers (RFC 9000, section 16). The operations are an argument of
-- every definition that calls them; `IsOctets` states the documented behaviour.
pub mod Wire
use aether_gui.Common.{
  ℕ, zero, suc, ◌+◌, ◌-◌, ◌*◌, ◌/◌, ◌%◌, ◌^◌, ◌≤◌, ◌<◌, ◌≡◌, refl, sym, ap, ◌∙◌, subst, ◌≢◌, ◌↔◌,
  ◌⊎◌, inl, inr, Bool, true, false, ◌&&◌, ◌||◌, not, Option, none, some, List, [], ◌∷◌, ◌++◌, map,
  append-nil, append_assoc, arith, bit_and, min, max, length, get_elem?, take, drop, replicate, All,
  length-append, length-take, length-drop, take-append-drop, drop-nil, drop-add, drop-length_append,
  take-length_append, get_elem?-add, get_elem?-lt, get_elem?-drop, get_elem?-drop_zero, drop-step,
  get_elem?-All, All-append, ltb, leb, ◌==◌, if◌then◌else◌, ltb→lt, lt→ltb, le→ltb, ltb→le, leb→le,
  le→leb, lt→leb, ==_iff, ==_refl, Bool-cases, Option-cases,
}
use aether_gui.Common.Outcome.{
  Outcome, ok, err, panic, stuck, Absent, absent, ◌>>=◌, ◌>>◌, guard, of_index, or_err, index,
  checked_add, Ensures, Ensures-bind, get_elem?-some, index-Ensures, index-Ensures-All,
  guard-Ensures,
}
use aether_gui.Common.Bytes.{IsByte, IsBytes, u16_be, be16, be32}

-- An `Octets` is the part of its slice that is not read yet: `cap()` is its length.
abbrev pub Reader : Type 0
Reader = List ℕ

-- An `OctetsMut` over a zeroed buffer: what is written, and how many bytes are left behind it.
pub record Writer : Type 0 where
  pub written : List ℕ
  pub room : ℕ

-- `OctetsMut::with_slice(&mut vec![0u8; cap])`, and the buffer when the writer is dropped.
abbrev pub with_capacity : ℕ → Writer
with_capacity cap = record { written = []; room = cap }

abbrev pub contents : Writer → List ℕ
contents w = w.written ++ replicate w.room 0

-- `None` is `BufferTooShortError`.
pub record Octets : Type 0 where
  pub get_varint : Reader → Option (ℕ × Reader)
  pub get_u8 : Reader → Option (ℕ × Reader)
  pub get_bytes : ℕ → Reader → Option (List ℕ × Reader)
  pub put_varint : ℕ → Writer → Option Writer
  pub put_u8 : ℕ → Writer → Option Writer
  pub put_bytes : List ℕ → Writer → Option Writer

-- The largest variable-length integer is 2 ^ 62 - 1.
abbrev pub IsVarint : ℕ → Type 0
IsVarint v = v < 2 ^ 62

-- Writing some bytes, if there is room.
abbrev pub append_bytes : List ℕ → Writer → Option Writer
append_bytes bs w =
    if leb (length bs) w.room
    then some (record { written = w.written ++ bs; room = w.room - length bs })
    else none

pub record IsOctets (o : Octets) : Type 0 where
  pub varint : ℕ → List ℕ
  pub length-varint_one : (v : ℕ) → v < 2 ^ 6 → length (varint v) ≡ 1
  pub length-varint_two : (v : ℕ) → 2 ^ 6 ≤ v → v < 2 ^ 14 → length (varint v) ≡ 2
  pub length-varint_four : (v : ℕ) → 2 ^ 14 ≤ v → v < 2 ^ 30 → length (varint v) ≡ 4
  pub length-varint_eight : (v : ℕ) → 2 ^ 30 ≤ v → IsVarint v → length (varint v) ≡ 8
  pub put_varint : (v : ℕ) (w : Writer) → IsVarint v → o.put_varint v w ≡ append_bytes (varint v) w
  pub get-varint :
      (v : ℕ) (rest : Reader) → IsVarint v → o.get_varint (varint v ++ rest) ≡ some (v, rest)
  -- a successful read takes some bytes off the front, and does not look at what follows
  pub get_varint_front :
      (r : Reader) (v : ℕ) (rest : Reader)
      → o.get_varint r ≡ some (v, rest)
      → (front : List ℕ) × (r ≡ front ++ rest) × (0 < length front)
  pub get_varint-append :
      (r more : Reader) (v : ℕ) (rest : Reader)
      → o.get_varint r ≡ some (v, rest)
      → o.get_varint (r ++ more) ≡ some (v, rest ++ more)
  pub get_u8_nil : o.get_u8 [] ≡ none
  pub get_u8_cons : (b : ℕ) (rest : Reader) → o.get_u8 (b ∷ rest) ≡ some (b, rest)
  pub get_bytes_lem :
      (n : ℕ) (r : Reader)
      → o.get_bytes n r ≡ (if leb n (length r) then some (take n r, drop n r) else none)
  pub put_u8_lem : (b : ℕ) (w : Writer) → o.put_u8 b w ≡ append_bytes (b ∷ []) w
  pub put_bytes_lem : (bs : List ℕ) (w : Writer) → o.put_bytes bs w ≡ append_bytes bs w
