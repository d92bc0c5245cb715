-- ===== src/Noize.antt =====
-- The junk datagrams of aether/src/aethernoize.rs, and its IKEv2 wrapping.
pub mod Junk
pub mod Ikev2
mod Tests
use aether_gui.Common.{
  ℕ, zero, suc, ◌+◌, ◌-◌, ◌*◌, ◌/◌, ◌%◌, ◌^◌, ◌≤◌, ◌<◌, ◌≡◌, refl, sym, ap, ◌∙◌, subst, ◌≢◌, ◌↔◌,
  ◌⊎◌, inl, inr, Bool, true, false, ◌&&◌, ◌||◌, not, Option, none, some, List, [], ◌∷◌, ◌++◌, map,
  append-nil, append_assoc, arith, bit_and, bit_or, min, max, length, get_elem?, take, drop,
  replicate, All, length-append, length-take, length-drop, take-append-drop, drop-nil, drop-add,
  drop-length_append, take-length_append, take-length, drop-length, take-append_le, drop-append_le,
  get_elem?-add, get_elem?-lt, get_elem?-drop, get_elem?-drop_zero, drop-step, get_elem?-All,
  All-append, ltb, leb, ◌==◌, if◌then◌else◌, ltb→lt, lt→ltb, le→ltb, ltb→le, leb→le, le→leb, lt→leb,
  if_both, if_known, ==_iff, ==_refl, Bool-cases, Option-cases,
}
use aether_gui.Common.Outcome.{
  Outcome, ok, err, panic, stuck, Absent, absent, ◌>>=◌, ◌>>◌, guard, of_index, or_err, index,
  checked_add, Ensures, Ensures-bind, Ensures-weaken, Ensures-if, get_elem?-some, index-Ensures,
  index-Ensures-All, guard-Ensures,
}
use aether_gui.Common.Bytes.{IsByte, IsBytes, u16_be, be16, be32}

-- The fields of `AetherNoizeConfig` that the junk depends on.
pub record NoizeConfig : Type 0 where
  pub i1 : Option (List ℕ)
  pub jc : ℕ
  pub jc_before_hs : ℕ
  pub jc_after_hs : ℕ
  pub jmin : ℕ
  pub jmax : ℕ
  pub allow_zero_size : Bool

-- The crate `rand`: the n-th call of `gen_range(lo..=hi)`, and of `fill_bytes` on so many bytes.
pub record Rng : Type 0 where
  pub gen_range : ℕ → ℕ → ℕ → ℕ
  pub fill_bytes : ℕ → ℕ → List ℕ

pub record IsRng (rng : Rng) : Type 0 where
  pub within : (n lo hi : ℕ) → lo ≤ hi → (lo ≤ rng.gen_range n lo hi) × (rng.gen_range n lo hi ≤ hi)
  pub filled : (n size : ℕ) → length (rng.fill_bytes n size) ≡ size

abbrev pub is_some {ℓ} : {A : Type ℓ} → Option A → Bool
is_some none = false
is_some (some a) = true

unfoldable pub is_enabled : NoizeConfig → Bool
is_enabled cfg = ltb 0 cfg.jc || is_some cfg.i1

-- What junk of no size is.
abbrev pub empty_junk : Bool → List ℕ
empty_junk allow = if allow then [] else 0 ∷ []

-- The last three arms of the match on the sizes.
abbrev pub junk_sizes : Bool → ℕ → ℕ → ℕ × ℕ
junk_sizes true lo hi = (lo, max hi lo)
junk_sizes false lo hi = if hi == 0 then (max lo 1, max lo 1) else (max lo 1, max hi lo)

abbrev pub pick_size : Rng → ℕ → ℕ × ℕ → ℕ
pick_size rng n sizes = if sizes.1 == sizes.0 then sizes.0 else rng.gen_range n sizes.0 sizes.1

abbrev pub junk_of_size : Rng → ℕ → Bool → ℕ → List ℕ
junk_of_size rng n allow size = if size == 0 then empty_junk allow else rng.fill_bytes n size

unfoldable pub generate_junk : Rng → ℕ → NoizeConfig → List ℕ
generate_junk rng n cfg =
    if cfg.jmin == 0 && cfg.jmax == 0
    then empty_junk cfg.allow_zero_size
    else junk_of_size rng n cfg.allow_zero_size
        (pick_size rng n (junk_sizes cfg.allow_zero_size cfg.jmin cfg.jmax))

-- `if *first >= 1 && *first <= 4 { *first = first.wrapping_add(0x40) }`
abbrev pub lift_first : List ℕ → List ℕ
lift_first [] = []
lift_first (b ∷ bs) = if leb 1 b && leb b 4 then (b + 0x40) % 256 ∷ bs else b ∷ bs

-- The loops that send: the datagrams handed to the socket, whose answer is not looked at.
unfoldable pub keepalive_loop : Rng → NoizeConfig → ℕ → ℕ → List (List ℕ)
unfolding generate_junk
keepalive_loop rng cfg zero n = []
keepalive_loop rng cfg (suc count) n =
    lift_first (generate_junk rng n cfg) ∷ keepalive_loop rng cfg count (suc n)

unfoldable pub send_keepalive_junk : Rng → NoizeConfig → List (List ℕ)
unfolding is_enabled
send_keepalive_junk rng cfg =
    let base = max cfg.jc_before_hs 1 in
    if is_enabled cfg then keepalive_loop rng cfg (base + rng.gen_range 0 0 base) 1 else []

unfoldable pub post_handshake_loop : Rng → NoizeConfig → ℕ → ℕ → List (List ℕ)
unfolding generate_junk
post_handshake_loop rng cfg zero n = []
post_handshake_loop rng cfg (suc count) n =
    generate_junk rng n cfg ∷ post_handshake_loop rng cfg count (suc n)

unfoldable pub send_post_handshake_junk : Rng → NoizeConfig → List (List ℕ)
send_post_handshake_junk rng cfg = post_handshake_loop rng cfg cfg.jc_after_hs 0

abbrev pub be32_bytes : ℕ → List ℕ
be32_bytes n = n / 2 ^ 24 % 256 ∷ n / 2 ^ 16 % 256 ∷ n / 2 ^ 8 % 256 ∷ n % 256 ∷ []

abbrev pub be16_bytes : ℕ → List ℕ
be16_bytes n = n / 2 ^ 8 % 256 ∷ n % 256 ∷ []

abbrev pub initiator_spi : Rng → List ℕ → List ℕ
initiator_spi rng payload = if leb 8 (length payload) then take 8 payload else rng.fill_bytes 0 8

-- What the header holds behind the two SPIs, and the payload. The sums are of 32 and of 16 bits, and
-- wrap.
abbrev pub ikev2_tail : List ℕ → List ℕ
ikev2_tail payload =
    (0x21 ∷ 0x20 ∷ 0x22 ∷ 0x08 ∷ 0 ∷ 0 ∷ 0 ∷ 0 ∷ [])
    ++ be32_bytes ((28 + 24 + length payload) % 2 ^ 32)
    ++ (0 ∷ 0 ∷ [])
    ++ be16_bytes ((24 + length payload) % 2 ^ 16)
    ++ (0 ∷ 0 ∷ 0 ∷ 0x14 ∷ 1 ∷ 1 ∷ 0 ∷ 4 ∷ 3 ∷ 0 ∷ 0 ∷ 8 ∷ 1 ∷ 0 ∷ 0 ∷ 0x0c ∷ 0 ∷ 0 ∷ 0 ∷ 0 ∷ [])
    ++ payload

unfoldable pub wrap_ikev2 : Rng → List ℕ → List ℕ
wrap_ikev2 rng [] = []
wrap_ikev2 rng (b ∷ bs) = initiator_spi rng (b ∷ bs) ++ (rng.fill_bytes 1 8 ++ ikev2_tail (b ∷ bs))
