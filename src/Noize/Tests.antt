-- ===== src/Noize/Tests.antt =====
-- The theorems on aether/src/aethernoize.rs at concrete inputs.
use aether_gui.Common.{
  ℕ, zero, suc, ◌≤◌, ◌≡◌, refl, ap, false, none, [], ◌∷◌, arith, length, take, drop, replicate, All,
}
use aether_gui.Common.Outcome.{}
use aether_gui.Noize.{
  NoizeConfig, Rng, IsRng, is_enabled, send_keepalive_junk, be32_bytes, wrap_ikev2,
}
use aether_gui.Noize.Junk.{IsNoMessage, Sized, send_keepalive_junk-All}
use aether_gui.Noize.Ikev2.{wrap_ikev2-layout}

-- A generator that gives the upper end, and the byte 3.
abbrev highest : Rng
highest = record { gen_range = λ n lo hi. hi; fill_bytes = λ n size. replicate size 3 }

length-replicate : (n : ℕ) → length {A = ℕ} (replicate n 3) ≡ n
length-replicate zero = refl
length-replicate (suc n) = ap suc (length-replicate n)

highest-IsRng : IsRng highest
highest-IsRng = record {
  within = λ n lo hi le. (le, omega arith);
  filled = λ n size. length-replicate size;
}

abbrev light : NoizeConfig
light = record {
  i1 = none;
  jc = 4;
  jc_before_hs = 2;
  jc_after_hs = 1;
  jmin = 48;
  jmax = 190;
  allow_zero_size = false;
}

send_keepalive_junk-All_example :
    (2 ≤ length (send_keepalive_junk highest light))
    × (length (send_keepalive_junk highest light) ≤ 4)
    × All (λ pkt. IsNoMessage pkt × Sized light pkt) (send_keepalive_junk highest light)
unfolding is_enabled
send_keepalive_junk-All_example = send_keepalive_junk-All highest highest-IsRng light

wrap_ikev2-layout_example :
    (length (wrap_ikev2 highest (1 ∷ 2 ∷ 3 ∷ [])) ≡ 55)
    × (take 4 (drop 24 (wrap_ikev2 highest (1 ∷ 2 ∷ 3 ∷ [])))
        ≡ be32_bytes (length (wrap_ikev2 highest (1 ∷ 2 ∷ 3 ∷ []))))
    × (drop 52 (wrap_ikev2 highest (1 ∷ 2 ∷ 3 ∷ [])) ≡ 1 ∷ 2 ∷ 3 ∷ [])
wrap_ikev2-layout_example =
    wrap_ikev2-layout highest highest-IsRng (1 ∷ 2 ∷ 3 ∷ []) (omega arith) (omega arith)
