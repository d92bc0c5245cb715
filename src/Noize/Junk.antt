-- ===== src/Noize/Junk.antt =====
-- The junk of aether/src/aethernoize.rs.
use aether_gui.Common.{
  ℕ, zero, suc, ◌+◌, ◌*◌, ◌%◌, ◌≤◌, ◌<◌, ◌≡◌, refl, ap, ◌⊎◌, inr, Bool, true, false, ◌&&◌, List, [],
  ◌∷◌, arith, max, length, All, leb, ◌==◌, if◌then◌else◌, if_both, if_known,
}
use aether_gui.Common.Outcome.{}
use aether_gui.Noize.{
  NoizeConfig, Rng, IsRng, is_enabled, empty_junk, junk_sizes, pick_size, junk_of_size,
  generate_junk, lift_first, keepalive_loop, send_keepalive_junk,
}

-- The first byte of a datagram is not one of the message types of WireGuard.
abbrev pub IsNoMessage : List ℕ → Type 0
IsNoMessage [] = Unit
IsNoMessage (b ∷ bs) = (b < 1) ⊎ (4 < b)

lift_first-IsNoMessage : (pkt : List ℕ) → IsNoMessage (lift_first pkt)
lift_first-IsNoMessage [] = tt
lift_first-IsNoMessage (b ∷ bs) =
    if_known IsNoMessage (leb 1 b && leb b 4) _ _ (λ e. inr (lifted e)) (λ e. other e)
  where
    lifted : leb 1 b && leb b 4 ≡ true → 4 < (b + 0x40) % 256
    lifted e = ground arith

    other : leb 1 b && leb b 4 ≡ false → (b < 1) ⊎ (4 < b)
    other e = ground arith

length-lift_first : (pkt : List ℕ) → length (lift_first pkt) ≡ length pkt
length-lift_first [] = refl
length-lift_first (b ∷ bs) =
    if_both (λ l. length l ≡ suc (length bs)) (leb 1 b && leb b 4) _ _ refl refl

-- At least one byte unless empty junk is allowed, and no more than the larger size.
abbrev pub Sized : NoizeConfig → List ℕ → Type 0
Sized cfg pkt =
    ((if cfg.allow_zero_size then 0 else 1) ≤ length pkt)
    × (length pkt ≤ max 1 (max cfg.jmin cfg.jmax))

module _ (rng : Rng) (laws : IsRng rng) where
  pick_size_bounds :
      (n lo hi : ℕ) → lo ≤ hi → (lo ≤ pick_size rng n (lo, hi)) × (pick_size rng n (lo, hi) ≤ hi)
  pick_size_bounds n lo hi le =
      if_both (λ size. (lo ≤ size) × (size ≤ hi)) (hi == lo) _ _ (omega arith, le)
        (laws.within n lo hi le)

  junk_of_size-Sized :
      (n : ℕ) (allow : Bool) (size top : ℕ)
      → size ≤ top
      → ((if allow then 0 else 1) ≤ length (junk_of_size rng n allow size))
        × (length (junk_of_size rng n allow size) ≤ max 1 top)
  junk_of_size-Sized n allow size top le =
      if_known (λ l. ((if allow then 0 else 1) ≤ length l) × (length l ≤ max 1 top)) (size == 0) _ _
        (λ _. empty allow)
        (λ e. (rw (laws.filled n size) (least allow e), rw (laws.filled n size) (grind arith)))
    where
      empty :
          (a : Bool)
          → ((if a then 0 else 1) ≤ length (empty_junk a)) × (length (empty_junk a) ≤ max 1 top)
      empty true = (omega arith, omega arith)
      empty false = (omega arith, grind arith)

      least : (a : Bool) → (size == 0) ≡ false → (if a then 0 else 1) ≤ size
      least true e = omega arith
      least false e = ground arith

  generate_junk-Sized : (n : ℕ) (cfg : NoizeConfig) → Sized cfg (generate_junk rng n cfg)
  unfolding generate_junk
  generate_junk-Sized n cfg =
      if_known (Sized cfg) (cfg.jmin == 0 && cfg.jmax == 0) _ _ (λ _. empty cfg.allow_zero_size)
        (λ e. sized cfg.allow_zero_size e)
    where
      empty :
          (a : Bool)
          → ((if a then 0 else 1) ≤ length (empty_junk a))
            × (length (empty_junk a) ≤ max 1 (max cfg.jmin cfg.jmax))
      empty true = (omega arith, omega arith)
      empty false = (omega arith, grind arith)

      under :
          (allow : Bool) (lo hi : ℕ)
          → lo ≤ hi
          → hi ≤ max 1 (max cfg.jmin cfg.jmax)
          → ((if allow then 0 else 1)
              ≤ length (junk_of_size rng n allow (pick_size rng n (lo, hi))))
            × (length (junk_of_size rng n allow (pick_size rng n (lo, hi)))
                ≤ max 1 (max cfg.jmin cfg.jmax))
      under allow lo hi le top =
          let bounds = pick_size_bounds n lo hi le in
          let (least, most) =
            junk_of_size-Sized n allow (pick_size rng n (lo, hi)) (pick_size rng n (lo, hi))
              (omega arith) in
          (least, grind arith)

      sized :
          (a : Bool)
          → (cfg.jmin == 0 && cfg.jmax == 0) ≡ false
          → ((if a then 0 else 1)
              ≤ length (junk_of_size rng n a (pick_size rng n (junk_sizes a cfg.jmin cfg.jmax))))
            × (length (junk_of_size rng n a (pick_size rng n (junk_sizes a cfg.jmin cfg.jmax)))
                ≤ max 1 (max cfg.jmin cfg.jmax))
      sized true e = under true cfg.jmin (max cfg.jmax cfg.jmin) (grind arith) (grind arith)
      sized false e =
          if_known
            (λ (sizes : ℕ × ℕ).
              (1 ≤ length (junk_of_size rng n false (pick_size rng n sizes)))
              × (length (junk_of_size rng n false (pick_size rng n sizes))
                  ≤ max 1 (max cfg.jmin cfg.jmax)))
            (cfg.jmax == 0) _ _
            (λ _. under false (max cfg.jmin 1) (max cfg.jmin 1) (omega arith) (grind arith))
            (λ h. under false (max cfg.jmin 1) (max cfg.jmax cfg.jmin) (ground arith) (grind arith))

  keepalive_loop-All :
      (cfg : NoizeConfig) (count n : ℕ)
      → All (λ pkt. IsNoMessage pkt × Sized cfg pkt) (keepalive_loop rng cfg count n)
  unfolding keepalive_loop
  keepalive_loop-All cfg zero n = tt
  keepalive_loop-All cfg (suc count) n = (
    (
      lift_first-IsNoMessage (generate_junk rng n cfg),
      rw (length-lift_first (generate_junk rng n cfg)) (generate_junk-Sized n cfg),
    ),
    keepalive_loop-All cfg count (suc n),
  )

  length-keepalive_loop :
      (cfg : NoizeConfig) (count n : ℕ) → length (keepalive_loop rng cfg count n) ≡ count
  unfolding keepalive_loop
  length-keepalive_loop cfg zero n = refl
  length-keepalive_loop cfg (suc count) n = ap suc (length-keepalive_loop cfg count (suc n))

  -- With the junk on, a keepalive sends at least max(jc_before_hs, 1) datagrams and at most twice as
  -- many, none of them begins like a message of WireGuard, and each has a byte at least, unless empty
  -- junk is allowed, and no more than the larger of the two sizes; with the junk off it sends nothing.
  pub send_keepalive_junk-All :
      (cfg : NoizeConfig)
      → if is_enabled cfg
        then (max cfg.jc_before_hs 1 ≤ length (send_keepalive_junk rng cfg))
          × (length (send_keepalive_junk rng cfg) ≤ 2 * max cfg.jc_before_hs 1)
          × All (λ pkt. IsNoMessage pkt × Sized cfg pkt) (send_keepalive_junk rng cfg)
        else (send_keepalive_junk rng cfg ≡ [])
  unfolding send_keepalive_junk
  send_keepalive_junk-All cfg = by_cases (is_enabled cfg)
    where
      base : ℕ
      base = max cfg.jc_before_hs 1

      sent : Bool → List (List ℕ)
      sent on = if on then keepalive_loop rng cfg (base + rng.gen_range 0 0 base) 1 else []

      by_cases :
          (on : Bool)
          → if on
            then (base ≤ length (sent on))
              × (length (sent on) ≤ 2 * base)
              × All (λ pkt. IsNoMessage pkt × Sized cfg pkt) (sent on)
            else (sent on ≡ [])
      by_cases true =
          let bounds = laws.within 0 0 base (omega arith) in
          let count = length-keepalive_loop cfg (base + rng.gen_range 0 0 base) 1 in
          (
            rw count (omega arith),
            rw count (omega arith),
            keepalive_loop-All cfg (base + rng.gen_range 0 0 base) 1,
          )
      by_cases false = refl
