-- ===== src/Candidates/Sampling.antt =====
-- The sampling of a range of aether/src/prober.rs.
use aether_gui.Common.{
  leb-false, ℕ, suc, ◌+◌, ◌-◌, ◌%◌, ◌^◌, ◌≤◌, ◌<◌, ◌≡◌, sym, ap, subst, Option, List, [], ◌∷◌, map,
  arith, min, length, take, take-length_append, take-length, leb, ◌==◌, leb→le, le→leb, lt→leb,
  if_known,
}
use aether_gui.Common.Outcome.{ok}
use aether_gui.Common.Distinct.{insert_new, insert_all, insert_all-extends, length-insert_new}
use aether_gui.Candidates.{parse_cidr, host_at, sample_loop, range_size, sample_cidr_v4}

-- The offsets that the draws give, each once, in the order of the draws.
abbrev pub fresh_offsets : List ℕ → List ℕ → List ℕ
fresh_offsets draws chosen = insert_all ◌==◌ (map (λ draw. 1 + draw) draws) chosen

take-fresh_offsets :
    (draws chosen : List ℕ) → take (length chosen) (fresh_offsets draws chosen) ≡ chosen
take-fresh_offsets draws chosen =
    let (more, e) = insert_all-extends ◌==◌ (map (λ draw. 1 + draw) draws) chosen in
    rw e (take-length_append chosen more)

sample_loop-take :
    (base want : ℕ) (draws chosen : List ℕ)
    → length chosen ≤ want
    → want ≤ length (fresh_offsets draws chosen)
    → sample_loop base want draws chosen
      ≡ ok (map (host_at base) (take want (fresh_offsets draws chosen)))
unfolding sample_loop
sample_loop-take base want [] chosen le enough = rw (le→leb want (length chosen) enough) (
    ap (λ l. ok (map (host_at base) l))
      (sym (subst (λ n. take n chosen ≡ chosen) same_length (take-length chosen))))
  where
    same_length : length chosen ≡ want
    same_length = omega arith
sample_loop-take base want (draw ∷ draws) chosen le enough =
    if_known (λ r. r ≡ ok (map (host_at base) (take want (fresh_offsets (draw ∷ draws) chosen))))
      (leb want (length chosen)) _ _
      (λ full.
        ap (λ l. ok (map (host_at base) l))
          (sym (
            subst (λ n. take n (fresh_offsets (draw ∷ draws) chosen) ≡ chosen)
              (equal (leb→le want (length chosen) full))
              (take-fresh_offsets (draw ∷ draws) chosen))))
      (λ short.
        sample_loop-take base want draws (insert_new ◌==◌ (1 + draw) chosen)
          (below (leb-false _ _ short) (length-insert_new ◌==◌ (1 + draw) chosen)) enough)
  where
    equal : want ≤ length chosen → length chosen ≡ want
    equal h = omega arith

    below :
        length chosen < want
        → length (insert_new ◌==◌ (1 + draw) chosen) ≤ suc (length chosen)
        → length (insert_new ◌==◌ (1 + draw) chosen) ≤ want
    below h k = omega arith

-- A range with more than two addresses is sampled as far as it has room: when the draws hold that many
-- different values, the hosts are those of the first ones, each once, in the order of the draws.
pub sample_cidr_v4-take :
    (parse : List ℕ → Option ℕ) (n : ℕ) (draws cidr : List ℕ) (base bits : ℕ)
    → parse_cidr parse cidr ≡ ok (base, bits)
    → 2 < range_size (32 - bits)
    → min (n % 2 ^ 32) (range_size (32 - bits) - 2) ≤ length (fresh_offsets draws [])
    → sample_cidr_v4 parse n draws cidr
      ≡ ok (
          map
            (host_at base)
            (take (min (n % 2 ^ 32) (range_size (32 - bits) - 2)) (fresh_offsets draws [])))
unfolding sample_cidr_v4
sample_cidr_v4-take parse n draws cidr base bits e room enough = rw e (
    rw (lt→leb (range_size (32 - bits)) 2 room) (
      sample_loop-take base (min (n % 2 ^ 32) (range_size (32 - bits) - 2)) draws [] (omega arith)
        enough))
