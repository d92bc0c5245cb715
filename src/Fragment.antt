-- ===== src/Fragment.antt =====
-- The write fragmentation of aether/src/fragment.rs: its configuration from the environment, the sizes
-- and delays it picks, and poll_write. Text is a list of code points.
pub mod Bounds
pub mod Stream
mod Tests
use aether_gui.Common.{
  ℕ, zero, suc, ◌+◌, ◌-◌, ◌*◌, ◌/◌, ◌%◌, ◌^◌, ◌≤◌, ◌<◌, ◌≡◌, refl, sym, ap, ◌∙◌, subst, ◌≢◌, ◌↔◌,
  ◌⊎◌, inl, inr, Bool, true, false, ◌&&◌, ◌||◌, not, Option, none, some, List, [], ◌∷◌, ◌++◌, map,
  append-nil, append_assoc, arith, bit_and, min, max, length, get_elem?, take, drop, replicate, All,
  length-append, length-take, length-drop, take-append-drop, drop-nil, drop-add, drop-length_append,
  take-length_append, take-length, drop-length, take-append_le, drop-append_le, get_elem?-add,
  get_elem?-lt, get_elem?-drop, get_elem?-drop_zero, drop-step, get_elem?-All, All-append, ltb, leb,
  ◌==◌, if◌then◌else◌, ltb→lt, lt→ltb, le→ltb, ltb→le, leb→le, le→leb, lt→leb, ==_iff, ==_refl,
  Bool-cases, Option-cases,
}
use aether_gui.Common.Text.{trim, parse_uint, unwrap_or, split_once, is_empty, same, lower}
use aether_gui.Common.Outcome.{
  Outcome, ok, err, panic, stuck, Absent, absent, ◌>>=◌, ◌>>◌, guard, of_index, or_err, index,
  checked_add, Ensures, Ensures-bind, Ensures-weaken, get_elem?-some, index-Ensures,
  index-Ensures-All, guard-Ensures,
}
use aether_gui.Common.Bytes.{IsByte, IsBytes, u16_be, be16, be32}

pub ordered : ℕ → ℕ → ℕ × ℕ
ordered lo hi = if ltb hi lo then (hi, lo) else (lo, hi)

-- The match on `spec.split_once('-')`.
pub range_of : ℕ × ℕ → List ℕ → Option (List ℕ × List ℕ) → ℕ × ℕ
unfolding ordered
range_of default spec (some (a, b)) =
    ordered (unwrap_or (parse_uint (2 ^ 64) (trim a)) default.0)
      (unwrap_or (parse_uint (2 ^ 64) (trim b)) default.1)
range_of default spec none = let v = unwrap_or (parse_uint (2 ^ 64) spec) default.0 in (v, v)

pub parse_range : List ℕ → ℕ × ℕ → ℕ × ℕ
parse_range spec default =
    let s = trim spec in if is_empty s then default else range_of default s (split_once 45 [] s)

-- `to_lowercase` is that of ASCII here: no code point beyond ASCII becomes a letter of these words.
-- "1", "true", "yes" and "on".
pub is_truthy : List ℕ → Bool
is_truthy v =
    let s = map lower (trim v) in
    same s (49 ∷ [])
    || same s (116 ∷ 114 ∷ 117 ∷ 101 ∷ [])
    || same s (121 ∷ 101 ∷ 115 ∷ [])
    || same s (111 ∷ 110 ∷ [])

pub record FragmentConfig : Type 0 where
  pub enabled : Bool
  pub size_min : ℕ
  pub size_max : ℕ
  pub delay_min_ms : ℕ
  pub delay_max_ms : ℕ

pub disabled : FragmentConfig
disabled = record {
  enabled = false;
  size_min = 1;
  size_max = 1;
  delay_min_ms = 0;
  delay_max_ms = 0;
}

abbrev enabled_by : Option (List ℕ) → Bool
enabled_by none = false
enabled_by (some v) = is_truthy v

-- The three variables are arguments, `none` where `std::env::var` fails.
pub from_env : Option (List ℕ) → Option (List ℕ) → Option (List ℕ) → FragmentConfig
from_env flag size delay =
    let sizes = parse_range (unwrap_or size []) (16, 32) in
    let delays = parse_range (unwrap_or delay []) (2, 10) in
    let size_min = max sizes.0 1 in
    record {
      enabled = enabled_by flag;
      size_min = size_min;
      size_max = max sizes.1 size_min;
      delay_min_ms = delays.0;
      delay_max_ms = max delays.1 delays.0;
    }

-- `gen` is `gen_range(lo..=hi)` of the crate rand.
pub pick_chunk_len : (ℕ → ℕ → ℕ) → FragmentConfig → ℕ → ℕ
pick_chunk_len gen cfg remaining =
    let hi = min (max cfg.size_max 1) remaining in
    let lo = min (max cfg.size_min 1) hi in if leb hi lo then hi else gen lo hi

pub pick_delay : (ℕ → ℕ → ℕ) → FragmentConfig → ℕ
pick_delay gen cfg =
    if cfg.delay_max_ms == 0
    then 0
    else if leb cfg.delay_max_ms cfg.delay_min_ms
    then cfg.delay_min_ms
    else gen cfg.delay_min_ms cfg.delay_max_ms

-- `Poll<io::Result<usize>>`, with the error left out.
pub data Poll : Type 0 where
  pending : Poll
  written : ℕ → Poll
  failed : Poll

-- The stream without `inner`, whose answers are arguments; the pending sleep is its length.
pub record FragmentingStream : Type 0 where
  pub cfg : FragmentConfig
  pub fragmenting : Bool
  pub pending_delay : Option ℕ

pub new : FragmentConfig → FragmentingStream
new cfg = record { cfg = cfg; fragmenting = cfg.enabled; pending_delay = none }

-- `poll_read`: the state after it.
pub poll_read : FragmentingStream → FragmentingStream
poll_read s = record s { fragmenting = false }

-- What a poll does: the bytes that `inner.poll_write` is offered (`none` when it is not called), the
-- answer, and the state.
pub record Polled : Type 0 where
  pub offered : Option (List ℕ)
  pub answer : Poll
  pub state : FragmentingStream

-- The delay after a write of `n` bytes.
pub delay_after : (ℕ → ℕ → ℕ) → FragmentConfig → Option ℕ → Poll → Option ℕ
unfolding pick_delay
delay_after gen cfg before pending = before
delay_after gen cfg before failed = before
delay_after gen cfg before (written n) =
    if ltb 0 n
    then (let delay = pick_delay gen cfg in if ltb 0 delay then some delay else before)
    else before

abbrev pub waits : Option ℕ → Bool → Bool
waits none elapsed = false
waits (some delay) elapsed = not elapsed

-- `elapsed` says whether the pending sleep is over, and `inner` is the stream's own poll_write.
pub poll_write :
    (ℕ → ℕ → ℕ) → Bool → (List ℕ → Poll) → List ℕ → FragmentingStream → Outcome Absent Polled
poll_write gen elapsed inner buf s =
    let chunk_len = pick_chunk_len gen s.cfg (length buf) in
    let chunk = take chunk_len buf in
    if is_empty buf || not s.fragmenting
    then ok (record { offered = some buf; answer = inner buf; state = s })
    else if waits s.pending_delay elapsed
    then ok (record { offered = none; answer = pending; state = s })
    else if ltb (length buf) chunk_len
    then panic
    else ok (record {
      offered = some chunk;
      answer = inner chunk;
      state = record s { pending_delay = delay_after gen s.cfg none (inner chunk) };
    })
