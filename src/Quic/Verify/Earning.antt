-- ===== src/Quic/Verify/Earning.antt =====
-- What a stretch of the loop of `verify_masque` of aether/src/quic.rs earns: a grant of the request and
-- packets of its stream, as they stand in the answers of quiche.
use aether_gui.Common.{
  ℕ, ◌+◌, ◌≤◌, ◌≡◌, refl, subst, Bool, true, false, ◌||◌, Option, none, some, List, [], ◌∷◌, arith,
  ◌==◌, if◌then◌else◌,
}
use aether_gui.Common.Outcome.{Outcome, ok, err, panic, stuck}
use aether_gui.Error.{AetherError}
use aether_gui.Octets.{Octets}
use aether_gui.Common.Text.{same}
use aether_gui.H2.{data_probe_required_successes}
use aether_gui.Quic.Connection.{packet_of}
use aether_gui.Quic.Verify.{
  VerifyPoll, statuses, other_event, poll_error, VerifyRound, Check, CheckNext, proceed, answer,
  and_check, status_ok,
}

-- A 200 among the statuses, and among the answers on the stream.
abbrev pub any_ok : List (List ℕ) → Bool
any_ok [] = false
any_ok (value ∷ values) = same value status_ok || any_ok values

abbrev pub granted : ℕ → List VerifyPoll → Bool
granted sid [] = false
granted sid (statuses stream_id values ∷ polls) =
    (if stream_id == sid then any_ok values else false) || granted sid polls
granted sid (other_event ∷ polls) = granted sid polls
granted sid (poll_error ∷ polls) = false

abbrev pub one_if : Option (List ℕ) → ℕ
one_if none = 0
one_if (some pkt) = 1

abbrev pub granted_in : ℕ → List VerifyRound → Bool
granted_in sid [] = false
granted_in sid (r ∷ rounds) = granted sid r.polls || granted_in sid rounds

module _ (o : Octets) where
  -- The packets of the stream among the answers of `dgram_recv`.
  abbrev pub packets_in : ℕ → List (Option (List ℕ)) → ℕ
  packets_in sid [] = 0
  packets_in sid (none ∷ answers) = 0
  packets_in sid (some bytes ∷ answers) = one_if (packet_of o sid bytes) + packets_in sid answers

  abbrev pub packets_of : ℕ → List VerifyRound → ℕ
  packets_of sid [] = 0
  packets_of sid (r ∷ rounds) = packets_in sid r.datagrams + packets_of sid rounds

pub or_left : (a b : Bool) → a ≡ true → a || b ≡ true
or_left a b e = rw e

pub or_right : (a b : Bool) → b ≡ true → a || b ≡ true
or_right true b e = refl
or_right false b e = e

pub or_widen : (a b c : Bool) → a || b ≡ true → a || (b || c) ≡ true
or_widen true b c e = refl
or_widen false true c e = refl
or_widen false false c e = cc

pub or_chain :
    (a b c d : Bool) → (if d then a || b ≡ true else Unit) → d || c ≡ true → a || (b || c) ≡ true
or_chain a b c true h e = or_widen a b c h
or_chain a b true false h e = or_right a (b || true) (or_right b true refl)
or_chain a b false false h e = cc

pub if_of : (b : Bool) (A : Type 0) → A → if b then A else Unit
if_of true A a = a
if_of false A a = tt

module _ (data_check : Bool) (sid : ℕ) where
  abbrev pub Open : Check → Type 0
  Open s = (s.req_stream ≡ some sid) × (s.h3_conn ≡ true)

  -- What an answer owes to the state before, a grant and so many packets.
  abbrev pub Earned : Check → Bool → ℕ → Outcome AetherError ℕ → Type 0
  Earned s g n (ok elapsed) =
      (s.connect_ip_ok || g ≡ true)
      × (if data_check then data_probe_required_successes ≤ s.probe_successes + n else Unit)
  Earned s g n (err e) = Unit
  Earned s g n panic = ⊥
  Earned s g n stuck = ⊥

  abbrev pub Earns : Check → Bool → ℕ → CheckNext → Type 0
  Earns s g n (proceed s') =
      Open s'
      × (if s'.connect_ip_ok then s.connect_ip_ok || g ≡ true else Unit)
      × (s'.probe_successes ≤ s.probe_successes + n)
  Earns s g n (answer out s') = Earned s g n out

  pub Earned-later :
      (s s' : Check) (g g' : Bool) (n n' : ℕ) (out : Outcome AetherError ℕ)
      → Earns s g n (proceed s')
      → Earned s' g' n' out
      → Earned s (g || g') (n + n') out
  Earned-later s s' g g' n n' (ok elapsed) (open_, granted, counted) (h, k) =
      (or_chain s.connect_ip_ok g g' s'.connect_ip_ok granted h, more data_check k)
    where
      more :
          (check : Bool)
          → (if check then data_probe_required_successes ≤ s'.probe_successes + n' else Unit)
          → if check then data_probe_required_successes ≤ s.probe_successes + (n + n') else Unit
      more true k' = omega arith
      more false k' = tt
  Earned-later s s' g g' n n' (err e) h k = tt
  Earned-later s s' g g' n n' panic h k = absurd k
  Earned-later s s' g g' n n' stuck h k = absurd k

  pub Earned-now :
      (s : Check) (g g' : Bool) (n n' : ℕ) (out : Outcome AetherError ℕ)
      → Earned s g n out
      → Earned s (g || g') (n + n') out
  Earned-now s g g' n n' (ok elapsed) (h, k) = (or_widen s.connect_ip_ok g g' h, more data_check k)
    where
      more :
          (check : Bool)
          → (if check then data_probe_required_successes ≤ s.probe_successes + n else Unit)
          → if check then data_probe_required_successes ≤ s.probe_successes + (n + n') else Unit
      more true k' = omega arith
      more false k' = tt
  Earned-now s g g' n n' (err e) h = tt
  Earned-now s g g' n n' panic h = absurd h
  Earned-now s g g' n n' stuck h = absurd h

  pub and_check-Earns :
      (s : Check) (g g' : Bool) (n n' : ℕ) (m : CheckNext) (f : Check → CheckNext)
      → Earns s g n m
      → ((s' : Check) → Open s' → Earns s' g' n' (f s'))
      → Earns s (g || g') (n + n') (and_check m f)
  and_check-Earns s g g' n n' (answer out s') f h k = Earned-now s g g' n n' out h
  and_check-Earns s g g' n n' (proceed s') f h k = later (f s') (k s' h.0)
    where
      later : (x : CheckNext) → Earns s' g' n' x → Earns s (g || g') (n + n') x
      later (answer out s'') e = Earned-later s s' g g' n n' out h e
      later (proceed s'') (open_, granted, counted) =
          (open_, chained s''.connect_ip_ok granted, omega (arith, h.2))
        where
          chained :
              (b : Bool)
              → (if b then s'.connect_ip_ok || g' ≡ true else Unit)
              → if b then s.connect_ip_ok || (g || g') ≡ true else Unit
          chained true e = or_chain s.connect_ip_ok g g' s'.connect_ip_ok h.1 e
          chained false e = tt

  pub Earned-from :
      (s0 s : Check) (g : Bool) (n : ℕ) (out : Outcome AetherError ℕ)
      → s0.connect_ip_ok ≡ s.connect_ip_ok
      → s0.probe_successes ≡ s.probe_successes
      → Earned s0 g n out
      → Earned s g n out
  Earned-from s0 s g n (ok elapsed) e e' (h, k) = (
    subst (λ b. b || g ≡ true) e h,
    subst (λ m. if data_check then data_probe_required_successes ≤ m + n else Unit) e' k,
  )
  Earned-from s0 s g n (err x) e e' h = tt
  Earned-from s0 s g n panic e e' h = h
  Earned-from s0 s g n stuck e e' h = h

  pub Earns-from :
      (s0 s : Check) (g : Bool) (n : ℕ) (x : CheckNext)
      → s0.connect_ip_ok ≡ s.connect_ip_ok
      → s0.probe_successes ≡ s.probe_successes
      → Earns s0 g n x
      → Earns s g n x
  Earns-from s0 s g n (answer out s') e e' h = Earned-from s0 s g n out e e' h
  Earns-from s0 s g n (proceed s') e e' (open_, h, k) = (
    open_,
    subst (λ b. if s'.connect_ip_ok then b || g ≡ true else Unit) e h,
    subst (λ m. s'.probe_successes ≤ m + n) e' k,
  )
