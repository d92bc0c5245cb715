-- ===== src/Wireguard/Covered.antt =====
-- What the obfuscation of aether/src/wireguard.rs asks of the wire, and what may be put on it.
use aether_gui.Common.{
  ℕ, suc, ◌+◌, ◌≤◌, ◌≡◌, refl, Bool, true, false, ◌&&◌, not, List, [], ◌∷◌, ◌++◌, arith,
  if◌then◌else◌, if_both,
}
use aether_gui.Noize.{NoizeConfig, is_enabled}
use aether_gui.Wireguard.Session.{
  Sent, obfuscation, post_handshake_junk, keepalive_junk, message, program_message, Session,
}
use aether_gui.Wireguard.Run.{
  SendTask, waiting, encapsulated, obfuscating, ready, send_over, WgTunnel, put_if,
}

-- How often the obfuscation is on the wire.
abbrev pub obfuscations : List Sent → ℕ
obfuscations [] = 0
obfuscations (obfuscation ∷ wire) = suc (obfuscations wire)
obfuscations (post_handshake_junk ∷ wire) = obfuscations wire
obfuscations (keepalive_junk ∷ wire) = obfuscations wire
obfuscations (message pkt ∷ wire) = obfuscations wire
obfuscations (program_message pkt ∷ wire) = obfuscations wire

-- No message of the send task stands before the obfuscation.
abbrev pub Covered : List Sent → Type 0
Covered [] = Unit
Covered (obfuscation ∷ wire) = Unit
Covered (post_handshake_junk ∷ wire) = Covered wire
Covered (keepalive_junk ∷ wire) = Covered wire
Covered (message pkt ∷ wire) = Covered wire
Covered (program_message pkt ∷ wire) = ⊥

abbrev pub Neutral : Sent → Type 0
Neutral obfuscation = ⊥
Neutral post_handshake_junk = Unit
Neutral keepalive_junk = Unit
Neutral (message pkt) = Unit
Neutral (program_message pkt) = ⊥

pub obfuscations-append :
    (wire rest : List Sent) → obfuscations (wire ++ rest) ≡ obfuscations wire + obfuscations rest
obfuscations-append [] rest = omega arith
obfuscations-append (obfuscation ∷ wire) rest = omega (arith, obfuscations-append wire rest)
obfuscations-append (post_handshake_junk ∷ wire) rest = obfuscations-append wire rest
obfuscations-append (keepalive_junk ∷ wire) rest = obfuscations-append wire rest
obfuscations-append (message pkt ∷ wire) rest = obfuscations-append wire rest
obfuscations-append (program_message pkt ∷ wire) rest = obfuscations-append wire rest

-- Behind the obfuscation anything may follow, and elsewhere all but a message of the send task.
pub Covered-append_behind :
    (wire rest : List Sent) → 1 ≤ obfuscations wire → Covered wire → Covered (wire ++ rest)
Covered-append_behind [] rest some_one h = absurd (clash some_one)
  where
    clash : 1 ≤ 0 → ⊥
    clash le = omega arith
Covered-append_behind (obfuscation ∷ wire) rest some_one h = tt
Covered-append_behind (post_handshake_junk ∷ wire) rest some_one h =
    Covered-append_behind wire rest some_one h
Covered-append_behind (keepalive_junk ∷ wire) rest some_one h =
    Covered-append_behind wire rest some_one h
Covered-append_behind (message pkt ∷ wire) rest some_one h =
    Covered-append_behind wire rest some_one h
Covered-append_behind (program_message pkt ∷ wire) rest some_one h = absurd h

pub Covered-append : (wire rest : List Sent) → Covered wire → Covered rest → Covered (wire ++ rest)
Covered-append [] rest h k = k
Covered-append (obfuscation ∷ wire) rest h k = tt
Covered-append (post_handshake_junk ∷ wire) rest h k = Covered-append wire rest h k
Covered-append (keepalive_junk ∷ wire) rest h k = Covered-append wire rest h k
Covered-append (message pkt ∷ wire) rest h k = Covered-append wire rest h k
Covered-append (program_message pkt ∷ wire) rest h k = absurd h

abbrev pub one_of : Bool → ℕ
one_of true = 1
one_of false = 0

abbrev pub in_progress : SendTask → ℕ
in_progress waiting = 0
in_progress (encapsulated pkt) = 0
in_progress (obfuscating pkt) = 1
in_progress (ready pkt) = 0
in_progress send_over = 0

module _ (cfg : NoizeConfig) (established : Bool) where
  -- What the obfuscation asks of the wire: it is there once at most, and never on a session of the
  -- check; when it is on and the session is new, no message of the send task stands before it.
  abbrev pub IsObfuscated : List Sent → Type 0
  IsObfuscated wire =
      (obfuscations wire ≤ (if established then 0 else 1))
      × (if is_enabled cfg && not established then Covered wire else Unit)

  abbrev pub Required : Type 0 → Type 0
  Required A = if is_enabled cfg && not established then A else Unit

  pub Required-weaken : (A B : Type 0) → (A → B) → Required A → Required B
  Required-weaken A B f h = at (is_enabled cfg && not established) h
    where
      at : (b : Bool) → (if b then A else Unit) → if b then B else Unit
      at true a = f a
      at false a = tt

  abbrev pub IsReady : SendTask → List Sent → Type 0
  IsReady waiting wire = Unit
  IsReady (encapsulated pkt) wire = Unit
  IsReady (obfuscating pkt) wire = Unit
  IsReady (ready pkt) wire = Required (1 ≤ obfuscations wire)
  IsReady send_over wire = Unit

  abbrev pub Ordered : List Sent → SendTask → Bool → Type 0
  Ordered wire task flag =
      (obfuscations wire + in_progress task + one_of established ≡ one_of flag)
      × Required (Covered wire)
      × IsReady task wire

  abbrev pub IsOrdered : WgTunnel → Type 0
  IsOrdered w = Ordered w.session.wire w.sending w.obf_sent

  pub put-Ordered :
      (sent : Sent) (wire : List Sent) (task : SendTask) (flag : Bool)
      → Neutral sent
      → Ordered wire task flag
      → Ordered (wire ++ (sent ∷ [])) task flag
  put-Ordered sent wire task flag neutral (count, covers, is_ready) = (
    omega (arith, same),
    Required-weaken (Covered wire) _ (λ c. Covered-append wire (sent ∷ []) c (covered sent neutral))
        covers,
    at task is_ready,
  )
    where
      weightless : (s : Sent) → Neutral s → obfuscations (s ∷ []) ≡ 0
      weightless obfuscation n = absurd n
      weightless post_handshake_junk n = refl
      weightless keepalive_junk n = refl
      weightless (message pkt) n = refl
      weightless (program_message pkt) n = absurd n

      covered : (s : Sent) → Neutral s → Covered (s ∷ [])
      covered obfuscation n = absurd n
      covered post_handshake_junk n = tt
      covered keepalive_junk n = tt
      covered (message pkt) n = tt
      covered (program_message pkt) n = absurd n

      same : obfuscations (wire ++ (sent ∷ [])) ≡ obfuscations wire
      same = omega (arith, obfuscations-append wire (sent ∷ []), weightless sent neutral)

      at : (task' : SendTask) → IsReady task' wire → IsReady task' (wire ++ (sent ∷ []))
      at waiting h = tt
      at (encapsulated pkt) h = tt
      at (obfuscating pkt) h = tt
      at (ready pkt) h =
          Required-weaken (1 ≤ obfuscations wire) (1 ≤ obfuscations (wire ++ (sent ∷ [])))
            (λ k. omega (arith, same)) h
      at send_over h = tt

  pub put_if-IsOrdered :
      (taken : Bool) (sent : Sent) (w : WgTunnel)
      → Neutral sent
      → IsOrdered w
      → Ordered (put_if taken sent w.session).wire w.sending w.obf_sent
  put_if-IsOrdered taken sent w neutral h =
      if_both (λ (s : Session). Ordered s.wire w.sending w.obf_sent) taken _ _
        (put-Ordered sent w.session.wire w.sending w.obf_sent neutral h) h
