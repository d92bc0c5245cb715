-- ===== src/Fragment/Stream.antt =====
-- What the wire carries when a writer goes on polling the stream of aether/src/fragment.rs.
use aether_gui.Common.{
  ℕ, zero, suc, ◌≤◌, ◌≡◌, refl, sym, ap, ◌∙◌, subst, Bool, true, false, not, Option, none, some,
  List, [], ◌∷◌, ◌++◌, append_assoc, arith, length, take, drop, All, length-take, take-append-drop,
  ltb, ltb→lt,
}
use aether_gui.Common.Outcome.{Outcome, ok, Absent, ◌>>=◌, Ensures, Ensures-bind, Ensures-if}
use aether_gui.Fragment.{
  FragmentConfig, FragmentingStream, Poll, pending, written, failed, Polled, pick_chunk_len,
  poll_write, waits,
}
use aether_gui.Fragment.Bounds.{IsRange, IsConfig, pick_chunk_len_bounds}

-- One poll: whether the pending sleep is over, and the inner stream.
pub record Turn : Type 0 where
  pub elapsed : Bool
  pub inner : List ℕ → Poll

-- `AsyncWrite`: no more bytes are reported than were offered.
abbrev pub Within : Poll → List ℕ → Type 0
Within pending buf = Unit
Within failed buf = Unit
Within (written n) buf = n ≤ length buf

abbrev pub IsWriter : Turn → Type 0
IsWriter t = (buf : List ℕ) → Within (t.inner buf) buf

abbrev pub accepted : Option (List ℕ) → Poll → List ℕ
accepted (some offered) (written n) = take n offered
accepted (some offered) pending = []
accepted (some offered) failed = []
accepted none answer = []

-- The bytes that the writer offers next.
abbrev pub rest_after : Poll → List ℕ → List ℕ
rest_after (written n) buf = drop n buf
rest_after pending buf = buf
rest_after failed buf = buf

pub record Sent : Type 0 where
  pub wire : List ℕ
  pub rest : List ℕ

-- The writer's polls, one for each turn, on what is left of its bytes.
unfoldable pub write_turns :
    (ℕ → ℕ → ℕ) → List Turn → List ℕ → FragmentingStream → Outcome Absent Sent
write_turns gen [] buf s = ok (record { wire = []; rest = buf })
write_turns gen (t ∷ turns) buf s = do
  p ← poll_write gen t.elapsed t.inner buf s
  q ← write_turns gen turns (rest_after p.answer buf) p.state
  ok (record { wire = accepted p.offered p.answer ++ q.wire; rest = q.rest })

-- The bytes that one poll offers, under the configuration.
abbrev IsOffer : FragmentingStream → Option (List ℕ) → Type 0
IsOffer s none = s.fragmenting ≡ true
IsOffer s (some offered) = (s.fragmenting ≡ true) → length offered ≤ s.cfg.size_max

abbrev IsPolled : FragmentingStream → List ℕ → Polled → Type 0
IsPolled s buf p =
    (accepted p.offered p.answer ++ rest_after p.answer buf ≡ buf)
    × (p.state.cfg ≡ s.cfg)
    × (p.state.fragmenting ≡ s.fragmenting)
    × IsOffer s p.offered

whole_accepted :
    (buf : List ℕ) (answer : Poll) → accepted (some buf) answer ++ rest_after answer buf ≡ buf
whole_accepted buf pending = refl
whole_accepted buf failed = refl
whole_accepted buf (written n) = take-append-drop n buf

take-take : (n k : ℕ) (xs : List ℕ) → n ≤ length (take k xs) → take n (take k xs) ≡ take n xs
take-take zero k xs h = refl
take-take (suc n) zero xs h = absurd (omega (arith, h))
take-take (suc n) (suc k) [] h = refl
take-take (suc n) (suc k) (x ∷ xs) h = ap (λ l. x ∷ l) (take-take n k xs (omega (arith, h)))

chunk_accepted :
    (k : ℕ) (buf : List ℕ) (answer : Poll)
    → Within answer (take k buf)
    → accepted (some (take k buf)) answer ++ rest_after answer buf ≡ buf
chunk_accepted k buf pending h = refl
chunk_accepted k buf failed h = refl
chunk_accepted k buf (written n) h =
    ap (λ l. l ++ drop n buf) (take-take n k buf h) ∙ take-append-drop n buf

chunk_bounds :
    (gen : ℕ → ℕ → ℕ) (cfg : FragmentConfig) (c : ℕ) (cs : List ℕ)
    → IsRange gen
    → IsConfig cfg
    → (pick_chunk_len gen cfg (length (c ∷ cs)) ≤ length (c ∷ cs))
      × (pick_chunk_len gen cfg (length (c ∷ cs)) ≤ cfg.size_max)
chunk_bounds gen cfg c cs random config =
    let (one, whole, top, low) =
      pick_chunk_len_bounds gen cfg (suc (length cs)) random config (omega arith) in
    (whole, top)

no_overrun : (k : ℕ) {n top : ℕ} → (k ≤ n) × (k ≤ top) → ltb n k ≡ true → ⊥
no_overrun k {n} (whole, top) over = absurd (omega (arith, ltb→lt n k over))

chunk_size :
    (k : ℕ) (buf : List ℕ) {top : ℕ} → (k ≤ length buf) × (k ≤ top) → length (take k buf) ≤ top
chunk_size k buf (whole, small) = omega (arith, length-take k buf)

-- A poll passes a prefix of the buffer on and reports its length; while the stream fragments, it
-- offers no more than size_max bytes; and it does not panic.
pub poll_write-Ensures :
    (gen : ℕ → ℕ → ℕ) (t : Turn) (buf : List ℕ) (s : FragmentingStream)
    → IsRange gen
    → IsConfig s.cfg
    → IsWriter t
    → Ensures (IsPolled s buf) (poll_write gen t.elapsed t.inner buf s)
unfolding poll_write
poll_write-Ensures gen t [] s random config writer =
    (whole_accepted [] (t.inner []), refl, refl, λ _. omega arith)
poll_write-Ensures gen t (c ∷ cs) s random config writer =
    Ensures-if _ (not s.fragmenting) _ _
      (λ plain.
        (whole_accepted (c ∷ cs) (t.inner (c ∷ cs)), refl, refl, λ on. absurd (clash plain on)))
      (λ on.
        Ensures-if _ (waits s.pending_delay t.elapsed) _ _ (λ _. (refl, refl, refl, is_on on))
          (λ _.
            Ensures-if _ (ltb (length (c ∷ cs)) (pick_chunk_len gen s.cfg (length (c ∷ cs)))) _ _
              (λ over. absurd (no_overrun _ (chunk_bounds gen s.cfg c cs random config) over))
              (λ _. (
                chunk_accepted _ (c ∷ cs) _ (writer _),
                refl,
                refl,
                λ _. chunk_size _ (c ∷ cs) (chunk_bounds gen s.cfg c cs random config),
              ))))
  where
    clash : not s.fragmenting ≡ true → s.fragmenting ≡ true → ⊥
    clash plain on = grind arith

    is_on : not s.fragmenting ≡ false → s.fragmenting ≡ true
    is_on off = grind arith

-- Whatever the inner stream answers and whenever the sleeps end: polling on with what is left puts
-- the bytes on the wire in order, none lost and none twice, and never panics.
pub write_turns-Ensures :
    (gen : ℕ → ℕ → ℕ) (turns : List Turn) (buf : List ℕ) (s : FragmentingStream)
    → IsRange gen
    → IsConfig s.cfg
    → All IsWriter turns
    → Ensures (λ q. q.wire ++ q.rest ≡ buf) (write_turns gen turns buf s)
unfolding write_turns
write_turns-Ensures gen [] buf s random config writers = refl
write_turns-Ensures gen (t ∷ turns) buf s random config (writer, writers) =
    Ensures-bind (IsPolled s buf) _ (poll_write gen t.elapsed t.inner buf s) _
      (poll_write-Ensures gen t buf s random config writer)
      (λ p (front, cfg, on, offer).
        Ensures-bind (λ q. q.wire ++ q.rest ≡ rest_after p.answer buf) _
          (write_turns gen turns (rest_after p.answer buf) p.state) _
          (write_turns-Ensures gen turns (rest_after p.answer buf) p.state random
            (subst IsConfig (sym cfg) config) writers)
          (λ q back.
            append_assoc (accepted p.offered p.answer) q.wire q.rest
            ∙ ap (λ l. accepted p.offered p.answer ++ l) back
            ∙ front))
