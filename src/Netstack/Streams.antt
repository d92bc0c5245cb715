-- ===== src/Netstack/Streams.antt =====
-- The bytes of a connection through the stack of aether/src/netstack.rs: what the applications hand in
-- goes to the socket in order, as long as the connection is in the table.
use aether_gui.Common.{
  ℕ, ◌≡◌, refl, sym, ap, ◌∙◌, subst, inl, inr, Bool, true, false, Option, none, some, List, [], ◌∷◌,
  ◌++◌, append-nil, append_assoc, ◌==◌, if◌then◌else◌, ==_iff, ==_refl, Bool-cases,
}
use aether_gui.Common.Outcome.{}
use mathlib.Core.Option.{some-injective}
use aether_gui.Common.Assoc.{lookup, insert, remove, lookup-insert, lookup-remove}
use aether_gui.Netstack.{Smoltcp, TcpState, Effect, NetStack}
use aether_gui.Netstack.Service.{Serving, serve, write_back, serve_entry, serve_ids}
use aether_gui.Netstack.Served.{
  transmitted_bytes, transmitted_bytes-append, IsServiced, serve-IsServiced,
}

-- From one state of the stack to a later one: if the connection `o` is still there, it was there
-- before, and what was handed over with what waits now is what waited with what was handed in.
abbrev pub Flows : (net : Smoltcp) → ℕ → NetStack net → NetStack net × List Effect → List ℕ → Type 0
Flows net o s (s', effects) bytes =
    (st' : TcpState)
    → lookup o s'.tcp_conns ≡ some st'
    → (st : TcpState) × (lookup o s.tcp_conns ≡ some st)
      × (transmitted_bytes o effects ++ st'.pending ≡ st.pending ++ bytes)

pub none-ne-some {ℓ} : {A : Type ℓ} {a : A} → none ≡ some a → ⊥
none-ne-some h = cc

pub false-ne-true : false ≡ true → ⊥
false-ne-true h = cc

module _ (net : Smoltcp) (o : ℕ) where
  pub Flows-trans :
      (s s1 s2 : NetStack net) (e1 e2 : List Effect) (b1 b2 : List ℕ)
      → Flows net o s (s1, e1) b1
      → Flows net o s1 (s2, e2) b2
      → Flows net o s (s2, e1 ++ e2) (b1 ++ b2)
  Flows-trans s s1 s2 e1 e2 b1 b2 first second st2 at2 =
      let (st1, at1, eq2) = second st2 at2 in
      let (st, at0, eq1) = first st1 at1 in
      (
        st,
        at0,
        ap (λ l. l ++ st2.pending) (transmitted_bytes-append o e1 e2)
            ∙ append_assoc (transmitted_bytes o e1) (transmitted_bytes o e2) st2.pending
            ∙ ap (λ l. transmitted_bytes o e1 ++ l) eq2
            ∙ sym (append_assoc (transmitted_bytes o e1) st1.pending b2)
            ∙ ap (λ l. l ++ b2) eq1
            ∙ append_assoc st.pending b1 b2,
      )

  -- A step that does not touch the entry of `o`.
  pub Flows-same :
      (s s' : NetStack net) (effects : List Effect)
      → lookup o s'.tcp_conns ≡ lookup o s.tcp_conns
      → transmitted_bytes o effects ≡ []
      → Flows net o s (s', effects) []
  Flows-same s s' effects same nothing st' at' =
      (st', sym same ∙ at', ap (λ l. l ++ st'.pending) nothing ∙ sym (append-nil st'.pending))

  write_back_mine :
      (s : NetStack net) (st : TcpState) (v : Serving net) (gone : Bool)
      → lookup o s.tcp_conns ≡ some st
      → IsServiced net o o (record { st = st; sockets = s.sockets; effects = [] }) (v, gone)
      → Flows net o s (write_back net s o (v, gone)) []
  unfolding transmitted_bytes
  write_back_mine s st v true at_o served st' at' =
      absurd (none-ne-some (rw (lookup-remove o o s.tcp_conns, ==_refl o) at at'))
  write_back_mine s st v false at_o (inl keeps) st' at' = (
    st,
    at_o,
    ap (λ (t : TcpState). transmitted_bytes o v.effects ++ t.pending)
          (sym (some-injective _ _ (rw (lookup-insert o o v.st s.tcp_conns, ==_refl o) at at')))
        ∙ rw (==_refl o) at keeps
        ∙ sym (append-nil st.pending),
  )
  write_back_mine s st v false at_o (inr (nothing, wrong)) st' at' = absurd (false-ne-true wrong)

  write_back_other :
      (s : NetStack net) (id : ℕ) (st : TcpState) (v : Serving net) (gone : Bool)
      → (id == o) ≡ false
      → IsServiced net o id (record { st = st; sockets = s.sockets; effects = [] }) (v, gone)
      → Flows net o s (write_back net s id (v, gone)) []
  unfolding transmitted_bytes
  write_back_other s id st v gone other served =
      Flows-same s (write_back net s id (v, gone)).0 v.effects (kept gone) (nothing served)
    where
      kept :
          (b : Bool)
          → lookup o (if b then remove id s.tcp_conns else insert id v.st s.tcp_conns)
            ≡ lookup o s.tcp_conns
      kept true = rw (lookup-remove id o s.tcp_conns, other) refl
      kept false = rw (lookup-insert id o v.st s.tcp_conns, other) refl

      nothing :
          IsServiced net o id (record { st = st; sockets = s.sockets; effects = [] }) (v, gone)
          → transmitted_bytes o v.effects ≡ []
      nothing (inl keeps) = sym (append-nil _) ∙ rw other at keeps
      nothing (inr (none_sent, _)) = none_sent

  serve_entry-Flows :
      (s : NetStack net) (id : ℕ) (takes : List ℕ → Bool) (entry : Option TcpState)
      → lookup id s.tcp_conns ≡ entry
      → Flows net o s (serve_entry net s id takes entry) []
  unfolding transmitted_bytes
  serve_entry-Flows s id takes none e = Flows-same s s [] refl refl
  serve_entry-Flows s id takes (some st) e = elim (Bool-cases (id == o)) [
    | inl same ↦
        subst (λ k. Flows net o s (serve_entry net s k takes (some st)) [])
          (sym ((==_iff id o).0 same))
          (write_back_mine s st
            (serve net o takes (record { st = st; sockets = s.sockets; effects = [] })).0
            (serve net o takes (record { st = st; sockets = s.sockets; effects = [] })).1
            (subst (λ k. lookup k s.tcp_conns ≡ some st) ((==_iff id o).0 same) e)
            (serve-IsServiced net o o takes
              (record { st = st; sockets = s.sockets; effects = [] })))
    | inr other ↦
        write_back_other s id st
          (serve net id takes (record { st = st; sockets = s.sockets; effects = [] })).0
          (serve net id takes (record { st = st; sockets = s.sockets; effects = [] })).1 other
          (serve-IsServiced net o id takes (record { st = st; sockets = s.sockets; effects = [] }))
  ]

  pub serve_ids-Flows :
      (ids : List ℕ) (takes : ℕ → List ℕ → Bool) (s : NetStack net)
      → Flows net o s (serve_ids net ids takes s) []
  unfolding serve_ids transmitted_bytes
  serve_ids-Flows [] takes s = Flows-same s s [] refl refl
  serve_ids-Flows (id ∷ ids) takes s =
      let r = serve_entry net s id (takes id) (lookup id s.tcp_conns) in
      let more = serve_ids net ids takes r.0 in
      Flows-trans s r.0 more.0 r.1 more.1 [] []
        (serve_entry-Flows s id (takes id) (lookup id s.tcp_conns) refl)
        (serve_ids-Flows ids takes r.0)
