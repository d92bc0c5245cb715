-- ===== src/Socks/Steps.antt =====
-- Rules for what the steps of the dialogue of aether/src/socks.rs write.
use aether_gui.Common.{
  ℕ, zero, suc, ◌<◌, ◌≡◌, sym, ap, subst, inl, inr, Bool, true, false, List, [], ◌∷◌, ◌++◌, arith,
  length, length-take, ltb, ◌==◌, if◌then◌else◌, ltb→le, Bool-cases,
}
use aether_gui.Common.Outcome.{Outcome, ok, err, panic, stuck, Ensures, get_elem?-some}
use aether_gui.Error.{AetherError}
use aether_gui.Net.{IpAddr, v4, v6}
use aether_gui.Socks.Utf8.{from_utf8_lossy}
use aether_gui.Socks.{ver, atyp_v4, atyp_v6, atyp_domain, rep_general, ip, domain}
use aether_gui.Socks.Session.{
  Conn, Io, and_then, ◌>>=◌, return, at, check, lift, read_exact, write_with, write_all, read_ip,
  read_target, reply, or_refuse,
}

-- The step neither panics nor loops; with its result and what is written by then it satisfies `P`, and
-- with what is written when it fails, `Q`.
abbrev pub Says :
    {A : Type 0} → (A → List ℕ → Type 0) → (List ℕ → Type 0) → Outcome AetherError A × Conn → Type 0
Says P Q (ok a, c) = P a c.written
Says P Q (err e, c) = Q c.written
Says P Q (panic, c) = ⊥
Says P Q (stuck, c) = ⊥

pub Says-bind :
    {A B : Type 0} (P : A → List ℕ → Type 0) (R : B → List ℕ → Type 0) (Q : List ℕ → Type 0)
    (r : Outcome AetherError A × Conn) (f : A → Io B)
    → Says P Q r
    → ((a : A) (c : Conn) → P a c.written → Says R Q (f a c))
    → Says R Q (and_then r f)
Says-bind P R Q (ok a, c) f h k = k a c h
Says-bind P R Q (err e, c) f h k = h
Says-bind P R Q (panic, c) f h k = absurd h
Says-bind P R Q (stuck, c) f h k = absurd h

pub Says-if :
    {A : Type 0} (P : A → List ℕ → Type 0) (Q : List ℕ → Type 0) (test : Bool) (m n : Io A)
    (c : Conn)
    → Says P Q (m c)
    → Says P Q (n c)
    → Says P Q ((if test then m else n) c)
Says-if P Q true m n c hm hn = hm
Says-if P Q false m n c hm hn = hn

abbrev pub refusal : ℕ → List ℕ
refusal code = ver ∷ code ∷ 0x00 ∷ atyp_v4 ∷ 0 ∷ 0 ∷ 0 ∷ 0 ∷ 0 ∷ 0 ∷ []

-- Steps that write nothing, from a socket to which `out` is written.
module _ (Q : List ℕ → Type 0) (out : List ℕ) (quiet : Q out) where
  pub read_exact-Says :
      (n : ℕ) (c : Conn)
      → c.written ≡ out
      → Says (λ bytes w. (length bytes ≡ n) × (w ≡ out)) Q (read_exact n c)
  unfolding read_exact
  read_exact-Says n c e = elim (Bool-cases (ltb (length c.input) n)) [
    | inl short ↦ rw short (subst Q (sym e) quiet)
    | inr enough ↦
        rw enough (omega (arith, ltb→le (length c.input) n enough, length-take n c.input), e)
  ]

  pub at-Says :
      (bytes : List ℕ) (i : ℕ) (c : Conn)
      → i < length bytes
      → c.written ≡ out
      → Says (λ _ w. w ≡ out) Q (at bytes i c)
  at-Says bytes i c h e = let (b, eb) = get_elem?-some bytes i h in rw eb e

  pub check-Says :
      (test : Bool) (c : Conn) → c.written ≡ out → Says (λ _ w. w ≡ out) Q (check test c)
  check-Says true c e = e
  check-Says false c e = subst Q (sym e) quiet

  pub lift-Says :
      {A : Type 0} (P : A → Type 0) (m : Outcome AetherError A) (c : Conn)
      → Ensures P m
      → c.written ≡ out
      → Says (λ a w. P a × (w ≡ out)) Q (lift m c)
  lift-Says P (ok a) c h e = (h, e)
  lift-Says P (err x) c h e = subst Q (sym e) quiet
  lift-Says P panic c h e = absurd h
  lift-Says P stuck c h e = absurd h

  pub write_all-Says :
      (bytes : List ℕ) (c : Conn)
      → c.written ≡ out
      → Says (λ _ w. w ≡ out ++ bytes) Q (write_all bytes c)
  unfolding write_all
  write_all-Says bytes c e = by_writes c.writes
    where
      by_writes : (n : ℕ) → Says (λ _ w. w ≡ out ++ bytes) Q (write_with n bytes c)
      by_writes zero = subst Q (sym e) quiet
      by_writes (suc n) = ap (λ l. l ++ bytes) e

  pub read_ip-Says :
      (atyp : ℕ) (c : Conn) → c.written ≡ out → Says (λ _ w. w ≡ out) Q (read_ip atyp c)
  unfolding read_ip
  read_ip-Says atyp c e = Says-if _ _ (atyp == atyp_v4) _ _ c (address 4 v4) (
      Says-if _ _ (atyp == atyp_v6) _ _ c (address 16 v6)
        (Says-if _ _ (atyp == atyp_domain) _ _ c name (subst Q (sym e) quiet)))
    where
      address :
          (n : ℕ) (make : List ℕ → IpAddr)
          → Says (λ _ w. w ≡ out) Q ((read_exact n >>= λ b. return (ip (make b))) c)
      address n make =
          Says-bind _ (λ _ w. w ≡ out) Q (read_exact n c) _ (read_exact-Says n c e) (λ b c' h. h.1)

      name :
          Says
            (λ _ w. w ≡ out)
            Q
            ((read_exact 1 >>= λ len.
                at len 0 >>= λ n. read_exact n >>= λ bytes. return (domain (from_utf8_lossy bytes)))
              c)
      name =
          Says-bind _ (λ _ w. w ≡ out) Q (read_exact 1 c) _ (read_exact-Says 1 c e)
            λ len c1 h1.
              Says-bind _ (λ _ w. w ≡ out) Q (at len 0 c1) _
                (at-Says len 0 c1 (omega (arith, h1.0)) h1.1)
                λ n c2 h2.
                  Says-bind _ (λ _ w. w ≡ out) Q (read_exact n c2) _ (read_exact-Says n c2 h2)
                    λ bytes c3 h3. h3.1

  pub read_target-Says :
      (atyp : ℕ) (c : Conn) → c.written ≡ out → Says (λ _ w. w ≡ out) Q (read_target atyp c)
  unfolding read_target
  read_target-Says atyp c e =
      Says-bind _ (λ _ w. w ≡ out) Q (read_ip atyp c) _ (read_ip-Says atyp c e)
        λ target c1 h1.
          Says-bind _ (λ _ w. w ≡ out) Q (read_exact 2 c1) _ (read_exact-Says 2 c1 h1)
            λ port c2 h2.
              Says-bind _ (λ _ w. w ≡ out) Q (at port 0 c2) _
                (at-Says port 0 c2 (omega (arith, h2.0)) h2.1)
                λ hi c3 h3.
                  Says-bind _ (λ _ w. w ≡ out) Q (at port 1 c3) _
                    (at-Says port 1 c3 (omega (arith, h2.0)) h3) λ lo c4 h4. h4

  pub or_refuse-Says :
      {A : Type 0} (m : Outcome AetherError A) (c : Conn)
      → Ensures (λ _. Unit {0}) m
      → c.written ≡ out
      → Q (out ++ refusal rep_general)
      → Says (λ _ w. w ≡ out) Q (or_refuse m c)
  unfolding or_refuse reply write_all
  or_refuse-Says (ok a) c h e refused = e
  or_refuse-Says (err x) c h e refused = by_writes c.writes
    where
      by_writes : (n : ℕ) → Q (write_with n (refusal rep_general) c).1.written
      by_writes zero = subst Q (sym e) quiet
      by_writes (suc n) = subst (λ w. Q (w ++ refusal rep_general)) (sym e) refused
  or_refuse-Says panic c h e refused = absurd h
  or_refuse-Says stuck c h e refused = absurd h
