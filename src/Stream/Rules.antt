-- ===== src/Stream/Rules.antt =====
-- What holds after a call on a connection: a rule for each way to build one.
use si_k_1projekt_tcp_udp.Common.{◌≡◌, subst}
use si_k_1projekt_tcp_udp.Stream.{Connection, Outcome, done, blocked, out_of_fuel, M, ◌>>=◌}

-- `Q` after a call that comes back, `B` where it waits for ever; the fuel lasts.
abbrev pub Post :
    {A : Type 0} → (A → Connection → Type 0) → (Connection → Type 0) → Outcome A → Type 0
Post Q B (done a c) = Q a c
Post Q B (blocked c) = B c
Post Q B out_of_fuel = ⊥

pub Post-bind :
    {A B : Type 0} (Q : A → Connection → Type 0) (R : B → Connection → Type 0)
    (U V : Connection → Type 0) (m : M A) (f : A → M B) (c : Connection)
    → Post Q U (m c)
    → ((a : A) (c' : Connection) → Q a c' → Post R V (f a c'))
    → ((c' : Connection) → U c' → V c')
    → Post R V ((m >>= f) c)
Post-bind {A} {B} Q R U V m f c h k b = go (m c) h
  where
    go :
        (o : Outcome A)
        → Post Q U o
        → Post R V
            (elim o [ done a c' ↦ f a c' | blocked c' ↦ blocked c' | out_of_fuel ↦ out_of_fuel ])
    go (done a c') q = k a c' q
    go (blocked c') q = b c' q
    go out_of_fuel q = q

pub Post-map :
    {A : Type 0} (Q R : A → Connection → Type 0) (U V : Connection → Type 0)
    → ((a : A) (c : Connection) → Q a c → R a c)
    → ((c : Connection) → U c → V c)
    → (o : Outcome A) → Post Q U o
    → Post R V o
Post-map Q R U V f g (done a c) h = f a c h
Post-map Q R U V f g (blocked c) h = g c h
Post-map Q R U V f g out_of_fuel h = h

-- From a postcondition to what holds of a call that is known to come back.
pub Post-done :
    {A : Type 0} (Q : A → Connection → Type 0) (U : Connection → Type 0) {o : Outcome A} {a : A}
    {c : Connection}
    → Post Q U o
    → o ≡ done a c
    → Q a c
Post-done Q U h e = subst (Post Q U) e h
