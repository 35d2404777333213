-- ===== src/Net.antt =====
-- The datagram socket as the UDP programs see it, and `sendto_wrapper` of helper_func.c.
-- What the operating system answers is given: `inbox` holds the results of the calls of `recvfrom`
-- to come, `sendto_results` those of `sendto` (all is taken once the list is used up).
use si_k_1projekt_tcp_udp.Common.{ℕ, ◌≡◌, subst, List, [], ◌∷◌, Bool, ◌==◌, if◌then◌else◌, take}
use si_k_1projekt_tcp_udp.Constants.{Status}

-- An IPv4 address and a port, `struct sockaddr_in`.
pub record Address : Type 0 where
  pub s_addr : ℕ
  pub sin_port : ℕ

-- `recvfrom` fails with EAGAIN, fails otherwise, fails by a SIGINT whose handler has set `finish`,
-- or gives a datagram with its sender.
pub data Recv : Type 0 where
  timed_out failed interrupted : Recv
  datagram : Address → List ℕ → Recv

pub data SendResult : Type 0 where
  send_failed : SendResult
  sent_length : ℕ → SendResult

pub record Packet : Type 0 where
  pub to : Address
  pub body : List ℕ

-- `sent`: what was handed to `sendto`, the newest first, whether or not it was taken.
-- `stack`: the bytes that an uninitialised local struct holds.
-- `rcv_timeo`: the seconds that SO_RCVTIMEO is set to.
-- `udp_client_address`, `udpr_client_address`: the static `client_address` of the two receivers.
-- `first_wait`: the static flag of `wait_for_server_response`.
-- `real_server_s_addr`: the client handler's variable of that name.
-- `errno_is_eagain`: whether `errno` is EAGAIN, as the last `recvfrom` that failed left it.
pub record World : Type 0 where
  pub inbox : List Recv
  pub sendto_results : List SendResult
  pub sent : List Packet
  pub stack : List ℕ
  pub rcv_timeo : ℕ
  pub finish : Bool
  pub udp_client_address : Address
  pub udpr_client_address : Address
  pub first_wait : Bool
  pub real_server_s_addr : ℕ
  pub errno_is_eagain : Bool

-- `blocked`: the program waits in `recvfrom` and nothing more comes.
-- `out_of_fuel` is no behaviour of the program: a loop of the model ended for lack of fuel.
pub data Outcome (A : Type 0) : Type 0 where
  done : A → World → Outcome A
  blocked : World → Outcome A
  out_of_fuel : Outcome A

abbrev pub M : Type 0 → Type 0
M A = World → Outcome A

infixl 5 ◌>>=◌ ◌>>◌
abbrev pub ◌>>=◌ : {A B : Type 0} → M A → (A → M B) → M B
◌>>=◌ m f w = elim (m w) [
  | done a w' ↦ f a w'
  | blocked w' ↦ blocked w'
  | out_of_fuel ↦ out_of_fuel
]

abbrev pub ◌>>◌ : {A B : Type 0} → M A → M B → M B
m >> k = m >>= λ _. k

abbrev pub return : {A : Type 0} → A → M A
return a w = done a w

abbrev pub next_result : List SendResult → ℕ → SendResult
next_result [] size = sent_length size
next_result (r ∷ rs) size = r

abbrev pub later_results : List SendResult → List SendResult
later_results [] = []
later_results (r ∷ rs) = rs

abbrev pub send_status : SendResult → ℕ → Status
send_status send_failed size = Status.error
send_status (sent_length n) size = if n == size then Status.success else Status.error

-- The first `data_size` bytes at `data` are sent.
unfoldable pub sendto_wrapper : Address → List ℕ → ℕ → M Status
sendto_wrapper address bytes data_size w =
    done (send_status (next_result w.sendto_results data_size) data_size) (record w {
      sent = record { to = address; body = take data_size bytes } ∷ w.sent;
      sendto_results = later_results w.sendto_results;
    })

-- setsockopt(SO_RCVTIMEO)
unfoldable pub set_rcv_timeo : ℕ → M (Unit {0})
set_rcv_timeo seconds w = done tt (record w { rcv_timeo = seconds })

abbrev pub get_world : M World
get_world w = done w w

-- What holds after a call that comes back, and after one that waits for ever; the fuel lasts.
abbrev pub Post : {A : Type 0} → (A → World → Type 0) → (World → Type 0) → Outcome A → Type 0
Post Q B (done a w) = Q a w
Post Q B (blocked w) = B w
Post Q B out_of_fuel = ⊥

pub Post-bind :
    {A B : Type 0} (Q : A → World → Type 0) (R : B → World → Type 0) (U V : World → Type 0)
    (m : M A) (f : A → M B) (w : World)
    → Post Q U (m w)
    → ((a : A) (w' : World) → Q a w' → Post R V (f a w'))
    → ((w' : World) → U w' → V w')
    → Post R V ((m >>= f) w)
Post-bind {A} {B} Q R U V m f w h k b = go (m w) h
  where
    go :
        (o : Outcome A)
        → Post Q U o
        → Post R V
            (elim o [ done a w' ↦ f a w' | blocked w' ↦ blocked w' | out_of_fuel ↦ out_of_fuel ])
    go (done a w') q = k a w' q
    go (blocked w') q = b w' q
    go out_of_fuel q = q

-- A stronger postcondition serves.
pub Post-map :
    {A : Type 0} (Q R : A → World → Type 0) (U V : World → Type 0)
    → ((a : A) (w : World) → Q a w → R a w)
    → ((w : World) → U w → V w)
    → (o : Outcome A) → Post Q U o
    → Post R V o
Post-map Q R U V f g (done a w) h = f a w h
Post-map Q R U V f g (blocked w) h = g w h
Post-map Q R U V f g out_of_fuel h = h

-- From a postcondition to what holds of a call that is known to come back.
pub Post-done :
    {A : Type 0} (Q : A → World → Type 0) (U : World → Type 0) {o : Outcome A} {a : A} {w : World}
    → Post Q U o
    → o ≡ done a w
    → Q a w
Post-done Q U h e = subst (Post Q U) e h

-- A call that never waits.
pub Post-returns :
    {A : Type 0} (Q : A → World → Type 0) (V : World → Type 0) (o : Outcome A)
    → Post Q (λ w. ⊥) o
    → Post Q V o
Post-returns Q V o h = Post-map Q Q (λ w. ⊥) V (λ a w q. q) (λ w q. absurd q) o h
