-- ===== src/UdpServer/Reading.antt =====
-- What `read_data_to_buffer` gives: the first result of `recvfrom` that is no datagram of another
-- client's. The others' datagrams are answered to their senders alone.
use si_k_1projekt_tcp_udp.Common.{
  ℕ, suc, ◌+◌, ◌≡◌, refl, sym, ap, subst, ◌∙◌, inl, inr, List, [], ◌∷◌, ◌++◌, append_assoc, Bool,
  true, false, ◌==◌, ◌!=◌, if◌then◌else◌, length, take, All, All-append, All-map, arith, Bool-cases,
}
use si_k_1projekt_tcp_udp.Constants.{Status, conn_id, data_id, receive_buffor_size}
use si_k_1projekt_tcp_udp.Packets.{sizeof_conn, read_conn}
use si_k_1projekt_tcp_udp.Net.{
  Address, Recv, timed_out, failed, interrupted, datagram, Packet, SendResult, World, Outcome, done,
  blocked, out_of_fuel, Post, Post-bind, M, ◌>>◌,
}
use si_k_1projekt_tcp_udp.UdpServer.Receive.{
  Received, only, differs, answer_other, read_loop, read_data_to_buffer,
}

-- The datagrams of one client, in the order in which they come.
abbrev pub own : Address → List Recv → List (List ℕ)
own a [] = []
own a (datagram from bytes ∷ es) = if differs from a then own a es else bytes ∷ own a es
own a (timed_out ∷ es) = own a es
own a (failed ∷ es) = own a es
own a (interrupted ∷ es) = own a es

-- A step that leaves the inbox alone and sends to nobody but those whom `P` allows.
pub record SendsTo (P : Address → Type 0) (w w' : World) : Type 0 where
  pub packets : List Packet
  pub sent : w'.sent ≡ packets ++ w.sent
  pub allowed : All (λ (p : Packet). P p.to) packets
  pub stack : w'.stack ≡ w.stack

pub SendsTo-trans :
    (P : Address → Type 0) {u v w : World} → SendsTo P u v → SendsTo P v w → SendsTo P u w
SendsTo-trans P {u} h k = record {
  packets = k.packets ++ h.packets;
  sent = k.sent ∙ ap (◌++◌ k.packets) h.sent ∙ sym (append_assoc k.packets h.packets u.sent);
  allowed = All-append (λ (p : Packet). P p.to) k.packets h.packets k.allowed h.allowed;
  stack = k.stack ∙ h.stack;
}

SendsTo-none : (P : Address → Type 0) (w : World) → SendsTo P w w
SendsTo-none P w = record { packets = []; sent = refl; allowed = tt; stack = refl }

SendsTo-one :
    (P : Address → Type 0) (w : World) (p : Packet) (rs : List SendResult)
    → P p.to
    → SendsTo P w (record w { sent = p ∷ w.sent; sendto_results = rs })
SendsTo-one P w p rs h = record { packets = p ∷ []; sent = refl; allowed = (h, tt); stack = refl }

-- Whatever `answer_other` does, it sends to that sender alone.
pub answer_other_lem :
    (from : Address) (buff : List ℕ) (w : World)
    → Post (λ u w'. SendsTo (λ a. a ≡ from) w w') (λ w'. ⊥) (answer_other from buff w)
unfolding answer_other
answer_other_lem from buff w =
    elim (Bool-cases ((read_conn w.stack buff).package_type_id == conn_id)) [
      | inl conn ↦ elim (Bool-cases (length buff != sizeof_conn)) [
        | inl long ↦ rw (conn, long) (SendsTo-none _ w)
        | inr fits ↦ rw (conn, fits) (SendsTo-one _ w _ _ refl)
      ]
      | inr other ↦ elim (Bool-cases ((read_conn w.stack buff).package_type_id == data_id)) [
        | inl sends_data ↦ rw (other, sends_data) (SendsTo-one _ w _ _ refl)
        | inr unknown ↦ rw (other, unknown) (SendsTo-none _ w)
      ]
    ]

-- How often `recvfrom` times out.
abbrev pub timeouts : List Recv → ℕ
timeouts [] = 0
timeouts (timed_out ∷ es) = suc (timeouts es)
timeouts (failed ∷ es) = timeouts es
timeouts (interrupted ∷ es) = timeouts es
timeouts (datagram from bytes ∷ es) = timeouts es

pub timeouts-append : (xs ys : List Recv) → timeouts (xs ++ ys) ≡ timeouts xs + timeouts ys
timeouts-append [] ys = omega arith
timeouts-append (timed_out ∷ xs) ys = omega (arith, timeouts-append xs ys)
timeouts-append (failed ∷ xs) ys = timeouts-append xs ys
timeouts-append (interrupted ∷ xs) ys = timeouts-append xs ys
timeouts-append (datagram from bytes ∷ xs) ys = timeouts-append xs ys

-- How a result of `recvfrom` is handed on.
abbrev pub Answers : Address → Recv → Received → Type 0
Answers a timed_out r = r.status ≡ Status.timeout_error
Answers a failed r = r.status ≡ Status.error
Answers a interrupted r = r.status ≡ Status.error
Answers a (datagram from bytes) r =
    (differs from a ≡ false)
    × (r.status ≡ (if length r.buff == 0 then Status.error else Status.success))
    × (r.buff ≡ take receive_buffor_size bytes)
    × (r.client_address ≡ from)

pub record Reads (a : Address) (es : List Recv) (w : World) (r : Received) (w' : World)
    : Type 0 where
  pub skipped : List Recv
  pub event : Recv
  pub parts : es ≡ skipped ++ event ∷ w'.inbox
  pub foreign : own a skipped ≡ []
  pub punctual : timeouts skipped ≡ 0
  pub answers : Answers a event r
  pub sends : SendsTo (λ b. differs b a ≡ true) w w'

abbrev pub ReadsOrBlocks : Address → List Recv → World → Outcome Received → Type 0
ReadsOrBlocks a es w = Post (Reads a es w) (λ w'. (own a es ≡ []) × (w'.inbox ≡ []))

-- Taking an element of the inbox changes nothing that `SendsTo` speaks of.
abbrev pub with_inbox : World → List Recv → World
with_inbox w es = record w { inbox = es }

SendsTo-foreign :
    (a from : Address) (es : List Recv) {w w1 : World}
    → differs from a ≡ true
    → SendsTo (λ b. b ≡ from) (with_inbox w es) w1
    → SendsTo (λ b. differs b a ≡ true) w w1
SendsTo-foreign a from es d s = record {
  packets = s.packets;
  sent = s.sent;
  allowed = All-map _ _ (λ p e. subst (λ b. differs b a ≡ true) (sym e) d) s.packets s.allowed;
  stack = s.stack;
}

SendsTo-inbox :
    (P : Address → Type 0) (w : World) (es : List Recv) (b : Bool)
    → SendsTo P w (record w { inbox = es; finish = b })
SendsTo-inbox P w es b = record { packets = []; sent = refl; allowed = tt; stack = refl }

-- After a datagram of another client's the search goes on.
Reads-skip :
    (a from : Address) (bytes : List ℕ) (es : List Recv) (w w1 : World) (o : Outcome Received)
    → differs from a ≡ true
    → SendsTo (λ b. b ≡ from) (with_inbox w es) w1
    → ReadsOrBlocks a es w1 o
    → ReadsOrBlocks a (datagram from bytes ∷ es) w o
Reads-skip a from bytes es w w1 (done r w') d s h = record {
  skipped = datagram from bytes ∷ h.skipped;
  event = h.event;
  parts = ap (◌∷◌ (datagram from bytes)) h.parts;
  foreign = rw d h.foreign;
  punctual = h.punctual;
  answers = h.answers;
  sends = SendsTo-trans (λ b. differs b a ≡ true) (SendsTo-foreign a from es d s) h.sends;
}
Reads-skip a from bytes es w w1 (blocked w') d s h = (rw d h.0, h.1)
Reads-skip a from bytes es w w1 out_of_fuel d s h = h

-- A datagram, by its sender; `search` is the loop over what comes after it.
read_datagram :
    (es : List Recv) (a from : Address) (bytes : List ℕ) (w : World) (search_on : M Received)
    → ((w1 : World) → ReadsOrBlocks a es w1 (search_on w1))
    → (other : Bool) → differs from a ≡ other
    → ReadsOrBlocks a (datagram from bytes ∷ es) w (
        if other
        then (answer_other from (take receive_buffor_size bytes) >> search_on) (with_inbox w es)
        else done
            (record {
              status =
                  if length (take receive_buffor_size bytes) == 0
                  then Status.error
                  else Status.success;
              buff = take receive_buffor_size bytes;
              client_address = from;
            })
            (with_inbox w es))
read_datagram es a from bytes w search_on found true other =
    Post-bind (λ u w1. SendsTo (λ b. b ≡ from) (with_inbox w es) w1) _ _ _
      (answer_other from (take receive_buffor_size bytes)) (λ _. search_on) (with_inbox w es)
      (answer_other_lem from (take receive_buffor_size bytes) (with_inbox w es))
      (λ u w1 s. Reads-skip a from bytes es w w1 _ other s (found w1)) (λ w1 h. elim h [ ])
read_datagram es a from bytes w search_on found false mine = record {
  skipped = [];
  event = datagram from bytes;
  parts = refl;
  foreign = refl;
  punctual = refl;
  answers = (mine, refl, refl, refl);
  sends = SendsTo-inbox _ w es w.finish;
}

pub read_loop-ReadsOrBlocks :
    (es : List Recv) (a c : Address) (w : World) → ReadsOrBlocks a es w (read_loop es (only a) c w)
unfolding read_loop
read_loop-ReadsOrBlocks [] a c w = (refl, refl)
read_loop-ReadsOrBlocks (timed_out ∷ es) a c w = record {
  skipped = [];
  event = timed_out;
  parts = refl;
  foreign = refl;
  punctual = refl;
  answers = refl;
  sends = SendsTo-inbox _ w es w.finish;
}
read_loop-ReadsOrBlocks (failed ∷ es) a c w = record {
  skipped = [];
  event = failed;
  parts = refl;
  foreign = refl;
  punctual = refl;
  answers = refl;
  sends = SendsTo-inbox _ w es w.finish;
}
read_loop-ReadsOrBlocks (interrupted ∷ es) a c w = record {
  skipped = [];
  event = interrupted;
  parts = refl;
  foreign = refl;
  punctual = refl;
  answers = refl;
  sends = SendsTo-inbox _ w es true;
}
read_loop-ReadsOrBlocks (datagram from bytes ∷ es) a c w =
    read_datagram es a from bytes w (read_loop es (only a) from)
      (λ w1. read_loop-ReadsOrBlocks es a from w1) (differs from a) refl

pub own-append : (a : Address) (xs ys : List Recv) → own a (xs ++ ys) ≡ own a xs ++ own a ys
own-append a [] ys = refl
own-append a (timed_out ∷ xs) ys = own-append a xs ys
own-append a (failed ∷ xs) ys = own-append a xs ys
own-append a (interrupted ∷ xs) ys = own-append a xs ys
own-append a (datagram from bytes ∷ xs) ys = elim (Bool-cases (differs from a)) [
  | inl d ↦ rw d (own-append a xs ys)
  | inr d ↦ rw d (ap (◌∷◌ bytes) (own-append a xs ys))
]

-- Called for the connected client `a`, read_data_to_buffer hands on the first result of `recvfrom`
-- that is no datagram of another client's, with its status, its bytes (at most 64032) and its
-- sender; the datagrams before it are taken, and no packet is sent to `a` on their account. It
-- waits only when the inbox has run out and held no datagram of `a`.
pub read_data_to_buffer-ReadsOrBlocks :
    (a c : Address) (w : World) → ReadsOrBlocks a w.inbox w (read_data_to_buffer (only a) c w)
unfolding read_data_to_buffer
read_data_to_buffer-ReadsOrBlocks a c w = read_loop-ReadsOrBlocks w.inbox a c w
