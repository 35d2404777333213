-- ===== src/UdprClient/Sending.antt =====
-- How UDPR_client_send_DATA sends, waits and retransmits.
use si_k_1projekt_tcp_udp.Common.{
  ◌++◌, ◌∷◌, append_assoc, take, [], ℕ, zero, suc, ◌+◌, ◌≤◌, ◌<◌, ◌≡◌, refl, sym, ap, subst, ◌∙◌,
  ◌⊎◌, inl, inr, List, [], ◌∷◌, Bool, ltb, Bool-cases, length, length-append, arith,
}
use si_k_1projekt_tcp_udp.Constants.{Status}
use si_k_1projekt_tcp_udp.Net.{
  timed_out, failed, interrupted, Recv, datagram, World, M, Post, Post-bind, Post-map,
}
use si_k_1projekt_tcp_udp.Client.{wait_for_server_response}
use si_k_1projekt_tcp_udp.Client.Waiting.{Result, Unchanged}
use si_k_1projekt_tcp_udp.Client.Knowing.{wait_for_server_response-WaitsForServer}
use si_k_1projekt_tcp_udp.UdprClient.Waiting.{check_acc_packet, acc_status, acc_next, acc_loop}

-- The statuses that a received packet leads to.
abbrev IsAccStatus : Status → Type 0
IsAccStatus status =
    (status ≡ Status.success)
    ⊎ (status ≡ Status.retransmission)
    ⊎ (status ≡ Status.continue)
    ⊎ (status ≡ Status.error)

check_acc_packet-IsAccStatus :
    (stack response : List ℕ) (id session : ℕ) (first : Bool)
    → IsAccStatus (check_acc_packet stack response id session first)
unfolding check_acc_packet
check_acc_packet-IsAccStatus stack response id session first = ground arith

-- The results hold a packet from the port that counts as the acknowledgement of packet `id`.
abbrev pub Acks : List ℕ → ℕ → ℕ → ℕ → List Recv → Type 0
Acks stack port session id [] = ⊥
Acks stack port session id (timed_out ∷ es) = Acks stack port session id es
Acks stack port session id (failed ∷ es) = Acks stack port session id es
Acks stack port session id (interrupted ∷ es) = Acks stack port session id es
Acks stack port session id (datagram from bytes ∷ es) =
    ((from.sin_port ≡ port)
      × ((first : Bool) × (check_acc_packet stack (take 200 bytes) id session first
            ≡ Status.success)))
    ⊎ Acks stack port session id es

pub Acks-right :
    (stack : List ℕ) (port session id : ℕ) (xs ys : List Recv)
    → Acks stack port session id ys
    → Acks stack port session id (xs ++ ys)
Acks-right stack port session id [] ys h = h
Acks-right stack port session id (timed_out ∷ xs) ys h = Acks-right stack port session id xs ys h
Acks-right stack port session id (failed ∷ xs) ys h = Acks-right stack port session id xs ys h
Acks-right stack port session id (interrupted ∷ xs) ys h = Acks-right stack port session id xs ys h
Acks-right stack port session id (datagram from bytes ∷ xs) ys h =
    inr (Acks-right stack port session id xs ys h)

-- The end of the wait for an acknowledgement.
pub record AccWaited (port session id counted : ℕ) (w : World) (r : Status × ℕ) (w' : World)
    : Type 0 where
  pub sent : w'.sent ≡ w.sent
  pub stack : w'.stack ≡ w.stack
  pub passed : (skipped : List Recv) × (w.inbox ≡ skipped ++ w'.inbox)
  pub shrinks : length w'.inbox < length w.inbox
  pub acked : r.0 ≡ Status.success → Acks w.stack port session id w.inbox
  pub outcome :
      (r ≡ (Status.success, counted))
      ⊎ ((r ≡ (Status.retransmission, counted + 1)) × (counted + 1 ≤ 8))
      ⊎ (r.0 ≡ Status.error)

acc_next-AccWaited :
    (port session id counted : ℕ) (go_on : M (Status × ℕ)) (w w' : World)
    → counted ≤ 8
    → Unchanged w w'
    → ((skipped : List Recv) × (w.inbox ≡ skipped ++ w'.inbox))
    → length w'.inbox < length w.inbox
    → Post (AccWaited port session id counted w) (λ v. Unit {0}) (go_on w')
    → (status : Status) → (status ≡ Status.success → Acks w.stack port session id w.inbox)
    → IsAccStatus status
    → Post (AccWaited port session id counted w) (λ v. Unit {0}) (acc_next counted go_on status w')
acc_next-AccWaited port session id counted go_on w w' few u passed shrinks later status ack
      (inl ok) =
    subst
      (λ x.
        Post (AccWaited port session id counted w) (λ v. Unit {0}) (acc_next counted go_on x w'))
      (sym ok)
      (record {
        sent = u.sent;
        stack = u.stack;
        passed = passed;
        shrinks = shrinks;
        acked = λ x. ack ok;
        outcome = inl refl;
      })
acc_next-AccWaited port session id counted go_on w w' few u passed shrinks later status ack
      (inr (inl again)) =
    subst
      (λ x.
        Post (AccWaited port session id counted w) (λ v. Unit {0}) (acc_next counted go_on x w'))
      (sym again)
      (elim (Bool-cases (ltb 8 (counted + 1))) [
        | inl last ↦ rw last (record {
          sent = u.sent;
          stack = u.stack;
          passed = passed;
          shrinks = shrinks;
          acked = λ x. cc;
          outcome = inr (inr refl);
        })
        | inr more ↦ rw more (record {
          sent = u.sent;
          stack = u.stack;
          passed = passed;
          shrinks = shrinks;
          acked = λ x. cc;
          outcome = inr (inl (refl, ground arith));
        })
      ])
acc_next-AccWaited port session id counted go_on w w' few u passed shrinks later status ack
      (inr (inr (inl on))) =
    subst
      (λ x.
        Post (AccWaited port session id counted w) (λ v. Unit {0}) (acc_next counted go_on x w'))
      (sym on) later
acc_next-AccWaited port session id counted go_on w w' few u passed shrinks later status ack
      (inr (inr (inr err))) =
    subst
      (λ x.
        Post (AccWaited port session id counted w) (λ v. Unit {0}) (acc_next counted go_on x w'))
      (sym err)
      (record {
        sent = u.sent;
        stack = u.stack;
        passed = passed;
        shrinks = shrinks;
        acked = λ x. cc;
        outcome = inr (inr refl);
      })

-- Where it comes back, at least one result was taken.
pub takes_some :
    (port : ℕ) (es : List Recv) (r : Status × List ℕ) (w' : World)
    → Result port es r w'
    → length w'.inbox < length es
takes_some port es (Status.success, response) w' h =
    omega (arith, ap length h.parts, length-append h.skipped (datagram h.server h.bytes ∷ w'.inbox))
takes_some port es (Status.timeout_error, response) w' (k, p, l) =
    omega (arith, ap length p, length-append k w'.inbox)
takes_some port es (Status.error, response) w' (k, p, l) =
    omega (arith, ap length p, length-append k w'.inbox)
takes_some port es (_, response) w' h = absurd h

waited_status :
    (port : ℕ) (es : List Recv) (r : Status × List ℕ) (w' : World) (stack : List ℕ) (id session : ℕ)
    (first : Bool)
    → Result port es r w'
    → IsAccStatus (acc_status stack id session first r)
waited_status port es (Status.success, response) w' stack id session first h =
    check_acc_packet-IsAccStatus stack response id session first
waited_status port es (Status.timeout_error, response) w' stack id session first h = inr (inl refl)
waited_status port es (Status.error, response) w' stack id session first h = inr (inr (inr refl))
waited_status port es (_, response) w' stack id session first h = absurd h

passes_on :
    (port : ℕ) (es : List Recv) (r : Status × List ℕ) (w' : World)
    → Result port es r w'
    → (skipped : List Recv) × (es ≡ skipped ++ w'.inbox)
passes_on port es (Status.success, response) w' h = (
  h.skipped ++ datagram h.server h.bytes ∷ [],
  h.parts ∙ sym (append_assoc h.skipped (datagram h.server h.bytes ∷ []) w'.inbox),
)
passes_on port es (Status.timeout_error, response) w' (k, p, l) = (k, p)
passes_on port es (Status.error, response) w' (k, p, l) = (k, p)
passes_on port es (_, response) w' h = absurd h

waited_ack :
    (port : ℕ) (es : List Recv) (r : Status × List ℕ) (w' : World) (stack : List ℕ) (id session : ℕ)
    (first : Bool)
    → Result port es r w'
    → acc_status stack id session first r ≡ Status.success
    → Acks stack port session id es
waited_ack port es (Status.success, response) w' stack id session first h e =
    subst (Acks stack port session id) (sym h.parts) (
      Acks-right stack port session id h.skipped (datagram h.server h.bytes ∷ w'.inbox) (
        inl (
          h.port_ok,
          (first, ap (λ b. check_acc_packet stack b id session first) (sym h.first_bytes) ∙ e),
        )))
waited_ack port es (Status.timeout_error, response) w' stack id session first h e = absurd (cc)
waited_ack port es (Status.error, response) w' stack id session first h e = absurd (cc)
waited_ack port es (_, response) w' stack id session first h e = absurd h

AccWaited-before :
    (port session id counted : ℕ) (w w1 : World)
    → Unchanged w w1
    → ((skipped : List Recv) × (w.inbox ≡ skipped ++ w1.inbox))
    → length w1.inbox < length w.inbox
    → (r : Status × ℕ) (w' : World) → AccWaited port session id counted w1 r w'
    → AccWaited port session id counted w r w'
AccWaited-before port session id counted w w1 u (before, parts) shrinks r w' h = record {
  sent = h.sent ∙ u.sent;
  stack = h.stack ∙ u.stack;
  passed =
      let (skipped, later) = h.passed in
      (
        before ++ skipped,
        parts ∙ ap (◌++◌ before) later ∙ sym (append_assoc before skipped w'.inbox),
      );
  acked = λ e. subst (Acks w.stack port session id) (sym parts) (
      Acks-right w.stack port session id before w1.inbox
        (subst (λ st. Acks st port session id w1.inbox) u.stack (h.acked e)));
  shrinks = omega (arith, shrinks, h.shrinks);
  outcome = h.outcome;
}

pub acc_loop-AccWaited :
    (fuel counted id session port : ℕ) (first : Bool) (w : World)
    → counted ≤ 8
    → length w.inbox < fuel
    → Post
        (AccWaited port session id counted w)
        (λ v. Unit {0})
        (acc_loop fuel counted id session port first w)
unfolding acc_loop
acc_loop-AccWaited zero counted id session port first w few f = absurd (omega arith)
acc_loop-AccWaited (suc fuel) counted id session port first w few f =
    Post-bind (λ r w'. Result port w.inbox r w' × Unchanged w w')
      (AccWaited port session id counted w) (λ w'. w'.inbox ≡ []) (λ v. Unit {0})
      (wait_for_server_response port) _ w (wait_for_server_response-WaitsForServer port w).0
      (λ r w' (h, u).
        let status_ok = waited_status port w.inbox r w' w'.stack id session first h in
        let passed = passes_on port w.inbox r w' h in
        let shrinks = takes_some port w.inbox r w' h in
        acc_next-AccWaited port session id counted
          (λ v. acc_loop fuel counted id session port first v) w w' few u passed shrinks
          (Post-map (AccWaited port session id counted w') (AccWaited port session id counted w)
            (λ v. Unit {0}) (λ v. Unit {0})
            (AccWaited-before port session id counted w w' u passed shrinks) (λ v b. b) _
            (acc_loop-AccWaited fuel counted id session port first w' few (omega arith)))
          (acc_status w'.stack id session first r)
          (λ e.
            subst (λ st. Acks st port session id w.inbox) u.stack
              (waited_ack port w.inbox r w' w'.stack id session first h e))
          status_ok)
      (λ v b. tt)
