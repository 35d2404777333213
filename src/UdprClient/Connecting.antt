-- ===== src/UdprClient/Connecting.antt =====
-- How UDPR_client_handler establishes the connection: how often CONN is sent.
use si_k_1projekt_tcp_udp.Common.{
  ℕ, zero, suc, ◌+◌, ◌≤◌, ◌<◌, ◌≡◌, refl, sym, ap, ◌∙◌, ◌⊎◌, inl, inr, List, [], ◌∷◌, ◌++◌,
  append_assoc, ltb, if◌then◌else◌, Bool-cases, length, length-append, All, All-append, arith,
}
use si_k_1projekt_tcp_udp.Constants.{Status}
use si_k_1projekt_tcp_udp.Packets.{conn_memory, init_conn}
use si_k_1projekt_tcp_udp.Packets.Wire.{conn_packet}
use si_k_1projekt_tcp_udp.Packets.Sending.{conn_bytes}
use si_k_1projekt_tcp_udp.Net.{
  Address, Packet, World, Outcome, done, M, Post, Post-bind, Post-map, sendto_wrapper,
}
use si_k_1projekt_tcp_udp.Client.{wait_for_server_response}
use si_k_1projekt_tcp_udp.Client.Knowing.{wait_for_server_response-WaitsForServer}
use si_k_1projekt_tcp_udp.UdprClient.{
  await_conacc, udpr_client_init_connection, connect_next, connect_loop,
}

-- What the client sends to establish the connection.
abbrev pub conn_to : Address → ℕ → ℕ → Packet
conn_to server session nbr = record { to = server; body = conn_packet session 3 nbr }

waits_quietly :
    (session port : ℕ) (w : World)
    → Post
        (λ status w'. w'.sent ≡ w.sent)
        (λ w'. Unit {0})
        (await_conacc session port Status.success w)
waits_quietly session port w =
    Post-bind _ (λ status w'. w'.sent ≡ w.sent) _ (λ w'. Unit {0}) (wait_for_server_response port) _
      w (wait_for_server_response-WaitsForServer port w).0 (λ r w' h. h.1.sent) (λ w' b. tt)

await_conacc-quiet :
    (session port : ℕ) (status : Status) (w : World)
    → Post (λ s w'. w'.sent ≡ w.sent) (λ w'. Unit {0}) (await_conacc session port status w)
await_conacc-quiet session port Status.success w = waits_quietly session port w
await_conacc-quiet session port Status.error w = refl
await_conacc-quiet session port Status.wrong_session_id w = refl
await_conacc-quiet session port Status.wrong_package_type_id w = refl
await_conacc-quiet session port Status.wrong_package_id w = refl
await_conacc-quiet session port Status.wrong_package_size w = refl
await_conacc-quiet session port Status.timeout_error w = refl
await_conacc-quiet session port Status.retransmission w = refl
await_conacc-quiet session port Status.conrjt_error w = refl
await_conacc-quiet session port Status.continue w = refl

sends_conn :
    (server : Address) (session nbr : ℕ) (w : World)
    → Post
        (λ status w'. w'.sent ≡ conn_to server session nbr ∷ w.sent)
        (λ w'. Unit {0})
        (udpr_client_init_connection server session nbr w)
unfolding udpr_client_init_connection sendto_wrapper
sends_conn server session nbr w =
    Post-bind (λ status w1. w1.sent ≡ conn_to server session nbr ∷ w.sent)
      (λ status w'. w'.sent ≡ conn_to server session nbr ∷ w.sent) (λ v. ⊥) (λ v. Unit {0})
      (sendto_wrapper server (conn_memory (init_conn session 3 nbr)) 18)
      (await_conacc session server.sin_port) w
      (ap (λ b. record { to = server; body = b } ∷ w.sent) (conn_bytes session 3 nbr))
      (λ status w1 e.
        Post-map (λ s w'. w'.sent ≡ w1.sent) (λ s w'. w'.sent ≡ conn_to server session nbr ∷ w.sent)
          (λ v. Unit {0}) (λ v. Unit {0}) (λ s w' h. h ∙ e) (λ v b. b)
          (await_conacc session server.sin_port status w1)
          (await_conacc-quiet session server.sin_port status w1))
      (λ w' b. tt)

-- The loop's end: only CONN packets were sent, and how many in view of the retransmissions counted.
pub record Connects (server : Address) (session nbr counted : ℕ) (w : World) (r : Status × ℕ)
    (w' : World) : Type 0 where
  pub packets : List Packet
  pub sent : w'.sent ≡ packets ++ w.sent
  pub all_conn : All (λ p. p ≡ conn_to server session nbr) packets
  pub at_most_9 : length packets + counted ≤ 9
  pub rounds : length packets + counted ≤ r.1 + 1
  pub status_ok :
      ((r.0 ≡ Status.success) × (r.1 ≤ 8)) ⊎ (r.0 ≡ Status.conrjt_error) ⊎ (r.0 ≡ Status.error)

abbrev ConnectsOrWaits : Address → ℕ → ℕ → ℕ → World → Outcome (Status × ℕ) → Type 0
ConnectsOrWaits server session nbr counted w =
    Post (Connects server session nbr counted w) (λ w'. Unit {0})

module _ (server : Address) (session nbr counted : ℕ) (w w' : World)
    (one : w'.sent ≡ conn_to server session nbr ∷ w.sent) (few : counted ≤ 8) where
  ended :
      (r : Status × ℕ)
      → (((r.0 ≡ Status.success) × (r.1 ≤ 8)) ⊎ (r.0 ≡ Status.conrjt_error) ⊎ (r.0 ≡ Status.error))
      → counted ≤ r.1
      → Connects server session nbr counted w r w'
  ended r h more = record {
    packets = conn_to server session nbr ∷ [];
    sent = one;
    all_conn = (refl, tt);
    at_most_9 = omega arith;
    rounds = omega arith;
    status_ok = h;
  }

  one_more :
      (r : Status × ℕ) (v : World)
      → Connects server session nbr (counted + 1) w' r v
      → Connects server session nbr counted w r v
  one_more r v h = record {
    packets = h.packets ++ conn_to server session nbr ∷ [];
    sent = h.sent ∙ ap (◌++◌ h.packets) one ∙ sym (append_assoc h.packets _ w.sent);
    all_conn = All-append (λ p. p ≡ conn_to server session nbr) h.packets _ h.all_conn (refl, tt);
    at_most_9 =
        omega (arith, h.at_most_9, length-append h.packets (conn_to server session nbr ∷ []));
    rounds = omega (arith, h.rounds, length-append h.packets (conn_to server session nbr ∷ []));
    status_ok = h.status_ok;
  }

  failed_attempt :
      (retry : M (Status × ℕ))
      → (counted + 1 ≤ 8 → ConnectsOrWaits server session nbr (counted + 1) w' (retry w'))
      → ConnectsOrWaits server session nbr counted w
          ((if ltb 8 (counted + 1) then done (Status.error, counted + 1) else retry) w')
  failed_attempt retry h = elim (Bool-cases (ltb 8 (counted + 1))) [
    | inl last ↦ rw last (ended (Status.error, counted + 1) (inr (inr refl)) (omega arith))
    | inr more ↦
        rw more
          (Post-map _ _ (λ v. Unit {0}) (λ v. Unit {0}) one_more (λ v b. tt) _ (h (ground arith)))
  ]

  connect_next-Connects :
      (retry : M (Status × ℕ))
      → (counted + 1 ≤ 8 → ConnectsOrWaits server session nbr (counted + 1) w' (retry w'))
      → (status : Status)
      → ConnectsOrWaits server session nbr counted w (connect_next counted retry status w')
  connect_next-Connects retry h Status.success =
      ended (Status.success, counted) (inl (refl, few)) (omega arith)
  connect_next-Connects retry h Status.conrjt_error =
      ended (Status.conrjt_error, counted) (inr (inl refl)) (omega arith)
  connect_next-Connects retry h Status.error = failed_attempt retry h
  connect_next-Connects retry h Status.wrong_session_id = failed_attempt retry h
  connect_next-Connects retry h Status.wrong_package_type_id = failed_attempt retry h
  connect_next-Connects retry h Status.wrong_package_id = failed_attempt retry h
  connect_next-Connects retry h Status.wrong_package_size = failed_attempt retry h
  connect_next-Connects retry h Status.timeout_error = failed_attempt retry h
  connect_next-Connects retry h Status.retransmission = failed_attempt retry h
  connect_next-Connects retry h Status.continue = failed_attempt retry h

connect_loop-Connects_from :
    (fuel : ℕ) (server : Address) (session nbr counted : ℕ) (w : World)
    → counted ≤ 8
    → 9 < fuel + counted
    → ConnectsOrWaits server session nbr counted w (connect_loop fuel server session nbr counted w)
unfolding connect_loop
connect_loop-Connects_from zero server session nbr counted w few f = absurd (omega arith)
connect_loop-Connects_from (suc fuel) server session nbr counted w few f =
    Post-bind _ _ (λ v. Unit {0}) (λ v. Unit {0}) (udpr_client_init_connection server session nbr) _
      w (sends_conn server session nbr w)
      (λ status w' one.
        connect_next-Connects server session nbr counted w w' one few _
          (λ again.
            connect_loop-Connects_from fuel server session nbr (counted + 1) w' again (omega arith))
          status)
      (λ v b. tt)

-- The loop of UDPR_client_handler that establishes the connection, on MAX_RETRANSMITS + 2 rounds
-- of the model, never runs out of them. If it ends, it has sent at most 9 packets, all of them CONN
-- packets of the session with the length of the data, to the server, and it ends with SUCCESS and
-- at most 8 retransmissions counted, with a refusal, or with an error; it has sent at most one
-- packet more than the retransmissions it has counted.
pub connect_loop-Connects :
    (server : Address) (session nbr : ℕ) (w : World)
    → Post
        (Connects server session nbr 0 w)
        (λ w'. Unit {0})
        (connect_loop 10 server session nbr 0 w)
connect_loop-Connects server session nbr w =
    connect_loop-Connects_from 10 server session nbr 0 w (omega arith) (omega arith)
