-- ===== src/UdprClient/Sent.antt =====
-- What UDPR_client_send_DATA sends in a whole transfer.
use si_k_1projekt_tcp_udp.Common.{
  ℕ, zero, suc, ◌+◌, ◌-◌, ◌*◌, ◌^◌, ◌≤◌, ◌<◌, ◌≡◌, ◌≢◌, refl, sym, ap, subst, ◌∙◌, inl, inr, [],
  ◌∷◌, ◌++◌, append_assoc, true, ltb, Bool-cases, take, length, length-append, length-take, All,
  All-append, arith, u32,
}
use si_k_1projekt_tcp_udp.Common.Bytes.{byte_swap}
use si_k_1projekt_tcp_udp.Constants.{Status}
use si_k_1projekt_tcp_udp.Packets.{Data, data_memory}
use si_k_1projekt_tcp_udp.Packets.Wire.{data_packet}
use si_k_1projekt_tcp_udp.MyVec.{MyVec}
use si_k_1projekt_tcp_udp.Net.{
  Address, Packet, World, Outcome, M, Post, Post-bind, Post-map, sendto_wrapper,
}
use si_k_1projekt_tcp_udp.Client.{fill_data, next_size}
use si_k_1projekt_tcp_udp.UdprClient.Waiting.{udpr_client_handle_acc}
use si_k_1projekt_tcp_udp.UdprClient.Transfer.{
  UdprSending, next_piece, after_acc, await_acc, send_filled, udpr_send_loop, udpr_client_send_data,
}
use si_k_1projekt_tcp_udp.UdprClient.Outbox.{IsPiece, IsSent-left, IsSent-right, UdprSends}
use si_k_1projekt_tcp_udp.UdprClient.Pieces.{
  piece, data_of, Due, Due-with, next_piece_lem, next_piece-Due, sent_bytes,
}
use si_k_1projekt_tcp_udp.UdprClient.Sending.{Acks, Acks-right, AccWaited, acc_loop-AccWaited}

-- Going on to the next piece keeps the count of retransmissions.
kept : (s : UdprSending) → (next_piece s).nbr_of_retransmits ≡ s.nbr_of_retransmits
unfolding next_piece
kept s = refl

module _ (server : Address) (vec : MyVec) (session : ℕ) (small : vec.occupied_size < 2 ^ 32)
    (inside : vec.occupied_size ≤ length vec.buff) (chars : All (λ x. x ≢ 0) (data_of vec)) where
  abbrev Sends : ℕ → UdprSending → World → Outcome Status → Type 0
  Sends n s w = Post (UdprSends server vec session n s w) (λ v. Unit {0})

  abbrev this_packet : UdprSending → Packet
  this_packet s = record {
    to = server;
    body = data_packet session s.curr_package_id (piece (data_of vec) s.curr_package_id);
  }

  abbrev filled_by : UdprSending → Data × Status
  filled_by s =
      fill_data s.packet vec session s.curr_package_id s.start_cpy_pos (next_size s.bytes_left)

  -- An acknowledgement that comes later comes.
  abbrev Later : World → World → Type 0
  Later w w1 =
      (i : ℕ)
      → Acks w1.stack server.sin_port session i w1.inbox
      → Acks w.stack server.sin_port session i w.inbox

  Later-waited :
      (id counted : ℕ) (w w1 w2 : World) (r : Status × ℕ)
      → w1.inbox ≡ w.inbox
      → w1.stack ≡ w.stack
      → AccWaited server.sin_port session id counted w1 r w2
      → Later w w2
  Later-waited id counted w w1 w2 r same stack h i k =
      let (skipped, parts) = h.passed in
      subst (Acks w.stack server.sin_port session i) (sym parts ∙ same) (
        Acks-right w.stack server.sin_port session i skipped w2.inbox
          (subst (λ st. Acks st server.sin_port session i w2.inbox) (h.stack ∙ stack) k))

  -- One packet was sent: the rest of the round.
  module _ (n : ℕ) (s : UdprSending) (w w1 : World) (more : s.bytes_sent < vec.occupied_size)
      (left : vec.occupied_size ≤ s.bytes_sent + 64000 * n) (due : Due vec session s)
      (counted : s.nbr_of_retransmits ≤ 8) (one : w1.sent ≡ this_packet s ∷ w.sent) where
    is_piece : IsPiece session (data_of vec) (this_packet s).body
    is_piece = (
      s.curr_package_id,
      omega (arith, due.piece_ok more, length-take vec.occupied_size vec.buff),
      refl,
    )

    stops : UdprSends server vec session n s w Status.error w1
    stops = record {
      packets = this_packet s ∷ [];
      sent = one;
      pieces = ((refl, is_piece), tt);
      few = omega arith;
      returned = inr refl;
      all_sent = λ e. cc;
      acked = λ e. cc;
    }

    retransmits :
        (s' : UdprSending)
        → s'.curr_package_id ≡ s.curr_package_id
        → s'.nbr_of_retransmits ≡ s.nbr_of_retransmits + 1
        → Later w w1
        → (status : Status) (w' : World) → UdprSends server vec session n s' w1 status w'
        → UdprSends server vec session n s w status w'
    retransmits s' id count before status w' h = record {
      packets = h.packets ++ this_packet s ∷ [];
      sent = h.sent ∙ ap (◌++◌ h.packets) one ∙ sym (append_assoc h.packets _ w.sent);
      pieces = All-append _ h.packets _ h.pieces ((refl, is_piece), tt);
      few = omega (arith, h.few, count, length-append h.packets (this_packet s ∷ []));
      returned = h.returned;
      all_sent = λ e i later inside_data.
          IsSent-left h.packets _ _ (h.all_sent e i (omega (arith, id, later)) inside_data);
      acked =
          λ e i later inside_data. before i (h.acked e i (omega (arith, id, later)) inside_data);
    }

    goes_on :
        (s' : UdprSending)
        → s'.curr_package_id ≡ s.curr_package_id + 1
        → s'.nbr_of_retransmits ≡ s.nbr_of_retransmits
        → 0 < n
        → Later w w1
        → Acks w.stack server.sin_port session s.curr_package_id w.inbox
        → (status : Status) (w' : World) → UdprSends server vec session (n - 1) s' w1 status w'
        → UdprSends server vec session n s w status w'
    goes_on s' id count positive before ack status w' h = record {
      packets = h.packets ++ this_packet s ∷ [];
      sent = h.sent ∙ ap (◌++◌ h.packets) one ∙ sym (append_assoc h.packets _ w.sent);
      pieces = All-append _ h.packets _ h.pieces ((refl, is_piece), tt);
      few = omega (arith, h.few, count, positive, length-append h.packets (this_packet s ∷ []));
      returned = h.returned;
      all_sent = λ e i later inside_data. elim (Bool-cases (ltb s.curr_package_id i)) [
        | inl beyond ↦ IsSent-left h.packets _ _ (h.all_sent e i (ground (arith, id)) inside_data)
        | inr this ↦
            let j : s.curr_package_id ≡ i = ground arith in
            IsSent-right h.packets _ _
              (inl (ap (λ k. data_packet session k (piece (data_of vec) k)) j))
      ];
      acked = λ e i later inside_data. elim (Bool-cases (ltb s.curr_package_id i)) [
        | inl beyond ↦ before i (h.acked e i (ground (arith, id)) inside_data)
        | inr this ↦
            let j : s.curr_package_id ≡ i = ground arith in
            subst (λ k. Acks w.stack server.sin_port session k w.inbox) j ack
      ];
    }

  after_acc-Sends :
      (n : ℕ) (s : UdprSending) (w w1 : World) (go_on : UdprSending → M Status) (packet : Data)
      → s.bytes_sent < vec.occupied_size
      → vec.occupied_size ≤ s.bytes_sent + 64000 * n
      → Due vec session s
      → s.nbr_of_retransmits ≤ 8
      → w1.sent ≡ this_packet s ∷ w.sent
      → w1.inbox ≡ w.inbox
      → w1.stack ≡ w.stack
      → ((n' : ℕ) (s' : UdprSending) (w2 : World)
          → vec.occupied_size ≤ s'.bytes_sent + 64000 * n'
          → Due vec session s'
          → s'.nbr_of_retransmits ≤ 8
          → length w2.inbox < length w1.inbox
          → Sends n' s' w2 (go_on s' w2))
      → (r : Status × ℕ) (w2 : World)
      → AccWaited server.sin_port session s.curr_package_id s.nbr_of_retransmits w1 r w2
      → Sends n s w (after_acc go_on (record s { packet = packet }) r w2)
  after_acc-Sends n s w w1 go_on packet more left due counted one same stack rest (status, c) w2 h =
      elim h.outcome [
        | inl ok ↦
            let s1 = record s { packet = packet } in
            let s2 = next_piece s1 in
            let due1 = Due-with vec session s s.nbr_of_retransmits packet due in
            let (id, left', positive) = next_piece_lem vec session n s1 small more left due1 in
            subst (λ x. Sends n s w (after_acc go_on s1 x w2)) (sym ok)
              (Post-map (UdprSends server vec session (n - 1) s2 w2)
                (UdprSends server vec session n s w) (λ v. Unit {0}) (λ v. Unit {0})
                (goes_on n s w w2 more left due counted (h.sent ∙ one) s2 id (kept s1) positive
                  (Later-waited s.curr_package_id s.nbr_of_retransmits w w1 w2 (status, c) same
                    stack h)
                  (subst (λ st. Acks st server.sin_port session s.curr_package_id w.inbox) stack
                    (subst (Acks w1.stack server.sin_port session s.curr_package_id) same
                      (h.acked (ap (λ x. x.0) ok)))))
                (λ v b. b) _
                (rest (n - 1) s2 w2 left' (next_piece-Due vec session s1 small more due1)
                  (omega (arith, counted, kept s1)) h.shrinks))
        | inr (inl (again, few)) ↦
            let s1 = record s { packet = packet } in
            let s2 = record s1 { nbr_of_retransmits = s.nbr_of_retransmits + 1 } in
            subst (λ x. Sends n s w (after_acc go_on s1 x w2)) (sym again)
              (Post-map (UdprSends server vec session n s2 w2) (UdprSends server vec session n s w)
                (λ v. Unit {0}) (λ v. Unit {0})
                (retransmits n s w w2 more left due counted (h.sent ∙ one) s2 refl refl (
                  Later-waited s.curr_package_id s.nbr_of_retransmits w w1 w2 (status, c) same stack
                    h))
                (λ v b. b) _
                (rest n s2 w2 left (Due-with vec session s (s.nbr_of_retransmits + 1) packet due)
                  few h.shrinks))
        | inr (inr err) ↦
            subst (λ x. Sends n s w (after_acc go_on (record s { packet = packet }) (x, c) w2))
              (sym err) (stops n s w w2 more left due counted (h.sent ∙ one))
      ]

  -- What follows `sendto_wrapper`, by its status.
  await_acc-Sends :
      (n : ℕ) (s : UdprSending) (w w1 : World) (go_on : UdprSending → M Status) (packet : Data)
      → s.bytes_sent < vec.occupied_size
      → vec.occupied_size ≤ s.bytes_sent + 64000 * n
      → Due vec session s
      → s.nbr_of_retransmits ≤ 8
      → w1.sent ≡ this_packet s ∷ w.sent
      → w1.inbox ≡ w.inbox
      → w1.stack ≡ w.stack
      → ((n' : ℕ) (s' : UdprSending) (w2 : World)
          → vec.occupied_size ≤ s'.bytes_sent + 64000 * n'
          → Due vec session s'
          → s'.nbr_of_retransmits ≤ 8
          → length w2.inbox < length w1.inbox
          → Sends n' s' w2 (go_on s' w2))
      → (status : Status)
      → Sends n s w
          (await_acc go_on (record s { packet = packet }) session server.sin_port status w1)
  unfolding udpr_client_handle_acc
  await_acc-Sends n s w w1 go_on packet more left due counted one same stack rest Status.success =
      Post-bind (AccWaited server.sin_port session s.curr_package_id s.nbr_of_retransmits w1)
        (UdprSends server vec session n s w) (λ v. Unit {0}) (λ v. Unit {0})
        (udpr_client_handle_acc s.nbr_of_retransmits s.curr_package_id session server.sin_port
          s.is_before_first_acc)
        _ w1
        (acc_loop-AccWaited (suc (length w1.inbox)) s.nbr_of_retransmits s.curr_package_id session
          server.sin_port s.is_before_first_acc w1 counted (omega arith))
        (after_acc-Sends n s w w1 go_on packet more left due counted one same stack rest) (λ v b. b)
  await_acc-Sends n s w w1 go_on packet more left due counted one same stack rest _ =
      stops n s w w1 more left due counted one

  -- A round, where the rest of the loop is known.
  send_round :
      (n : ℕ) (s : UdprSending) (w : World) (go_on : UdprSending → M Status)
      → s.bytes_sent < vec.occupied_size
      → vec.occupied_size ≤ s.bytes_sent + 64000 * n
      → Due vec session s
      → s.nbr_of_retransmits ≤ 8
      → ((n' : ℕ) (s' : UdprSending) (w2 : World)
          → vec.occupied_size ≤ s'.bytes_sent + 64000 * n'
          → Due vec session s'
          → s'.nbr_of_retransmits ≤ 8
          → length w2.inbox < length w.inbox
          → Sends n' s' w2 (go_on s' w2))
      → Sends n s w (
          send_filled go_on
            (record s { packet = (filled_by s).0 })
            server
            session
            (filled_by s).1
            w)
  unfolding sendto_wrapper
  send_round n s w go_on more left due counted rest =
      let (bytes, ok) = sent_bytes vec session s inside chars more due in
      subst
        (λ x.
          Sends n s w
            (send_filled go_on (record s { packet = (filled_by s).0 }) server session x w))
        (sym ok)
        (Post-bind
          (λ status w1.
            (w1.sent ≡ this_packet s ∷ w.sent) × (w1.inbox ≡ w.inbox) × (w1.stack ≡ w.stack))
          (UdprSends server vec session n s w) (λ v. ⊥) (λ v. Unit {0})
          (sendto_wrapper server (data_memory (filled_by s).0)
            (21 + byte_swap 4 (filled_by s).0.nbr_of_bytes_in_packet))
          _ w (ap (λ b. record { to = server; body = b } ∷ w.sent) bytes, refl, refl)
          (λ status w1 (one, same, stack).
            await_acc-Sends n s w w1 go_on (filled_by s).0 more left due counted one same stack
              (λ n' s' w2 l d c shrinks.
                rest n' s' w2 l d c (omega (arith, shrinks, ap length same)))
              status)
          (λ v b. tt))

  udpr_send_loop-Sends :
      (fuel n : ℕ) (s : UdprSending) (w : World)
      → length w.inbox < fuel
      → vec.occupied_size ≤ s.bytes_sent + 64000 * n
      → Due vec session s
      → s.nbr_of_retransmits ≤ 8
      → Sends n s w (udpr_send_loop fuel server vec session s w)
  unfolding udpr_send_loop
  udpr_send_loop-Sends zero n s w f left due counted = absurd (omega arith)
  udpr_send_loop-Sends (suc fuel) n s w f left due counted =
      elim (Bool-cases (ltb s.bytes_sent vec.occupied_size)) [
        | inr all ↦ rw all (record {
          packets = [];
          sent = refl;
          pieces = tt;
          few = omega arith;
          returned = inl refl;
          all_sent =
              λ e i later inside_data. absurd (ground (arith, due.end_ok, later, inside_data));
          acked = λ e i later inside_data. absurd (ground (arith, due.end_ok, later, inside_data));
        })
        | inl more ↦ rw more (
            send_round n s w (λ s' v. udpr_send_loop fuel server vec session s' v) (ground arith)
              left due counted
              (λ n' s' w2 l d c shrinks.
                udpr_send_loop-Sends fuel n' s' w2 (omega (arith, shrinks)) l d c))
      ]

-- UDPR_client_send_DATA, for a vector of fewer than 2^32 bytes, none of them NUL, never runs out
-- of the model's fuel. If it comes back, then with SUCCESS or ERROR, and it has sent only DATA
-- packets of the session to the server, each of which carries a piece of the vector: packet i the
-- 64000 bytes, or what there is of them, from position 64000 i on. Where these are at most `n`
-- pieces, and at most 8 retransmissions were counted before, it has sent at most n + 9 packets
-- less those retransmissions; and with SUCCESS it has sent every piece.
pub udpr_client_send_data-UdprSends :
    (server : Address) (vec : MyVec) (session n counted : ℕ) (uninitialised : Data) (w : World)
    → vec.occupied_size < 2 ^ 32
    → vec.occupied_size ≤ length vec.buff
    → All (λ x. x ≢ 0) (take vec.occupied_size vec.buff)
    → vec.occupied_size ≤ 64000 * n
    → counted ≤ 8
    → Post
        (UdprSends server vec session n
          (record {
            bytes_left = vec.occupied_size;
            bytes_sent = 0;
            start_cpy_pos = 0;
            curr_package_id = 0;
            is_before_first_acc = true;
            nbr_of_retransmits = counted;
            packet = uninitialised;
          })
          w)
        (λ w'. Unit)
        (udpr_client_send_data server vec session counted uninitialised w)
unfolding udpr_client_send_data
udpr_client_send_data-UdprSends server vec session n counted uninitialised w small inside chars
      pieces few =
    let e : u32 vec.occupied_size ≡ vec.occupied_size = omega arith in
    rw e (
      udpr_send_loop-Sends server vec session small inside chars (suc (length w.inbox)) n _ w
        (omega arith) (omega (arith, pieces))
        (record {
          total_ok = omega arith;
          start_ok = refl;
          number_ok = omega arith;
          end_ok = omega arith;
          piece_ok = λ h. omega arith;
        })
        few)
