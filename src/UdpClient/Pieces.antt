-- ===== src/UdpClient/Pieces.antt =====
-- What UDP_client_send_DATA sends: the data, cut into pieces that are numbered DATA packets.
use mathlib.Core.List.{flatten}
use si_k_1projekt_tcp_udp.Common.{
  ℕ, zero, suc, ◌+◌, ◌-◌, ◌^◌, ◌≤◌, ◌<◌, ◌≡◌, ◌≢◌, refl, sym, ap, ap₂, subst, ◌∙◌, inl, inr, List,
  [], ◌∷◌, ◌++◌, true, ltb, ◌!=◌, Bool-cases, u32, take, length, length-take, take-append_left, All,
  arith, ==_self,
}
use si_k_1projekt_tcp_udp.Common.Bytes.{byte_swap}
use si_k_1projekt_tcp_udp.Constants.{Status}
use si_k_1projekt_tcp_udp.Packets.{Data, data_memory}
use si_k_1projekt_tcp_udp.Packets.Wire.{data_packet}
use si_k_1projekt_tcp_udp.MyVec.{MyVec}
use si_k_1projekt_tcp_udp.Net.{Address, Packet, World, Post, Post-map, sendto_wrapper}
use si_k_1projekt_tcp_udp.Client.{fill_data, next_size}
use si_k_1projekt_tcp_udp.Client.Packing.{fill_data-data_packet, fill_data-size}
use si_k_1projekt_tcp_udp.UdpClient.{
  Sending, udp_next_packet, send_data_packet, udp_send_loop, udp_client_send_data,
}
use si_k_1projekt_tcp_udp.UdpServer.Accept.{length-data_packet}
use si_k_1projekt_tcp_udp.UdpServer.UdpDelivery.{IsPayload}
use si_k_1projekt_tcp_udp.UdpClient.Rounds.{
  next_size-≤, next_payload, rest, rest_split, Left, next_payload-rest, length-next_payload,
  next_number, Left-last, Left-full,
}

-- The packets sent, the newest first, once the payloads have been sent on top of `before`.
abbrev pub outbox : Address → ℕ → ℕ → List (List ℕ) → List Packet → List Packet
outbox a session id [] before = before
outbox a session id (p ∷ ps) before =
    outbox a session (id + 1) ps (record { to = a; body = data_packet session id p } ∷ before)

-- `bytes` was sent to `a` in DATA packets numbered from `id`, and nothing else.
pub record SentPieces (a : Address) (session id : ℕ) (bytes : List ℕ) (w : World) (status : Status)
    (w' : World) : Type 0 where
  pub payloads : List (List ℕ)
  pub returned : status ≡ Status.success
  pub sizes : All IsPayload payloads
  pub joined : flatten payloads ≡ bytes
  pub sent : w'.sent ≡ outbox a session id payloads w.sent
  pub inbox : w'.inbox ≡ w.inbox

module _ (a : Address) (vec : MyVec) (session : ℕ) where
  abbrev after_next : Sending → World → World
  after_next s w = record w {
    sent =
        record { to = a; body = data_packet session s.curr_package_id (next_payload vec session s) }
        ∷ w.sent;
    sendto_results = [];
  }

  -- The bytes of the struct that are sent are the DATA packet.
  sent_bytes :
      (s : Sending)
      → let d = (udp_next_packet vec session s).0.packet in
        take (21 + byte_swap 4 d.nbr_of_bytes_in_packet) (data_memory d)
        ≡ data_packet session s.curr_package_id (next_payload vec session s)
  unfolding udp_next_packet
  sent_bytes s =
      let n = next_size s.bytes_left in
      rw
        (
          fill_data-size s.packet vec session s.curr_package_id s.start_cpy_pos n
              (next_size-≤ s.bytes_left),
          (fill_data-data_packet s.packet vec session s.curr_package_id s.start_cpy_pos n
              (next_size-≤ s.bytes_left)).0,
        )
        (take-append_left (21 + n)
          (data_packet session s.curr_package_id (next_payload vec session s)) _
          (length-data_packet session s.curr_package_id (next_payload vec session s)
            ∙ ap (λ k. 21 + k) (length-next_payload vec session s)))

  send_loop_step :
      (fuel : ℕ) (s : Sending) (w : World)
      → w.sendto_results ≡ []
      → (s.bytes_sent != vec.occupied_size) ≡ true
      → udp_send_loop (suc fuel) a vec session s w
        ≡ udp_send_loop fuel a vec session (udp_next_packet vec session s).0 (after_next s w)
  unfolding udp_send_loop send_data_packet sendto_wrapper udp_next_packet
  send_loop_step fuel s w none more =
      let n = next_size s.bytes_left in
      let d = (fill_data s.packet vec session s.curr_package_id s.start_cpy_pos n).0 in
      rw
        (
          more,
          (fill_data-data_packet s.packet vec session s.curr_package_id s.start_cpy_pos n
              (next_size-≤ s.bytes_left)).1,
          none,
          ==_self (21 + byte_swap 4 d.nbr_of_bytes_in_packet),
          sent_bytes s,
        )
        refl

  -- One packet before the rest.
  add_piece :
      (s s' : Sending) (later : List ℕ) (w w' : World) (status : Status)
      → 0 < s.bytes_left
      → s'.curr_package_id ≡ s.curr_package_id + 1
      → SentPieces a session s'.curr_package_id later (after_next s w) status w'
      → SentPieces a session s.curr_package_id (next_payload vec session s ++ later) w status w'
  unfolding flatten
  add_piece s s' later w w' status some_left next c = record {
    payloads = next_payload vec session s ∷ c.payloads;
    returned = c.returned;
    sizes =
        ((omega (arith, size, positive), omega (arith, size, next_size-≤ s.bytes_left)), c.sizes);
    joined = ap (λ l. next_payload vec session s ++ l) c.joined;
    sent = c.sent ∙ ap (λ k. outbox a session k c.payloads (after_next s w).sent) next;
    inbox = c.inbox;
  }
    where
      size : length (next_payload vec session s) ≡ next_size s.bytes_left
      size = length-next_payload vec session s

      positive : 0 < next_size s.bytes_left
      positive = ground arith

  add_first_piece :
      (n m start start' : ℕ) (s s' : Sending) (w w' : World) (status : Status)
      → s.bytes_left ≡ n + m
      → next_size s.bytes_left ≡ n
      → 0 < n
      → Left vec session s (n + m) start
      → rest vec session m start' ≡ rest vec session m (start + n)
      → s'.curr_package_id ≡ s.curr_package_id + 1
      → SentPieces a session s'.curr_package_id
          (rest vec session m start')
          (after_next s w)
          status
          w'
      → SentPieces a session s.curr_package_id (rest vec session (n + m) start) w status w'
  add_first_piece n m start start' s s' w w' status el en positive l e next c =
      subst (λ bs. SentPieces a session s.curr_package_id bs w status w') joined
        (add_piece s s' (rest vec session m start') w w' status (omega arith) next c)
    where
      payload : next_payload vec session s ≡ rest vec session n start
      payload = next_payload-rest vec session n m start s l en

      joined :
          next_payload vec session s ++ rest vec session m start' ≡ rest vec session (n + m) start
      joined = ap₂ ◌++◌ payload e ∙ sym (rest_split vec session n m start)

  -- A round, where the rest of the loop is known.
  send_round :
      (fuel n m start start' : ℕ) (s : Sending) (w : World)
      → vec.occupied_size < 2 ^ 32
      → w.sendto_results ≡ []
      → (s.bytes_sent != vec.occupied_size) ≡ true
      → Left vec session s (n + m) start
      → next_size s.bytes_left ≡ n
      → 0 < n
      → rest vec session m start' ≡ rest vec session m (start + n)
      → Post
          (SentPieces a session
            (udp_next_packet vec session s).0.curr_package_id
            (rest vec session m start')
            (after_next s w))
          (λ w'. ⊥)
          (udp_send_loop fuel a vec session (udp_next_packet vec session s).0 (after_next s w))
      → Post
          (SentPieces a session s.curr_package_id (rest vec session (n + m) start) w)
          (λ w'. ⊥)
          (udp_send_loop (suc fuel) a vec session s w)
  send_round fuel n m start start' s w small none more l en positive e h =
      rw (send_loop_step fuel s w none more) (
        Post-map _ _ (λ w'. ⊥) (λ w'. ⊥)
          (λ status w'.
            add_first_piece n m start start' s (udp_next_packet vec session s).0 w w' status
              l.left_ok en positive l e (next_number vec session s (n + m) start small l))
          (λ w' b. b) _ h)

  udp_send_loop-SentPieces :
      (fuel left start : ℕ) (s : Sending) (w : World)
      → vec.occupied_size < 2 ^ 32
      → left < fuel
      → w.sendto_results ≡ []
      → Left vec session s left start
      → Post
          (SentPieces a session s.curr_package_id (rest vec session left start) w)
          (λ w'. ⊥)
          (udp_send_loop fuel a vec session s w)
  unfolding udp_send_loop flatten
  udp_send_loop-SentPieces zero left start s w small f none l = absurd (omega arith)
  udp_send_loop-SentPieces (suc fuel) left start s w small f none l =
      elim (Bool-cases (s.bytes_sent != vec.occupied_size)) [
        | inr all ↦
            let z : 0 ≡ left = ground (arith, l.count_ok) in
            rw all (record {
              payloads = [];
              returned = refl;
              sizes = tt;
              joined = ap (λ k. rest vec session k start) z;
              sent = refl;
              inbox = refl;
            })
        | inl more ↦
            let some_left : 0 < left = ground (arith, l.count_ok) in
            elim (Bool-cases (ltb left 64000)) [
              | inl last ↦
                  let few : left < 64000 = ground arith in
                  let e : left + 0 ≡ left = omega arith in
                  let l' : Left vec session s (left + 0) start =
                    subst (λ k. Left vec session s k start) (sym e) l in
                  let (en, after) = Left-last vec session left start s small some_left few l' in
                  subst
                    (λ k.
                      Post (SentPieces a session s.curr_package_id (rest vec session k start) w)
                        (λ w'. ⊥) (udp_send_loop (suc fuel) a vec session s w))
                    e
                    (send_round fuel left 0 start start s w small none more l' en some_left refl (
                      udp_send_loop-SentPieces fuel 0 start (udp_next_packet vec session s).0
                        (after_next s w) small (omega arith) refl after))
              | inr full ↦
                  let m = left - 64000 in
                  let e : 64000 + m ≡ left = ground arith in
                  let l' : Left vec session s (64000 + m) start =
                    subst (λ k. Left vec session s k start) (sym e) l in
                  let (en, after) = Left-full vec session m start s small l' in
                  subst
                    (λ k.
                      Post (SentPieces a session s.curr_package_id (rest vec session k start) w)
                        (λ w'. ⊥) (udp_send_loop (suc fuel) a vec session s w))
                    e
                    (send_round fuel 64000 m start (start + 64000) s w small none more l' en
                      (omega arith) refl
                      (udp_send_loop-SentPieces fuel m (start + 64000)
                        (udp_next_packet vec session s).0 (after_next s w) small (omega (arith, e))
                        refl after))
            ]
      ]

-- If every `sendto` takes its packet whole, and the vector holds fewer than 2^32 bytes, none of
-- them NUL, then UDP_client_send_DATA comes back with SUCCESS, and it has sent the server exactly
-- the DATA packets of the session, numbered 0, 1, 2, …, with payloads of 1 to 64000 bytes which
-- together are the contents of the vector; it has taken nothing from the inbox.
pub udp_client_send_data-SentPieces :
    (a : Address) (vec : MyVec) (session : ℕ) (uninitialised : Data) (w : World)
    → w.sendto_results ≡ []
    → vec.occupied_size < 2 ^ 32
    → vec.occupied_size ≤ length vec.buff
    → All (λ x. x ≢ 0) (take vec.occupied_size vec.buff)
    → Post
        (SentPieces a session 0 (take vec.occupied_size vec.buff) w)
        (λ w'. ⊥)
        (udp_client_send_data a vec session uninitialised w)
unfolding udp_client_send_data
udp_client_send_data-SentPieces a vec session uninitialised w none small inside chars =
    udp_send_loop-SentPieces a vec session (suc vec.occupied_size) vec.occupied_size 0
      (record {
        bytes_left = u32 vec.occupied_size;
        bytes_sent = 0;
        start_cpy_pos = 0;
        curr_package_id = 0;
        packet = uninitialised;
      })
      w small (omega arith) none
      (record {
        left_ok = omega arith;
        start_ok = refl;
        count_ok = omega arith;
        number_ok = omega arith;
        position_ok = omega arith;
        all_there = omega (arith, length-take vec.occupied_size vec.buff);
        no_nul = chars;
      })
