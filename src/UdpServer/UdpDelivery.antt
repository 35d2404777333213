-- ===== src/UdpServer/UdpDelivery.antt =====
-- UDP_data_receive with a client that keeps to the protocol: it ends with RCVD.
use si_k_1projekt_tcp_udp.Common.{
  ℕ, zero, suc, ◌+◌, ◌^◌, ◌≤◌, ◌<◌, ◌≡◌, refl, sym, ap, ap₂, subst, ◌∙◌, List, [], ◌∷◌, ◌++◌, false,
  u64, take, length, take_all, All, arith, lt→ltb, le→ltb, ==_iff,
}
use si_k_1projekt_tcp_udp.Constants.{Status}
use si_k_1projekt_tcp_udp.Packets.{Conn}
use si_k_1projekt_tcp_udp.Packets.Wire.{data_packet, short_packet}
use si_k_1projekt_tcp_udp.Packets.Sending.{rcvd_bytes}
use si_k_1projekt_tcp_udp.Net.{
  Address, Recv, timed_out, failed, interrupted, datagram, Packet, World, Post, Post-bind,
}
use si_k_1projekt_tcp_udp.UdpServer.Receive.{differs, send_rcvd}
use si_k_1projekt_tcp_udp.UdpServer.Reading.{own}
use si_k_1projekt_tcp_udp.UdpServer.Accept.{accepts_packet, length-data_packet}
use si_k_1projekt_tcp_udp.UdpServer.Checks.{check_if_correct_data_packet}
use si_k_1projekt_tcp_udp.UdpServer.Session.{
  SessionEnd, received_all, Round, again, ended, Progress, udp_round, udp_finish, udp_loop,
  udp_data_receive, next_round,
}
use si_k_1projekt_tcp_udp.UdpServer.UdpRounds.{Stopped, Cause, AfterRound, udp_round_lem}
use si_k_1projekt_tcp_udp.UdpServer.UdpTransfer.{
  data_packets, total, own_accepted, All-part, inbox_shrinks, no_wrap,
}

-- No call of `recvfrom` fails.
abbrev pub IsDatagram : Recv → Type 0
IsDatagram (datagram from bytes) = Unit
IsDatagram timed_out = ⊥
IsDatagram failed = ⊥
IsDatagram interrupted = ⊥

-- A payload that the protocol allows.
abbrev pub IsPayload : List ℕ → Type 0
IsPayload p = (1 ≤ length p) × (length p ≤ 64000)

same_address : (x y : Address) → differs x y ≡ false → x ≡ y
same_address x y h = ground arith

-- RCVD to the client is the last packet sent.
abbrev pub EndsWithRcvd : Conn → Address → SessionEnd → World → Type 0
EndsWithRcvd conn a e w =
    (earlier : List Packet) × (e ≡ received_all)
    × (w.sent ≡ record { to = a; body = short_packet 7 conn.session_id } ∷ earlier)

udp_finish-EndsWithRcvd :
    (conn : Conn) (a : Address) (s : Progress) (w : World)
    → w.udp_client_address ≡ a
    → s.bytes_recvd ≡ conn.nbr_of_bytes_to_be_sent
    → Post (EndsWithRcvd conn a) (λ w'. ⊥) (udp_finish conn s w)
unfolding udp_finish send_rcvd
udp_finish-EndsWithRcvd conn a s w e all =
    rw ((==_iff _ _).1 all) (
      w.sent,
      refl,
      ap₂ (λ x b. record { to = x; body = b } ∷ w.sent) e (rcvd_bytes conn.session_id),
    )

-- The client's next datagram, where it is known what the client sends.
next_datagram :
    (a from : Address) (bytes packet : List ℕ) (skipped es inbox : List Recv)
    (later : List (List ℕ))
    → inbox ≡ skipped ++ datagram from bytes ∷ es
    → own a skipped ≡ []
    → differs from a ≡ false
    → own a inbox ≡ packet ∷ later
    → (bytes ≡ packet) × (own a es ≡ later)
next_datagram a from bytes packet skipped es inbox later parts foreign mine e =
    let f : bytes ∷ own a es ≡ packet ∷ later =
      sym (own_accepted a from bytes skipped es foreign mine) ∙ sym (ap (own a) parts) ∙ e in
    (cc, cc)

-- A packet of the format passes the check, however large the buffer is beyond it.
packet_checked :
    (stack bytes : List ℕ) (conn : Conn) (id : ℕ) (payload : List ℕ)
    → bytes ≡ data_packet conn.session_id id payload
    → conn.session_id < 2 ^ 64
    → id < 2 ^ 64
    → length payload ≤ 64000
    → let c = check_if_correct_data_packet stack (take 64032 bytes) conn id in
      (c.0 ≡ Status.success) × (c.1.nbr_of_bytes_in_packet ≡ length payload)
packet_checked stack bytes conn id payload e hs hi hp =
    let whole : take 64032 bytes ≡ data_packet conn.session_id id payload =
      take_all 64032 bytes
        (omega (arith, ap length e, length-data_packet conn.session_id id payload))
      ∙ e in
    subst
      (λ b.
        ((check_if_correct_data_packet stack b conn id).0 ≡ Status.success)
        × ((check_if_correct_data_packet stack b conn id).1.nbr_of_bytes_in_packet
            ≡ length payload))
      (sym whole) (accepts_packet stack conn id payload hs hi hp)

rest_total : (x n t y z : ℕ) → y ≡ x + n → x + (n + t) ≡ z → y + t ≡ z
rest_total x n t y z e f = omega arith

length-le-total : (ps : List (List ℕ)) → All IsPayload ps → length ps ≤ total ps
length-le-total [] h = omega arith
length-le-total (p ∷ ps) h = omega (arith, length-le-total ps h.1)

-- No round of an honest connection ends it.
ended_early :
    (w : World) (a : Address) (conn : Conn) (s : Progress) (w' : World) (p : List ℕ)
    (later : List (List ℕ)) (e : SessionEnd)
    → Stopped conn a s w e w'
    → All IsDatagram w.inbox
    → own a w.inbox ≡ data_packet conn.session_id s.curr_package_id p ∷ later
    → length p ≤ 64000
    → conn.session_id < 2 ^ 64
    → s.curr_package_id < 2 ^ 64
    → ⊥
ended_early w a conn s w' p later e h ds own_ok small hs hi = go h.event h.parts h.cause
  where
    go : (event : Recv) → w.inbox ≡ h.skipped ++ event ∷ w'.inbox → Cause conn a s w event → ⊥
    go timed_out parts c =
        (All-part IsDatagram h.skipped timed_out w'.inbox (subst (All IsDatagram) parts ds)).0
    go failed parts c =
        (All-part IsDatagram h.skipped failed w'.inbox (subst (All IsDatagram) parts ds)).0
    go interrupted parts c =
        (All-part IsDatagram h.skipped interrupted w'.inbox (subst (All IsDatagram) parts ds)).0
    go (datagram from bytes) parts (mine, fails) =
        fails
          (packet_checked w.stack bytes conn s.curr_package_id p
            (next_datagram a from bytes _ h.skipped w'.inbox w.inbox later parts h.foreign mine
              own_ok).0
            hs hi small).0

pub udp_loop-EndsWithRcvd :
    (payloads : List (List ℕ)) (fuel : ℕ) (conn : Conn) (a : Address) (s : Progress) (w : World)
    → length w.inbox < fuel
    → All IsDatagram w.inbox
    → own a w.inbox ≡ data_packets conn.session_id s.curr_package_id payloads
    → All IsPayload payloads
    → s.bytes_recvd + total payloads ≡ conn.nbr_of_bytes_to_be_sent
    → conn.nbr_of_bytes_to_be_sent < 2 ^ 64
    → s.curr_package_id + length payloads < 2 ^ 64
    → conn.session_id < 2 ^ 64
    → (payloads ≡ [] → w.udp_client_address ≡ a)
    → Post (EndsWithRcvd conn a) (λ w'. ⊥) (udp_loop fuel conn a s w)
unfolding udp_loop
udp_loop-EndsWithRcvd [] zero conn a s w f ds own_ok ps sum big ids hs addr = absurd (omega arith)
udp_loop-EndsWithRcvd (p ∷ ps) zero conn a s w f ds own_ok sizes sum big ids hs addr =
    absurd (omega arith)
udp_loop-EndsWithRcvd [] (suc fuel) conn a s w f ds own_ok ps sum big ids hs addr =
    rw (le→ltb s.bytes_recvd conn.nbr_of_bytes_to_be_sent (omega arith))
      (udp_finish-EndsWithRcvd conn a s w (addr refl) (omega arith))
udp_loop-EndsWithRcvd (p ∷ ps) (suc fuel) conn a s w f ds own_ok sizes sum big ids hs addr =
    rw (lt→ltb s.bytes_recvd conn.nbr_of_bytes_to_be_sent (omega arith)) (
      Post-bind _ _ _ _ (udp_round conn a s) _ w (udp_round_lem conn a s w)
        (λ o w' h. rounds (λ s' w'. udp_loop-EndsWithRcvd ps fuel conn a s' w') o w' h)
        (λ w' h. cc))
  where
    rounds :
        ((s' : Progress) (w' : World)
          → length w'.inbox < fuel
          → All IsDatagram w'.inbox
          → own a w'.inbox ≡ data_packets conn.session_id s'.curr_package_id ps
          → All IsPayload ps
          → s'.bytes_recvd + total ps ≡ conn.nbr_of_bytes_to_be_sent
          → conn.nbr_of_bytes_to_be_sent < 2 ^ 64
          → s'.curr_package_id + length ps < 2 ^ 64
          → conn.session_id < 2 ^ 64
          → (ps ≡ [] → w'.udp_client_address ≡ a)
          → Post (EndsWithRcvd conn a) (λ w'. ⊥) (udp_loop fuel conn a s' w'))
        → (o : Round Progress) (w' : World) → AfterRound conn a s w o w'
        → Post (EndsWithRcvd conn a) (λ v. ⊥) (next_round (λ s' v. udp_loop fuel conn a s' v) o w')
    rounds go_on (ended e) w' h =
        absurd (ended_early w a conn s w' p _ e h ds own_ok sizes.0.1 hs (omega arith))
    rounds go_on (again s') w' h =
        let (same, rest) =
          next_datagram a h.from h.bytes _ h.skipped w'.inbox w.inbox _ h.parts h.foreign h.mine
            own_ok in
        let (ok, n) =
          packet_checked w.stack h.bytes conn s.curr_package_id p same hs (omega arith) sizes.0.1 in
        let id : s'.curr_package_id ≡ s.curr_package_id + 1 =
          ap (λ (t : Progress). t.curr_package_id) h.next
          ∙ no_wrap (s.curr_package_id + 1) (omega arith) in
        let got : s'.bytes_recvd ≡ s.bytes_recvd + length p =
          ap (λ (t : Progress). t.bytes_recvd) h.next
          ∙ ap (λ k. u64 (s.bytes_recvd + k)) n
          ∙ no_wrap (s.bytes_recvd + length p) (omega arith) in
        let fewer = inbox_shrinks w.inbox h.skipped w'.inbox (datagram h.from h.bytes) h.parts in
        go_on s' w' (omega arith)
          (All-part IsDatagram h.skipped (datagram h.from h.bytes) w'.inbox
            (subst (All IsDatagram) h.parts ds)).1
          (rest ∙ ap (λ i. data_packets conn.session_id i ps) (sym id)) sizes.1
          (rest_total s.bytes_recvd (length p) (total ps) _ _ got sum) big (omega arith) hs
          (λ x. h.client_address ∙ same_address h.from a h.mine)

-- An honest client with interruptions by others gets its RCVD. The inbox holds datagrams only, of
-- which the client's are, in this order, the DATA packets 0, 1, 2, … that carry `payloads`, each
-- of 1 to 64000 bytes and together as long as CONN declared; any datagrams of other clients stand
-- between them. Then UDP_data_receive comes back, and the last packet it sends is RCVD with the
-- session's identifier, to this client. There is at least one payload; the session and the
-- declared length are below 2^64.
pub udp_data_receive-delivers :
    (payloads : List (List ℕ)) (conn : Conn) (a : Address) (w : World)
    → All IsDatagram w.inbox
    → own a w.inbox ≡ data_packets conn.session_id 0 payloads
    → All IsPayload payloads
    → total payloads ≡ conn.nbr_of_bytes_to_be_sent
    → conn.nbr_of_bytes_to_be_sent < 2 ^ 64
    → conn.session_id < 2 ^ 64
    → 0 < length payloads
    → Post (EndsWithRcvd conn a) (λ w'. ⊥) (udp_data_receive conn a w)
unfolding udp_data_receive
udp_data_receive-delivers payloads conn a w ds own_ok sizes sum big hs some_data =
    udp_loop-EndsWithRcvd payloads (suc (length w.inbox)) conn a
      (record { bytes_recvd = 0; curr_package_id = 0 }) w (omega arith) ds own_ok sizes
      (omega arith) big (omega (arith, length-le-total payloads sizes)) hs
      (λ e. absurd (omega (arith, ap length e)))
