-- ===== src/UdpServer/UdpTransfer.antt =====
-- UDP_data_receive over a whole connection: when it sends RCVD, and that an honest client gets it.
use si_k_1projekt_tcp_udp.Common.{
  ℕ, zero, suc, ◌+◌, ◌^◌, ◌≤◌, ◌<◌, ◌≡◌, refl, sym, ap, ap₂, subst, ◌∙◌, inl, inr, List, [], ◌∷◌,
  ◌++◌, append_assoc, false, ltb, ◌==◌, if◌then◌else◌, Bool-cases, u64, take, length, length-append,
  length-take, take_all, take-All, All, arith, ltb→lt,
}
use si_k_1projekt_tcp_udp.Common.Bytes.{IsByte}
use si_k_1projekt_tcp_udp.Packets.{Conn}
use si_k_1projekt_tcp_udp.Packets.Wire.{data_packet, short_packet}
use si_k_1projekt_tcp_udp.Packets.Sending.{rcvd_bytes}
use si_k_1projekt_tcp_udp.Net.{
  Address, Recv, timed_out, failed, interrupted, datagram, Packet, World, done, Post, Post-bind,
  Post-map, Post-done,
}
use si_k_1projekt_tcp_udp.UdpServer.Receive.{differs, send_rcvd}
use si_k_1projekt_tcp_udp.UdpServer.Reading.{own, own-append}
use si_k_1projekt_tcp_udp.UdpServer.Accept.{accepted_packet, length-data_packet}
use si_k_1projekt_tcp_udp.UdpServer.Session.{
  received_all, Round, again, ended, Progress, udp_round, udp_finish, udp_loop, udp_data_receive,
  next_round,
}
use si_k_1projekt_tcp_udp.UdpServer.UdpRounds.{Accepted, AfterRound, udp_round_lem}

-- The DATA packets that carry `payloads` in this order, numbered from `id`.
abbrev pub data_packets : ℕ → ℕ → List (List ℕ) → List (List ℕ)
data_packets session id [] = []
data_packets session id (p ∷ ps) = data_packet session id p ∷ data_packets session (id + 1) ps

abbrev pub total : List (List ℕ) → ℕ
total [] = 0
total (p ∷ ps) = length p + total ps

abbrev pub HasBytes : Recv → Type 0
HasBytes (datagram from bytes) = All IsByte bytes
HasBytes timed_out = Unit
HasBytes failed = Unit
HasBytes interrupted = Unit

-- All data has come, in whole packets and in order, and RCVD is the last packet sent.
pub record Completed (conn : Conn) (a : Address) (s : Progress) (w w' : World) : Type 0 where
  pub consumed : List Recv
  pub payloads : List (List ℕ)
  pub earlier : List Packet
  pub parts : w.inbox ≡ consumed ++ w'.inbox
  pub datagrams : own a consumed ≡ data_packets conn.session_id s.curr_package_id payloads
  pub size : s.bytes_recvd + total payloads ≡ conn.nbr_of_bytes_to_be_sent
  pub small : All (λ p. length p ≤ 64000) payloads
  pub sent :
      w'.sent
      ≡ record { to = w'.udp_client_address; body = short_packet 7 conn.session_id } ∷ earlier

pub All-part :
    (P : Recv → Type 0) (xs : List Recv) (y : Recv) (zs : List Recv)
    → All P (xs ++ y ∷ zs)
    → P y × All P zs
All-part P [] y zs h = h
All-part P (x ∷ xs) y zs h = All-part P xs y zs h.1

pub own_accepted :
    (a from : Address) (bytes : List ℕ) (skipped es : List Recv)
    → own a skipped ≡ []
    → differs from a ≡ false
    → own a (skipped ++ datagram from bytes ∷ es) ≡ bytes ∷ own a es
own_accepted a from bytes skipped es foreign mine =
    own-append a skipped (datagram from bytes ∷ es)
    ∙ ap (λ l. l ++ own a (datagram from bytes ∷ es)) foreign
    ∙ ap (λ b. if b then own a es else bytes ∷ own a es) mine

-- The packet that a round accepts was not cut off by the buffer's end.
pub accepted_whole :
    (bytes : List ℕ) (session id : ℕ) (payload : List ℕ)
    → take 64032 bytes ≡ data_packet session id payload
    → length payload ≤ 64000
    → take 64032 bytes ≡ bytes
accepted_whole bytes session id payload e l =
    take_all 64032 bytes
      (omega (arith, ap length e, length-take 64032 bytes, length-data_packet session id payload))

udp_finish_lem :
    (conn : Conn) (a : Address) (s : Progress) (w : World)
    → Post (λ e w'. e ≡ received_all → Completed conn a s w w') (λ w'. Unit) (udp_finish conn s w)
unfolding udp_finish send_rcvd
udp_finish_lem conn a s w = elim (Bool-cases (s.bytes_recvd == conn.nbr_of_bytes_to_be_sent)) [
  | inl all ↦ rw all (λ e. record {
    consumed = [];
    payloads = [];
    earlier = w.sent;
    parts = refl;
    datagrams = refl;
    size = ground arith;
    small = tt;
    sent =
        ap (λ b. record { to = w.udp_client_address; body = b } ∷ w.sent)
          (rcvd_bytes conn.session_id);
  })
  | inr more ↦ rw more (λ e. cc)
]

pub no_wrap : (x : ℕ) → x < 2 ^ 64 → u64 x ≡ x
no_wrap x h = omega arith

pub add_first : (x n t y z : ℕ) → y ≡ x + n → y + t ≡ z → x + (n + t) ≡ z
add_first x n t y z e f = omega arith

pub inbox_shrinks :
    (es skipped rest : List Recv) (e : Recv) → es ≡ skipped ++ e ∷ rest → length rest < length es
inbox_shrinks es skipped rest e p = omega (arith, ap length p, length-append skipped (e ∷ rest))

-- A round that accepts, before the rest of the connection.
Completed-before :
    (conn : Conn) (a : Address) (s : Progress) (w : World) (s' : Progress) (w' v : World)
    → Accepted conn a s w s' w'
    → All HasBytes w.inbox
    → conn.nbr_of_bytes_to_be_sent + 64000 ≤ 2 ^ 64
    → s.bytes_recvd < conn.nbr_of_bytes_to_be_sent
    → s.curr_package_id + 1 < 2 ^ 64
    → Completed conn a s' w' v
    → Completed conn a s w v
Completed-before conn a s w s' w' v h bytes big more ids c =
    let b =
      (All-part HasBytes h.skipped (datagram h.from h.bytes) w'.inbox
        (subst (All HasBytes) h.parts bytes)).0 in
    let (payload, e, l, n) =
      accepted_packet w.stack conn s.curr_package_id (take 64032 h.bytes)
        (take-All IsByte 64032 h.bytes b) h.checked in
    let whole = accepted_whole h.bytes conn.session_id s.curr_package_id payload e l in
    let first : s'.bytes_recvd ≡ s.bytes_recvd + length payload =
      ap (λ (t : Progress). t.bytes_recvd) h.next
      ∙ ap (λ k. u64 (s.bytes_recvd + k)) n
      ∙ no_wrap (s.bytes_recvd + length payload) (omega arith) in
    let second : s'.curr_package_id ≡ s.curr_package_id + 1 =
      ap (λ (t : Progress). t.curr_package_id) h.next ∙ no_wrap (s.curr_package_id + 1) ids in
    record {
      consumed = h.skipped ++ datagram h.from h.bytes ∷ c.consumed;
      payloads = payload ∷ c.payloads;
      earlier = c.earlier;
      parts =
          h.parts
          ∙ ap (λ l. h.skipped ++ datagram h.from h.bytes ∷ l) c.parts
          ∙ sym (append_assoc h.skipped (datagram h.from h.bytes ∷ c.consumed) v.inbox);
      datagrams =
          own_accepted a h.from h.bytes h.skipped c.consumed h.foreign h.mine
          ∙ ap₂ ◌∷◌ (sym whole ∙ e)
              (c.datagrams ∙ ap (λ i. data_packets conn.session_id i c.payloads) second);
      size = add_first s.bytes_recvd (length payload) (total c.payloads) _ _ first c.size;
      small = (l, c.small);
      sent = c.sent;
    }

pub udp_loop-Completed :
    (fuel : ℕ) (conn : Conn) (a : Address) (s : Progress) (w : World)
    → length w.inbox < fuel
    → All HasBytes w.inbox
    → conn.nbr_of_bytes_to_be_sent + 64000 ≤ 2 ^ 64
    → s.curr_package_id + length w.inbox < 2 ^ 64
    → Post
        (λ e w'. e ≡ received_all → Completed conn a s w w')
        (λ w'. Unit)
        (udp_loop fuel conn a s w)
unfolding udp_loop
udp_loop-Completed zero conn a s w f bytes big ids = absurd (omega arith)
udp_loop-Completed (suc fuel) conn a s w f bytes big ids =
    elim (Bool-cases (ltb s.bytes_recvd conn.nbr_of_bytes_to_be_sent)) [
      | inl more ↦ rw more (
          Post-bind _ _ _ _ (udp_round conn a s) _ w (udp_round_lem conn a s w)
            (λ o w' h.
              rounds (λ s' w'. udp_loop-Completed fuel conn a s' w') o w' (ltb→lt _ _ more) h)
            (λ w' h. tt))
      | inr all ↦ rw all (udp_finish_lem conn a s w)
    ]
  where
    rounds :
        ((s' : Progress) (w' : World)
          → length w'.inbox < fuel
          → All HasBytes w'.inbox
          → conn.nbr_of_bytes_to_be_sent + 64000 ≤ 2 ^ 64
          → s'.curr_package_id + length w'.inbox < 2 ^ 64
          → Post
              (λ e v. e ≡ received_all → Completed conn a s' w' v)
              (λ v. Unit)
              (udp_loop fuel conn a s' w'))
        → (o : Round Progress) (w' : World) → s.bytes_recvd < conn.nbr_of_bytes_to_be_sent
        → AfterRound conn a s w o w'
        → Post
            (λ e v. e ≡ received_all → Completed conn a s w v)
            (λ v. Unit)
            (next_round (λ s' v. udp_loop fuel conn a s' v) o w')
    rounds go_on (ended e) w' more h = λ x. absurd (h.not_all x)
    rounds go_on (again s') w' more h =
        let shrinks = inbox_shrinks w.inbox h.skipped w'.inbox (datagram h.from h.bytes) h.parts in
        let id =
          ap (λ (t : Progress). t.curr_package_id) h.next
          ∙ no_wrap (s.curr_package_id + 1) (omega arith) in
        Post-map _ _ _ _
          (λ e v c x. Completed-before conn a s w s' w' v h bytes big more (omega arith) (c x))
          (λ v u. u) (udp_loop fuel conn a s' w')
          (go_on s' w' (omega arith)
            (All-part HasBytes h.skipped (datagram h.from h.bytes) w'.inbox
              (subst (All HasBytes) h.parts bytes)).1
            big (omega arith))

-- When UDP_data_receive sends RCVD, the client's datagrams that it has taken are, byte for byte,
-- the DATA packets numbered 0, 1, 2, … of its session, in this order, each of at most 64000 bytes
-- and together of exactly the length that CONN declared; and RCVD is the last packet sent. What
-- other clients send in between has no part in it. (The declared length is 64000 below 2^64 or
-- less.) The inbox holds fewer than 2^64 results, and datagrams of bytes.
pub udp_data_receive-Completed :
    (conn : Conn) (a : Address) (w w' : World)
    → All HasBytes w.inbox
    → length w.inbox < 2 ^ 64
    → conn.nbr_of_bytes_to_be_sent + 64000 ≤ 2 ^ 64
    → udp_data_receive conn a w ≡ done received_all w'
    → Completed conn a (record { bytes_recvd = 0; curr_package_id = 0 }) w w'
unfolding udp_data_receive
udp_data_receive-Completed conn a w w' bytes few big e =
    Post-done _ _
      (udp_loop-Completed (suc (length w.inbox)) conn a _ w (omega arith) bytes big (omega arith)) e
      refl
