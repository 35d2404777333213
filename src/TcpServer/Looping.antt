-- ===== src/TcpServer/Looping.antt =====
-- The loop of TCP_server_handler over the DATA packets: every round, and the whole loop.
use si_k_1projekt_tcp_udp.Common.{
  ℕ, zero, suc, ◌+◌, ◌^◌, ◌≤◌, ◌<◌, ◌≡◌, refl, ap, subst, ◌∙◌, inl, inr, [], ◌++◌, false, ltb,
  length, length-append, All, arith, Bool-cases, u64,
}
use si_k_1projekt_tcp_udp.Common.Bytes.{IsByte, be_bytes, length-be_bytes}
use si_k_1projekt_tcp_udp.Constants.{Status}
use si_k_1projekt_tcp_udp.Packets.{Conn, DataInfo}
use si_k_1projekt_tcp_udp.Stream.{Connection, M}
use si_k_1projekt_tcp_udp.Stream.Rules.{Post-bind}
use si_k_1projekt_tcp_udp.TcpServer.{
  TcpEnd, TcpProgress, reject, after_data, after_metainfo, tcp_get_data_metainfo,
  tcp_read_data_to_buf, tcp_receive_loop,
}
use si_k_1projekt_tcp_udp.TcpServer.Headers.{
  data_header, HeaderRead, tcp_get_data_metainfo-HeaderRead, PayloadRead,
  tcp_read_data_to_buf-PayloadRead, All-front,
}
use si_k_1projekt_tcp_udp.TcpServer.Receiving.{LoopEnd, Receives, refusal, after_data-Receives}

pub length-data_header : (session id n : ℕ) → length (data_header session id n) ≡ 21
length-data_header session id n = omega (
  arith,
  length-append (be_bytes 8 session) (be_bytes 8 id ++ be_bytes 4 n),
  length-append (be_bytes 8 id) (be_bytes 4 n),
  length-be_bytes 8 session,
  length-be_bytes 8 id,
  length-be_bytes 4 n,
)

-- What the loop needs to go on.
pub record Ready (conn : Conn) (s : TcpProgress) (c : Connection) : Type 0 where
  pub bytes : All IsByte c.incoming
  pub within : s.nbr_of_bytes_received ≤ conn.nbr_of_bytes_to_be_sent
  pub room : s.nbr_of_bytes_received + length c.incoming + 64000 ≤ 2 ^ 64
  pub numbers : s.curr_packet_id + length c.incoming < 2 ^ 64

abbrev LoopOn : Conn → (TcpProgress → M TcpEnd) → ℕ → Type 0
LoopOn conn go_on n =
    (s' : TcpProgress) (c' : Connection)
    → Ready conn s' c'
    → length c'.incoming < n
    → Receives conn s' c' (go_on s' c')

abbrev next_progress : TcpProgress → DataInfo → TcpProgress
next_progress s d = record {
  nbr_of_bytes_received = u64 (s.nbr_of_bytes_received + d.nbr_of_bytes_in_packet);
  curr_packet_id = u64 (s.curr_packet_id + 1);
}

module _ (conn : Conn) (s : TcpProgress) (c : Connection) (go_on : TcpProgress → M TcpEnd)
    (ready : Ready conn s c) (rest : LoopOn conn go_on (length c.incoming)) where
  payload_read :
      (d : DataInfo) (c1 : Connection)
      → HeaderRead conn.session_id s.curr_packet_id c (Status.success, d) c1
      → ltb conn.nbr_of_bytes_to_be_sent (next_progress s d).nbr_of_bytes_received ≡ false
      → (status : Status) (c2 : Connection) → PayloadRead d.nbr_of_bytes_in_packet c1 status c2
      → Receives conn s c (after_data go_on conn (next_progress s d) status c2)
  payload_read d c1 h within status c2 p =
      let (e, fits) = h.header refl in
      let front : c.incoming
          ≡ data_header conn.session_id s.curr_packet_id d.nbr_of_bytes_in_packet ++ c1.incoming =
        h.incoming ∙ ap (λ x. x ++ c1.incoming) e in
      let size1 : length c.incoming ≡ 21 + length c1.incoming = omega (
        arith,
        ap length front,
        length-append (data_header conn.session_id s.curr_packet_id d.nbr_of_bytes_in_packet)
            c1.incoming,
        length-data_header conn.session_id s.curr_packet_id d.nbr_of_bytes_in_packet,
      ) in
      let size2 : length c1.incoming ≡ length p.taken + length c2.incoming =
        omega (arith, ap length p.incoming, length-append p.taken c2.incoming) in
      let bytes1 =
        (All-front IsByte (data_header conn.session_id s.curr_packet_id d.nbr_of_bytes_in_packet)
          c1.incoming (subst (All IsByte) front ready.bytes)).1 in
      let bytes2 =
        (All-front IsByte p.taken c2.incoming (subst (All IsByte) p.incoming bytes1)).1 in
      let count : (next_progress s d).nbr_of_bytes_received
          ≡ s.nbr_of_bytes_received + d.nbr_of_bytes_in_packet =
        omega (arith, ready.room, fits) in
      let next : (next_progress s d).curr_packet_id ≡ s.curr_packet_id + 1 =
        omega (arith, ready.numbers, size1) in
      after_data-Receives conn s (next_progress s d) d.nbr_of_bytes_in_packet c c1 c2 go_on front
        h.outgoing h.closed next count fits status p
        (λ ok.
          rest (next_progress s d) c2
            (record {
              bytes = bytes2;
              within = ground arith;
              room = omega (arith, ready.room, count, size1, size2, p.whole ok);
              numbers = omega (arith, ready.numbers, next, size1, size2);
            })
            (omega (arith, size1, size2)))

  refused_header :
      (status : Status) (d : DataInfo) (c1 : Connection)
      → HeaderRead conn.session_id s.curr_packet_id c (status, d) c1
      → Receives conn s c (reject conn s.curr_packet_id c1)
  refused_header status d c1 h = refusal conn s s.curr_packet_id h.taken c c1 h.incoming h.outgoing

  accepted_header :
      (d : DataInfo) (c1 : Connection)
      → HeaderRead conn.session_id s.curr_packet_id c (Status.success, d) c1
      → Receives conn s c (after_metainfo go_on conn s (Status.success, d) c1)
  accepted_header d c1 h =
      elim (Bool-cases
        (ltb conn.nbr_of_bytes_to_be_sent (next_progress s d).nbr_of_bytes_received)) [
          | inl too_much ↦ rw too_much (refused_header Status.success d c1 h)
          | inr within ↦ rw within (
              Post-bind (PayloadRead d.nbr_of_bytes_in_packet c1) (LoopEnd conn s c) (λ v. Unit {0})
                (λ v. Unit {0}) (tcp_read_data_to_buf d.nbr_of_bytes_in_packet) _ c1
                (tcp_read_data_to_buf-PayloadRead d.nbr_of_bytes_in_packet c1)
                (payload_read d c1 h within) (λ v u. u))
        ]

  after_metainfo-Receives :
      (status : Status) (d : DataInfo) (c1 : Connection)
      → HeaderRead conn.session_id s.curr_packet_id c (status, d) c1
      → Receives conn s c (after_metainfo go_on conn s (status, d) c1)
  after_metainfo-Receives Status.success d c1 h = accepted_header d c1 h
  after_metainfo-Receives Status.error d c1 h = refused_header _ d c1 h
  after_metainfo-Receives Status.wrong_session_id d c1 h = refused_header _ d c1 h
  after_metainfo-Receives Status.wrong_package_type_id d c1 h = refused_header _ d c1 h
  after_metainfo-Receives Status.wrong_package_id d c1 h = refused_header _ d c1 h
  after_metainfo-Receives Status.wrong_package_size d c1 h = refused_header _ d c1 h
  after_metainfo-Receives Status.timeout_error d c1 h = refused_header _ d c1 h
  after_metainfo-Receives Status.retransmission d c1 h = refused_header _ d c1 h
  after_metainfo-Receives Status.conrjt_error d c1 h = refused_header _ d c1 h
  after_metainfo-Receives Status.continue d c1 h = refused_header _ d c1 h

pub tcp_receive_loop-Receives :
    (fuel : ℕ) (conn : Conn) (s : TcpProgress) (c : Connection)
    → Ready conn s c
    → length c.incoming < fuel
    → Receives conn s c (tcp_receive_loop fuel conn s c)
unfolding tcp_receive_loop
tcp_receive_loop-Receives zero conn s c ready f = absurd (omega arith)
tcp_receive_loop-Receives (suc fuel) conn s c ready f =
    elim (Bool-cases (ltb s.nbr_of_bytes_received conn.nbr_of_bytes_to_be_sent)) [
      | inl more ↦ rw more (
          Post-bind (HeaderRead conn.session_id s.curr_packet_id c) (LoopEnd conn s c)
            (λ v. Unit {0}) (λ v. Unit {0}) (tcp_get_data_metainfo conn.session_id s.curr_packet_id)
            _ c (tcp_get_data_metainfo-HeaderRead conn.session_id s.curr_packet_id c ready.bytes)
            (λ (status, d) c1 h.
              after_metainfo-Receives conn s c (λ s' c'. tcp_receive_loop fuel conn s' c') ready
                (λ s' c' r l. tcp_receive_loop-Receives fuel conn s' c' r (omega arith)) status d c1
                h)
            (λ v u. u))
      | inr all ↦ rw all (record {
        payloads = [];
        incoming = refl;
        size = ground (arith, ready.within);
        small = tt;
        outgoing = refl;
        closed = refl;
      })
    ]
