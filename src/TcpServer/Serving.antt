-- ===== src/TcpServer/Serving.antt =====
-- One connection of the TCP server, from CONN to its end.
use si_k_1projekt_tcp_udp.Common.{
  ℕ, suc, ◌+◌, ◌^◌, ◌≤◌, ◌≡◌, refl, sym, ap, ap₂, subst, ◌∙◌, List, ◌++◌, append-nil, true, length,
  length-append, All, arith,
}
use si_k_1projekt_tcp_udp.Common.Bytes.{IsByte}
use si_k_1projekt_tcp_udp.Constants.{Status}
use si_k_1projekt_tcp_udp.Packets.{
  Conn, conn_at, ntoh_conn, init_conacc, conacc_memory, init_rcvd, rcvd_memory,
}
use si_k_1projekt_tcp_udp.Packets.Wire.{conn_packet, short_packet, numbered_packet}
use si_k_1projekt_tcp_udp.Packets.Sending.{conacc_bytes, rcvd_bytes}
use si_k_1projekt_tcp_udp.Stream.{Connection, ◌>>=◌, readn, bytes_of, close}
use si_k_1projekt_tcp_udp.Stream.Rules.{Post, Post-bind}
use si_k_1projekt_tcp_udp.Stream.Exact.{readn-TakesNext}
use si_k_1projekt_tcp_udp.TcpServer.{
  TcpEnd, received_all, wrong_packet, no_connection, TcpProgress, check_tcp_conn,
  tcp_handle_conn_init, tcp_send_packet, tcp_receive_loop, after_loop, tcp_receive, after_conacc,
  after_conn, tcp_serve,
}
use si_k_1projekt_tcp_udp.TcpServer.Sending.{Sends, tcp_send_packet-Sends}
use si_k_1projekt_tcp_udp.TcpServer.Headers.{All-front}
use si_k_1projekt_tcp_udp.TcpServer.Receiving.{LoopEnd, data_stream}
use si_k_1projekt_tcp_udp.TcpServer.Connecting.{ConnRead, after_readn}
use si_k_1projekt_tcp_udp.TcpServer.Looping.{tcp_receive_loop-Receives}
use si_k_1projekt_tcp_udp.UdpServer.UdpTransfer.{total}

-- A packet was written up to some point.
pub record Written (wire before after : List ℕ) : Type 0 where
  pub part : List ℕ
  pub rest : List ℕ
  pub parts : wire ≡ part ++ rest
  pub outgoing : after ≡ before ++ part

-- A connection at whose end RCVD is sent: CONN, then DATA packets, in order, of exactly the
-- declared length; CONACC was written whole and RCVD as far as the stream took it; it is closed.
pub record Confirmed (c c' : Connection) : Type 0 where
  pub session : ℕ
  pub nbr : ℕ
  pub payloads : List (List ℕ)
  pub incoming :
      c.incoming ≡ conn_packet session 1 nbr ++ (data_stream session 0 payloads ++ c'.incoming)
  pub size : total payloads ≡ nbr
  pub small : All (λ p. length p ≤ 64000) payloads
  pub outgoing : Written (short_packet 7 session) (c.outgoing ++ short_packet 2 session) c'.outgoing
  pub closed : c'.closed ≡ true

-- A connection that is refused after CONACC: RJT is written as far as the stream took it.
pub record Broken (c c' : Connection) : Type 0 where
  pub session : ℕ
  pub id : ℕ
  pub outgoing :
      Written (numbered_packet 6 session id) (c.outgoing ++ short_packet 2 session) c'.outgoing
  pub closed : c'.closed ≡ true

abbrev pub ServeEnd : Connection → TcpEnd → Connection → Type 0
ServeEnd c received_all c' = Confirmed c c'
ServeEnd c wrong_packet c' = Broken c c'
ServeEnd c no_connection c' = c'.closed ≡ true

abbrev start : TcpProgress
start = record { nbr_of_bytes_received = 0; curr_packet_id = 0 }

-- After CONN was taken and CONACC sent.
module _ (c c2 : Connection) (conn : Conn)
    (front : c.incoming ≡ conn_packet conn.session_id 1 conn.nbr_of_bytes_to_be_sent ++ c2.incoming)
    (sent : c2.outgoing ≡ c.outgoing ++ short_packet 2 conn.session_id) where
  after_loop-ServeEnd :
      (e : TcpEnd) (c3 : Connection)
      → LoopEnd conn start c2 e c3
      → Post (ServeEnd c) (λ v. Unit {0}) (after_loop conn e c3)
  unfolding close
  after_loop-ServeEnd received_all c3 h =
      Post-bind (Sends (short_packet 7 conn.session_id) c3) (ServeEnd c) (λ v. ⊥) (λ v. Unit {0})
        (tcp_send_packet (rcvd_memory (init_rcvd conn.session_id)) 9) _ c3
        (tcp_send_packet-Sends _ _ 9 c3 (rcvd_bytes conn.session_id))
        (λ status c4 s. record {
          session = conn.session_id;
          nbr = conn.nbr_of_bytes_to_be_sent;
          payloads = h.payloads;
          incoming =
              front
              ∙ ap (◌++◌ (conn_packet conn.session_id 1 conn.nbr_of_bytes_to_be_sent)) (
                  h.incoming
                  ∙ ap (◌++◌ (data_stream conn.session_id 0 h.payloads)) (sym s.incoming));
          size = omega (arith, h.size);
          small = h.small;
          outgoing = record {
            part = s.part;
            rest = s.rest;
            parts = s.parts;
            outgoing = s.outgoing ∙ ap (λ l. l ++ s.part) (h.outgoing ∙ sent);
          };
          closed = refl;
        })
        (λ v b. tt)
  after_loop-ServeEnd wrong_packet c3 h = record {
    session = conn.session_id;
    id = h.rejected.id;
    outgoing = record {
      part = h.rejected.part;
      rest = h.rejected.rest;
      parts = h.rejected.parts;
      outgoing = h.rejected.outgoing ∙ ap (λ l. l ++ h.rejected.part) (h.outgoing ∙ sent);
    };
    closed = h.rejected.closed;
  }
  after_loop-ServeEnd no_connection c3 h = elim h [ ]

  tcp_receive-ServeEnd :
      All IsByte c2.incoming
      → length c2.incoming + 64000 ≤ 2 ^ 64
      → Post (ServeEnd c) (λ v. Unit {0}) (tcp_receive conn c2)
  unfolding tcp_receive
  tcp_receive-ServeEnd b few =
      Post-bind (LoopEnd conn start c2) (ServeEnd c) (λ v. Unit {0}) (λ v. Unit {0})
        (tcp_receive_loop (suc (length c2.incoming)) conn start) (after_loop conn) c2
        (tcp_receive_loop-Receives (suc (length c2.incoming)) conn start c2
          (record { bytes = b; within = omega arith; room = omega arith; numbers = omega arith })
          (omega arith))
        after_loop-ServeEnd (λ v u. u)

-- After CONN was taken.
module _ (c c1 : Connection) (conn : Conn)
    (front : c.incoming ≡ conn_packet conn.session_id 1 conn.nbr_of_bytes_to_be_sent ++ c1.incoming)
    (outgoing : c1.outgoing ≡ c.outgoing) (bytes : All IsByte c1.incoming)
    (few : length c1.incoming + 64000 ≤ 2 ^ 64) where
  after_conacc-ServeEnd :
      (status : Status) (c2 : Connection)
      → Sends (short_packet 2 conn.session_id) c1 status c2
      → Post (ServeEnd c) (λ v. Unit {0}) (after_conacc conn status c2)
  unfolding close
  after_conacc-ServeEnd Status.success c2 h =
      tcp_receive-ServeEnd c c2 conn
        (front
          ∙ ap (◌++◌ (conn_packet conn.session_id 1 conn.nbr_of_bytes_to_be_sent)) (sym h.incoming))
        (h.outgoing
          ∙ ap₂ ◌++◌ outgoing
              (sym (append-nil h.part) ∙ ap (◌++◌ h.part) (sym (h.whole refl)) ∙ sym h.parts))
        (subst (All IsByte) (sym h.incoming) bytes)
        (subst (λ l. length l + 64000 ≤ 2 ^ 64) (sym h.incoming) few)
  after_conacc-ServeEnd _ c2 h = refl

  accepted_conn-ServeEnd :
      (wire : Conn)
      → conn ≡ ntoh_conn wire
      → Post (ServeEnd c) (λ v. Unit {0}) (after_conn (Status.success, wire) c1)
  accepted_conn-ServeEnd wire e =
      subst
        (λ k.
          Post (ServeEnd c) (λ v. Unit {0})
            ((tcp_send_packet (conacc_memory (init_conacc k.session_id)) 9 >>= after_conacc k) c1))
        e
        (Post-bind (Sends (short_packet 2 conn.session_id) c1) (ServeEnd c) (λ v. ⊥) (λ v. Unit {0})
          (tcp_send_packet (conacc_memory (init_conacc conn.session_id)) 9) _ c1
          (tcp_send_packet-Sends _ _ 9 c1 (conacc_bytes conn.session_id)) after_conacc-ServeEnd
          (λ v b. tt))

after_conn-ServeEnd :
    (c : Connection) (status : Status) (wire : Conn) (c1 : Connection)
    → All IsByte c.incoming
    → length c.incoming + 64000 ≤ 2 ^ 64
    → ConnRead c (status, wire) c1
    → Post (ServeEnd c) (λ v. Unit {0}) (after_conn (status, wire) c1)
unfolding close
after_conn-ServeEnd c Status.success wire c1 b few h =
    accepted_conn-ServeEnd c c1 (ntoh_conn wire)
      (h.incoming ∙ ap (λ l. l ++ c1.incoming) (h.conn refl)) h.outgoing
      (All-front IsByte h.taken c1.incoming (subst (All IsByte) h.incoming b)).1
      (omega (arith, few, ap length h.incoming, length-append h.taken c1.incoming)) wire refl
after_conn-ServeEnd c _ wire c1 b few h = refl

-- For a stream of bytes, 64000 below 2^64 or shorter, `tcp_serve` comes back or waits for ever in
-- a call of `read`; it never runs out of the model's fuel. Where it comes back the connection is
-- closed. If it came back with all data received, the stream began with a CONN packet of a session
-- for TCP and then DATA packets of the session, numbered 0, 1, 2, … in this order, each of at most
-- 64000 bytes and together of exactly the length that CONN declares, and nothing more of the
-- stream was read; CONACC was written whole, and RCVD behind it as far as `write` took it. If it
-- came back after a wrong packet, CONACC was written whole, and an RJT packet of the session
-- behind it as far as `write` took it.
pub tcp_serve-ServeEnd :
    (c : Connection)
    → All IsByte c.incoming
    → length c.incoming + 64000 ≤ 2 ^ 64
    → Post (ServeEnd c) (λ v. Unit {0}) (tcp_serve c)
unfolding tcp_serve tcp_handle_conn_init
tcp_serve-ServeEnd c b few =
    Post-bind (ConnRead c) (ServeEnd c) (λ v. Unit {0}) (λ v. Unit {0}) tcp_handle_conn_init
      after_conn c
      (Post-bind (λ r c'. ConnRead c (check_tcp_conn r, conn_at (bytes_of r)) c') (ConnRead c)
        (λ v. Unit {0}) (λ v. Unit {0}) (readn 18) _ c (after_readn c _ b (readn-TakesNext 18 c))
        (λ r c' h. h) (λ v u. u))
      (λ (status, wire) c1 h. after_conn-ServeEnd c status wire c1 b few h) (λ v u. u)
