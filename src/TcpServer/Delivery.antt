-- ===== src/TcpServer/Delivery.antt =====
-- A connection whose stream is what the protocol asks for, and on which no call fails.
use si_k_1projekt_tcp_udp.Common.{
  ℕ, suc, ◌^◌, ◌<◌, ◌≡◌, refl, sym, ap, subst, ◌∙◌, List, [], ◌∷◌, ◌++◌, append-nil, true, length,
  length-append, take, All, arith,
}
use si_k_1projekt_tcp_udp.Common.Bytes.{be_bytes, length-be_bytes, le_value}
use si_k_1projekt_tcp_udp.Constants.{Status}
use si_k_1projekt_tcp_udp.Packets.{
  Conn, conn_at, ntoh_conn, init_conacc, conacc_memory, init_rcvd, rcvd_memory,
}
use si_k_1projekt_tcp_udp.Packets.Wire.{conn_packet, short_packet, swap_be}
use si_k_1projekt_tcp_udp.Packets.Sending.{conacc_bytes, rcvd_bytes}
use si_k_1projekt_tcp_udp.Packets.Conns.{conn_at_fields}
use si_k_1projekt_tcp_udp.Stream.{
  Connection, ◌>>=◌, got, readn, readn_error_handler, bytes_of, close,
}
use si_k_1projekt_tcp_udp.Stream.Rules.{Post, Post-bind}
use si_k_1projekt_tcp_udp.Stream.Delivering.{GivesBytes, Took, reads_part}
use si_k_1projekt_tcp_udp.TcpServer.{
  TcpEnd, received_all, check_tcp_conn, tcp_handle_conn_init, tcp_send_packet, tcp_receive_loop,
  after_loop, tcp_receive, after_conacc, after_conn, tcp_serve,
}
use si_k_1projekt_tcp_udp.TcpServer.Sending.{tcp_send_packet-all}
use si_k_1projekt_tcp_udp.TcpServer.Receiving.{data_stream}
use si_k_1projekt_tcp_udp.UdpServer.UdpTransfer.{total}
use si_k_1projekt_tcp_udp.UdpServer.UdpDelivery.{IsPayload}
use si_k_1projekt_tcp_udp.TcpServer.Rounds.{length-le-data_stream, tcp_receive_loop-Delivers}

-- The client's data was received: CONACC and RCVD were sent, the stream was read up to `last`, and
-- the connection is closed.
pub record IsConfirmed (session : ℕ) (last : List ℕ) (c : Connection) (e : TcpEnd) (c' : Connection)
    : Type 0 where
  pub ended : e ≡ received_all
  pub incoming : c'.incoming ≡ last
  pub outgoing : c'.outgoing ≡ (c.outgoing ++ short_packet 2 session) ++ short_packet 7 session
  pub closed : c'.closed ≡ true

-- `wire` was sent, and nothing else done.
record Sent (wire : List ℕ) (c : Connection) (status : Status) (c' : Connection) : Type 0 where
  sent : status ≡ Status.success
  incoming : c'.incoming ≡ c.incoming
  reads : c'.reads ≡ c.reads
  writes : c'.writes ≡ []
  outgoing : c'.outgoing ≡ c.outgoing ++ wire

tcp_send_packet-Sent :
    (packet wire : List ℕ) (n : ℕ) (c : Connection)
    → take n packet ≡ wire
    → 0 < n
    → c.writes ≡ []
    → Post (Sent wire c) (λ c'. ⊥) (tcp_send_packet packet n c)
tcp_send_packet-Sent packet wire n c e some_bytes w =
    subst (Post (Sent wire c) (λ c'. ⊥)) (sym (tcp_send_packet-all packet wire n c e some_bytes w))
      (record { sent = refl; incoming = refl; reads = refl; writes = refl; outgoing = refl })

abbrev conn_of : ℕ → ℕ → Conn
conn_of session nbr = record {
  package_type_id = 1;
  session_id = session;
  protocol_id = 1;
  nbr_of_bytes_to_be_sent = nbr;
}

conn_fields :
    (session nbr : ℕ)
    → session < 2 ^ 64
    → nbr < 2 ^ 64
    → ntoh_conn (conn_at (conn_packet session 1 nbr)) ≡ conn_of session nbr
unfolding ntoh_conn
conn_fields session nbr hs hn =
    ap (λ l. ntoh_conn (conn_at l)) (sym (append-nil (conn_packet session 1 nbr)))
    ∙ ap ntoh_conn (
        conn_at_fields 1 1 (be_bytes 8 session) (be_bytes 8 nbr) [] (length-be_bytes 8 session)
          (length-be_bytes 8 nbr))
    ∙ (λ i. conn_of (swap_be 8 session hs i) (swap_be 8 nbr hn i))

length-conn_packet : (session protocol nbr : ℕ) → length (conn_packet session protocol nbr) ≡ 18
length-conn_packet session protocol nbr = omega (
  arith,
  length-append (be_bytes 8 session) (protocol ∷ be_bytes 8 nbr),
  length-be_bytes 8 session,
  length-be_bytes 8 nbr,
)

conn_accepted :
    (session nbr : ℕ) → check_tcp_conn (got (conn_packet session 1 nbr)) ≡ Status.success
unfolding check_tcp_conn readn_error_handler
conn_accepted session nbr =
    let e : conn_at (conn_packet session 1 nbr) ≡ record {
      package_type_id = 1;
      session_id = le_value (be_bytes 8 session);
      protocol_id = 1;
      nbr_of_bytes_to_be_sent = le_value (be_bytes 8 nbr);
    } =
      ap conn_at (sym (append-nil (conn_packet session 1 nbr)))
      ∙ conn_at_fields 1 1 (be_bytes 8 session) (be_bytes 8 nbr) [] (length-be_bytes 8 session)
          (length-be_bytes 8 nbr) in
    ground (
      arith,
      length-conn_packet session 1 nbr,
      ap (λ (r : Conn). r.package_type_id) e,
      ap (λ (r : Conn). r.protocol_id) e,
    )

-- A connection, from the packet that is still to be read.
module _ (payloads : List (List ℕ)) (conn : Conn) (last : List ℕ) (sizes : All IsPayload payloads)
    (session : conn.session_id < 2 ^ 64) (bound : conn.nbr_of_bytes_to_be_sent < 2 ^ 64)
    (size : total payloads ≡ conn.nbr_of_bytes_to_be_sent) where
  after_loop-IsConfirmed :
      (c c3 : Connection)
      → c3.incoming ≡ last
      → c3.writes ≡ []
      → c3.outgoing ≡ c.outgoing ++ short_packet 2 conn.session_id
      → Post (IsConfirmed conn.session_id last c) (λ c'. ⊥) (after_loop conn received_all c3)
  unfolding close
  after_loop-IsConfirmed c c3 e w o =
      Post-bind (Sent (short_packet 7 conn.session_id) c3) (IsConfirmed conn.session_id last c)
        (λ c'. ⊥) (λ c'. ⊥) (tcp_send_packet (rcvd_memory (init_rcvd conn.session_id)) 9) _ c3
        (tcp_send_packet-Sent _ _ 9 c3 (rcvd_bytes conn.session_id) (omega arith) w)
        (λ status c4 s. record {
          ended = refl;
          incoming = s.incoming ∙ e;
          outgoing = s.outgoing ∙ ap (λ l. l ++ short_packet 7 conn.session_id) o;
          closed = refl;
        })
        (λ c' b. b)

  tcp_receive-IsConfirmed :
      (c c2 : Connection)
      → All GivesBytes c2.reads
      → c2.incoming ≡ data_stream conn.session_id 0 payloads ++ last
      → c2.writes ≡ []
      → c2.outgoing ≡ c.outgoing ++ short_packet 2 conn.session_id
      → Post (IsConfirmed conn.session_id last c) (λ c'. ⊥) (tcp_receive conn c2)
  unfolding tcp_receive
  tcp_receive-IsConfirmed c c2 h e w o =
      Post-bind (λ r c'. (r ≡ received_all) × Took last c2 c') (IsConfirmed conn.session_id last c)
        (λ c'. ⊥) (λ c'. ⊥)
        (tcp_receive_loop (suc (length c2.incoming)) conn
          (record { nbr_of_bytes_received = 0; curr_packet_id = 0 }))
        (after_loop conn) c2
        (tcp_receive_loop-Delivers payloads (suc (length c2.incoming)) conn
          (record { nbr_of_bytes_received = 0; curr_packet_id = 0 }) c2 last h e sizes session bound
          (omega (arith, size)) (omega arith)
          (omega (
            arith,
            ap length e,
            length-append (data_stream conn.session_id 0 payloads) last,
            length-le-data_stream conn.session_id 0 payloads,
          )))
        (λ r c3 (ok, t).
          subst (λ x. Post (IsConfirmed conn.session_id last c) (λ c'. ⊥) (after_loop conn x c3))
            (sym ok) (after_loop-IsConfirmed c c3 t.incoming (t.writes ∙ w) (t.outgoing ∙ o)))
        (λ c' b. b)

  after_conacc-IsConfirmed :
      (c c1 : Connection)
      → All GivesBytes c1.reads
      → c1.incoming ≡ data_stream conn.session_id 0 payloads ++ last
      → c1.outgoing ≡ c.outgoing
      → (status : Status) (c2 : Connection) → Sent (short_packet 2 conn.session_id) c1 status c2
      → Post (IsConfirmed conn.session_id last c) (λ c'. ⊥) (after_conacc conn status c2)
  after_conacc-IsConfirmed c c1 h e o status c2 s =
      subst (λ x. Post (IsConfirmed conn.session_id last c) (λ c'. ⊥) (after_conacc conn x c2))
        (sym s.sent)
        (tcp_receive-IsConfirmed c c2 (subst (All GivesBytes) (sym s.reads) h) (s.incoming ∙ e)
          s.writes (s.outgoing ∙ ap (λ l. l ++ short_packet 2 conn.session_id) o))

  after_conn-IsConfirmed :
      (wire : Conn) (c c1 : Connection)
      → conn ≡ ntoh_conn wire
      → c.writes ≡ []
      → Took (data_stream conn.session_id 0 payloads ++ last) c c1
      → Post (IsConfirmed conn.session_id last c) (λ c'. ⊥) (after_conn (Status.success, wire) c1)
  after_conn-IsConfirmed wire c c1 e w t =
      subst
        (λ k.
          Post (IsConfirmed conn.session_id last c) (λ c'. ⊥)
            ((tcp_send_packet (conacc_memory (init_conacc k.session_id)) 9 >>= after_conacc k) c1))
        e
        (Post-bind (Sent (short_packet 2 conn.session_id) c1) (IsConfirmed conn.session_id last c)
          (λ c'. ⊥) (λ c'. ⊥) (tcp_send_packet (conacc_memory (init_conacc conn.session_id)) 9) _ c1
          (tcp_send_packet-Sent _ _ 9 c1 (conacc_bytes conn.session_id) (omega arith)
            (t.writes ∙ w))
          (after_conacc-IsConfirmed c c1 t.reads t.incoming t.outgoing) (λ c' b. b))

-- If the stream of a connection holds a CONN packet of a session for TCP, then DATA packets of the
-- session, numbered from 0, whose payloads of 1 to 64000 bytes have together the size that CONN
-- declares, then anything, and no call of `read` or `write` fails or finds the end, although
-- `read` may give fewer bytes than it is asked for, then `tcp_serve` comes back with all data
-- received. It has written CONACC and then RCVD, read the stream up to the last DATA packet, and
-- closed the connection. (The session and the size are below 2^64.)
pub tcp_serve-IsConfirmed :
    (payloads : List (List ℕ)) (session : ℕ) (last : List ℕ) (c : Connection)
    → All IsPayload payloads
    → session < 2 ^ 64
    → total payloads < 2 ^ 64
    → c.incoming
      ≡ conn_packet session 1 (total payloads) ++ (data_stream session 0 payloads ++ last)
    → All GivesBytes c.reads
    → c.writes ≡ []
    → Post (IsConfirmed session last c) (λ c'. ⊥) (tcp_serve c)
unfolding tcp_serve tcp_handle_conn_init
tcp_serve-IsConfirmed payloads session last c sizes hs hn e h w =
    Post-bind
      (λ r c'.
        (r ≡ (Status.success, conn_at (conn_packet session 1 (total payloads))))
        × Took (data_stream session 0 payloads ++ last) c c')
      (IsConfirmed session last c) (λ c'. ⊥) (λ c'. ⊥) tcp_handle_conn_init after_conn c
      (Post-bind _ _ (λ c'. ⊥) (λ c'. ⊥) (readn 18) _ c
        (reads_part (λ r. (check_tcp_conn r, conn_at (bytes_of r)))
          (Status.success, conn_at (conn_packet session 1 (total payloads))) 18
          (conn_packet session 1 (total payloads)) (data_stream session 0 payloads ++ last) c h
          (length-conn_packet session 1 (total payloads)) e
          (λ i. (
            conn_accepted session (total payloads) i,
            conn_at (conn_packet session 1 (total payloads)),
          )))
        (λ r c' g. g) (λ c' b. b))
      (λ r c1 (ok, t).
        subst (λ x. Post (IsConfirmed session last c) (λ c'. ⊥) (after_conn x c1)) (sym ok)
          (after_conn-IsConfirmed payloads (conn_of session (total payloads)) last sizes hs hn refl
            (conn_at (conn_packet session 1 (total payloads))) c c1
            (sym (conn_fields session (total payloads) hs hn)) w t))
      (λ c' b. b)
