-- ===== src/TcpClient/Delivery.antt =====
-- TCP_client_handler where no call fails and the server answers as the protocol asks for.
use si_k_1projekt_tcp_udp.Common.{
  ℕ, suc, ◌^◌, ◌≤◌, ◌<◌, ◌≡◌, ◌≢◌, refl, sym, ap, subst, ◌∙◌, List, [], ◌++◌, append_assoc,
  append-nil, true, take, length, All, arith,
}
use si_k_1projekt_tcp_udp.Common.Bytes.{be_bytes, length-be_bytes, byte_swap}
use si_k_1projekt_tcp_udp.Constants.{Status}
use si_k_1projekt_tcp_udp.Packets.{Data, conacc_at, rcvd_at, ntoh_conacc, ntoh_rcvd, word_at}
use si_k_1projekt_tcp_udp.Packets.Wire.{conn_packet, short_packet, short_session, swap_be}
use si_k_1projekt_tcp_udp.Packets.Sending.{conn_bytes}
use si_k_1projekt_tcp_udp.MyVec.{MyVec}
use si_k_1projekt_tcp_udp.Stream.{
  Connection, done, M, ◌>>=◌, readn, writen, writen_loop, readn_error_handler, bytes_of, on_success,
}
use si_k_1projekt_tcp_udp.Stream.Rules.{Post, Post-bind, Post-map}
use si_k_1projekt_tcp_udp.Stream.Delivering.{GivesBytes, Took, reads_part}
use si_k_1projekt_tcp_udp.TcpClient.{
  continue_with, tcp_client_send_conn, check_conacc, check_rcvd, receive_conacc, receive_rcvd,
  tcp_client_send_data, tcp_client_handler,
}
use si_k_1projekt_tcp_udp.TcpClient.Pieces.{WrittenPieces, tcp_client_send_data-WrittenPieces}
use si_k_1projekt_tcp_udp.TcpServer.Receiving.{data_stream}
use si_k_1projekt_tcp_udp.UdpServer.UdpDelivery.{IsPayload}
use mathlib.Core.List.{flatten}

tcp_client_send_conn-all :
    (session nbr : ℕ) (c : Connection)
    → c.writes ≡ []
    → tcp_client_send_conn session nbr c
      ≡ done Status.success
          (record c { outgoing = c.outgoing ++ conn_packet session 1 nbr; writes = [] })
unfolding tcp_client_send_conn writen writen_loop
tcp_client_send_conn-all session nbr c none = rw (none, conn_bytes session 1 nbr) refl

short_read :
    (type session : ℕ)
    → session < 2 ^ 64
    → byte_swap 8 (word_at 1 8 (short_packet type session)) ≡ session
short_read type session hs =
    ap (λ l. byte_swap 8 (word_at 1 8 l)) (sym (append-nil (short_packet type session)))
    ∙ ap (byte_swap 8) (short_session type (be_bytes 8 session) [] (length-be_bytes 8 session))
    ∙ swap_be 8 session hs

length-short_packet : (type session : ℕ) → length (short_packet type session) ≡ 9
length-short_packet type session = ap suc (length-be_bytes 8 session)

receive_conacc-Took :
    (session : ℕ) (after : List ℕ) (c : Connection)
    → session < 2 ^ 64
    → All GivesBytes c.reads
    → c.incoming ≡ short_packet 2 session ++ after
    → Post
        (λ status c'. (status ≡ Status.success) × Took after c c')
        (λ c'. ⊥)
        (receive_conacc session c)
unfolding receive_conacc check_conacc ntoh_conacc readn_error_handler
receive_conacc-Took session after c hs h e =
    Post-bind _ _ (λ c'. ⊥) (λ c'. ⊥) (readn 9) _ c
      (reads_part
        (λ r.
          on_success (readn_error_handler r 9)
            (check_conacc session (ntoh_conacc (conacc_at (bytes_of r)))))
        Status.success 9 (short_packet 2 session) after c h (length-short_packet 2 session) e
        (ground (arith, length-short_packet 2 session, short_read 2 session hs)))
      (λ r c' g. g) (λ c' b. b)

receive_rcvd-Took :
    (session : ℕ) (after : List ℕ) (c : Connection)
    → session < 2 ^ 64
    → All GivesBytes c.reads
    → c.incoming ≡ short_packet 7 session ++ after
    → Post
        (λ status c'. (status ≡ Status.success) × Took after c c')
        (λ c'. ⊥)
        (receive_rcvd session c)
unfolding receive_rcvd check_rcvd ntoh_rcvd readn_error_handler
receive_rcvd-Took session after c hs h e =
    Post-bind _ _ (λ c'. ⊥) (λ c'. ⊥) (readn 9) _ c
      (reads_part
        (λ r.
          on_success (readn_error_handler r 9)
            (check_rcvd session (ntoh_rcvd (rcvd_at (bytes_of r)))))
        Status.success 9 (short_packet 7 session) after c h (length-short_packet 7 session) e
        (ground (arith, length-short_packet 7 session, short_read 7 session hs)))
      (λ r c' g. g) (λ c' b. b)

continue-Post :
    (Q : Connection → Type 0) (R : Status → Connection → Type 0) (m k : M Status) (c : Connection)
    → Post (λ status c'. (status ≡ Status.success) × Q c') (λ c'. ⊥) (m c)
    → ((c' : Connection) → Q c' → Post R (λ c''. ⊥) (k c'))
    → Post R (λ c'. ⊥) ((m >>= continue_with k) c)
continue-Post Q R m k c h f =
    Post-bind (λ status c'. (status ≡ Status.success) × Q c') R (λ c'. ⊥) (λ c'. ⊥) m
      (continue_with k) c h
      (λ status c' (ok, q). subst (λ x. Post R (λ c''. ⊥) (continue_with k x c')) (sym ok) (f c' q))
      (λ c' b. b)

-- The whole of `bytes` was written behind a CONN packet that declares it, in DATA packets, with
-- less than a packet's data behind them; the server's CONACC and RCVD were read, up to `after`.
pub record IsTransferred (session nbr : ℕ) (bytes after : List ℕ) (c : Connection) (status : Status)
    (c' : Connection) : Type 0 where
  pub payloads : List (List ℕ)
  pub padding : List ℕ
  pub returned : status ≡ Status.success
  pub sizes : All IsPayload payloads
  pub joined : flatten payloads ≡ bytes
  pub outgoing :
      c'.outgoing
      ≡ c.outgoing ++ (conn_packet session 1 nbr ++ (data_stream session 0 payloads ++ padding))
  pub small : length padding < 64000
  pub incoming : c'.incoming ≡ after

pub tcp_client_handler-IsTransferred :
    (vec : MyVec) (session : ℕ) (uninitialised : Data) (after : List ℕ) (c : Connection)
    → c.writes ≡ []
    → All GivesBytes c.reads
    → c.incoming ≡ short_packet 2 session ++ (short_packet 7 session ++ after)
    → session < 2 ^ 64
    → length uninitialised.seq_of_bytes ≡ 64000
    → vec.occupied_size < 2 ^ 32
    → vec.occupied_size ≤ length vec.buff
    → All (λ x. x ≢ 0) (take vec.occupied_size vec.buff)
    → Post
        (IsTransferred session vec.occupied_size (take vec.occupied_size vec.buff) after c)
        (λ c'. ⊥)
        (tcp_client_handler true vec session uninitialised c)
unfolding tcp_client_handler
tcp_client_handler-IsTransferred vec session uninitialised after c none h e hs size small inside
      chars =
    continue-Post (λ c1. c1 ≡ c_conn) R (tcp_client_send_conn session vec.occupied_size) from_conacc
      c
      (subst (Post (λ status c'. (status ≡ Status.success) × (c' ≡ c_conn)) (λ c'. ⊥))
        (sym (tcp_client_send_conn-all session vec.occupied_size c none)) (refl, refl))
      (λ c1 e1.
        subst (λ x. Post R (λ c'. ⊥) (from_conacc x)) (sym e1)
          (continue-Post (Took (short_packet 7 session ++ after) c_conn) R (receive_conacc session)
            from_data c_conn (receive_conacc-Took session _ c_conn hs h e) after_conacc))
  where
    bytes : List ℕ
    bytes = take vec.occupied_size vec.buff

    R : Status → Connection → Type 0
    R = IsTransferred session vec.occupied_size bytes after c

    from_data : M Status
    from_data =
        tcp_client_send_data vec session uninitialised >>= continue_with (receive_rcvd session)

    from_conacc : M Status
    from_conacc = receive_conacc session >>= continue_with from_data

    c_conn : Connection
    c_conn = record c {
      outgoing = c.outgoing ++ conn_packet session 1 vec.occupied_size;
      writes = [];
    }

    after_rcvd :
        (c2 c3 : Connection)
        → Took (short_packet 7 session ++ after) c_conn c2
        → (status : Status) → WrittenPieces session 0 bytes c2 status c3
        → (status' : Status) (c4 : Connection) → (status' ≡ Status.success) × Took after c3 c4
        → R status' c4
    after_rcvd c2 c3 t status d status' c4 (ok, t') = record {
      payloads = d.payloads;
      padding = d.padding;
      returned = ok;
      sizes = d.sizes;
      joined = d.joined;
      outgoing =
          t'.outgoing
          ∙ d.outgoing
          ∙ ap (λ l. l ++ (data_stream session 0 d.payloads ++ d.padding)) t.outgoing
          ∙ append_assoc c.outgoing (conn_packet session 1 vec.occupied_size) _;
      small = d.small;
      incoming = t'.incoming;
    }

    after_conacc :
        (c2 : Connection)
        → Took (short_packet 7 session ++ after) c_conn c2
        → Post R (λ c'. ⊥) (from_data c2)
    after_conacc c2 t =
        Post-bind (WrittenPieces session 0 bytes c2) R (λ c'. ⊥) (λ c'. ⊥)
          (tcp_client_send_data vec session uninitialised) _ c2
          (tcp_client_send_data-WrittenPieces vec session uninitialised c2 t.writes size small
            inside chars)
          (λ status c3 d.
            subst (λ x. Post R (λ c'. ⊥) (continue_with (receive_rcvd session) x c3))
              (sym d.returned)
              (Post-map _ R (λ c'. ⊥) (λ c'. ⊥) (after_rcvd c2 c3 t status d) (λ c' b. b) _
                (receive_rcvd-Took session after c3 hs
                  (subst (All GivesBytes) (sym d.reads) t.reads) (d.incoming ∙ t.incoming))))
          (λ c' b. b)
