-- ===== src/Exchange/TcpTransfer.antt =====
-- The TCP client and the TCP server together: what TCP_client_handler writes is what the server of
-- TCP_server_handler waits for, and the server's answers are what the client waits for.
use si_k_1projekt_tcp_udp.Common.{
  ℕ, ◌^◌, ◌≤◌, ◌<◌, ◌≡◌, ◌≢◌, sym, ap, ◌∙◌, List, [], ◌++◌, true, take, length, length-take, All,
  arith,
}
use si_k_1projekt_tcp_udp.Constants.{Status}
use si_k_1projekt_tcp_udp.Packets.{Data}
use si_k_1projekt_tcp_udp.Packets.Wire.{short_packet, conn_packet}
use si_k_1projekt_tcp_udp.MyVec.{MyVec}
use si_k_1projekt_tcp_udp.Stream.{Connection, done}
use si_k_1projekt_tcp_udp.Stream.Rules.{Post, Post-map, Post-done}
use si_k_1projekt_tcp_udp.Stream.Delivering.{GivesBytes}
use si_k_1projekt_tcp_udp.TcpServer.{tcp_serve, received_all}
use si_k_1projekt_tcp_udp.TcpServer.Receiving.{data_stream}
use si_k_1projekt_tcp_udp.TcpServer.Delivery.{IsConfirmed, tcp_serve-IsConfirmed}
use si_k_1projekt_tcp_udp.TcpClient.{tcp_client_handler}
use si_k_1projekt_tcp_udp.TcpClient.Delivery.{IsTransferred, tcp_client_handler-IsTransferred}
use si_k_1projekt_tcp_udp.UdpServer.UdpTransfer.{total}
use si_k_1projekt_tcp_udp.Exchange.{length-flatten}

-- The client sends a vector of fewer than 2^32 bytes, none of them NUL, with TCP_client_handler,
-- and reads CONACC and then RCVD of its session; no call of either program fails, though `read`
-- may give fewer bytes than it is asked for. If the server's stream is what the client has
-- written, then the client comes back without an error, and the server comes back with all data
-- received: it has written exactly CONACC and RCVD, has left unread fewer than 64000 bytes, which
-- the client wrote behind the last packet, and has closed the connection. (The session is below
-- 2^64, and `uninitialised` is a DATA struct.)
pub transfer-IsConfirmed :
    (vec : MyVec) (session : ℕ) (uninitialised : Data) (after : List ℕ) (status : Status)
    (c c' s : Connection)
    → c.writes ≡ []
    → All GivesBytes c.reads
    → c.incoming ≡ short_packet 2 session ++ (short_packet 7 session ++ after)
    → c.outgoing ≡ []
    → session < 2 ^ 64
    → length uninitialised.seq_of_bytes ≡ 64000
    → vec.occupied_size < 2 ^ 32
    → vec.occupied_size ≤ length vec.buff
    → All (λ x. x ≢ 0) (take vec.occupied_size vec.buff)
    → tcp_client_handler true vec session uninitialised c ≡ done status c'
    → s.incoming ≡ c'.outgoing
    → All GivesBytes s.reads
    → s.writes ≡ []
    → (status ≡ Status.success)
      × Post
          (λ e s'.
            (e ≡ received_all)
            × (s'.outgoing ≡ (s.outgoing ++ short_packet 2 session) ++ short_packet 7 session)
            × (length s'.incoming < 64000)
            × (s'.closed ≡ true))
          (λ s'. ⊥)
          (tcp_serve s)
transfer-IsConfirmed vec session uninitialised after status c c' s none h e fresh hs size small
      inside chars run arrived h' none' =
    (
      t.returned,
      Post-map (IsConfirmed session t.padding s) _ (λ s'. ⊥) (λ s'. ⊥)
          (λ r s' k. (k.ended, k.outgoing, omega (arith, ap length k.incoming, t.small), k.closed))
          (λ s' b. b) _
          (tcp_serve-IsConfirmed t.payloads session t.padding s t.sizes hs
            (omega (arith, count, small))
            (arrived
              ∙ t.outgoing
              ∙ ap
                  (λ l.
                    l
                    ++ (conn_packet session 1 vec.occupied_size
                        ++ (data_stream session 0 t.payloads ++ t.padding)))
                  fresh
              ∙ ap (λ n. conn_packet session 1 n ++ (data_stream session 0 t.payloads ++ t.padding))
                  (sym count))
            h' none'),
    )
  where
    t : IsTransferred session vec.occupied_size (take vec.occupied_size vec.buff) after c status c'
    t =
        Post-done _ _
          (tcp_client_handler-IsTransferred vec session uninitialised after c none h e hs size small
            inside chars)
          run

    count : total t.payloads ≡ vec.occupied_size
    count =
        sym (length-flatten t.payloads)
        ∙ ap length t.joined
        ∙ omega (arith, length-take vec.occupied_size vec.buff)
