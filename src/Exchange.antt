-- ===== src/Exchange.antt =====
-- The UDP client and the UDP server together: what UDP_client_send_DATA sends is what
-- UDP_data_receive waits for.
pub mod TcpTransfer
pub mod UdprTransfer
use mathlib.Core.List.{flatten}
use si_k_1projekt_tcp_udp.Common.{
  ℕ, ◌+◌, ◌^◌, ◌≤◌, ◌<◌, ◌≡◌, ◌≢◌, refl, sym, ap, ◌∙◌, List, [], ◌∷◌, ◌++◌, append_assoc,
  append-nil, take, length, length-append, length-take, All, arith,
}
use si_k_1projekt_tcp_udp.Constants.{Status}
use si_k_1projekt_tcp_udp.Packets.{Conn, Data}
use si_k_1projekt_tcp_udp.Packets.Wire.{data_packet}
use si_k_1projekt_tcp_udp.MyVec.{MyVec}
use si_k_1projekt_tcp_udp.Net.{Address, Packet, World, done, Post, Post-done}
use si_k_1projekt_tcp_udp.UdpServer.Reading.{own}
use si_k_1projekt_tcp_udp.UdpServer.Session.{udp_data_receive}
use si_k_1projekt_tcp_udp.UdpServer.UdpTransfer.{data_packets, total}
use si_k_1projekt_tcp_udp.UdpServer.UdpDelivery.{
  IsDatagram, EndsWithRcvd, udp_data_receive-delivers,
}
use si_k_1projekt_tcp_udp.UdpClient.{udp_client_send_data}
use si_k_1projekt_tcp_udp.UdpClient.Pieces.{outbox, SentPieces, udp_client_send_data-SentPieces}

-- The datagrams in the order in which they were sent.
abbrev pub bodies : List Packet → List (List ℕ)
bodies [] = []
bodies (p ∷ ps) = bodies ps ++ p.body ∷ []

bodies-outbox :
    (a : Address) (session id : ℕ) (payloads : List (List ℕ)) (before : List Packet)
    → bodies (outbox a session id payloads before)
      ≡ bodies before ++ data_packets session id payloads
bodies-outbox a session id [] before = sym (append-nil (bodies before))
bodies-outbox a session id (p ∷ ps) before =
    bodies-outbox a session (id + 1) ps
      (record { to = a; body = data_packet session id p } ∷ before)
    ∙ append_assoc (bodies before) (data_packet session id p ∷ []) _

pub length-flatten : (payloads : List (List ℕ)) → length (flatten payloads) ≡ total payloads
unfolding flatten
length-flatten [] = refl
length-flatten (p ∷ ps) = length-append p (flatten ps) ∙ ap (λ k. length p + k) (length-flatten ps)

some_payload : (payloads : List (List ℕ)) → 0 < total payloads → 0 < length payloads
some_payload [] h = absurd (omega arith)
some_payload (p ∷ ps) h = omega arith

-- The client sends 1 to 2^32 - 1 bytes, none of them NUL, with UDP_client_send_DATA, and every
-- `sendto` takes its packet. If the network gives the server all of the client's datagrams in
-- order, between those of any other clients, and CONN declared the client's number of bytes, then
-- UDP_data_receive comes back, and the last packet it sends is RCVD to this client. The session is
-- below 2^64, no call of `recvfrom` fails, and the client has sent nothing before.
pub transfer-EndsWithRcvd :
    (server client : Address) (vec : MyVec) (conn : Conn) (uninitialised : Data) (status : Status)
    (w w' v : World)
    → w.sendto_results ≡ []
    → w.sent ≡ []
    → 0 < vec.occupied_size
    → vec.occupied_size < 2 ^ 32
    → vec.occupied_size ≤ length vec.buff
    → All (λ x. x ≢ 0) (take vec.occupied_size vec.buff)
    → udp_client_send_data server vec conn.session_id uninitialised w ≡ done status w'
    → conn.nbr_of_bytes_to_be_sent ≡ vec.occupied_size
    → conn.session_id < 2 ^ 64
    → All IsDatagram v.inbox
    → own client v.inbox ≡ bodies w'.sent
    → Post (EndsWithRcvd conn client) (λ w''. ⊥) (udp_data_receive conn client v)
transfer-EndsWithRcvd server client vec conn uninitialised status w w' v none fresh some_data small
      inside chars run declared session datagrams arrived =
    udp_data_receive-delivers c.payloads conn client v datagrams
      (arrived
        ∙ ap bodies (c.sent ∙ ap (outbox server conn.session_id 0 c.payloads) fresh)
        ∙ bodies-outbox server conn.session_id 0 c.payloads [])
      c.sizes (size ∙ sym declared) (omega arith) session
      (some_payload c.payloads (omega (arith, size)))
  where
    c : SentPieces server conn.session_id 0 (take vec.occupied_size vec.buff) w status w'
    c =
        Post-done _ _
          (udp_client_send_data-SentPieces server vec conn.session_id uninitialised w none small
            inside chars)
          run

    size : total c.payloads ≡ vec.occupied_size
    size =
        sym (length-flatten c.payloads)
        ∙ ap length c.joined
        ∙ omega (arith, length-take vec.occupied_size vec.buff)
