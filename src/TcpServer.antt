-- ===== src/TcpServer.antt =====
-- server_TCP_lib.c.
pub mod Sending
pub mod Headers
pub mod Receiving
pub mod Looping
pub mod Connecting
pub mod Serving
pub mod Taking
pub mod Rounds
pub mod Delivery
pub mod Accepting
use si_k_1projekt_tcp_udp.Common.{
  ℕ, zero, suc, ◌+◌, List, [], ◌∷◌, Bool, true, false, ltb, ◌==◌, ◌!=◌, if◌then◌else◌, length, u64,
}
use si_k_1projekt_tcp_udp.Constants.{
  Status, conn_id, data_id, tcp_protocol, max_allowed_packet_size,
}
use si_k_1projekt_tcp_udp.Packets.{
  Conn, DataInfo, sizeof_conn, sizeof_conacc, sizeof_data_info, sizeof_rjt, sizeof_rcvd, conn_at,
  data_info_at, ntoh_conn, ntoh_data_info, init_conacc, init_rjt, init_rcvd, conacc_memory,
  rjt_memory, rcvd_memory,
}
use si_k_1projekt_tcp_udp.Stream.{
  Connection, Outcome, done, blocked, out_of_fuel, M, ◌>>=◌, ◌>>◌, return, ReadnResult, negative,
  got, WritenResult, negative_count, count, readn, writen, readn_error_handler, close, bytes_of,
  on_success,
}

-- The tests of TCP_handle_conn_init, before the conversion from network order.
unfoldable pub check_tcp_conn : ReadnResult → Status
check_tcp_conn r =
    let conn = conn_at (bytes_of r) in
    on_success (readn_error_handler r sizeof_conn) (
      if conn.package_type_id != conn_id
      then Status.error
      else if conn.protocol_id != tcp_protocol
      then Status.error
      else if length (bytes_of r) != sizeof_conn
      then Status.error
      else Status.success)

-- The status, and the struct that the call fills.
unfoldable pub tcp_handle_conn_init : M (Status × Conn)
tcp_handle_conn_init = readn sizeof_conn >>= λ r. return (check_tcp_conn r, conn_at (bytes_of r))

-- The tests of TCP_get_DATA_metainfo.
unfoldable pub check_metainfo : ReadnResult → ℕ → ℕ → Status
check_metainfo r session_id curr_packet_id =
    let d = ntoh_data_info (data_info_at (bytes_of r)) in
    on_success (readn_error_handler r sizeof_data_info) (
      if length (bytes_of r) != sizeof_data_info
      then Status.error
      else if d.package_type_id != data_id
      then Status.error
      else if d.session_id != session_id
      then Status.error
      else if d.package_id != curr_packet_id
      then Status.error
      else if ltb max_allowed_packet_size d.nbr_of_bytes_in_packet
      then Status.error
      else Status.success)

unfoldable pub tcp_get_data_metainfo : ℕ → ℕ → M (Status × DataInfo)
tcp_get_data_metainfo session_id curr_packet_id = readn sizeof_data_info >>= λ r.
    return (check_metainfo r session_id curr_packet_id, ntoh_data_info (data_info_at (bytes_of r)))

-- What TCP_send_packet makes of the result of `writen`.
abbrev pub written_status : ℕ → WritenResult → Status
written_status packet_size negative_count = Status.error
written_status packet_size (count n) =
    if ltb n packet_size then Status.error else if n == 0 then Status.error else Status.success

unfoldable pub tcp_send_packet : List ℕ → ℕ → M Status
tcp_send_packet packet packet_size =
    writen packet packet_size >>= λ r. return (written_status packet_size r)

unfoldable pub handle_rjt_sending : Conn → ℕ → M (Unit {0})
handle_rjt_sending conn curr_packet_id =
    tcp_send_packet (rjt_memory (init_rjt conn.session_id curr_packet_id)) sizeof_rjt >> close

-- What TCP_read_data_to_buf makes of the result of `readn`.
abbrev pub data_status : ℕ → ReadnResult → Status
data_status n negative = Status.error
data_status n (got bytes) = if length bytes != n then Status.error else Status.success

unfoldable pub tcp_read_data_to_buf : ℕ → M Status
tcp_read_data_to_buf n = readn n >>= λ r. return (data_status n r)

-- The locals of the loop over DATA packets.
pub record TcpProgress : Type 0 where
  pub nbr_of_bytes_received : ℕ
  pub curr_packet_id : ℕ

-- How the handling of a connection ended.
pub data TcpEnd : Type 0 where
  received_all wrong_packet no_connection : TcpEnd

abbrev pub reject : Conn → ℕ → M TcpEnd
reject conn id = handle_rjt_sending conn id >> return wrong_packet

-- What follows TCP_read_data_to_buf.
abbrev pub after_data : (TcpProgress → M TcpEnd) → Conn → TcpProgress → Status → M TcpEnd
after_data go_on conn s Status.success = go_on s
after_data go_on conn s _ = reject conn s.curr_packet_id

-- What follows TCP_get_DATA_metainfo.
abbrev pub after_metainfo :
    (TcpProgress → M TcpEnd) → Conn → TcpProgress → Status × DataInfo → M TcpEnd
after_metainfo go_on conn s (Status.success, d) =
    let received = u64 (s.nbr_of_bytes_received + d.nbr_of_bytes_in_packet) in
    if ltb conn.nbr_of_bytes_to_be_sent received
    then reject conn s.curr_packet_id
    else (tcp_read_data_to_buf d.nbr_of_bytes_in_packet
        >>= after_data go_on conn (record {
          nbr_of_bytes_received = received;
          curr_packet_id = u64 (s.curr_packet_id + 1);
        }))
after_metainfo go_on conn s (_, d) = reject conn s.curr_packet_id

-- The loop on fuel: a round takes the 21 bytes of a header, or ends the loop.
unfoldable pub tcp_receive_loop : ℕ → Conn → TcpProgress → M TcpEnd
tcp_receive_loop zero conn s c = out_of_fuel
tcp_receive_loop (suc fuel) conn s c =
    let next =
      (tcp_get_data_metainfo conn.session_id s.curr_packet_id
          >>= after_metainfo (λ s' c'. tcp_receive_loop fuel conn s' c') conn s)
        c in
    if ltb s.nbr_of_bytes_received conn.nbr_of_bytes_to_be_sent then next else done received_all c

-- What follows the loop: `continue` after a wrong packet, RCVD otherwise.
abbrev pub after_loop : Conn → TcpEnd → M TcpEnd
after_loop conn received_all = do
  tcp_send_packet (rcvd_memory (init_rcvd conn.session_id)) sizeof_rcvd
  close
  return received_all
after_loop conn e = return e

unfoldable pub tcp_receive : Conn → M TcpEnd
tcp_receive conn c =
    (tcp_receive_loop (suc (length c.incoming)) conn
          (record { nbr_of_bytes_received = 0; curr_packet_id = 0 })
        >>= after_loop conn)
      c

-- What follows `TCP_send_packet(&conacc, …)`.
abbrev pub after_conacc : Conn → Status → M TcpEnd
after_conacc conn Status.success = tcp_receive conn
after_conacc conn _ = close >> return no_connection

-- What follows TCP_handle_conn_init.
abbrev pub after_conn : Status × Conn → M TcpEnd
after_conn (Status.success, wire) =
    let conn = ntoh_conn wire in
    (tcp_send_packet (conacc_memory (init_conacc conn.session_id)) sizeof_conacc
      >>= after_conacc conn)
after_conn (_, wire) = close >> return no_connection

-- One accepted connection: the body of the loop of TCP_server_handler after `accept`.
unfoldable pub tcp_serve : M TcpEnd
tcp_serve = tcp_handle_conn_init >>= after_conn

-- `accept` fails or gives a connection. Beside it stands whether a SIGINT has come since the round
-- before, at the latest before the test of `finish` or, for a connection, before its handling has
-- ended. A SIGINT that makes `accept` fail is `accept_failed true`; one that makes a `read` of the
-- connection fail is also a failure among the connection's `reads`.
pub data AcceptResult : Type 0 where
  accept_failed : Bool → AcceptResult
  accepted : Bool → Connection → AcceptResult

-- The handler of SIGINT sets `finish`; nothing resets it.
abbrev pub catch_int : Bool → Bool → Bool
catch_int sigint finish = if sigint then true else finish

-- TCP_server_handler: the ends of the connections served so far, the newest first, and whether the
-- function has returned. A connection whose handling waits for ever is the last.
pub record Served : Type 0 where
  pub ends : List (Outcome TcpEnd)
  pub returned : Bool

unfoldable pub tcp_server_handler : List AcceptResult → Bool → List (Outcome TcpEnd) → Served
tcp_server_handler [] finish ends = record { ends = ends; returned = false }
tcp_server_handler (accept_failed sigint ∷ later) finish ends =
    let next = tcp_server_handler later (catch_int sigint finish) ends in
    if catch_int sigint finish then record { ends = ends; returned = true } else next
tcp_server_handler (accepted sigint c ∷ later) finish ends = elim (tcp_serve c) [
  | done e c' ↦ tcp_server_handler later (catch_int sigint finish) (done e c' ∷ ends)
  | blocked c' ↦ record { ends = blocked c' ∷ ends; returned = false }
  | out_of_fuel ↦ record { ends = out_of_fuel ∷ ends; returned = false }
]
