-- ===== src/TcpClient.antt =====
-- client_TCP_lib.c.
pub mod Pieces
pub mod Delivery
use si_k_1projekt_tcp_udp.Common.{ℕ, zero, suc, Bool, ◌!=◌, if◌then◌else◌, u32}
use si_k_1projekt_tcp_udp.Constants.{Status, conacc_id, rcvd_id, tcp_protocol}
use si_k_1projekt_tcp_udp.Packets.{
  Data, Conacc, Rcvd, sizeof_conn, sizeof_conacc, sizeof_data, sizeof_rcvd, init_conn, conn_memory,
  data_memory, conacc_at, rcvd_at, ntoh_conacc, ntoh_rcvd,
}
use si_k_1projekt_tcp_udp.MyVec.{MyVec}
use si_k_1projekt_tcp_udp.Stream.{
  done, out_of_fuel, M, ◌>>=◌, return, WritenResult, negative_count, count, readn, writen,
  readn_error_handler, bytes_of, on_success,
}
use si_k_1projekt_tcp_udp.UdpClient.{Sending, udp_next_packet}

-- What the client makes of the result of `writen` for a struct of `size` bytes.
abbrev pub whole_written : ℕ → WritenResult → Status
whole_written size negative_count = Status.error
whole_written size (count n) = if n != size then Status.error else Status.success

unfoldable pub tcp_client_send_conn : ℕ → ℕ → M Status
tcp_client_send_conn session_id occupied_size =
    writen (conn_memory (init_conn session_id tcp_protocol occupied_size)) sizeof_conn >>= λ r.
    return (whole_written sizeof_conn r)

-- The whole struct is written, however much of it is data.
unfoldable pub send_data_wrapper : Data → M Status
send_data_wrapper packet =
    writen (data_memory packet) sizeof_data >>= λ r. return (whole_written sizeof_data r)

unfoldable pub check_conacc : ℕ → Conacc → Status
check_conacc session_id conacc =
    if conacc.package_type_id != conacc_id
    then Status.error
    else if conacc.session_id != session_id
    then Status.error
    else Status.success

unfoldable pub check_rcvd : ℕ → Rcvd → Status
check_rcvd session_id rcvd =
    if rcvd.package_type_id != rcvd_id
    then Status.error
    else if rcvd.session_id != session_id
    then Status.error
    else Status.success

-- `f(…) != SUCCESS` with `return ERROR`, and what comes next.
abbrev pub continue_with : M Status → Status → M Status
continue_with go_on Status.success = go_on
continue_with go_on _ = return Status.error

-- The loop on fuel: a round for each packet. A round fills the packet as that of
-- UDP_client_send_DATA does.
unfoldable pub tcp_send_loop : ℕ → MyVec → ℕ → Sending → M Status
tcp_send_loop zero vec session_id s c = out_of_fuel
tcp_send_loop (suc fuel) vec session_id s c =
    let filled = udp_next_packet vec session_id s in
    let next =
      continue_with
        (send_data_wrapper filled.0.packet >>= λ status.
          continue_with (λ c'. tcp_send_loop fuel vec session_id filled.0 c') status)
        filled.1 c in
    if s.bytes_sent != vec.occupied_size then next else done Status.success c

-- `uninitialised` is what the local DATA struct holds.
unfoldable pub tcp_client_send_data : MyVec → ℕ → Data → M Status
tcp_client_send_data vec session_id uninitialised =
    tcp_send_loop (suc vec.occupied_size) vec session_id (record {
      bytes_left = u32 vec.occupied_size;
      bytes_sent = 0;
      start_cpy_pos = 0;
      curr_package_id = 0;
      packet = uninitialised;
    })

unfoldable pub receive_conacc : ℕ → M Status
receive_conacc session_id = readn sizeof_conacc >>= λ r. return (
    on_success (readn_error_handler r sizeof_conacc)
      (check_conacc session_id (ntoh_conacc (conacc_at (bytes_of r)))))

unfoldable pub receive_rcvd : ℕ → M Status
receive_rcvd session_id = readn sizeof_rcvd >>= λ r. return (
    on_success (readn_error_handler r sizeof_rcvd)
      (check_rcvd session_id (ntoh_rcvd (rcvd_at (bytes_of r)))))

-- TCP_client_handler, `connected` being whether `connect` succeeds. The function is void; the
-- result is the status with which it came back.
unfoldable pub tcp_client_handler : Bool → MyVec → ℕ → Data → M Status
tcp_client_handler connected vec session_id uninitialised =
    if connected
    then (tcp_client_send_conn session_id vec.occupied_size
        >>= continue_with (
            receive_conacc session_id
            >>= continue_with (
                tcp_client_send_data vec session_id uninitialised
                >>= continue_with (receive_rcvd session_id))))
    else return Status.error
