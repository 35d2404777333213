-- ===== src/UdpServer/Checks.antt =====
-- server_UDP_lib.c: `check_if_correct_CONN`, `check_if_correct_DATA_packet`, `do_retransmission`
-- and `handle_ret_val`.
use si_k_1projekt_tcp_udp.Common.{
  ℕ, ◌+◌, List, Bool, ◌&&◌, ltb, ◌==◌, ◌!=◌, if◌then◌else◌, length, sub64,
}
use si_k_1projekt_tcp_udp.Constants.{
  Status, conn_id, data_id, udp_protocol, udpr_protocol, max_allowed_packet_size, max_retransmits,
}
use si_k_1projekt_tcp_udp.Packets.{
  Conn, DataInfo, sizeof_conn, sizeof_data_info, read_conn, read_data_info,
}
use si_k_1projekt_tcp_udp.Net.{Address, M, ◌>>◌, return}
use si_k_1projekt_tcp_udp.UdpServer.Receive.{send_conacc, send_acc, send_rjt}

-- The result and the struct that the call fills.
unfoldable pub check_if_correct_conn : List ℕ → List ℕ → Status × Conn
check_if_correct_conn stack buff =
    let conn = read_conn stack buff in
    (
      if length buff != sizeof_conn
          then Status.error
          else if conn.package_type_id != conn_id
          then Status.error
          else if conn.protocol_id != udp_protocol && conn.protocol_id != udpr_protocol
          then Status.error
          else Status.success,
      conn,
    )

unfoldable pub check_if_correct_data_packet : List ℕ → List ℕ → Conn → ℕ → Status × DataInfo
check_if_correct_data_packet stack buff conn curr_package_id =
    let d_info = read_data_info stack buff in
    (
      if d_info.package_type_id != data_id
          then Status.wrong_package_type_id
          else if d_info.session_id != conn.session_id
          then Status.wrong_session_id
          else if d_info.package_id != curr_package_id
          then Status.wrong_package_id
          else if ltb max_allowed_packet_size d_info.nbr_of_bytes_in_packet
          then Status.error
          else if length buff != sizeof_data_info + d_info.nbr_of_bytes_in_packet
          then Status.wrong_package_size
          else Status.success,
      d_info,
    )

-- The result and the new `*nbr_of_retransmits`.
unfoldable pub do_retransmission : Address → Conn → Bool → ℕ → ℕ → M (Status × ℕ)
unfolding send_conacc send_acc
do_retransmission client_address conn is_first_data_packet nbr_of_retransmits curr_package_id =
    let counted = nbr_of_retransmits + 1 in
    if ltb max_retransmits counted then return (Status.error, counted) else do
      (if is_first_data_packet
          then send_conacc client_address conn.session_id
          else send_acc client_address conn.session_id (sub64 curr_package_id 1))
      return (Status.success, counted)

-- `handle_ret_val` for WRONG_PACKAGE_TYPE_ID.
unfoldable pub handle_wrong_type : ℕ → DataInfo → Bool → Status
handle_wrong_type read_bytes data_info is_first_data_packet =
    if data_info.package_type_id == conn_id
    then if read_bytes != sizeof_conn
      then Status.error
      else if is_first_data_packet
      then Status.continue
      else Status.error
    else Status.error

-- `handle_ret_val` for WRONG_PACKAGE_ID.
unfoldable pub handle_wrong_id : Address → ℕ → ℕ → DataInfo → ℕ → M Status
unfolding send_rjt
handle_wrong_id client_address read_bytes curr_package_id data_info session_id =
    if ltb data_info.package_id curr_package_id
    then if read_bytes != sizeof_data_info + data_info.nbr_of_bytes_in_packet
      then return Status.error
      else return Status.continue
    else do send_rjt client_address session_id data_info.package_id; return Status.error

unfoldable pub handle_ret_val : Status → Address → ℕ → ℕ → DataInfo → ℕ → Bool → M Status
unfolding handle_wrong_type handle_wrong_id send_rjt
handle_ret_val ret_val client_address read_bytes curr_package_id data_info session_id first =
    elim ret_val [
      | Status.wrong_package_type_id ↦ return (handle_wrong_type read_bytes data_info first)
      | Status.wrong_session_id ↦
          (send_rjt client_address session_id curr_package_id >> return Status.error)
      | Status.wrong_package_id ↦
          handle_wrong_id client_address read_bytes curr_package_id data_info session_id
      | Status.success ↦ return Status.success
      | _ ↦ (send_rjt client_address session_id data_info.package_id >> return Status.error)
    ]
