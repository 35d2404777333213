-- ===== src/UdpClient.antt =====
-- client_UDP_lib.c.
pub mod Cutting
pub mod Rounds
pub mod Pieces
pub mod Accept
use si_k_1projekt_tcp_udp.Common.{
  ℕ, zero, suc, ◌+◌, List, ltb, ◌!=◌, if◌then◌else◌, length, u32, u64, sub32,
}
use si_k_1projekt_tcp_udp.Common.Bytes.{byte_swap}
use si_k_1projekt_tcp_udp.Constants.{Status, conacc_id, rcvd_id, udp_protocol, send_buff_size}
use si_k_1projekt_tcp_udp.Packets.{
  Data, sizeof_conn, sizeof_conacc, sizeof_rcvd, sizeof_data_info, init_conn, conn_memory,
  data_memory, read_conacc, read_rcvd,
}
use si_k_1projekt_tcp_udp.MyVec.{MyVec}
use si_k_1projekt_tcp_udp.Net.{
  Address, done, out_of_fuel, M, ◌>>=◌, ◌>>◌, return, get_world, sendto_wrapper,
}
use si_k_1projekt_tcp_udp.Client.{wait_for_server_response, fill_data, next_size}

unfoldable pub udp_client_conn_handler : Address → ℕ → ℕ → M Status
udp_client_conn_handler server_address session_id occupied_size =
    sendto_wrapper server_address (conn_memory (init_conn session_id udp_protocol occupied_size))
      sizeof_conn

-- The tests of UDP_client_CONACC_handler on what has come.
unfoldable pub check_udp_conacc : List ℕ → ℕ → Status × List ℕ → Status
check_udp_conacc stack session_id (Status.success, response) =
    let conacc = read_conacc stack response in
    if conacc.package_type_id != conacc_id
    then Status.error
    else if conacc.session_id != session_id
    then Status.error
    else if length response != sizeof_conacc
    then Status.error
    else Status.success
check_udp_conacc stack session_id (_, response) = Status.error

unfoldable pub udp_client_conacc_handler : ℕ → ℕ → M Status
udp_client_conacc_handler session_id server_port = do
  r ← wait_for_server_response server_port
  w ← get_world
  return (check_udp_conacc w.stack session_id r)

-- The locals of UDP_client_send_DATA.
pub record Sending : Type 0 where
  pub bytes_left : ℕ
  pub bytes_sent : ℕ
  pub start_cpy_pos : ℕ
  pub curr_package_id : ℕ
  pub packet : Data

-- A round of the loop before `sendto_wrapper`; the last piece leaves `start_cpy_pos` alone.
unfoldable pub udp_next_packet : MyVec → ℕ → Sending → Sending × Status
udp_next_packet vec session_id s =
    let n = next_size s.bytes_left in
    let filled = fill_data s.packet vec session_id s.curr_package_id s.start_cpy_pos n in
    (
      record {
        bytes_left = sub32 s.bytes_left n;
        bytes_sent = u32 (s.bytes_sent + n);
        start_cpy_pos =
            if ltb s.bytes_left send_buff_size
            then s.start_cpy_pos
            else u64 (s.start_cpy_pos + send_buff_size);
        curr_package_id = u64 (s.curr_package_id + 1);
        packet = filled.0;
      },
      filled.1,
    )

-- `sizeof(DATA_INFO_t) + be32toh(data.nbr_of_bytes_in_packet)` bytes of the struct are sent.
unfoldable pub send_data_packet : Address → Data → M Status
send_data_packet server_address packet =
    sendto_wrapper server_address (data_memory packet)
      (sizeof_data_info + byte_swap 4 packet.nbr_of_bytes_in_packet)

-- What follows `sendto_wrapper`, and then what follows `init_DATA`.
abbrev pub after_send : M Status → Status → M Status
after_send go_on Status.success = go_on
after_send go_on _ = return Status.error

-- The loop on fuel: a round for each packet. The test compares the 32-bit count of bytes sent with
-- the 64-bit size of the vector.
unfoldable pub udp_send_loop : ℕ → Address → MyVec → ℕ → Sending → M Status
udp_send_loop zero server_address vec session_id s w = out_of_fuel
udp_send_loop (suc fuel) server_address vec session_id s w =
    let filled = udp_next_packet vec session_id s in
    let next =
      after_send
        (send_data_packet server_address filled.0.packet >>= λ status.
          after_send (λ w'. udp_send_loop fuel server_address vec session_id filled.0 w') status)
        filled.1 w in
    if s.bytes_sent != vec.occupied_size then next else done Status.success w

-- `uninitialised` is what the local DATA struct holds.
unfoldable pub udp_client_send_data : Address → MyVec → ℕ → Data → M Status
udp_client_send_data server_address vec session_id uninitialised =
    udp_send_loop (suc vec.occupied_size) server_address vec session_id (record {
      bytes_left = u32 vec.occupied_size;
      bytes_sent = 0;
      start_cpy_pos = 0;
      curr_package_id = 0;
      packet = uninitialised;
    })

-- The tests of UDP_client_RCVD_handler on what has come.
unfoldable pub check_udp_rcvd : List ℕ → ℕ → Status × List ℕ → Status
check_udp_rcvd stack session_id (Status.success, response) =
    let rcvd = read_rcvd stack response in
    if rcvd.package_type_id != rcvd_id
    then Status.error
    else if rcvd.session_id != session_id
    then Status.error
    else if length response != sizeof_rcvd
    then Status.error
    else Status.success
check_udp_rcvd stack session_id (_, response) = Status.error

unfoldable pub udp_client_rcvd_handler : ℕ → ℕ → M Status
udp_client_rcvd_handler session_id server_port = do
  r ← wait_for_server_response server_port
  w ← get_world
  return (check_udp_rcvd w.stack session_id r)

-- The function is void; the result is the status with which it came back.
unfoldable pub udp_client_handler : Address → MyVec → ℕ → Data → M Status
udp_client_handler server_address vec session_id uninitialised = do
  λ w. done tt (record w { real_server_s_addr = 0 })
  status ← udp_client_conn_handler server_address session_id vec.occupied_size
  after_send
      (udp_client_conacc_handler session_id server_address.sin_port
        >>= after_send (
            udp_client_send_data server_address vec session_id uninitialised
            >>= after_send (udp_client_rcvd_handler session_id server_address.sin_port)))
      status
