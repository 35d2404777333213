-- ===== src/UdprClient.antt =====
-- client_UDPR_lib.c: establishing the connection and the handler.
pub mod Waiting
pub mod Transfer
pub mod Pieces
pub mod Sending
pub mod Outbox
pub mod Sent
pub mod Accept
pub mod Connecting
pub mod Handling
pub mod Acknowledged
use si_k_1projekt_tcp_udp.Common.{
  ℕ, zero, suc, ◌+◌, List, Bool, ◌&&◌, ◌||◌, ltb, ◌==◌, ◌!=◌, if◌then◌else◌, length,
}
use si_k_1projekt_tcp_udp.Constants.{Status, conacc_id, conrjt_id, udpr_protocol, max_retransmits}
use si_k_1projekt_tcp_udp.Packets.{
  Data, sizeof_conn, sizeof_conacc, init_conn, conn_memory, read_conacc,
}
use si_k_1projekt_tcp_udp.MyVec.{MyVec}
use si_k_1projekt_tcp_udp.Net.{
  Address, World, Outcome, done, out_of_fuel, M, ◌>>=◌, ◌>>◌, return, get_world, sendto_wrapper,
}
use si_k_1projekt_tcp_udp.Client.{wait_for_server_response}
use Waiting.{udpr_client_handle_rcvd}
use Transfer.{udpr_client_send_data}

-- The tests of UDPR_client_init_connection on what has come.
unfoldable pub check_udpr_conacc : List ℕ → ℕ → Status × List ℕ → Status
check_udpr_conacc stack session_id (Status.success, response) =
    let conacc = read_conacc stack response in
    if conacc.package_type_id == conrjt_id && conacc.session_id == session_id
    then Status.conrjt_error
    else if length response != sizeof_conacc
    then Status.error
    else if conacc.package_type_id != conacc_id || conacc.session_id != session_id
    then Status.error
    else Status.success
check_udpr_conacc stack session_id (_, response) = Status.error

-- What follows `sendto_wrapper`.
abbrev pub await_conacc : ℕ → ℕ → Status → M Status
await_conacc session_id server_port Status.success = do
  r ← wait_for_server_response server_port
  w ← get_world
  return (check_udpr_conacc w.stack session_id r)
await_conacc session_id server_port _ = return Status.error

unfoldable pub udpr_client_init_connection : Address → ℕ → ℕ → M Status
udpr_client_init_connection server_address session_id occupied_size =
    sendto_wrapper server_address (conn_memory (init_conn session_id udpr_protocol occupied_size))
      sizeof_conn
    >>= await_conacc session_id server_address.sin_port

abbrev pub connect_next : ℕ → M (Status × ℕ) → Status → M (Status × ℕ)
connect_next counted retry Status.success = return (Status.success, counted)
connect_next counted retry Status.conrjt_error = return (Status.conrjt_error, counted)
connect_next counted retry _ =
    if ltb max_retransmits (counted + 1) then return (Status.error, counted + 1) else retry

-- The `do … while` of UDPR_client_handler that establishes the connection: the status with which
-- it ends and the retransmissions counted. Each round counts one or ends it, so
-- MAX_RETRANSMITS + 2 rounds are enough.
unfoldable pub connect_loop : ℕ → Address → ℕ → ℕ → ℕ → M (Status × ℕ)
connect_loop zero server_address session_id occupied_size counted w = out_of_fuel
connect_loop (suc fuel) server_address session_id occupied_size counted w =
    let retry : M (Status × ℕ) =
      (λ w'. connect_loop fuel server_address session_id occupied_size (counted + 1) w') in
    (udpr_client_init_connection server_address session_id occupied_size >>= λ status.
    connect_next counted retry status)
      w

-- What follows UDPR_client_send_DATA. The packet index that is passed on is `last_package_idx`,
-- which stays 0.
abbrev pub await_rcvd : ℕ → ℕ → Status → M Status
await_rcvd session_id server_port Status.success = udpr_client_handle_rcvd 0 session_id server_port
await_rcvd session_id server_port _ = return Status.error

-- What follows the loop that establishes the connection.
abbrev pub after_connect : Address → MyVec → ℕ → Data → Status × ℕ → M Status
after_connect server_address vec session_id uninitialised (Status.success, counted) =
    udpr_client_send_data server_address vec session_id counted uninitialised
    >>= await_rcvd session_id server_address.sin_port
after_connect server_address vec session_id uninitialised (status, counted) = return status

-- The function is void; the result is the status with which it came back.
unfoldable pub udpr_client_handler : Address → MyVec → ℕ → Data → M Status
udpr_client_handler server_address vec session_id uninitialised = do
  λ w. done tt (record w { real_server_s_addr = 0 })
  r ← connect_loop (max_retransmits + 2) server_address session_id vec.occupied_size 0
  after_connect server_address vec session_id uninitialised r
