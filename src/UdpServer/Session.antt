-- ===== src/UdpServer/Session.antt =====
-- server_UDP_lib.c: `UDP_data_receive` and `UDPR_data_receive`.
-- A round of each loop is a function of its own. The loops run on fuel: every round takes at least
-- one result of `recvfrom`, so one more than the inbox holds is enough.
use si_k_1projekt_tcp_udp.Common.{
  ℕ, zero, suc, ◌+◌, Bool, true, false, ltb, ◌==◌, if◌then◌else◌, length, u64,
}
use si_k_1projekt_tcp_udp.Constants.{Status}
use si_k_1projekt_tcp_udp.Packets.{Conn, DataInfo}
use si_k_1projekt_tcp_udp.Net.{Address, done, out_of_fuel, M, ◌>>=◌, ◌>>◌, return, get_world}
use si_k_1projekt_tcp_udp.UdpServer.Receive.{
  Received, only, read_data_to_buffer, send_rcvd, send_rjt, send_acc,
}
use si_k_1projekt_tcp_udp.UdpServer.Checks.{
  check_if_correct_data_packet, do_retransmission, handle_ret_val,
}

-- The return of the function at which a connection ended.
pub data SessionEnd : Type 0 where
  received_all sent_too_much refused connection_lost : SessionEnd

-- What a round leaves to do: another round, or the return from the function.
pub data Round (S : Type 0) : Type 0 where
  again : S → Round S
  ended : SessionEnd → Round S

abbrev pub next_round : {S : Type 0} → (S → M SessionEnd) → Round S → M SessionEnd
next_round go_on (again s) = go_on s
next_round go_on (ended e) = return e

-- The locals of UDP_data_receive.
pub record Progress : Type 0 where
  pub bytes_recvd : ℕ
  pub curr_package_id : ℕ

-- `read_data_to_buffer` on the static `client_address` of UDP_data_receive.
unfoldable pub udp_read : Address → M Received
udp_read curr_client_addr = do
  w ← get_world
  r ← read_data_to_buffer (only curr_client_addr) w.udp_client_address
  λ w'. done r (record w' { udp_client_address = r.client_address })

-- What follows `check_if_correct_DATA_packet`.
unfoldable pub udp_checked : Conn → Progress → Address → Status → DataInfo → M (Round Progress)
udp_checked conn s client_address Status.success data_info = return (
    again (record {
      bytes_recvd = u64 (s.bytes_recvd + data_info.nbr_of_bytes_in_packet);
      curr_package_id = u64 (s.curr_package_id + 1);
    }))
udp_checked conn s client_address _ data_info = do
  send_rjt client_address conn.session_id data_info.package_id
  return (ended refused)

-- What follows `read_data_to_buffer`, by its result.
unfoldable pub udp_handle : Conn → Progress → Received → Status → M (Round Progress)
udp_handle conn s r Status.timeout_error = return (ended connection_lost)
udp_handle conn s r Status.error = return (ended connection_lost)
udp_handle conn s r _ = do
  w ← get_world
  let c = check_if_correct_data_packet w.stack r.buff conn s.curr_package_id
  udp_checked conn s r.client_address c.0 c.1

unfoldable pub udp_round : Conn → Address → Progress → M (Round Progress)
udp_round conn curr_client_addr s = do r ← udp_read curr_client_addr; udp_handle conn s r r.status

-- After the loop.
unfoldable pub udp_finish : Conn → Progress → M SessionEnd
udp_finish conn s = do
  w ← get_world
  (if s.bytes_recvd == conn.nbr_of_bytes_to_be_sent
      then (send_rcvd w.udp_client_address conn.session_id >> return received_all)
      else return sent_too_much)

unfoldable pub udp_loop : ℕ → Conn → Address → Progress → M SessionEnd
udp_loop zero conn curr_client_addr s w = out_of_fuel
udp_loop (suc fuel) conn curr_client_addr s w =
    let next =
      (udp_round conn curr_client_addr s >>= λ o.
      next_round (λ s'. udp_loop fuel conn curr_client_addr s') o)
        w in
    if ltb s.bytes_recvd conn.nbr_of_bytes_to_be_sent then next else udp_finish conn s w

unfoldable pub udp_data_receive : Conn → Address → M SessionEnd
udp_data_receive conn curr_client_addr w =
    udp_loop (suc (length w.inbox)) conn curr_client_addr
      (record { bytes_recvd = 0; curr_package_id = 0 }) w

-- The locals of UDPR_data_receive.
pub record UdprProgress : Type 0 where
  pub bytes_recvd : ℕ
  pub curr_package_id : ℕ
  pub nbr_of_retransmits : ℕ
  pub is_first_data_packet : Bool

-- `read_data_to_buffer` on the static `client_address` of UDPR_data_receive.
unfoldable pub udpr_read : Address → M Received
udpr_read correct_client_addr = do
  w ← get_world
  r ← read_data_to_buffer (only correct_client_addr) w.udpr_client_address
  λ w'. done r (record w' { udpr_client_address = r.client_address })

-- What follows `do_retransmission`.
unfoldable pub udpr_retransmitted : UdprProgress → Status × ℕ → M (Round UdprProgress)
udpr_retransmitted s (Status.success, counted) =
    return (again (record s { nbr_of_retransmits = counted }))
udpr_retransmitted s (_, counted) = return (ended connection_lost)

-- What follows `handle_ret_val`.
unfoldable pub udpr_checked :
    Conn → UdprProgress → Address → DataInfo → Status → M (Round UdprProgress)
udpr_checked conn s client_address data_info Status.error = return (ended refused)
udpr_checked conn s client_address data_info Status.continue = return (again s)
udpr_checked conn s client_address data_info _ = do
  send_acc client_address conn.session_id s.curr_package_id
  return (
      again (record s {
        bytes_recvd = u64 (s.bytes_recvd + data_info.nbr_of_bytes_in_packet);
        curr_package_id = u64 (s.curr_package_id + 1);
        is_first_data_packet = false;
      }))

-- What follows `read_data_to_buffer`, by its result.
unfoldable pub udpr_handle :
    Conn → Address → UdprProgress → Received → Status → M (Round UdprProgress)
udpr_handle conn correct_client_addr s r Status.error = return (ended connection_lost)
udpr_handle conn correct_client_addr s r Status.timeout_error =
    do_retransmission correct_client_addr conn s.is_first_data_packet s.nbr_of_retransmits
      s.curr_package_id
    >>= udpr_retransmitted s
udpr_handle conn correct_client_addr s r _ = do
  w ← get_world
  let c = check_if_correct_data_packet w.stack r.buff conn s.curr_package_id
  ret_val ←
      handle_ret_val c.0 r.client_address (length r.buff) s.curr_package_id c.1 conn.session_id
        s.is_first_data_packet
  udpr_checked conn s r.client_address c.1 ret_val

unfoldable pub udpr_round : Conn → Address → UdprProgress → M (Round UdprProgress)
udpr_round conn correct_client_addr s = do
  r ← udpr_read correct_client_addr
  udpr_handle conn correct_client_addr s r r.status

unfoldable pub udpr_finish : Conn → UdprProgress → M SessionEnd
udpr_finish conn s = do
  w ← get_world
  (if s.bytes_recvd == conn.nbr_of_bytes_to_be_sent
      then (send_rcvd w.udpr_client_address conn.session_id >> return received_all)
      else do
        send_rjt w.udpr_client_address conn.session_id s.curr_package_id
        return sent_too_much)

unfoldable pub udpr_loop : ℕ → Conn → Address → UdprProgress → M SessionEnd
udpr_loop zero conn correct_client_addr s w = out_of_fuel
udpr_loop (suc fuel) conn correct_client_addr s w =
    let next =
      (udpr_round conn correct_client_addr s >>= λ o.
      next_round (λ s'. udpr_loop fuel conn correct_client_addr s') o)
        w in
    if ltb s.bytes_recvd conn.nbr_of_bytes_to_be_sent then next else udpr_finish conn s w

unfoldable pub udpr_data_receive : Conn → Address → M SessionEnd
udpr_data_receive conn correct_client_addr w =
    udpr_loop (suc (length w.inbox)) conn correct_client_addr
      (record {
        bytes_recvd = 0;
        curr_package_id = 0;
        nbr_of_retransmits = 0;
        is_first_data_packet = true;
      })
      w
