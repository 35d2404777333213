-- ===== src/UdpServer/Handler.antt =====
-- server_UDP_lib.c: `UDP_server_handler`. A connection is one turn of its endless loop; the times
-- that `save_to_file` writes to a file are left out.
use si_k_1projekt_tcp_udp.Common.{ℕ, zero, suc, Option, none, some, ◌==◌, if◌then◌else◌, length}
use si_k_1projekt_tcp_udp.Constants.{Status, udp_protocol, udpr_protocol, max_wait}
use si_k_1projekt_tcp_udp.Packets.{Conn}
use si_k_1projekt_tcp_udp.Net.{
  Address, out_of_fuel, M, ◌>>=◌, ◌>>◌, return, get_world, set_rcv_timeo,
}
use si_k_1projekt_tcp_udp.UdpServer.Receive.{
  Received, whoever_sends, read_data_to_buffer, send_conrjt, send_conacc,
}
use si_k_1projekt_tcp_udp.UdpServer.Checks.{check_if_correct_conn}
use si_k_1projekt_tcp_udp.UdpServer.Session.{udp_data_receive, udpr_data_receive}

-- The body of `switch (conn.protocol_id)`.
unfoldable pub serve : Conn → Address → M (Unit {0})
serve conn client_address =
    if conn.protocol_id == udp_protocol
    then (udp_data_receive conn client_address >> return tt)
    else if conn.protocol_id == udpr_protocol
    then (udpr_data_receive conn client_address >> return tt)
    else return tt

-- What follows `send_CONACC`.
unfoldable pub accept_connection : Conn → Address → Status → M (Unit {0})
accept_connection conn client_address Status.success =
    set_rcv_timeo max_wait >> serve conn client_address
accept_connection conn client_address _ = return tt

-- What follows `check_if_correct_CONN`.
unfoldable pub conn_checked : Address → Status → Conn → M (Unit {0})
conn_checked client_address Status.success conn =
    send_conacc client_address conn.session_id >>= accept_connection conn client_address
conn_checked client_address _ conn = send_conrjt client_address conn.session_id >> return tt

-- What follows `read_data_to_buffer`, by its result: `some tt` is the return from the function,
-- `none` another turn of the loop.
unfoldable pub handler_handle : Received → Status → M (Option (Unit {0}))
handler_handle r Status.success = do
  w ← get_world
  let c = check_if_correct_conn w.stack r.buff
  conn_checked r.client_address c.0 c.1
  return none
handler_handle r _ = get_world >>= λ w. return (if w.finish then some tt else none)

-- The local `client_address` is not read before it is written: the argument is what it holds.
unfoldable pub handler_turn : Address → M (Option (Unit {0}))
handler_turn uninitialised = do
  set_rcv_timeo 0
  r ← read_data_to_buffer whoever_sends uninitialised
  handler_handle r r.status

abbrev pub next_turn : M (Unit {0}) → Option (Unit {0}) → M (Unit {0})
next_turn go_on (some u) = return u
next_turn go_on none = go_on

unfoldable pub handler_loop : ℕ → Address → M (Unit {0})
handler_loop zero uninitialised w = out_of_fuel
handler_loop (suc fuel) uninitialised w =
    (handler_turn uninitialised >>= λ o. next_turn (λ w'. handler_loop fuel uninitialised w') o) w

unfoldable pub udp_server_handler : Address → M (Unit {0})
udp_server_handler uninitialised w = handler_loop (suc (length w.inbox)) uninitialised w
