-- ===== src/Tests/Udpr.antt =====
-- A concrete UDPR transfer at which the theorems apply: five bytes, with a repeated packet.
use si_k_1projekt_tcp_udp.Common.{All-append, ◌≡◌, refl, List, [], ◌∷◌, false, true, All, arith}
use si_k_1projekt_tcp_udp.Common.Bytes.{
  IsByte, be_bytes-IsByte, be_bytes, le_bytes, le_value, byte_swap,
}
use si_k_1projekt_tcp_udp.Constants.{Status}
use si_k_1projekt_tcp_udp.Packets.{
  init_data, init_acc, init_rcvd, str_pad, ntoh_acc, ntoh_data_info, cast_buff_to,
}
use si_k_1projekt_tcp_udp.Packets.Wire.{conn_packet, data_packet, short_packet, numbered_packet}
use si_k_1projekt_tcp_udp.Net.{Recv, timed_out, datagram, World, done, sendto_wrapper}
use si_k_1projekt_tcp_udp.Client.{fill_data, wait_for_server_response, wait_loop}
use si_k_1projekt_tcp_udp.UdprClient.Waiting.{udpr_client_handle_acc, acc_loop, check_acc_packet}
use si_k_1projekt_tcp_udp.UdprClient.Transfer.{udpr_client_send_data, udpr_send_loop, next_piece}
use si_k_1projekt_tcp_udp.UdprClient.Acknowledged.{
  IsAcknowledged, udpr_client_send_data-IsAcknowledged,
}
use si_k_1projekt_tcp_udp.UdpServer.Receive.{read_data_to_buffer, read_loop, send_acc, send_rcvd}
use si_k_1projekt_tcp_udp.UdpServer.Checks.{
  check_if_correct_data_packet, do_retransmission, handle_ret_val, handle_wrong_id,
  handle_wrong_type,
}
use si_k_1projekt_tcp_udp.UdpServer.Session.{
  received_all, udpr_data_receive, udpr_loop, udpr_round, udpr_read, udpr_handle, udpr_checked,
  udpr_retransmitted, udpr_finish,
}
use si_k_1projekt_tcp_udp.UdpServer.UdpTransfer.{HasBytes}
use si_k_1projekt_tcp_udp.Tests.{
  client, server, five_bytes, world, no_data, letters, letters_no_nul, data_packet-IsByte,
  conn_packet-IsByte,
}

-- The server's answers; a timeout makes the client repeat the packet.
abbrev pub answers : List Recv
answers =
    datagram server (short_packet 2 77)
    ∷ timed_out
    ∷ datagram server (numbered_packet 5 77 0)
    ∷ datagram server (short_packet 7 77)
    ∷ []

abbrev pub client_after : World
client_after = record (world []) {
  sent =
      record { to = server; body = data_packet 77 0 (72 ∷ 101 ∷ 108 ∷ 108 ∷ 111 ∷ []) }
      ∷ record { to = server; body = data_packet 77 0 (72 ∷ 101 ∷ 108 ∷ 108 ∷ 111 ∷ []) }
      ∷ record { to = server; body = conn_packet 77 3 5 }
      ∷ [];
  first_wait = false;
  real_server_s_addr = 9;
  errno_is_eagain = true;
}

-- The network repeats CONN and the packet.
abbrev pub arrived : List Recv
arrived =
    datagram client (conn_packet 77 3 5)
    ∷ datagram client (data_packet 77 0 (72 ∷ 101 ∷ 108 ∷ 108 ∷ 111 ∷ []))
    ∷ datagram client (data_packet 77 0 (72 ∷ 101 ∷ 108 ∷ 108 ∷ 111 ∷ []))
    ∷ []

abbrev pub server_after : World
server_after =
    record (world (datagram client (data_packet 77 0 (72 ∷ 101 ∷ 108 ∷ 108 ∷ 111 ∷ [])) ∷ [])) {
      sent =
          record { to = client; body = short_packet 7 77 }
          ∷ record { to = client; body = numbered_packet 5 77 0 }
          ∷ [];
    }

pub server_run :
    udpr_data_receive five_bytes client (world arrived) ≡ done received_all server_after
unfolding udpr_data_receive udpr_loop udpr_round udpr_read udpr_handle udpr_checked
    udpr_retransmitted udpr_finish do_retransmission handle_ret_val handle_wrong_id
    handle_wrong_type read_data_to_buffer read_loop send_acc send_rcvd init_acc init_rcvd
    sendto_wrapper check_if_correct_data_packet ntoh_data_info cast_buff_to le_bytes le_value
    be_bytes byte_swap
server_run = refl

packet-IsByte : All IsByte (data_packet 77 0 (72 ∷ 101 ∷ 108 ∷ 108 ∷ 111 ∷ []))
packet-IsByte =
    data_packet-IsByte 77 0 (72 ∷ 101 ∷ 108 ∷ 108 ∷ 111 ∷ [])
      (omega arith, (omega arith, (omega arith, (omega arith, (omega arith, tt)))))

pub arrived_bytes : All HasBytes arrived
arrived_bytes = (conn_packet-IsByte 77 3 5 (omega arith), (packet-IsByte, (packet-IsByte, tt)))

abbrev acknowledging : World
acknowledging = world (timed_out ∷ datagram server (numbered_packet 5 77 0) ∷ [])

abbrev acknowledged : World
acknowledged = record (world []) {
  sent =
      record { to = server; body = data_packet 77 0 (72 ∷ 101 ∷ 108 ∷ 108 ∷ 111 ∷ []) }
      ∷ record { to = server; body = data_packet 77 0 (72 ∷ 101 ∷ 108 ∷ 108 ∷ 111 ∷ []) }
      ∷ [];
  first_wait = false;
  real_server_s_addr = 9;
  errno_is_eagain = true;
}

send_run :
    udpr_client_send_data server letters 77 3 no_data acknowledging
    ≡ done Status.success acknowledged
unfolding udpr_client_send_data udpr_send_loop next_piece udpr_client_handle_acc acc_loop
    check_acc_packet fill_data wait_for_server_response wait_loop init_data str_pad ntoh_acc
    cast_buff_to sendto_wrapper le_bytes le_value be_bytes byte_swap
send_run = refl

ack-IsByte : All IsByte (numbered_packet 5 77 0)
ack-IsByte = (
  omega arith,
  All-append IsByte (be_bytes 8 77) (be_bytes 8 0) (be_bytes-IsByte 8 77) (be_bytes-IsByte 8 0),
)

udpr_client_send_data-IsAcknowledged_example : IsAcknowledged 90 77 0 acknowledging.inbox
udpr_client_send_data-IsAcknowledged_example =
    udpr_client_send_data-IsAcknowledged server letters 77 3 no_data acknowledging acknowledged
      (omega arith) (omega arith) letters_no_nul (omega arith) (omega arith) (tt, (ack-IsByte, tt))
      send_run 0 (omega arith)
