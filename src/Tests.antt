-- ===== src/Tests.antt =====
-- Concrete connections at which the theorems apply.
pub mod Tcp
pub mod Udpr
pub mod Vec
pub mod Whole
pub mod Parts
use si_k_1projekt_tcp_udp.Common.{
  ℕ, ◌≡◌, refl, List, [], ◌∷◌, ◌++◌, true, false, All, All-append, arith, length, replicate, ◌↔◌,
  ◌≤◌, take, ◌≢◌, Bool,
}
use si_k_1projekt_tcp_udp.Packets.{
  Conn, Data, data_memory, str_pad, init_data, init_rcvd, init_rjt, ntoh_data_info, ntoh_conn,
  cast_buff_to,
}
use si_k_1projekt_tcp_udp.UdpClient.{
  udp_client_send_data, udp_send_loop, udp_next_packet, send_data_packet, check_udp_rcvd,
  check_udp_conacc,
}
use si_k_1projekt_tcp_udp.UdpClient.Pieces.{SentPieces, udp_client_send_data-SentPieces}
use si_k_1projekt_tcp_udp.Exchange.{transfer-EndsWithRcvd}
use si_k_1projekt_tcp_udp.MyVec.{push_back_str_to_vec, out_of_bounds, MyVec}
use si_k_1projekt_tcp_udp.MyVec.Growth.{
  IsValid, NoNul, contents, Appended, push_back_str_to_vec-Appended,
  push_back_str_to_vec-out_of_bounds,
}
use si_k_1projekt_tcp_udp.Packets.Wire.{conn_packet, data_packet, short_packet, numbered_packet}
use si_k_1projekt_tcp_udp.Stream.{Connection, at_most, readn}
use si_k_1projekt_tcp_udp.UdprClient.{connect_loop}
use si_k_1projekt_tcp_udp.UdprClient.Waiting.{check_acc_packet}
use si_k_1projekt_tcp_udp.UdprClient.Accept.{check_acc_packet_iff}
use si_k_1projekt_tcp_udp.UdprClient.Connecting.{Connects, connect_loop-Connects}
use si_k_1projekt_tcp_udp.UdpClient.Accept.{check_udp_answers_iff}
use si_k_1projekt_tcp_udp.Client.{wait_for_server_response, fill_data}
use si_k_1projekt_tcp_udp.UdpServer.Ending.{Ends, data_receive-Ends}
use si_k_1projekt_tcp_udp.UdpServer.Handler.{udp_server_handler}
use si_k_1projekt_tcp_udp.Common.Bytes.{
  IsByte, be_bytes-IsByte, le_bytes, le_value, be_bytes, byte_swap,
}
use si_k_1projekt_tcp_udp.Net.{
  sendto_wrapper, Address, Recv, timed_out, datagram, World, done, Post,
}
use si_k_1projekt_tcp_udp.UdpServer.Receive.{
  only, read_data_to_buffer, read_loop, answer_other, send_rjt, send_rcvd,
}
use si_k_1projekt_tcp_udp.UdpServer.Reading.{ReadsOrBlocks}
use si_k_1projekt_tcp_udp.UdpServer.Replies.{RefusesOthers, read_data_to_buffer-Answers}
use si_k_1projekt_tcp_udp.UdpServer.Checks.{check_if_correct_data_packet}
use si_k_1projekt_tcp_udp.UdpServer.Session.{
  udp_loop, udp_round, udp_read, udp_handle, udp_checked, udp_finish, received_all,
  udp_data_receive,
}
use si_k_1projekt_tcp_udp.UdpServer.UdpTransfer.{Completed, HasBytes, udp_data_receive-Completed}
use si_k_1projekt_tcp_udp.UdpServer.UdpDelivery.{EndsWithRcvd, udp_data_receive-delivers}
use si_k_1projekt_tcp_udp.UdpServer.Accept.{check_if_correct_data_packet_iff}
use si_k_1projekt_tcp_udp.Client.Packing.{fill_data-data_packet}
use si_k_1projekt_tcp_udp.Constants.{Status}

abbrev pub client : Address
client = record { s_addr = 1; sin_port = 10 }

abbrev pub stranger : Address
stranger = record { s_addr = 2; sin_port = 20 }

abbrev pub five_bytes : Conn
five_bytes = record {
  package_type_id = 1;
  session_id = 77;
  protocol_id = 2;
  nbr_of_bytes_to_be_sent = 5;
}

abbrev pub world : List Recv → World
world inbox = record {
  inbox = inbox;
  sendto_results = [];
  sent = [];
  stack = [];
  rcv_timeo = 0;
  finish = false;
  udp_client_address = client;
  udpr_client_address = client;
  first_wait = true;
  real_server_s_addr = 0;
  errno_is_eagain = false;
}

abbrev pub udp_inbox : List Recv
udp_inbox =
    datagram client (data_packet 77 0 (72 ∷ 101 ∷ []))
    ∷ datagram stranger (data_packet 5 0 (1 ∷ []))
    ∷ datagram client (data_packet 77 1 (108 ∷ 108 ∷ 111 ∷ []))
    ∷ []

abbrev udp_after : World
udp_after = record (world []) {
  sent =
      record { to = client; body = short_packet 7 77 }
      ∷ record { to = stranger; body = numbered_packet 6 5 0 }
      ∷ [];
}

udp_run : udp_data_receive five_bytes client (world udp_inbox) ≡ done received_all udp_after
unfolding udp_data_receive udp_loop udp_round udp_read udp_handle udp_checked udp_finish
    read_data_to_buffer read_loop answer_other send_rjt send_rcvd init_rcvd init_rjt sendto_wrapper
    check_if_correct_data_packet ntoh_data_info ntoh_conn cast_buff_to le_bytes le_value be_bytes
    byte_swap
udp_run = refl

pub data_packet-IsByte :
    (session id : ℕ) (payload : List ℕ)
    → All IsByte payload
    → All IsByte (data_packet session id payload)
data_packet-IsByte session id payload h = (
  omega arith,
  All-append IsByte (be_bytes 8 session) _ (be_bytes-IsByte 8 session) (
      All-append IsByte (be_bytes 8 id) _ (be_bytes-IsByte 8 id) (
        All-append IsByte (be_bytes 4 (length payload)) payload (be_bytes-IsByte 4 (length payload))
          h)),
)

pub conn_packet-IsByte :
    (session protocol nbr : ℕ) → IsByte protocol → All IsByte (conn_packet session protocol nbr)
conn_packet-IsByte session protocol nbr p = (
  omega arith,
  All-append IsByte (be_bytes 8 session) _ (be_bytes-IsByte 8 session) (p, be_bytes-IsByte 8 nbr),
)

hello_1 : All IsByte (data_packet 77 0 (72 ∷ 101 ∷ []))
hello_1 = data_packet-IsByte 77 0 (72 ∷ 101 ∷ []) (omega arith, (omega arith, tt))

hello_2 : All IsByte (data_packet 77 1 (108 ∷ 108 ∷ 111 ∷ []))
hello_2 =
    data_packet-IsByte 77 1 (108 ∷ 108 ∷ 111 ∷ []) (omega arith, (omega arith, (omega arith, tt)))

udp_bytes : All HasBytes udp_inbox
udp_bytes = (hello_1, (data_packet-IsByte 5 0 (1 ∷ []) (omega arith, tt), (hello_2, tt)))

udp_data_receive-Completed_example :
    Completed five_bytes client
      (record { bytes_recvd = 0; curr_package_id = 0 })
      (world udp_inbox)
      udp_after
udp_data_receive-Completed_example =
    udp_data_receive-Completed five_bytes client (world udp_inbox) udp_after udp_bytes (omega arith)
      (omega arith) udp_run

abbrev pub hello : List (List ℕ)
hello = (72 ∷ 101 ∷ []) ∷ (108 ∷ 108 ∷ 111 ∷ []) ∷ []

udp_data_receive-delivers_example :
    Post
      (EndsWithRcvd five_bytes client)
      (λ w'. ⊥)
      (udp_data_receive five_bytes client (world udp_inbox))
udp_data_receive-delivers_example =
    udp_data_receive-delivers hello five_bytes client (world udp_inbox) (tt, (tt, (tt, tt))) refl
      ((omega arith, omega arith), ((omega arith, omega arith), tt)) refl (omega arith)
      (omega arith) (omega arith)

-- A time-out, and the first packet once more before the second one.
abbrev pub udpr_inbox : List Recv
udpr_inbox =
    datagram client (data_packet 77 0 (72 ∷ 101 ∷ []))
    ∷ timed_out
    ∷ datagram client (data_packet 77 0 (72 ∷ 101 ∷ []))
    ∷ datagram client (data_packet 77 1 (108 ∷ 108 ∷ 111 ∷ []))
    ∷ []

abbrev udpr_after : World
udpr_after = record (world []) {
  sent =
      record { to = client; body = short_packet 7 77 }
      ∷ record { to = client; body = numbered_packet 5 77 1 }
      ∷ record { to = client; body = numbered_packet 5 77 0 }
      ∷ record { to = client; body = numbered_packet 5 77 0 }
      ∷ [];
}

check_if_correct_data_packet_iff_example :
    ((check_if_correct_data_packet [] (data_packet 77 0 (72 ∷ [])) five_bytes 0).0 ≡ Status.success)
    ↔ ((payload : List ℕ) × (data_packet 77 0 (72 ∷ []) ≡ data_packet 77 0 payload)
        × (length payload ≤ 64000))
check_if_correct_data_packet_iff_example =
    check_if_correct_data_packet_iff [] five_bytes 0 (data_packet 77 0 (72 ∷ []))
      (data_packet-IsByte 77 0 (72 ∷ []) (omega arith, tt)) (omega arith) (omega arith)

abbrev pub no_data : Data
no_data = record {
  package_type_id = 0;
  session_id = 0;
  package_id = 0;
  nbr_of_bytes_in_packet = 0;
  seq_of_bytes = replicate 8 0;
}

abbrev binary_vec : MyVec
binary_vec = record {
  buff = 72 ∷ 101 ∷ 0 ∷ 108 ∷ 111 ∷ [];
  buff_size = 5;
  occupied_size = 5;
  first_free_space_idx = 5;
}

fill_data-data_packet_example :
    (data_memory (fill_data no_data binary_vec 77 0 1 3).0
      ≡ data_packet 77 0 (str_pad 3 (101 ∷ 0 ∷ 108 ∷ 111 ∷ [])) ++ replicate 5 0)
    × ((fill_data no_data binary_vec 77 0 1 3).1 ≡ Status.success)
fill_data-data_packet_example = fill_data-data_packet no_data binary_vec 77 0 1 3 (omega arith)

read_data_to_buffer-Answers_example :
    ReadsOrBlocks client udp_inbox
      (world udp_inbox)
      (read_data_to_buffer (only client) stranger (world udp_inbox))
    × RefusesOthers client udp_inbox
        (world udp_inbox)
        (read_data_to_buffer (only client) stranger (world udp_inbox))
read_data_to_buffer-Answers_example = read_data_to_buffer-Answers client stranger (world udp_inbox)

abbrev pub letters : MyVec
letters = record {
  buff = 72 ∷ 101 ∷ 108 ∷ 108 ∷ 111 ∷ 0 ∷ 0 ∷ [];
  buff_size = 7;
  occupied_size = 5;
  first_free_space_idx = 5;
}

abbrev pub server : Address
server = record { s_addr = 9; sin_port = 90 }

pub letters_no_nul : All (λ x. x ≢ 0) (take 5 letters.buff)
letters_no_nul = (
  λ e. omega (arith, e),
  (
    λ e. omega (arith, e),
    (λ e. omega (arith, e), (λ e. omega (arith, e), (λ e. omega (arith, e), tt))),
  ),
)

udp_client_send_data-SentPieces_example :
    Post
      (SentPieces server 77 0 (take 5 letters.buff) (world []))
      (λ w'. ⊥)
      (udp_client_send_data server letters 77 no_data (world []))
udp_client_send_data-SentPieces_example =
    udp_client_send_data-SentPieces server letters 77 no_data (world []) refl (omega arith)
      (omega arith) letters_no_nul

abbrev sent_letters : World
sent_letters = record (world []) {
  sent = record { to = server; body = data_packet 77 0 (72 ∷ 101 ∷ 108 ∷ 108 ∷ 111 ∷ []) } ∷ [];
}

client_run :
    udp_client_send_data server letters 77 no_data (world []) ≡ done Status.success sent_letters
unfolding udp_client_send_data udp_send_loop udp_next_packet send_data_packet fill_data init_data
    str_pad sendto_wrapper le_bytes le_value be_bytes byte_swap
client_run = refl

abbrev arrived_inbox : List Recv
arrived_inbox =
    datagram stranger (1 ∷ [])
    ∷ datagram client (data_packet 77 0 (72 ∷ 101 ∷ 108 ∷ 108 ∷ 111 ∷ []))
    ∷ []

transfer-EndsWithRcvd_example :
    Post
      (EndsWithRcvd five_bytes client)
      (λ w'. ⊥)
      (udp_data_receive five_bytes client (world arrived_inbox))
transfer-EndsWithRcvd_example =
    transfer-EndsWithRcvd server client letters five_bytes no_data Status.success (world [])
      sent_letters (world arrived_inbox) refl refl (omega arith) (omega arith) (omega arith)
      letters_no_nul client_run refl (omega arith) (tt, (tt, tt)) refl
