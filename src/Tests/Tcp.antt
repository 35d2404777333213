-- ===== src/Tests/Tcp.antt =====
-- Concrete TCP connections at which the theorems apply.
use si_k_1projekt_tcp_udp.Common.{
  List, ℕ, ◌^◌, ◌<◌, ◌≡◌, ◌↔◌, ◌⊎◌, refl, [], ◌∷◌, ◌++◌, true, false, All, All-append, arith,
  length, replicate, length-replicate,
}
use si_k_1projekt_tcp_udp.Common.Bytes.{IsByte, be_bytes, le_bytes, le_value, byte_swap}
use si_k_1projekt_tcp_udp.Constants.{Status}
use si_k_1projekt_tcp_udp.Packets.{
  Data, data_memory, read_conn, read_conacc, read_acc, read_rcvd, conn_memory, conacc_memory,
  acc_memory, rcvd_memory, init_conn, init_conacc, init_acc, init_rcvd, init_data, str_pad,
  ntoh_conacc, ntoh_rcvd,
}
use si_k_1projekt_tcp_udp.Packets.Wire.{conn_packet, data_packet, short_packet}
use si_k_1projekt_tcp_udp.Packets.Conns.{read-init}
use si_k_1projekt_tcp_udp.Client.{fill_data}
use si_k_1projekt_tcp_udp.UdpServer.Checks.{check_if_correct_conn}
use si_k_1projekt_tcp_udp.UdpServer.AcceptConn.{check_if_correct_conn_iff}
use si_k_1projekt_tcp_udp.Stream.{
  Connection, takes, at_most, write_failed, readn, readn_loop, readn_error_handler, writen,
  writen_loop, done,
}
use si_k_1projekt_tcp_udp.Stream.Rules.{Post}
use si_k_1projekt_tcp_udp.Stream.Writing.{Writes, writen-Writes}
use si_k_1projekt_tcp_udp.TcpServer.{tcp_serve, received_all, accept_failed, accepted, AcceptResult}
use si_k_1projekt_tcp_udp.TcpServer.Receiving.{data_stream}
use si_k_1projekt_tcp_udp.TcpServer.Serving.{ServeEnd, tcp_serve-ServeEnd}
use si_k_1projekt_tcp_udp.TcpServer.Delivery.{IsConfirmed, tcp_serve-IsConfirmed}
use si_k_1projekt_tcp_udp.UdpClient.{udp_next_packet}
use si_k_1projekt_tcp_udp.TcpClient.{
  tcp_client_handler, tcp_client_send_conn, receive_conacc, receive_rcvd, check_conacc, check_rcvd,
  tcp_client_send_data, tcp_send_loop, send_data_wrapper,
}
use si_k_1projekt_tcp_udp.Exchange.TcpTransfer.{transfer-IsConfirmed}
use si_k_1projekt_tcp_udp.Tests.{
  conn_packet-IsByte, hello, letters, letters_no_nul, data_packet-IsByte,
}

check_if_correct_conn_iff_example :
    ((check_if_correct_conn [] (conn_packet 77 3 5)).0 ≡ Status.success) ↔ (
      (session : ℕ) × (protocol : ℕ) × (nbr : ℕ) × (session < 2 ^ 64)
      × (nbr < 2 ^ 64)
      × ((protocol ≡ 2) ⊎ (protocol ≡ 3))
      × (conn_packet 77 3 5 ≡ conn_packet session protocol nbr)
      × ((check_if_correct_conn [] (conn_packet 77 3 5)).1 ≡ record {
        package_type_id = 1;
        session_id = session;
        protocol_id = protocol;
        nbr_of_bytes_to_be_sent = nbr;
      }))
check_if_correct_conn_iff_example =
    check_if_correct_conn_iff [] (conn_packet 77 3 5) (conn_packet-IsByte 77 3 5 (omega arith))

read-init_example :
    (read_conn (9 ∷ []) (conn_memory (init_conn 77 2 5)) ≡ record {
      package_type_id = 1;
      session_id = 77;
      protocol_id = 2;
      nbr_of_bytes_to_be_sent = 5;
    })
    × (read_conacc (9 ∷ []) (conacc_memory (init_conacc 77))
        ≡ record { package_type_id = 2; session_id = 77 })
    × (read_acc (9 ∷ []) (acc_memory (init_acc 77 5))
        ≡ record { package_type_id = 5; session_id = 77; package_id = 5 })
    × (read_rcvd (9 ∷ []) (rcvd_memory (init_rcvd 77))
        ≡ record { package_type_id = 7; session_id = 77 })
read-init_example = read-init (9 ∷ []) 77 5 2 (omega arith) (omega arith)

-- A `write` that takes two bytes and one that fails.
abbrev broken_stream : Connection
broken_stream = record {
  incoming = [];
  reads = [];
  writes = takes 2 ∷ write_failed ∷ [];
  outgoing = 9 ∷ [];
  closed = false;
}

writen-Writes_example :
    Post
      (Writes 3 (1 ∷ 2 ∷ 3 ∷ []) broken_stream)
      (λ c'. ⊥)
      (writen (1 ∷ 2 ∷ 3 ∷ 4 ∷ []) 3 broken_stream)
writen-Writes_example = writen-Writes (1 ∷ 2 ∷ 3 ∷ 4 ∷ []) 3 broken_stream

-- The stream of a client that sends five bytes in two packets; `read` cuts it at odd places.
abbrev pub served : Connection
served = record {
  incoming = conn_packet 77 1 5 ++ (data_stream 77 0 hello ++ 1 ∷ []);
  reads = at_most 2 ∷ at_most 16 ∷ at_most 40 ∷ at_most 1 ∷ [];
  writes = [];
  outgoing = [];
  closed = false;
}

hello-IsByte : All IsByte (data_stream 77 0 hello ++ 1 ∷ [])
hello-IsByte =
    All-append IsByte (data_stream 77 0 hello) _
      (All-append IsByte (data_packet 77 0 (72 ∷ 101 ∷ []))
        (data_packet 77 1 (108 ∷ 108 ∷ 111 ∷ []) ++ [])
        (data_packet-IsByte 77 0 (72 ∷ 101 ∷ []) (omega arith, (omega arith, tt)))
        (All-append IsByte (data_packet 77 1 (108 ∷ 108 ∷ 111 ∷ [])) []
          (data_packet-IsByte 77 1 (108 ∷ 108 ∷ 111 ∷ [])
            (omega arith, (omega arith, (omega arith, tt))))
          tt))
      (omega arith, tt)

pub served_length : length served.incoming ≡ 66
unfolding be_bytes le_bytes
served_length = refl

tcp_serve-ServeEnd_example : Post (ServeEnd served) (λ c'. Unit {0}) (tcp_serve served)
tcp_serve-ServeEnd_example =
    tcp_serve-ServeEnd served
      (All-append IsByte (conn_packet 77 1 5) _ (conn_packet-IsByte 77 1 5 (omega arith))
        hello-IsByte)
      (omega (arith, served_length))

tcp_serve-IsConfirmed_example : Post (IsConfirmed 77 (1 ∷ []) served) (λ c'. ⊥) (tcp_serve served)
tcp_serve-IsConfirmed_example =
    tcp_serve-IsConfirmed hello 77 (1 ∷ []) served
      ((omega arith, omega arith), ((omega arith, omega arith), tt)) (omega arith) (omega arith)
      refl (tt, (tt, (tt, (tt, tt)))) refl

abbrev array : Data
array = record {
  package_type_id = 0;
  session_id = 0;
  package_id = 0;
  nbr_of_bytes_in_packet = 0;
  seq_of_bytes = replicate 64000 0;
}

-- The client's end, with the server's answers.
abbrev pub answered : Connection
answered = record {
  incoming = short_packet 2 77 ++ (short_packet 7 77 ++ []);
  reads = at_most 4 ∷ at_most 4 ∷ at_most 4 ∷ at_most 20 ∷ [];
  writes = [];
  outgoing = [];
  closed = false;
}

abbrev written : Connection
written = record answered {
  incoming = [];
  reads = [];
  outgoing = conn_packet 77 1 5 ++ data_memory (fill_data array letters 77 0 0 5).0;
}

client_run : tcp_client_handler true letters 77 array answered ≡ done Status.success written
unfolding tcp_client_handler tcp_client_send_conn receive_conacc receive_rcvd check_conacc
    check_rcvd tcp_client_send_data tcp_send_loop send_data_wrapper udp_next_packet readn readn_loop
    readn_error_handler writen writen_loop init_conn fill_data init_data str_pad ntoh_conacc
    ntoh_rcvd le_bytes le_value be_bytes byte_swap
client_run = refl

abbrev receiving : Connection
receiving = record {
  incoming = written.outgoing;
  reads = at_most 7 ∷ at_most 30 ∷ [];
  writes = [];
  outgoing = [];
  closed = false;
}

transfer-IsConfirmed_example :
    (Status.success ≡ Status.success)
    × Post
        (λ e s'.
          (e ≡ received_all)
          × (s'.outgoing ≡ (receiving.outgoing ++ short_packet 2 77) ++ short_packet 7 77)
          × (length s'.incoming < 64000)
          × (s'.closed ≡ true))
        (λ s'. ⊥)
        (tcp_serve receiving)
transfer-IsConfirmed_example =
    transfer-IsConfirmed letters 77 array [] Status.success answered written receiving refl
      (tt, (tt, (tt, (tt, tt)))) refl refl (omega arith) (length-replicate {A = ℕ} 64000 0)
      (omega arith) (omega arith) letters_no_nul client_run refl (tt, (tt, tt)) refl

-- The SIGINT comes while the connection is served.
abbrev pub accepts : List AcceptResult
accepts = accept_failed false ∷ accepted true served ∷ accept_failed false ∷ []

pub served-IsByte : All IsByte served.incoming
served-IsByte =
    All-append IsByte (conn_packet 77 1 5) _ (conn_packet-IsByte 77 1 5 (omega arith)) hello-IsByte
