-- ===== src/Tests/Parts.antt =====
-- Concrete calls of single functions at which the theorems apply.
use si_k_1projekt_tcp_udp.Common.{
  ℕ, ◌≡◌, refl, List, [], ◌∷◌, true, false, All, All-append, arith, replicate, ◌↔◌, Bool,
}
use si_k_1projekt_tcp_udp.MyVec.{push_back_str_to_vec, out_of_bounds, MyVec}
use si_k_1projekt_tcp_udp.MyVec.Growth.{
  IsValid, NoNul, contents, Appended, push_back_str_to_vec-Appended,
  push_back_str_to_vec-out_of_bounds,
}
use si_k_1projekt_tcp_udp.Packets.Wire.{conn_packet, short_packet, numbered_packet}
use si_k_1projekt_tcp_udp.Stream.{Connection, at_most, readn}
use si_k_1projekt_tcp_udp.Stream.Exact.{ReadsExactly, Stops, readn-ReadsExactly}
use si_k_1projekt_tcp_udp.UdprClient.{connect_loop}
use si_k_1projekt_tcp_udp.UdprClient.Waiting.{check_acc_packet}
use si_k_1projekt_tcp_udp.UdprClient.Accept.{check_acc_packet_iff}
use si_k_1projekt_tcp_udp.UdprClient.Connecting.{Connects, connect_loop-Connects}
use si_k_1projekt_tcp_udp.UdpClient.{check_udp_rcvd, check_udp_conacc}
use si_k_1projekt_tcp_udp.UdpClient.Accept.{check_udp_answers_iff}
use si_k_1projekt_tcp_udp.Common.Bytes.{IsByte, be_bytes-IsByte, be_bytes}
use si_k_1projekt_tcp_udp.Net.{Recv, timed_out, datagram, Post}
use si_k_1projekt_tcp_udp.Constants.{Status}
use si_k_1projekt_tcp_udp.Tests.{client, world, udp_inbox, server}

-- A stream that `read` cuts into two parts.
abbrev stream : Connection
stream = record {
  incoming = 1 ∷ 2 ∷ 3 ∷ 4 ∷ [];
  reads = at_most 2 ∷ at_most 5 ∷ [];
  writes = [];
  outgoing = [];
  closed = false;
}

readn-ReadsExactly_example :
    ReadsExactly 3 stream (readn 3 stream) × Stops 0 3 stream.reads (readn 3 stream)
readn-ReadsExactly_example = readn-ReadsExactly 3 stream (omega arith)

ack_1-IsByte : All IsByte (numbered_packet 5 77 1)
ack_1-IsByte = (
  omega arith,
  All-append IsByte (be_bytes 8 77) (be_bytes 8 1) (be_bytes-IsByte 8 77) (be_bytes-IsByte 8 1),
)

check_acc_packet_iff_example :
    (check_acc_packet [] (numbered_packet 5 77 1) 1 77 false ≡ Status.success)
    ↔ (numbered_packet 5 77 1 ≡ numbered_packet 5 77 1)
check_acc_packet_iff_example =
    check_acc_packet_iff [] (numbered_packet 5 77 1) 1 77 false ack_1-IsByte (omega arith)
      (omega arith)

check_udp_answers_iff_example :
    ((check_udp_rcvd [] 77 (Status.success, short_packet 7 77) ≡ Status.success)
      ↔ (short_packet 7 77 ≡ short_packet 7 77))
    × ((check_udp_conacc [] 77 (Status.success, short_packet 7 77) ≡ Status.success)
        ↔ (short_packet 7 77 ≡ short_packet 2 77))
check_udp_answers_iff_example =
    check_udp_answers_iff [] (short_packet 7 77) 77 (omega arith, be_bytes-IsByte 8 77)
      (omega arith)

abbrev conacc_inbox : List Recv
conacc_inbox = timed_out ∷ datagram server (short_packet 2 77) ∷ []

connect_loop-Connects_example :
    Post
      (Connects server 77 5 0 (world conacc_inbox))
      (λ w'. Unit {0})
      (connect_loop 10 server 77 5 0 (world conacc_inbox))
connect_loop-Connects_example = connect_loop-Connects server 77 5 (world conacc_inbox)

abbrev server_inbox : List Recv
server_inbox = datagram client (conn_packet 77 2 5) ∷ udp_inbox

abbrev small_vec : MyVec
small_vec = record {
  buff = 7 ∷ 0 ∷ 0 ∷ 0 ∷ [];
  buff_size = 4;
  occupied_size = 1;
  first_free_space_idx = 1;
}

small_vec-IsValid : IsValid small_vec
small_vec-IsValid = record { size_ok = refl; free_ok = refl; inside = omega arith }

small_vec-NoNul : NoNul (contents small_vec)
small_vec-NoNul = (λ e. omega (arith, e), tt)

abbrev serves_all : ℕ → Bool
serves_all n = true

push_back_str_to_vec-Appended_example :
    Appended small_vec
      (5 ∷ 6 ∷ 8 ∷ [])
      (push_back_str_to_vec serves_all small_vec (5 ∷ 6 ∷ 8 ∷ []) 3)
push_back_str_to_vec-Appended_example =
    push_back_str_to_vec-Appended serves_all small_vec (5 ∷ 6 ∷ 8 ∷ []) small_vec-IsValid
      small_vec-NoNul (λ e. omega (arith, e), (λ e. omega (arith, e), (λ e. omega (arith, e), tt)))
      (omega arith) refl (omega arith)

push_back_str_to_vec-out_of_bounds_example :
    push_back_str_to_vec serves_all small_vec (replicate 8 1) 8 ≡ out_of_bounds
push_back_str_to_vec-out_of_bounds_example =
    push_back_str_to_vec-out_of_bounds serves_all small_vec (replicate 8 1) small_vec-IsValid
      small_vec-NoNul (omega arith) refl (omega arith) (omega arith)
