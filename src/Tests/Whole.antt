-- ===== src/Tests/Whole.antt =====
-- The two programs on concrete arguments.
use si_k_1projekt_tcp_udp.Common.{ℕ, List, [], ◌∷◌, true, some}
use si_k_1projekt_tcp_udp.MyVec.{chunk}
use si_k_1projekt_tcp_udp.Net.{World}
use si_k_1projekt_tcp_udp.Programs.{System}
use si_k_1projekt_tcp_udp.Programs.Transfers.{udpr_argv}
use si_k_1projekt_tcp_udp.Tests.{client, world, no_data}
use si_k_1projekt_tcp_udp.Tests.Tcp.{answered, accepts}
use si_k_1projekt_tcp_udp.Tests.Udpr.{answers, client_after}

-- A system on which everything works; the port is 23040, in network order 90.
abbrev system : System
system = record {
  strtoul = λ s. record { number = 23040; behind = []; errno = 0 };
  getaddrinfo = λ host. some 9;
  socket = λ kind. some 3;
  binds = λ port. true;
  listens = true;
  getsockname_works = true;
  connects = true;
  rand_1 = 0;
  rand_2 = 77;
  allocator = λ n. true;
  stdin = chunk (72 ∷ 101 ∷ 108 ∷ []) ∷ chunk (108 ∷ 111 ∷ []) ∷ [];
  accepts = accepts;
  world = world answers;
  connection = answered;
  uninitialised = no_data;
  uninitialised_address = client;
}

abbrev argv : List (List ℕ)
argv = udpr_argv (112 ∷ []) (104 ∷ []) (50 ∷ 51 ∷ 48 ∷ 52 ∷ 48 ∷ [])

abbrev after_main : World
after_main = record client_after { rcv_timeo = 8 }
