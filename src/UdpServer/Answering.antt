-- ===== src/UdpServer/Answering.antt =====
-- UDP_server_handler turn by turn: every client that asks for a connection gets its answer.
use si_k_1projekt_tcp_udp.Net.{World, Outcome, Post}
use si_k_1projekt_tcp_udp.UdpServer.Turns.{Turns, Returns, WaitsOn}

-- The whole run: turns, and then the handler returns or waits.
abbrev pub Answers : World → Outcome (Unit {0}) → Type 0
Answers w =
    Post (λ u w'. (v : World) × Turns w v × Returns v w')
      (λ w'. (v : World) × Turns w v × WaitsOn v w')
