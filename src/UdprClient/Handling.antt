-- ===== src/UdprClient/Handling.antt =====
-- UDPR_client_handler as a whole: what it sends.
use si_k_1projekt_tcp_udp.Common.{ℕ, ◌+◌, ◌*◌, ◌≤◌, ◌<◌, ◌≡◌, ◌⊎◌, List, ◌++◌, length, All}
use si_k_1projekt_tcp_udp.Constants.{Status}
use si_k_1projekt_tcp_udp.Packets.Wire.{data_packet, conn_packet}
use si_k_1projekt_tcp_udp.MyVec.{MyVec}
use si_k_1projekt_tcp_udp.Net.{Address, Packet, World, Outcome, Post}
use si_k_1projekt_tcp_udp.UdprClient.Pieces.{piece, data_of}
use si_k_1projekt_tcp_udp.UdprClient.Outbox.{IsPiece, IsSent}

abbrev Quiet : {A : Type 0} → World → Outcome A → Type 0
Quiet w = Post (λ a w'. w'.sent ≡ w.sent) (λ w'. Unit {0})

-- A packet of the transfer: CONN, or a piece.
abbrev pub IsTransferPacket : ℕ → List ℕ → ℕ → List ℕ → Type 0
IsTransferPacket session bytes nbr body =
    (body ≡ conn_packet session 3 nbr) ⊎ IsPiece session bytes body

-- What the handler has sent, where the vector has at most `n` pieces.
pub record HandlerSends (server : Address) (vec : MyVec) (session n : ℕ) (w : World)
    (status : Status) (w' : World) : Type 0 where
  pub packets : List Packet
  pub sent : w'.sent ≡ packets ++ w.sent
  pub only :
      All
        (λ p. (p.to ≡ server) × IsTransferPacket session (data_of vec) vec.occupied_size p.body)
        packets
  pub few : length packets ≤ n + 10
  pub all_sent :
      status ≡ Status.success
      → (i : ℕ) → 64000 * i < vec.occupied_size
      → IsSent packets (data_packet session i (piece (data_of vec) i))
