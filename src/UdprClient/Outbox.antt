-- ===== src/UdprClient/Outbox.antt =====
-- What UDPR_client_send_DATA sends, as predicates on the packets sent.
use si_k_1projekt_tcp_udp.Common.{
  ℕ, ◌+◌, ◌*◌, ◌≤◌, ◌<◌, ◌≡◌, ◌⊎◌, inl, inr, List, [], ◌∷◌, ◌++◌, length, All,
}
use si_k_1projekt_tcp_udp.Constants.{Status}
use si_k_1projekt_tcp_udp.Packets.Wire.{data_packet}
use si_k_1projekt_tcp_udp.MyVec.{MyVec}
use si_k_1projekt_tcp_udp.Net.{Address, Packet, World}
use si_k_1projekt_tcp_udp.UdprClient.Transfer.{UdprSending}
use si_k_1projekt_tcp_udp.UdprClient.Pieces.{piece, data_of}
use si_k_1projekt_tcp_udp.UdprClient.Sending.{Acks}

-- `body` is the DATA packet of a piece of the data.
abbrev pub IsPiece : ℕ → List ℕ → List ℕ → Type 0
IsPiece session bytes body =
    (i : ℕ) × (64000 * i < length bytes) × (body ≡ data_packet session i (piece bytes i))

-- One of the packets has the body.
abbrev pub IsSent : List Packet → List ℕ → Type 0
IsSent [] body = ⊥
IsSent (p ∷ ps) body = (p.body ≡ body) ⊎ IsSent ps body

pub IsSent-left : (ps qs : List Packet) (body : List ℕ) → IsSent ps body → IsSent (ps ++ qs) body
IsSent-left [] qs body h = absurd h
IsSent-left (p ∷ ps) qs body (inl e) = inl e
IsSent-left (p ∷ ps) qs body (inr h) = inr (IsSent-left ps qs body h)

pub IsSent-right : (ps qs : List Packet) (body : List ℕ) → IsSent qs body → IsSent (ps ++ qs) body
IsSent-right [] qs body h = h
IsSent-right (p ∷ ps) qs body h = inr (IsSent-right ps qs body h)

-- What was sent from the state `s` on, where at most `n` pieces were left.
pub record UdprSends (server : Address) (vec : MyVec) (session n : ℕ) (s : UdprSending) (w : World)
    (status : Status) (w' : World) : Type 0 where
  pub packets : List Packet
  pub sent : w'.sent ≡ packets ++ w.sent
  pub pieces : All (λ p. (p.to ≡ server) × IsPiece session (data_of vec) p.body) packets
  pub few : length packets + s.nbr_of_retransmits ≤ n + 9
  pub returned : (status ≡ Status.success) ⊎ (status ≡ Status.error)
  pub all_sent :
      status ≡ Status.success
      → (i : ℕ) → s.curr_package_id ≤ i
      → 64000 * i < vec.occupied_size
      → IsSent packets (data_packet session i (piece (data_of vec) i))
  pub acked :
      status ≡ Status.success
      → (i : ℕ) → s.curr_package_id ≤ i
      → 64000 * i < vec.occupied_size
      → Acks w.stack server.sin_port session i w.inbox
