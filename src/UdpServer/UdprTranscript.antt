-- ===== src/UdpServer/UdprTranscript.antt =====
-- What UDPR_data_receive has taken when it sends RCVD, as a predicate.
use si_k_1projekt_tcp_udp.Common.{
  ℕ, ◌+◌, ◌≤◌, ◌<◌, ◌≡◌, refl, ap, ◌⊎◌, inl, inr, List, [], ◌∷◌, ◌++◌, ◌==◌, Bool-cases, take,
  length, arith,
}
use si_k_1projekt_tcp_udp.Packets.{Conn, read_data_info}
use si_k_1projekt_tcp_udp.Packets.Wire.{data_packet, short_packet}
use si_k_1projekt_tcp_udp.Packets.Sending.{rcvd_bytes}
use si_k_1projekt_tcp_udp.Net.{Address, Recv, Packet, World, Post}
use si_k_1projekt_tcp_udp.UdpServer.Receive.{send_rcvd, send_rjt}
use si_k_1projekt_tcp_udp.UdpServer.Reading.{own, timeouts}
use si_k_1projekt_tcp_udp.UdpServer.Session.{received_all, UdprProgress, udpr_finish}
use si_k_1projekt_tcp_udp.UdpServer.UdpTransfer.{total}

-- A datagram that is passed over while packet `id` is due: a CONN before the first packet, or a
-- DATA packet of the session with an earlier number.
abbrev pub PassedOver : List ℕ → ℕ → ℕ → List ℕ → Type 0
PassedOver stack session id d =
    let r = read_data_info stack (take 64032 d) in
    ((r.package_type_id ≡ 1) × (length (take 64032 d) ≡ 18) × (id ≡ 0))
    ⊎ ((r.package_type_id ≡ 4) × (r.session_id ≡ session) × (r.package_id < id))

-- How the client's datagrams make up the payloads, packet `id` being due.
pub data Transcript (stack : List ℕ) (session : ℕ)
    : ℕ → List (List ℕ) → List (List ℕ) → Type 0 where
  finished : {id : ℕ} → Transcript stack session id [] []
  accepted :
      {id : ℕ} {ds ps : List (List ℕ)} (p : List ℕ)
      → length p ≤ 64000
      → Transcript stack session (id + 1) ds ps
      → Transcript stack session id (data_packet session id p ∷ ds) (p ∷ ps)
  passed_over :
      {id : ℕ} {ds ps : List (List ℕ)} (d : List ℕ)
      → PassedOver stack session id d
      → Transcript stack session id ds ps
      → Transcript stack session id (d ∷ ds) ps

-- All data has come, in whole packets and in order; at most 8 timeouts were answered by
-- retransmission; and RCVD is the last packet sent.
pub record UdprCompleted (conn : Conn) (a : Address) (s : UdprProgress) (w w' : World)
    : Type 0 where
  pub consumed : List Recv
  pub payloads : List (List ℕ)
  pub earlier : List Packet
  pub parts : w.inbox ≡ consumed ++ w'.inbox
  pub transcript : Transcript w.stack conn.session_id s.curr_package_id (own a consumed) payloads
  pub size : s.bytes_recvd + total payloads ≡ conn.nbr_of_bytes_to_be_sent
  pub retransmits : timeouts consumed + s.nbr_of_retransmits ≤ 8
  pub sent :
      w'.sent
      ≡ record { to = w'.udpr_client_address; body = short_packet 7 conn.session_id } ∷ earlier

pub udpr_finish_lem :
    (conn : Conn) (a : Address) (s : UdprProgress) (w : World)
    → s.nbr_of_retransmits ≤ 8
    → Post
        (λ e w'. e ≡ received_all → UdprCompleted conn a s w w')
        (λ w'. Unit)
        (udpr_finish conn s w)
unfolding udpr_finish send_rcvd send_rjt
udpr_finish_lem conn a s w few = elim (Bool-cases (s.bytes_recvd == conn.nbr_of_bytes_to_be_sent)) [
  | inl all ↦ rw all (λ e. record {
    consumed = [];
    payloads = [];
    earlier = w.sent;
    parts = refl;
    transcript = finished;
    size = ground arith;
    retransmits = omega arith;
    sent =
        ap (λ b. record { to = w.udpr_client_address; body = b } ∷ w.sent)
          (rcvd_bytes conn.session_id);
  })
  | inr more ↦ rw more (λ e. cc)
]
