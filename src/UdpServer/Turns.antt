-- ===== src/UdpServer/Turns.antt =====
-- UDP_server_handler as a sequence of turns, each of which deals with one client.
use si_k_1projekt_tcp_udp.Common.{
  ℕ, ◌≡◌, ◌⊎◌, List, [], ◌∷◌, true, false, Option, none, some, ◌==◌, length, take,
}
use si_k_1projekt_tcp_udp.Constants.{Status}
use si_k_1projekt_tcp_udp.Packets.{Conn}
use si_k_1projekt_tcp_udp.Packets.Wire.{short_packet}
use si_k_1projekt_tcp_udp.Net.{
  Address, Recv, interrupted, datagram, Packet, World, Outcome, done, blocked, out_of_fuel,
  next_result, later_results, send_status,
}
use si_k_1projekt_tcp_udp.UdpServer.Checks.{check_if_correct_conn}
use si_k_1projekt_tcp_udp.UdpServer.Session.{SessionEnd, udp_data_receive, udpr_data_receive}

-- The world after a datagram is taken and answered with this packet, with no timeout set.
abbrev pub answered : World → List Recv → Packet → World
answered w es p = record w {
  inbox = es;
  rcv_timeo = 0;
  sent = p ∷ w.sent;
  sendto_results = later_results w.sendto_results;
}

abbrev pub conacc_to : Address → Conn → Packet
conacc_to from conn = record { to = from; body = short_packet 2 conn.session_id }

abbrev pub conrjt_to : Address → Conn → Packet
conrjt_to from conn = record { to = from; body = short_packet 3 conn.session_id }

-- A result of `recvfrom` that brings no bytes, taken while the server waits for a connection.
abbrev pub BringsNothing : Recv → Type 0
BringsNothing (datagram from bytes) = (length (take 64032 bytes) == 0) ≡ true
BringsNothing e = Unit

abbrev pub after_nothing : World → Recv → List Recv → World
after_nothing w interrupted es = record w { inbox = es; rcv_timeo = 0; finish = true }
after_nothing w e es = record w { inbox = es; rcv_timeo = 0 }

-- The check of the CONN packet that a datagram may be.
abbrev pub the_check : World → List ℕ → Status
the_check w bytes = (check_if_correct_conn w.stack (take 64032 bytes)).0

abbrev pub the_conn : World → List ℕ → Conn
the_conn w bytes = (check_if_correct_conn w.stack (take 64032 bytes)).1

-- The transfer of an accepted connection, with a timeout of 8 seconds, by its protocol.
abbrev pub Transfers : Conn → Address → World → Outcome SessionEnd → Type 0
Transfers conn from w o =
    ((conn.protocol_id ≡ 2) × (udp_data_receive conn from (record w { rcv_timeo = 8 }) ≡ o))
    ⊎ ((conn.protocol_id ≡ 3) × (udpr_data_receive conn from (record w { rcv_timeo = 8 }) ≡ o))

-- A turn: nothing comes, and no SIGINT has come; a datagram that is no correct CONN packet is
-- answered with CONRJT; the CONACC for one that is cannot be sent; or it is, and the connection is
-- served until its transfer ends.
pub data Turn (w : World) : World → Type 0 where
  nothing :
      {w' : World} (e : Recv) (es : List Recv)
      → w.inbox ≡ e ∷ es
      → BringsNothing e
      → (after_nothing w e es).finish ≡ false
      → w' ≡ after_nothing w e es
      → Turn w w'
  refused :
      {w' : World} (from : Address) (bytes : List ℕ) (es : List Recv)
      → w.inbox ≡ datagram from bytes ∷ es
      → the_check w bytes ≡ Status.error
      → w' ≡ answered w es (conrjt_to from (the_conn w bytes))
      → Turn w w'
  unanswered :
      {w' : World} (from : Address) (bytes : List ℕ) (es : List Recv)
      → w.inbox ≡ datagram from bytes ∷ es
      → the_check w bytes ≡ Status.success
      → send_status (next_result w.sendto_results 9) 9 ≡ Status.error
      → w' ≡ answered w es (conacc_to from (the_conn w bytes))
      → Turn w w'
  served :
      {w' : World} (from : Address) (bytes : List ℕ) (es : List Recv) (e : SessionEnd)
      → w.inbox ≡ datagram from bytes ∷ es
      → the_check w bytes ≡ Status.success
      → send_status (next_result w.sendto_results 9) 9 ≡ Status.success
      → Transfers
          (the_conn w bytes)
          from
          (answered w es (conacc_to from (the_conn w bytes)))
          (done e w')
      → Turn w w'

pub data Turns : World → World → Type 0 where
  no_turn : {w : World} → Turns w w
  turn_first : {w w1 w' : World} → Turn w w1 → Turns w1 w' → Turns w w'

-- The handler returns: nothing came, and a SIGINT has come.
abbrev pub Returns : World → World → Type 0
Returns w w' =
    (e : Recv) × (es : List Recv) × (w.inbox ≡ e ∷ es)
    × BringsNothing e
    × (w'.finish ≡ true)
    × (w' ≡ after_nothing w e es)

-- It waits: for a connection, or within the transfer of one.
abbrev pub WaitsOn : World → World → Type 0
WaitsOn w w' =
    ((w.inbox ≡ []) × (w'.sent ≡ w.sent))
    ⊎ ((from : Address) × (bytes : List ℕ) × (es : List Recv) × (w.inbox ≡ datagram from bytes ∷ es)
        × (the_check w bytes ≡ Status.success)
        × (send_status (next_result w.sendto_results 9) 9 ≡ Status.success)
        × Transfers (the_conn w bytes) from (answered w es (conacc_to from (the_conn w bytes)))
            (blocked w'))

abbrev pub TurnEnds : World → Outcome (Option (Unit {0})) → Type 0
TurnEnds w (done none w') = Turn w w'
TurnEnds w (done (some u) w') = Returns w w'
TurnEnds w (blocked w') = WaitsOn w w'
TurnEnds w out_of_fuel = ⊥
