-- ===== src/UdpServer/Opening.antt =====
-- A turn of UDP_server_handler that takes a datagram, from the check of CONN to the transfer.
use si_k_1projekt_tcp_udp.Common.{
  ℕ, ◌≡◌, refl, sym, ap, subst, ◌∙◌, ◌⊎◌, inl, inr, List, ◌∷◌, false, none, ◌==◌, ◌!=◌, ◌&&◌,
  Bool-cases, length, take, arith,
}
use si_k_1projekt_tcp_udp.Constants.{Status}
use si_k_1projekt_tcp_udp.Packets.{Conn, read_conn}
use si_k_1projekt_tcp_udp.Packets.Wire.{short_packet}
use si_k_1projekt_tcp_udp.Packets.Sending.{conrjt_bytes, conacc_bytes}
use si_k_1projekt_tcp_udp.Net.{
  Address, Recv, datagram, SendResult, send_failed, sent_length, World, Outcome, done, blocked,
  out_of_fuel, next_result, later_results, send_status, ◌>>=◌, ◌>>◌, return, sendto_wrapper,
  set_rcv_timeo,
}
use si_k_1projekt_tcp_udp.UdpServer.Receive.{send_conrjt, send_conacc}
use si_k_1projekt_tcp_udp.UdpServer.Checks.{check_if_correct_conn}
use si_k_1projekt_tcp_udp.UdpServer.AcceptConn.{success_tests}
use si_k_1projekt_tcp_udp.UdpServer.Session.{SessionEnd, udp_data_receive, udpr_data_receive}
use si_k_1projekt_tcp_udp.UdpServer.Ending.{Ends, data_receive-Ends}
use si_k_1projekt_tcp_udp.UdpServer.Handler.{serve, accept_connection, conn_checked, handler_handle}
use si_k_1projekt_tcp_udp.UdpServer.Turns.{
  answered, conacc_to, conrjt_to, the_check, the_conn, Transfers, Turn, TurnEnds,
}

check-cases :
    (stack buff : List ℕ)
    → ((check_if_correct_conn stack buff).0 ≡ Status.success)
      ⊎ ((check_if_correct_conn stack buff).0 ≡ Status.error)
unfolding check_if_correct_conn
check-cases stack buff =
    let c = read_conn stack buff in
    elim (Bool-cases (length buff != 18)) [
      | inl e ↦ rw e (inr refl)
      | inr size ↦ elim (Bool-cases (c.package_type_id != 1)) [
        | inl e ↦ rw (size, e) (inr refl)
        | inr type ↦ elim (Bool-cases ((c.protocol_id != 2) && (c.protocol_id != 3))) [
          | inl e ↦ rw (size, type, e) (inr refl)
          | inr e ↦ rw (size, type, e) (inl refl)
        ]
      ]
    ]

send_status-cases :
    (r : SendResult) (size : ℕ)
    → (send_status r size ≡ Status.success) ⊎ (send_status r size ≡ Status.error)
send_status-cases send_failed size = inr refl
send_status-cases (sent_length n) size = elim (Bool-cases (n == size)) [
  | inl e ↦ rw e (inl refl)
  | inr e ↦ rw e (inr refl)
]

conn_protocol :
    (w : World) (bytes : List ℕ)
    → the_check w bytes ≡ Status.success
    → ((the_conn w bytes).protocol_id ≡ 2) ⊎ ((the_conn w bytes).protocol_id ≡ 3)
unfolding check_if_correct_conn
conn_protocol w bytes ok = (success_tests w.stack (take 64032 bytes) ok).2

-- The transfer, followed by the end of the turn.
after_transfer :
    (w v v' : World) (from : Address) (bytes : List ℕ) (es : List Recv) (o : Outcome SessionEnd)
    → w.inbox ≡ datagram from bytes ∷ es
    → the_check w bytes ≡ Status.success
    → send_status (next_result w.sendto_results 9) 9 ≡ Status.success
    → Transfers (the_conn w bytes) from (answered w es (conacc_to from (the_conn w bytes))) o
    → Ends v o
    → TurnEnds w ((((λ u. o) >> return tt) >>= λ u. return none) v')
after_transfer w v v' from bytes es (done e w') i ok sent t h =
    Turn.served from bytes es e i ok sent t
after_transfer w v v' from bytes es (blocked w') i ok sent t h =
    inr (from, bytes, es, i, ok, sent, t)
after_transfer w v v' from bytes es out_of_fuel i ok sent t h = absurd h

send_conacc-sends :
    (from : Address) (session : ℕ) (w : World)
    → send_conacc from session w
      ≡ done (send_status (next_result w.sendto_results 9) 9) (record w {
        sent = record { to = from; body = short_packet 2 session } ∷ w.sent;
        sendto_results = later_results w.sendto_results;
      })
unfolding send_conacc sendto_wrapper
send_conacc-sends from session w =
    ap
      (λ b. done (send_status (next_result w.sendto_results 9) 9) (record w {
        sent = record { to = from; body = b } ∷ w.sent;
        sendto_results = later_results w.sendto_results;
      }))
      (conacc_bytes session)

send_conrjt-sends :
    (from : Address) (session : ℕ) (w : World)
    → send_conrjt from session w
      ≡ done (send_status (next_result w.sendto_results 9) 9) (record w {
        sent = record { to = from; body = short_packet 3 session } ∷ w.sent;
        sendto_results = later_results w.sendto_results;
      })
unfolding send_conrjt sendto_wrapper
send_conrjt-sends from session w =
    ap
      (λ b. done (send_status (next_result w.sendto_results 9) 9) (record w {
        sent = record { to = from; body = b } ∷ w.sent;
        sendto_results = later_results w.sendto_results;
      }))
      (conrjt_bytes session)

-- A datagram that is a correct CONN packet, once CONACC is sent.
accepted_turn :
    (w : World) (from : Address) (bytes : List ℕ) (es : List Recv)
    → w.inbox ≡ datagram from bytes ∷ es
    → the_check w bytes ≡ Status.success
    → send_status (next_result w.sendto_results 9) 9 ≡ Status.success
    → TurnEnds w (
        (accept_connection (the_conn w bytes) from Status.success >>= λ u. return none)
          (answered w es (conacc_to from (the_conn w bytes))))
unfolding accept_connection set_rcv_timeo serve
accepted_turn w from bytes es i ok sent =
    let conn = the_conn w bytes in
    let v : World = record (answered w es (conacc_to from conn)) { rcv_timeo = 8 } in
    elim (Bool-cases (conn.protocol_id == 2)) [
      | inl udp ↦ rw udp (
          after_transfer w v v from bytes es (udp_data_receive conn from v) i ok sent
            (inl (ground arith, refl)) (data_receive-Ends conn from v).0)
      | inr other ↦ elim (Bool-cases (conn.protocol_id == 3)) [
        | inl udpr ↦
            rw (other, udpr)
              (after_transfer w v v from bytes es (udpr_data_receive conn from v) i ok sent
                (inr (ground arith, refl)) (data_receive-Ends conn from v).1)
        | inr unknown ↦ absurd (no_third w bytes ok other unknown)
      ]
    ]
  where
    no_third :
        (w : World) (bytes : List ℕ)
        → the_check w bytes ≡ Status.success
        → ((the_conn w bytes).protocol_id == 2) ≡ false
        → ((the_conn w bytes).protocol_id == 3) ≡ false
        → ⊥
    no_third w bytes ok other unknown = elim (conn_protocol w bytes ok) [
      | inl e ↦ ground (arith, e)
      | inr e ↦ ground (arith, e)
    ]

-- What `conn_checked` does first.
conn_checked-success :
    (from : Address) (conn : Conn) (w : World)
    → conn_checked from Status.success conn w
      ≡ accept_connection conn from (send_status (next_result w.sendto_results 9) 9) (record w {
        sent = conacc_to from conn ∷ w.sent;
        sendto_results = later_results w.sendto_results;
      })
unfolding conn_checked
conn_checked-success from conn w =
    ap (λ (o : Outcome Status). ((λ u. o) >>= accept_connection conn from) w)
      (send_conacc-sends from conn.session_id w)

conn_checked-error :
    (from : Address) (conn : Conn) (w : World)
    → conn_checked from Status.error conn w
      ≡ done tt (record w {
        sent = conrjt_to from conn ∷ w.sent;
        sendto_results = later_results w.sendto_results;
      })
unfolding conn_checked
conn_checked-error from conn w =
    ap (λ (o : Outcome Status). ((λ u. o) >> return tt) w)
      (send_conrjt-sends from conn.session_id w)

-- The rest of a turn, by what its first part gives.
turn_by :
    (w v : World) (o o' : Outcome (Unit {0}))
    → o ≡ o'
    → TurnEnds w (((λ u. o') >>= λ u. return none) v)
    → TurnEnds w (((λ u. o) >>= λ u. return none) v)
turn_by w v o o' e t = subst (λ x. TurnEnds w (((λ u. x) >>= λ u. return none) v)) (sym e) t

-- A datagram with some bytes.
pub datagram_turn :
    (w : World) (from : Address) (bytes : List ℕ) (es : List Recv)
    → w.inbox ≡ datagram from bytes ∷ es
    → TurnEnds w (
        handler_handle
          (record { status = Status.success; buff = take 64032 bytes; client_address = from })
          Status.success
          (record w { inbox = es; rcv_timeo = 0 }))
unfolding handler_handle
datagram_turn w from bytes es i =
    let conn = the_conn w bytes in
    let v : World = record w { inbox = es; rcv_timeo = 0 } in
    elim (check-cases w.stack (take 64032 bytes)) [
      | inl ok ↦
          let first = ap (λ s. conn_checked from s conn v) ok ∙ conn_checked-success from conn v in
          elim (send_status-cases (next_result w.sendto_results 9) 9) [
            | inl sent ↦
                turn_by w v _ _
                  (first
                    ∙ ap (λ s. accept_connection conn from s (answered w es (conacc_to from conn)))
                        sent)
                  (accepted_turn w from bytes es i ok sent)
            | inr lost ↦
                turn_by w v _ _
                  (first
                    ∙ ap (λ s. accept_connection conn from s (answered w es (conacc_to from conn)))
                        lost)
                  (unfold accept_connection in Turn.unanswered from bytes es i ok lost refl)
          ]
      | inr wrong ↦
          turn_by w v _ _
            (ap (λ s. conn_checked from s conn v) wrong ∙ conn_checked-error from conn v)
            (Turn.refused from bytes es i wrong refl)
    ]
