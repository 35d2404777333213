-- ===== src/UdpServer/Serving.antt =====
-- What one turn of UDP_server_handler takes of the results of `recvfrom`.
use si_k_1projekt_tcp_udp.Common.{
  ℕ, ◌+◌, ◌≤◌, ◌<◌, ◌≡◌, refl, ap, inl, inr, List, [], ◌∷◌, ◌++◌, Bool, true, false, Option, none,
  some, ◌==◌, if◌then◌else◌, Bool-cases, length, length-append, arith, !=_self,
}
use si_k_1projekt_tcp_udp.Constants.{Status}
use si_k_1projekt_tcp_udp.Packets.{Conn}
use si_k_1projekt_tcp_udp.Net.{
  Address, Recv, timed_out, failed, interrupted, datagram, World, Outcome, done, Post, Post-bind,
  Post-map, sendto_wrapper, set_rcv_timeo,
}
use si_k_1projekt_tcp_udp.UdpServer.Receive.{
  Received, whoever_sends, read_loop, read_data_to_buffer, send_conrjt, send_conacc,
}
use si_k_1projekt_tcp_udp.UdpServer.Checks.{check_if_correct_conn}
use si_k_1projekt_tcp_udp.UdpServer.Session.{udp_data_receive, udpr_data_receive}
use si_k_1projekt_tcp_udp.UdpServer.Ending.{Ends, data_receive-Ends}
use si_k_1projekt_tcp_udp.UdpServer.Handler.{
  serve, accept_connection, conn_checked, handler_handle, handler_turn,
}

-- It comes back with no more results of `recvfrom` than before, or it waits when all are taken.
abbrev NoMore : {A : Type 0} → ℕ → Outcome A → Type 0
NoMore n = Post (λ x w'. length w'.inbox ≤ n) (λ w'. w'.inbox ≡ [])

Ends-NoMore : {A : Type 0} (w : World) (o : Outcome A) → Ends w o → NoMore (length w.inbox) o
Ends-NoMore w o h =
    Post-map (λ x v. (taken : List Recv) × (w.inbox ≡ taken ++ v.inbox))
      (λ x v. length v.inbox ≤ length w.inbox) (λ v. v.inbox ≡ []) (λ v. v.inbox ≡ [])
      (λ x v (taken, e). omega (arith, ap length e, length-append taken v.inbox)) (λ v b. b) o h

serve-NoMore : (conn : Conn) (a : Address) (w : World) → NoMore (length w.inbox) (serve conn a w)
unfolding serve
serve-NoMore conn a w = elim (Bool-cases (conn.protocol_id == 2)) [
  | inl udp ↦ rw udp (
      Post-bind _ (λ x v. length v.inbox ≤ length w.inbox) _ (λ v. v.inbox ≡ [])
        (udp_data_receive conn a) _ w (Ends-NoMore w _ (data_receive-Ends conn a w).0) (λ x v h. h)
        (λ v b. b))
  | inr other ↦ elim (Bool-cases (conn.protocol_id == 3)) [
    | inl udpr ↦
        rw (other, udpr)
          (Post-bind _ (λ x v. length v.inbox ≤ length w.inbox) _ (λ v. v.inbox ≡ [])
            (udpr_data_receive conn a) _ w (Ends-NoMore w _ (data_receive-Ends conn a w).1)
            (λ x v h. h) (λ v b. b))
    | inr unknown ↦ rw (other, unknown) (omega arith)
  ]
]

accept_connection-NoMore :
    (conn : Conn) (a : Address) (status : Status) (w : World)
    → NoMore (length w.inbox) (accept_connection conn a status w)
unfolding accept_connection set_rcv_timeo
accept_connection-NoMore conn a Status.success w = serve-NoMore conn a (record w { rcv_timeo = 8 })
accept_connection-NoMore conn a Status.error w = omega arith
accept_connection-NoMore conn a Status.wrong_session_id w = omega arith
accept_connection-NoMore conn a Status.wrong_package_type_id w = omega arith
accept_connection-NoMore conn a Status.wrong_package_id w = omega arith
accept_connection-NoMore conn a Status.wrong_package_size w = omega arith
accept_connection-NoMore conn a Status.timeout_error w = omega arith
accept_connection-NoMore conn a Status.retransmission w = omega arith
accept_connection-NoMore conn a Status.conrjt_error w = omega arith
accept_connection-NoMore conn a Status.continue w = omega arith

conn_checked-NoMore :
    (a : Address) (status : Status) (conn : Conn) (w : World)
    → NoMore (length w.inbox) (conn_checked a status conn w)
unfolding conn_checked send_conacc send_conrjt sendto_wrapper
conn_checked-NoMore a Status.success conn w = accept_connection-NoMore conn a _ _
conn_checked-NoMore a Status.error conn w = omega arith
conn_checked-NoMore a Status.wrong_session_id conn w = omega arith
conn_checked-NoMore a Status.wrong_package_type_id conn w = omega arith
conn_checked-NoMore a Status.wrong_package_id conn w = omega arith
conn_checked-NoMore a Status.wrong_package_size conn w = omega arith
conn_checked-NoMore a Status.timeout_error conn w = omega arith
conn_checked-NoMore a Status.retransmission conn w = omega arith
conn_checked-NoMore a Status.conrjt_error conn w = omega arith
conn_checked-NoMore a Status.continue conn w = omega arith

-- A turn of the handler's loop, after which it goes on (`none`) or returns.
abbrev Turn : ℕ → Outcome (Option (Unit {0})) → Type 0
Turn n =
    Post (λ o w'. (length w'.inbox ≤ n) × (o ≡ some tt → w'.finish ≡ true)) (λ w'. w'.inbox ≡ [])

no_connection :
    (w : World) (b : Bool)
    → w.finish ≡ b
    → Turn (length w.inbox) (done (if b then some tt else none) w)
no_connection w true e = (omega arith, λ x. e)
no_connection w false e = (omega arith, λ x. cc)

handler_handle-Turn :
    (r : Received) (status : Status) (w : World) → Turn (length w.inbox) (handler_handle r status w)
unfolding handler_handle
handler_handle-Turn r Status.success w =
    Post-bind (λ u v. length v.inbox ≤ length w.inbox) _ _ (λ v. v.inbox ≡ [])
      (conn_checked r.client_address (check_if_correct_conn w.stack r.buff).0
        (check_if_correct_conn w.stack r.buff).1)
      _ w (conn_checked-NoMore r.client_address _ _ w) (λ u v h. (h, λ e. cc)) (λ v b. b)
handler_handle-Turn r Status.error w = no_connection w w.finish refl
handler_handle-Turn r Status.wrong_session_id w = no_connection w w.finish refl
handler_handle-Turn r Status.wrong_package_type_id w = no_connection w w.finish refl
handler_handle-Turn r Status.wrong_package_id w = no_connection w w.finish refl
handler_handle-Turn r Status.wrong_package_size w = no_connection w w.finish refl
handler_handle-Turn r Status.timeout_error w = no_connection w w.finish refl
handler_handle-Turn r Status.retransmission w = no_connection w w.finish refl
handler_handle-Turn r Status.conrjt_error w = no_connection w w.finish refl
handler_handle-Turn r Status.continue w = no_connection w w.finish refl

-- Waiting for whoever sends takes exactly one result of `recvfrom`.
reads_one :
    (es : List Recv) (c : Address) (w : World)
    → Post
        (λ r w'. length w'.inbox + 1 ≡ length es)
        (λ w'. w'.inbox ≡ [])
        (read_loop es whoever_sends c w)
unfolding read_loop
reads_one [] c w = refl
reads_one (timed_out ∷ es) c w = omega arith
reads_one (failed ∷ es) c w = omega arith
reads_one (interrupted ∷ es) c w = omega arith
reads_one (datagram from bytes ∷ es) c w =
    rw (!=_self from.s_addr, !=_self from.sin_port) (omega arith)

pub handler_turn-Turn :
    (c : Address) (w : World)
    → Post
        (λ o w'. (length w'.inbox < length w.inbox) × (o ≡ some tt → w'.finish ≡ true))
        (λ w'. w'.inbox ≡ [])
        (handler_turn c w)
unfolding handler_turn set_rcv_timeo read_data_to_buffer
handler_turn-Turn c w =
    Post-bind (λ r w'. length w'.inbox + 1 ≡ length w.inbox)
      (λ o w'. (length w'.inbox < length w.inbox) × (o ≡ some tt → w'.finish ≡ true))
      (λ w'. w'.inbox ≡ []) (λ w'. w'.inbox ≡ []) (read_data_to_buffer whoever_sends c)
      (λ r. handler_handle r r.status) (record w { rcv_timeo = 0 }) (reads_one w.inbox c _)
      (λ r w' e.
        Post-map (λ o v. (length v.inbox ≤ length w'.inbox) × (o ≡ some tt → v.finish ≡ true))
          (λ o v. (length v.inbox < length w.inbox) × (o ≡ some tt → v.finish ≡ true))
          (λ v. v.inbox ≡ []) (λ v. v.inbox ≡ []) (λ o v (h, k). (omega arith, k)) (λ v b. b)
          (handler_handle r r.status w') (handler_handle-Turn r r.status w'))
      (λ v b. b)
