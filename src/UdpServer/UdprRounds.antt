-- ===== src/UdpServer/UdprRounds.antt =====
-- One round of UDPR_data_receive.
use si_k_1projekt_tcp_udp.Common.{
  ℕ, ◌+◌, ◌≤◌, ◌<◌, ◌≡◌, ◌≢◌, refl, sym, ap, subst, ◌∙◌, ◌⊎◌, inl, inr, List, [], ◌∷◌, ◌++◌, false,
  take, length, arith,
}
use si_k_1projekt_tcp_udp.Constants.{Status, receive_buffor_size}
use si_k_1projekt_tcp_udp.Packets.{Conn, DataInfo, read_data_info}
use si_k_1projekt_tcp_udp.Net.{
  Address, Recv, timed_out, failed, interrupted, datagram, World, Post, Post-bind, Post-returns,
  ◌>>=◌,
}
use si_k_1projekt_tcp_udp.UdpServer.Receive.{Received, differs, send_rjt, send_acc}
use si_k_1projekt_tcp_udp.UdpServer.Reading.{own, timeouts, Answers}
use si_k_1projekt_tcp_udp.UdpServer.Checks.{
  check_if_correct_data_packet, do_retransmission, handle_ret_val, handle_wrong_id,
}
use si_k_1projekt_tcp_udp.UdpServer.Session.{
  SessionEnd, received_all, refused, connection_lost, UdprProgress, udpr_read, udpr_retransmitted,
  udpr_checked, udpr_handle, udpr_round,
}
use si_k_1projekt_tcp_udp.UdpServer.UdprSteps.{
  udpr_read_lem, LeftAside, UdprStep, UdprStop, AfterUdprRound, wrong_id_tests, check_reads,
  handle_wrong_type_lem, handle_wrong_id_lem, Retransmits, do_retransmission_lem,
}

module _ (conn : Conn) (a : Address) (s : UdprProgress) (w : World) (r : Received) (w' : World)
    (skipped : List Recv) (foreign : own a skipped ≡ []) (punctual : timeouts skipped ≡ 0)
    (stack : w'.stack ≡ w.stack) (client : w'.udpr_client_address ≡ r.client_address) where
  -- A datagram of the client's.
  module _ (from : Address) (bytes : List ℕ)
      (parts : w.inbox ≡ skipped ++ datagram from bytes ∷ w'.inbox) (mine : differs from a ≡ false)
      (buff : r.buff ≡ take receive_buffor_size bytes) where
    abbrev found : Status × DataInfo
    found = check_if_correct_data_packet w'.stack r.buff conn s.curr_package_id

    stop : (e : SessionEnd) → e ≢ received_all → (v : World) → v.inbox ≡ w'.inbox → UdprStop a w e v
    stop e n v i = record {
      skipped = skipped;
      event = datagram from bytes;
      parts = parts ∙ ap (λ l. skipped ++ datagram from bytes ∷ l) (sym i);
      foreign = foreign;
      punctual = punctual;
      not_all = n;
    }

    leave_aside : LeftAside w conn s bytes → UdprStep conn a s w s w'
    leave_aside h = record {
      skipped = skipped;
      event = datagram from bytes;
      parts = parts;
      foreign = foreign;
      punctual = punctual;
      goes = (mine, inl (refl, h));
      stack = stack;
    }

    udpr_checked_lem :
        (status : Status)
        → found.0 ≡ status
        → Post
            (AfterUdprRound conn a s w)
            (λ v. ⊥)
            ((handle_ret_val status r.client_address
                  (length r.buff)
                  s.curr_package_id
                  found.1
                  conn.session_id
                  s.is_first_data_packet
                >>= udpr_checked conn s r.client_address found.1)
              w')
    unfolding handle_ret_val udpr_checked send_rjt send_acc
    udpr_checked_lem Status.success e = record {
      skipped = skipped;
      event = datagram from bytes;
      parts = parts;
      foreign = foreign;
      punctual = punctual;
      goes = (mine, inr (rw (← stack, ← buff) e, rw (← stack, ← buff) refl));
      stack = stack;
    }
    udpr_checked_lem Status.wrong_package_type_id e =
        elim (handle_wrong_type_lem (length r.buff) found.1 s.is_first_data_packet) [
          | inl fails ↦ rw fails (stop refused (λ x. cc) w' refl)
          | inr (goes_on, type, size, first) ↦
              rw goes_on (leave_aside (inl (rw (← stack, ← buff) (old_conn type, size, first))))
        ]
      where
        old_conn :
            found.1.package_type_id ≡ 1 → (read_data_info w'.stack r.buff).package_type_id ≡ 1
        old_conn type =
            ap (λ (d : DataInfo). d.package_type_id)
              (sym (check_reads w'.stack r.buff conn s.curr_package_id))
            ∙ type
    udpr_checked_lem Status.wrong_package_id e =
        Post-bind _ (AfterUdprRound conn a s w) _ (λ v. ⊥)
          (handle_wrong_id r.client_address (length r.buff) s.curr_package_id found.1
            conn.session_id)
          (udpr_checked conn s r.client_address found.1) w'
          (handle_wrong_id_lem r.client_address (length r.buff) s.curr_package_id found.1
            conn.session_id w')
          after (λ v h. h)
      where
        old_data :
            found.1.package_id < s.curr_package_id
            → length r.buff ≡ 21 + found.1.nbr_of_bytes_in_packet
            → LeftAside w conn s bytes
        old_data old size =
            let c = check_reads w'.stack r.buff conn s.curr_package_id in
            let t = wrong_id_tests w'.stack r.buff conn s.curr_package_id e in
            inr (
              rw (← stack, ← buff)
                (
                  t.0,
                  t.1,
                  subst (λ (d : DataInfo). d.package_id < s.curr_package_id) c old,
                  subst (λ (d : DataInfo). length r.buff ≡ 21 + d.nbr_of_bytes_in_packet) c size,
                ))

        after :
            (status : Status) (v : World)
            → ((status ≡ Status.error) × (v.inbox ≡ w'.inbox))
              ⊎ ((status ≡ Status.continue)
                  × (v ≡ w')
                  × (found.1.package_id < s.curr_package_id)
                  × (length r.buff ≡ 21 + found.1.nbr_of_bytes_in_packet))
            → Post
                (AfterUdprRound conn a s w)
                (λ u. ⊥)
                (udpr_checked conn s r.client_address found.1 status v)
        after status v (inl (fails, i)) = rw fails (stop refused (λ x. cc) v i)
        after status v (inr (goes_on, same, old, size)) =
            rw (goes_on, same) (leave_aside (old_data old size))
    udpr_checked_lem _ e = stop refused (λ x. cc) _ refl

  ended_by_timeout :
      (v : World)
      → v.inbox ≡ w'.inbox
      → w.inbox ≡ skipped ++ timed_out ∷ w'.inbox
      → UdprStop a w connection_lost v
  ended_by_timeout v i parts = record {
    skipped = skipped;
    event = timed_out;
    parts = parts ∙ ap (λ l. skipped ++ timed_out ∷ l) (sym i);
    foreign = foreign;
    punctual = punctual;
    not_all = λ x. cc;
  }

  resent :
      s.nbr_of_retransmits + 1 ≤ 8
      → (v : World) → v.inbox ≡ w'.inbox
      → v.stack ≡ w'.stack
      → w.inbox ≡ skipped ++ timed_out ∷ w'.inbox
      → UdprStep conn a s w (record s { nbr_of_retransmits = s.nbr_of_retransmits + 1 }) v
  resent few v i t parts = record {
    skipped = skipped;
    event = timed_out;
    parts = parts ∙ ap (λ l. skipped ++ timed_out ∷ l) (sym i);
    foreign = foreign;
    punctual = punctual;
    goes = (refl, few);
    stack = t ∙ stack;
  }

  timeout_lem :
      w.inbox ≡ skipped ++ timed_out ∷ w'.inbox
      → Post (AfterUdprRound conn a s w) (λ v. ⊥) (udpr_handle conn a s r Status.timeout_error w')
  unfolding udpr_handle udpr_retransmitted
  timeout_lem parts =
      Post-bind (Retransmits s.nbr_of_retransmits w') (AfterUdprRound conn a s w) _ (λ v. ⊥)
        (do_retransmission a conn s.is_first_data_packet s.nbr_of_retransmits s.curr_package_id)
        (udpr_retransmitted s) w'
        (do_retransmission_lem a conn s.is_first_data_packet s.nbr_of_retransmits s.curr_package_id
          w')
        after (λ v h. h)
    where
      after :
          (o : Status × ℕ) (v : World)
          → Retransmits s.nbr_of_retransmits w' o v
          → Post (AfterUdprRound conn a s w) (λ u. ⊥) (udpr_retransmitted s o v)
      after o v (i, t, inl gives_up) = rw gives_up (ended_by_timeout v i parts)
      after o v (i, t, inr (few, goes_on)) = rw goes_on (resent few v i t parts)

  udpr_handle_lem :
      (event : Recv) (status : Status)
      → w.inbox ≡ skipped ++ event ∷ w'.inbox
      → Answers a event r
      → r.status ≡ status
      → Post (AfterUdprRound conn a s w) (λ v. ⊥) (udpr_handle conn a s r status w')
  unfolding udpr_handle
  udpr_handle_lem timed_out Status.timeout_error parts x e = timeout_lem parts
  udpr_handle_lem timed_out _ parts x e = cc
  udpr_handle_lem failed Status.error parts x e = record {
    skipped = skipped;
    event = failed;
    parts = parts;
    foreign = foreign;
    punctual = punctual;
    not_all = λ y. cc;
  }
  udpr_handle_lem failed _ parts x e = cc
  udpr_handle_lem interrupted Status.error parts x e = record {
    skipped = skipped;
    event = interrupted;
    parts = parts;
    foreign = foreign;
    punctual = punctual;
    not_all = λ y. cc;
  }
  udpr_handle_lem interrupted _ parts x e = cc
  udpr_handle_lem (datagram from bytes) Status.success parts (mine, status, buff, sender) e =
      udpr_checked_lem from bytes parts mine buff _ refl
  udpr_handle_lem (datagram from bytes) Status.error parts (mine, status, buff, sender) e = record {
    skipped = skipped;
    event = datagram from bytes;
    parts = parts;
    foreign = foreign;
    punctual = punctual;
    not_all = λ y. cc;
  }
  udpr_handle_lem (datagram from bytes) _ parts (mine, status, buff, sender) e =
      absurd (ground arith)

pub udpr_round_lem :
    (conn : Conn) (a : Address) (s : UdprProgress) (w : World)
    → Post
        (AfterUdprRound conn a s w)
        (λ w'. (own a w.inbox ≡ []) × (w'.inbox ≡ []))
        (udpr_round conn a s w)
unfolding udpr_round
udpr_round_lem conn a s w =
    Post-bind _ _ _ _ (udpr_read a) _ w (udpr_read_lem a w)
      (λ r w' h.
        Post-returns (AfterUdprRound conn a s w) (λ v. (own a w.inbox ≡ []) × (v.inbox ≡ []))
          (udpr_handle conn a s r r.status w')
          (udpr_handle_lem conn a s w r w' h.0.skipped h.0.foreign h.0.punctual h.0.sends.stack h.1
            h.0.event r.status h.0.parts h.0.answers refl))
      (λ w' h. h)
