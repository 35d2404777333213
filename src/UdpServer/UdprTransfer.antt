-- ===== src/UdpServer/UdprTransfer.antt =====
-- UDPR_data_receive over a whole connection: what it has taken when it sends RCVD, and how often it
-- retransmits.
use si_k_1projekt_tcp_udp.Common.{
  ℕ, zero, suc, ◌+◌, ◌^◌, ◌≤◌, ◌<◌, ◌≡◌, refl, sym, ap, subst, ◌∙◌, inl, inr, List, ◌∷◌, ◌++◌,
  append_assoc, true, false, ltb, Bool-cases, u64, take, length, take-All, All, arith, ltb→lt,
}
use si_k_1projekt_tcp_udp.Common.Bytes.{IsByte}
use si_k_1projekt_tcp_udp.Packets.{Conn}
use si_k_1projekt_tcp_udp.Net.{
  Address, Recv, timed_out, failed, interrupted, datagram, World, Post, Post-bind, Post-map,
}
use si_k_1projekt_tcp_udp.UdpServer.Receive.{differs}
use si_k_1projekt_tcp_udp.UdpServer.Reading.{own, own-append, timeouts, timeouts-append}
use si_k_1projekt_tcp_udp.UdpServer.Accept.{accepted_packet}
use si_k_1projekt_tcp_udp.UdpServer.Session.{
  received_all, Round, again, ended, UdprProgress, udpr_round, udpr_loop, next_round,
}
use si_k_1projekt_tcp_udp.UdpServer.UdprSteps.{UdprStep, Goes, LeftAside, AfterUdprRound}
use si_k_1projekt_tcp_udp.UdpServer.UdprRounds.{udpr_round_lem}
use si_k_1projekt_tcp_udp.UdpServer.UdpTransfer.{
  HasBytes, total, All-part, own_accepted, accepted_whole, inbox_shrinks, no_wrap, add_first,
}
use si_k_1projekt_tcp_udp.UdpServer.UdprTranscript.{
  PassedOver, Transcript, accepted, passed_over, UdprCompleted, udpr_finish_lem,
}

-- A round that goes on, before the rest of the connection. `transcript` extends the later one by
-- what the round took.
module _ (conn : Conn) (a : Address) (s : UdprProgress) (w : World) (s' : UdprProgress)
    (w' v : World) (h : UdprStep conn a s w s' w') (c : UdprCompleted conn a s' w' v) where
  before :
      (payloads : List (List ℕ))
      → Transcript w.stack conn.session_id s.curr_package_id
          (own a (h.skipped ++ h.event ∷ c.consumed))
          payloads
      → s.bytes_recvd + total payloads ≡ conn.nbr_of_bytes_to_be_sent
      → timeouts (h.event ∷ c.consumed) + s.nbr_of_retransmits ≤ 8
      → UdprCompleted conn a s w v
  before payloads transcript size few = record {
    consumed = h.skipped ++ h.event ∷ c.consumed;
    payloads = payloads;
    earlier = c.earlier;
    parts =
        h.parts
        ∙ ap (λ l. h.skipped ++ h.event ∷ l) c.parts
        ∙ sym (append_assoc h.skipped (h.event ∷ c.consumed) v.inbox);
    transcript = transcript;
    size = size;
    retransmits = omega (arith, h.punctual, timeouts-append h.skipped (h.event ∷ c.consumed));
    sent = c.sent;
  }

abbrev FirstDue : UdprProgress → Type 0
FirstDue s = s.is_first_data_packet ≡ true → s.curr_package_id ≡ 0

aside-PassedOver :
    (w : World) (conn : Conn) (s : UdprProgress) (d : List ℕ)
    → FirstDue s
    → LeftAside w conn s d
    → PassedOver w.stack conn.session_id s.curr_package_id d
aside-PassedOver w conn s d due (inl (type, size, first)) = inl (type, size, due first)
aside-PassedOver w conn s d due (inr (type, session, old, size)) = inr (type, session, old)

retell :
    (session : ℕ) {stack stack' : List ℕ} {id id' : ℕ} {ds ds' ps : List (List ℕ)}
    → stack ≡ stack'
    → id ≡ id'
    → ds ≡ ds'
    → Transcript stack session id ds ps
    → Transcript stack' session id' ds' ps
retell session {stack} {stack'} {id} {id'} {ds} {ds'} {ps} e f g t =
    subst (λ l. Transcript stack' session id' l ps) g
      (subst (λ i. Transcript stack' session i ds ps) f
        (subst (λ k. Transcript k session id ds ps) e t))

-- By what the round took.
UdprCompleted-before :
    (conn : Conn) (a : Address) (s : UdprProgress) (w : World) (s' : UdprProgress) (w' v : World)
    (h : UdprStep conn a s w s' w')
    → All HasBytes w.inbox
    → conn.nbr_of_bytes_to_be_sent + 64000 ≤ 2 ^ 64
    → s.bytes_recvd < conn.nbr_of_bytes_to_be_sent
    → s.curr_package_id + 1 < 2 ^ 64
    → FirstDue s
    → UdprCompleted conn a s' w' v
    → (event : Recv) → h.event ≡ event
    → UdprCompleted conn a s w v
UdprCompleted-before conn a s w s' w' v h bytes big more ids due c timed_out e =
    let (same, few) = subst (Goes conn a s w s') e h.goes in
    before conn a s w s' w' v h c c.payloads
      (retell conn.session_id h.stack (ap (λ (t : UdprProgress). t.curr_package_id) same)
        (sym (
          ap (λ x. own a (h.skipped ++ x ∷ c.consumed)) e
          ∙ own-append a h.skipped (timed_out ∷ c.consumed)
          ∙ ap (λ l. l ++ own a c.consumed) h.foreign))
        c.transcript)
      (ap (λ (t : UdprProgress). t.bytes_recvd + total c.payloads) (sym same) ∙ c.size)
      (omega (
        arith,
        ap (λ x. timeouts (x ∷ c.consumed)) e,
        ap (λ (t : UdprProgress). t.nbr_of_retransmits) same,
        c.retransmits,
      ))
UdprCompleted-before conn a s w s' w' v h bytes big more ids due c failed e =
    absurd (subst (Goes conn a s w s') e h.goes)
UdprCompleted-before conn a s w s' w' v h bytes big more ids due c interrupted e =
    absurd (subst (Goes conn a s w s') e h.goes)
UdprCompleted-before conn a s w s' w' v h bytes big more ids due c (datagram from d) e =
    by_datagram (subst (Goes conn a s w s') e h.goes)
  where
    no_timeout : timeouts (h.event ∷ c.consumed) ≡ timeouts c.consumed
    no_timeout = ap (λ x. timeouts (x ∷ c.consumed)) e

    owned :
        differs from a ≡ false → own a (h.skipped ++ h.event ∷ c.consumed) ≡ d ∷ own a c.consumed
    owned mine =
        ap (λ x. own a (h.skipped ++ x ∷ c.consumed)) e
        ∙ own_accepted a from d h.skipped c.consumed h.foreign mine

    by_datagram : Goes conn a s w s' (datagram from d) → UdprCompleted conn a s w v
    by_datagram (mine, inl (same, aside)) =
        before conn a s w s' w' v h c c.payloads
          (retell conn.session_id refl refl (sym (owned mine)) (
            passed_over d (aside-PassedOver w conn s d due aside) (
              retell conn.session_id h.stack (ap (λ (t : UdprProgress). t.curr_package_id) same)
                refl c.transcript)))
          (ap (λ (t : UdprProgress). t.bytes_recvd + total c.payloads) (sym same) ∙ c.size)
          (omega (
            arith,
            no_timeout,
            ap (λ (t : UdprProgress). t.nbr_of_retransmits) same,
            c.retransmits,
          ))
    by_datagram (mine, inr (ok, next)) =
        let b =
          (All-part HasBytes h.skipped (datagram from d) w'.inbox
            (subst (All HasBytes) (h.parts ∙ ap (λ x. h.skipped ++ x ∷ w'.inbox) e) bytes)).0 in
        let (payload, f, l, n) =
          accepted_packet w.stack conn s.curr_package_id (take 64032 d) (take-All IsByte 64032 d b)
            ok in
        let whole = accepted_whole d conn.session_id s.curr_package_id payload f l in
        let first : s'.bytes_recvd ≡ s.bytes_recvd + length payload =
          ap (λ (t : UdprProgress). t.bytes_recvd) next
          ∙ ap (λ k. u64 (s.bytes_recvd + k)) n
          ∙ no_wrap (s.bytes_recvd + length payload) (omega arith) in
        let second : s'.curr_package_id ≡ s.curr_package_id + 1 =
          ap (λ (t : UdprProgress). t.curr_package_id) next ∙ no_wrap (s.curr_package_id + 1) ids in
        before conn a s w s' w' v h c (payload ∷ c.payloads)
          (retell conn.session_id refl refl
            (ap (λ x. x ∷ own a c.consumed) (sym f ∙ whole) ∙ sym (owned mine))
            (accepted payload l (retell conn.session_id h.stack second refl c.transcript)))
          (add_first s.bytes_recvd (length payload) (total c.payloads) _ _ first c.size)
          (omega (
            arith,
            no_timeout,
            ap (λ (t : UdprProgress). t.nbr_of_retransmits) next,
            c.retransmits,
          ))

FirstDue-next :
    (conn : Conn) (a : Address) (s : UdprProgress) (w : World) (s' : UdprProgress) (event : Recv)
    → FirstDue s
    → Goes conn a s w s' event
    → FirstDue s'
FirstDue-next conn a s w s' timed_out due (same, few) = subst FirstDue (sym same) due
FirstDue-next conn a s w s' failed due g = absurd g
FirstDue-next conn a s w s' interrupted due g = absurd g
FirstDue-next conn a s w s' (datagram from d) due (mine, inl (same, aside)) =
    subst FirstDue (sym same) due
FirstDue-next conn a s w s' (datagram from d) due (mine, inr (ok, next)) =
    subst FirstDue (sym next) (λ x. cc)

-- The count of retransmissions and the packet number, after a round that goes on.
progress_next :
    (conn : Conn) (a : Address) (s : UdprProgress) (w : World) (s' : UdprProgress) (event : Recv)
    → Goes conn a s w s' event
    → s.nbr_of_retransmits ≤ 8
    → s.curr_package_id + 1 < 2 ^ 64
    → (s'.nbr_of_retransmits ≤ 8) × (s'.curr_package_id ≤ s.curr_package_id + 1)
progress_next conn a s w s' timed_out (same, few) h k = omega (
  arith,
  ap (λ (t : UdprProgress). t.nbr_of_retransmits) same,
  ap (λ (t : UdprProgress). t.curr_package_id) same,
)
progress_next conn a s w s' failed g h k = absurd g
progress_next conn a s w s' interrupted g h k = absurd g
progress_next conn a s w s' (datagram from d) (mine, inl (same, aside)) h k = omega (
  arith,
  ap (λ (t : UdprProgress). t.nbr_of_retransmits) same,
  ap (λ (t : UdprProgress). t.curr_package_id) same,
)
progress_next conn a s w s' (datagram from d) (mine, inr (ok, next)) h k = omega (
  arith,
  ap (λ (t : UdprProgress). t.nbr_of_retransmits) next,
  ap (λ (t : UdprProgress). t.curr_package_id) next,
)

pub udpr_loop-UdprCompleted :
    (fuel : ℕ) (conn : Conn) (a : Address) (s : UdprProgress) (w : World)
    → length w.inbox < fuel
    → All HasBytes w.inbox
    → conn.nbr_of_bytes_to_be_sent + 64000 ≤ 2 ^ 64
    → s.curr_package_id + length w.inbox < 2 ^ 64
    → s.nbr_of_retransmits ≤ 8
    → FirstDue s
    → Post
        (λ e w'. e ≡ received_all → UdprCompleted conn a s w w')
        (λ w'. Unit)
        (udpr_loop fuel conn a s w)
unfolding udpr_loop
udpr_loop-UdprCompleted zero conn a s w f bytes big ids few due = absurd (omega arith)
udpr_loop-UdprCompleted (suc fuel) conn a s w f bytes big ids few due =
    elim (Bool-cases (ltb s.bytes_recvd conn.nbr_of_bytes_to_be_sent)) [
      | inl more ↦ rw more (
          Post-bind _ _ _ _ (udpr_round conn a s) _ w (udpr_round_lem conn a s w)
            (λ o w' h.
              rounds (λ s' w'. udpr_loop-UdprCompleted fuel conn a s' w') o w' (ltb→lt _ _ more) h)
            (λ w' h. tt))
      | inr all ↦ rw all (udpr_finish_lem conn a s w few)
    ]
  where
    rounds :
        ((s' : UdprProgress) (w' : World)
          → length w'.inbox < fuel
          → All HasBytes w'.inbox
          → conn.nbr_of_bytes_to_be_sent + 64000 ≤ 2 ^ 64
          → s'.curr_package_id + length w'.inbox < 2 ^ 64
          → s'.nbr_of_retransmits ≤ 8
          → FirstDue s'
          → Post
              (λ e v. e ≡ received_all → UdprCompleted conn a s' w' v)
              (λ v. Unit)
              (udpr_loop fuel conn a s' w'))
        → (o : Round UdprProgress) (w' : World) → s.bytes_recvd < conn.nbr_of_bytes_to_be_sent
        → AfterUdprRound conn a s w o w'
        → Post
            (λ e v. e ≡ received_all → UdprCompleted conn a s w v)
            (λ v. Unit)
            (next_round (λ s' v. udpr_loop fuel conn a s' v) o w')
    rounds go_on (ended e) w' more h = λ x. absurd (h.not_all x)
    rounds go_on (again s') w' more h =
        let shrinks = inbox_shrinks w.inbox h.skipped w'.inbox h.event h.parts in
        let (still_few, id) = progress_next conn a s w s' h.event h.goes few (omega arith) in
        Post-map _ _ _ _
          (λ e v c x.
            UdprCompleted-before conn a s w s' w' v h bytes big more (omega arith) due (c x) h.event
              refl)
          (λ v u. u) (udpr_loop fuel conn a s' w')
          (go_on s' w' (omega arith)
            (All-part HasBytes h.skipped h.event w'.inbox (subst (All HasBytes) h.parts bytes)).1
            big (omega arith) still_few (FirstDue-next conn a s w s' h.event due h.goes))
