-- ===== src/UdpServer/UdprSteps.antt =====
-- What a round of UDPR_data_receive may do, and what the functions it calls give.
use si_k_1projekt_tcp_udp.Common.{
  ℕ, ◌+◌, ◌≤◌, ◌<◌, ◌≡◌, ◌≢◌, refl, ◌⊎◌, inl, inr, Bool-cases, ◌!=◌, ltb, if◌then◌else◌, List, [],
  ◌∷◌, ◌++◌, Bool, true, false, u64, sub64, take, length, arith,
}
use si_k_1projekt_tcp_udp.Constants.{Status, receive_buffor_size, max_retransmits}
use si_k_1projekt_tcp_udp.Packets.{Conn, DataInfo, read_data_info, sizeof_data_info}
use si_k_1projekt_tcp_udp.Net.{
  Address, Recv, timed_out, failed, interrupted, datagram, World, done, Post, Post-bind, ◌>>=◌,
}
use si_k_1projekt_tcp_udp.UdpServer.Receive.{
  only, differs, read_data_to_buffer, send_rjt, send_acc, send_conacc,
}
use si_k_1projekt_tcp_udp.UdpServer.Reading.{own, timeouts, Reads, read_loop-ReadsOrBlocks}
use si_k_1projekt_tcp_udp.UdpServer.Checks.{
  check_if_correct_data_packet, do_retransmission, handle_wrong_type, handle_wrong_id,
}
use si_k_1projekt_tcp_udp.UdpServer.Session.{
  SessionEnd, received_all, Round, again, ended, UdprProgress, udpr_read,
}

pub udpr_read_lem :
    (a : Address) (w : World)
    → Post
        (λ r w'. Reads a w.inbox w r w' × (w'.udpr_client_address ≡ r.client_address))
        (λ w'. (own a w.inbox ≡ []) × (w'.inbox ≡ []))
        (udpr_read a w)
unfolding udpr_read read_data_to_buffer
udpr_read_lem a w =
    Post-bind (Reads a w.inbox w) _ _ _ (read_data_to_buffer (only a) w.udpr_client_address) _ w
      (read_loop-ReadsOrBlocks w.inbox a w.udpr_client_address w)
      (λ r w' h. (
        record {
          skipped = h.skipped;
          event = h.event;
          parts = h.parts;
          foreign = h.foreign;
          punctual = h.punctual;
          answers = h.answers;
          sends = record {
            packets = h.sends.packets;
            sent = h.sends.sent;
            allowed = h.sends.allowed;
            stack = h.sends.stack;
          };
        },
        refl,
      ))
      (λ w' h. h)

abbrev pub accepted_by : World → Conn → UdprProgress → List ℕ → Status × DataInfo
accepted_by w conn s bytes =
    check_if_correct_data_packet w.stack (take receive_buffor_size bytes) conn s.curr_package_id

-- A datagram that the round leaves aside: a CONN before the first DATA packet, or a DATA packet of
-- the session with an earlier number and the length that it declares.
abbrev pub LeftAside : World → Conn → UdprProgress → List ℕ → Type 0
LeftAside w conn s bytes =
    let d = read_data_info w.stack (take receive_buffor_size bytes) in
    ((d.package_type_id ≡ 1)
      × (length (take receive_buffor_size bytes) ≡ 18)
      × (s.is_first_data_packet ≡ true))
    ⊎ ((d.package_type_id ≡ 4)
        × (d.session_id ≡ conn.session_id)
        × (d.package_id < s.curr_package_id)
        × (length (take receive_buffor_size bytes) ≡ 21 + d.nbr_of_bytes_in_packet))

-- What a round that goes on has done, by the result of `recvfrom` that it took.
abbrev pub Goes : Conn → Address → UdprProgress → World → UdprProgress → Recv → Type 0
Goes conn a s w s' timed_out =
    (s' ≡ record s { nbr_of_retransmits = s.nbr_of_retransmits + 1 })
    × (s.nbr_of_retransmits + 1 ≤ 8)
Goes conn a s w s' failed = ⊥
Goes conn a s w s' interrupted = ⊥
Goes conn a s w s' (datagram from bytes) =
    (differs from a ≡ false)
    × (((s' ≡ s) × LeftAside w conn s bytes)
        ⊎ (((accepted_by w conn s bytes).0 ≡ Status.success)
            × (s' ≡ record s {
              bytes_recvd =
                  u64 (s.bytes_recvd + (accepted_by w conn s bytes).1.nbr_of_bytes_in_packet);
              curr_package_id = u64 (s.curr_package_id + 1);
              is_first_data_packet = false;
            })))

pub record UdprStep (conn : Conn) (a : Address) (s : UdprProgress) (w : World) (s' : UdprProgress)
    (w' : World) : Type 0 where
  pub skipped : List Recv
  pub event : Recv
  pub parts : w.inbox ≡ skipped ++ event ∷ w'.inbox
  pub foreign : own a skipped ≡ []
  pub punctual : timeouts skipped ≡ 0
  pub goes : Goes conn a s w s' event
  pub stack : w'.stack ≡ w.stack

-- A round that ends the connection takes a result too, but does not send RCVD.
pub record UdprStop (a : Address) (w : World) (e : SessionEnd) (w' : World) : Type 0 where
  pub skipped : List Recv
  pub event : Recv
  pub parts : w.inbox ≡ skipped ++ event ∷ w'.inbox
  pub foreign : own a skipped ≡ []
  pub punctual : timeouts skipped ≡ 0
  pub not_all : e ≢ received_all

abbrev pub AfterUdprRound :
    Conn → Address → UdprProgress → World → Round UdprProgress → World → Type 0
AfterUdprRound conn a s w (again s') w' = UdprStep conn a s w s' w'
AfterUdprRound conn a s w (ended e) w' = UdprStop a w e w'

-- The tests behind the results that `handle_ret_val` tells apart.
pub wrong_type_tests :
    (stack buff : List ℕ) (conn : Conn) (id : ℕ)
    → (check_if_correct_data_packet stack buff conn id).0 ≡ Status.wrong_package_type_id
    → (check_if_correct_data_packet stack buff conn id).1.package_type_id
      ≡ (read_data_info stack buff).package_type_id
unfolding check_if_correct_data_packet
wrong_type_tests stack buff conn id h = refl

pub wrong_id_tests :
    (stack buff : List ℕ) (conn : Conn) (id : ℕ)
    → (check_if_correct_data_packet stack buff conn id).0 ≡ Status.wrong_package_id
    → let d = read_data_info stack buff in
      (d.package_type_id ≡ 4) × (d.session_id ≡ conn.session_id)
unfolding check_if_correct_data_packet
wrong_id_tests stack buff conn id h = ground arith

pub check_reads :
    (stack buff : List ℕ) (conn : Conn) (id : ℕ)
    → (check_if_correct_data_packet stack buff conn id).1 ≡ read_data_info stack buff
unfolding check_if_correct_data_packet
check_reads stack buff conn id = refl

pub handle_wrong_type_lem :
    (n : ℕ) (d : DataInfo) (first : Bool)
    → (handle_wrong_type n d first ≡ Status.error)
      ⊎ ((handle_wrong_type n d first ≡ Status.continue)
          × (d.package_type_id ≡ 1)
          × (n ≡ 18)
          × (first ≡ true))
unfolding handle_wrong_type
handle_wrong_type_lem n d first = ground arith

pub handle_wrong_id_lem :
    (to : Address) (n id : ℕ) (d : DataInfo) (session : ℕ) (w : World)
    → Post
        (λ status w'.
          ((status ≡ Status.error) × (w'.inbox ≡ w.inbox))
          ⊎ ((status ≡ Status.continue)
              × (w' ≡ w)
              × (d.package_id < id)
              × (n ≡ 21 + d.nbr_of_bytes_in_packet)))
        (λ w'. ⊥)
        (handle_wrong_id to n id d session w)
unfolding handle_wrong_id send_rjt
handle_wrong_id_lem to n id d session w = elim (Bool-cases (ltb d.package_id id)) [
  | inl old ↦ elim (Bool-cases (n != sizeof_data_info + d.nbr_of_bytes_in_packet)) [
    | inl long ↦ rw (old, long) (inl (refl, refl))
    | inr fits ↦ rw (old, fits) (inr (refl, refl, ground arith, ground arith))
  ]
  | inr new ↦ rw new (inl (refl, refl))
]

-- `do_retransmission` counts one more, and sends unless the count is past the limit.
abbrev pub Retransmits : ℕ → World → Status × ℕ → World → Type 0
Retransmits n w o w' =
    (w'.inbox ≡ w.inbox)
    × (w'.stack ≡ w.stack)
    × ((o ≡ (Status.error, n + 1)) ⊎ ((n + 1 ≤ 8) × (o ≡ (Status.success, n + 1))))

pub do_retransmission_lem :
    (to : Address) (conn : Conn) (first : Bool) (n id : ℕ) (w : World)
    → Post (Retransmits n w) (λ w'. ⊥) (do_retransmission to conn first n id w)
unfolding do_retransmission send_conacc send_acc
do_retransmission_lem to conn first n id w = elim (Bool-cases (ltb max_retransmits (n + 1))) [
  | inl many ↦ rw many (refl, refl, inl refl)
  | inr few ↦ rw few (sends first (ground arith))
]
  where
    sends :
        (first : Bool)
        → n + 1 ≤ 8
        → Post
            (Retransmits n w)
            (λ w'. ⊥)
            (((if first
                  then send_conacc to conn.session_id
                  else send_acc to conn.session_id (sub64 id 1))
                >>= λ _ v. done (Status.success, n + 1) v)
              w)
    sends true few = (refl, refl, inr (few, refl))
    sends false few = (refl, refl, inr (few, refl))
