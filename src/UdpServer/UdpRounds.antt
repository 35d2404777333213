-- ===== src/UdpServer/UdpRounds.antt =====
-- One round of UDP_data_receive.
use si_k_1projekt_tcp_udp.Common.{
  ℕ, ◌+◌, ◌≡◌, ◌≢◌, refl, subst, ◌∙◌, List, [], ◌∷◌, ◌++◌, false, u64, take, length, arith,
}
use si_k_1projekt_tcp_udp.Constants.{Status, receive_buffor_size}
use si_k_1projekt_tcp_udp.Packets.{Conn}
use si_k_1projekt_tcp_udp.Net.{
  Address, Recv, timed_out, failed, interrupted, datagram, World, Post, Post-bind, Post-returns,
}
use si_k_1projekt_tcp_udp.UdpServer.Receive.{Received, only, differs, read_data_to_buffer, send_rjt}
use si_k_1projekt_tcp_udp.UdpServer.Reading.{own, Reads, Answers, read_loop-ReadsOrBlocks}
use si_k_1projekt_tcp_udp.UdpServer.Checks.{check_if_correct_data_packet}
use si_k_1projekt_tcp_udp.UdpServer.Accept.{empty_fails}
use si_k_1projekt_tcp_udp.UdpServer.Session.{
  SessionEnd, received_all, Round, again, ended, Progress, udp_read, udp_checked, udp_handle,
  udp_round,
}

pub udp_read_lem :
    (a : Address) (w : World)
    → Post
        (λ r w'. Reads a w.inbox w r w' × (w'.udp_client_address ≡ r.client_address))
        (λ w'. (own a w.inbox ≡ []) × (w'.inbox ≡ []))
        (udp_read a w)
unfolding udp_read read_data_to_buffer
udp_read_lem a w =
    Post-bind (Reads a w.inbox w) _ _ _ (read_data_to_buffer (only a) w.udp_client_address) _ w
      (read_loop-ReadsOrBlocks w.inbox a w.udp_client_address w)
      (λ r w' h. (
        record {
          skipped = h.skipped;
          event = h.event;
          parts = h.parts;
          foreign = h.foreign;
          punctual = h.punctual;
          answers = h.answers;
          sends = record {
            packets = h.sends.packets;
            sent = h.sends.sent;
            allowed = h.sends.allowed;
            stack = h.sends.stack;
          };
        },
        refl,
      ))
      (λ w' h. h)

-- A datagram of the client's that passed the check, and the round's effect.
pub record Accepted (conn : Conn) (a : Address) (s : Progress) (w : World) (s' : Progress)
    (w' : World) : Type 0 where
  pub skipped : List Recv
  pub from : Address
  pub bytes : List ℕ
  pub parts : w.inbox ≡ skipped ++ datagram from bytes ∷ w'.inbox
  pub foreign : own a skipped ≡ []
  pub mine : differs from a ≡ false
  pub checked :
      (check_if_correct_data_packet w.stack
        (take receive_buffor_size bytes)
        conn
        s.curr_package_id).0
      ≡ Status.success
  pub next : s' ≡ record {
    bytes_recvd = u64 (
        s.bytes_recvd
        + (check_if_correct_data_packet w.stack
            (take receive_buffor_size bytes)
            conn
            s.curr_package_id).1.nbr_of_bytes_in_packet);
    curr_package_id = u64 (s.curr_package_id + 1);
  }
  pub client_address : w'.udp_client_address ≡ from
  pub stack : w'.stack ≡ w.stack

-- Why a round ends the connection: `recvfrom` failed, or the client's datagram failed the check.
abbrev pub Cause : Conn → Address → Progress → World → Recv → Type 0
Cause conn a s w timed_out = Unit
Cause conn a s w failed = Unit
Cause conn a s w interrupted = Unit
Cause conn a s w (datagram from bytes) =
    (differs from a ≡ false)
    × ((check_if_correct_data_packet w.stack (take receive_buffor_size bytes) conn
          s.curr_package_id).0
        ≢ Status.success)

pub record Stopped (conn : Conn) (a : Address) (s : Progress) (w : World) (e : SessionEnd)
    (w' : World) : Type 0 where
  pub skipped : List Recv
  pub event : Recv
  pub parts : w.inbox ≡ skipped ++ event ∷ w'.inbox
  pub foreign : own a skipped ≡ []
  pub cause : Cause conn a s w event
  pub not_all : e ≢ received_all

abbrev pub AfterRound : Conn → Address → Progress → World → Round Progress → World → Type 0
AfterRound conn a s w (again s') w' = Accepted conn a s w s' w'
AfterRound conn a s w (ended e) w' = Stopped conn a s w e w'

module _ (conn : Conn) (a : Address) (s : Progress) (w : World) (r : Received) (w' : World)
    (skipped : List Recv) (foreign : own a skipped ≡ []) (stack : w'.stack ≡ w.stack)
    (client : w'.udp_client_address ≡ r.client_address) where
  -- A datagram of the client's.
  udp_checked_lem :
      (from : Address) (bytes : List ℕ)
      → w.inbox ≡ skipped ++ datagram from bytes ∷ w'.inbox
      → differs from a ≡ false
      → (r.buff ≡ take receive_buffor_size bytes)
      → r.client_address ≡ from
      → (status : Status)
      → (check_if_correct_data_packet w'.stack r.buff conn s.curr_package_id).0 ≡ status
      → Post
          (AfterRound conn a s w)
          (λ w'. ⊥)
          (udp_checked conn s r.client_address status
            (check_if_correct_data_packet w'.stack r.buff conn s.curr_package_id).1
            w')
  unfolding udp_checked send_rjt
  udp_checked_lem from bytes parts mine buff sender Status.success e = record {
    skipped = skipped;
    from = from;
    bytes = bytes;
    parts = parts;
    foreign = foreign;
    mine = mine;
    checked = rw (← stack, ← buff) e;
    next = rw (← stack, ← buff) refl;
    client_address = client ∙ sender;
    stack = stack;
  }
  udp_checked_lem from bytes parts mine buff sender _ e = record {
    skipped = skipped;
    event = datagram from bytes;
    parts = parts;
    foreign = foreign;
    cause = (mine, rw (← stack, ← buff, e) (λ x. cc));
    not_all = λ x. cc;
  }

  udp_handle_lem :
      (event : Recv) (status : Status)
      → w.inbox ≡ skipped ++ event ∷ w'.inbox
      → Answers a event r
      → r.status ≡ status
      → Post (AfterRound conn a s w) (λ w'. ⊥) (udp_handle conn s r status w')
  unfolding udp_handle
  udp_handle_lem timed_out Status.timeout_error parts x e = record {
    skipped = skipped;
    event = timed_out;
    parts = parts;
    foreign = foreign;
    cause = tt;
    not_all = λ y. cc;
  }
  udp_handle_lem timed_out _ parts x e = cc
  udp_handle_lem failed Status.error parts x e = record {
    skipped = skipped;
    event = failed;
    parts = parts;
    foreign = foreign;
    cause = tt;
    not_all = λ y. cc;
  }
  udp_handle_lem failed _ parts x e = cc
  udp_handle_lem interrupted Status.error parts x e = record {
    skipped = skipped;
    event = interrupted;
    parts = parts;
    foreign = foreign;
    cause = tt;
    not_all = λ y. cc;
  }
  udp_handle_lem interrupted _ parts x e = cc
  udp_handle_lem (datagram from bytes) Status.success parts (mine, status, buff, sender) e =
      udp_checked_lem from bytes parts mine buff sender _ refl
  udp_handle_lem (datagram from bytes) Status.error parts (mine, status, buff, sender) e = record {
    skipped = skipped;
    event = datagram from bytes;
    parts = parts;
    foreign = foreign;
    cause = (
      mine,
      λ ok.
          empty_fails w.stack conn s.curr_package_id (take receive_buffor_size bytes)
            (subst (λ l. length l ≡ 0) buff (ground arith)) ok,
    );
    not_all = λ y. cc;
  }
  udp_handle_lem (datagram from bytes) _ parts (mine, status, buff, sender) e =
      absurd (ground arith)

pub udp_round_lem :
    (conn : Conn) (a : Address) (s : Progress) (w : World)
    → Post
        (AfterRound conn a s w)
        (λ w'. (own a w.inbox ≡ []) × (w'.inbox ≡ []))
        (udp_round conn a s w)
unfolding udp_round
udp_round_lem conn a s w =
    Post-bind _ _ _ _ (udp_read a) _ w (udp_read_lem a w)
      (λ r w' h.
        Post-returns (AfterRound conn a s w) (λ v. (own a w.inbox ≡ []) × (v.inbox ≡ []))
          (udp_handle conn s r r.status w')
          (udp_handle_lem conn a s w r w' h.0.skipped h.0.foreign h.0.sends.stack h.1 h.0.event
            r.status h.0.parts h.0.answers refl))
      (λ w' h. h)
