-- ===== src/TcpServer/Receiving.antt =====
-- The loop of TCP_server_handler over the DATA packets of a connection.
use si_k_1projekt_tcp_udp.Common.{
  ℕ, ◌+◌, ◌≤◌, ◌≡◌, refl, sym, ap, ap₂, subst, ◌∙◌, List, [], ◌∷◌, ◌++◌, append_assoc, length, All,
  arith,
}
use si_k_1projekt_tcp_udp.Constants.{Status}
use si_k_1projekt_tcp_udp.Packets.{Conn}
use si_k_1projekt_tcp_udp.Packets.Wire.{data_packet}
use si_k_1projekt_tcp_udp.Stream.{Connection, Outcome, M}
use si_k_1projekt_tcp_udp.Stream.Rules.{Post, Post-map}
use si_k_1projekt_tcp_udp.TcpServer.{
  TcpEnd, received_all, wrong_packet, no_connection, TcpProgress, reject, after_data,
}
use si_k_1projekt_tcp_udp.TcpServer.Sending.{Rejected, reject-Rejected}
use si_k_1projekt_tcp_udp.TcpServer.Headers.{data_header, data_header-append, PayloadRead}
use si_k_1projekt_tcp_udp.UdpServer.UdpTransfer.{total}

-- The bytes of DATA packets in a row.
abbrev pub data_stream : ℕ → ℕ → List (List ℕ) → List ℕ
data_stream session id [] = []
data_stream session id (p ∷ ps) = data_packet session id p ++ data_stream session (id + 1) ps

-- The rest of the stream begins with DATA packets, in order, of as many bytes as are missing.
pub record AllReceived (conn : Conn) (s : TcpProgress) (c c' : Connection) : Type 0 where
  pub payloads : List (List ℕ)
  pub incoming : c.incoming ≡ data_stream conn.session_id s.curr_packet_id payloads ++ c'.incoming
  pub size : s.nbr_of_bytes_received + total payloads ≡ conn.nbr_of_bytes_to_be_sent
  pub small : All (λ p. length p ≤ 64000) payloads
  pub outgoing : c'.outgoing ≡ c.outgoing
  pub closed : c'.closed ≡ c.closed

-- Some of the stream was taken and the connection refused.
pub record Refused (session : ℕ) (c c' : Connection) : Type 0 where
  pub taken : List ℕ
  pub incoming : c.incoming ≡ taken ++ c'.incoming
  pub before : Connection
  pub rejected : Rejected session before c'
  pub outgoing : before.outgoing ≡ c.outgoing

abbrev pub LoopEnd : Conn → TcpProgress → Connection → TcpEnd → Connection → Type 0
LoopEnd conn s c received_all c' = AllReceived conn s c c'
LoopEnd conn s c wrong_packet c' = Refused conn.session_id c c'
LoopEnd conn s c no_connection c' = ⊥

abbrev pub Receives : Conn → TcpProgress → Connection → Outcome TcpEnd → Type 0
Receives conn s c = Post (LoopEnd conn s c) (λ c'. Unit {0})

-- A refusal after `taken` was read.
pub refusal :
    (conn : Conn) (s : TcpProgress) (id : ℕ) (taken : List ℕ) (c d : Connection)
    → c.incoming ≡ taken ++ d.incoming
    → d.outgoing ≡ c.outgoing
    → Receives conn s c (reject conn id d)
refusal conn s id taken c d e f =
    Post-map (λ r c'. (r ≡ wrong_packet) × Rejected conn.session_id d c') (LoopEnd conn s c)
      (λ c'. ⊥) (λ c'. Unit {0})
      (λ r c' (w, h).
        subst (λ x. LoopEnd conn s c x c') (sym w)
          (record {
            taken = taken;
            incoming = e ∙ ap (◌++◌ taken) (sym h.incoming);
            before = d;
            rejected = h;
            outgoing = f;
          }))
      (λ c' b. tt) _ (reject-Rejected conn id d)

-- One packet before the rest.
module _ (conn : Conn) (s s' : TcpProgress) (payload : List ℕ) (c d : Connection)
    (next : s'.curr_packet_id ≡ s.curr_packet_id + 1)
    (count : s'.nbr_of_bytes_received ≡ s.nbr_of_bytes_received + length payload)
    (small : length payload ≤ 64000)
    (e : c.incoming ≡ data_packet conn.session_id s.curr_packet_id payload ++ d.incoming)
    (f : d.outgoing ≡ c.outgoing) (g : d.closed ≡ c.closed) where
  add_packet : (r : TcpEnd) (c' : Connection) → LoopEnd conn s' d r c' → LoopEnd conn s c r c'
  add_packet received_all c' h = record {
    payloads = payload ∷ h.payloads;
    incoming =
        e
        ∙ ap (◌++◌ (data_packet conn.session_id s.curr_packet_id payload))
            (h.incoming ∙ ap (λ k. data_stream conn.session_id k h.payloads ++ c'.incoming) next)
        ∙ sym (append_assoc (data_packet conn.session_id s.curr_packet_id payload) _ c'.incoming);
    size = omega (arith, h.size);
    small = (small, h.small);
    outgoing = h.outgoing ∙ f;
    closed = h.closed ∙ g;
  }
  add_packet wrong_packet c' h = record {
    taken = data_packet conn.session_id s.curr_packet_id payload ++ h.taken;
    incoming =
        e
        ∙ ap (◌++◌ (data_packet conn.session_id s.curr_packet_id payload)) h.incoming
        ∙ sym (append_assoc (data_packet conn.session_id s.curr_packet_id payload) _ c'.incoming);
    before = h.before;
    rejected = h.rejected;
    outgoing = h.outgoing ∙ f;
  }
  add_packet no_connection c' h = h

-- After the payload was read, by the result.
module _ (conn : Conn) (s s' : TcpProgress) (n : ℕ) (c c1 c2 : Connection)
    (go_on : TcpProgress → M TcpEnd)
    (front : c.incoming ≡ data_header conn.session_id s.curr_packet_id n ++ c1.incoming)
    (outgoing : c1.outgoing ≡ c.outgoing) (closed : c1.closed ≡ c.closed)
    (next : s'.curr_packet_id ≡ s.curr_packet_id + 1)
    (count : s'.nbr_of_bytes_received ≡ s.nbr_of_bytes_received + n) (small : n ≤ 64000) where
  accepted_data :
      PayloadRead n c1 Status.success c2
      → Receives conn s' c2 (go_on s' c2)
      → Receives conn s c (go_on s' c2)
  accepted_data h k =
      let l : length h.taken ≡ n = h.whole refl in
      Post-map (LoopEnd conn s' c2) (LoopEnd conn s c) (λ v. Unit {0}) (λ v. Unit {0})
        (add_packet conn s s' h.taken c c2 next (omega (arith, count, l)) (omega (arith, l))
          (front
            ∙ ap₂ (λ k x. data_header conn.session_id s.curr_packet_id k ++ x) (sym l) h.incoming
            ∙ data_header-append conn.session_id s.curr_packet_id h.taken c2.incoming)
          (h.outgoing ∙ outgoing) (h.closed ∙ closed))
        (λ v u. u) _ k

  refused_data :
      (status : Status)
      → PayloadRead n c1 status c2
      → Receives conn s c (reject conn s'.curr_packet_id c2)
  refused_data status h =
      refusal conn s s'.curr_packet_id (data_header conn.session_id s.curr_packet_id n ++ h.taken) c
        c2
        (front
          ∙ ap (◌++◌ (data_header conn.session_id s.curr_packet_id n)) h.incoming
          ∙ sym (append_assoc (data_header conn.session_id s.curr_packet_id n) h.taken c2.incoming))
        (h.outgoing ∙ outgoing)

  pub after_data-Receives :
      (status : Status)
      → PayloadRead n c1 status c2
      → (status ≡ Status.success → Receives conn s' c2 (go_on s' c2))
      → Receives conn s c (after_data go_on conn s' status c2)
  after_data-Receives Status.success h k = accepted_data h (k refl)
  after_data-Receives Status.error h k = refused_data Status.error h
  after_data-Receives Status.wrong_session_id h k = refused_data Status.wrong_session_id h
  after_data-Receives Status.wrong_package_type_id h k = refused_data Status.wrong_package_type_id h
  after_data-Receives Status.wrong_package_id h k = refused_data Status.wrong_package_id h
  after_data-Receives Status.wrong_package_size h k = refused_data Status.wrong_package_size h
  after_data-Receives Status.timeout_error h k = refused_data Status.timeout_error h
  after_data-Receives Status.retransmission h k = refused_data Status.retransmission h
  after_data-Receives Status.conrjt_error h k = refused_data Status.conrjt_error h
  after_data-Receives Status.continue h k = refused_data Status.continue h
