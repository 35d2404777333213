-- ===== src/TcpServer/Sending.antt =====
-- What TCP_send_packet and handle_RJT_sending put into the stream.
use si_k_1projekt_tcp_udp.Common.{
  ℕ, ◌<◌, ◌≡◌, refl, sym, ◌∙◌, inl, inr, List, [], ◌++◌, true, false, ltb, ◌==◌, take, arith,
}
use si_k_1projekt_tcp_udp.Constants.{Status}
use si_k_1projekt_tcp_udp.Packets.{Conn, init_rjt, rjt_memory}
use si_k_1projekt_tcp_udp.Packets.Wire.{numbered_packet}
use si_k_1projekt_tcp_udp.Packets.Sending.{rjt_bytes}
use si_k_1projekt_tcp_udp.Stream.{
  Connection, done, WritenResult, negative_count, count, writen, writen_loop, close,
}
use si_k_1projekt_tcp_udp.Stream.Rules.{Post, Post-bind}
use si_k_1projekt_tcp_udp.Stream.Writing.{Counts, Writes, writen-Writes}
use si_k_1projekt_tcp_udp.TcpServer.{
  wrong_packet, written_status, tcp_send_packet, handle_rjt_sending, reject,
}

-- `wire` was appended to the stream up to some point, and whole where the call succeeded.
pub record Sends (wire : List ℕ) (c : Connection) (status : Status) (c' : Connection) : Type 0 where
  pub part : List ℕ
  pub rest : List ℕ
  pub parts : wire ≡ part ++ rest
  pub outgoing : c'.outgoing ≡ c.outgoing ++ part
  pub whole : status ≡ Status.success → rest ≡ []
  pub incoming : c'.incoming ≡ c.incoming
  pub closed : c'.closed ≡ c.closed

success_is_whole :
    (n : ℕ) (rest : List ℕ) (r : WritenResult)
    → Counts n rest r
    → written_status n r ≡ Status.success
    → rest ≡ []
success_is_whole n rest negative_count h e = cc
success_is_whole n rest (count k) (inl (whole, all)) e = all
success_is_whole n rest (count k) (inr none) e = absurd (ground arith)

pub tcp_send_packet-Sends :
    (packet wire : List ℕ) (n : ℕ) (c : Connection)
    → take n packet ≡ wire
    → Post (Sends wire c) (λ c'. ⊥) (tcp_send_packet packet n c)
unfolding tcp_send_packet
tcp_send_packet-Sends packet wire n c e =
    Post-bind (Writes n (take n packet) c) (Sends wire c) (λ c'. ⊥) (λ c'. ⊥) (writen packet n) _ c
      (writen-Writes packet n c)
      (λ r c' h. record {
        part = h.part;
        rest = h.rest;
        parts = sym e ∙ h.parts;
        outgoing = h.outgoing;
        whole = success_is_whole n h.rest r h.counts;
        incoming = h.incoming;
        closed = h.closed;
      })
      (λ c' b. b)

-- Where every `write` takes all that it is given.
pub tcp_send_packet-all :
    (packet wire : List ℕ) (n : ℕ) (c : Connection)
    → take n packet ≡ wire
    → 0 < n
    → c.writes ≡ []
    → tcp_send_packet packet n c
      ≡ done Status.success (record c { outgoing = c.outgoing ++ wire; writes = [] })
unfolding tcp_send_packet writen writen_loop
tcp_send_packet-all packet wire n c e some_bytes h =
    let f : ltb n n ≡ false = ground arith in
    let g : (n == 0) ≡ false = ground arith in rw (h, f, g, e) refl

-- RJT was sent, as far as the stream took it, and the connection is closed.
pub record Rejected (session : ℕ) (c c' : Connection) : Type 0 where
  pub id : ℕ
  pub part : List ℕ
  pub rest : List ℕ
  pub parts : numbered_packet 6 session id ≡ part ++ rest
  pub outgoing : c'.outgoing ≡ c.outgoing ++ part
  pub incoming : c'.incoming ≡ c.incoming
  pub closed : c'.closed ≡ true

pub reject-Rejected :
    (conn : Conn) (id : ℕ) (c : Connection)
    → Post (λ e c'. (e ≡ wrong_packet) × Rejected conn.session_id c c') (λ c'. ⊥) (reject conn id c)
unfolding handle_rjt_sending close
reject-Rejected conn id c =
    Post-bind (λ u c'. Rejected conn.session_id c c') _ (λ c'. ⊥) (λ c'. ⊥)
      (handle_rjt_sending conn id) _ c
      (Post-bind (Sends (numbered_packet 6 conn.session_id id) c)
        (λ u c'. Rejected conn.session_id c c') (λ c'. ⊥) (λ c'. ⊥)
        (tcp_send_packet (rjt_memory (init_rjt conn.session_id id)) 17) _ c
        (tcp_send_packet-Sends _ _ 17 c (rjt_bytes conn.session_id id))
        (λ s c' h. record {
          id = id;
          part = h.part;
          rest = h.rest;
          parts = h.parts;
          outgoing = h.outgoing;
          incoming = h.incoming;
          closed = refl;
        })
        (λ c' b. b))
      (λ u c' h. (refl, h)) (λ c' b. b)
