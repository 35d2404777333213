-- ===== src/TcpServer/Rounds.antt =====
-- The loop of TCP_server_handler on a stream of DATA packets as the protocol asks for.
use si_k_1projekt_tcp_udp.Common.{
  length-append, ℕ, zero, suc, ◌+◌, ◌^◌, ◌≤◌, ◌<◌, ◌≡◌, refl, sym, ap, subst, ◌∙◌, List, [], ◌∷◌,
  ◌++◌, append_assoc, true, false, ltb, length, All, arith, u64,
}
use si_k_1projekt_tcp_udp.Constants.{Status}
use si_k_1projekt_tcp_udp.Packets.{Conn}
use si_k_1projekt_tcp_udp.Packets.Wire.{data_packet}
use si_k_1projekt_tcp_udp.Stream.{Connection, Outcome, M, ◌>>=◌}
use si_k_1projekt_tcp_udp.Stream.Rules.{Post, Post-bind, Post-map}
use si_k_1projekt_tcp_udp.Stream.Delivering.{GivesBytes, Took, Took-trans}
use si_k_1projekt_tcp_udp.TcpServer.{
  TcpEnd, received_all, TcpProgress, tcp_get_data_metainfo, tcp_read_data_to_buf, after_data,
  after_metainfo, tcp_receive_loop,
}
use si_k_1projekt_tcp_udp.TcpServer.Headers.{data_header-append}
use si_k_1projekt_tcp_udp.TcpServer.Receiving.{data_stream}
use si_k_1projekt_tcp_udp.UdpServer.UdpTransfer.{total}
use si_k_1projekt_tcp_udp.UdpServer.UdpDelivery.{IsPayload}
use si_k_1projekt_tcp_udp.TcpServer.Taking.{
  data_info_of, tcp_get_data_metainfo-Took, tcp_read_data_to_buf-Took,
}

-- The DATA packets were read, and nothing else.
abbrev pub Delivers : List ℕ → Connection → Outcome TcpEnd → Type 0
Delivers after c = Post (λ e c'. (e ≡ received_all) × Took after c c') (λ c'. ⊥)

-- A round, where the rest of the loop is known.
module _ (conn : Conn) (s : TcpProgress) (c : Connection) (go_on : TcpProgress → M TcpEnd)
    (part after last : List ℕ) (session : conn.session_id < 2 ^ 64)
    (number : s.curr_packet_id < 2 ^ 64) (small : length part ≤ 64000)
    (fits : s.nbr_of_bytes_received + length part ≤ conn.nbr_of_bytes_to_be_sent)
    (bound : conn.nbr_of_bytes_to_be_sent < 2 ^ 64) where
  abbrev next : TcpProgress
  next = record {
    nbr_of_bytes_received = u64 (s.nbr_of_bytes_received + length part);
    curr_packet_id = u64 (s.curr_packet_id + 1);
  }

  data_round :
      (c1 : Connection)
      → Took (part ++ after) c c1
      → ((c2 : Connection) → Took after c1 c2 → Delivers last c2 (go_on next c2))
      → Delivers last c (
          after_metainfo go_on conn s
            (Status.success, data_info_of conn.session_id s.curr_packet_id (length part))
            c1)
  data_round c1 t k =
      let within : ltb conn.nbr_of_bytes_to_be_sent (u64 (s.nbr_of_bytes_received + length part))
          ≡ false =
        ground arith in
      rw within (
        Post-bind (λ status c'. (status ≡ Status.success) × Took after c1 c') _ (λ c'. ⊥) (λ c'. ⊥)
          (tcp_read_data_to_buf (length part)) (after_data go_on conn next) c1
          (tcp_read_data_to_buf-Took part after c1 t.reads t.incoming)
          (λ status c2 (ok, t2).
            subst (λ x. Delivers last c (after_data go_on conn next x c2)) (sym ok)
              (Post-map (λ e c'. (e ≡ received_all) × Took last c2 c')
                (λ e c'. (e ≡ received_all) × Took last c c') (λ c'. ⊥) (λ c'. ⊥)
                (λ e c3 (r, t3). (
                  r,
                  Took-trans after last c c2 c3 (Took-trans (part ++ after) after c c1 c2 t t2) t3,
                ))
                (λ c' b. b) _ (k c2 t2)))
          (λ c' b. b))

  receive_round :
      All GivesBytes c.reads
      → c.incoming ≡ data_packet conn.session_id s.curr_packet_id part ++ after
      → ((c1 c2 : Connection) → Took after c1 c2 → Delivers last c2 (go_on next c2))
      → Delivers last c (
          (tcp_get_data_metainfo conn.session_id s.curr_packet_id >>= after_metainfo go_on conn s)
            c)
  receive_round h e k =
      Post-bind
        (λ r c'.
          (r ≡ (Status.success, data_info_of conn.session_id s.curr_packet_id (length part)))
          × Took (part ++ after) c c')
        _ (λ c'. ⊥) (λ c'. ⊥) (tcp_get_data_metainfo conn.session_id s.curr_packet_id)
        (after_metainfo go_on conn s) c
        (tcp_get_data_metainfo-Took conn.session_id s.curr_packet_id (length part) (part ++ after) c
          h session number small
          (e ∙ sym (data_header-append conn.session_id s.curr_packet_id part after)))
        (λ r c1 (ok, t).
          subst (λ x. Delivers last c (after_metainfo go_on conn s x c1)) (sym ok)
            (data_round c1 t (k c1)))
        (λ c' b. b)

pub tcp_receive_loop-Delivers :
    (payloads : List (List ℕ)) (fuel : ℕ) (conn : Conn) (s : TcpProgress) (c : Connection)
    (last : List ℕ)
    → All GivesBytes c.reads
    → c.incoming ≡ data_stream conn.session_id s.curr_packet_id payloads ++ last
    → All IsPayload payloads
    → conn.session_id < 2 ^ 64
    → conn.nbr_of_bytes_to_be_sent < 2 ^ 64
    → s.nbr_of_bytes_received + total payloads ≡ conn.nbr_of_bytes_to_be_sent
    → s.curr_packet_id ≤ s.nbr_of_bytes_received
    → length payloads < fuel
    → Delivers last c (tcp_receive_loop fuel conn s c)
unfolding tcp_receive_loop
tcp_receive_loop-Delivers payloads zero conn s c last h e sizes hs hn size number f =
    absurd (omega arith)
tcp_receive_loop-Delivers [] (suc fuel) conn s c last h e sizes hs hn size number f =
    let all : ltb s.nbr_of_bytes_received conn.nbr_of_bytes_to_be_sent ≡ false = ground arith in
    rw all (refl, record { incoming = e; reads = h; writes = refl; outgoing = refl; closed = refl })
tcp_receive_loop-Delivers (p ∷ ps) (suc fuel) conn s c last h e (l, sizes) hs hn size number f =
    let more : ltb s.nbr_of_bytes_received conn.nbr_of_bytes_to_be_sent ≡ true = ground arith in
    let after = data_stream conn.session_id (s.curr_packet_id + 1) ps ++ last in
    let count : u64 (s.nbr_of_bytes_received + length p) ≡ s.nbr_of_bytes_received + length p =
      omega (arith, size, hn) in
    let id : u64 (s.curr_packet_id + 1) ≡ s.curr_packet_id + 1 =
      omega (arith, size, hn, number, l) in
    rw more (
      receive_round conn s c (λ s' c'. tcp_receive_loop fuel conn s' c') p after last hs
        (omega (arith, size, hn, number)) l.1 (omega (arith, size)) hn h
        (e
          ∙ append_assoc (data_packet conn.session_id s.curr_packet_id p)
              (data_stream conn.session_id (s.curr_packet_id + 1) ps) last)
        (λ c1 c2 t.
          tcp_receive_loop-Delivers ps fuel conn
            (record {
              nbr_of_bytes_received = u64 (s.nbr_of_bytes_received + length p);
              curr_packet_id = u64 (s.curr_packet_id + 1);
            })
            c2 last t.reads
            (t.incoming ∙ ap (λ k. data_stream conn.session_id k ps ++ last) (sym id)) sizes hs hn
            (omega (arith, size, count)) (omega (arith, number, count, id, l)) (omega arith)))

pub length-le-data_stream :
    (session id : ℕ) (ps : List (List ℕ)) → length ps ≤ length (data_stream session id ps)
length-le-data_stream session id [] = omega arith
length-le-data_stream session id (p ∷ ps) = omega (
  arith,
  length-append (data_packet session id p) (data_stream session (id + 1) ps),
  length-le-data_stream session (id + 1) ps,
)
