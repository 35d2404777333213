-- ===== src/TcpClient/Pieces.antt =====
-- What TCP_client_send_DATA writes: DATA packets in a row, and what is left of the array.
use mathlib.Core.List.{flatten}
use si_k_1projekt_tcp_udp.Common.{
  ℕ, zero, suc, ◌+◌, ◌-◌, ◌^◌, ◌≤◌, ◌<◌, ◌≡◌, ◌≢◌, refl, sym, ap, ap₂, subst, ◌∙◌, inl, inr, List,
  [], ◌∷◌, ◌++◌, append_assoc, append-nil, true, false, ltb, ◌!=◌, Bool-cases, u32, take, take_all,
  drop, length, length-append, length-take, length-drop, length-zero, All, arith,
}
use si_k_1projekt_tcp_udp.Common.Bytes.{le_bytes, length-le_bytes}
use si_k_1projekt_tcp_udp.Constants.{Status}
use si_k_1projekt_tcp_udp.Packets.{Data, data_memory}
use si_k_1projekt_tcp_udp.Packets.Wire.{data_packet}
use si_k_1projekt_tcp_udp.MyVec.{MyVec}
use si_k_1projekt_tcp_udp.Stream.{Connection, done, M, ◌>>=◌, writen, writen_loop}
use si_k_1projekt_tcp_udp.Stream.Rules.{Post, Post-map}
use si_k_1projekt_tcp_udp.Client.{next_size}
use si_k_1projekt_tcp_udp.Client.Packing.{fill_data-data_packet}
use si_k_1projekt_tcp_udp.UdpClient.{Sending, udp_next_packet}
use si_k_1projekt_tcp_udp.UdpClient.Rounds.{
  next_size-≤, next_payload, rest, rest_split, Left, next_payload-rest, length-next_payload,
  next_number, Left-last, Left-full,
}
use si_k_1projekt_tcp_udp.TcpClient.{
  continue_with, send_data_wrapper, tcp_send_loop, tcp_client_send_data,
}
use si_k_1projekt_tcp_udp.TcpServer.Receiving.{data_stream}
use si_k_1projekt_tcp_udp.UdpServer.Accept.{length-data_packet}
use si_k_1projekt_tcp_udp.UdpServer.UdpDelivery.{IsPayload}

-- `bytes` was written in DATA packets numbered from `id`, and less than a packet's data behind
-- them.
pub record WrittenPieces (session id : ℕ) (bytes : List ℕ) (c : Connection) (status : Status)
    (c' : Connection) : Type 0 where
  pub payloads : List (List ℕ)
  pub padding : List ℕ
  pub returned : status ≡ Status.success
  pub sizes : All IsPayload payloads
  pub joined : flatten payloads ≡ bytes
  pub outgoing : c'.outgoing ≡ c.outgoing ++ (data_stream session id payloads ++ padding)
  pub small : length padding < 64000
  pub incoming : c'.incoming ≡ c.incoming
  pub reads : c'.reads ≡ c.reads
  pub closed : c'.closed ≡ c.closed

length-data_memory : (d : Data) → length (data_memory d) ≡ 21 + length d.seq_of_bytes
length-data_memory d = omega (
  arith,
  length-append (le_bytes 8 d.session_id)
      (le_bytes 8 d.package_id ++ (le_bytes 4 d.nbr_of_bytes_in_packet ++ d.seq_of_bytes)),
  length-append (le_bytes 8 d.package_id) (le_bytes 4 d.nbr_of_bytes_in_packet ++ d.seq_of_bytes),
  length-append (le_bytes 4 d.nbr_of_bytes_in_packet) d.seq_of_bytes,
  length-le_bytes 8 d.session_id,
  length-le_bytes 8 d.package_id,
  length-le_bytes 4 d.nbr_of_bytes_in_packet,
)

send_data_wrapper-all :
    (d : Data) (c : Connection)
    → c.writes ≡ []
    → length d.seq_of_bytes ≡ 64000
    → send_data_wrapper d c
      ≡ done Status.success (record c { outgoing = c.outgoing ++ data_memory d; writes = [] })
unfolding send_data_wrapper writen writen_loop
send_data_wrapper-all d c none size =
    rw (none, take_all 64021 (data_memory d) (omega (arith, size, length-data_memory d))) refl

continue_with-done :
    (m k : M Status) (c c' : Connection)
    → m c ≡ done Status.success c'
    → continue_with (m >>= continue_with k) Status.success c ≡ k c'
continue_with-done m k c c' e = rw (◌>>=◌, e) refl

module _ (vec : MyVec) (session : ℕ) where
  abbrev after_next : Sending → Connection → Connection
  after_next s c = record c {
    outgoing = c.outgoing ++ data_memory (udp_next_packet vec session s).0.packet;
    writes = [];
  }

  -- The memory of the struct that is written.
  next_memory :
      (s : Sending)
      → data_memory (udp_next_packet vec session s).0.packet
        ≡ data_packet session s.curr_package_id (next_payload vec session s)
          ++ drop (next_size s.bytes_left) s.packet.seq_of_bytes
  unfolding udp_next_packet
  next_memory s =
      (fill_data-data_packet s.packet vec session s.curr_package_id s.start_cpy_pos
        (next_size s.bytes_left) (next_size-≤ s.bytes_left)).0

  length-next_array :
      (s : Sending)
      → length s.packet.seq_of_bytes ≡ 64000
      → length (udp_next_packet vec session s).0.packet.seq_of_bytes ≡ 64000
  length-next_array s size = omega (
    arith,
    size,
    next_size-≤ s.bytes_left,
    length-data_memory (udp_next_packet vec session s).0.packet,
    ap length (next_memory s),
    length-append (data_packet session s.curr_package_id (next_payload vec session s))
        (drop (next_size s.bytes_left) s.packet.seq_of_bytes),
    length-data_packet session s.curr_package_id (next_payload vec session s),
    length-next_payload vec session s,
    length-drop (next_size s.bytes_left) s.packet.seq_of_bytes,
  )

  send_loop_step :
      (fuel : ℕ) (s : Sending) (c : Connection)
      → c.writes ≡ []
      → length s.packet.seq_of_bytes ≡ 64000
      → (s.bytes_sent != vec.occupied_size) ≡ true
      → tcp_send_loop (suc fuel) vec session s c
        ≡ tcp_send_loop fuel vec session (udp_next_packet vec session s).0 (after_next s c)
  unfolding tcp_send_loop udp_next_packet
  send_loop_step fuel s c none size more =
      rw
        (
          more,
          (fill_data-data_packet s.packet vec session s.curr_package_id s.start_cpy_pos
              (next_size s.bytes_left) (next_size-≤ s.bytes_left)).1,
        )
        (continue_with-done (send_data_wrapper (udp_next_packet vec session s).0.packet)
          (tcp_send_loop fuel vec session (udp_next_packet vec session s).0) c (after_next s c)
          (send_data_wrapper-all (udp_next_packet vec session s).0.packet c none
            (length-next_array s size)))

  send_loop_end :
      (fuel : ℕ) (s : Sending) (c : Connection)
      → s.bytes_sent ≡ vec.occupied_size
      → tcp_send_loop (suc fuel) vec session s c ≡ done Status.success c
  unfolding tcp_send_loop
  send_loop_end fuel s c e =
      let all : (s.bytes_sent != vec.occupied_size) ≡ false = ground arith in rw all refl

  -- The last packet, and what is left of the array.
  last_piece :
      (fuel left start : ℕ) (s : Sending) (c : Connection)
      → vec.occupied_size < 2 ^ 32
      → 0 < left
      → left < 64000
      → c.writes ≡ []
      → length s.packet.seq_of_bytes ≡ 64000
      → (s.bytes_sent != vec.occupied_size) ≡ true
      → Left vec session s (left + 0) start
      → Post
          (WrittenPieces session s.curr_package_id (rest vec session left start) c)
          (λ c'. ⊥)
          (tcp_send_loop (suc (suc fuel)) vec session s c)
  unfolding flatten
  last_piece fuel left start s c small some_left few none size more l =
      let (en, after) = Left-last vec session left start s small some_left few l in
      let payload = next_payload-rest vec session left 0 start s l en in
      let n = length-next_payload vec session s in
      subst
        (Post (WrittenPieces session s.curr_package_id (rest vec session left start) c) (λ c'. ⊥))
        (sym (
          send_loop_step (suc fuel) s c none size more
          ∙ send_loop_end fuel (udp_next_packet vec session s).0 (after_next s c)
              (omega (arith, after.count_ok))))
        (record {
          payloads = next_payload vec session s ∷ [];
          padding = drop (next_size s.bytes_left) s.packet.seq_of_bytes;
          returned = refl;
          sizes = ((omega (arith, n, en, some_left), omega (arith, n, en, few)), tt);
          joined = append-nil (next_payload vec session s) ∙ payload;
          outgoing = ap (◌++◌ c.outgoing) (
              next_memory s
              ∙ ap (λ l. l ++ drop (next_size s.bytes_left) s.packet.seq_of_bytes)
                  (sym (
                    append-nil
                      (data_packet session s.curr_package_id (next_payload vec session s)))));
          small = omega (
            arith,
            length-drop (next_size s.bytes_left) s.packet.seq_of_bytes,
            size,
            en,
            some_left,
          );
          incoming = refl;
          reads = refl;
          closed = refl;
        })

  -- A full packet before the rest.
  full_piece :
      (fuel m start : ℕ) (s : Sending) (c : Connection)
      → vec.occupied_size < 2 ^ 32
      → c.writes ≡ []
      → length s.packet.seq_of_bytes ≡ 64000
      → (s.bytes_sent != vec.occupied_size) ≡ true
      → Left vec session s (64000 + m) start
      → Post
          (WrittenPieces session
            (udp_next_packet vec session s).0.curr_package_id
            (rest vec session m (start + 64000))
            (after_next s c))
          (λ c'. ⊥)
          (tcp_send_loop fuel vec session (udp_next_packet vec session s).0 (after_next s c))
      → Post
          (WrittenPieces session s.curr_package_id (rest vec session (64000 + m) start) c)
          (λ c'. ⊥)
          (tcp_send_loop (suc fuel) vec session s c)
  unfolding flatten
  full_piece fuel m start s c small none size more l h =
      let (en, after) = Left-full vec session m start s small l in
      let payload = next_payload-rest vec session 64000 m start s l en in
      let n = length-next_payload vec session s in
      let next = next_number vec session s (64000 + m) start small l in
      let whole : drop (next_size s.bytes_left) s.packet.seq_of_bytes ≡ [] =
        length-zero (drop (next_size s.bytes_left) s.packet.seq_of_bytes)
          (omega (arith, length-drop (next_size s.bytes_left) s.packet.seq_of_bytes, size, en)) in
      let this = data_packet session s.curr_package_id (next_payload vec session s) in
      subst
        (Post (WrittenPieces session s.curr_package_id (rest vec session (64000 + m) start) c)
          (λ c'. ⊥))
        (sym (send_loop_step fuel s c none size more))
        (Post-map
          (WrittenPieces session (udp_next_packet vec session s).0.curr_package_id
            (rest vec session m (start + 64000)) (after_next s c))
          _ (λ c'. ⊥) (λ c'. ⊥)
          (λ status c' k.
            let later = data_stream session (s.curr_package_id + 1) k.payloads in
            record {
              payloads = next_payload vec session s ∷ k.payloads;
              padding = k.padding;
              returned = k.returned;
              sizes = ((omega (arith, n, en), omega (arith, n, en)), k.sizes);
              joined = ap₂ ◌++◌ payload k.joined ∙ sym (rest_split vec session 64000 m start);
              outgoing =
                  k.outgoing
                  ∙ ap
                      (λ x.
                        (c.outgoing ++ x)
                        ++ (data_stream session (udp_next_packet vec session s).0.curr_package_id
                              k.payloads
                            ++ k.padding))
                      (next_memory s ∙ ap (◌++◌ this) whole ∙ append-nil this)
                  ∙ ap
                      (λ i. (c.outgoing ++ this) ++ (data_stream session i k.payloads ++ k.padding))
                      next
                  ∙ append_assoc c.outgoing this (later ++ k.padding)
                  ∙ ap (◌++◌ c.outgoing) (sym (append_assoc this later k.padding));
              small = k.small;
              incoming = k.incoming;
              reads = k.reads;
              closed = k.closed;
            })
          (λ c' b. b) _ h)

  no_piece :
      (fuel left start : ℕ) (s : Sending) (c : Connection)
      → left ≡ 0
      → Left vec session s left start
      → Post
          (WrittenPieces session s.curr_package_id (rest vec session left start) c)
          (λ c'. ⊥)
          (tcp_send_loop (suc fuel) vec session s c)
  unfolding flatten
  no_piece fuel left start s c z l =
      subst
        (Post (WrittenPieces session s.curr_package_id (rest vec session left start) c) (λ c'. ⊥))
        (sym (send_loop_end fuel s c (omega (arith, z, l.count_ok))))
        (record {
          payloads = [];
          padding = [];
          returned = refl;
          sizes = tt;
          joined = ap (λ k. rest vec session k start) (sym z);
          outgoing = sym (append-nil c.outgoing);
          small = omega arith;
          incoming = refl;
          reads = refl;
          closed = refl;
        })

  tcp_send_loop-WrittenPieces :
      (fuel left start : ℕ) (s : Sending) (c : Connection)
      → vec.occupied_size < 2 ^ 32
      → left < fuel
      → c.writes ≡ []
      → length s.packet.seq_of_bytes ≡ 64000
      → Left vec session s left start
      → Post
          (WrittenPieces session s.curr_package_id (rest vec session left start) c)
          (λ c'. ⊥)
          (tcp_send_loop fuel vec session s c)
  tcp_send_loop-WrittenPieces zero left start s c small f none size l = absurd (omega arith)
  tcp_send_loop-WrittenPieces (suc zero) left start s c small f none size l =
      no_piece zero left start s c (omega arith) l
  tcp_send_loop-WrittenPieces (suc (suc fuel)) left start s c small f none size l =
      elim (Bool-cases (s.bytes_sent != vec.occupied_size)) [
        | inr all ↦ no_piece (suc fuel) left start s c (ground (arith, l.count_ok)) l
        | inl more ↦
            let some_left : 0 < left = ground (arith, l.count_ok) in
            elim (Bool-cases (ltb left 64000)) [
              | inl last ↦
                  let e : left ≡ left + 0 = omega arith in
                  last_piece fuel left start s c small some_left (ground arith) none size more
                    (subst (λ k. Left vec session s k start) e l)
              | inr full ↦
                  let e : 64000 + (left - 64000) ≡ left = ground arith in
                  let l' = subst (λ k. Left vec session s k start) (sym e) l in
                  let (en, after) = Left-full vec session (left - 64000) start s small l' in
                  subst
                    (λ k.
                      Post (WrittenPieces session s.curr_package_id (rest vec session k start) c)
                        (λ c'. ⊥) (tcp_send_loop (suc (suc fuel)) vec session s c))
                    e
                    (full_piece (suc fuel) (left - 64000) start s c small none size more l' (
                      tcp_send_loop-WrittenPieces (suc fuel) (left - 64000) (start + 64000)
                        (udp_next_packet vec session s).0 (after_next s c) small (omega (arith, e))
                        refl (length-next_array s size) after))
            ]
      ]

pub tcp_client_send_data-WrittenPieces :
    (vec : MyVec) (session : ℕ) (uninitialised : Data) (c : Connection)
    → c.writes ≡ []
    → length uninitialised.seq_of_bytes ≡ 64000
    → vec.occupied_size < 2 ^ 32
    → vec.occupied_size ≤ length vec.buff
    → All (λ x. x ≢ 0) (take vec.occupied_size vec.buff)
    → Post
        (WrittenPieces session 0 (take vec.occupied_size vec.buff) c)
        (λ c'. ⊥)
        (tcp_client_send_data vec session uninitialised c)
unfolding tcp_client_send_data
tcp_client_send_data-WrittenPieces vec session uninitialised c none size small inside chars =
    tcp_send_loop-WrittenPieces vec session (suc vec.occupied_size) vec.occupied_size 0
      (record {
        bytes_left = u32 vec.occupied_size;
        bytes_sent = 0;
        start_cpy_pos = 0;
        curr_package_id = 0;
        packet = uninitialised;
      })
      c small (omega arith) none size
      (record {
        left_ok = omega arith;
        start_ok = refl;
        count_ok = omega arith;
        number_ok = omega arith;
        position_ok = omega arith;
        all_there = omega (arith, length-take vec.occupied_size vec.buff);
        no_nul = chars;
      })
