-- ===== src/UdpClient/Rounds.antt =====
-- The rounds in which UDP_client_send_DATA and TCP_client_send_DATA cut the data.
use si_k_1projekt_tcp_udp.Common.{
  ℕ, ◌+◌, ◌^◌, ◌≤◌, ◌<◌, ◌≡◌, ◌≢◌, refl, ap, subst, ◌∙◌, List, ◌++◌, ltb, if◌then◌else◌, u32, u64,
  sub32, take, drop, length, length-append, length-take, All, arith,
}
use si_k_1projekt_tcp_udp.Packets.{str_pad}
use si_k_1projekt_tcp_udp.MyVec.{MyVec}
use si_k_1projekt_tcp_udp.Client.{next_size}
use si_k_1projekt_tcp_udp.Client.Packing.{length-str_pad, str_pad-take}
use si_k_1projekt_tcp_udp.UdpClient.{Sending, udp_next_packet}
use si_k_1projekt_tcp_udp.UdpClient.Cutting.{take_split, drop-drop, All-left, All-right}

pub next_size-≤ : (left : ℕ) → next_size left ≤ 64000
next_size-≤ left = ground arith

module _ (vec : MyVec) (session : ℕ) where
  abbrev pub next_payload : Sending → List ℕ
  next_payload s = str_pad (next_size s.bytes_left) (drop s.start_cpy_pos vec.buff)

  abbrev pub rest : ℕ → ℕ → List ℕ
  rest left start = take left (drop start vec.buff)

  pub rest_split : (n m start : ℕ) → rest (n + m) start ≡ rest n start ++ rest m (start + n)
  rest_split n m start =
      take_split n m (drop start vec.buff)
      ∙ ap (λ l. rest n start ++ take m l) (drop-drop start n vec.buff)

  -- What the loop has left to send, before a round and after it.
  pub record Left (s : Sending) (left start : ℕ) : Type 0 where
    pub left_ok : s.bytes_left ≡ left
    pub start_ok : s.start_cpy_pos ≡ start
    pub count_ok : s.bytes_sent + left ≡ vec.occupied_size
    pub number_ok : s.curr_package_id ≤ s.bytes_sent
    pub position_ok : start ≤ s.bytes_sent
    pub all_there : length (rest left start) ≡ left
    pub no_nul : All (λ x. x ≢ 0) (rest left start)

  -- Without a NUL, the bytes copied are those of the vector.
  pub next_payload-rest :
      (n m start : ℕ) (s : Sending)
      → Left s (n + m) start
      → next_size s.bytes_left ≡ n
      → next_payload s ≡ rest n start
  next_payload-rest n m start s l en =
      (λ i. str_pad (en i) (drop (l.start_ok i) vec.buff))
      ∙ str_pad-take n (drop start vec.buff)
          (omega (arith, l.all_there, length-take (n + m) (drop start vec.buff)))
          (All-left (λ x. x ≢ 0) (rest n start) (rest m (start + n))
            (subst (All (λ x. x ≢ 0)) (rest_split n m start) l.no_nul))

  pub length-next_payload : (s : Sending) → length (next_payload s) ≡ next_size s.bytes_left
  length-next_payload s = length-str_pad (next_size s.bytes_left) (drop s.start_cpy_pos vec.buff)

  Left-next :
      (n m start start' : ℕ) (s : Sending)
      → vec.occupied_size < 2 ^ 32
      → Left s (n + m) start
      → next_size s.bytes_left ≡ n
      → ((if ltb s.bytes_left 64000 then s.start_cpy_pos else u64 (s.start_cpy_pos + 64000))
          ≡ start')
      → start' ≤ s.bytes_sent + n
      → 0 < n
      → length (rest m start') ≡ m
      → All (λ x. x ≢ 0) (rest m start')
      → Left (udp_next_packet vec session s).0 m start'
  unfolding udp_next_packet
  Left-next n m start start' s small l en es position positive there chars =
      let e : sub32 s.bytes_left (next_size s.bytes_left) ≡ m =
        ap (λ k. sub32 s.bytes_left k) en ∙ omega (arith, l.left_ok, l.count_ok) in
      let f : u32 (s.bytes_sent + next_size s.bytes_left) ≡ s.bytes_sent + n =
        ap (λ k. u32 (s.bytes_sent + k)) en ∙ omega (arith, l.count_ok) in
      record {
        left_ok = e;
        start_ok = es;
        count_ok = omega (arith, f, l.count_ok);
        number_ok = omega (arith, f, l.number_ok, l.count_ok);
        position_ok = omega (arith, f);
        all_there = there;
        no_nul = chars;
      }

  pub next_number :
      (s : Sending) (left start : ℕ)
      → vec.occupied_size < 2 ^ 32
      → Left s left start
      → (udp_next_packet vec session s).0.curr_package_id ≡ s.curr_package_id + 1
  unfolding udp_next_packet
  next_number s left start small l = omega (arith, l.number_ok, l.count_ok)

  -- The last packet, of fewer than 64000 bytes.
  pub Left-last :
      (left start : ℕ) (s : Sending)
      → vec.occupied_size < 2 ^ 32
      → 0 < left
      → left < 64000
      → Left s (left + 0) start
      → (next_size s.bytes_left ≡ left) × Left (udp_next_packet vec session s).0 0 start
  Left-last left start s small some_left few l =
      let en : next_size s.bytes_left ≡ left = ground (arith, l.left_ok) in
      (
        en,
        Left-next left 0 start start s small l en (ground (arith, l.left_ok, l.start_ok))
            (omega (arith, l.position_ok)) some_left refl tt,
      )

  -- A full packet.
  pub Left-full :
      (m start : ℕ) (s : Sending)
      → vec.occupied_size < 2 ^ 32
      → Left s (64000 + m) start
      → (next_size s.bytes_left ≡ 64000) × Left (udp_next_packet vec session s).0 m (start + 64000)
  Left-full m start s small l =
      let en : next_size s.bytes_left ≡ 64000 = ground (arith, l.left_ok) in
      let halves = rest_split 64000 m start in
      (
        en,
        Left-next 64000 m start (start + 64000) s small l en
            (ground (arith, l.left_ok, l.start_ok, l.position_ok, l.count_ok))
            (omega (arith, l.position_ok)) (omega arith)
            (omega (
              arith,
              l.all_there,
              ap length halves,
              length-append (rest 64000 start) (rest m (start + 64000)),
              length-take 64000 (drop start vec.buff),
              length-take m (drop (start + 64000) vec.buff),
            ))
            (All-right (λ x. x ≢ 0) (rest 64000 start) (rest m (start + 64000))
              (subst (All (λ x. x ≢ 0)) halves l.no_nul)),
      )
