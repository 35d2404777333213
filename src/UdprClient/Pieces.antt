-- ===== src/UdprClient/Pieces.antt =====
-- The pieces that UPDR's packets carry, and a round of UDPR_client_send_DATA before `recvfrom`.
use si_k_1projekt_tcp_udp.Common.{
  ℕ, zero, suc, ◌+◌, ◌-◌, ◌*◌, ◌^◌, ◌≤◌, ◌<◌, ◌≡◌, ◌≢◌, refl, sym, ap, subst, ◌∙◌, inl, inr, List,
  [], ◌∷◌, ltb, Bool-cases, take, take_all, drop, length, length-take, length-drop,
  take-append_left, drop-append_left, All, take-All, drop-All, arith,
}
use si_k_1projekt_tcp_udp.Common.Bytes.{byte_swap}
use si_k_1projekt_tcp_udp.Packets.{Data, data_memory, str_pad}
use si_k_1projekt_tcp_udp.Packets.Wire.{data_packet}
use si_k_1projekt_tcp_udp.MyVec.{MyVec}
use si_k_1projekt_tcp_udp.Client.{fill_data, next_size}
use si_k_1projekt_tcp_udp.Client.Packing.{
  fill_data-data_packet, fill_data-size, length-str_pad, str_pad-take,
}
use si_k_1projekt_tcp_udp.Constants.{Status}
use si_k_1projekt_tcp_udp.UdpClient.Cutting.{take_split}
use si_k_1projekt_tcp_udp.UdpClient.Rounds.{next_size-≤}
use si_k_1projekt_tcp_udp.UdpServer.Accept.{length-data_packet}
use si_k_1projekt_tcp_udp.UdprClient.Transfer.{UdprSending, next_piece}

-- The bytes that packet `i` carries.
abbrev pub piece : List ℕ → ℕ → List ℕ
piece bytes i = take 64000 (drop (64000 * i) bytes)

take-take_less : (n m : ℕ) (xs : List ℕ) → n ≤ m → take n (take m xs) ≡ take n xs
take-take_less zero m xs h = refl
take-take_less (suc n) zero xs h = absurd (omega arith)
take-take_less (suc n) (suc m) [] h = refl
take-take_less (suc n) (suc m) (x ∷ xs) h = ap (◌∷◌ x) (take-take_less n m xs (omega arith))

-- The contents of the vector.
abbrev pub data_of : MyVec → List ℕ
data_of vec = take vec.occupied_size vec.buff

module _ (vec : MyVec) (session : ℕ) where
  -- Where the loop stands, at the head of a round.
  pub record Due (s : UdprSending) : Type 0 where
    pub total_ok : s.bytes_sent + s.bytes_left ≡ vec.occupied_size
    pub start_ok : s.start_cpy_pos ≡ s.bytes_sent
    pub number_ok : s.curr_package_id ≤ s.bytes_sent
    pub end_ok : s.bytes_sent ≤ 64000 * s.curr_package_id
    pub piece_ok : s.bytes_sent < vec.occupied_size → s.bytes_sent ≡ 64000 * s.curr_package_id

  pub next_piece-Due :
      (s : UdprSending)
      → vec.occupied_size < 2 ^ 32
      → s.bytes_sent < vec.occupied_size
      → Due s
      → Due (next_piece s)
  unfolding next_piece
  next_piece-Due s small more d = elim (Bool-cases (ltb s.bytes_left 64000)) [
    | inl last ↦
        let e : next_size s.bytes_left ≡ s.bytes_left = ground arith in
        let last_few : s.bytes_left < 64000 = ground arith in
        record {
          total_ok = omega (arith, e, d.total_ok);
          start_ok = omega (arith, e, d.total_ok, d.start_ok);
          number_ok = omega (arith, e, d.total_ok, d.number_ok);
          end_ok = omega (arith, e, d.total_ok, d.number_ok, d.end_ok, last_few);
          piece_ok = λ h. absurd (omega (arith, e, h, d.total_ok));
        }
    | inr full ↦
        let e : next_size s.bytes_left ≡ 64000 = ground arith in
        let f : 64000 ≤ s.bytes_left = ground arith in
        record {
          total_ok = omega (arith, e, f, d.total_ok);
          start_ok = omega (arith, e, f, d.total_ok, d.start_ok);
          number_ok = omega (arith, e, f, d.total_ok, d.number_ok);
          end_ok = omega (arith, e, f, d.total_ok, d.number_ok, d.end_ok);
          piece_ok = λ h. omega (arith, e, f, d.total_ok, d.number_ok, d.piece_ok more);
        }
  ]

  -- The number of the next packet, and how many pieces are left at most.
  pub next_piece_lem :
      (n : ℕ) (s : UdprSending)
      → vec.occupied_size < 2 ^ 32
      → s.bytes_sent < vec.occupied_size
      → vec.occupied_size ≤ s.bytes_sent + 64000 * n
      → Due s
      → ((next_piece s).curr_package_id ≡ s.curr_package_id + 1)
        × (vec.occupied_size ≤ (next_piece s).bytes_sent + 64000 * (n - 1))
        × (0 < n)
  unfolding next_piece
  next_piece_lem n s small more h d = (
    omega (arith, d.total_ok, d.number_ok),
    elim (Bool-cases (ltb s.bytes_left 64000)) [
      | inl last ↦
          let e : next_size s.bytes_left ≡ s.bytes_left = ground arith in
          omega (arith, e, d.total_ok)
      | inr full ↦
          let e : next_size s.bytes_left ≡ 64000 = ground arith in
          let f : 64000 ≤ s.bytes_left = ground arith in omega (arith, e, f, d.total_ok, h)
    ],
    omega (arith, h),
  )

  pub Due-with :
      (s : UdprSending) (counted : ℕ) (packet : Data)
      → Due s
      → Due (record s { nbr_of_retransmits = counted; packet = packet })
  Due-with s counted packet d = record {
    total_ok = d.total_ok;
    start_ok = d.start_ok;
    number_ok = d.number_ok;
    end_ok = d.end_ok;
    piece_ok = d.piece_ok;
  }

  -- From a position inside the vector, the data that is left.
  drop-data_of :
      (start left : ℕ)
      → start + left ≡ vec.occupied_size
      → vec.occupied_size ≤ length vec.buff
      → drop start (data_of vec) ≡ take left (drop start vec.buff)
  drop-data_of start left e inside =
      ap (λ n. drop start (take n vec.buff)) (sym e)
      ∙ ap (drop start) (take_split start left vec.buff)
      ∙ drop-append_left start (take start vec.buff) _ (omega (arith, length-take start vec.buff))

  next-piece :
      (s : UdprSending)
      → vec.occupied_size ≤ length vec.buff
      → s.bytes_sent < vec.occupied_size
      → Due s
      → take (next_size s.bytes_left) (drop s.start_cpy_pos vec.buff)
        ≡ piece (data_of vec) s.curr_package_id
  next-piece s inside more d =
      let e : drop (64000 * s.curr_package_id) (data_of vec)
          ≡ take s.bytes_left (drop s.start_cpy_pos vec.buff) =
        ap (λ k. drop k (data_of vec)) (sym (d.start_ok ∙ d.piece_ok more))
        ∙ drop-data_of s.start_cpy_pos s.bytes_left (omega (arith, d.start_ok, d.total_ok))
            inside in
      let n = length-take s.bytes_left (drop s.start_cpy_pos vec.buff) in
      elim (Bool-cases (ltb s.bytes_left 64000)) [
        | inl last ↦
            let size : next_size s.bytes_left ≡ s.bytes_left = ground arith in
            ap (λ k. take k (drop s.start_cpy_pos vec.buff)) size
            ∙ sym (ap (take 64000) e ∙ take_all 64000 _ (ground (arith, n)))
        | inr full ↦
            let size : next_size s.bytes_left ≡ 64000 = ground arith in
            ap (λ k. take k (drop s.start_cpy_pos vec.buff)) size
            ∙ sym (ap (take 64000) e ∙ take-take_less 64000 s.bytes_left _ (ground arith))
      ]

  -- What strncpy takes for the packet is its piece.
  payload-piece :
      (s : UdprSending)
      → vec.occupied_size ≤ length vec.buff
      → All (λ x. x ≢ 0) (data_of vec)
      → s.bytes_sent < vec.occupied_size
      → Due s
      → str_pad (next_size s.bytes_left) (drop s.start_cpy_pos vec.buff)
        ≡ piece (data_of vec) s.curr_package_id
  payload-piece s inside chars more d =
      let e = next-piece s inside more d in
      str_pad-take (next_size s.bytes_left) (drop s.start_cpy_pos vec.buff)
        (ground (arith, length-drop s.start_cpy_pos vec.buff, d.start_ok, d.total_ok))
        (subst (All (λ x. x ≢ 0)) (sym e) (
          take-All (λ x. x ≢ 0) 64000 _
            (drop-All (λ x. x ≢ 0) (64000 * s.curr_package_id) (data_of vec) chars)))
      ∙ e

  -- The bytes of the struct that are sent, and that filling it succeeds.
  pub sent_bytes :
      (s : UdprSending)
      → vec.occupied_size ≤ length vec.buff
      → All (λ x. x ≢ 0) (data_of vec)
      → s.bytes_sent < vec.occupied_size
      → Due s
      → let filled =
          fill_data s.packet vec session s.curr_package_id s.start_cpy_pos
            (next_size s.bytes_left) in
        (take (21 + byte_swap 4 filled.0.nbr_of_bytes_in_packet) (data_memory filled.0)
          ≡ data_packet session s.curr_package_id (piece (data_of vec) s.curr_package_id))
        × (filled.1 ≡ Status.success)
  sent_bytes s inside chars more d =
      let n = next_size s.bytes_left in
      let payload = str_pad n (drop s.start_cpy_pos vec.buff) in
      let (memory, ok) =
        fill_data-data_packet s.packet vec session s.curr_package_id s.start_cpy_pos n
          (next_size-≤ s.bytes_left) in
      (
        (λ i.
              take
                (21
                  + fill_data-size s.packet vec session s.curr_package_id s.start_cpy_pos n
                      (next_size-≤ s.bytes_left) i)
                (memory i))
            ∙ take-append_left (21 + n) (data_packet session s.curr_package_id payload) _ (
                length-data_packet session s.curr_package_id payload
                ∙ ap (λ k. 21 + k) (length-str_pad n (drop s.start_cpy_pos vec.buff)))
            ∙ ap (data_packet session s.curr_package_id) (payload-piece s inside chars more d),
        ok,
      )
