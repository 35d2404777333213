-- ===== src/UdpServer/Accept.antt =====
-- Which datagrams `check_if_correct_DATA_packet` accepts: the DATA packets of the protocol's format
-- with the session, the number and a size that are allowed, byte for byte, and no others.
use si_k_1projekt_tcp_udp.Common.{
  ℕ, ◌+◌, ◌^◌, ◌≤◌, ◌<◌, ◌≡◌, ◌≢◌, sym, subst, ◌∙◌, ◌↔◌, List, ◌∷◌, ◌++◌, length, length-append,
  All, arith,
}
use si_k_1projekt_tcp_udp.Common.Bytes.{IsByte, be_bytes, length-be_bytes}
use si_k_1projekt_tcp_udp.Constants.{Status}
use si_k_1projekt_tcp_udp.Packets.{Conn, read_data_info}
use si_k_1projekt_tcp_udp.Packets.Wire.{data_packet}
use si_k_1projekt_tcp_udp.Packets.Reading.{
  read_data_info-data_packet, data_info_bytes, data_info_layout,
}
use si_k_1projekt_tcp_udp.UdpServer.Checks.{check_if_correct_data_packet}

pub length-data_packet :
    (session id : ℕ) (payload : List ℕ)
    → length (data_packet session id payload) ≡ 21 + length payload
length-data_packet session id payload = omega (
  arith,
  length-append (be_bytes 8 session) (be_bytes 8 id ++ (be_bytes 4 (length payload) ++ payload)),
  length-append (be_bytes 8 id) (be_bytes 4 (length payload) ++ payload),
  length-append (be_bytes 4 (length payload)) payload,
  length-be_bytes 8 session,
  length-be_bytes 8 id,
  length-be_bytes 4 (length payload),
)

-- The tests of the check, as equations.
success_tests :
    (stack buff : List ℕ) (conn : Conn) (id : ℕ)
    → (check_if_correct_data_packet stack buff conn id).0 ≡ Status.success
    → let d = read_data_info stack buff in
      (d.package_type_id ≡ 4)
      × (d.session_id ≡ conn.session_id)
      × (d.package_id ≡ id)
      × (d.nbr_of_bytes_in_packet ≤ 64000)
      × (length buff ≡ 21 + d.nbr_of_bytes_in_packet)
unfolding check_if_correct_data_packet
success_tests stack buff conn id h = ground arith

pub empty_fails :
    (stack : List ℕ) (conn : Conn) (id : ℕ) (buff : List ℕ)
    → length buff ≡ 0
    → (check_if_correct_data_packet stack buff conn id).0 ≢ Status.success
empty_fails stack conn id buff e h = omega (arith, (success_tests stack buff conn id h).4)

module _ (stack : List ℕ) (conn : Conn) (id : ℕ) where
  pub accepted_packet :
      (buff : List ℕ)
      → All IsByte buff
      → (check_if_correct_data_packet stack buff conn id).0 ≡ Status.success
      → (payload : List ℕ) × (buff ≡ data_packet conn.session_id id payload)
        × (length payload ≤ 64000)
        × ((check_if_correct_data_packet stack buff conn id).1.nbr_of_bytes_in_packet
            ≡ length payload)
  unfolding check_if_correct_data_packet
  accepted_packet buff bytes h =
      let (type, session, package_id, fits, size) = success_tests stack buff conn id h in
      let (payload, e, l) = data_info_bytes stack buff (omega arith) bytes in
      let n : (read_data_info stack buff).nbr_of_bytes_in_packet ≡ length payload = omega arith in
      let d : data_info_layout (read_data_info stack buff) payload
          ≡ data_packet conn.session_id id payload =
        (λ i.
          type i
          ∷ (be_bytes 8 (session i)
              ++ (be_bytes 8 (package_id i) ++ (be_bytes 4 (n i) ++ payload)))) in
      (payload, e ∙ d, omega arith, n)

  pub accepts_packet :
      (payload : List ℕ)
      → conn.session_id < 2 ^ 64
      → id < 2 ^ 64
      → length payload ≤ 64000
      → let c =
          check_if_correct_data_packet stack (data_packet conn.session_id id payload) conn id in
        (c.0 ≡ Status.success) × (c.1.nbr_of_bytes_in_packet ≡ length payload)
  unfolding check_if_correct_data_packet
  accepts_packet payload hs hi hp =
      let r = read_data_info-data_packet stack conn.session_id id payload hs hi (omega arith) in
      ground (arith, r, length-data_packet conn.session_id id payload)

  -- A received datagram passes the check exactly when it is, byte for byte, the DATA packet of the
  -- connection's session with the expected number and a payload of at most 64000 bytes; a payload
  -- of no bytes at all passes too.
  -- (The datagram is made of bytes, and the session and the number are below 2^64.)
  pub check_if_correct_data_packet_iff :
      (buff : List ℕ)
      → All IsByte buff
      → conn.session_id < 2 ^ 64
      → id < 2 ^ 64
      → ((check_if_correct_data_packet stack buff conn id).0 ≡ Status.success) ↔ (
          (payload : List ℕ) × (buff ≡ data_packet conn.session_id id payload)
          × (length payload ≤ 64000))
  check_if_correct_data_packet_iff buff bytes hs hi = (
    λ h. let (payload, e, l, n) = accepted_packet buff bytes h in (payload, e, l),
    λ (payload, e, l).
        subst (λ b. (check_if_correct_data_packet stack b conn id).0 ≡ Status.success) (sym e)
          (accepts_packet payload hs hi l).0,
  )
