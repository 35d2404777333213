-- ===== src/UdpServer/AcceptConn.antt =====
-- Which datagrams `check_if_correct_CONN` accepts.
use si_k_1projekt_tcp_udp.Common.{
  ℕ, ◌^◌, ◌<◌, ◌≡◌, sym, ap, subst, ◌∙◌, ◌↔◌, ◌⊎◌, List, ◌∷◌, ◌++◌, length, length-append, All,
  arith,
}
use si_k_1projekt_tcp_udp.Common.Bytes.{IsByte, byte_swap-lt, be_bytes, length-be_bytes}
use si_k_1projekt_tcp_udp.Constants.{Status}
use si_k_1projekt_tcp_udp.Packets.{read_conn, ntoh_conn}
use si_k_1projekt_tcp_udp.Packets.Wire.{conn_packet}
use si_k_1projekt_tcp_udp.Packets.Conns.{read_conn-conn_packet, conn_bytes_read}
use si_k_1projekt_tcp_udp.UdpServer.Checks.{check_if_correct_conn}

pub success_tests :
    (stack buff : List ℕ)
    → (check_if_correct_conn stack buff).0 ≡ Status.success
    → let c = read_conn stack buff in
      (length buff ≡ 18) × (c.package_type_id ≡ 1) × ((c.protocol_id ≡ 2) ⊎ (c.protocol_id ≡ 3))
unfolding check_if_correct_conn
success_tests stack buff h = ground arith

accepts_conn :
    (stack : List ℕ) (session protocol nbr : ℕ)
    → session < 2 ^ 64
    → nbr < 2 ^ 64
    → (protocol ≡ 2) ⊎ (protocol ≡ 3)
    → (check_if_correct_conn stack (conn_packet session protocol nbr)).0 ≡ Status.success
unfolding check_if_correct_conn
accepts_conn stack session protocol nbr hs hn p =
    let r = read_conn-conn_packet stack session protocol nbr hs hn in
    let l : length (conn_packet session protocol nbr) ≡ 18 = omega (
      arith,
      length-append (be_bytes 8 session) (protocol ∷ be_bytes 8 nbr),
      length-be_bytes 8 session,
      length-be_bytes 8 nbr,
    ) in
    ground (arith, r, l)

-- check_if_correct_CONN accepts a datagram exactly when the datagram is, byte for byte, a CONN
-- packet of the protocol for UDP or for UDP with retransmission, and the struct that it fills
-- holds the packet's numbers. (The datagram is made of bytes; the numbers that the packet is made
-- of are below 2^64.)
pub check_if_correct_conn_iff :
    (stack buff : List ℕ)
    → All IsByte buff
    → ((check_if_correct_conn stack buff).0 ≡ Status.success) ↔ (
        (session : ℕ) × (protocol : ℕ) × (nbr : ℕ) × (session < 2 ^ 64)
        × (nbr < 2 ^ 64)
        × ((protocol ≡ 2) ⊎ (protocol ≡ 3))
        × (buff ≡ conn_packet session protocol nbr)
        × ((check_if_correct_conn stack buff).1 ≡ record {
          package_type_id = 1;
          session_id = session;
          protocol_id = protocol;
          nbr_of_bytes_to_be_sent = nbr;
        }))
unfolding check_if_correct_conn ntoh_conn
check_if_correct_conn_iff stack buff bytes = (
  λ h.
      let (size, type, protocol) = success_tests stack buff h in
      let c = read_conn stack buff in
      (
        c.session_id,
        c.protocol_id,
        c.nbr_of_bytes_to_be_sent,
        byte_swap-lt 8 _,
        byte_swap-lt 8 _,
        protocol,
        conn_bytes_read stack buff size bytes
            ∙ ap
                (λ k.
                  k
                  ∷ (be_bytes 8 c.session_id
                      ++ c.protocol_id ∷ be_bytes 8 c.nbr_of_bytes_to_be_sent))
                type,
        (λ i. record {
          package_type_id = type i;
          session_id = c.session_id;
          protocol_id = c.protocol_id;
          nbr_of_bytes_to_be_sent = c.nbr_of_bytes_to_be_sent;
        }),
      ),
  λ (session, protocol, nbr, hs, hn, p, e, f).
      subst (λ l. (check_if_correct_conn stack l).0 ≡ Status.success) (sym e)
        (accepts_conn stack session protocol nbr hs hn p),
)
