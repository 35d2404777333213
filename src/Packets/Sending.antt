-- ===== src/Packets/Sending.antt =====
-- The bytes that the filled structs put on the wire are the protocol's packets.
use si_k_1projekt_tcp_udp.Common.{
  ℕ, ◌≡◌, ap, ap₂, ◌∙◌, ◌∷◌, ◌++◌, arith, take, take_all, length-append,
}
use si_k_1projekt_tcp_udp.Common.Bytes.{be_bytes, length-be_bytes, le_bytes-byte_swap}
use si_k_1projekt_tcp_udp.Packets.{
  conn_memory, conacc_memory, conrjt_memory, acc_memory, rjt_memory, rcvd_memory, init_conn,
  init_conacc, init_conrjt, init_acc, init_rjt, init_rcvd, sizeof_conn, sizeof_conacc,
  sizeof_conrjt, sizeof_acc, sizeof_rjt, sizeof_rcvd,
}
use si_k_1projekt_tcp_udp.Packets.Wire.{short_packet, numbered_packet, conn_packet}

take_short : (type session : ℕ) → take 9 (short_packet type session) ≡ short_packet type session
take_short type session =
    take_all 9 (short_packet type session) (omega (arith, length-be_bytes 8 session))

take_numbered :
    (type session id : ℕ)
    → take 17 (numbered_packet type session id) ≡ numbered_packet type session id
take_numbered type session id = take_all 17 (numbered_packet type session id) (
    omega (
      arith,
      length-append (be_bytes 8 session) (be_bytes 8 id),
      length-be_bytes 8 session,
      length-be_bytes 8 id,
    ))

pub rcvd_bytes :
    (session : ℕ) → take sizeof_rcvd (rcvd_memory (init_rcvd session)) ≡ short_packet 7 session
unfolding init_rcvd
rcvd_bytes session = ap (λ l. take 9 (7 ∷ l)) (le_bytes-byte_swap 8 session) ∙ take_short 7 session

pub conacc_bytes :
    (session : ℕ)
    → take sizeof_conacc (conacc_memory (init_conacc session)) ≡ short_packet 2 session
unfolding init_conacc
conacc_bytes session =
    ap (λ l. take 9 (2 ∷ l)) (le_bytes-byte_swap 8 session) ∙ take_short 2 session

pub conrjt_bytes :
    (session : ℕ)
    → take sizeof_conrjt (conrjt_memory (init_conrjt session)) ≡ short_packet 3 session
unfolding init_conrjt
conrjt_bytes session =
    ap (λ l. take 9 (3 ∷ l)) (le_bytes-byte_swap 8 session) ∙ take_short 3 session

pub acc_bytes :
    (session id : ℕ)
    → take sizeof_acc (acc_memory (init_acc session id)) ≡ numbered_packet 5 session id
unfolding init_acc
acc_bytes session id =
    ap₂ (λ l m. take 17 (5 ∷ (l ++ m))) (le_bytes-byte_swap 8 session) (le_bytes-byte_swap 8 id)
    ∙ take_numbered 5 session id

pub rjt_bytes :
    (session id : ℕ)
    → take sizeof_rjt (rjt_memory (init_rjt session id)) ≡ numbered_packet 6 session id
unfolding init_rjt
rjt_bytes session id =
    ap₂ (λ l m. take 17 (6 ∷ (l ++ m))) (le_bytes-byte_swap 8 session) (le_bytes-byte_swap 8 id)
    ∙ take_numbered 6 session id

pub conn_bytes :
    (session protocol nbr : ℕ)
    → take sizeof_conn (conn_memory (init_conn session protocol nbr))
      ≡ conn_packet session protocol nbr
unfolding init_conn
conn_bytes session protocol nbr =
    ap₂ (λ l m. take 18 (1 ∷ (l ++ protocol ∷ m))) (le_bytes-byte_swap 8 session)
      (le_bytes-byte_swap 8 nbr)
    ∙ take_all 18 (conn_packet session protocol nbr) (
        omega (
          arith,
          length-append (be_bytes 8 session) (protocol ∷ be_bytes 8 nbr),
          length-be_bytes 8 session,
          length-be_bytes 8 nbr,
        ))
