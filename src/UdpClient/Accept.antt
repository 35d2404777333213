-- ===== src/UdpClient/Accept.antt =====
-- Which responses of the server the UDP client takes for CONACC and for RCVD.
use si_k_1projekt_tcp_udp.Common.{
  ℕ, ◌^◌, ◌<◌, ◌≡◌, sym, ap, subst, ◌∙◌, ◌↔◌, List, length, All, arith,
}
use si_k_1projekt_tcp_udp.Common.Bytes.{IsByte, length-be_bytes}
use si_k_1projekt_tcp_udp.Constants.{Status}
use si_k_1projekt_tcp_udp.Packets.{Rcvd, read_rcvd, read_conacc}
use si_k_1projekt_tcp_udp.Packets.Wire.{short_packet}
use si_k_1projekt_tcp_udp.Packets.Answers.{
  read_rcvd-short_packet, rcvd_bytes_read, read_conacc-as_rcvd,
}
use si_k_1projekt_tcp_udp.UdpClient.{check_udp_rcvd, check_udp_conacc}

rcvd_tests :
    (stack response : List ℕ) (session : ℕ)
    → check_udp_rcvd stack session (Status.success, response) ≡ Status.success
    → let r = read_rcvd stack response in
      (r.package_type_id ≡ 7) × (r.session_id ≡ session) × (length response ≡ 9)
unfolding check_udp_rcvd
rcvd_tests stack response session h = ground arith

accepts_rcvd :
    (stack : List ℕ) (session : ℕ)
    → session < 2 ^ 64
    → check_udp_rcvd stack session (Status.success, short_packet 7 session) ≡ Status.success
unfolding check_udp_rcvd
accepts_rcvd stack session hs =
    let r = read_rcvd-short_packet stack 7 session hs in
    ground (arith, r, length-be_bytes 8 session)

conacc_tests :
    (stack response : List ℕ) (session : ℕ)
    → check_udp_conacc stack session (Status.success, response) ≡ Status.success
    → let r = read_conacc stack response in
      (r.package_type_id ≡ 2) × (r.session_id ≡ session) × (length response ≡ 9)
unfolding check_udp_conacc
conacc_tests stack response session h = ground arith

accepts_conacc :
    (stack : List ℕ) (session : ℕ)
    → session < 2 ^ 64
    → check_udp_conacc stack session (Status.success, short_packet 2 session) ≡ Status.success
unfolding check_udp_conacc
accepts_conacc stack session hs =
    let r = read_rcvd-short_packet stack 2 session hs in
    let (t, s) = read_conacc-as_rcvd stack (short_packet 2 session) in
    let t' = t ∙ ap (λ (x : Rcvd). x.package_type_id) r in
    let s' = s ∙ ap (λ (x : Rcvd). x.session_id) r in
    ground (arith, t', s', length-be_bytes 8 session)

-- UDP_client_RCVD_handler succeeds on a response exactly when it is, byte for byte, the RCVD
-- packet of the session, and UDP_client_CONACC_handler exactly when it is the CONACC packet of the
-- session. (The response is made of bytes, and the session is below 2^64.)
pub check_udp_answers_iff :
    (stack response : List ℕ) (session : ℕ)
    → All IsByte response
    → session < 2 ^ 64
    → ((check_udp_rcvd stack session (Status.success, response) ≡ Status.success)
        ↔ (response ≡ short_packet 7 session))
      × ((check_udp_conacc stack session (Status.success, response) ≡ Status.success)
          ↔ (response ≡ short_packet 2 session))
check_udp_answers_iff stack response session bytes hs = (
  (
    λ h.
        let (type, s, size) = rcvd_tests stack response session h in
        rcvd_bytes_read stack response size bytes ∙ (λ i. short_packet (type i) (s i)),
    λ e.
        subst (λ l. check_udp_rcvd stack session (Status.success, l) ≡ Status.success) (sym e)
          (accepts_rcvd stack session hs),
  ),
  (
    λ h.
        let (type, s, size) = conacc_tests stack response session h in
        let (t, u) = read_conacc-as_rcvd stack response in
        rcvd_bytes_read stack response size bytes
        ∙ (λ i. short_packet ((sym t ∙ type) i) ((sym u ∙ s) i)),
    λ e.
        subst (λ l. check_udp_conacc stack session (Status.success, l) ≡ Status.success) (sym e)
          (accepts_conacc stack session hs),
  ),
)
