-- ===== src/UdprClient/Accept.antt =====
-- Which acknowledgement UDPR_client_handle_ACC takes for the packet it has sent.
use si_k_1projekt_tcp_udp.Common.{
  ℕ, ◌^◌, ◌<◌, ◌≡◌, sym, subst, ◌∙◌, ◌↔◌, List, Bool, length, length-append, All, arith,
}
use si_k_1projekt_tcp_udp.Common.Bytes.{IsByte, be_bytes, length-be_bytes}
use si_k_1projekt_tcp_udp.Constants.{Status}
use si_k_1projekt_tcp_udp.Packets.{read_acc}
use si_k_1projekt_tcp_udp.Packets.Wire.{numbered_packet}
use si_k_1projekt_tcp_udp.Packets.Answers.{read_acc-numbered_packet, acc_bytes_read}
use si_k_1projekt_tcp_udp.UdprClient.Waiting.{check_acc_packet}

success_tests :
    (stack response : List ℕ) (id session : ℕ) (first : Bool)
    → check_acc_packet stack response id session first ≡ Status.success
    → let r = read_acc stack response in
      (r.package_type_id ≡ 5)
      × (r.session_id ≡ session)
      × (length response ≡ 17)
      × (r.package_id ≡ id)
unfolding check_acc_packet
success_tests stack response id session first h = ground arith

length-numbered_packet : (type session id : ℕ) → length (numbered_packet type session id) ≡ 17
length-numbered_packet type session id = omega (
  arith,
  length-append (be_bytes 8 session) (be_bytes 8 id),
  length-be_bytes 8 session,
  length-be_bytes 8 id,
)

accepts_acc :
    (stack : List ℕ) (id session : ℕ) (first : Bool)
    → session < 2 ^ 64
    → id < 2 ^ 64
    → check_acc_packet stack (numbered_packet 5 session id) id session first ≡ Status.success
unfolding check_acc_packet
accepts_acc stack id session first hs hi =
    let r = read_acc-numbered_packet stack 5 session id hs hi in
    ground (arith, r, length-numbered_packet 5 session id)

-- While the client waits for the acknowledgement of packet `id`, a response counts as it exactly
-- when it is, byte for byte, the ACC packet of the session with that number.
-- (The response is made of bytes, and the session and the number are below 2^64.)
pub check_acc_packet_iff :
    (stack response : List ℕ) (id session : ℕ) (first : Bool)
    → All IsByte response
    → session < 2 ^ 64
    → id < 2 ^ 64
    → (check_acc_packet stack response id session first ≡ Status.success)
      ↔ (response ≡ numbered_packet 5 session id)
check_acc_packet_iff stack response id session first bytes hs hi = (
  λ h.
      let (type, s, size, number) = success_tests stack response id session first h in
      acc_bytes_read stack response size bytes ∙ (λ i. numbered_packet (type i) (s i) (number i)),
  λ e.
      subst (λ l. check_acc_packet stack l id session first ≡ Status.success) (sym e)
        (accepts_acc stack id session first hs hi),
)
