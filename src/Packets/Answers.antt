-- ===== src/Packets/Answers.antt =====
-- Reading the answers of a server: ACC, and the packets of a type and a session. Packets in the
-- protocol's format give their fields back, and the fields determine the bytes.
use si_k_1projekt_tcp_udp.Common.{
  ℕ, ◌^◌, ◌<◌, ◌≡◌, refl, sym, ap, ap₂, ◌∙◌, List, [], ◌∷◌, ◌++◌, append-nil, arith, length,
  length-append, All,
}
use si_k_1projekt_tcp_udp.Common.Bytes.{
  IsByte, le_value, byte_swap, be_bytes-byte_swap, length-be_bytes,
}
use si_k_1projekt_tcp_udp.Packets.{
  Acc, Rcvd, read_acc, read_conacc, read_rcvd, acc_at, rcvd_at, ntoh_acc, ntoh_conacc, ntoh_rcvd,
}
use si_k_1projekt_tcp_udp.Packets.Wire.{
  short_packet, numbered_packet, cast_prefix, acc_at_fields, short_session, swap_be,
}
use si_k_1projekt_tcp_udp.Packets.Reading.{split_at}

acc_cast :
    (stack : List ℕ) (x : ℕ) (a b : List ℕ)
    → length a ≡ 8
    → length b ≡ 8
    → read_acc stack (x ∷ (a ++ b)) ≡ record {
      package_type_id = x;
      session_id = byte_swap 8 (le_value a);
      package_id = byte_swap 8 (le_value b);
    }
unfolding ntoh_acc
acc_cast stack x a b la lb =
    let (tail, e) = cast_prefix stack 17 (x ∷ (a ++ b)) [] (omega (arith, length-append a b)) in
    ap (read_acc stack) (sym (append-nil (x ∷ (a ++ b))))
    ∙ ap (λ l. ntoh_acc (acc_at l)) e
    ∙ ap ntoh_acc (acc_at_fields x a b tail la lb)

pub read_acc-numbered_packet :
    (stack : List ℕ) (type session id : ℕ)
    → session < 2 ^ 64
    → id < 2 ^ 64
    → read_acc stack (numbered_packet type session id)
      ≡ record { package_type_id = type; session_id = session; package_id = id }
read_acc-numbered_packet stack type session id hs hi =
    acc_cast stack type _ _ (length-be_bytes 8 session) (length-be_bytes 8 id) ∙ (λ i. record {
      package_type_id = type;
      session_id = swap_be 8 session hs i;
      package_id = swap_be 8 id hi i;
    })

pub acc_bytes_read :
    (stack buff : List ℕ)
    → length buff ≡ 17
    → All IsByte buff
    → let r = read_acc stack buff in
      buff ≡ numbered_packet r.package_type_id r.session_id r.package_id
acc_bytes_read stack [] h bytes = absurd (omega arith)
acc_bytes_read stack (x ∷ buff) h bytes =
    let (a, b, la, e, ba, bb) = split_at 8 buff (omega arith) bytes.1 in
    let lb : length b ≡ 8 = omega (arith, ap length e, length-append a b) in
    let d = ap (read_acc stack) (ap (◌∷◌ x) e) ∙ acc_cast stack x a b la lb in
    ap (◌∷◌ x)
      (e ∙ ap₂ ◌++◌ (sym (be_bytes-byte_swap 8 a la ba)) (sym (be_bytes-byte_swap 8 b lb bb)))
    ∙ sym (ap (λ (r : Acc). numbered_packet r.package_type_id r.session_id r.package_id) d)

rcvd_cast :
    (stack : List ℕ) (x : ℕ) (a : List ℕ)
    → length a ≡ 8
    → read_rcvd stack (x ∷ a)
      ≡ record { package_type_id = x; session_id = byte_swap 8 (le_value a) }
unfolding ntoh_rcvd
rcvd_cast stack x a la =
    let (tail, e) = cast_prefix stack 9 (x ∷ a) [] (omega arith) in
    ap (read_rcvd stack) (sym (append-nil (x ∷ a)))
    ∙ ap (λ l. ntoh_rcvd (rcvd_at l)) e
    ∙ (λ i. record { package_type_id = x; session_id = byte_swap 8 (short_session x a tail la i) })

pub read_rcvd-short_packet :
    (stack : List ℕ) (type session : ℕ)
    → session < 2 ^ 64
    → read_rcvd stack (short_packet type session)
      ≡ record { package_type_id = type; session_id = session }
read_rcvd-short_packet stack type session hs =
    rcvd_cast stack type _ (length-be_bytes 8 session)
    ∙ (λ i. record { package_type_id = type; session_id = swap_be 8 session hs i })

pub rcvd_bytes_read :
    (stack buff : List ℕ)
    → length buff ≡ 9
    → All IsByte buff
    → let r = read_rcvd stack buff in buff ≡ short_packet r.package_type_id r.session_id
rcvd_bytes_read stack [] h bytes = absurd (omega arith)
rcvd_bytes_read stack (x ∷ a) h bytes =
    ap (◌∷◌ x) (sym (be_bytes-byte_swap 8 a (omega arith) bytes.1))
    ∙ sym (
        ap (λ (r : Rcvd). short_packet r.package_type_id r.session_id)
          (rcvd_cast stack x a (omega arith)))

-- CONACC has the same layout.
pub read_conacc-as_rcvd :
    (stack buff : List ℕ)
    → ((read_conacc stack buff).package_type_id ≡ (read_rcvd stack buff).package_type_id)
      × ((read_conacc stack buff).session_id ≡ (read_rcvd stack buff).session_id)
unfolding ntoh_conacc ntoh_rcvd
read_conacc-as_rcvd stack buff = (refl, refl)
