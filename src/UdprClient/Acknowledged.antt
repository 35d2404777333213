-- ===== src/UdprClient/Acknowledged.antt =====
-- What UDPR_client_send_DATA has received when it comes back with SUCCESS.
use si_k_1projekt_tcp_udp.Common.{
  ℕ, ◌*◌, ◌^◌, ◌≤◌, ◌<◌, ◌≡◌, ◌≢◌, refl, ◌⊎◌, inl, inr, List, [], ◌∷◌, take, take-All, length, All,
  arith, true,
}
use si_k_1projekt_tcp_udp.Common.Bytes.{IsByte}
use si_k_1projekt_tcp_udp.Constants.{Status}
use si_k_1projekt_tcp_udp.Packets.{Data}
use si_k_1projekt_tcp_udp.Packets.Wire.{numbered_packet}
use si_k_1projekt_tcp_udp.MyVec.{MyVec}
use si_k_1projekt_tcp_udp.Net.{
  Address, Recv, timed_out, failed, interrupted, datagram, World, done, Post-done,
}
use si_k_1projekt_tcp_udp.UdprClient.Accept.{check_acc_packet_iff}
use si_k_1projekt_tcp_udp.UdprClient.Sending.{Acks}
use si_k_1projekt_tcp_udp.UdprClient.Outbox.{UdprSends}
use si_k_1projekt_tcp_udp.UdprClient.Sent.{udpr_client_send_data-UdprSends}
use si_k_1projekt_tcp_udp.UdprClient.Transfer.{udpr_client_send_data}
use si_k_1projekt_tcp_udp.UdpServer.UdpTransfer.{HasBytes}

-- The results hold a datagram from the port whose first 200 bytes, as many as are read, are the ACC
-- packet with the number `i`.
abbrev pub IsAcknowledged : ℕ → ℕ → ℕ → List Recv → Type 0
IsAcknowledged port session i [] = ⊥
IsAcknowledged port session i (timed_out ∷ es) = IsAcknowledged port session i es
IsAcknowledged port session i (failed ∷ es) = IsAcknowledged port session i es
IsAcknowledged port session i (interrupted ∷ es) = IsAcknowledged port session i es
IsAcknowledged port session i (datagram from bytes ∷ es) =
    ((from.sin_port ≡ port) × (take 200 bytes ≡ numbered_packet 5 session i))
    ⊎ IsAcknowledged port session i es

Acks-IsAcknowledged :
    (stack : List ℕ) (port session i : ℕ) (es : List Recv)
    → session < 2 ^ 64
    → i < 2 ^ 64
    → All HasBytes es
    → Acks stack port session i es
    → IsAcknowledged port session i es
Acks-IsAcknowledged stack port session i [] hs hi b h = h
Acks-IsAcknowledged stack port session i (timed_out ∷ es) hs hi b h =
    Acks-IsAcknowledged stack port session i es hs hi b.1 h
Acks-IsAcknowledged stack port session i (failed ∷ es) hs hi b h =
    Acks-IsAcknowledged stack port session i es hs hi b.1 h
Acks-IsAcknowledged stack port session i (interrupted ∷ es) hs hi b h =
    Acks-IsAcknowledged stack port session i es hs hi b.1 h
Acks-IsAcknowledged stack port session i (datagram from bytes ∷ es) hs hi b (inl (p, (first, e))) =
    inl (
      p,
      (check_acc_packet_iff stack (take 200 bytes) i session first (take-All IsByte 200 bytes b.0)
            hs hi).0
          e,
    )
Acks-IsAcknowledged stack port session i (datagram from bytes ∷ es) hs hi b (inr h) =
    inr (Acks-IsAcknowledged stack port session i es hs hi b.1 h)

-- If UDPR_client_send_DATA comes back with SUCCESS, then for every packet of the vector's data the
-- ACC packet of the session with its number has come from the server's port. (The vector holds
-- fewer than 2^32 bytes, none of them NUL; at most 8 retransmissions were counted before; the
-- session is below 2^64, and the inbox holds datagrams of bytes.)
pub udpr_client_send_data-IsAcknowledged :
    (server : Address) (vec : MyVec) (session counted : ℕ) (uninitialised : Data) (w w' : World)
    → vec.occupied_size < 2 ^ 32
    → vec.occupied_size ≤ length vec.buff
    → All (λ x. x ≢ 0) (take vec.occupied_size vec.buff)
    → counted ≤ 8
    → session < 2 ^ 64
    → All HasBytes w.inbox
    → udpr_client_send_data server vec session counted uninitialised w ≡ done Status.success w'
    → (i : ℕ) → 64000 * i < vec.occupied_size
    → IsAcknowledged server.sin_port session i w.inbox
udpr_client_send_data-IsAcknowledged server vec session counted uninitialised w w' small inside
      chars few hs bytes run i inside_data =
    let h =
      Post-done
        (UdprSends server vec session vec.occupied_size
          (record {
            bytes_left = vec.occupied_size;
            bytes_sent = 0;
            start_cpy_pos = 0;
            curr_package_id = 0;
            is_before_first_acc = true;
            nbr_of_retransmits = counted;
            packet = uninitialised;
          })
          w)
        (λ v. Unit)
        (udpr_client_send_data-UdprSends server vec session vec.occupied_size counted uninitialised
          w small inside chars (omega arith) few)
        run in
    Acks-IsAcknowledged w.stack server.sin_port session i w.inbox hs
      (omega (arith, small, inside_data)) bytes (h.acked refl i (omega arith) inside_data)
