-- ===== src/UdprClient/Transfer.antt =====
-- client_UDPR_lib.c: `UDPR_client_send_DATA`.
use si_k_1projekt_tcp_udp.Common.{
  ℕ, zero, suc, ◌+◌, Bool, true, false, ltb, if◌then◌else◌, length, u32, u64, sub32,
}
use si_k_1projekt_tcp_udp.Common.Bytes.{byte_swap}
use si_k_1projekt_tcp_udp.Constants.{Status}
use si_k_1projekt_tcp_udp.Packets.{Data, data_memory, sizeof_data_info}
use si_k_1projekt_tcp_udp.MyVec.{MyVec}
use si_k_1projekt_tcp_udp.Net.{Address, done, out_of_fuel, M, ◌>>=◌, return, sendto_wrapper}
use si_k_1projekt_tcp_udp.Client.{fill_data, next_size}
use si_k_1projekt_tcp_udp.UdprClient.Waiting.{udpr_client_handle_acc}

-- The locals of UDPR_client_send_DATA, and `*nbr_of_retransmits`.
pub record UdprSending : Type 0 where
  pub bytes_left : ℕ
  pub bytes_sent : ℕ
  pub start_cpy_pos : ℕ
  pub curr_package_id : ℕ
  pub is_before_first_acc : Bool
  pub nbr_of_retransmits : ℕ
  pub packet : Data

-- A packet was acknowledged: the next piece of the data is due.
unfoldable pub next_piece : UdprSending → UdprSending
next_piece s =
    let shift = next_size s.bytes_left in
    record s {
      is_before_first_acc = false;
      curr_package_id = u64 (s.curr_package_id + 1);
      bytes_sent = u32 (s.bytes_sent + shift);
      bytes_left = sub32 s.bytes_left shift;
      start_cpy_pos = u64 (s.start_cpy_pos + shift);
    }

-- What follows UDPR_client_handle_ACC.
abbrev pub after_acc : (UdprSending → M Status) → UdprSending → Status × ℕ → M Status
after_acc go_on s (Status.error, counted) = return Status.error
after_acc go_on s (Status.retransmission, counted) =
    go_on (record s { nbr_of_retransmits = counted })
after_acc go_on s (_, counted) = go_on (next_piece (record s { nbr_of_retransmits = counted }))

-- What follows `sendto_wrapper`.
abbrev pub await_acc : (UdprSending → M Status) → UdprSending → ℕ → ℕ → Status → M Status
await_acc go_on s session_id server_port Status.success =
    udpr_client_handle_acc s.nbr_of_retransmits s.curr_package_id session_id server_port
      s.is_before_first_acc
    >>= after_acc go_on s
await_acc go_on s session_id server_port _ = return Status.error

-- What follows `init_DATA`.
abbrev pub send_filled : (UdprSending → M Status) → UdprSending → Address → ℕ → Status → M Status
send_filled go_on s server_address session_id Status.success =
    sendto_wrapper server_address (data_memory s.packet)
      (sizeof_data_info + byte_swap 4 s.packet.nbr_of_bytes_in_packet)
    >>= await_acc go_on s session_id server_address.sin_port
send_filled go_on s server_address session_id _ = return Status.error

-- The loop on fuel: a round takes a result of `recvfrom`, or ends the loop.
unfoldable pub udpr_send_loop : ℕ → Address → MyVec → ℕ → UdprSending → M Status
udpr_send_loop zero server_address vec session_id s w = out_of_fuel
udpr_send_loop (suc fuel) server_address vec session_id s w =
    let filled =
      fill_data s.packet vec session_id s.curr_package_id s.start_cpy_pos
        (next_size s.bytes_left) in
    let next =
      send_filled (λ s' w'. udpr_send_loop fuel server_address vec session_id s' w')
        (record s { packet = filled.0 }) server_address session_id filled.1 w in
    if ltb s.bytes_sent vec.occupied_size then next else done Status.success w

-- `uninitialised` is what the local DATA struct holds.
unfoldable pub udpr_client_send_data : Address → MyVec → ℕ → ℕ → Data → M Status
udpr_client_send_data server_address vec session_id nbr_of_retransmits uninitialised w =
    udpr_send_loop (suc (length w.inbox)) server_address vec session_id
      (record {
        bytes_left = u32 vec.occupied_size;
        bytes_sent = 0;
        start_cpy_pos = 0;
        curr_package_id = 0;
        is_before_first_acc = true;
        nbr_of_retransmits = nbr_of_retransmits;
        packet = uninitialised;
      })
      w
