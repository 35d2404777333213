-- ===== src/UdprClient/Waiting.antt =====
-- client_UDPR_lib.c: `UDPR_client_handle_RCVD` and `UDPR_client_handle_ACC`.
-- What a received packet leads to is a function without state; the loops run over it, on one more
-- unit of fuel than there are results of `recvfrom` to come.
use si_k_1projekt_tcp_udp.Common.{
  ℕ, zero, suc, ◌+◌, List, Bool, ◌&&◌, ltb, ◌==◌, ◌!=◌, if◌then◌else◌, length,
}
use si_k_1projekt_tcp_udp.Constants.{Status, conacc_id, acc_id, rcvd_id, max_retransmits}
use si_k_1projekt_tcp_udp.Packets.{sizeof_conacc, sizeof_acc, sizeof_rcvd, read_acc, read_rcvd}
use si_k_1projekt_tcp_udp.Net.{out_of_fuel, M, ◌>>=◌, return}
use si_k_1projekt_tcp_udp.Client.{wait_for_server_response}

-- `Status.continue` is another turn of the loop; the others are returned.
unfoldable pub check_rcvd_packet : List ℕ → List ℕ → ℕ → ℕ → Status
check_rcvd_packet stack response curr_package_id session_id =
    let rcvd = read_rcvd stack response in
    let acc = read_acc stack response in
    if rcvd.package_type_id == acc_id
    then if rcvd.session_id == session_id
      then if length response != sizeof_acc
        then Status.error
        else if ltb curr_package_id acc.package_id
        then Status.error
        else Status.continue
      else Status.error
    else if rcvd.package_type_id != rcvd_id
    then Status.error
    else if rcvd.session_id != session_id
    then Status.error
    else if length response != sizeof_rcvd
    then Status.error
    else Status.success

-- What follows `wait_for_server_response`; a timeout is an error here.
abbrev pub rcvd_status : List ℕ → ℕ → ℕ → Status × List ℕ → Status
rcvd_status stack curr_package_id session_id (Status.success, response) =
    check_rcvd_packet stack response curr_package_id session_id
rcvd_status stack curr_package_id session_id (_, response) = Status.error

abbrev pub repeat_on_continue : M Status → Status → M Status
repeat_on_continue go_on Status.continue = go_on
repeat_on_continue go_on status = return status

unfoldable pub rcvd_loop : ℕ → ℕ → ℕ → ℕ → M Status
rcvd_loop zero curr_package_id session_id server_port w = out_of_fuel
rcvd_loop (suc fuel) curr_package_id session_id server_port w =
    let go_on : M Status = (λ w'. rcvd_loop fuel curr_package_id session_id server_port w') in
    (wait_for_server_response server_port >>= λ r w'.
    repeat_on_continue go_on (rcvd_status w'.stack curr_package_id session_id r) w')
      w

unfoldable pub udpr_client_handle_rcvd : ℕ → ℕ → ℕ → M Status
udpr_client_handle_rcvd curr_package_id session_id server_port w =
    rcvd_loop (suc (length w.inbox)) curr_package_id session_id server_port w

-- A received packet while an ACC is awaited. `Status.retransmission` stands for the branch that
-- counts a retransmission.
unfoldable pub check_acc_packet : List ℕ → List ℕ → ℕ → ℕ → Bool → Status
check_acc_packet stack response curr_package_id session_id is_before_first_acc =
    let acc = read_acc stack response in
    if acc.package_type_id == conacc_id
    then if length response != sizeof_conacc
      then Status.error
      else if acc.session_id == session_id && is_before_first_acc
      then Status.continue
      else Status.error
    else if acc.package_type_id == rcvd_id
    then if acc.session_id != session_id
      then Status.error
      else if length response != sizeof_rcvd
      then Status.error
      else Status.retransmission
    else if acc.package_type_id != acc_id
    then Status.error
    else if acc.session_id != session_id
    then Status.error
    else if length response != sizeof_acc
    then Status.error
    else if ltb acc.package_id curr_package_id
    then Status.continue
    else if ltb curr_package_id acc.package_id
    then Status.error
    else Status.success

-- What follows `wait_for_server_response`.
abbrev pub acc_status : List ℕ → ℕ → ℕ → Bool → Status × List ℕ → Status
acc_status stack curr_package_id session_id first (Status.success, response) =
    check_acc_packet stack response curr_package_id session_id first
acc_status stack curr_package_id session_id first (Status.timeout_error, response) =
    Status.retransmission
acc_status stack curr_package_id session_id first (_, response) = Status.error

-- The end of a turn: the status that is returned and the new `*nbr_of_retransmits`.
abbrev pub acc_next : ℕ → M (Status × ℕ) → Status → M (Status × ℕ)
acc_next counted go_on Status.continue = go_on
acc_next counted go_on Status.retransmission =
    return (
      if ltb max_retransmits (counted + 1) then Status.error else Status.retransmission,
      counted + 1,
    )
acc_next counted go_on status = return (status, counted)

unfoldable pub acc_loop : ℕ → ℕ → ℕ → ℕ → ℕ → Bool → M (Status × ℕ)
acc_loop zero counted curr_package_id session_id server_port first w = out_of_fuel
acc_loop (suc fuel) counted curr_package_id session_id server_port first w =
    let go_on : M (Status × ℕ) =
      (λ w'. acc_loop fuel counted curr_package_id session_id server_port first w') in
    (wait_for_server_response server_port >>= λ r w'.
    acc_next counted go_on (acc_status w'.stack curr_package_id session_id first r) w')
      w

unfoldable pub udpr_client_handle_acc : ℕ → ℕ → ℕ → ℕ → Bool → M (Status × ℕ)
udpr_client_handle_acc counted curr_package_id session_id server_port first w =
    acc_loop (suc (length w.inbox)) counted curr_package_id session_id server_port first w
