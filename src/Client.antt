-- ===== src/Client.antt =====
-- helper_func.c: `wait_for_server_response`, and the cutting of the data into DATA packets that
-- the three clients share.
pub mod Packing
pub mod Waiting
pub mod Knowing
use si_k_1projekt_tcp_udp.Common.{
  ℕ, ◌+◌, List, [], ◌∷◌, ◌++◌, Bool, true, false, ◌||◌, ltb, ◌==◌, ◌!=◌, if◌then◌else◌, take, drop,
  replicate, length,
}
use si_k_1projekt_tcp_udp.Constants.{Status, response_buff_size, send_buff_size}
use si_k_1projekt_tcp_udp.Packets.{Data, str_pad, strncpy, init_data}
use si_k_1projekt_tcp_udp.MyVec.{MyVec}
use si_k_1projekt_tcp_udp.Net.{
  Address, Recv, timed_out, failed, interrupted, datagram, World, Outcome, done, blocked, M,
}

-- The first packet that comes fixes the server's address.
abbrev pub note_server : Address → World → World
note_server from w =
    if w.first_wait then record w { first_wait = false; real_server_s_addr = from.s_addr } else w

-- The loop of `wait_for_server_response`, over the results of `recvfrom` to come. The result is the
-- status and the bytes received; the rest of the response buffer is zero.
unfoldable pub wait_loop : List Recv → ℕ → M (Status × List ℕ)
wait_loop [] server_port w = blocked (record w { inbox = [] })
wait_loop (timed_out ∷ later) server_port w =
    done (Status.timeout_error, []) (record w { inbox = later; errno_is_eagain = true })
wait_loop (failed ∷ later) server_port w =
    done (Status.error, []) (record w { inbox = later; errno_is_eagain = false })
wait_loop (interrupted ∷ later) server_port w =
    done (Status.error, []) (record w { inbox = later; errno_is_eagain = false })
wait_loop (datagram from bytes ∷ later) server_port w =
    let response = take response_buff_size bytes in
    let w1 = note_server from (record w { inbox = later }) in
    let next = wait_loop later server_port w1 in
    if length response == 0
    then done (if w.errno_is_eagain then Status.timeout_error else Status.error, [])
        (record w { inbox = later })
    else if from.s_addr != w1.real_server_s_addr || from.sin_port != server_port
    then next
    else done (Status.success, response) w1

unfoldable pub wait_for_server_response : ℕ → M (Status × List ℕ)
wait_for_server_response server_port w = wait_loop w.inbox server_port w

-- `strncpy(buff, vec->buff + start_cpy_pos, n)` into the zeroed array `buff`, and
-- `init_DATA(&data, session_id, curr_package_id, n, buff)`.
unfoldable pub fill_data : Data → MyVec → ℕ → ℕ → ℕ → ℕ → Data × Status
fill_data d vec session_id curr_package_id start_cpy_pos n =
    init_data d session_id curr_package_id n
      (strncpy (replicate (send_buff_size + 1) 0) (drop start_cpy_pos vec.buff) n)

-- How many bytes the next packet takes.
abbrev pub next_size : ℕ → ℕ
next_size bytes_left = if ltb bytes_left send_buff_size then bytes_left else send_buff_size
