-- ===== src/UdpServer/Receive.antt =====
-- server_UDP_lib.c: the functions that send one packet, and `read_data_to_buffer`.
-- A buffer is the bytes received: the code zeroes the rest and never reads it.
use si_k_1projekt_tcp_udp.Common.{
  ℕ, List, [], ◌∷◌, Bool, true, ◌||◌, ◌==◌, ◌!=◌, if◌then◌else◌, length, take,
}
use si_k_1projekt_tcp_udp.Constants.{Status, conn_id, data_id, receive_buffor_size}
use si_k_1projekt_tcp_udp.Packets.{
  sizeof_conn, sizeof_conacc, sizeof_conrjt, sizeof_rjt, sizeof_rcvd, sizeof_acc, init_conrjt,
  init_conacc, init_rjt, init_rcvd, init_acc, conrjt_memory, conacc_memory, rjt_memory, rcvd_memory,
  acc_memory, read_conn, read_data_info,
}
use si_k_1projekt_tcp_udp.Net.{
  Address, Recv, timed_out, failed, interrupted, datagram, done, blocked, M, ◌>>=◌, ◌>>◌, return,
  get_world, sendto_wrapper,
}

unfoldable pub send_conrjt : Address → ℕ → M Status
unfolding init_conrjt sendto_wrapper
send_conrjt client_address session_id =
    sendto_wrapper client_address (conrjt_memory (init_conrjt session_id)) sizeof_conrjt

unfoldable pub send_conacc : Address → ℕ → M Status
unfolding init_conacc sendto_wrapper
send_conacc client_address session_id =
    sendto_wrapper client_address (conacc_memory (init_conacc session_id)) sizeof_conacc

unfoldable pub send_rjt : Address → ℕ → ℕ → M Status
unfolding init_rjt sendto_wrapper
send_rjt client_address session_id package_id =
    sendto_wrapper client_address (rjt_memory (init_rjt session_id package_id)) sizeof_rjt

unfoldable pub send_rcvd : Address → ℕ → M Status
unfolding init_rcvd sendto_wrapper
send_rcvd client_address session_id =
    sendto_wrapper client_address (rcvd_memory (init_rcvd session_id)) sizeof_rcvd

unfoldable pub send_acc : Address → ℕ → ℕ → M Status
unfolding init_acc sendto_wrapper
send_acc client_address session_id package_id =
    sendto_wrapper client_address (acc_memory (init_acc session_id package_id)) sizeof_acc

-- What the call writes: its result, `buff` with `*read_bytes` its length, and `*client_address`.
pub record Received : Type 0 where
  pub status : Status
  pub buff : List ℕ
  pub client_address : Address

-- `correct_addr`: an address of its own, or the very variable that `client_address` points to.
pub data Expected : Type 0 where
  whoever_sends : Expected
  only : Address → Expected

abbrev pub correct_addr : Expected → Address → Address
correct_addr whoever_sends from = from
correct_addr (only address) from = address

abbrev pub differs : Address → Address → Bool
differs a b = a.s_addr != b.s_addr || a.sin_port != b.sin_port

-- The answer to a datagram that is not from the expected client.
unfoldable pub answer_other : Address → List ℕ → M (Unit {0})
unfolding send_conrjt send_rjt
answer_other from buff = do
  w ← get_world
  let conn = read_conn w.stack buff
  let d_info = read_data_info w.stack buff
  (if conn.package_type_id == conn_id
      then (if length buff != sizeof_conn
          then return tt
          else (send_conrjt from conn.session_id >> return tt))
      else if conn.package_type_id == data_id
      then (send_rjt from d_info.session_id d_info.package_id >> return tt)
      else return tt)

-- The loop of `read_data_to_buffer`, over the results of `recvfrom` to come.
unfoldable pub read_loop : List Recv → Expected → Address → M Received
read_loop [] expected client_address w = blocked (record w { inbox = [] })
read_loop (timed_out ∷ later) expected client_address w =
    done (record { status = Status.timeout_error; buff = []; client_address = client_address })
      (record w { inbox = later })
read_loop (failed ∷ later) expected client_address w =
    done (record { status = Status.error; buff = []; client_address = client_address })
      (record w { inbox = later })
read_loop (interrupted ∷ later) expected client_address w =
    done (record { status = Status.error; buff = []; client_address = client_address })
      (record w { inbox = later; finish = true })
read_loop (datagram from bytes ∷ later) expected client_address w =
    let buff = take receive_buffor_size bytes in
    let next =
      (answer_other from buff >> read_loop later expected from) (record w { inbox = later }) in
    if differs from (correct_addr expected from)
    then next
    else done
        (record {
          status = if length buff == 0 then Status.error else Status.success;
          buff = buff;
          client_address = from;
        })
        (record w { inbox = later })

unfoldable pub read_data_to_buffer : Expected → Address → M Received
read_data_to_buffer expected client_address w = read_loop w.inbox expected client_address w
