-- ===== src/Programs.antt =====
-- The two programs: `main` of server.c and of ppcb_client.c, check_communication_type and
-- init_socket_fd of helper_func.c, port_from_str_to_ul and get_server_address of common.c.
-- The functions of the C library and the system that they call are the fields of `System`. A string
-- is the list of its characters before the NUL.
pub mod Transfers
pub mod Serving
use si_k_1projekt_tcp_udp.Common.{
  ℕ, zero, suc, ◌+◌, ◌*◌, ◌^◌, List, [], ◌∷◌, Bool, true, false, ◌&&◌, ◌||◌, ltb, ◌==◌, ◌!=◌,
  if◌then◌else◌, Option, none, some, length, get_or, u32, ◌%◌,
}
use si_k_1projekt_tcp_udp.Common.Bytes.{byte_swap}
use si_k_1projekt_tcp_udp.Constants.{Status, max_wait}
use si_k_1projekt_tcp_udp.Packets.{Data}
use si_k_1projekt_tcp_udp.MyVec.{MyVec, VecResult, Allocator, StdinRead, read_stdin}
use si_k_1projekt_tcp_udp.Net.{Address, World}
use si_k_1projekt_tcp_udp.Net
use si_k_1projekt_tcp_udp.Stream.{Connection}
use si_k_1projekt_tcp_udp.Stream
use si_k_1projekt_tcp_udp.TcpServer.{AcceptResult, Served, tcp_server_handler}
use si_k_1projekt_tcp_udp.UdpServer.Handler.{udp_server_handler}
use si_k_1projekt_tcp_udp.TcpClient.{tcp_client_handler}
use si_k_1projekt_tcp_udp.UdpClient.{udp_client_handler}
use si_k_1projekt_tcp_udp.UdprClient.{udpr_client_handler}

pub data CommunicationType : Type 0 where
  tcp udp udpr : CommunicationType

-- How a program or a part of it ends: `fatal` and `syserr` print a message and call `exit(1)`.
pub data Ends (A : Type 0) : Type 0 where
  ok : A → Ends A
  fatal_exit syserr_exit out_of_bounds : Ends A

infixl 5 ◌>>=◌
abbrev pub ◌>>=◌ : {A B : Type 0} → Ends A → (A → Ends B) → Ends B
ok a >>= f = f a
fatal_exit >>= f = fatal_exit
syserr_exit >>= f = syserr_exit
out_of_bounds >>= f = out_of_bounds

-- What `strtoul` gives: the number, the characters behind it, and `errno`.
pub record Strtoul : Type 0 where
  pub number : ℕ
  pub behind : List ℕ
  pub errno : ℕ

pub data SocketKind : Type 0 where
  sock_stream sock_dgram : SocketKind

-- `getaddrinfo` gives an address or fails; so do `socket` (a descriptor), `bind`, `listen`,
-- `getsockname` and `connect`. `rand_1` and `rand_2` are what the two calls of `rand` give.
pub record System : Type 0 where
  pub strtoul : List ℕ → Strtoul
  pub getaddrinfo : List ℕ → Option ℕ
  pub socket : SocketKind → Option ℕ
  pub binds : ℕ → Bool
  pub listens : Bool
  pub getsockname_works : Bool
  pub connects : Bool
  pub rand_1 : ℕ
  pub rand_2 : ℕ
  pub allocator : Allocator
  pub stdin : List StdinRead
  pub accepts : List AcceptResult
  pub world : World
  pub connection : Connection
  pub uninitialised : Data
  pub uninitialised_address : Address

-- `strcmp(a, b) == 0`
abbrev pub same_string : List ℕ → List ℕ → Bool
same_string [] [] = true
same_string [] (y ∷ ys) = false
same_string (x ∷ xs) [] = false
same_string (x ∷ xs) (y ∷ ys) = (x == y) && same_string xs ys

unfoldable pub check_communication_type : List ℕ → Ends CommunicationType
check_communication_type input =
    if same_string input (116 ∷ 99 ∷ 112 ∷ [])
    then ok tcp
    else if same_string input (117 ∷ 100 ∷ 112 ∷ [])
    then ok udp
    else if same_string input (117 ∷ 100 ∷ 112 ∷ 114 ∷ [])
    then ok udpr
    else fatal_exit

unfoldable pub port_from_str_to_ul : System → List ℕ → Ends ℕ
port_from_str_to_ul sys string =
    let r = sys.strtoul string in
    if r.errno != 0 || length r.behind != 0 || ltb 65535 r.number
    then fatal_exit
    else ok (r.number % 2 ^ 16)

-- `htons` swaps the two bytes of the port.
unfoldable pub get_server_address : System → List ℕ → ℕ → Ends Address
get_server_address sys host port = elim (sys.getaddrinfo host) [
  | none ↦ fatal_exit
  | some s_addr ↦ ok (record { s_addr = s_addr; sin_port = byte_swap 2 port })
]

abbrev pub socket_kind : CommunicationType → SocketKind
socket_kind tcp = sock_stream
socket_kind udp = sock_dgram
socket_kind udpr = sock_dgram

unfoldable pub init_socket_fd : System → CommunicationType → Ends ℕ
init_socket_fd sys type = elim (sys.socket (socket_kind type)) [
  | none ↦ syserr_exit
  | some socket_fd ↦ ok socket_fd
]

-- What the server's handler does.
pub data ServerRun : Type 0 where
  serves_tcp : Served → ServerRun
  serves_udp : Net.Outcome (Unit {0}) → ServerRun

-- The `switch` of the server's `main`, with what TCP_server_handler does before its loop.
abbrev pub run_server : System → CommunicationType → Ends ServerRun
run_server sys tcp =
    if sys.listens && sys.getsockname_works
    then ok (serves_tcp (tcp_server_handler sys.accepts false []))
    else syserr_exit
run_server sys udp = ok (serves_udp (udp_server_handler sys.uninitialised_address sys.world))
run_server sys udpr = ok (serves_udp (udp_server_handler sys.uninitialised_address sys.world))

unfoldable pub server_main : System → List (List ℕ) → Ends ServerRun
server_main sys argv = if length argv != 3 then fatal_exit else do
  type_of_server ← check_communication_type (get_or argv 1 [])
  port ← port_from_str_to_ul sys (get_or argv 2 [])
  socket_fd ← init_socket_fd sys type_of_server
  if sys.binds (byte_swap 2 port) then run_server sys type_of_server else syserr_exit

-- What the client's handler does.
pub data ClientRun : Type 0 where
  sends_tcp : Stream.Outcome Status → ClientRun
  sends_udp : Net.Outcome Status → ClientRun

-- `(uint64_t) session_id_significant << 32 | session_id_less_significant`
abbrev pub make_session_id : System → ℕ
make_session_id sys = u32 sys.rand_1 * 2 ^ 32 + u32 sys.rand_2

abbrev pub from_vec : VecResult MyVec → Ends MyVec
from_vec (VecResult.ok v) = ok v
from_vec VecResult.fatal_exit = fatal_exit
from_vec VecResult.out_of_bounds = out_of_bounds

-- The socket's timeout is set before standard input is read.
abbrev pub client_world : System → World
client_world sys = record sys.world { rcv_timeo = max_wait }

-- The `switch` of the client's `main`; DO_TESTS is 0.
abbrev pub run_client : System → CommunicationType → Address → MyVec → ClientRun
run_client sys tcp server_address vec =
    sends_tcp
      (tcp_client_handler sys.connects vec (make_session_id sys) sys.uninitialised sys.connection)
run_client sys udp server_address vec = sends_udp (
    udp_client_handler server_address vec (make_session_id sys) sys.uninitialised
      (client_world sys))
run_client sys udpr server_address vec = sends_udp (
    udpr_client_handler server_address vec (make_session_id sys) sys.uninitialised
      (client_world sys))

unfoldable pub client_main : System → List (List ℕ) → Ends ClientRun
client_main sys argv = if ltb 4 (length argv) || ltb (length argv) 3 then fatal_exit else do
  type_of_comm ← check_communication_type (get_or argv 1 [])
  server_address ←
      if length argv == 4
      then (port_from_str_to_ul sys (get_or argv 3 []) >>= λ port.
          get_server_address sys (get_or argv 2 []) port)
      else fatal_exit
  socket_fd ← init_socket_fd sys type_of_comm
  vec ← from_vec (read_stdin sys.allocator sys.stdin)
  ok (run_client sys type_of_comm server_address vec)
