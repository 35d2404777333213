-- ===== src/Lib.antt =====
-- PPCB: a protocol that sends a sequence of bytes from a client to a server over TCP, over UDP, or
-- over UDP with retransmission (UDPR), and the two programs that speak it.
--
-- The client (ppcb_client.c) reads standard input into a byte vector (my_vec.c), announces its
-- length in a CONN packet, waits for CONACC, sends the bytes in DATA packets of at most 64000 bytes
-- and waits for RCVD. In UDPR the server answers each DATA packet with ACC, and either side repeats
-- its last packet after a timeout, at most 8 times in all. The server (server.c) serves one
-- connection at a time and refuses the packets of other clients.
--
-- The files and the code they model:
-- - Constants: constants.h, protconst.h.
-- - Packets: packet_structures.h and packet_structures.c. `init_conn` is init_CONN and so on; a
--   struct is a record of the numbers that its fields hold on a little-endian host, `conn_memory`
--   its bytes, `conn_at` the struct over given bytes. Packets.Wire gives the formats independently
--   of the structs; Packets.Sending, Packets.Reading, Packets.Answers and Packets.Conns relate
--   the two.
-- - Net: the datagram socket, and sendto_wrapper of helper_func.c.
-- - UdpServer: server_UDP_lib.c. Receive has read_data_to_buffer and the functions that send a
--   packet; Checks the checks of packets and do_retransmission; Session has UDP_data_receive and
--   UDPR_data_receive; Handler has UDP_server_handler. Its other modules hold proofs: Reading and
--   Replies on read_data_to_buffer, Accept and AcceptConn on the checks, Turns, Opening and
--   Answering on the handler, and the rest on the transfers.
-- - MyVec: my_vec.h, my_vec.c, and read_stdin of ppcb_client.c. Its modules hold proofs: Growth on
--   appending bytes, Input on reading standard input, Chars on single characters.
-- - Client: wait_for_server_response of helper_func.c, and the filling of a DATA packet that
--   client_UDP_lib.c, client_UDPR_lib.c and client_TCP_lib.c share. Client.Packing,
--   Client.Waiting and Client.Knowing hold proofs.
-- - UdpClient: client_UDP_lib.c; its other modules hold proofs. UdprClient, with Waiting and
--   Transfer: client_UDPR_lib.c; its other modules hold proofs, from the pieces of the data
--   (Pieces) and the wait for an acknowledgement (Sending) to the loop (Outbox, Sent,
--   Acknowledged) and the handler (Handling).
-- - Exchange: proofs on a client and a server together: UDP, TCP in Exchange.TcpTransfer, UDPR in
--   Exchange.UdprTransfer.
-- - Stream: the stream socket, readn and writen of common.c, readn_error_handler of helper_func.c.
--   Its modules hold proofs: Rules on calls in sequence, Exact and Delivering on readn, Writing on
--   writen.
-- - TcpServer: server_TCP_lib.c. Its modules hold proofs. Sending, Headers, Receiving, Looping,
--   Connecting and Serving follow any connection; Taking, Rounds and Delivery one that does what
--   the protocol asks for; Accepting the handler over all connections.
-- - TcpClient: client_TCP_lib.c. Pieces and Delivery hold proofs.
-- - Programs: main of server.c and of ppcb_client.c, check_communication_type and init_socket_fd of
--   helper_func.c, port_from_str_to_ul and get_server_address of common.c, over a record `System` of
--   the functions that they call. Programs.Transfers and Programs.Serving hold proofs.
-- - Tests: concrete connections.
--
-- The functions pass a `World` (or a `Connection` for TCP) on: the socket, the static variables and
-- the packets sent. The results of `recvfrom`, `sendto`, `read` and `write` are sequences given in
-- it; a function that asks for a result when none is left is `blocked`. An uninitialised struct
-- holds the bytes `stack`. `errno` is kept only as far as the code tests it.
--
-- The loops over `recvfrom` run on the length of the inbox and one more, since each round takes a
-- result or is the last; the sending loops run on the number of bytes and one more; the loop that
-- connects runs on MAX_RETRANSMITS + 2 rounds; the loop over a TCP stream on the length of the
-- stream and one more. `out_of_fuel` marks a model's end for lack of fuel, and the predicates `Post`
-- of Net and of Stream exclude it.
--
-- A SIGINT counts where it is noticed: in the UDP server when it interrupts `recvfrom`, in the TCP
-- server in any round of the loop, as its results of `accept` say.
--
-- Not modelled: the installing of signal handlers, a SIGINT that comes while the UDP server is not
-- in `recvfrom`, messages to standard error, the freeing of memory, the clock and save_to_file, the
-- printing of received data (its calls are commented out in the code), client_tests_lib.c (compiled
-- out by DO_TESTS), and the example programs in TCP, TCP_concurrent and UDP, which the programs do
-- not use.
pub mod Common
pub mod Constants
pub mod Packets
pub mod Net
pub mod UdpServer
pub mod MyVec
pub mod Client
pub mod UdpClient
pub mod UdprClient
pub mod Exchange
pub mod Stream
pub mod TcpServer
pub mod TcpClient
pub mod Programs
pub mod Tests
