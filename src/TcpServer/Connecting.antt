-- ===== src/TcpServer/Connecting.antt =====
-- What TCP_handle_conn_init takes from the stream.
use si_k_1projekt_tcp_udp.Common.{
  ℕ, ◌≡◌, sym, ap, ap₂, subst, ◌∙◌, List, [], ◌∷◌, ◌++◌, length, All, arith,
}
use si_k_1projekt_tcp_udp.Common.Bytes.{IsByte, be_bytes}
use si_k_1projekt_tcp_udp.Constants.{Status}
use si_k_1projekt_tcp_udp.Packets.{Conn, conn_at, ntoh_conn, read_conn}
use si_k_1projekt_tcp_udp.Packets.Wire.{conn_packet}
use si_k_1projekt_tcp_udp.Packets.Conns.{conn_bytes_read}
use si_k_1projekt_tcp_udp.Stream.{
  Connection, Outcome, done, blocked, out_of_fuel, ReadnResult, negative, got, readn_error_handler,
  bytes_of,
}
use si_k_1projekt_tcp_udp.Stream.Rules.{Post}
use si_k_1projekt_tcp_udp.Stream.Exact.{TakesNext}
use si_k_1projekt_tcp_udp.TcpServer.{check_tcp_conn}
use si_k_1projekt_tcp_udp.TcpServer.Headers.{cast_whole, All-front}

success_tests :
    (bytes : List ℕ)
    → check_tcp_conn (got bytes) ≡ Status.success
    → let c = conn_at bytes in (length bytes ≡ 18) × (c.package_type_id ≡ 1) × (c.protocol_id ≡ 1)
unfolding check_tcp_conn readn_error_handler
success_tests bytes h = ground arith

-- What TCP_handle_conn_init takes of the stream, and where it succeeds that is a CONN packet.
pub record ConnRead (c : Connection) (r : Status × Conn) (c' : Connection) : Type 0 where
  pub taken : List ℕ
  pub incoming : c.incoming ≡ taken ++ c'.incoming
  pub conn :
      r.0 ≡ Status.success
      → taken ≡ conn_packet (ntoh_conn r.1).session_id 1 (ntoh_conn r.1).nbr_of_bytes_to_be_sent
  pub outgoing : c'.outgoing ≡ c.outgoing

conn_bytes :
    (bytes : List ℕ)
    → All IsByte bytes
    → check_tcp_conn (got bytes) ≡ Status.success
    → let c = ntoh_conn (conn_at bytes) in
      bytes ≡ conn_packet c.session_id 1 c.nbr_of_bytes_to_be_sent
unfolding ntoh_conn
conn_bytes bytes b h =
    let (size, type, protocol) = success_tests bytes h in
    let r : read_conn [] bytes ≡ ntoh_conn (conn_at bytes) =
      ap (λ m. ntoh_conn (conn_at m)) (cast_whole 18 bytes size) in
    let c = ntoh_conn (conn_at bytes) in
    conn_bytes_read [] bytes size b
    ∙ ap
        (λ (d : Conn).
          d.package_type_id
          ∷ (be_bytes 8 d.session_id ++ d.protocol_id ∷ be_bytes 8 d.nbr_of_bytes_to_be_sent))
        r
    ∙ ap₂ (λ k l. k ∷ (be_bytes 8 c.session_id ++ l ∷ be_bytes 8 c.nbr_of_bytes_to_be_sent)) type
        protocol

pub after_readn :
    (c : Connection) (o : Outcome ReadnResult)
    → All IsByte c.incoming
    → TakesNext [] 18 c o
    → Post (λ r c'. ConnRead c (check_tcp_conn r, conn_at (bytes_of r)) c') (λ c'. Unit {0}) o
unfolding check_tcp_conn readn_error_handler
after_readn c (done negative c') b (part, e, f, g) = record {
  taken = part;
  incoming = e;
  conn = λ h. cc;
  outgoing = f;
}
after_readn c (done (got bytes) c') b (part, k, e, l, f, g) =
    let all : c.incoming ≡ bytes ++ c'.incoming = e ∙ ap (λ x. x ++ c'.incoming) (sym k) in
    record {
      taken = bytes;
      incoming = all;
      conn = conn_bytes bytes (All-front IsByte bytes c'.incoming (subst (All IsByte) all b)).0;
      outgoing = f;
    }
after_readn c (blocked c') b h = tt
after_readn c out_of_fuel b h = h
