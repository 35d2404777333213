-- ===== src/TcpServer/Taking.antt =====
-- Calls of TCP_get_DATA_metainfo and TCP_read_data_to_buf on a stream that holds what they ask for.
use si_k_1projekt_tcp_udp.Common.{
  ℕ, ◌^◌, ◌≤◌, ◌<◌, ◌≡◌, refl, sym, ap, ◌∙◌, List, [], ◌++◌, append-nil, length, All, arith,
}
use si_k_1projekt_tcp_udp.Common.Bytes.{be_bytes, length-be_bytes}
use si_k_1projekt_tcp_udp.Constants.{Status}
use si_k_1projekt_tcp_udp.Packets.{DataInfo, data_info_at, ntoh_data_info}
use si_k_1projekt_tcp_udp.Packets.Wire.{data_info_at_fields, swap_be}
use si_k_1projekt_tcp_udp.Stream.{Connection, got, readn, readn_error_handler, bytes_of}
use si_k_1projekt_tcp_udp.Stream.Rules.{Post, Post-bind}
use si_k_1projekt_tcp_udp.Stream.Delivering.{Took, reads_part, GivesBytes}
use si_k_1projekt_tcp_udp.TcpServer.{
  check_metainfo, tcp_get_data_metainfo, data_status, tcp_read_data_to_buf,
}
use si_k_1projekt_tcp_udp.TcpServer.Headers.{data_header}
use si_k_1projekt_tcp_udp.TcpServer.Looping.{length-data_header}

abbrev pub data_info_of : ℕ → ℕ → ℕ → DataInfo
data_info_of session id n = record {
  package_type_id = 4;
  session_id = session;
  package_id = id;
  nbr_of_bytes_in_packet = n;
}

header_fields :
    (session id n : ℕ)
    → session < 2 ^ 64
    → id < 2 ^ 64
    → n < 2 ^ 32
    → ntoh_data_info (data_info_at (data_header session id n)) ≡ data_info_of session id n
unfolding ntoh_data_info
header_fields session id n hs hi hn =
    ap (λ l. ntoh_data_info (data_info_at l)) (sym (append-nil (data_header session id n)))
    ∙ ap ntoh_data_info (
        data_info_at_fields 4 (be_bytes 8 session) (be_bytes 8 id) (be_bytes 4 n) []
          (length-be_bytes 8 session) (length-be_bytes 8 id) (length-be_bytes 4 n))
    ∙ (λ i. data_info_of (swap_be 8 session hs i) (swap_be 8 id hi i) (swap_be 4 n hn i))

header_accepted :
    (session id n : ℕ)
    → session < 2 ^ 64
    → id < 2 ^ 64
    → n ≤ 64000
    → check_metainfo (got (data_header session id n)) session id ≡ Status.success
unfolding check_metainfo readn_error_handler
header_accepted session id n hs hi hn =
    let e = header_fields session id n hs hi (omega arith) in
    ground (
      arith,
      length-data_header session id n,
      ap (λ (d : DataInfo). d.package_type_id) e,
      ap (λ (d : DataInfo). d.session_id) e,
      ap (λ (d : DataInfo). d.package_id) e,
      ap (λ (d : DataInfo). d.nbr_of_bytes_in_packet) e,
    )

pub tcp_get_data_metainfo-Took :
    (session id n : ℕ) (after : List ℕ) (c : Connection)
    → All GivesBytes c.reads
    → session < 2 ^ 64
    → id < 2 ^ 64
    → n ≤ 64000
    → c.incoming ≡ data_header session id n ++ after
    → Post
        (λ r c'. (r ≡ (Status.success, data_info_of session id n)) × Took after c c')
        (λ c'. ⊥)
        (tcp_get_data_metainfo session id c)
unfolding tcp_get_data_metainfo
tcp_get_data_metainfo-Took session id n after c h hs hi hn e =
    Post-bind _ _ (λ c'. ⊥) (λ c'. ⊥) (readn 21) _ c
      (reads_part (λ r. (check_metainfo r session id, ntoh_data_info (data_info_at (bytes_of r))))
        (Status.success, data_info_of session id n) 21 (data_header session id n) after c h
        (length-data_header session id n) e
        (λ i. (
          header_accepted session id n hs hi hn i,
          header_fields session id n hs hi (omega arith) i,
        )))
      (λ r c' g. g) (λ c' b. b)

pub tcp_read_data_to_buf-Took :
    (part after : List ℕ) (c : Connection)
    → All GivesBytes c.reads
    → c.incoming ≡ part ++ after
    → Post
        (λ status c'. (status ≡ Status.success) × Took after c c')
        (λ c'. ⊥)
        (tcp_read_data_to_buf (length part) c)
unfolding tcp_read_data_to_buf
tcp_read_data_to_buf-Took part after c h e =
    Post-bind _ _ (λ c'. ⊥) (λ c'. ⊥) (readn (length part)) _ c
      (reads_part (data_status (length part)) Status.success (length part) part after c h refl e
        (ground arith))
      (λ r c' g. g) (λ c' b. b)
