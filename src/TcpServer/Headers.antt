-- ===== src/TcpServer/Headers.antt =====
-- What TCP_get_DATA_metainfo and TCP_read_data_to_buf take from the stream.
use si_k_1projekt_tcp_udp.Common.{
  ℕ, ◌≤◌, ◌≡◌, sym, ap, ap₂, subst, ◌∙◌, List, [], ◌∷◌, ◌++◌, append_assoc, append-nil, take_all,
  drop_all, length, All, arith, le→ltb, length-zero,
}
use si_k_1projekt_tcp_udp.Common.Bytes.{IsByte, be_bytes}
use si_k_1projekt_tcp_udp.Constants.{Status}
use si_k_1projekt_tcp_udp.Packets.{
  DataInfo, cast_buff_to, data_info_at, ntoh_data_info, read_data_info,
}
use si_k_1projekt_tcp_udp.Packets.Wire.{data_packet}
use si_k_1projekt_tcp_udp.Packets.Reading.{data_info_bytes, data_info_layout}
use si_k_1projekt_tcp_udp.Stream.{
  Connection, Outcome, done, blocked, out_of_fuel, ReadnResult, negative, got, readn,
  readn_error_handler, bytes_of,
}
use si_k_1projekt_tcp_udp.Stream.Rules.{Post, Post-bind}
use si_k_1projekt_tcp_udp.Stream.Exact.{TakesNext, readn-TakesNext}
use si_k_1projekt_tcp_udp.TcpServer.{
  check_metainfo, tcp_get_data_metainfo, data_status, tcp_read_data_to_buf,
}

-- A struct that a whole packet is read into is the packet.
pub cast_whole :
    (size : ℕ) (bytes : List ℕ)
    → length bytes ≡ size
    → cast_buff_to [] size bytes (length bytes) ≡ bytes
unfolding cast_buff_to
cast_whole size bytes e =
    rw
      (
        le→ltb (length bytes) size (omega arith),
        take_all size bytes (omega arith),
        drop_all {A = ℕ} size [] (omega arith),
      )
      (append-nil bytes)

-- The 21 bytes before the payload of a DATA packet.
abbrev pub data_header : ℕ → ℕ → ℕ → List ℕ
data_header session id n = 4 ∷ (be_bytes 8 session ++ (be_bytes 8 id ++ be_bytes 4 n))

pub data_header-append :
    (session id : ℕ) (payload rest : List ℕ)
    → data_header session id (length payload) ++ (payload ++ rest)
      ≡ data_packet session id payload ++ rest
data_header-append session id payload rest = ap (◌∷◌ 4) (
    append_assoc (be_bytes 8 session) _ (payload ++ rest)
    ∙ ap (◌++◌ (be_bytes 8 session)) (
        append_assoc (be_bytes 8 id) _ (payload ++ rest)
        ∙ ap (◌++◌ (be_bytes 8 id)) (sym (append_assoc (be_bytes 4 (length payload)) payload rest))
        ∙ sym (append_assoc (be_bytes 8 id) _ rest))
    ∙ sym (append_assoc (be_bytes 8 session) _ rest))

success_tests :
    (bytes : List ℕ) (session id : ℕ)
    → check_metainfo (got bytes) session id ≡ Status.success
    → let d = ntoh_data_info (data_info_at bytes) in
      (length bytes ≡ 21)
      × (d.package_type_id ≡ 4)
      × (d.session_id ≡ session)
      × (d.package_id ≡ id)
      × (d.nbr_of_bytes_in_packet ≤ 64000)
unfolding check_metainfo readn_error_handler
success_tests bytes session id h = ground arith

header_bytes :
    (bytes : List ℕ) (session id : ℕ)
    → All IsByte bytes
    → check_metainfo (got bytes) session id ≡ Status.success
    → let d = ntoh_data_info (data_info_at bytes) in
      (bytes ≡ data_header session id d.nbr_of_bytes_in_packet) × (d.nbr_of_bytes_in_packet ≤ 64000)
header_bytes bytes session id b h =
    let (size, type, s, i, fits) = success_tests bytes session id h in
    let d = ntoh_data_info (data_info_at bytes) in
    let (payload, e, l) = data_info_bytes [] bytes (omega arith) b in
    let r : read_data_info [] bytes ≡ d =
      ap (λ m. ntoh_data_info (data_info_at m)) (cast_whole 21 bytes size) in
    let z : payload ≡ [] = length-zero payload (omega arith) in
    (
      e ∙ ap₂ data_info_layout r z ∙ (λ k.
          type k
          ∷ (be_bytes 8 (s k)
              ++ (be_bytes 8 (i k) ++ append-nil (be_bytes 4 d.nbr_of_bytes_in_packet) k))),
      fits,
    )

-- What is taken of the stream, and where the check succeeds it is the header of a DATA packet.
pub record HeaderRead (session id : ℕ) (c : Connection) (r : Status × DataInfo) (c' : Connection)
    : Type 0 where
  pub taken : List ℕ
  pub incoming : c.incoming ≡ taken ++ c'.incoming
  pub header :
      r.0 ≡ Status.success
      → (taken ≡ data_header session id r.1.nbr_of_bytes_in_packet)
        × (r.1.nbr_of_bytes_in_packet ≤ 64000)
  pub outgoing : c'.outgoing ≡ c.outgoing
  pub closed : c'.closed ≡ c.closed

pub All-front : (P : ℕ → Type 0) (xs ys : List ℕ) → All P (xs ++ ys) → All P xs × All P ys
All-front P [] ys h = (tt, h)
All-front P (x ∷ xs) ys h = let (a, b) = All-front P xs ys h.1 in ((h.0, a), b)

after_readn :
    (session id : ℕ) (c : Connection) (o : Outcome ReadnResult)
    → All IsByte c.incoming
    → TakesNext [] 21 c o
    → Post
        (λ r c'.
          HeaderRead session id c
            (check_metainfo r session id, ntoh_data_info (data_info_at (bytes_of r)))
            c')
        (λ c'. Unit {0})
        o
unfolding check_metainfo readn_error_handler
after_readn session id c (done negative c') b (part, e, f, g) = record {
  taken = part;
  incoming = e;
  header = λ h. cc;
  outgoing = f;
  closed = g;
}
after_readn session id c (done (got bytes) c') b (part, k, e, l, f, g) =
    let all : c.incoming ≡ bytes ++ c'.incoming = e ∙ ap (λ x. x ++ c'.incoming) (sym k) in
    record {
      taken = bytes;
      incoming = all;
      header =
          header_bytes bytes session id
            (All-front IsByte bytes c'.incoming (subst (All IsByte) all b)).0;
      outgoing = f;
      closed = g;
    }
after_readn session id c (blocked c') b h = tt
after_readn session id c out_of_fuel b h = h

pub tcp_get_data_metainfo-HeaderRead :
    (session id : ℕ) (c : Connection)
    → All IsByte c.incoming
    → Post (HeaderRead session id c) (λ c'. Unit {0}) (tcp_get_data_metainfo session id c)
unfolding tcp_get_data_metainfo
tcp_get_data_metainfo-HeaderRead session id c b =
    Post-bind
      (λ r c'.
        HeaderRead session id c
          (check_metainfo r session id, ntoh_data_info (data_info_at (bytes_of r))) c')
      (HeaderRead session id c) (λ c'. Unit {0}) (λ c'. Unit {0}) (readn 21) _ c
      (after_readn session id c _ b (readn-TakesNext 21 c)) (λ r c' h. h) (λ c' u. u)

-- The payload that is read, whole where the call succeeds.
pub record PayloadRead (n : ℕ) (c : Connection) (status : Status) (c' : Connection) : Type 0 where
  pub taken : List ℕ
  pub incoming : c.incoming ≡ taken ++ c'.incoming
  pub whole : status ≡ Status.success → length taken ≡ n
  pub outgoing : c'.outgoing ≡ c.outgoing
  pub closed : c'.closed ≡ c.closed

after_data_readn :
    (n : ℕ) (c : Connection) (o : Outcome ReadnResult)
    → TakesNext [] n c o
    → Post (λ r c'. PayloadRead n c (data_status n r) c') (λ c'. Unit {0}) o
after_data_readn n c (done negative c') (part, e, f, g) = record {
  taken = part;
  incoming = e;
  whole = λ h. cc;
  outgoing = f;
  closed = g;
}
after_data_readn n c (done (got bytes) c') (part, k, e, l, f, g) = record {
  taken = bytes;
  incoming = e ∙ ap (λ x. x ++ c'.incoming) (sym k);
  whole = λ h. ground arith;
  outgoing = f;
  closed = g;
}
after_data_readn n c (blocked c') h = tt
after_data_readn n c out_of_fuel h = h

pub tcp_read_data_to_buf-PayloadRead :
    (n : ℕ) (c : Connection) → Post (PayloadRead n c) (λ c'. Unit {0}) (tcp_read_data_to_buf n c)
unfolding tcp_read_data_to_buf
tcp_read_data_to_buf-PayloadRead n c =
    Post-bind (λ r c'. PayloadRead n c (data_status n r) c') (PayloadRead n c) (λ c'. Unit {0})
      (λ c'. Unit {0}) (readn n) _ c (after_data_readn n c _ (readn-TakesNext n c)) (λ r c' h. h)
      (λ c' u. u)
