-- ===== src/Packets.antt =====
-- packet_structures.h and packet_structures.c: the packed structs, the functions that fill them,
-- the conversions from network order, and the cast of a received buffer to a struct.
-- A struct holds the numbers that its fields read as on the host, which is little-endian:
-- `htobe64(x)` is `byte_swap 8 x`. Its memory is the list of its bytes, with no padding.
pub mod Wire
pub mod Sending
pub mod Reading
pub mod Answers
pub mod Conns
use si_k_1projekt_tcp_udp.Common.{
  ℕ, zero, suc, ◌+◌, List, [], ◌∷◌, ◌++◌, length, ltb, ◌==◌, if◌then◌else◌, get_or, take, drop,
  replicate,
}
use si_k_1projekt_tcp_udp.Common.Bytes.{le_bytes, le_value, byte_swap}
use si_k_1projekt_tcp_udp.Constants.{
  Status, conn_id, conacc_id, conrjt_id, data_id, acc_id, rjt_id, rcvd_id, send_buff_size,
}

pub record Conn : Type 0 where
  pub package_type_id : ℕ
  pub session_id : ℕ
  pub protocol_id : ℕ
  pub nbr_of_bytes_to_be_sent : ℕ

pub record Conacc : Type 0 where
  pub package_type_id : ℕ
  pub session_id : ℕ

pub record Conrjt : Type 0 where
  pub package_type_id : ℕ
  pub session_id : ℕ

pub record DataInfo : Type 0 where
  pub package_type_id : ℕ
  pub session_id : ℕ
  pub package_id : ℕ
  pub nbr_of_bytes_in_packet : ℕ

pub record Data : Type 0 where
  pub package_type_id : ℕ
  pub session_id : ℕ
  pub package_id : ℕ
  pub nbr_of_bytes_in_packet : ℕ
  pub seq_of_bytes : List ℕ

pub record Acc : Type 0 where
  pub package_type_id : ℕ
  pub session_id : ℕ
  pub package_id : ℕ

pub record Rjt : Type 0 where
  pub package_type_id : ℕ
  pub session_id : ℕ
  pub package_id : ℕ

pub record Rcvd : Type 0 where
  pub package_type_id : ℕ
  pub session_id : ℕ

abbrev pub sizeof_conn : ℕ
sizeof_conn = 18

abbrev pub sizeof_conacc : ℕ
sizeof_conacc = 9

abbrev pub sizeof_conrjt : ℕ
sizeof_conrjt = 9

abbrev pub sizeof_data_info : ℕ
sizeof_data_info = 21

abbrev pub sizeof_data : ℕ
sizeof_data = 64021

abbrev pub sizeof_acc : ℕ
sizeof_acc = 17

abbrev pub sizeof_rjt : ℕ
sizeof_rjt = 17

abbrev pub sizeof_rcvd : ℕ
sizeof_rcvd = 9

-- The memory of each struct, as `sendto` and `writen` read it.
abbrev pub conn_memory : Conn → List ℕ
conn_memory c =
    c.package_type_id
    ∷ (le_bytes 8 c.session_id ++ c.protocol_id ∷ le_bytes 8 c.nbr_of_bytes_to_be_sent)

abbrev pub conacc_memory : Conacc → List ℕ
conacc_memory c = c.package_type_id ∷ le_bytes 8 c.session_id

abbrev pub conrjt_memory : Conrjt → List ℕ
conrjt_memory c = c.package_type_id ∷ le_bytes 8 c.session_id

abbrev pub data_memory : Data → List ℕ
data_memory d =
    d.package_type_id
    ∷ (le_bytes 8 d.session_id
        ++ (le_bytes 8 d.package_id ++ (le_bytes 4 d.nbr_of_bytes_in_packet ++ d.seq_of_bytes)))

abbrev pub acc_memory : Acc → List ℕ
acc_memory a = a.package_type_id ∷ (le_bytes 8 a.session_id ++ le_bytes 8 a.package_id)

abbrev pub rjt_memory : Rjt → List ℕ
rjt_memory r = r.package_type_id ∷ (le_bytes 8 r.session_id ++ le_bytes 8 r.package_id)

abbrev pub rcvd_memory : Rcvd → List ℕ
rcvd_memory r = r.package_type_id ∷ le_bytes 8 r.session_id

-- The number in the `n` bytes at offset `i`.
abbrev pub word_at : ℕ → ℕ → List ℕ → ℕ
word_at i n bytes = le_value (take n (drop i bytes))

-- A struct laid over bytes of memory.
abbrev pub conn_at : List ℕ → Conn
conn_at bytes = record {
  package_type_id = get_or bytes 0 0;
  session_id = word_at 1 8 bytes;
  protocol_id = get_or bytes 9 0;
  nbr_of_bytes_to_be_sent = word_at 10 8 bytes;
}

abbrev pub conacc_at : List ℕ → Conacc
conacc_at bytes = record { package_type_id = get_or bytes 0 0; session_id = word_at 1 8 bytes }

abbrev pub data_info_at : List ℕ → DataInfo
data_info_at bytes = record {
  package_type_id = get_or bytes 0 0;
  session_id = word_at 1 8 bytes;
  package_id = word_at 9 8 bytes;
  nbr_of_bytes_in_packet = word_at 17 4 bytes;
}

abbrev pub acc_at : List ℕ → Acc
acc_at bytes = record {
  package_type_id = get_or bytes 0 0;
  session_id = word_at 1 8 bytes;
  package_id = word_at 9 8 bytes;
}

abbrev pub rcvd_at : List ℕ → Rcvd
rcvd_at bytes = record { package_type_id = get_or bytes 0 0; session_id = word_at 1 8 bytes }

unfoldable pub init_conn : ℕ → ℕ → ℕ → Conn
init_conn session_id protocol_id nbr_of_bytes = record {
  package_type_id = conn_id;
  session_id = byte_swap 8 session_id;
  protocol_id = protocol_id;
  nbr_of_bytes_to_be_sent = byte_swap 8 nbr_of_bytes;
}

unfoldable pub init_conacc : ℕ → Conacc
init_conacc session_id = record { package_type_id = conacc_id; session_id = byte_swap 8 session_id }

unfoldable pub init_conrjt : ℕ → Conrjt
init_conrjt session_id = record { package_type_id = conrjt_id; session_id = byte_swap 8 session_id }

-- What `strncpy(dst, src, n)` writes: the string up to its NUL, then NULs, `n` bytes in all.
unfoldable pub str_pad : ℕ → List ℕ → List ℕ
str_pad zero src = []
str_pad (suc n) [] = replicate (suc n) 0
str_pad (suc n) (c ∷ src) = if c == 0 then replicate (suc n) 0 else c ∷ str_pad n src

-- The array `dst` after `strncpy(dst, src, n)`.
abbrev pub strncpy : List ℕ → List ℕ → ℕ → List ℕ
strncpy dst src n = str_pad n src ++ drop n dst

-- The header is filled in before the size is tested, and the bytes after it.
unfoldable pub init_data : Data → ℕ → ℕ → ℕ → List ℕ → Data × Status
init_data d session_id package_id nbr_of_bytes bytes_to_send =
    let header : Data = record {
      package_type_id = data_id;
      session_id = byte_swap 8 session_id;
      package_id = byte_swap 8 package_id;
      nbr_of_bytes_in_packet = byte_swap 4 nbr_of_bytes;
      seq_of_bytes = d.seq_of_bytes;
    } in
    if ltb send_buff_size nbr_of_bytes then (header, Status.error) else (
      record header { seq_of_bytes = strncpy d.seq_of_bytes bytes_to_send nbr_of_bytes },
      Status.success,
    )

unfoldable pub init_data_info : ℕ → ℕ → ℕ → DataInfo × Status
init_data_info session_id package_id nbr_of_bytes = (
  record {
    package_type_id = data_id;
    session_id = byte_swap 8 session_id;
    package_id = byte_swap 8 package_id;
    nbr_of_bytes_in_packet = byte_swap 4 nbr_of_bytes;
  },
  if ltb send_buff_size nbr_of_bytes then Status.error else Status.success,
)

unfoldable pub init_acc : ℕ → ℕ → Acc
init_acc session_id package_id = record {
  package_type_id = acc_id;
  session_id = byte_swap 8 session_id;
  package_id = byte_swap 8 package_id;
}

unfoldable pub init_rjt : ℕ → ℕ → Rjt
init_rjt session_id package_id = record {
  package_type_id = rjt_id;
  session_id = byte_swap 8 session_id;
  package_id = byte_swap 8 package_id;
}

unfoldable pub init_rcvd : ℕ → Rcvd
init_rcvd session_id = record { package_type_id = rcvd_id; session_id = byte_swap 8 session_id }

-- `be64toh` is the swap that `htobe64` is.
unfoldable pub ntoh_conn : Conn → Conn
ntoh_conn c = record c {
  session_id = byte_swap 8 c.session_id;
  nbr_of_bytes_to_be_sent = byte_swap 8 c.nbr_of_bytes_to_be_sent;
}

unfoldable pub ntoh_conacc : Conacc → Conacc
ntoh_conacc c = record c { session_id = byte_swap 8 c.session_id }

-- ntoh_CONRJT and ntoh_RJT are never called.
unfoldable pub ntoh_conrjt : Conrjt → Conrjt
ntoh_conrjt c = record c { session_id = byte_swap 8 c.session_id }

unfoldable pub ntoh_rjt : Rjt → Rjt
ntoh_rjt r = record r {
  session_id = byte_swap 8 r.session_id;
  package_id = byte_swap 8 r.package_id;
}

unfoldable pub ntoh_data_info : DataInfo → DataInfo
ntoh_data_info d = record d {
  session_id = byte_swap 8 d.session_id;
  package_id = byte_swap 8 d.package_id;
  nbr_of_bytes_in_packet = byte_swap 4 d.nbr_of_bytes_in_packet;
}

unfoldable pub ntoh_acc : Acc → Acc
ntoh_acc a = record a {
  session_id = byte_swap 8 a.session_id;
  package_id = byte_swap 8 a.package_id;
}

unfoldable pub ntoh_rcvd : Rcvd → Rcvd
ntoh_rcvd r = record r { session_id = byte_swap 8 r.session_id }

-- The struct's memory after the cast: what the buffer does not cover keeps its old bytes.
unfoldable pub cast_buff_to : List ℕ → ℕ → List ℕ → ℕ → List ℕ
cast_buff_to struct struct_size buff bytes_in_buff =
    if ltb bytes_in_buff struct_size
    then take bytes_in_buff buff ++ drop bytes_in_buff struct
    else take struct_size buff ++ drop struct_size struct

-- `cast_buff_to(&s, sizeof(s), buff, read_bytes)` and then `ntoh_…(&s)`, which stand together
-- wherever a datagram is read. `stack` is what the uninitialised struct holds before.
abbrev pub read_conn : List ℕ → List ℕ → Conn
read_conn stack buff = ntoh_conn (conn_at (cast_buff_to stack sizeof_conn buff (length buff)))

abbrev pub read_conacc : List ℕ → List ℕ → Conacc
read_conacc stack buff =
    ntoh_conacc (conacc_at (cast_buff_to stack sizeof_conacc buff (length buff)))

abbrev pub read_data_info : List ℕ → List ℕ → DataInfo
read_data_info stack buff =
    ntoh_data_info (data_info_at (cast_buff_to stack sizeof_data_info buff (length buff)))

abbrev pub read_acc : List ℕ → List ℕ → Acc
read_acc stack buff = ntoh_acc (acc_at (cast_buff_to stack sizeof_acc buff (length buff)))

abbrev pub read_rcvd : List ℕ → List ℕ → Rcvd
read_rcvd stack buff = ntoh_rcvd (rcvd_at (cast_buff_to stack sizeof_rcvd buff (length buff)))
