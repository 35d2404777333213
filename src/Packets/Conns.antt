-- ===== src/Packets/Conns.antt =====
-- Reading a CONN packet, and what is read back of every packet that a program fills and sends.
use si_k_1projekt_tcp_udp.Common.{
  ℕ, zero, suc, ◌^◌, ◌<◌, ◌≡◌, refl, sym, ap, ap₂, ◌∙◌, List, [], ◌∷◌, ◌++◌, append-nil,
  append_assoc, arith, length, get_or, length-append, All,
}
use si_k_1projekt_tcp_udp.Common.Bytes.{
  IsByte, be_bytes, le_value, byte_swap, be_bytes-byte_swap, length-be_bytes, le_bytes-byte_swap,
}
use si_k_1projekt_tcp_udp.Packets.{
  Conn, Rcvd, read_conn, read_conacc, read_acc, read_rcvd, conn_at, ntoh_conn, init_conn,
  init_conacc, init_acc, init_rcvd, conn_memory, conacc_memory, acc_memory, rcvd_memory,
}
use si_k_1projekt_tcp_udp.Packets.Wire.{
  conn_packet, short_packet, cast_prefix, word_at_mid, swap_be,
}
use si_k_1projekt_tcp_udp.Packets.Reading.{split_at}
use si_k_1projekt_tcp_udp.Packets.Answers.{
  read_acc-numbered_packet, read_rcvd-short_packet, read_conacc-as_rcvd,
}

get_or-mid : (i : ℕ) (pre post : List ℕ) (x : ℕ) → length pre ≡ i → get_or (pre ++ x ∷ post) i 0 ≡ x
get_or-mid zero [] post x e = refl
get_or-mid zero (y ∷ pre) post x e = absurd (omega arith)
get_or-mid (suc i) [] post x e = absurd (omega arith)
get_or-mid (suc i) (y ∷ pre) post x e = get_or-mid i pre post x (omega arith)

-- The struct over memory that begins with a CONN packet's fields.
pub conn_at_fields :
    (x y : ℕ) (a b tail : List ℕ)
    → length a ≡ 8
    → length b ≡ 8
    → conn_at ((x ∷ (a ++ y ∷ b)) ++ tail) ≡ record {
      package_type_id = x;
      session_id = le_value a;
      protocol_id = y;
      nbr_of_bytes_to_be_sent = le_value b;
    }
conn_at_fields x y a b tail la lb = λ i. record {
  package_type_id = x;
  session_id = first i;
  protocol_id = second i;
  nbr_of_bytes_to_be_sent = third i;
}
  where
    regrouped : (x ∷ (a ++ y ∷ b)) ++ tail ≡ x ∷ (a ++ y ∷ (b ++ tail))
    regrouped = ap (◌∷◌ x) (append_assoc a (y ∷ b) tail)

    first : (conn_at ((x ∷ (a ++ y ∷ b)) ++ tail)).session_id ≡ le_value a
    first =
        ap (λ l. (conn_at l).session_id) regrouped
        ∙ word_at_mid 1 8 (x ∷ []) a (y ∷ (b ++ tail)) refl la

    second : get_or ((x ∷ (a ++ y ∷ b)) ++ tail) 9 0 ≡ y
    second = ap (λ l. get_or l 9 0) regrouped ∙ get_or-mid 9 (x ∷ a) (b ++ tail) y (omega arith)

    third : (conn_at ((x ∷ (a ++ y ∷ b)) ++ tail)).nbr_of_bytes_to_be_sent ≡ le_value b
    third =
        ap (λ l. (conn_at l).nbr_of_bytes_to_be_sent)
          (regrouped ∙ ap (◌∷◌ x) (sym (append_assoc a (y ∷ []) (b ++ tail))))
        ∙ word_at_mid 10 8 (x ∷ (a ++ y ∷ [])) b tail (omega (arith, length-append a (y ∷ []))) lb

conn_cast :
    (stack : List ℕ) (x y : ℕ) (a b : List ℕ)
    → length a ≡ 8
    → length b ≡ 8
    → read_conn stack (x ∷ (a ++ y ∷ b)) ≡ record {
      package_type_id = x;
      session_id = byte_swap 8 (le_value a);
      protocol_id = y;
      nbr_of_bytes_to_be_sent = byte_swap 8 (le_value b);
    }
unfolding ntoh_conn
conn_cast stack x y a b la lb =
    let (tail, e) =
      cast_prefix stack 18 (x ∷ (a ++ y ∷ b)) [] (omega (arith, length-append a (y ∷ b))) in
    ap (read_conn stack) (sym (append-nil (x ∷ (a ++ y ∷ b))))
    ∙ ap (λ l. ntoh_conn (conn_at l)) e
    ∙ ap ntoh_conn (conn_at_fields x y a b tail la lb)

pub read_conn-conn_packet :
    (stack : List ℕ) (session protocol nbr : ℕ)
    → session < 2 ^ 64
    → nbr < 2 ^ 64
    → read_conn stack (conn_packet session protocol nbr) ≡ record {
      package_type_id = 1;
      session_id = session;
      protocol_id = protocol;
      nbr_of_bytes_to_be_sent = nbr;
    }
read_conn-conn_packet stack session protocol nbr hs hn =
    conn_cast stack 1 protocol _ _ (length-be_bytes 8 session) (length-be_bytes 8 nbr) ∙ (λ i.
      record {
        package_type_id = 1;
        session_id = swap_be 8 session hs i;
        protocol_id = protocol;
        nbr_of_bytes_to_be_sent = swap_be 8 nbr hn i;
      })

-- The protocol's layout of the fields of a CONN packet.
abbrev pub conn_layout : Conn → List ℕ
conn_layout r =
    r.package_type_id
    ∷ (be_bytes 8 r.session_id ++ r.protocol_id ∷ be_bytes 8 r.nbr_of_bytes_to_be_sent)

conn_parts_read :
    (stack : List ℕ) (x : ℕ) (a r : List ℕ)
    → length a ≡ 8
    → length r ≡ 9
    → All IsByte a
    → All IsByte r
    → x ∷ (a ++ r) ≡ conn_layout (read_conn stack (x ∷ (a ++ r)))
conn_parts_read stack x a [] la lr ba br = absurd (omega arith)
conn_parts_read stack x a (y ∷ b) la lr ba br =
    ap₂ (λ l m. x ∷ (l ++ y ∷ m)) (sym (be_bytes-byte_swap 8 a la ba))
      (sym (be_bytes-byte_swap 8 b (omega arith) br.1))
    ∙ sym (ap conn_layout (conn_cast stack x y a b la (omega arith)))

-- The bytes of a datagram of CONN's length, from the fields that are read.
pub conn_bytes_read :
    (stack buff : List ℕ)
    → length buff ≡ 18
    → All IsByte buff
    → buff ≡ conn_layout (read_conn stack buff)
conn_bytes_read stack [] h bytes = absurd (omega arith)
conn_bytes_read stack (x ∷ buff) h bytes =
    let (a, r, la, e, ba, br) = split_at 8 buff (omega arith) bytes.1 in
    ap (◌∷◌ x) e
    ∙ conn_parts_read stack x a r la (omega (arith, ap length e, length-append a r)) ba br
    ∙ sym (ap (λ l. conn_layout (read_conn stack (x ∷ l))) e)

-- What a program fills in with init_CONN, init_CONACC, init_ACC or init_RCVD and sends is what the
-- other program reads, after the cast of its buffer and the conversion from network order, whatever
-- its uninitialised struct held: the type of the packet, and each number as it was given. (The
-- numbers are below 2^64.)
pub read-init :
    (stack : List ℕ) (session number : ℕ) (protocol : ℕ)
    → session < 2 ^ 64
    → number < 2 ^ 64
    → (read_conn stack (conn_memory (init_conn session protocol number)) ≡ record {
      package_type_id = 1;
      session_id = session;
      protocol_id = protocol;
      nbr_of_bytes_to_be_sent = number;
    })
      × (read_conacc stack (conacc_memory (init_conacc session))
          ≡ record { package_type_id = 2; session_id = session })
      × (read_acc stack (acc_memory (init_acc session number))
          ≡ record { package_type_id = 5; session_id = session; package_id = number })
      × (read_rcvd stack (rcvd_memory (init_rcvd session))
          ≡ record { package_type_id = 7; session_id = session })
unfolding init_conn init_conacc init_acc init_rcvd
read-init stack session number protocol hs hn = (
  ap₂ (λ l m. read_conn stack (1 ∷ (l ++ protocol ∷ m))) (le_bytes-byte_swap 8 session)
        (le_bytes-byte_swap 8 number)
      ∙ read_conn-conn_packet stack session protocol number hs hn,
  ap (λ l. read_conacc stack (2 ∷ l)) (le_bytes-byte_swap 8 session) ∙ (λ i. record {
    package_type_id = (conacc.0 ∙ ap (λ (r : Rcvd). r.package_type_id) rcvd) i;
    session_id = (conacc.1 ∙ ap (λ (r : Rcvd). r.session_id) rcvd) i;
  }),
  ap₂ (λ l m. read_acc stack (5 ∷ (l ++ m))) (le_bytes-byte_swap 8 session)
        (le_bytes-byte_swap 8 number)
      ∙ read_acc-numbered_packet stack 5 session number hs hn,
  ap (λ l. read_rcvd stack (7 ∷ l)) (le_bytes-byte_swap 8 session)
      ∙ read_rcvd-short_packet stack 7 session hs,
)
  where
    conacc :
        ((read_conacc stack (short_packet 2 session)).package_type_id
          ≡ (read_rcvd stack (short_packet 2 session)).package_type_id)
        × ((read_conacc stack (short_packet 2 session)).session_id
            ≡ (read_rcvd stack (short_packet 2 session)).session_id)
    conacc = read_conacc-as_rcvd stack (short_packet 2 session)

    rcvd :
        read_rcvd stack (short_packet 2 session)
        ≡ record { package_type_id = 2; session_id = session }
    rcvd = read_rcvd-short_packet stack 2 session hs
