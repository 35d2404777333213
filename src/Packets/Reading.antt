-- ===== src/Packets/Reading.antt =====
-- Reading a received packet, whatever the struct held before: a packet in the protocol's format
-- gives its fields back, and the fields determine the bytes.
use si_k_1projekt_tcp_udp.Common.{
  ℕ, ◌+◌, ◌^◌, ◌≤◌, ◌<◌, ◌≡◌, sym, ap, ap₂, ◌∙◌, List, [], ◌∷◌, ◌++◌, append_assoc, arith, length,
  take, drop, length-append, take-append-drop, length-take, All, take-All, drop-All,
}
use si_k_1projekt_tcp_udp.Common.Bytes.{
  IsByte, le_value, be_bytes, byte_swap, be_bytes-byte_swap, length-be_bytes,
}
use si_k_1projekt_tcp_udp.Packets.{DataInfo, read_data_info, data_info_at, ntoh_data_info}
use si_k_1projekt_tcp_udp.Packets.Wire.{data_packet, cast_prefix, data_info_at_fields, swap_be}

-- The buffer's first five fields, each of its own length.
data_info_cast :
    (stack : List ℕ) (x : ℕ) (a b c rest : List ℕ)
    → length a ≡ 8
    → length b ≡ 8
    → length c ≡ 4
    → read_data_info stack (x ∷ (a ++ (b ++ (c ++ rest)))) ≡ record {
      package_type_id = x;
      session_id = byte_swap 8 (le_value a);
      package_id = byte_swap 8 (le_value b);
      nbr_of_bytes_in_packet = byte_swap 4 (le_value c);
    }
unfolding ntoh_data_info
data_info_cast stack x a b c rest la lb lc =
    let (tail, e) =
      cast_prefix stack 21 (x ∷ (a ++ (b ++ c))) rest
        (omega (arith, length-append a (b ++ c), length-append b c)) in
    ap (read_data_info stack) (sym regroup)
    ∙ ap (λ l. ntoh_data_info (data_info_at l)) e
    ∙ ap ntoh_data_info (data_info_at_fields x a b c tail la lb lc)
  where
    regroup : (x ∷ (a ++ (b ++ c))) ++ rest ≡ x ∷ (a ++ (b ++ (c ++ rest)))
    regroup = ap (◌∷◌ x) (append_assoc a (b ++ c) rest ∙ ap (◌++◌ a) (append_assoc b c rest))

pub read_data_info-data_packet :
    (stack : List ℕ) (session id : ℕ) (payload : List ℕ)
    → session < 2 ^ 64
    → id < 2 ^ 64
    → length payload < 2 ^ 32
    → read_data_info stack (data_packet session id payload) ≡ record {
      package_type_id = 4;
      session_id = session;
      package_id = id;
      nbr_of_bytes_in_packet = length payload;
    }
read_data_info-data_packet stack session id payload hs hi hp =
    data_info_cast stack 4 _ _ _ payload (length-be_bytes 8 session) (length-be_bytes 8 id)
      (length-be_bytes 4 (length payload))
    ∙ (λ i. record {
      package_type_id = 4;
      session_id = swap_be 8 session hs i;
      package_id = swap_be 8 id hi i;
      nbr_of_bytes_in_packet = swap_be 4 (length payload) hp i;
    })

pub split_at :
    (n : ℕ) (xs : List ℕ)
    → n ≤ length xs
    → All IsByte xs
    → (ys : List ℕ) × (zs : List ℕ) × (length ys ≡ n)
      × (xs ≡ ys ++ zs)
      × All IsByte ys
      × All IsByte zs
split_at n xs h b = (
  take n xs,
  drop n xs,
  omega (arith, length-take n xs),
  sym (take-append-drop n xs),
  take-All IsByte n xs b,
  drop-All IsByte n xs b,
)

-- The protocol's layout of a DATA header and what follows it.
abbrev pub data_info_layout : DataInfo → List ℕ → List ℕ
data_info_layout d payload =
    d.package_type_id
    ∷ (be_bytes 8 d.session_id
        ++ (be_bytes 8 d.package_id ++ (be_bytes 4 d.nbr_of_bytes_in_packet ++ payload)))

data_info_layout_fields :
    (x : ℕ) (a b c t : List ℕ)
    → length a ≡ 8
    → length b ≡ 8
    → length c ≡ 4
    → All IsByte a
    → All IsByte b
    → All IsByte c
    → data_info_layout
        (record {
          package_type_id = x;
          session_id = byte_swap 8 (le_value a);
          package_id = byte_swap 8 (le_value b);
          nbr_of_bytes_in_packet = byte_swap 4 (le_value c);
        })
        t
      ≡ x ∷ (a ++ (b ++ (c ++ t)))
data_info_layout_fields x a b c t la lb lc ba bb bc = ap (◌∷◌ x) (
    ap₂ ◌++◌ (be_bytes-byte_swap 8 a la ba)
      (ap₂ ◌++◌ (be_bytes-byte_swap 8 b lb bb) (ap (λ l. l ++ t) (be_bytes-byte_swap 4 c lc bc))))

-- The bytes of a datagram that covers the header, from the fields that are read.
pub data_info_bytes :
    (stack buff : List ℕ)
    → 21 ≤ length buff
    → All IsByte buff
    → (payload : List ℕ) × (buff ≡ data_info_layout (read_data_info stack buff) payload)
      × (length buff ≡ 21 + length payload)
data_info_bytes stack [] h bytes = absurd (omega arith)
data_info_bytes stack (x ∷ buff) h bytes =
    let (a, r, la, ea, ba, br) = split_at 8 buff (omega arith) bytes.1 in
    let (b, s, lb, eb, bb, bs) = split_at 8 r (omega (arith, ap length ea, length-append a r)) br in
    let (c, t, lc, ec, bc, bt) =
      split_at 4 s (omega (arith, ap length ea, length-append a r, ap length eb, length-append b s))
        bs in
    let e : buff ≡ a ++ (b ++ (c ++ t)) = ea ∙ ap (◌++◌ a) (eb ∙ ap (◌++◌ b) ec) in
    let d = ap (read_data_info stack) (ap (◌∷◌ x) e) ∙ data_info_cast stack x a b c t la lb lc in
    (
      t,
      ap (◌∷◌ x) e
          ∙ sym (data_info_layout_fields x a b c t la lb lc ba bb bc)
          ∙ sym (ap (λ f. data_info_layout f t) d),
      omega (
        arith,
        ap length ea,
        length-append a r,
        ap length eb,
        length-append b s,
        ap length ec,
        length-append c t,
      ),
    )
