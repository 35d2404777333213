-- ===== src/Client/Packing.antt =====
-- What the clients put into DATA packets: the packet's bytes on the wire, and how the data is cut.
use si_k_1projekt_tcp_udp.Common.{
  ℕ, zero, suc, ◌≤◌, ◌≡◌, ◌≢◌, refl, sym, ap, ap₂, ◌∙◌, inl, inr, List, [], ◌∷◌, ◌++◌, append_assoc,
  ◌==◌, Bool-cases, take, drop, replicate, length, get_or, length-replicate, All, arith, le→ltb,
}
use si_k_1projekt_tcp_udp.Common.Bytes.{be_bytes, le_bytes-byte_swap, byte_swap, byte_swap_swap}
use si_k_1projekt_tcp_udp.Constants.{Status}
use si_k_1projekt_tcp_udp.Packets.{Data, data_memory, str_pad, init_data}
use si_k_1projekt_tcp_udp.Packets.Wire.{data_packet}
use si_k_1projekt_tcp_udp.MyVec.{MyVec}
use si_k_1projekt_tcp_udp.Client.{fill_data}

pub length-str_pad : (n : ℕ) (xs : List ℕ) → length (str_pad n xs) ≡ n
unfolding str_pad
length-str_pad zero xs = refl
length-str_pad (suc n) [] = length-replicate {A = ℕ} (suc n) 0
length-str_pad (suc n) (x ∷ xs) = ground (arith, length-str_pad n xs, length-replicate {A = ℕ} n 0)

str_pad-replicate : (n : ℕ) (ys : List ℕ) → str_pad n (replicate n 0 ++ ys) ≡ replicate n 0
unfolding str_pad
str_pad-replicate zero ys = refl
str_pad-replicate (suc n) ys = refl

-- Copying a copy changes nothing.
pub str_pad-str_pad : (n : ℕ) (xs ys : List ℕ) → str_pad n (str_pad n xs ++ ys) ≡ str_pad n xs
unfolding str_pad
str_pad-str_pad zero xs ys = refl
str_pad-str_pad (suc n) [] ys = refl
str_pad-str_pad (suc n) (x ∷ xs) ys = elim (Bool-cases (x == 0)) [
  | inl nul ↦ rw nul refl
  | inr char ↦ rw char (rw char (ap (◌∷◌ x) (str_pad-str_pad n xs ys)))
]

-- Without a NUL the copy is the bytes.
pub str_pad-take :
    (n : ℕ) (xs : List ℕ) → n ≤ length xs → All (λ x. x ≢ 0) (take n xs) → str_pad n xs ≡ take n xs
unfolding str_pad
str_pad-take zero xs h k = refl
str_pad-take (suc n) [] h k = absurd (omega arith)
str_pad-take (suc n) (x ∷ xs) h k = ground (arith, str_pad-take n xs)

get_or-replicate : (n j : ℕ) → ◌≡◌ {A = ℕ} (get_or (replicate n 0) j 0) 0
get_or-replicate zero j = refl
get_or-replicate (suc n) zero = refl
get_or-replicate (suc n) (suc j) = get_or-replicate n j

-- `strncpy` ends at a NUL: whatever stands at or after it is copied as NUL.
pub str_pad_after_nul :
    (n : ℕ) (xs : List ℕ) (i j : ℕ) → get_or xs i 0 ≡ 0 → i ≤ j → get_or (str_pad n xs) j 0 ≡ 0
unfolding str_pad
str_pad_after_nul zero xs i j h k = refl
str_pad_after_nul (suc n) [] i j h k = get_or-replicate (suc n) j
str_pad_after_nul (suc n) (x ∷ xs) zero j h k = rw h (get_or-replicate (suc n) j)
str_pad_after_nul (suc n) (x ∷ xs) (suc i) zero h k = absurd (omega arith)
str_pad_after_nul (suc n) (x ∷ xs) (suc i) (suc j) h k = elim (Bool-cases (x == 0)) [
  | inl nul ↦ rw nul (get_or-replicate n j)
  | inr char ↦ rw char (str_pad_after_nul n xs i j h (omega arith))
]

data_packet_append :
    (session id : ℕ) (payload rest : List ℕ)
    → data_packet session id payload ++ rest
      ≡ 4
        ∷ (be_bytes 8 session
            ++ (be_bytes 8 id ++ (be_bytes 4 (length payload) ++ (payload ++ rest))))
data_packet_append session id payload rest = ap (◌∷◌ 4) (
    append_assoc (be_bytes 8 session) _ rest
    ∙ ap (◌++◌ (be_bytes 8 session)) (
        append_assoc (be_bytes 8 id) _ rest
        ∙ ap (◌++◌ (be_bytes 8 id)) (append_assoc (be_bytes 4 (length payload)) payload rest)))

-- A packet of at most 64000 bytes is put into the struct, whose memory begins with the protocol's
-- DATA packet: the bytes that `strncpy` takes from the data. The array goes on behind it.
pub fill_data-data_packet :
    (d : Data) (vec : MyVec) (session id start n : ℕ)
    → n ≤ 64000
    → (data_memory (fill_data d vec session id start n).0
        ≡ data_packet session id (str_pad n (drop start vec.buff)) ++ drop n d.seq_of_bytes)
      × ((fill_data d vec session id start n).1 ≡ Status.success)
unfolding fill_data init_data
fill_data-data_packet d vec session id start n fits = rw (le→ltb 64000 n fits) (
  ap₂ (λ a b. 4 ∷ (a ++ b)) (le_bytes-byte_swap 8 session)
        (ap₂ (λ a b. a ++ b) (le_bytes-byte_swap 8 id)
          (ap₂ (λ a b. a ++ (b ++ drop n d.seq_of_bytes))
            (le_bytes-byte_swap 4 n
              ∙ ap (be_bytes 4) (sym (length-str_pad n (drop start vec.buff))))
            (str_pad-str_pad n (drop start vec.buff) (drop n (replicate 64001 0)))))
      ∙ sym
          (data_packet_append session id (str_pad n (drop start vec.buff)) (drop n d.seq_of_bytes)),
  refl,
)

-- How many bytes of the struct are sent.
pub fill_data-size :
    (d : Data) (vec : MyVec) (session id start n : ℕ)
    → n ≤ 64000
    → byte_swap 4 (fill_data d vec session id start n).0.nbr_of_bytes_in_packet ≡ n
unfolding fill_data init_data
fill_data-size d vec session id start n fits =
    rw (le→ltb 64000 n fits) (byte_swap_swap 4 n (omega arith))
