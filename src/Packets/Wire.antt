-- ===== src/Packets/Wire.antt =====
-- The formats that the protocol gives for its packets, and how a struct laid over received bytes
-- reads them.
use si_k_1projekt_tcp_udp.Common.{
  ℕ, zero, suc, ◌-◌, ◌^◌, ◌≤◌, ◌<◌, ◌≡◌, refl, sym, ap, ◌∙◌, List, [], ◌∷◌, ◌++◌, append_assoc,
  arith, ltb, length, take, drop, length-append, take-append_left, drop-append_left, take_all, inl,
  inr, Bool-cases,
}
use si_k_1projekt_tcp_udp.Common.Bytes.{
  le_value, be_bytes, byte_swap, le_bytes-byte_swap, byte_swap_swap, byte_swap-lt,
  le_value-le_bytes,
}
use si_k_1projekt_tcp_udp.Packets.{data_info_at, acc_at, word_at, cast_buff_to}

-- Type and session: CONACC (2), CONRJT (3), RCVD (7).
abbrev pub short_packet : ℕ → ℕ → List ℕ
short_packet type session = type ∷ be_bytes 8 session

-- Type, session and packet number: ACC (5), RJT (6).
abbrev pub numbered_packet : ℕ → ℕ → ℕ → List ℕ
numbered_packet type session id = type ∷ (be_bytes 8 session ++ be_bytes 8 id)

abbrev pub conn_packet : ℕ → ℕ → ℕ → List ℕ
conn_packet session protocol nbr = 1 ∷ (be_bytes 8 session ++ protocol ∷ be_bytes 8 nbr)

abbrev pub data_packet : ℕ → ℕ → List ℕ → List ℕ
data_packet session id payload =
    4 ∷ (be_bytes 8 session ++ (be_bytes 8 id ++ (be_bytes 4 (length payload) ++ payload)))

-- A cast keeps a prefix of the buffer that fits the struct.
take-append_right {ℓ} :
    {A : Type ℓ} (n : ℕ) (xs ys : List A)
    → length xs ≤ n
    → take n (xs ++ ys) ≡ xs ++ take (n - length xs) ys
take-append_right zero [] ys h = refl
take-append_right zero (x ∷ xs) ys h = absurd (omega arith)
take-append_right (suc n) [] ys h = let e : suc n ≡ suc n - 0 = omega arith in ap (λ k. take k ys) e
take-append_right (suc n) (x ∷ xs) ys h =
    let e : suc n - suc (length xs) ≡ n - length xs = omega arith in
    ap (◌∷◌ x) (take-append_right n xs ys (omega arith) ∙ ap (λ k. xs ++ take k ys) (sym e))

pub cast_prefix :
    (struct : List ℕ) (size : ℕ) (pre rest : List ℕ)
    → length pre ≤ size
    → (tail : List ℕ) × (cast_buff_to struct size (pre ++ rest) (length (pre ++ rest))
        ≡ pre ++ tail)
unfolding cast_buff_to
cast_prefix struct size pre rest h = elim (Bool-cases (ltb (length (pre ++ rest)) size)) [
  | inl short ↦ (
    rest ++ drop (length (pre ++ rest)) struct,
    rw (short, take_all (length (pre ++ rest)) (pre ++ rest) (omega arith))
        (append_assoc pre rest _),
  )
  | inr long ↦ (
    take (size - length pre) rest ++ drop size struct,
    rw (long, take-append_right size pre rest h) (append_assoc pre _ _),
  )
]

pub word_at_mid :
    (i n : ℕ) (pre w post : List ℕ)
    → length pre ≡ i
    → length w ≡ n
    → word_at i n (pre ++ (w ++ post)) ≡ le_value w
word_at_mid i n pre w post e f =
    ap (λ l. le_value (take n l)) (drop-append_left i pre (w ++ post) e)
    ∙ ap le_value (take-append_left n w post f)

-- How the structs read memory that begins with their fields.
pub data_info_at_fields :
    (x : ℕ) (a b c tail : List ℕ)
    → length a ≡ 8
    → length b ≡ 8
    → length c ≡ 4
    → data_info_at ((x ∷ (a ++ (b ++ c))) ++ tail) ≡ record {
      package_type_id = x;
      session_id = le_value a;
      package_id = le_value b;
      nbr_of_bytes_in_packet = le_value c;
    }
data_info_at_fields x a b c tail la lb lc = λ i. record {
  package_type_id = x;
  session_id = first i;
  package_id = second i;
  nbr_of_bytes_in_packet = third i;
}
  where
    first : word_at 1 8 ((x ∷ (a ++ (b ++ c))) ++ tail) ≡ le_value a
    first =
        ap (λ l. word_at 1 8 (x ∷ l)) (append_assoc a (b ++ c) tail)
        ∙ word_at_mid 1 8 (x ∷ []) a ((b ++ c) ++ tail) (omega arith) la

    second : word_at 9 8 ((x ∷ (a ++ (b ++ c))) ++ tail) ≡ le_value b
    second =
        ap (λ l. word_at 9 8 (x ∷ l))
          (append_assoc a (b ++ c) tail ∙ ap (◌++◌ a) (append_assoc b c tail))
        ∙ word_at_mid 9 8 (x ∷ a) b (c ++ tail) (omega arith) lb

    third : word_at 17 4 ((x ∷ (a ++ (b ++ c))) ++ tail) ≡ le_value c
    third =
        ap (λ l. word_at 17 4 (x ∷ l))
          (append_assoc a (b ++ c) tail
            ∙ ap (◌++◌ a) (append_assoc b c tail)
            ∙ sym (append_assoc a b (c ++ tail)))
        ∙ word_at_mid 17 4 (x ∷ (a ++ b)) c tail (omega (arith, length-append a b)) lc

pub acc_at_fields :
    (x : ℕ) (a b tail : List ℕ)
    → length a ≡ 8
    → length b ≡ 8
    → acc_at ((x ∷ (a ++ b)) ++ tail)
      ≡ record { package_type_id = x; session_id = le_value a; package_id = le_value b }
acc_at_fields x a b tail la lb =
    λ i. record { package_type_id = x; session_id = first i; package_id = second i }
  where
    first : word_at 1 8 ((x ∷ (a ++ b)) ++ tail) ≡ le_value a
    first =
        ap (λ l. word_at 1 8 (x ∷ l)) (append_assoc a b tail)
        ∙ word_at_mid 1 8 (x ∷ []) a (b ++ tail) (omega arith) la

    second : word_at 9 8 ((x ∷ (a ++ b)) ++ tail) ≡ le_value b
    second =
        ap (λ l. word_at 9 8 (x ∷ l)) (append_assoc a b tail)
        ∙ word_at_mid 9 8 (x ∷ a) b tail (omega arith) lb

pub short_session :
    (x : ℕ) (a tail : List ℕ) → length a ≡ 8 → word_at 1 8 ((x ∷ a) ++ tail) ≡ le_value a
short_session x a tail la = word_at_mid 1 8 (x ∷ []) a tail refl la

-- The number that network-order bytes are read as, after `ntoh`.
pub swap_be : (n x : ℕ) → x < 256 ^ n → byte_swap n (le_value (be_bytes n x)) ≡ x
swap_be n x h =
    ap (λ l. byte_swap n (le_value l)) (sym (le_bytes-byte_swap n x))
    ∙ ap (byte_swap n) (le_value-le_bytes n (byte_swap n x) (byte_swap-lt n x))
    ∙ byte_swap_swap n x h
