-- ===== src/Common/Bytes.antt =====
-- Memory of a little-endian host: a number in `n` bytes, lowest byte first, and its inverse.
use Prim.Native.Nat.{ℕ, zero, suc, ◌+◌, ◌*◌, ◌/◌, ◌%◌, ◌^◌, ◌<◌}
use mathlib.Core.Path.{◌≡◌, refl, ap, ap₂, subst, ◌∙◌}
use mathlib.Core.List.{List, [], ◌∷◌, reverse, reverse-cons, reverse-reverse}
use native.Mathlib.Omega.{arith}
use native.Mathlib.Nat.{pow-suc}
use si_k_1projekt_tcp_udp.Common.Lists.{length, All, length-reverse, All-append}

abbrev pub IsByte : ℕ → Type 0
IsByte b = b < 256

unfoldable pub le_bytes : ℕ → ℕ → List ℕ
le_bytes zero x = []
le_bytes (suc n) x = (x % 256) ∷ le_bytes n (x / 256)

unfoldable pub le_value : List ℕ → ℕ
le_value [] = 0
le_value (b ∷ bs) = b + 256 * le_value bs

-- Network order: the highest byte first.
unfoldable pub be_bytes : ℕ → ℕ → List ℕ
be_bytes n x = reverse (le_bytes n x)

pub length-le_bytes : (n x : ℕ) → length (le_bytes n x) ≡ n
unfolding le_bytes
length-le_bytes zero x = refl
length-le_bytes (suc n) x = ap suc (length-le_bytes n (x / 256))

pub length-be_bytes : (n x : ℕ) → length (be_bytes n x) ≡ n
unfolding be_bytes
length-be_bytes n x = length-reverse (le_bytes n x) ∙ length-le_bytes n x

pub le_bytes-IsByte : (n x : ℕ) → All IsByte (le_bytes n x)
unfolding le_bytes
le_bytes-IsByte zero x = tt
le_bytes-IsByte (suc n) x = (omega arith, le_bytes-IsByte n (x / 256))

reverse-IsByte : (xs : List ℕ) → All IsByte xs → All IsByte (reverse xs)
reverse-IsByte [] h = tt
reverse-IsByte (x ∷ xs) h =
    rw (reverse-cons x xs)
      (All-append IsByte (reverse xs) (x ∷ []) (reverse-IsByte xs h.1) (h.0, tt))

pub be_bytes-IsByte : (n x : ℕ) → All IsByte (be_bytes n x)
unfolding be_bytes
be_bytes-IsByte n x = reverse-IsByte (le_bytes n x) (le_bytes-IsByte n x)

pub le_bytes-le_value :
    (n : ℕ) (bs : List ℕ) → length bs ≡ n → All IsByte bs → le_bytes n (le_value bs) ≡ bs
unfolding le_bytes le_value
le_bytes-le_value zero [] e h = refl
le_bytes-le_value zero (b ∷ bs) e h = absurd (omega arith)
le_bytes-le_value (suc n) [] e h = absurd (omega arith)
le_bytes-le_value (suc n) (b ∷ bs) e h =
    let q : (b + 256 * le_value bs) / 256 ≡ le_value bs = omega arith in
    ap₂ ◌∷◌ (omega arith) (ap (le_bytes n) q ∙ le_bytes-le_value n bs (omega arith) h.1)

pub le_value-le_bytes : (n x : ℕ) → x < 256 ^ n → le_value (le_bytes n x) ≡ x
unfolding le_bytes le_value
le_value-le_bytes zero x h = omega arith
le_value-le_bytes (suc n) x h =
    omega (arith, le_value-le_bytes n (x / 256) (omega (arith, pow-suc 256 n)))

pub le_value-lt : (bs : List ℕ) → All IsByte bs → le_value bs < 256 ^ length bs
unfolding le_value
le_value-lt [] h = omega arith
le_value-lt (b ∷ bs) h = omega (arith, le_value-lt bs h.1, pow-suc 256 (length bs))

-- `htobe64`, `htobe32` on a little-endian host: the bytes of memory in the other order.
unfoldable pub byte_swap : ℕ → ℕ → ℕ
byte_swap n x = le_value (reverse (le_bytes n x))

-- What stands in memory after the swap is the number in network order.
pub le_bytes-byte_swap : (n x : ℕ) → le_bytes n (byte_swap n x) ≡ be_bytes n x
unfolding byte_swap be_bytes
le_bytes-byte_swap n x =
    le_bytes-le_value n (reverse (le_bytes n x)) (length-be_bytes n x) (be_bytes-IsByte n x)

pub byte_swap-lt : (n x : ℕ) → byte_swap n x < 256 ^ n
unfolding byte_swap be_bytes
byte_swap-lt n x =
    subst (λ k. byte_swap n x < 256 ^ k) (length-be_bytes n x)
      (le_value-lt (reverse (le_bytes n x)) (be_bytes-IsByte n x))

pub byte_swap_swap : (n x : ℕ) → x < 256 ^ n → byte_swap n (byte_swap n x) ≡ x
unfolding byte_swap be_bytes
byte_swap_swap n x h =
    ap (λ l. le_value (reverse l)) (le_bytes-byte_swap n x)
    ∙ ap le_value (reverse-reverse (le_bytes n x))
    ∙ le_value-le_bytes n x h

-- Swapping what was read from memory gives the number that the bytes are in network order.
pub be_bytes-byte_swap :
    (n : ℕ) (bs : List ℕ)
    → length bs ≡ n
    → All IsByte bs
    → be_bytes n (byte_swap n (le_value bs)) ≡ bs
unfolding byte_swap be_bytes
be_bytes-byte_swap n bs e h =
    ap reverse (
      ap (λ l. le_bytes n (le_value (reverse l))) (le_bytes-le_value n bs e h)
      ∙ le_bytes-le_value n (reverse bs) (length-reverse bs ∙ e) (reverse-IsByte bs h))
    ∙ reverse-reverse bs
