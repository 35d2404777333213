-- ===== src/UdpClient/Cutting.antt =====
-- Lists cut in two: what the pieces of the data are, and what holds of all their bytes.
use si_k_1projekt_tcp_udp.Common.{
  ℕ, zero, suc, ◌+◌, ◌≡◌, refl, sym, ap, ◌∙◌, List, [], ◌∷◌, ◌++◌, take, drop, All, arith,
}

take-nil : (m : ℕ) → ◌≡◌ {A = List ℕ} (take m []) []
take-nil zero = refl
take-nil (suc m) = refl

drop-nil : (m : ℕ) → ◌≡◌ {A = List ℕ} (drop m []) []
drop-nil zero = refl
drop-nil (suc m) = refl

pub take_split : (n m : ℕ) (xs : List ℕ) → take (n + m) xs ≡ take n xs ++ take m (drop n xs)
take_split zero m xs = let e : 0 + m ≡ m = omega arith in ap (λ k. take k xs) e
take_split (suc n) m [] = take-nil (suc n + m) ∙ sym (take-nil m)
take_split (suc n) m (x ∷ xs) =
    let e : suc n + m ≡ suc (n + m) = omega arith in
    ap (λ k. take k (x ∷ xs)) e ∙ ap (◌∷◌ x) (take_split n m xs)

pub drop-drop : (n m : ℕ) (xs : List ℕ) → drop m (drop n xs) ≡ drop (n + m) xs
drop-drop zero m xs = let e : m ≡ 0 + m = omega arith in ap (λ k. drop k xs) e
drop-drop (suc n) m [] = drop-nil m ∙ sym (drop-nil (suc n + m))
drop-drop (suc n) m (x ∷ xs) =
    let e : suc (n + m) ≡ suc n + m = omega arith in drop-drop n m xs ∙ ap (λ k. drop k (x ∷ xs)) e

pub All-left : {A : Type 0} (P : A → Type 0) (xs ys : List A) → All P (xs ++ ys) → All P xs
All-left P [] ys h = tt
All-left P (x ∷ xs) ys h = (h.0, All-left P xs ys h.1)

pub All-right : {A : Type 0} (P : A → Type 0) (xs ys : List A) → All P (xs ++ ys) → All P ys
All-right P [] ys h = h
All-right P (x ∷ xs) ys h = All-right P xs ys h.1
