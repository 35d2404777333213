-- ===== src/MyVec/Chars.antt =====
-- The vector as a sequence of characters: my_vec_push_back and my_vec_get.
use si_k_1projekt_tcp_udp.Common.{ℕ, ◌≡◌, [], ◌∷◌, ◌++◌, get_or}
use si_k_1projekt_tcp_udp.MyVec.{MyVec, VecResult, ok, my_vec_get}
use si_k_1projekt_tcp_udp.MyVec.Growth.{IsValid, contents}

-- The vector after a push: `c` stands behind what it held, and reading gives what a list would.
pub record IsPushed (v : MyVec) (c : ℕ) (r : VecResult MyVec) : Type 0 where
  pub result : MyVec
  pub returned : r ≡ ok result
  pub valid : IsValid result
  pub all : contents result ≡ contents v ++ c ∷ []
  pub reads : (i : ℕ) → my_vec_get result i ≡ get_or (contents v ++ c ∷ []) i 0
