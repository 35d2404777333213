-- ===== src/Tests/Vec.antt =====
-- Concrete byte vectors at which the theorems apply.
use si_k_1projekt_tcp_udp.Common.{refl, List, [], ◌∷◌, true, arith}
use si_k_1projekt_tcp_udp.MyVec.{StdinRead, chunk, read_stdin}
use si_k_1projekt_tcp_udp.MyVec.Input.{IsReadWhole, read_stdin-IsReadWhole}

abbrev input : List StdinRead
input = chunk (72 ∷ 101 ∷ []) ∷ chunk (108 ∷ []) ∷ []

read_stdin-IsReadWhole_example : IsReadWhole (72 ∷ 101 ∷ 108 ∷ []) (read_stdin (λ n. true) input)
read_stdin-IsReadWhole_example =
    read_stdin-IsReadWhole (λ n. true) input (λ n h. refl)
      (
        (omega arith, omega arith, (λ e. omega (arith, e), (λ e. omega (arith, e), tt))),
        ((omega arith, omega arith, (λ e. omega (arith, e), tt)), tt),
      )
      (omega arith)
