-- ===== src/Programs/Transfers.antt =====
-- The client's program and the server's UDPR_data_receive together.
use si_k_1projekt_tcp_udp.Common.{ℕ, List, [], ◌∷◌}
use si_k_1projekt_tcp_udp.Constants.{Status}
use si_k_1projekt_tcp_udp.MyVec.{MyVec}
use si_k_1projekt_tcp_udp.Net.{Outcome, out_of_fuel}
use si_k_1projekt_tcp_udp.Programs.{Ends, ok, ClientRun, sends_tcp, sends_udp}

abbrev from_ok : {A : Type 0} → A → Ends A → A
from_ok a (ok x) = x
from_ok a _ = a

abbrev udp_outcome : ClientRun → Outcome Status
udp_outcome (sends_tcp o) = out_of_fuel
udp_outcome (sends_udp o) = o

abbrev pub udpr_argv : List ℕ → List ℕ → List ℕ → List (List ℕ)
udpr_argv program host port = program ∷ (117 ∷ 100 ∷ 112 ∷ 114 ∷ []) ∷ host ∷ port ∷ []
