-- ===== src/TcpServer/Accepting.antt =====
-- TCP_server_handler over the connections it accepts.
use si_k_1projekt_tcp_udp.Common.{
  ◌+◌, ◌^◌, ◌≤◌, ◌≡◌, ◌⊎◌, List, [], ◌∷◌, ◌++◌, Bool, true, false, if◌then◌else◌, length, All,
}
use si_k_1projekt_tcp_udp.Common.Bytes.{IsByte}
use si_k_1projekt_tcp_udp.Stream.{Connection, Outcome, blocked}
use si_k_1projekt_tcp_udp.Stream.Rules.{Post}
use si_k_1projekt_tcp_udp.TcpServer.{
  TcpEnd, tcp_serve, AcceptResult, accept_failed, accepted, Served,
}

-- A stream of bytes, 64000 short of 2^64 or shorter.
abbrev pub IsShort : AcceptResult → Type 0
IsShort (accept_failed sigint) = Unit
IsShort (accepted sigint c) = All IsByte c.incoming × (length c.incoming + 64000 ≤ 2 ^ 64)

abbrev pub connections : List AcceptResult → List Connection
connections [] = []
connections (accept_failed sigint ∷ later) = connections later
connections (accepted sigint c ∷ later) = c ∷ connections later

-- The ends of connections served in this order, on top of earlier ends.
abbrev pub served_onto : List Connection → List (Outcome TcpEnd) → List (Outcome TcpEnd)
served_onto [] ends = ends
served_onto (c ∷ cs) ends = served_onto cs (tcp_serve c ∷ ends)

-- A connection that has ended is closed.
abbrev pub IsClosed : Outcome TcpEnd → Type 0
IsClosed = Post (λ e c'. c'.closed ≡ true) (λ c'. Unit {0})

abbrev pub HasEnded : Outcome TcpEnd → Type 0
HasEnded = Post (λ e c'. Unit {0}) (λ c'. ⊥)

-- Whether a SIGINT has come, before or among the rounds.
abbrev pub interrupted_in : Bool → List AcceptResult → Bool
interrupted_in finish [] = finish
interrupted_in finish (accept_failed sigint ∷ later) =
    interrupted_in (if sigint then true else finish) later
interrupted_in finish (accepted sigint c ∷ later) =
    interrupted_in (if sigint then true else finish) later

-- The rounds after which the loop goes on: `accept` does not fail once a SIGINT has come, and the
-- handling of each connection ends.
abbrev pub GoesOn : Bool → List AcceptResult → Type 0
GoesOn finish [] = Unit
GoesOn finish (accept_failed sigint ∷ later) =
    ((if sigint then true else finish) ≡ false) × GoesOn (if sigint then true else finish) later
GoesOn finish (accepted sigint c ∷ later) =
    HasEnded (tcp_serve c) × GoesOn (if sigint then true else finish) later

-- The last round: none, so that the function waits in `accept`; a failure of `accept` with or after
-- a SIGINT, so that it returns; or a connection whose handling waits for ever.
abbrev pub Last : Bool → List AcceptResult → List AcceptResult → List AcceptResult → Bool → Type 0
Last finish earlier last left returned =
    ((last ≡ []) × (left ≡ []) × (returned ≡ false))
    ⊎ (((sigint : Bool) × (last ≡ accept_failed sigint ∷ [])
          × (returned ≡ true)
          × (interrupted_in finish (earlier ++ last) ≡ true))
        ⊎ ((sigint : Bool) × (c : Connection) × (c' : Connection) × (last ≡ accepted sigint c ∷ [])
            × (returned ≡ false)
            × (tcp_serve c ≡ blocked c')))

pub record ServesAll (accepts : List AcceptResult) (finish : Bool) (ends : List (Outcome TcpEnd))
    (r : Served) : Type 0 where
  pub earlier : List AcceptResult
  pub last : List AcceptResult
  pub left : List AcceptResult
  pub parts : accepts ≡ earlier ++ (last ++ left)
  pub goes_on : GoesOn finish earlier
  pub stops : Last finish earlier last left r.returned
  pub in_order : r.ends ≡ served_onto (connections (earlier ++ last)) ends
  pub all_closed : All IsClosed r.ends
