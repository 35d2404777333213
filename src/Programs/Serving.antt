-- ===== src/Programs/Serving.antt =====
-- The server's program on any arguments.
use si_k_1projekt_tcp_udp.Common.{
  ℕ, ◌≡◌, ◌≢◌, ◌⊎◌, List, [], ◌∷◌, ◌≤◌, true, false, ◌&&◌, none, some, length, get_or,
}
use si_k_1projekt_tcp_udp.Common.Bytes.{byte_swap}
use si_k_1projekt_tcp_udp.TcpServer.Accepting.{ServesAll}
use si_k_1projekt_tcp_udp.UdpServer.Answering.{Answers}
use si_k_1projekt_tcp_udp.Programs.{
  System, Ends, ok, fatal_exit, syserr_exit, out_of_bounds, CommunicationType, tcp, udp, udpr,
  SocketKind, socket_kind, ServerRun, serves_tcp, serves_udp,
}

-- The names of the three protocols, in ASCII.
abbrev pub named_tcp : List ℕ
named_tcp = 116 ∷ 99 ∷ 112 ∷ []

abbrev pub named_udp : List ℕ
named_udp = 117 ∷ 100 ∷ 112 ∷ []

abbrev pub named_udpr : List ℕ
named_udpr = 117 ∷ 100 ∷ 112 ∷ 114 ∷ []

abbrev pub IsNamed : List ℕ → CommunicationType → Type 0
IsNamed input tcp = input ≡ named_tcp
IsNamed input udp = input ≡ named_udp
IsNamed input udpr = input ≡ named_udpr

abbrev pub IsUnknown : List ℕ → Type 0
IsUnknown input = (input ≢ named_tcp) × (input ≢ named_udp) × (input ≢ named_udpr)

abbrev Chosen : List ℕ → Ends CommunicationType → Type 0
Chosen input (ok type) = IsNamed input type
Chosen input fatal_exit = IsUnknown input
Chosen input syserr_exit = ⊥
Chosen input out_of_bounds = ⊥

-- `strtoul` reads the whole string as a number of at most 16 bits.
abbrev pub IsPort : System → List ℕ → Type 0
IsPort sys string =
    ((sys.strtoul string).errno ≡ 0)
    × (length (sys.strtoul string).behind ≡ 0)
    × ((sys.strtoul string).number ≤ 65535)

abbrev PortRead : System → List ℕ → Ends ℕ → Type 0
PortRead sys string (ok port) = IsPort sys string × (port ≡ (sys.strtoul string).number)
PortRead sys string fatal_exit = ¬ IsPort sys string
PortRead sys string syserr_exit = ⊥
PortRead sys string out_of_bounds = ⊥

abbrev SocketMade : System → SocketKind → Ends ℕ → Type 0
SocketMade sys kind (ok fd) = sys.socket kind ≡ some fd
SocketMade sys kind fatal_exit = ⊥
SocketMade sys kind syserr_exit = sys.socket kind ≡ none
SocketMade sys kind out_of_bounds = ⊥

-- What the user has given: a program name, a protocol and a port.
abbrev pub IsUsage : System → List (List ℕ) → Type 0
IsUsage sys argv =
    (length argv ≡ 3) × (¬ IsUnknown (get_or argv 1 [])) × IsPort sys (get_or argv 2 [])

-- The system gives a socket of this kind and binds it to the port, in network order.
pub record BindsPort (sys : System) (argv : List (List ℕ)) (kind : SocketKind) : Type 0 where
  pub fd : ℕ
  pub socket : sys.socket kind ≡ some fd
  pub binds : sys.binds (byte_swap 2 (sys.strtoul (get_or argv 2 [])).number) ≡ true

-- What the handler of the protocol does.
abbrev pub RunsAs : System → CommunicationType → ServerRun → Type 0
RunsAs sys tcp (serves_tcp r) =
    ((sys.listens && sys.getsockname_works) ≡ true) × ServesAll sys.accepts false [] r
RunsAs sys udp (serves_udp o) = Answers sys.world o
RunsAs sys udpr (serves_udp o) = Answers sys.world o
RunsAs sys type run = ⊥

-- A call of the system that fails: `socket`, `bind`, or for TCP `listen` or `getsockname`.
abbrev pub SystemFails : System → List (List ℕ) → CommunicationType → Type 0
SystemFails sys argv type =
    (sys.socket (socket_kind type) ≡ none)
    ⊎ ((sys.binds (byte_swap 2 (sys.strtoul (get_or argv 2 [])).number) ≡ false)
        ⊎ ((type ≡ tcp) × ((sys.listens && sys.getsockname_works) ≡ false)))

-- How the server's program ends, by its arguments and what the system does.
abbrev pub ServerEnds : System → List (List ℕ) → Ends ServerRun → Type 0
ServerEnds sys argv fatal_exit = IsUsage sys argv → ⊥
ServerEnds sys argv syserr_exit =
    IsUsage sys argv
    × ((type : CommunicationType) × IsNamed (get_or argv 1 []) type × SystemFails sys argv type)
ServerEnds sys argv (ok run) =
    IsUsage sys argv
    × ((type : CommunicationType) × IsNamed (get_or argv 1 []) type
        × BindsPort sys argv (socket_kind type)
        × RunsAs sys type run)
ServerEnds sys argv out_of_bounds = ⊥
