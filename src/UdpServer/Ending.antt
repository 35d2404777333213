-- ===== src/UdpServer/Ending.antt =====
-- UDP_data_receive and UDPR_data_receive come back, whatever `recvfrom` gives.
use si_k_1projekt_tcp_udp.Common.{
  ℕ, zero, suc, ◌<◌, ◌≡◌, refl, sym, ap, ◌∙◌, inl, inr, List, [], ◌∷◌, ◌++◌, append_assoc, ltb,
  ◌==◌, Bool-cases, length, length-append, arith,
}
use si_k_1projekt_tcp_udp.Packets.{Conn}
use si_k_1projekt_tcp_udp.Net.{
  Address, Recv, World, Outcome, Post, Post-bind, Post-map, sendto_wrapper,
}
use si_k_1projekt_tcp_udp.UdpServer.Receive.{send_rcvd, send_rjt}
use si_k_1projekt_tcp_udp.UdpServer.Session.{
  Round, again, ended, Progress, udp_round, udp_finish, udp_loop, udp_data_receive, UdprProgress,
  udpr_round, udpr_finish, udpr_loop, udpr_data_receive, next_round,
}
use si_k_1projekt_tcp_udp.UdpServer.UdpRounds.{AfterRound, udp_round_lem}
use si_k_1projekt_tcp_udp.UdpServer.UdprRounds.{udpr_round_lem}
use si_k_1projekt_tcp_udp.UdpServer.UdprSteps.{AfterUdprRound}

-- It comes back, having taken some results of `recvfrom`, or it waits when all are taken.
abbrev pub Ends : {A : Type 0} → World → Outcome A → Type 0
Ends w = Post (λ e w'. (taken : List Recv) × (w.inbox ≡ taken ++ w'.inbox)) (λ w'. w'.inbox ≡ [])

-- What the loop takes after `w'`, with what was taken before.
pub Ends-after :
    {A : Type 0} (w w' : World) (taken : List Recv) (o : Outcome A)
    → w.inbox ≡ taken ++ w'.inbox
    → Ends w' o
    → Ends w o
Ends-after w w' taken o e h =
    Post-map (λ x v. (later : List Recv) × (w'.inbox ≡ later ++ v.inbox))
      (λ x v. (all : List Recv) × (w.inbox ≡ all ++ v.inbox)) (λ v. v.inbox ≡ [])
      (λ v. v.inbox ≡ [])
      (λ x v (later, k).
        (taken ++ later, e ∙ ap (◌++◌ taken) k ∙ sym (append_assoc taken later v.inbox)))
      (λ v b. b) o h

shorter :
    (es skipped later : List Recv) (e : Recv) → es ≡ skipped ++ e ∷ later → length later < length es
shorter es skipped later e h = omega (arith, ap length h, length-append skipped (e ∷ later))

regrouped :
    (es skipped later : List Recv) (e : Recv)
    → es ≡ skipped ++ e ∷ later
    → es ≡ (skipped ++ e ∷ []) ++ later
regrouped es skipped later e h = h ∙ sym (append_assoc skipped (e ∷ []) later)

udp_finish-Ends : (conn : Conn) (s : Progress) (w : World) → Ends w (udp_finish conn s w)
unfolding udp_finish send_rcvd sendto_wrapper
udp_finish-Ends conn s w = elim (Bool-cases (s.bytes_recvd == conn.nbr_of_bytes_to_be_sent)) [
  | inl all ↦ rw all ([], refl)
  | inr more ↦ rw more ([], refl)
]

udp_loop-Ends :
    (fuel : ℕ) (conn : Conn) (a : Address) (s : Progress) (w : World)
    → length w.inbox < fuel
    → Ends w (udp_loop fuel conn a s w)
unfolding udp_loop
udp_loop-Ends zero conn a s w f = absurd (omega arith)
udp_loop-Ends (suc fuel) conn a s w f =
    elim (Bool-cases (ltb s.bytes_recvd conn.nbr_of_bytes_to_be_sent)) [
      | inl more ↦ rw more (
          Post-bind (AfterRound conn a s w) _ _ (λ w'. w'.inbox ≡ []) (udp_round conn a s) _ w
            (udp_round_lem conn a s w) (after (λ s' w' g. udp_loop-Ends fuel conn a s' w' g))
            (λ w' h. h.1))
      | inr all ↦ rw all (udp_finish-Ends conn s w)
    ]
  where
    after :
        ((s' : Progress) (w' : World)
          → length w'.inbox < fuel
          → Ends w' (udp_loop fuel conn a s' w'))
        → (o : Round Progress) (w' : World) → AfterRound conn a s w o w'
        → Ends w (next_round (λ s'. udp_loop fuel conn a s') o w')
    after rest (again s') w' h =
        Ends-after w w' _ _ (regrouped w.inbox h.skipped w'.inbox _ h.parts)
          (rest s' w' (omega (arith, shorter w.inbox h.skipped w'.inbox _ h.parts)))
    after rest (ended e) w' h = (_, regrouped w.inbox h.skipped w'.inbox h.event h.parts)

udpr_finish-Ends : (conn : Conn) (s : UdprProgress) (w : World) → Ends w (udpr_finish conn s w)
unfolding udpr_finish send_rcvd send_rjt sendto_wrapper
udpr_finish-Ends conn s w = elim (Bool-cases (s.bytes_recvd == conn.nbr_of_bytes_to_be_sent)) [
  | inl all ↦ rw all ([], refl)
  | inr more ↦ rw more ([], refl)
]

udpr_loop-Ends :
    (fuel : ℕ) (conn : Conn) (a : Address) (s : UdprProgress) (w : World)
    → length w.inbox < fuel
    → Ends w (udpr_loop fuel conn a s w)
unfolding udpr_loop
udpr_loop-Ends zero conn a s w f = absurd (omega arith)
udpr_loop-Ends (suc fuel) conn a s w f =
    elim (Bool-cases (ltb s.bytes_recvd conn.nbr_of_bytes_to_be_sent)) [
      | inl more ↦ rw more (
          Post-bind (AfterUdprRound conn a s w) _ _ (λ w'. w'.inbox ≡ []) (udpr_round conn a s) _ w
            (udpr_round_lem conn a s w) (after (λ s' w' g. udpr_loop-Ends fuel conn a s' w' g))
            (λ w' h. h.1))
      | inr all ↦ rw all (udpr_finish-Ends conn s w)
    ]
  where
    after :
        ((s' : UdprProgress) (w' : World)
          → length w'.inbox < fuel
          → Ends w' (udpr_loop fuel conn a s' w'))
        → (o : Round UdprProgress) (w' : World) → AfterUdprRound conn a s w o w'
        → Ends w (next_round (λ s'. udpr_loop fuel conn a s') o w')
    after rest (again s') w' h =
        Ends-after w w' _ _ (regrouped w.inbox h.skipped w'.inbox h.event h.parts)
          (rest s' w' (omega (arith, shorter w.inbox h.skipped w'.inbox h.event h.parts)))
    after rest (ended e) w' h = (_, regrouped w.inbox h.skipped w'.inbox h.event h.parts)

-- UDP_data_receive and UDPR_data_receive, for any connection and whatever `recvfrom` gives, come
-- back after taking some of the results, or wait when all of them are taken: the model's loops
-- never run out of fuel.
pub data_receive-Ends :
    (conn : Conn) (a : Address) (w : World)
    → Ends w (udp_data_receive conn a w) × Ends w (udpr_data_receive conn a w)
unfolding udp_data_receive udpr_data_receive
data_receive-Ends conn a w = (
  udp_loop-Ends (suc (length w.inbox)) conn a _ w (omega arith),
  udpr_loop-Ends (suc (length w.inbox)) conn a _ w (omega arith),
)
