-- ===== src/Client/Knowing.antt =====
-- From whom `wait_for_server_response` takes its answer.
use si_k_1projekt_tcp_udp.Common.{
  ℕ, ◌<◌, ◌≡◌, refl, sym, ap, subst, ◌∙◌, inl, inr, List, [], ◌∷◌, ◌++◌, Bool, true, false, ◌||◌,
  ◌==◌, ◌!=◌, if◌then◌else◌, Bool-cases, take, length, arith, All,
}
use si_k_1projekt_tcp_udp.Constants.{Status}
use si_k_1projekt_tcp_udp.Net.{
  Address, Recv, timed_out, failed, interrupted, datagram, World, Outcome, Post, Post-map,
}
use si_k_1projekt_tcp_udp.Client.{note_server, wait_loop, wait_for_server_response}
use si_k_1projekt_tcp_udp.Client.Waiting.{Waits, note_server-keeps, wait_loop-Waits}

-- The address of the server: the sender of the first datagram, or the one known before.
abbrev pub known_address : World → List Recv → ℕ
known_address w [] = w.real_server_s_addr
known_address w (datagram from bytes ∷ es) =
    if w.first_wait then from.s_addr else w.real_server_s_addr
known_address w (e ∷ es) = w.real_server_s_addr

-- A datagram, with some bytes, that is not from this address and port.
abbrev pub IsForeign : ℕ → ℕ → Recv → Type 0
IsForeign s_addr port (datagram from bytes) =
    ((from.s_addr != s_addr || from.sin_port != port) ≡ true) × (0 < length (take 200 bytes))
IsForeign s_addr port e = ⊥

-- The result comes from the known address, and every datagram before it does not.
abbrev pub FromKnown : ℕ → ℕ → List Recv → Status × List ℕ → World → Type 0
FromKnown known port es (Status.success, response) w' =
    (w'.real_server_s_addr ≡ known)
    × (w'.first_wait ≡ false)
    × ((skipped : List Recv) × (server : Address) × (bytes : List ℕ) × (es
          ≡ skipped ++ datagram server bytes ∷ w'.inbox)
        × (server.s_addr ≡ known)
        × (server.sin_port ≡ port)
        × (response ≡ take 200 bytes)
        × All (IsForeign known port) skipped)
FromKnown known port es (status, response) w' = Unit

abbrev pub Knows : ℕ → ℕ → List Recv → Outcome (Status × List ℕ) → Type 0
Knows known port es = Post (FromKnown known port es) (λ w'. All (IsForeign known port) es)

pub wait_for_server_response-Waits :
    (port : ℕ) (w : World) → Waits port w.inbox w (wait_for_server_response port w)
unfolding wait_for_server_response
wait_for_server_response-Waits port w = wait_loop-Waits w.inbox port w

foreign_first :
    (known port : ℕ) (e : Recv) (es : List Recv) (r : Status × List ℕ) (w' : World)
    → IsForeign known port e
    → FromKnown known port es r w'
    → FromKnown known port (e ∷ es) r w'
foreign_first known port e es (Status.success, response) w' f
      (k, n, (skipped, server, bytes, p, a, q, b, all)) =
    (k, n, (e ∷ skipped, server, bytes, ap (◌∷◌ e) p, a, q, b, (f, all)))
foreign_first known port e es (Status.timeout_error, response) w' f h = tt
foreign_first known port e es (Status.error, response) w' f h = tt
foreign_first known port e es (Status.wrong_session_id, response) w' f h = tt
foreign_first known port e es (Status.wrong_package_type_id, response) w' f h = tt
foreign_first known port e es (Status.wrong_package_id, response) w' f h = tt
foreign_first known port e es (Status.wrong_package_size, response) w' f h = tt
foreign_first known port e es (Status.retransmission, response) w' f h = tt
foreign_first known port e es (Status.conrjt_error, response) w' f h = tt
foreign_first known port e es (Status.continue, response) w' f h = tt

nothing_received :
    (known port : ℕ) (es : List Recv) (agains : Bool) (w' : World)
    → FromKnown known port es (if agains then Status.timeout_error else Status.error, []) w'
nothing_received known port es true w' = tt
nothing_received known port es false w' = tt

-- A datagram, once the address is known.
datagram-Knows :
    (from : Address) (bytes : List ℕ) (es : List Recv) (port known : ℕ) (w : World)
    → (note_server from (record w { inbox = es })).real_server_s_addr ≡ known
    → (note_server from (record w { inbox = es })).first_wait ≡ false
    → Knows known port es (wait_loop es port (note_server from (record w { inbox = es })))
    → Knows known port (datagram from bytes ∷ es) (wait_loop (datagram from bytes ∷ es) port w)
unfolding wait_loop
datagram-Knows from bytes es port known w k n rest =
    elim (Bool-cases (length (take 200 bytes) == 0)) [
      | inl empty ↦ rw empty (nothing_received known port _ w.errno_is_eagain _)
      | inr some_bytes ↦
          elim (Bool-cases (from.s_addr != w1.real_server_s_addr || from.sin_port != port)) [
            | inl other ↦
                let foreign : IsForeign known port (datagram from bytes) = (
                  subst (λ a. (from.s_addr != a || from.sin_port != port) ≡ true) k other,
                  ground arith,
                ) in
                rw (some_bytes, other)
                  (Post-map (FromKnown known port es)
                    (FromKnown known port (datagram from bytes ∷ es))
                    (λ w'. All (IsForeign known port) es)
                    (λ w'. All (IsForeign known port) (datagram from bytes ∷ es))
                    (λ r w' h. foreign_first known port (datagram from bytes) es r w' foreign h)
                    (λ w' b. (foreign, b)) _ rest)
            | inr ours ↦
                rw (some_bytes, ours)
                  (
                    k,
                    n,
                    (
                      [],
                      from,
                      bytes,
                      ap (◌∷◌ (datagram from bytes)) (
                          sym (
                            note_server-keeps (λ v. v.inbox) from (record w { inbox = es })
                              (λ n. refl))),
                      ground (arith, k),
                      ground arith,
                      refl,
                      tt,
                    ),
                  )
          ]
    ]
  where
    w1 : World
    w1 = note_server from (record w { inbox = es })

wait_loop-Knows_later :
    (es : List Recv) (port : ℕ) (w : World)
    → w.first_wait ≡ false
    → Knows w.real_server_s_addr port es (wait_loop es port w)
unfolding wait_loop
wait_loop-Knows_later [] port w h = tt
wait_loop-Knows_later (timed_out ∷ es) port w h = tt
wait_loop-Knows_later (failed ∷ es) port w h = tt
wait_loop-Knows_later (interrupted ∷ es) port w h = tt
wait_loop-Knows_later (datagram from bytes ∷ es) port w h =
    let known : note_server from (record w { inbox = es }) ≡ record w { inbox = es } = rw h refl in
    datagram-Knows from bytes es port w.real_server_s_addr w (ap (λ v. v.real_server_s_addr) known)
      (ap (λ v. v.first_wait) known ∙ h)
      (subst (λ v. Knows w.real_server_s_addr port es (wait_loop es port v)) (sym known)
        (wait_loop-Knows_later es port (record w { inbox = es }) h))

wait_loop-Knows :
    (es : List Recv) (port : ℕ) (w : World) (b : Bool)
    → w.first_wait ≡ b
    → Knows (known_address w es) port es (wait_loop es port w)
wait_loop-Knows [] port w b h = unfold wait_loop in tt
wait_loop-Knows (timed_out ∷ es) port w b h = unfold wait_loop in tt
wait_loop-Knows (failed ∷ es) port w b h = unfold wait_loop in tt
wait_loop-Knows (interrupted ∷ es) port w b h = unfold wait_loop in tt
wait_loop-Knows (datagram from bytes ∷ es) port w false h =
    subst
      (λ a. Knows a port (datagram from bytes ∷ es) (wait_loop (datagram from bytes ∷ es) port w))
      (rw h refl) (wait_loop-Knows_later (datagram from bytes ∷ es) port w h)
wait_loop-Knows (datagram from bytes ∷ es) port w true h =
    let noted : note_server from (record w { inbox = es })
        ≡ record w { inbox = es; first_wait = false; real_server_s_addr = from.s_addr } =
      rw h refl in
    subst
      (λ a. Knows a port (datagram from bytes ∷ es) (wait_loop (datagram from bytes ∷ es) port w))
      (rw h refl)
      (datagram-Knows from bytes es port from.s_addr w (ap (λ v. v.real_server_s_addr) noted)
        (ap (λ v. v.first_wait) noted)
        (subst (λ v. Knows from.s_addr port es (wait_loop es port v)) (sym noted)
          (wait_loop-Knows_later es port
            (record w { inbox = es; first_wait = false; real_server_s_addr = from.s_addr }) refl)))

pub wait_for_server_response-WaitsForServer :
    (port : ℕ) (w : World)
    → Waits port w.inbox w (wait_for_server_response port w)
      × Knows (known_address w w.inbox) port w.inbox (wait_for_server_response port w)
unfolding wait_for_server_response
wait_for_server_response-WaitsForServer port w =
    (wait_loop-Waits w.inbox port w, wait_loop-Knows w.inbox port w w.first_wait refl)
