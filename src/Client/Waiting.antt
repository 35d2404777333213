-- ===== src/Client/Waiting.antt =====
-- What `wait_for_server_response` gives the client.
use si_k_1projekt_tcp_udp.Common.{
  ℕ, ◌<◌, ◌≡◌, refl, sym, ap, ◌∙◌, inl, inr, List, [], ◌∷◌, ◌++◌, Bool, true, false, ◌||◌, ◌==◌,
  ◌!=◌, if◌then◌else◌, Bool-cases, take, length, arith,
}
use si_k_1projekt_tcp_udp.Constants.{Status}
use si_k_1projekt_tcp_udp.Net.{
  Address, Recv, timed_out, failed, interrupted, datagram, World, Outcome, Post, Post-map,
}
use si_k_1projekt_tcp_udp.Client.{note_server, wait_loop}

-- The result is the server's first datagram to come: its first 200 bytes, at least one.
pub record FromServer (port : ℕ) (es : List Recv) (response : List ℕ) (w' : World) : Type 0 where
  pub skipped : List Recv
  pub server : Address
  pub bytes : List ℕ
  pub parts : es ≡ skipped ++ datagram server bytes ∷ w'.inbox
  pub address_ok : server.s_addr ≡ w'.real_server_s_addr
  pub port_ok : server.sin_port ≡ port
  pub first_bytes : response ≡ take 200 bytes
  pub some_bytes : 0 < length response

-- At least one result was taken.
abbrev pub Passes : List Recv → World → Type 0
Passes es w' = (skipped : List Recv) × (es ≡ skipped ++ w'.inbox) × (0 < length skipped)

abbrev pub Result : ℕ → List Recv → Status × List ℕ → World → Type 0
Result port es (Status.success, response) w' = FromServer port es response w'
Result port es (Status.timeout_error, response) w' = Passes es w'
Result port es (Status.error, response) w' = Passes es w'
Result port es (_, response) w' = ⊥

-- What stays as it was: once the server's address is known, it stays.
pub record Unchanged (w w' : World) : Type 0 where
  pub sent : w'.sent ≡ w.sent
  pub stack : w'.stack ≡ w.stack
  pub results : w'.sendto_results ≡ w.sendto_results

abbrev pub Waits : ℕ → List Recv → World → Outcome (Status × List ℕ) → Type 0
Waits port es w = Post (λ r w'. Result port es r w' × Unchanged w w') (λ w'. w'.inbox ≡ [])

prepend_event :
    (port : ℕ) (e : Recv) (es : List Recv) (r : Status × List ℕ) (w' : World)
    → Result port es r w'
    → Result port (e ∷ es) r w'
prepend_event port e es (Status.success, response) w' h = record {
  skipped = e ∷ h.skipped;
  server = h.server;
  bytes = h.bytes;
  parts = ap (◌∷◌ e) h.parts;
  address_ok = h.address_ok;
  port_ok = h.port_ok;
  first_bytes = h.first_bytes;
  some_bytes = h.some_bytes;
}
prepend_event port e es (Status.timeout_error, response) w' (k, p, l) =
    (e ∷ k, ap (◌∷◌ e) p, omega arith)
prepend_event port e es (Status.error, response) w' (k, p, l) = (e ∷ k, ap (◌∷◌ e) p, omega arith)
prepend_event port e es (Status.wrong_session_id, response) w' h = h
prepend_event port e es (Status.wrong_package_type_id, response) w' h = h
prepend_event port e es (Status.wrong_package_id, response) w' h = h
prepend_event port e es (Status.wrong_package_size, response) w' h = h
prepend_event port e es (Status.retransmission, response) w' h = h
prepend_event port e es (Status.conrjt_error, response) w' h = h
prepend_event port e es (Status.continue, response) w' h = h

unchanged : (w : World) → Unchanged w w
unchanged w = record { sent = refl; stack = refl; results = refl }

pub note_server-keeps :
    {A : Type 0} (f : World → A) (from : Address) (w : World)
    → ((n : ℕ) → f (record w { first_wait = false; real_server_s_addr = n }) ≡ f w)
    → f (note_server from w) ≡ f w
note_server-keeps {A} f from w h = go w.first_wait
  where
    go :
        (b : Bool)
        → f (if b then record w { first_wait = false; real_server_s_addr = from.s_addr } else w)
          ≡ f w
    go true = h from.s_addr
    go false = refl

note_server-Unchanged :
    (from : Address) (es : List Recv) (w w' : World)
    → Unchanged (note_server from (record w { inbox = es })) w'
    → Unchanged w w'
note_server-Unchanged from es w w' h = record {
  sent = h.sent ∙ note_server-keeps (λ v. v.sent) from (record w { inbox = es }) (λ n. refl);
  stack = h.stack ∙ note_server-keeps (λ v. v.stack) from (record w { inbox = es }) (λ n. refl);
  results =
      h.results
      ∙ note_server-keeps (λ v. v.sendto_results) from (record w { inbox = es }) (λ n. refl);
}

stopped :
    (port : ℕ) (e : Recv) (es : List Recv) (agains : Bool) (w' : World)
    → es ≡ w'.inbox
    → Result port (e ∷ es) (if agains then Status.timeout_error else Status.error, []) w'
stopped port e es true w' h = (e ∷ [], ap (◌∷◌ e) h, omega arith)
stopped port e es false w' h = (e ∷ [], ap (◌∷◌ e) h, omega arith)

pub wait_loop-Waits :
    (es : List Recv) (port : ℕ) (w : World) → Waits port es w (wait_loop es port w)
unfolding wait_loop
wait_loop-Waits [] port w = refl
wait_loop-Waits (timed_out ∷ es) port w =
    ((timed_out ∷ [], refl, omega arith), record { sent = refl; stack = refl; results = refl })
wait_loop-Waits (failed ∷ es) port w =
    ((failed ∷ [], refl, omega arith), record { sent = refl; stack = refl; results = refl })
wait_loop-Waits (interrupted ∷ es) port w =
    ((interrupted ∷ [], refl, omega arith), record { sent = refl; stack = refl; results = refl })
wait_loop-Waits (datagram from bytes ∷ es) port w =
    elim (Bool-cases (length (take 200 bytes) == 0)) [
      | inl none ↦ rw none (
        stopped port (datagram from bytes) es w.errno_is_eagain (record w { inbox = es }) refl,
        record { sent = refl; stack = refl; results = refl },
      )
      | inr some_bytes ↦
          elim (Bool-cases (from.s_addr != w1.real_server_s_addr || from.sin_port != port)) [
            | inl other ↦
                rw (some_bytes, other)
                  (Post-map (λ r w'. Result port es r w' × Unchanged w1 w')
                    (λ r w'. Result port (datagram from bytes ∷ es) r w' × Unchanged w w')
                    (λ w'. w'.inbox ≡ []) (λ w'. w'.inbox ≡ [])
                    (λ r w' (h, u). (
                      prepend_event port (datagram from bytes) es r w' h,
                      note_server-Unchanged from es w w' u,
                    ))
                    (λ w' b. b) _ (wait_loop-Waits es port w1))
            | inr ours ↦
                rw (some_bytes, ours)
                  (
                    record {
                      skipped = [];
                      server = from;
                      bytes = bytes;
                      parts = ap (◌∷◌ (datagram from bytes)) (
                          sym (
                            note_server-keeps (λ v. v.inbox) from (record w { inbox = es })
                              (λ n. refl)));
                      address_ok = ground arith;
                      port_ok = ground arith;
                      first_bytes = refl;
                      some_bytes = ground arith;
                    },
                    note_server-Unchanged from es w w1 (unchanged w1),
                  )
          ]
    ]
  where
    w1 : World
    w1 = note_server from (record w { inbox = es })
