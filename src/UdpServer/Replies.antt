-- ===== src/UdpServer/Replies.antt =====
-- What `read_data_to_buffer` answers to the datagrams of other clients.
use si_k_1projekt_tcp_udp.Common.{
  ℕ, ◌^◌, ◌<◌, ◌≡◌, refl, ap, ◌∙◌, inl, inr, List, [], ◌∷◌, ◌++◌, Bool, true, false, ◌==◌, ◌!=◌,
  if◌then◌else◌, length, take, All, arith, Bool-cases,
}
use si_k_1projekt_tcp_udp.Common.Bytes.{be_bytes, le_bytes}
use si_k_1projekt_tcp_udp.Constants.{Status, receive_buffor_size}
use si_k_1projekt_tcp_udp.Packets.{sizeof_conn, read_conn, read_data_info}
use si_k_1projekt_tcp_udp.Packets.Wire.{short_packet, numbered_packet, conn_packet, data_packet}
use si_k_1projekt_tcp_udp.Packets.Sending.{conrjt_bytes, rjt_bytes}
use si_k_1projekt_tcp_udp.Packets.Conns.{read_conn-conn_packet}
use si_k_1projekt_tcp_udp.Packets.Reading.{read_data_info-data_packet}
use si_k_1projekt_tcp_udp.Net.{
  Address, Recv, timed_out, failed, interrupted, datagram, Packet, World, Outcome, done, Post,
  Post-bind, Post-map, M, ◌>>◌,
}
use si_k_1projekt_tcp_udp.UdpServer.Receive.{
  Received, only, differs, answer_other, read_loop, read_data_to_buffer,
}
use si_k_1projekt_tcp_udp.UdpServer.Reading.{ReadsOrBlocks, read_data_to_buffer-ReadsOrBlocks}

-- The answer to a datagram of a client that is not served: CONRJT to a CONN packet, RJT with the
-- packet's number to a DATA packet, and nothing to any other.
abbrev pub refusal : List ℕ → Address → List ℕ → List Packet
refusal stack from bytes =
    let conn = read_conn stack bytes in
    let d = read_data_info stack bytes in
    if conn.package_type_id == 1
    then (if length bytes == 18
        then record { to = from; body = short_packet 3 conn.session_id } ∷ []
        else [])
    else if conn.package_type_id == 4
    then record { to = from; body = numbered_packet 6 d.session_id d.package_id } ∷ []
    else []

-- What has been sent once each of the datagrams is answered in turn, the newest packet first.
abbrev pub refuse_all : List ℕ → List Recv → List Packet → List Packet
refuse_all stack [] sent = sent
refuse_all stack (datagram from bytes ∷ es) sent =
    refuse_all stack es (refusal stack from (take 64032 bytes) ++ sent)
refuse_all stack (timed_out ∷ es) sent = refuse_all stack es sent
refuse_all stack (failed ∷ es) sent = refuse_all stack es sent
refuse_all stack (interrupted ∷ es) sent = refuse_all stack es sent

abbrev pub OnlyOthers : Address → Recv → Type 0
OnlyOthers a (datagram from bytes) = differs from a ≡ true
OnlyOthers a e = ⊥

-- The datagrams before the one handed on are all others', and each is answered.
pub record Refuses (a : Address) (es : List Recv) (w w' : World) : Type 0 where
  pub skipped : List Recv
  pub event : Recv
  pub parts : es ≡ skipped ++ event ∷ w'.inbox
  pub others : All (OnlyOthers a) skipped
  pub sent : w'.sent ≡ refuse_all w.stack skipped w.sent

abbrev pub RefusesOthers : Address → List Recv → World → Outcome Received → Type 0
RefusesOthers a es w =
    Post (λ r w'. Refuses a es w w')
      (λ w'. All (OnlyOthers a) es × (w'.sent ≡ refuse_all w.stack es w.sent))

abbrev Answered : List Packet → World → World → Type 0
Answered packets w w' = (w'.sent ≡ packets ++ w.sent) × (w'.stack ≡ w.stack)

answer_other-Answered :
    (from : Address) (buff : List ℕ) (w : World)
    → Post (λ u w'. Answered (refusal w.stack from buff) w w') (λ w'. ⊥) (answer_other from buff w)
unfolding answer_other
answer_other-Answered from buff w =
    elim (Bool-cases ((read_conn w.stack buff).package_type_id == 1)) [
      | inl conn ↦ elim (Bool-cases (length buff == 18)) [
        | inl fits ↦
            let same : (length buff != sizeof_conn) ≡ false = ground arith in
            rw (conn, same, fits)
              (
                ap (λ b. record { to = from; body = b } ∷ w.sent)
                    (conrjt_bytes (read_conn w.stack buff).session_id),
                refl,
              )
        | inr long ↦
            let differ : (length buff != sizeof_conn) ≡ true = ground arith in
            rw (conn, differ, long) (refl, refl)
      ]
      | inr other ↦ elim (Bool-cases ((read_conn w.stack buff).package_type_id == 4)) [
        | inl sends_data ↦
            rw (other, sends_data)
              (
                ap (λ b. record { to = from; body = b } ∷ w.sent)
                    (rjt_bytes (read_data_info w.stack buff).session_id
                      (read_data_info w.stack buff).package_id),
                refl,
              )
        | inr unknown ↦ rw (other, unknown) (refl, refl)
      ]
    ]

refuse_first :
    (a from : Address) (bytes : List ℕ) (es : List Recv) (w w1 : World) (o : Outcome Received)
    → differs from a ≡ true
    → Answered (refusal w.stack from (take 64032 bytes)) w w1
    → RefusesOthers a es w1 o
    → RefusesOthers a (datagram from bytes ∷ es) w o
refuse_first a from bytes es w w1 o d (sent, stack) h =
    let later : (skipped : List Recv)
        → refuse_all w1.stack skipped w1.sent
          ≡ refuse_all w.stack (datagram from bytes ∷ skipped) w.sent =
      λ skipped.
        ap (λ s. refuse_all s skipped w1.sent) stack ∙ ap (refuse_all w.stack skipped) sent in
    Post-map (λ r w'. Refuses a es w1 w') (λ r w'. Refuses a (datagram from bytes ∷ es) w w')
      (λ w'. All (OnlyOthers a) es × (w'.sent ≡ refuse_all w1.stack es w1.sent))
      (λ w'.
        All (OnlyOthers a) (datagram from bytes ∷ es)
        × (w'.sent ≡ refuse_all w.stack (datagram from bytes ∷ es) w.sent))
      (λ r w' k. record {
        skipped = datagram from bytes ∷ k.skipped;
        event = k.event;
        parts = ap (◌∷◌ (datagram from bytes)) k.parts;
        others = (d, k.others);
        sent = k.sent ∙ later k.skipped;
      })
      (λ w' (all, e). ((d, all), e ∙ later es)) o h

read_datagram :
    (es : List Recv) (a from : Address) (bytes : List ℕ) (w : World) (search_on : M Received)
    → ((w1 : World) → RefusesOthers a es w1 (search_on w1))
    → (other : Bool) → differs from a ≡ other
    → RefusesOthers a (datagram from bytes ∷ es) w (
        if other
        then (answer_other from (take receive_buffor_size bytes) >> search_on)
            (record w { inbox = es })
        else done
            (record {
              status =
                  if length (take receive_buffor_size bytes) == 0
                  then Status.error
                  else Status.success;
              buff = take receive_buffor_size bytes;
              client_address = from;
            })
            (record w { inbox = es }))
read_datagram es a from bytes w search_on found true other =
    Post-bind
      (λ u w1.
        Answered (refusal w.stack from (take receive_buffor_size bytes)) (record w { inbox = es })
          w1)
      _ _ _ (answer_other from (take receive_buffor_size bytes)) (λ _. search_on)
      (record w { inbox = es })
      (answer_other-Answered from (take receive_buffor_size bytes) (record w { inbox = es }))
      (λ u w1 s. refuse_first a from bytes es w w1 _ other s (found w1)) (λ w1 h. elim h [ ])
read_datagram es a from bytes w search_on found false mine = record {
  skipped = [];
  event = datagram from bytes;
  parts = refl;
  others = tt;
  sent = refl;
}

read_loop-RefusesOthers :
    (es : List Recv) (a c : Address) (w : World) → RefusesOthers a es w (read_loop es (only a) c w)
unfolding read_loop
read_loop-RefusesOthers [] a c w = (tt, refl)
read_loop-RefusesOthers (timed_out ∷ es) a c w = record {
  skipped = [];
  event = timed_out;
  parts = refl;
  others = tt;
  sent = refl;
}
read_loop-RefusesOthers (failed ∷ es) a c w = record {
  skipped = [];
  event = failed;
  parts = refl;
  others = tt;
  sent = refl;
}
read_loop-RefusesOthers (interrupted ∷ es) a c w = record {
  skipped = [];
  event = interrupted;
  parts = refl;
  others = tt;
  sent = refl;
}
read_loop-RefusesOthers (datagram from bytes ∷ es) a c w =
    read_datagram es a from bytes w (read_loop es (only a) from)
      (λ w1. read_loop-RefusesOthers es a from w1) (differs from a) refl

-- On packets of the protocol: CONRJT for the session of a CONN packet, RJT for a DATA packet.
refusal-formats :
    (stack : List ℕ) (from : Address) (session protocol n : ℕ) (payload : List ℕ)
    → session < 2 ^ 64
    → n < 2 ^ 64
    → length payload < 2 ^ 32
    → (refusal stack from (conn_packet session protocol n)
        ≡ record { to = from; body = short_packet 3 session } ∷ [])
      × (read_data_info stack (data_packet session n payload) ≡ record {
        package_type_id = 4;
        session_id = session;
        package_id = n;
        nbr_of_bytes_in_packet = length payload;
      })
unfolding be_bytes le_bytes
refusal-formats stack from session protocol n payload hs hn hp = (
  rw (read_conn-conn_packet stack session protocol n hs hn) refl,
  read_data_info-data_packet stack session n payload hs hn hp,
)

-- Called for the connected client `a`, read_data_to_buffer hands on the first result of `recvfrom`
-- that is no datagram of another client's, with its status, its bytes (at most 64032) and its
-- sender. Each datagram before it is another client's and is answered to its sender, in order and
-- with nothing else sent: a datagram of 18 bytes and type CONN with CONRJT for its session, one of
-- type DATA with RJT for its session and number, any other with nothing, where the uninitialised
-- struct supplies what a short datagram lacks. It waits only when the inbox has run out, held no
-- datagram of `a`, and all are answered.
pub read_data_to_buffer-Answers :
    (a c : Address) (w : World)
    → ReadsOrBlocks a w.inbox w (read_data_to_buffer (only a) c w)
      × RefusesOthers a w.inbox w (read_data_to_buffer (only a) c w)
unfolding read_data_to_buffer
read_data_to_buffer-Answers a c w =
    (read_data_to_buffer-ReadsOrBlocks a c w, read_loop-RefusesOthers w.inbox a c w)
