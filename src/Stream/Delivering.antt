-- ===== src/Stream/Delivering.antt =====
-- `readn` on a stream that holds enough bytes and does not fail.
use si_k_1projekt_tcp_udp.Common.{
  ℕ, ◌-◌, ◌≤◌, ◌≡◌, refl, sym, ap, ◌∙◌, inl, inr, List, [], ◌∷◌, ◌++◌, append_assoc, append-nil,
  ◌==◌, Bool-cases, take, drop, length, length-append, length-take, length-drop, take-append-drop,
  take-append_left, drop-append_left, All, arith, le→ltb, length-zero,
}
use si_k_1projekt_tcp_udp.Stream.{
  ReadResult, read_failed, end_of_stream, at_most, Connection, ReadnResult, got, min_of, readn_loop,
  readn,
}
use si_k_1projekt_tcp_udp.Stream.Rules.{Post, Post-map}

-- The calls of `read` neither fail nor find the end of the stream.
abbrev pub GivesBytes : ReadResult → Type 0
GivesBytes (at_most k) = Unit
GivesBytes read_failed = ⊥
GivesBytes end_of_stream = ⊥

-- Exactly `part` was read, and nothing else was done.
pub record ReadWhole (so_far part after : List ℕ) (c : Connection) (r : ReadnResult)
    (c' : Connection) : Type 0 where
  pub result : r ≡ got (so_far ++ part)
  pub incoming : c'.incoming ≡ after
  pub reads : All GivesBytes c'.reads
  pub writes : c'.writes ≡ c.writes
  pub outgoing : c'.outgoing ≡ c.outgoing
  pub closed : c'.closed ≡ c.closed

readn_loop-ReadWhole :
    (rs : List ReadResult) (n : ℕ) (so_far part after : List ℕ) (c : Connection)
    → All GivesBytes rs
    → length part ≡ n
    → c.incoming ≡ part ++ after
    → Post (ReadWhole so_far part after c) (λ c'. ⊥) (readn_loop rs n so_far c)
unfolding readn_loop
readn_loop-ReadWhole [] n so_far part after c h l e =
    rw (le→ltb (length c.incoming) n (omega (arith, ap length e, length-append part after)))
      (record {
        result = ap (λ b. got (so_far ++ b)) (ap (take n) e ∙ take-append_left n part after l);
        incoming = ap (drop n) e ∙ drop-append_left n part after l;
        reads = tt;
        writes = refl;
        outgoing = refl;
        closed = refl;
      })
readn_loop-ReadWhole (read_failed ∷ rs) n so_far part after c h l e = elim h.0 [ ]
readn_loop-ReadWhole (end_of_stream ∷ rs) n so_far part after c h l e = elim h.0 [ ]
readn_loop-ReadWhole (at_most k ∷ rs) n so_far part after c h l e = elim (Bool-cases (n == 0)) [
  | inl all ↦
      let z : part ≡ [] = length-zero part (ground arith) in
      rw all (record {
        result = ap got (sym (append-nil so_far) ∙ ap (◌++◌ so_far) (sym z));
        incoming = e ∙ ap (λ b. b ++ after) z;
        reads = h;
        writes = refl;
        outgoing = refl;
        closed = refl;
      })
  | inr more ↦
      let j = min_of k n in
      let few : j ≤ n = ground arith in
      let size : length (take j part) ≡ j = omega (arith, few, length-take j part) in
      let split : c.incoming ≡ take j part ++ (drop j part ++ after) =
        e
        ∙ ap (λ b. b ++ after) (sym (take-append-drop j part))
        ∙ append_assoc (take j part) (drop j part) after in
      let front : take j c.incoming ≡ take j part =
        ap (take j) split ∙ take-append_left j (take j part) (drop j part ++ after) size in
      let back : drop j c.incoming ≡ drop j part ++ after =
        ap (drop j) split ∙ drop-append_left j (take j part) (drop j part ++ after) size in
      let joined : (so_far ++ take j c.incoming) ++ drop j part ≡ so_far ++ part =
        append_assoc so_far (take j c.incoming) (drop j part)
        ∙ ap (λ b. so_far ++ (b ++ drop j part)) front
        ∙ ap (◌++◌ so_far) (take-append-drop j part) in
      rw more (
        Post-map
          (ReadWhole (so_far ++ take j c.incoming) (drop j part) after
            (record c { incoming = drop j c.incoming; reads = rs }))
          (ReadWhole so_far part after c) (λ c'. ⊥) (λ c'. ⊥)
          (λ r c' g. record {
            result = g.result ∙ ap got joined;
            incoming = g.incoming;
            reads = g.reads;
            writes = g.writes;
            outgoing = g.outgoing;
            closed = g.closed;
          })
          (λ c' b. b) _
          (readn_loop-ReadWhole rs (n - length (take j c.incoming)) (so_far ++ take j c.incoming)
            (drop j part) after _ h.1
            (omega (arith, few, l, ap length front, size, length-drop j part)) back))
]

-- `readn` of as many bytes as `part` has, where the stream begins with `part` and no call of `read`
-- fails, gives `part`.
pub readn-ReadWhole :
    (n : ℕ) (part after : List ℕ) (c : Connection)
    → All GivesBytes c.reads
    → length part ≡ n
    → c.incoming ≡ part ++ after
    → Post (ReadWhole [] part after c) (λ c'. ⊥) (readn n c)
unfolding readn
readn-ReadWhole n part after c h l e = readn_loop-ReadWhole c.reads n [] part after c h l e

-- The stream was read up to `after`, and nothing else was done.
pub record Took (after : List ℕ) (c c' : Connection) : Type 0 where
  pub incoming : c'.incoming ≡ after
  pub reads : All GivesBytes c'.reads
  pub writes : c'.writes ≡ c.writes
  pub outgoing : c'.outgoing ≡ c.outgoing
  pub closed : c'.closed ≡ c.closed

pub Took-trans :
    (mid after : List ℕ) (c c1 c2 : Connection) → Took mid c c1 → Took after c1 c2 → Took after c c2
Took-trans mid after c c1 c2 g h = record {
  incoming = h.incoming;
  reads = h.reads;
  writes = h.writes ∙ g.writes;
  outgoing = h.outgoing ∙ g.outgoing;
  closed = h.closed ∙ g.closed;
}

-- A call of `readn` that gives `part`, and what its caller makes of it.
pub reads_part :
    {A : Type 0} (f : ReadnResult → A) (a : A) (n : ℕ) (part after : List ℕ) (c : Connection)
    → All GivesBytes c.reads
    → length part ≡ n
    → c.incoming ≡ part ++ after
    → f (got part) ≡ a
    → Post (λ r c'. (f r ≡ a) × Took after c c') (λ c'. ⊥) (readn n c)
reads_part f a n part after c h l e v =
    Post-map (ReadWhole [] part after c) _ (λ c'. ⊥) (λ c'. ⊥)
      (λ r c' g. (
        ap f g.result ∙ v,
        record {
          incoming = g.incoming;
          reads = g.reads;
          writes = g.writes;
          outgoing = g.outgoing;
          closed = g.closed;
        },
      ))
      (λ c' b. b) _ (readn-ReadWhole n part after c h l e)
