-- ===== src/Stream/Writing.antt =====
-- `writen` appends to the stream.
use si_k_1projekt_tcp_udp.Common.{
  ℕ, ◌≡◌, refl, sym, ap, ◌∙◌, ◌⊎◌, inl, inr, List, [], ◌∷◌, ◌++◌, append_assoc, append-nil, ◌==◌,
  Bool-cases, take, drop, length, take-append-drop, arith, length-zero,
}
use si_k_1projekt_tcp_udp.Stream.{
  WriteResult, write_failed, takes, Connection, WritenResult, negative_count, count, writen_loop,
  writen,
}
use si_k_1projekt_tcp_udp.Stream.Rules.{Post, Post-map}

-- `writen` gives the whole length, and then all is written; or 0 or a negative number.
abbrev pub Counts : ℕ → List ℕ → WritenResult → Type 0
Counts n rest negative_count = Unit
Counts n rest (count k) = ((k ≡ n) × (rest ≡ [])) ⊎ (k ≡ 0)

-- The bytes were appended to the stream up to some point, and nothing else was done.
pub record Writes (n : ℕ) (bytes : List ℕ) (c : Connection) (r : WritenResult) (c' : Connection)
    : Type 0 where
  pub part : List ℕ
  pub rest : List ℕ
  pub parts : bytes ≡ part ++ rest
  pub outgoing : c'.outgoing ≡ c.outgoing ++ part
  pub counts : Counts n rest r
  pub incoming : c'.incoming ≡ c.incoming
  pub reads : c'.reads ≡ c.reads
  pub closed : c'.closed ≡ c.closed

-- What `write` took before the rest.
Writes-before :
    (n k : ℕ) (bytes : List ℕ) (c : Connection) (later : List WriteResult) (r : WritenResult)
    (c' : Connection)
    → Writes n
        (drop k bytes)
        (record c { writes = later; outgoing = c.outgoing ++ take k bytes })
        r
        c'
    → Writes n bytes c r c'
Writes-before n k bytes c later r c' h = record {
  part = take k bytes ++ h.part;
  rest = h.rest;
  parts =
      sym (take-append-drop k bytes)
      ∙ ap (◌++◌ (take k bytes)) h.parts
      ∙ sym (append_assoc (take k bytes) h.part h.rest);
  outgoing = h.outgoing ∙ append_assoc c.outgoing (take k bytes) h.part;
  counts = h.counts;
  incoming = h.incoming;
  reads = h.reads;
  closed = h.closed;
}

nothing_written :
    (n : ℕ) (bytes : List ℕ) (c : Connection) (ws : List WriteResult) (r : WritenResult)
    → Counts n bytes r
    → Writes n bytes c r (record c { writes = ws })
nothing_written n bytes c ws r h = record {
  part = [];
  rest = bytes;
  parts = refl;
  outgoing = sym (append-nil c.outgoing);
  counts = h;
  incoming = refl;
  reads = refl;
  closed = refl;
}

writen_loop-Writes :
    (ws : List WriteResult) (n : ℕ) (bytes : List ℕ) (c : Connection)
    → Post (Writes n bytes c) (λ c'. ⊥) (writen_loop ws n bytes c)
unfolding writen_loop
writen_loop-Writes [] n bytes c = record {
  part = bytes;
  rest = [];
  parts = sym (append-nil bytes);
  outgoing = refl;
  counts = inl (refl, refl);
  incoming = refl;
  reads = refl;
  closed = refl;
}
writen_loop-Writes (write_failed ∷ ws) n bytes c = elim (Bool-cases (length bytes == 0)) [
  | inl all ↦ rw all (
      nothing_written n bytes c (write_failed ∷ ws) (count n)
        (inl (refl, length-zero bytes (ground arith))))
  | inr more ↦ rw more (nothing_written n bytes c ws negative_count tt)
]
writen_loop-Writes (takes k ∷ ws) n bytes c = elim (Bool-cases (length bytes == 0)) [
  | inl all ↦ rw all (
      nothing_written n bytes c (takes k ∷ ws) (count n)
        (inl (refl, length-zero bytes (ground arith))))
  | inr more ↦ elim (Bool-cases (k == 0)) [
    | inl none ↦ rw (more, none) (nothing_written n bytes c ws (count 0) (inr refl))
    | inr some_taken ↦
        rw (more, some_taken)
          (Post-map _ (Writes n bytes c) (λ c'. ⊥) (λ c'. ⊥)
            (λ r c' h. Writes-before n k bytes c ws r c' h) (λ c' b. b) _
            (writen_loop-Writes ws n (drop k bytes) _))
  ]
]

-- `writen` always comes back. It has appended some first part of the bytes to the stream and left
-- the incoming bytes alone; it gives their number only if all of them are written, and 0 or a
-- negative number otherwise.
pub writen-Writes :
    (bytes : List ℕ) (n : ℕ) (c : Connection)
    → Post (Writes n (take n bytes) c) (λ c'. ⊥) (writen bytes n c)
unfolding writen
writen-Writes bytes n c = writen_loop-Writes c.writes n (take n bytes) c
