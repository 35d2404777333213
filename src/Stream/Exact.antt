-- ===== src/Stream/Exact.antt =====
-- `readn` takes the stream's next bytes, however the calls of `read` cut it; `writen` appends.
use si_k_1projekt_tcp_udp.Common.{
  ℕ, ◌-◌, ◌≤◌, ◌<◌, ◌≡◌, refl, sym, ap, ◌∙◌, ◌↔◌, ◌⊎◌, ◌+◌, All, true, false, inl, inr, List, [],
  ◌∷◌, ◌++◌, append_assoc, append-nil, ltb, ◌==◌, Bool-cases, take, drop, length, length-append,
  length-take, take-append-drop, arith,
}
use si_k_1projekt_tcp_udp.Constants.{Status}
use si_k_1projekt_tcp_udp.Stream.{
  ReadResult, read_failed, end_of_stream, at_most, Connection, Outcome, done, blocked, out_of_fuel,
  ReadnResult, negative, got, min_of, readn_loop, readn, readn_error_handler,
}

-- A call that wants `n` more bytes, `so_far` being read. It waits only when the stream holds too
-- few bytes.
abbrev pub TakesNext : List ℕ → ℕ → Connection → Outcome ReadnResult → Type 0
TakesNext so_far n c (done negative c') =
    (part : List ℕ) × (c.incoming ≡ part ++ c'.incoming)
    × (c'.outgoing ≡ c.outgoing)
    × (c'.closed ≡ c.closed)
TakesNext so_far n c (done (got bytes) c') =
    (part : List ℕ) × (bytes ≡ so_far ++ part)
    × (c.incoming ≡ part ++ c'.incoming)
    × (length part ≤ n)
    × (c'.outgoing ≡ c.outgoing)
    × (c'.closed ≡ c.closed)
TakesNext so_far n c (blocked c') = length c.incoming < n
TakesNext so_far n c out_of_fuel = ⊥

-- A part that is taken before the rest.
TakesNext-before :
    (so_far part : List ℕ) (n : ℕ) (c d : Connection) (o : Outcome ReadnResult)
    → c.incoming ≡ part ++ d.incoming
    → length part ≤ n
    → d.outgoing ≡ c.outgoing
    → d.closed ≡ c.closed
    → TakesNext (so_far ++ part) (n - length part) d o
    → TakesNext so_far n c o
TakesNext-before so_far part n c d (done negative c') e l f f2 (later, g, k, k2) = (
  part ++ later,
  e ∙ ap (◌++◌ part) g ∙ sym (append_assoc part later c'.incoming),
  k ∙ f,
  k2 ∙ f2,
)
TakesNext-before so_far part n c d (done (got bytes) c') e l f f2 (later, b, g, fits, k, k2) = (
  part ++ later,
  b ∙ append_assoc so_far part later,
  e ∙ ap (◌++◌ part) g ∙ sym (append_assoc part later c'.incoming),
  omega (arith, length-append part later),
  k ∙ f,
  k2 ∙ f2,
)
TakesNext-before so_far part n c d (blocked c') e l f f2 h =
    omega (arith, ap length e, length-append part d.incoming)
TakesNext-before so_far part n c d out_of_fuel e l f f2 h = h

readn_loop-TakesNext :
    (rs : List ReadResult) (n : ℕ) (so_far : List ℕ) (c : Connection)
    → TakesNext so_far n c (readn_loop rs n so_far c)
unfolding readn_loop
readn_loop-TakesNext [] n so_far c = elim (Bool-cases (ltb (length c.incoming) n)) [
  | inl few ↦ rw few (ground arith)
  | inr enough ↦ rw enough (
    take n c.incoming,
    refl,
    sym (take-append-drop n c.incoming),
    omega (arith, length-take n c.incoming),
    refl,
    refl,
  )
]
readn_loop-TakesNext (read_failed ∷ later) n so_far c = elim (Bool-cases (n == 0)) [
  | inl all ↦ rw all ([], sym (append-nil so_far), refl, omega arith, refl, refl)
  | inr more ↦ rw more ([], refl, refl, refl)
]
readn_loop-TakesNext (end_of_stream ∷ later) n so_far c = elim (Bool-cases (n == 0)) [
  | inl all ↦ rw all ([], sym (append-nil so_far), refl, omega arith, refl, refl)
  | inr more ↦ rw more ([], sym (append-nil so_far), refl, omega arith, refl, refl)
]
readn_loop-TakesNext (at_most k ∷ later) n so_far c = elim (Bool-cases (n == 0)) [
  | inl all ↦ rw all ([], sym (append-nil so_far), refl, omega arith, refl, refl)
  | inr more ↦
      let m : min_of k n ≤ n = ground arith in
      let part = take (min_of k n) c.incoming in
      rw more (
        TakesNext-before so_far part n c
          (record c { incoming = drop (min_of k n) c.incoming; reads = later }) _
          (sym (take-append-drop (min_of k n) c.incoming))
          (omega (arith, m, length-take (min_of k n) c.incoming)) refl refl
          (readn_loop-TakesNext later (n - length part) (so_far ++ part) _))
]

-- A call of `read` that did not fail and did not find the end of the stream.
abbrev pub GivesSome : ReadResult → Type 0
GivesSome read_failed = ⊥
GivesSome end_of_stream = ⊥
GivesSome (at_most k) = Unit

-- Which calls of `read` are made, of those to come, for `n` bytes more than the `had` that are
-- there: all before the last give bytes.
pub record Calls (had n : ℕ) (rs : List ReadResult) (bytes : List ℕ) (later : List ReadResult)
    : Type 0 where
  pub earlier : List ReadResult
  pub giving : All GivesSome earlier
  pub stopped :
      ((rs ≡ earlier ++ later) × (length bytes ≡ had + n))
      ⊎ ((rs ≡ earlier ++ end_of_stream ∷ later) × (length bytes < had + n))

abbrev pub Stops : ℕ → ℕ → List ReadResult → Outcome ReadnResult → Type 0
Stops had n rs (done negative c') =
    (earlier : List ReadResult) × (rs ≡ earlier ++ read_failed ∷ c'.reads) × All GivesSome earlier
Stops had n rs (done (got bytes) c') = Calls had n rs bytes c'.reads
Stops had n rs (blocked c') = (c'.reads ≡ []) × All GivesSome rs
Stops had n rs out_of_fuel = ⊥

Stops-after :
    (had had' n n' k : ℕ) (rs : List ReadResult) (o : Outcome ReadnResult)
    → had' + n' ≡ had + n
    → Stops had' n' rs o
    → Stops had n (at_most k ∷ rs) o
Stops-after had had' n n' k rs (done negative c') e (earlier, p, q) =
    (at_most k ∷ earlier, ap (◌∷◌ (at_most k)) p, (tt, q))
Stops-after had had' n n' k rs (done (got bytes) c') e h = record {
  earlier = at_most k ∷ h.earlier;
  giving = (tt, h.giving);
  stopped = elim h.stopped [
    | inl (p, l) ↦ inl (ap (◌∷◌ (at_most k)) p, l ∙ e)
    | inr (p, l) ↦ inr (ap (◌∷◌ (at_most k)) p, omega arith)
  ];
}
Stops-after had had' n n' k rs (blocked c') e (p, q) = (p, (tt, q))
Stops-after had had' n n' k rs out_of_fuel e h = h

-- Nothing more is wanted.
Stops-full :
    (n : ℕ) (so_far : List ℕ) (rs : List ReadResult)
    → (n == 0) ≡ true
    → Calls (length so_far) n rs so_far rs
Stops-full n so_far rs all = record {
  earlier = [];
  giving = tt;
  stopped = inl (refl, ground arith);
}

readn_loop-Stops :
    (rs : List ReadResult) (n : ℕ) (so_far : List ℕ) (c : Connection)
    → Stops (length so_far) n rs (readn_loop rs n so_far c)
unfolding readn_loop
readn_loop-Stops [] n so_far c = elim (Bool-cases (ltb (length c.incoming) n)) [
  | inl few ↦ rw few (refl, tt)
  | inr enough ↦ rw enough (record {
    earlier = [];
    giving = tt;
    stopped = inl (
      refl,
      length-append so_far (take n c.incoming)
          ∙ ap (λ k. length so_far + k) (taken_whole n c.incoming enough),
    );
  })
]
  where
    taken_whole : (n : ℕ) (xs : List ℕ) → ltb (length xs) n ≡ false → length (take n xs) ≡ n
    taken_whole n xs h = ground (arith, length-take n xs)
readn_loop-Stops (read_failed ∷ later) n so_far c = elim (Bool-cases (n == 0)) [
  | inl all ↦ rw all (Stops-full n so_far _ all)
  | inr more ↦ rw more ([], refl, tt)
]
readn_loop-Stops (end_of_stream ∷ later) n so_far c = elim (Bool-cases (n == 0)) [
  | inl all ↦ rw all (Stops-full n so_far _ all)
  | inr more ↦ rw more (record { earlier = []; giving = tt; stopped = inr (refl, ground arith) })
]
readn_loop-Stops (at_most k ∷ later) n so_far c = elim (Bool-cases (n == 0)) [
  | inl all ↦ rw all (Stops-full n so_far _ all)
  | inr more ↦
      let m : min_of k n ≤ n = ground arith in
      let part = take (min_of k n) c.incoming in
      rw more (
        Stops-after (length so_far) (length (so_far ++ part)) n (n - length part) k later _
          (omega (arith, m, length-take (min_of k n) c.incoming, length-append so_far part))
          (readn_loop-Stops later (n - length part) (so_far ++ part) _))
]

-- What `readn` gives for `n` bytes: the stream's next bytes in order, at most `n`, and SUCCESS of
-- `readn_error_handler` says that they are all `n`.
abbrev pub ReadsExactly : ℕ → Connection → Outcome ReadnResult → Type 0
ReadsExactly n c (done negative c') =
    (readn_error_handler negative n ≡ Status.error)
    × ((part : List ℕ) × (c.incoming ≡ part ++ c'.incoming))
ReadsExactly n c (done (got bytes) c') =
    (c.incoming ≡ bytes ++ c'.incoming)
    × (length bytes ≤ n)
    × ((readn_error_handler (got bytes) n ≡ Status.success) ↔ (length bytes ≡ n))
ReadsExactly n c (blocked c') = length c.incoming < n
ReadsExactly n c out_of_fuel = ⊥

TakesNext-ReadsExactly :
    (n : ℕ) (c : Connection) (o : Outcome ReadnResult)
    → 0 < n
    → TakesNext [] n c o
    → ReadsExactly n c o
unfolding readn_error_handler
TakesNext-ReadsExactly n c (done negative c') h (part, e, k, k2) = (refl, (part, e))
TakesNext-ReadsExactly n c (done (got bytes) c') h (part, b, e, l, k, k2) =
    let f : length bytes ≡ length part = ap length b in
    (e ∙ ap (λ x. x ++ c'.incoming) (sym b), omega arith, ground arith)
TakesNext-ReadsExactly n c (blocked c') h e = e
TakesNext-ReadsExactly n c out_of_fuel h e = e

-- `readn` of n ≥ 1 bytes never runs out of the model's fuel. It calls `read` again as long as
-- bytes are wanted and `read` gives some: it returns n bytes, or fewer when `read` has found the
-- end of the stream, or an error when `read` has failed. Whatever the calls of `read` give, the
-- bytes that it returns are the next bytes of the stream, and readn_error_handler accepts them
-- exactly when they are n; after an error some next bytes are lost; and it waits only when fewer
-- than n bytes are there and no call of `read` fails or finds the end.
pub readn-ReadsExactly :
    (n : ℕ) (c : Connection) → 0 < n → ReadsExactly n c (readn n c) × Stops 0 n c.reads (readn n c)
unfolding readn
readn-ReadsExactly n c h = (
  TakesNext-ReadsExactly n c _ h (readn_loop-TakesNext c.reads n [] c),
  readn_loop-Stops c.reads n [] c,
)

pub readn-TakesNext : (n : ℕ) (c : Connection) → TakesNext [] n c (readn n c)
unfolding readn
readn-TakesNext n c = readn_loop-TakesNext c.reads n [] c
