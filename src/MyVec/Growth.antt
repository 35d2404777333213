-- ===== src/MyVec/Growth.antt =====
-- The byte vector: what stays well-formed, and what appending does to the contents.
use si_k_1projekt_tcp_udp.Common.{
  ℕ, ◌+◌, ◌*◌, ◌^◌, ◌≤◌, ◌<◌, ◌≡◌, ◌≢◌, refl, sym, ap, ap₂, subst, ◌∙◌, ◌⊎◌, inl, inr, List, ◌++◌,
  append_assoc, true, false, leb, Bool-cases, take, drop, replicate, length, length-append,
  length-take, length-drop, length-replicate, take-append_left, take_all, All, u64, arith,
}
use si_k_1projekt_tcp_udp.Packets.{str_pad}
use si_k_1projekt_tcp_udp.Client.Packing.{length-str_pad, str_pad-take}
use si_k_1projekt_tcp_udp.MyVec.{
  MyVec, VecResult, ok, out_of_bounds, Allocator, calloc, strncpy_at, grown_size, realocate_my_vec,
  store_str, push_back_str_to_vec,
}

pub record IsValid (v : MyVec) : Type 0 where
  pub size_ok : length v.buff ≡ v.buff_size
  pub free_ok : v.first_free_space_idx ≡ v.occupied_size
  pub inside : v.occupied_size ≤ v.buff_size

abbrev pub contents : MyVec → List ℕ
contents v = take v.occupied_size v.buff

abbrev pub NoNul : List ℕ → Type 0
NoNul = All (λ x. x ≢ 0)

-- The result is a well-formed vector with `bytes` behind the old contents.
pub record Appended (v : MyVec) (bytes : List ℕ) (r : VecResult MyVec) : Type 0 where
  pub result : MyVec
  pub returned : r ≡ ok result
  pub valid : IsValid result
  pub all : contents result ≡ contents v ++ bytes
  pub count : result.occupied_size ≡ v.occupied_size + length bytes
  pub growth :
      (result.buff_size ≡ v.buff_size)
      ⊎ ((v.buff_size ≤ result.buff_size) × (result.buff_size ≤ 2 * result.occupied_size))

le→leb : (a b : ℕ) → a ≤ b → leb a b ≡ true
le→leb a b h = ground arith

lt→leb : (a b : ℕ) → b < a → leb a b ≡ false
lt→leb a b h = ground arith

store_str-Appended :
    (v : MyVec) (bytes : List ℕ)
    → IsValid v
    → NoNul bytes
    → v.occupied_size + length bytes ≤ v.buff_size
    → v.occupied_size + length bytes < 2 ^ 64
    → Appended v bytes (store_str v bytes (length bytes))
unfolding strncpy_at
store_str-Appended v bytes h chars fits small = record {
  result = record v {
    buff = stored;
    first_free_space_idx = u64 (v.first_free_space_idx + length bytes);
    occupied_size = u64 (v.occupied_size + length bytes);
  };
  returned =
      rw
        (le→leb (v.first_free_space_idx + length bytes) (length v.buff)
          (omega (arith, h.free_ok, h.size_ok)))
        refl;
  valid = record {
    size_ok = omega (
      arith,
      h.size_ok,
      h.free_ok,
      length-append (take v.first_free_space_idx v.buff)
          (str_pad (length bytes) bytes ++ drop (v.first_free_space_idx + length bytes) v.buff),
      length-append (str_pad (length bytes) bytes)
          (drop (v.first_free_space_idx + length bytes) v.buff),
      length-str_pad (length bytes) bytes,
      length-take v.first_free_space_idx v.buff,
      length-drop (v.first_free_space_idx + length bytes) v.buff,
    );
    free_ok = omega (arith, h.free_ok);
    inside = omega arith;
  };
  count = omega arith;
  growth = inl refl;
  all =
      ap (λ l. take (u64 (v.occupied_size + length bytes)) l) regrouped
      ∙ take-append_left (u64 (v.occupied_size + length bytes)) (contents v ++ bytes) _ (
          omega (
            arith,
            length-append (contents v) bytes,
            length-take v.occupied_size v.buff,
            h.size_ok,
            h.inside,
          ));
}
  where
    stored : List ℕ
    stored =
        take v.first_free_space_idx v.buff
        ++ (str_pad (length bytes) bytes ++ drop (v.first_free_space_idx + length bytes) v.buff)

    copied : str_pad (length bytes) bytes ≡ bytes
    copied =
        str_pad-take (length bytes) bytes (omega arith)
          (subst NoNul (sym (take_all (length bytes) bytes (omega arith))) chars)
        ∙ take_all (length bytes) bytes (omega arith)

    regrouped :
        stored ≡ (contents v ++ bytes) ++ drop (v.first_free_space_idx + length bytes) v.buff
    regrouped =
        ap₂ (λ k l. take k v.buff ++ (l ++ drop (v.first_free_space_idx + length bytes) v.buff))
          h.free_ok copied
        ∙ sym (append_assoc (contents v) bytes _)

-- The array after it has grown.
pub record Grown (v : MyVec) (r : VecResult MyVec) : Type 0 where
  pub result : MyVec
  pub returned : r ≡ ok result
  pub valid : IsValid result
  pub size : result.buff_size ≡ 2 * v.buff_size
  pub occupied : result.occupied_size ≡ v.occupied_size
  pub same : contents result ≡ contents v

pub realocate_my_vec-Grown :
    (serves : Allocator) (v : MyVec)
    → IsValid v
    → NoNul (contents v)
    → v.buff_size < 2 ^ 62
    → serves (2 * v.buff_size) ≡ true
    → Grown v (realocate_my_vec serves v)
unfolding realocate_my_vec calloc strncpy_at
realocate_my_vec-Grown serves v h chars small served = record {
  result = record v { buff = copied; buff_size = grown_size v.buff_size };
  returned =
      rw
        (
          doubled,
          served,
          length-replicate {A = ℕ} (2 * v.buff_size) 0,
          le→leb (0 + v.occupied_size) (2 * v.buff_size) (omega (arith, h.inside)),
        )
        refl;
  valid = record {
    size_ok = omega (
      arith,
      doubled,
      h.inside,
      length-append (str_pad v.occupied_size v.buff)
          (drop (0 + v.occupied_size) (replicate (grown_size v.buff_size) 0)),
      length-str_pad v.occupied_size v.buff,
      length-drop {A = ℕ} (0 + v.occupied_size) (replicate (grown_size v.buff_size) 0),
      length-replicate {A = ℕ} (grown_size v.buff_size) 0,
    );
    free_ok = h.free_ok;
    inside = omega (arith, doubled, h.inside);
  };
  size = doubled;
  occupied = refl;
  same =
      ap
        (λ l.
          take v.occupied_size
            (l ++ drop (0 + v.occupied_size) (replicate (grown_size v.buff_size) 0)))
        kept
      ∙ take-append_left v.occupied_size (contents v) _
          (omega (arith, length-take v.occupied_size v.buff, h.size_ok, h.inside));
}
  where
    doubled : grown_size v.buff_size ≡ 2 * v.buff_size
    doubled = ground arith

    copied : List ℕ
    copied =
        str_pad v.occupied_size v.buff
        ++ drop (0 + v.occupied_size) (replicate (grown_size v.buff_size) 0)

    kept : str_pad v.occupied_size v.buff ≡ contents v
    kept = str_pad-take v.occupied_size v.buff (omega (arith, h.size_ok, h.inside)) chars

-- A well-formed vector that holds no NUL takes bytes that are none NUL behind its contents, and
-- stays well-formed, if they fit into twice its size, the allocator serves that size, and it is
-- below 2^63.
pub push_back_str_to_vec-Appended :
    (serves : Allocator) (v : MyVec) (bytes : List ℕ)
    → IsValid v
    → NoNul (contents v)
    → NoNul bytes
    → v.buff_size < 2 ^ 62
    → serves (2 * v.buff_size) ≡ true
    → v.occupied_size + length bytes ≤ 2 * v.buff_size
    → Appended v bytes (push_back_str_to_vec serves v bytes (length bytes))
unfolding push_back_str_to_vec
push_back_str_to_vec-Appended serves v bytes h chars new small served fits =
    elim (Bool-cases (leb v.buff_size (u64 (v.occupied_size + length bytes)))) [
      | inl full ↦
          let g = realocate_my_vec-Grown serves v h chars small served in
          let a =
            store_str-Appended g.result bytes g.valid new (omega (arith, g.size, g.occupied))
              (omega (arith, g.size, g.occupied)) in
          rw (full, g.returned)
            (record {
              result = a.result;
              returned = a.returned;
              valid = a.valid;
              all = a.all ∙ ap (λ l. l ++ bytes) g.same;
              count = omega (arith, a.count, g.occupied);
              growth = elim a.growth [
                | inl e ↦
                    inr (
                      omega (arith, e, g.size),
                      ground (arith, e, g.size, a.count, g.occupied, full),
                    )
                | inr (more, less) ↦ inr (omega (arith, more, g.size), less)
              ];
            })
      | inr room ↦
          let enough : v.occupied_size + length bytes ≤ v.buff_size = ground arith in
          rw room (store_str-Appended v bytes h new enough (omega arith))
    ]

-- Bytes that do not fit into twice the size of the array are written past its end.
pub push_back_str_to_vec-out_of_bounds :
    (serves : Allocator) (v : MyVec) (bytes : List ℕ)
    → IsValid v
    → NoNul (contents v)
    → v.buff_size < 2 ^ 62
    → serves (2 * v.buff_size) ≡ true
    → 2 * v.buff_size < v.occupied_size + length bytes
    → v.occupied_size + length bytes < 2 ^ 64
    → push_back_str_to_vec serves v bytes (length bytes) ≡ out_of_bounds
unfolding push_back_str_to_vec strncpy_at
push_back_str_to_vec-out_of_bounds serves v bytes h chars small served long fits =
    let g = realocate_my_vec-Grown serves v h chars small served in
    let full : leb v.buff_size (u64 (v.occupied_size + length bytes)) ≡ true =
      le→leb _ _ (omega arith) in
    let outside : leb (g.result.first_free_space_idx + length bytes) (length g.result.buff)
        ≡ false =
      lt→leb _ _ (omega (arith, g.size, g.occupied, g.valid.size_ok, g.valid.free_ok)) in
    rw (full, g.returned, outside) refl
