-- ===== src/MyVec/Input.antt =====
-- Reading the whole of standard input into the vector.
use si_k_1projekt_tcp_udp.Common.{
  ℕ, ◌+◌, ◌*◌, ◌^◌, ◌≤◌, ◌<◌, ◌≡◌, ◌≢◌, refl, sym, ap, subst, ◌∙◌, inl, inr, List, [], ◌∷◌, ◌++◌,
  append_assoc, append-nil, true, false, ◌==◌, take, take_all, replicate, length, length-append,
  length-replicate, All, All-append, arith,
}
use si_k_1projekt_tcp_udp.MyVec.{
  MyVec, VecResult, ok, Allocator, calloc, my_vec_init, StdinRead, chunk, read_failed,
  my_vec_read_stdin, read_stdin,
}
use si_k_1projekt_tcp_udp.MyVec.Growth.{
  IsValid, contents, NoNul, Appended, push_back_str_to_vec-Appended,
}

-- A call of `read` that gives 1 to 16384 bytes, none of them NUL.
abbrev pub IsText : StdinRead → Type 0
IsText (chunk bytes) = (1 ≤ length bytes) × (length bytes ≤ 16384) × NoNul bytes
IsText read_failed = ⊥

-- All bytes of the input.
abbrev pub text : List StdinRead → List ℕ
text [] = []
text (chunk bytes ∷ later) = bytes ++ text later
text (read_failed ∷ later) = text later

-- A well-formed vector as the program makes it.
record Held (v : MyVec) : Type 0 where
  valid : IsValid v
  chars : NoNul (contents v)
  room : 16384 ≤ v.buff_size
  bound : v.buff_size ≤ 16384 + 2 * v.occupied_size

-- The vector after reading: the text behind what it held.
record ReadIn (v : MyVec) (bytes : List ℕ) (r : VecResult MyVec) : Type 0 where
  result : MyVec
  returned : r ≡ ok result
  held : Held result
  all : contents result ≡ contents v ++ bytes

Held-after :
    (v : MyVec) (bytes : List ℕ) (r : VecResult MyVec) (a : Appended v bytes r)
    → Held v
    → NoNul bytes
    → Held a.result
Held-after v bytes r a h chars = record {
  valid = a.valid;
  chars = subst NoNul (sym a.all) (All-append (λ x. x ≢ 0) (contents v) bytes h.chars chars);
  room = elim a.growth [
    | inl e ↦ omega (arith, e, h.room)
    | inr (more, less) ↦ omega (arith, more, h.room)
  ];
  bound = elim a.growth [
    | inl e ↦ omega (arith, e, h.bound, a.count)
    | inr (more, less) ↦ omega (arith, less)
  ];
}

my_vec_read_stdin-ReadIn :
    (serves : Allocator) (input : List StdinRead) (v : MyVec)
    → ((n : ℕ) → n < 2 ^ 63 → serves n ≡ true)
    → All IsText input
    → Held v
    → v.occupied_size + length (text input) < 2 ^ 60
    → ReadIn v (text input) (my_vec_read_stdin serves input v)
unfolding my_vec_read_stdin
my_vec_read_stdin-ReadIn serves [] v mem t h few = record {
  result = v;
  returned = refl;
  held = h;
  all = sym (append-nil (contents v));
}
my_vec_read_stdin-ReadIn serves (read_failed ∷ later) v mem t h few = elim t.0 [ ]
my_vec_read_stdin-ReadIn serves (chunk bytes ∷ later) v mem ((some_bytes, fits, chars), t) h few =
    let whole : take 32768 bytes ≡ bytes = take_all 32768 bytes (omega (arith, fits)) in
    let not_empty : (length bytes == 0) ≡ false = ground arith in
    let size = length-append bytes (text later) in
    let a =
      push_back_str_to_vec-Appended serves v bytes h.valid h.chars chars
        (omega (arith, h.bound, few)) (mem (2 * v.buff_size) (omega (arith, h.bound, few)))
        (omega (arith, h.valid.inside, h.room, fits)) in
    let g =
      my_vec_read_stdin-ReadIn serves later a.result mem t (Held-after v bytes _ a h chars)
        (omega (arith, a.count, few, size)) in
    record {
      result = g.result;
      returned = rw (whole, not_empty, a.returned) g.returned;
      held = g.held;
      all = g.all ∙ ap (λ l. l ++ text later) a.all ∙ append_assoc (contents v) bytes (text later);
    }

-- What `read_stdin` makes of text: a well-formed vector that holds it.
pub record IsReadWhole (bytes : List ℕ) (r : VecResult MyVec) : Type 0 where
  pub result : MyVec
  pub returned : r ≡ ok result
  pub valid : IsValid result
  pub all : contents result ≡ bytes
  pub no_nul : NoNul (contents result)

-- If the allocator serves every request below 2^63 bytes, and the calls of `read` on standard
-- input give 1 to 16384 bytes each, none of them NUL, and fewer than 2^60 bytes in all, then
-- `read_stdin` comes back with a well-formed vector whose contents are the whole input.
pub read_stdin-IsReadWhole :
    (serves : Allocator) (input : List StdinRead)
    → ((n : ℕ) → n < 2 ^ 63 → serves n ≡ true)
    → All IsText input
    → length (text input) < 2 ^ 60
    → IsReadWhole (text input) (read_stdin serves input)
unfolding read_stdin my_vec_init calloc
read_stdin-IsReadWhole serves input mem t few =
    let g = my_vec_read_stdin-ReadIn serves input start mem t held (omega (arith, few)) in
    record {
      result = g.result;
      returned = rw (mem 32 (omega arith), mem 16384 (omega arith)) g.returned;
      valid = g.held.valid;
      all = g.all;
      no_nul = g.held.chars;
    }
  where
    start : MyVec
    start = record {
      buff = replicate 16384 0;
      buff_size = 16384;
      occupied_size = 0;
      first_free_space_idx = 0;
    }

    held : Held start
    held = record {
      valid = record {
        size_ok = length-replicate {A = ℕ} 16384 0;
        free_ok = refl;
        inside = omega arith;
      };
      chars = tt;
      room = omega arith;
      bound = omega arith;
    }
