-- ===== src/MyVec.antt =====
-- my_vec.h and my_vec.c: the growing byte array that the client reads standard input into.
-- An array is the list of its bytes; an access outside it is the result `out_of_bounds`.
pub mod Growth
pub mod Input
pub mod Chars
use si_k_1projekt_tcp_udp.Common.{
  ℕ, ◌+◌, ◌*◌, ◌-◌, ◌/◌, ◌^◌, List, [], ◌∷◌, ◌++◌, Bool, ltb, leb, ◌==◌, if◌then◌else◌, get_or,
  take, drop, replicate, length, u64,
}
use si_k_1projekt_tcp_udp.Packets.{str_pad}

abbrev pub init_vec_size : ℕ
init_vec_size = 16384

abbrev pub input_buff_size : ℕ
input_buff_size = 32768

pub record MyVec : Type 0 where
  pub buff : List ℕ
  pub buff_size : ℕ
  pub occupied_size : ℕ
  pub first_free_space_idx : ℕ

-- `fatal_exit`: the program has ended by `fatal`.
pub data VecResult (A : Type 0) : Type 0 where
  ok : A → VecResult A
  fatal_exit out_of_bounds : VecResult A

infixl 5 ◌>>=◌
abbrev pub ◌>>=◌ : {A B : Type 0} → VecResult A → (A → VecResult B) → VecResult B
ok a >>= f = f a
fatal_exit >>= f = fatal_exit
out_of_bounds >>= f = out_of_bounds

-- Which requests the allocator serves: `malloc` and `calloc` of that many bytes.
abbrev pub Allocator : Type 0
Allocator = ℕ → Bool

unfoldable pub calloc : Allocator → ℕ → VecResult (List ℕ)
calloc serves size = if serves size then ok (replicate size 0) else fatal_exit

-- `strncpy(dst + at, src, n)` into an array of `length dst` bytes.
unfoldable pub strncpy_at : List ℕ → ℕ → List ℕ → ℕ → VecResult (List ℕ)
strncpy_at dst at src n =
    if leb (at + n) (length dst)
    then ok (take at dst ++ (str_pad n src ++ drop (at + n) dst))
    else out_of_bounds

abbrev pub grown_size : ℕ → ℕ
grown_size size = if ltb size ((2 ^ 64 - 1) / 2) then 2 * size else 2 ^ 64 - 1

unfoldable pub realocate_my_vec : Allocator → MyVec → VecResult MyVec
realocate_my_vec serves v = do
  fresh ← calloc serves (grown_size v.buff_size)
  copied ← strncpy_at fresh 0 v.buff v.occupied_size
  ok (record v { buff = copied; buff_size = grown_size v.buff_size })

abbrev pub store_str : MyVec → List ℕ → ℕ → VecResult MyVec
store_str v buff buff_size = do
  copied ← strncpy_at v.buff v.first_free_space_idx buff buff_size
  ok (record v {
    buff = copied;
    first_free_space_idx = u64 (v.first_free_space_idx + buff_size);
    occupied_size = u64 (v.occupied_size + buff_size);
  })

unfoldable pub push_back_str_to_vec : Allocator → MyVec → List ℕ → ℕ → VecResult MyVec
push_back_str_to_vec serves v buff buff_size = do
  v' ←
      if leb v.buff_size (u64 (v.occupied_size + buff_size))
      then realocate_my_vec serves v
      else ok v
  store_str v' buff buff_size

unfoldable pub my_vec_init : Allocator → VecResult MyVec
my_vec_init serves =
    if serves 32
    then (calloc serves init_vec_size >>= λ buff. ok (record {
      buff = buff;
      buff_size = init_vec_size;
      occupied_size = 0;
      first_free_space_idx = 0;
    }))
    else fatal_exit

abbrev pub store_char : MyVec → ℕ → VecResult MyVec
store_char v c =
    if ltb v.first_free_space_idx (length v.buff)
    then ok (record v {
      buff = take v.first_free_space_idx v.buff ++ c ∷ drop (v.first_free_space_idx + 1) v.buff;
      first_free_space_idx = u64 (v.first_free_space_idx + 1);
      occupied_size = u64 (v.occupied_size + 1);
    })
    else out_of_bounds

unfoldable pub my_vec_push_back : Allocator → MyVec → ℕ → VecResult MyVec
my_vec_push_back serves v c = do
  v' ← if leb v.buff_size v.first_free_space_idx then realocate_my_vec serves v else ok v
  store_char v' c

unfoldable pub my_vec_get : MyVec → ℕ → ℕ
my_vec_get v idx = if ltb idx v.first_free_space_idx then get_or v.buff idx 0 else 0

-- What `read` on standard input gives; a list of these ends at the end of the file.
pub data StdinRead : Type 0 where
  chunk : List ℕ → StdinRead
  read_failed : StdinRead

-- The bytes of a call of `read` with room for INPUT_BUFF_SIZE; the rest of the buffer is zero.
unfoldable pub my_vec_read_stdin : Allocator → List StdinRead → MyVec → VecResult MyVec
my_vec_read_stdin serves [] v = ok v
my_vec_read_stdin serves (read_failed ∷ later) v = fatal_exit
my_vec_read_stdin serves (chunk bytes ∷ later) v =
    let read_buff = take input_buff_size bytes in
    let next =
      (push_back_str_to_vec serves v read_buff (length read_buff) >>= λ v'.
      my_vec_read_stdin serves later v') in
    if length read_buff == 0 then ok v else next

-- ppcb_client.c: `read_stdin`.
unfoldable pub read_stdin : Allocator → List StdinRead → VecResult MyVec
read_stdin serves input = my_vec_init serves >>= my_vec_read_stdin serves input
