-- ===== src/Stream.antt =====
-- The connected stream socket as the TCP programs see it, and `readn` and `writen` of common.c,
-- `readn_error_handler` of helper_func.c. What the operating system answers is given: `reads`
-- holds the results of the calls of `read` to come, `writes` those of `write`. Once a list is used
-- up, a `read` waits until all that it is asked for is there, and a `write` takes all.
pub mod Exact
pub mod Rules
pub mod Writing
pub mod Delivering
use si_k_1projekt_tcp_udp.Common.{
  ℕ, ◌-◌, List, [], ◌∷◌, ◌++◌, Bool, true, ltb, ◌==◌, if◌then◌else◌, length, take, drop,
}
use si_k_1projekt_tcp_udp.Constants.{Status}

-- A call of `read`: it fails, it finds the end of the stream, or it gives bytes of `incoming`, as
-- many as its number says, if so many are there and are asked for.
pub data ReadResult : Type 0 where
  read_failed end_of_stream : ReadResult
  at_most : ℕ → ReadResult

-- A call of `write`: it fails, or takes at most so many bytes (none is a result of 0).
pub data WriteResult : Type 0 where
  write_failed : WriteResult
  takes : ℕ → WriteResult

-- One connection. `incoming`: the bytes that the peer sends, not read yet; `outgoing`: the bytes
-- written, in order; `closed`: `close` was called.
pub record Connection : Type 0 where
  pub incoming : List ℕ
  pub reads : List ReadResult
  pub writes : List WriteResult
  pub outgoing : List ℕ
  pub closed : Bool

-- `blocked`: the program waits in `read` and nothing more comes. `out_of_fuel` is no behaviour of
-- the program.
pub data Outcome (A : Type 0) : Type 0 where
  done : A → Connection → Outcome A
  blocked : Connection → Outcome A
  out_of_fuel : Outcome A

abbrev pub M : Type 0 → Type 0
M A = Connection → Outcome A

infixl 5 ◌>>=◌ ◌>>◌
abbrev pub ◌>>=◌ : {A B : Type 0} → M A → (A → M B) → M B
◌>>=◌ m f c = elim (m c) [
  | done a c' ↦ f a c'
  | blocked c' ↦ blocked c'
  | out_of_fuel ↦ out_of_fuel
]

abbrev pub ◌>>◌ : {A B : Type 0} → M A → M B → M B
m >> k = m >>= λ _. k

abbrev pub return : {A : Type 0} → A → M A
return a c = done a c

-- What `readn` returns: a negative number, or the bytes that it has put into the array.
pub data ReadnResult : Type 0 where
  negative : ReadnResult
  got : List ℕ → ReadnResult

abbrev pub min_of : ℕ → ℕ → ℕ
min_of a b = if ltb a b then a else b

-- The loop of `readn` over the results of `read` to come: `nleft` bytes are wanted, `soFar` are
-- read. Where no byte is there to give, `at_most` is a `read` that is not answered yet.
unfoldable pub readn_loop : List ReadResult → ℕ → List ℕ → M ReadnResult
readn_loop [] nleft so_far c =
    if ltb (length c.incoming) nleft
    then blocked (record c { reads = [] })
    else done (got (so_far ++ take nleft c.incoming))
        (record c { incoming = drop nleft c.incoming; reads = [] })
readn_loop (r ∷ later) nleft so_far c =
    let part = λ (k : ℕ).
      readn_loop later (nleft - length (take k c.incoming)) (so_far ++ take k c.incoming)
        (record c { incoming = drop k c.incoming; reads = later }) in
    if nleft == 0 then done (got so_far) (record c { reads = r ∷ later }) else elim r [
      | read_failed ↦ done negative (record c { reads = later })
      | end_of_stream ↦ done (got so_far) (record c { reads = later })
      | at_most k ↦ part (min_of k nleft)
    ]

unfoldable pub readn : ℕ → M ReadnResult
readn n c = readn_loop c.reads n [] c

-- What `writen` returns: a negative number, or a count.
pub data WritenResult : Type 0 where
  negative_count : WritenResult
  count : ℕ → WritenResult

-- The loop of `writen`; `n` is the whole length. With no result left, the rest is taken at once.
unfoldable pub writen_loop : List WriteResult → ℕ → List ℕ → M WritenResult
writen_loop [] n bytes c = done (count n) (record c { writes = []; outgoing = c.outgoing ++ bytes })
writen_loop (r ∷ later) n bytes c =
    let part = λ (k : ℕ).
      writen_loop later n (drop k bytes)
        (record c { writes = later; outgoing = c.outgoing ++ take k bytes }) in
    if length bytes == 0 then done (count n) (record c { writes = r ∷ later }) else elim r [
      | write_failed ↦ done negative_count (record c { writes = later })
      | takes k ↦ if k == 0 then done (count 0) (record c { writes = later }) else part k
    ]

-- The first `n` bytes at `bytes` are written.
unfoldable pub writen : List ℕ → ℕ → M WritenResult
writen bytes n c = writen_loop c.writes n (take n bytes) c

unfoldable pub readn_error_handler : ReadnResult → ℕ → Status
readn_error_handler negative data_size = Status.error
readn_error_handler (got bytes) data_size =
    if length bytes == 0
    then Status.error
    else if ltb (length bytes) data_size
    then Status.error
    else Status.success

unfoldable pub close : M (Unit {0})
close c = done tt (record c { closed = true })

-- What `readn` has put into the array.
abbrev pub bytes_of : ReadnResult → List ℕ
bytes_of negative = []
bytes_of (got bytes) = bytes

-- The tests that follow a `… != SUCCESS` with `return ERROR`.
abbrev pub on_success : Status → Status → Status
on_success Status.success next = next
on_success _ next = Status.error
