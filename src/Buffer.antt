-- ===== src/Buffer.antt =====
-- http_parser/httpfunction/src/Buffer.h and Buffer.cpp: the growing byte buffer of a session.
-- The block behind `buf` is the list of its bytes, `none` for NULL.
pub mod Blocks
pub mod Append
pub mod Reset
pub mod Growth
use http_decoder.Base.{
  ℕ, ◌+◌, ◌-◌, ◌*◌, ◌%◌, ◌^◌, Bool, true, false, ◌&&◌, Option, none, some, ltb, ◌==◌, if◌then◌else◌,
  is_some, Outcome, ok, ◌>>=◌, Bytes, Heap, bytes_of, realloc, memset_zero, memcpy, store, take,
}

abbrev pub buffer_size : ℕ
buffer_size = 2048

pub record CBuffer : Type 0 where
  pub len : ℕ
  pub free : ℕ
  pub buf : Option Bytes

allocate : Heap → CBuffer → Outcome CBuffer
allocate heap b = elim b.buf [
  | some m ↦ ok b
  | none ↦ do m ← memset_zero (heap buffer_size) b.free; ok (record b { buf = m })
]

shrink : Heap → CBuffer → CBuffer
shrink heap b =
    if ltb (buffer_size * 2) b.len && is_some b.buf
    then record b { buf = realloc heap b.buf buffer_size }
    else b

unfoldable pub reset : Heap → CBuffer → Outcome CBuffer
unfolding allocate shrink
reset heap b = do c ← allocate heap b; ok (record (shrink heap c) { len = 0; free = buffer_size })

-- the constructor
unfoldable pub construct : Heap → Outcome CBuffer
construct heap = reset heap (record { len = 0; free = 0; buf = none })

-- `size < _free`: the bytes fit behind those that are there.
append_within : CBuffer → Bytes → ℕ → Outcome (CBuffer × Bool)
append_within b p size = do
  m ← memcpy b.buf b.len p size
  ok (
    record {
      len = (b.len + size) % 2 ^ 32;
      free = (b.free + 2 ^ 32 - size) % 2 ^ 32;
      buf = some m;
    },
    true,
  )

-- otherwise the block grows to the exact size and one byte for the NUL
append_grown : Heap → CBuffer → Bytes → ℕ → Outcome (CBuffer × Bool)
append_grown heap b p size = elim (realloc heap b.buf ((b.len + size + 1) % 2 ^ 64)) [
  | none ↦ ok (b, false)
  | some m ↦ do
    n ← memcpy (some m) b.len p size
    let len = (b.len + size) % 2 ^ 32
    t ← store n len 0
    ok (record { len = len; free = 1; buf = some t }, true)
]

-- `p` holds the bytes from the pointer to the end of its block; `size` is a size_t.
unfoldable pub append : Heap → CBuffer → Option Bytes → ℕ → Outcome (CBuffer × Bool)
unfolding append_within append_grown
append heap b none size = ok (b, true)
append heap b (some p) size =
    if size == 0
    then ok (b, true)
    else if ltb size b.free
    then append_within b p size
    else append_grown heap b p size

-- the pointer, and the length that the caller's variable gets
unfoldable pub get_buf : CBuffer → Option Bytes × ℕ
get_buf b = (b.buf, b.len)

unfoldable pub get_buf_len : CBuffer → ℕ
get_buf_len b = b.len

-- the bytes that the buffer stands for
abbrev pub contents : CBuffer → Bytes
contents b = take b.len (bytes_of b.buf)
