-- ===== src/Buffer/Blocks.antt =====
-- The block behind a buffer of Buffer.cpp, and what `memcpy` and `realloc` leave of it.
use http_decoder.Base.{
  ℕ, zero, suc, ◌+◌, ◌≤◌, ◌<◌, ◌⊎◌, ◌≡◌, sym, ap, ◌∙◌, [], ◌∷◌, ◌++◌, append_assoc, some, arith,
  le→leb, ok, Bytes, Heap, realloc, memcpy, length, take, drop, length-append, length-take,
  length-drop, take-append_self, take-append_le, take-take,
}
use http_decoder.Buffer.{CBuffer, buffer_size}

-- `m` is the block of `b`: the bytes in use and the free ones lie in it, and one is free.
pub record IsValid (b : CBuffer) (m : Bytes) : Type 0 where
  pub block : b.buf ≡ some m
  pub fits : b.len + b.free ≤ length m
  pub spare : 1 ≤ b.free
  pub bounded : b.free ≤ buffer_size
  pub roomy : buffer_size ≤ b.len + b.free

-- A NUL byte stands in the block at `len`.
abbrev pub IsEnded : Bytes → ℕ → Type 0
IsEnded m len = (rest : Bytes) × (drop len m ≡ 0 ∷ rest)

-- Three bytes behind the contents, or one that is NUL.
abbrev pub HasRoom : Bytes → ℕ → Type 0
HasRoom buf len = (len + 3 ≤ length buf) ⊎ ((len < length buf) × IsEnded buf len)

-- What `memcpy` leaves, and what `realloc` leaves.
abbrev pub splice : Bytes → ℕ → Bytes → ℕ → Bytes
splice m off p size = take off m ++ (take size p ++ drop (off + size) m)

abbrev pub regrown : ℕ → Bytes → Bytes → Bytes
regrown n old fresh = take n old ++ drop (length old) fresh

pub length-regrown :
    (n : ℕ) (old fresh : Bytes) → length fresh ≡ n → length (regrown n old fresh) ≡ n
length-regrown zero old fresh e = omega (arith, length-drop (length old) fresh)
length-regrown (suc n) [] fresh e = e
length-regrown (suc n) (x ∷ old) [] e = absurd (omega arith)
length-regrown (suc n) (x ∷ old) (y ∷ fresh) e = ap suc (length-regrown n old fresh (omega arith))

pub realloc-some :
    (heap : Heap) (m : Bytes) (n : ℕ) {fresh : Bytes}
    → heap n ≡ some fresh
    → realloc heap (some m) n ≡ some (regrown n m fresh)
unfolding realloc
realloc-some heap m n given = ground (arith, given)

pub le-length-take : (k n : ℕ) (xs : Bytes) → k ≤ n → k ≤ length xs → k ≤ length (take n xs)
le-length-take zero n xs h g = omega arith
le-length-take (suc k) zero xs h g = absurd (omega arith)
le-length-take (suc k) (suc n) [] h g = absurd (omega arith)
le-length-take (suc k) (suc n) (x ∷ xs) h g =
    omega (arith, le-length-take k n xs (omega arith) (omega arith))

pub take-regrown :
    (k n : ℕ) (old fresh : Bytes)
    → k ≤ n
    → k ≤ length old
    → take k (regrown n old fresh) ≡ take k old
take-regrown k n old fresh h g =
    take-append_le k (take n old) (drop (length old) fresh) (le-length-take k n old h g)
    ∙ take-take k n old h

pub length-splice :
    (m : Bytes) (off : ℕ) (p : Bytes) (size : ℕ)
    → off + size ≤ length m
    → size ≤ length p
    → length (splice m off p size) ≡ length m
length-splice m off p size h g = omega (
  arith,
  length-append (take off m) (take size p ++ drop (off + size) m),
  length-append (take size p) (drop (off + size) m),
  length-take off m (omega arith),
  length-take size p g,
  length-drop (off + size) m,
)

pub take-splice :
    (m : Bytes) (off : ℕ) (p : Bytes) (size : ℕ)
    → off + size ≤ length m
    → size ≤ length p
    → take (off + size) (splice m off p size) ≡ take off m ++ take size p
take-splice m off p size h g =
    ap (take (off + size)) (sym (append_assoc (take off m) (take size p) (drop (off + size) m)))
    ∙ take-append_self (off + size) (take off m ++ take size p) (drop (off + size) m) (
        omega (
          arith,
          length-append (take off m) (take size p),
          length-take off m (omega arith),
          length-take size p g,
        ))

pub memcpy_fits :
    (m : Bytes) (off : ℕ) (p : Bytes) (size : ℕ)
    → off + size ≤ length m
    → size ≤ length p
    → memcpy (some m) off p size ≡ ok (splice m off p size)
unfolding memcpy
memcpy_fits m off p size h g = rw (le→leb _ _ h, le→leb _ _ g)
