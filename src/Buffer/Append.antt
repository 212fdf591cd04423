-- ===== src/Buffer/Append.antt =====
-- `CBuffer::Append` of Buffer.cpp.
use http_decoder.Base.{
  ℕ, zero, suc, ◌+◌, ◌-◌, ◌%◌, ◌^◌, ◌≤◌, ◌<◌, ◌≡◌, ◌⊎◌, inl, inr, refl, sym, ap, ◌∙◌, Bool, true,
  false, ◌++◌, append-nil, none, some, arith, ltb, ◌==◌, Bool-cases, Option-cases, lt→ltb,
  le→ltb_false, ltb→lt, Outcome, ok, fault, out_of_bounds, Bytes, Heap, Sized, realloc, memcpy,
  store, length, take, set, length-set, take-set, drop, drop-set,
}
use http_decoder.Buffer.{CBuffer, append, contents, append_within, append_grown}
use http_decoder.Buffer.Blocks.{
  IsValid, IsEnded, splice, regrown, length-regrown, take-regrown, realloc-some, length-splice,
  take-splice, memcpy_fits,
}

-- What an append leaves: the buffer that results is valid, and stands for the bytes given.
abbrev pub Appends : CBuffer → Bytes → Outcome (CBuffer × Bool) → Type 0
Appends b new r =
    (c : CBuffer) × (n : Bytes) × (r ≡ ok (c, true))
    × IsValid c n
    × (contents c ≡ contents b ++ new)

-- The buffer that an append leaves with room for it, and the block that a grown buffer has.
abbrev pub within : CBuffer → Bytes → Bytes → ℕ → CBuffer
within b m p size = record {
  len = b.len + size;
  free = b.free - size;
  buf = some (splice m b.len p size);
}

abbrev pub grown_block : CBuffer → Bytes → Bytes → Bytes → ℕ → Bytes
grown_block b m fresh p size =
    set (splice (regrown (b.len + size + 1) m fresh) b.len p size) (b.len + size) 0

abbrev pub grown : CBuffer → Bytes → Bytes → Bytes → ℕ → CBuffer
grown b m fresh p size = record {
  len = b.len + size;
  free = 1;
  buf = some (grown_block b m fresh p size);
}

module _ {b : CBuffer} {m : Bytes} (v : IsValid b m) (p : Bytes) (size : ℕ) (h : size ≤ length p)
    (w : b.len + size + 1 < 2 ^ 32) where
  append_within_fits : size < b.free → append_within b p size ≡ ok (within b m p size, true)
  unfolding append_within
  append_within_fits small =
      let inside : b.len + size ≤ length m = omega (arith, v.fits) in
      let e : (b.len + size) % 2 ^ 32 ≡ b.len + size = omega arith in
      let f : (b.free + 2 ^ 32 - size) % 2 ^ 32 ≡ b.free - size = omega (arith, v.bounded) in
      rw (v.block, memcpy_fits m b.len p size inside h, e, f)

  pub within-IsValid :
      size < b.free
      → IsValid (within b m p size) (splice m b.len p size)
        × (length (splice m b.len p size) ≡ length m)
  within-IsValid small =
      let same = length-splice m b.len p size (omega (arith, v.fits)) h in
      (
        record {
          block = refl;
          fits = omega (arith, v.fits, same);
          spare = omega arith;
          roomy = omega (arith, v.roomy);
          bounded = omega (arith, v.bounded);
        },
        same,
      )

  module _ (heap : Heap) (fresh : Bytes) (sized : Sized heap)
      (given : heap (b.len + size + 1) ≡ some fresh) where
    grown-length :
        length (splice (regrown (b.len + size + 1) m fresh) b.len p size) ≡ b.len + size + 1
    grown-length =
        let total = b.len + size + 1 in
        let long = length-regrown total m fresh (sized total fresh given) in
        length-splice (regrown total m fresh) b.len p size (omega (arith, long)) h ∙ long

    append_grown_fits : append_grown heap b p size ≡ ok (grown b m fresh p size, true)
    unfolding append_grown store
    append_grown_fits =
        let total = b.len + size + 1 in
        let word : total % 2 ^ 64 ≡ total = omega arith in
        let e : (b.len + size) % 2 ^ 32 ≡ b.len + size = omega arith in
        let old = regrown total m fresh in
        let again : realloc heap b.buf (total % 2 ^ 64) ≡ some old =
          rw (word, v.block, realloc-some heap m total given) in
        let long : length old ≡ total = length-regrown total m fresh (sized total fresh given) in
        let n = splice old b.len p size in
        rw (
          append_grown,
          again,
          memcpy_fits old b.len p size (omega (arith, long)) h,
          e,
          lt→ltb (b.len + size) (length n) (omega (arith, grown-length)),
        )

    pub grown-IsValid :
        b.free ≤ size
        → IsValid (grown b m fresh p size) (grown_block b m fresh p size)
          × (length (grown_block b m fresh p size) ≡ b.len + size + 1)
          × IsEnded (grown_block b m fresh p size) (b.len + size)
    grown-IsValid g =
        let n = splice (regrown (b.len + size + 1) m fresh) b.len p size in
        let same = length-set n (b.len + size) 0 ∙ grown-length in
        (
          record {
            block = refl;
            fits = omega (arith, same);
            spare = omega arith;
            bounded = omega arith;
            roomy = omega (arith, v.roomy);
          },
          same,
          (drop (suc (b.len + size)) n, drop-set (b.len + size) n 0 (omega (arith, grown-length))),
        )

    grown-contents : contents (grown b m fresh p size) ≡ contents b ++ take size p
    grown-contents =
        let total = b.len + size + 1 in
        let old = regrown total m fresh in
        let long : length old ≡ total = length-regrown total m fresh (sized total fresh given) in
        take-set (b.len + size) (splice old b.len p size) 0
        ∙ take-splice old b.len p size (omega (arith, long)) h
        ∙ ap (λ x. x ++ take size p)
            (take-regrown b.len total m fresh (omega arith) (omega (arith, v.fits)) ∙ rw v.block)

suc-eq-zero : (k : ℕ) → (suc k == 0) ≡ false
suc-eq-zero k = ground arith

append_grown_overruns :
    (heap : Heap) (b : CBuffer) (p fresh : Bytes) (size : ℕ)
    → length p < size
    → heap ((b.len + size + 1) % 2 ^ 64) ≡ some fresh
    → append_grown heap b p size ≡ fault out_of_bounds
unfolding append_grown realloc memcpy
append_grown_overruns heap b p fresh size h given = ground (arith, given)

append_grown_refused :
    (heap : Heap) (b : CBuffer) (p : Bytes) (size : ℕ)
    → b.len + size + 1 < 2 ^ 32
    → heap (b.len + size + 1) ≡ none
    → append_grown heap b p size ≡ ok (b, false)
unfolding append_grown realloc
append_grown_refused heap b p size w refused =
    let word : (b.len + size + 1) % 2 ^ 64 ≡ b.len + size + 1 = omega arith in
    let again : realloc heap b.buf ((b.len + size + 1) % 2 ^ 64) ≡ none =
      rw (word, realloc, refused) in
    rw (append_grown, again)

-- The ways of an append of some bytes: refused, within the block, or to a block that has grown.
pub append_ways :
    (heap : Heap) {b : CBuffer} {m : Bytes} (p : Bytes) (k : ℕ)
    → Sized heap
    → IsValid b m
    → suc k ≤ length p
    → b.len + suc k + 1 < 2 ^ 32
    → ((heap (b.len + suc k + 1) ≡ none)
        × (b.free ≤ suc k)
        × (append heap b (some p) (suc k) ≡ ok (b, false)))
      ⊎ (((suc k < b.free) × (append heap b (some p) (suc k) ≡ ok (within b m p (suc k), true)))
          ⊎ ((fresh : Bytes) × (heap (b.len + suc k + 1) ≡ some fresh)
              × (b.free ≤ suc k)
              × (append heap b (some p) (suc k) ≡ ok (grown b m fresh p (suc k), true))))
unfolding append
append_ways heap {b} p k sized v h w = elim (Bool-cases (ltb (suc k) b.free)) [
  | inl small ↦
      let lt = ltb→lt _ _ small in
      inr (inl (lt, rw (suc-eq-zero k, small) (append_within_fits v p (suc k) h w lt)))
  | inr large ↦ elim (Option-cases (heap (b.len + suc k + 1))) [
    | inl refused ↦ inl (
      refused,
      ground (arith, large),
      rw (suc-eq-zero k, large) (append_grown_refused heap b p (suc k) w refused),
    )
    | inr (fresh, given) ↦ inr (
        inr (
          fresh,
          given,
          ground (arith, large),
          rw (suc-eq-zero k, large) (append_grown_fits v p (suc k) h w heap fresh sized given),
        ))
  ]
]

-- On a valid buffer, with an allocator that gives blocks of the size asked for, an append of `size`
-- bytes that the source has, with which the length stays below 2 ^ 32, never leaves its block. It is
-- refused, and changes nothing, only where the block has to grow and the allocator has no room.
-- Otherwise the buffer is valid again and holds its old contents with the first `size` bytes of the
-- source behind them.
pub append-Appends :
    (heap : Heap) {b : CBuffer} {m : Bytes} (p : Bytes) (size : ℕ)
    → Sized heap
    → IsValid b m
    → size ≤ length p
    → b.len + size + 1 < 2 ^ 32
    → ((heap (b.len + size + 1) ≡ none)
        × (b.free ≤ size)
        × (append heap b (some p) size ≡ ok (b, false)))
      ⊎ Appends b (take size p) (append heap b (some p) size)
unfolding append
append-Appends heap {b} {m} p zero sized v h w = inr (b, m, refl, v, sym (append-nil (contents b)))
append-Appends heap {b} {m} p (suc k) sized v h w = elim (append_ways heap p k sized v h w) [
  | inl refused ↦ inl refused
  | inr (inl (small, e)) ↦ inr (
    within b m p (suc k),
    splice m b.len p (suc k),
    e,
    (within-IsValid v p (suc k) h w small).0,
    rw v.block (take-splice m b.len p (suc k) (omega (arith, v.fits)) h),
  )
  | inr (inr (fresh, given, large, e)) ↦ inr (
    grown b m fresh p (suc k),
    grown_block b m fresh p (suc k),
    e,
    (grown-IsValid v p (suc k) h w heap fresh sized given large).0,
    grown-contents v p (suc k) h w heap fresh sized given,
  )
]

-- On a valid buffer, an append whose length was between -2 ^ 15 and -1 before the cast to size_t
-- leaves the block, where the allocator gives one for the size computed.
pub append_negative :
    (heap : Heap) {b : CBuffer} {m : Bytes} (p fresh : Bytes) (k : ℕ)
    → IsValid b m
    → 1 ≤ k
    → k ≤ 2 ^ 15
    → length p < 2 ^ 63
    → heap ((b.len + (2 ^ 64 - k) + 1) % 2 ^ 64) ≡ some fresh
    → append heap b (some p) (2 ^ 64 - k) ≡ fault out_of_bounds
unfolding append
append_negative heap {b} p fresh k v h g short given =
    let nonzero : (2 ^ 64 - k == 0) ≡ false = ground arith in
    let large : ltb (2 ^ 64 - k) b.free ≡ false = le→ltb_false _ _ (omega (arith, v.bounded)) in
    rw (nonzero, large) (append_grown_overruns heap b p fresh (2 ^ 64 - k) (omega arith) given)
