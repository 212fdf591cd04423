-- ===== src/Buffer/Reset.antt =====
-- `CBuffer::Reset` and the constructor of Buffer.cpp.
use http_decoder.Base.{
  ◌≤◌, ◌<◌, ◌≡◌, ◌⊎◌, inl, inr, refl, none, some, arith, ltb, Bool-cases, Option-cases, le→leb,
  ltb→lt, ok, Bytes, Heap, Sized, memset_zero, length,
}
use http_decoder.Buffer.{CBuffer, buffer_size, reset, construct}
use http_decoder.Buffer.Blocks.{IsValid, regrown, length-regrown, realloc-some}

abbrev pub emptied : Bytes → CBuffer
emptied m = record { len = 0; free = buffer_size; buf = some m }

pub emptied-IsValid : (m : Bytes) → buffer_size ≤ length m → IsValid (emptied m) m
emptied-IsValid m h = record {
  block = refl;
  fits = h;
  spare = omega arith;
  bounded = omega arith;
  roomy = omega arith;
}

-- A reset of a valid buffer leaves it empty and valid, unless it held more than 4096 bytes and the
-- allocator refuses the smaller block.
pub reset-IsValid :
    (heap : Heap) {b : CBuffer} {m : Bytes}
    → Sized heap
    → IsValid b m
    → ((4096 < b.len) × (heap buffer_size ≡ none))
      ⊎ ((c : CBuffer) × (n : Bytes) × (reset heap b ≡ ok c)
          × IsValid c n
          × (c.len ≡ 0)
          × (c.free ≡ buffer_size))
unfolding reset
reset-IsValid heap {b} {m} sized v = elim (Bool-cases (ltb 4096 b.len)) [
  | inl long ↦ elim (Option-cases (heap buffer_size)) [
    | inl refused ↦ inl (ltb→lt _ _ long, refused)
    | inr (fresh, given) ↦
        let n = regrown buffer_size m fresh in
        let size : length n ≡ buffer_size =
          length-regrown buffer_size m fresh (sized buffer_size fresh given) in
        inr (
          emptied n,
          n,
          rw (reset, v.block, long, realloc-some heap m buffer_size given),
          emptied-IsValid n (omega arith),
          refl,
          refl,
        )
  ]
  | inr short ↦ inr (
    emptied m,
    m,
    rw (v.block, short),
    emptied-IsValid m (omega (arith, v.fits, v.roomy)),
    refl,
    refl,
  )
]

-- A new buffer is empty and valid, where the allocator gives its block.
pub construct-IsValid :
    (heap : Heap) {m : Bytes}
    → Sized heap
    → heap buffer_size ≡ some m
    → (construct heap ≡ ok (emptied m)) × IsValid (emptied m) m
unfolding construct reset memset_zero
construct-IsValid heap {m} sized given = (
  rw (reset, given, memset_zero, le→leb 0 (length m) (omega arith)),
  emptied-IsValid m (omega (arith, sized buffer_size m given)),
)
