-- ===== src/Buffer/Growth.antt =====
-- How far the block of a buffer of Buffer.cpp has grown, and what stands behind its contents.
use http_decoder.Base.{
  ℕ, zero, suc, ◌+◌, ◌^◌, ◌≤◌, ◌<◌, ◌≡◌, ◌⊎◌, inl, inr, refl, arith, Bool, Bool-cases, ltb, some,
  ok, Bytes, Heap, Sized, length,
}
use http_decoder.Buffer.Append.{
  append_ways, within, within-IsValid, grown, grown_block, grown-IsValid,
}
use http_decoder.Buffer.Blocks.{
  IsValid, IsEnded, HasRoom, splice, regrown, length-regrown, realloc-some,
}
use http_decoder.Buffer.Reset.{emptied, emptied-IsValid, construct-IsValid}
use http_decoder.Buffer.{CBuffer, buffer_size, append, reset, construct}

-- A valid buffer whose block is not longer than `limit`: it was never too small, or a NUL byte that
-- an append has written stands behind the contents.
pub record IsKept (limit : ℕ) (b : CBuffer) : Type 0 where
  pub block : Bytes
  pub valid : IsValid b block
  pub bounded : length block ≤ limit
  pub shape : (b.len + b.free ≡ buffer_size) ⊎ ((b.free ≡ 1) × IsEnded block b.len)

pub IsKept-le : {limit top : ℕ} {b : CBuffer} → limit ≤ top → IsKept limit b → IsKept top b
IsKept-le h k = record {
  block = k.block;
  valid = k.valid;
  bounded = omega (arith, k.bounded);
  shape = k.shape;
}

pub limit_room : {limit : ℕ} {b : CBuffer} → IsKept limit b → buffer_size ≤ limit
limit_room k = omega (arith, k.valid.roomy, k.valid.fits, k.bounded)

emptied-IsKept :
    (limit : ℕ) (m : Bytes) → buffer_size ≤ length m → length m ≤ limit → IsKept limit (emptied m)
emptied-IsKept limit m h g = record {
  block = m;
  valid = emptied-IsValid m h;
  bounded = g;
  shape = inl refl;
}

module _ (heap : Heap) (sized : Sized heap) {fresh : Bytes}
    (given : heap buffer_size ≡ some fresh) where
  -- A new buffer is kept, and a buffer is after a reset.
  pub construct-IsKept :
      (limit : ℕ)
      → buffer_size ≤ limit
      → (construct heap ≡ ok (emptied fresh)) × IsKept limit (emptied fresh)
  construct-IsKept limit h =
      let long = sized buffer_size fresh given in
      (
        (construct-IsValid heap sized given).0,
        emptied-IsKept limit fresh (omega (arith, long)) (omega (arith, long)),
      )

  pub reset-IsKept :
      {limit : ℕ} {b : CBuffer}
      → IsKept limit b
      → (c : CBuffer) × (reset heap b ≡ ok c) × IsKept limit c × (c.len ≡ 0)
  unfolding reset
  reset-IsKept {limit} {b} k = elim (Bool-cases (ltb 4096 b.len)) [
    | inl long ↦
        let n = regrown buffer_size k.block fresh in
        let same = length-regrown buffer_size k.block fresh (sized buffer_size fresh given) in
        (
          emptied n,
          rw (reset, k.valid.block, long, realloc-some heap k.block buffer_size given),
          emptied-IsKept limit n (omega (arith, same)) (omega (arith, same, limit_room k)),
          refl,
        )
    | inr short ↦ (
      emptied k.block,
      rw (k.valid.block, short),
      emptied-IsKept limit k.block (omega (arith, k.valid.fits, k.valid.roomy)) k.bounded,
      refl,
    )
  ]

-- An append of `size` bytes moves the bound up by as many.
pub append-IsKept :
    (heap : Heap) {limit : ℕ} {b : CBuffer} (p : Bytes) (size : ℕ)
    → Sized heap
    → IsKept limit b
    → size ≤ length p
    → limit + size < 2 ^ 32
    → (c : CBuffer) × (stored : Bool) × (append heap b (some p) size ≡ ok (c, stored))
      × IsKept (limit + size) c
unfolding append
append-IsKept heap {limit} {b} p zero sized k h w = (b, _, refl, IsKept-le (omega arith) k)
append-IsKept heap {limit} {b} p (suc n) sized k h w =
    let v = k.valid in
    let fits : b.len + suc n + 1 < 2 ^ 32 = omega (arith, v.fits, v.spare, k.bounded) in
    elim (append_ways heap p n sized v h fits) [
      | inl (_, _, e) ↦ (b, _, e, IsKept-le (omega arith) k)
      | inr (inl (small, e)) ↦
          let (valid, same) = within-IsValid v p (suc n) h fits small in
          (
            within b k.block p (suc n),
            _,
            e,
            record {
              block = splice k.block b.len p (suc n);
              valid = valid;
              bounded = omega (arith, same, k.bounded);
              shape = elim k.shape [
                | inl whole ↦ inl (omega (arith, whole))
                | inr (one, _) ↦ absurd (omega arith)
              ];
            },
          )
      | inr (inr (fresh, given, large, e)) ↦
          let (valid, same, ended) =
            grown-IsValid v p (suc n) h fits heap fresh sized given large in
          (
            grown b k.block fresh p (suc n),
            _,
            e,
            record {
              block = grown_block b k.block fresh p (suc n);
              valid = valid;
              bounded = omega (arith, same, v.fits, v.spare, k.bounded);
              shape = inr (refl, ended);
            },
          )
    ]

-- contents of another length than the two that leave one byte or two of the first block
abbrev pub IsCalm : CBuffer → Type 0
IsCalm b = (b.len < 2046) ⊎ (2047 < b.len)

pub IsCalm-HasRoom :
    {limit : ℕ} {b : CBuffer} (k : IsKept limit b) → IsCalm b → HasRoom k.block b.len
IsCalm-HasRoom k calm = elim k.shape [
  | inr (one, ended) ↦ inr (omega (arith, k.valid.fits, k.valid.spare), ended)
  | inl whole ↦ elim calm [
    | inl low ↦ inl (omega (arith, whole, k.valid.fits))
    | inr high ↦ absurd (omega (arith, whole, k.valid.spare))
  ]
]
