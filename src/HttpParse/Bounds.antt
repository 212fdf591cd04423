-- ===== src/HttpParse/Bounds.antt =====
-- The reads of `GetBufByTag` and `strncmp` in HttpParse.h and HttpParse.cpp stay in the block.
use http_decoder.Base.{
  ℕ, zero, suc, ◌+◌, ◌-◌, ◌%◌, ◌^◌, ◌≤◌, ◌<◌, ◌≡◌, ◌⊎◌, inl, inr, refl, arith, Bool, true, false,
  Bool-cases, [], ◌∷◌, Option, none, some, ap, ltb, leb, leb→le, ◌==◌, ok, Fault, no_return,
  bad_conversion, diverges, Bytes, drop, length, length-drop, le→ltb_false,
}
use http_decoder.HttpParse.Scan.{matches, scan, get_buf_by_tag, next_token, copied}
use http_decoder.HttpParse.Steps.{Answer, done, refused, crashed}

pub matches_inside : (p tag : Bytes) → length tag ≤ length p → (b : Bool) × (matches p tag ≡ ok b)
unfolding matches
matches_inside p [] h = (true, refl)
matches_inside [] (t ∷ ts) h = absurd (omega arith)
matches_inside (x ∷ p) (t ∷ ts) h =
    let (b, e) = matches_inside p ts (omega arith) in
    elim (Bool-cases (x == t)) [ inl same ↦ (b, rw same e) | inr other ↦ (false, rw other refl) ]

-- The walk looks at n places, and its last look ends in the text.
pub scan_inside :
    (n i : ℕ) (p : Bytes) (tag : Bytes)
    → n + length tag ≤ suc (length p)
    → (r : Option ℕ) × (scan n i p tag ≡ ok r) × ((j : ℕ) → r ≡ some j → j < i + n)
unfolding scan
scan_inside zero i p tag h = (none, refl, λ j e. cc)
scan_inside (suc n) i p tag h =
    let (b, e) = matches_inside p tag (omega arith) in
    elim (Bool-cases b) [
      | inl hit ↦ (some i, rw (e, hit) refl, λ j k. let same : i ≡ j = cc in omega arith)
      | inr miss ↦
          let (r, f, g) = scan_inside n (suc i) (drop 1 p) tag (omega (arith, length-drop 1 p)) in
          (r, rw (e, miss) f, λ j k. omega (arith, g j k))
    ]

-- Undefined behaviour that is not a read outside of a block: `GetMethod` without `return`, a
-- conversion out of range, or a model without fuel.
abbrev pub IsTame : Fault → Type 0
IsTame e = (e ≡ no_return) ⊎ (e ≡ bad_conversion) ⊎ (e ≡ diverges)

-- A method that returns true leaves `pos` at most at `hi`, and reads nothing outside of its block.
abbrev pub Stays : {S A : Type 0} → ℕ → Answer S A → Type 0
Stays hi (done a pos s) = pos ≤ hi
Stays hi (refused pos s) = Unit {0}
Stays hi (crashed e) = IsTame e

copied_pair : (r : Option ℕ) (p out : Bytes) → copied r p out ≡ (r, (copied r p out).1)
copied_pair none p out = refl
copied_pair (some i) p out = refl

pub get_inside :
    (p : Bytes) (n : ℕ) (tag out : Bytes)
    → n + length tag ≤ suc (length p)
    → (o : Option ℕ) × (text : Bytes) × (get_buf_by_tag p n tag out ≡ ok (o, text))
      × ((j : ℕ) → o ≡ some j → j < n)
unfolding get_buf_by_tag scan
get_inside p n tag out h = elim (Bool-cases (ltb n (2 ^ 31))) [
  | inl small ↦
      let (r, e, g) = scan_inside n 0 p tag h in
      (
        r,
        (copied r p out).1,
        rw (small, e) (ap ok (copied_pair r p out)),
        λ j k. omega (arith, g j k),
      )
  | inr big ↦ (none, out, rw big refl, λ j k. cc)
]

-- From 2 ^ 31 on the length is negative, and nothing is read.
pub get_negative :
    (p : Bytes) (n : ℕ) (tag out : Bytes) → 2 ^ 31 ≤ n → get_buf_by_tag p n tag out ≡ ok (none, out)
unfolding get_buf_by_tag scan
get_negative p n tag out h = rw (le→ltb_false n (2 ^ 31) h) refl

module _ {S : Type 0} (buf : Bytes) (len : ℕ) (small : length buf < 2 ^ 31) where
  -- One byte past `len` the rest counts as negative.
  next_token_past :
      (tag out : Bytes) (pos : ℕ) (s : S)
      → len < 2 ^ 31
      → pos ≡ suc len
      → next_token buf len tag out pos s ≡ refused pos s
  unfolding next_token
  next_token_past tag out pos s h e =
      rw
        (
          next_token,
          get_negative (drop pos buf) ((len + 2 ^ 32 - pos) % 2 ^ 32) tag out (omega arith),
        )
        refl

  -- The tag may reach behind `len`, if the block does.
  pub next_token-Stays :
      (tag out : Bytes) (pos : ℕ) (s : S)
      → len + length tag ≤ suc (length buf)
      → 1 ≤ length tag
      → pos ≤ suc len
      → Stays (len + length tag - 1) (next_token buf len tag out pos s)
  unfolding next_token
  next_token-Stays tag out pos s fits h at = elim (Bool-cases (leb pos len)) [
    | inl inside ↦
        let low : pos ≤ len = leb→le pos len inside in
        let n = (len + 2 ^ 32 - pos) % 2 ^ 32 in
        let left : n ≡ len - pos = omega arith in
        let (o, text, e, below) =
          get_inside (drop pos buf) n tag out (omega (arith, left, length-drop pos buf)) in
        go o text e (λ j k. omega (arith, below j k, left))
    | inr past ↦ rw (next_token_past tag out pos s (omega arith) (ground (arith, past))) tt
  ]
    where
      go :
          (o : Option ℕ) (text : Bytes)
          → get_buf_by_tag (drop pos buf) ((len + 2 ^ 32 - pos) % 2 ^ 32) tag out ≡ ok (o, text)
          → ((j : ℕ) → o ≡ some j → pos + j < len)
          → Stays (len + length tag - 1) (next_token buf len tag out pos s)
      go none text e below = rw (next_token, e) tt
      go (some j) text e below = let b = below j refl in rw (next_token, e) (omega (arith, b))
