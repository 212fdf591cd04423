-- ===== src/HttpParse/Ended.antt =====
-- What the search of HttpParse.cpp for the end of the state line finds in contents with a NUL byte behind them.
use http_decoder.Base.{
  ℕ, zero, suc, ◌+◌, ◌-◌, ◌%◌, ◌^◌, ◌≤◌, ◌<◌, ◌≡◌, inl, inr, refl, arith, false, Bool-cases, [],
  ◌∷◌, Option, none, some, ◌∙◌, ◌==◌, drop-drop, ok, Bytes, drop, length, lt→ltb,
}
use http_decoder.Buffer.Blocks.{IsEnded}
use http_decoder.HttpParse.Bounds.{Stays, matches_inside}
use http_decoder.HttpParse.Scan.{matches, scan, get_buf_by_tag, next_token, copied}

abbrev crlf : Bytes
crlf = b'\r' ∷ b'\n' ∷ []

matches-ended : (x : ℕ) (rest : Bytes) → matches (x ∷ 0 ∷ rest) crlf ≡ ok false
unfolding matches
matches-ended x rest = elim (Bool-cases (x == b'\r')) [
  | inl same ↦ rw same refl
  | inr other ↦ rw other refl
]

-- A hit ends in front of the NUL byte.
scan-ended :
    (n i : ℕ) (p rest : Bytes)
    → drop n p ≡ 0 ∷ rest
    → (r : Option ℕ) × (scan n i p crlf ≡ ok r) × ((j : ℕ) → r ≡ some j → suc j < i + n)
unfolding scan
scan-ended zero i p rest e = (none, refl, λ j k. cc)
scan-ended (suc n) i [] rest e = cc
scan-ended (suc zero) i (x ∷ p) rest e =
    let here : matches (x ∷ p) crlf ≡ ok false = rw e (matches-ended x rest) in
    (none, rw here refl, λ j k. cc)
scan-ended (suc (suc n)) i (x ∷ []) rest e = cc
scan-ended (suc (suc n)) i (x ∷ y ∷ p) rest e =
    let (b, hit) = matches_inside (x ∷ y ∷ p) crlf (omega arith) in
    let (r, f, g) = scan-ended (suc n) (suc i) (y ∷ p) rest e in
    elim (Bool-cases b) [
      | inl found ↦ (some i, rw (hit, found) refl, λ j k. let same : i ≡ j = cc in omega arith)
      | inr missed ↦ (r, rw (hit, missed) f, λ j k. omega (arith, g j k))
    ]

module _ {S : Type 0} (buf : Bytes) (len : ℕ) (small : length buf < 2 ^ 31)
    (ended : IsEnded buf len) where
  -- `pos` does not pass `len`.
  pub crlf-Stays :
      (out : Bytes) (pos : ℕ) (s : S)
      → len < length buf
      → pos ≤ len
      → Stays len (next_token buf len crlf out pos s)
  unfolding next_token get_buf_by_tag
  crlf-Stays out pos s fits at =
      let n = (len + 2 ^ 32 - pos) % 2 ^ 32 in
      let left : n ≡ len - pos = omega arith in
      let back : pos + n ≡ len = omega arith in
      let (r, e, below) =
        scan-ended n 0 (drop pos buf) ended.0 (drop-drop pos n len buf back ∙ ended.1) in
      go r (rw (lt→ltb n (2 ^ 31) (omega arith), e) refl) λ j k. omega (arith, below j k)
    where
      go :
          (r : Option ℕ)
          → get_buf_by_tag (drop pos buf) ((len + 2 ^ 32 - pos) % 2 ^ 32) crlf out
            ≡ ok (copied r (drop pos buf) out)
          → ((j : ℕ) → r ≡ some j → pos + suc j < len)
          → Stays len (next_token buf len crlf out pos s)
      go none e below = rw (next_token, e) tt
      go (some j) e below = let b = below j refl in rw (next_token, e) (omega (arith, b))
