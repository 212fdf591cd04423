-- ===== src/HttpParse/Termination.antt =====
-- The loop of `ParseHeader` in HttpParse.cpp, and where each round leaves `pos`.
use http_decoder.Base.{
  ℕ, zero, suc, ◌+◌, ◌-◌, ◌%◌, ◌^◌, ◌≤◌, ◌<◌, ◌≡◌, ◌≢◌, refl, Bool, true, false, [], ◌∷◌, Option,
  none, some, arith, ltb, Outcome, ok, fault, out_of_bounds, diverges, codes, Bytes, drop, length,
  length-drop, if◌then◌else◌,
}
use http_decoder.HttpParse.Steps.{Answer, done, refused, crashed, M, ◌>>=◌}
use http_decoder.HttpParse.{read_field, header_round, parse_header}
use http_decoder.HttpParse.Scan.{matches, scan, get_buf_by_tag, next_token, at_tag}
use http_decoder.Public.Headers.{HeaderMap}

-- A hit lies inside the block.
scan_hit :
    (n i : ℕ) (p : Bytes) (t : ℕ) (ts : Bytes) (j : ℕ)
    → scan n i p (t ∷ ts) ≡ ok (some j)
    → (i ≤ j) × (suc j ≤ i + length p)
unfolding scan matches
scan_hit zero i p t ts j e = cc
scan_hit (suc n) i [] t ts j e = cc
scan_hit (suc n) i (x ∷ p) t ts j e = ground (arith, scan_hit n (suc i) p t ts j)

get_hit :
    (p : Bytes) (n : ℕ) (t : ℕ) (out : Bytes) (j : ℕ) (text : Bytes)
    → get_buf_by_tag p n (t ∷ []) out ≡ ok (some j, text)
    → suc j ≤ length p
unfolding get_buf_by_tag
get_hit p n t out j text e = ground (arith, scan_hit (if ltb n (2 ^ 31) then n else 0) 0 p t [] j)

-- No call that compares bytes runs out of fuel.
abbrev pub Ends : {A : Type 0} → Outcome A → Type 0
Ends (ok a) = Unit {0}
Ends (fault e) = e ≢ diverges

out_of_bounds-ne-diverges : out_of_bounds ≢ diverges
out_of_bounds-ne-diverges e = cc

matches-Ends : (p tag : Bytes) → Ends (matches p tag)
unfolding matches
matches-Ends p [] = tt
matches-Ends [] (t ∷ ts) = out_of_bounds-ne-diverges
matches-Ends (x ∷ p) (t ∷ ts) = ground (arith, matches-Ends p ts)

scan-Ends : (n i : ℕ) (p tag : Bytes) → Ends (scan n i p tag)
unfolding scan
scan-Ends zero i p tag = tt
scan-Ends (suc n) i p tag = ground (arith, matches-Ends p tag, scan-Ends n (suc i) (drop 1 p) tag)

pub get-Ends : (p : Bytes) (n : ℕ) (tag out : Bytes) → Ends (get_buf_by_tag p n tag out)
unfolding get_buf_by_tag
get-Ends p n tag out = ground (arith, scan-Ends (if ltb n (2 ^ 31) then n else 0) 0 p tag)

-- A method that returns true leaves `pos` between two bounds.
abbrev pub Within : {S A : Type 0} → ℕ → ℕ → Answer S A → Type 0
Within lo hi (done a pos s) = (lo ≤ pos) × (pos ≤ hi)
Within lo hi (refused pos s) = Unit {0}
Within lo hi (crashed e) = e ≢ diverges

Within-mono :
    {S A : Type 0} (lo mid hi : ℕ) (x : Answer S A) → lo ≤ mid → Within mid hi x → Within lo hi x
Within-mono lo mid hi (done a pos s) h w = (omega arith, w.1)
Within-mono lo mid hi (refused pos s) h w = tt
Within-mono lo mid hi (crashed e) h w = w

pub bind-Within :
    {S A B : Type 0} (lo hi : ℕ) (m : M S A) (f : A → M S B) (pos : ℕ) (s : S)
    → Within lo hi (m pos s)
    → ((a : A) (p : ℕ) (r : S) → lo ≤ p → p ≤ hi → Within lo hi (f a p r))
    → Within lo hi ((m >>= f) pos s)
bind-Within {S} {A} lo hi m f pos s first rest = go (m pos s) first
  where
    go :
        (x : Answer S A)
        → Within lo hi x
        → Within lo hi
            (elim x [ done a p r ↦ f a p r | refused p r ↦ refused p r | crashed e ↦ crashed e ])
    go (done a p r) w = rest a p r w.0 w.1
    go (refused p r) w = tt
    go (crashed e) w = w

module _ {S : Type 0} (buf : Bytes) (len : ℕ) (small : length buf < 2 ^ 31) where
  pub next_token-Within :
      (t : ℕ) (out : Bytes) (pos : ℕ) (s : S)
      → pos ≤ length buf
      → Within (suc pos) (length buf) (next_token buf len (t ∷ []) out pos s)
  unfolding next_token
  next_token-Within t out pos s h =
      go (get_buf_by_tag (drop pos buf) ((len + 2 ^ 32 - pos) % 2 ^ 32) (t ∷ []) out) refl
    where
      go :
          (x : Outcome (Option ℕ × Bytes))
          → get_buf_by_tag (drop pos buf) ((len + 2 ^ 32 - pos) % 2 ^ 32) (t ∷ []) out ≡ x
          → Within (suc pos) (length buf) (next_token buf len (t ∷ []) out pos s)
      go (ok (none, text)) e = rw (next_token, e) tt
      go (ok (some j, text)) e =
          let hit = get_hit (drop pos buf) ((len + 2 ^ 32 - pos) % 2 ^ 32) t out j text e in
          rw (next_token, e) (omega (arith, hit, length-drop pos buf))
      go (fault f) e =
          rw (next_token, e)
            (rw e at (get-Ends (drop pos buf) ((len + 2 ^ 32 - pos) % 2 ^ 32) (t ∷ []) out))

module _ (buf : Bytes) (len : ℕ) (small : length buf < 2 ^ 31) where
  read_field-Within :
      (pos : ℕ) (m : HeaderMap)
      → pos ≤ length buf
      → Within (suc pos) (length buf) (read_field buf len pos m)
  unfolding read_field
  read_field-Within pos m h =
      bind-Within (suc pos) (length buf) (next_token buf len (b':' ∷ []) []) _ pos m
        (next_token-Within buf len small b':' [] pos m h)
        λ key p r lo hi.
          bind-Within (suc pos) (length buf) (next_token buf len (b'\n' ∷ []) []) _ p r
            (Within-mono (suc pos) (suc p) (length buf) _ (omega arith)
              (next_token-Within buf len small b'\n' [] p r hi))
            λ value q t lo' hi'. (lo', hi')

  -- A round that goes on has moved.
  abbrev Continues : ℕ → Answer HeaderMap Bool → Type 0
  Continues pos (done true pos' m) = Unit {0}
  Continues pos (done false pos' m) = (suc pos ≤ pos') × (pos' ≤ length buf)
  Continues pos (refused pos' m) = Unit {0}
  Continues pos (crashed e) = e ≢ diverges

  header_round-Continues :
      (pos : ℕ) (m : HeaderMap) → pos ≤ length buf → Continues pos (header_round buf len pos m)
  unfolding header_round at_tag
  header_round-Continues pos m h = ground (
    arith,
    read_field-Within pos m h,
    matches-Ends (drop pos buf) (codes "\n"),
    matches-Ends (drop pos buf) (codes "\r\n"),
  )

  -- On a block shorter than 2 ^ 31, with more fuel than bytes from `pos` to the end of the block, the
  -- loop ends by one of its own tests or leaves the block: the fuel of the model never decides.
  pub parse_header_ends :
      (fuel pos : ℕ) (m : HeaderMap)
      → pos ≤ length buf
      → length buf < pos + fuel
      → parse_header fuel buf len pos m ≢ crashed diverges
  unfolding parse_header
  parse_header_ends zero pos m h f = absurd (omega arith)
  parse_header_ends (suc fuel) pos m h f =
      go (header_round buf len pos m) refl (parse_header_ends fuel)
    where
      go :
          (x : Answer HeaderMap Bool)
          → header_round buf len pos m ≡ x
          → ((p : ℕ) (r : HeaderMap)
              → p ≤ length buf
              → length buf < p + fuel
              → parse_header fuel buf len p r ≢ crashed diverges)
          → parse_header (suc fuel) buf len pos m ≢ crashed diverges
      go (done true p r) e ih = rw (parse_header, e) (λ x. cc)
      go (done false p r) e ih =
          let moved = rw e at (header_round-Continues pos m h) in
          rw (parse_header, e) (ih p r moved.1 (omega arith))
      go (refused p r) e ih = rw (parse_header, e) (λ x. cc)
      go (crashed c) e ih =
          let other = rw e at (header_round-Continues pos m h) in
          rw (parse_header, e) (λ x. other (cc))
