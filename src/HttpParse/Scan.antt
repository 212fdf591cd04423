-- ===== src/HttpParse/Scan.antt =====
-- `GetBufByTag` of HttpParse.h and the way that its callers step over what it found.
use http_decoder.Base.{
  ℕ, zero, suc, ◌+◌, ◌-◌, ◌%◌, ◌^◌, Bool, true, false, [], ◌∷◌, ◌++◌, Option, none, some, ltb, ◌==◌,
  if◌then◌else◌, Outcome, ok, fault, out_of_bounds, ◌>>=◌, Bytes, take, drop, length,
}
use http_decoder.HttpParse.Steps.{done, refused, crashed, M}

-- `strncmp(p, tag, n) == 0` for a tag of n bytes, none of them NUL: it reads on while bytes agree.
unfoldable pub matches : Bytes → Bytes → Outcome Bool
matches p [] = ok true
matches [] (t ∷ ts) = fault out_of_bounds
matches (x ∷ p) (t ∷ ts) = let rest = matches p ts in if x == t then rest else ok false

-- the loop, with `len - i` rounds left
unfoldable pub scan : ℕ → ℕ → Bytes → Bytes → Outcome (Option ℕ)
scan zero i p tag = ok none
scan (suc n) i p tag =
    let rest = scan n (suc i) (drop 1 p) tag in
    do hit ← matches p tag; if hit then ok (some i) else rest

abbrev pub copied : Option ℕ → Bytes → Bytes → Option ℕ × Bytes
copied none p out = (none, out)
copied (some i) p out = (some i, out ++ take i p)

-- `none` is the result -1. The length is passed as an int: from 2 ^ 31 on it is negative.
unfoldable pub get_buf_by_tag : Bytes → ℕ → Bytes → Bytes → Outcome (Option ℕ × Bytes)
get_buf_by_tag p len tag out = do
  r ← scan (if ltb len (2 ^ 31) then len else 0) 0 p tag
  ok (copied r p out)

-- `ret = GetBufByTag(pBuf + pos, len - pos, tag, n, out); if(ret == -1) return false;
--  pos += ret; pos += n;`, the step that every parsing method is made of; its value is `out`
unfoldable pub next_token : {S : Type 0} → Bytes → ℕ → Bytes → Bytes → M S Bytes
next_token buf len tag out pos s =
    elim (get_buf_by_tag (drop pos buf) ((len + 2 ^ 32 - pos) % 2 ^ 32) tag out) [
      | ok (none, _) ↦ refused pos s
      | ok (some ret, text) ↦ done text (((pos + ret) % 2 ^ 32 + length tag) % 2 ^ 32) s
      | fault e ↦ crashed e
    ]

-- `if(strncmp(pBuf + pos, tag, n) == 0) pos += n`: whether it was there
unfoldable pub at_tag : {S : Type 0} → Bytes → Bytes → M S Bool
at_tag buf tag pos s = elim (matches (drop pos buf) tag) [
  | ok true ↦ done true ((pos + length tag) % 2 ^ 32) s
  | ok false ↦ done false pos s
  | fault e ↦ crashed e
]
