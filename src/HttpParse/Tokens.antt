-- ===== src/HttpParse/Tokens.antt =====
-- `GetBufByTag` of HttpParse.h on a text that ends in a tag, or has none.
use http_decoder.Base.{
  ℕ, zero, suc, ◌+◌, ◌-◌, ◌%◌, ◌^◌, ◌≤◌, ◌<◌, ◌≡◌, ◌≢◌, refl, sym, ap, ◌∙◌, true, false, [], ◌∷◌,
  ◌++◌, none, some, arith, lt→ltb, ==_self, ok, Bytes, take, drop, length, length-drop, drop-drop,
  drop-append_self, take-append_self,
}
use http_decoder.HttpParse.Scan.{matches, scan, get_buf_by_tag, next_token}
use http_decoder.HttpParse.Steps.{done, refused}

-- The byte `t` is not in the text.
abbrev pub Lacks : ℕ → Bytes → Type 0
Lacks t [] = Unit {0}
Lacks t (x ∷ xs) = (x ≢ t) × Lacks t xs

matches_self : (tag rest : Bytes) → matches (tag ++ rest) tag ≡ ok true
unfolding matches
matches_self [] rest = refl
matches_self (t ∷ ts) rest = rw ==_self (matches_self ts rest)

matches_other : (x t : ℕ) (p ts : Bytes) → x ≢ t → matches (x ∷ p) (t ∷ ts) ≡ ok false
unfolding matches
matches_other x t p ts h = ground arith

-- Where no byte before the tag is the tag's first, the tag is found, first.
pub scan_found :
    (a : Bytes) (t : ℕ) (ts rest : Bytes) (n i j : ℕ)
    → Lacks t a
    → length a < n
    → i + length a ≡ j
    → scan n i (a ++ (t ∷ ts ++ rest)) (t ∷ ts) ≡ ok (some j)
unfolding scan
scan_found a t ts rest zero i j l h e = absurd (omega arith)
scan_found [] t ts rest (suc n) i j l h e =
    let e' : i ≡ j = omega arith in rw (matches_self (t ∷ ts) rest, e')
scan_found (x ∷ a) t ts rest (suc n) i j l h e =
    rw (matches_other x t (a ++ (t ∷ ts ++ rest)) ts l.0)
      (scan_found a t ts rest n (suc i) j l.1 (omega arith) (omega arith))

-- Where it is absent from the first `n` bytes, the search fails.
pub scan_missing :
    (t : ℕ) (ts p : Bytes) (n i : ℕ)
    → n ≤ length p
    → Lacks t (take n p)
    → scan n i p (t ∷ ts) ≡ ok none
unfolding scan
scan_missing t ts p zero i h l = refl
scan_missing t ts [] (suc n) i h l = absurd (omega arith)
scan_missing t ts (x ∷ p) (suc n) i h l =
    rw (matches_other x t p ts l.0) (scan_missing t ts p n (suc i) (omega arith) l.1)

-- Where a text stands, what follows it stands behind it.
pub drop_past :
    (buf a b : Bytes) (pos k : ℕ) → drop pos buf ≡ a ++ b → pos + length a ≡ k → drop k buf ≡ b
drop_past buf a b pos k h e =
    sym (drop-drop pos (length a) k buf e)
    ∙ ap (drop (length a)) h
    ∙ drop-append_self (length a) a b refl

module _ {S : Type 0} (buf : Bytes) (len : ℕ) (out : Bytes) (pos : ℕ) (s : S) where
  -- A token that ends inside the length given is appended to `out`, and `pos` goes past its tag.
  pub next_token_found :
      (a : Bytes) (t : ℕ) (ts rest : Bytes)
      → drop pos buf ≡ a ++ (t ∷ ts ++ rest)
      → Lacks t a
      → pos + length a + length (t ∷ ts) ≤ len
      → len < 2 ^ 31
      → next_token buf len (t ∷ ts) out pos s ≡ done (out ++ a) (pos + length a + length (t ∷ ts)) s
  unfolding next_token get_buf_by_tag
  next_token_found a t ts rest h l fits small =
      let left : (len + 2 ^ 32 - pos) % 2 ^ 32 ≡ len - pos = omega arith in
      let found = scan_found a t ts rest (len - pos) 0 (length a) l (omega arith) (omega arith) in
      let cut = take-append_self (length a) a (t ∷ ts ++ rest) refl in
      let last : ((pos + length a) % 2 ^ 32 + length (t ∷ ts)) % 2 ^ 32
          ≡ pos + length a + length (t ∷ ts) =
        omega arith in
      let got : get_buf_by_tag (drop pos buf) ((len + 2 ^ 32 - pos) % 2 ^ 32) (t ∷ ts) out
          ≡ ok (some (length a), out ++ a) =
        rw (left, h, get_buf_by_tag, lt→ltb (len - pos) (2 ^ 31) (omega arith), found, cut) in
      rw (next_token, got, last)

  -- With no tag in the rest of the buffer the method returns false.
  pub next_token_missing :
      (t : ℕ) (ts : Bytes)
      → len ≤ length buf
      → pos ≤ len
      → len < 2 ^ 31
      → Lacks t (take (len - pos) (drop pos buf))
      → next_token buf len (t ∷ ts) out pos s ≡ refused pos s
  unfolding next_token get_buf_by_tag
  next_token_missing t ts h g small l =
      let left : (len + 2 ^ 32 - pos) % 2 ^ 32 ≡ len - pos = omega arith in
      let missing =
        scan_missing t ts (drop pos buf) (len - pos) 0 (omega (arith, length-drop pos buf)) l in
      let got : get_buf_by_tag (drop pos buf) ((len + 2 ^ 32 - pos) % 2 ^ 32) (t ∷ ts) out
          ≡ ok (none, out) =
        rw (left, get_buf_by_tag, lt→ltb (len - pos) (2 ^ 31) (omega arith), missing) in
      rw (next_token, got)
