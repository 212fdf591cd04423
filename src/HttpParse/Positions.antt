-- ===== src/HttpParse/Positions.antt =====
-- The steps of the parsing methods of HttpParse.cpp, and where each leaves `pos`.
use http_decoder.Base.{
  ℕ, zero, suc, ◌+◌, ◌^◌, ◌≤◌, ◌≡◌, ◌≢◌, Bool, true, false, Bool-cases, inl, inr, [], ◌∷◌, Option,
  none, some, arith, ltb, ◌==◌, Outcome, ok, fault, bad_conversion, diverges, codes, Bytes, drop,
  take, length, if◌then◌else◌,
}
use http_decoder.HttpParse.Scan.{matches, scan, get_buf_by_tag}
use http_decoder.HttpParse.Steps.{Answer, done, refused, crashed, lift, require, pass}
use http_decoder.HttpParse.Termination.{Ends, Within}
use http_decoder.HttpParse.{LexicalCast, get_method, get_version, to_version, finds}

scan_hit_pair :
    (n i : ℕ) (p : Bytes) (t u : ℕ) (j : ℕ)
    → scan n i p (t ∷ u ∷ []) ≡ ok (some j)
    → (i ≤ j) × (suc (suc j) ≤ i + length p)
unfolding scan matches
scan_hit_pair zero i p t u j e = cc
scan_hit_pair (suc n) i [] t u j e = cc
scan_hit_pair (suc n) i (x ∷ []) t u j e = ground (arith, scan_hit_pair n (suc i) [] t u j)
scan_hit_pair (suc n) i (x ∷ y ∷ p) t u j e = ground (arith, scan_hit_pair n (suc i) (y ∷ p) t u j)

pub get_hit_pair :
    (p : Bytes) (n : ℕ) (t u : ℕ) (out : Bytes) (j : ℕ) (text : Bytes)
    → get_buf_by_tag p n (t ∷ u ∷ []) out ≡ ok (some j, text)
    → suc (suc j) ≤ length p
unfolding get_buf_by_tag
get_hit_pair p n t u out j text e =
    ground (arith, scan_hit_pair (if ltb n (2 ^ 31) then n else 0) 0 p t u j)

pub get_method-Ends : (method : Bytes) → Ends (get_method method)
unfolding get_method
get_method-Ends method = ground arith

bad_conversion-Ends : bad_conversion ≢ diverges
bad_conversion-Ends e = cc

to_version-Ends : (boost : LexicalCast) (o : Option boost.Float) → Ends (to_version boost o)
unfolding to_version
to_version-Ends boost none = tt
to_version-Ends boost (some i) = go (boost.tenfold i)
  where
    go : (x : Option ℕ) → Ends (elim x [ none ↦ fault bad_conversion | some v ↦ ok (some v) ])
    go none = bad_conversion-Ends
    go (some v) = tt

pub get_version-Ends : (boost : LexicalCast) (text : Bytes) → Ends (get_version boost text)
unfolding get_version
get_version-Ends boost text = elim (Bool-cases (length text == 8)) [
  | inl eight ↦ elim (Bool-cases (finds text (codes "HTTP/"))) [
    | inl named ↦ rw (eight, named) (to_version-Ends boost (boost.to_float (take 3 (drop 5 text))))
    | inr other ↦ rw (eight, other) tt
  ]
  | inr other ↦ rw other tt
]

pub lift-Within :
    {S A : Type 0} (hi : ℕ) (o : Outcome A) (pos : ℕ) (s : S)
    → Ends o
    → pos ≤ hi
    → Within 0 hi (lift o pos s)
lift-Within hi (ok a) pos s e h = (omega arith, h)
lift-Within hi (fault c) pos s e h = e

pub require-Within :
    {S A : Type 0} (hi : ℕ) (o : Option A) (pos : ℕ) (s : S)
    → pos ≤ hi
    → Within 0 hi (require o pos s)
require-Within hi (some a) pos s h = (omega arith, h)
require-Within hi none pos s h = tt

pub pass-Within :
    {S : Type 0} (hi : ℕ) (b : Bool) (pos : ℕ) (s : S) → pos ≤ hi → Within 0 hi (pass b pos s)
pass-Within hi true pos s h = (omega arith, h)
pass-Within hi false pos s h = tt

pub Within-zero : {S A : Type 0} (lo hi : ℕ) (x : Answer S A) → Within lo hi x → Within 0 hi x
Within-zero lo hi (done a pos s) w = (omega arith, w.1)
Within-zero lo hi (refused pos s) w = tt
Within-zero lo hi (crashed e) w = w
