-- ===== src/HttpParse/Inside.antt =====
-- The parsing methods of HttpParse.cpp read nothing outside of their block.
use http_decoder.Base.{
  ℕ, suc, ◌+◌, ◌-◌, ◌^◌, ◌≤◌, ◌<◌, ◌≡◌, inl, inr, refl, arith, Bool, true, false, Bool-cases, [],
  ◌∷◌, Option, none, some, ◌==◌, Outcome, ok, fault, bad_conversion, Bytes, codes, take, drop,
  length,
}
use http_decoder.HttpParse.Bounds.{IsTame, Stays, next_token-Stays}
use http_decoder.HttpParse.Scan.{next_token}
use http_decoder.HttpParse.Steps.{Answer, done, refused, crashed, M, ◌>>=◌, lift, require, pass}
use http_decoder.HttpParse.{
  LexicalCast, get_method, get_version, to_version, finds, parse_method_and_uri, parse_rsp_state,
}
use http_decoder.Public.{CResult}

pub bind-Stays :
    {S A B : Type 0} (mid hi : ℕ) (m : M S A) (f : A → M S B) (pos : ℕ) (s : S)
    → Stays mid (m pos s)
    → ((a : A) (p : ℕ) (r : S) → p ≤ mid → Stays hi (f a p r))
    → Stays hi ((m >>= f) pos s)
bind-Stays {S} {A} mid hi m f pos s first rest = go (m pos s) first
  where
    go :
        (x : Answer S A)
        → Stays mid x
        → Stays hi
            (elim x [ done a p r ↦ f a p r | refused p r ↦ refused p r | crashed e ↦ crashed e ])
    go (done a p r) w = rest a p r w
    go (refused p r) w = tt
    go (crashed e) w = w

-- A conversion that fails, fails tamely.
abbrev pub Tame : {A : Type 0} → Outcome A → Type 0
Tame (ok a) = Unit {0}
Tame (fault e) = IsTame e

lift-Stays :
    {S A : Type 0} (hi : ℕ) (o : Outcome A) (pos : ℕ) (s : S)
    → Tame o
    → pos ≤ hi
    → Stays hi (lift o pos s)
lift-Stays hi (ok a) pos s e h = h
lift-Stays hi (fault c) pos s e h = e

require-Stays :
    {S A : Type 0} (hi : ℕ) (o : Option A) (pos : ℕ) (s : S) → pos ≤ hi → Stays hi (require o pos s)
require-Stays hi (some a) pos s h = h
require-Stays hi none pos s h = tt

pass-Stays : {S : Type 0} (hi : ℕ) (b : Bool) (pos : ℕ) (s : S) → pos ≤ hi → Stays hi (pass b pos s)
pass-Stays hi true pos s h = h
pass-Stays hi false pos s h = tt

get_method-Tame : (method : Bytes) → Tame (get_method method)
unfolding get_method
get_method-Tame method = ground arith

to_version-Tame : (boost : LexicalCast) (o : Option boost.Float) → Tame (to_version boost o)
unfolding to_version
to_version-Tame boost none = tt
to_version-Tame boost (some i) = go (boost.tenfold i)
  where
    go : (x : Option ℕ) → Tame (elim x [ none ↦ fault bad_conversion | some v ↦ ok (some v) ])
    go none = inr (inl refl)
    go (some v) = tt

get_version-Tame : (boost : LexicalCast) (text : Bytes) → Tame (get_version boost text)
unfolding get_version
get_version-Tame boost text = elim (Bool-cases (length text == 8)) [
  | inl eight ↦ elim (Bool-cases (finds text (codes "HTTP/"))) [
    | inl named ↦ rw (eight, named) (to_version-Tame boost (boost.to_float (take 3 (drop 5 text))))
    | inr other ↦ rw (eight, other) tt
  ]
  | inr other ↦ rw other tt
]

module _ (boost : LexicalCast) (buf : Bytes) (len : ℕ) (small : length buf < 2 ^ 31) where
  pub token-Stays :
      {S : Type 0} (t : ℕ) (out : Bytes) (pos : ℕ) (s : S)
      → len ≤ length buf
      → pos ≤ suc len
      → Stays len (next_token buf len (t ∷ []) out pos s)
  token-Stays t out pos s fits h =
      let same : len + 1 - 1 ≡ len = omega arith in
      rw same at (next_token-Stays buf len small (t ∷ []) out pos s (omega arith) (omega arith) h)

  pub parse_method_and_uri-Stays :
      (pos : ℕ) (r : CResult)
      → len ≤ length buf
      → pos ≤ len
      → Stays len (parse_method_and_uri boost buf len pos r)
  unfolding parse_method_and_uri
  parse_method_and_uri-Stays pos r fits h =
      bind-Stays len len (next_token buf len (b' ' ∷ []) []) _ pos r
        (token-Stays b' ' [] pos r fits (omega arith))
        λ method p s hi.
          bind-Stays len len (lift (get_method method)) _ p s
            (lift-Stays len (get_method method) p s (get_method-Tame method) hi)
            λ number p' s' hi'.
              bind-Stays len len (next_token buf len (b' ' ∷ []) s'.url) _ p'
                (record s' { method = number })
                (token-Stays b' ' s'.url p' (record s' { method = number }) fits (omega arith))
                λ url p2 s2 hi2.
                  bind-Stays len len (next_token buf len (b'\n' ∷ []) []) _ p2
                    (record s2 { url = url })
                    (token-Stays b'\n' [] p2 (record s2 { url = url }) fits (omega arith))
                    λ text q t hi3.
                      bind-Stays len len (lift (get_version boost text)) _ q t
                        (lift-Stays len (get_version boost text) q t (get_version-Tame boost text)
                          hi3)
                        λ version q' t' hi4.
                          bind-Stays len len (require version) _ q' t'
                            (require-Stays len version q' t' hi4) λ v q2 t2 hi5. hi5

  -- The tag of two bytes may take the byte behind the contents.
  pub crlf_behind-Stays :
      (out : Bytes) (p : ℕ) (s : CResult)
      → len < length buf
      → p ≤ len
      → Stays (suc len) (next_token buf len (b'\r' ∷ b'\n' ∷ []) out p s)
  crlf_behind-Stays out p s fits hi =
      let same : len + 2 - 1 ≡ suc len = omega arith in
      rw same at (
        next_token-Stays buf len small (b'\r' ∷ b'\n' ∷ []) out p s (omega arith) (omega arith)
          (omega arith))

  pub parse_rsp_state-Stays :
      (hi pos : ℕ) (r : CResult)
      → len < length buf
      → pos ≤ len
      → ((out : Bytes) (p : ℕ) (s : CResult)
          → p ≤ len
          → Stays hi (next_token buf len (b'\r' ∷ b'\n' ∷ []) out p s))
      → Stays hi (parse_rsp_state boost buf len pos r)
  unfolding parse_rsp_state
  parse_rsp_state-Stays hi pos r fits h note =
      bind-Stays len hi (next_token buf len (b' ' ∷ []) []) _ pos r
        (token-Stays b' ' [] pos r (omega arith) (omega arith))
        λ text p s hi1.
          bind-Stays len hi (lift (get_version boost text)) _ p s
            (lift-Stays len (get_version boost text) p s (get_version-Tame boost text) hi1)
            λ version p' s' hi'.
              bind-Stays len hi (require version) _ p' s' (require-Stays len version p' s' hi')
                λ ver q t hi2.
                  bind-Stays len hi (pass (ver == t.version)) _ q t
                    (pass-Stays len (ver == t.version) q t hi2)
                    λ u q' t' hi3.
                      bind-Stays len hi (next_token buf len (b' ' ∷ []) []) _ q' t'
                        (token-Stays b' ' [] q' t' (omega arith) (omega arith))
                        λ code p2 s2 hi4.
                          bind-Stays len hi (require (boost.to_uint32 code)) _ p2 s2
                            (require-Stays len (boost.to_uint32 code) p2 s2 hi4)
                            λ number q2 t2 hi5.
                              bind-Stays hi hi (next_token buf len (b'\r' ∷ b'\n' ∷ []) t2.ret_note)
                                _ q2 (record t2 { ret_code = number })
                                (note t2.ret_note q2 (record t2 { ret_code = number }) hi5)
                                λ text' p3 s3 hi6. hi6
