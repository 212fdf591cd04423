-- ===== src/Handle/Good.antt =====
-- Sessions whose buffers `Parse` can read, and what a call of it from Handle.cpp leaves of them.
use http_decoder.Base.{
  ℕ, ◌^◌, ◌<◌, ◌≡◌, ◌⊎◌, inl, inr, refl, ap, subst, ◌∙◌, not, ◌||◌, arith, Bool-cases, List, ◌==◌,
  some, is_some, Outcome, ok, fault, Fault, no_return, bad_conversion, ◌>>=◌, >>=-eq-ok, Bytes,
  Heap, Sized, unterminated,
}
use http_decoder.Buffer.Growth.{IsKept, IsCalm, IsCalm-HasRoom, reset-IsKept}
use http_decoder.Buffer.{buffer_size}
use http_decoder.Handle.Aging.{parse_in}
use http_decoder.HttpParse.Exchange.{parse, after_parse}
use http_decoder.HttpParse.Faults.{parse_faults}
use http_decoder.HttpParse.Send.{Output}
use http_decoder.HttpParse.Steps.{Answer, done, refused, crashed}
use http_decoder.HttpParse.{LexicalCast}
use http_decoder.Public.{CResult, reset_result}
use http_decoder.Session.Reset.{HasBuffers}
use http_decoder.Session.{CSession, reset_session}
use http_decoder.SessionHash.{update}

-- the undefined behaviour that a well-formed table leaves
abbrev pub IsKnown : Fault → Type 0
IsKnown e = (e ≡ no_return) ⊎ ((e ≡ bad_conversion) ⊎ (e ≡ unterminated))

-- the call met it
abbrev pub Meets {ℓ} : {A : Type ℓ} → Outcome A → Type ℓ
Meets r = (r ≡ fault no_return) ⊎ ((r ≡ fault bad_conversion) ⊎ (r ≡ fault unterminated))

pub fault-Meets {ℓ} : {A : Type ℓ} (e : Fault) → IsKnown e → Meets {A = A} (fault e)
fault-Meets e (inl missing) = inl (ap fault missing)
fault-Meets e (inr (inl outside)) = inr (inl (ap fault outside))
fault-Meets e (inr (inr runs_on)) = inr (inr (ap fault runs_on))

-- A call that returns what `P` says, or meets one of these.
abbrev pub Guards {ℓ} : {A : Type ℓ} → Outcome A → (A → Type 0) → Type 0
Guards (ok a) P = P a
Guards (fault e) P = IsKnown e

pub Guards-ends :
    {A : Type 0} (r : Outcome A) (P : A → Type 0)
    → Guards r P
    → ((a : A) × (r ≡ ok a) × P a) ⊎ Meets r
Guards-ends (ok a) P h = inl (a, refl, h)
Guards-ends (fault e) P known = inr (fault-Meets e known)

pub bind-Guards :
    {A B : Type 0} (first : Outcome A) (next : A → Outcome B) (P : A → Type 0) (Q : B → Type 0)
    → Guards first P
    → ((a : A) → P a → Guards (next a) Q)
    → Guards (first >>= next) Q
bind-Guards (ok a) next P Q g h = h a g
bind-Guards (fault e) next P Q g h = g

-- Both buffers are kept in blocks of at most `limit` bytes.
pub record IsSound (limit : ℕ) (s : CSession) : Type 0 where
  pub request : IsKept limit s.req_buf
  pub response : IsKept limit s.rsp_buf

-- and the response can be parsed
pub record IsGood (limit : ℕ) (s : CSession) : Type 0 where
  pub sound : IsSound limit s
  pub calm : IsCalm s.rsp_buf

abbrev pub AllSound : ℕ → (ℕ → CSession) → Type 0
AllSound limit f = (id : ℕ) → IsSound limit (f id)

abbrev pub AllGood : ℕ → (ℕ → CSession) → Type 0
AllGood limit f = (id : ℕ) → IsGood limit (f id)

-- Only the buffers matter.
pub IsSound-cong :
    {limit : ℕ} (s u : CSession)
    → s.req_buf ≡ u.req_buf
    → s.rsp_buf ≡ u.rsp_buf
    → IsSound limit s
    → IsSound limit u
IsSound-cong {limit} s u p q g = record {
  request = subst (IsKept limit) p g.request;
  response = subst (IsKept limit) q g.response;
}

pub IsGood-cong :
    {limit : ℕ} (s u : CSession)
    → s.req_buf ≡ u.req_buf
    → s.rsp_buf ≡ u.rsp_buf
    → IsGood limit s
    → IsGood limit u
IsGood-cong s u p q g = record {
  sound = IsSound-cong s u p q g.sound;
  calm = subst IsCalm q g.calm;
}

pub update-All :
    (P : CSession → Type 0) (f : ℕ → CSession) (id : ℕ) (s : CSession)
    → ((j : ℕ) → P (f j))
    → P s
    → (j : ℕ) → P (update f id s j)
update-All P f id s a g j = elim (Bool-cases (id == j)) [
  | inl here ↦ rw here g
  | inr there ↦ rw there (a j)
]

abbrev pub IsSound-HasBuffers : {limit : ℕ} (s : CSession) → IsSound limit s → HasBuffers s
IsSound-HasBuffers s g = record {
  req_block = g.request.block;
  rsp_block = g.response.block;
  req_valid = g.request.valid;
  rsp_valid = g.response.valid;
}

module _ (heap : Heap) {fresh : Bytes} (sized : Sized heap) (given : heap buffer_size ≡ some fresh)
    {limit : ℕ} where
  -- a reset session is good again
  pub reset-IsGood :
      (s : CSession)
      → IsSound limit s
      → (t : CSession) × (reset_session heap s ≡ ok t) × IsGood limit t
  unfolding reset_session
  reset-IsGood s g =
      let (q, e, kept, _) = reset-IsKept heap sized given g.request in
      let (p, e', kept', none_left) = reset-IsKept heap sized given g.response in
      (
        record s { req_buf = q; rsp_buf = p; result = reset_result s.result },
        rw (e, e') refl,
        record {
          sound = record { request = kept; response = kept' };
          calm = inl (omega (arith, none_left));
        },
      )

module _ (boost : LexicalCast) (heap : Heap) {fresh : Bytes} (sized : Sized heap)
    (given : heap buffer_size ≡ some fresh) {limit : ℕ} (low : limit < 2 ^ 31) where
  after_parse_resets :
      (s t : CSession) (a : Answer CResult (Unit {0})) (out : List Output)
      → after_parse boost heap s a ≡ ok (t, out)
      → (r : CResult) × (reset_session heap (record s { result = r }) ≡ ok t)
  unfolding after_parse
  after_parse_resets s t (done u pos r) out e =
      let (t', made, last) = >>=-eq-ok (reset_session heap (record s { result = r })) _ e in
      let same : t' ≡ t = cc in (r, made ∙ ap ok same)
  after_parse_resets s t (refused pos r) out e =
      let (t', made, last) = >>=-eq-ok (reset_session heap (record s { result = r })) _ e in
      let same : t' ≡ t = cc in (r, made ∙ ap ok same)
  after_parse_resets s t (crashed c) out e = cc

  -- `Parse` ends with a reset, on each way out.
  parse_resets :
      (s t : CSession) (out : List Output)
      → parse boost heap s ≡ ok (t, out)
      → (r : CResult) × (reset_session heap (record s { result = r }) ≡ ok t)
  unfolding parse
  parse_resets s t out e =
      elim (Bool-cases (
        not (is_some s.req_buf.buf)
        || not (is_some s.rsp_buf.buf)
        || s.req_buf.len == 0
        || s.rsp_buf.len == 0)) [
          | inl early ↦
              let (t', made, last) = >>=-eq-ok (reset_session heap s) _ (rw early at e) in
              let same : t' ≡ t = cc in (s.result, made ∙ ap ok same)
          | inr full ↦ after_parse_resets s t _ out (rw full at e)
        ]

  parse-Guards :
      (s : CSession) → IsGood limit s → Guards (parse boost heap s) (λ r. IsGood limit r.0)
  parse-Guards s g = go (parse boost heap s) refl
    where
      go :
          (x : Outcome (CSession × List Output))
          → parse boost heap s ≡ x
          → Guards x (λ r. IsGood limit r.0)
      go (ok (t, out)) e =
          let (r, made) = parse_resets s t out e in
          let (u, made', good) =
            reset-IsGood heap sized given (record s { result = r })
              (IsSound-cong s (record s { result = r }) refl refl g.sound) in
          let same : u ≡ t = cc in subst (IsGood limit) same good
      go (fault c) e =
          let k = g.sound in
          elim (parse_faults boost heap sized given s (IsSound-HasBuffers s k) c
            (omega (arith, k.request.bounded)) (omega (arith, k.response.bounded))
            (IsCalm-HasRoom k.response g.calm) e) [
              | inl missing ↦ inl missing
              | inr outside ↦ inr (inl outside)
            ]

  pub parse_in-Guards :
      (id : ℕ) (f : ℕ → CSession)
      → AllGood limit f
      → Guards (parse_in boost heap id f) (λ r. AllGood limit r.0)
  unfolding parse_in
  parse_in-Guards id f a =
      bind-Guards (parse boost heap (f id)) _ _ _ (parse-Guards (f id) (a id))
        λ r g. update-All (IsGood limit) f id r.0 a g
