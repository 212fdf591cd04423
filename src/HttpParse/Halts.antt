-- ===== src/HttpParse/Halts.antt =====
-- The parsing methods of HttpParse.cpp that `Parse` calls, and the fuel of their loops.
use http_decoder.Base.{
  ℕ, suc, ◌+◌, ◌-◌, ◌%◌, ◌^◌, ◌≤◌, ◌<◌, ◌≡◌, ◌≢◌, refl, ap, Bool-cases, inl, inr, [], ◌∷◌, Option,
  none, some, arith, ltb, ◌==◌, Outcome, ok, fault, diverges, Bytes, drop, length, length-drop,
}
use http_decoder.HttpParse.Exchange.{long_enough, both_sides}
use http_decoder.HttpParse.Scan.{get_buf_by_tag, next_token}
use http_decoder.HttpParse.Sides.{
  request_headers, response_headers, parse_req_data, parse_rsp_data, parse_request, parse_response,
}
use http_decoder.HttpParse.Steps.{Answer, done, refused, crashed, M, ◌>>◌, lift, require, pass}
use http_decoder.HttpParse.Termination.{
  get-Ends, Within, bind-Within, next_token-Within, parse_header_ends,
}
use http_decoder.HttpParse.{
  LexicalCast, get_method, get_version, parse_method_and_uri, parse_rsp_state, parse_header,
}
use http_decoder.Public.Headers.{HeaderMap}
use http_decoder.Public.{CResult}
use http_decoder.HttpParse.Positions.{
  get_hit_pair, get_method-Ends, get_version-Ends, lift-Within, require-Within, pass-Within,
  Within-zero,
}

-- A call that has not run out of fuel.
abbrev pub Halts : {S A : Type 0} → Answer S A → Type 0
Halts (done a pos s) = Unit {0}
Halts (refused pos s) = Unit {0}
Halts (crashed e) = e ≢ diverges

module _ (boost : LexicalCast) (buf : Bytes) (len : ℕ) (small : length buf < 2 ^ 31) where
  token_pair-Within :
      {S : Type 0} (t u : ℕ) (out : Bytes) (pos : ℕ) (s : S)
      → pos ≤ length buf
      → Within 0 (length buf) (next_token buf len (t ∷ u ∷ []) out pos s)
  unfolding next_token
  token_pair-Within t u out pos s h =
      go (get_buf_by_tag (drop pos buf) ((len + 2 ^ 32 - pos) % 2 ^ 32) (t ∷ u ∷ []) out) refl
    where
      go :
          (x : Outcome (Option ℕ × Bytes))
          → get_buf_by_tag (drop pos buf) ((len + 2 ^ 32 - pos) % 2 ^ 32) (t ∷ u ∷ []) out ≡ x
          → Within 0 (length buf) (next_token buf len (t ∷ u ∷ []) out pos s)
      go (ok (none, text)) e = rw (next_token, e) tt
      go (ok (some j, text)) e =
          let hit = get_hit_pair (drop pos buf) ((len + 2 ^ 32 - pos) % 2 ^ 32) t u out j text e in
          rw (next_token, e) (omega (arith, hit, length-drop pos buf))
      go (fault f) e =
          rw (next_token, e)
            (rw e at (get-Ends (drop pos buf) ((len + 2 ^ 32 - pos) % 2 ^ 32) (t ∷ u ∷ []) out))

  token-Within :
      {S : Type 0} (t : ℕ) (out : Bytes) (pos : ℕ) (s : S)
      → pos ≤ length buf
      → Within 0 (length buf) (next_token buf len (t ∷ []) out pos s)
  token-Within t out pos s h =
      Within-zero (suc pos) (length buf) _ (next_token-Within buf len small t out pos s h)

  parse_method_and_uri-Within :
      (pos : ℕ) (r : CResult)
      → pos ≤ length buf
      → Within 0 (length buf) (parse_method_and_uri boost buf len pos r)
  unfolding parse_method_and_uri
  parse_method_and_uri-Within pos r h =
      bind-Within 0 (length buf) (next_token buf len (b' ' ∷ []) []) _ pos r
        (token-Within b' ' [] pos r h)
        λ method p s lo hi.
          bind-Within 0 (length buf) (lift (get_method method)) _ p s
            (lift-Within (length buf) (get_method method) p s (get_method-Ends method) hi)
            λ number p' s' lo' hi'.
              bind-Within 0 (length buf) (next_token buf len (b' ' ∷ []) s'.url) _ p'
                (record s' { method = number })
                (token-Within b' ' s'.url p' (record s' { method = number }) hi')
                λ url p'' s'' lo'' hi''.
                  bind-Within 0 (length buf) (next_token buf len (b'\n' ∷ []) []) _ p''
                    (record s'' { url = url })
                    (token-Within b'\n' [] p'' (record s'' { url = url }) hi'')
                    λ text q t lo3 hi3.
                      bind-Within 0 (length buf) (lift (get_version boost text)) _ q t
                        (lift-Within (length buf) (get_version boost text) q t
                          (get_version-Ends boost text) hi3)
                        λ version q' t' lo4 hi4.
                          bind-Within 0 (length buf) (require version) _ q' t'
                            (require-Within (length buf) version q' t' hi4)
                            λ v q'' t'' lo5 hi5. both q'' hi5
    where
      both : (p : ℕ) → p ≤ length buf → (0 ≤ p) × (p ≤ length buf)
      both p h = (omega arith, h)

  parse_rsp_state-Within :
      (pos : ℕ) (r : CResult)
      → pos ≤ length buf
      → Within 0 (length buf) (parse_rsp_state boost buf len pos r)
  unfolding parse_rsp_state
  parse_rsp_state-Within pos r h =
      bind-Within 0 (length buf) (next_token buf len (b' ' ∷ []) []) _ pos r
        (token-Within b' ' [] pos r h)
        λ text p s lo hi.
          bind-Within 0 (length buf) (lift (get_version boost text)) _ p s
            (lift-Within (length buf) (get_version boost text) p s (get_version-Ends boost text) hi)
            λ version p' s' lo' hi'.
              bind-Within 0 (length buf) (require version) _ p' s'
                (require-Within (length buf) version p' s' hi')
                λ ver q t lo2 hi2.
                  bind-Within 0 (length buf) (pass (ver == t.version)) _ q t
                    (pass-Within (length buf) (ver == t.version) q t hi2)
                    λ u q' t' lo3 hi3.
                      bind-Within 0 (length buf) (next_token buf len (b' ' ∷ []) []) _ q' t'
                        (token-Within b' ' [] q' t' hi3)
                        λ code p'' s'' lo4 hi4.
                          bind-Within 0 (length buf) (require (boost.to_uint32 code)) _ p'' s''
                            (require-Within (length buf) (boost.to_uint32 code) p'' s'' hi4)
                            λ number q'' t'' lo5 hi5.
                              bind-Within 0 (length buf)
                                (next_token buf len (b'\r' ∷ b'\n' ∷ []) t''.ret_note) _ q''
                                (record t'' { ret_code = number })
                                (token_pair-Within b'\r' b'\n' t''.ret_note q''
                                  (record t'' { ret_code = number }) hi5)
                                λ note p3 s3 lo6 hi6. both p3 hi6
    where
      both : (p : ℕ) → p ≤ length buf → (0 ≤ p) × (p ≤ length buf)
      both p h = (omega arith, h)

  after-Halts :
      {S : Type 0} (m : M S (Unit {0})) (k : M S (Unit {0})) (pos : ℕ) (s : S)
      → Within 0 (length buf) (m pos s)
      → ((p : ℕ) (t : S) → p ≤ length buf → Halts (k p t))
      → Halts ((m >> k) pos s)
  after-Halts {S} m k pos s w rest = go (m pos s) w
    where
      go :
          (x : Answer S (Unit {0}))
          → Within 0 (length buf) x
          → Halts
              (elim x [ done a p t ↦ k p t | refused p t ↦ refused p t | crashed e ↦ crashed e ])
      go (done a p t) w = rest p t w.1
      go (refused p t) w = tt
      go (crashed e) w = w

  request_headers-Halts :
      (pos : ℕ) (r : CResult)
      → pos ≤ length buf
      → Halts ((request_headers buf len >> parse_req_data buf len) pos r)
  unfolding request_headers parse_req_data
  request_headers-Halts pos r h =
      go (parse_header (suc (length buf)) buf len pos r.request_header)
        (parse_header_ends buf len small (suc (length buf)) pos r.request_header h (omega arith))
    where
      go :
          (x : Answer HeaderMap (Unit {0}))
          → x ≢ crashed diverges
          → Halts (
              ((λ p t. elim x [
                | done u pos' m ↦ done tt pos' (record r { request_header = m })
                | refused pos' m ↦ refused pos' (record r { request_header = m })
                | crashed e ↦ crashed e
              ])
                  >> parse_req_data buf len)
                pos r)
      go (done u p m) other = tt
      go (refused p m) other = tt
      go (crashed e) other = λ d. other (ap crashed d)

  response_headers-Halts :
      (pos : ℕ) (r : CResult)
      → pos ≤ length buf
      → Halts ((response_headers buf len >> parse_rsp_data buf len) pos r)
  unfolding response_headers parse_rsp_data
  response_headers-Halts pos r h =
      go (parse_header (suc (length buf)) buf len pos r.response_header)
        (parse_header_ends buf len small (suc (length buf)) pos r.response_header h (omega arith))
    where
      go :
          (x : Answer HeaderMap (Unit {0}))
          → x ≢ crashed diverges
          → Halts (
              ((λ p t. elim x [
                | done u pos' m ↦ done tt pos' (record r { response_header = m })
                | refused pos' m ↦ refused pos' (record r { response_header = m })
                | crashed e ↦ crashed e
              ])
                  >> parse_rsp_data buf len)
                pos r)
      go (done u p m) other = tt
      go (refused p m) other = tt
      go (crashed e) other = λ d. other (ap crashed d)

  request-Halts : (r : CResult) → Halts (long_enough boost (parse_request boost) buf len r)
  unfolding parse_request
  request-Halts r = elim (Bool-cases (ltb 10 len)) [
    | inl long ↦ rw long (
        after-Halts (parse_method_and_uri boost buf len)
          (request_headers buf len >> parse_req_data buf len) 0 r
          (parse_method_and_uri-Within 0 r (omega arith)) request_headers-Halts)
    | inr short ↦ rw short tt
  ]

  response-Halts : (r : CResult) → Halts (long_enough boost (parse_response boost) buf len r)
  unfolding parse_response
  response-Halts r = elim (Bool-cases (ltb 10 len)) [
    | inl long ↦ rw long (
        after-Halts (parse_rsp_state boost buf len)
          (response_headers buf len >> parse_rsp_data buf len) 0 r
          (parse_rsp_state-Within 0 r (omega arith)) response_headers-Halts)
    | inr short ↦ rw short tt
  ]

pub both_sides-Halts :
    (boost : LexicalCast) (req rsp : Bytes) (m n : ℕ) (r : CResult)
    → length req < 2 ^ 31
    → length rsp < 2 ^ 31
    → Halts (both_sides boost req m rsp n r)
unfolding both_sides
both_sides-Halts boost req rsp m n r h k =
    go (long_enough boost (parse_request boost) req m r) (request-Halts boost req m h r)
  where
    go :
        (x : Answer CResult (Unit {0}))
        → Halts x
        → Halts (elim x [
          | done u pos r' ↦ long_enough boost (parse_response boost) rsp n r'
          | refused pos r' ↦ refused pos r'
          | crashed e ↦ crashed e
        ])
    go (done u p r') w = response-Halts boost rsp n k r'
    go (refused p r') w = tt
    go (crashed e) w = w
