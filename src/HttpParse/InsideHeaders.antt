-- ===== src/HttpParse/InsideHeaders.antt =====
-- `ParseHeader` and `Parse` of HttpParse.cpp read nothing outside of their blocks.
use http_decoder.Base.{
  ℕ, zero, suc, ◌+◌, ◌-◌, ◌%◌, ◌^◌, ◌≤◌, ◌<◌, ◌≡◌, ◌≢◌, inl, inr, refl, arith, Bool, true, false,
  Bool-cases, [], ◌∷◌, ltb, ◌==◌, Bytes, codes, drop, length, length-drop,
}
use http_decoder.HttpParse.Bounds.{IsTame, Stays, matches_inside}
use http_decoder.Buffer.Blocks.{HasRoom}
use http_decoder.HttpParse.Ended.{crlf-Stays}
use http_decoder.HttpParse.Exchange.{long_enough}
use http_decoder.HttpParse.Inside.{
  bind-Stays, token-Stays, parse_method_and_uri-Stays, parse_rsp_state-Stays, crlf_behind-Stays,
}
use http_decoder.HttpParse.Scan.{next_token, at_tag}
use http_decoder.HttpParse.Sides.{
  request_headers, response_headers, parse_req_data, parse_rsp_data, parse_request, parse_response,
}
use http_decoder.HttpParse.Steps.{Answer, done, refused, crashed, M, ◌>>◌}
use http_decoder.HttpParse.{
  LexicalCast, parse_method_and_uri, parse_rsp_state, read_field, header_round, parse_header,
}
use http_decoder.Public.Headers.{HeaderMap}
use http_decoder.Public.{CResult}

-- a call that reads nothing outside of its block
abbrev pub Safe : {S A : Type 0} → Answer S A → Type 0
Safe (done a pos s) = Unit {0}
Safe (refused pos s) = Unit {0}
Safe (crashed e) = IsTame e

-- `pos` may be as far as `hi`, which is `len` or one more, and where it is not `len` two bytes can
-- be read.
module _ (boost : LexicalCast) (buf : Bytes) (len hi : ℕ) (small : length buf < 2 ^ 31)
    (fits : len ≤ length buf) (above : len ≤ hi) (near : hi ≤ suc len)
    (two : (pos : ℕ) → pos ≤ hi → pos ≢ len → pos + 2 ≤ length buf) where
  read_field-Stays : (pos : ℕ) (m : HeaderMap) → pos ≤ hi → Stays len (read_field buf len pos m)
  unfolding read_field
  read_field-Stays pos m h =
      bind-Stays len len (next_token buf len (b':' ∷ []) []) _ pos m
        (token-Stays boost buf len small b':' [] pos m fits (omega arith))
        λ key p r hi'.
          bind-Stays len len (next_token buf len (b'\n' ∷ []) []) _ p r
            (token-Stays boost buf len small b'\n' [] p r fits (omega arith)) λ value q t hi2. hi2

  -- A round that goes on is not past `len`.
  abbrev Continues : Answer HeaderMap Bool → Type 0
  Continues (done true pos m) = Unit {0}
  Continues (done false pos m) = pos ≤ hi
  Continues (refused pos m) = Unit {0}
  Continues (crashed e) = IsTame e

  reads_on : (x : Answer HeaderMap Bool) → Stays len x → Continues x
  reads_on (done true pos m) w = tt
  reads_on (done false pos m) w = omega arith
  reads_on (refused pos m) w = tt
  reads_on (crashed e) w = w

  header_round-Continues :
      (pos : ℕ) (m : HeaderMap) → pos ≤ hi → Continues (header_round buf len pos m)
  unfolding header_round at_tag
  header_round-Continues pos m h = elim (Bool-cases ((len + 2 ^ 32 - pos) % 2 ^ 32 == 0)) [
    | inl end ↦ rw end tt
    | inr more ↦
        let room = two pos h (λ (e : pos ≡ len). ground (arith, more)) in
        let (lf, e) =
          matches_inside (drop pos buf) (codes "\n") (omega (arith, room, length-drop pos buf)) in
        let (crlf, f) =
          matches_inside (drop pos buf) (codes "\r\n") (omega (arith, room, length-drop pos buf)) in
        let field = reads_on (read_field buf len pos m) (read_field-Stays pos m h) in
        ground (arith, more, e, f, field)
  ]

  parse_header-Safe :
      (fuel pos : ℕ) (m : HeaderMap) → pos ≤ hi → Safe (parse_header fuel buf len pos m)
  unfolding parse_header
  parse_header-Safe zero pos m h = inr (inr refl)
  parse_header-Safe (suc fuel) pos m h =
      go (header_round buf len pos m) refl (header_round-Continues pos m h) (parse_header-Safe fuel)
    where
      go :
          (x : Answer HeaderMap Bool)
          → header_round buf len pos m ≡ x
          → Continues x
          → ((p : ℕ) (r : HeaderMap) → p ≤ hi → Safe (parse_header fuel buf len p r))
          → Safe (parse_header (suc fuel) buf len pos m)
      go (done true p r) e w ih = rw (parse_header, e) tt
      go (done false p r) e w ih = rw (parse_header, e) (ih p r w)
      go (refused p r) e w ih = rw (parse_header, e) tt
      go (crashed c) e w ih = rw (parse_header, e) w

  headers-Safe :
      {A : Type 0} (f : HeaderMap → A) (fuel pos : ℕ) (m : HeaderMap)
      → pos ≤ hi
      → Safe (elim (parse_header fuel buf len pos m) as (λ x. Answer A (Unit {0})) [
        | done u pos' m' ↦ done tt pos' (f m')
        | refused pos' m' ↦ refused pos' (f m')
        | crashed e ↦ crashed e
      ])
  headers-Safe {A} f fuel pos m h =
      go (parse_header fuel buf len pos m) (parse_header-Safe fuel pos m h)
    where
      go :
          (x : Answer HeaderMap (Unit {0}))
          → Safe x
          → Safe (elim x as (λ x. Answer A (Unit {0})) [
            | done u pos' m' ↦ done tt pos' (f m')
            | refused pos' m' ↦ refused pos' (f m')
            | crashed e ↦ crashed e
          ])
      go (done u p r) w = tt
      go (refused p r) w = tt
      go (crashed c) w = w

bind-Safe :
    {S : Type 0} (mid : ℕ) (m k : M S (Unit {0})) (pos : ℕ) (s : S)
    → Stays mid (m pos s)
    → ((p : ℕ) (r : S) → p ≤ mid → Safe (k p r))
    → Safe ((m >> k) pos s)
bind-Safe {S} mid m k pos s first rest = go (m pos s) first
  where
    go :
        (x : Answer S (Unit {0}))
        → Stays mid x
        → Safe (elim x [ done a p r ↦ k p r | refused p r ↦ refused p r | crashed e ↦ crashed e ])
    go (done a p r) w = rest p r w
    go (refused p r) w = tt
    go (crashed e) w = w

end-Safe :
    {S : Type 0} (m : M S (Unit {0})) (pos : ℕ) (s : S)
    → Safe (m pos s)
    → Safe ((m >> λ p r. done tt p r) pos s)
end-Safe {S} m pos s w = go (m pos s) w
  where
    go :
        (x : Answer S (Unit {0}))
        → Safe x
        → Safe (elim x as (λ x. Answer S (Unit {0})) [
          | done a p r ↦ done tt p r
          | refused p r ↦ refused p r
          | crashed e ↦ crashed e
        ])
    go (done a p r) w = tt
    go (refused p r) w = tt
    go (crashed e) w = w

module _ (boost : LexicalCast) (buf : Bytes) (len : ℕ) (small : length buf < 2 ^ 31) where
  -- One byte behind the request is enough.
  pub request-Safe :
      (r : CResult) → len < length buf → Safe (long_enough boost (parse_request boost) buf len r)
  unfolding parse_request request_headers parse_req_data
  request-Safe r spare = elim (Bool-cases (ltb 10 len)) [
    | inr short ↦ rw short tt
    | inl long ↦ rw long (
        bind-Safe len (parse_method_and_uri boost buf len) _ 0 r
          (parse_method_and_uri-Stays boost buf len small 0 r (omega arith) (omega arith))
          λ p t h. end-Safe (request_headers buf len) p t (
            headers-Safe boost buf len len small (omega arith) (omega arith) (omega arith)
              (λ q h' ne. omega arith) (λ m. record t { request_header = m }) (suc (length buf)) p
              t.request_header h))
  ]

  -- Where the state line ends at `hi`, the headers are read up to there.
  response-at :
      (hi : ℕ) (r : CResult)
      → len < length buf
      → len ≤ hi
      → hi ≤ suc len
      → ((pos : ℕ) → pos ≤ hi → pos ≢ len → pos + 2 ≤ length buf)
      → ((out : Bytes) (p : ℕ) (s : CResult)
          → p ≤ len
          → Stays hi (next_token buf len (b'\r' ∷ b'\n' ∷ []) out p s))
      → Safe (long_enough boost (parse_response boost) buf len r)
  unfolding parse_response response_headers parse_rsp_data
  response-at hi r spare above near two note = elim (Bool-cases (ltb 10 len)) [
    | inr short ↦ rw short tt
    | inl long ↦ rw long (
        bind-Safe hi (parse_rsp_state boost buf len) _ 0 r
          (parse_rsp_state-Stays boost buf len small hi 0 r spare (omega arith) note)
          λ p t h. end-Safe (response_headers buf len) p t (
            headers-Safe boost buf len hi small (omega arith) above near two
              (λ m. record t { response_header = m }) (suc (length buf)) p t.response_header h))
  ]

  -- Behind the response three bytes are enough, and one that is NUL.
  pub response-Safe :
      (r : CResult) → HasRoom buf len → Safe (long_enough boost (parse_response boost) buf len r)
  response-Safe r (inl room) =
      response-at (suc len) r (omega arith) (omega arith) (omega arith) (λ q h ne. omega arith)
        (λ out p s h. crlf_behind-Stays boost buf len small out p s (omega arith) h)
  response-Safe r (inr (spare, ended)) =
      response-at len r spare (omega arith) (omega arith) (λ q h ne. omega arith)
        (λ out p s h. crlf-Stays buf len small ended out p s spare h)
