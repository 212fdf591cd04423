-- ===== src/Handle/Stored.antt =====
-- What storing the data of a packet can run into, in `CHandle::Process` of Handle.cpp.
use http_decoder.Base.{
  ℕ, ◌+◌, ◌^◌, ◌<◌, ◌≤◌, ◌≡◌, inl, inr, refl, arith, Bool, Bool-cases, ◌&&◌, ltb, ◌==◌, some, Bytes,
  List, Sized,
}
use http_decoder.Buffer.Growth.{IsKept, IsKept-le, append-IsKept}
use http_decoder.Buffer.{CBuffer, buffer_size, get_buf_len}
use http_decoder.FormatPacket.{CFormatPacket}
use http_decoder.Handle.Aging.{CHandle}
use http_decoder.Handle.Assembly.{IsWhole, size_of}
use http_decoder.Handle.Good.{
  Guards, bind-Guards, IsSound, IsGood, IsGood-cong, AllSound, AllGood, update-All,
}
use http_decoder.Handle.Guarded.{parse_at-Guards}
use http_decoder.Handle.Lookup.{ok-Guards}
use http_decoder.Handle.{
  Env, session_at, stamp_request, stamp_response, append, parse_complete, client_data, server_data,
  by_match_way,
}
use http_decoder.HttpParse.Send.{Output}
use http_decoder.HttpParse.{LexicalCast}
use http_decoder.Public.{unk_match, c2s_match, s2c_match}
use http_decoder.Session.{CSession}

stamp_request-IsGood :
    {limit : ℕ} (p : CFormatPacket) (s : CSession)
    → IsGood limit s
    → IsGood limit (stamp_request p s)
stamp_request-IsGood p s g =
    elim (Bool-cases (get_buf_len s.req_buf == 0 && s.result.request_time_stamp == 0)) [
      | inl first ↦ rw first (IsGood-cong s _ refl refl g)
      | inr later ↦ rw later g
    ]

stamp_response-IsGood :
    {limit : ℕ} (p : CFormatPacket) (s : CSession)
    → IsGood limit s
    → IsGood limit (stamp_response p s)
stamp_response-IsGood p s g =
    elim (Bool-cases (get_buf_len s.rsp_buf == 0 && s.result.response_time_stamp == 0)) [
      | inl first ↦ rw first (IsGood-cong s _ refl refl g)
      | inr later ↦ rw later g
    ]

pub AllSound-le :
    {limit top : ℕ} (f : ℕ → CSession) → limit ≤ top → AllSound limit f → AllSound top f
AllSound-le f h a id = record {
  request = IsKept-le h (a id).request;
  response = IsKept-le h (a id).response;
}

pub AllGood-AllSound : (limit n : ℕ) (f : ℕ → CSession) → AllGood limit f → AllSound (limit + n) f
AllGood-AllSound limit n f a = AllSound-le f (omega arith) (λ id. (a id).sound)

-- what a handle keeps after a packet of at most n bytes
abbrev pub Grows : ℕ → CHandle × List Output × Bool → Type 0
Grows top r = AllSound top r.0.ses_hash.objects

module _ (boost : LexicalCast) (env : Env) {fresh : Bytes} (sized : Sized env.heap)
    (given : env.heap buffer_size ≡ some fresh) (p : CFormatPacket) (whole : IsWhole p)
    (small : size_of p < 2 ^ 15) {limit : ℕ} (low : limit < 2 ^ 31) where
  append-Guards :
      (id : ℕ) (b : CBuffer)
      → IsKept limit b
      → Guards (append boost env p id b) (λ r. IsKept (limit + size_of p) r.0)
  append-Guards id b k =
      let (c, stored, e, kept) =
        append-IsKept env.heap whole.bytes (size_of p) sized k whole.enough (omega arith) in
      rw whole.captured
        (ok-Guards _ (c, stored) (λ (r : CBuffer × Bool). IsKept (limit + size_of p) r.0) e kept)

  parse_complete-Guards :
      (id : ℕ) (h : CHandle)
      → AllGood limit h.ses_hash.objects
      → Guards (parse_complete boost env p id h) (λ r. AllGood limit r.0.ses_hash.objects)
  parse_complete-Guards id h a =
      elim (Bool-cases (
        ltb 0 (get_buf_len (session_at h id).req_buf)
        && ltb 0 (get_buf_len (session_at h id).rsp_buf))) [
          | inl complete ↦ rw complete (parse_at-Guards boost env.heap sized given low id h a)
          | inr open_pair ↦ rw open_pair a
        ]

  client_data-Guards :
      (id : ℕ) (h : CHandle)
      → AllGood limit h.ses_hash.objects
      → Guards (client_data boost env p id h) (Grows (limit + size_of p))
  unfolding client_data
  client_data-Guards id h a =
      bind-Guards (parse_complete boost env p id h) _ _ _ (parse_complete-Guards id h a) λ r g.
        let s = (stamp_request-IsGood p (session_at r.0 id) (g id)).sound in
        bind-Guards (append boost env p id _) _ _ _ (append-Guards id _ s.request) λ b kept.
          update-All (IsSound (limit + size_of p)) r.0.ses_hash.objects id _
            (AllGood-AllSound limit (size_of p) r.0.ses_hash.objects g)
            (record { request = kept; response = IsKept-le (omega arith) s.response })

  server_data-Guards :
      (id : ℕ) (h : CHandle)
      → AllGood limit h.ses_hash.objects
      → Guards (server_data boost env p id h) (Grows (limit + size_of p))
  unfolding server_data
  server_data-Guards id h a =
      let s = (stamp_response-IsGood p (session_at h id) (a id)).sound in
      bind-Guards (append boost env p id _) _ _ _ (append-Guards id _ s.response) λ b kept.
        update-All (IsSound (limit + size_of p)) h.ses_hash.objects id _
          (AllGood-AllSound limit (size_of p) h.ses_hash.objects a)
          (record { request = IsKept-le (omega arith) s.request; response = kept })

  pub by_match_way-Guards :
      (id way : ℕ) (h : CHandle)
      → AllGood limit h.ses_hash.objects
      → Guards (by_match_way boost env p id way h) (Grows (limit + size_of p))
  unfolding by_match_way
  by_match_way-Guards id way h a =
      let same = AllGood-AllSound limit (size_of p) h.ses_hash.objects a in
      elim (Bool-cases (way == unk_match)) [
        | inl unknown ↦ rw unknown same
        | inr known ↦ elim (Bool-cases (way == c2s_match)) [
          | inl client ↦ rw (known, client) (client_data-Guards id h a)
          | inr other ↦ elim (Bool-cases (way == s2c_match)) [
            | inl server ↦ rw (known, other, server) (server_data-Guards id h a)
            | inr neither ↦ rw (known, other, neither) same
          ]
        ]
      ]
