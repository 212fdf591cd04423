-- ===== src/Handle/Branches.antt =====
-- The branches of `CHandle::Process` in Handle.cpp that take data, and the table of sessions.
use http_decoder.Base.{
  ℕ, ◌≡◌, inl, inr, subst, arith, Bool, Bool-cases, ◌&&◌, List, ltb, ◌==◌, Outcome, ok, Heap,
  >>=-eq-ok, size_of_int16,
}
use http_decoder.Buffer
use http_decoder.Buffer.{CBuffer, get_buf_len}
use http_decoder.FormatPacket.{CFormatPacket, get_data_len}
use http_decoder.Handle.Aging.{CHandle, parse_in, parse_at}
use http_decoder.Handle.Invariant.{parse_in-AllKept}
use http_decoder.Handle.{
  Env, payload_bytes, parse_complete, stamp_request, stamp_response, put_session, session_at,
  client_data, server_data, by_match_way,
}
use http_decoder.HttpParse.Send.{Output}
use http_decoder.HttpParse.{LexicalCast}
use http_decoder.Public.{unk_match, c2s_match, s2c_match}
use http_decoder.Session.{CSession}
use http_decoder.SessionHash.Operations.{put_object-IsValid, reidentify}
use http_decoder.SessionHash.Table.{IsValid}
use http_decoder.SessionHash.{session_ends}

module _ (boost : LexicalCast) (heap : Heap) where
  pub parse_at-IsValid :
      (id : ℕ) (h g : CHandle) (out : List Output)
      → parse_at boost heap id h ≡ ok (g, out)
      → IsValid h.ses_hash
      → IsValid g.ses_hash
  unfolding parse_at
  parse_at-IsValid id h g out e v =
      let ((f, o), parsed, last) = >>=-eq-ok (parse_in boost heap id h.ses_hash.objects) _ e in
      let kept = parse_in-AllKept boost heap id h.ses_hash.objects f o parsed in
      let same : record h { ses_hash = record h.ses_hash { objects = f } } ≡ g = cc last in
      subst (λ x. IsValid x.ses_hash) same (reidentify h.ses_hash f (λ i. (kept i).same_ends) v)

pub put_session-IsValid :
    (id : ℕ) (s : CSession) (h : CHandle)
    → session_ends s ≡ session_ends (session_at h id)
    → IsValid h.ses_hash
    → IsValid (put_session id s h).ses_hash
put_session-IsValid id s h e v = put_object-IsValid h.ses_hash id s e v

-- The handle is the first part of what a branch gives.
pub same_handle :
    {h g : CHandle} {o out : List Output} {b stored : Bool}
    → ◌≡◌ {A = Outcome (CHandle × List Output × Bool)} (ok (h, o, b)) (ok (g, out, stored))
    → h ≡ g
same_handle e = cc

stamp_request_ends :
    (p : CFormatPacket) (s : CSession) → session_ends (stamp_request p s) ≡ session_ends s
stamp_request_ends p s = ground arith

stamp_response_ends :
    (p : CFormatPacket) (s : CSession) → session_ends (stamp_response p s) ≡ session_ends s
stamp_response_ends p s = ground arith

module _ (boost : LexicalCast) (env : Env) (p : CFormatPacket) (id : ℕ) (h g : CHandle)
    (out : List Output) (stored : Bool) where
  server_data-IsValid :
      server_data boost env p id h ≡ ok (g, out, stored) → IsValid h.ses_hash → IsValid g.ses_hash
  unfolding server_data
  server_data-IsValid e v =
      let s = stamp_response p (session_at h id) in
      let ((b, fits), _, last) =
        >>=-eq-ok
          (Buffer.append env.heap s.rsp_buf (payload_bytes p) (size_of_int16 (get_data_len p))) _
          e in
      let same : put_session id (record s { rsp_buf = b }) h ≡ g = same_handle last in
      subst (λ x. IsValid x.ses_hash) same
        (put_session-IsValid id (record s { rsp_buf = b }) h
          (stamp_response_ends p (session_at h id)) v)

  client_data-IsValid :
      client_data boost env p id h ≡ ok (g, out, stored) → IsValid h.ses_hash → IsValid g.ses_hash
  unfolding client_data
  client_data-IsValid e v =
      let ((m, o), first, more) = >>=-eq-ok (parse_complete boost env p id h) _ e in
      let s = stamp_request p (session_at m id) in
      let ((b, fits), _, last) =
        >>=-eq-ok
          (Buffer.append env.heap s.req_buf (payload_bytes p) (size_of_int16 (get_data_len p))) _
          more in
      let same : put_session id (record s { req_buf = b }) m ≡ g = same_handle last in
      subst (λ x. IsValid x.ses_hash) same
        (put_session-IsValid id (record s { req_buf = b }) m
          (stamp_request_ends p (session_at m id)) (complete m o first))
    where
      complete :
          (m : CHandle) (o : List Output)
          → parse_complete boost env p id h ≡ ok (m, o)
          → IsValid m.ses_hash
      complete m o first =
          elim (Bool-cases (
            ltb 0 (get_buf_len (session_at h id).req_buf)
            && ltb 0 (get_buf_len (session_at h id).rsp_buf))) [
              | inl full ↦ parse_at-IsValid boost env.heap id h m o (rw full at first) v
              | inr open_end ↦
                  let same : h ≡ m = cc (rw open_end at first) in
                  subst (λ x. IsValid x.ses_hash) same v
            ]

  pub unchanged-IsValid :
      {b : Bool} {o : List Output}
      → ◌≡◌ {A = Outcome (CHandle × List Output × Bool)} (ok (h, o, b)) (ok (g, out, stored))
      → IsValid h.ses_hash
      → IsValid g.ses_hash
  unchanged-IsValid e v = subst (λ x. IsValid x.ses_hash) (same_handle e) v

  pub by_match_way-IsValid :
      (way : ℕ)
      → by_match_way boost env p id way h ≡ ok (g, out, stored)
      → IsValid h.ses_hash
      → IsValid g.ses_hash
  unfolding by_match_way
  by_match_way-IsValid way e v = elim (Bool-cases (way == unk_match)) [
    | inl a ↦ unchanged-IsValid (rw a at e) v
    | inr a' ↦ elim (Bool-cases (way == c2s_match)) [
      | inl b ↦ client_data-IsValid (rw (a', b) at e) v
      | inr b' ↦ elim (Bool-cases (way == s2c_match)) [
        | inl c ↦ server_data-IsValid (rw (a', b', c) at e) v
        | inr c' ↦ unchanged-IsValid (rw (a', b', c') at e) v
      ]
    ]
  ]
