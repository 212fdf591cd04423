-- ===== src/Handle/Assembly.antt =====
-- What the buffers of a session hold after packets with data, by `CHandle::Process` of Handle.cpp.
use http_decoder.Base.{
  ℕ, ◌+◌, ◌^◌, ◌≡◌, ◌≢◌, ◌≤◌, ◌<◌, refl, ap, ◌∙◌, arith, true, inl, inr, ◌&&◌, List, [], ◌∷◌, ◌++◌,
  ltb, Option, none, some, ==_self, ok, Bytes, bytes_of, Sized, length, take, length-take,
  size_of_int16,
}
use http_decoder.Buffer
use http_decoder.Buffer.Append.{append-Appends, Appends}
use http_decoder.Buffer.Blocks.{IsValid}
use http_decoder.Buffer.{CBuffer, get_buf_len, contents}
use http_decoder.FormatPacket.{CFormatPacket, get_data_len}
use http_decoder.Handle.Aging.{CHandle, parse_at, parse_in}
use http_decoder.Handle.{
  Env, payload_bytes, parse_complete, put_session, session_at, stamp_request, stamp_response,
  client_data, server_data,
}
use http_decoder.HttpParse.Ends.{parse-Finishes}
use http_decoder.HttpParse.Exchange.{parse}
use http_decoder.HttpParse.Send.{Output}
use http_decoder.HttpParse.{LexicalCast}
use http_decoder.Session.Reset.{HasBuffers}
use http_decoder.Session.{CSession}

-- the bytes of a packet's payload
abbrev pub size_of : CFormatPacket → ℕ
size_of p = size_of_int16 (get_data_len p)

abbrev pub segment : CFormatPacket → Bytes
segment p = take (size_of p) (bytes_of (payload_bytes p))

-- The frame is as long as the packet says.
pub record IsWhole (p : CFormatPacket) : Type 0 where
  pub bytes : Bytes
  pub captured : payload_bytes p ≡ some bytes
  pub enough : size_of p ≤ length bytes

pub length-segment : (p : CFormatPacket) → IsWhole p → length (segment p) ≡ size_of p
length-segment p w = rw w.captured (length-take (size_of p) w.bytes w.enough)

pub length-contents : (b : CBuffer) (m : Bytes) → IsValid b m → length (contents b) ≡ b.len
length-contents b m v = rw v.block (length-take b.len m (omega (arith, v.fits)))

pub stamp_response_buf :
    (p : CFormatPacket) (s : CSession) → (stamp_response p s).rsp_buf ≡ s.rsp_buf
stamp_response_buf p s = ground arith

pub stamp_request_buf : (p : CFormatPacket) (s : CSession) → (stamp_request p s).req_buf ≡ s.req_buf
stamp_request_buf p s = ground arith

pub stamp_request_other :
    (p : CFormatPacket) (s : CSession) → (stamp_request p s).rsp_buf ≡ s.rsp_buf
stamp_request_other p s = ground arith

-- the payloads of several packets
abbrev pub segments : List CFormatPacket → Bytes
segments [] = []
segments (p ∷ ps) = segment p ++ segments ps

module _ (boost : LexicalCast) (env : Env) (id : ℕ) (sized : Sized env.heap)
    (gives : (n : ℕ) → env.heap n ≢ none) where
  -- With memory to give, an append of a whole packet's payload is done.
  pub append_whole :
      (p : CFormatPacket) (b : CBuffer) (m : Bytes)
      → IsWhole p
      → IsValid b m
      → b.len + size_of p + 1 < 2 ^ 32
      → Appends b (segment p) (Buffer.append env.heap b (payload_bytes p) (size_of p))
  append_whole p b m w v small =
      rw w.captured (elim (append-Appends env.heap w.bytes (size_of p) sized v w.enough small) [
        | inl (refused, _, _) ↦ absurd (gives _ refused)
        | inr done ↦ done
      ])

  -- what is stored of a packet of the server
  pub server_data_runs :
      (p : CFormatPacket) (h : CHandle) (m : Bytes)
      → IsWhole p
      → IsValid (session_at h id).rsp_buf m
      → (session_at h id).rsp_buf.len + size_of p + 1 < 2 ^ 32
      → (c : CBuffer) × (n : Bytes) × (server_data boost env p id h
          ≡ ok (
            put_session id (record (stamp_response p (session_at h id)) { rsp_buf = c }) h,
            [],
            true,
          ))
        × IsValid c n
        × (contents c ≡ contents (session_at h id).rsp_buf ++ segment p)
  unfolding server_data
  server_data_runs p h m w v small =
      let s = stamp_response p (session_at h id) in
      let same = stamp_response_buf p (session_at h id) in
      let (c, n, e, v', held) = append_whole p (session_at h id).rsp_buf m w v small in
      let e' : Buffer.append env.heap s.rsp_buf (payload_bytes p) (size_of p) ≡ ok (c, true) =
        ap (λ b. Buffer.append env.heap b (payload_bytes p) (size_of p)) same ∙ e in
      (c, n, rw e', v', held)

  parse_complete_runs :
      (p : CFormatPacket) (h : CHandle) (t : CSession) (out : List Output)
      → 0 < (session_at h id).req_buf.len
      → 0 < (session_at h id).rsp_buf.len
      → parse boost env.heap (session_at h id) ≡ ok (t, out)
      → parse_complete boost env p id h ≡ ok (put_session id t h, out)
  unfolding parse_at parse_in get_buf_len
  parse_complete_runs p h t out q r e =
      let full : (ltb 0 (session_at h id).req_buf.len && ltb 0 (session_at h id).rsp_buf.len)
          ≡ true =
        ground arith in
      rw (full, e)

  empty-contents : (b : CBuffer) → b.len ≡ 0 → contents b ≡ []
  empty-contents b e = rw e

  -- A pair of messages that is complete when the client sends more is parsed, with its output, and
  -- emptied before the new bytes are stored: the request buffer then holds the new bytes and no others,
  -- and the response buffer none. The session's buffers are valid, the parsing returns, the packet is
  -- whole, and the allocator never refuses.
  pub client_data-contents :
      (p : CFormatPacket) (h : CHandle) (t : CSession) (out : List Output)
      → IsWhole p
      → HasBuffers (session_at h id)
      → 0 < (session_at h id).req_buf.len
      → 0 < (session_at h id).rsp_buf.len
      → parse boost env.heap (session_at h id) ≡ ok (t, out)
      → size_of p + 1 < 2 ^ 32
      → (g : CHandle) × (client_data boost env p id h ≡ ok (g, out, true))
        × (contents (session_at g id).req_buf ≡ segment p)
        × (contents (session_at g id).rsp_buf ≡ [])
  unfolding client_data
  client_data-contents p h t out w valid q r e small =
      let first = parse_complete_runs p h t out q r e in
      let (fresh, given) = memory (env.heap 2048) refl in
      let end =
        (parse-Finishes boost env.heap sized given (session_at h id) t out valid e).emptied in
      let m = put_session id t h in
      let at_m : session_at m id ≡ t = rw (==_self id) in
      let s = stamp_request p (session_at m id) in
      let same : s.req_buf ≡ t.req_buf =
        stamp_request_buf p (session_at m id) ∙ ap (λ x. x.req_buf) at_m in
      let other : s.rsp_buf ≡ t.rsp_buf =
        stamp_request_other p (session_at m id) ∙ ap (λ x. x.rsp_buf) at_m in
      let (c, n, a, v, held) =
        append_whole p t.req_buf end.buffers.req_block w end.buffers.req_valid
          (omega (arith, end.no_request)) in
      let a' : Buffer.append env.heap s.req_buf (payload_bytes p) (size_of p) ≡ ok (c, true) =
        ap (λ b. Buffer.append env.heap b (payload_bytes p) (size_of p)) same ∙ a in
      let s' = record s { req_buf = c } in
      let stored : session_at (put_session id s' m) id ≡ s' = rw (==_self id) in
      (
        put_session id s' m,
        rw first (rw a'),
        ap (λ (x : CSession). contents x.req_buf) stored
            ∙ held
            ∙ ap (λ x. x ++ segment p) (empty-contents t.req_buf end.no_request),
        ap (λ (x : CSession). contents x.rsp_buf) stored
            ∙ ap contents other
            ∙ empty-contents t.rsp_buf end.no_response,
      )
    where
      memory :
          (x : Option Bytes) → env.heap 2048 ≡ x → (fresh : Bytes) × (env.heap 2048 ≡ some fresh)
      memory none e = absurd (gives 2048 e)
      memory (some fresh) e = (fresh, e)
