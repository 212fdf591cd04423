-- ===== src/HttpParse/RoundTrip.antt =====
-- `Parse` of HttpParse.cpp on a session whose buffers hold a request and a response as written.
use http_decoder.Base.{
  ℕ, suc, ◌+◌, ◌≡◌, ◌≤◌, ◌<◌, ◌∙◌, false, some, List, [], ◌∷◌, ◌++◌, ok, Bytes, Heap, Sized, arith,
  length, length-append, ◌==◌,
}
use http_decoder.Buffer.{buffer_size}
use http_decoder.HttpParse.Exchange.{parse, both_sides, after_parse}
use http_decoder.HttpParse.HeaderLines.{
  header_text, header_size, AreLines, IsBlank, store_all, parse_header_lines,
}
use http_decoder.HttpParse.RequestLine
use http_decoder.HttpParse.StateLine
use http_decoder.HttpParse.RequestLine.{
  HoldsRequestLine, request_line_size, parse_method_and_uri_accepts, parse_method_and_uri_crlf,
}
use http_decoder.HttpParse.StateLine.{HoldsStateLine, state_line_size, parse_rsp_state_accepts}
use http_decoder.HttpParse.Send.{send}
use http_decoder.HttpParse.Sides.{
  parse_request, parse_response, request_headers, response_headers, parse_req_data, parse_rsp_data,
}
use http_decoder.HttpParse.Steps.{Answer, done, refused, ◌>>=◌, ◌>>◌}
use http_decoder.HttpParse.{LexicalCast, get_method, get_version}
use http_decoder.Public.{CResult}
use http_decoder.Session.Reset.{HasBuffers, IsEmptied, same_identity, reset_session-IsEmptied}
use http_decoder.Session.{CSession}

-- A whole request in the first `len` bytes of a block: its line, its headers, the blank line and
-- whatever comes behind.
pub record HoldsRequest (buf : Bytes) (len : ℕ) (method url text : Bytes)
    (hs : List (Bytes × Bytes)) (blank body : Bytes) : Type 0 where
  pub line : HoldsRequestLine buf len 0 method url text (header_text hs blank body)
  pub headers : AreLines hs
  pub ends : IsBlank blank
  pub fits : request_line_size method url text + header_size hs + length blank ≤ len
  pub in_block : len ≤ length buf
  pub long : 10 < len

pub record HoldsResponse (buf : Bytes) (len : ℕ) (text code note : Bytes)
    (hs : List (Bytes × Bytes)) (blank body : Bytes) : Type 0 where
  pub line : HoldsStateLine buf len 0 text code note (header_text hs blank body)
  pub headers : AreLines hs
  pub ends : IsBlank blank
  pub fits : state_line_size text code note + header_size hs + length blank ≤ len
  pub in_block : len ≤ length buf
  pub long : 10 < len

abbrev pub with_request : CResult → ℕ → Bytes → ℕ → List (Bytes × Bytes) → CResult
with_request r number url v hs = record r {
  method = number;
  url = r.url ++ url;
  version = v;
  request_header = store_all hs r.request_header;
}

abbrev pub with_response : CResult → ℕ → Bytes → List (Bytes × Bytes) → CResult
with_response r number note hs = record r {
  ret_code = number;
  ret_note = r.ret_note ++ note;
  response_header = store_all hs r.response_header;
}

module _ (boost : LexicalCast) where
  open boost use {to_uint32}

  parse_request_accepts :
      {buf : Bytes} {len : ℕ} {method url text : Bytes} {hs : List (Bytes × Bytes)}
      {blank body : Bytes} {number v : ℕ} (r : CResult)
      → HoldsRequest buf len method url text hs blank body
      → get_method method ≡ ok number
      → get_version boost text ≡ ok (some v)
      → parse_request boost buf len 0 r
        ≡ done tt
            (0 + request_line_size method url text + header_size hs + length blank)
            (with_request r number url v hs)
  unfolding parse_request request_headers parse_req_data
  parse_request_accepts {buf} {len} {method} {url} {text} {hs} {blank} {body} {number} {v} r h m g =
      let line = parse_method_and_uri_accepts boost h.line r m g in
      let after = 0 + request_line_size method url text in
      let heads =
        parse_header_lines buf len h.line.small hs blank body (suc (length buf)) after
          r.request_header (RequestLine.rest_at boost h.line r) h.headers h.ends
          (omega (arith, h.fits)) (omega (arith, h.fits, h.in_block)) in
      rw (line, ◌>>=◌, ◌>>◌) (rw (request_headers, heads, ◌>>=◌))

  parse_response_accepts :
      {buf : Bytes} {len : ℕ} {text code note : Bytes} {hs : List (Bytes × Bytes)}
      {blank body : Bytes} {number : ℕ} (r : CResult)
      → HoldsResponse buf len text code note hs blank body
      → get_version boost text ≡ ok (some r.version)
      → to_uint32 code ≡ some number
      → parse_response boost buf len 0 r
        ≡ done tt
            (0 + state_line_size text code note + header_size hs + length blank)
            (with_response r number note hs)
  unfolding parse_response response_headers parse_rsp_data
  parse_response_accepts {buf} {len} {text} {code} {note} {hs} {blank} {body} {number} r h g n =
      let line = parse_rsp_state_accepts boost h.line r g n in
      let after = 0 + state_line_size text code note in
      let heads =
        parse_header_lines buf len h.line.small hs blank body (suc (length buf)) after
          r.response_header (StateLine.rest_at boost h.line r) h.headers h.ends
          (omega (arith, h.fits)) (omega (arith, h.fits, h.in_block)) in
      rw (line, ◌>>=◌, ◌>>◌) (rw (response_headers, heads, ◌>>=◌))

module _ (boost : LexicalCast) (req : Bytes) (req_len : ℕ) (rsp : Bytes) (rsp_len : ℕ)
    (r : CResult) where
  both_sides_done :
      {pos pos' : ℕ} {r' r'' : CResult}
      → 10 < req_len
      → 10 < rsp_len
      → parse_request boost req req_len 0 r ≡ done tt pos r'
      → parse_response boost rsp rsp_len 0 r' ≡ done tt pos' r''
      → both_sides boost req req_len rsp rsp_len r ≡ done tt pos' r''
  unfolding both_sides
  both_sides_done q p first second = ground (arith, first, second)

  both_sides_refused :
      {pos : ℕ} {r' : CResult}
      → 10 < req_len
      → parse_request boost req req_len 0 r ≡ refused pos r'
      → both_sides boost req req_len rsp rsp_len r ≡ refused pos r'
  unfolding both_sides
  both_sides_refused q first = ground (arith, first)

module _ (boost : LexicalCast) (heap : Heap) {fresh : Bytes} (sized : Sized heap)
    (given : heap buffer_size ≡ some fresh) (s : CSession) (h : HasBuffers s) where
  open boost use {to_uint32}

  settle :
      (a : Answer CResult (Unit {0}))
      → 0 < s.req_buf.len
      → 0 < s.rsp_buf.len
      → both_sides boost h.req_block s.req_buf.len h.rsp_block s.rsp_buf.len s.result ≡ a
      → parse boost heap s ≡ after_parse boost heap s a
  unfolding parse
  settle a q p e =
      let q' : (s.req_buf.len == 0) ≡ false = ground arith in
      let p' : (s.rsp_buf.len == 0) ≡ false = ground arith in
      rw (h.req_valid.block, h.rsp_valid.block, q', p', e)

  -- A session whose valid buffers hold a request and its response in the same version, each with its
  -- headers and a blank line, is parsed to the result that they say: `Send` is called on it, and the
  -- session is emptied. The method, the versions and the code are ones that are accepted, and the
  -- allocator gives a block where one is asked for.
  pub parse_exchange :
      {method url text body code note rsp_text rsp_body blank rsp_blank : Bytes}
      {hs rsp_hs : List (Bytes × Bytes)} {number v status : ℕ}
      → HoldsRequest h.req_block s.req_buf.len method url text hs blank body
      → HoldsResponse h.rsp_block s.rsp_buf.len rsp_text code note rsp_hs rsp_blank rsp_body
      → get_method method ≡ ok number
      → get_version boost text ≡ ok (some v)
      → get_version boost rsp_text ≡ ok (some v)
      → to_uint32 code ≡ some status
      → (t : CSession) × (parse boost heap s
          ≡ ok (
            t,
            send boost (record s {
              result = with_response (with_request s.result number url v hs) status note rsp_hs;
            }),
          ))
        × IsEmptied s t
  unfolding both_sides after_parse
  parse_exchange {url = url} {code = code} {note = note} {rsp_text = rsp_text}
        {rsp_blank = rsp_blank} {hs = hs} {rsp_hs = rsp_hs} {number = number} {v = v}
        {status = status} q p m g g' c =
      let r = with_request s.result number url v hs in
      let r' = with_response r status note rsp_hs in
      let first = parse_request_accepts boost s.result q m g in
      let second = parse_response_accepts boost r p g' c in
      let both : both_sides boost h.req_block s.req_buf.len h.rsp_block s.rsp_buf.len s.result
          ≡ done tt (0 + state_line_size rsp_text code note + header_size rsp_hs + length rsp_blank)
              r' =
        both_sides_done boost h.req_block s.req_buf.len h.rsp_block s.rsp_buf.len s.result q.long
          p.long first second in
      let (t, e, emptied) =
        reset_session-IsEmptied heap sized given (record s { result = r' })
          (record {
            req_block = h.req_block;
            rsp_block = h.rsp_block;
            req_valid = h.req_valid;
            rsp_valid = h.rsp_valid;
          }) in
      (
        t,
        settle _ (omega (arith, q.long)) (omega (arith, p.long)) both ∙ rw (after_parse, e),
        same_identity r' emptied,
      )

  -- An exchange whose request line ends in carriage return and line feed is never reported: `Parse`
  -- returns with the session emptied and nothing written.
  pub parse_crlf_silent :
      {method url rest : Bytes} {number : ℕ} (version : Bytes)
      → HoldsRequestLine h.req_block s.req_buf.len 0 method url (version ++ b'\r' ∷ []) rest
      → length version ≡ 8
      → 0 < s.rsp_buf.len
      → get_method method ≡ ok number
      → (t : CSession) × (parse boost heap s ≡ ok (t, [])) × IsEmptied s t
  unfolding both_sides after_parse parse_request
  parse_crlf_silent {method} {url} {number = number} version q eight p m =
      let r' = record s.result { method = number; url = s.result.url ++ url } in
      let line = parse_method_and_uri_crlf boost version s.result q eight m in
      let long : 10 < s.req_buf.len = omega (arith, q.inside, length-append version (b'\r' ∷ [])) in
      let both : both_sides boost h.req_block s.req_buf.len h.rsp_block s.rsp_buf.len s.result
          ≡ refused (0 + request_line_size method url version + 1) r' =
        both_sides_refused boost h.req_block s.req_buf.len h.rsp_block s.rsp_buf.len s.result long
          (rw (line, ◌>>=◌, ◌>>◌)) in
      let (t, e, emptied) =
        reset_session-IsEmptied heap sized given (record s { result = r' })
          (record {
            req_block = h.req_block;
            rsp_block = h.rsp_block;
            req_valid = h.req_valid;
            rsp_valid = h.rsp_valid;
          }) in
      (t, settle _ (omega arith) p both ∙ rw (after_parse, e), same_identity r' emptied)
