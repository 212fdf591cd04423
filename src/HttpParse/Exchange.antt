-- ===== src/HttpParse/Exchange.antt =====
-- `CHttpParse::Parse` of HttpParse.cpp: a request and its response, from the two buffers.
use http_decoder.Base.{
  ℕ, ◌||◌, not, List, [], ltb, ◌==◌, if◌then◌else◌, is_some, Outcome, ok, fault, ◌>>=◌, Bytes, Heap,
  bytes_of,
}
use http_decoder.Buffer.{get_buf}
use http_decoder.HttpParse.{LexicalCast}
use http_decoder.HttpParse.Send.{Output, send}
use http_decoder.HttpParse.Sides.{parse_request, parse_response}
use http_decoder.HttpParse.Steps.{Answer, done, refused, crashed, M}
use http_decoder.Public.{CResult}
use http_decoder.Session.{CSession, reset_session}

module _ (boost : LexicalCast) where
  -- Each side is parsed from position 0, and only where it is longer than ten bytes.
  abbrev pub long_enough :
      (Bytes → ℕ → M CResult (Unit {0})) → Bytes → ℕ → CResult → Answer CResult (Unit {0})
  long_enough side buf len r = if ltb 10 len then side buf len 0 r else done tt 0 r

  unfoldable pub both_sides : Bytes → ℕ → Bytes → ℕ → CResult → Answer CResult (Unit {0})
  both_sides req req_len rsp rsp_len r = elim (long_enough (parse_request boost) req req_len r) [
    | done u pos r' ↦ long_enough (parse_response boost) rsp rsp_len r'
    | refused pos r' ↦ refused pos r'
    | crashed e ↦ crashed e
  ]

  unfoldable pub after_parse :
      Heap → CSession → Answer CResult (Unit {0}) → Outcome (CSession × List Output)
  after_parse heap s (done u pos r) =
      let out = send boost (record s { result = r }) in
      (do s' ← reset_session heap (record s { result = r }); ok (s', out))
  after_parse heap s (refused pos r) = do
    s' ← reset_session heap (record s { result = r })
    ok (s', [])
  after_parse heap s (crashed e) = fault e

  unfoldable pub parse : Heap → CSession → Outcome (CSession × List Output)
  unfolding both_sides after_parse get_buf
  parse heap s =
      let (req, req_len) = get_buf s.req_buf in
      let (rsp, rsp_len) = get_buf s.rsp_buf in
      if not (is_some req) || not (is_some rsp) || req_len == 0 || rsp_len == 0
      then (do s' ← reset_session heap s; ok (s', []))
      else after_parse heap s (both_sides (bytes_of req) req_len (bytes_of rsp) rsp_len s.result)
