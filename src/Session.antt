-- ===== src/Session.antt =====
-- `CSession` of http_parser/httpfunction/src/SessionHash.h.
pub mod Reset
use http_decoder.Base.{ℕ, Outcome, ok, ◌>>=◌, Heap}
use http_decoder.Buffer
use http_decoder.Buffer.{CBuffer}
use http_decoder.Public.{CResult, reset_result}

pub record CSession : Type 0 where
  pub server_ip : ℕ
  pub client_ip : ℕ
  pub server_port : ℕ
  pub client_port : ℕ
  pub server_mac : ℕ
  pub client_mac : ℕ
  pub created_time : ℕ
  pub refresh_time : ℕ
  pub seq_no : ℕ
  pub ack_seq_no : ℕ
  pub protocol : ℕ
  pub req_buf : CBuffer
  pub rsp_buf : CBuffer
  pub result : CResult

-- `CSession::Reset` empties the buffers and the result and leaves the rest.
unfoldable pub reset_session : Heap → CSession → Outcome CSession
reset_session heap s = do
  q ← Buffer.reset heap s.req_buf
  p ← Buffer.reset heap s.rsp_buf
  ok (record s { req_buf = q; rsp_buf = p; result = reset_result s.result })
