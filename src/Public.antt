-- ===== src/Public.antt =====
-- http_parser/httpfunction/src/Public.h: the constants and the result of one exchange.
pub mod Headers
use http_decoder.Base.{ℕ, [], Bytes}
use Headers.{HeaderMap}

-- enum PROTOCOL
abbrev pub protounknown : ℕ
protounknown = 0

abbrev pub http : ℕ
http = 1

abbrev pub https : ℕ
https = 2

-- methods
abbrev pub metunknown : ℕ
metunknown = 0

abbrev pub get : ℕ
get = 1

abbrev pub post : ℕ
post = 2

abbrev pub options : ℕ
options = 3

abbrev pub head : ℕ
head = 4

abbrev pub put : ℕ
put = 5

abbrev pub delete : ℕ
delete = 6

abbrev pub trace : ℕ
trace = 7

abbrev pub connect : ℕ
connect = 8

abbrev pub verunknown : ℕ
verunknown = 0

-- time limits, in seconds
abbrev pub timeout_check_dur : ℕ
timeout_check_dur = 120

abbrev pub timeout : ℕ
timeout = 3600

-- which way a packet goes
abbrev pub unk_match : ℕ
unk_match = 0

abbrev pub c2s_match : ℕ
c2s_match = 1

abbrev pub s2c_match : ℕ
s2c_match = 2

pub record CResult : Type 0 where
  pub request_time_stamp : ℕ
  pub response_time_stamp : ℕ
  pub method : ℕ
  pub version : ℕ
  pub ret_code : ℕ
  pub url : Bytes
  pub ret_note : Bytes
  pub request_header : HeaderMap
  pub response_header : HeaderMap
  pub request_data : Bytes
  pub response_data : Bytes

-- `CResult::Reset`, which overwrites every field
abbrev pub reset_result : CResult → CResult
reset_result r = record {
  request_time_stamp = 0;
  response_time_stamp = 0;
  method = metunknown;
  version = verunknown;
  ret_code = 0;
  url = [];
  ret_note = [];
  request_header = [];
  response_header = [];
  request_data = [];
  response_data = [];
}
