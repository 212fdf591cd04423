-- ===== src/HttpParse/Sides.antt =====
-- The three methods that `CHttpParse::Parse` of HttpParse.cpp calls for a request, and the three
-- for a response.
use http_decoder.Base.{ℕ, suc, Bytes, length}
use http_decoder.HttpParse.{LexicalCast, parse_method_and_uri, parse_rsp_state, parse_header}
use http_decoder.HttpParse.Steps.{done, refused, crashed, M, ◌>>◌}
use http_decoder.Public.{CResult}

-- A block of n bytes has fewer than n + 1 header lines.
abbrev header_fuel : Bytes → ℕ
header_fuel buf = length buf

-- `ParseHeader(..., result.RequestHeader)` and `ParseHeader(..., result.ResponseHeader)`
unfoldable pub request_headers : Bytes → ℕ → M CResult (Unit {0})
request_headers buf len pos r =
    elim (parse_header (suc (header_fuel buf)) buf len pos r.request_header) [
      | done u pos' m ↦ done tt pos' (record r { request_header = m })
      | refused pos' m ↦ refused pos' (record r { request_header = m })
      | crashed e ↦ crashed e
    ]

unfoldable pub response_headers : Bytes → ℕ → M CResult (Unit {0})
response_headers buf len pos r =
    elim (parse_header (suc (header_fuel buf)) buf len pos r.response_header) [
      | done u pos' m ↦ done tt pos' (record r { response_header = m })
      | refused pos' m ↦ refused pos' (record r { response_header = m })
      | crashed e ↦ crashed e
    ]

-- `ParseReqData` and `ParseRspData`, which accept whatever there is
unfoldable pub parse_req_data : Bytes → ℕ → M CResult (Unit {0})
parse_req_data buf len pos r = done tt pos r

unfoldable pub parse_rsp_data : Bytes → ℕ → M CResult (Unit {0})
parse_rsp_data buf len pos r = done tt pos r

module _ (boost : LexicalCast) where
  unfoldable pub parse_request : Bytes → ℕ → M CResult (Unit {0})
  parse_request buf len = do
    parse_method_and_uri boost buf len
    request_headers buf len
    parse_req_data buf len

  unfoldable pub parse_response : Bytes → ℕ → M CResult (Unit {0})
  parse_response buf len = do
    parse_rsp_state boost buf len
    response_headers buf len
    parse_rsp_data buf len
