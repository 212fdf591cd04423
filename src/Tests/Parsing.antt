-- ===== src/Tests/Parsing.antt =====
-- HttpParse.cpp on one exchange.
use http_decoder.Base.{
  length-replicate, length-append, ◌^◌, ◌<◌, ℕ, ◌≡◌, ◌≢◌, refl, inl, inr, arith, ◌-◌, List, [], ◌∷◌,
  ◌++◌, some, ok, fault, no_return, diverges, Bytes, codes, length, replicate, equal, false,
  equal_iff,
}
use http_decoder.Buffer.{buffer_size}
use http_decoder.HttpParse.{get_method, get_version, parse_method_and_uri, parse_header}
use http_decoder.HttpParse.Ends.{Finishes, parse-Finishes}
use http_decoder.HttpParse.Exchange.{parse}
use http_decoder.HttpParse.HeaderLines.{parse_header_lines, store_all, header_text}
use http_decoder.HttpParse.RequestLine.{
  HoldsRequestLine, parse_method_and_uri_unknown, parse_method_and_uri_crlf, methods, IsNone,
}
use http_decoder.HttpParse.Returns.{parse-ne-diverges}
use http_decoder.HttpParse.RoundTrip.{
  HoldsRequest, HoldsResponse, with_request, with_response, parse_exchange, parse_crlf_silent,
}
use http_decoder.HttpParse.Send.{send}
use http_decoder.HttpParse.StateLine.{HoldsStateLine}
use http_decoder.HttpParse.Steps.{done, refused, crashed}
use http_decoder.Public.{CResult}
use http_decoder.Session.{CSession}
use http_decoder.Session.Reset.{HasBuffers, IsEmptied}
use http_decoder.Tests.Setting.{
  zeroed, zeroed-Sized, casts, block_of, request, response, blank_result, exchange, session_with,
  session-HasBuffers,
}

abbrev pub host : List (Bytes × Bytes)
host = (codes "Host", codes "b") ∷ []

abbrev pub server : List (Bytes × Bytes)
server = (codes "Server", codes "c") ∷ []

abbrev exchange-HasBuffers : HasBuffers exchange
exchange-HasBuffers = session-HasBuffers request response (omega arith) (omega arith)

pub get_number : get_method (codes "GET") ≡ ok 1
unfolding get_method equal
get_number = refl

pub version_number : get_version casts (codes "HTTP/1.1") ≡ ok (some 11)
unfolding get_version equal
version_number = refl

request_lines :
    HoldsRequestLine
      (block_of request)
      (length request)
      0
      (codes "GET")
      (codes "/a")
      (codes "HTTP/1.1")
      (header_text host (codes "\n") (replicate (buffer_size - length request) 0))
request_lines = record {
  at = refl;
  inside = omega arith;
  small = omega arith;
  method_ends = ground arith;
  url_ends = ground arith;
  text_ends = ground arith;
}

whole_request :
    HoldsRequest
      (block_of request)
      (length request)
      (codes "GET")
      (codes "/a")
      (codes "HTTP/1.1")
      host
      (codes "\n")
      (replicate (buffer_size - length request) 0)
whole_request = record {
  line = request_lines;
  headers = ground arith;
  ends = inl refl;
  fits = omega arith;
  in_block = omega arith;
  long = omega arith;
}

state_lines :
    HoldsStateLine
      (block_of response)
      (length response)
      0
      (codes "HTTP/1.1")
      (codes "200")
      (codes "OK")
      (header_text server
        (codes "\r\n")
        (codes "hello" ++ replicate (buffer_size - length response) 0))
state_lines = record {
  at = refl;
  inside = omega arith;
  small = omega arith;
  text_ends = ground arith;
  code_ends = ground arith;
  note_ends = ground arith;
}

whole_response :
    HoldsResponse
      (block_of response)
      (length response)
      (codes "HTTP/1.1")
      (codes "200")
      (codes "OK")
      server
      (codes "\r\n")
      (codes "hello" ++ replicate (buffer_size - length response) 0)
whole_response = record {
  line = state_lines;
  headers = ground arith;
  ends = inr refl;
  fits = omega arith;
  in_block = omega arith;
  long = omega arith;
}

abbrev pub reported : CResult
reported = with_response (with_request blank_result 1 (codes "/a") 11 host) 200 (codes "OK") server

pub status_number : casts.to_uint32 (codes "200") ≡ some 200
unfolding equal
status_number = refl

parse_exchange_example :
    (t : CSession) × (parse casts zeroed exchange
      ≡ ok (t, send casts (record exchange { result = reported })))
    × IsEmptied exchange t
parse_exchange_example =
    parse_exchange casts zeroed zeroed-Sized refl exchange exchange-HasBuffers whole_request
      whole_response get_number version_number version_number status_number

parse_header_lines_example :
    parse_header 100 (codes "Host:b\n\n..") 10 0 [] ≡ done tt 8 (store_all host [])
parse_header_lines_example =
    parse_header_lines (codes "Host:b\n\n..") 10 (omega arith) host (codes "\n") (codes "..") 100 0
      [] refl (ground arith) (inl refl) (omega arith) (omega arith)

-- A line that ends in carriage return and line feed.
abbrev crlf_request : Bytes
crlf_request = codes "GET /a HTTP/1.1\r\n\r\n"

crlf_lines :
    HoldsRequestLine
      (block_of crlf_request)
      (length crlf_request)
      0
      (codes "GET")
      (codes "/a")
      (codes "HTTP/1.1" ++ b'\r' ∷ [])
      (codes "\r\n" ++ replicate (buffer_size - length crlf_request) 0)
crlf_lines = record {
  at = refl;
  inside = omega arith;
  small = omega arith;
  method_ends = ground arith;
  url_ends = ground arith;
  text_ends = ground arith;
}

parse_method_and_uri_crlf_example :
    parse_method_and_uri casts (block_of crlf_request) (length crlf_request) 0 blank_result
    ≡ refused 17 (record blank_result { method = 1; url = codes "/a" })
parse_method_and_uri_crlf_example =
    parse_method_and_uri_crlf casts (codes "HTTP/1.1") blank_result crlf_lines refl get_number

parse_crlf_silent_example :
    (t : CSession) × (parse casts zeroed (session_with crlf_request response) ≡ ok (t, []))
    × IsEmptied (session_with crlf_request response) t
parse_crlf_silent_example =
    parse_crlf_silent casts zeroed zeroed-Sized refl (session_with crlf_request response)
      (session-HasBuffers crlf_request response (omega arith) (omega arith)) (codes "HTTP/1.1")
      crlf_lines refl (omega arith) get_number

-- `PATCH` is none of the eight methods.
abbrev patch_request : Bytes
patch_request = codes "PATCH /a HTTP/1.1\n\n"

patch_lines :
    HoldsRequestLine
      (block_of patch_request)
      (length patch_request)
      0
      (codes "PATCH")
      (codes "/a")
      (codes "HTTP/1.1")
      (codes "\n" ++ replicate (buffer_size - length patch_request) 0)
patch_lines = record {
  at = refl;
  inside = omega arith;
  small = omega arith;
  method_ends = ground arith;
  url_ends = ground arith;
  text_ends = ground arith;
}

differs : (t : Bytes) → equal (codes "PATCH") t ≡ false → codes "PATCH" ≢ t
differs t other same = ground (arith, equal_iff (codes "PATCH") t)

patch-IsNone : IsNone methods (codes "PATCH")
unfolding equal
patch-IsNone = (
  differs _ refl,
  (
    differs _ refl,
    (
      differs _ refl,
      (differs _ refl, (differs _ refl, (differs _ refl, (differs _ refl, (differs _ refl, tt))))),
    ),
  ),
)

parse_method_and_uri_unknown_example :
    parse_method_and_uri casts (block_of patch_request) (length patch_request) 0 blank_result
    ≡ crashed no_return
parse_method_and_uri_unknown_example =
    parse_method_and_uri_unknown casts patch_lines blank_result patch-IsNone

pub exchange_end :
    (t : CSession) × (parse casts zeroed exchange
      ≡ ok (t, send casts (record exchange { result = reported })))
    × IsEmptied exchange t
exchange_end =
    parse_exchange casts zeroed zeroed-Sized refl exchange exchange-HasBuffers whole_request
      whole_response get_number version_number version_number status_number

parse-Finishes_example :
    Finishes exchange exchange_end.0 (send casts (record exchange { result = reported }))
parse-Finishes_example =
    parse-Finishes casts zeroed zeroed-Sized refl exchange exchange_end.0
      (send casts (record exchange { result = reported })) exchange-HasBuffers exchange_end.1

parse-ne-diverges_example : parse casts zeroed exchange ≢ fault diverges
parse-ne-diverges_example = parse-ne-diverges casts zeroed exchange short short'
  where
    short : length (block_of request) < 2 ^ 31
    short = omega (arith, length-append request (replicate 2024 0), length-replicate {A = ℕ} 2024 0)

    short' : length (block_of response) < 2 ^ 31
    short' =
        omega (arith, length-append response (replicate 2014 0), length-replicate {A = ℕ} 2014 0)
