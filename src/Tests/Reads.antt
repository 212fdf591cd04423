-- ===== src/Tests/Reads.antt =====
-- HttpParse.cpp on blocks with and without room behind their contents.
use http_decoder.Base.{
  ◌≡◌, ◌⊎◌, inl, refl, arith, fault, no_return, bad_conversion, out_of_bounds, Bytes, codes, equal,
}
use http_decoder.HttpParse.Exchange.{parse}
use http_decoder.HttpParse.Faults.{parse_faults}
use http_decoder.HttpParse.Overread.{parse_response_overread}
use http_decoder.HttpParse.Scan.{matches, scan, get_buf_by_tag, next_token}
use http_decoder.HttpParse.Sides.{parse_request, parse_response}
use http_decoder.HttpParse.Steps.{done, crashed}
use http_decoder.HttpParse.{get_method, get_version, parse_method_and_uri, parse_rsp_state}
use http_decoder.Public.{CResult}
use http_decoder.Session.{CSession}
use http_decoder.Tests.Setting.{
  zeroed, zeroed-Sized, casts, response, blank_result, session_with, session-HasBuffers,
  length-block_of,
}

-- A method that `GetMethod` does not know.
abbrev pub patch : Bytes
patch = codes "PATCH /a HTTP/1.1\nHost:b\n\n"

abbrev pub patched : CSession
patched = session_with patch response

patch_run : parse casts zeroed patched ≡ fault no_return
unfolding parse parse_request parse_method_and_uri next_token get_buf_by_tag scan matches get_method
patch_run = refl

parse_faults_example : (no_return ≡ no_return) ⊎ (no_return ≡ bad_conversion)
parse_faults_example =
    parse_faults casts zeroed zeroed-Sized refl patched
      (session-HasBuffers patch response (omega arith) (omega arith)) no_return
      (omega (arith, length-block_of patch)) (omega (arith, length-block_of response))
      (inl (omega (arith, length-block_of response))) patch_run

-- The line feed is the byte behind the contents, and the last one of the block.
abbrev full_block : Bytes
full_block = codes "HTTP/1.1 200 OK\r\n"

abbrev versioned : CResult
versioned = record blank_result { version = 11 }

state_run :
    parse_rsp_state casts full_block 16 0 versioned
    ≡ done tt 17 (record versioned { ret_code = 200; ret_note = codes "OK" })
unfolding parse_rsp_state next_token get_buf_by_tag scan matches get_version equal
state_run = refl

parse_response_overread_example :
    parse_response casts full_block 16 0 versioned ≡ crashed out_of_bounds
parse_response_overread_example =
    parse_response_overread casts full_block 16 versioned
      (record versioned { ret_code = 200; ret_note = codes "OK" }) (omega arith) (omega arith)
      state_run
