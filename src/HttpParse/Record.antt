-- ===== src/HttpParse/Record.antt =====
-- What a record holds that `CHttpParse::Send` of HttpParse.cpp writes.
use http_decoder.Base.{◌≡◌, List, [], ◌∷◌, ◌++◌, Bytes, decimal}
use http_decoder.Buffer.{contents}
use http_decoder.HttpParse.Send.{dotted}
use http_decoder.Public.Headers.{HeaderMap}
use http_decoder.Session.{CSession}

-- The parts stand in the text one behind another.
pub data InOrder : List Bytes → Bytes → Type 0 where
  no_more : (text : Bytes) → InOrder [] text
  part :
      (before : Bytes) {p rest text : Bytes} {ps : List Bytes}
      → text ≡ before ++ (p ++ rest)
      → InOrder ps rest
      → InOrder (p ∷ ps) text

-- the keys, each with its value behind it
abbrev pub entries : HeaderMap → List Bytes
entries [] = []
entries ((key, value) ∷ m) = key ∷ value ∷ entries m

-- what is to be read of a session
abbrev pub said : CSession → List Bytes
said s =
    dotted s.client_ip
    ∷ decimal s.client_port
    ∷ dotted s.server_ip
    ∷ decimal s.server_port
    ∷ decimal s.result.method
    ∷ decimal s.result.version
    ∷ decimal s.result.ret_code
    ∷ s.result.ret_note
    ∷ s.result.url
    ∷ (entries s.result.request_header
        ++ (contents s.req_buf ∷ (entries s.result.response_header ++ (contents s.rsp_buf ∷ []))))
