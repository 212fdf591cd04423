-- ===== src/HttpParse/Send.antt =====
-- `CHttpParse::Send` of HttpParse.cpp: one record of text, appended to a file named for the port.
use http_decoder.Base.{
  ℕ, ◌/◌, ◌%◌, ◌^◌, List, [], ◌∷◌, ◌++◌, none, some, Bytes, codes, decimal, take, bytes_of,
}
use http_decoder.Buffer.{CBuffer, get_buf}
use http_decoder.HttpParse.{LexicalCast}
use http_decoder.Public.Headers.{HeaderMap}
use http_decoder.Session.{CSession}

-- text for the end of a file
pub record Output : Type 0 where
  pub file : Bytes
  pub text : Bytes

-- `union iptrans` on a little-endian machine: `x4` is the highest byte
unfoldable pub dotted : ℕ → Bytes
dotted ip =
    decimal (ip / 2 ^ 24 % 256)
    ++ (b'.' ∷ decimal (ip / 2 ^ 16 % 256)
        ++ (b'.' ∷ decimal (ip / 2 ^ 8 % 256) ++ (b'.' ∷ decimal (ip % 256))))

abbrev line : Bytes → Bytes
line rest = b'\n' ∷ rest

-- the entries in the order of the map, in front of what follows
unfoldable pub header_lines : HeaderMap → Bytes → Bytes
header_lines [] rest = rest
header_lines ((key, value) ∷ m) rest =
    b'\t' ∷ (key ++ (codes ":  " ++ (value ++ line (header_lines m rest))))

-- `output.write(tmp, length)` after `GetBuf(length)`
written : CBuffer → Bytes
unfolding get_buf
written b = let (tmp, length) = get_buf b in take length (bytes_of tmp)

unfoldable pub rendered : CSession → Bytes
unfolding written
rendered s =
    dotted s.client_ip
    ++ (b':'
        ∷ (decimal s.client_port
            ++ (codes " ===> "
                ++ (dotted s.server_ip
                    ++ (b':'
                        ∷ (decimal s.server_port
                            ++ line (
                                codes "method: "
                                ++ (decimal s.result.method
                                    ++ (codes "\tversion: "
                                        ++ (decimal s.result.version
                                            ++ line (
                                                codes "retrun code : "
                                                ++ (decimal s.result.ret_code
                                                    ++ (s.result.ret_note
                                                        ++ line (
                                                            codes "url : "
                                                            ++ (s.result.url
                                                            ++ line context)))))))))))))))
  where
    response : Bytes
    response =
        codes "Response Header:\n"
        ++ header_lines s.result.response_header (
            codes "Response Context:\n"
            ++ (written s.rsp_buf
                ++ line (
                    codes
                      "++++++++++++++++++++++++++++++++++++++++++++++++++++++++++++++++++++++++++++++++++++++++++++++++++\n")))

    context : Bytes
    context =
        codes "Request Header:\n"
        ++ header_lines s.result.request_header
            (codes "Request Context:\n" ++ (written s.req_buf ++ line response))

module _ (boost : LexicalCast) where
  open boost use {of_uint16}

  -- Nothing is written where the port has no text.
  unfoldable pub send : CSession → List Output
  send s = elim (of_uint16 s.client_port) [
    | none ↦ []
    | some port ↦ record { file = codes "../../" ++ port; text = rendered s } ∷ []
  ]
