-- ===== src/HttpParse.antt =====
-- http_parser/httpfunction/src/HttpParse.h and HttpParse.cpp: the parser of one exchange.
-- A `const char*` into a block is the list of the block's bytes from there to its end.
pub mod Steps
pub mod Scan
mod Tokens
pub mod RequestLine
pub mod StateLine
pub mod HeaderLines
pub mod Termination
pub mod Send
pub mod Sides
pub mod Exchange
pub mod Ends
pub mod RoundTrip
pub mod Written
pub mod Record
pub mod Positions
pub mod Halts
pub mod Returns
pub mod Bounds
pub mod Ended
pub mod Inside
pub mod InsideHeaders
pub mod Faults
pub mod Overread
use http_decoder.Base.{
  ℕ, zero, suc, ◌+◌, ◌-◌, ◌%◌, ◌^◌, Bool, true, false, ◌&&◌, ◌||◌, not, List, [], ◌∷◌, ◌++◌, Option,
  none, some, ltb, ◌==◌, if◌then◌else◌, Outcome, ok, fault, no_return, bad_conversion, diverges,
  Bytes, codes, equal, take, drop, length,
}
use http_decoder.Public.{CResult, get, post, options, head, put, delete, trace, connect}
use http_decoder.Public.Headers.{HeaderMap, insert}
use Steps.{
  Answer, done, refused, crashed, M, ◌>>=◌, ◌>>◌, require, modify, current, lift, within, pass,
}
use Scan.{matches, get_buf_by_tag, next_token, at_tag}

-- boost::lexical_cast and the arithmetic on float, which the sources only call.
-- `tenfold` is `(uint32_t) (i * 10)`, `none` where that conversion is undefined.
pub record LexicalCast : Type 1 where
  pub Float : Type 0
  pub to_float : Bytes → Option Float
  pub tenfold : Float → Option ℕ
  pub to_uint32 : Bytes → Option ℕ
  pub of_uint16 : ℕ → Option Bytes

-- `CHttpParse::GetMethod`: the last branch has no `return`.
unfoldable pub get_method : Bytes → Outcome ℕ
unfolding equal
get_method method =
    if equal method (codes "GET")
    then ok get
    else if equal method (codes "POST")
    then ok post
    else if equal method (codes "OPTIONS")
    then ok options
    else if equal method (codes "HEAD")
    then ok head
    else if equal method (codes "PUT")
    then ok put
    else if equal method (codes "DELETE")
    then ok delete
    else if equal method (codes "TRACE")
    then ok trace
    else if equal method (codes "CONNECT")
    then ok connect
    else fault no_return

-- `s` begins with `t`, and `s.find(t) != string::npos`
begins : Bytes → Bytes → Bool
begins s [] = true
begins [] (t ∷ ts) = false
begins (x ∷ s) (t ∷ ts) = x == t && begins s ts

finds : Bytes → Bytes → Bool
finds [] t = begins [] t
finds (x ∷ s) t = begins (x ∷ s) t || finds s t

module _ (boost : LexicalCast) where
  open boost use {Float, to_float, tenfold, to_uint32}

  to_version : Option Float → Outcome (Option ℕ)
  to_version none = ok none
  to_version (some i) = elim (tenfold i) [ none ↦ fault bad_conversion | some v ↦ ok (some v) ]

  -- `CHttpParse::GetVersion`; `none` is `return false`, which leaves `ver`
  unfoldable pub get_version : Bytes → Outcome (Option ℕ)
  unfolding to_version finds begins
  get_version version =
      if not (length version == 8)
      then ok none
      else if not (finds version (codes "HTTP/"))
      then ok none
      else to_version (to_float (take 3 (drop 5 version)))

  -- `CHttpParse::ParseMethodAndUri`
  unfoldable pub parse_method_and_uri : Bytes → ℕ → M CResult (Unit {0})
  parse_method_and_uri buf len = do
    method ← next_token buf len (codes " ") []
    number ← lift (get_method method)
    modify (λ r. record r { method = number })
    before ← current
    url ← next_token buf len (codes " ") before.url
    modify (λ r. record r { url = url })
    text ← next_token buf len (codes "\n") []
    version ← lift (get_version text)
    v ← require version
    modify (λ r. record r { version = v })

  -- `CHttpParse::ParseRspState`
  unfoldable pub parse_rsp_state : Bytes → ℕ → M CResult (Unit {0})
  parse_rsp_state buf len = do
    text ← next_token buf len (codes " ") []
    version ← lift (get_version text)
    ver ← require version
    r ← current
    pass (ver == r.version)
    code ← next_token buf len (codes " ") []
    number ← require (to_uint32 code)
    modify (λ r. record r { ret_code = number })
    before ← current
    note ← next_token buf len (codes "\r\n") before.ret_note
    modify (λ r. record r { ret_note = note })

-- the key and the value of one header line, and `headmap[key] = value`
unfoldable pub read_field : Bytes → ℕ → M HeaderMap Bool
read_field buf len = do
  key ← next_token buf len (codes ":") []
  value ← next_token buf len (codes "\n") []
  modify (insert key value)
  λ pos m. done false pos m

-- One round of the loop of `CHttpParse::ParseHeader`: whether the blank line was met.
unfoldable pub header_round : Bytes → ℕ → M HeaderMap Bool
header_round buf len = do
  left ← within len
  pass (not (left == 0))
  lf ← at_tag buf (codes "\n")
  blank ← if lf then (λ pos m. done true pos m) else at_tag buf (codes "\r\n")
  if blank then (λ pos m. done true pos m) else read_field buf len

-- `while(true)`, on fuel
unfoldable pub parse_header : ℕ → Bytes → ℕ → M HeaderMap (Unit {0})
parse_header zero buf len pos m = crashed diverges
parse_header (suc fuel) buf len pos m = elim (header_round buf len pos m) [
  | done true pos' m' ↦ done tt pos' m'
  | done false pos' m' ↦ parse_header fuel buf len pos' m'
  | refused pos' m' ↦ refused pos' m'
  | crashed e ↦ crashed e
]
