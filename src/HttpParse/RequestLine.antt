-- ===== src/HttpParse/RequestLine.antt =====
-- `ParseMethodAndUri` of HttpParse.cpp on a request line as a client writes it.
use http_decoder.Base.{
  ℕ, ◌+◌, ◌^◌, ◌≤◌, ◌<◌, ◌≡◌, ◌≢◌, sym, ap, ◌∙◌, [], ◌∷◌, ◌++◌, append_assoc, none, some, arith, ok,
  fault, no_return, Bytes, drop, length, length-append, List, codes, equal_ne, refl,
}
use http_decoder.HttpParse.Steps.{done, refused, crashed, ◌>>=◌, ◌>>◌}
use http_decoder.HttpParse.Tokens.{Lacks, next_token_found, drop_past}
use http_decoder.HttpParse.{LexicalCast, get_method, get_version, parse_method_and_uri}
use http_decoder.HttpParse.Scan.{next_token}
use http_decoder.Public.{CResult}

-- `method url text` and a line feed, in front of `rest`
abbrev pub request_line : Bytes → Bytes → Bytes → Bytes → Bytes
request_line method url text rest = method ++ (b' ' ∷ (url ++ (b' ' ∷ (text ++ (b'\n' ∷ rest)))))

abbrev pub request_line_size : Bytes → Bytes → Bytes → ℕ
request_line_size method url text = length method + length url + length text + 3

-- A request line at `pos` of the first `len` bytes of a block.
pub record HoldsRequestLine (buf : Bytes) (len pos : ℕ) (method url text rest : Bytes)
    : Type 0 where
  pub at : drop pos buf ≡ request_line method url text rest
  pub inside : pos + request_line_size method url text ≤ len
  pub small : len < 2 ^ 31
  pub method_ends : Lacks b' ' method
  pub url_ends : Lacks b' ' url
  pub text_ends : Lacks b'\n' text

-- the methods that RFC 7231 names
abbrev pub methods : List Bytes
methods =
    codes "GET"
    ∷ codes "POST"
    ∷ codes "OPTIONS"
    ∷ codes "HEAD"
    ∷ codes "PUT"
    ∷ codes "DELETE"
    ∷ codes "TRACE"
    ∷ codes "CONNECT"
    ∷ []

-- The text is none of these.
abbrev pub IsNone : List Bytes → Bytes → Type 0
IsNone [] text = Unit {0}
IsNone (t ∷ ts) text = (text ≢ t) × IsNone ts text

get_method_unknown : (method : Bytes) → IsNone methods method → get_method method ≡ fault no_return
unfolding get_method
get_method_unknown method (get, (post, (options, (head, (put, (delete, (trace, (connect, _)))))))) =
    rw
      (
        get_method,
        equal_ne method _ get,
        equal_ne method _ post,
        equal_ne method _ options,
        equal_ne method _ head,
        equal_ne method _ put,
        equal_ne method _ delete,
        equal_ne method _ trace,
        equal_ne method _ connect,
      )
      refl

module _ (boost : LexicalCast) {buf : Bytes} {len pos : ℕ} {method url text rest : Bytes}
    (h : HoldsRequestLine buf len pos method url text rest) (r : CResult) where
  abbrev after_method : ℕ
  after_method = pos + length method + 1

  abbrev after_url : ℕ
  after_url = after_method + length url + 1

  abbrev after_line : ℕ
  after_line = after_url + length text + 1

  first : next_token buf len (b' ' ∷ []) [] pos r ≡ done method after_method r
  first =
      next_token_found buf len [] pos r method b' ' [] _ h.at h.method_ends
        (omega (arith, h.inside)) h.small

  url_at : drop after_method buf ≡ url ++ (b' ' ∷ (text ++ (b'\n' ∷ rest)))
  url_at =
      drop_past buf (method ++ b' ' ∷ []) _ pos _ (h.at ∙ sym (append_assoc method (b' ' ∷ []) _))
        (omega (arith, length-append method (b' ' ∷ [])))

  text_at : drop after_url buf ≡ text ++ (b'\n' ∷ rest)
  text_at =
      drop_past buf (url ++ b' ' ∷ []) _ after_method _
        (url_at ∙ sym (append_assoc url (b' ' ∷ []) _))
        (omega (arith, length-append url (b' ' ∷ [])))

  second :
      (s : CResult)
      → next_token buf len (b' ' ∷ []) s.url after_method s ≡ done (s.url ++ url) after_url s
  second s =
      next_token_found buf len s.url after_method s url b' ' [] _ url_at h.url_ends
        (omega (arith, h.inside)) h.small

  third : (s : CResult) → next_token buf len (b'\n' ∷ []) [] after_url s ≡ done text after_line s
  third s =
      next_token_found buf len [] after_url s text b'\n' [] _ text_at h.text_ends
        (omega (arith, h.inside)) h.small

  size : after_line ≡ pos + request_line_size method url text
  size = omega arith

  pub rest_at : drop (pos + request_line_size method url text) buf ≡ rest
  rest_at =
      drop_past buf (text ++ b'\n' ∷ []) _ after_url _
        (text_at ∙ sym (append_assoc text (b'\n' ∷ []) _))
        (omega (arith, length-append text (b'\n' ∷ [])))

  -- On a request line whose method and version are accepted, the three parts reach the result, and
  -- `pos` the byte after the line feed.
  pub parse_method_and_uri_accepts :
      {number v : ℕ}
      → get_method method ≡ ok number
      → get_version boost text ≡ ok (some v)
      → parse_method_and_uri boost buf len pos r
        ≡ done tt
            (pos + request_line_size method url text)
            (record r { method = number; url = r.url ++ url; version = v })
  unfolding parse_method_and_uri
  parse_method_and_uri_accepts {number} {v} m g =
      let s = record r { method = number } in
      rw (first, ◌>>=◌, ◌>>◌, m)
        (rw (second s, ◌>>=◌, ◌>>◌)
          (rw (third (record s { url = r.url ++ url }), ◌>>=◌, ◌>>◌, g, size)))

  -- A version text that is not accepted refuses the request, with method and url already stored.
  pub parse_method_and_uri_refuses :
      {number : ℕ}
      → get_method method ≡ ok number
      → get_version boost text ≡ ok none
      → parse_method_and_uri boost buf len pos r
        ≡ refused
            (pos + request_line_size method url text)
            (record r { method = number; url = r.url ++ url })
  unfolding parse_method_and_uri
  parse_method_and_uri_refuses {number} m g =
      let s = record r { method = number } in
      rw (first, ◌>>=◌, ◌>>◌, m)
        (rw (second s, ◌>>=◌, ◌>>◌)
          (rw (third (record s { url = r.url ++ url }), ◌>>=◌, ◌>>◌, g, size)))

  -- On a request line whose method is none of the eight that `GetMethod` compares with, the parser
  -- runs into the end of `GetMethod` without a `return`.
  pub parse_method_and_uri_unknown :
      IsNone methods method → parse_method_and_uri boost buf len pos r ≡ crashed no_return
  unfolding parse_method_and_uri
  parse_method_and_uri_unknown none_of = rw (first, ◌>>=◌, ◌>>◌, get_method_unknown method none_of)

get_version-length :
    (boost : LexicalCast) (text : Bytes) → length text ≢ 8 → get_version boost text ≡ ok none
unfolding get_version
get_version-length boost text h = ground arith

-- A request line that ends as RFC 7230 wants it, a version of eight bytes and then carriage return
-- and line feed, is refused when its method is known: the text compared has nine bytes.
pub parse_method_and_uri_crlf :
    (boost : LexicalCast) {buf : Bytes} {len pos number : ℕ} {method url rest : Bytes}
    (version : Bytes) (r : CResult)
    → HoldsRequestLine buf len pos method url (version ++ b'\r' ∷ []) rest
    → length version ≡ 8
    → get_method method ≡ ok number
    → parse_method_and_uri boost buf len pos r
      ≡ refused
          (pos + request_line_size method url version + 1)
          (record r { method = number; url = r.url ++ url })
parse_method_and_uri_crlf boost {number} {url} version r h eight m =
    let long = length-append version (b'\r' ∷ []) in
    parse_method_and_uri_refuses boost h r m (get_version-length boost _ (omega (arith, long)))
    ∙ ap (λ p. refused p (record r { method = number; url = r.url ++ url })) (omega (arith, long))
