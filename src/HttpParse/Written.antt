-- ===== src/HttpParse/Written.antt =====
-- Requests and responses as they are written, for HttpParse.cpp to read from the first bytes of a block.
use http_decoder.Base.{
  ℕ, ◌+◌, ◌^◌, ◌≤◌, ◌<◌, ◌≡◌, sym, ap, ◌∙◌, arith, List, [], ◌∷◌, ◌++◌, append_assoc, Bytes, take,
  drop, length, length-append, length-take, take-append-drop,
}
use http_decoder.HttpParse.HeaderLines.{header_text, header_size, AreLines, IsBlank}
use http_decoder.HttpParse.RequestLine.{request_line, request_line_size}
use http_decoder.HttpParse.RoundTrip.{HoldsRequest, HoldsResponse}
use http_decoder.HttpParse.StateLine.{state_line, state_line_size}
use http_decoder.HttpParse.Tokens.{Lacks}

-- A request: its line, its headers, the blank line and a body.
pub record IsRequest (written method url version : Bytes) (hs : List (Bytes × Bytes))
    (blank body : Bytes) : Type 0 where
  pub written_is : written ≡ request_line method url version (header_text hs blank body)
  pub method_ends : Lacks b' ' method
  pub url_ends : Lacks b' ' url
  pub version_ends : Lacks b'\n' version
  pub headers : AreLines hs
  pub ends : IsBlank blank
  pub long : 10 < length written
  pub small : length written < 2 ^ 31

pub record IsResponse (written version code note : Bytes) (hs : List (Bytes × Bytes))
    (blank body : Bytes) : Type 0 where
  pub written_is : written ≡ state_line version code note (header_text hs blank body)
  pub version_ends : Lacks b' ' version
  pub code_ends : Lacks b' ' code
  pub note_ends : Lacks b'\r' note
  pub headers : AreLines hs
  pub ends : IsBlank blank
  pub long : 10 < length written
  pub small : length written < 2 ^ 31

header_text-append :
    (hs : List (Bytes × Bytes)) (blank body more : Bytes)
    → header_text hs blank body ++ more ≡ header_text hs blank (body ++ more)
header_text-append [] blank body more = append_assoc blank body more
header_text-append ((key, value) ∷ hs) blank body more =
    let rest = header_text hs blank body in
    append_assoc key (b':' ∷ (value ++ (b'\n' ∷ rest))) more
    ∙ ap (λ x. key ++ (b':' ∷ x))
        (append_assoc value (b'\n' ∷ rest) more
          ∙ ap (λ x. value ++ (b'\n' ∷ x)) (header_text-append hs blank body more))

length-header_text :
    (hs : List (Bytes × Bytes)) (blank body : Bytes)
    → length (header_text hs blank body) ≡ header_size hs + length blank + length body
length-header_text [] blank body = omega (arith, length-append blank body)
length-header_text ((key, value) ∷ hs) blank body =
    let rest = header_text hs blank body in
    omega (
      arith,
      length-header_text hs blank body,
      length-append key (b':' ∷ (value ++ (b'\n' ∷ rest))),
      length-append value (b'\n' ∷ rest),
    )

request_line-append :
    (method url version rest more : Bytes)
    → request_line method url version rest ++ more ≡ request_line method url version (rest ++ more)
request_line-append method url version rest more =
    append_assoc method (b' ' ∷ (url ++ (b' ' ∷ (version ++ (b'\n' ∷ rest))))) more
    ∙ ap (λ x. method ++ (b' ' ∷ x))
        (append_assoc url (b' ' ∷ (version ++ (b'\n' ∷ rest))) more
          ∙ ap (λ x. url ++ (b' ' ∷ x)) (append_assoc version (b'\n' ∷ rest) more))

length-request_line :
    (method url version rest : Bytes)
    → length (request_line method url version rest)
      ≡ request_line_size method url version + length rest
length-request_line method url version rest = omega (
  arith,
  length-append method (b' ' ∷ (url ++ (b' ' ∷ (version ++ (b'\n' ∷ rest))))),
  length-append url (b' ' ∷ (version ++ (b'\n' ∷ rest))),
  length-append version (b'\n' ∷ rest),
)

state_line-append :
    (version code note rest more : Bytes)
    → state_line version code note rest ++ more ≡ state_line version code note (rest ++ more)
state_line-append version code note rest more =
    append_assoc version (b' ' ∷ (code ++ (b' ' ∷ (note ++ (b'\r' ∷ b'\n' ∷ rest))))) more
    ∙ ap (λ x. version ++ (b' ' ∷ x))
        (append_assoc code (b' ' ∷ (note ++ (b'\r' ∷ b'\n' ∷ rest))) more
          ∙ ap (λ x. code ++ (b' ' ∷ x)) (append_assoc note (b'\r' ∷ b'\n' ∷ rest) more))

length-state_line :
    (version code note rest : Bytes)
    → length (state_line version code note rest) ≡ state_line_size version code note + length rest
length-state_line version code note rest = omega (
  arith,
  length-append version (b' ' ∷ (code ++ (b' ' ∷ (note ++ (b'\r' ∷ b'\n' ∷ rest))))),
  length-append code (b' ' ∷ (note ++ (b'\r' ∷ b'\n' ∷ rest))),
  length-append note (b'\r' ∷ b'\n' ∷ rest),
)

module _ (buf : Bytes) (len : ℕ) {written : Bytes} (here : take len buf ≡ written)
    (fits : len ≤ length buf) where
  size : length written ≡ len
  size = sym (ap length here) ∙ length-take len buf fits

  whole : buf ≡ written ++ drop len buf
  whole = sym (take-append-drop len buf) ∙ ap (λ x. x ++ drop len buf) here

  pub IsRequest-HoldsRequest :
      {method url version blank body : Bytes} {hs : List (Bytes × Bytes)}
      → IsRequest written method url version hs blank body
      → HoldsRequest buf len method url version hs blank (body ++ drop len buf)
  IsRequest-HoldsRequest {method} {url} {version} {blank} {body} {hs} w =
      let rest = header_text hs blank body in
      let sizes =
        ap length w.written_is
        ∙ length-request_line method url version rest
        ∙ ap (λ n. request_line_size method url version + n) (length-header_text hs blank body) in
      record {
        line = record {
          at =
              whole
              ∙ ap (λ x. x ++ drop len buf) w.written_is
              ∙ request_line-append method url version rest (drop len buf)
              ∙ ap (request_line method url version)
                  (header_text-append hs blank body (drop len buf));
          inside = omega (arith, size, sizes);
          small = omega (arith, size, w.small);
          method_ends = w.method_ends;
          url_ends = w.url_ends;
          text_ends = w.version_ends;
        };
        headers = w.headers;
        ends = w.ends;
        fits = omega (arith, size, sizes);
        in_block = fits;
        long = omega (arith, size, w.long);
      }

  pub IsResponse-HoldsResponse :
      {version code note blank body : Bytes} {hs : List (Bytes × Bytes)}
      → IsResponse written version code note hs blank body
      → HoldsResponse buf len version code note hs blank (body ++ drop len buf)
  IsResponse-HoldsResponse {version} {code} {note} {blank} {body} {hs} w =
      let rest = header_text hs blank body in
      let sizes =
        ap length w.written_is
        ∙ length-state_line version code note rest
        ∙ ap (λ n. state_line_size version code note + n) (length-header_text hs blank body) in
      record {
        line = record {
          at =
              whole
              ∙ ap (λ x. x ++ drop len buf) w.written_is
              ∙ state_line-append version code note rest (drop len buf)
              ∙ ap (state_line version code note) (header_text-append hs blank body (drop len buf));
          inside = omega (arith, size, sizes);
          small = omega (arith, size, w.small);
          text_ends = w.version_ends;
          code_ends = w.code_ends;
          note_ends = w.note_ends;
        };
        headers = w.headers;
        ends = w.ends;
        fits = omega (arith, size, sizes);
        in_block = fits;
        long = omega (arith, size, w.long);
      }
