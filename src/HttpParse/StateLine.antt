-- ===== src/HttpParse/StateLine.antt =====
-- `ParseRspState` of HttpParse.cpp on a state line as a server writes it.
use http_decoder.Base.{
  ℕ, ◌+◌, ◌^◌, ◌≤◌, ◌<◌, ◌≡◌, sym, ◌∙◌, false, [], ◌∷◌, ◌++◌, append_assoc, some, arith, ◌==◌,
  ==_self, ok, Bytes, drop, length, length-append,
}
use http_decoder.HttpParse.Steps.{done, refused, ◌>>=◌, ◌>>◌}
use http_decoder.HttpParse.Tokens.{Lacks, next_token_found, drop_past}
use http_decoder.HttpParse.{LexicalCast, get_version, parse_rsp_state}
use http_decoder.HttpParse.Scan.{next_token}
use http_decoder.Public.{CResult}

-- `text code note`, carriage return and line feed, in front of `rest`
abbrev pub state_line : Bytes → Bytes → Bytes → Bytes → Bytes
state_line text code note rest =
    text ++ (b' ' ∷ (code ++ (b' ' ∷ (note ++ (b'\r' ∷ b'\n' ∷ rest)))))

abbrev pub state_line_size : Bytes → Bytes → Bytes → ℕ
state_line_size text code note = length text + length code + length note + 4

pub record HoldsStateLine (buf : Bytes) (len pos : ℕ) (text code note rest : Bytes) : Type 0 where
  pub at : drop pos buf ≡ state_line text code note rest
  pub inside : pos + state_line_size text code note ≤ len
  pub small : len < 2 ^ 31
  pub text_ends : Lacks b' ' text
  pub code_ends : Lacks b' ' code
  pub note_ends : Lacks b'\r' note

module _ (boost : LexicalCast) {buf : Bytes} {len pos : ℕ} {text code note rest : Bytes}
    (h : HoldsStateLine buf len pos text code note rest) (r : CResult) where
  open boost use {to_uint32}

  abbrev after_text : ℕ
  after_text = pos + length text + 1

  abbrev after_code : ℕ
  after_code = after_text + length code + 1

  abbrev after_note : ℕ
  after_note = after_code + length note + 2

  first : next_token buf len (b' ' ∷ []) [] pos r ≡ done text after_text r
  first =
      next_token_found buf len [] pos r text b' ' [] _ h.at h.text_ends (omega (arith, h.inside))
        h.small

  code_at : drop after_text buf ≡ code ++ (b' ' ∷ (note ++ (b'\r' ∷ b'\n' ∷ rest)))
  code_at =
      drop_past buf (text ++ b' ' ∷ []) _ pos _ (h.at ∙ sym (append_assoc text (b' ' ∷ []) _))
        (omega (arith, length-append text (b' ' ∷ [])))

  note_at : drop after_code buf ≡ note ++ (b'\r' ∷ b'\n' ∷ rest)
  note_at =
      drop_past buf (code ++ b' ' ∷ []) _ after_text _
        (code_at ∙ sym (append_assoc code (b' ' ∷ []) _))
        (omega (arith, length-append code (b' ' ∷ [])))

  second : next_token buf len (b' ' ∷ []) [] after_text r ≡ done code after_code r
  second =
      next_token_found buf len [] after_text r code b' ' [] _ code_at h.code_ends
        (omega (arith, h.inside)) h.small

  third :
      (s : CResult)
      → next_token buf len (b'\r' ∷ b'\n' ∷ []) s.ret_note after_code s
        ≡ done (s.ret_note ++ note) after_note s
  third s =
      next_token_found buf len s.ret_note after_code s note b'\r' (b'\n' ∷ []) _ note_at h.note_ends
        (omega (arith, h.inside)) h.small

  size : after_note ≡ pos + state_line_size text code note
  size = omega arith

  pub rest_at : drop (pos + state_line_size text code note) buf ≡ rest
  rest_at =
      drop_past buf (note ++ b'\r' ∷ b'\n' ∷ []) _ after_code _
        (note_at ∙ sym (append_assoc note (b'\r' ∷ b'\n' ∷ []) _))
        (omega (arith, length-append note (b'\r' ∷ b'\n' ∷ [])))

  -- A state line in the version of the request, with a code that is a number, gives its code and note
  -- to the result, and `pos` goes behind the line.
  pub parse_rsp_state_accepts :
      {number : ℕ}
      → get_version boost text ≡ ok (some r.version)
      → to_uint32 code ≡ some number
      → parse_rsp_state boost buf len pos r
        ≡ done tt
            (pos + state_line_size text code note)
            (record r { ret_code = number; ret_note = r.ret_note ++ note })
  unfolding parse_rsp_state
  parse_rsp_state_accepts {number} g n =
      rw (first, ◌>>=◌, ◌>>◌, g, ==_self r.version)
        (rw (second, ◌>>=◌, ◌>>◌, n)
          (rw (third (record r { ret_code = number }), ◌>>=◌, ◌>>◌, size)))

  -- A state line in another accepted version is refused, and the result stays as it was.
  pub parse_rsp_state_refuses :
      {v : ℕ}
      → get_version boost text ≡ ok (some v)
      → (v == r.version) ≡ false
      → parse_rsp_state boost buf len pos r ≡ refused after_text r
  unfolding parse_rsp_state
  parse_rsp_state_refuses g other = rw (first, ◌>>=◌, ◌>>◌, g, other)
