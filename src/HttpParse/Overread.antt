-- ===== src/HttpParse/Overread.antt =====
-- `ParseHeader` of HttpParse.cpp behind a state line whose line feed is not in the contents.
use http_decoder.Base.{
  ℕ, ◌+◌, ◌-◌, ◌%◌, ◌^◌, ◌<◌, ◌≡◌, refl, arith, inl, inr, Bool-cases, [], ◌∷◌, ◌==◌, out_of_bounds,
  Bytes, drop, length,
}
use http_decoder.HttpParse.Scan.{matches, at_tag}
use http_decoder.HttpParse.Sides.{response_headers, parse_response}
use http_decoder.HttpParse.Steps.{done, crashed, ◌>>◌, ◌>>=◌}
use http_decoder.HttpParse.{LexicalCast, parse_rsp_state, header_round, parse_header}
use http_decoder.Public.Headers.{HeaderMap}
use http_decoder.Public.{CResult}

drop-length : (buf : Bytes) → drop (length buf) buf ≡ []
drop-length [] = refl
drop-length (x ∷ buf) = drop-length buf

round_past :
    (buf : Bytes) (len : ℕ) (m : HeaderMap)
    → length buf < 2 ^ 31
    → len < length buf
    → header_round buf len (length buf) m ≡ crashed out_of_bounds
unfolding header_round at_tag matches
round_past buf len m small past = elim (Bool-cases ((len + 2 ^ 32 - length buf) % 2 ^ 32 == 0)) [
  | inl end ↦ absurd (ground (arith, end))
  | inr more ↦ ground (arith, more, drop-length buf)
]

-- Where `ParseRspState` returns true with `pos` at the end of a block, which is longer than the
-- contents and shorter than 2 ^ 31, the parsing of the response goes on to read outside of the block.
pub parse_response_overread :
    (boost : LexicalCast) (buf : Bytes) (len : ℕ) (r r' : CResult)
    → length buf < 2 ^ 31
    → len < length buf
    → parse_rsp_state boost buf len 0 r ≡ done tt (length buf) r'
    → parse_response boost buf len 0 r ≡ crashed out_of_bounds
unfolding parse_response response_headers parse_header
parse_response_overread boost buf len r r' small past state =
    rw (state, ◌>>◌, ◌>>=◌, round_past buf len r'.response_header small past) refl
