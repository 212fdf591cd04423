-- ===== src/HttpParse/HeaderLines.antt =====
-- `ParseHeader` of HttpParse.cpp on header lines as they are written.
use http_decoder.Base.{
  ℕ, zero, suc, ◌+◌, ◌-◌, ◌%◌, ◌^◌, ◌≤◌, ◌<◌, ◌≡◌, ◌⊎◌, inl, inr, refl, sym, ap, ◌∙◌, true, false,
  List, [], ◌∷◌, ◌++◌, append_assoc, arith, ◌==◌, ok, Bytes, drop, length, length-append,
}
use http_decoder.HttpParse.Steps.{done, ◌>>=◌, ◌>>◌}
use http_decoder.HttpParse.Tokens.{Lacks, next_token_found, drop_past}
use http_decoder.HttpParse.{read_field, header_round, parse_header}
use http_decoder.HttpParse.Scan.{matches, at_tag}
use http_decoder.Public.Headers.{HeaderMap, insert}

-- `key:value` and a line feed for each header, then the blank line, in front of `rest`
abbrev pub header_text : List (Bytes × Bytes) → Bytes → Bytes → Bytes
header_text [] blank rest = blank ++ rest
header_text ((key, value) ∷ hs) blank rest =
    key ++ (b':' ∷ (value ++ (b'\n' ∷ header_text hs blank rest)))

abbrev pub header_size : List (Bytes × Bytes) → ℕ
header_size [] = 0
header_size ((key, value) ∷ hs) = length key + length value + 2 + header_size hs

-- A key has no colon and no line feed, a value no line feed.
abbrev pub AreLines : List (Bytes × Bytes) → Type 0
AreLines [] = Unit {0}
AreLines ((key, value) ∷ hs) = (Lacks b':' key × Lacks b'\n' key × Lacks b'\n' value) × AreLines hs

-- a line feed, alone or behind a carriage return
abbrev pub IsBlank : Bytes → Type 0
IsBlank blank = (blank ≡ b'\n' ∷ []) ⊎ (blank ≡ b'\r' ∷ b'\n' ∷ [])

-- `headmap[key] = value` for each header in turn
abbrev pub store_all : List (Bytes × Bytes) → HeaderMap → HeaderMap
store_all [] m = m
store_all ((key, value) ∷ hs) m = store_all hs (insert key value m)

not_lf :
    (key rest : Bytes) → Lacks b'\n' key → matches (key ++ (b':' ∷ rest)) (b'\n' ∷ []) ≡ ok false
unfolding matches
not_lf [] rest l = refl
not_lf (x ∷ key) rest l = ground arith

not_crlf :
    (key rest : Bytes)
    → Lacks b'\n' key
    → matches (key ++ (b':' ∷ rest)) (b'\r' ∷ b'\n' ∷ []) ≡ ok false
unfolding matches
not_crlf [] rest l = refl
not_crlf (x ∷ []) rest l = ground arith
not_crlf (x ∷ y ∷ key) rest l = ground arith

module _ (buf : Bytes) (len : ℕ) (small : len < 2 ^ 31) where
  round_field :
      (key value rest : Bytes) (pos : ℕ) (m : HeaderMap)
      → drop pos buf ≡ key ++ (b':' ∷ (value ++ (b'\n' ∷ rest)))
      → Lacks b':' key
      → Lacks b'\n' key
      → Lacks b'\n' value
      → pos + length key + length value + 2 ≤ len
      → header_round buf len pos m
        ≡ done false (pos + length key + length value + 2) (insert key value m)
  unfolding header_round read_field at_tag
  round_field key value rest pos m h colon k v fits =
      let left : (len + 2 ^ 32 - pos) % 2 ^ 32 ≡ len - pos = omega arith in
      let more : (len - pos == 0) ≡ false = ground arith in
      let next = pos + length key + 1 in
      let value_at : drop next buf ≡ value ++ (b'\n' ∷ rest) =
        drop_past buf (key ++ b':' ∷ []) _ pos _ (h ∙ sym (append_assoc key (b':' ∷ []) _))
          (omega (arith, length-append key (b':' ∷ []))) in
      let first = next_token_found buf len [] pos m key b':' [] _ h colon (omega arith) small in
      let second =
        next_token_found buf len [] next m value b'\n' [] rest value_at v (omega arith) small in
      let end : next + length value + 1 ≡ pos + length key + length value + 2 = omega arith in
      let rest' = value ++ (b'\n' ∷ rest) in
      let lf : at_tag buf (b'\n' ∷ []) pos m ≡ done false pos m =
        rw (at_tag, h, not_lf key rest' k) in
      let crlf : at_tag buf (b'\r' ∷ b'\n' ∷ []) pos m ≡ done false pos m =
        rw (at_tag, h, not_crlf key rest' k) in
      rw (left, more, lf, ◌>>=◌, ◌>>◌)
        (rw (crlf, ◌>>=◌) (rw (first, ◌>>=◌) (rw (second, ◌>>=◌, ◌>>◌, end))))

  round_lf :
      (rest : Bytes) (pos : ℕ) (m : HeaderMap)
      → drop pos buf ≡ b'\n' ∷ rest
      → pos + 1 ≤ len
      → header_round buf len pos m ≡ done true (pos + 1) m
  unfolding header_round matches at_tag
  round_lf rest pos m h fits =
      let left : (len + 2 ^ 32 - pos) % 2 ^ 32 ≡ len - pos = omega arith in
      let more : (len - pos == 0) ≡ false = ground arith in
      let end : (pos + 1) % 2 ^ 32 ≡ pos + 1 = omega arith in
      let lf : at_tag buf (b'\n' ∷ []) pos m ≡ done true (pos + 1) m = rw (at_tag, h, end) in
      rw (left, more, lf, ◌>>=◌, ◌>>◌)

  round_crlf :
      (rest : Bytes) (pos : ℕ) (m : HeaderMap)
      → drop pos buf ≡ b'\r' ∷ b'\n' ∷ rest
      → pos + 2 ≤ len
      → header_round buf len pos m ≡ done true (pos + 2) m
  unfolding header_round matches at_tag
  round_crlf rest pos m h fits =
      let left : (len + 2 ^ 32 - pos) % 2 ^ 32 ≡ len - pos = omega arith in
      let more : (len - pos == 0) ≡ false = ground arith in
      let end : (pos + 2) % 2 ^ 32 ≡ pos + 2 = omega arith in
      let lf : at_tag buf (b'\n' ∷ []) pos m ≡ done false pos m = rw (at_tag, h) in
      let crlf : at_tag buf (b'\r' ∷ b'\n' ∷ []) pos m ≡ done true (pos + 2) m =
        rw (at_tag, h, end) in
      rw (left, more, lf, ◌>>=◌, ◌>>◌) (rw (crlf, ◌>>=◌))

  -- The blank line ends the loop; it may be a line feed alone or with a carriage return.
  round_blank :
      (blank rest : Bytes) (pos : ℕ) (m : HeaderMap)
      → drop pos buf ≡ blank ++ rest
      → IsBlank blank
      → pos + length blank ≤ len
      → header_round buf len pos m ≡ done true (pos + length blank) m
  round_blank blank rest pos m h (inl e) fits =
      rw e (round_lf rest pos m (h ∙ ap (λ b. b ++ rest) e) (rw e at fits))
  round_blank blank rest pos m h (inr e) fits =
      rw e (round_crlf rest pos m (h ∙ ap (λ b. b ++ rest) e) (rw e at fits))

  -- Header lines and a blank line in the first `len` bytes of a block are read to their end, when there
  -- is more fuel than they have bytes: each value is stored under its key, in the order written, and
  -- `pos` goes to the byte behind the blank line.
  pub parse_header_lines :
      (hs : List (Bytes × Bytes)) (blank rest : Bytes) (fuel pos : ℕ) (m : HeaderMap)
      → drop pos buf ≡ header_text hs blank rest
      → AreLines hs
      → IsBlank blank
      → pos + header_size hs + length blank ≤ len
      → header_size hs < fuel
      → parse_header fuel buf len pos m
        ≡ done tt (pos + header_size hs + length blank) (store_all hs m)
  unfolding parse_header
  parse_header_lines hs blank rest zero pos m h lines b fits fuels = absurd (omega arith)
  parse_header_lines [] blank rest (suc fuel) pos m h lines b fits fuels =
      let end : pos + length blank ≡ pos + 0 + length blank = omega arith in
      rw (parse_header, round_blank blank rest pos m h b (omega arith), end)
  parse_header_lines ((key, value) ∷ hs) blank rest (suc fuel) pos m h lines b fits fuels =
      let next = pos + length key + length value + 2 in
      let left = header_text hs blank rest in
      let line = key ++ (b':' ∷ (value ++ b'\n' ∷ [])) in
      let at : drop next buf ≡ left = drop_past buf line left pos next (h ∙ simp append_assoc) (
        omega (
          arith,
          length-append key (b':' ∷ (value ++ b'\n' ∷ [])),
          length-append value (b'\n' ∷ []),
        )) in
      let end : next + header_size hs + length blank
          ≡ pos + header_size ((key, value) ∷ hs) + length blank =
        omega arith in
      rw
        (
          parse_header,
          round_field key value left pos m h lines.0.0 lines.0.1 lines.0.2 (omega arith),
        )
        (parse_header_lines hs blank rest fuel next (insert key value m) at lines.1 b (omega arith)
            (omega arith)
          ∙ ap (λ p. done tt p (store_all hs (insert key value m))) end)
