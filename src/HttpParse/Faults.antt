-- ===== src/HttpParse/Faults.antt =====
-- What a call of `Parse` in HttpParse.cpp can run into.
use http_decoder.Base.{
  ℕ, ◌^◌, ◌<◌, ◌≡◌, ◌⊎◌, inl, inr, ap, ◌∙◌, arith, not, ◌||◌, is_some, bytes_of, Bool-cases, List,
  some, ◌==◌, Outcome, ok, fault, Fault, no_return, bad_conversion, Bytes, Heap, Sized, length,
}
use http_decoder.Buffer.{buffer_size}
use http_decoder.HttpParse.Bounds.{IsTame}
use http_decoder.Buffer.Blocks.{HasRoom}
use http_decoder.HttpParse.Exchange.{long_enough, both_sides, after_parse, parse}
use http_decoder.HttpParse.InsideHeaders.{Safe, request-Safe, response-Safe}
use http_decoder.HttpParse.Returns.{parse-ne-diverges}
use http_decoder.HttpParse.Send.{Output}
use http_decoder.HttpParse.Sides.{parse_request, parse_response}
use http_decoder.HttpParse.Steps.{Answer, done, refused, crashed}
use http_decoder.HttpParse.{LexicalCast}
use http_decoder.Public.{CResult}
use http_decoder.Session.Reset.{HasBuffers, reset_session-IsEmptied}
use http_decoder.Session.{CSession}

both_sides-Safe :
    (boost : LexicalCast) (req rsp : Bytes) (m n : ℕ) (r : CResult)
    → length req < 2 ^ 31
    → length rsp < 2 ^ 31
    → m < length req
    → HasRoom rsp n
    → Safe (both_sides boost req m rsp n r)
unfolding both_sides
both_sides-Safe boost req rsp m n r h k spare room =
    go (long_enough boost (parse_request boost) req m r) (request-Safe boost req m h r spare)
  where
    go :
        (x : Answer CResult (Unit {0}))
        → Safe x
        → Safe (elim x [
          | done u pos r' ↦ long_enough boost (parse_response boost) rsp n r'
          | refused pos r' ↦ refused pos r'
          | crashed e ↦ crashed e
        ])
    go (done u p r') w = response-Safe boost rsp n k r' room
    go (refused p r') w = tt
    go (crashed e) w = w

module _ (boost : LexicalCast) (heap : Heap) {fresh : Bytes} (sized : Sized heap)
    (given : heap buffer_size ≡ some fresh) where
  -- a call that returns, or meets one of the named faults
  abbrev Tamely : Outcome (CSession × List Output) → Type 0
  Tamely (ok r) = Unit {0}
  Tamely (fault e) = IsTame e

  with_result : (s : CSession) (r : CResult) → HasBuffers s → HasBuffers (record s { result = r })
  with_result s r h = record {
    req_block = h.req_block;
    rsp_block = h.rsp_block;
    req_valid = h.req_valid;
    rsp_valid = h.rsp_valid;
  }

  after_parse-Tamely :
      (s : CSession) (a : Answer CResult (Unit {0}))
      → HasBuffers s
      → Safe a
      → Tamely (after_parse boost heap s a)
  unfolding after_parse
  after_parse-Tamely s (done u pos r) h w =
      let (t, e, emptied) =
        reset_session-IsEmptied heap sized given (record s { result = r }) (with_result s r h) in
      rw e tt
  after_parse-Tamely s (refused pos r) h w =
      let (t, e, emptied) =
        reset_session-IsEmptied heap sized given (record s { result = r }) (with_result s r h) in
      rw e tt
  after_parse-Tamely s (crashed c) h w = w

  parse-Tamely :
      (s : CSession) (h : HasBuffers s)
      → length h.req_block < 2 ^ 31
      → length h.rsp_block < 2 ^ 31
      → HasRoom h.rsp_block s.rsp_buf.len
      → Tamely (parse boost heap s)
  unfolding parse
  parse-Tamely s h small small' room =
      elim (Bool-cases (
        not (is_some s.req_buf.buf)
        || not (is_some s.rsp_buf.buf)
        || s.req_buf.len == 0
        || s.rsp_buf.len == 0)) [
          | inl early ↦
              let (t, e, emptied) = reset_session-IsEmptied heap sized given s h in rw (early, e) tt
          | inr full ↦
              let req = ap bytes_of h.req_valid.block in
              let rsp = ap bytes_of h.rsp_valid.block in
              rw (full, req, rsp)
                (after_parse-Tamely s _ h (
                  both_sides-Safe boost h.req_block h.rsp_block s.req_buf.len s.rsp_buf.len s.result
                    small small' (omega (arith, h.req_valid.fits, h.req_valid.spare)) room))
        ]

  -- On valid buffers in blocks shorter than 2 ^ 31, the response's with three bytes or more behind
  -- its contents or with a NUL byte there, and with memory for a new buffer from an allocator that
  -- gives blocks of the size asked for, the only undefined behaviour that `Parse` can meet is the
  -- missing `return` of `GetMethod` and a version that is out of range when converted: it reads
  -- nothing outside of a block and uses no null pointer.
  pub parse_faults :
      (s : CSession) (h : HasBuffers s) (e : Fault)
      → length h.req_block < 2 ^ 31
      → length h.rsp_block < 2 ^ 31
      → HasRoom h.rsp_block s.rsp_buf.len
      → parse boost heap s ≡ fault e
      → (e ≡ no_return) ⊎ (e ≡ bad_conversion)
  parse_faults s h e small small' room f =
      let w = rw f at (parse-Tamely s h small small' room) in
      elim w [
        | inl a ↦ inl a
        | inr (inl b) ↦ inr b
        | inr (inr d) ↦ absurd (
            parse-ne-diverges boost heap s (rw (ap bytes_of h.req_valid.block) small)
              (rw (ap bytes_of h.rsp_valid.block) small') (f ∙ ap fault d))
      ]
