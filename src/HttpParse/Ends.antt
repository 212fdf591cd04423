-- ===== src/HttpParse/Ends.antt =====
-- What `Parse` of HttpParse.cpp leaves of a session, on each of its ways out.
use http_decoder.Base.{
  ◌≡◌, ◌≤◌, inl, inr, ◌||◌, not, some, List, Outcome, ok, fault, Bytes, Heap, Sized, arith,
  Bool-cases, length, ◌==◌, is_some, bytes_of,
}
use http_decoder.Buffer.{buffer_size}
use http_decoder.HttpParse.Exchange.{parse, both_sides, after_parse}
use http_decoder.HttpParse.Send.{Output, send}
use http_decoder.HttpParse.Steps.{Answer, done, refused, crashed}
use http_decoder.HttpParse.{LexicalCast}
use http_decoder.Public.{CResult}
use http_decoder.Session.Reset.{HasBuffers, IsEmptied, same_identity, reset_session-IsEmptied}
use http_decoder.Session.{CSession}

length-send : (boost : LexicalCast) (s : CSession) → length (send boost s) ≤ 1
unfolding send
length-send boost s = ground arith

-- The end of every call of `Parse` that ends.
pub record Finishes (s : CSession) (t : CSession) (out : List Output) : Type 0 where
  pub emptied : IsEmptied s t
  pub one_record : length out ≤ 1

module _ (boost : LexicalCast) (heap : Heap) {fresh : Bytes} (sized : Sized heap)
    (given : heap buffer_size ≡ some fresh) where
  abbrev Settled : CSession → Outcome (CSession × List Output) → Type 0
  Settled s (ok (t, out)) = Finishes s t out
  Settled s (fault e) = Unit {0}

  after_parse-Settled :
      (s : CSession) (a : Answer CResult (Unit {0}))
      → HasBuffers s
      → Settled s (after_parse boost heap s a)
  unfolding after_parse
  after_parse-Settled s (done u pos r) h =
      let (t, e, emptied) =
        reset_session-IsEmptied heap sized given (record s { result = r })
          (record {
            req_block = h.req_block;
            rsp_block = h.rsp_block;
            req_valid = h.req_valid;
            rsp_valid = h.rsp_valid;
          }) in
      rw e (record {
        emptied = same_identity r emptied;
        one_record = length-send boost (record s { result = r });
      })
  after_parse-Settled s (refused pos r) h =
      let (t, e, emptied) =
        reset_session-IsEmptied heap sized given (record s { result = r })
          (record {
            req_block = h.req_block;
            rsp_block = h.rsp_block;
            req_valid = h.req_valid;
            rsp_valid = h.rsp_valid;
          }) in
      rw e (record { emptied = same_identity r emptied; one_record = omega arith })
  after_parse-Settled s (crashed c) h = tt

  parse-Settled : (s : CSession) → HasBuffers s → Settled s (parse boost heap s)
  unfolding parse
  parse-Settled s h =
      elim (Bool-cases (
        not (is_some s.req_buf.buf)
        || not (is_some s.rsp_buf.buf)
        || s.req_buf.len == 0
        || s.rsp_buf.len == 0)) [
          | inl early ↦
              let (t, e, emptied) = reset_session-IsEmptied heap sized given s h in
              rw (early, e) (record { emptied = emptied; one_record = omega arith })
          | inr full ↦ rw full (
              after_parse-Settled s
                (both_sides boost (bytes_of s.req_buf.buf) s.req_buf.len (bytes_of s.rsp_buf.buf)
                  s.rsp_buf.len s.result)
                h)
        ]

  -- A call of `Parse` that returns, on valid buffers and with memory to give, has emptied both buffers
  -- and the result, whether the session was parsed, refused or not tried, has changed nothing else of
  -- the session, and wrote at most one record.
  pub parse-Finishes :
      (s t : CSession) (out : List Output)
      → HasBuffers s
      → parse boost heap s ≡ ok (t, out)
      → Finishes s t out
  parse-Finishes s t out h e = rw e at (parse-Settled s h)
