-- ===== src/Session/Reset.antt =====
-- `CSession::Reset` of SessionHash.h.
use http_decoder.Base.{◌≡◌, inl, inr, refl, some, ok, Bytes, Heap, Sized}
use http_decoder.Buffer
use http_decoder.Buffer.{CBuffer, buffer_size}
use http_decoder.Buffer.Blocks.{IsValid}
use http_decoder.Buffer.Reset.{reset-IsValid}
use http_decoder.Public.{CResult, reset_result}
use http_decoder.Session.{CSession, reset_session}

-- Both buffers are inside their blocks.
pub record HasBuffers (s : CSession) : Type 0 where
  pub req_block : Bytes
  pub rsp_block : Bytes
  pub req_valid : IsValid s.req_buf req_block
  pub rsp_valid : IsValid s.rsp_buf rsp_block

-- `t` is `s` with empty buffers and a blank result, and no other change.
pub record IsEmptied (s t : CSession) : Type 0 where
  pub buffers : HasBuffers t
  pub no_request : t.req_buf.len ≡ 0
  pub no_response : t.rsp_buf.len ≡ 0
  pub kept :
      t ≡ record s { req_buf = t.req_buf; rsp_buf = t.rsp_buf; result = reset_result s.result }

-- What the result holds does not matter to what a reset keeps.
pub same_identity :
    {s t : CSession} (r : CResult) → IsEmptied (record s { result = r }) t → IsEmptied s t
same_identity r e = record {
  buffers = e.buffers;
  no_request = e.no_request;
  no_response = e.no_response;
  kept = e.kept;
}

module _ (heap : Heap) {fresh : Bytes} (sized : Sized heap)
    (given : heap buffer_size ≡ some fresh) where
  buffer_reset :
      {b : CBuffer} {m : Bytes}
      → IsValid b m
      → (c : CBuffer) × (n : Bytes) × (Buffer.reset heap b ≡ ok c)
        × IsValid c n
        × (c.len ≡ 0)
        × (c.free ≡ buffer_size)
  buffer_reset v = elim (reset-IsValid heap sized v) [
    | inl (_, none_left) ↦ absurd (cc)
    | inr r ↦ r
  ]

  -- With memory to give, a reset of a session with valid buffers succeeds, empties both buffers and the
  -- result, and keeps all other fields.
  pub reset_session-IsEmptied :
      (s : CSession) → HasBuffers s → (t : CSession) × (reset_session heap s ≡ ok t) × IsEmptied s t
  unfolding reset_session
  reset_session-IsEmptied s h =
      let (q, n, e, v, zero_q, _) = buffer_reset h.req_valid in
      let (p, n', e', v', zero_p, _) = buffer_reset h.rsp_valid in
      (
        record s { req_buf = q; rsp_buf = p; result = reset_result s.result },
        rw (e, e'),
        record {
          buffers = record { req_block = n; rsp_block = n'; req_valid = v; rsp_valid = v' };
          no_request = zero_q;
          no_response = zero_p;
          kept = refl;
        },
      )
