-- ===== src/Handle/Carried.antt =====
-- What a session holds while the messages of its connection come in, by `CHandle::Process` of Handle.cpp.
use http_decoder.Base.{
  ℕ, ◌≡◌, refl, sym, ap, subst, ◌∙◌, inl, inr, Bool-cases, ◌==◌, ==_self, ◌&&◌, [], ◌++◌, Bytes,
  length,
}
use http_decoder.Buffer.Blocks.{IsValid}
use http_decoder.Buffer.{CBuffer, contents, get_buf_len}
use http_decoder.FormatPacket.{CFormatPacket}
use http_decoder.Handle.Aging.{CHandle}
use http_decoder.Handle.Assembly.{length-contents}
use http_decoder.Handle.Delivery.{Finds, Finds-put_session}
use http_decoder.Handle.{put_session, session_at, stamp_request, stamp_response}
use http_decoder.Public.{CResult}
use http_decoder.Session.Reset.{HasBuffers}
use http_decoder.Session.{CSession}
use http_decoder.SessionHash.{Ends, session_ends}

-- nothing of a message is in the result
pub record IsUnparsed (r : CResult) : Type 0 where
  pub no_url : r.url ≡ []
  pub no_note : r.ret_note ≡ []
  pub no_request : r.request_header ≡ []
  pub no_response : r.response_header ≡ []

-- The session of a connection, with what has come from the client and from the server.
pub record Holds (s : CSession) (own : Ends) (seq : ℕ) (request response : Bytes) : Type 0 where
  pub buffers : HasBuffers s
  pub request_is : contents s.req_buf ≡ request
  pub response_is : contents s.rsp_buf ≡ response
  pub seq_is : s.seq_no ≡ seq
  pub own_is : session_ends s ≡ own
  pub unparsed : IsUnparsed s.result

-- `Find` gives a session that holds this.
pub record Carries (h : CHandle) (id : ℕ) (e own : Ends) (seq : ℕ) (request response : Bytes)
    : Type 0 where
  pub found : Finds e h.ses_hash id
  pub holds : Holds (session_at h id) own seq request response

pub at_put : (id : ℕ) (s : CSession) (h : CHandle) → session_at (put_session id s h) id ≡ s
at_put id s h = rw (==_self id) refl

stamp_response-IsUnparsed :
    (p : CFormatPacket) (s : CSession)
    → IsUnparsed s.result
    → IsUnparsed (stamp_response p s).result
      × (session_ends (stamp_response p s) ≡ session_ends s)
      × ((stamp_response p s).seq_no ≡ s.seq_no)
      × ((stamp_response p s).req_buf ≡ s.req_buf)
stamp_response-IsUnparsed p s u =
    elim (Bool-cases (get_buf_len s.rsp_buf == 0 && s.result.response_time_stamp == 0)) [
      | inl first ↦ rw first (
        record {
          no_url = u.no_url;
          no_note = u.no_note;
          no_request = u.no_request;
          no_response = u.no_response;
        },
        refl,
        refl,
        refl,
      )
      | inr later ↦ rw later (u, refl, refl, refl)
    ]

stamp_request-IsUnparsed :
    (p : CFormatPacket) (s : CSession)
    → IsUnparsed s.result
    → IsUnparsed (stamp_request p s).result
      × (session_ends (stamp_request p s) ≡ session_ends s)
      × ((stamp_request p s).seq_no ≡ s.seq_no)
      × ((stamp_request p s).rsp_buf ≡ s.rsp_buf)
stamp_request-IsUnparsed p s u =
    elim (Bool-cases (get_buf_len s.req_buf == 0 && s.result.request_time_stamp == 0)) [
      | inl first ↦ rw first (
        record {
          no_url = u.no_url;
          no_note = u.no_note;
          no_request = u.no_request;
          no_response = u.no_response;
        },
        refl,
        refl,
        refl,
      )
      | inr later ↦ rw later (u, refl, refl, refl)
    ]

pub add_request :
    (p : CFormatPacket) (s : CSession) (own : Ends) (seq : ℕ) (q r more : Bytes) (c : CBuffer)
    (n : Bytes)
    → Holds s own seq q r
    → IsValid c n
    → contents c ≡ contents s.req_buf ++ more
    → Holds (record (stamp_request p s) { req_buf = c }) own seq (q ++ more) r
add_request p s own seq q r more c n k v held =
    let (unparsed, same, order, buffer) = stamp_request-IsUnparsed p s k.unparsed in
    record {
      buffers = record {
        req_block = n;
        rsp_block = k.buffers.rsp_block;
        req_valid = v;
        rsp_valid = subst (λ b. IsValid b k.buffers.rsp_block) (sym buffer) k.buffers.rsp_valid;
      };
      request_is = held ∙ ap (λ x. x ++ more) k.request_is;
      response_is = ap contents buffer ∙ k.response_is;
      seq_is = order ∙ k.seq_is;
      own_is = same ∙ k.own_is;
      unparsed = unparsed;
    }

-- An append of the server's bytes to what a session holds.
pub add_response :
    (p : CFormatPacket) (s : CSession) (own : Ends) (seq : ℕ) (q r more : Bytes) (c : CBuffer)
    (n : Bytes)
    → Holds s own seq q r
    → IsValid c n
    → contents c ≡ contents s.rsp_buf ++ more
    → Holds (record (stamp_response p s) { rsp_buf = c }) own seq q (r ++ more)
add_response p s own seq q r more c n k v held =
    let (unparsed, same, order, buffer) = stamp_response-IsUnparsed p s k.unparsed in
    record {
      buffers = record {
        req_block = k.buffers.req_block;
        rsp_block = n;
        req_valid = subst (λ b. IsValid b k.buffers.req_block) (sym buffer) k.buffers.req_valid;
        rsp_valid = v;
      };
      request_is = ap contents buffer ∙ k.request_is;
      response_is = held ∙ ap (λ x. x ++ more) k.response_is;
      seq_is = order ∙ k.seq_is;
      own_is = same ∙ k.own_is;
      unparsed = unparsed;
    }

-- Only these fields matter.
pub Holds-cong :
    {own : Ends} {seq : ℕ} {q r : Bytes} (s t : CSession)
    → Holds s own seq q r
    → s.req_buf ≡ t.req_buf
    → s.rsp_buf ≡ t.rsp_buf
    → session_ends s ≡ session_ends t
    → s.result ≡ t.result
    → Holds t own t.seq_no q r
Holds-cong s t k same same' ends result = record {
  buffers = record {
    req_block = k.buffers.req_block;
    rsp_block = k.buffers.rsp_block;
    req_valid = subst (λ b. IsValid b k.buffers.req_block) same k.buffers.req_valid;
    rsp_valid = subst (λ b. IsValid b k.buffers.rsp_block) same' k.buffers.rsp_valid;
  };
  request_is = ap contents (sym same) ∙ k.request_is;
  response_is = ap contents (sym same') ∙ k.response_is;
  seq_is = refl;
  own_is = sym ends ∙ k.own_is;
  unparsed = subst IsUnparsed result k.unparsed;
}

-- A session of the same ends takes the place of the one that is found.
pub put-Carries :
    (h : CHandle) (id : ℕ) (e own : Ends) (seq : ℕ) (q r : Bytes) (s : CSession)
    → Finds e h.ses_hash id
    → session_ends s ≡ session_ends (session_at h id)
    → Holds s own seq q r
    → Carries (put_session id s h) id e own seq q r
put-Carries h id e own seq q r s found same k = record {
  found = Finds-put_session e h id s same found;
  holds = subst (λ s. Holds s own seq q r) (sym (at_put id s h)) k;
}

pub length-held :
    (s : CSession) {own : Ends} {seq : ℕ} {q r : Bytes}
    → Holds s own seq q r
    → (s.req_buf.len ≡ length q) × (s.rsp_buf.len ≡ length r)
length-held s k = (
  sym (length-contents s.req_buf k.buffers.req_block k.buffers.req_valid) ∙ ap length k.request_is,
  sym (length-contents s.rsp_buf k.buffers.rsp_block k.buffers.rsp_valid) ∙ ap length k.response_is,
)
