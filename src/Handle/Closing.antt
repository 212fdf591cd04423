-- ===== src/Handle/Closing.antt =====
-- The packet that closes a connection, by `CHandle::Process` of Handle.cpp: what is reported of it.
use http_decoder.Base.{
  ℕ, ◌≡◌, ◌⊎◌, inl, inr, refl, sym, ap, ◌∙◌, arith, true, ◌==◌, ◌||◌, List, [], ◌++◌, Option, some,
  ok, Bytes, Sized, take, bytes_of,
}
use http_decoder.Buffer.Blocks.{IsValid}
use http_decoder.Buffer.{CBuffer, buffer_size, contents}
use http_decoder.FormatPacket.{CFormatPacket, tcp_fin, tcp_rst}
use http_decoder.Handle.Aging.{CHandle, parse_at, parse_in}
use http_decoder.Handle.Carried.{Holds, Carries}
use http_decoder.Handle.Delivery.{IsEarly, Finds, process_opened}
use http_decoder.Handle.Opening.{session_for-found}
use http_decoder.Handle.{Env, session_at, close_session, assemble, process}
use http_decoder.HttpParse.Exchange.{parse}
use http_decoder.HttpParse.HeaderLines.{store_all}
use http_decoder.HttpParse.RoundTrip.{with_request, with_response, parse_exchange}
use http_decoder.HttpParse.Send.{send}
use http_decoder.HttpParse.Written.{
  IsRequest, IsResponse, IsRequest-HoldsRequest, IsResponse-HoldsResponse,
}
use http_decoder.HttpParse.{LexicalCast, get_method, get_version}
use http_decoder.Session.{CSession}
use http_decoder.SessionHash.{CBhvInf, Ends, ends_of, session_ends, remove, update}

-- FIN or RST is set.
pub record IsClosing (p : CFormatPacket) : Type 0 where
  pub fin : ℕ
  pub rst : ℕ
  pub fin_at : tcp_fin p ≡ ok fin
  pub rst_at : tcp_rst p ≡ ok rst
  pub closes : (fin ≡ 1) ⊎ (rst ≡ 1)

closing-flag : {p : CFormatPacket} (w : IsClosing p) → (w.fin == 1 || w.rst == 1) ≡ true
closing-flag w = elim w.closes [ inl fin ↦ rw fin refl | inr rst ↦ ground (arith, rst) ]

-- What a request and a response say, with the numbers of the method, the version and the code.
pub record Exchange (boost : LexicalCast) (request response : Bytes) : Type 0 where
  pub method : Bytes
  pub url : Bytes
  pub version : Bytes
  pub headers : List (Bytes × Bytes)
  pub blank : Bytes
  pub body : Bytes
  pub rsp_version : Bytes
  pub code : Bytes
  pub note : Bytes
  pub rsp_headers : List (Bytes × Bytes)
  pub rsp_blank : Bytes
  pub rsp_body : Bytes
  pub asks : IsRequest request method url version headers blank body
  pub answers : IsResponse response rsp_version code note rsp_headers rsp_blank rsp_body
  pub number : ℕ
  pub v : ℕ
  pub status : ℕ
  pub method_known : get_method method ≡ ok number
  pub version_known : get_version boost version ≡ ok (some v)
  pub same_version : get_version boost rsp_version ≡ ok (some v)
  pub code_known : boost.to_uint32 code ≡ some status

-- The session that `Send` gets: the connection, both messages, and what they say.
pub record Reports (boost : LexicalCast) (s : CSession) (own : Ends) (request response : Bytes)
    (x : Exchange boost request response) : Type 0 where
  pub own_is : session_ends s ≡ own
  pub request_is : contents s.req_buf ≡ request
  pub response_is : contents s.rsp_buf ≡ response
  pub method_is : s.result.method ≡ x.number
  pub url_is : s.result.url ≡ x.url
  pub version_is : s.result.version ≡ x.v
  pub code_is : s.result.ret_code ≡ x.status
  pub note_is : s.result.ret_note ≡ x.note
  pub headers_are : s.result.request_header ≡ store_all x.headers []
  pub rsp_headers_are : s.result.response_header ≡ store_all x.rsp_headers []

contents-block : (c : CBuffer) (m : Bytes) → IsValid c m → take c.len m ≡ contents c
contents-block c m v = sym (ap (λ x. take c.len (bytes_of x)) v.block)

module _ (boost : LexicalCast) (env : Env) {fresh : Bytes} (sized : Sized env.heap)
    (given : env.heap buffer_size ≡ some fresh) where
  abbrev reported : CSession → {q r : Bytes} → Exchange boost q r → CSession
  reported s x = record s {
    result =
        with_response (with_request s.result x.number x.url x.v x.headers) x.status x.note
          x.rsp_headers;
  }

  -- `Parse` on a session that holds both messages.
  parse-Reports :
      (s : CSession) (own : Ends) (seq : ℕ) (q r : Bytes)
      → Holds s own seq q r
      → (x : Exchange boost q r)
      → (t : CSession) × (parse boost env.heap s ≡ ok (t, send boost (reported s x)))
        × Reports boost (reported s x) own q r x
  parse-Reports s own seq q r k x =
      let b = k.buffers in
      let asks =
        IsRequest-HoldsRequest b.req_block s.req_buf.len
          (contents-block s.req_buf b.req_block b.req_valid ∙ k.request_is)
          (omega (arith, b.req_valid.fits)) x.asks in
      let answers =
        IsResponse-HoldsResponse b.rsp_block s.rsp_buf.len
          (contents-block s.rsp_buf b.rsp_block b.rsp_valid ∙ k.response_is)
          (omega (arith, b.rsp_valid.fits)) x.answers in
      let (t, e, _) =
        parse_exchange boost env.heap sized given s b asks answers x.method_known x.version_known
          x.same_version x.code_known in
      let u = k.unparsed in
      (
        t,
        e,
        record {
          own_is = k.own_is;
          request_is = k.request_is;
          response_is = k.response_is;
          method_is = refl;
          url_is = ap (λ y. y ++ x.url) u.no_url;
          version_is = refl;
          code_is = refl;
          note_is = ap (λ y. y ++ x.note) u.no_note;
          headers_are = ap (store_all x.headers) u.no_request;
          rsp_headers_are = ap (store_all x.rsp_headers) u.no_response;
        },
      )

  -- A closing packet has the exchange of its session reported, once, and takes the session out.
  pub closing_delivery :
      (p : CFormatPacket) (info : CBhvInf) (h : CHandle) (id seq : ℕ) (e closer own : Ends)
      (q r : Bytes) (sesp : Option ℕ)
      → Carries h id e own seq q r
      → Finds closer h.ses_hash id
      → IsEarly env h
      → ends_of p ≡ ok closer
      → IsClosing p
      → (x : Exchange boost q r)
      → (g : CHandle) × (s : CSession) × (process boost env p (some info) h sesp
          ≡ ok (record { handle = g; out = send boost s; value = sesp }))
        × Reports boost s own q r x
  unfolding assemble close_session parse_at parse_in
  closing_delivery p info h id seq e closer own q r sesp k found early ends flag x =
      let (h1, opened, k1, _) = session_for-found env p info e closer own h id seq q r found k in
      let (t, parsed, reports) = parse-Reports (session_at h1 id) own seq q r k1.holds x in
      (
        record h1 {
          ses_hash =
              remove closer (record h1.ses_hash { objects = update h1.ses_hash.objects id t });
        },
        reported (session_at h1 id) x,
        process_opened boost env p info h h1 id seq sesp early ends opened
            ∙ rw (assemble, flag.fin_at, flag.rst_at)
                (rw (closing-flag flag, close_session) (rw (parse_at, parse_in, parsed) refl)),
        reports,
      )
