-- ===== src/Handle/Again.antt =====
-- `CHandle::Process` of Handle.cpp on a packet that comes twice.
use http_decoder.Base.{
  ℕ, ◌≡◌, refl, sym, ap, subst, ◌∙◌, arith, Bool, true, false, Bool-cases, inl, inr, ◌&&◌, List, [],
  ltb, ◌==◌, ==_self, if◌then◌else◌, Outcome, ok, >>=-eq-ok, ◌>>=◌, ntohl, size_of_int16,
}
use http_decoder.Buffer
use http_decoder.Buffer.{CBuffer, get_buf_len}
use http_decoder.FormatPacket.{CFormatPacket, tcp_seq, tcp_ack_seq, get_data_len}
use http_decoder.Handle.Aging.{CHandle, parse_at, parse_in}
use http_decoder.Handle.Invariant.{parse_in-AllKept}
use http_decoder.Handle.Branches.{same_handle}
use http_decoder.Handle.{
  Env, payload_bytes, parse_complete, put_session, session_at, stamp_request, stamp_response,
  client_data, server_data, by_match_way, take_data, continue_session,
}
use http_decoder.HttpParse.Send.{Output}
use http_decoder.HttpParse.{LexicalCast}
use http_decoder.Public.{unk_match, c2s_match, s2c_match}
use http_decoder.Session.{CSession}
use http_decoder.SessionHash.{CBhvInf}

stored_at : (id : ℕ) (s : CSession) (h : CHandle) → session_at (put_session id s h) id ≡ s
stored_at id s h = rw (==_self id)

stamp_request_seq : (p : CFormatPacket) (s : CSession) → (stamp_request p s).seq_no ≡ s.seq_no
stamp_request_seq p s = ground arith

stamp_response_seq : (p : CFormatPacket) (s : CSession) → (stamp_response p s).seq_no ≡ s.seq_no
stamp_response_seq p s = ground arith

same_parsed :
    {h g : CHandle} {o q : List Output}
    → ◌≡◌ {A = Outcome (CHandle × List Output)} (ok (h, o)) (ok (g, q))
    → h ≡ g
same_parsed e = cc

module _ (boost : LexicalCast) (env : Env) (p : CFormatPacket) (id : ℕ) where
  -- The last sequence number of the session stays.
  abbrev SameSeq : CHandle → CHandle → Type 0
  SameSeq h g = (session_at g id).seq_no ≡ (session_at h id).seq_no

  stored-SameSeq :
      (s : CSession) (h m g : CHandle)
      → put_session id s m ≡ g
      → s.seq_no ≡ (session_at m id).seq_no
      → SameSeq h m
      → SameSeq h g
  stored-SameSeq s h m g e f k =
      ap (λ x. (session_at x id).seq_no) (sym e) ∙ ap (λ x. x.seq_no) (stored_at id s m) ∙ f ∙ k

  parse_at-SameSeq :
      (h g : CHandle) (out : List Output) → parse_at boost env.heap id h ≡ ok (g, out) → SameSeq h g
  unfolding parse_at
  parse_at-SameSeq h g out e =
      let ((f, o), parsed, last) = >>=-eq-ok (parse_in boost env.heap id h.ses_hash.objects) _ e in
      let kept = parse_in-AllKept boost env.heap id h.ses_hash.objects f o parsed in
      let same : record h { ses_hash = record h.ses_hash { objects = f } } ≡ g = same_parsed last in
      subst (SameSeq h) same (kept id).same_seq

  parse_complete-SameSeq :
      (h g : CHandle) (out : List Output)
      → parse_complete boost env p id h ≡ ok (g, out)
      → SameSeq h g
  parse_complete-SameSeq h g out e =
      elim (Bool-cases (
        ltb 0 (get_buf_len (session_at h id).req_buf)
        && ltb 0 (get_buf_len (session_at h id).rsp_buf))) [
          | inl full ↦ parse_at-SameSeq h g out (rw full at e)
          | inr open_end ↦ subst (SameSeq h) (same_parsed (rw open_end at e)) refl
        ]

  client_data-SameSeq :
      (h g : CHandle) (out : List Output) (stored : Bool)
      → client_data boost env p id h ≡ ok (g, out, stored)
      → SameSeq h g
  unfolding client_data
  client_data-SameSeq h g out stored e =
      let ((m, o), first, more) = >>=-eq-ok (parse_complete boost env p id h) _ e in
      let s = stamp_request p (session_at m id) in
      let ((b, fits), _, last) =
        >>=-eq-ok
          (Buffer.append env.heap s.req_buf (payload_bytes p) (size_of_int16 (get_data_len p))) _
          more in
      stored-SameSeq (record s { req_buf = b }) h m g (same_handle last)
        (stamp_request_seq p (session_at m id)) (parse_complete-SameSeq h m o first)

  server_data-SameSeq :
      (h g : CHandle) (out : List Output) (stored : Bool)
      → server_data boost env p id h ≡ ok (g, out, stored)
      → SameSeq h g
  unfolding server_data
  server_data-SameSeq h g out stored e =
      let s = stamp_response p (session_at h id) in
      let ((b, fits), _, last) =
        >>=-eq-ok
          (Buffer.append env.heap s.rsp_buf (payload_bytes p) (size_of_int16 (get_data_len p))) _
          e in
      stored-SameSeq (record s { rsp_buf = b }) h h g (same_handle last)
        (stamp_response_seq p (session_at h id)) refl

  by_match_way-SameSeq :
      (way : ℕ) (h g : CHandle) (out : List Output) (stored : Bool)
      → by_match_way boost env p id way h ≡ ok (g, out, stored)
      → SameSeq h g
  unfolding by_match_way
  by_match_way-SameSeq way h g out stored e = elim (Bool-cases (way == unk_match)) [
    | inl a ↦ subst (SameSeq h) (same_handle (rw a at e)) refl
    | inr a' ↦ elim (Bool-cases (way == c2s_match)) [
      | inl b ↦ client_data-SameSeq h g out stored (rw (a', b) at e)
      | inr b' ↦ elim (Bool-cases (way == s2c_match)) [
        | inl c ↦ server_data-SameSeq h g out stored (rw (a', b', c) at e)
        | inr c' ↦ subst (SameSeq h) (same_handle (rw (a', b', c') at e)) refl
      ]
    ]
  ]

  -- When a packet whose data was taken without a fault comes again, it changes nothing and writes
  -- nothing.
  pub take_data-again :
      (info : CBhvInf) (h g : CHandle) (out : List Output) (stored : Bool)
      → take_data boost env p info id h ≡ ok (g, out, stored)
      → continue_session boost env p info id g ≡ ok (g, [], false)
  unfolding take_data continue_session
  take_data-again info h g out stored e =
      let (seq, read, more) = >>=-eq-ok (tcp_seq p) _ e in
      let (ack, _, last) = >>=-eq-ok (tcp_ack_seq p) _ more in
      let s = record (session_at h id) { seq_no = ntohl seq; ack_seq_no = ntohl ack } in
      let kept = by_match_way-SameSeq info.idt_match_way (put_session id s h) g out stored last in
      let number : (session_at g id).seq_no ≡ ntohl seq =
        kept ∙ ap (λ x. x.seq_no) (stored_at id s h) in
      again seq read number
    where
      again :
          (seq : ℕ)
          → tcp_seq p ≡ ok seq
          → (session_at g id).seq_no ≡ ntohl seq
          → (tcp_seq p >>= λ n.
              if (session_at g id).seq_no == ntohl n
              then ok (g, [], false)
              else if get_data_len p == 0
              then ok (g, [], false)
              else take_data boost env p info id g)
            ≡ ok (g, [], false)
      again seq read number =
          let hit : ((session_at g id).seq_no == ntohl seq) ≡ true =
            ap (λ x. x == ntohl seq) number ∙ ==_self (ntohl seq) in
          rw read (rw hit)
