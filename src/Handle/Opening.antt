-- ===== src/Handle/Opening.antt =====
-- The session that `CHandle::Process` of Handle.cpp makes for a connection, and the one that it finds.
use http_decoder.Base.{
  ℕ, ◌%◌, ◌^◌, ◌≡◌, refl, sym, ap, subst, ◌∙◌, inl, inr, [], Option, none, some, ok, Bytes, Heap,
  Sized, if◌then◌else◌, ◌==◌, ==_self, ◌&&◌, Bool-cases,
}
use http_decoder.Buffer.Reset.{emptied, construct-IsValid}
use http_decoder.Buffer.{buffer_size}
use http_decoder.FormatPacket.{CFormatPacket}
use http_decoder.Handle.Aging.{CHandle}
use http_decoder.Handle.Carried.{Holds, Carries, Holds-cong, put-Carries}
use http_decoder.Handle.Delivery.{Finds, session_for-Finds}
use http_decoder.Handle.{Env, session_at, session_for, put_session}
use http_decoder.Public.{reset_result}
use http_decoder.Session.Reset.{HasBuffers, reset_session-IsEmptied}
use http_decoder.Session.{CSession}
use http_decoder.SessionHash.AsMap.{find_first}
use http_decoder.SessionHash.Insertion.{create-find, find-swap}
use http_decoder.SessionHash.Operations.{find-none, find-none_inv}
use http_decoder.SessionHash.Reading.{assign-session_ends}
use http_decoder.SessionHash.Table.{IsValid}
use http_decoder.SessionHash.{
  CBhvInf, Ends, CSessionHashTable, swap, session_ends, ends_of, find, create, new_session, assign,
  inserted,
}

-- the ends of a new session: the side that the info names is the server
abbrev pub own_ends : CBhvInf → Ends → Ends
own_ends info e = if info.ip == e.src_ip && info.port == e.src_port then e else swap e

pub Finds-swap : (e : Ends) (t : CSessionHashTable) (id : ℕ) → Finds e t id → Finds (swap e) t id
Finds-swap e t id found =
    sym (find_first 0 (swap e) t)
    ∙ ap (λ (r : Option ℕ × CSessionHashTable). r.0) (find-swap 0 e t)
    ∙ find_first 0 e t
    ∙ found

new_session-Holds :
    (heap : Heap) {fresh : Bytes} (junk : CSession)
    → Sized heap
    → heap buffer_size ≡ some fresh
    → (s : CSession) × (new_session heap junk ≡ ok s) × Holds s (session_ends s) junk.seq_no [] []
unfolding new_session
new_session-Holds heap {fresh} junk sized given =
    let (made, valid) = construct-IsValid heap sized given in
    let u = record junk {
      req_buf = emptied fresh;
      rsp_buf = emptied fresh;
      result = reset_result junk.result;
    } in
    let b : HasBuffers u = record {
      req_block = fresh;
      rsp_block = fresh;
      req_valid = valid;
      rsp_valid = valid;
    } in
    let (s, reset, w) = reset_session-IsEmptied heap sized given u b in
    let result : s.result ≡ reset_result junk.result = ap (λ (x : CSession). x.result) w.kept in
    (
      s,
      rw (made, reset) refl,
      record {
        buffers = w.buffers;
        request_is = rw w.no_request refl;
        response_is = rw w.no_response refl;
        seq_is = ap (λ (x : CSession). x.seq_no) w.kept;
        own_is = refl;
        unparsed =
            rw result
              (record { no_url = refl; no_note = refl; no_request = refl; no_response = refl });
      },
    )

assign-kept :
    (now : ℕ) (info : CBhvInf) (e : Ends) (p : CFormatPacket) (s : CSession)
    → ((assign now info e p s).seq_no ≡ s.seq_no)
      × ((assign now info e p s).req_buf ≡ s.req_buf)
      × ((assign now info e p s).rsp_buf ≡ s.rsp_buf)
      × ((assign now info e p s).result ≡ s.result)
unfolding assign
assign-kept now info e p s = elim (Bool-cases (info.ip == e.src_ip && info.port == e.src_port)) [
  | inl here ↦ rw here (refl, refl, refl, refl)
  | inr there ↦ rw there (refl, refl, refl, refl)
]

assign-Holds :
    (now : ℕ) (info : CBhvInf) (e : Ends) (p : CFormatPacket) (s : CSession) (seq : ℕ)
    → Holds s (session_ends s) seq [] []
    → Holds (assign now info e p s) (own_ends info e) seq [] []
assign-Holds now info e p s seq k =
    let own = assign-session_ends now info e p s in
    let (seq', req, rsp, result) = assign-kept now info e p s in
    record {
      buffers = record {
        req_block = k.buffers.req_block;
        rsp_block = k.buffers.rsp_block;
        req_valid = rw req k.buffers.req_valid;
        rsp_valid = rw rsp k.buffers.rsp_valid;
      };
      request_is = rw req k.request_is;
      response_is = rw rsp k.response_is;
      seq_is = seq' ∙ k.seq_is;
      own_is = own;
      unparsed = rw result k.unparsed;
    }

-- Where none is found, a new session is made that holds nothing yet.
pub session_for-new :
    (env : Env) {fresh : Bytes} (p : CFormatPacket) (info : CBhvInf) (e : Ends) (h : CHandle)
    → Sized env.heap
    → env.heap buffer_size ≡ some fresh
    → ends_of p ≡ ok e
    → IsValid h.ses_hash
    → (find env.find_time e h.ses_hash).0 ≡ none
    → (h1 : CHandle) × (session_for env p info e h ≡ ok (h.ses_hash.next, h1))
      × Carries h1 h.ses_hash.next e (own_ends info e) env.junk.seq_no [] []
      × (h1.last_time_out_check ≡ h.last_time_out_check)
unfolding session_for create
session_for-new env p info e h sized given ends valid missing =
    let t = h.ses_hash in
    let (blank, made, k) = new_session-Holds env.heap env.junk sized given in
    let s = assign env.create_time info e p blank in
    let created : create env.heap env.junk env.create_time p info t ≡ ok (t.next, inserted s t) =
      rw (create, made, ends) refl in
    let unfound = find-none env.find_time e t (find-none_inv env.find_time e t missing) in
    let unchanged = ap (λ (r : Option ℕ × CSessionHashTable). r.1) unfound in
    let missing' = find-none env.create_time e t (find-none_inv env.find_time e t missing) in
    let (_, found, _, _) =
      create-find env.heap env.junk env.create_time 0 p info e t valid ends
        (ap (λ (r : Option ℕ × CSessionHashTable). r.0) missing') created in
    let h1 = record h { ses_hash = inserted s t } in
    let held = assign-Holds env.create_time info e p blank env.junk.seq_no k in
    (
      h1,
      rw (session_for, missing, unchanged) (rw created refl),
      record {
        found = sym (find_first 0 e (inserted s t)) ∙ found;
        holds = rw (==_self t.next) held;
      },
      refl,
    )

-- A session that is found keeps what it holds.
pub session_for-found :
    (env : Env) (p : CFormatPacket) (info : CBhvInf) (e e' own : Ends) (h : CHandle) (id seq : ℕ)
    (q r : Bytes)
    → Finds e' h.ses_hash id
    → Carries h id e own seq q r
    → (h1 : CHandle) × (session_for env p info e' h ≡ ok (id, h1))
      × Carries h1 id e own seq q r
      × (h1.last_time_out_check ≡ h.last_time_out_check)
session_for-found env p info e e' own h id seq q r found k =
    let s = session_at h id in
    let s1 = record s { refresh_time = env.find_time % 2 ^ 32 } in
    let held =
      subst (λ n. Holds s1 own n q r) k.holds.seq_is
        (Holds-cong s s1 k.holds refl refl refl refl) in
    (
      put_session id s1 h,
      session_for-Finds env p info e' h id found,
      put-Carries h id e own seq q r s1 k.found refl held,
      refl,
    )
