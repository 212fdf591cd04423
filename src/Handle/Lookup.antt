-- ===== src/Handle/Lookup.antt =====
-- What finding or making the session of a packet, in Handle.cpp, can run into, and what reading its header can.
use http_decoder.Base.{
  ℕ, ◌+◌, ◌%◌, ◌/◌, ◌≤◌, ◌≡◌, inl, inr, refl, arith, Option-cases, none, some, Option, Outcome, ok,
  Bytes, Heap, Sized, AreBytes, load8_total,
}
use http_decoder.Buffer.Growth.{construct-IsKept, limit_room}
use http_decoder.Buffer.Reset.{emptied}
use http_decoder.Buffer.{buffer_size}
use http_decoder.FormatPacket.Layout.{IsView}
use http_decoder.FormatPacket.{CFormatPacket, get_tcphdr, tcp_seq, tcp_ack_seq, tcp_fin, tcp_rst}
use http_decoder.Handle.Aging.{CHandle}
use http_decoder.Handle.Good.{Guards, IsGood, IsGood-cong, AllGood, update-All, reset-IsGood}
use http_decoder.Handle.Guarded.{assign-IsGood}
use http_decoder.Handle.{Env, session_for}
use http_decoder.Public.{reset_result}
use http_decoder.Session.{CSession}
use http_decoder.SessionHash.Reading.{load32_total}
use http_decoder.SessionHash.{
  CBhvInf, CSessionHashTable, Ends, ends_of, find, create, first_same, hash_val, is_same_ses,
  new_session, refreshed,
}

pub ok-Guards : {A : Type 0} (r : Outcome A) (a : A) (P : A → Type 0) → r ≡ ok a → P a → Guards r P
ok-Guards r a P e h = rw e h

find-AllGood :
    {limit : ℕ} (now : ℕ) (e : Ends) (t : CSessionHashTable)
    → AllGood limit t.objects
    → AllGood limit (find now e t).1.objects
unfolding find
find-AllGood {limit} now e t a = go (first_same (is_same_ses e) t.objects (t.cseshash (hash_val e)))
  where
    go : (found : Option ℕ) → AllGood limit (refreshed now t found).1.objects
    go none = a
    go (some id) =
        update-All (IsGood limit) t.objects id _ a (IsGood-cong (t.objects id) _ refl refl (a id))

new_session-IsGood :
    (heap : Heap) {fresh : Bytes} {limit : ℕ} (junk : CSession)
    → Sized heap
    → heap buffer_size ≡ some fresh
    → buffer_size ≤ limit
    → (s : CSession) × (new_session heap junk ≡ ok s) × IsGood limit s
unfolding new_session
new_session-IsGood heap {fresh} {limit} junk sized given h =
    let (made, kept) = construct-IsKept heap sized given limit h in
    let u = record junk {
      req_buf = emptied fresh;
      rsp_buf = emptied fresh;
      result = reset_result junk.result;
    } in
    let (s, reset, good) =
      reset-IsGood heap sized given u (record { request = kept; response = kept }) in
    (s, rw (made, reset) refl, good)

pub session_for-Guards :
    (env : Env) {fresh : Bytes} {limit : ℕ} (p : CFormatPacket) (info : CBhvInf) (e : Ends)
    (h : CHandle)
    → Sized env.heap
    → env.heap buffer_size ≡ some fresh
    → ends_of p ≡ ok e
    → AllGood limit h.ses_hash.objects
    → Guards (session_for env p info e h) (λ r. AllGood limit r.1.ses_hash.objects)
unfolding session_for create
session_for-Guards env {fresh} {limit} p info e h sized given ends a =
    elim (Option-cases (find env.find_time e h.ses_hash).0) [
      | inr (id, found) ↦ rw (session_for, found) (find-AllGood env.find_time e h.ses_hash a)
      | inl missing ↦
          let enough = limit_room (a 0).sound.request in
          let (s, made, good) = new_session-IsGood env.heap env.junk sized given enough in
          let t = (find env.find_time e h.ses_hash).1 in
          rw (session_for, missing)
            (rw (create, made, ends)
              (update-All (IsGood limit) t.objects t.next _
                (find-AllGood env.find_time e h.ses_hash a)
                (assign-IsGood env.create_time info e p s good)))
    ]

module _ (frame : Bytes) (p : CFormatPacket) (w : IsView frame p) (bytes : AreBytes frame) where
  pub tcp_seq_total : (x : ℕ) × (tcp_seq p ≡ ok x)
  unfolding tcp_seq get_tcphdr
  tcp_seq_total =
      let (x, e) = load32_total frame (w.tcp + 4) bytes (omega (arith, w.inside)) in
      (x, rw (w.same_bytes, w.tcp_header, e))

  pub tcp_ack_seq_total : (x : ℕ) × (tcp_ack_seq p ≡ ok x)
  unfolding tcp_ack_seq get_tcphdr
  tcp_ack_seq_total =
      let (x, e) = load32_total frame (w.tcp + 8) bytes (omega (arith, w.inside)) in
      (x, rw (w.same_bytes, w.tcp_header, e))

  pub tcp_fin_total : (x : ℕ) × (tcp_fin p ≡ ok x)
  unfolding tcp_fin get_tcphdr
  tcp_fin_total =
      let (x, e, _) = load8_total frame (w.tcp + 13) bytes (omega (arith, w.inside)) in
      (x % 2, rw (w.same_bytes, w.tcp_header, e))

  pub tcp_rst_total : (x : ℕ) × (tcp_rst p ≡ ok x)
  unfolding tcp_rst get_tcphdr
  tcp_rst_total =
      let (x, e, _) = load8_total frame (w.tcp + 13) bytes (omega (arith, w.inside)) in
      (x / 4 % 2, rw (w.same_bytes, w.tcp_header, e))
