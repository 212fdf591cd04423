-- ===== src/AppMain/Sessions.antt =====
-- The table of sessions through the rounds of the loop in AppMain.cpp and http_parser.cpp.
use http_decoder.AppMain.{
  Main, Outside, ethertype_ip, ethertype_ipv6, payload_size, hand_over, read_ip, read_ipv6, round,
  frames,
}
use http_decoder.AppMain.Progress.{frames_marked, frames-round}
use http_decoder.AppMain.Reading.{fread}
use http_decoder.Base.{
  ℕ, zero, suc, ◌≡◌, inl, inr, ap, subst, Bool-cases, Option, none, some, ◌==◌, ok, >>=-eq-ok,
  ntohs, load16, Bytes, List,
}
use http_decoder.FormatPacket.{Timeval, format}
use http_decoder.Handle.Aging.{CHandle, Step}
use http_decoder.Handle.Process.{process-IsValid}
use http_decoder.Handle.{Env}
use http_decoder.HttpParse.Send.{Output}
use http_decoder.HttpParse.{LexicalCast}
use http_decoder.Receiver.{Receiver, behavior_info, handle_message, work, count_frame}
use http_decoder.SessionHash.Table.{IsValid}

-- the table of a receiver's handle
abbrev pub ValidSessions : Receiver → Type 0
ValidSessions r = IsValid r.handle.ses_hash

module _ (boost : LexicalCast) where
  handle_message-IsValid :
      (env : Env) (now : Timeval) (msg : Option Bytes) (h : CHandle) (sesp : Option ℕ)
      (r : Step (Option ℕ))
      → handle_message boost env now msg h sesp ≡ ok r
      → IsValid h.ses_hash
      → IsValid r.handle.ses_hash
  unfolding handle_message
  handle_message-IsValid env now none h sesp r e v =
      let same : h ≡ r.handle = cc in subst (λ (x : CHandle). IsValid x.ses_hash) same v
  handle_message-IsValid env now (some msg) h sesp r e v =
      let (packet, _, more) = >>=-eq-ok (format msg now) _ e in
      let (info, _, last) = >>=-eq-ok (behavior_info packet) _ more in
      process-IsValid boost env packet h sesp r (some info) last v

  work-ValidSessions :
      (env : Env) (now : Timeval) (msg : Option Bytes) (rcv rcv' : Receiver) (sesp fs : Option ℕ)
      (out : List Output)
      → work boost env now msg rcv sesp ≡ ok (rcv', out, fs)
      → ValidSessions rcv
      → ValidSessions rcv'
  unfolding work
  work-ValidSessions env now msg rcv rcv' sesp fs out e v =
      let (_, _, more) = >>=-eq-ok (count_frame rcv.counter) _ e in
      let (s, done, last) = >>=-eq-ok (handle_message boost env now msg rcv.handle sesp) _ more in
      let same : s.handle ≡ rcv'.handle = cc in
      subst (λ (x : CHandle). IsValid x.ses_hash) same
        (handle_message-IsValid env now msg rcv.handle sesp s done v)

same_main : {x y : Main} → ok x ≡ ok y → x ≡ y
same_main h = cc

module _ (boost : LexicalCast) (outside : Outside) where
  hand_over-ValidSessions :
      (i : ℕ) (m n : Main)
      → hand_over boost outside i m ≡ ok n
      → ValidSessions m.rcv
      → ValidSessions n.rcv
  unfolding hand_over
  hand_over-ValidSessions i m n e v =
      let ((rcv, out, fs), done, last) =
        >>=-eq-ok (work boost (outside.env i) (outside.clock i) (some m.stream.tmp1) m.rcv m.fs) _
          e in
      let same : rcv ≡ n.rcv = ap (λ (x : Main). x.rcv) (same_main last) in
      subst ValidSessions same (
        work-ValidSessions boost (outside.env i) (outside.clock i) (some m.stream.tmp1) m.rcv rcv
          m.fs fs out done v)

  read_ip-ValidSessions :
      (i : ℕ) (m n : Main)
      → read_ip boost outside i m ≡ ok n
      → ValidSessions m.rcv
      → ValidSessions n.rcv
  unfolding read_ip
  read_ip-ValidSessions i m n e v =
      let (s, _, more) = >>=-eq-ok (fread 14 20 m.stream) _ e in
      let (total, _, more') = >>=-eq-ok (load16 s.tmp1 16) _ more in
      let (s', _, last) = >>=-eq-ok (fread 34 (payload_size (ntohs total)) s) _ more' in
      hand_over-ValidSessions i (record m { stream = s'; len = ntohs total }) n last v

  read_ipv6-ValidSessions :
      (i : ℕ) (m n : Main)
      → read_ipv6 boost outside i m ≡ ok n
      → ValidSessions m.rcv
      → ValidSessions n.rcv
  unfolding read_ipv6
  read_ipv6-ValidSessions i m n e v =
      let (s, _, more) = >>=-eq-ok (fread 14 40 m.stream) _ e in
      let (total, _, more') = >>=-eq-ok (load16 s.tmp1 18) _ more in
      let (s', _, last) = >>=-eq-ok (fread 54 (ntohs total) s) _ more' in
      hand_over-ValidSessions i (record m { stream = s'; len = ntohs total }) n last v

  round-ValidSessions :
      (i : ℕ) (m n : Main)
      → round boost outside i m ≡ ok n
      → ValidSessions m.rcv
      → ValidSessions n.rcv
  unfolding round
  round-ValidSessions i m n e v =
      let (s, _, more) = >>=-eq-ok (fread 0 14 m.stream) _ e in
      let (ether_type, _, last) = >>=-eq-ok (load16 s.tmp1 12) _ more in
      elim (Bool-cases (ntohs ether_type == ethertype_ip)) [
        | inl ip ↦ read_ip-ValidSessions i (record m { stream = s }) n (rw ip at last) v
        | inr other ↦ elim (Bool-cases (ether_type == ethertype_ipv6)) [
          | inl ipv6 ↦
              read_ipv6-ValidSessions i (record m { stream = s }) n (rw (other, ipv6) at last) v
          | inr skipped ↦
              let same : m.rcv ≡ n.rcv =
                ap (λ (x : Main). x.rcv) (same_main (rw (other, skipped) at last)) in
              subst ValidSessions same v
        ]
      ]

  -- The loop keeps the table valid, however long it runs.
  pub frames-ValidSessions :
      (fuel i : ℕ) (m n : Main)
      → frames boost outside fuel i m ≡ ok n
      → ValidSessions m.rcv
      → ValidSessions n.rcv
  unfolding frames
  frames-ValidSessions zero i m n e v = cc
  frames-ValidSessions (suc fuel) i m n e v = elim (Bool-cases m.stream.eof) [
    | inl mark ↦
        let same : m ≡ n = same_main (rw (frames_marked boost outside fuel i m mark) at e) in
        subst (λ (x : Main). ValidSessions x.rcv) same v
    | inr more ↦
        let (q, first, rest) =
          >>=-eq-ok (round boost outside i m) _
            (rw (frames-round boost outside fuel i m more) at e) in
        frames-ValidSessions fuel (suc i) q n rest (round-ValidSessions i m q first v)
  ]
