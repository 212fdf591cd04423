-- ===== src/Receiver/Faults.antt =====
-- What `Receiver::Work` of Receiver.cpp can run into on the bytes of a frame.
use http_decoder.Base.{
  ℕ, ◌+◌, ◌-◌, ◌^◌, ◌≤◌, ◌<◌, ◌≡◌, refl, subst, arith, some, Option, ok, Bytes, Sized, length, drop,
  length-drop, AreBytes, load8_total, ltb, true,
}
use http_decoder.Buffer.{buffer_size}
use http_decoder.FormatPacket.Layout.{IsView, format-IsView, data_len-size}
use http_decoder.FormatPacket.{CFormatPacket, Timeval, format, get_ip_protocol, get_data}
use http_decoder.Handle.Assembly.{IsWhole, size_of}
use http_decoder.Handle.Faults.{process-Guards}
use http_decoder.Handle.Good.{Guards, bind-Guards, AllGood, AllSound}
use http_decoder.Handle.Stored.{AllSound-le}
use http_decoder.Handle.{Env, process}
use http_decoder.HttpParse.{LexicalCast}
use http_decoder.Receiver.Direction.{behavior_info-expected}
use http_decoder.Receiver.{Receiver, behavior_info, handle_message, work}
use http_decoder.SessionHash.Reading.{ends_of_total}

-- The frame has room for the longest headers and ends behind the packet, which covers its headers.
pub record IsCaptured (msg : Bytes) (v : CFormatPacket) : Type 0 where
  pub bytes : AreBytes msg
  pub long : 94 ≤ length msg
  pub payload_start : ℕ
  pub payload_at : v.payload ≡ some payload_start
  pub covered : payload_start ≤ 14 + v.pkt_len
  pub inside : 14 + v.pkt_len ≤ length msg
  pub short : v.pkt_len < 2 ^ 15

format_view :
    (msg : Bytes) (now : Timeval) (v : CFormatPacket)
    → IsCaptured msg v
    → format msg now ≡ ok v
    → IsView msg v
format_view msg now v c e =
    let (v', made, w, _) = format-IsView msg now c.bytes c.long in
    let same : v' ≡ v = cc in subst (IsView msg) same w

view-size :
    (msg : Bytes) (v : CFormatPacket) (c : IsCaptured msg v) (w : IsView msg v)
    → (c.payload_start ≡ 14 + w.offset) × (size_of v ≡ v.pkt_len - w.offset)
view-size msg v c w =
    let start : c.payload_start ≡ 14 + w.offset = cc (c.payload_at, w.payload_at) in
    (start, data_len-size msg v w (omega (arith, start, c.covered)) (omega (arith, c.short)))

view-IsWhole : (msg : Bytes) (v : CFormatPacket) → IsCaptured msg v → IsView msg v → IsWhole v
unfolding get_data
view-IsWhole msg v c w =
    let (start, size) = view-size msg v c w in
    record {
      bytes = drop c.payload_start msg;
      captured = rw (c.payload_at, w.same_bytes) refl;
      enough = omega (arith, start, size, c.inside, c.covered, length-drop c.payload_start msg);
    }

behavior_info_total :
    (msg : Bytes) (v : CFormatPacket)
    → AreBytes msg
    → IsView msg v
    → (i : _) × (behavior_info v ≡ ok i)
unfolding get_ip_protocol
behavior_info_total msg v bytes w =
    let (e, ends) = ends_of_total msg v w bytes in
    let (x, read, _) = load8_total msg 23 bytes (omega (arith, w.inside, w.behind_ip)) in
    (_, behavior_info-expected v e x ends (rw (w.ip_header, w.same_bytes) read))

module _ (boost : LexicalCast) (env : Env) (now : Timeval) {fresh : Bytes} (sized : Sized env.heap)
    (given : env.heap buffer_size ≡ some fresh) (msg : Bytes) (v : CFormatPacket)
    (made : format msg now ≡ ok v) (c : IsCaptured msg v) {limit : ℕ} (low : limit < 2 ^ 31) where
  pub work-Guards :
      (r : Receiver) (sesp : Option ℕ)
      → r.counter + 1 < 2 ^ 31
      → AllGood limit r.handle.ses_hash.objects
      → Guards (work boost env now (some msg) r sesp) (λ n.
        AllSound (limit + 2 ^ 15) n.0.handle.ses_hash.objects × (n.0.counter ≡ r.counter + 1))
  unfolding work handle_message
  work-Guards r sesp counts good =
      let room : ltb (r.counter + 1) (2 ^ 31) ≡ true = ground arith in
      let w = format_view msg now v c made in
      let (i, known) = behavior_info_total msg v c.bytes w in
      let (start, size) = view-size msg v c w in
      let small : size_of v < 2 ^ 15 = omega (arith, size, c.short) in
      rw (work, handle_message, room, made, known)
        (bind-Guards (process boost env v (some i) r.handle sesp) _ _ _
          (process-Guards boost env sized given v (view-IsWhole msg v c w) small low msg (some i)
            r.handle sesp w c.bytes good)
          λ s g. (AllSound-le s.handle.ses_hash.objects (omega arith) g, refl))
