-- ===== src/Receiver/Direction.antt =====
-- The side that `HandleMessage` of Receiver.cpp takes for the server.
use http_decoder.Base.{
  ℕ, ◌≡◌, ap, ◌∙◌, arith, false, Bool-cases, inl, inr, ◌==◌, ◌&&◌, if◌then◌else◌, ok, >>=-eq-ok,
  ntohs, ntohl,
}
use http_decoder.FormatPacket.{
  CFormatPacket, get_dst_ip, get_src_ip, get_dst_port, get_src_port, get_ip_protocol,
}
use http_decoder.Public.{c2s_match, s2c_match}
use http_decoder.Receiver.{behavior_info}
use http_decoder.Session.{CSession}
use http_decoder.SessionHash.Reading.{assign-session_ends}
use http_decoder.SessionHash.{CBhvInf, Ends, swap, ends_of, assign, session_ends}

-- the info that `HandleMessage` should make of a packet
abbrev pub expected : Ends → ℕ → CBhvInf
expected e protocol =
    if e.dst_port == 80
    then record {
      ip = e.dst_ip;
      port = e.dst_port;
      behavior_id = protocol;
      idt_match_way = c2s_match;
    }
    else record {
      ip = e.src_ip;
      port = e.src_port;
      behavior_id = protocol;
      idt_match_way = s2c_match;
    }

behavior_info_loads :
    (v : CFormatPacket) (src_ip dst_ip src_port dst_port protocol : ℕ)
    → get_src_ip v ≡ ok src_ip
    → get_dst_ip v ≡ ok dst_ip
    → get_src_port v ≡ ok src_port
    → get_dst_port v ≡ ok dst_port
    → get_ip_protocol v ≡ ok protocol
    → behavior_info v
      ≡ ok (
          expected
            (record {
              src_ip = ntohl src_ip;
              dst_ip = ntohl dst_ip;
              src_port = ntohs src_port;
              dst_port = ntohs dst_port;
            })
            protocol)
unfolding behavior_info
behavior_info_loads v src_ip dst_ip src_port dst_port protocol a b c d read =
    elim (Bool-cases (ntohs dst_port == 80)) [
      | inl to_server ↦ rw (d, to_server, b, read)
      | inr from_server ↦ rw (d, from_server, a, c, read)
    ]

-- Where the ends and the protocol of a packet can be read, a packet to port 80 is taken for one of the
-- client, and its destination for the server. Every other packet is taken for one of the server, which
-- is its source.
pub behavior_info-expected :
    (v : CFormatPacket) (e : Ends) (protocol : ℕ)
    → ends_of v ≡ ok e
    → get_ip_protocol v ≡ ok protocol
    → behavior_info v ≡ ok (expected e protocol)
unfolding ends_of
behavior_info-expected v e protocol ends read =
    let (src_ip, a, more) = >>=-eq-ok (get_src_ip v) _ ends in
    let (dst_ip, b, more') = >>=-eq-ok (get_dst_ip v) _ more in
    let (src_port, c, more'') = >>=-eq-ok (get_src_port v) _ more' in
    let (dst_port, d, last) = >>=-eq-ok (get_dst_port v) _ more'' in
    behavior_info_loads v src_ip dst_ip src_port dst_port protocol a b c d read
    ∙ ap (λ (x : Ends). ok (expected x protocol)) (same_ends last)
  where
    same_ends : {x y : Ends} → ok x ≡ ok y → x ≡ y
    same_ends h = cc

-- So a session that `Create` makes for a packet to port 80 has the destination for its server, and
-- one made for any other packet the source, unless both ends are the same.
pub assign-expected :
    (now protocol : ℕ) (e : Ends) (p : CFormatPacket) (s : CSession)
    → ((e.src_ip == e.dst_ip) && (e.src_port == e.dst_port)) ≡ false
    → session_ends (assign now (expected e protocol) e p s)
      ≡ (if e.dst_port == 80 then swap e else e)
assign-expected now protocol e p s other = elim (Bool-cases (e.dst_port == 80)) [
  | inl to_server ↦ assign-session_ends now (expected e protocol) e p s ∙ ground arith
  | inr from_server ↦ assign-session_ends now (expected e protocol) e p s ∙ ground arith
]
