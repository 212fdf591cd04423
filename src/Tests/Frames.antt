-- ===== src/Tests/Frames.antt =====
-- FormatPacket.cpp, Receiver.cpp and AppMain.cpp on one frame and the file that holds it.
use http_decoder.Actor.{HttpParser}
use http_decoder.AppMain.{Main, Outside}
use http_decoder.Base.{
  ◌*◌, ◌≡◌, refl, arith, false, [], ◌∷◌, ◌++◌, some, ok, Bytes, codes, replicate, load8, load16,
  AreBytes,
}
use http_decoder.FormatPacket.Layout.{IsView, format-IsView, At, FollowsHeaders}
use http_decoder.FormatPacket.{CFormatPacket, Timeval, format, get_ip_protocol}
use http_decoder.Receiver.Direction.{expected, behavior_info-expected}
use http_decoder.Receiver.{Receiver, behavior_info}
use http_decoder.SessionHash.Reading.{ends_of-IsView}
use http_decoder.SessionHash.{ends_of}
use http_decoder.Tests.Packets.{frame, view, data_packet, data_ends, client_ends, env, handle}

abbrev long_frame : Bytes
long_frame = frame 0x10 (codes "GET a" ++ replicate 40 0) 45

abbrev moment : Timeval
moment = record { tv_sec = 3; tv_usec = 5 }

long_frame-AreBytes : AreBytes long_frame
long_frame-AreBytes = ground arith

format-IsView_example :
    (v : CFormatPacket) × (format long_frame moment ≡ ok v)
    × (w : IsView long_frame v) × FollowsHeaders long_frame v w
format-IsView_example = format-IsView long_frame moment long_frame-AreBytes (omega arith)

abbrev seen : IsView long_frame (view long_frame)
seen = record {
  tcp = 34;
  offset = 40;
  same_bytes = refl;
  ip_header = refl;
  tcp_header = refl;
  inside = omega arith;
  behind_ip = (omega arith, omega arith);
  payload_at = refl;
  short_headers = omega arith;
  rest = refl;
  whole = omega arith;
}

source-At : At long_frame 26 (10 ∷ 0 ∷ 0 ∷ 3 ∷ [])
unfolding load8
source-At = (refl, omega arith, (refl, omega arith, (refl, omega arith, (refl, omega arith, tt))))

destination-At : At long_frame 30 (10 ∷ 0 ∷ 0 ∷ 1 ∷ [])
unfolding load8
destination-At =
    (refl, omega arith, (refl, omega arith, (refl, omega arith, (refl, omega arith, tt))))

source_port-At : At long_frame 34 (4 ∷ 2 ∷ [])
unfolding load8
source_port-At = (refl, omega arith, (refl, omega arith, tt))

destination_port-At : At long_frame 36 (0 ∷ 80 ∷ [])
unfolding load8
destination_port-At = (refl, omega arith, (refl, omega arith, tt))

ends_of-IsView_example :
    ends_of (view long_frame)
    ≡ ok (record { src_ip = 0x0a000003; dst_ip = 0x0a000001; src_port = 1026; dst_port = 80 })
ends_of-IsView_example =
    ends_of-IsView long_frame (view long_frame) seen 10 0 0 3 10 0 0 1 4 2 0 80 source-At
      destination-At source_port-At destination_port-At

protocol_read : get_ip_protocol data_packet ≡ ok 6
unfolding get_ip_protocol load8
protocol_read = refl

behavior_info-expected_example : behavior_info data_packet ≡ ok (expected client_ends 6)
behavior_info-expected_example =
    behavior_info-expected data_packet client_ends 6 data_ends protocol_read

abbrev outside : Outside
outside = record { env = λ i. env; clock = λ i. moment }

abbrev receiver : Receiver
receiver = record { handle = handle; counter = 0 }

abbrev at_end : Main
at_end = record {
  stream = record { tmp1 = long_frame; rest = []; eof = false };
  len = 45;
  rcv = receiver;
  fs = some 0;
  out = [];
}

ethertype_there : load16 long_frame 12 ≡ ok 8
unfolding load8
ethertype_there = refl

total_there : load16 long_frame 16 ≡ ok (45 * 256)
unfolding load8
total_there = refl

abbrev actor : HttpParser
actor = record { rcv = receiver; fs = some 0 }

abbrev junk_bytes : Bytes
junk_bytes = replicate 2000 0
