-- ===== src/Tests/Closing.antt =====
-- Handle.cpp and Receiver.cpp on a packet with FIN, for sessions whose request has a method that is not known.
use http_decoder.Base.{
  ◌+◌, inl, ◌≡◌, ◌⊎◌, refl, arith, none, some, Option, ok, Bytes, codes, ℕ, AreBytes,
}
use http_decoder.FormatPacket.Layout.{IsView}
use http_decoder.FormatPacket.{get_data, get_data_len}
use http_decoder.Handle.Aging.{CHandle, Step}
use http_decoder.Handle.Assembly.{IsWhole, size_of}
use http_decoder.Handle.Faults.{process_ends}
use http_decoder.Handle.Good.{IsGood, AllSound, Meets}
use http_decoder.Handle.{process}
use http_decoder.Tests.Packets.{frame, fin_packet, env, handle, to_server}
use http_decoder.Tests.Reads.{patch, patched}
use http_decoder.Tests.Setting.{zeroed-Sized, casts, response, filled-IsKept}

abbrev fin_frame : Bytes
fin_frame = frame 0x11 (codes "GET a") 45

seen : IsView fin_frame fin_packet
seen = record {
  tcp = 34;
  offset = 40;
  same_bytes = refl;
  ip_header = refl;
  tcp_header = refl;
  inside = omega arith;
  behind_ip = (omega arith, omega arith);
  payload_at = refl;
  short_headers = omega arith;
  rest = refl;
  whole = omega arith;
}

fin_frame-AreBytes : AreBytes fin_frame
fin_frame-AreBytes = ground arith

whole : IsWhole fin_packet
unfolding get_data get_data_len
whole = record { bytes = codes "GET a"; captured = refl; enough = omega arith }

patched-IsGood : IsGood 2048 patched
patched-IsGood = record {
  sound = record {
    request = filled-IsKept patch (omega arith);
    response = filled-IsKept response (omega arith);
  };
  calm = inl (omega arith);
}

abbrev patched_handle : CHandle
patched_handle = record handle { ses_hash = record handle.ses_hash { objects = λ id. patched } }

size : size_of fin_packet ≡ 5
unfolding get_data_len
size = refl

process_ends_example :
    ((r : Step (Option ℕ)) × (process casts env fin_packet (some to_server) patched_handle none
        ≡ ok r)
      × AllSound (2048 + size_of fin_packet) r.handle.ses_hash.objects)
    ⊎ Meets (process casts env fin_packet (some to_server) patched_handle none)
process_ends_example =
    process_ends casts env fin_frame fin_packet (some to_server) patched_handle none 2048
      zeroed-Sized refl seen fin_frame-AreBytes whole (omega (arith, size)) (omega arith)
      (λ id. patched-IsGood)
