-- ===== src/Tests/Capture.antt =====
-- AppMain.cpp on a capture file with one frame of a client, and Receiver.cpp on its frames.
use http_decoder.AppMain.Capture.{Frame, IsFrame, file_of, overlay}
use http_decoder.AppMain.CaptureEnds.{run_file, run_ends}
use http_decoder.AppMain.CaptureRun.{handed, main_after, last_head, last_len}
use http_decoder.AppMain.{Main, Outside, run, print_response}
use http_decoder.Base.{
  ℕ, zero, suc, ◌+◌, ◌*◌, ◌^◌, ◌≡◌, ◌⊎◌, inl, refl, sym, ◌∙◌, subst, arith, Bool, if◌then◌else◌,
  ◌==◌, true, false, List, [], ◌∷◌, Option, some, ok, ◌>>=◌, Bytes, codes, replicate, drop, take,
  load8, memset_zero, memcpy, length, print_string,
}
use http_decoder.Buffer.Growth.{IsCalm}
use http_decoder.Buffer.{reset, append, get_buf_len, construct, get_buf}
use http_decoder.FormatPacket.{
  format, tcp_fin, tcp_rst, tcp_seq, tcp_ack_seq, get_src_ip, get_dst_ip, get_src_port,
  get_dst_port, get_src_mac, get_dst_mac, get_data, get_data_len, get_packet_time, get_ip_protocol,
}
use http_decoder.Handle.Aging.{time_out_check}
use http_decoder.Handle.Good.{IsSound, AllSound, Meets}
use http_decoder.Handle.{
  process, session_for, assemble, continue_session, take_data, by_match_way, client_data,
  print_buffers,
}
use http_decoder.HttpParse.Send.{Output}
use http_decoder.Receiver.Faults.{IsCaptured}
use http_decoder.Receiver.Runs.{Arrival, IsArrival, AllCalm, StaysCalm, work_all, work_all_ends}
use http_decoder.Receiver.{Receiver, behavior_info, handle_message, work}
use http_decoder.Session.{CSession, reset_session}
use http_decoder.SessionHash.{
  find, create, ends_of, first_same, hash_val, new_session, assign, is_same_ses, faces,
}
use http_decoder.Tests.Packets.{frame, view, env, handle}
use http_decoder.Tests.Setting.{zeroed-Sized, casts, exchange, request, response, filled-IsKept}

abbrev whole_frame : Bytes
whole_frame = frame 0x10 (codes "GET a") 45

abbrev client_frame : Frame
client_frame = record {
  link = take 14 whole_frame;
  ip = take 20 (drop 14 whole_frame);
  payload = drop 34 whole_frame;
}

abbrev empty : Bytes
empty = replicate 100 0

client_frame-IsFrame : IsFrame (length empty) client_frame
unfolding load8
client_frame-IsFrame = record {
  link_length = refl;
  ip_length = refl;
  kind = refl;
  total = 0x2d00;
  total_at = refl;
  total_is = refl;
  fits = omega arith;
}

abbrev outside : Outside
outside = record { env = λ i. env; clock = λ i. record { tv_sec = 3; tv_usec = 5 } }

abbrev receiver : Receiver
receiver = record { handle = handle; counter = 0 }

run_file_example : run casts outside (some (file_of (client_frame ∷ []))) empty 0 receiver 0 ≡ (
    work_all casts (handed outside 0 empty client_frame []) receiver (some 0) >>= λ n.
    print_response casts outside
      (main_after [] (last_head empty client_frame []) (last_len client_frame []) n))
run_file_example =
    run_file casts outside client_frame [] empty 0 receiver 0 (client_frame-IsFrame, tt)

abbrev read : Bytes
read = overlay empty client_frame

read-IsCaptured : IsCaptured read (view read)
read-IsCaptured = record {
  bytes = ground arith;
  long = omega arith;
  payload_start = 54;
  payload_at = refl;
  covered = omega arith;
  inside = omega arith;
  short = omega arith;
}

abbrev arrived : Arrival
arrived = record { env = env; now = record { tv_sec = 3; tv_usec = 5 }; msg = read }

arrived-IsArrival : IsArrival arrived
unfolding format load8
arrived-IsArrival = record {
  sized = zeroed-Sized;
  fresh = replicate 2048 0;
  given = refl;
  view = view read;
  formatted = refl;
  captured = read-IsCaptured;
}

exchange-IsSound : IsSound 2048 exchange
exchange-IsSound = record {
  request = filled-IsKept request (omega arith);
  response = filled-IsKept response (omega arith);
}

abbrev Handled : Type 0
Handled = Receiver × List Output × Option ℕ

abbrev once : (n : Handled) × (work_all casts (arrived ∷ []) receiver (some 0) ≡ ok n)
unfolding work_all work handle_message format load8 behavior_info get_dst_port get_dst_ip
    get_ip_protocol process time_out_check ends_of get_src_ip get_src_port session_for find
    first_same hash_val create new_session construct reset memset_zero reset_session assign
    get_src_mac get_dst_mac assemble tcp_fin tcp_rst continue_session tcp_seq get_data_len take_data
    tcp_ack_seq by_match_way client_data get_buf_len append memcpy get_data get_packet_time
    is_same_ses faces print_buffers print_string get_buf
once = (_, refl)

abbrev twice : (n : Handled) × (work_all casts (arrived ∷ arrived ∷ []) receiver (some 0) ≡ ok n)
unfolding work_all work handle_message format load8 behavior_info get_dst_port get_dst_ip
    get_ip_protocol process time_out_check ends_of get_src_ip get_src_port session_for find
    first_same hash_val create new_session construct reset memset_zero reset_session assign
    get_src_mac get_dst_mac assemble tcp_fin tcp_rst continue_session tcp_seq get_data_len take_data
    tcp_ack_seq by_match_way client_data get_buf_len append memcpy get_data get_packet_time
    is_same_ses faces print_buffers print_string get_buf
twice = (_, refl)

either-IsCalm :
    (b : Bool) (s t : CSession)
    → IsCalm s.rsp_buf
    → IsCalm t.rsp_buf
    → IsCalm (if b then s else t).rsp_buf
either-IsCalm true s t g h = g
either-IsCalm false s t g h = h

once-AllCalm : AllCalm once.0.0
unfolding once
once-AllCalm id = either-IsCalm (1 == id) _ _ (inl (omega arith)) (
    either-IsCalm (1 == id) _ _ (inl (omega arith))
      (either-IsCalm (1 == id) _ _ (inl (omega arith)) (inl (omega arith))))

twice-AllCalm : AllCalm twice.0.0
unfolding twice
twice-AllCalm id = either-IsCalm (1 == id) _ _ (inl (omega arith)) (
    either-IsCalm (1 == id) _ _ (inl (omega arith)) (
      either-IsCalm (1 == id) _ _ (inl (omega arith))
        (either-IsCalm (1 == id) _ _ (inl (omega arith)) (inl (omega arith)))))

same_receiver : {n q : Handled} → ok n ≡ ok q → n.0 ≡ q.0
same_receiver e = cc

stays : StaysCalm casts (arrived ∷ arrived ∷ []) receiver (some 0)
unfolding work_all
stays zero n e = subst AllCalm (same_receiver e) (λ id. inl (omega arith))
stays (suc zero) n e = subst AllCalm (same_receiver (sym once.1 ∙ e)) once-AllCalm
stays (suc (suc zero)) n e = subst AllCalm (same_receiver (sym twice.1 ∙ e)) twice-AllCalm
stays (suc (suc (suc k))) n e = subst AllCalm (same_receiver (sym twice.1 ∙ e)) twice-AllCalm

work_all_ends_example :
    ((n : Receiver × List Output × Option ℕ) × (work_all casts
          (arrived ∷ arrived ∷ [])
          receiver
          (some 0)
        ≡ ok n)
      × AllSound (2048 + 2 * 2 ^ 15) n.0.handle.ses_hash.objects)
    ⊎ Meets (work_all casts (arrived ∷ arrived ∷ []) receiver (some 0))
work_all_ends_example =
    work_all_ends casts (arrived ∷ arrived ∷ []) receiver (some 0) 2048
      (arrived-IsArrival, (arrived-IsArrival, tt)) (omega arith) (λ id. exchange-IsSound)
      (omega arith) stays

run_ends_example :
    ((m : Main) × (run casts outside (some (file_of (client_frame ∷ []))) empty 0 receiver 0
        ≡ ok m))
    ⊎ Meets (run casts outside (some (file_of (client_frame ∷ []))) empty 0 receiver 0)
run_ends_example =
    run_ends casts outside client_frame [] empty 0 receiver 0 (client_frame-IsFrame, tt) 2048
      (omega arith) (arrived-IsArrival, (arrived-IsArrival, tt)) (omega arith)
      (λ id. exchange-IsSound) (omega arith) stays
