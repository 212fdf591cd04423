-- ===== src/Tests/Life.antt =====
-- http_parser.cpp and AppMain.cpp on a file with one frame, from the constructor on.
use http_decoder.Actor
use http_decoder.Actor.Life.{life-ValidSessions}
use http_decoder.Actor.{HttpParser, Wake, start, receive_all}
use http_decoder.AppMain.Sessions.{ValidSessions}
use http_decoder.AppMain.{Outside, frames, round, read_ip, hand_over, print_response}
use http_decoder.AppMain.Reading.{fread}
use http_decoder.Base.{
  ◌≡◌, refl, List, [], ◌∷◌, some, ok, Bytes, codes, replicate, load8, memset_zero, memcpy,
  print_string,
}
use http_decoder.Buffer.{reset, append, get_buf, get_buf_len}
use http_decoder.Buffer
use http_decoder.FormatPacket.{
  format, tcp_fin, tcp_rst, tcp_seq, tcp_ack_seq, get_src_ip, get_dst_ip, get_src_port,
  get_dst_port, get_src_mac, get_dst_mac, get_data, get_data_len, get_packet_time, get_ip_protocol,
}
use http_decoder.Handle
use http_decoder.Handle.Aging.{time_out_check}
use http_decoder.Handle.{
  process, session_for, assemble, continue_session, take_data, by_match_way, client_data,
  print_buffers,
}
use http_decoder.HttpParse.Send.{Output}
use http_decoder.Receiver
use http_decoder.Receiver.{behavior_info, handle_message, work}
use http_decoder.Session.{reset_session}
use http_decoder.SessionHash
use http_decoder.SessionHash.{
  find, create, ends_of, first_same, hash_val, new_session, assign, is_same_ses, faces,
}
use http_decoder.Tests.Packets.{frame, env, handle}
use http_decoder.Tests.Setting.{zeroed, casts, exchange}

abbrev file : Bytes
file = frame 0x10 (codes "GET a") 45

abbrev outside : Outside
outside = record { env = λ i. env; clock = λ i. record { tv_sec = 3; tv_usec = 5 } }

abbrev wakes : List Wake
wakes = record { outside = outside; file = some file; tmp = replicate 2000 0; len = 0 } ∷ []

born : (a : HttpParser) × (Actor.construct zeroed exchange 100 handle ≡ ok a)
unfolding Actor.construct new_session Buffer.construct reset memset_zero reset_session
born = (_, refl)

woken : (r : HttpParser × List Output) × (receive_all casts wakes born.0 ≡ ok r)
unfolding receive_all start born Actor.construct frames round fread memcpy load8 read_ip hand_over
    work handle_message format behavior_info get_dst_port get_dst_ip get_ip_protocol process
    time_out_check Receiver.construct Handle.init SessionHash.init ends_of get_src_ip get_src_port
    session_for find first_same hash_val create new_session Buffer.construct reset memset_zero
    reset_session assign get_src_mac get_dst_mac assemble tcp_fin tcp_rst continue_session tcp_seq
    get_data_len take_data tcp_ack_seq by_match_way client_data get_buf_len append get_data
    get_packet_time print_response get_buf is_same_ses faces print_buffers print_string
woken = (_, refl)

life-ValidSessions_example : ValidSessions woken.0.0.rcv
life-ValidSessions_example =
    life-ValidSessions casts zeroed exchange 100 handle wakes born.0 woken.0.0 woken.0.1 born.1
      woken.1
