-- ===== src/Tests/Connection.antt =====
-- Handle.cpp on a connection of three packets: a request, its response, and one with FIN.
use http_decoder.Public.Headers.{less, insert}
use http_decoder.HttpParse.{
  get_method, get_version, parse_method_and_uri, parse_rsp_state, read_field, header_round,
  parse_header,
}
use http_decoder.HttpParse.Scan.{matches, scan, get_buf_by_tag, next_token, at_tag}
use http_decoder.HttpParse.Sides.{
  request_headers, response_headers, parse_req_data, parse_rsp_data, parse_request, parse_response,
}
use http_decoder.HttpParse.Exchange.{parse, both_sides, after_parse}
use http_decoder.Handle.{
  process, session_for, assemble, continue_session, take_data, by_match_way, client_data,
  server_data, close_session, print_buffers,
}
use http_decoder.Buffer.{construct, reset, append, get_buf, get_buf_len}
use http_decoder.Base.{
  ℕ, ◌+◌, ◌≡◌, refl, inl, inr, arith, [], ◌∷◌, ◌++◌, Option, none, some, ok, Bytes, codes,
  replicate, load8, fault, unterminated, memset_zero, memcpy, print_string, ◌≢◌, List,
}
use http_decoder.FormatPacket.{
  CFormatPacket, tcp_fin, tcp_rst, tcp_seq, tcp_ack_seq, get_src_ip, get_dst_ip, get_src_port,
  get_dst_port, get_data, get_data_len, get_src_mac, get_dst_mac, get_packet_time,
}
use http_decoder.Handle.Aging.{CHandle, time_out_check, parse_at, parse_in}
use http_decoder.Handle.Assembly.{segment, segments}
use http_decoder.Handle.Calls.{Call, process_all}
use http_decoder.Handle.Closing.{Exchange, Reports}
use http_decoder.Handle.Connection.{
  IsQuiet, IsRequestCall, IsResponseCall, IsClosingCall, connection_reported,
}
use http_decoder.Handle.Delivery.{IsData}
use http_decoder.Handle.Opening.{own_ends}
use http_decoder.HttpParse.Send.{send, Output}
use http_decoder.HttpParse.Written.{IsRequest, IsResponse}
use http_decoder.Session.{CSession, reset_session}
use http_decoder.SessionHash.{
  CBhvInf, ends_of, swap, find, first_same, hash_val, create, new_session, assign, remove,
  erase_same, is_same_ses, faces,
}
use http_decoder.Tests.Assembly.{zeroed_gives}
use http_decoder.Tests.Packets.{frame, env, handle, client_ends, to_server}
use http_decoder.Tests.Parsing.{get_number, version_number, status_number, host, server}
use http_decoder.Tests.Sessions.{one_session-IsValid}
use http_decoder.Tests.Setting.{zeroed-Sized, casts, request, response}

-- as `frame`, from 10.0.0.1:80 to 10.0.0.3:1026
abbrev answer_frame : ℕ → Bytes → ℕ → Bytes
answer_frame flags payload size =
    replicate 12 0
    ++ (8 ∷ 0 ∷ 0x45 ∷ 0 ∷ 0 ∷ size ∷ 0 ∷ 0 ∷ 0 ∷ 0 ∷ 64 ∷ 6 ∷ 0 ∷ 0 ∷ 10 ∷ 0 ∷ 0 ∷ 1 ∷ 10 ∷ 0 ∷ 0
        ∷ 3 ∷ 0 ∷ 80 ∷ 4 ∷ 2 ∷ 0 ∷ 0 ∷ 0 ∷ 7 ∷ 0 ∷ 0 ∷ 0 ∷ 10 ∷ 0x50 ∷ flags ∷ 0 ∷ 0 ∷ 0 ∷ 0 ∷ 0 ∷ 0
        ∷ payload)

abbrev packet_of : Bytes → ℕ → CFormatPacket
packet_of bytes size = record {
  pkt = bytes;
  ethhdr = some 0;
  iphdr = some 14;
  tcphdr = some 34;
  data_len = size;
  payload = some 54;
  eth_index = some 12;
  pkt_len = 40 + size;
  time = record { tv_sec = 3; tv_usec = 5 };
}

abbrev asking : CFormatPacket
asking = packet_of (frame 0x10 request 64) 24

abbrev answering : CFormatPacket
answering = packet_of (answer_frame 0x10 response 73) 33

abbrev ending : CFormatPacket
ending = packet_of (answer_frame 0x11 [] 40) 0

abbrev from_server : CBhvInf
from_server = record { ip = 0x0a000001; port = 80; behavior_id = 6; idt_match_way = 2 }

abbrev first : Call
first = record { env = env; packet = asking; info = to_server }

abbrev second : Call
second = record { env = env; packet = answering; info = from_server }

abbrev third : Call
third = record { env = env; packet = ending; info = from_server }

asking-IsData : IsData asking client_ends 9
unfolding ends_of get_src_ip get_dst_ip get_src_port get_dst_port tcp_fin tcp_rst tcp_seq
    tcp_ack_seq load8 get_data get_data_len
asking-IsData = record {
  ends = refl;
  whole = record { bytes = request; captured = refl; enough = omega arith };
  no_fin = refl;
  no_rst = refl;
  raw = _;
  seq_at = refl;
  seq_is = refl;
  ack = _;
  ack_at = refl;
  filled = refl;
}

answering-IsData : IsData answering (swap client_ends) 7
unfolding ends_of get_src_ip get_dst_ip get_src_port get_dst_port tcp_fin tcp_rst tcp_seq
    tcp_ack_seq load8 get_data get_data_len
answering-IsData = record {
  ends = refl;
  whole = record { bytes = response; captured = refl; enough = omega arith };
  no_fin = refl;
  no_rst = refl;
  raw = _;
  seq_at = refl;
  seq_is = refl;
  ack = _;
  ack_at = refl;
  filled = refl;
}

calm : IsQuiet 100 first
calm = record { sized = zeroed-Sized; gives = zeroed_gives; early = refl }

first-IsRequestCall : IsRequestCall handle client_ends first
unfolding find first_same hash_val
first-IsRequestCall = record {
  quiet = calm;
  fresh = replicate 2048 0;
  given = refl;
  missing = refl;
  seq = 9;
  is_data = asking-IsData;
  new = λ e. omega arith;
  way = refl;
}

second-IsResponseCall : IsResponseCall 100 client_ends 9 second
second-IsResponseCall = record {
  quiet = record { sized = zeroed-Sized; gives = zeroed_gives; early = refl };
  seq = 7;
  is_data = answering-IsData;
  new = λ e. omega arith;
  way = refl;
}

third-IsClosingCall : IsClosingCall 100 client_ends third
unfolding ends_of get_src_ip get_dst_ip get_src_port get_dst_port tcp_fin tcp_rst load8
third-IsClosingCall = record {
  quiet = record { sized = zeroed-Sized; gives = zeroed_gives; early = refl };
  fresh = replicate 2048 0;
  given = refl;
  closer = swap client_ends;
  ends = refl;
  side = inr refl;
  closing = record { fin = 1; rst = 0; fin_at = refl; rst_at = refl; closes = inl refl };
}

asks : IsRequest request (codes "GET") (codes "/a") (codes "HTTP/1.1") host (codes "\n") []
asks = record {
  written_is = refl;
  method_ends = ground arith;
  url_ends = ground arith;
  version_ends = ground arith;
  headers = ground arith;
  ends = inl refl;
  long = omega arith;
  small = omega arith;
}

answers :
    IsResponse response
      (codes "HTTP/1.1")
      (codes "200")
      (codes "OK")
      server
      (codes "\r\n")
      (codes "hello")
answers = record {
  written_is = refl;
  version_ends = ground arith;
  code_ends = ground arith;
  note_ends = ground arith;
  headers = ground arith;
  ends = inr refl;
  long = omega arith;
  small = omega arith;
}

abbrev said : Exchange casts (segment asking) (segments (answering ∷ []))
unfolding get_data get_data_len
said = record {
  method = codes "GET";
  url = codes "/a";
  version = codes "HTTP/1.1";
  headers = host;
  blank = codes "\n";
  body = [];
  rsp_version = codes "HTTP/1.1";
  code = codes "200";
  note = codes "OK";
  rsp_headers = server;
  rsp_blank = codes "\r\n";
  rsp_body = codes "hello";
  asks = asks;
  answers = answers;
  number = 1;
  v = 11;
  status = 200;
  method_known = get_number;
  version_known = version_number;
  same_version = version_number;
  code_known = status_number;
}

whole_run :
    (n : CHandle × List Output × Option ℕ) × (process_all casts
        (first ∷ second ∷ third ∷ [])
        handle
        none
      ≡ ok n)
unfolding process_all process ends_of get_src_ip load8 get_dst_ip get_src_port get_dst_port
    time_out_check session_for find first_same hash_val create new_session construct reset
    memset_zero reset_session assign get_src_mac get_dst_mac assemble tcp_fin tcp_rst
    continue_session tcp_seq get_data_len take_data tcp_ack_seq by_match_way client_data server_data
    get_buf_len append get_data memcpy get_packet_time close_session parse_at parse_in parse get_buf
    remove erase_same is_same_ses faces print_buffers print_string both_sides after_parse
    request_headers response_headers parse_req_data parse_rsp_data parse_request parse_response
    matches scan get_buf_by_tag next_token at_tag get_method get_version parse_method_and_uri
    parse_rsp_state read_field header_round parse_header less insert
whole_run = (_, refl)

all-Printed : process_all casts (first ∷ second ∷ third ∷ []) handle none ≢ fault unterminated
all-Printed e = cc (whole_run.1, e)

connection_reported_example :
    (g : CHandle) × (s : CSession) × (value : Option ℕ) × (process_all casts
        (first ∷ second ∷ third ∷ [])
        handle
        none
      ≡ ok (g, send casts s, value))
    × Reports casts s
        (own_ends to_server client_ends)
        (segment asking)
        (segments (answering ∷ []))
        said
    × ((now : ℕ) → (find now client_ends g.ses_hash).0 ≡ none)
unfolding first-IsRequestCall
connection_reported_example =
    connection_reported casts first (second ∷ []) third handle client_ends none one_session-IsValid
      first-IsRequestCall (second-IsResponseCall, tt) third-IsClosingCall said all-Printed
