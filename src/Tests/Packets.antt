-- ===== src/Tests/Packets.antt =====
-- Handle.cpp on frames of one connection, from the client with and without FIN.
use http_decoder.Base.{
  ℕ, if◌then◌else◌, ◌≡◌, refl, inl, ◌∷◌, ◌++◌, Option, none, some, ok, Bytes, codes, replicate,
  load8, memset_zero, memcpy, print_string,
}
use http_decoder.Buffer.{construct, reset, append, get_buf, get_buf_len}
use http_decoder.FormatPacket.{
  CFormatPacket, format, tcp_fin, tcp_rst, tcp_seq, tcp_ack_seq, get_src_ip, get_dst_ip,
  get_src_port, get_dst_port, get_src_mac, get_dst_mac, get_data, get_data_len, get_packet_time,
}
use http_decoder.Handle.Aging.{CHandle, Step, time_out_check, parse_at, parse_in}
use http_decoder.Handle.Process.{process-IsValid, process_closing}
use http_decoder.Handle.{
  Env, process, session_for, assemble, continue_session, take_data, by_match_way, client_data,
  close_session, print_buffers,
}
use http_decoder.HttpParse.Exchange.{parse}
use http_decoder.Session.{reset_session}
use http_decoder.SessionHash.AsMap.{same_connection, create-find_map}
use http_decoder.SessionHash.Insertion.{create-find}
use http_decoder.SessionHash.Table.{IsValid}
use http_decoder.SessionHash.{
  CBhvInf, CSessionHashTable, Ends, swap, find, create, ends_of, first_same, hash_val, new_session,
  assign, remove, erase_same, is_same_ses, faces,
}
use http_decoder.Tests.Sessions.{one_session, one_session-IsValid}
use http_decoder.Tests.Setting.{zeroed, casts, exchange}

-- Ethernet, IPv4 and TCP headers of 14, 20 and 20 bytes, from 10.0.0.3:1026 to 10.0.0.1:80.
abbrev pub frame : ℕ → Bytes → ℕ → Bytes
frame flags payload size =
    replicate 12 0
    ++ (8 ∷ 0 ∷ 0x45 ∷ 0 ∷ 0 ∷ size ∷ 0 ∷ 0 ∷ 0 ∷ 0 ∷ 64 ∷ 6 ∷ 0 ∷ 0 ∷ 10 ∷ 0 ∷ 0 ∷ 3 ∷ 10 ∷ 0 ∷ 0
        ∷ 1 ∷ 4 ∷ 2 ∷ 0 ∷ 80 ∷ 0 ∷ 0 ∷ 0 ∷ 9 ∷ 0 ∷ 0 ∷ 0 ∷ 7 ∷ 0x50 ∷ flags ∷ 0 ∷ 0 ∷ 0 ∷ 0 ∷ 0 ∷ 0
        ∷ payload)

abbrev pub view : Bytes → CFormatPacket
view bytes = record {
  pkt = bytes;
  ethhdr = some 0;
  iphdr = some 14;
  tcphdr = some 34;
  data_len = 5;
  payload = some 54;
  eth_index = some 12;
  pkt_len = 45;
  time = record { tv_sec = 3; tv_usec = 5 };
}

formatted :
    format (frame 0x10 (codes "GET a") 45) (record { tv_sec = 3; tv_usec = 5 })
    ≡ ok (view (frame 0x10 (codes "GET a") 45))
unfolding format load8
formatted = refl

abbrev pub data_packet : CFormatPacket
data_packet = view (frame 0x10 (codes "GET a") 45)

abbrev pub fin_packet : CFormatPacket
fin_packet = view (frame 0x11 (codes "GET a") 45)

abbrev pub client_ends : Ends
client_ends = record { src_ip = 0x0a000003; dst_ip = 0x0a000001; src_port = 1026; dst_port = 80 }

abbrev pub to_server : CBhvInf
to_server = record { ip = 0x0a000001; port = 80; behavior_id = 6; idt_match_way = 1 }

pub data_ends : ends_of data_packet ≡ ok client_ends
unfolding ends_of get_src_ip get_dst_ip get_src_port get_dst_port load8
data_ends = refl

abbrev pub env : Env
env = record {
  check_time = 150;
  find_time = 150;
  create_time = 150;
  heap = zeroed;
  junk = exchange;
}

abbrev pub handle : CHandle
handle = record { ses_hash = one_session; last_time_out_check = 100 }

data_run :
    (r : Step (Option ℕ)) × (process casts env data_packet (some to_server) handle none ≡ ok r)
unfolding process ends_of get_src_ip load8 get_dst_ip get_src_port get_dst_port time_out_check
    session_for find first_same hash_val create new_session construct reset memset_zero
    reset_session assign get_src_mac get_dst_mac assemble tcp_fin tcp_rst continue_session tcp_seq
    get_data_len take_data tcp_ack_seq by_match_way client_data get_buf_len append get_data memcpy
    get_packet_time print_buffers print_string get_buf
data_run = (_, refl)

fin_run : (r : Step (Option ℕ)) × (process casts env fin_packet (some to_server) handle none ≡ ok r)
unfolding process ends_of get_src_ip load8 get_dst_ip get_src_port get_dst_port time_out_check
    session_for find first_same hash_val create new_session construct reset memset_zero
    reset_session assign get_src_mac get_dst_mac assemble tcp_fin tcp_rst close_session parse_at
    parse_in parse get_buf remove erase_same is_same_ses faces
fin_run = (_, refl)

process-IsValid_example : IsValid data_run.0.handle.ses_hash
process-IsValid_example =
    process-IsValid casts env data_packet handle none data_run.0 (some to_server) data_run.1
      one_session-IsValid

fin_set : tcp_fin fin_packet ≡ ok 1
unfolding tcp_fin load8
fin_set = refl

fin_ends : ends_of fin_packet ≡ ok client_ends
unfolding ends_of get_src_ip get_dst_ip get_src_port get_dst_port load8
fin_ends = refl

process_closing_example : (find 200 client_ends fin_run.0.handle.ses_hash).0 ≡ none
process_closing_example =
    process_closing casts env fin_packet handle none fin_run.0 to_server client_ends 200 fin_ends
      (inl fin_set) fin_run.1 one_session-IsValid

-- No session of the table has the packet's ends, so one is made.
none_found : (find 150 client_ends one_session).0 ≡ none
unfolding find first_same hash_val
none_found = refl

create_run :
    (r : ℕ × CSessionHashTable) × (create zeroed exchange 150 data_packet to_server one_session
      ≡ ok r)
unfolding create new_session construct reset memset_zero reset_session ends_of get_src_ip get_dst_ip
    get_src_port get_dst_port load8
create_run = (_, refl)

create-find_example :
    (create_run.0.0 ≡ 1)
    × ((find 160 client_ends create_run.0.1).0 ≡ some create_run.0.0)
    × ((find 160 (swap client_ends) create_run.0.1).0 ≡ some create_run.0.0)
    × IsValid create_run.0.1
create-find_example =
    create-find zeroed exchange 150 160 data_packet to_server client_ends one_session
      one_session-IsValid data_ends none_found create_run.1

-- The session that was there is found as before.
abbrev old_ends : Ends
old_ends = record { src_ip = 0x0a000001; dst_ip = 0x0a000002; src_port = 80; dst_port = 1025 }

create-find_map_example : (find 160 old_ends create_run.0.1).0 ≡ (
    if same_connection client_ends old_ends
    then some create_run.0.0
    else (find 160 old_ends one_session).0)
create-find_map_example =
    create-find_map zeroed exchange 150 160 data_packet to_server client_ends old_ends one_session
      one_session-IsValid data_ends none_found create_run.1
