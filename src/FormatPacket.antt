-- ===== src/FormatPacket.antt =====
-- http_parser/httpfunction/src/FormatPacket.h and FormatPacket.cpp: a view of a captured packet.
-- `packet` is the list of the bytes from the pointer on, and the header pointers are offsets in it.
pub mod Layout
use http_decoder.Base.{
  ℕ, ◌+◌, ◌-◌, ◌*◌, ◌/◌, ◌%◌, ◌^◌, Option, none, some, ◌==◌, if◌then◌else◌, Outcome, ok, fault,
  null_pointer, ◌>>=◌, Bytes, load8, load16, load32, ntohs,
}

pub record Timeval : Type 0 where
  pub tv_sec : ℕ
  pub tv_usec : ℕ

pub record CFormatPacket : Type 0 where
  pub pkt : Bytes
  pub ethhdr : Option ℕ
  pub iphdr : Option ℕ
  pub tcphdr : Option ℕ
  -- the bit pattern of an int16_t
  pub data_len : ℕ
  pub payload : Option ℕ
  pub eth_index : Option ℕ
  pub pkt_len : ℕ
  pub time : Timeval

abbrev pub sizeof_ether_header : ℕ
sizeof_ether_header = 14

abbrev pub ipproto_tcp : ℕ
ipproto_tcp = 6

-- the bit fields `ihl` and `doff`, and the bytes `tot_len` and `protocol` of the headers
abbrev ihl : Bytes → ℕ → Outcome ℕ
ihl pkt ip = do x ← load8 pkt ip; ok (x % 16)

abbrev doff : Bytes → ℕ → Outcome ℕ
doff pkt tcp = do x ← load8 pkt (tcp + 12); ok (x / 16)

payload_offset : Bytes → ℕ → ℕ → ℕ → Outcome ℕ
payload_offset pkt words tcp protocol =
    if protocol == ipproto_tcp
    then (do d ← doff pkt tcp; ok (words * 4 + d * 4))
    else ok (words * 4 + 8)

-- `CFormatPacket::Format`, with what `gettimeofday` gives
unfoldable pub format : Bytes → Timeval → Outcome CFormatPacket
unfolding payload_offset
format packet now = do
  let ip = sizeof_ether_header
  words ← ihl packet ip
  let tcp = sizeof_ether_header + words * 4
  total ← load16 packet (ip + 2)
  protocol ← load8 packet (ip + 9)
  offset ← payload_offset packet words tcp protocol
  ok (record {
    pkt = packet;
    ethhdr = some 0;
    iphdr = some ip;
    tcphdr = some tcp;
    data_len = (ntohs total + 2 ^ 16 - offset) % 2 ^ 16;
    payload = some (sizeof_ether_header + offset);
    eth_index = some 12;
    pkt_len = ntohs total;
    time = now;
  })

unfoldable pub get_ether_header : CFormatPacket → Option ℕ
get_ether_header p = p.ethhdr

-- Both branches of the address of either side give 0.
unfoldable pub get_dst_mac : CFormatPacket → ℕ
get_dst_mac p = elim p.ethhdr [ none ↦ 0 | some eth ↦ 0 ]

unfoldable pub get_src_mac : CFormatPacket → ℕ
get_src_mac p = elim p.ethhdr [ none ↦ 0 | some eth ↦ 0 ]

unfoldable pub get_iphdr : CFormatPacket → Option ℕ
get_iphdr p = p.iphdr

-- in the order of the network, as are the ports
unfoldable pub get_dst_ip : CFormatPacket → Outcome ℕ
get_dst_ip p = elim p.iphdr [ none ↦ ok 0 | some ip ↦ load32 p.pkt (ip + 16) ]

unfoldable pub get_src_ip : CFormatPacket → Outcome ℕ
get_src_ip p = elim p.iphdr [ none ↦ ok 0 | some ip ↦ load32 p.pkt (ip + 12) ]

unfoldable pub get_ip_protocol : CFormatPacket → Outcome ℕ
get_ip_protocol p = elim p.iphdr [ none ↦ ok 0 | some ip ↦ load8 p.pkt (ip + 9) ]

unfoldable pub get_ip_pkt_len : CFormatPacket → ℕ
get_ip_pkt_len p = p.pkt_len

unfoldable pub get_tcphdr : CFormatPacket → Option ℕ
get_tcphdr p = p.tcphdr

unfoldable pub get_udphdr : CFormatPacket → Option ℕ
get_udphdr p = p.tcphdr

unfoldable pub get_dst_port : CFormatPacket → Outcome ℕ
get_dst_port p = elim p.tcphdr [ none ↦ ok 0 | some tcp ↦ load16 p.pkt (tcp + 2) ]

unfoldable pub get_src_port : CFormatPacket → Outcome ℕ
get_src_port p = elim p.tcphdr [ none ↦ ok 0 | some tcp ↦ load16 p.pkt tcp ]

-- the bytes from `m_pData` on
unfoldable pub get_data : CFormatPacket → Option ℕ
get_data p = p.payload

unfoldable pub get_data_len : CFormatPacket → ℕ
get_data_len p = p.data_len

unfoldable pub get_packet_time : CFormatPacket → Timeval
get_packet_time p = p.time

-- `GetTcphdr()->f` for the fields that the program reads
abbrev tcp_field : (Bytes → ℕ → Outcome ℕ) → CFormatPacket → Outcome ℕ
tcp_field load p = elim (get_tcphdr p) [ none ↦ fault null_pointer | some tcp ↦ load p.pkt tcp ]

unfoldable pub tcp_seq : CFormatPacket → Outcome ℕ
unfolding get_tcphdr
tcp_seq = tcp_field (λ m tcp. load32 m (tcp + 4))

unfoldable pub tcp_ack_seq : CFormatPacket → Outcome ℕ
unfolding get_tcphdr
tcp_ack_seq = tcp_field (λ m tcp. load32 m (tcp + 8))

unfoldable pub tcp_fin : CFormatPacket → Outcome ℕ
unfolding get_tcphdr
tcp_fin = tcp_field (λ m tcp. do x ← load8 m (tcp + 13); ok (x % 2))

unfoldable pub tcp_rst : CFormatPacket → Outcome ℕ
unfolding get_tcphdr
tcp_rst = tcp_field (λ m tcp. do x ← load8 m (tcp + 13); ok (x / 4 % 2))
