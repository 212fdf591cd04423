-- ===== src/Tests/Assembly.antt =====
-- Handle.cpp on data packets of a session that is in the table.
use http_decoder.Base.{
  ℕ, ◌+◌, ◌^◌, ◌≡◌, ◌≢◌, ◌<◌, refl, arith, true, false, List, [], none, Bool, ok, codes, load8,
  memcpy,
}
use http_decoder.Buffer.{contents, append, get_buf_len}
use http_decoder.FormatPacket.{tcp_seq, tcp_ack_seq, get_data, get_data_len, get_packet_time}
use http_decoder.Handle.Again.{take_data-again}
use http_decoder.Handle.Aging.{CHandle}
use http_decoder.Handle.Assembly.{IsWhole, segment, size_of, client_data-contents}
use http_decoder.Handle.{
  client_data, server_data, by_match_way, session_at, take_data, continue_session,
}
use http_decoder.HttpParse.Send.{Output, send}
use http_decoder.SessionHash.{CBhvInf}
use http_decoder.Tests.Parsing.{exchange_end, reported}
use http_decoder.Tests.Packets.{data_packet, env, handle}
use http_decoder.Tests.Setting.{
  zeroed, zeroed-Sized, casts, exchange, request, response, session-HasBuffers,
}

pub zeroed_gives : (n : ℕ) → zeroed n ≢ none
zeroed_gives n e = cc

whole : IsWhole data_packet
unfolding get_data get_data_len
whole = record { bytes = codes "GET a"; captured = refl; enough = omega arith }

segment_text : segment data_packet ≡ codes "GET a"
unfolding get_data get_data_len
segment_text = refl

fits : size_of data_packet ≡ 5
unfolding get_data_len
fits = refl

client_data-contents_example :
    (g : CHandle) × (client_data casts env data_packet 0 handle
      ≡ ok (g, send casts (record exchange { result = reported }), true))
    × (contents (session_at g 0).req_buf ≡ segment data_packet)
    × (contents (session_at g 0).rsp_buf ≡ [])
client_data-contents_example =
    client_data-contents casts env 0 zeroed-Sized zeroed_gives data_packet handle exchange_end.0
      (send casts (record exchange { result = reported })) whole
      (session-HasBuffers request response (omega arith) (omega arith)) (omega arith) (omega arith)
      exchange_end.1 small
  where
    small : size_of data_packet + 1 < 2 ^ 32
    small = omega (arith, fits)

abbrev from_server : CBhvInf
from_server = record { ip = 0x0a000003; port = 1026; behavior_id = 6; idt_match_way = 2 }

take_run :
    (r : CHandle × List Output × Bool) × (take_data casts env data_packet from_server 0 handle
      ≡ ok r)
unfolding take_data tcp_seq tcp_ack_seq by_match_way server_data get_buf_len get_packet_time
    get_data get_data_len append memcpy load8
take_run = (_, refl)

take_data-again_example :
    continue_session casts env data_packet from_server 0 take_run.0.0 ≡ ok (take_run.0.0, [], false)
take_data-again_example =
    take_data-again casts env data_packet 0 from_server handle take_run.0.0 take_run.0.1
      take_run.0.2 take_run.1
