-- ===== src/Receiver.antt =====
-- http_parser/httpfunction/src/Receiver.h and Receiver.cpp: a raw frame becomes a packet with the
-- info of its direction.
pub mod Direction
pub mod Faults
pub mod Runs
use http_decoder.Base.{
  ℕ, ◌+◌, ◌≡◌, Bool, true, false, Option, none, some, ◌==◌, if◌then◌else◌, Outcome, ok, ◌>>=◌,
  Bytes, List, [], ntohs, ntohl, ltb, fault, overflow, ◌^◌,
}
use http_decoder.FormatPacket.{
  CFormatPacket, Timeval, format, get_dst_ip, get_src_ip, get_dst_port, get_src_port,
  get_ip_protocol,
}
use http_decoder.Handle
use http_decoder.Handle.Aging.{CHandle, Step}
use http_decoder.Handle.{Env, process}
use http_decoder.HttpParse.Send.{Output}
use http_decoder.HttpParse.{LexicalCast}
use http_decoder.Public.{c2s_match, s2c_match}
use http_decoder.SessionHash.{CBhvInf}

-- `counter` is the static int that counts the frames.
pub record Receiver : Type 0 where
  pub handle : CHandle
  pub counter : ℕ

-- `++counter`, on an int
abbrev pub count_frame : ℕ → Outcome ℕ
count_frame n = if ltb (n + 1) (2 ^ 31) then ok (n + 1) else fault overflow

-- the constructor
unfoldable pub construct : ℕ → CHandle → Receiver
construct now h = record { handle = Handle.init now h; counter = 0 }

-- A frame to port 80 goes to the server; any other is taken for an answer.
unfoldable pub behavior_info : CFormatPacket → Outcome CBhvInf
behavior_info p = do
  port ← get_dst_port p
  if ntohs port == 0x50
      then (do
        ip ← get_dst_ip p
        protocol ← get_ip_protocol p
        ok (record {
          ip = ntohl ip;
          port = ntohs port;
          behavior_id = protocol;
          idt_match_way = c2s_match;
        }))
      else (do
        ip ← get_src_ip p
        source ← get_src_port p
        protocol ← get_ip_protocol p
        ok (record {
          ip = ntohl ip;
          port = ntohs source;
          behavior_id = protocol;
          idt_match_way = s2c_match;
        }))

module _ (boost : LexicalCast) where
  -- `Receiver::HandleMessage`; the time is what `gettimeofday` gives
  unfoldable pub handle_message :
      Env → Timeval → Option Bytes → CHandle → Option ℕ → Outcome (Step (Option ℕ))
  handle_message env now none h sesp = ok (record { handle = h; out = []; value = sesp })
  handle_message env now (some msg) h sesp = do
    packet ← format msg now
    info ← behavior_info packet
    process boost env packet (some info) h sesp

  -- `Receiver::Work`
  unfoldable pub work :
      Env
      → Timeval
      → Option Bytes
      → Receiver
      → Option ℕ
      → Outcome (Receiver × List Output × Option ℕ)
  work env now msg r sesp = do
    n ← count_frame r.counter
    s ← handle_message env now msg r.handle sesp
    ok (record { handle = s.handle; counter = n }, s.out, s.value)
