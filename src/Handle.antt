-- ===== src/Handle.antt =====
-- http_parser/httpfunction/src/Handle.h and Handle.cpp: what happens to a packet.
pub mod Aging
pub mod Invariant
pub mod Timeouts
pub mod Branches
pub mod Process
pub mod Again
pub mod Assembly
pub mod Printing
pub mod Good
pub mod Guarded
pub mod Lookup
pub mod Stored
pub mod Faults
pub mod Delivery
pub mod Carried
pub mod Deliveries
pub mod Opening
pub mod Closing
pub mod Calls
pub mod Connection
use http_decoder.Base.{
  ℕ, ◌+◌, ◌*◌, ◌%◌, ◌^◌, Bool, true, false, ◌&&◌, ◌||◌, List, [], ◌++◌, Option, none, some, ltb,
  ◌==◌, if◌then◌else◌, Outcome, ok, ◌>>=◌, Bytes, Heap, drop, ntohl, size_of_int16, print_string,
}
use http_decoder.Buffer
use http_decoder.Buffer.{CBuffer, get_buf, get_buf_len}
use http_decoder.FormatPacket.{
  CFormatPacket, Timeval, get_data, get_data_len, get_packet_time, tcp_seq, tcp_ack_seq, tcp_fin,
  tcp_rst,
}
use http_decoder.Handle.Aging.{CHandle, Step, time_out_check, parse_at}
use http_decoder.HttpParse.Send.{Output}
use http_decoder.HttpParse.{LexicalCast}
use http_decoder.Public.{unk_match, c2s_match, s2c_match}
use http_decoder.Session.{CSession}
use http_decoder.SessionHash.{CBhvInf, CSessionHashTable, Ends, ends_of, update}
use http_decoder.SessionHash

-- What a call takes from outside: the clock at each of its readings, the allocator, and the bytes
-- that a new session finds in its memory.
pub record Env : Type 0 where
  pub check_time : ℕ
  pub find_time : ℕ
  pub create_time : ℕ
  pub heap : Heap
  pub junk : CSession

-- `CHandle::Init`
unfoldable pub init : ℕ → CHandle → CHandle
init now h = record h { ses_hash = SessionHash.init h.ses_hash; last_time_out_check = now }

-- the source of an append: the packet's bytes from `m_pData` on
abbrev pub payload_bytes : CFormatPacket → Option Bytes
payload_bytes p = elim (get_data p) [ none ↦ none | some off ↦ some (drop off p.pkt) ]

-- `tv_sec * 1000000LL + tv_usec`, as a uint64_t
abbrev pub microseconds : Timeval → ℕ
microseconds t = (t.tv_sec * 1000000 + t.tv_usec) % 2 ^ 64

abbrev pub put_session : ℕ → CSession → CHandle → CHandle
put_session id s h = record h {
  ses_hash = record h.ses_hash { objects = update h.ses_hash.objects id s };
}

abbrev pub session_at : CHandle → ℕ → CSession
session_at h id = h.ses_hash.objects id

-- The timestamp is taken from the first packet of a side.
abbrev pub stamp_request : CFormatPacket → CSession → CSession
stamp_request p s =
    if get_buf_len s.req_buf == 0 && s.result.request_time_stamp == 0
    then record s {
      result = record s.result { request_time_stamp = microseconds (get_packet_time p) };
    }
    else s

abbrev pub stamp_response : CFormatPacket → CSession → CSession
stamp_response p s =
    if get_buf_len s.rsp_buf == 0 && s.result.response_time_stamp == 0
    then record s {
      result = record s.result { response_time_stamp = microseconds (get_packet_time p) };
    }
    else s

module _ (boost : LexicalCast) (env : Env) (p : CFormatPacket) (id : ℕ) where
  abbrev pub append : CBuffer → Outcome (CBuffer × Bool)
  append b = Buffer.append env.heap b (payload_bytes p) (size_of_int16 (get_data_len p))

  -- A pair that is complete is parsed before the next request is stored.
  abbrev pub parse_complete : CHandle → Outcome (CHandle × List Output)
  parse_complete h =
      if ltb 0 (get_buf_len (session_at h id).req_buf)
        && ltb 0 (get_buf_len (session_at h id).rsp_buf)
      then parse_at boost env.heap id h
      else ok (h, [])

  -- Each branch gives the handle, the output, and whether the end of `Process` is reached.
  unfoldable pub client_data : CHandle → Outcome (CHandle × List Output × Bool)
  client_data h = do
    (h', out) ← parse_complete h
    let s = stamp_request p (session_at h' id)
    (buffer, fits) ← append s.req_buf
    ok (put_session id (record s { req_buf = buffer }) h', out, fits)

  unfoldable pub server_data : CHandle → Outcome (CHandle × List Output × Bool)
  server_data h = do
    let s = stamp_response p (session_at h id)
    (buffer, fits) ← append s.rsp_buf
    ok (put_session id (record s { rsp_buf = buffer }) h, [], fits)

  unfoldable pub by_match_way : ℕ → CHandle → Outcome (CHandle × List Output × Bool)
  by_match_way way h =
      if way == unk_match
      then ok (h, [], false)
      else if way == c2s_match
      then client_data h
      else if way == s2c_match
      then server_data h
      else ok (h, [], true)

-- The session of a packet: the one found, or a new one.
unfoldable pub session_for : Env → CFormatPacket → CBhvInf → Ends → CHandle → Outcome (ℕ × CHandle)
session_for env p info e h =
    let (found, t) = SessionHash.find env.find_time e h.ses_hash in
    elim found [
      | some id ↦ ok (id, record h { ses_hash = t })
      | none ↦ do
        (id, t') ← SessionHash.create env.heap env.junk env.create_time p info t
        ok (id, record h { ses_hash = t' })
    ]

module _ (boost : LexicalCast) (env : Env) (p : CFormatPacket) (info : CBhvInf) where
  -- `fin` or `rst`: the session is parsed and taken out of the table.
  unfoldable pub close_session : ℕ → Ends → CHandle → Outcome (CHandle × List Output × Bool)
  close_session id e h = do
    (h', out) ← parse_at boost env.heap id h
    ok (record h' { ses_hash = SessionHash.remove e h'.ses_hash }, out, false)

  -- a packet that is new and has data
  unfoldable pub take_data : ℕ → CHandle → Outcome (CHandle × List Output × Bool)
  take_data id h = do
    seq ← tcp_seq p
    ack ← tcp_ack_seq p
    let s = record (session_at h id) { seq_no = ntohl seq; ack_seq_no = ntohl ack }
    by_match_way boost env p id info.idt_match_way (put_session id s h)

  -- a packet of a session that goes on
  unfoldable pub continue_session : ℕ → CHandle → Outcome (CHandle × List Output × Bool)
  continue_session id h = do
    seq ← tcp_seq p
    if (session_at h id).seq_no == ntohl seq
        then ok (h, [], false)
        else if get_data_len p == 0
        then ok (h, [], false)
        else take_data id h

  unfoldable pub assemble : ℕ → Ends → CHandle → Outcome (CHandle × List Output × Bool)
  assemble id e h = do
    fin ← tcp_fin p
    rst ← tcp_rst p
    if fin == 1 || rst == 1 then close_session id e h else continue_session id h

-- The end of `Process`: both buffers are printed with `%s`.
unfoldable pub print_buffers : CSession → Outcome (Unit {0})
print_buffers s = do _ ← print_string (get_buf s.req_buf).0; print_string (get_buf s.rsp_buf).0

-- It is reached where a packet was stored.
abbrev pub print_stored : Bool → CSession → Outcome (Unit {0})
print_stored true s = print_buffers s
print_stored false s = ok tt

-- `CHandle::Process`; `sesp` is the caller's pointer, which only a packet stored to the end sets.
unfoldable pub process :
    LexicalCast
    → Env
    → CFormatPacket
    → Option CBhvInf
    → CHandle
    → Option ℕ
    → Outcome (Step (Option ℕ))
process boost env p info h sesp = do
  (h', aged) ← time_out_check boost env.heap env.check_time h
  elim info [
    | none ↦ ok (record { handle = h'; out = aged; value = sesp })
    | some i ↦ do
      e ← ends_of p
      (id, found) ← session_for env p i e h'
      (last, out, stored) ← assemble boost env p i id e found
      _ ← print_stored stored (session_at last id)
      ok (record { handle = last; out = aged ++ out; value = if stored then some id else sesp })
  ]
