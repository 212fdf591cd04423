-- ===== src/AppMain.antt =====
-- http_parser/httpfunction/src/AppMain.cpp: the frames of a capture file, one after another.
pub mod Reading
pub mod Progress
pub mod Sessions
pub mod Loop
pub mod LastFrame
pub mod Capture
pub mod CaptureRun
pub mod CaptureEnds
use http_decoder.AppMain.Reading.{Stream, fread, capacity}
use http_decoder.Base.{
  ℕ, zero, suc, ◌+◌, ◌-◌, ◌^◌, Bool, true, false, List, [], ◌++◌, Option, none, some, leb, ltb,
  ◌==◌, if◌then◌else◌, Outcome, ok, fault, null_pointer, out_of_bounds, diverges, ◌>>=◌, Bytes,
  load16, ntohs, length, take,
}
use http_decoder.Buffer.{get_buf}
use http_decoder.FormatPacket.{Timeval}
use http_decoder.Handle.{Env}
use http_decoder.HttpParse.Send.{Output}
use http_decoder.HttpParse.{LexicalCast}
use http_decoder.Receiver.{Receiver, work}

abbrev pub ethertype_ip : ℕ
ethertype_ip = 0x0800

abbrev pub ethertype_ipv6 : ℕ
ethertype_ipv6 = 0x86dd

-- `len - 20` on int, as a size_t
abbrev pub payload_size : ℕ → ℕ
payload_size len = if ltb len 20 then 2 ^ 64 - (20 - len) else len - 20

-- The variables of `main` that the loop changes, with the receiver and what was written.
pub record Main : Type 0 where
  pub stream : Stream
  pub len : ℕ
  pub rcv : Receiver
  pub fs : Option ℕ
  pub out : List Output

-- What the loop reads from outside, for each of its rounds.
pub record Outside : Type 0 where
  pub env : ℕ → Env
  pub clock : ℕ → Timeval

module _ (boost : LexicalCast) (outside : Outside) where
  -- `rcv.Work(head, fs)`
  unfoldable pub hand_over : ℕ → Main → Outcome Main
  hand_over i m = do
    (rcv, out, fs) ← work boost (outside.env i) (outside.clock i) (some m.stream.tmp1) m.rcv m.fs
    ok (record m { rcv = rcv; fs = fs; out = m.out ++ out })

  unfoldable pub read_ip : ℕ → Main → Outcome Main
  read_ip i m = do
    s ← fread 14 20 m.stream
    total ← load16 s.tmp1 16
    let len = ntohs total
    s' ← fread 34 (payload_size len) s
    hand_over i (record m { stream = s'; len = len })

  unfoldable pub read_ipv6 : ℕ → Main → Outcome Main
  read_ipv6 i m = do
    s ← fread 14 40 m.stream
    total ← load16 s.tmp1 18
    let len = ntohs total
    s' ← fread 54 len s
    hand_over i (record m { stream = s'; len = len })

  -- One round. The second test compares the field as it lies in the frame.
  unfoldable pub round : ℕ → Main → Outcome Main
  round i m = do
    s ← fread 0 14 m.stream
    ether_type ← load16 s.tmp1 12
    let n = record m { stream = s }
    if ntohs ether_type == ethertype_ip
        then read_ip i n
        else if ether_type == ethertype_ipv6
        then read_ipv6 i n
        else ok n

  -- `while(!feof(f))`, on fuel; `i` counts the rounds
  unfoldable pub frames : ℕ → ℕ → Main → Outcome Main
  frames zero i m = fault diverges
  frames (suc fuel) i m = elim m.stream.eof [
    | true ↦ ok m
    | false ↦ do n ← round i m; frames fuel (suc i) n
  ]

  -- behind the loop: `len` bytes of the last session's response buffer are read
  unfoldable pub print_response : Main → Outcome Main
  print_response m = elim m.fs [
    | none ↦ fault null_pointer
    | some id ↦ elim (get_buf (m.rcv.handle.ses_hash.objects id).rsp_buf).0 [
      | none ↦ if m.len == 0 then ok m else fault null_pointer
      | some block ↦ if leb m.len (length block) then ok m else fault out_of_bounds
    ]
  ]

  -- `main` from the opened file on. A file of n bytes gives at most n + 1 rounds.
  unfoldable pub run : Option Bytes → Bytes → ℕ → Receiver → ℕ → Outcome Main
  run none tmp len rcv fs = fault null_pointer
  run (some file) tmp len rcv fs = do
    m ← frames (suc (suc (length file))) 0 (record {
      stream = record { tmp1 = tmp; rest = file; eof = false };
      len = len;
      rcv = rcv;
      fs = some fs;
      out = [];
    })
    print_response m
