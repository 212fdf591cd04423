-- ===== src/Actor.antt =====
-- http_parser/httpfunction/src/http_parser.cpp: the actor that decodes a capture file when it is
-- told to start. Its receiver and its session stay from one message to the next.
pub mod Life
use http_decoder.AppMain.{Outside, frames, print_response}
use http_decoder.Base.{
  ℕ, suc, List, [], ◌∷◌, ◌++◌, Option, none, some, false, Outcome, ok, fault, null_pointer, ◌>>=◌,
  Bytes, Heap, length,
}
use http_decoder.Handle.Aging.{CHandle}
use http_decoder.HttpParse.Send.{Output}
use http_decoder.HttpParse.{LexicalCast}
use http_decoder.Receiver
use http_decoder.Receiver.{Receiver}
use http_decoder.Session.{CSession}
use http_decoder.SessionHash.{update, new_session}

pub record HttpParser : Type 0 where
  pub rcv : Receiver
  pub fs : Option ℕ

-- the constructor, with the memory of its receiver and of its first session
unfoldable pub construct : Heap → CSession → ℕ → CHandle → Outcome HttpParser
construct heap junk now h = do
  let rcv = Receiver.construct now h
  let id = rcv.handle.ses_hash.next
  s ← new_session heap junk
  let t = rcv.handle.ses_hash
  ok (record {
    rcv = record rcv {
      handle = record rcv.handle {
        ses_hash = record t { objects = update t.objects id s; next = suc id };
      };
    };
    fs = some id;
  })

-- `http_parser::start`, whose loop is the one of `main` in AppMain.cpp, on the actor's own members.
-- `tmp` and `len` are what its uninitialised variables hold.
unfoldable pub start :
    LexicalCast
    → Outside
    → Option Bytes
    → Bytes
    → ℕ
    → HttpParser
    → Outcome (HttpParser × List Output)
start boost outside none tmp len a = fault null_pointer
start boost outside (some file) tmp len a = do
  m ← frames boost outside (suc (suc (length file))) 0 (record {
    stream = record { tmp1 = tmp; rest = file; eof = false };
    len = len;
    rcv = a.rcv;
    fs = a.fs;
    out = [];
  })
  n ← print_response boost outside m
  ok (record { rcv = n.rcv; fs = n.fs }, n.out)

-- a `start_atom`, with what its handler finds: the file, and what its variables hold
pub record Wake : Type 0 where
  pub outside : Outside
  pub file : Option Bytes
  pub tmp : Bytes
  pub len : ℕ

-- `[=](start_atom) { start(); }`
abbrev pub on_start : LexicalCast → Wake → HttpParser → Outcome (HttpParser × List Output)
on_start boost w a = start boost w.outside w.file w.tmp w.len a

-- The actor takes its messages one after another.
unfoldable pub receive_all :
    LexicalCast → List Wake → HttpParser → Outcome (HttpParser × List Output)
receive_all boost [] a = ok (a, [])
receive_all boost (w ∷ wakes) a = do
  (b, out) ← on_start boost w a
  (c, out') ← receive_all boost wakes b
  ok (c, out ++ out')
