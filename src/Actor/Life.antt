-- ===== src/Actor/Life.antt =====
-- The actor of http_parser.cpp from its constructor on, and `main` of AppMain.cpp.
use http_decoder.Actor
use http_decoder.Actor.{HttpParser, Wake, start, receive_all}
use http_decoder.AppMain.Sessions.{ValidSessions, frames-ValidSessions}
use http_decoder.AppMain.{Main, Outside, frames, print_response, run}
use http_decoder.Base.{
  ℕ, suc, ◌≡◌, ap, subst, arith, List, [], ◌∷◌, Option, none, some, ok, >>=-eq-ok, Bytes, Heap,
  length,
}
use http_decoder.Handle
use http_decoder.SessionHash
use http_decoder.Handle.Aging.{CHandle}
use http_decoder.HttpParse.Send.{Output}
use http_decoder.HttpParse.{LexicalCast}
use http_decoder.Receiver
use http_decoder.Receiver.{Receiver}
use http_decoder.Session.{CSession}
use http_decoder.SessionHash.{new_session, update}

-- What a new receiver makes of any memory: empty buckets.
construct-ValidSessions : (now : ℕ) (h : CHandle) → ValidSessions (Receiver.construct now h)
unfolding Receiver.construct Handle.init SessionHash.init
construct-ValidSessions now h = record { placed = λ i. tt; distinct = λ i. tt }

print_response_same :
    (boost : LexicalCast) (outside : Outside) (m n : Main)
    → print_response boost outside m ≡ ok n
    → m ≡ n
unfolding print_response
print_response_same boost outside m n e = ground arith

start-ValidSessions :
    (boost : LexicalCast) (outside : Outside) (file : Option Bytes) (tmp : Bytes) (len : ℕ)
    (a b : HttpParser) (out : List Output)
    → start boost outside file tmp len a ≡ ok (b, out)
    → ValidSessions a.rcv
    → ValidSessions b.rcv
unfolding start
start-ValidSessions boost outside none tmp len a b out e v = cc
start-ValidSessions boost outside (some file) tmp len a b out e v =
    let (n, looped, more) = >>=-eq-ok (frames boost outside (suc (suc (length file))) 0 _) _ e in
    let (q, printed, last) = >>=-eq-ok (print_response boost outside n) _ more in
    let kept = frames-ValidSessions boost outside (suc (suc (length file))) 0 _ n looped v in
    let same : q.rcv ≡ b.rcv = cc in
    subst ValidSessions same (
      subst (λ (x : Main). ValidSessions x.rcv) (print_response_same boost outside n q printed)
        kept)

receive_all-ValidSessions :
    (boost : LexicalCast) (wakes : List Wake) (a b : HttpParser) (out : List Output)
    → receive_all boost wakes a ≡ ok (b, out)
    → ValidSessions a.rcv
    → ValidSessions b.rcv
unfolding receive_all
receive_all-ValidSessions boost [] a b out e v =
    let same : a ≡ b = cc in subst (λ (x : HttpParser). ValidSessions x.rcv) same v
receive_all-ValidSessions boost (w ∷ wakes) a b out e v =
    let ((q, o), first, more) = >>=-eq-ok (Actor.on_start boost w a) _ e in
    let ((r, o'), rest, last) = >>=-eq-ok (receive_all boost wakes q) _ more in
    let same : r ≡ b = cc in
    let ih =
      receive_all-ValidSessions boost wakes q r o' rest
        (start-ValidSessions boost w.outside w.file w.tmp w.len a q o first v) in
    subst (λ (x : HttpParser). ValidSessions x.rcv) same ih

same_actor : {x y : HttpParser} → ok x ≡ ok y → x ≡ y
same_actor h = cc

construct-actor-ValidSessions :
    (heap : Heap) (junk : CSession) (now : ℕ) (h : CHandle) (a : HttpParser)
    → Actor.construct heap junk now h ≡ ok a
    → ValidSessions a.rcv
unfolding Actor.construct Receiver.construct Handle.init SessionHash.init
construct-actor-ValidSessions heap junk now h a c =
    let (s, _, last) = >>=-eq-ok (new_session heap junk) _ c in
    let same = ap (λ (x : HttpParser). x.rcv) (same_actor last) in
    subst ValidSessions same (record { placed = λ i. tt; distinct = λ i. tt })

-- However many start messages the actor has handled since its constructor, and whatever the files
-- held, its table of sessions is valid, if they were handled without a fault.
pub life-ValidSessions :
    (boost : LexicalCast) (heap : Heap) (junk : CSession) (now : ℕ) (h : CHandle)
    (wakes : List Wake) (a b : HttpParser) (out : List Output)
    → Actor.construct heap junk now h ≡ ok a
    → receive_all boost wakes a ≡ ok (b, out)
    → ValidSessions b.rcv
life-ValidSessions boost heap junk now h wakes a b out c e =
    receive_all-ValidSessions boost wakes a b out e
      (construct-actor-ValidSessions heap junk now h a c)

-- The table of `main` is valid when it has read the file without a fault.
pub run-ValidSessions :
    (boost : LexicalCast) (outside : Outside) (file tmp : Bytes) (len now fs : ℕ) (h : CHandle)
    (m : Main)
    → run boost outside (some file) tmp len (Receiver.construct now h) fs ≡ ok m
    → ValidSessions m.rcv
unfolding run
run-ValidSessions boost outside file tmp len now fs h m e =
    let (n, looped, last) = >>=-eq-ok (frames boost outside (suc (suc (length file))) 0 _) _ e in
    subst (λ (x : Main). ValidSessions x.rcv) (print_response_same boost outside n m last)
      (frames-ValidSessions boost outside (suc (suc (length file))) 0 _ n looped
        (construct-ValidSessions now h))
