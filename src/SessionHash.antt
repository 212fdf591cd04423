-- ===== src/SessionHash.antt =====
-- http_parser/httpfunction/src/SessionHash.h and SessionHash.cpp, with BehaviorInfo.h: the table of
-- sessions. A shared_ptr to a session is a number, under which `objects` holds the one object that
-- all its owners see. A bucket's list is shared by every copy of the vector, so there is one.
pub mod Hash
pub mod Table
pub mod Operations
pub mod Insertion
pub mod AsMap
pub mod Reading
use Prim.Native.Nat.{bit_and, bit_xor}
use http_decoder.Base.{
  ℕ, suc, ◌+◌, ◌/◌, ◌%◌, ◌^◌, Bool, ◌&&◌, ◌||◌, true, false, List, [], ◌∷◌, ◌++◌, Option, none,
  some, ◌==◌, if◌then◌else◌, Outcome, ok, ◌>>=◌, Heap, ntohs, ntohl,
}
use http_decoder.Buffer
use http_decoder.FormatPacket.{
  CFormatPacket, get_src_ip, get_dst_ip, get_src_port, get_dst_port, get_src_mac, get_dst_mac,
}
use http_decoder.Public.{reset_result}
use http_decoder.Session.{CSession, reset_session}

-- `CSharedBehaviorInfo`
pub record CBhvInf : Type 0 where
  pub ip : ℕ
  pub port : ℕ
  pub behavior_id : ℕ
  pub idt_match_way : ℕ

pub record CSessionHashTable : Type 0 where
  pub cseshash : ℕ → List ℕ
  pub objects : ℕ → CSession
  pub next : ℕ

abbrev pub update {ℓ} : {A : Type ℓ} → (ℕ → A) → ℕ → A → ℕ → A
update f i v j = if i == j then v else f j

-- 65536 empty lists; the objects that other pointers keep alive stay
unfoldable pub init : CSessionHashTable → CSessionHashTable
init t = record t { cseshash = λ i. [] }

-- The two ends of a packet or of a session, in the order of the host.
pub record Ends : Type 0 where
  pub src_ip : ℕ
  pub dst_ip : ℕ
  pub src_port : ℕ
  pub dst_port : ℕ

-- `CSessionHashTable::HashVal`, on uint32_t and then uint16_t
unfoldable pub hash_val : Ends → ℕ
hash_val e =
    let h = bit_xor (bit_xor e.src_ip e.dst_ip) (bit_xor e.src_port e.dst_port) in
    let h' = bit_xor h (h / 2 ^ 16) in
    let h'' = bit_xor h' (h' / 2 ^ 8) in bit_and h'' 0xffff % 2 ^ 16

-- the four comparisons of one direction
unfoldable pub faces : Ends → CSession → Bool
faces e s =
    s.server_ip == e.src_ip
    && (s.client_ip == e.dst_ip && (s.server_port == e.src_port && s.client_port == e.dst_port))

abbrev pub swap : Ends → Ends
swap e = record {
  src_ip = e.dst_ip;
  dst_ip = e.src_ip;
  src_port = e.dst_port;
  dst_port = e.src_port;
}

-- `CSessionHashTable::IsSameSes`
unfoldable pub is_same_ses : Ends → CSession → Bool
is_same_ses e s = faces e s || faces (swap e) s

-- the walk along one bucket: the first session that is the same
unfoldable pub first_same : (CSession → Bool) → (ℕ → CSession) → List ℕ → Option ℕ
first_same same objects [] = none
first_same same objects (id ∷ ids) =
    if same (objects id) then some id else first_same same objects ids

-- `iter = listPtr->erase(iter); return;` at that session
unfoldable pub erase_same : (CSession → Bool) → (ℕ → CSession) → List ℕ → List ℕ
erase_same same objects [] = []
erase_same same objects (id ∷ ids) =
    if same (objects id) then ids else id ∷ erase_same same objects ids

-- what `Find` does with the session that the walk met; `now` goes into a uint32_t
abbrev pub refreshed : ℕ → CSessionHashTable → Option ℕ → Option ℕ × CSessionHashTable
refreshed now t none = (none, t)
refreshed now t (some id) = (
  some id,
  record t {
    objects = update t.objects id (record (t.objects id) { refresh_time = now % 2 ^ 32 });
  },
)

-- `CSessionHashTable::Find`
unfoldable pub find : ℕ → Ends → CSessionHashTable → Option ℕ × CSessionHashTable
find now e t = refreshed now t (first_same (is_same_ses e) t.objects (t.cseshash (hash_val e)))

-- `CSessionHashTable::Remove`
unfoldable pub remove : Ends → CSessionHashTable → CSessionHashTable
remove e t =
    let index = hash_val e in
    record t {
      cseshash = update t.cseshash index (erase_same (is_same_ses e) t.objects (t.cseshash index));
    }

-- `new CSession()`: the fields that no constructor sets hold what `junk` holds.
unfoldable pub new_session : Heap → CSession → Outcome CSession
new_session heap junk = do
  q ← Buffer.construct heap
  p ← Buffer.construct heap
  reset_session heap (record junk { req_buf = q; rsp_buf = p; result = reset_result junk.result })

unfoldable pub ends_of : CFormatPacket → Outcome Ends
ends_of p = do
  src_ip ← get_src_ip p
  dst_ip ← get_dst_ip p
  src_port ← get_src_port p
  dst_port ← get_dst_port p
  ok (record {
    src_ip = ntohl src_ip;
    dst_ip = ntohl dst_ip;
    src_port = ntohs src_port;
    dst_port = ntohs dst_port;
  })

-- The side that the info names is the server, and the destination if it names neither.
unfoldable pub assign : ℕ → CBhvInf → Ends → CFormatPacket → CSession → CSession
assign now info e p s =
    if info.ip == e.src_ip && info.port == e.src_port
    then record s {
      server_ip = e.src_ip;
      client_ip = e.dst_ip;
      server_port = e.src_port;
      client_port = e.dst_port;
      server_mac = get_src_mac p;
      client_mac = get_dst_mac p;
      protocol = info.behavior_id;
      created_time = now;
      refresh_time = now;
    }
    else record s {
      server_ip = e.dst_ip;
      client_ip = e.src_ip;
      server_port = e.dst_port;
      client_port = e.src_port;
      server_mac = get_dst_mac p;
      client_mac = get_src_mac p;
      protocol = info.behavior_id;
      created_time = now;
      refresh_time = now;
    }

-- a session's own ends, with the server for the source
abbrev pub session_ends : CSession → Ends
session_ends s = record {
  src_ip = s.server_ip;
  dst_ip = s.client_ip;
  src_port = s.server_port;
  dst_port = s.client_port;
}

-- `push_back` of a new object to the bucket of its own ends
abbrev pub inserted : CSession → CSessionHashTable → CSessionHashTable
inserted s t =
    let index = hash_val (session_ends s) in
    record {
      cseshash = update t.cseshash index (t.cseshash index ++ t.next ∷ []);
      objects = update t.objects t.next s;
      next = suc t.next;
    }

-- `CSessionHashTable::Create`
unfoldable pub create :
    Heap
    → CSession
    → ℕ
    → CFormatPacket
    → CBhvInf
    → CSessionHashTable
    → Outcome (ℕ × CSessionHashTable)
create heap junk now p info t = do
  blank ← new_session heap junk
  e ← ends_of p
  ok (t.next, inserted (assign now info e p blank) t)
