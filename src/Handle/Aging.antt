-- ===== src/Handle/Aging.antt =====
-- `CHandle::TimeOutCheck` of Handle.cpp: the walk over the buckets that lets old sessions go.
use http_decoder.Base.{
  ℕ, zero, suc, ◌-◌, Bool, ◌&&◌, ◌||◌, List, [], ◌∷◌, ◌++◌, ltb, leb, if◌then◌else◌, Outcome, ok,
  ◌>>=◌, Heap,
}
use http_decoder.Buffer.{get_buf_len}
use http_decoder.HttpParse.Exchange.{parse}
use http_decoder.HttpParse.Send.{Output}
use http_decoder.HttpParse.{LexicalCast}
use http_decoder.Public.{timeout, timeout_check_dur}
use http_decoder.Session.{CSession}
use http_decoder.SessionHash.{CSessionHashTable, update}

pub record CHandle : Type 0 where
  pub ses_hash : CSessionHashTable
  pub last_time_out_check : ℕ

-- what a call leaves: the state, the records written, and a value
pub record Step (A : Type 0) : Type 0 where
  pub handle : CHandle
  pub out : List Output
  pub value : A

-- `for(uint32_t i = 0; i < 65535; i++)`: one bucket fewer than the table has
abbrev pub scanned_buckets : ℕ
scanned_buckets = 65535

abbrev pub holds_data : CSession → Bool
holds_data s = ltb 0 (get_buf_len s.req_buf) || ltb 0 (get_buf_len s.rsp_buf)

-- Times are seconds, and a difference below 0 is below every limit, as is the truncated one.
abbrev pub idle : ℕ → CSession → ℕ
idle now s = now - s.refresh_time

module _ (boost : LexicalCast) (heap : Heap) where
  -- `_httpParse.Parse(sesptr)` on the shared object
  unfoldable pub parse_in : ℕ → (ℕ → CSession) → Outcome ((ℕ → CSession) × List Output)
  parse_in id objects = do (s, out) ← parse boost heap (objects id); ok (update objects id s, out)

  unfoldable pub parse_at : ℕ → CHandle → Outcome (CHandle × List Output)
  parse_at id h = do
    (objects, out) ← parse_in id h.ses_hash.objects
    ok (record h { ses_hash = record h.ses_hash { objects = objects } }, out)

  -- a session with data that was quiet for a minute is parsed
  abbrev pub parse_if_quiet : ℕ → ℕ → (ℕ → CSession) → Outcome ((ℕ → CSession) × List Output)
  parse_if_quiet now id objects =
      if holds_data (objects id) && ltb 60 (idle now (objects id))
      then parse_in id objects
      else ok (objects, [])

  -- one list; what is left of it, the objects and the output
  unfoldable pub age_bucket :
      ℕ → List ℕ → (ℕ → CSession) → Outcome (List ℕ × (ℕ → CSession) × List Output)
  age_bucket now [] objects = ok ([], objects, [])
  age_bucket now (id ∷ ids) objects = do
    (objects', out) ← parse_if_quiet now id objects
    (rest, last, out') ← age_bucket now ids objects'
    ok (if leb timeout (idle now (objects' id)) then rest else id ∷ rest, last, out ++ out')

  -- the buckets from `i` on, as many as are left
  unfoldable pub age_buckets :
      ℕ → ℕ → ℕ → CSessionHashTable → Outcome (CSessionHashTable × List Output)
  age_buckets now zero i t = ok (t, [])
  age_buckets now (suc n) i t = do
    (ids, objects, out) ← age_bucket now (t.cseshash i) t.objects
    (t', out') ←
        age_buckets now n (suc i)
          (record t { cseshash = update t.cseshash i ids; objects = objects })
    ok (t', out ++ out')

  -- `_lastTimeOutCheck` is not set here.
  unfoldable pub time_out_check : ℕ → CHandle → Outcome (CHandle × List Output)
  time_out_check now h =
      if ltb (now - h.last_time_out_check) timeout_check_dur then ok (h, []) else (do
        (t, out) ← age_buckets now scanned_buckets 0 h.ses_hash
        ok (record h { ses_hash = t }, out))
