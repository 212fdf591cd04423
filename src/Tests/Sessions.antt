-- ===== src/Tests/Sessions.antt =====
-- SessionHash.cpp with one session in the table, and the check of Handle.cpp for old ones.
use http_decoder.Base.{
  ℕ, zero, suc, leb, if◌then◌else◌, ◌≡◌, ◌<◌, ◌↔◌, ◌⊎◌, inl, inr, refl, arith, true, false, List,
  [], ◌∷◌, none, some, ◌==◌, Bool-cases, ==_iff, ok,
}
use http_decoder.Handle.Aging.{
  CHandle, idle, holds_data, age_bucket, age_buckets, scanned_buckets, time_out_check,
}
use http_decoder.Handle.Timeouts.{IsChecked, time_out_check-IsChecked}
use http_decoder.Public.{timeout}
use http_decoder.Session.{CSession}
use http_decoder.SessionHash.Hash.{is_same_ses_iff}
use http_decoder.SessionHash.Table.{IsValid, All, Distinct}
use http_decoder.SessionHash.AsMap.{same_connection, find-remove_map}
use http_decoder.SessionHash.{
  CBhvInf, CSessionHashTable, Ends, swap, session_ends, hash_val, is_same_ses, faces, update, find,
  remove, create, ends_of,
}
use http_decoder.Tests.Setting.{zeroed, casts, exchange, session_with}

-- The exchange's session, alone in its bucket.
abbrev home : ℕ
home = hash_val (session_ends exchange)

abbrev pub one_session : CSessionHashTable
one_session = record {
  cseshash = update (λ i. []) home (0 ∷ []);
  objects = λ id. exchange;
  next = 1;
}

pub one_session-IsValid : IsValid one_session
one_session-IsValid = record { placed = placed_at; distinct = Distinct-at }
  where
    placed_at :
        (i : ℕ)
        → All (λ id. (id < 1) × (hash_val (session_ends exchange) ≡ i)) (one_session.cseshash i)
    placed_at i = elim (Bool-cases (home == i)) [
      | inl here ↦ rw here ((omega arith, (==_iff home i).0 here), tt)
      | inr there ↦ rw there tt
    ]

    Distinct-at : (i : ℕ) → Distinct (λ id. exchange) (one_session.cseshash i)
    Distinct-at i = elim (Bool-cases (home == i)) [
      | inl here ↦ rw here (tt, tt)
      | inr there ↦ rw there tt
    ]

-- The same ends with the client for the source.
abbrev from_client : Ends
from_client = record { src_ip = 0x0a000002; dst_ip = 0x0a000001; src_port = 1025; dst_port = 80 }

client_found : (find 7 from_client one_session).0 ≡ some 0
unfolding find hash_val is_same_ses http_decoder.SessionHash.first_same faces
client_found = refl

is_same_ses_iff_example :
    (is_same_ses from_client exchange ≡ true)
    ↔ ((session_ends exchange ≡ from_client) ⊎ (session_ends exchange ≡ swap from_client))
is_same_ses_iff_example = is_same_ses_iff from_client exchange

abbrev elsewhere : Ends
elsewhere = record { src_ip = 1; dst_ip = 2; src_port = 3; dst_port = 4 }

find-remove_map_example :
    (find 7 elsewhere (remove from_client one_session)).0
    ≡ (if same_connection from_client elsewhere then none else (find 7 elsewhere one_session).0)
find-remove_map_example = find-remove_map 7 from_client elsewhere one_session one_session-IsValid

abbrev pub idle_handle : CHandle
idle_handle = record { ses_hash = one_session; last_time_out_check = 100 }

early : time_out_check casts zeroed 150 idle_handle ≡ ok (idle_handle, [])
unfolding time_out_check
early = refl

-- Where no session holds data, a check parses none and comes to its end.
module _ (now : ℕ) (f : ℕ → CSession) (dry : (id : ℕ) → holds_data (f id) ≡ false) where
  dry_bucket :
      (ids : List ℕ) → (rest : List ℕ) × (age_bucket casts zeroed now ids f ≡ ok (rest, f, []))
  unfolding age_bucket
  dry_bucket [] = ([], refl)
  dry_bucket (id ∷ ids) =
      let (rest, e) = dry_bucket ids in
      (if leb timeout (idle now (f id)) then rest else id ∷ rest, rw (dry id, e))

  dry_buckets :
      (n i : ℕ) (t : CSessionHashTable)
      → t.objects ≡ f
      → (u : CSessionHashTable) × (age_buckets casts zeroed now n i t ≡ ok (u, []))
  unfolding age_buckets
  dry_buckets zero i t same = (t, refl)
  dry_buckets (suc n) i t same =
      let (rest, e) = dry_bucket (t.cseshash i) in
      let (u, e') =
        dry_buckets n (suc i) (record t { cseshash = update t.cseshash i rest; objects = f })
          refl in
      (u, rw (same, e) (rw e'))

abbrev dry_session : CSession
dry_session = session_with [] []

abbrev old_handle : CHandle
old_handle = record {
  ses_hash = record one_session { objects = λ id. dry_session };
  last_time_out_check = 100;
}

aged :
    (u : CSessionHashTable) × (time_out_check casts zeroed 9000 old_handle
      ≡ ok (record old_handle { ses_hash = u }, []))
unfolding time_out_check http_decoder.Buffer.get_buf_len
aged =
    let (u, e) =
      dry_buckets 9000 (λ id. dry_session) (λ id. refl) scanned_buckets 0 old_handle.ses_hash
        refl in
    (u, rw e)

time_out_check-IsChecked_example :
    IsChecked 9000 old_handle (record old_handle { ses_hash = aged.0 })
time_out_check-IsChecked_example =
    time_out_check-IsChecked casts zeroed 9000 old_handle (record old_handle { ses_hash = aged.0 })
      [] (omega arith) aged.1
