-- ===== src/Handle/Delivery.antt =====
-- A packet with data that is new to its session, through `CHandle::Process` of Handle.cpp.
use http_decoder.Base.{
  ℕ, ◌-◌, ◌%◌, ◌^◌, ◌≡◌, ◌≢◌, refl, ap, ◌∙◌, inl, inr, Bool, true, false, Bool-cases, ltb, ◌==◌,
  ==_iff, List, [], ◌∷◌, Option, some, ok, ◌>>=◌, ntohl, if◌then◌else◌,
}
use http_decoder.FormatPacket.{CFormatPacket, get_data_len, tcp_seq, tcp_ack_seq, tcp_fin, tcp_rst}
use http_decoder.Handle.Aging.{CHandle, Step, time_out_check}
use http_decoder.Handle.Assembly.{IsWhole}
use http_decoder.Handle.{
  Env, put_session, session_at, session_for, by_match_way, take_data, continue_session, assemble,
  process, print_stored,
}
use http_decoder.HttpParse.Send.{Output}
use http_decoder.HttpParse.{LexicalCast}
use http_decoder.Public.{timeout_check_dur}
use http_decoder.Session.{CSession}
use http_decoder.SessionHash.Operations.{is_same_ses-cong}
use http_decoder.SessionHash.{
  CBhvInf, Ends, CSessionHashTable, session_ends, ends_of, find, first_same, hash_val, is_same_ses,
  update, refreshed,
}

-- a whole packet with data, neither FIN nor RST, with its ends and its sequence number
pub record IsData (p : CFormatPacket) (e : Ends) (seq : ℕ) : Type 0 where
  pub ends : ends_of p ≡ ok e
  pub whole : IsWhole p
  pub no_fin : tcp_fin p ≡ ok 0
  pub no_rst : tcp_rst p ≡ ok 0
  pub raw : ℕ
  pub seq_at : tcp_seq p ≡ ok raw
  pub seq_is : ntohl raw ≡ seq
  pub ack : ℕ
  pub ack_at : tcp_ack_seq p ≡ ok ack
  pub filled : (get_data_len p == 0) ≡ false

-- Less than two minutes have gone by since the time of the last check.
abbrev pub IsEarly : Env → CHandle → Type 0
IsEarly env h = ltb (env.check_time - h.last_time_out_check) timeout_check_dur ≡ true

-- what `Process` gives behind `assemble`
abbrev pub finished : ℕ → Option ℕ → CHandle × List Output × Bool → Step (Option ℕ)
finished id sesp r = record { handle = r.0; out = r.1; value = if r.2 then some id else sesp }

abbrev pub numbered : ℕ → ℕ → CSession → CSession
numbered seq ack s = record s { seq_no = seq; ack_seq_no = ack }

module _ (boost : LexicalCast) (env : Env) (p : CFormatPacket) (info : CBhvInf) (h g : CHandle)
    (id seq : ℕ) (sesp : Option ℕ) {e : Ends} where
  pub process_opened :
      IsEarly env h
      → ends_of p ≡ ok e
      → session_for env p info e h ≡ ok (id, g)
      → process boost env p (some info) h sesp ≡ (
          assemble boost env p info id e g >>= λ r.
          print_stored r.2 (session_at r.0 id) >>= λ _. ok (finished id sesp r))
  unfolding process time_out_check
  process_opened early ends opened = rw (process, early) (rw (ends, opened) refl)

  pub process_data :
      IsEarly env h
      → (d : IsData p e seq) → session_for env p info e h ≡ ok (id, g)
      → (session_at g id).seq_no ≢ seq
      → process boost env p (some info) h sesp ≡ (
          by_match_way boost env p id info.idt_match_way
            (put_session id (numbered seq (ntohl d.ack) (session_at g id)) g)
          >>= λ r. print_stored r.2 (session_at r.0 id) >>= λ _. ok (finished id sesp r))
  unfolding assemble continue_session take_data
  process_data early d opened new =
      let next : ((session_at g id).seq_no == ntohl d.raw) ≡ false =
        rw d.seq_is (elim (Bool-cases ((session_at g id).seq_no == seq)) [
          | inl again ↦ absurd (new ((==_iff _ _).0 again))
          | inr next ↦ next
        ]) in
      process_opened early d.ends opened
      ∙ rw (assemble, d.no_fin, d.no_rst)
          (rw (continue_session, d.seq_at, next, d.filled)
            (rw (take_data, d.ack_at, d.seq_is) refl))

-- The search goes by the ends of the sessions alone.
first_same-ends :
    (e : Ends) (f g : ℕ → CSession) (ids : List ℕ)
    → ((j : ℕ) → session_ends (g j) ≡ session_ends (f j))
    → first_same (is_same_ses e) g ids ≡ first_same (is_same_ses e) f ids
unfolding first_same
first_same-ends e f g [] same = refl
first_same-ends e f g (id ∷ ids) same =
    rw (is_same_ses-cong e (g id) (f id) (same id), first_same-ends e f g ids same) refl

-- `Find` gives the session.
abbrev pub Finds : Ends → CSessionHashTable → ℕ → Type 0
Finds e t id = first_same (is_same_ses e) t.objects (t.cseshash (hash_val e)) ≡ some id

pub Finds-put_session :
    (e : Ends) (h : CHandle) (id : ℕ) (s : CSession)
    → session_ends s ≡ session_ends (session_at h id)
    → Finds e h.ses_hash id
    → Finds e (put_session id s h).ses_hash id
Finds-put_session e h id s same found =
    first_same-ends e h.ses_hash.objects (update h.ses_hash.objects id s)
      (h.ses_hash.cseshash (hash_val e)) at
    ∙ found
  where
    at : (j : ℕ) → session_ends (update h.ses_hash.objects id s j) ≡ session_ends (session_at h j)
    at j = elim (Bool-cases (id == j)) [
      | inl here ↦ rw here (same ∙ ap (λ k. session_ends (session_at h k)) ((==_iff id j).0 here))
      | inr there ↦ rw there refl
    ]

-- The session that `Find` gives, refreshed.
pub session_for-Finds :
    (env : Env) (p : CFormatPacket) (info : CBhvInf) (e : Ends) (h : CHandle) (id : ℕ)
    → Finds e h.ses_hash id
    → session_for env p info e h
      ≡ ok (
        id,
        put_session id (record (session_at h id) { refresh_time = env.find_time % 2 ^ 32 }) h,
      )
unfolding session_for find
session_for-Finds env p info e h id found =
    let met : find env.find_time e h.ses_hash ≡ refreshed env.find_time h.ses_hash (some id) =
      ap (refreshed env.find_time h.ses_hash) found in
    let first = ap (λ (r : Option ℕ × CSessionHashTable). r.0) met in
    let second = ap (λ (r : Option ℕ × CSessionHashTable). r.1) met in
    rw (session_for, first, second) refl
