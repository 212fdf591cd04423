-- ===== src/Handle/Faults.antt =====
-- What `CHandle::Process` of Handle.cpp can run into.
use http_decoder.Handle.Printing.{print_buffers_cases}
use http_decoder.Base.{
  ℕ, ◌+◌, ◌^◌, ◌<◌, ◌≡◌, ◌⊎◌, inl, inr, refl, Bool-cases, ◌||◌, ◌==◌, none, some, Option, ok, Bytes,
  Sized, AreBytes, ntohl, ◌>>=◌, Bool, true, false,
}
use http_decoder.Buffer.{buffer_size}
use http_decoder.FormatPacket.Layout.{IsView}
use http_decoder.FormatPacket.{CFormatPacket, get_data_len}
use http_decoder.Handle.Aging.{CHandle, Step, parse_at, time_out_check}
use http_decoder.Handle.Assembly.{IsWhole, size_of}
use http_decoder.Handle.Good.{
  Guards, bind-Guards, Guards-ends, IsGood, IsGood-cong, AllSound, AllGood, update-All, Meets,
  IsSound-HasBuffers,
}
use http_decoder.Handle.Guarded.{time_out_check-Guards, parse_at-Guards}
use http_decoder.Handle.Lookup.{
  session_for-Guards, tcp_seq_total, tcp_ack_seq_total, tcp_fin_total, tcp_rst_total,
}
use http_decoder.Handle.Stored.{AllGood-AllSound, Grows, by_match_way-Guards}
use http_decoder.Handle.{
  Env, session_at, session_for, close_session, take_data, continue_session, assemble, process,
  print_stored,
}
use http_decoder.HttpParse.{LexicalCast}
use http_decoder.SessionHash.Reading.{ends_of_total}
use http_decoder.SessionHash.{CBhvInf, Ends, remove}

-- The printing at the end of `Process` leaves the sessions as they are.
print_stored-Guards :
    {A : Type 0} {top : ℕ} (id : ℕ) (stored : Bool) (h : CHandle) (a : A) (P : A → Type 0)
    → AllSound top h.ses_hash.objects
    → P a
    → Guards (print_stored stored (session_at h id) >>= λ _. ok a) P
print_stored-Guards id false h a P sound p = p
print_stored-Guards id true h a P sound p =
    elim (print_buffers_cases (session_at h id) (IsSound-HasBuffers (session_at h id) (sound id))) [
      | inl ends ↦ rw ends p
      | inr runs_on ↦ rw runs_on (inr (inr refl))
    ]

module _ (boost : LexicalCast) (env : Env) {fresh : Bytes} (sized : Sized env.heap)
    (given : env.heap buffer_size ≡ some fresh) (p : CFormatPacket) (whole : IsWhole p)
    (small : size_of p < 2 ^ 15) {limit : ℕ} (low : limit < 2 ^ 31) where
  module _ (frame : Bytes) (view : IsView frame p) (bytes : AreBytes frame) (info : CBhvInf) where
    close_session-Guards :
        (id : ℕ) (e : Ends) (h : CHandle)
        → AllGood limit h.ses_hash.objects
        → Guards (close_session boost env p info id e h) (Grows (limit + size_of p))
    unfolding close_session remove
    close_session-Guards id e h a =
        bind-Guards (parse_at boost env.heap id h) _ _ _
          (parse_at-Guards boost env.heap sized given low id h a)
          λ r g. AllGood-AllSound limit (size_of p) r.0.ses_hash.objects g

    take_data-Guards :
        (id : ℕ) (h : CHandle)
        → AllGood limit h.ses_hash.objects
        → Guards (take_data boost env p info id h) (Grows (limit + size_of p))
    unfolding take_data
    take_data-Guards id h a =
        let (seq, e) = tcp_seq_total frame p view bytes in
        let (ack, e') = tcp_ack_seq_total frame p view bytes in
        rw (take_data, e, e')
          (by_match_way-Guards boost env sized given p whole small low id info.idt_match_way _ (
            update-All (IsGood limit) h.ses_hash.objects id _ a
              (IsGood-cong (session_at h id) _ refl refl (a id))))

    continue_session-Guards :
        (id : ℕ) (h : CHandle)
        → AllGood limit h.ses_hash.objects
        → Guards (continue_session boost env p info id h) (Grows (limit + size_of p))
    unfolding continue_session
    continue_session-Guards id h a =
        let same = AllGood-AllSound limit (size_of p) h.ses_hash.objects a in
        let (seq, e) = tcp_seq_total frame p view bytes in
        elim (Bool-cases ((session_at h id).seq_no == ntohl seq)) [
          | inl again ↦ rw (continue_session, e, again) same
          | inr next ↦ elim (Bool-cases (get_data_len p == 0)) [
            | inl empty ↦ rw (continue_session, e, next, empty) same
            | inr filled ↦ rw (continue_session, e, next, filled) (take_data-Guards id h a)
          ]
        ]

    assemble-Guards :
        (id : ℕ) (e : Ends) (h : CHandle)
        → AllGood limit h.ses_hash.objects
        → Guards (assemble boost env p info id e h) (Grows (limit + size_of p))
    unfolding assemble
    assemble-Guards id e h a =
        let (fin, f) = tcp_fin_total frame p view bytes in
        let (rst, r) = tcp_rst_total frame p view bytes in
        elim (Bool-cases (fin == 1 || rst == 1)) [
          | inl closing ↦ rw (assemble, f, r, closing) (close_session-Guards id e h a)
          | inr going_on ↦ rw (assemble, f, r, going_on) (continue_session-Guards id h a)
        ]

  pub process-Guards :
      (frame : Bytes) (info : Option CBhvInf) (h : CHandle) (sesp : Option ℕ)
      → IsView frame p
      → AreBytes frame
      → AllGood limit h.ses_hash.objects
      → Guards
          (process boost env p info h sesp)
          (λ r. AllSound (limit + size_of p) r.handle.ses_hash.objects)
  unfolding process
  process-Guards frame none h sesp view bytes a =
      bind-Guards (time_out_check boost env.heap env.check_time h) _ _ _
        (time_out_check-Guards boost env.heap sized given low env.check_time h a)
        λ r g. AllGood-AllSound limit (size_of p) r.0.ses_hash.objects g
  process-Guards frame (some i) h sesp view bytes a =
      let (e, ends) = ends_of_total frame p view bytes in
      bind-Guards (time_out_check boost env.heap env.check_time h) _ _ _
        (time_out_check-Guards boost env.heap sized given low env.check_time h a)
        λ aged good. rw ends (
          bind-Guards (session_for env p i e aged.0) _ _ _
            (session_for-Guards env p i e aged.0 sized given ends good)
            λ found good'.
              bind-Guards (assemble boost env p i found.0 e found.1) _ _ _
                (assemble-Guards frame view bytes i found.0 e found.1 good')
                λ r g. print_stored-Guards found.0 r.2 r.0 _ _ g g)

-- On a view of a frame of bytes that is captured whole and has fewer than 2 ^ 15 bytes of
-- payload, with an allocator that gives blocks of the size asked for and has one for a new
-- buffer, and where the session under every number, in use or not, has valid buffers in blocks
-- of at most `limit` bytes, the first block still or one with a NUL byte behind the contents,
-- and a response of another length than 2046 and 2047 bytes, and `limit` is below 2 ^ 31,
-- `Process` returns or meets one of three kinds of undefined behaviour, the missing `return` of
-- `GetMethod`, a version out of range when converted, and a buffer printed with `%s` whose block
-- has no NUL byte. Beside that it reads and writes nothing outside of a block and uses no null
-- pointer, on every branch, with the sessions that it ages, finds, makes, fills and closes.
-- Where it returns, the buffers are so again with the payload's length more for `limit`.
pub process_ends :
    (boost : LexicalCast) (env : Env) {fresh : Bytes} (frame : Bytes) (p : CFormatPacket)
    (info : Option CBhvInf) (h : CHandle) (sesp : Option ℕ) (limit : ℕ)
    → Sized env.heap
    → env.heap buffer_size ≡ some fresh
    → IsView frame p
    → AreBytes frame
    → IsWhole p
    → size_of p < 2 ^ 15
    → limit < 2 ^ 31
    → AllGood limit h.ses_hash.objects
    → ((r : Step (Option ℕ)) × (process boost env p info h sesp ≡ ok r)
        × AllSound (limit + size_of p) r.handle.ses_hash.objects)
      ⊎ Meets (process boost env p info h sesp)
process_ends boost env frame p info h sesp limit sized given view bytes whole small low good =
    Guards-ends (process boost env p info h sesp) _
      (process-Guards boost env sized given p whole small low frame info h sesp view bytes good)
