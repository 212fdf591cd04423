-- ===== src/Handle/Invariant.antt =====
-- What a call of `Parse` from Handle.cpp leaves of the sessions as it was.
use http_decoder.Base.{
  ℕ, ◌≡◌, inl, inr, refl, subst, ◌∙◌, arith, Bool-cases, not, ◌||◌, is_some, bytes_of, List, [],
  ◌==◌, Outcome, ok, fault, Heap, >>=-eq-ok, ◌>>=◌, ==_iff,
}
use http_decoder.Handle.Aging.{parse_in}
use http_decoder.HttpParse.Exchange.{parse, both_sides, after_parse}
use http_decoder.HttpParse.Send.{Output, send}
use http_decoder.HttpParse.Steps.{Answer, done, refused, crashed}
use http_decoder.HttpParse.{LexicalCast}
use http_decoder.Public.{CResult}
use http_decoder.Session.{CSession, reset_session}
use http_decoder.SessionHash.{session_ends, update}

-- What no parse changes: the ends of a session and the time of its last packet.
pub record IsKept (s t : CSession) : Type 0 where
  pub same_ends : session_ends t ≡ session_ends s
  pub same_time : t.refresh_time ≡ s.refresh_time
  pub same_seq : t.seq_no ≡ s.seq_no

pub IsKept-refl : (s : CSession) → IsKept s s
IsKept-refl s = record { same_ends = refl; same_time = refl; same_seq = refl }

pub IsKept-trans : {s t u : CSession} → IsKept s t → IsKept t u → IsKept s u
IsKept-trans a b = record {
  same_ends = b.same_ends ∙ a.same_ends;
  same_time = b.same_time ∙ a.same_time;
  same_seq = b.same_seq ∙ a.same_seq;
}

abbrev pub Leaves : CSession → Outcome (CSession × List Output) → Type 0
Leaves s (ok (t, out)) = IsKept s t
Leaves s (fault e) = Unit {0}

reset_session-IsKept :
    (heap : Heap) (s : CSession) (r : CResult) (out : List Output)
    → Leaves s (reset_session heap (record s { result = r }) >>= λ t. ok (t, out))
unfolding reset_session
reset_session-IsKept heap s r out = ground arith

after_parse-Leaves :
    (boost : LexicalCast) (heap : Heap) (s : CSession) (a : Answer CResult (Unit {0}))
    → Leaves s (after_parse boost heap s a)
unfolding after_parse
after_parse-Leaves boost heap s (done u pos r) =
    reset_session-IsKept heap s r (send boost (record s { result = r }))
after_parse-Leaves boost heap s (refused pos r) = reset_session-IsKept heap s r []
after_parse-Leaves boost heap s (crashed e) = tt

pub parse-Leaves :
    (boost : LexicalCast) (heap : Heap) (s : CSession) → Leaves s (parse boost heap s)
unfolding parse
parse-Leaves boost heap s =
    elim (Bool-cases (
      not (is_some s.req_buf.buf)
      || not (is_some s.rsp_buf.buf)
      || s.req_buf.len == 0
      || s.rsp_buf.len == 0)) [
        | inl early ↦ rw early (reset_session-IsKept heap s s.result [])
        | inr full ↦ rw full (
            after_parse-Leaves boost heap s (
              both_sides boost (bytes_of s.req_buf.buf) s.req_buf.len (bytes_of s.rsp_buf.buf)
                s.rsp_buf.len s.result))
      ]

abbrev pub AllKept : (ℕ → CSession) → (ℕ → CSession) → Type 0
AllKept f g = (id : ℕ) → IsKept (f id) (g id)

pub AllKept-refl : (f : ℕ → CSession) → AllKept f f
AllKept-refl f id = IsKept-refl (f id)

pub AllKept-trans : {f g h : ℕ → CSession} → AllKept f g → AllKept g h → AllKept f h
AllKept-trans a b id = IsKept-trans (a id) (b id)

pub update-AllKept :
    (f : ℕ → CSession) (id : ℕ) (s : CSession) → IsKept (f id) s → AllKept f (update f id s)
update-AllKept f id s k j = elim (Bool-cases (id == j)) [
  | inl here ↦ rw here (subst (λ i. IsKept (f i) s) ((==_iff id j).0 here) k)
  | inr there ↦ rw there (IsKept-refl (f j))
]

module _ (boost : LexicalCast) (heap : Heap) where
  pub parse_in-AllKept :
      (id : ℕ) (f : ℕ → CSession) (g : ℕ → CSession) (out : List Output)
      → parse_in boost heap id f ≡ ok (g, out)
      → AllKept f g
  unfolding parse_in
  parse_in-AllKept id f g out e =
      let ((s, o), parsed, rest) = >>=-eq-ok (parse boost heap (f id)) _ e in
      let kept : IsKept (f id) s = rw parsed at (parse-Leaves boost heap (f id)) in
      let made : update f id s ≡ g = cc in subst (AllKept f) made (update-AllKept f id s kept)
