-- ===== src/HttpParse/Returns.antt =====
-- `Parse` of HttpParse.cpp as a whole, and the fuel of its loops.
use http_decoder.Base.{
  ℕ, ◌^◌, ◌<◌, ◌≡◌, ◌≢◌, refl, arith, Bool-cases, inl, inr, ◌||◌, not, is_some, bytes_of, Option,
  none, some, ◌==◌, Outcome, ok, fault, diverges, ◌>>=◌, Bytes, Heap, length, memset_zero,
}
use http_decoder.Buffer.{CBuffer, reset}
use http_decoder.HttpParse.Exchange.{both_sides, after_parse, parse}
use http_decoder.HttpParse.Halts.{Halts, both_sides-Halts}
use http_decoder.HttpParse.Steps.{Answer, done, refused, crashed}
use http_decoder.HttpParse.Termination.{Ends}
use http_decoder.HttpParse.{LexicalCast}
use http_decoder.Public.{CResult}
use http_decoder.Session.{CSession, reset_session}

bind-Ends :
    {A B : Type 0} (m : Outcome A) (f : A → Outcome B)
    → Ends m
    → ((a : A) → Ends (f a))
    → Ends (m >>= f)
bind-Ends (ok a) f e g = g a
bind-Ends (fault c) f e g = e

memset_zero-Ends : (m : Option Bytes) (n : ℕ) → Ends (memset_zero m n)
unfolding memset_zero
memset_zero-Ends m n = ground arith

reset-Ends : (heap : Heap) (b : CBuffer) → Ends (reset heap b)
unfolding reset
reset-Ends heap b = go b.buf refl
  where
    go : (x : Option Bytes) → b.buf ≡ x → Ends (reset heap b)
    go none e =
        rw (reset, e)
          (bind-Ends _ _ (bind-Ends _ _ (memset_zero-Ends (heap 2048) b.free) λ m. tt) λ c. tt)
    go (some m) e = rw (reset, e) tt

reset_session-Ends : (heap : Heap) (s : CSession) → Ends (reset_session heap s)
unfolding reset_session
reset_session-Ends heap s =
    bind-Ends _ _ (reset-Ends heap s.req_buf) λ q. bind-Ends _ _ (reset-Ends heap s.rsp_buf) λ p. tt

after_parse-Ends :
    (boost : LexicalCast) (heap : Heap) (s : CSession) (a : Answer CResult (Unit {0}))
    → Halts a
    → Ends (after_parse boost heap s a)
unfolding after_parse
after_parse-Ends boost heap s (done u pos r) h =
    bind-Ends _ _ (reset_session-Ends heap (record s { result = r })) λ t. tt
after_parse-Ends boost heap s (refused pos r) h =
    bind-Ends _ _ (reset_session-Ends heap (record s { result = r })) λ t. tt
after_parse-Ends boost heap s (crashed e) h = h

Ends-ne-diverges : {A : Type 0} (x : Outcome A) → Ends x → x ≢ fault diverges
Ends-ne-diverges (ok a) e = λ h. cc
Ends-ne-diverges (fault c) e = λ h. e (cc)

-- A call of `Parse` on a session whose blocks are shorter than 2 ^ 31 comes to an end, whatever they
-- hold: its loops never use up the fuel that the model gives them.
pub parse-ne-diverges :
    (boost : LexicalCast) (heap : Heap) (s : CSession)
    → length (bytes_of s.req_buf.buf) < 2 ^ 31
    → length (bytes_of s.rsp_buf.buf) < 2 ^ 31
    → parse boost heap s ≢ fault diverges
unfolding parse
parse-ne-diverges boost heap s h k =
    Ends-ne-diverges (parse boost heap s)
      (elim (Bool-cases (
        not (is_some s.req_buf.buf)
        || not (is_some s.rsp_buf.buf)
        || s.req_buf.len == 0
        || s.rsp_buf.len == 0)) [
          | inl early ↦ rw early (bind-Ends _ _ (reset_session-Ends heap s) λ t. tt)
          | inr full ↦ rw full (
              after_parse-Ends boost heap s
                (both_sides boost (bytes_of s.req_buf.buf) s.req_buf.len (bytes_of s.rsp_buf.buf)
                  s.rsp_buf.len s.result)
                (both_sides-Halts boost (bytes_of s.req_buf.buf) (bytes_of s.rsp_buf.buf)
                  s.req_buf.len s.rsp_buf.len s.result h k))
        ])
