-- ===== src/Handle/Calls.antt =====
-- Calls of `CHandle::Process` of Handle.cpp one after another.
use http_decoder.Base.{
  ℕ, ◌≡◌, refl, subst, List, [], ◌∷◌, ◌++◌, append_assoc, Option, some, Outcome, ok, ◌>>=◌,
  >>=-eq-ok,
}
use http_decoder.FormatPacket.{CFormatPacket}
use http_decoder.Handle.Aging.{CHandle}
use http_decoder.Handle.Process.{process-IsValid}
use http_decoder.Handle.{Env, process}
use http_decoder.HttpParse.Send.{Output}
use http_decoder.HttpParse.{LexicalCast}
use http_decoder.SessionHash.Table.{IsValid}
use http_decoder.SessionHash.{CBhvInf}

-- a packet with its info, and what the call of `Process` on it takes from outside
pub record Call : Type 0 where
  pub env : Env
  pub packet : CFormatPacket
  pub info : CBhvInf

abbrev pub packets : List Call → List CFormatPacket
packets [] = []
packets (c ∷ rest) = c.packet ∷ packets rest

-- `Process` on each of them
unfoldable pub process_all :
    LexicalCast → List Call → CHandle → Option ℕ → Outcome (CHandle × List Output × Option ℕ)
process_all boost [] h sesp = ok (h, [], sesp)
process_all boost (c ∷ rest) h sesp = do
  s ← process boost c.env c.packet (some c.info) h sesp
  (last, out, value) ← process_all boost rest s.handle s.value
  ok (last, s.out ++ out, value)

abbrev pub Result : Type 0
Result = CHandle × List Output × Option ℕ

same_result : {n m : Result} → ok n ≡ ok m → n ≡ m
same_result e = cc

module _ (boost : LexicalCast) where
  pub process_all-append :
      (first rest : List Call) (h : CHandle) (sesp : Option ℕ) (n m : Result)
      → process_all boost first h sesp ≡ ok n
      → process_all boost rest n.0 n.2 ≡ ok m
      → process_all boost (first ++ rest) h sesp ≡ ok (m.0, n.1 ++ m.1, m.2)
  unfolding process_all
  process_all-append [] rest h sesp n m e f =
      let same : (h, [], sesp) ≡ n = same_result e in
      subst
        (λ (n : Result).
          process_all boost rest n.0 n.2 ≡ ok m
          → process_all boost rest h sesp ≡ ok (m.0, n.1 ++ m.1, m.2))
        same (λ f'. f') f
  process_all-append (c ∷ first) rest h sesp n m e f =
      let (s, done, more) = >>=-eq-ok (process boost c.env c.packet (some c.info) h sesp) _ e in
      let (k, done', last) = >>=-eq-ok (process_all boost first s.handle s.value) _ more in
      let same : (k.0, s.out ++ k.1, k.2) ≡ n = same_result last in
      subst
        (λ (n : Result).
          process_all boost rest n.0 n.2 ≡ ok m
          → process_all boost (c ∷ (first ++ rest)) h sesp ≡ ok (m.0, n.1 ++ m.1, m.2))
        same
        (λ f'.
          rw (process_all, done)
            (rw (process_all-append first rest s.handle s.value k m done' f')
              (rw (append_assoc s.out k.1 m.1) refl)))
        f

  pub process_all-IsValid :
      (calls : List Call) (h : CHandle) (sesp : Option ℕ) (n : Result)
      → process_all boost calls h sesp ≡ ok n
      → IsValid h.ses_hash
      → IsValid n.0.ses_hash
  unfolding process_all
  process_all-IsValid [] h sesp n e v =
      subst (λ (n : Result). IsValid n.0.ses_hash) (same_result e) v
  process_all-IsValid (c ∷ rest) h sesp n e v =
      let (s, done, more) = >>=-eq-ok (process boost c.env c.packet (some c.info) h sesp) _ e in
      let (k, done', last) = >>=-eq-ok (process_all boost rest s.handle s.value) _ more in
      subst (λ (n : Result). IsValid n.0.ses_hash) (same_result last)
        (process_all-IsValid rest s.handle s.value k done'
          (process-IsValid boost c.env c.packet h sesp s (some c.info) done v))
