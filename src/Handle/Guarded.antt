-- ===== src/Handle/Guarded.antt =====
-- What `CHandle::Process` of Handle.cpp can run into: the parts in front of the data.
use http_decoder.Base.{
  ℕ, zero, suc, ◌<◌, ◌^◌, ◌≡◌, inl, inr, refl, Bool-cases, ◌&&◌, List, [], ◌∷◌, ltb, ◌==◌, some,
  ◌-◌, Bytes, Heap, Sized,
}
use http_decoder.Buffer.{buffer_size}
use http_decoder.FormatPacket.{CFormatPacket}
use http_decoder.Handle.Aging.{
  CHandle, idle, holds_data, parse_in, parse_at, parse_if_quiet, age_bucket, age_buckets,
  time_out_check, scanned_buckets,
}
use http_decoder.Handle.Good.{Guards, bind-Guards, IsGood, IsGood-cong, AllGood, parse_in-Guards}
use http_decoder.HttpParse.{LexicalCast}
use http_decoder.Public.{timeout_check_dur}
use http_decoder.Session.{CSession}
use http_decoder.SessionHash.{CBhvInf, CSessionHashTable, Ends, assign}

pub assign-IsGood :
    {limit : ℕ} (now : ℕ) (info : CBhvInf) (e : Ends) (p : CFormatPacket) (s : CSession)
    → IsGood limit s
    → IsGood limit (assign now info e p s)
unfolding assign
assign-IsGood now info e p s g =
    elim (Bool-cases (info.ip == e.src_ip && info.port == e.src_port)) [
      | inl here ↦ rw here (IsGood-cong s _ refl refl g)
      | inr there ↦ rw there (IsGood-cong s _ refl refl g)
    ]

module _ (boost : LexicalCast) (heap : Heap) {fresh : Bytes} (sized : Sized heap)
    (given : heap buffer_size ≡ some fresh) {limit : ℕ} (low : limit < 2 ^ 31) where
  parse_if_quiet-Guards :
      (now id : ℕ) (f : ℕ → CSession)
      → AllGood limit f
      → Guards (parse_if_quiet boost heap now id f) (λ r. AllGood limit r.0)
  parse_if_quiet-Guards now id f a =
      elim (Bool-cases (holds_data (f id) && ltb 60 (idle now (f id)))) [
        | inl quiet ↦ rw quiet (parse_in-Guards boost heap sized given low id f a)
        | inr busy ↦ rw busy a
      ]

  age_bucket-Guards :
      (now : ℕ) (ids : List ℕ) (f : ℕ → CSession)
      → AllGood limit f
      → Guards (age_bucket boost heap now ids f) (λ r. AllGood limit r.1)
  unfolding age_bucket
  age_bucket-Guards now [] f a = a
  age_bucket-Guards now (id ∷ ids) f a =
      bind-Guards (parse_if_quiet boost heap now id f) _ _ _ (parse_if_quiet-Guards now id f a)
        λ r g.
          bind-Guards (age_bucket boost heap now ids r.0) _ _ _ (age_bucket-Guards now ids r.0 g)
            λ q g'. g'

  age_buckets-Guards :
      (now n i : ℕ) (t : CSessionHashTable)
      → AllGood limit t.objects
      → Guards (age_buckets boost heap now n i t) (λ r. AllGood limit r.0.objects)
  unfolding age_buckets
  age_buckets-Guards now zero i t a = a
  age_buckets-Guards now (suc n) i t a =
      bind-Guards (age_bucket boost heap now (t.cseshash i) t.objects) _ _ _
        (age_bucket-Guards now (t.cseshash i) t.objects a)
        λ r g.
          bind-Guards (age_buckets boost heap now n (suc i) _) _ _ _
            (age_buckets-Guards now n (suc i) _ g) λ q g'. g'

  pub time_out_check-Guards :
      (now : ℕ) (h : CHandle)
      → AllGood limit h.ses_hash.objects
      → Guards (time_out_check boost heap now h) (λ r. AllGood limit r.0.ses_hash.objects)
  unfolding time_out_check
  time_out_check-Guards now h a =
      elim (Bool-cases (ltb (now - h.last_time_out_check) timeout_check_dur)) [
        | inl early ↦ rw early a
        | inr due ↦ rw due (
            bind-Guards (age_buckets boost heap now scanned_buckets 0 h.ses_hash) _ _ _
              (age_buckets-Guards now scanned_buckets 0 h.ses_hash a) λ r g. g)
      ]

  pub parse_at-Guards :
      (id : ℕ) (h : CHandle)
      → AllGood limit h.ses_hash.objects
      → Guards (parse_at boost heap id h) (λ r. AllGood limit r.0.ses_hash.objects)
  unfolding parse_at
  parse_at-Guards id h a =
      bind-Guards (parse_in boost heap id h.ses_hash.objects) _ _ _
        (parse_in-Guards boost heap sized given low id h.ses_hash.objects a) λ r g. g
