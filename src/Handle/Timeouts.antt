-- ===== src/Handle/Timeouts.antt =====
-- `CHandle::TimeOutCheck` of Handle.cpp: what it takes out of the table, and what it leaves.
use http_decoder.Base.{
  ℕ, zero, suc, ◌+◌, ◌-◌, ◌<◌, ◌≤◌, ◌≡◌, inl, inr, refl, subst, subst₂, ◌∙◌, arith, false,
  Bool-cases, ◌&&◌, List, [], ◌∷◌, ltb, leb, ◌==◌, if◌then◌else◌, ok, Heap, >>=-eq-ok, ==_iff,
  le→ltb_false,
}
use http_decoder.Handle.Aging.{
  CHandle, idle, holds_data, parse_if_quiet, age_bucket, age_buckets, time_out_check,
  scanned_buckets,
}
use http_decoder.Handle.Invariant.{AllKept, AllKept-refl, AllKept-trans, parse_in-AllKept}
use http_decoder.HttpParse.Send.{Output}
use http_decoder.HttpParse.{LexicalCast}
use http_decoder.Public.{timeout, timeout_check_dur}
use http_decoder.Session.{CSession}
use http_decoder.SessionHash.Operations.{reidentify}
use http_decoder.SessionHash.Table.{
  All, IsValid, Sub, nil, keep, skip, Sub-refl, Sub-trans, update-Sub, narrow-IsValid,
}
use http_decoder.SessionHash.{CSessionHashTable, update}

module _ (boost : LexicalCast) (heap : Heap) (now : ℕ) where
  quiet-AllKept :
      (id : ℕ) (f g : ℕ → CSession) (out : List Output)
      → parse_if_quiet boost heap now id f ≡ ok (g, out)
      → AllKept f g
  quiet-AllKept id f g out e = elim (Bool-cases (holds_data (f id) && ltb 60 (idle now (f id)))) [
    | inl quiet ↦ parse_in-AllKept boost heap id f g out (rw quiet at e)
    | inr busy ↦ let same : f ≡ g = cc (rw busy at e) in subst (AllKept f) same (AllKept-refl f)
  ]

  -- Who is left of a bucket: some of the entries, each of them fresh enough.
  record Aged (f : ℕ → CSession) (ids rest : List ℕ) (g : ℕ → CSession) : Type 0 where
    left : Sub rest ids
    young : All (λ id. idle now (f id) < timeout) rest
    kept : AllKept f g

  young-back :
      (f g : ℕ → CSession) (xs : List ℕ)
      → AllKept f g
      → All (λ id. idle now (g id) < timeout) xs
      → All (λ id. idle now (f id) < timeout) xs
  young-back f g [] k a = tt
  young-back f g (x ∷ xs) k a = (rw (k x).same_time at a.0, young-back f g xs k a.1)

  one_more :
      (id : ℕ) (ids : List ℕ) (f f' g : ℕ → CSession) (r : List ℕ)
      → AllKept f f'
      → Aged f' ids r g
      → Aged f (id ∷ ids) (if leb timeout (idle now (f' id)) then r else id ∷ r) g
  one_more id ids f f' g r k a =
      let young : All (λ x. idle now (f x) < timeout) r = young-back f f' r k a.young in
      elim (Bool-cases (leb timeout (idle now (f' id)))) [
        | inl old ↦
            rw old (record { left = skip id a.left; young = young; kept = AllKept-trans k a.kept })
        | inr new ↦
            let fresh : idle now (f' id) < timeout = ground arith in
            rw new (record {
              left = keep id a.left;
              young = (rw (k id).same_time at fresh, young);
              kept = AllKept-trans k a.kept;
            })
      ]

  age_bucket-Aged :
      (ids : List ℕ) (f : ℕ → CSession) (rest : List ℕ) (g : ℕ → CSession) (out : List Output)
      → age_bucket boost heap now ids f ≡ ok (rest, g, out)
      → Aged f ids rest g
  unfolding age_bucket
  age_bucket-Aged [] f rest g out e =
      let none_left : [] ≡ rest = cc in
      let same : f ≡ g = cc in
      record {
        left = subst (λ r. Sub r []) none_left nil;
        young = subst (λ r. All (λ id. idle now (f id) < timeout) r) none_left tt;
        kept = subst (AllKept f) same (AllKept-refl f);
      }
  age_bucket-Aged (id ∷ ids) f rest g out e =
      let ((f', o), quiet, more) = >>=-eq-ok (parse_if_quiet boost heap now id f) _ e in
      let ((r, g', o'), aged, last) = >>=-eq-ok (age_bucket boost heap now ids f') _ more in
      let k = quiet-AllKept id f f' o quiet in
      let a = age_bucket-Aged ids f' r g' o' aged in
      let left_over : (if leb timeout (idle now (f' id)) then r else id ∷ r) ≡ rest = cc last in
      let same : g' ≡ g = cc last in
      subst₂ (Aged f (id ∷ ids)) left_over same (one_more id ids f f' g' r k a)

  -- What the walk over the table did when it came to the end of its count.
  record AgedTable (n i : ℕ) (t u : CSessionHashTable) : Type 0 where
    kept : AllKept t.objects u.objects
    same_next : u.next ≡ t.next
    valid : IsValid t → IsValid u
    before : (j : ℕ) → j < i → u.cseshash j ≡ t.cseshash j
    behind : (j : ℕ) → i + n ≤ j → u.cseshash j ≡ t.cseshash j
    left : (j : ℕ) → Sub (u.cseshash j) (t.cseshash j)
    young :
        (j : ℕ) → i ≤ j → j < i + n → All (λ id. idle now (t.objects id) < timeout) (u.cseshash j)

  one_bucket_more :
      (n i : ℕ) (t u : CSessionHashTable) (ids : List ℕ) (f : ℕ → CSession)
      → Aged t.objects (t.cseshash i) ids f
      → AgedTable n (suc i) (record t { cseshash = update t.cseshash i ids; objects = f }) u
      → AgedTable (suc n) i t u
  one_bucket_more n i t u ids f a b = record {
    kept = AllKept-trans a.kept b.kept;
    same_next = b.same_next;
    valid = λ v.
        b.valid (reidentify _ f (λ id. (a.kept id).same_ends) (narrow-IsValid t i ids a.left v));
    before =
        λ j h. let other : (i == j) ≡ false = ground arith in b.before j (omega arith) ∙ rw other;
    behind =
        λ j h. let other : (i == j) ≡ false = ground arith in b.behind j (omega arith) ∙ rw other;
    left = λ j. Sub-trans (b.left j) (update-Sub t.cseshash i j ids a.left);
    young = λ j h k. elim (Bool-cases (i == j)) [
      | inl here ↦
          let at : i ≡ j = (==_iff i j).0 here in
          let found : u.cseshash j ≡ ids = b.before j (omega arith) ∙ rw here in rw found a.young
      | inr there ↦
          young-back t.objects f (u.cseshash j) a.kept (b.young j (ground arith) (omega arith))
    ];
  }

  age_buckets-AgedTable :
      (n i : ℕ) (t u : CSessionHashTable) (out : List Output)
      → age_buckets boost heap now n i t ≡ ok (u, out)
      → AgedTable n i t u
  unfolding age_buckets
  age_buckets-AgedTable zero i t u out e =
      let same : t ≡ u = cc in
      subst (AgedTable 0 i t) same (record {
        kept = AllKept-refl t.objects;
        same_next = refl;
        valid = λ v. v;
        before = λ j h. refl;
        behind = λ j h. refl;
        left = λ j. Sub-refl (t.cseshash j);
        young = λ j h k. absurd (omega arith);
      })
  age_buckets-AgedTable (suc n) i t u out e =
      let ((ids, f, o), aged, more) =
        >>=-eq-ok (age_bucket boost heap now (t.cseshash i) t.objects) _ e in
      let m = record t { cseshash = update t.cseshash i ids; objects = f } in
      let ((u', o'), rest, last) = >>=-eq-ok (age_buckets boost heap now n (suc i) m) _ more in
      let same : u' ≡ u = cc last in
      let a = age_bucket-Aged (t.cseshash i) t.objects ids f o aged in
      let b = age_buckets-AgedTable n (suc i) m u' o' rest in
      subst (AgedTable (suc n) i t) same (one_bucket_more n i t u' ids f a b)

-- What a check that is due leaves of the table.
pub record IsChecked (now : ℕ) (h g : CHandle) : Type 0 where
  pub young :
      (j : ℕ)
      → j < scanned_buckets
      → All (λ id. idle now (h.ses_hash.objects id) < timeout) (g.ses_hash.cseshash j)
  pub left : (j : ℕ) → Sub (g.ses_hash.cseshash j) (h.ses_hash.cseshash j)
  pub skipped : (j : ℕ) → scanned_buckets ≤ j → g.ses_hash.cseshash j ≡ h.ses_hash.cseshash j
  pub same_clock : g.last_time_out_check ≡ h.last_time_out_check

module _ (boost : LexicalCast) (heap : Heap) (now : ℕ) (h g : CHandle) (out : List Output) where
  -- When two minutes have gone by since the time of the last check, a check that returns leaves no
  -- session older than an hour in the first 65535 buckets and adds none. It does not look into the last
  -- bucket, and it does not move the time from which the two minutes count.
  pub time_out_check-IsChecked :
      timeout_check_dur ≤ now - h.last_time_out_check
      → time_out_check boost heap now h ≡ ok (g, out)
      → IsChecked now h g
  unfolding time_out_check
  time_out_check-IsChecked due e =
      let late : ltb (now - h.last_time_out_check) timeout_check_dur ≡ false =
        le→ltb_false _ _ due in
      let ((t, o), aged, last) =
        >>=-eq-ok (age_buckets boost heap now scanned_buckets 0 h.ses_hash) _ (rw late at e) in
      let same : record h { ses_hash = t } ≡ g = cc last in
      let a = age_buckets-AgedTable boost heap now scanned_buckets 0 h.ses_hash t o aged in
      subst (IsChecked now h) same (record {
        young = λ j k. a.young j (omega arith) (omega arith);
        left = a.left;
        skipped = λ j k. a.behind j (omega arith);
        same_clock = refl;
      })

  -- A check for old sessions that returns keeps a valid table valid, whether it was due or not.
  pub time_out_check-IsValid :
      time_out_check boost heap now h ≡ ok (g, out) → IsValid h.ses_hash → IsValid g.ses_hash
  unfolding time_out_check
  time_out_check-IsValid e v =
      elim (Bool-cases (ltb (now - h.last_time_out_check) timeout_check_dur)) [
        | inl early ↦
            let same : h ≡ g = cc (rw early at e) in subst (λ x. IsValid x.ses_hash) same v
        | inr late ↦
            let ((t, o), aged, last) =
              >>=-eq-ok (age_buckets boost heap now scanned_buckets 0 h.ses_hash) _
                (rw late at e) in
            let same : record h { ses_hash = t } ≡ g = cc last in
            subst (λ x. IsValid x.ses_hash) same
              ((age_buckets-AgedTable boost heap now scanned_buckets 0 h.ses_hash t o aged).valid v)
      ]
