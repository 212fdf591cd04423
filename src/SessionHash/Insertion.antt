-- ===== src/SessionHash/Insertion.antt =====
-- `Create` of SessionHash.cpp where `Find` has failed.
use http_decoder.Base.{
  ℕ, suc, ◌<◌, ◌≡◌, ◌⊎◌, inl, inr, ap, subst, fun_ext, ◌∙◌, arith, true, false, Bool-cases, List,
  [], ◌∷◌, ◌++◌, Option, none, some, ◌==◌, ==_self, ==_iff, ok, Heap, >>=-eq-ok,
}
use http_decoder.FormatPacket.{CFormatPacket}
use http_decoder.Session.{CSession}
use http_decoder.SessionHash.Hash.{
  hash_val-swap, is_same_ses_iff, is_same_ses-sym, is_same_ses-swap,
}
use http_decoder.SessionHash.Table.{
  All, All-map, All-snoc, conflict, Distinct, IsValid, first_same-none, first_same-snoc,
}
use http_decoder.SessionHash.Operations.{Distinct-cong, find-some, find-none_inv, assign_ends}
use http_decoder.SessionHash.{
  Ends, swap, CSessionHashTable, CBhvInf, session_ends, hash_val, is_same_ses, first_same, update,
  inserted, refreshed, find, create, assign, ends_of, new_session,
}

Distinct-snoc :
    (f : ℕ → CSession) (xs : List ℕ) (x : ℕ)
    → Distinct f xs
    → All (λ y. conflict (f y) (f x) ≡ false) xs
    → Distinct f (xs ++ x ∷ [])
Distinct-snoc f [] x d a = (tt, tt)
Distinct-snoc f (y ∷ xs) x d a = (All-snoc _ xs x d.0 a.0, Distinct-snoc f xs x d.1 a.1)

module _ (e : Ends) (s : CSession) (t : CSessionHashTable) (v : IsValid t)
    (own : (session_ends s ≡ e) ⊎ (session_ends s ≡ swap e))
    (new : first_same (is_same_ses e) t.objects (t.cseshash (hash_val e)) ≡ none) where
  abbrev bucket : List ℕ
  bucket = t.cseshash (hash_val e)

  abbrev objects : ℕ → CSession
  objects = update t.objects t.next s

  index_eq : hash_val (session_ends s) ≡ hash_val e
  index_eq = go own
    where
      go : (session_ends s ≡ e) ⊎ (session_ends s ≡ swap e) → hash_val (session_ends s) ≡ hash_val e
      go (inl a) = ap hash_val a
      go (inr a) = ap hash_val a ∙ hash_val-swap e

  old_object : (id : ℕ) → id < t.next → objects id ≡ t.objects id
  old_object id h = let other : (t.next == id) ≡ false = ground arith in rw other

  new_object : objects t.next ≡ s
  new_object = rw (==_self t.next)

  same_own : (u : CSession) → is_same_ses (session_ends s) u ≡ is_same_ses e u
  same_own u = go own
    where
      go :
          (session_ends s ≡ e) ⊎ (session_ends s ≡ swap e)
          → is_same_ses (session_ends s) u ≡ is_same_ses e u
      go (inl a) = ap (λ x. is_same_ses x u) a
      go (inr a) = ap (λ x. is_same_ses x u) a ∙ is_same_ses-swap e u

  own_hit : is_same_ses e s ≡ true
  own_hit = (is_same_ses_iff e s).1 own

  others : All (λ y. (is_same_ses e (t.objects y) ≡ false) × (y < t.next)) bucket
  others =
      both bucket (first_same-none (is_same_ses e) t.objects bucket new) (v.placed (hash_val e))
    where
      both :
          (xs : List ℕ)
          → All (λ y. is_same_ses e (t.objects y) ≡ false) xs
          → All (λ y. (y < t.next) × (hash_val (session_ends (t.objects y)) ≡ hash_val e)) xs
          → All (λ y. (is_same_ses e (t.objects y) ≡ false) × (y < t.next)) xs
      both [] a b = tt
      both (x ∷ xs) a b = ((a.0, b.0.0), both xs a.1 b.1)

  found_in_bucket : first_same (is_same_ses e) objects (bucket ++ t.next ∷ []) ≡ some t.next
  found_in_bucket =
      first_same-snoc (is_same_ses e) objects bucket t.next
        (All-map bucket (λ y p. ap (is_same_ses e) (old_object y p.1) ∙ p.0) others)
        (ap (is_same_ses e) new_object ∙ own_hit)

  pub find-inserted : (now : ℕ) → (find now e (inserted s t)).0 ≡ some t.next
  find-inserted now =
      find-some now e (inserted s t) t.next (rw (index_eq, ==_self (hash_val e)) found_in_bucket)

  placed_at :
      (i : ℕ)
      → All
          (λ id. (id < suc t.next) × (hash_val (session_ends (objects id)) ≡ i))
          (update t.cseshash (hash_val e) (bucket ++ t.next ∷ []) i)
  placed_at i = elim (Bool-cases (hash_val e == i)) [
    | inl here ↦
        let at : hash_val e ≡ i = (==_iff (hash_val e) i).0 here in
        rw here (
          All-snoc _ bucket t.next
            (subst
              (λ k.
                All (λ id. (id < suc t.next) × (hash_val (session_ends (objects id)) ≡ k)) bucket)
              at (old (hash_val e)))
            (omega arith, ap (λ u. hash_val (session_ends u)) new_object ∙ index_eq ∙ at))
    | inr there ↦ rw there (old i)
  ]
    where
      old :
          (i : ℕ)
          → All
              (λ id. (id < suc t.next) × (hash_val (session_ends (objects id)) ≡ i))
              (t.cseshash i)
      old i =
          All-map (t.cseshash i)
            (λ id p.
              (omega (arith, p.0), ap (λ u. hash_val (session_ends u)) (old_object id p.0) ∙ p.1))
            (v.placed i)

  Distinct-at :
      (i : ℕ) → Distinct objects (update t.cseshash (hash_val e) (bucket ++ t.next ∷ []) i)
  Distinct-at i = elim (Bool-cases (hash_val e == i)) [
    | inl here ↦
        rw here
          (Distinct-snoc objects bucket t.next (old (hash_val e)) (All-map bucket apart others))
    | inr there ↦ rw there (old i)
  ]
    where
      old : (i : ℕ) → Distinct objects (t.cseshash i)
      old i =
          Distinct-cong t.objects objects (t.cseshash i)
            (All-map (t.cseshash i) (λ id p. ap session_ends (old_object id p.0)) (v.placed i))
            (v.distinct i)

      apart :
          (y : ℕ)
          → (is_same_ses e (t.objects y) ≡ false) × (y < t.next)
          → conflict (objects y) (objects t.next) ≡ false
      apart y p =
          rw (new_object, old_object y p.1)
            (is_same_ses-sym (t.objects y) s ∙ same_own (t.objects y) ∙ p.0)

  pub inserted-IsValid : IsValid (inserted s t)
  inserted-IsValid = record {
    placed = λ i. rw index_eq (placed_at i);
    distinct = λ i. rw index_eq (Distinct-at i);
  }

swap_test : (e : Ends) → is_same_ses (swap e) ≡ is_same_ses e
swap_test e = fun_ext (is_same_ses-swap e)

pub find-swap : (now : ℕ) (e : Ends) (t : CSessionHashTable) → find now (swap e) t ≡ find now e t
unfolding find
find-swap now e t =
    ap (λ i. refreshed now t (first_same (is_same_ses (swap e)) t.objects (t.cseshash i)))
      (hash_val-swap e)
    ∙ ap (λ same. refreshed now t (first_same same t.objects (t.cseshash (hash_val e))))
        (swap_test e)

-- On a valid table, where `Find` fails for the ends of a packet, a `Create` that returns adds a session
-- that later searches find, with the packet's ends either way round. The table stays valid.
pub create-find :
    (heap : Heap) (junk : CSession) (now later : ℕ) (p : CFormatPacket) (info : CBhvInf) (e : Ends)
    (t : CSessionHashTable) {id : ℕ} {t' : CSessionHashTable}
    → IsValid t
    → ends_of p ≡ ok e
    → (find now e t).0 ≡ none
    → create heap junk now p info t ≡ ok (id, t')
    → (id ≡ t.next)
      × ((find later e t').0 ≡ some id)
      × ((find later (swap e) t').0 ≡ some id)
      × IsValid t'
unfolding create
create-find heap junk now later p info e t {id} {t'} v ends missing made =
    let (blank, _, rest) = >>=-eq-ok (new_session heap junk) _ made in
    let (e', same, done) = >>=-eq-ok (ends_of p) _ rest in
    let s = assign now info e' p blank in
    let at_e : e' ≡ e = cc in
    let result : (id ≡ t.next) × (t' ≡ inserted s t) = (cc, cc) in
    let own =
      subst (λ x. (session_ends s ≡ x) ⊎ (session_ends s ≡ swap x)) at_e
        (assign_ends now info e' p blank) in
    let new = find-none_inv now e t missing in
    let found : (find later e t').0 ≡ some id =
      rw (result.0, result.1) (find-inserted e s t v own new later) in
    (
      result.0,
      found,
      ap (λ (r : Option ℕ × CSessionHashTable). r.0) (find-swap later e t') ∙ found,
      rw result.1 (inserted-IsValid e s t v own new),
    )
