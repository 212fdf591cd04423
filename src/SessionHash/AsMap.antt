-- ===== src/SessionHash/AsMap.antt =====
-- The table of SessionHash.cpp as a map from connections to sessions: what `Find` gives after
-- `Remove`, `Create` and `Find`, for every connection.
use http_decoder.Base.{
  ℕ, ◌≡◌, ◌⊎◌, inl, inr, refl, sym, ap, subst, ◌∙◌, arith, Bool, true, false, Bool-cases, ◌&&◌,
  ◌||◌, List, [], ◌∷◌, ◌++◌, Option, none, some, if◌then◌else◌, ◌==◌, ==_self, ==_iff, ok, Heap,
  >>=-eq-ok,
}
use http_decoder.FormatPacket.{CFormatPacket}
use http_decoder.Session.{CSession}
use http_decoder.SessionHash.Hash.{is_same_ses_iff}
use http_decoder.SessionHash.Insertion.{find-swap, create-find}
use http_decoder.SessionHash.Operations.{find-remove, assign_ends}
use http_decoder.SessionHash.Table.{All, All-map, IsValid}
use http_decoder.SessionHash.{
  Ends, swap, CSessionHashTable, CBhvInf, session_ends, hash_val, faces, is_same_ses, first_same,
  erase_same, update, inserted, find, remove, create, assign, ends_of, new_session,
}

-- `d` is `e`, and `d` is one of the two directions of `e`
abbrev equals : Ends → Ends → Bool
equals e d =
    d.src_ip == e.src_ip
    && (d.dst_ip == e.dst_ip && (d.src_port == e.src_port && d.dst_port == e.dst_port))

abbrev pub same_connection : Ends → Ends → Bool
same_connection e d = equals e d || equals (swap e) d

same_connection-ends :
    (e : Ends) (s : CSession) → is_same_ses e s ≡ same_connection e (session_ends s)
unfolding is_same_ses faces
same_connection-ends e s = refl

same_connection_cases : (e d : Ends) → same_connection e d ≡ true → (d ≡ e) ⊎ (d ≡ swap e)
same_connection_cases e d h = ground (arith, h)

same_connection_of : (e d : Ends) → (d ≡ e) ⊎ (d ≡ swap e) → same_connection e d ≡ true
same_connection_of e d (inl a) = rw a (ground arith)
same_connection_of e d (inr a) = rw a (ground arith)

-- Two connections of one session are one.
apart :
    (e d : Ends) (s : CSession)
    → same_connection e d ≡ false
    → is_same_ses e s ≡ true
    → is_same_ses d s ≡ false
apart e d s other hit = elim (Bool-cases (is_same_ses d s)) [
  | inl too ↦
      let joined =
        same_connection_of e d (go ((is_same_ses_iff e s).0 hit) ((is_same_ses_iff d s).0 too)) in
      absurd (ground (arith, joined, other))
  | inr miss ↦ miss
]
  where
    go :
        (session_ends s ≡ e) ⊎ (session_ends s ≡ swap e)
        → (session_ends s ≡ d) ⊎ (session_ends s ≡ swap d)
        → (d ≡ e) ⊎ (d ≡ swap e)
    go (inl a) (inl b) = inl (sym b ∙ a)
    go (inl a) (inr b) = inr (ap swap (sym b ∙ a))
    go (inr a) (inl b) = inr (sym b ∙ a)
    go (inr a) (inr b) = inl (ap swap (sym b ∙ a))

pub find_first :
    (now : ℕ) (e : Ends) (t : CSessionHashTable)
    → (find now e t).0 ≡ first_same (is_same_ses e) t.objects (t.cseshash (hash_val e))
unfolding find
find_first now e t = ground arith

first_same-erase_same :
    (e d : Ends) (objects : ℕ → CSession) (xs : List ℕ)
    → same_connection e d ≡ false
    → first_same (is_same_ses d) objects (erase_same (is_same_ses e) objects xs)
      ≡ first_same (is_same_ses d) objects xs
unfolding first_same erase_same
first_same-erase_same e d objects [] other = refl
first_same-erase_same e d objects (x ∷ xs) other = elim (Bool-cases (is_same_ses e (objects x))) [
  | inl hit ↦ rw (hit, apart e d (objects x) other hit) refl
  | inr miss ↦ rw miss (ground (arith, first_same-erase_same e d objects xs other))
]

-- `Find` has one answer for the two directions.
find_same :
    (now : ℕ) (e d : Ends) (t : CSessionHashTable)
    → same_connection e d ≡ true
    → (find now d t).0 ≡ (find now e t).0
find_same now e d t h = go (same_connection_cases e d h)
  where
    go : (d ≡ e) ⊎ (d ≡ swap e) → (find now d t).0 ≡ (find now e t).0
    go (inl a) = ap (λ x. (find now x t).0) a
    go (inr a) =
        ap (λ x. (find now x t).0) a
        ∙ ap (λ (r : Option ℕ × CSessionHashTable). r.0) (find-swap now e t)

kept_by_remove :
    (e d : Ends) (t : CSessionHashTable)
    → same_connection e d ≡ false
    → first_same (is_same_ses d) (remove e t).objects ((remove e t).cseshash (hash_val d))
      ≡ first_same (is_same_ses d) t.objects (t.cseshash (hash_val d))
unfolding remove
kept_by_remove e d t other = elim (Bool-cases (hash_val e == hash_val d)) [
  | inl here ↦ rw here (
      first_same-erase_same e d t.objects (t.cseshash (hash_val e)) other
      ∙ ap (λ i. first_same (is_same_ses d) t.objects (t.cseshash i))
          ((==_iff (hash_val e) (hash_val d)).0 here))
  | inr there ↦ rw there refl
]

-- `Remove` on a valid table takes out one connection and no other: afterwards `Find` gives nothing for
-- its ends, either way round, and for all other ends what it gave before.
pub find-remove_map :
    (now : ℕ) (e d : Ends) (t : CSessionHashTable)
    → IsValid t
    → (find now d (remove e t)).0 ≡ (if same_connection e d then none else (find now d t).0)
find-remove_map now e d t v = elim (Bool-cases (same_connection e d)) [
  | inl same ↦ rw same (find_same now e d (remove e t) same ∙ find-remove now e t v)
  | inr other ↦
      rw (other, find_first now d (remove e t), find_first now d t) (kept_by_remove e d t other)
]

first_same-old :
    (same : CSession → Bool) (f g : ℕ → CSession) (xs : List ℕ)
    → All (λ id. g id ≡ f id) xs
    → first_same same g xs ≡ first_same same f xs
unfolding first_same
first_same-old same f g [] a = refl
first_same-old same f g (x ∷ xs) a = rw (a.0, first_same-old same f g xs a.1) refl

first_same-snoc_miss :
    (same : CSession → Bool) (f : ℕ → CSession) (xs : List ℕ) (x : ℕ)
    → same (f x) ≡ false
    → first_same same f (xs ++ x ∷ []) ≡ first_same same f xs
unfolding first_same
first_same-snoc_miss same f [] x h = rw h refl
first_same-snoc_miss same f (y ∷ xs) x h = rw (first_same-snoc_miss same f xs x h) refl

kept_by_insert :
    (d : Ends) (s : CSession) (t : CSessionHashTable)
    → IsValid t
    → is_same_ses d s ≡ false
    → first_same (is_same_ses d) (inserted s t).objects ((inserted s t).cseshash (hash_val d))
      ≡ first_same (is_same_ses d) t.objects (t.cseshash (hash_val d))
kept_by_insert d s t v miss = elim (Bool-cases (hash_val (session_ends s) == hash_val d)) [
  | inl here ↦
      let at = (==_iff (hash_val (session_ends s)) (hash_val d)).0 here in
      rw here (
        first_same-snoc_miss (is_same_ses d) objects (t.cseshash (hash_val (session_ends s))) t.next
          new_miss
        ∙ old (hash_val (session_ends s))
        ∙ ap (λ i. first_same (is_same_ses d) t.objects (t.cseshash i)) at)
  | inr there ↦ rw there (old (hash_val d))
]
  where
    objects : ℕ → CSession
    objects = update t.objects t.next s

    new_miss : is_same_ses d (objects t.next) ≡ false
    new_miss = rw (==_self t.next) miss

    old :
        (i : ℕ)
        → first_same (is_same_ses d) objects (t.cseshash i)
          ≡ first_same (is_same_ses d) t.objects (t.cseshash i)
    old i = first_same-old (is_same_ses d) t.objects objects (t.cseshash i) (
        All-map (t.cseshash i)
          (λ id p. let other : (t.next == id) ≡ false = ground (arith, p.0) in rw other refl)
          (v.placed i))

-- On a valid table, where `Find` fails for the ends of a packet, a `Create` that returns adds one
-- connection: afterwards `Find` gives the new session for its ends, either way round, and for all
-- other ends what it gave before.
pub create-find_map :
    (heap : Heap) (junk : CSession) (now later : ℕ) (p : CFormatPacket) (info : CBhvInf)
    (e d : Ends) (t : CSessionHashTable) {id : ℕ} {t' : CSessionHashTable}
    → IsValid t
    → ends_of p ≡ ok e
    → (find now e t).0 ≡ none
    → create heap junk now p info t ≡ ok (id, t')
    → (find later d t').0 ≡ (if same_connection e d then some id else (find later d t).0)
unfolding create
create-find_map heap junk now later p info e d t {id} {t'} v ends missing made =
    let (blank, _, rest) = >>=-eq-ok (new_session heap junk) _ made in
    let (e', same, done) = >>=-eq-ok (ends_of p) _ rest in
    let s = assign now info e' p blank in
    let at_e : e' ≡ e = cc in
    let result : t' ≡ inserted s t = cc in
    let own =
      subst (λ x. (session_ends s ≡ x) ⊎ (session_ends s ≡ swap x)) at_e
        (assign_ends now info e' p blank) in
    elim (Bool-cases (same_connection e d)) [
      | inl joined ↦ rw joined (
          find_same later e d t' joined
          ∙ (create-find heap junk now later p info e t v ends missing made).1)
      | inr other ↦
          let miss = apart e d s other ((is_same_ses_iff e s).1 own) in
          rw (other, result, find_first later d (inserted s t), find_first later d t)
            (kept_by_insert d s t v miss)
    ]
