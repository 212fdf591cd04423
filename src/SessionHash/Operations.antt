-- ===== src/SessionHash/Operations.antt =====
-- `Find`, `Create` and `Remove` of SessionHash.cpp on a valid table.
use http_decoder.Base.{
  ℕ, ◌≡◌, ◌⊎◌, inl, inr, refl, ap, ◌∙◌, arith, false, Bool-cases, List, [], ◌∷◌, Option, none, some,
  ◌==◌, ==_self, ==_iff, ◌&&◌, Option-cases,
}
use http_decoder.FormatPacket.{CFormatPacket}
use http_decoder.Session.{CSession}
use http_decoder.SessionHash.Table.{
  All, All-map, conflict, Distinct, IsValid, narrow-IsValid, erase_same-Sub, erase_same-none,
  none-first_same,
}
use http_decoder.SessionHash.{
  Ends, swap, CSessionHashTable, CBhvInf, session_ends, hash_val, is_same_ses, faces, first_same,
  erase_same, update, find, remove, assign,
}

-- `Remove` keeps a valid table valid.
pub remove-IsValid : (e : Ends) (t : CSessionHashTable) → IsValid t → IsValid (remove e t)
unfolding remove
remove-IsValid e t v =
    narrow-IsValid t (hash_val e) _
      (erase_same-Sub (is_same_ses e) t.objects (t.cseshash (hash_val e))) v

pub find-none :
    (now : ℕ) (e : Ends) (t : CSessionHashTable)
    → first_same (is_same_ses e) t.objects (t.cseshash (hash_val e)) ≡ none
    → find now e t ≡ (none, t)
unfolding find
find-none now e t h = rw (find, h)

pub find-some :
    (now : ℕ) (e : Ends) (t : CSessionHashTable) (id : ℕ)
    → first_same (is_same_ses e) t.objects (t.cseshash (hash_val e)) ≡ some id
    → (find now e t).0 ≡ some id
unfolding find
find-some now e t id h = rw (find, h)

-- In a valid table, after `Remove` no search finds a session for those ends, at whatever time.
pub find-remove :
    (now : ℕ) (e : Ends) (t : CSessionHashTable) → IsValid t → (find now e (remove e t)).0 ≡ none
unfolding remove
find-remove now e t v =
    let left = erase_same (is_same_ses e) t.objects (t.cseshash (hash_val e)) in
    let gone : first_same (is_same_ses e) t.objects left ≡ none =
      none-first_same (is_same_ses e) t.objects left
        (erase_same-none e t.objects _ (v.distinct (hash_val e))) in
    ap (λ (r : Option ℕ × CSessionHashTable). r.0)
      (find-none now e (remove e t) (rw (==_self (hash_val e)) gone))

-- A session that only changes other fields than its ends keeps the table valid.
pub is_same_ses-cong :
    (e : Ends) (s u : CSession)
    → session_ends s ≡ session_ends u
    → is_same_ses e s ≡ is_same_ses e u
unfolding is_same_ses faces
is_same_ses-cong e s u h =
    ap
      (λ (x : Ends). is_same_ses e (record s {
        server_ip = x.src_ip;
        client_ip = x.dst_ip;
        server_port = x.src_port;
        client_port = x.dst_port;
      }))
      h

pub Distinct-cong :
    (f g : ℕ → CSession) (xs : List ℕ)
    → All (λ x. session_ends (g x) ≡ session_ends (f x)) xs
    → Distinct f xs
    → Distinct g xs
Distinct-cong f g [] h d = tt
Distinct-cong f g (x ∷ xs) h d = (both xs h.1 d.0, Distinct-cong f g xs h.1 d.1)
  where
    both :
        (ys : List ℕ)
        → All (λ y. session_ends (g y) ≡ session_ends (f y)) ys
        → All (λ y. conflict (f x) (f y) ≡ false) ys
        → All (λ y. conflict (g x) (g y) ≡ false) ys
    both [] k a = tt
    both (y ∷ ys) k a = (
      is_same_ses-cong (session_ends (g x)) (g y) (f y) k.0
          ∙ ap (λ e. is_same_ses e (f y)) h.0
          ∙ a.0,
      both ys k.1 a.1,
    )

All-of : (P : ℕ → Type 0) (xs : List ℕ) → ((x : ℕ) → P x) → All P xs
All-of P [] h = tt
All-of P (x ∷ xs) h = (h x, All-of P xs h)

pub reidentify :
    (t : CSessionHashTable) (g : ℕ → CSession)
    → ((id : ℕ) → session_ends (g id) ≡ session_ends (t.objects id))
    → IsValid t
    → IsValid (record t { objects = g })
reidentify t g same v = record {
  placed = λ i. All-map (t.cseshash i) (λ id p. (p.0, ap hash_val (same id) ∙ p.1)) (v.placed i);
  distinct = λ i. Distinct-cong t.objects g (t.cseshash i) (All-of _ _ same) (v.distinct i);
}

-- One object is replaced by one with the same ends.
pub put_object-IsValid :
    (t : CSessionHashTable) (id : ℕ) (s : CSession)
    → session_ends s ≡ session_ends (t.objects id)
    → IsValid t
    → IsValid (record t { objects = update t.objects id s })
put_object-IsValid t id s h v = reidentify t (update t.objects id s) go v
  where
    go : (j : ℕ) → session_ends (update t.objects id s j) ≡ session_ends (t.objects j)
    go j = elim (Bool-cases (id == j)) [
      | inl here ↦ rw here (h ∙ ap (λ k. session_ends (t.objects k)) ((==_iff id j).0 here))
      | inr there ↦ rw there
    ]

-- `Find`, which stamps the session that it finds, keeps a valid table valid.
pub find-IsValid :
    (now : ℕ) (e : Ends) (t : CSessionHashTable) → IsValid t → IsValid (find now e t).1
unfolding find
find-IsValid now e t v =
    elim (Option-cases (first_same (is_same_ses e) t.objects (t.cseshash (hash_val e)))) [
      | inl e0 ↦ rw (e0, find) v
      | inr (id, e1) ↦ rw (e1, find) (put_object-IsValid t id _ refl v)
    ]

-- `Find` fails only where no session of the bucket is the same, and then changes nothing.
pub find-none_inv :
    (now : ℕ) (e : Ends) (t : CSessionHashTable)
    → (find now e t).0 ≡ none
    → first_same (is_same_ses e) t.objects (t.cseshash (hash_val e)) ≡ none
unfolding find
find-none_inv now e t h = ground arith

pub assign_ends :
    (now : ℕ) (info : CBhvInf) (e : Ends) (p : CFormatPacket) (s : CSession)
    → (session_ends (assign now info e p s) ≡ e) ⊎ (session_ends (assign now info e p s) ≡ swap e)
unfolding assign
assign_ends now info e p s = elim (Bool-cases (info.ip == e.src_ip && info.port == e.src_port)) [
  | inl here ↦ rw here (inl refl)
  | inr there ↦ rw there (inr refl)
]
