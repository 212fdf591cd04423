-- ===== src/SessionHash/Table.antt =====
-- The shape of the table of SessionHash.cpp: each session in the bucket of its ends, no two for the
-- same ends.
use http_decoder.Base.{
  ℕ, ◌<◌, ◌≡◌, inl, inr, refl, subst, arith, Bool, true, false, Bool-cases, List, [], ◌∷◌, ◌++◌,
  none, some, ◌==◌, ==_iff,
}
use http_decoder.Session.{CSession}
use http_decoder.SessionHash.Hash.{is_same_ses_trans}
use http_decoder.SessionHash.{
  Ends, CSessionHashTable, session_ends, hash_val, is_same_ses, first_same, erase_same, update,
}

abbrev pub All : (ℕ → Type 0) → List ℕ → Type 0
All P [] = Unit {0}
All P (x ∷ xs) = P x × All P xs

-- `xs` is what is left of `ys` when some entries are taken out.
pub data Sub : List ℕ → List ℕ → Type 0 where
  nil : Sub [] []
  keep : {xs ys : List ℕ} (x : ℕ) → Sub xs ys → Sub (x ∷ xs) (x ∷ ys)
  skip : {xs ys : List ℕ} (x : ℕ) → Sub xs ys → Sub xs (x ∷ ys)

pub Sub-refl : (xs : List ℕ) → Sub xs xs
Sub-refl [] = nil
Sub-refl (x ∷ xs) = keep x (Sub-refl xs)

pub Sub-trans : {xs ys zs : List ℕ} → Sub xs ys → Sub ys zs → Sub xs zs
Sub-trans s nil = s
Sub-trans s (skip x t) = skip x (Sub-trans s t)
Sub-trans (keep _ s) (keep x t) = keep x (Sub-trans s t)
Sub-trans (skip _ s) (keep x t) = skip x (Sub-trans s t)

pub All-Sub : (P : ℕ → Type 0) {xs ys : List ℕ} → Sub xs ys → All P ys → All P xs
All-Sub P nil a = tt
All-Sub P (keep x s) a = (a.0, All-Sub P s a.1)
All-Sub P (skip x s) a = All-Sub P s a.1

pub All-map : {P Q : ℕ → Type 0} (xs : List ℕ) → ((x : ℕ) → P x → Q x) → All P xs → All Q xs
All-map [] f a = tt
All-map (x ∷ xs) f a = (f x a.0, All-map xs f a.1)

pub All-snoc : (P : ℕ → Type 0) (xs : List ℕ) (x : ℕ) → All P xs → P x → All P (xs ++ x ∷ [])
All-snoc P [] x a p = (p, tt)
All-snoc P (y ∷ xs) x a p = (a.0, All-snoc P xs x a.1 p)

abbrev pub conflict : CSession → CSession → Bool
conflict s u = is_same_ses (session_ends s) u

abbrev pub Distinct : (ℕ → CSession) → List ℕ → Type 0
Distinct objects [] = Unit {0}
Distinct objects (x ∷ xs) =
    All (λ y. conflict (objects x) (objects y) ≡ false) xs × Distinct objects xs

Distinct-Sub :
    (objects : ℕ → CSession) {xs ys : List ℕ}
    → Sub xs ys
    → Distinct objects ys
    → Distinct objects xs
Distinct-Sub objects nil d = tt
Distinct-Sub objects (keep x s) d = (All-Sub _ s d.0, Distinct-Sub objects s d.1)
Distinct-Sub objects (skip x s) d = Distinct-Sub objects s d.1

pub record IsValid (t : CSessionHashTable) : Type 0 where
  pub placed :
      (i : ℕ)
      → All (λ id. (id < t.next) × (hash_val (session_ends (t.objects id)) ≡ i)) (t.cseshash i)
  pub distinct : (i : ℕ) → Distinct t.objects (t.cseshash i)

pub erase_same-Sub :
    (same : CSession → Bool) (objects : ℕ → CSession) (xs : List ℕ)
    → Sub (erase_same same objects xs) xs
unfolding erase_same
erase_same-Sub same objects [] = nil
erase_same-Sub same objects (x ∷ xs) = elim (Bool-cases (same (objects x))) [
  | inl hit ↦ rw hit (skip x (Sub-refl xs))
  | inr miss ↦ rw miss (keep x (erase_same-Sub same objects xs))
]

pub update-Sub :
    (f : ℕ → List ℕ) (i j : ℕ) (xs : List ℕ) → Sub xs (f i) → Sub (update f i xs j) (f j)
update-Sub f i j xs s = elim (Bool-cases (i == j)) [
  | inl here ↦ rw here (subst (λ k. Sub xs (f k)) ((==_iff i j).0 here) s)
  | inr there ↦ rw there (Sub-refl (f j))
]

-- Taking entries out of one bucket keeps the table valid.
pub narrow-IsValid :
    (t : CSessionHashTable) (i : ℕ) (xs : List ℕ)
    → Sub xs (t.cseshash i)
    → IsValid t
    → IsValid (record t { cseshash = update t.cseshash i xs })
narrow-IsValid t i xs s v = record {
  placed = λ j. All-Sub _ (update-Sub t.cseshash i j xs s) (v.placed j);
  distinct = λ j. Distinct-Sub t.objects (update-Sub t.cseshash i j xs s) (v.distinct j);
}

-- The walk failed: no entry is the same.
pub first_same-none :
    (same : CSession → Bool) (objects : ℕ → CSession) (xs : List ℕ)
    → first_same same objects xs ≡ none
    → All (λ y. same (objects y) ≡ false) xs
unfolding first_same
first_same-none same objects [] e = tt
first_same-none same objects (x ∷ xs) e = elim (Bool-cases (same (objects x))) [
  | inl hit ↦ absurd (ground (arith, hit))
  | inr miss ↦ (miss, first_same-none same objects xs (ground (arith, miss)))
]

pub none-first_same :
    (same : CSession → Bool) (objects : ℕ → CSession) (xs : List ℕ)
    → All (λ y. same (objects y) ≡ false) xs
    → first_same same objects xs ≡ none
unfolding first_same
none-first_same same objects [] a = refl
none-first_same same objects (x ∷ xs) a = rw a.0 (none-first_same same objects xs a.1)

pub first_same-snoc :
    (same : CSession → Bool) (objects : ℕ → CSession) (xs : List ℕ) (x : ℕ)
    → All (λ y. same (objects y) ≡ false) xs
    → same (objects x) ≡ true
    → first_same same objects (xs ++ x ∷ []) ≡ some x
unfolding first_same
first_same-snoc same objects [] x a h = rw h
first_same-snoc same objects (y ∷ xs) x a h = rw a.0 (first_same-snoc same objects xs x a.1 h)

-- After the first of them is erased none is left, as two would be in each other's way.
pub erase_same-none :
    (e : Ends) (objects : ℕ → CSession) (xs : List ℕ)
    → Distinct objects xs
    → All (λ y. is_same_ses e (objects y) ≡ false) (erase_same (is_same_ses e) objects xs)
unfolding erase_same
erase_same-none e objects [] d = tt
erase_same-none e objects (x ∷ xs) d = elim (Bool-cases (is_same_ses e (objects x))) [
  | inl hit ↦ rw hit (All-map xs (λ y apart. alone y apart hit) d.0)
  | inr miss ↦ rw miss (miss, erase_same-none e objects xs d.1)
]
  where
    alone :
        (y : ℕ)
        → conflict (objects x) (objects y) ≡ false
        → is_same_ses e (objects x) ≡ true
        → is_same_ses e (objects y) ≡ false
    alone y apart hit = elim (Bool-cases (is_same_ses e (objects y))) [
      | inl too ↦ absurd (cc (is_same_ses_trans e (objects x) (objects y) hit too))
      | inr miss ↦ miss
    ]
