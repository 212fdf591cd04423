-- ===== src/SessionHash/Hash.antt =====
-- `HashVal` and `IsSameSes` of SessionHash.cpp, and their two directions.
use http_decoder.Base.Bits.{bit_xor_comm}
use http_decoder.Base.{
  ◌^◌, ◌<◌, ◌≡◌, ◌↔◌, ◌⊎◌, inl, inr, refl, sym, ap, ◌∙◌, arith, Bool, ◌||◌, true, false,
}
use http_decoder.Session.{CSession}
use http_decoder.SessionHash.{Ends, swap, faces, session_ends, hash_val, is_same_ses}

-- The index is below 2 ^ 16, so it lies in the vector that `Init` fills.
pub hash_val-lt : (e : Ends) → hash_val e < 2 ^ 16
unfolding hash_val
hash_val-lt e = omega arith

-- A packet and its answer go to the same bucket: the index stays when source and destination change
-- places.
pub hash_val-swap : (e : Ends) → hash_val (swap e) ≡ hash_val e
unfolding hash_val
hash_val-swap e = rw (bit_xor_comm e.src_ip e.dst_ip, bit_xor_comm e.src_port e.dst_port)

or_comm : (x y : Bool) → (x || y) ≡ (y || x)
or_comm true true = refl
or_comm true false = refl
or_comm false true = refl
or_comm false false = refl

pub is_same_ses-swap : (e : Ends) (s : CSession) → is_same_ses (swap e) s ≡ is_same_ses e s
unfolding is_same_ses
is_same_ses-swap e s = or_comm (faces (swap e) s) (faces e s)

faces_iff : (e : Ends) (s : CSession) → (faces e s ≡ true) ↔ (session_ends s ≡ e)
unfolding faces
faces_iff e s = (λ h. ground arith, λ h. ground arith)

-- A session is the same for its own ends, either way round, and for no others.
pub is_same_ses_iff :
    (e : Ends) (s : CSession)
    → (is_same_ses e s ≡ true) ↔ ((session_ends s ≡ e) ⊎ (session_ends s ≡ swap e))
unfolding is_same_ses
is_same_ses_iff e s = (
  λ h. ground (arith, faces_iff e s, faces_iff (swap e) s),
  λ h. ground (arith, faces_iff e s, faces_iff (swap e) s),
)

-- So two sessions that are the same for one pair of ends are the same for each other.
pub is_same_ses_trans :
    (e : Ends) (s u : CSession)
    → is_same_ses e s ≡ true
    → is_same_ses e u ≡ true
    → is_same_ses (session_ends s) u ≡ true
is_same_ses_trans e s u p q =
    (is_same_ses_iff (session_ends s) u).1
      (go ((is_same_ses_iff e s).0 p) ((is_same_ses_iff e u).0 q))
  where
    go :
        (session_ends s ≡ e) ⊎ (session_ends s ≡ swap e)
        → (session_ends u ≡ e) ⊎ (session_ends u ≡ swap e)
        → (session_ends u ≡ session_ends s) ⊎ (session_ends u ≡ swap (session_ends s))
    go (inl a) (inl b) = inl (b ∙ sym a)
    go (inl a) (inr b) = inr (b ∙ ap swap (sym a))
    go (inr a) (inl b) = inr (b ∙ ap swap (sym a))
    go (inr a) (inr b) = inl (b ∙ sym a)

flip :
    (s u : CSession) → is_same_ses (session_ends s) u ≡ true → is_same_ses (session_ends u) s ≡ true
flip s u p = (is_same_ses_iff (session_ends u) s).1 (go ((is_same_ses_iff (session_ends s) u).0 p))
  where
    go :
        (session_ends u ≡ session_ends s) ⊎ (session_ends u ≡ swap (session_ends s))
        → (session_ends s ≡ session_ends u) ⊎ (session_ends s ≡ swap (session_ends u))
    go (inl a) = inl (sym a)
    go (inr a) = inr (ap swap (sym a))

same_test : (x y : Bool) → (x ≡ true → y ≡ true) → (y ≡ true → x ≡ true) → x ≡ y
same_test true y f g = sym (f refl)
same_test false true f g = g refl
same_test false false f g = refl

pub is_same_ses-sym :
    (s u : CSession) → is_same_ses (session_ends s) u ≡ is_same_ses (session_ends u) s
is_same_ses-sym s u = same_test _ _ (flip s u) (flip u s)
