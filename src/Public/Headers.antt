-- ===== src/Public/Headers.antt =====
-- `HeaderMap` of Public.h, and std::map from texts to anything else.
use http_decoder.Base.{
  Bool, true, false, ◌&&◌, ◌||◌, List, [], ◌∷◌, Option, none, some, ◌≡◌, refl, arith, ltb, ◌==◌,
  if◌then◌else◌, Bool-cases, inl, inr, Bytes, equal, equal_iff,
}

-- std::less on std::string: byte by byte
unfoldable pub less : Bytes → Bytes → Bool
less _ [] = false
less [] (y ∷ ys) = true
less (x ∷ xs) (y ∷ ys) = ltb x y || (x == y && less xs ys)

-- A std::map from std::string: its entries in the order of their keys.
abbrev pub StringMap {ℓ} : Type ℓ → Type ℓ
StringMap V = List (Bytes × V)

abbrev pub HeaderMap : Type 0
HeaderMap = StringMap Bytes

module _ {ℓ} {V : Type ℓ} where
  -- `m[k] = v`
  unfoldable pub insert : Bytes → V → StringMap V → StringMap V
  insert k v [] = (k, v) ∷ []
  insert k v ((j, w) ∷ m) =
      if equal j k
      then (j, v) ∷ m
      else if less k j
      then (k, v) ∷ (j, w) ∷ m
      else (j, w) ∷ insert k v m

  unfoldable pub lookup : Bytes → StringMap V → Option V
  lookup k [] = none
  lookup k ((j, w) ∷ m) = if equal j k then some w else lookup k m

-- After `m[k] = v` the map gives `v` for the key `k`, and for every other key what it gave before.
pub lookup-insert :
    {V : Type 0} (k j : Bytes) (v : V) (m : StringMap V)
    → lookup j (insert k v m) ≡ (if equal k j then some v else lookup j m)
unfolding lookup insert
lookup-insert k j v [] = refl
lookup-insert k j v ((i, w) ∷ m) =
    ground (arith, equal_iff k j, equal_iff i k, equal_iff i j, lookup-insert k j v m)

-- Every key of `m` comes after `k`.
abbrev pub After : {V : Type 0} → Bytes → StringMap V → Type 0
After k [] = Unit {0}
After k ((j, w) ∷ m) = less k j ≡ true

abbrev pub IsSorted : {V : Type 0} → StringMap V → Type 0
IsSorted [] = Unit {0}
IsSorted ((k, v) ∷ m) = After k m × IsSorted m

less_total : (a b : Bytes) → equal a b ≡ false → less b a ≡ false → less a b ≡ true
unfolding equal less
less_total [] [] e h = cc
less_total [] (y ∷ b) e h = refl
less_total (x ∷ a) [] e h = cc
less_total (x ∷ a) (y ∷ b) e h = ground (arith, less_total a b)

After-insert :
    {V : Type 0} (i k : Bytes) (v : V) (m : StringMap V)
    → less i k ≡ true
    → After i m
    → After i (insert k v m)
unfolding insert
After-insert i k v [] h a = h
After-insert i k v ((j, w) ∷ m) h a = ground arith

-- `m[k] = v` keeps the entries in the order of their keys, so no key has two.
pub insert-IsSorted :
    {V : Type 0} (k : Bytes) (v : V) (m : StringMap V) → IsSorted m → IsSorted (insert k v m)
unfolding insert
insert-IsSorted k v [] s = (tt, tt)
insert-IsSorted k v ((j, w) ∷ m) s = elim (Bool-cases (equal j k)) [
  | inl same ↦ rw same s
  | inr other ↦ elim (Bool-cases (less k j)) [
    | inl before ↦ rw (other, before) (before, s)
    | inr after ↦
        rw (other, after)
          (After-insert j k v m (less_total j k other after) s.0, insert-IsSorted k v m s.1)
  ]
]
