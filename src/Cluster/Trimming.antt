-- ===== src/Cluster/Trimming.antt =====
-- `trim` of client.cpp cuts the white space at both ends and nothing else.
use http_decoder.Base.{
  ℕ, true, false, ◌&&◌, [], ◌∷◌, ◌++◌, ◌≡◌, refl, ap, inl, inr, Bool-cases, if◌then◌else◌, Bytes,
}
use http_decoder.Cluster.Client.{is_space, trim_left, trim_right, trim}
use http_decoder.Cluster.Texts.{is_empty}

abbrev pub AllSpace : Bytes → Type 0
AllSpace [] = Unit {0}
AllSpace (c ∷ s) = (is_space c ≡ true) × AllSpace s

abbrev pub StartsPlain : Bytes → Type 0
StartsPlain [] = Unit {0}
StartsPlain (c ∷ s) = is_space c ≡ false

abbrev pub EndsPlain : Bytes → Type 0
EndsPlain [] = Unit {0}
EndsPlain (c ∷ []) = is_space c ≡ false
EndsPlain (c ∷ d ∷ s) = EndsPlain (d ∷ s)

trim_left_lem :
    (s : Bytes)
    → (front : Bytes) × (s ≡ front ++ trim_left s) × AllSpace front × StartsPlain (trim_left s)
unfolding trim_left
trim_left_lem [] = ([], refl, tt, tt)
trim_left_lem (c ∷ s) = elim (Bool-cases (is_space c)) [
  | inl space ↦
      let (front, e, all, starts) = trim_left_lem s in
      (c ∷ front, rw (space, ← e) refl, (space, all), rw space starts)
  | inr plain ↦ ([], rw plain refl, tt, rw plain plain)
]

-- one byte more in front of a text whose end is cut
cut_end :
    (c : ℕ) (s r back : Bytes)
    → s ≡ r ++ back
    → AllSpace back
    → EndsPlain r
    → (cut : Bytes) → cut ≡ (if is_space c && is_empty r then [] else c ∷ r)
    → (b : Bytes) × (c ∷ s ≡ cut ++ b) × AllSpace b × EndsPlain cut
cut_end c s [] back e all ends cut f = elim (Bool-cases (is_space c)) [
  | inl space ↦ let g = rw space at f in rw g (c ∷ back, ap (◌∷◌ c) e, (space, all), tt)
  | inr plain ↦ let g = rw plain at f in rw g (back, ap (◌∷◌ c) e, all, plain)
]
cut_end c s (d ∷ r) back e all ends cut f = elim (Bool-cases (is_space c)) [
  | inl space ↦ let g = rw space at f in rw g (back, ap (◌∷◌ c) e, all, ends)
  | inr plain ↦ let g = rw plain at f in rw g (back, ap (◌∷◌ c) e, all, ends)
]

trim_right_lem :
    (s : Bytes)
    → (back : Bytes) × (s ≡ trim_right s ++ back) × AllSpace back × EndsPlain (trim_right s)
unfolding trim_right
trim_right_lem [] = ([], refl, tt, tt)
trim_right_lem (c ∷ s) =
    let (back, e, all, ends) = trim_right_lem s in
    cut_end c s (trim_right s) back e all ends (trim_right (c ∷ s)) refl

trim_right-StartsPlain : (s : Bytes) → StartsPlain s → StartsPlain (trim_right s)
unfolding trim_right
trim_right-StartsPlain [] h = tt
trim_right-StartsPlain (c ∷ s) h = rw h h

-- A text is some white space, what `trim` makes of it, and some white space, and what `trim` makes of
-- it neither starts nor ends with white space.
pub trim_lem :
    (s : Bytes)
    → (front : Bytes) × (back : Bytes) × (s ≡ front ++ (trim s ++ back))
      × AllSpace front
      × AllSpace back
      × StartsPlain (trim s)
      × EndsPlain (trim s)
unfolding trim
trim_lem s =
    let (front, e, space, starts) = trim_left_lem s in
    let (back, f, space', ends) = trim_right_lem (trim_left s) in
    (front, back, rw (← f) e, space, space', trim_right-StartsPlain (trim_left s) starts, ends)
