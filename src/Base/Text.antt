-- ===== src/Base/Text.antt =====
-- Texts as lists of bytes, decimal output of unsigned numbers, and equality of texts.
use Prim.Native.Char.{code}
use Prim.Native.Nat.{ℕ, zero, suc, ◌+◌, ◌/◌, ◌%◌}
use Prim.Native.String.{String}
use mathlib.Core.Path.{◌≡◌}
use mathlib.Core.Logic.{◌↔◌, ◌≢◌, inl, inr}
use mathlib.Core.Bool.{Bool, true, false, ◌&&◌}
use mathlib.Core.List.{[], ◌∷◌, ◌++◌}
use native.Mathlib.Omega.{arith}
use http_decoder.Base.Tests.{◌==◌, ltb, if◌then◌else◌, Bool-cases}
use http_decoder.Base.Memory.{Bytes}

-- The code points of a literal; every literal of the program is ASCII.
abbrev pub codes : String → Bytes
codes String.[] = []
codes (String.◌∷◌ c s) = code c ∷ codes s

-- `a == b` and `a.compare(b) == 0` on std::string
unfoldable pub equal : Bytes → Bytes → Bool
equal [] [] = true
equal (x ∷ xs) (y ∷ ys) = x == y && equal xs ys
equal _ _ = false

pub equal_iff : (s t : Bytes) → (equal s t ≡ true) ↔ (s ≡ t)
unfolding equal
equal_iff [] t = ground arith
equal_iff (c ∷ s) [] = ground arith
equal_iff (c ∷ s) (d ∷ t) = ground (arith, equal_iff s t)

pub equal_ne : (s t : Bytes) → s ≢ t → equal s t ≡ false
equal_ne s t differ = elim (Bool-cases (equal s t)) [
  | inl same ↦ absurd (differ ((equal_iff s t).0 same))
  | inr other ↦ other
]

digits : ℕ → ℕ → Bytes
digits zero n = []
digits (suc most) n =
    let front = digits most (n / 10) in
    if ltb n 10 then (b'0' + n) ∷ [] else front ++ ((b'0' + n % 10) ∷ [])

-- `stream << n` in base ten. A number below 2 ^ 64 has at most twenty digits.
unfoldable pub decimal : ℕ → Bytes
unfolding digits
decimal n = digits 20 n
