-- ===== src/Base/Memory.antt =====
-- Calls that may run into undefined behaviour, as values, and the libc memory operations.
use mathlib.Core.Path.{◌≡◌, refl}
use mathlib.Core.Bool.{Bool, false, ◌&&◌, ◌||◌}
use mathlib.Core.Logic.{◌⊎◌, inl, inr}
use mathlib.Core.Option.{Option, none, some}
use mathlib.Core.List.{List, [], ◌∷◌, ◌++◌}
use Prim.Native.Nat.{ℕ, ◌+◌}
use http_decoder.Base.Tests.{leb, ltb, ◌==◌, Bool-cases, if◌then◌else◌}
use http_decoder.Base.Lists.{length, take, drop, replicate, set}

-- What C++ leaves undefined: a null pointer is used, a block is left, a function has no `return`,
-- a conversion or a signed result is out of range, a `%s` finds no NUL byte in
-- its block. `diverges` says that a model's fuel ran out.
pub data Fault : Type 0 where
  null_pointer out_of_bounds no_return bad_conversion overflow unterminated diverges : Fault

pub data Outcome {ℓ} (A : Type ℓ) : Type ℓ where
  ok : A → Outcome A
  fault : Fault → Outcome A

infixl 5 ◌>>=◌
abbrev pub ◌>>=◌ {ℓ₁ ℓ₂} : {X : Type ℓ₁} {B : Type ℓ₂} → Outcome X → (X → Outcome B) → Outcome B
fault e >>= next = fault e
ok x >>= next = next x

-- A chain that is done has a first part that is done.
pub >>=-eq-ok {ℓ₁ ℓ₂} :
    {X : Type ℓ₁} {B : Type ℓ₂} (first : Outcome X) (next : X → Outcome B) {last : B}
    → (first >>= next) ≡ ok last
    → (x : X) × (first ≡ ok x) × (next x ≡ ok last)
>>=-eq-ok (fault e) next h = cc
>>=-eq-ok (ok x) next h = (x, refl, h)

abbrev pub Bytes : Type 0
Bytes = List ℕ

-- `malloc`: the block's bytes, whatever they are, or nothing.
abbrev pub Heap : Type 0
Heap = ℕ → Option Bytes

-- `malloc(n)` gives a block of n bytes, if it gives one.
abbrev pub Sized : Heap → Type 0
Sized heap = (n : ℕ) (m : Bytes) → heap n ≡ some m → length m ≡ n

abbrev pub bytes_of : Option Bytes → Bytes
bytes_of none = []
bytes_of (some m) = m

-- `realloc` keeps the bytes that fit; on failure the caller still has the old block.
unfoldable pub realloc : Heap → Option Bytes → ℕ → Option Bytes
realloc heap old n = elim (heap n) [
  | none ↦ none
  | some fresh ↦ some (take n (bytes_of old) ++ drop (length (bytes_of old)) fresh)
]

unfoldable pub memset_zero : Option Bytes → ℕ → Outcome (Option Bytes)
memset_zero none n = if n == 0 then ok none else fault null_pointer
memset_zero (some m) n =
    if leb n (length m) then ok (some (replicate n 0 ++ drop n m)) else fault out_of_bounds

-- `memcpy(dst + off, src, size)`, checked at both ends.
unfoldable pub memcpy : Option Bytes → ℕ → Bytes → ℕ → Outcome Bytes
memcpy none off src size = fault null_pointer
memcpy (some m) off src size =
    if leb (off + size) (length m) && leb size (length src)
    then ok (take off m ++ (take size src ++ drop (off + size) m))
    else fault out_of_bounds

-- `p[i] = v`
unfoldable pub store : Bytes → ℕ → ℕ → Outcome Bytes
store m i v = if ltb i (length m) then ok (set m i v) else fault out_of_bounds

abbrev pub has_nul : Bytes → Bool
has_nul [] = false
has_nul (c ∷ s) = c == 0 || has_nul s

-- `printf` with `%s`, on a pointer to the first byte of a block: it reads up to a NUL byte.
unfoldable pub print_string : Option Bytes → Outcome (Unit {0})
print_string none = fault null_pointer
print_string (some m) = if has_nul m then ok tt else fault unterminated

pub print_string_cases :
    (m : Bytes) → (print_string (some m) ≡ ok tt) ⊎ (print_string (some m) ≡ fault unterminated)
unfolding print_string
print_string_cases m = elim (Bool-cases (has_nul m)) [
  | inl ends ↦ inl (rw ends refl)
  | inr runs_on ↦ inr (rw runs_on refl)
]
