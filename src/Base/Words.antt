-- ===== src/Base/Words.antt =====
-- Loads from a block on a little-endian machine, the byte order of the network, and int16_t.
use Prim.Native.Nat.{ℕ, zero, suc, ◌+◌, ◌-◌, ◌*◌, ◌/◌, ◌%◌, ◌^◌, ◌<◌}
use mathlib.Core.Path.{◌≡◌, refl}
use mathlib.Core.List.{[], ◌∷◌}
use native.Mathlib.Omega.{arith}
use http_decoder.Base.Lists.{length}
use http_decoder.Base.Memory.{Bytes, Outcome, ok, fault, out_of_bounds, ◌>>=◌}
use http_decoder.Base.Tests.{ltb, if◌then◌else◌}

-- `p[i]` on a uint8_t pointer
unfoldable pub load8 : Bytes → ℕ → Outcome ℕ
load8 [] i = fault out_of_bounds
load8 (x ∷ m) zero = ok x
load8 (x ∷ m) (suc i) = load8 m i

abbrev pub load16 : Bytes → ℕ → Outcome ℕ
load16 m i = do a ← load8 m i; b ← load8 m (i + 1); ok (a + 256 * b)

abbrev pub load32 : Bytes → ℕ → Outcome ℕ
load32 m i = do a ← load16 m i; b ← load16 m (i + 2); ok (a + 65536 * b)

-- `ntohs` and `ntohl` turn the bytes round.
abbrev pub ntohs : ℕ → ℕ
ntohs x = x % 256 * 256 + x / 256

abbrev pub ntohl : ℕ → ℕ
ntohl x = ntohs (x % 65536) * 65536 + ntohs (x / 65536)

-- `(size_t) x` for an int16_t given by its bit pattern
abbrev pub size_of_int16 : ℕ → ℕ
size_of_int16 x = if ltb x (2 ^ 15) then x else 2 ^ 64 - (2 ^ 16 - x)

-- Every byte is below 256.
abbrev pub AreBytes : Bytes → Type 0
AreBytes [] = Unit {0}
AreBytes (x ∷ m) = (x < 256) × AreBytes m

pub load8_total :
    (m : Bytes) (i : ℕ) → AreBytes m → i < length m → (x : ℕ) × (load8 m i ≡ ok x) × (x < 256)
unfolding load8
load8_total [] i a h = absurd (omega arith)
load8_total (x ∷ m) zero a h = (x, refl, a.0)
load8_total (x ∷ m) (suc i) a h = load8_total m i a.1 (omega arith)

-- Two bytes in the order of the network, read as the program reads them.
pub ntohs-swap : (hi lo : ℕ) → hi < 256 → lo < 256 → ntohs (hi + 256 * lo) ≡ 256 * hi + lo
ntohs-swap hi lo h l = omega arith

pub ntohl-swap :
    (a b c d : ℕ)
    → a < 256
    → b < 256
    → c < 256
    → d < 256
    → ntohl (a + 256 * b + 65536 * (c + 256 * d)) ≡ 16777216 * a + 65536 * b + 256 * c + d
ntohl-swap a b c d ha hb hc hd = omega arith
