-- ===== src/HttpParse/Steps.antt =====
-- What a parsing method does with `pos` and the object that it fills: `return true` with a value,
-- `return false`, or undefined behaviour.
use http_decoder.Base.{
  ℕ, ◌+◌, ◌-◌, ◌%◌, ◌^◌, ◌≡◌, refl, Bool, true, false, Option, none, some, Outcome, ok, fault,
  Fault,
}

pub data Answer (S A : Type 0) : Type 0 where
  done : A → ℕ → S → Answer S A
  refused : ℕ → S → Answer S A
  crashed : Fault → Answer S A

abbrev pub M : Type 0 → Type 0 → Type 0
M S A = ℕ → S → Answer S A

infixl 5 ◌>>=◌ ◌>>◌
abbrev pub ◌>>=◌ : {S A B : Type 0} → M S A → (A → M S B) → M S B
◌>>=◌ m f pos s = elim (m pos s) [
  | done a pos' s' ↦ f a pos' s'
  | refused pos' s' ↦ refused pos' s'
  | crashed e ↦ crashed e
]

abbrev pub ◌>>◌ : {S B : Type 0} → M S (Unit {0}) → M S B → M S B
m >> k = m >>= λ _. k

module _ {S : Type 0} where
  abbrev pub modify : (S → S) → M S (Unit {0})
  modify f pos s = done tt pos (f s)

  abbrev pub current : M S S
  current pos s = done s pos s

  abbrev pub lift : {A : Type 0} → Outcome A → M S A
  lift (ok a) pos s = done a pos s
  lift (fault e) pos s = crashed e

  -- `if(!b) return false;`
  abbrev pub pass : Bool → M S (Unit {0})
  pass true pos s = done tt pos s
  pass false pos s = refused pos s

  -- a call that gave no value: `return false;`
  abbrev pub require : {A : Type 0} → Option A → M S A
  require (some a) pos s = done a pos s
  require none pos s = refused pos s

  -- `len - pos` on uint32_t
  abbrev pub within : ℕ → M S ℕ
  within len pos s = done ((len + 2 ^ 32 - pos) % 2 ^ 32) pos s

-- Where a chain of two is done, both are.
pub bind-eq-done :
    {S A B : Type 0} (m : M S A) (f : A → M S B) (pos : ℕ) (s : S) {b : B} {pos' : ℕ} {s' : S}
    → (m >>= f) pos s ≡ done b pos' s'
    → (a : A) × (p : ℕ) × (r : S) × (m pos s ≡ done a p r) × (f a p r ≡ done b pos' s')
bind-eq-done {S} {A} m f pos s {b} {pos'} {s'} = go (m pos s) refl
  where
    go :
        (x : Answer S A)
        → m pos s ≡ x
        → elim x [ done a p r ↦ f a p r | refused p r ↦ refused p r | crashed e ↦ crashed e ]
          ≡ done b pos' s'
        → (a : A) × (p : ℕ) × (r : S) × (m pos s ≡ done a p r) × (f a p r ≡ done b pos' s')
    go (done a p r) e h = (a, p, r, e, h)
    go (refused p r) e h = cc
    go (crashed c) e h = cc
