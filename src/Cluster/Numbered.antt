-- ===== src/Cluster/Numbered.antt =====
-- `conn_state` holds the numbers from 1 on, each with 0 or 1.
use http_decoder.Base.{ℕ, suc, ◌+◌, ◌≤◌, ◌<◌, [], ◌∷◌, ◌++◌, some, ◌≡◌, refl, arith, length}
use native.Mathlib.Decide.{ℕ_discrete}
use http_decoder.Cluster.Connections.{Connections, state_of, insert_state, set_state}

-- The entries are those of `k + 1`, `k + 2` and so on.
abbrev pub Numbered : ℕ → Connections → Type 0
Numbered k [] = Unit {0}
Numbered k ((id, v) ∷ c) = (id ≡ suc k) × (v ≤ 1) × Numbered (suc k) c

-- Every number in the range has a state, which is 0 or 1.
pub state_of_known :
    (k id : ℕ) (c : Connections)
    → Numbered k c
    → k < id
    → id ≤ k + length c
    → (v : ℕ) × (state_of id c ≡ some v) × (v ≤ 1)
unfolding state_of
state_of_known k id [] n low high = absurd (omega arith)
state_of_known k id ((j, w) ∷ c) n low high = elim (ℕ_discrete j id) [
  | yes e ↦ (w, ground arith, n.1)
  | no e ↦
      let (v, found, small) = state_of_known (suc k) id c n.2 (omega arith) (omega arith) in
      (v, ground arith, small)
]

pub set_state-Numbered :
    (k id v : ℕ) (c : Connections) → v ≤ 1 → Numbered k c → Numbered k (set_state id v c)
unfolding set_state
set_state-Numbered k id v [] small n = tt
set_state-Numbered k id v ((j, w) ∷ c) small n = ground (arith, set_state-Numbered (suc k) id v c)

pub length-set_state : (id v : ℕ) (c : Connections) → length (set_state id v c) ≡ length c
unfolding set_state
length-set_state id v [] = refl
length-set_state id v ((j, w) ∷ c) = ground (arith, length-set_state id v c)

-- The next number goes to the end.
pub insert_state_next :
    (k id v : ℕ) (c : Connections)
    → Numbered k c
    → id ≡ suc (k + length c)
    → insert_state id v c ≡ c ++ (id, v) ∷ []
unfolding insert_state
insert_state_next k id v [] n e = refl
insert_state_next k id v ((j, w) ∷ c) n e = ground (arith, insert_state_next (suc k) id v c n.2)

pub Numbered-append :
    (k id v : ℕ) (c : Connections)
    → Numbered k c
    → id ≡ suc (k + length c)
    → v ≤ 1
    → Numbered k (c ++ (id, v) ∷ [])
Numbered-append k id v [] n e small = (omega arith, small, tt)
Numbered-append k id v ((j, w) ∷ c) n e small =
    (n.0, n.1, Numbered-append (suc k) id v c n.2 (omega arith) small)
