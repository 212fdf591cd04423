-- ===== src/Cluster/Connections.antt =====
-- `conn_state` of master.cpp, a std::map from the number of a worker to 0 or 1: its entries in the
-- order of their keys. A number is the bit pattern of an int64_t; `counter` gives no negative one.
use http_decoder.Base.{ℕ, List, [], ◌∷◌, Option, none, some, ltb, ◌==◌, if◌then◌else◌}

abbrev pub Connections : Type 0
Connections = List (ℕ × ℕ)

-- `conn_state.find(id)`
unfoldable pub state_of : ℕ → Connections → Option ℕ
state_of id [] = none
state_of id ((k, v) ∷ c) = if k == id then some v else state_of id c

-- `conn_state.insert(...)`, which keeps an entry that is there
unfoldable pub insert_state : ℕ → ℕ → Connections → Connections
insert_state id v [] = (id, v) ∷ []
insert_state id v ((k, w) ∷ c) =
    if k == id
    then (k, w) ∷ c
    else if ltb id k
    then (id, v) ∷ (k, w) ∷ c
    else (k, w) ∷ insert_state id v c

-- `it->second = v` for the entry found
unfoldable pub set_state : ℕ → ℕ → Connections → Connections
set_state id v [] = []
set_state id v ((k, w) ∷ c) = if k == id then (k, v) ∷ c else (k, w) ∷ set_state id v c
