-- ===== src/Cluster/Checking.antt =====
-- The master's `check_atom`: a worker that did not answer since the last check is started again.
use http_decoder.Base.{
  ℕ, suc, ◌+◌, ◌≤◌, List, [], ◌∷◌, ◌++◌, ◌≡◌, refl, ap, inl, inr, arith, ◌==◌, Bool-cases,
  if◌then◌else◌, ok, Bytes, length,
}
use mathlib.Core.List.{map}
use http_decoder.Cluster.Connections.{Connections}
use http_decoder.Cluster.Invariant.{
  AllKnown, AllKnown-append, starts, starts-append, checks, checks-append, Keeps,
}
use http_decoder.Cluster.Letters.{Letter, master_check, ssh_start}
use http_decoder.Cluster.Master.{MasterActor, check_all, on_check}
use http_decoder.Cluster.Numbered.{Numbered}
use http_decoder.Public.Headers.{StringMap}

-- the workers that did not answer
unfoldable pub silent : Connections → List ℕ
silent [] = []
silent ((id, v) ∷ c) = let rest = silent c in if v == 0 then rest else id ∷ rest

-- every worker waited for again
unfoldable pub armed : Connections → Connections
armed [] = []
armed ((id, v) ∷ c) = (id, if v == 0 then 1 else v) ∷ armed c

-- a start on the first host for each of them
abbrev pub restarts : StringMap ℕ → List ℕ → List Letter
restarts [] ids = []
restarts ((ip, a) ∷ rest) ids = map (ssh_start a ip) ids

check_all_lem :
    (ip : Bytes) (a : ℕ) (rest : StringMap ℕ) (c : Connections)
    → check_all ((ip, a) ∷ rest) c ≡ ok (armed c, map (ssh_start a ip) (silent c))
unfolding check_all silent armed
check_all_lem ip a rest [] = refl
check_all_lem ip a rest ((id, v) ∷ c) = elim (Bool-cases (v == 0)) [
  | inl answered ↦ rw (answered, check_all_lem ip a rest c) refl
  | inr quiet ↦ rw (quiet, check_all_lem ip a rest c) refl
]

on_check_by_actors :
    (actors : StringMap ℕ) (c : Connections) (n : ℕ)
    → length c ≡ length actors
    → on_check (record { ssh_actors = actors; counter = n; conn_state = c })
      ≡ ok (
        record { ssh_actors = actors; counter = n; conn_state = armed c },
        restarts actors (silent c) ++ master_check ∷ [],
      )
unfolding on_check check_all armed silent
on_check_by_actors [] [] n e = refl
on_check_by_actors [] (x ∷ c) n e = absurd (omega arith)
on_check_by_actors ((ip, a) ∷ actors) c n e = rw (check_all_lem ip a actors c) refl

-- The handler, where there is a host for every worker.
pub on_check_lem :
    (m : MasterActor)
    → length m.conn_state ≡ length m.ssh_actors
    → on_check m
      ≡ ok (
        record m { conn_state = armed m.conn_state },
        restarts m.ssh_actors (silent m.conn_state) ++ master_check ∷ [],
      )
on_check_lem m e = on_check_by_actors m.ssh_actors m.conn_state m.counter e

pub armed-Numbered : (k : ℕ) (c : Connections) → Numbered k c → Numbered k (armed c)
unfolding armed
armed-Numbered k [] n = tt
armed-Numbered k ((id, v) ∷ c) n = (n.0, ground arith, armed-Numbered (suc k) c n.2)

pub length-armed : (c : Connections) → length (armed c) ≡ length c
unfolding armed
length-armed [] = refl
length-armed ((id, v) ∷ c) = ap suc (length-armed c)

silent-AllKnown :
    (k : ℕ) (n : ℕ) (ip : Bytes) (a : ℕ) (c : Connections)
    → Numbered k c
    → k + length c ≤ n
    → AllKnown n (map (ssh_start a ip) (silent c))
unfolding silent
silent-AllKnown k n ip a [] d h = tt
silent-AllKnown k n ip a ((id, v) ∷ c) d h = elim (Bool-cases (v == 0)) [
  | inl answered ↦ rw answered (silent-AllKnown (suc k) n ip a c d.2 (omega arith))
  | inr quiet ↦
      rw quiet ((omega arith, omega arith), silent-AllKnown (suc k) n ip a c d.2 (omega arith))
]

restarts-AllKnown :
    (n : ℕ) (actors : StringMap ℕ) (c : Connections)
    → Numbered 0 c
    → length c ≤ n
    → AllKnown n (restarts actors (silent c))
restarts-AllKnown n [] c d h = tt
restarts-AllKnown n ((ip, a) ∷ actors) c d h = silent-AllKnown 0 n ip a c d (omega arith)

no_timers :
    (actors : StringMap ℕ) (ids : List ℕ)
    → (starts (restarts actors ids) ≡ 0) × (checks (restarts actors ids) ≡ 0)
no_timers [] ids = (refl, refl)
no_timers ((ip, a) ∷ actors) [] = (refl, refl)
no_timers ((ip, a) ∷ actors) (id ∷ ids) = omega (arith, no_timers ((ip, a) ∷ actors) ids)

-- The master's `check_atom` keeps what it should.
pub on_check-Keeps :
    (m : MasterActor)
    → Numbered 0 m.conn_state
    → length m.conn_state ≡ m.counter
    → Keeps master_check m
        (record m { conn_state = armed m.conn_state })
        (restarts m.ssh_actors (silent m.conn_state) ++ master_check ∷ [])
on_check-Keeps m d e =
    let sent = restarts m.ssh_actors (silent m.conn_state) in
    let quiet = no_timers m.ssh_actors (silent m.conn_state) in
    record {
      same_actors = refl;
      numbered = armed-Numbered 0 m.conn_state d;
      counted = omega (arith, length-armed m.conn_state);
      counter = omega arith;
      known =
          AllKnown-append _ sent (master_check ∷ [])
            (restarts-AllKnown m.counter m.ssh_actors m.conn_state d (omega arith)) (tt, tt);
      no_start = omega (arith, starts-append sent (master_check ∷ []), quiet);
      timer = omega (arith, checks-append sent (master_check ∷ []), quiet);
    }
