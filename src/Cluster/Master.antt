-- ===== src/Cluster/Master.antt =====
-- `master_actor` of master.cpp: its three handlers, with what they send.
use http_decoder.Base.{
  ℕ, zero, suc, ◌+◌, ◌^◌, List, [], ◌∷◌, ◌++◌, none, some, ltb, ◌==◌, if◌then◌else◌, Outcome, ok,
  fault, overflow, out_of_bounds, ◌>>=◌, Bytes,
}
use http_decoder.Cluster.Connections.{Connections, state_of, insert_state, set_state}
use http_decoder.Cluster.Letters.{Letter, master_check, ssh_start, client_heartbeat}
use http_decoder.Public.Headers.{StringMap}

abbrev pub worker_instances : ℕ
worker_instances = 1

pub record MasterActor : Type 0 where
  pub ssh_actors : StringMap ℕ
  pub counter : ℕ
  pub conn_state : Connections

-- the constructor
abbrev pub master_actor : StringMap ℕ → MasterActor
master_actor ssh_actors = record { ssh_actors = ssh_actors; counter = 0; conn_state = [] }

-- `counter++` on int64_t
abbrev pub incremented : ℕ → Outcome ℕ
incremented counter = if ltb (counter + 1) (2 ^ 63) then ok (counter + 1) else fault overflow

-- `for(int i=0;i<WORKER_INSTANCES;i++)`, for one entry of `ssh_actors`
unfoldable pub start_instances : ℕ → Bytes → ℕ → MasterActor → Outcome (MasterActor × List Letter)
start_instances zero ip a m = ok (m, [])
start_instances (suc n) ip a m = do
  counter ← incremented m.counter
  (m', sent) ←
      start_instances n ip a
        (record m { counter = counter; conn_state = insert_state counter 1 m.conn_state })
  ok (m', ssh_start a ip counter ∷ sent)

-- the loop over `ssh_actors`
unfoldable pub start_all : StringMap ℕ → MasterActor → Outcome (MasterActor × List Letter)
start_all [] m = ok (m, [])
start_all ((ip, a) ∷ rest) m = do
  (m', sent) ← start_instances worker_instances ip a m
  (m'', sent') ← start_all rest m'
  ok (m'', sent ++ sent')

-- `[=](start_atom)`
unfoldable pub on_start : MasterActor → Outcome (MasterActor × List Letter)
on_start m = do (m', sent) ← start_all m.ssh_actors m; ok (m', sent ++ master_check ∷ [])

-- `[=](heartbeat_atom,int64_t id,string cpu)`: the answer goes to whoever sent it.
unfoldable pub on_heartbeat : ℕ → MasterActor → MasterActor × List Letter
on_heartbeat id m = elim (state_of id m.conn_state) [
  | none ↦ (m, client_heartbeat id ∷ [])
  | some v ↦ (record m { conn_state = set_state id 0 m.conn_state }, client_heartbeat id ∷ [])
]

-- `send(ssh_actors.begin()->second,start_atom::value,ssh_actors.begin()->first,it->first)`
abbrev pub restart : StringMap ℕ → ℕ → Outcome Letter
restart [] id = fault out_of_bounds
restart ((ip, a) ∷ rest) id = ok (ssh_start a ip id)

-- the loop over `conn_state`
unfoldable pub check_all : StringMap ℕ → Connections → Outcome (Connections × List Letter)
check_all ssh_actors [] = ok ([], [])
check_all ssh_actors ((id, v) ∷ c) =
    let rest = check_all ssh_actors c in
    if v == 0
    then (do (c', sent) ← rest; ok ((id, 1) ∷ c', sent))
    else (do letter ← restart ssh_actors id; (c', sent) ← rest; ok ((id, v) ∷ c', letter ∷ sent))

-- `[=](check_atom)`
unfoldable pub on_check : MasterActor → Outcome (MasterActor × List Letter)
on_check m = do
  (c, sent) ← check_all m.ssh_actors m.conn_state
  ok (record m { conn_state = c }, sent ++ master_check ∷ [])
