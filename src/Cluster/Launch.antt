-- ===== src/Cluster/Launch.antt =====
-- `caf_main` of master.cpp and of client.cpp.
use http_decoder.Base.{
  ℕ, zero, suc, ◌+◌, List, [], ◌∷◌, ◌++◌, Option, none, some, Outcome, ok, fault, null_pointer,
  diverges, ◌>>=◌, Bytes, bytes_of, length,
}
use http_decoder.Cluster.Client.{client_actor}
use http_decoder.Cluster.Letters.{Letter, master_start, client_step}
use http_decoder.Cluster.Master.{MasterActor, master_actor}
use http_decoder.Cluster.Texts.{c_string, getline}
use http_decoder.Public.Headers.{StringMap, insert, lookup}

-- `if(iter==ssh_actors.end()) ssh_actors.insert(std::pair<string,actor>(ip,a));`
unfoldable pub add_host : Bytes → ℕ → StringMap ℕ → StringMap ℕ
add_host ip a ssh_actors = elim (lookup ip ssh_actors) [
  | none ↦ insert ip a ssh_actors
  | some b ↦ ssh_actors
]

-- The loop over the file, with fuel: each round spawns an `ssh_worker`, whose handle is the number
-- of those spawned before.
unfoldable pub read_hosts : ℕ → ℕ → Bytes → StringMap ℕ → Outcome (StringMap ℕ)
read_hosts zero a s ssh_actors = fault diverges
read_hosts (suc fuel) a s ssh_actors = elim (getline s) [
  | none ↦ ok ssh_actors
  | some (line, rest) ↦ do
    ip ← c_string (line ++ 0 ∷ [])
    read_hosts fuel (a + 1) rest (add_host ip a ssh_actors)
]

-- `caf_main` of master.cpp, with what the file holds, if it can be opened
unfoldable pub master_main : Option Bytes → Outcome (MasterActor × List Letter)
master_main conf = do
  ssh_actors ← read_hosts (length (bytes_of conf) + 1) 0 (bytes_of conf) []
  ok (master_actor ssh_actors, master_start ∷ [])

-- `caf_main` of client.cpp: `*master_actor_ptr` needs the connection. Of the file that it reads it
-- uses nothing.
unfoldable pub client_main : Option ℕ → ℕ → Outcome (List Letter)
client_main none id = fault null_pointer
client_main (some master) id = ok (client_step (client_actor id) ∷ [])
