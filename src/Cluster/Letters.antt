-- ===== src/Cluster/Letters.antt =====
-- The messages between the actors of master.cpp and client.cpp. A message that is sent with a delay
-- is on its way like any other.
use http_decoder.Base.{ℕ, Bytes}

-- `client_actor` of client.cpp, whose fields no handler changes
pub record ClientActor : Type 0 where
  pub id : ℕ
  pub conn_state : ℕ
  pub host : Bytes
  pub port : ℕ

pub data Letter : Type 0 where
  -- to the master: `start_atom`, `heartbeat_atom` with a number and a text, `check_atom`
  master_start : Letter
  master_heartbeat : (id : ℕ) → (cpu : Bytes) → Letter
  master_check : Letter
  -- to an `ssh_worker`: `start_atom` with an address and a number
  ssh_start : (to : ℕ) → (ip : Bytes) → (number : ℕ) → Letter
  -- to a client: its `step_atom`, and the master's answer
  client_step : (to : ClientActor) → Letter
  client_heartbeat : (id : ℕ) → Letter
