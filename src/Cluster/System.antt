-- ===== src/Cluster/System.antt =====
-- The actors of master.cpp and client.cpp together: the master's state and the messages that are on
-- their way, which arrive in any order. A `World` is what the machines answer at one step.
use http_decoder.Base.{
  ℕ, Bool, true, false, List, [], ◌∷◌, ◌++◌, Option, ◌≡◌, if◌then◌else◌, Outcome, ok, ◌>>=◌, Bytes,
}
use http_decoder.Cluster.Client.{client_actor, on_step, on_answer}
use http_decoder.Cluster.Launch.{client_main}
use http_decoder.Cluster.Letters.{
  Letter, master_start, master_heartbeat, master_check, ssh_start, client_step, client_heartbeat,
}
use http_decoder.Cluster.Master.{MasterActor, master_actor, on_start, on_heartbeat, on_check}
use http_decoder.Cluster.SshWorker.{command, on_ssh_start}
use http_decoder.Public.Headers.{StringMap}

pub record World : Type 0 where
  -- what `std::system` gives for a command, and whether the client that it names comes up
  pub system : Bytes → ℕ
  pub comes_up : Bytes → Bool
  -- what `remote_actor` gives the new client
  pub remote_actor : Option ℕ
  -- what the client's `popen`, its array and its `getpid` give
  pub popen : Bytes → Option Bytes
  pub tmp : Bytes
  pub pid : ℕ

-- What the receiver of a message does: the master's new state, and what is sent.
unfoldable pub receive : World → Letter → MasterActor → Outcome (MasterActor × List Letter)
receive w master_start m = on_start m
receive w (master_heartbeat id cpu) m = ok (on_heartbeat id m)
receive w master_check m = on_check m
receive w (ssh_start to ip number) m = do
  client ← if w.comes_up (command ip number) then client_main w.remote_actor number else ok []
  ok (m, on_ssh_start w.system to ip number ++ client)
receive w (client_step c) m = do sent ← on_step w.tmp w.popen w.pid c; ok (m, sent)
receive w (client_heartbeat id) m = ok (m, on_answer (client_actor id))

-- A message that goes with a broken connection, or with a client that ends.
abbrev pub is_remote : Letter → Bool
is_remote master_start = false
is_remote (master_heartbeat id cpu) = true
is_remote master_check = false
is_remote (ssh_start to ip number) = false
is_remote (client_step c) = true
is_remote (client_heartbeat id) = true

pub record System : Type 0 where
  pub master : MasterActor
  pub mail : List Letter

pub data Step (s : System) : System → Type 0 where
  deliver :
      (w : World) (l : Letter) (front back : List Letter) {m : MasterActor} {sent : List Letter}
      → s.mail ≡ front ++ l ∷ back
      → receive w l s.master ≡ ok (m, sent)
      → Step s (record { master = m; mail = front ++ (back ++ sent) })
  lose :
      (l : Letter) (front back : List Letter)
      → s.mail ≡ front ++ l ∷ back
      → is_remote l ≡ true
      → Step s (record { master = s.master; mail = front ++ back })

abbrev pub init : StringMap ℕ → System
init ssh_actors = record { master = master_actor ssh_actors; mail = master_start ∷ [] }

pub data Reach (ssh_actors : StringMap ℕ) : System → Type 0 where
  begin : Reach ssh_actors (init ssh_actors)
  later : {s t : System} → Reach ssh_actors s → Step s t → Reach ssh_actors t
