-- ===== src/Cluster/Safety.antt =====
-- What a run of the actors cannot come to: a fault, a worker that the master does not know, a master
-- without its timer.
use http_decoder.Base.{
  ℕ, ◌+◌, ◌^◌, ◌≤◌, ◌<◌, Bool, true, false, List, [], ◌∷◌, ◌++◌, some, ◌≡◌, refl, ap, subst, ◌⊎◌,
  arith, if◌then◌else◌, ok, Bytes, length,
}
use http_decoder.Cluster.Checking.{on_check_lem}
use http_decoder.Cluster.Client.{client_actor, trim, on_step}
use http_decoder.Cluster.Connections.{state_of}
use http_decoder.Cluster.Cpu.{IsText, ps, getcpu_line}
use http_decoder.Cluster.Invariant.{AllKnown, AllKnown-parts, Inv, starts, checks, is_check}
use http_decoder.Cluster.Launch.{client_main}
use http_decoder.Cluster.Letters.{
  Letter, master_start, master_heartbeat, master_check, ssh_start, client_step, client_heartbeat,
}
use http_decoder.Cluster.Master.{MasterActor, on_start, on_heartbeat}
use http_decoder.Cluster.Numbered.{Numbered, state_of_known}
use http_decoder.Cluster.Reachable.{Inv-at, Reach-Inv}
use http_decoder.Cluster.SshWorker.{command, on_ssh_start}
use http_decoder.Cluster.Starting.{IsCounted, start_all_total}
use http_decoder.Cluster.System.{World, receive, System, Reach}
use http_decoder.Public.Headers.{StringMap}

-- The machines answer as they should: a client finds the master, and `ps` prints a line.
pub record Works (w : World) : Type 0 where
  pub master : ℕ
  pub connects : w.remote_actor ≡ some master
  pub line : Bytes
  pub rest : Bytes
  pub prints : w.popen (ps w.pid) ≡ some (line ++ b'\n' ∷ rest)
  pub is_text : IsText line
  pub fits : length line ≤ 1022

abbrev Received : World → Letter → MasterActor → Type 0
Received w l m = (r : MasterActor × List Letter) × (receive w l m ≡ ok r)

pub on_start_total :
    (m : MasterActor)
    → IsCounted m
    → m.counter + length m.ssh_actors < 2 ^ 63
    → (r : MasterActor × List Letter) × (on_start m ≡ ok r)
unfolding on_start
on_start_total m v h =
    let (m', sent, e) = start_all_total m.ssh_actors m v h in
    ((m', sent ++ master_check ∷ []), rw e refl)

launch_total :
    (up : Bool) (w : World) (number : ℕ)
    → Works w
    → (sent : List Letter) × ((if up then client_main w.remote_actor number else ok []) ≡ ok sent)
unfolding client_main
launch_total true w number k = (client_step (client_actor number) ∷ [], rw k.connects refl)
launch_total false w number k = ([], refl)

receive_total :
    (w : World) (l : Letter) (m : MasterActor)
    → Works w
    → IsCounted m
    → m.counter + length m.ssh_actors < 2 ^ 63
    → (is_check l ≡ 1 → m.counter ≡ length m.ssh_actors)
    → Received w l m
unfolding receive on_step
receive_total w master_start m k v h b = on_start_total m v h
receive_total w (master_heartbeat id cpu) m k v h b = (on_heartbeat id m, refl)
receive_total w master_check m k v h b = (_, on_check_lem m (omega (arith, v.counted, b refl)))
receive_total w (ssh_start to ip number) m k v h b =
    let (sent, e) = launch_total (w.comes_up (command ip number)) w number k in
    ((m, on_ssh_start w.system to ip number ++ sent), rw e refl)
receive_total w (client_step c) m k v h b = (
  (m, client_step c ∷ master_heartbeat c.id (trim k.line) ∷ []),
  rw (getcpu_line w.tmp k.line k.rest w.popen w.pid k.prints k.is_text k.fits) refl,
)
receive_total w (client_heartbeat id) m k v h b = ((m, []), refl)

-- With fewer than 2 ^ 31 hosts, in every state that the master, its ssh workers and the clients can
-- reach, however the machines answered so far, any message on its way is received without undefined
-- behaviour when the machines answer then as they should: a new client finds the master, and `ps`
-- prints a line of at most 1022 bytes.
pub Reach-no_fault :
    (a : StringMap ℕ) (s : System) (w : World) (l : Letter) (front back : List Letter)
    → length a < 2 ^ 31
    → Reach a s
    → s.mail ≡ front ++ l ∷ back
    → Works w
    → (r : MasterActor × List Letter) × (receive w l s.master ≡ ok r)
Reach-no_fault a s w l front back small reached e works =
    let v = Reach-Inv a s small reached in
    let v' = subst (Inv a s.master) e v in
    let (counted, few, known, begun) = Inv-at a s.master l front back small v' in
    let same = ap length v.same_actors in
    receive_total w l s.master works counted (omega (arith, same)) begun

-- With fewer than 2 ^ 31 hosts, in every reachable state the numbers in the master's table are those
-- from 1 on, each with 0 or 1. Either the first start is on its way, once, with no check and with an
-- empty table, or one check is, with no start and with a number for every host.
pub Reach-one_timer :
    (a : StringMap ℕ) (s : System)
    → length a < 2 ^ 31
    → Reach a s
    → Numbered 0 s.master.conn_state
      × (((starts s.mail ≡ 1) × (checks s.mail ≡ 0) × (length s.master.conn_state ≡ 0))
          ⊎ ((starts s.mail ≡ 0) × (checks s.mail ≡ 1) × (length s.master.conn_state ≡ length a)))
Reach-one_timer a s small reached =
    let v = Reach-Inv a s small reached in
    (v.numbered, ground (arith, v.timer, v.not_begun, v.begun, v.counted))

-- With fewer than 2 ^ 31 hosts, a heartbeat that is on its way in a reachable state is of a worker in
-- the master's table, with 0 or 1: the answer to an unknown worker is never taken.
pub heartbeat_known :
    (a : StringMap ℕ) (s : System) (id : ℕ) (cpu : Bytes) (front back : List Letter)
    → length a < 2 ^ 31
    → Reach a s
    → s.mail ≡ front ++ master_heartbeat id cpu ∷ back
    → (v : ℕ) × (state_of id s.master.conn_state ≡ some v) × (v ≤ 1)
heartbeat_known a s id cpu front back small reached e =
    let v = Reach-Inv a s small reached in
    let k =
      (AllKnown-parts s.master.counter front (master_heartbeat id cpu ∷ back)
        (subst (AllKnown s.master.counter) e v.known)).1.0 in
    state_of_known 0 id s.master.conn_state v.numbered k.0 (omega (arith, v.counted))
