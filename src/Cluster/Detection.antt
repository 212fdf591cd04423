-- ===== src/Cluster/Detection.antt =====
-- What the master finds out between two checks.
use http_decoder.Base.{
  ℕ, zero, suc, ◌^◌, ◌≤◌, ◌<◌, Bool, false, ◌||◌, List, [], ◌∷◌, ◌++◌, Option, none, some, ◌≡◌,
  refl, ap, subst, sym, ◌∙◌, inl, inr, arith, ◌==◌, if◌then◌else◌, Bool-cases, ok, >>=-eq-ok,
  length,
}
use http_decoder.Cluster.Checking.{on_check_lem, silent, armed, restarts}
use http_decoder.Cluster.Client.{on_step}
use http_decoder.Cluster.Launch.{client_main}
use http_decoder.Cluster.SshWorker.{command}
use http_decoder.Cluster.Connections.{Connections, state_of, set_state}
use http_decoder.Cluster.Invariant.{Inv}
use http_decoder.Cluster.Letters.{
  Letter, master_start, master_heartbeat, master_check, ssh_start, client_step, client_heartbeat,
}
use http_decoder.Cluster.Master.{MasterActor, on_heartbeat}
use http_decoder.Cluster.Numbered.{Numbered}
use http_decoder.Cluster.Reachable.{Inv-at, Reach-Inv}
use http_decoder.Cluster.Schedule.{
  Delivered, to_master, Between, still, beat, aside, lost, Between-Reach, Delivered-Step,
}
use http_decoder.Cluster.System.{World, receive, System, Reach, later}
use http_decoder.Public.Headers.{StringMap}

abbrev pub member : ℕ → List ℕ → Bool
member id [] = false
member id (x ∷ ids) = id == x || member id ids

-- those of `k + 1` to `k + n` that are not among `ids`
abbrev pub missing : List ℕ → ℕ → ℕ → List ℕ
missing ids k zero = []
missing ids k (suc n) =
    let rest = missing ids (suc k) n in if member (suc k) ids then rest else suc k ∷ rest

-- the table of `k + 1` to `k + n` after heartbeats of `ids`
table : List ℕ → ℕ → ℕ → Connections
table ids k zero = []
table ids k (suc n) = (suc k, if member (suc k) ids then 0 else 1) ∷ table ids (suc k) n

armed-eq-table : (k : ℕ) (c : Connections) → Numbered k c → armed c ≡ table [] k (length c)
unfolding armed table
armed-eq-table k [] d = refl
armed-eq-table k ((id, v) ∷ c) d = ground (arith, armed-eq-table (suc k) c d.2)

silent-table : (ids : List ℕ) (k n : ℕ) → silent (table ids k n) ≡ missing ids k n
unfolding silent table
silent-table ids k zero = refl
silent-table ids k (suc n) = ground (arith, silent-table ids (suc k) n)

set_state-table_low :
    (id : ℕ) (ids : List ℕ) (k n : ℕ) → id ≤ k → table ids k n ≡ table (id ∷ ids) k n
unfolding table
set_state-table_low id ids k zero h = refl
set_state-table_low id ids k (suc n) h = ground (arith, set_state-table_low id ids (suc k) n)

set_state-table :
    (id : ℕ) (ids : List ℕ) (k n : ℕ) → set_state id 0 (table ids k n) ≡ table (id ∷ ids) k n
unfolding set_state table
set_state-table id ids k zero = refl
set_state-table id ids k (suc n) = elim (Bool-cases (suc k == id)) [
  | inl same ↦ ground (arith, set_state-table_low id ids (suc k) n)
  | inr other ↦ ground (arith, set_state-table id ids (suc k) n)
]

set_state_unknown : (id v : ℕ) (c : Connections) → state_of id c ≡ none → set_state id v c ≡ c
unfolding state_of set_state
set_state_unknown id v [] h = refl
set_state_unknown id v ((k, w) ∷ c) h = ground (arith, set_state_unknown id v c)

on_heartbeat_state :
    (id : ℕ) (m : MasterActor)
    → (on_heartbeat id m).0 ≡ record m { conn_state = set_state id 0 m.conn_state }
unfolding on_heartbeat
on_heartbeat_state id m = by_state (state_of id m.conn_state) refl
  where
    by_state :
        (o : Option ℕ)
        → state_of id m.conn_state ≡ o
        → (on_heartbeat id m).0 ≡ record m { conn_state = set_state id 0 m.conn_state }
    by_state none e = rw (e, on_heartbeat, set_state_unknown id 0 m.conn_state e) refl
    by_state (some v) e = rw (e, on_heartbeat) refl

-- What is received elsewhere leaves the master alone.
aside_same :
    (w : World) (l : Letter) (m m' : MasterActor) (sent : List Letter)
    → to_master l ≡ false
    → receive w l m ≡ ok (m', sent)
    → m' ≡ m
unfolding receive
aside_same w master_start m m' sent h e = cc
aside_same w (master_heartbeat id cpu) m m' sent h e = cc
aside_same w master_check m m' sent h e = cc
aside_same w (ssh_start to ip number) m m' sent h e =
    let (client, f, last) =
      >>=-eq-ok
        (if w.comes_up (command ip number) then client_main w.remote_actor number else ok []) _ e in
    cc
aside_same w (client_step c) m m' sent h e =
    let (out, f, last) = >>=-eq-ok (on_step w.tmp w.popen w.pid c) _ e in cc
aside_same w (client_heartbeat id) m m' sent h e = cc

-- The master between two checks: `n` workers, and those of `ids` have answered.
record Awaits (a : StringMap ℕ) (ids : List ℕ) (m : MasterActor) : Type 0 where
  same_actors : m.ssh_actors ≡ a
  states : m.conn_state ≡ table ids 0 (length a)

beat-Awaits :
    (a : StringMap ℕ) (ids : List ℕ) (id : ℕ) (m m' : MasterActor) (sent : List Letter)
    → on_heartbeat id m ≡ (m', sent)
    → Awaits a ids m
    → Awaits a (id ∷ ids) m'
beat-Awaits a ids id m m' sent e v =
    let f : m' ≡ record m { conn_state = set_state id 0 m.conn_state } =
      cc (on_heartbeat_state id m) in
    record {
      same_actors = cc;
      states =
          ap (λ (x : MasterActor). x.conn_state) f
          ∙ ap (set_state id 0) v.states
          ∙ set_state-table id ids 0 (length a);
    }

Between-Awaits :
    (a : StringMap ℕ) (t u : System) (ids : List ℕ)
    → Between t ids u
    → Awaits a [] t.master
    → Awaits a ids u.master
unfolding receive
Between-Awaits a t _ _ still v = v
Between-Awaits a t u _ (beat {ids} {t = s} id cpu b d) v =
    beat-Awaits a ids id s.master u.master d.sent (cc d.received) (Between-Awaits a t s ids b v)
Between-Awaits a t u ids (aside {t = s} l b h d) v =
    subst (Awaits a ids) (sym (aside_same d.world l s.master u.master d.sent h d.received))
      (Between-Awaits a t s ids b v)
Between-Awaits a t u ids (lost {t = s} b d) v =
    subst (Awaits a ids) (sym d.untouched) (Between-Awaits a t s ids b v)

-- A check in a reachable state, by the equation of the handler.
check_at :
    (a : StringMap ℕ) (s t : System)
    → length a < 2 ^ 31
    → Reach a s
    → (d : Delivered master_check s t)
    → (s.master.ssh_actors ≡ a)
      × (length s.master.conn_state ≡ length a)
      × Numbered 0 s.master.conn_state
      × (t.master ≡ record s.master { conn_state = armed s.master.conn_state })
      × (d.sent ≡ restarts s.master.ssh_actors (silent s.master.conn_state) ++ master_check ∷ [])
unfolding receive
check_at a s t small reached d =
    let v = Reach-Inv a s small reached in
    let (counted, few, known, begun) =
      Inv-at a s.master master_check d.front d.back small (subst (Inv a s.master) d.waits v) in
    let same = ap length v.same_actors in
    let n : length s.master.conn_state ≡ length s.master.ssh_actors =
      omega (arith, counted.counted, begun refl) in
    let e = on_check_lem s.master n in
    let f = d.received in (v.same_actors, omega (arith, same, n), v.numbered, cc, cc)

-- With fewer than 2 ^ 31 hosts, take a reachable state in which a check is received, then heartbeats
-- of `ids` with whatever happens outside of the master, then a check. The second check sends a start
-- on the first host for each number from 1 to the number of hosts that is not in `ids`, in this order,
-- and then the next check, and sends nothing else.
pub second_check :
    (a : StringMap ℕ) (s t u v : System) (ids : List ℕ)
    → length a < 2 ^ 31
    → Reach a s
    → Delivered master_check s t
    → Between t ids u
    → (d : Delivered master_check u v)
    → d.sent ≡ restarts a (missing ids 0 (length a)) ++ master_check ∷ []
second_check a s t u v ids small reached first b d =
    let (same, n, numbered, after, sends) = check_at a s t small reached first in
    let armed_now : Awaits a [] t.master = record {
      same_actors = cc;
      states =
          ap (λ (x : MasterActor). x.conn_state) after
          ∙ armed-eq-table 0 s.master.conn_state numbered
          ∙ ap (table [] 0) n;
    } in
    let awaits = Between-Awaits a t u ids b armed_now in
    let reached' =
      Between-Reach a t u ids (later reached (Delivered-Step master_check s t first)) b in
    let (same', n', numbered', after', sends') = check_at a u v small reached' d in
    rw (sends', awaits.same_actors, awaits.states, silent-table ids 0 (length a)) refl
