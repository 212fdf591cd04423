-- ===== src/Cluster/Receiving.antt =====
-- Whatever an actor receives keeps what it should.
use http_decoder.Base.{
  ℕ, ◌^◌, ◌≤◌, ◌<◌, List, [], ◌∷◌, ◌++◌, Option, none, some, ◌≡◌, refl, subst, inl, inr, arith,
  Bool-cases, if◌then◌else◌, Bool, true, false, Outcome, ok, >>=-eq-ok, Bytes, length,
}
use http_decoder.Cluster.Checking.{on_check_lem, on_check-Keeps, silent, armed, restarts}
use http_decoder.Cluster.Client.{through_int, client_actor, getcpu, on_step}
use http_decoder.Cluster.Invariant.{
  IsKnown, AllKnown, started, AllKnown-append, Keeps, starts, starts-append, checks, checks-append,
  is_check, is_start,
}
use http_decoder.Cluster.Launch.{client_main}
use http_decoder.Cluster.Letters.{
  Letter, ClientActor, master_start, master_heartbeat, master_check, ssh_start, client_step,
  client_heartbeat,
}
use http_decoder.Cluster.Master.{MasterActor, on_heartbeat}
use http_decoder.Cluster.Numbered.{state_of_known, set_state-Numbered, length-set_state}
use http_decoder.Cluster.SshWorker.{command, succeeded, on_ssh_start}
use http_decoder.Cluster.Starting.{IsCounted, on_start-Keeps}
use http_decoder.Cluster.System.{World, receive}

-- Messages that name known workers and are no timers.
abbrev IsPlain : ℕ → List Letter → Type 0
IsPlain n sent = AllKnown n sent × (starts sent ≡ 0) × (checks sent ≡ 0)

IsPlain-append : (n : ℕ) (xs ys : List Letter) → IsPlain n xs → IsPlain n ys → IsPlain n (xs ++ ys)
IsPlain-append n xs ys a b = (
  AllKnown-append n xs ys a.0 b.0,
  omega (arith, starts-append xs ys),
  omega (arith, checks-append xs ys),
)

-- A receiver that leaves the master alone and sends no timer.
same-Keeps :
    (l : Letter) (m : MasterActor) (sent : List Letter)
    → IsCounted m
    → (is_start l ≡ 0) × (is_check l ≡ 0)
    → started l m.ssh_actors ≡ 0
    → IsPlain m.counter sent
    → Keeps l m m sent
same-Keeps l m sent v e s k = record {
  same_actors = refl;
  numbered = v.numbered;
  counted = v.counted;
  counter = omega (arith, s);
  known = k.0;
  no_start = k.1;
  timer = omega (arith, e, k.2);
}

on_heartbeat-Keeps :
    (id : ℕ) (cpu : Bytes) (m : MasterActor)
    → IsCounted m
    → IsKnown m.counter (master_heartbeat id cpu)
    → Keeps (master_heartbeat id cpu) m (on_heartbeat id m).0 (on_heartbeat id m).1
unfolding on_heartbeat
on_heartbeat-Keeps id cpu m v k =
    let (s, found, small) =
      state_of_known 0 id m.conn_state v.numbered k.0 (omega (arith, v.counted)) in
    rw (found, on_heartbeat)
      (record {
        same_actors = refl;
        numbered = set_state-Numbered 0 id 0 m.conn_state (omega arith) v.numbered;
        counted = omega (arith, length-set_state id 0 m.conn_state, v.counted);
        counter = omega arith;
        known = (tt, tt);
        no_start = refl;
        timer = refl;
      })

through_int_small : (x : ℕ) → x < 2 ^ 31 → through_int x ≡ x
through_int_small x h = ground arith

-- A new client has the number that its command names.
client_main-Known :
    (n number : ℕ) (remote : Option ℕ) (sent : List Letter)
    → (0 < number) × (number ≤ n)
    → n < 2 ^ 31
    → client_main remote number ≡ ok sent
    → IsPlain n sent
unfolding client_main
client_main-Known n number none sent k h e = cc
client_main-Known n number (some a) sent k h e =
    let f : client_step (client_actor number) ∷ [] ≡ sent = cc in
    subst (IsPlain n) f (
      (
        (
          omega (arith, through_int_small number (omega arith)),
          omega (arith, through_int_small number (omega arith)),
        ),
        tt,
      ),
      refl,
      refl,
    )

launched-Plain :
    (n number : ℕ) (up : Bool) (remote : Option ℕ) (sent : List Letter)
    → (0 < number) × (number ≤ n)
    → n < 2 ^ 31
    → (if up then client_main remote number else ok []) ≡ ok sent
    → IsPlain n sent
launched-Plain n number true remote sent k small e =
    client_main-Known n number remote sent k small e
launched-Plain n number false remote sent k small e =
    let f : [] ≡ sent = cc in subst (IsPlain n) f (tt, refl, refl)

on_ssh_start-Plain :
    (n self : ℕ) (ip : Bytes) (number : ℕ) (system : Bytes → ℕ)
    → (0 < number) × (number ≤ n)
    → IsPlain n (on_ssh_start system self ip number)
unfolding on_ssh_start
on_ssh_start-Plain n self ip number system k =
    elim (Bool-cases (succeeded (system (command ip number)))) [
      | inl done ↦ rw done (tt, refl, refl)
      | inr again ↦ rw again ((k, tt), refl, refl)
    ]

launch-Keeps :
    (w : World) (to number : ℕ) (ip : Bytes) (m : MasterActor) (r : MasterActor × List Letter)
    → IsCounted m
    → m.counter < 2 ^ 31
    → (0 < number) × (number ≤ m.counter)
    → receive w (ssh_start to ip number) m ≡ ok r
    → Keeps (ssh_start to ip number) m r.0 r.1
unfolding receive
launch-Keeps w to number ip m r v small k h =
    let client : Outcome (List Letter) =
      if w.comes_up (command ip number) then client_main w.remote_actor number else ok [] in
    let (sent, e, last) = >>=-eq-ok client _ h in
    let plain =
      launched-Plain m.counter number (w.comes_up (command ip number)) w.remote_actor sent k small
        e in
    let again = on_ssh_start w.system to ip number in
    let f : (m, again ++ sent) ≡ r = cc in
    subst (λ (t : MasterActor × List Letter). Keeps (ssh_start to ip number) m t.0 t.1) f
      (same-Keeps (ssh_start to ip number) m (again ++ sent) v (refl, refl) refl
        (IsPlain-append m.counter again sent (on_ssh_start-Plain m.counter to ip number w.system k)
          plain))

step-Keeps :
    (w : World) (c : ClientActor) (m : MasterActor) (r : MasterActor × List Letter)
    → IsCounted m
    → (0 < c.id) × (c.id ≤ m.counter)
    → receive w (client_step c) m ≡ ok r
    → Keeps (client_step c) m r.0 r.1
unfolding receive on_step
step-Keeps w c m r v k h =
    let (sent, e, last) = >>=-eq-ok (on_step w.tmp w.popen w.pid c) _ h in
    let (cpu, e', last') = >>=-eq-ok (getcpu w.tmp w.popen w.pid) _ e in
    let f : (m, client_step c ∷ master_heartbeat c.id cpu ∷ []) ≡ r = cc in
    subst (λ (t : MasterActor × List Letter). Keeps (client_step c) m t.0 t.1) f
      (same-Keeps (client_step c) m _ v (refl, refl) refl ((k, (k, tt)), refl, refl))

-- Whatever is received keeps what it should.
pub receive-Keeps :
    (w : World) (l : Letter) (m : MasterActor) (r : MasterActor × List Letter)
    → IsCounted m
    → m.counter < 2 ^ 31
    → IsKnown m.counter l
    → (is_check l ≡ 1 → m.counter ≡ length m.ssh_actors)
    → receive w l m ≡ ok r
    → Keeps l m r.0 r.1
unfolding receive
receive-Keeps w master_start m r v small k b h = on_start-Keeps m r v h
receive-Keeps w (master_heartbeat id cpu) m r v small k b h =
    let f : on_heartbeat id m ≡ r = cc in
    subst (λ (t : MasterActor × List Letter). Keeps (master_heartbeat id cpu) m t.0 t.1) f
      (on_heartbeat-Keeps id cpu m v k)
receive-Keeps w master_check m r v small k b h =
    let e = on_check_lem m (omega (arith, v.counted, b refl)) in
    let f : (
      record m { conn_state = armed m.conn_state },
      restarts m.ssh_actors (silent m.conn_state) ++ master_check ∷ [],
    )
        ≡ r =
      cc in
    subst (λ (t : MasterActor × List Letter). Keeps master_check m t.0 t.1) f
      (on_check-Keeps m v.numbered v.counted)
receive-Keeps w (ssh_start to ip number) m r v small k b h =
    launch-Keeps w to number ip m r v small k h
receive-Keeps w (client_step c) m r v small k b h = step-Keeps w c m r v k h
receive-Keeps w (client_heartbeat id) m r v small k b h =
    let f : (m, []) ≡ r = cc in
    subst (λ (t : MasterActor × List Letter). Keeps (client_heartbeat id) m t.0 t.1) f
      (same-Keeps (client_heartbeat id) m [] v (refl, refl) refl (tt, refl, refl))
