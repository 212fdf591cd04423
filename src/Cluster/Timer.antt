-- ===== src/Cluster/Timer.antt =====
-- The master's timer never stops.
use http_decoder.Base.{
  ℕ, ◌+◌, ◌^◌, ◌<◌, List, [], ◌∷◌, ◌++◌, ◌≡◌, refl, ap, subst, arith, ok, length,
}
use http_decoder.Cluster.Checking.{on_check_lem}
use http_decoder.Cluster.Invariant.{Inv, is_start, is_check, starts, checks, checks-append}
use http_decoder.Cluster.Letters.{
  Letter, master_start, master_heartbeat, master_check, ssh_start, client_step, client_heartbeat,
}
use native.Mathlib.Decide.{ℕ_discrete}
use http_decoder.Cluster.Master.{MasterActor}
use http_decoder.Cluster.Reachable.{Inv-at, Inv-counter, Reach-Inv}
use http_decoder.Cluster.Safety.{on_start_total}
use http_decoder.Cluster.Schedule.{Delivered, Delivered-Step}
use http_decoder.Cluster.Receiving.{receive-Keeps}
use http_decoder.Cluster.System.{World, receive, System, Reach, later}
use http_decoder.Public.Headers.{StringMap}

abbrev Waits : Letter → List Letter → Type 0
Waits l mail = (front : List Letter) × (back : List Letter) × (mail ≡ front ++ l ∷ back)

Waits-cons : (l x : Letter) (mail : List Letter) → Waits l mail → Waits l (x ∷ mail)
Waits-cons l x mail (front, back, e) = (x ∷ front, back, ap (◌∷◌ x) e)

check-Waits : (mail : List Letter) → checks mail ≡ 1 → Waits master_check mail
check-Waits [] h = absurd (omega arith)
check-Waits (master_check ∷ mail) h = ([], mail, refl)
check-Waits (master_start ∷ mail) h =
    Waits-cons master_check master_start mail (check-Waits mail (omega arith))
check-Waits (master_heartbeat id cpu ∷ mail) h =
    Waits-cons master_check (master_heartbeat id cpu) mail (check-Waits mail (omega arith))
check-Waits (ssh_start to ip number ∷ mail) h =
    Waits-cons master_check (ssh_start to ip number) mail (check-Waits mail (omega arith))
check-Waits (client_step c ∷ mail) h =
    Waits-cons master_check (client_step c) mail (check-Waits mail (omega arith))
check-Waits (client_heartbeat id ∷ mail) h =
    Waits-cons master_check (client_heartbeat id) mail (check-Waits mail (omega arith))

start-Waits : (mail : List Letter) → starts mail ≡ 1 → Waits master_start mail
start-Waits [] h = absurd (omega arith)
start-Waits (master_start ∷ mail) h = ([], mail, refl)
start-Waits (master_check ∷ mail) h =
    Waits-cons master_start master_check mail (start-Waits mail (omega arith))
start-Waits (master_heartbeat id cpu ∷ mail) h =
    Waits-cons master_start (master_heartbeat id cpu) mail (start-Waits mail (omega arith))
start-Waits (ssh_start to ip number ∷ mail) h =
    Waits-cons master_start (ssh_start to ip number) mail (start-Waits mail (omega arith))
start-Waits (client_step c ∷ mail) h =
    Waits-cons master_start (client_step c) mail (start-Waits mail (omega arith))
start-Waits (client_heartbeat id ∷ mail) h =
    Waits-cons master_start (client_heartbeat id) mail (start-Waits mail (omega arith))

-- the message taken out, and its receiver's answer
deliver_now :
    (w : World) (l : Letter) (s : System)
    → Waits l s.mail
    → (r : MasterActor × List Letter) → receive w l s.master ≡ ok r
    → (t : System) × Delivered l s t
deliver_now w l s (front, back, e) r h = (
  record { master = r.0; mail = front ++ (back ++ r.1) },
  record {
    world = w;
    front = front;
    back = back;
    sent = r.1;
    waits = e;
    received = h;
    left = refl;
  },
)

-- A timer that is delivered leaves a check on its way.
check_again :
    (a : StringMap ℕ) (l : Letter) (s t : System)
    → length a < 2 ^ 31
    → Reach a s
    → is_start l + is_check l ≡ 1
    → Delivered l s t
    → checks t.mail ≡ 1
check_again a l s t small reached is_timer d =
    let v = subst (Inv a s.master) d.waits (Reach-Inv a s small reached) in
    let (counted, few, known, begun) = Inv-at a s.master l d.front d.back small v in
    let k =
      receive-Keeps d.world l s.master (t.master, d.sent) counted few known begun d.received in
    let total = (Reach-Inv a t small (later reached (Delivered-Step l s t d))).timer in
    let parts : checks t.mail ≡ checks d.front + (checks d.back + checks d.sent) =
      rw d.left
        (omega (arith, checks-append d.front (d.back ++ d.sent), checks-append d.back d.sent)) in
    omega (arith, total, parts, k.timer, is_timer)

-- With fewer than 2 ^ 31 hosts, in every reachable state the master's first start or its check is on
-- its way and can be received, however the machines answer, and afterwards one check is on its way:
-- the checks never stop.
pub timer_fires :
    (a : StringMap ℕ) (s : System) (w : World)
    → length a < 2 ^ 31
    → Reach a s
    → (l : Letter) × (t : System) × (is_start l + is_check l ≡ 1)
      × Delivered l s t
      × (checks t.mail ≡ 1)
unfolding receive
timer_fires a s w small reached =
    let v = Reach-Inv a s small reached in
    let few = Inv-counter a s.master s.mail v in
    let same = ap length v.same_actors in
    elim (ℕ_discrete (checks s.mail) 1) [
      | yes one ↦
          let (t, d) =
            deliver_now w master_check s (check-Waits s.mail one) _
              (on_check_lem s.master (omega (arith, same, v.counted, v.begun one))) in
          (master_check, t, refl, d, check_again a master_check s t small reached refl d)
      | no other ↦
          let one : starts s.mail ≡ 1 = ground (arith, v.timer) in
          let (r, e) =
            on_start_total s.master (record { numbered = v.numbered; counted = v.counted })
              (omega (arith, same)) in
          let (t, d) = deliver_now w master_start s (start-Waits s.mail one) r e in
          (master_start, t, refl, d, check_again a master_start s t small reached refl d)
    ]
