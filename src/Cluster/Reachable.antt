-- ===== src/Cluster/Reachable.antt =====
-- Every step of the actors keeps the invariant, and what follows of the master's table and timer.
use http_decoder.Base.{
  ℕ, ◌^◌, ◌≤◌, ◌<◌, List, [], ◌∷◌, ◌++◌, ◌≡◌, refl, ap, subst, true, arith, length,
}
use http_decoder.Cluster.Invariant.{
  AllKnown-parts, AllKnown-append, IsKnown, Inv, Inv-deliver, starts, starts-append, checks,
  checks-append, is_start, is_check,
}
use http_decoder.Cluster.Letters.{
  Letter, master_start, master_heartbeat, master_check, ssh_start, client_step, client_heartbeat,
}
use http_decoder.Cluster.Master.{MasterActor, master_actor}
use http_decoder.Cluster.Receiving.{receive-Keeps}
use http_decoder.Cluster.Starting.{IsCounted}
use http_decoder.Cluster.System.{is_remote, System, Step, deliver, lose, Reach, begin, later}
use http_decoder.Public.Headers.{StringMap}

pub Inv-IsCounted :
    (a : StringMap ℕ) (m : MasterActor) (mail : List Letter) → Inv a m mail → IsCounted m
Inv-IsCounted a m mail v = record { numbered = v.numbered; counted = v.counted }

-- No more numbers are used than there are hosts.
pub Inv-counter :
    (a : StringMap ℕ) (m : MasterActor) (mail : List Letter) → Inv a m mail → m.counter ≤ length a
Inv-counter a m mail v = ground (arith, v.timer, v.not_begun, v.begun)

Inv-init : (a : StringMap ℕ) → Inv a (master_actor a) (master_start ∷ [])
Inv-init a = record {
  same_actors = refl;
  numbered = tt;
  counted = refl;
  known = (tt, tt);
  timer = refl;
  not_begun = λ _. refl;
  begun = λ h. absurd (omega arith);
}

-- The check that is delivered is the only timer.
begun_at_check :
    (a : StringMap ℕ) (m : MasterActor) (l : Letter) (front back : List Letter)
    → Inv a m (front ++ l ∷ back)
    → is_check l ≡ 1
    → m.counter ≡ length m.ssh_actors
begun_at_check a m l front back v h =
    let same = ap length v.same_actors in
    ground (arith, same, checks-append front (l ∷ back), v.timer, v.begun)

no_timer : (l : Letter) → is_remote l ≡ true → (is_start l ≡ 0) × (is_check l ≡ 0)
no_timer master_start h = cc
no_timer (master_heartbeat id cpu) h = (refl, refl)
no_timer master_check h = cc
no_timer (ssh_start to ip number) h = cc
no_timer (client_step c) h = (refl, refl)
no_timer (client_heartbeat id) h = (refl, refl)

Inv-lose :
    (a : StringMap ℕ) (m : MasterActor) (l : Letter) (front back : List Letter)
    → Inv a m (front ++ l ∷ back)
    → (is_start l ≡ 0) × (is_check l ≡ 0)
    → Inv a m (front ++ back)
Inv-lose a m l front back v e =
    let (p, q) = AllKnown-parts m.counter front (l ∷ back) v.known in
    let s : starts (front ++ back) ≡ starts (front ++ l ∷ back) =
      omega (arith, starts-append front back, starts-append front (l ∷ back)) in
    let c : checks (front ++ back) ≡ checks (front ++ l ∷ back) =
      omega (arith, checks-append front back, checks-append front (l ∷ back)) in
    record {
      same_actors = v.same_actors;
      numbered = v.numbered;
      counted = v.counted;
      known = AllKnown-append m.counter front back p q.1;
      timer = omega (arith, s, c, v.timer);
      not_begun = λ h. v.not_begun (omega (arith, s));
      begun = λ h. v.begun (omega (arith, c));
    }

-- The parts of the invariant at one message on its way.
pub Inv-at :
    (a : StringMap ℕ) (m : MasterActor) (l : Letter) (front back : List Letter)
    → length a < 2 ^ 31
    → Inv a m (front ++ l ∷ back)
    → IsCounted m
      × (m.counter < 2 ^ 31)
      × IsKnown m.counter l
      × (is_check l ≡ 1 → m.counter ≡ length m.ssh_actors)
Inv-at a m l front back small v = (
  Inv-IsCounted a m _ v,
  omega (arith, Inv-counter a m _ v),
  (AllKnown-parts m.counter front (l ∷ back) v.known).1.0,
  begun_at_check a m l front back v,
)

pub Step-Inv :
    (a : StringMap ℕ) (s t : System)
    → length a < 2 ^ 31
    → Step s t
    → Inv a s.master s.mail
    → Inv a t.master t.mail
Step-Inv a s t small (deliver w l front back {m} {sent} e h) v =
    let v' = subst (Inv a s.master) e v in
    let (counted, few, known, begun) = Inv-at a s.master l front back small v' in
    Inv-deliver a s.master m l front back sent v'
      (receive-Keeps w l s.master (m, sent) counted few known begun h)
Step-Inv a s t small (lose l front back e h) v =
    Inv-lose a s.master l front back (subst (Inv a s.master) e v) (no_timer l h)

pub Reach-Inv :
    (a : StringMap ℕ) (s : System) → length a < 2 ^ 31 → Reach a s → Inv a s.master s.mail
Reach-Inv a s small begin = Inv-init a
Reach-Inv a t small (later {s} r st) = Step-Inv a s t small st (Reach-Inv a s small r)
