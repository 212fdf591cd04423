-- ===== src/Cluster/Invariant.antt =====
-- What holds between two steps of the actors, and what one handler does to it.
use http_decoder.Base.{
  ℕ, ◌+◌, ◌≤◌, ◌<◌, List, [], ◌∷◌, ◌++◌, ◌≡◌, refl, ap, ◌∙◌, ◌⊎◌, inl, inr, arith, length,
}
use http_decoder.Cluster.Letters.{
  Letter, master_start, master_heartbeat, master_check, ssh_start, client_step, client_heartbeat,
}
use http_decoder.Cluster.Master.{MasterActor}
use http_decoder.Cluster.Numbered.{Numbered}
use http_decoder.Public.Headers.{StringMap}

-- A message names only workers that have a number.
abbrev pub IsKnown : ℕ → Letter → Type 0
IsKnown n master_start = Unit {0}
IsKnown n (master_heartbeat id cpu) = (0 < id) × (id ≤ n)
IsKnown n master_check = Unit {0}
IsKnown n (ssh_start to ip number) = (0 < number) × (number ≤ n)
IsKnown n (client_step c) = (0 < c.id) × (c.id ≤ n)
IsKnown n (client_heartbeat id) = Unit {0}

abbrev pub AllKnown : ℕ → List Letter → Type 0
AllKnown n [] = Unit {0}
AllKnown n (l ∷ mail) = IsKnown n l × AllKnown n mail

-- one for the master's `start_atom`
abbrev pub is_start : Letter → ℕ
is_start master_start = 1
is_start _ = 0

-- one for the master's `check_atom`
abbrev pub is_check : Letter → ℕ
is_check master_check = 1
is_check _ = 0

abbrev pub starts : List Letter → ℕ
starts [] = 0
starts (l ∷ mail) = is_start l + starts mail

abbrev pub checks : List Letter → ℕ
checks [] = 0
checks (l ∷ mail) = is_check l + checks mail

pub record Inv (ssh_actors : StringMap ℕ) (m : MasterActor) (mail : List Letter) : Type 0 where
  pub same_actors : m.ssh_actors ≡ ssh_actors
  pub numbered : Numbered 0 m.conn_state
  pub counted : length m.conn_state ≡ m.counter
  pub known : AllKnown m.counter mail
  pub timer : starts mail + checks mail ≡ 1
  pub not_begun : starts mail ≡ 1 → m.counter ≡ 0
  pub begun : checks mail ≡ 1 → m.counter ≡ length ssh_actors

-- the workers that a message makes the master start
abbrev pub started : Letter → StringMap ℕ → ℕ
started master_start ssh_actors = length ssh_actors
started _ ssh_actors = 0

-- What a receiver does to the master and what it sends.
pub record Keeps (l : Letter) (m m' : MasterActor) (sent : List Letter) : Type 0 where
  pub same_actors : m'.ssh_actors ≡ m.ssh_actors
  pub numbered : Numbered 0 m'.conn_state
  pub counted : length m'.conn_state ≡ m'.counter
  pub counter : m'.counter ≡ m.counter + started l m.ssh_actors
  pub known : AllKnown m'.counter sent
  pub no_start : starts sent ≡ 0
  pub timer : checks sent ≡ is_start l + is_check l

pub IsKnown-mono : (n k : ℕ) (l : Letter) → n ≤ k → IsKnown n l → IsKnown k l
IsKnown-mono n k master_start h a = tt
IsKnown-mono n k (master_heartbeat id cpu) h a = omega arith
IsKnown-mono n k master_check h a = tt
IsKnown-mono n k (ssh_start to ip number) h a = omega arith
IsKnown-mono n k (client_step c) h a = omega arith
IsKnown-mono n k (client_heartbeat id) h a = tt

pub AllKnown-mono : (n k : ℕ) (mail : List Letter) → n ≤ k → AllKnown n mail → AllKnown k mail
AllKnown-mono n k [] h a = tt
AllKnown-mono n k (l ∷ mail) h a = (IsKnown-mono n k l h a.0, AllKnown-mono n k mail h a.1)

pub AllKnown-append :
    (n : ℕ) (xs ys : List Letter) → AllKnown n xs → AllKnown n ys → AllKnown n (xs ++ ys)
AllKnown-append n [] ys a b = b
AllKnown-append n (l ∷ xs) ys a b = (a.0, AllKnown-append n xs ys a.1 b)

pub AllKnown-parts :
    (n : ℕ) (xs ys : List Letter) → AllKnown n (xs ++ ys) → AllKnown n xs × AllKnown n ys
AllKnown-parts n [] ys a = (tt, a)
AllKnown-parts n (l ∷ xs) ys a = let (b, c) = AllKnown-parts n xs ys a.1 in ((a.0, b), c)

pub starts-append : (xs ys : List Letter) → starts (xs ++ ys) ≡ starts xs + starts ys
starts-append [] ys = omega arith
starts-append (l ∷ xs) ys = omega (arith, starts-append xs ys)

pub checks-append : (xs ys : List Letter) → checks (xs ++ ys) ≡ checks xs + checks ys
checks-append [] ys = omega arith
checks-append (l ∷ xs) ys = omega (arith, checks-append xs ys)

started_cases :
    (l : Letter) (a : StringMap ℕ)
    → ((is_start l ≡ 1) × (started l a ≡ length a)) ⊎ ((is_start l ≡ 0) × (started l a ≡ 0))
started_cases master_start a = inl (refl, refl)
started_cases (master_heartbeat id cpu) a = inr (refl, refl)
started_cases master_check a = inr (refl, refl)
started_cases (ssh_start to ip number) a = inr (refl, refl)
started_cases (client_step c) a = inr (refl, refl)
started_cases (client_heartbeat id) a = inr (refl, refl)

-- The timers of the mail before and after `l` is taken out and its receiver has sent.
starts_deliver :
    (l : Letter) (front back sent : List Letter)
    → starts (front ++ (back ++ sent)) + is_start l ≡ starts (front ++ l ∷ back) + starts sent
starts_deliver l front back sent = omega (
  arith,
  starts-append front (l ∷ back),
  starts-append front (back ++ sent),
  starts-append back sent,
)

checks_deliver :
    (l : Letter) (front back sent : List Letter)
    → checks (front ++ (back ++ sent)) + is_check l ≡ checks (front ++ l ∷ back) + checks sent
checks_deliver l front back sent = omega (
  arith,
  checks-append front (l ∷ back),
  checks-append front (back ++ sent),
  checks-append back sent,
)

-- A step that keeps what it should leaves the invariant.
pub Inv-deliver :
    (ssh_actors : StringMap ℕ) (m m' : MasterActor) (l : Letter) (front back sent : List Letter)
    → Inv ssh_actors m (front ++ l ∷ back)
    → Keeps l m m' sent
    → Inv ssh_actors m' (front ++ (back ++ sent))
Inv-deliver ssh_actors m m' l front back sent inv k =
    let (a, b) = AllKnown-parts m.counter front (l ∷ back) inv.known in
    let p = starts_deliver l front back sent in
    let q = checks_deliver l front back sent in
    let same : length m.ssh_actors ≡ length ssh_actors = ap length inv.same_actors in
    let e = started_cases l m.ssh_actors in
    let more : m.counter ≤ m'.counter = omega (arith, k.counter) in
    record {
      same_actors = k.same_actors ∙ inv.same_actors;
      numbered = k.numbered;
      counted = k.counted;
      known =
          AllKnown-append m'.counter front (back ++ sent) (AllKnown-mono _ _ front more a)
            (AllKnown-append m'.counter back sent (AllKnown-mono _ _ back more b.1) k.known);
      timer = omega (arith, p, q, k.no_start, k.timer, inv.timer);
      not_begun = λ h. ground (arith, p, q, k.no_start, k.timer, inv.timer, k.counter);
      begun = λ h. ground (arith, p, q, k.no_start, k.timer, inv.timer, k.counter, same);
    }
