-- ===== src/Cluster/Starting.antt =====
-- The master's `start_atom`: every host gets the next number.
use http_decoder.Base.{
  ℕ, suc, ◌+◌, ◌^◌, ◌<◌, List, [], ◌∷◌, ◌++◌, ◌≡◌, refl, subst, inl, inr, arith, ltb, Bool-cases,
  lt→ltb, ok, ◌>>=◌, >>=-eq-ok, Bytes, length, length-append,
}
use http_decoder.Cluster.Invariant.{
  AllKnown, AllKnown-append, starts, starts-append, checks, checks-append, Keeps,
}
use http_decoder.Cluster.Letters.{Letter, master_start, master_check, ssh_start}
use http_decoder.Cluster.Master.{
  MasterActor, incremented, start_instances, start_all, on_start, worker_instances,
}
use http_decoder.Cluster.Numbered.{Numbered, insert_state_next, Numbered-append}
use http_decoder.Public.Headers.{StringMap}

-- A master whose numbers are used up to `counter`.
pub record IsCounted (m : MasterActor) : Type 0 where
  pub numbered : Numbered 0 m.conn_state
  pub counted : length m.conn_state ≡ m.counter

-- one worker more
abbrev with_worker : MasterActor → MasterActor
with_worker m = record m {
  counter = m.counter + 1;
  conn_state = m.conn_state ++ (m.counter + 1, 1) ∷ [];
}

with_worker-IsCounted : (m : MasterActor) → IsCounted m → IsCounted (with_worker m)
with_worker-IsCounted m v = record {
  numbered =
      Numbered-append 0 (m.counter + 1) 1 m.conn_state v.numbered (omega (arith, v.counted))
        (omega arith);
  counted = omega (arith, length-append m.conn_state ((m.counter + 1, 1) ∷ []), v.counted);
}

start_one :
    (ip : Bytes) (a : ℕ) (m : MasterActor)
    → IsCounted m
    → start_instances worker_instances ip a m ≡ (do
      counter ← incremented m.counter
      ok (with_worker m, ssh_start a ip (m.counter + 1) ∷ []))
unfolding start_instances
start_one ip a m v = elim (Bool-cases (ltb (m.counter + 1) (2 ^ 63))) [
  | inl fits ↦
      rw
        (
          fits,
          insert_state_next 0 (m.counter + 1) 1 m.conn_state v.numbered (omega (arith, v.counted)),
        )
        refl
  | inr full ↦ rw full
]

-- What the loop over the hosts does to the master, and what it sends.
pub record Grows (n : ℕ) (m m' : MasterActor) (sent : List Letter) : Type 0 where
  pub same_actors : m'.ssh_actors ≡ m.ssh_actors
  pub valid : IsCounted m'
  pub counter : m'.counter ≡ m.counter + n
  pub known : AllKnown m'.counter sent
  pub no_start : starts sent ≡ 0
  pub no_check : checks sent ≡ 0

Grows-one :
    (n a : ℕ) (ip : Bytes) (m m' : MasterActor) (sent : List Letter)
    → Grows n (with_worker m) m' sent
    → Grows (suc n) m m' (ssh_start a ip (m.counter + 1) ∷ sent)
Grows-one n a ip m m' sent g = record {
  same_actors = g.same_actors;
  valid = g.valid;
  counter = omega (arith, g.counter);
  known = ((omega arith, omega (arith, g.counter)), g.known);
  no_start = omega (arith, g.no_start);
  no_check = omega (arith, g.no_check);
}

start_all-Grows_result :
    (rest : StringMap ℕ) (m : MasterActor) (r : MasterActor × List Letter)
    → IsCounted m
    → start_all rest m ≡ ok r
    → Grows (length rest) m r.0 r.1
unfolding start_all
start_all-Grows_result [] m r v h =
    let e : (m, []) ≡ r = cc in
    subst (λ (q : MasterActor × List Letter). Grows 0 m q.0 q.1) e
      (record {
        same_actors = refl;
        valid = v;
        counter = omega arith;
        known = tt;
        no_start = refl;
        no_check = refl;
      })
start_all-Grows_result ((ip, a) ∷ rest) m r v h = elim (Bool-cases (ltb (m.counter + 1) (2 ^ 63))) [
  | inr full ↦ let f = rw (start_one ip a m v, full) at h in cc
  | inl fits ↦
      let f = rw (start_one ip a m v, fits) at h in
      let (q, e, last) = >>=-eq-ok (start_all rest (with_worker m)) _ f in
      let ih = start_all-Grows_result rest (with_worker m) q (with_worker-IsCounted m v) e in
      let g : (q.0, ssh_start a ip (m.counter + 1) ∷ q.1) ≡ r = cc in
      subst (λ (t : MasterActor × List Letter). Grows (suc (length rest)) m t.0 t.1) g
        (Grows-one (length rest) a ip m q.0 q.1 ih)
]

pub start_all_total :
    (rest : StringMap ℕ) (m : MasterActor)
    → IsCounted m
    → m.counter + length rest < 2 ^ 63
    → (m' : MasterActor) × (sent : List Letter) × (start_all rest m ≡ ok (m', sent))
unfolding start_all
start_all_total [] m v h = (m, [], refl)
start_all_total ((ip, a) ∷ rest) m v h =
    let (m', sent, e) =
      start_all_total rest (with_worker m) (with_worker-IsCounted m v) (omega arith) in
    (
      m',
      ssh_start a ip (m.counter + 1) ∷ sent,
      rw (start_one ip a m v, lt→ltb (m.counter + 1) (2 ^ 63) (omega arith), e) refl,
    )

-- The master's `start_atom` keeps what it should.
pub on_start-Keeps :
    (m : MasterActor) (r : MasterActor × List Letter)
    → IsCounted m
    → on_start m ≡ ok r
    → Keeps master_start m r.0 r.1
unfolding on_start
on_start-Keeps m r v h =
    let (q, e, last) = >>=-eq-ok (start_all m.ssh_actors m) _ h in
    let g = start_all-Grows_result m.ssh_actors m q v e in
    let f : (q.0, q.1 ++ master_check ∷ []) ≡ r = cc in
    subst (λ (t : MasterActor × List Letter). Keeps master_start m t.0 t.1) f
      (record {
        same_actors = g.same_actors;
        numbered = g.valid.numbered;
        counted = g.valid.counted;
        counter = g.counter;
        known = AllKnown-append _ q.1 (master_check ∷ []) g.known (tt, tt);
        no_start = omega (arith, starts-append q.1 (master_check ∷ []), g.no_start);
        timer = omega (arith, checks-append q.1 (master_check ∷ []), g.no_check);
      })
