-- ===== src/Cluster/ConfEnd.antt =====
-- The loop of `caf_main` of master.cpp over the file of hosts ends.
use http_decoder.Base.{
  ℕ, zero, suc, ◌+◌, ◌-◌, ◌≤◌, ◌<◌, [], ◌∷◌, ◌++◌, Option, none, some, ◌≡◌, refl, ◌∙◌, ◌⊎◌, inl,
  inr, arith, ◌==◌, Bool-cases, Bytes, ok, bytes_of, length,
}
use http_decoder.Cluster.Launch.{add_host, read_hosts, master_main}
use http_decoder.Cluster.Letters.{master_start}
use http_decoder.Cluster.Master.{master_actor}
use http_decoder.Cluster.Texts.{c_string, ip_size, line_in, getline}
use http_decoder.Public.Headers.{StringMap}
use http_decoder.Cluster.ConfFile.{read_hosts_end, read_hosts_next}

-- What a call leaves in the stream is shorter than the stream was.
abbrev Shrinks : ℕ → Option (Bytes × Bytes) → Type 0
Shrinks n none = Unit {0}
Shrinks n (some (text, rest)) = length rest ≤ n - 1

Shrinks-cons :
    (n c : ℕ) (o : Option (Bytes × Bytes))
    → Shrinks n o
    → Shrinks (suc n) (elim o [ none ↦ none | some (text, rest) ↦ some (c ∷ text, rest) ])
Shrinks-cons n c none h = tt
Shrinks-cons n c (some (text, rest)) h = omega arith

line_in-Shrinks : (room : ℕ) (s : Bytes) → Shrinks (length s) (line_in room s)
unfolding line_in
line_in-Shrinks zero [] = omega arith
line_in-Shrinks (suc room) [] = omega arith
line_in-Shrinks zero (c ∷ s) = elim (Bool-cases (c == b'\n')) [
  | inl end ↦ rw end (omega arith)
  | inr more ↦ rw more tt
]
line_in-Shrinks (suc room) (c ∷ s) = elim (Bool-cases (c == b'\n')) [
  | inl end ↦ rw end (omega arith)
  | inr more ↦ rw more (Shrinks-cons (length s) c (line_in room s) (line_in-Shrinks room s))
]

c_string_total : (s : Bytes) → (t : Bytes) × (c_string (s ++ 0 ∷ []) ≡ ok t)
unfolding c_string
c_string_total [] = ([], refl)
c_string_total (c ∷ s) =
    let (t, e) = c_string_total s in
    elim (Bool-cases (c == 0)) [
      | inl end ↦ ([], rw end refl)
      | inr more ↦ (c ∷ t, rw (more, e) refl)
    ]

-- A round that reads a line leaves less in the stream.
getline_cases :
    (s : Bytes)
    → (getline s ≡ none)
      ⊎ ((line : Bytes) × (rest : Bytes) × (getline s ≡ some (line, rest))
          × (length rest < length s))
unfolding getline
getline_cases [] = inl refl
getline_cases (c ∷ s) =
    by_result (line_in (ip_size - 1) (c ∷ s)) refl (line_in-Shrinks (ip_size - 1) (c ∷ s))
  where
    by_result :
        (o : Option (Bytes × Bytes))
        → line_in (ip_size - 1) (c ∷ s) ≡ o
        → Shrinks (length (c ∷ s)) o
        → (getline (c ∷ s) ≡ none)
          ⊎ ((line : Bytes) × (rest : Bytes) × (getline (c ∷ s) ≡ some (line, rest))
              × (length rest < length (c ∷ s)))
    by_result none e h = inl e
    by_result (some (line, rest)) e h = inr (line, rest, e, omega arith)

read_hosts_total :
    (fuel a : ℕ) (s : Bytes) (m : StringMap ℕ)
    → length s < fuel
    → (hosts : StringMap ℕ) × (read_hosts fuel a s m ≡ ok hosts)
read_hosts_total zero a s m h = absurd (omega arith)
read_hosts_total (suc fuel) a s m h = elim (getline_cases s) [
  | inl end ↦ (m, read_hosts_end fuel a s m end)
  | inr (line, rest, e, less) ↦
      let (ip, f) = c_string_total line in
      let (hosts, g) = read_hosts_total fuel (a + 1) rest (add_host ip a m) (omega arith) in
      (hosts, read_hosts_next fuel a s line rest ip m e f ∙ g)
]

-- Whatever the file holds, and where it cannot be opened, the loop of `caf_main` ends, and the master
-- is spawned and started.
pub master_main_total :
    (conf : Option Bytes)
    → (hosts : StringMap ℕ) × (master_main conf ≡ ok (master_actor hosts, master_start ∷ []))
unfolding master_main
master_main_total conf =
    let (hosts, e) =
      read_hosts_total (length (bytes_of conf) + 1) 0 (bytes_of conf) [] (omega arith) in
    (hosts, rw e refl)
