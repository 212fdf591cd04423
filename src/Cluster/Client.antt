-- ===== src/Cluster/Client.antt =====
-- client.cpp: a worker that sends its share of the processor with every heartbeat.
use http_decoder.Base.{
  ℕ, zero, suc, ◌+◌, ◌-◌, ◌%◌, ◌^◌, Bool, false, ◌&&◌, ◌||◌, List, [], ◌∷◌, ◌++◌, Option, none,
  some, ltb, leb, ◌==◌, if◌then◌else◌, Outcome, ok, fault, null_pointer, out_of_bounds, ◌>>=◌,
  Bytes, codes, decimal, length, drop, set,
}
use http_decoder.Cluster.Texts.{is_empty, c_string}
use http_decoder.Cluster.Letters.{Letter, ClientActor, client_step, master_heartbeat}

-- `isspace` in the C locale; for a byte from 128 on, a negative char, where the C standard leaves it
-- undefined, it is false, as in glibc
abbrev pub is_space : ℕ → Bool
is_space c = c == b' ' || leb 9 c && leb c 13

-- `s.erase(s.begin(), find_if(s.begin(), s.end(), not_space))`
unfoldable pub trim_left : Bytes → Bytes
trim_left [] = []
trim_left (c ∷ s) = let rest = trim_left s in if is_space c then rest else c ∷ s

-- `s.erase(find_if(s.rbegin(), s.rend(), not_space).base(), s.end())`
unfoldable pub trim_right : Bytes → Bytes
trim_right [] = []
trim_right (c ∷ s) = let rest = trim_right s in if is_space c && is_empty rest then [] else c ∷ rest

unfoldable pub trim : Bytes → Bytes
trim s = trim_right (trim_left s)

abbrev pub tmp_size : ℕ
tmp_size = 1024

-- what `fgets` takes of a stream: a line with its line feed, of n bytes at most
unfoldable pub line_of : ℕ → Bytes → Bytes
line_of zero s = []
line_of (suc n) [] = []
line_of (suc n) (c ∷ s) = let rest = line_of n s in if c == b'\n' then c ∷ [] else c ∷ rest

-- `fgets(tmp, sizeof(tmp), pp)`: nothing is stored where the stream has nothing.
unfoldable pub fgets : Bytes → Option Bytes → Outcome Bytes
fgets tmp none = fault null_pointer
fgets tmp (some s) =
    let text = line_of (tmp_size - 1) s in
    if is_empty text then ok tmp else ok (text ++ (0 ∷ drop (length text + 1) tmp))

-- `tmp[i] == c`
unfoldable pub is_at : Bytes → ℕ → ℕ → Bool
is_at [] i c = false
is_at (x ∷ s) zero c = x == c
is_at (x ∷ s) (suc i) c = is_at s i c

-- the test and the store at the last byte of the text that the array holds
unfoldable pub cut_after : Bytes → Bytes → Outcome Bytes
cut_after tmp [] = fault out_of_bounds
cut_after tmp (c ∷ s) = if is_at tmp (length s) b'\n' then ok (set tmp (length s) 0) else ok tmp

-- `if (tmp[strlen(tmp) - 1] == '\n') tmp[strlen(tmp) - 1] = '\0';`
unfoldable pub cut_line_feed : Bytes → Outcome Bytes
cut_line_feed tmp = do text ← c_string tmp; cut_after tmp text

-- `getcpu`, with what the block of `tmp` holds and what `popen` gives for a command
unfoldable pub getcpu : Bytes → (Bytes → Option Bytes) → ℕ → Outcome Bytes
getcpu tmp popen pid = do
  line ← fgets tmp (popen (codes "ps -p " ++ (decimal pid ++ codes " -o %cpu --no-headers")))
  cut ← cut_line_feed line
  mem ← c_string cut
  ok (trim mem)

-- `int64_t id(id)` of a `const int&` that was an int64_t
abbrev pub through_int : ℕ → ℕ
through_int x = let low = x % 2 ^ 32 in if ltb low (2 ^ 31) then low else 2 ^ 64 - 2 ^ 32 + low

-- `system.spawn<client_actor>(cfg.id,1,"localhost",8888,master_actor)`
abbrev pub client_actor : ℕ → ClientActor
client_actor id = record {
  id = through_int id;
  conn_state = 1;
  host = codes "localhost";
  port = 8888;
}

-- `[=](step_atom)`: the next step later, and a heartbeat now
unfoldable pub on_step : Bytes → (Bytes → Option Bytes) → ℕ → ClientActor → Outcome (List Letter)
on_step tmp popen pid c = do
  cpu ← getcpu tmp popen pid
  ok (client_step c ∷ master_heartbeat c.id cpu ∷ [])

-- `[=](heartbeat_atom)`
abbrev pub on_answer : ClientActor → List Letter
on_answer c = []
