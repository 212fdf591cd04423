-- ===== src/Cluster/ConfFile.antt =====
-- `caf_main` of master.cpp on the file of hosts.
use http_decoder.Base.{
  ℕ, zero, suc, ◌+◌, ◌-◌, ◌≤◌, ◌<◌, List, [], ◌∷◌, ◌++◌, append_assoc, append-nil, none, some, ◌≡◌,
  refl, ap, sym, ◌∙◌, arith, Bytes, ok, length, length-append,
}
use http_decoder.Cluster.Cpu.{IsText, c_string_lem}
use http_decoder.Cluster.Launch.{add_host, read_hosts, master_main}
use http_decoder.Cluster.Letters.{master_start}
use http_decoder.Cluster.Master.{master_actor}
use http_decoder.Cluster.Texts.{c_string, ip_size, line_in, getline}
use http_decoder.Public.Headers.{StringMap, lookup, IsSorted}
use http_decoder.Cluster.HostMap.{first_index, added, lookup-added, added-IsSorted}

-- one host to a line
abbrev pub conf_text : List Bytes → Bytes
conf_text [] = []
conf_text (line ∷ lines) = line ++ b'\n' ∷ conf_text lines

-- lines that the array holds
abbrev pub AreLines : List Bytes → Type 0
AreLines [] = Unit {0}
AreLines (line ∷ lines) = IsText line × (length line < ip_size) × AreLines lines

line_in_line :
    (room : ℕ) (line rest : Bytes)
    → IsText line
    → length line ≤ room
    → line_in room (line ++ b'\n' ∷ rest) ≡ some (line, rest)
unfolding line_in
line_in_line zero [] rest t h = refl
line_in_line (suc room) [] rest t h = refl
line_in_line zero (c ∷ line) rest t h = absurd (omega arith)
line_in_line (suc room) (c ∷ line) rest t h =
    rw (line_in_line room line rest t.2 (omega arith)) (ground (arith, t.0))

getline_line :
    (line rest : Bytes)
    → IsText line
    → length line < ip_size
    → getline (line ++ b'\n' ∷ rest) ≡ some (line, rest)
unfolding getline
getline_line [] rest t h = line_in_line (ip_size - 1) [] rest t (omega arith)
getline_line (c ∷ line) rest t h = line_in_line (ip_size - 1) (c ∷ line) rest t (omega arith)

line_in_long :
    (room : ℕ) (line rest : Bytes)
    → IsText line
    → room < length line
    → line_in room (line ++ rest) ≡ none
unfolding line_in
line_in_long room [] rest t h = absurd (omega arith)
line_in_long zero (c ∷ line) rest t h = ground (arith, t.0)
line_in_long (suc room) (c ∷ line) rest t h =
    rw (line_in_long room line rest t.2 (omega arith)) (ground (arith, t.0))

getline_long :
    (line rest : Bytes) → IsText line → ip_size ≤ length line → getline (line ++ rest) ≡ none
unfolding getline
getline_long [] rest t h = absurd (omega arith)
getline_long (c ∷ line) rest t h = line_in_long (ip_size - 1) (c ∷ line) rest t (omega arith)

-- one round of the loop
pub read_hosts_end :
    (fuel a : ℕ) (s : Bytes) (m : StringMap ℕ)
    → getline s ≡ none
    → read_hosts (suc fuel) a s m ≡ ok m
unfolding read_hosts
read_hosts_end fuel a s m e = rw (e, read_hosts) refl

pub read_hosts_next :
    (fuel a : ℕ) (s line rest ip : Bytes) (m : StringMap ℕ)
    → getline s ≡ some (line, rest)
    → c_string (line ++ 0 ∷ []) ≡ ok ip
    → read_hosts (suc fuel) a s m ≡ read_hosts fuel (a + 1) rest (add_host ip a m)
unfolding read_hosts
read_hosts_next fuel a s line rest ip m e f = rw (e, f, read_hosts) refl

read_hosts_lines :
    (fuel a : ℕ) (lines : List Bytes) (tail : Bytes) (m : StringMap ℕ)
    → AreLines lines
    → getline tail ≡ none
    → length lines < fuel
    → read_hosts fuel a (conf_text lines ++ tail) m ≡ ok (added a lines m)
unfolding added
read_hosts_lines zero a lines tail m v e h = absurd (omega arith)
read_hosts_lines (suc fuel) a [] tail m v e h = read_hosts_end fuel a tail m e
read_hosts_lines (suc fuel) a (line ∷ lines) tail m v e h =
    let first : getline (conf_text (line ∷ lines) ++ tail) ≡ some (line, conf_text lines ++ tail) =
      ap getline (append_assoc line (b'\n' ∷ conf_text lines) tail)
      ∙ getline_line line (conf_text lines ++ tail) v.0 v.1 in
    read_hosts_next fuel a _ line _ line m first (c_string_lem line [] v.0)
    ∙ read_hosts_lines fuel (a + 1) lines tail (add_host line a m) v.2 e (omega arith)

length-conf_text :
    (lines : List Bytes) (tail : Bytes) → length lines ≤ length (conf_text lines ++ tail)
length-conf_text [] tail = omega arith
length-conf_text (line ∷ lines) tail = omega (
  arith,
  length-conf_text lines tail,
  length-append (conf_text lines) tail,
  length-append (conf_text (line ∷ lines)) tail,
  length-append line (b'\n' ∷ conf_text lines),
)

-- The master's handles are sorted by host, and each is the place of the host's first line.
abbrev pub IsPlaced : List Bytes → StringMap ℕ → Type 0
IsPlaced lines hosts = IsSorted hosts × ((k : Bytes) → lookup k hosts ≡ first_index 0 k lines)

master_main_tail :
    (lines : List Bytes) (tail : Bytes)
    → AreLines lines
    → getline tail ≡ none
    → (hosts : StringMap ℕ) × (master_main (some (conf_text lines ++ tail))
        ≡ ok (master_actor hosts, master_start ∷ []))
      × IsPlaced lines hosts
unfolding master_main lookup
master_main_tail lines tail v e = (
  added 0 lines [],
  rw
      (read_hosts_lines (length (conf_text lines ++ tail) + 1) 0 lines tail [] v e
        (omega (arith, length-conf_text lines tail)))
      refl,
  (added-IsSorted 0 lines [] tt, λ k. lookup-added 0 k lines []),
)

-- From a file of lines that have no NUL byte and fewer than 1000 bytes, `caf_main` makes a map in the
-- order of the hosts. It has a host exactly if a line names it, with the ssh worker that was spawned
-- for the first such line, and the master's start is sent.
pub master_main_lines :
    (lines : List Bytes)
    → AreLines lines
    → (hosts : StringMap ℕ) × (master_main (some (conf_text lines))
        ≡ ok (master_actor hosts, master_start ∷ []))
      × IsPlaced lines hosts
unfolding getline
master_main_lines lines v =
    let (hosts, e, p) = master_main_tail lines [] v refl in
    (hosts, ap (λ (s : Bytes). master_main (some s)) (sym (append-nil (conf_text lines))) ∙ e, p)

-- Where such lines are followed by a text of 1000 bytes or more with no line feed and no NUL byte, and
-- anything behind it, the map has the hosts in front of that text and no others.
pub master_main_long :
    (lines : List Bytes) (line rest : Bytes)
    → AreLines lines
    → IsText line
    → ip_size ≤ length line
    → (hosts : StringMap ℕ) × (master_main (some (conf_text lines ++ (line ++ rest)))
        ≡ ok (master_actor hosts, master_start ∷ []))
      × IsPlaced lines hosts
master_main_long lines line rest v t h =
    master_main_tail lines (line ++ rest) v (getline_long line rest t h)
