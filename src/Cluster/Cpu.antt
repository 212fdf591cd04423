-- ===== src/Cluster/Cpu.antt =====
-- `getcpu` of client.cpp on what `ps` prints.
use http_decoder.Base.{
  ℕ, zero, suc, ◌+◌, ◌-◌, ◌≤◌, ◌<◌, true, false, [], ◌∷◌, ◌++◌, append_assoc, Option, some, ◌≡◌,
  ◌≢◌, refl, ap, ◌∙◌, arith, Bytes, ok, length, length-append, drop, set, codes, decimal,
}
use http_decoder.Cluster.Client.{
  trim, tmp_size, line_of, fgets, is_at, cut_after, cut_line_feed, getcpu,
}
use http_decoder.Cluster.Texts.{is_empty, c_string}

-- no line feed and no NUL
abbrev pub IsText : Bytes → Type 0
IsText [] = Unit {0}
IsText (c ∷ s) = (c ≢ b'\n') × (c ≢ 0) × IsText s

-- the command that `getcpu` gives to `popen`
abbrev pub ps : ℕ → Bytes
ps pid = codes "ps -p " ++ (decimal pid ++ codes " -o %cpu --no-headers")

line_of_line :
    (n : ℕ) (line rest : Bytes)
    → IsText line
    → length line < n
    → line_of n (line ++ b'\n' ∷ rest) ≡ line ++ b'\n' ∷ []
unfolding line_of
line_of_line zero line rest t h = absurd (omega arith)
line_of_line (suc n) [] rest t h = refl
line_of_line (suc n) (c ∷ line) rest t h = ground (arith, t.0, line_of_line n line rest t.2)

pub c_string_lem : (line rest : Bytes) → IsText line → c_string (line ++ 0 ∷ rest) ≡ ok line
unfolding c_string
c_string_lem [] rest t = refl
c_string_lem (c ∷ line) rest t = rw (c_string_lem line rest t.2) (ground (arith, t.1))

c_string_line :
    (line rest : Bytes)
    → IsText line
    → c_string (line ++ b'\n' ∷ 0 ∷ rest) ≡ ok (line ++ b'\n' ∷ [])
unfolding c_string
c_string_line [] rest t = refl
c_string_line (c ∷ line) rest t = rw (c_string_line line rest t.2) (ground (arith, t.1))

is_at-length : (line rest : Bytes) (c : ℕ) → is_at (line ++ c ∷ rest) (length line) c ≡ true
unfolding is_at
is_at-length [] rest c = ground arith
is_at-length (d ∷ line) rest c = is_at-length line rest c

set-length :
    (line rest : Bytes) (c d : ℕ) → set (line ++ c ∷ rest) (length line) d ≡ line ++ d ∷ rest
set-length [] rest c d = refl
set-length (e ∷ line) rest c d = ap (◌∷◌ e) (set-length line rest c d)

cut_after_lem :
    (n : ℕ) (tmp text : Bytes)
    → length text ≡ suc n
    → is_at tmp n b'\n' ≡ true
    → cut_after tmp text ≡ ok (set tmp n 0)
unfolding cut_after
cut_after_lem n tmp [] e h = absurd (omega arith)
cut_after_lem n tmp (c ∷ s) e h = let same : length s ≡ n = omega arith in rw (same, h) refl

cut_line_feed_lem :
    (line rest : Bytes)
    → IsText line
    → cut_line_feed (line ++ b'\n' ∷ 0 ∷ rest) ≡ ok (line ++ 0 ∷ 0 ∷ rest)
unfolding cut_line_feed
cut_line_feed_lem line rest t = rw (c_string_line line rest t) (
    cut_after_lem (length line) _ _ (omega (arith, length-append line (b'\n' ∷ [])))
      (is_at-length line (0 ∷ rest) b'\n')
    ∙ ap ok (set-length line (0 ∷ rest) b'\n' 0))

line_ne_empty : (line : Bytes) → is_empty (line ++ b'\n' ∷ []) ≡ false
line_ne_empty [] = refl
line_ne_empty (c ∷ line) = refl

fgets_line :
    (tmp line rest : Bytes)
    → IsText line
    → length line ≤ 1022
    → fgets tmp (some (line ++ b'\n' ∷ rest)) ≡ ok (line ++ b'\n' ∷ 0 ∷ drop (length line + 2) tmp)
unfolding fgets
fgets_line tmp line rest t h =
    let cut : length (line ++ b'\n' ∷ []) + 1 ≡ length line + 2 =
      omega (arith, length-append line (b'\n' ∷ [])) in
    rw (line_of_line (tmp_size - 1) line rest t (omega arith), line_ne_empty line, cut)
      (ap ok (append_assoc line (b'\n' ∷ []) (0 ∷ drop (length line + 2) tmp)))

-- Where `ps` prints a line of at most 1022 bytes with no NUL byte, and whatever behind it, `getcpu`
-- returns the line without the white space at its ends.
pub getcpu_line :
    (tmp line rest : Bytes) (popen : Bytes → Option Bytes) (pid : ℕ)
    → popen (ps pid) ≡ some (line ++ b'\n' ∷ rest)
    → IsText line
    → length line ≤ 1022
    → getcpu tmp popen pid ≡ ok (trim line)
unfolding getcpu
getcpu_line tmp line rest popen pid e t h =
    rw
      (
        e,
        fgets_line tmp line rest t h,
        cut_line_feed_lem line (drop (length line + 2) tmp) t,
        c_string_lem line (0 ∷ drop (length line + 2) tmp) t,
      )
      refl
