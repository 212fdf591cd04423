-- ===== src/AppMain/Reading.antt =====
-- The `fread` calls of AppMain.cpp into `char tmp1[2000]`, and the end-of-file mark of the stream.
use http_decoder.Base.{
  ℕ, Bool, ◌||◌, ltb, leb, if◌then◌else◌, Outcome, ok, ◌>>=◌, Bytes, length, drop, memcpy, some,
}

abbrev pub capacity : ℕ
capacity = 2000

-- the buffer, the bytes of the file that are left, and whether a read met the end
pub record Stream : Type 0 where
  pub tmp1 : Bytes
  pub rest : Bytes
  pub eof : Bool

-- `fread(tmp1 + off, 1, n, f)`: what there is of the n bytes is stored; a short read marks the end.
unfoldable pub fread : ℕ → ℕ → Stream → Outcome Stream
fread off n s =
    let count = if leb n (length s.rest) then n else length s.rest in
    do
      head ← memcpy (some s.tmp1) off s.rest count
      ok (record { tmp1 = head; rest = drop count s.rest; eof = s.eof || ltb (length s.rest) n })
