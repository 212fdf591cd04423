-- ===== src/AppMain/LastFrame.antt =====
-- The loop of AppMain.cpp where the last frame ended with the file.
use http_decoder.AppMain.Reading.{Stream, fread}
use http_decoder.AppMain.{Main, Outside, payload_size, hand_over, read_ip, round}
use http_decoder.Base.{
  ℕ, ◌+◌, ◌≤◌, ◌≡◌, refl, arith, Bool, true, false, ◌||◌, [], ltb, leb, le→leb, if◌then◌else◌, ok,
  Bytes, length, take-append-drop, memcpy, load16, ntohs,
}
use http_decoder.HttpParse.{LexicalCast}

abbrev ended : Bytes → Bool → Stream
ended head eof = record { tmp1 = head; rest = []; eof = eof }

no_bytes : (n : ℕ) → (if leb n 0 then n else 0) ≡ 0
no_bytes n = ground arith

-- With nothing left, a read leaves the buffer as it is.
fread-ended :
    (off n : ℕ) (head : Bytes) (eof : Bool)
    → off ≤ length head
    → fread off n (ended head eof) ≡ ok (ended head (eof || ltb 0 n))
unfolding fread memcpy
fread-ended off n head eof h =
    let fits : leb (off + 0) (length head) ≡ true = le→leb (off + 0) (length head) (omega arith) in
    let here : off + 0 ≡ off = omega arith in
    rw (no_bytes n, fits, here) (rw (take-append-drop off head) refl)

module _ (boost : LexicalCast) (outside : Outside) where
  -- The end of the file is only seen by a read that finds too little. Where the last frame, over IPv4,
  -- ended with the file and the mark is not set, one more round is made, which reads nothing and hands
  -- the same frame over again.
  pub round_again :
      (i : ℕ) (m : Main) (head : Bytes) (total : ℕ)
      → m.stream ≡ record { tmp1 = head; rest = []; eof = false }
      → 34 ≤ length head
      → load16 head 12 ≡ ok 8
      → load16 head 16 ≡ ok total
      → round boost outside i m
        ≡ hand_over boost outside i
            (record m { stream = record { tmp1 = head; rest = []; eof = true }; len = ntohs total })
  unfolding round read_ip
  round_again i m head total at room kind size =
      let first = fread-ended 0 14 head false (omega arith) in
      let second = fread-ended 14 20 head true (omega arith) in
      let third = fread-ended 34 (payload_size (ntohs total)) head true (omega arith) in
      rw (at, first, kind) (rw (second, size) (rw third))
