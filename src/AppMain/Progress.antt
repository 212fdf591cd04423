-- ===== src/AppMain/Progress.antt =====
-- What a round of the loop in AppMain.cpp does to the stream.
use http_decoder.AppMain.Reading.{Stream, fread}
use http_decoder.AppMain.{
  Main, Outside, ethertype_ip, ethertype_ipv6, payload_size, hand_over, read_ip, read_ipv6, round,
  frames,
}
use http_decoder.Base.{
  ℕ, suc, false, ◌>>=◌, ◌+◌, ◌≤◌, ◌≡◌, ◌⊎◌, inl, inr, ap, subst, arith, true, Bool-cases, ◌||◌,
  some, ◌==◌, ltb, leb, if◌then◌else◌, ok, >>=-eq-ok, length, drop, length-drop, memcpy, ntohs,
  load16,
}
use http_decoder.HttpParse.{LexicalCast}
use http_decoder.Receiver.{work}

-- What reading does to the stream: the rest only gets shorter, and the mark stays.
pub record Reads (s t : Stream) : Type 0 where
  pub shorter : length t.rest ≤ length s.rest
  pub marked : s.eof ≡ true → t.eof ≡ true

Reads-refl : (s : Stream) → Reads s s
Reads-refl s = record { shorter = omega arith; marked = λ h. h }

Reads-trans : {s t u : Stream} → Reads s t → Reads t u → Reads s u
Reads-trans a b = record {
  shorter = omega (arith, a.shorter, b.shorter);
  marked = λ h. b.marked (a.marked h);
}

-- A read that is short of bytes marks the end; any other takes its bytes.
record Read (n : ℕ) (s t : Stream) : Type 0 where
  reads : Reads s t
  progress : (t.eof ≡ true) ⊎ (length t.rest + n ≡ length s.rest)

fread-Read : (off n : ℕ) (s t : Stream) → fread off n s ≡ ok t → Read n s t
unfolding fread
fread-Read off n s t e =
    let count = if leb n (length s.rest) then n else length s.rest in
    let (head, _, last) = >>=-eq-ok (memcpy (some s.tmp1) off s.rest count) _ e in
    let made : record {
      tmp1 = head;
      rest = drop count s.rest;
      eof = s.eof || ltb (length s.rest) n;
    }
        ≡ t =
      cc last in
    let left = length-drop count s.rest in
    subst (Read n s) made (elim (Bool-cases (leb n (length s.rest))) [
      | inl enough ↦ record {
        reads = record { shorter = omega (arith, left); marked = λ h. rw h };
        progress = inr (ground (arith, left));
      }
      | inr short ↦ record {
        reads = record { shorter = omega (arith, left); marked = λ h. rw h };
        progress = inl (ground arith);
      }
    ])

module _ (boost : LexicalCast) (outside : Outside) where
  hand_over-Reads :
      (i : ℕ) (m n : Main) → hand_over boost outside i m ≡ ok n → Reads m.stream n.stream
  unfolding hand_over
  hand_over-Reads i m n e =
      let ((rcv, out, fs), _, last) =
        >>=-eq-ok (work boost (outside.env i) (outside.clock i) (some m.stream.tmp1) m.rcv m.fs) _
          e in
      let same : m.stream ≡ n.stream = ap (λ x. x.stream) (same_main last) in
      subst (Reads m.stream) same (Reads-refl m.stream)
    where
      same_main : {x y : Main} → ok x ≡ ok y → x ≡ y
      same_main h = cc

  read_ip-Reads : (i : ℕ) (m n : Main) → read_ip boost outside i m ≡ ok n → Reads m.stream n.stream
  unfolding read_ip
  read_ip-Reads i m n e =
      let (s, first, more) = >>=-eq-ok (fread 14 20 m.stream) _ e in
      let (total, _, more') = >>=-eq-ok (load16 s.tmp1 16) _ more in
      let (s', second, last) = >>=-eq-ok (fread 34 (payload_size (ntohs total)) s) _ more' in
      Reads-trans (fread-Read 14 20 m.stream s first).reads (
        Reads-trans (fread-Read 34 (payload_size (ntohs total)) s s' second).reads
          (hand_over-Reads i (record m { stream = s'; len = ntohs total }) n last))

  read_ipv6-Reads :
      (i : ℕ) (m n : Main) → read_ipv6 boost outside i m ≡ ok n → Reads m.stream n.stream
  unfolding read_ipv6
  read_ipv6-Reads i m n e =
      let (s, first, more) = >>=-eq-ok (fread 14 40 m.stream) _ e in
      let (total, _, more') = >>=-eq-ok (load16 s.tmp1 18) _ more in
      let (s', second, last) = >>=-eq-ok (fread 54 (ntohs total) s) _ more' in
      Reads-trans (fread-Read 14 40 m.stream s first).reads (
        Reads-trans (fread-Read 54 (ntohs total) s s' second).reads
          (hand_over-Reads i (record m { stream = s'; len = ntohs total }) n last))

  pub round-Reads :
      (i : ℕ) (m n : Main)
      → round boost outside i m ≡ ok n
      → (n.stream.eof ≡ true) ⊎ (length n.stream.rest + 14 ≤ length m.stream.rest)
  unfolding round
  round-Reads i m n e =
      let (s, first, more) = >>=-eq-ok (fread 0 14 m.stream) _ e in
      let (t, _, last) = >>=-eq-ok (load16 s.tmp1 12) _ more in
      let a = fread-Read 0 14 m.stream s first in further a.progress (behind s t last)
    where
      behind :
          (s : Stream) (t : ℕ)
          → (if ntohs t == ethertype_ip
              then read_ip boost outside i (record m { stream = s })
              else if t == ethertype_ipv6
              then read_ipv6 boost outside i (record m { stream = s })
              else ok (record m { stream = s }))
            ≡ ok n
          → Reads s n.stream
      behind s t last = elim (Bool-cases (ntohs t == ethertype_ip)) [
        | inl v4 ↦ read_ip-Reads i (record m { stream = s }) n (rw v4 at last)
        | inr other ↦ elim (Bool-cases (t == ethertype_ipv6)) [
          | inl v6 ↦ read_ipv6-Reads i (record m { stream = s }) n (rw (other, v6) at last)
          | inr neither ↦
              let same : record m { stream = s } ≡ n = cc (rw (other, neither) at last) in
              subst (λ (x : Main). Reads s x.stream) same (Reads-refl s)
        ]
      ]

      further :
          {s : Stream}
          → (s.eof ≡ true) ⊎ (length s.rest + 14 ≡ length m.stream.rest)
          → Reads s n.stream
          → (n.stream.eof ≡ true) ⊎ (length n.stream.rest + 14 ≤ length m.stream.rest)
      further (inl mark) r = inl (r.marked mark)
      further (inr less) r = inr (omega (arith, r.shorter))

  -- `frames` where the mark of the end is set
  pub frames_marked :
      (fuel i : ℕ) (m : Main) → m.stream.eof ≡ true → frames boost outside (suc fuel) i m ≡ ok m
  unfolding frames
  frames_marked fuel i m mark =
      ap
        (λ b. elim b [
          | true ↦ ok m
          | false ↦ round boost outside i m >>= λ n. frames boost outside fuel (suc i) n
        ])
        mark

  -- `frames` where it is not
  pub frames-round :
      (fuel i : ℕ) (m : Main)
      → m.stream.eof ≡ false
      → frames boost outside (suc fuel) i m
        ≡ (round boost outside i m >>= λ n. frames boost outside fuel (suc i) n)
  unfolding frames
  frames-round fuel i m more =
      ap
        (λ b. elim b [
          | true ↦ ok m
          | false ↦ round boost outside i m >>= λ n. frames boost outside fuel (suc i) n
        ])
        more
