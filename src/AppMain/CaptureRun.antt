-- ===== src/AppMain/CaptureRun.antt =====
-- The whole loop of AppMain.cpp on a capture file of frames that stand one behind another.
use http_decoder.AppMain.Capture.{
  Frame, frame_bytes, file_of, IsFrame, AllFrames, overlay, round_frame, load16-append,
  load16-behind,
}
use http_decoder.AppMain.LastFrame.{round_again}
use http_decoder.AppMain.Progress.{frames_marked, frames-round}
use http_decoder.AppMain.Reading.{Stream}
use http_decoder.AppMain.{Main, Outside, hand_over, round, frames}
use http_decoder.Base.{
  ℕ, zero, suc, ◌+◌, ◌≤◌, ◌≡◌, refl, sym, subst, ap, ◌∙◌, arith, true, false, [], ◌∷◌, ◌++◌,
  append_assoc, append-nil, List, Option, some, ok, fault, Outcome, ◌>>=◌, Bytes, length,
  length-append, length-drop, load16, drop,
}
use http_decoder.HttpParse.Send.{Output}
use http_decoder.HttpParse.{LexicalCast}
use http_decoder.Receiver.Runs.{Arrival, work_all}
use http_decoder.Receiver.{Receiver, work}

abbrev pub Handled : Type 0
Handled = Receiver × List Output × Option ℕ

-- `main` behind the loop
abbrev pub main_after : List Output → Bytes → ℕ → Handled → Main
main_after out head len n = record {
  stream = record { tmp1 = head; rest = []; eof = true };
  len = len;
  rcv = n.0;
  fs = n.2;
  out = out ++ n.1;
}

abbrev pub arrival : Outside → ℕ → Bytes → Arrival
arrival outside i head = record { env = outside.env i; now = outside.clock i; msg = head }

-- What is handed over: the buffer with each frame over those before it, and with the last one again.
abbrev pub handed : Outside → ℕ → Bytes → Frame → List Frame → List Arrival
handed outside i head f [] =
    arrival outside i (overlay head f) ∷ arrival outside (suc i) (overlay head f) ∷ []
handed outside i head f (g ∷ fs) =
    arrival outside i (overlay head f) ∷ handed outside (suc i) (overlay head f) g fs

abbrev pub last_head : Bytes → Frame → List Frame → Bytes
last_head head f [] = overlay head f
last_head head f (g ∷ fs) = last_head (overlay head f) g fs

-- the total length in the last frame
abbrev pub last_len : Frame → List Frame → ℕ
last_len f [] = 20 + length f.payload
last_len f (g ∷ fs) = last_len g fs

length-overlay :
    (head : Bytes) (f : Frame) → IsFrame (length head) f → length (overlay head f) ≡ length head
length-overlay head f w =
    let whole = length-append (f.link ++ f.ip) f.payload in
    omega (
      arith,
      whole,
      length-append f.link f.ip,
      w.link_length,
      w.ip_length,
      w.fits,
      length-append (frame_bytes f) (drop (length (frame_bytes f)) head),
      length-drop (length (frame_bytes f)) head,
    )

module _ (boost : LexicalCast) (outside : Outside) where
  -- A round that hands over, and the rounds behind it.
  frames_step :
      (fuel i : ℕ) (m : Main) (s : Stream) (len : ℕ) (rest : List Arrival) (head : Bytes) (l : ℕ)
      → m.stream.eof ≡ false
      → round boost outside i m ≡ hand_over boost outside i (record m { stream = s; len = len })
      → ((n : Handled)
          → frames boost outside fuel
              (suc i)
              (record m { stream = s; len = len; rcv = n.0; fs = n.2; out = m.out ++ n.1 })
            ≡ (work_all boost rest n.0 n.2 >>= λ q. ok (main_after (m.out ++ n.1) head l q)))
      → frames boost outside (suc fuel) i m ≡ (
          work_all boost (arrival outside i s.tmp1 ∷ rest) m.rcv m.fs >>= λ q.
          ok (main_after m.out head l q))
  unfolding hand_over work_all
  frames_step fuel i m s len rest head l more handing next =
      frames-round boost outside fuel i m more
      ∙ rw handing (go (work boost (outside.env i) (outside.clock i) (some s.tmp1) m.rcv m.fs) refl)
    where
      go :
          (x : Outcome Handled)
          → work boost (outside.env i) (outside.clock i) (some s.tmp1) m.rcv m.fs ≡ x
          → (hand_over boost outside i (record m { stream = s; len = len }) >>= λ n.
              frames boost outside fuel (suc i) n)
            ≡ (work_all boost (arrival outside i s.tmp1 ∷ rest) m.rcv m.fs >>= λ q.
                ok (main_after m.out head l q))
      go (fault c) e = rw (hand_over, work_all, e) refl
      go (ok n) e = rw (hand_over, work_all, e) (next n ∙ again (work_all boost rest n.0 n.2))
        where
          again :
              (y : Outcome Handled)
              → (y >>= λ q. ok (main_after (m.out ++ n.1) head l q))
                ≡ ((y >>= λ q. ok (q.0, n.1 ++ q.1, q.2)) >>= λ q. ok (main_after m.out head l q))
          again (fault c) = refl
          again (ok q) = rw (append_assoc m.out n.1 q.1) refl

  overlay-fields :
      (head : Bytes) (f : Frame) (w : IsFrame (length head) f)
      → (load16 (overlay head f) 12 ≡ ok 8) × (load16 (overlay head f) 16 ≡ ok w.total)
  overlay-fields head f w =
      let tail = drop (length (frame_bytes f)) head in
      let total =
        load16-behind f.link f.ip 2 16 w.total (omega (arith, w.link_length)) w.total_at in
      (
        load16-append (frame_bytes f) tail 12 8
            (load16-append (f.link ++ f.ip) f.payload 12 8 (load16-append f.link f.ip 12 8 w.kind)),
        load16-append (frame_bytes f) tail 16 w.total
            (load16-append (f.link ++ f.ip) f.payload 16 w.total total),
      )

  -- Behind the last frame one more round hands the buffer over again.
  frames_last :
      (fuel i : ℕ) (m : Main) (head : Bytes) (f : Frame) (w : IsFrame (length head) f)
      → 2 ≤ fuel
      → m.stream ≡ record { tmp1 = overlay head f; rest = []; eof = false }
      → frames boost outside fuel i m ≡ (
          work_all boost (arrival outside i (overlay head f) ∷ []) m.rcv m.fs >>= λ q.
          ok (main_after m.out (overlay head f) (20 + length f.payload) q))
  unfolding work_all
  frames_last zero i m head f w h at = absurd (omega arith)
  frames_last (suc zero) i m head f w h at = absurd (omega arith)
  frames_last (suc (suc fuel)) i m head f w h at =
      let (kind, total) = overlay-fields head f w in
      let size = length-overlay head f w in
      let once =
        round_again boost outside i m (overlay head f) w.total at (omega (arith, size, w.fits)) kind
          total in
      frames_step (suc fuel) i m (record { tmp1 = overlay head f; rest = []; eof = true })
        (20 + length f.payload) [] (overlay head f) (20 + length f.payload)
        (ap (λ (s : Stream). s.eof) at) (rw w.total_is at once)
        λ n.
          frames_marked boost outside fuel (suc i)
            (record m {
              stream = record { tmp1 = overlay head f; rest = []; eof = true };
              len = 20 + length f.payload;
              rcv = n.0;
              fs = n.2;
              out = m.out ++ n.1;
            })
            refl
          ∙ rw append-nil refl

  pub frames_file :
      (fuel i : ℕ) (m : Main) (head : Bytes) (f : Frame) (fs : List Frame)
      → length fs + 3 ≤ fuel
      → AllFrames (length head) (f ∷ fs)
      → m.stream ≡ record { tmp1 = head; rest = file_of (f ∷ fs); eof = false }
      → frames boost outside fuel i m ≡ (
          work_all boost (handed outside i head f fs) m.rcv m.fs >>= λ n.
          ok (main_after m.out (last_head head f fs) (last_len f fs) n))
  frames_file zero i m head f fs h all at = absurd (omega arith)
  frames_file (suc fuel) i m head f [] h (w, _) at =
      frames_step fuel i m (record { tmp1 = overlay head f; rest = []; eof = false })
        (20 + length f.payload) (arrival outside (suc i) (overlay head f) ∷ []) (overlay head f)
        (20 + length f.payload) (ap (λ (s : Stream). s.eof) at)
        (rw w.total_is at (round_frame boost outside i m head [] f w at))
        λ n.
          frames_last fuel (suc i)
            (record m {
              stream = record { tmp1 = overlay head f; rest = []; eof = false };
              len = 20 + length f.payload;
              rcv = n.0;
              fs = n.2;
              out = m.out ++ n.1;
            })
            head f w (omega arith) refl
  frames_file (suc fuel) i m head f (g ∷ fs) h (w, all) at =
      frames_step fuel i m (record { tmp1 = overlay head f; rest = file_of (g ∷ fs); eof = false })
        (20 + length f.payload) (handed outside (suc i) (overlay head f) g fs)
        (last_head head f (g ∷ fs)) (last_len f (g ∷ fs)) (ap (λ (s : Stream). s.eof) at)
        (rw w.total_is at (round_frame boost outside i m head (file_of (g ∷ fs)) f w at))
        λ n.
          frames_file fuel (suc i)
            (record m {
              stream = record { tmp1 = overlay head f; rest = file_of (g ∷ fs); eof = false };
              len = 20 + length f.payload;
              rcv = n.0;
              fs = n.2;
              out = m.out ++ n.1;
            })
            (overlay head f) g fs (omega arith)
            (subst (λ k. AllFrames k (g ∷ fs)) (sym (length-overlay head f w)) all) refl
