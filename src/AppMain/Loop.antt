-- ===== src/AppMain/Loop.antt =====
-- The loop of `main` in AppMain.cpp and of `start` in http_parser.cpp, without fuel.
use http_decoder.AppMain.{Main, Outside, round, frames}
use http_decoder.Base.{
  ℕ, zero, suc, ◌+◌, ◌≤◌, ◌<◌, ◌≡◌, inl, inr, refl, sym, arith, true, false, Bool-cases, [], Option,
  Outcome, ok, fault, ◌>>=◌, Bytes, length, ◌∙◌,
}
use http_decoder.HttpParse.{LexicalCast}
use http_decoder.Receiver.{Receiver}
use http_decoder.AppMain.Progress.{frames_marked, frames-round, round-Reads}

module _ (boost : LexicalCast) (outside : Outside) where
  frames_ended :
      (fuel i : ℕ) (m : Main)
      → 0 < fuel
      → m.stream.eof ≡ true
      → frames boost outside fuel i m ≡ ok m
  frames_ended zero i m h mark = absurd (omega arith)
  frames_ended (suc fuel) i m h mark = frames_marked boost outside fuel i m mark

  -- Two amounts of fuel give the same, if both are two rounds more than the file has bytes left.
  pub frames_enough :
      (fuel more i : ℕ) (m : Main)
      → suc (length m.stream.rest) < fuel
      → suc (length m.stream.rest) < more
      → frames boost outside fuel i m ≡ frames boost outside more i m
  frames_enough zero more i m h h' = absurd (omega arith)
  frames_enough (suc fuel) zero i m h h' = absurd (omega arith)
  frames_enough (suc fuel) (suc more) i m h h' = elim (Bool-cases m.stream.eof) [
    | inl mark ↦
        frames_ended (suc fuel) i m (omega arith) mark
        ∙ sym (frames_ended (suc more) i m (omega arith) mark)
    | inr open_file ↦
        frames-round boost outside fuel i m open_file
        ∙ go (round boost outside i m) refl
            (λ n less. frames_enough fuel more (suc i) n (omega arith) (omega arith))
        ∙ sym (frames-round boost outside more i m open_file)
  ]
    where
      go :
          (x : Outcome Main)
          → round boost outside i m ≡ x
          → ((n : Main)
              → length n.stream.rest + 14 ≤ length m.stream.rest
              → frames boost outside fuel (suc i) n ≡ frames boost outside more (suc i) n)
          → (x >>= λ n. frames boost outside fuel (suc i) n)
            ≡ (x >>= λ n. frames boost outside more (suc i) n)
      go (fault f) e ih = refl
      go (ok n) e ih = elim (round-Reads boost outside i m n e) [
        | inl mark ↦
            frames_ended fuel (suc i) n (omega arith) mark
            ∙ sym (frames_ended more (suc i) n (omega arith) mark)
        | inr less ↦ ih n less
      ]

-- the variables of `main` before its loop
abbrev pub opened : Bytes → Bytes → ℕ → Receiver → Option ℕ → Main
opened file tmp len rcv fs = record {
  stream = record { tmp1 = tmp; rest = file; eof = false };
  len = len;
  rcv = rcv;
  fs = fs;
  out = [];
}
