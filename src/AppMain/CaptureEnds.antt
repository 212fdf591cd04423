-- ===== src/AppMain/CaptureEnds.antt =====
-- `main` of AppMain.cpp on a capture file, to its end.
use http_decoder.AppMain.Capture.{Frame, frame_bytes, file_of, AllFrames}
use http_decoder.AppMain.CaptureRun.{Handled, main_after, handed, last_head, last_len, frames_file}
use http_decoder.AppMain.Loop.{opened}
use http_decoder.AppMain.{Main, Outside, run, print_response}
use http_decoder.Base.{
  ℕ, suc, ◌+◌, ◌*◌, ◌^◌, ◌≤◌, ◌<◌, ◌≡◌, ◌⊎◌, inl, inr, refl, subst, arith, Bool, true, false, [],
  ◌∷◌, ◌++◌, List, Option, none, some, ok, fault, Outcome, ◌>>=◌, >>=-eq-ok, if◌then◌else◌, Bytes,
  length, length-append, le→leb,
}
use http_decoder.Buffer.{get_buf}
use http_decoder.FormatPacket.{CFormatPacket, Timeval, format}
use http_decoder.Handle.Aging.{CHandle, Step, time_out_check}
use http_decoder.Handle.Good.{Guards, AllSound, Meets, fault-Meets}
use http_decoder.Handle.{Env, process, session_for, assemble, session_at, print_stored}
use http_decoder.HttpParse.{LexicalCast}
use http_decoder.Receiver.Runs.{Arrival, work_all, AllArrive, StaysCalm, work_all-Guards}
use http_decoder.Receiver.{Receiver, behavior_info, handle_message, work, count_frame}
use http_decoder.SessionHash.{CBhvInf, ends_of}

-- Where the caller's pointer has a session, it has one after a call.
abbrev HasSome : Option ℕ → Type 0
HasSome o = (id : ℕ) × (o ≡ some id)

module _ (boost : LexicalCast) where
  process-HasSome :
      (env : Env) (p : CFormatPacket) (info : Option CBhvInf) (h : CHandle) (id : ℕ)
      (r : Step (Option ℕ))
      → process boost env p info h (some id) ≡ ok r
      → HasSome r.value
  unfolding process
  process-HasSome env p none h id r e =
      let ((g, aged), _, last) = >>=-eq-ok (time_out_check boost env.heap env.check_time h) _ e in
      (id, cc)
  process-HasSome env p (some i) h id r e =
      let ((g, aged), _, more) = >>=-eq-ok (time_out_check boost env.heap env.check_time h) _ e in
      let (ends, _, more') = >>=-eq-ok (ends_of p) _ more in
      let ((n, found), _, more2) = >>=-eq-ok (session_for env p i ends g) _ more' in
      let ((g', out, stored), _, shown) = >>=-eq-ok (assemble boost env p i n ends found) _ more2 in
      let (_, _, last) = >>=-eq-ok (print_stored stored (session_at g' n)) _ shown in
      let same : (if stored then some n else some id) ≡ r.value = cc in go n stored same
    where
      go :
          (n : ℕ) (stored : Bool) → (if stored then some n else some id) ≡ r.value → HasSome r.value
      go n true same = (n, cc)
      go n false same = (id, cc)

  work-HasSome :
      (env : Env) (now : Timeval) (msg : Bytes) (r : Receiver) (id : ℕ) (n : Handled)
      → work boost env now (some msg) r (some id) ≡ ok n
      → HasSome n.2
  unfolding work handle_message
  work-HasSome env now msg r id n e =
      let (_, _, counting) = >>=-eq-ok (count_frame r.counter) _ e in
      let (s, done, last) =
        >>=-eq-ok (handle_message boost env now (some msg) r.handle (some id)) _ counting in
      let (p, _, more) = >>=-eq-ok (format msg now) _ done in
      let (i, _, more') = >>=-eq-ok (behavior_info p) _ more in
      let (x, at) = process-HasSome env p (some i) r.handle id s more' in
      let same : s.value ≡ n.2 = cc in (x, cc)

  work_all-HasSome :
      (rest : List Arrival) (r : Receiver) (id : ℕ) (n : Handled)
      → work_all boost rest r (some id) ≡ ok n
      → HasSome n.2
  unfolding work_all
  work_all-HasSome [] r id n e = (id, cc)
  work_all-HasSome (a ∷ rest) r id n e =
      let (q, first, more) = >>=-eq-ok (work boost a.env a.now (some a.msg) r (some id)) _ e in
      let (s, second, last) = >>=-eq-ok (work_all boost rest q.0 q.2) _ more in
      let (x, at) = work-HasSome a.env a.now a.msg r id q first in
      let (y, at') =
        work_all-HasSome rest q.0 x s (subst (λ o. work_all boost rest q.0 o ≡ ok s) at second) in
      (y, cc)

file-length :
    (size : ℕ) (f : Frame) (fs : List Frame)
    → AllFrames size (f ∷ fs)
    → length fs + 1 ≤ length (file_of (f ∷ fs))
file-length size f [] (w, _) = omega (
  arith,
  w.link_length,
  length-append (frame_bytes f) [],
  length-append (f.link ++ f.ip) f.payload,
  length-append f.link f.ip,
)
file-length size f (g ∷ fs) (w, all) = omega (
  arith,
  w.link_length,
  file-length size g fs all,
  length-append (frame_bytes f) (file_of (g ∷ fs)),
  length-append (f.link ++ f.ip) f.payload,
  length-append f.link f.ip,
)

last_len-fits :
    (size : ℕ) (f : Frame) (fs : List Frame) → AllFrames size (f ∷ fs) → last_len f fs + 14 ≤ size
last_len-fits size f [] (w, _) = omega (arith, w.fits)
last_len-fits size f (g ∷ fs) (w, all) = last_len-fits size g fs all

print_response_done :
    (boost : LexicalCast) (outside : Outside) (m : Main) (x : ℕ) (block : Bytes)
    → m.fs ≡ some x
    → (m.rcv.handle.ses_hash.objects x).rsp_buf.buf ≡ some block
    → m.len ≤ length block
    → print_response boost outside m ≡ ok m
unfolding print_response get_buf
print_response_done boost outside m x block at full h = rw (at, full, le→leb _ _ h) refl

module _ (boost : LexicalCast) (outside : Outside) (f : Frame) (fs : List Frame) (tmp : Bytes)
    (len : ℕ) (rcv : Receiver) (id : ℕ) (all : AllFrames (length tmp) (f ∷ fs)) where
  -- `main` reads a capture file back as it was written: it calls `Work` on each frame in order, over
  -- what the buffer held before, and on the last one a second time, and then reads the response of
  -- the last session. The file has a frame or more, one behind another, each with the type of IPv4
  -- and the total length of its packet, and the buffer has room for each.
  pub run_file : run boost outside (some (file_of (f ∷ fs))) tmp len rcv id ≡ (
      work_all boost (handed outside 0 tmp f fs) rcv (some id) >>= λ n.
      print_response boost outside (main_after [] (last_head tmp f fs) (last_len f fs) n))
  unfolding run
  run_file =
      let enough = file-length (length tmp) f fs all in
      rw
        (frames_file boost outside (suc (suc (length (file_of (f ∷ fs))))) 0
          (opened (file_of (f ∷ fs)) tmp len rcv (some id)) tmp f fs (omega (arith, enough)) all
          refl)
        (joined (work_all boost (handed outside 0 tmp f fs) rcv (some id)))
    where
      joined :
          (x : Outcome Handled)
          → ((x >>= λ n. ok (main_after [] (last_head tmp f fs) (last_len f fs) n))
              >>= print_response boost outside)
            ≡ (x >>= λ n.
                print_response boost outside (main_after [] (last_head tmp f fs) (last_len f fs) n))
      joined (ok n) = refl
      joined (fault e) = refl

  printed :
      (limit : ℕ) (n : Handled)
      → length tmp ≤ 2000
      → HasSome n.2
      → AllSound limit n.0.handle.ses_hash.objects
      → print_response boost outside (main_after [] (last_head tmp f fs) (last_len f fs) n)
        ≡ ok (main_after [] (last_head tmp f fs) (last_len f fs) n)
  printed limit n small (x, at) sound =
      let k = (sound x).response in
      print_response_done boost outside (main_after [] (last_head tmp f fs) (last_len f fs) n) x
        k.block at k.valid.block
        (omega (arith, last_len-fits (length tmp) f fs all, k.valid.fits, k.valid.roomy))

  -- `main` on such a capture file, with a buffer of at most 2000 bytes, comes to its end or meets
  -- one of three kinds of undefined behaviour, the missing `return` of `GetMethod`, a version out
  -- of range when converted, and a buffer printed with `%s` whose block has no NUL byte: beside
  -- that it reads and writes nothing outside of a block and uses no null pointer, in the loop and
  -- behind it. What is handed over is captured whole, from an allocator that gives blocks of the
  -- size asked for and has one for a new buffer; the session under every number, in use or not,
  -- has valid buffers in blocks of at most `limit` bytes, the first block still or one with a NUL
  -- byte behind the contents; `limit` and 2 ^ 15 for each frame handed over stay below 2 ^ 31
  -- together; the count of frames stays below 2 ^ 31; and in no state that the run passes through
  -- a response has 2046 or 2047 bytes.
  pub run_ends :
      (limit : ℕ)
      → length tmp ≤ 2000
      → AllArrive (handed outside 0 tmp f fs)
      → limit + length (handed outside 0 tmp f fs) * 2 ^ 15 < 2 ^ 31
      → AllSound limit rcv.handle.ses_hash.objects
      → rcv.counter + length (handed outside 0 tmp f fs) < 2 ^ 31
      → StaysCalm boost (handed outside 0 tmp f fs) rcv (some id)
      → ((m : Main) × (run boost outside (some (file_of (f ∷ fs))) tmp len rcv id ≡ ok m))
        ⊎ Meets (run boost outside (some (file_of (f ∷ fs))) tmp len rcv id)
  run_ends limit small arrive low sound counts calm = rw run_file (
      go (work_all boost (handed outside 0 tmp f fs) rcv (some id)) refl (
        work_all-Guards boost (handed outside 0 tmp f fs) rcv (some id) limit arrive low sound
          counts calm))
    where
      end : Handled → Outcome Main
      end n = print_response boost outside (main_after [] (last_head tmp f fs) (last_len f fs) n)

      go :
          (x : Outcome Handled)
          → work_all boost (handed outside 0 tmp f fs) rcv (some id) ≡ x
          → Guards x (λ n.
            AllSound
              (limit + length (handed outside 0 tmp f fs) * 2 ^ 15)
              n.0.handle.ses_hash.objects)
          → ((m : Main) × ((x >>= end) ≡ ok m)) ⊎ Meets (x >>= end)
      go (fault c) e known = inr (fault-Meets c known)
      go (ok n) e kept =
          let some_id = work_all-HasSome boost (handed outside 0 tmp f fs) rcv id n e in
          inl (_, printed _ n small some_id kept)
