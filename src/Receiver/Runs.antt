-- ===== src/Receiver/Runs.antt =====
-- `Receiver::Work` of Receiver.cpp on frames that come one after another.
use http_decoder.Base.{
  ℕ, suc, ◌+◌, ◌*◌, ◌^◌, ◌<◌, ◌≡◌, ◌⊎◌, refl, arith, some, Option, Outcome, ok, fault, ◌>>=◌, Bytes,
  Sized, List, [], ◌∷◌, ◌++◌, length, take,
}
use http_decoder.Buffer.Growth.{IsCalm}
use http_decoder.Buffer.{buffer_size}
use http_decoder.FormatPacket.{CFormatPacket, Timeval, format}
use http_decoder.Handle.Good.{Guards, bind-Guards, Guards-ends, AllSound, AllGood, Meets}
use http_decoder.Handle.Stored.{AllSound-le}
use http_decoder.Handle.{Env}
use http_decoder.HttpParse.Send.{Output}
use http_decoder.HttpParse.{LexicalCast}
use http_decoder.Receiver.Faults.{IsCaptured, work-Guards}
use http_decoder.Receiver.{Receiver, work}

-- a frame, with what the call of `Work` on it takes from outside
pub record Arrival : Type 0 where
  pub env : Env
  pub now : Timeval
  pub msg : Bytes

abbrev Result : Type 0
Result = Receiver × List Output × Option ℕ

-- `rcv.Work(head, fs)` for each of them
unfoldable pub work_all :
    LexicalCast → List Arrival → Receiver → Option ℕ → Outcome (Receiver × List Output × Option ℕ)
work_all boost [] r sesp = ok (r, [], sesp)
work_all boost (a ∷ rest) r sesp = do
  (r', out, sesp') ← work boost a.env a.now (some a.msg) r sesp
  (last, out', sesp2) ← work_all boost rest r' sesp'
  ok (last, out ++ out', sesp2)

-- A captured frame, with an allocator that gives blocks of the size asked for and has one for a
-- new buffer.
pub record IsArrival (a : Arrival) : Type 0 where
  pub sized : Sized a.env.heap
  pub fresh : Bytes
  pub given : a.env.heap buffer_size ≡ some fresh
  pub view : CFormatPacket
  pub formatted : format a.msg a.now ≡ ok view
  pub captured : IsCaptured a.msg view

abbrev pub AllArrive : List Arrival → Type 0
AllArrive [] = Unit {0}
AllArrive (a ∷ rest) = IsArrival a × AllArrive rest

abbrev pub AllCalm : Receiver → Type 0
AllCalm r = (id : ℕ) → IsCalm (r.handle.ses_hash.objects id).rsp_buf

module _ (boost : LexicalCast) where
  -- In the states that the run passes through no response leaves one byte or two of its first block.
  abbrev pub StaysCalm : List Arrival → Receiver → Option ℕ → Type 0
  StaysCalm rest r sesp =
      (k : ℕ) (n : Receiver × List Output × Option ℕ)
      → work_all boost (take k rest) r sesp ≡ ok n
      → AllCalm n.0

  later-Calm :
      (a : Arrival) (rest : List Arrival) (r : Receiver) (sesp : Option ℕ) (n : Result)
      → work boost a.env a.now (some a.msg) r sesp ≡ ok n
      → StaysCalm (a ∷ rest) r sesp
      → StaysCalm rest n.0 n.2
  unfolding work_all
  later-Calm a rest r sesp n e calm k m f =
      calm (suc k) (m.0, n.1 ++ m.1, m.2) (rw (work_all, e) (rw f refl))

  pub work_all-Guards :
      (rest : List Arrival) (r : Receiver) (sesp : Option ℕ) (limit : ℕ)
      → AllArrive rest
      → limit + length rest * 2 ^ 15 < 2 ^ 31
      → AllSound limit r.handle.ses_hash.objects
      → r.counter + length rest < 2 ^ 31
      → StaysCalm rest r sesp
      → Guards
          (work_all boost rest r sesp)
          (λ n. AllSound (limit + length rest * 2 ^ 15) n.0.handle.ses_hash.objects)
  unfolding work_all
  work_all-Guards [] r sesp limit all low sound counts calm =
      AllSound-le r.handle.ses_hash.objects (omega arith) sound
  work_all-Guards (a ∷ rest) r sesp limit (h, all) low sound counts calm =
      let good : AllGood limit r.handle.ses_hash.objects =
        λ id. record { sound = sound id; calm = calm 0 (r, [], sesp) refl id } in
      go (work boost a.env a.now (some a.msg) r sesp) refl
        (work-Guards boost a.env a.now h.sized h.given a.msg h.view h.formatted h.captured
          (omega arith) r sesp (omega arith) good)
        λ n e (more, next).
          work_all-Guards rest n.0 n.2 (limit + 2 ^ 15) all (omega arith) more
            (omega (arith, next, counts)) (later-Calm a rest r sesp n e calm)
    where
      go :
          (x : Outcome Result)
          → work boost a.env a.now (some a.msg) r sesp ≡ x
          → Guards x (λ n.
            AllSound (limit + 2 ^ 15) n.0.handle.ses_hash.objects × (n.0.counter ≡ r.counter + 1))
          → ((n : Result)
              → work boost a.env a.now (some a.msg) r sesp ≡ ok n
              → AllSound (limit + 2 ^ 15) n.0.handle.ses_hash.objects
                × (n.0.counter ≡ r.counter + 1)
              → Guards (work_all boost rest n.0 n.2) (λ m.
                AllSound (limit + 2 ^ 15 + length rest * 2 ^ 15) m.0.handle.ses_hash.objects))
          → Guards
              (work_all boost (a ∷ rest) r sesp)
              (λ n. AllSound (limit + length (a ∷ rest) * 2 ^ 15) n.0.handle.ses_hash.objects)
      go (fault c) e known ih = rw (work_all, e) known
      go (ok n) e more ih =
          rw (work_all, e)
            (bind-Guards (work_all boost rest n.0 n.2) _ _ _ (ih n e more)
              λ m g. AllSound-le m.0.handle.ses_hash.objects (omega arith) g)

  -- `Work` on captured frames one after another returns, or meets one of three kinds of undefined
  -- behaviour, the missing `return` of `GetMethod`, a version out of range when converted, and a
  -- buffer printed with `%s` whose block has no NUL byte. It returns with the session under every
  -- number, in use or not, in valid buffers in blocks of at most `limit` bytes, the first block
  -- still or one with a NUL byte behind the contents, if it began so, and a frame moves `limit` up
  -- by 2 ^ 15 at most. The allocator gives blocks of the size asked for and has one for a new
  -- buffer; `limit` and 2 ^ 15 for each frame stay below 2 ^ 31 together; the count of frames
  -- stays below 2 ^ 31; and in no state that the run passes through a response has 2046 or 2047
  -- bytes.
  pub work_all_ends :
      (rest : List Arrival) (r : Receiver) (sesp : Option ℕ) (limit : ℕ)
      → AllArrive rest
      → limit + length rest * 2 ^ 15 < 2 ^ 31
      → AllSound limit r.handle.ses_hash.objects
      → r.counter + length rest < 2 ^ 31
      → StaysCalm rest r sesp
      → ((n : Receiver × List Output × Option ℕ) × (work_all boost rest r sesp ≡ ok n)
          × AllSound (limit + length rest * 2 ^ 15) n.0.handle.ses_hash.objects)
        ⊎ Meets (work_all boost rest r sesp)
  work_all_ends rest r sesp limit all low sound counts calm =
      Guards-ends (work_all boost rest r sesp) _
        (work_all-Guards rest r sesp limit all low sound counts calm)
