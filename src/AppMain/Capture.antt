-- ===== src/AppMain/Capture.antt =====
-- The loop of AppMain.cpp on a capture file of frames that stand one behind another.
use http_decoder.AppMain.Reading.{fread}
use http_decoder.AppMain.{Main, Outside, payload_size, hand_over, read_ip, round}
use http_decoder.Base.{
  ℕ, zero, suc, ◌+◌, ◌≤◌, ◌≡◌, refl, sym, ap, ◌∙◌, arith, true, false, [], ◌∷◌, ◌++◌, append_assoc,
  List, ltb, leb, le→leb, le→ltb_false, ok, Bytes, length, length-append, length-drop,
  take-append_self, drop-append_self, drop-drop, load8, load16, ntohs, drop, >>=-eq-ok, ◌*◌,
}
use http_decoder.Buffer.Blocks.{memcpy_fits}
use http_decoder.HttpParse.{LexicalCast}

-- a frame as the file has it: the header of Ethernet, the first 20 bytes of IP, and the rest
pub record Frame : Type 0 where
  pub link : Bytes
  pub ip : Bytes
  pub payload : Bytes

abbrev pub frame_bytes : Frame → Bytes
frame_bytes f = (f.link ++ f.ip) ++ f.payload

abbrev pub file_of : List Frame → Bytes
file_of [] = []
file_of (f ∷ fs) = frame_bytes f ++ file_of fs

-- The type is that of IPv4, the total length is that of the packet, and `size` bytes hold the frame.
pub record IsFrame (size : ℕ) (f : Frame) : Type 0 where
  pub link_length : length f.link ≡ 14
  pub ip_length : length f.ip ≡ 20
  pub kind : load16 f.link 12 ≡ ok 8
  pub total : ℕ
  pub total_at : load16 f.ip 2 ≡ ok total
  pub total_is : ntohs total ≡ 20 + length f.payload
  pub fits : length f.payload + 34 ≤ size

abbrev pub AllFrames : ℕ → List Frame → Type 0
AllFrames size [] = Unit {0}
AllFrames size (f ∷ fs) = IsFrame size f × AllFrames size fs

-- what the buffer holds after a frame was read over `head`
abbrev pub overlay : Bytes → Frame → Bytes
overlay head f = frame_bytes f ++ drop (length (frame_bytes f)) head

drop-behind : (pre old : Bytes) (n : ℕ) → drop (length pre + n) (pre ++ old) ≡ drop n old
drop-behind pre old n =
    sym (drop-drop (length pre) n (length pre + n) (pre ++ old) refl)
    ∙ ap (drop n) (drop-append_self (length pre) pre old refl)

-- A read of `x` behind `pre`.
fread-behind :
    (pre old x more : Bytes) (off n : ℕ)
    → length pre ≡ off
    → length x ≡ n
    → n ≤ length old
    → fread off n (record { tmp1 = pre ++ old; rest = x ++ more; eof = false })
      ≡ ok (record { tmp1 = (pre ++ x) ++ drop n old; rest = more; eof = false })
unfolding fread
fread-behind pre old x more off n e f h =
    let whole : leb n (length (x ++ more)) ≡ true =
      le→leb _ _ (omega (arith, length-append x more)) in
    let enough : ltb (length (x ++ more)) n ≡ false =
      le→ltb_false _ _ (omega (arith, length-append x more)) in
    let stored =
      memcpy_fits (pre ++ old) off (x ++ more) n (omega (arith, length-append pre old))
        (omega (arith, length-append x more)) in
    let first = take-append_self off pre old e in
    let new = take-append_self n x more f in
    let left = ap (λ k. drop (k + n) (pre ++ old)) (sym e) ∙ drop-behind pre old n in
    rw (whole, enough, stored)
      (rw (first, new, left, drop-append_self n x more f)
        (rw (append_assoc pre x (drop n old)) refl))

load8-append : (m k : Bytes) (i x : ℕ) → load8 m i ≡ ok x → load8 (m ++ k) i ≡ ok x
unfolding load8
load8-append [] k i x e = cc
load8-append (y ∷ m) k zero x e = e
load8-append (y ∷ m) k (suc i) x e = load8-append m k i x e

load8-behind : (m k : Bytes) (i j : ℕ) → length m + i ≡ j → load8 (m ++ k) j ≡ load8 k i
unfolding load8
load8-behind [] k i j e = let same : j ≡ i = omega arith in ap (load8 k) same
load8-behind (y ∷ m) k i zero e = absurd (omega arith)
load8-behind (y ∷ m) k i (suc j) e = load8-behind m k i j (omega arith)

load16-split :
    (m : Bytes) (i x : ℕ)
    → load16 m i ≡ ok x
    → (a : ℕ) × (b : ℕ) × (load8 m i ≡ ok a) × (load8 m (i + 1) ≡ ok b) × (a + 256 * b ≡ x)
load16-split m i x e =
    let (a, first, more) = >>=-eq-ok (load8 m i) _ e in
    let (b, second, last) = >>=-eq-ok (load8 m (i + 1)) _ more in (a, b, first, second, cc)

pub load16-append : (m k : Bytes) (i x : ℕ) → load16 m i ≡ ok x → load16 (m ++ k) i ≡ ok x
load16-append m k i x e =
    let (a, b, first, second, same) = load16-split m i x e in
    rw (load8-append m k i a first, load8-append m k (i + 1) b second, same) refl

pub load16-behind :
    (m k : Bytes) (i j x : ℕ) → length m + i ≡ j → load16 k i ≡ ok x → load16 (m ++ k) j ≡ ok x
load16-behind m k i j x h e =
    let (a, b, first, second, same) = load16-split k i x e in
    rw (load8-behind m k i j h, first, load8-behind m k (i + 1) (j + 1) (omega arith), second, same)
      refl

module _ (boost : LexicalCast) (outside : Outside) where
  -- The round on a frame reads it over what the buffer held, and hands the buffer over.
  pub round_frame :
      (i : ℕ) (m : Main) (head more : Bytes) (f : Frame) (w : IsFrame (length head) f)
      → m.stream ≡ record { tmp1 = head; rest = frame_bytes f ++ more; eof = false }
      → round boost outside i m
        ≡ hand_over boost outside i (record m {
          stream = record { tmp1 = overlay head f; rest = more; eof = false };
          len = ntohs w.total;
        })
  unfolding round read_ip
  round_frame i m head more f w at =
      let behind = f.payload ++ more in
      let order : frame_bytes f ++ more ≡ f.link ++ (f.ip ++ behind) =
        append_assoc (f.link ++ f.ip) f.payload more ∙ append_assoc f.link f.ip behind in
      let left = drop 20 (drop 14 head) in
      let size : payload_size (ntohs w.total) ≡ length f.payload = ground (arith, w.total_is) in
      let first =
        fread-behind [] head f.link (f.ip ++ behind) 0 14 refl w.link_length
          (omega (arith, w.fits)) in
      let second =
        fread-behind f.link (drop 14 head) f.ip behind 14 20 w.link_length w.ip_length
          (omega (arith, w.fits, length-drop 14 head)) in
      let third =
        fread-behind (f.link ++ f.ip) left f.payload more 34 (length f.payload)
          (omega (arith, w.link_length, w.ip_length, length-append f.link f.ip)) refl
          (omega (arith, w.fits, length-drop 14 head, length-drop 20 (drop 14 head))) in
      let kind = load16-append f.link (drop 14 head) 12 8 w.kind in
      let total : load16 ((f.link ++ f.ip) ++ left) 16 ≡ ok w.total =
        load16-append (f.link ++ f.ip) left 16 w.total
          (load16-behind f.link f.ip 2 16 w.total (omega (arith, w.link_length)) w.total_at) in
      let whole : length (frame_bytes f) ≡ 34 + length f.payload = omega (
        arith,
        w.link_length,
        w.ip_length,
        length-append f.link f.ip,
        length-append (f.link ++ f.ip) f.payload,
      ) in
      let rest : drop (length f.payload) left ≡ drop (length (frame_bytes f)) head =
        ap (drop (length f.payload)) (drop-drop 14 20 34 head refl)
        ∙ drop-drop 34 (length f.payload) _ head (sym whole) in
      rw (at, order, first) (rw (kind, second) (rw (total, size) (rw (third, rest) refl)))
