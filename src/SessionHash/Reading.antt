-- ===== src/SessionHash/Reading.antt =====
-- The ends that SessionHash.cpp and Handle.cpp read from a packet, and the server that `Create` sees.
use http_decoder.Base.{
  ℕ, ◌+◌, ◌*◌, ◌<◌, ◌≡◌, subst, arith, Bool-cases, inl, inr, [], ◌∷◌, ◌==◌, ◌&&◌, if◌then◌else◌, ok,
  Bytes, length, load8, load16, load32, load8_total, ntohs, ntohl, ntohs-swap, ntohl-swap, AreBytes,
}
use http_decoder.FormatPacket.{CFormatPacket, get_src_ip, get_dst_ip, get_src_port, get_dst_port}
use http_decoder.FormatPacket.Layout.{IsView, At}
use http_decoder.Session.{CSession}
use http_decoder.SessionHash.{CBhvInf, Ends, ends_of, assign, session_ends, swap}

-- A number of 32 bits and one of 16, with the high byte first.
abbrev pub big32 : ℕ → ℕ → ℕ → ℕ → ℕ
big32 a b c d = 16777216 * a + 65536 * b + 256 * c + d

abbrev pub big16 : ℕ → ℕ → ℕ
big16 a b = 256 * a + b

load16-At :
    (p : Bytes) (i x y : ℕ)
    → At p i (x ∷ y ∷ [])
    → (load16 p i ≡ ok (x + 256 * y)) × (ntohs (x + 256 * y) ≡ big16 x y)
load16-At p i x y a = (rw (a.0, a.2.0), ntohs-swap x y a.1 a.2.1)

load32-At :
    (p : Bytes) (i a b c d : ℕ)
    → At p i (a ∷ b ∷ c ∷ d ∷ [])
    → (load32 p i ≡ ok (a + 256 * b + 65536 * (c + 256 * d)))
      × (ntohl (a + 256 * b + 65536 * (c + 256 * d)) ≡ big32 a b c d)
load32-At p i a b c d h =
    let next : i + 1 + 1 ≡ i + 2 = omega arith in
    let last : i + 1 + 1 + 1 ≡ i + 2 + 1 = omega arith in
    let third : load8 p (i + 2) ≡ ok c = subst (λ k. load8 p k ≡ ok c) next h.2.2.0 in
    let fourth : load8 p (i + 2 + 1) ≡ ok d = subst (λ k. load8 p k ≡ ok d) last h.2.2.2.0 in
    (rw (h.0, h.2.0, third, fourth), ntohl-swap a b c d h.1 h.2.1 h.2.2.1 h.2.2.2.1)

-- The addresses and ports of a frame come out with their bytes in the order of the network: the
-- addresses from bytes 26 to 33, the ports from the first four bytes behind the header of IP.
pub ends_of-IsView :
    (p : Bytes) (v : CFormatPacket) (w : IsView p v) (a b c d a' b' c' d' s s' t t' : ℕ)
    → At p 26 (a ∷ b ∷ c ∷ d ∷ [])
    → At p 30 (a' ∷ b' ∷ c' ∷ d' ∷ [])
    → At p w.tcp (s ∷ s' ∷ [])
    → At p (w.tcp + 2) (t ∷ t' ∷ [])
    → ends_of v
      ≡ ok (record {
        src_ip = big32 a b c d;
        dst_ip = big32 a' b' c' d';
        src_port = big16 s s';
        dst_port = big16 t t';
      })
unfolding ends_of get_src_ip get_dst_ip get_src_port get_dst_port
ends_of-IsView p v w a b c d a' b' c' d' s s' t t' h h' k k' =
    let (e, f) = load32-At p 26 a b c d h in
    let (e', f') = load32-At p 30 a' b' c' d' h' in
    let (g, i) = load16-At p w.tcp s s' k in
    let (g', i') = load16-At p (w.tcp + 2) t t' k' in
    rw (w.same_bytes, w.ip_header, w.tcp_header, e) (rw (e', g) (rw (g', f, f', i, i')))

-- Inside a block of bytes, some byte stands at each place.
two-At :
    (p : Bytes) (i : ℕ) → AreBytes p → i + 1 < length p → (x : ℕ) × (y : ℕ) × At p i (x ∷ y ∷ [])
two-At p i bytes h =
    let (x, e, lo) = load8_total p i bytes (omega arith) in
    let (y, f, hi) = load8_total p (i + 1) bytes h in (x, y, (e, lo, (f, hi, tt)))

four-At :
    (p : Bytes) (i : ℕ)
    → AreBytes p
    → i + 3 < length p
    → (a : ℕ) × (b : ℕ) × (c : ℕ) × (d : ℕ) × At p i (a ∷ b ∷ c ∷ d ∷ [])
four-At p i bytes h =
    let (a, b, first) = two-At p i bytes (omega arith) in
    let (c, d, second) = two-At p (i + 1 + 1) bytes (omega arith) in
    (a, b, c, d, (first.0, first.1, (first.2.0, first.2.1, second)))

pub load32_total :
    (p : Bytes) (i : ℕ) → AreBytes p → i + 3 < length p → (x : ℕ) × (load32 p i ≡ ok x)
load32_total p i bytes h =
    let (a, b, c, d, at) = four-At p i bytes h in (_, (load32-At p i a b c d at).0)

-- The addresses and ports of a view of a frame of bytes can be read: none of the loads leaves the frame.
pub ends_of_total :
    (p : Bytes) (v : CFormatPacket) → IsView p v → AreBytes p → (e : Ends) × (ends_of v ≡ ok e)
ends_of_total p v w bytes =
    let (a, b, c, d, h) = four-At p 26 bytes (omega (arith, w.inside, w.behind_ip)) in
    let (a', b', c', d', h') = four-At p 30 bytes (omega (arith, w.inside, w.behind_ip)) in
    let (s, s', k) = two-At p w.tcp bytes (omega (arith, w.inside)) in
    let (t, t', k') = two-At p (w.tcp + 2) bytes (omega (arith, w.inside)) in
    (_, ends_of-IsView p v w a b c d a' b' c' d' s s' t t' h h' k k')

-- The end that the info names becomes the server of the new session, and the other the client.
-- Where it names neither the destination is the server.
pub assign-session_ends :
    (now : ℕ) (info : CBhvInf) (e : Ends) (p : CFormatPacket) (s : CSession)
    → session_ends (assign now info e p s)
      ≡ (if info.ip == e.src_ip && info.port == e.src_port then e else swap e)
unfolding assign
assign-session_ends now info e p s =
    elim (Bool-cases (info.ip == e.src_ip && info.port == e.src_port)) [
      | inl here ↦ rw here
      | inr there ↦ rw there
    ]
