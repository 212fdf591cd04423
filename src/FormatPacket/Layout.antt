-- ===== src/FormatPacket/Layout.antt =====
-- What `Format` and the getters of FormatPacket.cpp read of a frame.
use http_decoder.Base.{
  ℕ, ◌+◌, ◌-◌, ◌*◌, ◌/◌, ◌%◌, ◌^◌, ◌≤◌, ◌<◌, ◌≡◌, refl, arith, true, false, Bool-cases, inl, inr,
  [], ◌∷◌, some, ltb, ◌==◌, ok, Bytes, length, load8, load16, load8_total, ntohs, AreBytes,
  size_of_int16, ◌≢◌, ◌⊎◌, ==_iff,
}
use http_decoder.FormatPacket.{
  CFormatPacket, Timeval, format, payload_offset, ipproto_tcp, get_data_len,
}

-- `v` looks at the frame `p`: its headers lie in it, and its payload comes behind them.
pub record IsView (p : Bytes) (v : CFormatPacket) : Type 0 where
  pub tcp : ℕ
  pub offset : ℕ
  pub same_bytes : v.pkt ≡ p
  pub ip_header : v.iphdr ≡ some 14
  pub tcp_header : v.tcphdr ≡ some tcp
  pub inside : tcp + 20 ≤ length p
  pub behind_ip : (14 ≤ tcp) × (tcp ≤ 74)
  pub payload_at : v.payload ≡ some (14 + offset)
  pub short_headers : offset ≤ 120
  pub rest : v.data_len ≡ (v.pkt_len + 2 ^ 16 - offset) % 2 ^ 16
  pub whole : v.pkt_len < 2 ^ 16

-- The view follows the fields of the headers: the TCP header stands behind as many words as `ihl`
-- says, the payload behind as many words of it as `doff` says, or 8 bytes of another protocol's
-- header, and the length is `tot_len` in the order of the network.
pub record FollowsHeaders (p : Bytes) (v : CFormatPacket) (w : IsView p v) : Type 0 where
  pub first : ℕ
  pub first_at : load8 p 14 ≡ ok first
  pub behind_first : w.tcp ≡ 14 + first % 16 * 4
  pub total : ℕ
  pub total_at : load16 p 16 ≡ ok total
  pub total_is : v.pkt_len ≡ ntohs total
  pub protocol : ℕ
  pub protocol_at : load8 p 23 ≡ ok protocol
  pub behind_second :
      ((protocol ≡ 6)
        × (x : ℕ) × (load8 p (w.tcp + 12) ≡ ok x)
        × (14 + w.offset ≡ w.tcp + x / 16 * 4))
      ⊎ ((protocol ≢ 6) × (14 + w.offset ≡ w.tcp + 8))

load16_total :
    (m : Bytes) (i : ℕ)
    → AreBytes m
    → i + 1 < length m
    → (x : ℕ) × (load16 m i ≡ ok x) × (x < 65536)
load16_total m i a h =
    let (x, e, lo) = load8_total m i a (omega arith) in
    let (y, e', hi) = load8_total m (i + 1) a h in (x + 256 * y, rw (e, e'), omega arith)

-- how far the payload is behind the headers
abbrev OffsetBy : Bytes → ℕ → ℕ → ℕ → ℕ → Type 0
OffsetBy p words tcp protocol o =
    ((protocol ≡ 6) × (x : ℕ) × (load8 p (tcp + 12) ≡ ok x) × (o ≡ words * 4 + x / 16 * 4))
    ⊎ ((protocol ≢ 6) × (o ≡ words * 4 + 8))

offset_total :
    (p : Bytes) (words tcp protocol : ℕ)
    → AreBytes p
    → tcp + 20 ≤ length p
    → words ≤ 15
    → (o : ℕ) × (payload_offset p words tcp protocol ≡ ok o)
      × (o ≤ 120)
      × OffsetBy p words tcp protocol o
unfolding payload_offset
offset_total p words tcp protocol a h w = elim (Bool-cases (protocol == ipproto_tcp)) [
  | inl is_tcp ↦
      let (x, e, small) = load8_total p (tcp + 12) a (omega arith) in
      (words * 4 + x / 16 * 4, rw (is_tcp, e), omega arith, inl ((==_iff _ _).0 is_tcp, x, e, refl))
  | inr other ↦ (words * 4 + 8, rw other, omega arith, inr (λ same. absurd (ground arith), refl))
]

-- `Format` does not read outside a frame of at least 94 bytes, which both headers have room in
-- at their longest, and gives a view of it: the TCP header stands behind as many words as `ihl`
-- says, the payload behind as many more as `doff` says, or behind 8 bytes where the protocol is
-- not TCP, and the length is `tot_len` in the order of the network.
pub format-IsView :
    (p : Bytes) (now : Timeval)
    → AreBytes p
    → 94 ≤ length p
    → (v : CFormatPacket) × (format p now ≡ ok v) × (w : IsView p v) × FollowsHeaders p v w
unfolding format
format-IsView p now a h =
    let (x, e, small) = load8_total p 14 a (omega arith) in
    let tcp = 14 + x % 16 * 4 in
    let (total, e', small') = load16_total p 16 a (omega arith) in
    let (protocol, e'', _) = load8_total p 23 a (omega arith) in
    let (offset, e3, short, by) =
      offset_total p (x % 16) tcp protocol a (omega arith) (omega arith) in
    (
      record {
        pkt = p;
        ethhdr = some 0;
        iphdr = some 14;
        tcphdr = some tcp;
        data_len = (ntohs total + 2 ^ 16 - offset) % 2 ^ 16;
        payload = some (14 + offset);
        eth_index = some 12;
        pkt_len = ntohs total;
        time = now;
      },
      rw (e, e', e'', e3),
      record {
        tcp = tcp;
        offset = offset;
        same_bytes = refl;
        ip_header = refl;
        tcp_header = refl;
        inside = omega arith;
        behind_ip = (omega arith, omega arith);
        payload_at = refl;
        short_headers = short;
        rest = refl;
        whole = omega arith;
      },
      record {
        first = x;
        first_at = e;
        behind_first = refl;
        total = total;
        total_at = e';
        total_is = refl;
        protocol = protocol;
        protocol_at = e'';
        behind_second = elim by [
          | inl (is_tcp, y, at, far) ↦ inl (is_tcp, y, at, omega (arith, far))
          | inr (other, far) ↦ inr (other, omega (arith, far))
        ];
      },
    )

-- For a frame whose total length covers its headers, the size that an append of the payload gets is
-- what is left of the total length, if that is below 2 ^ 15.
pub data_len-size :
    (p : Bytes) (v : CFormatPacket) (w : IsView p v)
    → w.offset ≤ v.pkt_len
    → v.pkt_len - w.offset < 2 ^ 15
    → size_of_int16 (get_data_len v) ≡ v.pkt_len - w.offset
unfolding get_data_len
data_len-size p v w covered fits =
    let left : v.data_len ≡ v.pkt_len - w.offset = omega (arith, w.rest, w.whole) in
    let low : ltb v.data_len (2 ^ 15) ≡ true = ground arith in rw low left

-- For a frame whose total length is shorter than its headers, the size is as far below 2 ^ 64 as
-- the headers are too long.
pub data_len_short :
    (p : Bytes) (v : CFormatPacket) (w : IsView p v)
    → v.pkt_len < w.offset
    → size_of_int16 (get_data_len v) ≡ 2 ^ 64 - (w.offset - v.pkt_len)
unfolding get_data_len
data_len_short p v w short =
    let left : v.data_len ≡ 2 ^ 16 - (w.offset - v.pkt_len) = omega (arith, w.rest, w.whole) in
    let high : ltb v.data_len (2 ^ 15) ≡ false = ground (arith, w.short_headers) in
    rw high (omega (arith, w.short_headers))

-- The bytes `xs` stand in `p` from `i` on.
abbrev pub At : Bytes → ℕ → Bytes → Type 0
At p i [] = Unit {0}
At p i (x ∷ xs) = (load8 p i ≡ ok x) × (x < 256) × At p (i + 1) xs
