-- ===== src/Handle/Deliveries.antt =====
-- A packet with data is stored in its session, by `CHandle::Process` of Handle.cpp.
use http_decoder.Handle.Printing.{print_buffers_cases}
use http_decoder.Base.{
  ℕ, ◌+◌, ◌^◌, ◌<◌, ◌≡◌, ◌≢◌, refl, sym, ap, ◌∙◌, arith, true, false, ltb, ◌&&◌, [], ◌++◌, Option,
  none, some, ok, Bytes, length, ntohl, Sized, fault, unterminated, ◌>>=◌, ◌⊎◌, inl, inr,
}
use http_decoder.Buffer
use http_decoder.Buffer.{CBuffer, contents, get_buf_len}
use http_decoder.FormatPacket.{CFormatPacket}
use http_decoder.Handle.Aging.{CHandle}
use http_decoder.Handle.Assembly.{
  IsWhole, size_of, segment, append_whole, server_data_runs, stamp_request_buf,
}
use http_decoder.Handle.Carried.{
  Carries, Holds-cong, put-Carries, add_request, add_response, length-held,
}
use http_decoder.Handle.Delivery.{IsData, IsEarly, numbered, process_data}
use http_decoder.Handle.{
  Env, payload_bytes, put_session, session_at, session_for, stamp_request, stamp_response,
  by_match_way, client_data, process, print_buffers,
}
use http_decoder.HttpParse.{LexicalCast}
use http_decoder.Public.{c2s_match, s2c_match}
use http_decoder.SessionHash.{CBhvInf, Ends}

module _ (boost : LexicalCast) (env : Env) (p : CFormatPacket) (info : CBhvInf) (id : ℕ)
    (e own : Ends) where
  -- what storing a packet of data makes of a session that holds `q` and `r`
  abbrev pub Stores : ℕ → Bytes → Bytes → Bytes → Bytes → Type 0
  Stores seq q r q' r' =
      (h : CHandle)
      → Carries h id e own seq q r
      → (g : CHandle) × (by_match_way boost env p id info.idt_match_way h ≡ ok (g, [], true))
        × Carries g id e own seq q' r'
        × (g.last_time_out_check ≡ h.last_time_out_check)

  -- A packet that is new to its session, found or made, is numbered and stored.
  pub delivery :
      (h h1 : CHandle) (seq seq' : ℕ) (q r q' r' : Bytes) (sesp : Option ℕ) {e' : Ends}
      → session_for env p info e' h ≡ ok (id, h1)
      → h1.last_time_out_check ≡ h.last_time_out_check
      → Carries h1 id e own seq q r
      → IsEarly env h
      → IsData p e' seq'
      → seq ≢ seq'
      → Stores seq' q r q' r'
      → process boost env p (some info) h sesp ≢ fault unterminated
      → (g : CHandle) × (process boost env p (some info) h sesp
          ≡ ok (record { handle = g; out = []; value = some id }))
        × Carries g id e own seq' q' r'
        × (g.last_time_out_check ≡ h.last_time_out_check)
  delivery h h1 seq seq' q r q' r' sesp opened kept k early d new stores ended =
      let s = session_at h1 id in
      let s' = numbered seq' (ntohl d.ack) s in
      let holds = Holds-cong s s' k.holds refl refl refl refl in
      let (g, stored, k', kept') =
        stores (put_session id s' h1) (put-Carries h1 id e own seq' q r s' k.found refl holds) in
      let differs : s.seq_no ≢ seq' = λ same. new (sym k.holds.seq_is ∙ same) in
      (
        g,
        printed
            (process_data boost env p info h h1 id seq' sesp early d opened differs
              ∙ rw stored refl)
            (print_buffers_cases (session_at g id) k'.holds.buffers),
        k',
        kept' ∙ kept,
      )
    where
      -- the buffers are printed at the end
      printed :
          {g : CHandle}
          → process boost env p (some info) h sesp ≡ (
              print_buffers (session_at g id) >>= λ _.
              ok (record { handle = g; out = []; value = some id }))
          → (print_buffers (session_at g id) ≡ ok tt)
            ⊎ (print_buffers (session_at g id) ≡ fault unterminated)
          → process boost env p (some info) h sesp
            ≡ ok (record { handle = g; out = []; value = some id })
      printed run (inl shown) = run ∙ rw shown refl
      printed run (inr runs_on) = absurd (ended (run ∙ rw runs_on refl))

module _ (boost : LexicalCast) (env : Env) (p : CFormatPacket) (info : CBhvInf) (id : ℕ)
    (sized : Sized env.heap) (gives : (n : ℕ) → env.heap n ≢ none) (e own : Ends)
    (whole : IsWhole p) where
  pub server_data-Stores :
      (seq : ℕ) (q r : Bytes)
      → info.idt_match_way ≡ s2c_match
      → length r + size_of p + 1 < 2 ^ 32
      → Stores boost env p info id e own seq q r q (r ++ segment p)
  unfolding by_match_way
  server_data-Stores seq q r way room h k =
      let s = session_at h id in
      let b = k.holds.buffers in
      let size = (length-held s k.holds).1 in
      let (c, n, stored, v, made) =
        server_data_runs boost env id sized gives p h b.rsp_block whole b.rsp_valid
          (omega (arith, size, room)) in
      let holds = add_response p s own seq q r (segment p) c n k.holds v made in
      (
        _,
        rw (by_match_way, way) stored,
        put-Carries h id e own seq q (r ++ segment p) (record (stamp_response p s) { rsp_buf = c })
            k.found (holds.own_is ∙ sym k.holds.own_is) holds,
        refl,
      )

  pub client_data-Stores :
      (seq : ℕ) (q : Bytes)
      → info.idt_match_way ≡ c2s_match
      → length q + size_of p + 1 < 2 ^ 32
      → Stores boost env p info id e own seq q [] (q ++ segment p) []
  unfolding by_match_way client_data get_buf_len
  client_data-Stores seq q way room h k =
      let s = session_at h id in
      let b = k.holds.buffers in
      let (size, none_left) = length-held s k.holds in
      let open_pair : (ltb 0 s.req_buf.len && ltb 0 s.rsp_buf.len) ≡ false =
        ground (arith, none_left) in
      let t = stamp_request p s in
      let same = stamp_request_buf p s in
      let (c, n, a, v, made) =
        append_whole boost env id sized gives p s.req_buf b.req_block whole b.req_valid
          (omega (arith, size, room)) in
      let a' : Buffer.append env.heap t.req_buf (payload_bytes p) (size_of p) ≡ ok (c, true) =
        ap (λ x. Buffer.append env.heap x (payload_bytes p) (size_of p)) same ∙ a in
      let holds = add_request p s own seq q [] (segment p) c n k.holds v made in
      (
        _,
        rw (by_match_way, way) (rw (client_data, open_pair) (rw a' refl)),
        put-Carries h id e own seq (q ++ segment p) [] (record t { req_buf = c }) k.found
            (holds.own_is ∙ sym k.holds.own_is) holds,
        refl,
      )
