-- ===== src/Handle/Connection.antt =====
-- A whole connection through `CHandle::Process` of Handle.cpp: a request, its response, the end.
use http_decoder.Base.{
  ℕ, ◌+◌, ◌-◌, ◌^◌, ◌<◌, ◌≡◌, ◌≢◌, ◌⊎◌, refl, sym, ap, subst, ◌∙◌, arith, inl, inr, true, ltb, List,
  [], ◌∷◌, ◌++◌, append_assoc, append-nil, Option, none, some, ok, Bytes, Sized, length,
  length-append, fault, unterminated,
}
use http_decoder.Buffer.{buffer_size}
use http_decoder.FormatPacket.{tcp_fin, tcp_rst}
use http_decoder.Handle.Aging.{CHandle}
use http_decoder.Handle.Assembly.{segment, segments, length-segment}
use http_decoder.Handle.Calls.{Call, packets, process_all, process_all-append, process_all-IsValid}
use http_decoder.Handle.Carried.{Carries}
use http_decoder.Handle.Closing.{IsClosing, Exchange, Reports, closing_delivery}
use http_decoder.Handle.Deliveries.{delivery, server_data-Stores, client_data-Stores}
use http_decoder.Handle.Delivery.{IsData, IsEarly, Finds}
use http_decoder.Handle.Opening.{Finds-swap, own_ends, session_for-new, session_for-found}
use http_decoder.Handle.Process.{process-IsValid, process_closing}
use http_decoder.HttpParse.Send.{send}
use http_decoder.HttpParse.{LexicalCast}
use http_decoder.Public.{timeout_check_dur, c2s_match, s2c_match}
use http_decoder.Session.{CSession}
use http_decoder.SessionHash.Insertion.{find-swap}
use http_decoder.SessionHash.Table.{IsValid}
use http_decoder.SessionHash.{CSessionHashTable, Ends, ends_of, swap, find}

-- Memory is given, and no check for old sessions is due.
pub record IsQuiet (last : ℕ) (c : Call) : Type 0 where
  pub sized : Sized c.env.heap
  pub gives : (n : ℕ) → c.env.heap n ≢ none
  pub early : ltb (c.env.check_time - last) timeout_check_dur ≡ true

-- The first packet of the client, of a connection that has no session.
pub record IsRequestCall (h : CHandle) (e : Ends) (c : Call) : Type 0 where
  pub quiet : IsQuiet h.last_time_out_check c
  pub fresh : Bytes
  pub given : c.env.heap buffer_size ≡ some fresh
  pub missing : (find c.env.find_time e h.ses_hash).0 ≡ none
  pub seq : ℕ
  pub is_data : IsData c.packet e seq
  pub new : c.env.junk.seq_no ≢ seq
  pub way : c.info.idt_match_way ≡ c2s_match

-- A packet of the server with another sequence number than the one before.
pub record IsResponseCall (last : ℕ) (e : Ends) (before : ℕ) (c : Call) : Type 0 where
  pub quiet : IsQuiet last c
  pub seq : ℕ
  pub is_data : IsData c.packet (swap e) seq
  pub new : before ≢ seq
  pub way : c.info.idt_match_way ≡ s2c_match

abbrev pub AreResponseCalls : ℕ → Ends → ℕ → List Call → Type 0
AreResponseCalls last e before [] = Unit {0}
AreResponseCalls last e before (c ∷ rest) =
    (w : IsResponseCall last e before c) × AreResponseCalls last e w.seq rest

-- The packet with FIN or RST, from either side.
pub record IsClosingCall (last : ℕ) (e : Ends) (c : Call) : Type 0 where
  pub quiet : IsQuiet last c
  pub fresh : Bytes
  pub given : c.env.heap buffer_size ≡ some fresh
  pub closer : Ends
  pub ends : ends_of c.packet ≡ ok closer
  pub side : (closer ≡ e) ⊎ (closer ≡ swap e)
  pub closing : IsClosing c.packet

-- A session is found by the ends of the closing packet as by those of the connection.
closer-Finds :
    {last : ℕ} {e : Ends} {c : Call} (w : IsClosingCall last e c) (t : CSessionHashTable) (id : ℕ)
    → Finds e t id
    → Finds w.closer t id
closer-Finds {e = e} w t id found = elim w.side [
  | inl same ↦ subst (λ x. Finds x t id) (sym same) found
  | inr other ↦ subst (λ x. Finds x t id) (sym other) (Finds-swap e t id found)
]

find-closer :
    {last : ℕ} {e : Ends} {c : Call} (w : IsClosingCall last e c) (t : CSessionHashTable) (now : ℕ)
    → (find now w.closer t).0 ≡ none
    → (find now e t).0 ≡ none
find-closer {e = e} w t now gone = elim w.side [
  | inl same ↦ subst (λ x. (find now x t).0 ≡ none) same gone
  | inr other ↦
      sym (ap (λ (r : Option ℕ × CSessionHashTable). r.0) (find-swap now e t))
      ∙ subst (λ x. (find now x t).0 ≡ none) other gone
]

module _ (boost : LexicalCast) where
  -- Each `%s` at the end of a call finds a NUL byte.
  abbrev pub AllPrinted : List Call → CHandle → Option ℕ → Type 0
  AllPrinted calls h sesp = process_all boost calls h sesp ≢ fault unterminated

  -- The packets of the server one after another.
  response_calls :
      (calls after : List Call) (h : CHandle) (id seq : ℕ) (e own : Ends) (q r : Bytes)
      (sesp : Option ℕ)
      → AllPrinted (calls ++ after) h sesp
      → Carries h id e own seq q r
      → AreResponseCalls h.last_time_out_check e seq calls
      → length r + length (segments (packets calls)) + 1 < 2 ^ 32
      → (g : CHandle) × (seq' : ℕ) × (value : Option ℕ) × (process_all boost calls h sesp
          ≡ ok (g, [], value))
        × Carries g id e own seq' q (r ++ segments (packets calls))
        × (g.last_time_out_check ≡ h.last_time_out_check)
  unfolding process_all
  response_calls [] after h id seq e own q r sesp printed k all room =
      (h, seq, sesp, refl, subst (Carries h id e own seq q) (sym (append-nil r)) k, refl)
  response_calls (c ∷ rest) after h id seq e own q r sesp printed k (w, all) room =
      let p = c.packet in
      let both = length-append (segment p) (segments (packets rest)) in
      let size = length-segment p w.is_data.whole in
      let (h1, opened, k1, kept) =
        session_for-found c.env p c.info e (swap e) own h id seq q r
          (Finds-swap e h.ses_hash id k.found) k in
      let (g, stored, k2, kept') =
        delivery boost c.env p c.info id e own h h1 seq w.seq q r q (r ++ segment p) sesp opened
          kept k1 w.quiet.early w.is_data w.new
          (server_data-Stores boost c.env p c.info id w.quiet.sized w.quiet.gives e own
            w.is_data.whole w.seq q r w.way (omega (arith, room, both, size)))
          (λ bad. printed (rw (process_all, bad) refl)) in
      let all' = subst (λ n. AreResponseCalls n e w.seq rest) (sym kept') all in
      let (f, seq', value, e', k3, kept2) =
        response_calls rest after g id w.seq e own q (r ++ segment p) (some id)
          (λ bad. printed (rw (process_all, stored) (rw bad refl))) k2 all'
          (omega (arith, room, both, size, length-append r (segment p))) in
      (
        f,
        seq',
        value,
        rw (process_all, stored) (rw e' refl),
        subst (Carries f id e own seq' q) (append_assoc r (segment p) (segments (packets rest))) k3,
        kept2 ∙ kept',
      )

  -- Behind the response packets the closing one has the exchange reported.
  ending :
      (calls : List Call) (final : Call) (h : CHandle) (id seq : ℕ) (e own : Ends) (q : Bytes)
      (sesp : Option ℕ)
      → AllPrinted (calls ++ (final ∷ [])) h sesp
      → Carries h id e own seq q []
      → AreResponseCalls h.last_time_out_check e seq calls
      → IsClosingCall h.last_time_out_check e final
      → (x : Exchange boost q (segments (packets calls))) → IsValid h.ses_hash
      → (g : CHandle) × (s : CSession) × (value : Option ℕ) × (process_all boost
            (calls ++ (final ∷ []))
            h
            sesp
          ≡ ok (g, send boost s, value))
        × Reports boost s own q (segments (packets calls)) x
        × ((now : ℕ) → (find now e g.ses_hash).0 ≡ none)
  unfolding process_all
  ending calls final h id seq e own q sesp printed k all c x valid =
      let (g, seq', value, served, k', kept) =
        response_calls calls (final ∷ []) h id seq e own q [] sesp printed k all
          (omega (arith, x.answers.small)) in
      let early : IsEarly final.env g = rw kept c.quiet.early in
      let (f, s, closed, reports) =
        closing_delivery boost final.env c.quiet.sized c.given final.packet final.info g id seq' e
          c.closer own q (segments (packets calls)) value k' (closer-Finds c g.ses_hash id k'.found)
          early c.ends c.closing x in
      let v = process_all-IsValid boost calls h sesp (g, [], value) served valid in
      let last : process_all boost (final ∷ []) g value ≡ ok (f, send boost s ++ [], value) =
        rw (process_all, closed) refl in
      (
        f,
        s,
        value,
        process_all-append boost calls (final ∷ []) h sesp (g, [], value)
              (f, send boost s ++ [], value) served last
            ∙ rw append-nil refl,
        reports,
        λ now. find-closer c f.ses_hash now (
            process_closing boost final.env final.packet g value
              (record { handle = f; out = send boost s; value = value }) final.info c.closer now
              c.ends (flag c.closing) closed v),
      )
    where
      flag :
          (w : IsClosing final.packet)
          → (tcp_fin final.packet ≡ ok 1) ⊎ (tcp_rst final.packet ≡ ok 1)
      flag w = elim w.closes [
        | inl fin ↦ inl (w.fin_at ∙ ap ok fin)
        | inr rst ↦ inr (w.rst_at ∙ ap ok rst)
      ]

  -- A whole connection has its exchange reported once: `Process` returns on every packet, the only
  -- output is what `Send` makes of one session, at the last packet, and that session has the ends
  -- of the connection with the server that the first info names, both messages as they came, and
  -- in its result what they say. Behind it no session is found for the ends, at whatever time one
  -- looks. The table is valid and has no session for the ends at first. The first packet is one of
  -- the client, the next ones, of which there may be any number, are of the server, and the last
  -- has FIN or RST and comes from either side, with any data or none. Each but the last is whole,
  -- has data, neither FIN nor RST, another sequence number than the packet before, the first than
  -- the one in the memory of the new session, and the info that says its side. The request is the
  -- payload of the first packet, the response that of all packets of the server, and each is a
  -- message as it is written, longer than 10 and shorter than 2 ^ 31 bytes, with a method and a
  -- code that are accepted and one accepted version in both. The allocator gives blocks of the
  -- size asked for, and never refuses; less than two minutes have gone by since the last check for
  -- old sessions; and no `%s` at the end of a call runs on for want of a NUL byte.
  pub connection_reported :
      (first : Call) (calls : List Call) (final : Call) (h : CHandle) (e : Ends) (sesp : Option ℕ)
      → IsValid h.ses_hash
      → (w : IsRequestCall h e first) → AreResponseCalls h.last_time_out_check e w.seq calls
      → IsClosingCall h.last_time_out_check e final
      → (x : Exchange boost (segment first.packet) (segments (packets calls)))
      → AllPrinted (first ∷ (calls ++ (final ∷ []))) h sesp
      → (g : CHandle) × (s : CSession) × (value : Option ℕ) × (process_all boost
            (first ∷ (calls ++ (final ∷ [])))
            h
            sesp
          ≡ ok (g, send boost s, value))
        × Reports boost s
            (own_ends first.info e)
            (segment first.packet)
            (segments (packets calls))
            x
        × ((now : ℕ) → (find now e g.ses_hash).0 ≡ none)
  unfolding process_all
  connection_reported first calls final h e sesp valid w all c x printed =
      let p = first.packet in
      let id = h.ses_hash.next in
      let own = own_ends first.info e in
      let size = length-segment p w.is_data.whole in
      let (h1, opened, k1, kept) =
        session_for-new first.env p first.info e h w.quiet.sized w.given w.is_data.ends valid
          w.missing in
      let (g, stored, k2, kept') =
        delivery boost first.env p first.info id e own h h1 first.env.junk.seq_no w.seq [] []
          (segment p) [] sesp opened kept k1 w.quiet.early w.is_data w.new
          (client_data-Stores boost first.env p first.info id w.quiet.sized w.quiet.gives e own
            w.is_data.whole w.seq [] w.way (omega (arith, size, x.asks.small)))
          (λ bad. printed (rw (process_all, bad) refl)) in
      let all' = subst (λ n. AreResponseCalls n e w.seq calls) (sym kept') all in
      let c' = subst (λ n. IsClosingCall n e final) (sym kept') c in
      let v =
        process-IsValid boost first.env p h sesp (record { handle = g; out = []; value = some id })
          (some first.info) stored valid in
      let (f, s, value, done, reports, gone) =
        ending calls final g id w.seq e own (segment p) (some id)
          (λ bad. printed (rw (process_all, stored) (rw bad refl))) k2 all' c' x v in
      (f, s, value, rw (process_all, stored) (rw done refl), reports, gone)
