-- ===== src/Handle/Process.antt =====
-- `CHandle::Process` of Handle.cpp and the table of sessions.
use http_decoder.Base.{
  ℕ, ◌≡◌, ◌⊎◌, inl, inr, refl, ap, subst, arith, Bool, true, Bool-cases, ◌||◌, List, Option, none,
  some, ◌==◌, Outcome, ok, >>=-eq-ok, Option-cases, ntohl, subst₂,
}
use http_decoder.FormatPacket.{CFormatPacket, tcp_fin, tcp_rst, tcp_seq, tcp_ack_seq, get_data_len}
use http_decoder.Handle.Aging.{CHandle, Step, parse_at, time_out_check}
use http_decoder.Handle.Timeouts.{time_out_check-IsValid}
use http_decoder.Handle.{
  Env, put_session, session_at, session_for, close_session, take_data, continue_session, assemble,
  process, print_stored,
}
use http_decoder.HttpParse.Send.{Output}
use http_decoder.HttpParse.{LexicalCast}
use http_decoder.SessionHash.Insertion.{create-find}
use http_decoder.SessionHash.Operations.{
  find-IsValid, remove-IsValid, find-remove, find-some, find-none,
}
use http_decoder.SessionHash.Table.{IsValid}
use http_decoder.SessionHash.{
  CBhvInf, CSessionHashTable, Ends, ends_of, find, remove, create, first_same, is_same_ses,
  hash_val,
}
use http_decoder.Handle.Branches.{
  same_handle, parse_at-IsValid, put_session-IsValid, unchanged-IsValid, by_match_way-IsValid,
}

same_found :
    {h g : CHandle} {n id : ℕ} → ◌≡◌ {A = Outcome (ℕ × CHandle)} (ok (n, h)) (ok (id, g)) → h ≡ g
same_found e = cc

same_step : {q r : Step (Option ℕ)} → ok q ≡ ok r → q ≡ r
same_step e = cc

session_for-IsValid :
    (env : Env) (p : CFormatPacket) (info : CBhvInf) (e : Ends) (h g : CHandle) (id : ℕ)
    → ends_of p ≡ ok e
    → session_for env p info e h ≡ ok (id, g)
    → IsValid h.ses_hash
    → IsValid g.ses_hash
unfolding session_for
session_for-IsValid env p info e h g id ends got v =
    elim (Option-cases
      (first_same (is_same_ses e) h.ses_hash.objects (h.ses_hash.cseshash (hash_val e)))) [
        | inl missing ↦
            let unfound = find-none env.find_time e h.ses_hash missing in
            let missed : (find env.find_time e h.ses_hash).0 ≡ none =
              ap (λ (r : Option ℕ × CSessionHashTable). r.0) unfound in
            let unchanged : (find env.find_time e h.ses_hash).1 ≡ h.ses_hash =
              ap (λ (r : Option ℕ × CSessionHashTable). r.1) unfound in
            let ((n, u), created, last) =
              >>=-eq-ok (create env.heap env.junk env.create_time p info h.ses_hash) _
                (rw (session_for, missed, unchanged) at got) in
            let same : record h { ses_hash = u } ≡ g = cc last in
            let (_, _, _, v') =
              create-find env.heap env.junk env.create_time 0 p info e h.ses_hash v ends
                (ap (λ (r : Option ℕ × CSessionHashTable). r.0)
                  (find-none env.create_time e h.ses_hash missing))
                created in
            subst (λ x. IsValid x.ses_hash) same v'
        | inr (n, met) ↦
            let found = find-some env.find_time e h.ses_hash n met in
            let same : record h { ses_hash = (find env.find_time e h.ses_hash).1 } ≡ g =
              same_found (rw (session_for, found) at got) in
            subst (λ x. IsValid x.ses_hash) same (find-IsValid env.find_time e h.ses_hash v)
      ]

module _ (boost : LexicalCast) (env : Env) (p : CFormatPacket) (info : CBhvInf) (id : ℕ)
    (h g : CHandle) (out : List Output) (stored : Bool) where
  close_session-IsValid :
      (e : Ends)
      → close_session boost env p info id e h ≡ ok (g, out, stored)
      → IsValid h.ses_hash
      → IsValid g.ses_hash × ((now : ℕ) → (find now e g.ses_hash).0 ≡ none)
  unfolding close_session
  close_session-IsValid e c v =
      let ((m, o), parsed, last) = >>=-eq-ok (parse_at boost env.heap id h) _ c in
      let same : record m { ses_hash = remove e m.ses_hash } ≡ g = same_handle last in
      let v' = parse_at-IsValid boost env.heap id h m o parsed v in
      subst (λ x. IsValid x.ses_hash × ((now : ℕ) → (find now e x.ses_hash).0 ≡ none)) same
        (remove-IsValid e m.ses_hash v', λ now. find-remove now e m.ses_hash v')

  take_data-IsValid :
      take_data boost env p info id h ≡ ok (g, out, stored)
      → IsValid h.ses_hash
      → IsValid g.ses_hash
  unfolding take_data
  take_data-IsValid c v =
      let (seq, _, more) = >>=-eq-ok (tcp_seq p) _ c in
      let (ack, _, last) = >>=-eq-ok (tcp_ack_seq p) _ more in
      let s = record (session_at h id) { seq_no = ntohl seq; ack_seq_no = ntohl ack } in
      by_match_way-IsValid boost env p id (put_session id s h) g out stored info.idt_match_way last
        (put_session-IsValid id s h refl v)

  continue_session-IsValid :
      continue_session boost env p info id h ≡ ok (g, out, stored)
      → IsValid h.ses_hash
      → IsValid g.ses_hash
  unfolding continue_session
  continue_session-IsValid c v =
      let (seq, _, more) = >>=-eq-ok (tcp_seq p) _ c in
      elim (Bool-cases ((session_at h id).seq_no == ntohl seq)) [
        | inl again ↦ unchanged-IsValid boost env p id h g out stored (rw again at more) v
        | inr new ↦ elim (Bool-cases (get_data_len p == 0)) [
          | inl empty ↦ unchanged-IsValid boost env p id h g out stored (rw (new, empty) at more) v
          | inr full ↦ take_data-IsValid (rw (new, full) at more) v
        ]
      ]

  assemble-IsValid :
      (e : Ends)
      → assemble boost env p info id e h ≡ ok (g, out, stored)
      → IsValid h.ses_hash
      → IsValid g.ses_hash
  unfolding assemble
  assemble-IsValid e c v =
      let (fin, _, more) = >>=-eq-ok (tcp_fin p) _ c in
      let (rst, _, last) = >>=-eq-ok (tcp_rst p) _ more in
      elim (Bool-cases (fin == 1 || rst == 1)) [
        | inl closing ↦ (close_session-IsValid e (rw closing at last) v).0
        | inr goes_on ↦ continue_session-IsValid (rw goes_on at last) v
      ]

  assemble_closing :
      (e : Ends)
      → (tcp_fin p ≡ ok 1) ⊎ (tcp_rst p ≡ ok 1)
      → assemble boost env p info id e h ≡ ok (g, out, stored)
      → IsValid h.ses_hash
      → (now : ℕ) → (find now e g.ses_hash).0 ≡ none
  unfolding assemble
  assemble_closing e flag c v =
      let (fin, a, more) = >>=-eq-ok (tcp_fin p) _ c in
      let (rst, b, last) = >>=-eq-ok (tcp_rst p) _ more in
      let closing : (fin == 1 || rst == 1) ≡ true = ground arith in
      (close_session-IsValid e (rw closing at last) v).1

module _ (boost : LexicalCast) (env : Env) (p : CFormatPacket) (h : CHandle) (sesp : Option ℕ)
    (r : Step (Option ℕ)) where
  -- Whatever packet `Process` is given, with the info that it belongs to or without one, a table of
  -- sessions that was valid is valid after it, if it returns.
  pub process-IsValid :
      (info : Option CBhvInf)
      → process boost env p info h sesp ≡ ok r
      → IsValid h.ses_hash
      → IsValid r.handle.ses_hash
  unfolding process
  process-IsValid none c v =
      let ((m, o), checked, last) =
        >>=-eq-ok (time_out_check boost env.heap env.check_time h) _ c in
      let same : m ≡ r.handle = cc last in
      subst (λ x. IsValid x.ses_hash) same
        (time_out_check-IsValid boost env.heap env.check_time h m o checked v)
  process-IsValid (some i) c v =
      let ((m, o), checked, ended) =
        >>=-eq-ok (time_out_check boost env.heap env.check_time h) _ c in
      let (e, ends, opened) = >>=-eq-ok (ends_of p) _ ended in
      let ((id, n), found, more) = >>=-eq-ok (session_for env p i e m) _ opened in
      let ((g, o', stored), done, shown) = >>=-eq-ok (assemble boost env p i id e n) _ more in
      let (_, _, last) = >>=-eq-ok (print_stored stored (session_at g id)) _ shown in
      let same : g ≡ r.handle = ap (λ x. x.handle) (same_step last) in
      let aged = time_out_check-IsValid boost env.heap env.check_time h m o checked v in
      subst (λ x. IsValid x.ses_hash) same
        (assemble-IsValid boost env p i id n g o' stored e done
          (session_for-IsValid env p i e m n id ends found aged))

  -- A packet with FIN or RST closes its session: on a valid table, after a `Process` that returns no
  -- session is found for the packet's ends, at whatever time one looks.
  pub process_closing :
      (i : CBhvInf) (e : Ends) (now : ℕ)
      → ends_of p ≡ ok e
      → (tcp_fin p ≡ ok 1) ⊎ (tcp_rst p ≡ ok 1)
      → process boost env p (some i) h sesp ≡ ok r
      → IsValid h.ses_hash
      → (find now e r.handle.ses_hash).0 ≡ none
  unfolding process
  process_closing i e now its_ends flag c v =
      let ((m, o), checked, ended) =
        >>=-eq-ok (time_out_check boost env.heap env.check_time h) _ c in
      let (e', ends, opened) = >>=-eq-ok (ends_of p) _ ended in
      let ((id, n), found, more) = >>=-eq-ok (session_for env p i e' m) _ opened in
      let ((g, o', stored), done, shown) = >>=-eq-ok (assemble boost env p i id e' n) _ more in
      let (_, _, last) = >>=-eq-ok (print_stored stored (session_at g id)) _ shown in
      let same : g ≡ r.handle = ap (λ x. x.handle) (same_step last) in
      let at_e : e' ≡ e = cc in
      let aged = time_out_check-IsValid boost env.heap env.check_time h m o checked v in
      let gone =
        assemble_closing boost env p i id n g o' stored e' flag done
          (session_for-IsValid env p i e' m n id ends found aged) in
      subst₂ (λ x y. (now : ℕ) → (find now x y.ses_hash).0 ≡ none) at_e same gone now
