-- ===== src/Cluster/Schedule.antt =====
-- Runs of the actors with the messages that are delivered.
use http_decoder.Base.{ℕ, Bool, true, false, List, [], ◌∷◌, ◌++◌, ◌≡◌, subst, ok, Bytes}
use http_decoder.Cluster.Letters.{
  Letter, master_start, master_heartbeat, master_check, ssh_start, client_step, client_heartbeat,
}
use http_decoder.Cluster.System.{
  World, receive, is_remote, System, Step, deliver, lose, Reach, later,
}
use http_decoder.Public.Headers.{StringMap}

-- From `s` to `t` the message `l` is delivered, and its receiver sends `sent`.
pub record Delivered (l : Letter) (s t : System) : Type 0 where
  pub world : World
  pub front : List Letter
  pub back : List Letter
  pub sent : List Letter
  pub waits : s.mail ≡ front ++ l ∷ back
  pub received : receive world l s.master ≡ ok (t.master, sent)
  pub left : t.mail ≡ front ++ (back ++ sent)

-- From `s` to `t` a message is lost.
pub record Lost (s t : System) : Type 0 where
  pub letter : Letter
  pub front : List Letter
  pub back : List Letter
  pub waits : s.mail ≡ front ++ letter ∷ back
  pub remote : is_remote letter ≡ true
  pub untouched : t.master ≡ s.master
  pub left : t.mail ≡ front ++ back

abbrev pub to_master : Letter → Bool
to_master master_start = true
to_master (master_heartbeat id cpu) = true
to_master master_check = true
to_master (ssh_start to ip number) = false
to_master (client_step c) = false
to_master (client_heartbeat id) = false

-- From `s` on the master got heartbeats of `ids`, the last one first, and no other message.
pub data Between (s : System) : List ℕ → System → Type 0 where
  still : Between s [] s
  beat :
      {ids : List ℕ} {t u : System} (id : ℕ) (cpu : Bytes)
      → Between s ids t
      → Delivered (master_heartbeat id cpu) t u
      → Between s (id ∷ ids) u
  aside :
      {ids : List ℕ} {t u : System} (l : Letter)
      → Between s ids t
      → to_master l ≡ false
      → Delivered l t u
      → Between s ids u
  lost : {ids : List ℕ} {t u : System} → Between s ids t → Lost t u → Between s ids u

pub Delivered-Step : (l : Letter) (s t : System) → Delivered l s t → Step s t
Delivered-Step l s t d = subst (Step s) (cc) (deliver d.world l d.front d.back d.waits d.received)

pub Lost-Step : (s t : System) → Lost s t → Step s t
Lost-Step s t d = subst (Step s) (cc) (lose d.letter d.front d.back d.waits d.remote)

-- A run that goes on from a reachable state stays in reachable states.
pub Between-Reach :
    (a : StringMap ℕ) (s t : System) (ids : List ℕ) → Reach a s → Between s ids t → Reach a t
Between-Reach a s _ _ r still = r
Between-Reach a s u _ r (beat {ids} {t} id cpu b d) =
    later (Between-Reach a s t ids r b) (Delivered-Step _ t u d)
Between-Reach a s u ids r (aside {t} l b h d) =
    later (Between-Reach a s t ids r b) (Delivered-Step l t u d)
Between-Reach a s u ids r (lost {t} b d) = later (Between-Reach a s t ids r b) (Lost-Step t u d)
