-- ===== src/Tests/Cluster.antt =====
-- master.cpp and client.cpp with one host: the worker is started, answers, and is checked.
use http_decoder.Base.{
  ℕ, ◌+◌, ◌≡◌, ◌⊎◌, refl, arith, true, List, [], ◌∷◌, ◌++◌, Option, some, ok, Bytes, codes, length,
  replicate, length-replicate, zero, suc,
}
use http_decoder.Cluster.Checking.{restarts}
use http_decoder.Cluster.Client.{
  client_actor, trim, trim_left, trim_right, getcpu, on_step, fgets, line_of, cut_line_feed,
  cut_after, is_at,
}
use http_decoder.Cluster.ConfFile.{
  conf_text, AreLines, IsPlaced, master_main_lines, master_main_long,
}
use http_decoder.Cluster.ConfEnd.{master_main_total}
use http_decoder.Cluster.Connections.{Connections, state_of, insert_state, set_state}
use http_decoder.Cluster.Cpu.{IsText, getcpu_line}
use http_decoder.Cluster.Detection.{missing, second_check}
use http_decoder.Cluster.Invariant.{starts, checks, is_start, is_check}
use http_decoder.Cluster.Launch.{master_main, client_main}
use http_decoder.Cluster.Letters.{
  Letter, master_start, master_heartbeat, master_check, ssh_start, client_step, client_heartbeat,
}
use http_decoder.Cluster.Master.{
  MasterActor, master_actor, on_start, start_all, start_instances, on_heartbeat, on_check,
  check_all,
}
use http_decoder.Cluster.SshWorker.{on_ssh_start, succeeded, command}
use http_decoder.Cluster.Texts.{c_string}
use http_decoder.Cluster.Numbered.{Numbered}
use http_decoder.Cluster.Safety.{Works, Reach-no_fault, Reach-one_timer}
use http_decoder.Cluster.Schedule.{Delivered, Delivered-Step, still, beat}
use http_decoder.Cluster.System.{World, receive, System, init, Reach, begin, later}
use http_decoder.Cluster.Timer.{timer_fires}
use http_decoder.Cluster.Trimming.{AllSpace, StartsPlain, EndsPlain, trim_lem}
use http_decoder.Public.Headers.{StringMap}

abbrev hosts : StringMap ℕ
hosts = (codes "h", 0) ∷ []

abbrev line : Bytes
line = codes " 3.5"

abbrev printed : Bytes → Option Bytes
printed command = some (line ++ b'\n' ∷ [])

abbrev world : World
world = record {
  system = λ command. 0;
  comes_up = λ command. true;
  remote_actor = some 0;
  popen = printed;
  tmp = [];
  pid = 7;
}

line-IsText : IsText line
line-IsText = omega arith

world-Works : Works world
world-Works = record {
  master = 0;
  connects = refl;
  line = line;
  rest = [];
  prints = refl;
  is_text = line-IsText;
  fits = omega arith;
}

abbrev master_at : Connections → MasterActor
master_at c = record { ssh_actors = hosts; counter = 1; conn_state = c }

abbrev launch : Letter
launch = ssh_start 0 (codes "h") 1

abbrev next_step : Letter
next_step = client_step (client_actor 1)

abbrev heartbeat : Letter
heartbeat = master_heartbeat 1 (codes "3.5")

-- the start is received, then the command is run, then the client steps
abbrev after_start : System
after_start = record { master = master_at ((1, 1) ∷ []); mail = launch ∷ master_check ∷ [] }

abbrev after_launch : System
after_launch = record { master = master_at ((1, 1) ∷ []); mail = master_check ∷ next_step ∷ [] }

abbrev after_step : System
after_step = record {
  master = master_at ((1, 1) ∷ []);
  mail = master_check ∷ next_step ∷ heartbeat ∷ [];
}

-- a check, the heartbeat, and another check
abbrev after_check : System
after_check = record {
  master = master_at ((1, 1) ∷ []);
  mail = next_step ∷ heartbeat ∷ launch ∷ master_check ∷ [];
}

abbrev after_beat : System
after_beat = record {
  master = master_at ((1, 0) ∷ []);
  mail = next_step ∷ launch ∷ master_check ∷ client_heartbeat 1 ∷ [];
}

abbrev after_second : System
after_second = record {
  master = master_at ((1, 1) ∷ []);
  mail = next_step ∷ launch ∷ client_heartbeat 1 ∷ master_check ∷ [];
}

start_received : Delivered master_start (init hosts) after_start
unfolding receive on_start start_all start_instances insert_state
start_received = record {
  world = world;
  front = [];
  back = [];
  sent = launch ∷ master_check ∷ [];
  waits = refl;
  received = refl;
  left = refl;
}

launch_received : Delivered launch after_start after_launch
unfolding receive on_ssh_start succeeded command client_main
launch_received = record {
  world = world;
  front = [];
  back = master_check ∷ [];
  sent = next_step ∷ [];
  waits = refl;
  received = refl;
  left = refl;
}

step_received : Delivered next_step after_launch after_step
unfolding receive on_step getcpu fgets line_of cut_line_feed cut_after is_at c_string trim trim_left
    trim_right
step_received = record {
  world = world;
  front = master_check ∷ [];
  back = [];
  sent = next_step ∷ heartbeat ∷ [];
  waits = refl;
  received = refl;
  left = refl;
}

check_received : Delivered master_check after_step after_check
unfolding receive on_check check_all
check_received = record {
  world = world;
  front = [];
  back = next_step ∷ heartbeat ∷ [];
  sent = launch ∷ master_check ∷ [];
  waits = refl;
  received = refl;
  left = refl;
}

beat_received : Delivered heartbeat after_check after_beat
unfolding receive on_heartbeat state_of set_state
beat_received = record {
  world = world;
  front = next_step ∷ [];
  back = launch ∷ master_check ∷ [];
  sent = client_heartbeat 1 ∷ [];
  waits = refl;
  received = refl;
  left = refl;
}

second_received : Delivered master_check after_beat after_second
unfolding receive on_check check_all
second_received = record {
  world = world;
  front = next_step ∷ launch ∷ [];
  back = client_heartbeat 1 ∷ [];
  sent = master_check ∷ [];
  waits = refl;
  received = refl;
  left = refl;
}

after_step-Reach : Reach hosts after_step
after_step-Reach =
    later
      (later (later begin (Delivered-Step master_start (init hosts) after_start start_received))
        (Delivered-Step launch after_start after_launch launch_received))
      (Delivered-Step next_step after_launch after_step step_received)

Reach-no_fault_example :
    (r : MasterActor × List Letter) × (receive world heartbeat after_step.master ≡ ok r)
Reach-no_fault_example =
    Reach-no_fault hosts after_step world heartbeat (master_check ∷ next_step ∷ []) [] (omega arith)
      after_step-Reach refl world-Works

second_check_example :
    second_received.sent ≡ restarts hosts (missing (1 ∷ []) 0 1) ++ master_check ∷ []
second_check_example =
    second_check hosts after_step after_check after_beat after_second (1 ∷ []) (omega arith)
      after_step-Reach check_received (beat 1 (codes "3.5") still beat_received) second_received

timer_fires_example :
    (l : Letter) × (t : System) × (is_start l + is_check l ≡ 1)
    × Delivered l after_step t
    × (checks t.mail ≡ 1)
timer_fires_example = timer_fires hosts after_step world (omega arith) after_step-Reach

Reach-one_timer_example :
    Numbered 0 after_step.master.conn_state
    × (((starts after_step.mail ≡ 1)
          × (checks after_step.mail ≡ 0)
          × (length after_step.master.conn_state ≡ 0))
        ⊎ ((starts after_step.mail ≡ 0)
            × (checks after_step.mail ≡ 1)
            × (length after_step.master.conn_state ≡ length hosts)))
Reach-one_timer_example = Reach-one_timer hosts after_step (omega arith) after_step-Reach

abbrev two_lines : List Bytes
two_lines = codes "hb" ∷ codes "ha" ∷ codes "hb" ∷ []

two_lines-AreLines : AreLines two_lines
two_lines-AreLines = omega arith

master_main_lines_example :
    (m : StringMap ℕ) × (master_main (some (conf_text two_lines))
      ≡ ok (master_actor m, master_start ∷ []))
    × IsPlaced two_lines m
master_main_lines_example = master_main_lines two_lines two_lines-AreLines

long-IsText : (n : ℕ) → IsText (replicate n b'a')
long-IsText zero = tt
long-IsText (suc n) = (omega arith, omega arith, long-IsText n)

master_main_long_example :
    (m : StringMap ℕ) × (master_main
        (some (conf_text two_lines ++ (replicate 1000 b'a' ++ codes "b")))
      ≡ ok (master_actor m, master_start ∷ []))
    × IsPlaced two_lines m
master_main_long_example =
    master_main_long two_lines (replicate 1000 b'a') (codes "b") two_lines-AreLines
      (long-IsText 1000) (omega (arith, length-replicate {A = ℕ} 1000 b'a'))

master_main_total_example :
    (m : StringMap ℕ) × (master_main (some (codes "ha")) ≡ ok (master_actor m, master_start ∷ []))
master_main_total_example = master_main_total (some (codes "ha"))

trim_lem_example :
    (front : Bytes) × (back : Bytes) × (codes " 3 5 " ≡ front ++ (trim (codes " 3 5 ") ++ back))
    × AllSpace front
    × AllSpace back
    × StartsPlain (trim (codes " 3 5 "))
    × EndsPlain (trim (codes " 3 5 "))
trim_lem_example = trim_lem (codes " 3 5 ")

getcpu_line_example : getcpu [] printed 7 ≡ ok (trim line)
getcpu_line_example = getcpu_line [] line [] printed 7 refl line-IsText (omega arith)
