-- ===== src/Cluster/SshWorker.antt =====
-- `ssh_worker` of master.cpp: it runs a command that starts a worker on a host.
use http_decoder.Base.{
  ℕ, ◌-◌, ◌/◌, ◌%◌, ◌^◌, Bool, ◌&&◌, not, List, [], ◌∷◌, ◌++◌, ◌==◌, if◌then◌else◌, Bytes, codes,
  decimal,
}
use http_decoder.Cluster.Letters.{Letter, ssh_start}

unfoldable pub command : Bytes → ℕ → Bytes
command ip number =
    codes "ssh sunmmer@"
    ++ (ip
        ++ (codes " nohup /home/sunmmer/actor/build/bin/client -i "
            ++ (decimal number ++ codes " &")))

-- `-1 != status&&WIFEXITED(status)&&WEXITSTATUS(status)==0` on the bit pattern of an int
unfoldable pub succeeded : ℕ → Bool
succeeded status = not (status == 2 ^ 32 - 1) && (status % 128 == 0 && status / 256 % 256 == 0)

-- The handler, with what `std::system` gives for a command: a failure is tried again later.
unfoldable pub on_ssh_start : (Bytes → ℕ) → ℕ → Bytes → ℕ → List Letter
on_ssh_start system self ip number =
    if succeeded (system (command ip number)) then [] else ssh_start self ip number ∷ []
