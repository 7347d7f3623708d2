-- ===== src/Commands/Status/Samples.antt =====
-- A process with a child that both listen, and a log of three lines; the theorems at them.
use edward.Base.{ok, map, ℕ, ◌≡◌, refl, Bool, true, false, ◌||◌, List, [], ◌∷◌, any}
use edward.Base.Text.{Text, codes, text_eq}
use edward.Commands.{Connection, Process, process, no_more, next}
use edward.Commands.Ports.{is_in, pids}
use edward.Commands.Status.{Inspect, own_ports, tree_ports, running_status, count_streams}
use edward.Commands.Status.Listed.{listens_on, running_status-is_in}
use edward.Commands.Samples.{Toy, toy, running, on_port, empty}

abbrev sockets : List Connection
sockets =
    record { is_listening = true; port = 80; pid = 7 }
    ∷ record { is_listening = true; port = 8080; pid = 8 }
    ∷ record { is_listening = false; port = 9000; pid = 8 }
    ∷ []

abbrev tree : Process
tree = process 7 (next (process 8 no_more) no_more)

program : Unit {0}
unfolding tree_ports own_ports listens_on pids count_streams text_eq
program = tt

tree_ports-80 : tree_ports (80 ∷ []) sockets tree ≡ 8080 ∷ []
unfolding program
tree_ports-80 = refl

-- A line is its stream here, and an empty one cannot be decoded.
abbrev decode : Text → Text → Bool × Text
decode stream [] = (false, stream)
decode stream (x ∷ line) = (true, x ∷ line)

abbrev inspect : Inspect Toy
inspect = record {
  find_process = λ pid s. ok tree;
  create_time = λ p s. ok 5000;
  decode_stream = decode;
}

-- The service is configured with the port 8080, on which the child listens.
running_status-is_in_example :
    (ports : List ℕ) × ((running_status toy inspect
        (record running { service = on_port })
        tree
        5000
        sockets
        empty.machine).ports
      ≡ map toy.itoa ports)
    × ((p : ℕ) → is_in p ports ≡ (is_in p (8080 ∷ []) || any (listens_on p sockets) (pids tree)))
running_status-is_in_example =
    running_status-is_in toy inspect (record running { service = on_port }) tree 5000 sockets
      empty.machine

abbrev lines : List Text
lines = codes "stdout" ∷ [] ∷ codes "stderr" ∷ []
