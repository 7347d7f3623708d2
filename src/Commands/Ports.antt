-- ===== src/Commands/Ports.antt =====
-- The ports that a service is expected to open, in services/command.go: `areAnyListeningPortsOpen`,
-- `waitForListeningPorts`, `hasPort` and `waitForLogText`. A loop that waits is given what it sees in
-- each of its rounds, as a list; `none` is still waiting at the end of it.
use edward.Base.{
  ℕ, ◌≡◌, refl, Bool, true, false, ◌&&◌, Option, none, some, List, [], ◌∷◌, ◌++◌, Result, ok, err,
  arith, if◌then◌else◌, ◌==◌, any, all, any-append,
}
use edward.Base.Text.{Text, has_substring}
use edward.Commands.{
  Connection, Look, cancelled, seen, LogLook, log_cancelled, log_closed, log_text, Process, process,
  Processes, no_more, next, PortLook, port_cancelled, port_seen,
}

abbrev pub is_in : ℕ → List ℕ → Bool
is_in p ports = any (λ q. p == q) ports

-- The loop of `areAnyListeningPortsOpen`.
unfoldable pub any_port_open : List ℕ → List Connection → Bool
any_port_open ports [] = false
any_port_open ports (c ∷ cs) =
    let rest = any_port_open ports cs in
    if c.is_listening then (if is_in c.port ports then true else rest) else rest

abbrev pub checked_ports : List ℕ → Result Text (List Connection) → Result Text Bool
checked_ports ports (err e) = err e
checked_ports ports (ok cs) = ok (any_port_open ports cs)

-- `areAnyListeningPortsOpen`
unfoldable pub are_any_listening_ports_open :
    List ℕ → Result Text (List Connection) → Result Text Bool
unfolding any_port_open
are_any_listening_ports_open ports answer = checked_ports ports answer

unfoldable pub listening_ports : List Connection → List ℕ
listening_ports [] = []
listening_ports (c ∷ cs) =
    let rest = listening_ports cs in if c.is_listening then c.port ∷ rest else rest

abbrev pub WaitResult : Type 0
WaitResult = Option (Option Text)

abbrev pub all_matched : List ℕ → List Connection → Bool
all_matched ports cs = all (λ p. is_in p (listening_ports cs)) ports

-- `waitForListeningPorts`
unfoldable pub wait_for_listening_ports : List ℕ → List Look → WaitResult
unfolding listening_ports
wait_for_listening_ports ports [] = none
wait_for_listening_ports ports (cancelled ∷ looks) = some none
wait_for_listening_ports ports (seen (err e) ∷ looks) = some (some e)
wait_for_listening_ports ports (seen (ok cs) ∷ looks) =
    let rest = wait_for_listening_ports ports looks in
    if all_matched ports cs then some none else rest

unfoldable pub owns_port : ℕ → List Connection → Bool
owns_port pid [] = false
owns_port pid (c ∷ cs) =
    let rest = owns_port pid cs in if c.is_listening && (c.pid == pid) then true else rest

-- `hasPort`
unfoldable mutual
  unfolding owns_port

  pub has_port : Process → List Connection → Bool
  has_port (process pid ps) cs = if owns_port pid cs then true else have_port ps cs

  pub have_port : Processes → List Connection → Bool
  have_port no_more cs = false
  have_port (next p ps) cs = if has_port p cs then true else have_port ps cs

-- `waitForAnyPort`, with the process tree as each round finds it.
unfoldable pub wait_for_any_port : List PortLook → WaitResult
unfolding has_port
wait_for_any_port [] = none
wait_for_any_port (port_cancelled ∷ looks) = some none
wait_for_any_port (port_seen (err e) p ∷ looks) = some (some e)
wait_for_any_port (port_seen (ok cs) (err e) ∷ looks) = some (some e)
wait_for_any_port (port_seen (ok cs) (ok p) ∷ looks) =
    let rest = wait_for_any_port looks in if has_port p cs then some none else rest

-- `waitForLogText`, after the file was opened.
unfoldable pub wait_for_log_text : Text → List LogLook → WaitResult
unfolding has_substring
wait_for_log_text line [] = none
wait_for_log_text line (log_cancelled ∷ looks) = some none
wait_for_log_text line (log_closed ∷ looks) = some none
wait_for_log_text line (log_text text ∷ looks) =
    let rest = wait_for_log_text line looks in if has_substring text line then some none else rest

-- The processes of a tree.
unfoldable mutual
  pub pids : Process → List ℕ
  pids (process pid ps) = pid ∷ all_pids ps

  pub all_pids : Processes → List ℕ
  all_pids no_more = []
  all_pids (next p ps) = pids p ++ all_pids ps

mutual
  unfolding has_port pids

  port_in_tree :
      (p : Process) (cs : List Connection) → has_port p cs ≡ any (λ pid. owns_port pid cs) (pids p)
  port_in_tree (process pid ps) cs = ground (arith, port_in_trees ps cs)

  port_in_trees :
      (ps : Processes) (cs : List Connection)
      → have_port ps cs ≡ any (λ pid. owns_port pid cs) (all_pids ps)
  port_in_trees no_more cs = refl
  port_in_trees (next p ps) cs = ground (
    arith,
    port_in_tree p cs,
    port_in_trees ps cs,
    any-append (λ pid. owns_port pid cs) (pids p) (all_pids ps),
  )

-- A process is found to have a port exactly when it, or a process below it, listens on a port.
pub has_port-any :
    (p : Process) (cs : List Connection) → has_port p cs ≡ any (λ pid. owns_port pid cs) (pids p)
has_port-any = port_in_tree

-- The ports of a service are found in use exactly when one of them is among the listening ones.
pub any_port_open-any :
    (ports : List ℕ) (cs : List Connection)
    → any_port_open ports cs ≡ any (λ p. is_in p ports) (listening_ports cs)
unfolding any_port_open listening_ports
any_port_open-any ports [] = refl
any_port_open-any ports (c ∷ cs) = ground (arith, any_port_open-any ports cs)
