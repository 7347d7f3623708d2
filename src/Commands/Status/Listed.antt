-- ===== src/Commands/Status/Listed.antt =====
-- What `Status` of services/serviceconfig.go lists: which ports, and how many lines.
use edward.Base.{
  ℕ, ◌+◌, ◌≤◌, ◌≡◌, refl, Bool, not, ◌&&◌, ◌||◌, List, [], ◌∷◌, ◌++◌, ◌==◌, length, map, any,
  any-append, arith,
}
use edward.Base.Text.{Text}
use edward.Commands.{ServiceCommand, Host, Connection, Process, process, Processes, no_more, next}
use edward.Commands.Ports.{is_in, pids, all_pids}
use edward.Commands.Status.{
  Inspect, Cache, own_ports, tree_ports, trees_ports, configured_ports, get_ports, running_status,
  count_streams,
}

-- The process listens on the port.
unfoldable pub listens_on : ℕ → List Connection → ℕ → Bool
listens_on p cs pid = any (λ c. c.is_listening && ((c.pid == pid) && (c.port == p))) cs

own_ports-is_in :
    (p : ℕ) (known : List ℕ) (pid : ℕ) (cs : List Connection)
    → is_in p (own_ports known pid cs) ≡ (not (is_in p known) && listens_on p cs pid)
unfolding own_ports listens_on
own_ports-is_in p known pid [] = ground arith
own_ports-is_in p known pid (c ∷ cs) = ground (arith, own_ports-is_in p known pid cs)

mutual
  unfolding tree_ports pids

  tree_is_in :
      (p : ℕ) (known : List ℕ) (cs : List Connection) (t : Process)
      → is_in p (tree_ports known cs t) ≡ (not (is_in p known) && any (listens_on p cs) (pids t))
  tree_is_in p known cs (process pid ps) = ground (
    arith,
    any-append (λ q. p == q) (own_ports known pid cs) (trees_ports known cs ps),
    own_ports-is_in p known pid cs,
    trees_is_in p known cs ps,
  )

  trees_is_in :
      (p : ℕ) (known : List ℕ) (cs : List Connection) (ps : Processes)
      → is_in p (trees_ports known cs ps)
        ≡ (not (is_in p known) && any (listens_on p cs) (all_pids ps))
  trees_is_in p known cs no_more = ground arith
  trees_is_in p known cs (next t ps) = ground (
    arith,
    any-append (λ q. p == q) (tree_ports known cs t) (trees_ports known cs ps),
    any-append (listens_on p cs) (pids t) (all_pids ps),
    tree_is_in p known cs t,
    trees_is_in p known cs ps,
  )

-- The ports that Status lists for a running service, each as text, are those of a list in which a port
-- stands exactly when it is configured for the service, or the service's process or one below it
-- listens on it.
pub running_status-is_in :
    {S : Type 0}
    → (host : Host S) (inspect : Inspect S) (cmd : ServiceCommand) (t : Process) (ms : ℕ)
      (cache : Cache) (s : S)
    → (ports : List ℕ) × ((running_status host inspect cmd t ms cache s).ports
        ≡ map host.itoa ports)
      × ((p : ℕ)
          → is_in p ports
            ≡ (is_in p (configured_ports cmd.service) || any (listens_on p cache) (pids t)))
unfolding get_ports
running_status-is_in host inspect cmd t ms cache s =
    let known = configured_ports cmd.service in
    (
      tree_ports known cache t ++ known,
      refl,
      λ p. ground (
        arith,
        any-append (λ q. p == q) (tree_ports known cache t) known,
        tree_is_in p known cache t,
      ),
    )

-- The lines that getLogCounts counts, of both streams together, are no more than the log has.
pub count_streams-le :
    (decode : Text → Text → Bool × Text) (stream : Text) (lines : List Text)
    → (count_streams decode stream lines).0 + (count_streams decode stream lines).1 ≤ length lines
unfolding count_streams
count_streams-le decode stream [] = omega arith
count_streams-le decode stream (line ∷ lines) =
    ground (arith, count_streams-le decode (decode stream line).1 lines)
