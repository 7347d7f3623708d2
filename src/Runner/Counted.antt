-- ===== src/Runner/Counted.antt =====
-- The counter of `commandWait` in runner/runner.go, on which `Run` waits.
use edward.Base.{ℕ, suc, ◌+◌, ◌≡◌, Bool, none, List, [], ◌∷◌, if◌then◌else◌}
use edward.Base.Text.{Text}
use edward.Runner.{Running, Runner, History, begin_run}

-- The commands that have not ended.
unfoldable pub live : List Running → ℕ
live [] = 0
live (c ∷ cs) = let rest = live cs in if c.done then rest else suc rest

-- The counter stands at the live commands and `n` more.
abbrev pub IsCounted : Runner → ℕ → Type 0
IsCounted r n = r.count ≡ live r.commands + n

-- A runner from its parts.
abbrev runner_of : List Running → ℕ → Bool → Runner
runner_of cs count panicked = record { commands = cs; count = count; panicked = panicked }

-- The run of a service that could be started.
abbrev pub begun : History
begun = record { runner = (begin_run none).1; failed_restarts = 0 }
