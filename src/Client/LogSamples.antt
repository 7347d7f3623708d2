-- ===== src/Client/LogSamples.antt =====
-- Logs of two services in a group, and the theorems on what is followed of them.
use edward.Base.{◌≡◌, refl, true, none, List, [], ◌∷◌, ◌++◌, ok, err, some, if◌then◌else◌}
use edward.Base.Text.{Text, codes, text_eq}
use edward.Services.{ServiceConfig, is_nonempty}
use edward.Services.Fixtures.{a_service}
use edward.Groups.{Group, node, nil, cons, group}
use edward.Client.Logs.{
  LogLine, Logs, to_stderr, to_stdout, follow_service_log, do_follow_service_log, follow_group_log,
  log,
}
use edward.Client.Followed.{follow_service_log-all, services_below}

-- A line of a log is its message, and the time of it its first byte.
abbrev line : Text → LogLine
line text = record {
  name = codes "web";
  time = elim text [ [] ↦ 0 | b ∷ s ↦ b ];
  stream = codes "stdout";
  message = text;
}

abbrev logs : Logs
logs = record {
  parse_log_line = λ text. ok (line text);
  scan_log = λ s.
      ok
        (if text_eq s.name (codes "web") then codes "b" ∷ codes "d" ∷ [] else codes "a" ∷ [], none);
}

abbrev web : ServiceConfig
web = a_service (codes "web")

abbrev both : Group
both =
    node (record { name = codes "all"; aliases = []; description = []; child_order = []; env = [] })
      (web ∷ [])
      (cons
        (node
          (record {
            name = codes "api";
            aliases = [];
            description = [];
            child_order = [];
            env = [];
          })
          (a_service (codes "api") ∷ []) nil)
        nil)

program : Unit {0}
unfolding follow_group_log follow_service_log do_follow_service_log log text_eq is_nonempty
    services_below edward.Base.Text.text_lt edward.Generators.Matches.trim_left
    edward.Generators.Matches.trim_right
program = tt

printed :
    log logs (λ names. ok (group both ∷ [])) (codes "all" ∷ []) (line (codes "c") ∷ [])
    ≡ ok (
        to_stderr (codes "[web]: ")
        ∷ to_stdout (codes "a" ++ 10 ∷ [])
        ∷ to_stderr (codes "[web]: ")
        ∷ to_stdout (codes "b" ++ 10 ∷ [])
        ∷ to_stderr (codes "[web]: ")
        ∷ to_stdout (codes "d" ++ 10 ∷ [])
        ∷ to_stderr (codes "[web]: ")
        ∷ to_stdout (codes "c" ++ 10 ∷ [])
        ∷ [])
unfolding program
printed = refl

follow_service_log-all_example :
    (initial : List LogLine) × (follow_service_log logs web
      ≡ ok (initial, record { service = web; skip_lines = 2 } ∷ []))
    × (initial ++ do_follow_service_log logs 2 (codes "b" ∷ codes "d" ∷ codes "c" ∷ [])
        ≡ line (codes "b") ∷ line (codes "d") ∷ line (codes "c") ∷ [])
unfolding program
follow_service_log-all_example =
    follow_service_log-all logs web (codes "b" ∷ codes "d" ∷ []) (codes "c" ∷ []) refl refl refl
