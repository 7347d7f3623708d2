-- ===== src/Client/Logs.antt =====
-- edward/log.go and edward/tail.go: the lines of the logs that `edward log` prints, and those that it
-- follows. Opening a log and decoding a line of it are arguments, the lines that are added to a log
-- while it is followed a list; colours are left out.
use edward.Base.{
  ℕ, zero, suc, Bool, Option, none, some, List, [], ◌∷◌, ◌++◌, Result, ok, err, ◌>>=◌, ltb,
  if◌then◌else◌, length,
}
use edward.Base.Text.{Text, codes, text_eq}
use edward.Base.Sort.{sort_by}
use edward.Services.{ServiceConfig, is_nonempty}
use edward.Groups.{Group, Groups, node, nil, cons, Member, service, group, count_services}
use edward.Client.{at_least_one}
use edward.Generators.Matches.{trim_space}

-- `runner.LogLine`, whose time is a number.
pub record LogLine : Type 0 where
  pub name : Text
  pub time : ℕ
  pub stream : Text
  pub message : Text

-- `runner.ParseLogLine`, and the lines that a scanner gives of a service's log, with its error.
pub record Logs : Type 0 where
  pub parse_log_line : Text → Result Text LogLine
  pub scan_log : ServiceConfig → Result Text (List Text × Option Text)

-- `go doFollowServiceLog`: the log, and the number of its lines to skip.
pub record Follower : Type 0 where
  pub service : ServiceConfig
  pub skip_lines : ℕ

-- The initial lines, and the followers that were started.
abbrev pub Followed : Type 0
Followed = List LogLine × List Follower

-- What is printed: the builtin `print` writes to the standard error, `fmt.Printf` to the output.
pub data Printed : Type 0 where
  to_stderr : Text → Printed
  to_stdout : Text → Printed

unfoldable pub print_message : LogLine → Bool → List Printed
unfolding is_nonempty text_eq
print_message line multiple =
    let message = trim_space line.message in
    let said = to_stdout (message ++ 10 ∷ []) ∷ [] in
    let edward = if text_eq line.stream (codes "messages") then codes " (edward)" else [] in
    if is_nonempty message
    then (if multiple
        then to_stderr (codes "[" ++ line.name ++ edward ++ codes "]: ") ∷ said
        else said)
    else []

unfoldable pub print_all : List LogLine → Bool → List Printed
unfolding print_message
print_all [] multiple = []
print_all (line ∷ lines) multiple = print_message line multiple ++ print_all lines multiple

module _ (logs : Logs) where
  -- The loop over the scanner, which a line that cannot be decoded ends with its error.
  unfoldable pub parse_lines : List Text → Result Text (List LogLine)
  parse_lines [] = ok []
  parse_lines (text ∷ texts) = do
    line ← logs.parse_log_line text
    lines ← parse_lines texts
    ok (line ∷ lines)

  abbrev pub or_error : Option Text → List LogLine → Result Text (List LogLine)
  or_error none lines = ok lines
  or_error (some e) lines = err e

  unfoldable pub initial_lines : ServiceConfig → List Text × Option Text → Result Text Followed
  unfolding parse_lines
  initial_lines s (texts, scan_error) = do
    lines ← parse_lines texts
    checked ← or_error scan_error lines
    ok (checked, record { service = s; skip_lines = length texts } ∷ [])

  unfoldable pub follow_service_log : ServiceConfig → Result Text Followed
  unfolding is_nonempty initial_lines
  follow_service_log s =
      if is_nonempty s.commands.launch then logs.scan_log s >>= initial_lines s else ok ([], [])

  -- `doFollowServiceLog`, on the lines of the file in their order: what it sends, until a line that
  -- cannot be decoded ends it.
  unfoldable pub send_lines : List Text → List LogLine
  send_lines [] = []
  send_lines (text ∷ texts) =
      let rest = send_lines texts in
      elim (logs.parse_log_line text) [ ok line ↦ line ∷ rest | err e ↦ [] ]

  unfoldable pub do_follow_service_log : ℕ → List Text → List LogLine
  unfolding send_lines
  do_follow_service_log skip [] = []
  do_follow_service_log zero (text ∷ texts) = send_lines (text ∷ texts)
  do_follow_service_log (suc skip) (text ∷ texts) = do_follow_service_log skip texts

  abbrev pub and_more : Followed → Followed → Followed
  and_more (lines, fs) (more, gs) = (lines ++ more, fs ++ gs)

  unfoldable pub follow_services : List ServiceConfig → Result Text Followed
  unfolding follow_service_log
  follow_services [] = ok ([], [])
  follow_services (s ∷ ss) = do
    here ← follow_service_log s
    rest ← follow_services ss
    ok (and_more here rest)

  unfoldable mutual
    unfolding follow_services

    pub follow_group_log : Group → Result Text Followed
    follow_group_log (node i ss gs) = do
      below ← follow_group_logs gs
      here ← follow_services ss
      ok (and_more below here)

    pub follow_group_logs : Groups → Result Text Followed
    follow_group_logs nil = ok ([], [])
    follow_group_logs (cons g gs) = do
      here ← follow_group_log g
      rest ← follow_group_logs gs
      ok (and_more here rest)

  -- The loop of `Log`.
  unfoldable pub follow_member : Member → Result Text Followed
  unfolding follow_group_log
  follow_member (service s) = follow_service_log s
  follow_member (group g) = follow_group_log g

  unfoldable pub follow_members : List Member → Result Text Followed
  unfolding follow_member
  follow_members [] = ok ([], [])
  follow_members (m ∷ ms) = do
    here ← follow_member m
    rest ← follow_members ms
    ok (and_more here rest)

  -- What `Log` prints, where `arrived` comes through the channel. The order of two lines of one time,
  -- which `sort.Sort` leaves open, is that in which they were read.
  unfoldable pub print_log : List Member → List LogLine → Followed → List Printed
  unfolding sort_by print_all count_services
  print_log ms arrived (lines, fs) =
      let multiple = ltb 1 (count_services ms) in
      print_all (sort_by (λ l. l.time ∷ []) lines) multiple ++ print_all arrived multiple

  unfoldable pub log :
      (List Text → Result Text (List Member))
      → List Text
      → List LogLine
      → Result Text (List Printed)
  unfolding follow_members print_log
  log get_services_or_groups [] arrived = err at_least_one
  log get_services_or_groups (name ∷ names) arrived = do
    ms ← get_services_or_groups (name ∷ names)
    followed ← follow_members ms
    ok (print_log ms arrived followed)
