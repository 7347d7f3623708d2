-- ===== src/Commands/Environment.antt =====
-- `Env`, `Getenv` and `constructCommand` of services/command.go, and the environment that StartAsync
-- gives to the process.
use edward.Base.{
  ℕ, zero, suc, ◌≡◌, Option, none, some, List, [], ◌∷◌, ◌++◌, Result, ok, err, arith, if◌then◌else◌,
  length,
}
use edward.Base.Text.{Text, codes, has_prefix}
use edward.CommandLine.{parse_command, ParseError, unclosed_quote, empty_command_line}
use edward.Commands.{ServiceCommand, Exec, Host}

-- `Env`
unfoldable pub env : ServiceCommand → List Text
env c = c.service.env ++ c.overrides.env

unfoldable pub drop : ℕ → Text → Text
drop zero s = s
drop (suc n) [] = []
drop (suc n) (x ∷ s) = drop n s

abbrev pub key_equals : Text → Text
key_equals key = key ++ codes "="

-- `strings.Replace` of the prefix that was found: its first place is the start.
unfoldable pub find_value : Text → List Text → Option Text
unfolding has_prefix drop
find_value key [] = none
find_value key (e ∷ es) =
    let rest = find_value key es in
    if has_prefix e (key_equals key) then some (drop (length (key_equals key)) e) else rest

abbrev pub or_else : Option Text → Text → Text
or_else none text = text
or_else (some value) text = value

abbrev pub or_value : Option Text → Option Text → Option Text
or_value none value = value
or_value (some value) other = some value

-- `Getenv`
unfoldable pub getenv : {S : Type 0} → Host S → ServiceCommand → Text → Text
unfolding find_value
getenv host c key =
    or_else (or_value (find_value key c.overrides.env) (find_value key c.service.env))
      (host.getenv key)

abbrev pub parse_error : ParseError → Text
parse_error (unclosed_quote cmd) = codes "Unclosed quote in command line: " ++ cmd
parse_error empty_command_line = codes "Empty command line"

abbrev pub with_path : {S : Type 0} → Host S → ServiceCommand → Option Text → Option Text
with_path host c none = none
with_path host c (some path) = some (host.expand (getenv host c) path)

abbrev pub parsed :
    {S : Type 0} → Host S → ServiceCommand → Result ParseError (Text × List Text) → Result Text Exec
parsed host c (err e) = err (parse_error e)
parsed host c (ok (program, args)) = ok (record {
  program = program;
  args = args;
  dir = with_path host c c.service.path;
  env = host.environ;
})

-- `constructCommand`: the program has the environment of Edward itself.
unfoldable pub construct_command : {S : Type 0} → Host S → ServiceCommand → Text → Result Text Exec
unfolding getenv parse_command
construct_command host c command =
    parsed host c (parse_command (host.expand (getenv host c) command))

-- The environment of the program that StartAsync runs.
unfoldable pub launch_env : {S : Type 0} → Host S → ServiceCommand → List Text
launch_env host c = (host.environ ++ c.overrides.env) ++ c.service.env

-- What a program reads of an environment: of several entries for a key the last one counts.
unfoldable pub last_value : Text → List Text → Option Text
unfolding find_value
last_value key [] = none
last_value key (e ∷ es) = or_value (last_value key es) (find_value key (e ∷ []))

last_value-append :
    (key : Text) (xs ys : List Text)
    → last_value key (xs ++ ys) ≡ or_value (last_value key ys) (last_value key xs)
unfolding last_value
last_value-append key [] ys = ground arith
last_value-append key (x ∷ xs) ys = ground (arith, last_value-append key xs ys)

-- Where both the overrides and the service give a value for a key, `Getenv`, with which the command
-- lines are expanded, takes that of the overrides, and the program that is started takes that of the
-- service.
pub getenv-last_value :
    {S : Type 0} (host : Host S) (c : ServiceCommand) (key over own : Text)
    → find_value key c.overrides.env ≡ some over
    → last_value key c.service.env ≡ some own
    → (getenv host c key ≡ over) × (last_value key (launch_env host c) ≡ some own)
unfolding getenv launch_env
getenv-last_value host c key over own h k = (
  ground arith,
  ground (arith, last_value-append key (host.environ ++ c.overrides.env) c.service.env),
)
