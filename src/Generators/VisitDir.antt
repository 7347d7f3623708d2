-- ===== src/Generators/VisitDir.antt =====
-- What the generators of generators/edward.go, docker.go, go.go, icbm.go and procfile.go do in a
-- directory, on what they have found. Reading directories and files is an argument.
use edward.Base.{
  ℕ, false, not, ◌||◌, Option, none, some, List, [], ◌∷◌, ◌++◌, Result, ok, err, ◌>>=◌,
  if◌then◌else◌, map,
}
use edward.Base.Text.{Text, codes, text_eq, has_substring, contains}
use edward.Services.{ServiceConfig, LaunchChecks}
use edward.Groups.{Group, node, nil}
use edward.Config.{FilePath}
use edward.Generators.{Visit, visited, skip_dir, skip_all, visit_failed}
use edward.Generators.Matches.{
  scan_lines, split_colon, trim_space, exposed, atoi, play_names, java_names, ext, join_texts,
}

pub data Presence : Type 0 where
  there : Presence
  missing : Presence
  unreadable : Text → Presence

-- The files: the names in a directory, of which an error of reading it is not looked at, whether a
-- file is there, what is in a file, and what is read of an opened file before an error ends it.
pub record Files : Type 0 where
  pub base : Text → Text
  pub names : Text → List Text
  pub stat : Text → Presence
  pub read_file : Text → Result Text Text
  pub open_file : Text → Result Text (Text × Option Text)

-- A service with the fields that the generators set.
unfoldable pub new_service : Text → Text → Text → Text → Option LaunchChecks → ServiceConfig
new_service name path build launch checks = record {
  name = name;
  aliases = [];
  description = [];
  path = some path;
  requires_sudo = false;
  commands = record { build = build; launch = launch; stop = [] };
  launch_checks = checks;
  env = [];
  platform = [];
  watch_json = [];
  warmup = none;
  config_file = [];
  lock_token = [];
}

-- What is appended to the services, if there is any, and with it the result of the visit.
abbrev pub keep :
    Visit Text
    → Result Text (List ServiceConfig)
    → List ServiceConfig
    → Visit Text × List ServiceConfig
keep v (ok new) found = (v, found ++ new)
keep v (err e) found = (visit_failed e, found)

module _ (fp : FilePath) (files : Files) where
  abbrev pub keep_import : Result Text Text → List Text → Visit Text × List Text
  keep_import (ok rel) found = (skip_all, found ++ rel ∷ [])
  keep_import (err e) found = (visit_failed e, found)

  unfoldable pub visit_edward : Text → Text → List Text → Visit Text × List Text
  unfolding text_eq contains
  visit_edward base_path path found =
      if text_eq path base_path || not (contains (codes "edward.json") (files.names path))
      then (visited, found)
      else keep_import (fp.rel base_path (fp.join path (codes "edward.json"))) found

  -- `getPorts`
  unfoldable pub ports_of : List Text → Result Text (List ℕ)
  unfolding atoi
  ports_of [] = ok []
  ports_of (p ∷ ps) = do port ← atoi p; ports ← ports_of ps; ok (port ∷ ports)

  abbrev pub port_command : Text → Text
  port_command p = codes "-p " ++ p ++ codes ":" ++ p

  unfoldable pub get_ports : Text → Result Text (List ℕ × List Text)
  unfolding exposed ports_of
  get_ports path = do
    input ← files.read_file path
    let matched = exposed input
    ports ← ports_of matched
    ok (ports, map port_command matched)

  unfoldable pub docker_service : Text → Text → Result Text (List ServiceConfig)
  unfolding get_ports new_service join_texts
  docker_service base_path path = do
    rel ← fp.rel base_path path
    ports ← get_ports (fp.join path (codes "Dockerfile"))
    let name = files.base path
    let tag = name ++ codes ":edward"
    ok (
        new_service name rel (codes "docker build -t " ++ tag ++ codes " .")
          (codes "docker run " ++ join_texts (codes " ") ports.1 ++ codes " " ++ tag)
          (some (record { log_text = []; ports = ports.0; wait = 0 }))
        ∷ [])

  unfoldable pub visit_docker : Text → Text → List ServiceConfig → Visit Text × List ServiceConfig
  unfolding contains docker_service
  visit_docker base_path path found =
      if contains (codes "Dockerfile") (files.names path)
      then keep visited (docker_service base_path path) found
      else (visited, found)

  -- One file of the loop of the Go generator, and the files after it where it has no main package.
  unfoldable pub go_file :
      Text → Text → Text → Result Text (List ServiceConfig) → Result Text (List ServiceConfig)
  unfolding has_substring new_service
  go_file base_path path name rest = do
    input ← files.read_file (fp.join path name)
    if has_substring input (codes "package main" ++ 10 ∷ [])
        then (do
          rel ← fp.rel base_path path
          ok (new_service (files.base path) rel (codes "go install") (files.base path) none ∷ []))
        else rest

  unfoldable pub go_services : Text → Text → List Text → Result Text (List ServiceConfig)
  unfolding text_eq ext go_file
  go_services base_path path [] = ok []
  go_services base_path path (name ∷ names) =
      let rest = go_services base_path path names in
      if text_eq (ext (fp.join path name)) (codes ".go")
      then go_file base_path path name rest
      else rest

  unfoldable pub visit_go : Text → Text → List ServiceConfig → Visit Text × List ServiceConfig
  unfolding go_services
  visit_go base_path path found = keep visited (go_services base_path path (files.names path)) found

  unfoldable pub play_service : Text → Text → ServiceConfig
  unfolding new_service
  play_service path name =
      new_service name path (codes "python tools/icbm/build.py :" ++ name ++ codes "_dev")
        (codes "thirdparty/play/play test src/com/yext/" ++ name) none

  unfoldable pub java_service : Text → Text → ServiceConfig
  unfolding new_service
  java_service path name =
      new_service name path (codes "python tools/icbm/build.py :" ++ name)
        (codes "build/" ++ name ++ codes "/" ++ name) none

  unfoldable pub icbm_services : Text → Text → Result Text (List ServiceConfig)
  unfolding play_service java_service play_names java_names
  icbm_services base_path path = do
    spec ← files.read_file (fp.join path (codes "build.spec"))
    rel ← fp.rel base_path path
    ok (map (play_service rel) (play_names spec) ++ map (java_service rel) (java_names spec))

  unfoldable pub visit_icbm : Text → Text → List ServiceConfig → Visit Text × List ServiceConfig
  unfolding icbm_services
  visit_icbm base_path path found = elim (files.stat (fp.join path (codes "build.spec"))) [
    | there ↦ keep skip_dir (icbm_services base_path path) found
    | missing ↦ (visited, found)
    | unreadable e ↦ (visit_failed e, found)
  ]

  -- The service of a line `name: command`, or none.
  unfoldable pub process : Text → Text → Text → Option ServiceConfig
  unfolding split_colon new_service
  process group rel line = elim (split_colon line) [
    | none ↦ none
    | some (name, run) ↦
        some (new_service (group ++ codes "-" ++ name) rel [] (trim_space run) none)
  ]

  unfoldable pub processes : Text → Text → List Text → List ServiceConfig
  unfolding process
  processes group rel [] = []
  processes group rel (line ∷ lines) =
      let rest = processes group rel lines in
      elim (process group rel line) [ none ↦ rest | some s ↦ s ∷ rest ]

  -- The lines that the scanner gives, unless reading, or a line too long, ends it with an error.
  unfoldable pub all_lines : Text × Option Text → Result Text (List Text)
  unfolding scan_lines
  all_lines (input, read_error) = elim (scan_lines input) [
    | none ↦ err (codes "bufio.Scanner: token too long")
    | some lines ↦ elim read_error [ none ↦ ok lines | some e ↦ err e ]
  ]

  abbrev pub process_group : Text → List ServiceConfig → Group
  process_group name ss =
      node (record { name = name; aliases = []; description = []; child_order = []; env = [] }) ss
        nil

  unfoldable pub procfile_group : Text → Text → Result Text (List ServiceConfig)
  unfolding all_lines processes
  procfile_group base_path path = do
    rel ← fp.rel base_path path
    input ← files.open_file (fp.join path (codes "Procfile"))
    lines ← all_lines input
    ok (processes (files.base path) rel lines)

  -- The services and the group of a Procfile, which are appended together.
  abbrev pub keep_group :
      Text
      → Result Text (List ServiceConfig)
      → List ServiceConfig
      → List Group
      → Visit Text × (List ServiceConfig × List Group)
  keep_group name (ok new) found groups =
      (visited, (found ++ new, groups ++ process_group name new ∷ []))
  keep_group name (err e) found groups = (visit_failed e, (found, groups))

  unfoldable pub visit_procfile :
      Text → Text → List ServiceConfig → List Group → Visit Text × (List ServiceConfig × List Group)
  unfolding procfile_group
  visit_procfile base_path path found groups = elim (files.stat (fp.join path (codes "Procfile"))) [
    | there ↦ keep_group (files.base path) (procfile_group base_path path) found groups
    | missing ↦ (visited, (found, groups))
    | unreadable e ↦ (visit_failed e, (found, groups))
  ]
