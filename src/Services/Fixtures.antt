-- ===== src/Services/Fixtures.antt =====
-- Services for the tests of the other modules.
use edward.Base.{false, none, []}
use edward.Base.Text.{Text, codes}
use edward.Services.{ServiceConfig, OperationConfig}

-- A service with the name `name` that is launched by the command line `run`.
abbrev pub a_service : Text → ServiceConfig
a_service name = record {
  name = name;
  aliases = [];
  description = [];
  path = none;
  requires_sudo = false;
  commands = record { build = []; launch = codes "run"; stop = [] };
  launch_checks = none;
  env = [];
  platform = [];
  watch_json = [];
  warmup = none;
  config_file = [];
  lock_token = [];
}

abbrev pub exclude_nothing : OperationConfig
exclude_nothing = record {
  edward_executable = codes "edward";
  exclusions = [];
  no_watch = false;
  skip_build = false;
}
