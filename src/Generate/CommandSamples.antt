-- ===== src/Generate/CommandSamples.antt =====
-- `edward generate` in a directory with one Go program and no configuration, and the theorem at it.
use edward.Base.{ℕ, ◌≡◌, refl, true, false, ltb, none, [], ◌∷◌, ◌++◌, Result, ok, err}
use edward.Base.Text.{Text, codes, text_eq, contains, has_prefix, has_substring}
use edward.Base.Maps.{lookup, keys}
use edward.Services.{is_nonempty}
use edward.Config.{Config}
use edward.Config.Load.{Machine}
use edward.Config.Edit.{empty_config_at}
use edward.Generators.{generators_matching_targets, collected_services, generate_dir}
use edward.Generators.Matches.{ext}
use edward.Generators.Kinds.{name_of, walked, visit_at, visit_dir}
use edward.Generators.VisitDir.{missing}
use edward.Generators.Tree.{Disk, generate_collection, new_directory}
use edward.Generate.{generate}
use edward.Generate.Command.{
  Place, Outcome, said, wrote, CommandError, generate_command, target_path, found_after, finish,
}

abbrev machine : Machine
machine = record {
  paths = record {
    is_abs = λ p. has_prefix p (codes "/");
    join = λ p q. p ++ codes "/" ++ q;
    dir = λ p. codes "/w";
    abs = λ p. ok p;
    rel = λ base p. ok p;
  };
  goos = codes "linux";
  decode = λ path. err (codes "no file");
  versions = record { Version = ℕ; new_version = λ text. none; less_than = λ v w. ltb v w };
}

abbrev disk : Disk Text
disk = record {
  files = record {
    base = λ p. codes "web";
    names = λ p. codes "main.go" ∷ [];
    stat = λ p. missing;
    read_file = λ p. ok (codes "package main" ++ 10 ∷ codes "func main() {}");
    open_file = λ p. err (codes "no file");
  };
  compile_ignore_file = λ p. err (codes "no file");
  matches_path = λ i p. false;
  read_dir = λ p. ok [];
  read_link = λ p. err (codes "no link");
  entry_at = λ p. ok (record { name = codes "w"; is_link = false; is_dir = true });
}

abbrev place : Place
place = record {
  config_path = [];
  getwd = ok (codes "/w");
  has_content = λ p. false;
  write = λ p c. none;
}

program : Unit {0}
unfolding generate_command target_path found_after finish generators_matching_targets
    generate_collection new_directory generate_dir visit_at visit_dir ext has_substring has_prefix
    text_eq contains collected_services generate is_nonempty empty_config_at name_of lookup walked
program = tt

abbrev outcome : Result CommandError Outcome
outcome = generate_command machine disk place 3 [] true [] (codes "go" ∷ [])

abbrev config_of_outcome : Result CommandError Outcome → Config
config_of_outcome (ok (wrote p c)) = c
config_of_outcome (ok (said g)) = empty_config_at []
config_of_outcome (err e) = empty_config_at []

new_keys : keys (config_of_outcome outcome).service_map ≡ codes "web" ∷ []
unfolding program
new_keys = refl
