-- ===== src/Generators/KindSamples.antt =====
-- The generators on a small project, and the theorems on their walk at it.
use Prim.Native.String.{String}
use edward.Base.{
  ◌≡◌, refl, true, false, none, some, List, [], ◌∷◌, ◌++◌, ok, err, if◌then◌else◌, ◌||◌,
}
use edward.Base.Text.{Text, codes, text_eq, contains, has_substring, has_prefix}
use edward.Config.{FilePath}
use edward.Services.{ServiceConfig}
use edward.Generators.{Directory, directory, ignored, no_more, next, generate_dir}
use edward.Generators.Matches.{
  exposed, play_names, java_names, scan_lines, ext, atoi, trim_left, trim_right,
}
use edward.Generators.Kinds.{Generator, edward_generator, procfile_generator, visit_at, visit_dir}
use edward.Generators.VisitDir.{Files, there, missing, new_service, process_group}
use edward.Generators.Tree.{Disk, Entry, new_directory, generate_collection, resolve}
use edward.Generators.Imports.{GoTool, remove_subpaths}
use edward.Generators.Grouped.{
  AllGrouped, IsGrouped, group_services, generate_collection-AllGrouped,
}
use edward.Generators.Allowed.{is_allowed, new_directory-is_allowed}

abbrev file_path : FilePath
file_path = record {
  is_abs = λ p. has_prefix p (codes "/");
  join = λ p q. p ++ codes "/" ++ q;
  dir = λ p. p;
  abs = λ p. ok p;
  rel = λ base p. ok p;
}

-- A Procfile in /w, an edward.json in /w/sub, and a link that leads nowhere is not there.
abbrev files : Files
files = record {
  base = λ p. codes "w";
  names =
      λ p. if text_eq p (codes "/w/sub") then codes "edward.json" ∷ [] else codes "Procfile" ∷ [];
  stat = λ p.
      if text_eq p (codes "/w/Procfile") || text_eq p (codes "/w/.edwardignore")
      then there
      else missing;
  read_file = λ p. err (codes "no file");
  open_file = λ p. ok (codes "web: run it" ++ 13 ∷ 10 ∷ codes "# a comment", none);
}

abbrev dir_entry : String → Entry
dir_entry name = record { name = codes name; is_link = false; is_dir = true }

-- The ignore files are texts, which match the paths that have them as a prefix.
abbrev disk : Disk Text
disk = record {
  files = files;
  compile_ignore_file = λ p. ok (codes "/w/old");
  matches_path = λ i p. has_prefix p i;
  read_dir =
      λ p. if text_eq p (codes "/w") then ok (dir_entry "sub" ∷ dir_entry "old" ∷ []) else ok [];
  read_link = λ p. err (codes "no link");
  entry_at = λ p. ok (record { name = codes "w"; is_link = false; is_dir = true });
}

abbrev started : List Generator
started =
    edward_generator (record { error = none; base_path = [] }) []
    ∷ procfile_generator (record { error = none; base_path = [] }) [] []
    ∷ []

abbrev web : ServiceConfig
web = new_service (codes "w-web") (codes "/w") [] (codes "run it") none

abbrev ended : List Generator
ended =
    edward_generator (record { error = none; base_path = codes "/w" })
      (codes "/w/sub/edward.json" ∷ [])
    ∷ procfile_generator (record { error = none; base_path = codes "/w" }) (web ∷ [])
        (process_group file_path files (codes "w") (web ∷ []) ∷ [])
    ∷ []

program : Unit {0}
unfolding text_eq contains has_prefix has_substring generate_dir exposed play_names java_names
    scan_lines ext atoi trim_left trim_right visit_at visit_dir new_directory generate_collection
    IsGrouped AllGrouped group_services resolve is_allowed remove_subpaths
program = tt

ports :
    exposed (codes "FROM x" ++ 10 ∷ codes "EXPOSE 8080" ++ 10 ∷ codes "EXPOSE 80 81")
    ≡ codes "8080" ∷ []
unfolding program
ports = refl

names :
    (play_names (codes "(name=\"a_dev_dev\")") ≡ codes "a_dev" ∷ [])
    × (java_names (codes "name=\"b\", name=\"b-c\", name=\"d\"") ≡ codes "b" ∷ codes "d" ∷ [])
unfolding program
names = (refl, refl)

abbrev tool : GoTool
tool = record { go_list = λ p. some (codes "ab:b"); expand_env = λ p. p; exists = λ p. true }

-- A path whose name begins with another's is dropped, though it is not below it.
prefix_dropped :
    remove_subpaths file_path tool [] (codes "a" ∷ codes "ab" ∷ codes "b" ∷ [])
    ≡ codes "a" ∷ codes "b" ∷ []
unfolding program
prefix_dropped = refl

collection : generate_collection file_path disk 2 (codes "/w") started ≡ some (none, ended)
unfolding program
collection = refl

generate_collection-AllGrouped_example : AllGrouped ended
unfolding program
generate_collection-AllGrouped_example =
    generate_collection-AllGrouped file_path disk 2 (codes "/w") started (tt, (refl, tt)) collection

abbrev built : Directory
built = directory (codes "/w") (next (directory (codes "/w/sub") no_more) (next ignored no_more))

tree : new_directory file_path disk 2 none (codes "/w") ≡ some (ok built)
unfolding program
tree = refl

new_directory-is_allowed_example : is_allowed file_path disk [] built ≡ true
unfolding program
new_directory-is_allowed_example = new_directory-is_allowed file_path disk 2 (codes "/w") tree
