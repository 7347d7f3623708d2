-- ===== src/Lib.antt =====
-- Edward manages local instances of services for development: it loads a project configuration,
-- resolves the names on its command line to services and groups, and builds, starts and stops them
-- with a pool of workers, while a tree of tasks reports the progress. This library models its core
-- logic and states what makes it correct.
--
-- Base         texts (lists of codes), maps (association lists with one entry per key), sorted lists,
--              results, and the lemmas that the parts share.
-- CommandLine  commandline/parse.go. `parse_command` is ParseCommand: `scan` is its loop over the
--              bytes, `step` and `dispatch` the loop's body, `finish` what follows the loop.
-- Services     the data of services/serviceconfig.go and services/services.go, and those of their
--              functions that loading a configuration uses: `matches`, `validate`,
--              `unmarshal_service`, `matches_platform`, `is_excluded`, `merge`, `is_sudo`.
-- Groups       services/groupconfig.go, CountServices of services/services.go. `build`, `launch`, `stop`,
--              `restart` and `start` are the operations of a group, over what a service's operation
--              does; `ask_group` is Status and Watch. Groups.Plans lists the calls that they make.
-- Config       config/config.go and config/shared.go. Config.Load is LoadConfig: loadContents and its
--              imports, the check of the version, and initMaps, whose three passes are
--              `add_services`, `add_groups` and `link_groups` of Config.Init. Config.Cycles is
--              hasChildCycle. Config.Edit builds and changes configurations, as `edward generate`
--              does. Config.Shared holds the loaded maps and the lookups of every command, Config.Trees
--              the tree of groups that the pointers of a group lead to, and Config.Members what the names
--              of a command stand for.
-- Generators   generators/. Generators.Tree is newDirectory and Generate of a GeneratorCollection, whose
--              walk over the directories is `generate_dir`; Generators.VisitDir and Generators.Kinds are
--              VisitDir of each generator, with the regular expressions in Generators.Matches;
--              Generators.Imports is getImportList. generatorsMatchingTargets of edward/generate.go is
--              here too.
-- Generate     edward/generate.go: `generate` is Client.Generate with filterGenerated and findDuplicates,
--              from what the generators found to the configuration that is written; Generate.Command is
--              the whole of it, with loading, the walk and the file.
-- Tracker      tracker/task.go. A task is a node of a tree, a pointer to it the path of names that
--              leads there, and the calls of the update handler a list.
-- Processes    doStop of services/serviceconfig.go, with interruptProcess, killProcess and waitForTerm:
--              `do_stop`, over the calls of the operating system (`System`). waitForTerm looks every
--              100 ms from 0 to 5 s, in 51 rounds.
-- Locks        the lock of a service in services/serviceconfig.go: `check_lock`, `create_lock`,
--              `obtain_lock` and `delete_lock` are checkLock, createLock, ObtainLock and deleteLock.
-- Commands     services/command.go, warmup/warmup.go, and the operations of a service in
--              services/serviceconfig.go. The machine is a record of calls, `Host`, and an operation a
--              step of the machine and of the updates of tasks, which can fail. Commands.Load is
--              LoadServiceCommand, GetCommand (`get_command_and_error`) and save,
--              Commands.Environment the environment, Commands.Build the programs that are run,
--              Commands.Ports and Commands.Launch the checks of a start, StartAsync and doStop,
--              Commands.Lifecycle Build, Launch, Start, Stop and Restart, Commands.Status is Status.
--              A loop that waits is given what it sees in each of its rounds.
-- Client       edward/client.go, edward/start.go, edward/stop.go and edward/restart.go: Start, Stop and
--              Restart, over the calls of a `Session`. Client.Logs is log.go and tail.go,
--              Client.Lists list.go and status.go, and Client.Targets makes services and groups what
--              the three commands operate on.
-- Cmd          cmd/root.go and cmd/sudo.go: what is done before and after a command. Cmd.Dispatch is what
--              the commands pass on of their flags, completion and Execute. Home is home/home.go.
-- Runner       runner/. `stop_service`, `start_service` and `restart_service` are those of the runner of
--              one service, `run` a sequence of what happens to it while Run waits. Runner.Watching is
--              watch.go, Runner.Logging logging.go and what Run does before it starts the service.
-- Output       output/. `render` lays out the tasks in progress, Output.Completion writes a task that has
--              ended, `auto_round_time` is autoRoundTime on 64-bit integers, and Output.Follower is
--              tasks.go.
-- Updates      updates/updates.go: `update_available` and `find_latest_version_tag` are UpdateAvailable and
--              findLatestVersionTag.
-- Worker       worker/pool.go. A pool is a state of its goroutines and channels, each event one atomic
--              step of one goroutine, and a list of events an interleaving. A job is run, and its
--              error stored, in one step; one call of Enqueue is at its send at a time.
--
-- How they interact: Config loads services (Services) and yields the maps in which Config.Shared
-- resolves the names of a command. The commands then run the operations of the services and groups
-- (Groups, by Config.Members) found there (Client.Targets), as jobs of a Worker pool, and each reports to its Tracker task. A service's
-- operations (Commands.Lifecycle) look at its lock (Locks), load its command, and stop it with Processes;
-- `as_operation` makes them operations as a group calls them. Within an operation a service that
-- loading its command has overwritten is passed on; a group that reaches a service twice takes it as
-- it was configured.
--
-- Bounds and fuel. The recursion of hasChildCycle has fuel for its depth: one more than there are
-- loaded groups. The recursion of the imports has a depth that the caller gives, since files that
-- import each other make it endless in the program; so has that of newDirectory, which links can make
-- endless. The fuel of getConfigPath bounds the number of directories above the working one. The 64-bit
-- integers of the durations are residues modulo 2 ^ 64 in Output, and a pid that is converted to 32 bits
-- is the residue modulo 2 ^ 32 (`int32`); elsewhere numbers are natural numbers, which count what is in
-- memory.
--
-- Parameters: package path/filepath is the record `FilePath`; reading and decoding a file, and
-- comparing versions, are fields of `Machine`; a job's outcome is a function of the job. The order in
-- which Go ranges over a map is an argument wherever it can be observed. The operating system, the
-- network, JSON and os.Expand are the fields of `System`, `Host` and `Inspect`; the comparison of versions
-- and the regular expression are those of `Versions`; what the runner meets when it stops its command is
-- a `Stopping`. Files and directories are `Files` and `Disk`, which holds the package for ignore files.
--
-- Not modelled: operations of the runner that overlap, the declarations of the command line in cmd/,
-- colours, and third-party packages. Stack traces that errors carry are left
-- out.
pub mod Base
pub mod CommandLine
pub mod Services
pub mod Config
pub mod Groups
pub mod Generators
pub mod Generate
pub mod Tracker
pub mod Processes
pub mod Locks
pub mod Commands
pub mod Client
pub mod Cmd
pub mod Home
pub mod Runner
pub mod Output
pub mod Updates
pub mod Worker
