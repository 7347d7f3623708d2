-- ===== src/Commands/Lifecycle.antt =====
-- The operations of a service in services/serviceconfig.go: `Build`, `Launch`, `Start`, `Stop` and
-- `Restart`. `enqueue` is what the worker pool does with a job; a pool of size 0 runs it at once. Where
-- an operation goes on with a service after it has loaded its command, it is the service as loaded.
use edward.Base.{false, not, none, some, Result, ok, err, if◌then◌else◌}
use edward.Services.{ServiceConfig, OperationConfig, ContextOverride, is_excluded, merge}
use edward.Groups.{Operation, Outcome}
use edward.Commands.{Host, Fault, World, TaskPath, M, pure, ◌>>=◌, ◌>>◌}
use edward.Commands.Load.{ensure_unlocked, get_command}
use edward.Commands.Build.{build_sync}
use edward.Commands.Launch.{stop_service, start_async}

module _ {S : Type 0} (host : Host S) (enqueue : M S Unit → M S Unit) where
  -- `Build`, with the service after it.
  unfoldable pub build_service :
      OperationConfig → ServiceConfig → ContextOverride → TaskPath → M S ServiceConfig
  unfolding ensure_unlocked is_excluded get_command build_sync
  build_service cfg c o t = do
    ensure_unlocked host c
    if is_excluded cfg c.name
        then pure c
        else (do cmd ← get_command host c o; build_sync host false t cmd; pure cmd.service)

  -- `Launch`
  unfoldable pub launch_service :
      OperationConfig → ServiceConfig → ContextOverride → TaskPath → M S Unit
  unfolding ensure_unlocked is_excluded get_command start_async
  launch_service cfg c o t = do
    ensure_unlocked host c
    if is_excluded cfg c.name
        then pure tt
        else get_command host c o >>= λ cmd. enqueue (start_async host cfg t cmd)

  -- `Start`
  unfoldable pub start_service :
      OperationConfig → ServiceConfig → ContextOverride → TaskPath → M S Unit
  unfolding ensure_unlocked is_excluded build_service launch_service
  start_service cfg c o t = do
    ensure_unlocked host c
    if is_excluded cfg c.name
        then pure tt
        else build_service cfg c o t >>= λ built. launch_service cfg built o t

  -- `Stop`
  unfoldable pub enqueue_stop :
      OperationConfig → ServiceConfig → ContextOverride → TaskPath → M S Unit
  unfolding stop_service
  enqueue_stop cfg c o t = enqueue (stop_service host cfg c o t >>= λ _. pure tt)

  -- `Restart`, which has no use for the pool.
  unfoldable pub restart_service :
      OperationConfig → ServiceConfig → ContextOverride → TaskPath → M S Unit
  unfolding ensure_unlocked get_command merge stop_service build_service start_async
  restart_service cfg c o t = do
    ensure_unlocked host c
    cmd ← get_command host c o
    stopped ← stop_service host cfg cmd.service (merge cmd.overrides o) t
    built ←
        if not cfg.skip_build
        then build_service cfg stopped (merge cmd.overrides o) t
        else pure stopped
    started ← get_command host built (merge cmd.overrides o)
    start_async host cfg t started

-- An operation of a service, as a group calls it.
abbrev pub outcome : {S : Type 0} → Result Fault Unit × World S → Outcome Fault (World S)
outcome (ok tt, w) = (none, w)
outcome (err e, w) = (some e, w)

abbrev pub as_operation :
    {S : Type 0}
    → (ServiceConfig → ContextOverride → TaskPath → M S Unit)
    → ServiceConfig
    → Operation Fault (World S)
as_operation op c o t w = outcome (op c o t w)
