-- ===== src/Cmd/Notices.antt =====
-- What `PersistentPreRunE` of cmd/root.go lets through, and what `PersistentPostRun` prints.
use edward.Base.{
  ◌≡◌, refl, Bool, true, false, not, ◌&&◌, Option, none, some, Result, ok, err, any, arith,
  if◌then◌else◌,
}
use edward.Base.Text.{Text, codes, text_eq}
use edward.Services.{is_nonempty}
use edward.Cmd.{
  Startup, load_config, check_legacy, older_version, start_update_check, pre_run, and_then, Notice,
  no_notice, notice, check_update_available, post_run,
}

-- The notice that is to be printed for what UpdateAvailable returns.
abbrev pub notice_for : Result Text (Bool × Text) → Notice
notice_for (ok (true, latest)) = notice latest
notice_for (ok (false, latest)) = no_notice
notice_for (err e) = no_notice

-- What is printed after a command is the notice of the latest version where UpdateAvailable returned
-- that there is an update, and nothing where it returned none or an error: no read of the channel
-- meets something of another type.
pub post_run-check_update_available :
    (r : Result Text (Bool × Text)) → post_run (some (check_update_available r)) ≡ notice_for r
unfolding post_run check_update_available
post_run-check_update_available (err e) = refl
post_run-check_update_available (ok (false, latest)) = refl
post_run-check_update_available (ok (true, latest)) = refl

module _ {W : Type 0} (startup : Startup W) where
  and_then-none :
      (r : Option Text × W) (next : W → Option Text × W) {v : W}
      → and_then startup r next ≡ (none, v)
      → (u : W) × (r ≡ (none, u)) × (next u ≡ (none, v))
  and_then-none (none, u) next h = (u, refl, h)
  and_then-none (some e, u) next h = cc

  refused-false :
      (refused : Bool) (e : Text) (w : W) {v : W}
      → ◌≡◌ {A = Option Text × W} (if refused then (some e, w) else (none, w)) (none, v)
      → refused ≡ false
  refused-false true e w h = cc
  refused-false false e w h = refl

  -- A command other than `stop` is let through only where the configuration was loaded without an
  -- error, and then no service of it has a legacy pid file.
  pub pre_run-none :
      (flag found command : Text) (w : W) {v : W}
      → text_eq command (codes "stop") ≡ false
      → pre_run startup flag found command w ≡ (none, v)
      → (u : W) × (load_config startup (if is_nonempty flag then flag else found) command w
          ≡ (none, u))
        × (any (startup.has_legacy_pid u) (startup.service_map u) ≡ false)
  unfolding pre_run check_legacy
  pre_run-none flag found command w s h =
      let (u, loaded, rest) =
        and_then-none (load_config startup (if is_nonempty flag then flag else found) command w)
          (λ w.
            and_then startup (check_legacy startup command w) (start_update_check startup command))
          h in
      let (x, checked, more) =
        and_then-none (check_legacy startup command u) (start_update_check startup command) rest in
      let passed =
        refused-false
          (not (text_eq command (codes "stop"))
            && any (startup.has_legacy_pid u) (startup.service_map u))
          (older_version startup) u checked in
      (u, loaded, ground (arith, s, passed))
