-- ===== src/Commands/Restore.antt =====
-- What `LoadServiceCommand` and `GetCommand` make of the state file that `save` has written, and of the
-- process that it names: services/command.go and services/serviceconfig.go.
use edward.Base.{
  ℕ, zero, suc, ◌≡◌, ◌≢◌, ◌⊎◌, inl, inr, refl, ap, Bool, true, false, Option, none, some, Result,
  ok, err, if◌then◌else◌,
}
use edward.Base.Text.{Text, has_substring}
use edward.Services.{ServiceConfig, ContextOverride, merge}
use edward.Processes.{int32}
use edward.Locks.{LockError, check_lock, get_pid_path_legacy, get_state_path}
use edward.Commands.{ServiceCommand, Host, Fault, World, M, pure, ◌>>=◌, no_error}
use edward.Commands.Load.{
  clear_state, check_cmdline, check_exists, check_running, check_pid, finish_load, load_legacy,
  load_state, load_service_command, unless_fault, ensure_unlocked, get_command_and_error, save,
  or_panic, blank_command, Loaded, without_state, check_line,
}

module _ {S : Type 0} (host : Host S) where
  -- The process was seen to run, and its command line has the service's name in it.
  abbrev pub IsLive : Text → ℕ → Type 0
  IsLive name pid =
      (s : S) × (line : Text) × ((host.pid_exists pid s).0 ≡ ok true)
      × (host.cmdline pid (host.pid_exists pid s).1 ≡ ok line)
      × (has_substring line name ≡ true)

  -- Of a command that is returned without an error, its pid is 0, or that of such a process.
  abbrev pub IsChecked : Result Fault (Loaded host) → Type 0
  IsChecked (err e) = Unit
  IsChecked (ok (cmd, some e)) = Unit
  IsChecked (ok (cmd, none)) = (cmd.pid ≡ 0) ⊎ IsLive cmd.service.name (int32 cmd.pid)

  -- The same of a whole outcome.
  abbrev AllChecked : Result Fault (Loaded host) × World S → Type 0
  AllChecked r = IsChecked r.0

  named-IsChecked :
      (c : ServiceCommand) (line : Text) (s : S) (w : World S) (b : Bool)
      → has_substring line c.service.name ≡ b
      → (host.pid_exists (int32 c.pid) s).0 ≡ ok true
      → host.cmdline (int32 c.pid) (host.pid_exists (int32 c.pid) s).1 ≡ ok line
      → AllChecked ((if b then pure (c, none) else without_state host c) w)
  unfolding clear_state
  named-IsChecked c line s w true h p l = inr (s, line, p, l, h)
  named-IsChecked c line s w false h p l = inl refl

  check_line-IsChecked :
      (c : ServiceCommand) (s : S) (us : _) (answer : Result Text Text)
      → (host.pid_exists (int32 c.pid) s).0 ≡ ok true
      → host.cmdline (int32 c.pid) (host.pid_exists (int32 c.pid) s).1 ≡ answer
      → AllChecked (
          check_line host c answer
            (record { machine = (host.pid_exists (int32 c.pid) s).1; updates = us }))
  check_line-IsChecked c s us (err e) p l = tt
  check_line-IsChecked c s us (ok line) p l =
      named-IsChecked c line s
        (record { machine = (host.pid_exists (int32 c.pid) s).1; updates = us })
        (has_substring line c.service.name) refl p l

  check_exists-IsChecked :
      (c : ServiceCommand) (s : S) (us : _) (answer : Result Text Bool)
      → (host.pid_exists (int32 c.pid) s).0 ≡ answer
      → AllChecked (
          check_exists host c answer
            (record { machine = (host.pid_exists (int32 c.pid) s).1; updates = us }))
  unfolding check_cmdline clear_state
  check_exists-IsChecked c s us (err e) p = tt
  check_exists-IsChecked c s us (ok true) p =
      check_line-IsChecked c s us (host.cmdline (int32 c.pid) (host.pid_exists (int32 c.pid) s).1) p
        refl
  check_exists-IsChecked c s us (ok false) p = inl refl

  check_running-IsChecked :
      (c : ServiceCommand) (pid : ℕ) (w : World S)
      → c.pid ≡ pid
      → AllChecked (check_running host c pid w)
  check_running-IsChecked c zero w q = inl q
  check_running-IsChecked c (suc pid) w q = rw⁻¹ q (
      check_exists-IsChecked c w.machine w.updates (host.pid_exists (int32 c.pid) w.machine).0 refl)

  finish_load-IsChecked :
      (o : ContextOverride) (cmd : ServiceCommand) (w : World S)
      → AllChecked (finish_load host o cmd w)
  unfolding finish_load check_pid
  finish_load-IsChecked o cmd w =
      check_running-IsChecked
        (record cmd { edward_version = host.version; overrides = merge cmd.overrides o }) cmd.pid w
        refl

  or_panic-IsChecked :
      {A : Type 0}
      → (r : Result Text A) (f : A → M S (Loaded host)) (w : World S)
      → ((a : A) → AllChecked (f a w))
      → AllChecked ((or_panic host r >>= f) w)
  or_panic-IsChecked (ok a) f w k = k a
  or_panic-IsChecked (err e) f w k = tt

  if-IsChecked :
      (b : Bool) (r r' : Result Fault (Loaded host) × World S)
      → AllChecked r
      → AllChecked r'
      → AllChecked (if b then r else r')
  if-IsChecked true r r' p q = p
  if-IsChecked false r r' p q = q

  load_service_command-IsChecked :
      (c : ServiceConfig) (o : ContextOverride) (w : World S)
      → AllChecked (load_service_command host c o w)
  unfolding load_service_command
  load_service_command-IsChecked c o w =
      if-IsChecked (host.exists (get_pid_path_legacy host.paths c) w.machine)
        (load_legacy host c o w)
        (if host.exists (get_state_path host.paths c) w.machine
          then load_state host c o w
          else finish_load host o (blank_command host c) w)
        (or_panic-IsChecked (host.read_file (get_pid_path_legacy host.paths c) w.machine)
          (λ text. or_panic host (host.atoi text) >>= λ pid.
            finish_load host o (record (blank_command host c) { pid = pid }))
          w
          (λ text.
            or_panic-IsChecked (host.atoi text)
              (λ pid. finish_load host o (record (blank_command host c) { pid = pid })) w
              (λ pid. finish_load-IsChecked o (record (blank_command host c) { pid = pid }) w)))
        (if-IsChecked (host.exists (get_state_path host.paths c) w.machine) (load_state host c o w)
          (finish_load host o (blank_command host c) w)
          (or_panic-IsChecked (host.read_file (get_state_path host.paths c) w.machine)
            (λ text. finish_load host o (host.unmarshal text (blank_command host c))) w
            (λ text. finish_load-IsChecked o (host.unmarshal text (blank_command host c)) w))
          (finish_load-IsChecked o (blank_command host c) w))

  unless_fault-IsChecked :
      (c : ServiceConfig) (o : ContextOverride) (e : Option LockError) (w : World S)
      → AllChecked ((unless_fault host e >>= λ _. load_service_command host c o) w)
  unless_fault-IsChecked c o none w = load_service_command-IsChecked c o w
  unless_fault-IsChecked c o (some e) w = tt

  -- Whatever the files of a service hold, the command that GetCommand returns for it without an error has
  -- the pid 0, or a pid which, taken as a number of 32 bits, is that of a process that was seen to run
  -- under a command line with the service's name in it.
  pub get_command_and_error-IsChecked :
      (c : ServiceConfig) (o : ContextOverride) (w : World S)
      → IsChecked (get_command_and_error host c o w).0
  unfolding get_command_and_error ensure_unlocked
  get_command_and_error-IsChecked c o w =
      unless_fault-IsChecked c o (check_lock host.paths c (host.locks w.machine)) w

  no_error-ok :
      (result : Option Text) (w w' : World S)
      → no_error result w ≡ (ok tt, w')
      → (result ≡ none) × (w ≡ w')
  no_error-ok none w w' h = (refl, ap (λ r. r.1) h)
  no_error-ok (some e) w w' h = cc

  write_file-save :
      (c : ServiceCommand) (w w' : World S)
      → save host c w ≡ (ok tt, w')
      → host.write_file (get_state_path host.paths c.service) (host.marshal c) w.machine
        ≡ (none, w'.machine)
  unfolding save
  write_file-save c w w' h =
      let answer =
        host.write_file (get_state_path host.paths c.service) (host.marshal c) w.machine in
      let (e, same) = no_error-ok answer.0 (record w { machine = answer.1 }) w' h in
      λ i. (e i, (same i).machine)

  check_running-ok :
      (c : ServiceCommand) (pid : ℕ) (w : World S) (line : Text)
      → c.pid ≡ pid
      → pid ≢ 0
      → host.pid_exists (int32 pid) w.machine ≡ (ok true, w.machine)
      → host.cmdline (int32 c.pid) w.machine ≡ ok line
      → has_substring line c.service.name ≡ true
      → check_running host c pid w ≡ (ok (c, none), w)
  unfolding check_cmdline
  check_running-ok c zero w line q p runs shown named = absurd (p refl)
  check_running-ok c (suc pid) w line q p runs shown named = rw runs (rw shown (rw named))

  -- The fields of a command that are written to its state file whatever they are, and so are read from
  -- it whatever the command is that it is decoded into. Those of the service are written unless they are
  -- empty, apart from its name.
  pub record IsDecoded (c r : ServiceCommand) : Type 0 where
    pub pid : r.pid ≡ c.pid
    pub config_file : r.config_file ≡ c.config_file
    pub overrides : r.overrides ≡ c.overrides
    pub service_name : r.service.name ≡ c.service.name

  -- After a command was saved, the service is found to run under it: where a file that is written can be
  -- read, decoding gives back the fields that are always encoded, no pid file of an earlier version is
  -- there, and the process of the pid runs under a command line with the service's name in it. The
  -- command that is loaded has the pid and the configuration file of the one that was saved, its
  -- overrides and those of the call merged, and the service that decoding the saved one over that of
  -- the caller has left; the machine is as it was.
  pub load_service_command-save :
      (c : ServiceCommand) (d : ServiceConfig) (o : ContextOverride) (w w' : World S) (line : Text)
      → ((path text : Text) (s s' : S)
          → host.write_file path text s ≡ (none, s')
          → (host.exists path s' ≡ true) × (host.read_file path s' ≡ ok text))
      → IsDecoded c (host.unmarshal (host.marshal c) (blank_command host d))
      → get_state_path host.paths d ≡ get_state_path host.paths c.service
      → c.pid ≢ 0
      → save host c w ≡ (ok tt, w')
      → host.exists (get_pid_path_legacy host.paths d) w'.machine ≡ false
      → host.pid_exists (int32 c.pid) w'.machine ≡ (ok true, w'.machine)
      → host.cmdline (int32 c.pid) w'.machine ≡ ok line
      → has_substring line c.service.name ≡ true
      → load_service_command host d o w' ≡ (
        ok (
          record c {
            service = (host.unmarshal (host.marshal c) (blank_command host d)).service;
            edward_version = host.version;
            overrides = merge c.overrides o;
          },
          none,
        ),
        w',
      )
  unfolding load_service_command finish_load check_pid
  load_service_command-save c d o w w' line disk codec same p saved legacy runs shown named =
      let (there, content) =
        disk (get_state_path host.paths c.service) (host.marshal c) w.machine w'.machine
          (write_file-save c w w' saved) in
      let r = host.unmarshal (host.marshal c) (blank_command host d) in
      rw legacy (
        rw same (
          rw there (
            rw content (
              rw (codec.pid, codec.config_file, codec.overrides)
                (check_running-ok
                  (record c {
                    service = r.service;
                    edward_version = host.version;
                    overrides = merge c.overrides o;
                  })
                  c.pid w' line refl p runs shown (rw codec.service_name named))))))
