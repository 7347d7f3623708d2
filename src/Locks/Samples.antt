-- ===== src/Locks/Samples.antt =====
-- Two processes on one service, and the theorems at them.
use edward.Base.{ℕ, ◌≡◌, ◌≢◌, refl, none, some, List, [], ◌∷◌, ◌++◌}
use edward.Base.Text.{Text, codes, text_eq}
use edward.Services.{ServiceConfig}
use edward.Services.Fixtures.{a_service}
use edward.Locks.{
  Paths, get_lock_path, service_locked, Disk, check_lock, with_token, obtain_lock, delete_lock,
  obtain, unlock, LockEvent, LockRun, lock_run,
}
use edward.Locks.Exclusion.{lock_run-holders, obtain_lock-check_lock}

abbrev paths : Paths
paths = record {
  state_dir = codes "state";
  log_dir = codes "logs";
  pid_dir = codes "pid";
  script_dir = codes "scripts";
  join = λ d p. d ++ (47 ∷ p);
  digest = λ f. f;
}

abbrev web : ServiceConfig
web = a_service (codes "web")

abbrev token_of : ℕ → Text
token_of p = p ∷ []

token_of-distinct : (p q : ℕ) → token_of p ≡ token_of q → p ≡ q
token_of-distinct p q e = cc

token_of-fresh : (p : ℕ) → token_of p ≢ web.lock_token
token_of-fresh p e = cc

-- The second process fails, twice, and obtains the lock when the first has unlocked.
abbrev events : List LockEvent
events =
    obtain 1 (codes "restart") none
    ∷ obtain 2 (codes "stop") none
    ∷ unlock 2
    ∷ unlock 1
    ∷ obtain 2 (codes "stop") none
    ∷ unlock 1
    ∷ []

program : Unit {0}
unfolding text_eq lock_run check_lock get_lock_path
program = tt

abbrev ended : LockRun
ended = lock_run paths web token_of events (record { disk = []; holders = [] })

ended-holders : ended.holders ≡ 2 ∷ []
unfolding program
ended-holders = refl

lock_run-holders_example : ◌≡◌ {A = ℕ} 2 2
unfolding program
lock_run-holders_example =
    lock_run-holders paths web token_of token_of-distinct token_of-fresh events [] 2 2 refl refl

abbrev after_obtain : Disk
after_obtain = (obtain_lock paths none (codes "restart") (codes "0.5") web []).1

abbrev copy : ServiceConfig
copy = with_token (codes "0.5") web

-- The service itself has no token.
obtain_lock-check_lock_example :
    (check_lock paths web after_obtain ≡ some (service_locked (codes "restart")))
    × (check_lock paths copy after_obtain ≡ none)
    × ((delete_lock paths copy after_obtain).0 ≡ none)
    × (check_lock paths web (delete_lock paths copy after_obtain).1 ≡ none)
unfolding program
obtain_lock-check_lock_example =
    obtain_lock-check_lock paths web web refl none (codes "restart") (codes "0.5") [] after_obtain
      copy refl (λ e. cc)
