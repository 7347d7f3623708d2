-- ===== src/Locks/Exclusion.antt =====
-- Who holds the lock of a service, in services/serviceconfig.go.
use edward.Base.{
  ℕ, ◌≡◌, ◌≢◌, refl, sym, ap, ◌∙◌, Bool, true, Option, none, some, List, [], ◌∷◌, ok, ok_injective,
  any, arith, if◌then◌else◌, ◌==◌, Bool-cases, inl, inr, ◌⊎◌,
}
use edward.Base.Text.{Text, text_eq, text_eq_refl, eq_of_text_eq, text_eq_of_ne}
use edward.Base.Maps.{lookup, put, remove, lookup-put, lookup-remove}
use edward.Services.{ServiceConfig}
use edward.Locks.{
  Paths, LockFile, holds, unreadable, undecodable, LockError, service_locked, Disk, get_lock_path,
  check_file, check_lock, WriteFailure, create_lock, with_token, unless_locked, obtain_lock,
  remove_file, remove_unless, delete_lock, LockEvent, obtain, unlock, LockRun, drop_process,
  now_held, now_free, lock_step, lock_run,
}

abbrev pub is_holder : ℕ → List ℕ → Bool
is_holder p held = any (λ q. p == q) held

abbrev pub file_token : Option LockFile → Option Text
file_token (some (holds ls)) = some ls.token
file_token (some (unreadable e)) = none
file_token (some (undecodable e)) = none
file_token none = none

holder-drop :
    (q p : ℕ) (held : List ℕ)
    → is_holder q (drop_process p held) ≡ true
    → (p ≢ q) × (is_holder q held ≡ true)
holder-drop q p [] h = cc
holder-drop q p (x ∷ held) h = ground (arith, holder-drop q p held)

-- A service whose lock is free, or is its own.
check_file-none :
    (own : Text) (f : Option LockFile)
    → check_file own f ≡ none
    → (f ≡ none) ⊎ (file_token f ≡ some own)
unfolding check_file
check_file-none own none h = inl refl
check_file-none own (some (unreadable e)) h = cc
check_file-none own (some (undecodable e)) h = cc
check_file-none own (some (holds ls)) h = elim (Bool-cases (text_eq ls.token own)) [
  | inl e ↦ inr (ap some (eq_of_text_eq ls.token own e))
  | inr e ↦ ground arith
]

module _ (paths : Paths) (c : ServiceConfig) (token_of : ℕ → Text)
    (distinct : (p q : ℕ) → token_of p ≡ token_of q → p ≡ q)
    (fresh : (p : ℕ) → token_of p ≢ c.lock_token) where
  path : Text
  path = get_lock_path paths c

  -- Whoever holds the lock has its token in the file.
  abbrev InFile : LockRun → Type 0
  InFile r =
      (p : ℕ) → is_holder p r.holders ≡ true → file_token (lookup path r.disk) ≡ some (token_of p)

  -- Where a process with the token of the service itself may go on, nobody holds the lock.
  nobody :
      (r : LockRun)
      → InFile r
      → check_file c.lock_token (lookup path r.disk) ≡ none
      → (q : ℕ) → ¬ (is_holder q r.holders ≡ true)
  nobody r v h q m = elim (check_file-none c.lock_token (lookup path r.disk) h) [
    | inl e ↦ ground (arith, v q m)
    | inr e ↦ fresh q (ground (arith, v q m))
  ]

  obtain-InFile :
      (p : ℕ) (reason : Text) (failure : WriteFailure) (r : LockRun) (o : Option LockError)
      → InFile r
      → check_file c.lock_token (lookup path r.disk) ≡ o
      → InFile (
          now_held paths c token_of p r.holders
            (unless_locked paths failure reason (token_of p) c r.disk o))
  unfolding create_lock path
  obtain-InFile p reason failure r (some e) v h q m = v q m
  obtain-InFile p reason (some (e, file)) r none v h q m = absurd (nobody r v h q m)
  obtain-InFile p reason none r none v h q m = ground (
    arith,
    nobody r v h q,
    lookup-put path path (holds (record { reason = reason; token = token_of p })) r.disk,
    text_eq_refl path,
  )

  unlock-InFile :
      (p : ℕ) (r : LockRun) (o : Option LockError)
      → InFile r
      → check_file (token_of p) (lookup path r.disk) ≡ o
      → InFile (
          now_free paths c token_of p r.holders
            (remove_unless paths (with_token (token_of p) c) r.disk o))
  unfolding path get_lock_path
  unlock-InFile p r (some e) v h = v
  unlock-InFile p r none v h = removed (lookup path r.disk) refl
    where
      removed :
          (f : Option LockFile)
          → lookup path r.disk ≡ f
          → InFile (now_free paths c token_of p r.holders (remove_file path r.disk f))
      removed none e q m = v q m
      removed (some file) e q m =
          let (other, held) = holder-drop q p r.holders m in
          absurd (elim (check_file-none (token_of p) (lookup path r.disk) h) [
            | inl free ↦ ground (arith, v q held)
            | inr own ↦ other (distinct p q (ground (arith, v q held)))
          ])

  lock_step-InFile :
      (e : LockEvent) (r : LockRun) → InFile r → InFile (lock_step paths c token_of e r)
  unfolding lock_step path check_lock get_lock_path
  lock_step-InFile (obtain p reason failure) r v =
      obtain-InFile p reason failure r (check_lock paths c r.disk) v refl
  lock_step-InFile (unlock p) r v =
      unlock-InFile p r (check_lock paths (with_token (token_of p) c) r.disk) v refl

  lock_run-InFile :
      (es : List LockEvent) (r : LockRun) → InFile r → InFile (lock_run paths c token_of es r)
  unfolding lock_run
  lock_run-InFile [] r v = v
  lock_run-InFile (e ∷ es) r v =
      lock_run-InFile es (lock_step paths c token_of e r) (lock_step-InFile e r v)

  -- Of the processes that draw tokens of their own, two never hold the lock at once: whatever they do
  -- and whichever of their writes fail, if none of them held it at the start.
  pub lock_run-holders :
      (es : List LockEvent) (d : Disk) (p q : ℕ)
      → let r = lock_run paths c token_of es (record { disk = d; holders = [] }) in
        is_holder p r.holders ≡ true → is_holder q r.holders ≡ true → p ≡ q
  lock_run-holders es d p q h k =
      let v = lock_run-InFile es (record { disk = d; holders = [] }) (λ x m. cc) in
      distinct p q (ground (arith, v p h, v q k))

module _ (paths : Paths) (c other : ServiceConfig)
    (same : get_lock_path paths other ≡ get_lock_path paths c) where
  -- The disk after a lock with `token` was written.
  abbrev written : Text → Text → Disk → Disk
  written reason token d =
      put (get_lock_path paths c) (holds (record { reason = reason; token = token })) d

  written-check_lock :
      (reason token : Text) (d : Disk)
      → check_lock paths other (written reason token d)
        ≡ (if text_eq token other.lock_token then none else some (service_locked reason))
  unfolding check_lock check_file
  written-check_lock reason token d = rw (
    same,
    lookup-put (get_lock_path paths c) (get_lock_path paths c)
        (holds (record { reason = reason; token = token })) d,
    text_eq_refl (get_lock_path paths c),
  )

  found_written :
      (reason token : Text) (d : Disk)
      → lookup (get_lock_path paths c) (written reason token d)
        ≡ some (holds (record { reason = reason; token = token }))
  found_written reason token d = rw (
    lookup-put (get_lock_path paths c) (get_lock_path paths c)
        (holds (record { reason = reason; token = token })) d,
    text_eq_refl (get_lock_path paths c),
  )

  copy-check_lock :
      (reason token : Text) (d : Disk)
      → check_lock paths (with_token token c) (written reason token d) ≡ none
  unfolding check_lock get_lock_path
  copy-check_lock reason token d = ap (check_file token) (found_written reason token d) ∙ own_token
    where
      own_token : check_file token (some (holds (record { reason = reason; token = token }))) ≡ none
      own_token = rw (text_eq_refl token)

  copy-delete_lock :
      (reason token : Text) (d : Disk)
      → delete_lock paths (with_token token c) (written reason token d)
        ≡ (none, remove (get_lock_path paths c) (written reason token d))
  unfolding delete_lock get_lock_path
  copy-delete_lock reason token d =
      ap (remove_unless paths (with_token token c) (written reason token d))
        (copy-check_lock reason token d)
      ∙ ap (remove_file (get_lock_path paths c) (written reason token d))
          (found_written reason token d)

  freed : (d : Disk) → check_lock paths other (remove (get_lock_path paths c) d) ≡ none
  unfolding check_lock check_file
  freed d = rw (
    same,
    lookup-remove (get_lock_path paths c) (get_lock_path paths c) d,
    text_eq_refl (get_lock_path paths c),
  )

  obtained :
      (failure : WriteFailure) (reason token : Text) (d : Disk) (o : Option LockError)
      {copy : ServiceConfig} {d' : Disk}
      → unless_locked paths failure reason token c d o ≡ (ok copy, d')
      → (copy ≡ with_token token c) × (d' ≡ written reason token d)
  unfolding create_lock
  obtained failure reason token d (some e) h = cc
  obtained (some (e, file)) reason token d none h = cc
  obtained none reason token d none h =
      (sym (ok_injective (ap (λ x. x.0) h)), sym (ap (λ x. x.1) h))

  -- After ObtainLock of a service, every other copy of it, with another token, is refused with the
  -- reason that was given, the copy that ObtainLock returns is not, and once it has unlocked the
  -- others are not refused either.
  pub obtain_lock-check_lock :
      (failure : WriteFailure) (reason token : Text) (d d' : Disk) (copy : ServiceConfig)
      → obtain_lock paths failure reason token c d ≡ (ok copy, d')
      → token ≢ other.lock_token
      → (check_lock paths other d' ≡ some (service_locked reason))
        × (check_lock paths copy d' ≡ none)
        × ((delete_lock paths copy d').0 ≡ none)
        × (check_lock paths other (delete_lock paths copy d').1 ≡ none)
  unfolding obtain_lock
  obtain_lock-check_lock failure reason token d d' copy h n =
      let (e, e') = obtained failure reason token d (check_lock paths c d) h in
      rw (e, e', copy-delete_lock reason token d)
        (
          written-check_lock reason token d ∙ rw (text_eq_of_ne token other.lock_token n),
          copy-check_lock reason token d,
          refl,
          freed (written reason token d),
        )
