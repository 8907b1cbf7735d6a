-- ===== src/Process/Startup/Files.antt =====
-- What the steps of `run` (src/main.rs) make of the files.
use pgfs.Prelude.{
  Bool, take, ◌≡◌, ◌∙◌, ap, sym, refl, true, false, ◌&&◌, ◌||◌, Option, none, some, [], ◌∷◌, ◌++◌,
  arith, Str, codes, str_key, ◌==◌, if◌then◌else◌, str_beq,
}
use pgfs.Dict.{get, get-put, get-remove}
use pgfs.Process.Startup.{
  Answers, World, pid_path, ready_path, write_atomic, drop_guard, drop_guards, start, finish, run,
  end_session, write_file, block_signals, connecting, failed_at, Written, complete, not_opened,
  cut_short, Ending, returned, returned_err, gave_up, panicked,
}

str_beq-append : (xs ys zs : Str) → str_beq (xs ++ ys) (xs ++ zs) ≡ str_beq ys zs
unfolding str_beq
str_beq-append [] ys zs = refl
str_beq-append (x ∷ xs) ys zs = ground (arith, str_beq-append xs ys zs)

pub paths_differ : (hash : Str) → (pid_path hash == ready_path hash) ≡ false
unfolding str_beq
paths_differ hash = str_beq-append hash (codes ".pid") (codes ".ready")

pub ready_differs : (hash : Str) → (ready_path hash == pid_path hash) ≡ false
unfolding str_beq
ready_differs hash = str_beq-append hash (codes ".ready") (codes ".pid")

-- What a file holds after a write.
abbrev pub left : Written → Str → Option Str → Option Str
left complete contents before = some contents
left not_opened contents before = before
left (cut_short k) contents before = some (take k contents)

get-write_file :
    (o : Written) (path contents q : Str) (w : World)
    → get q (write_file o path contents w).files
      ≡ (if path == q then left o contents (get q w.files) else get q w.files)
unfolding write_file
get-write_file complete path contents q w = get-put path q contents w.files
get-write_file not_opened path contents q w = ground arith
get-write_file (cut_short k) path contents q w = get-put path q (take k contents) w.files

pub get-write_atomic :
    (a : Answers) (path contents q : Str) (w : World)
    → get q (write_atomic a path contents w).files
      ≡ (if path == q then left (a.writes path) contents (get q w.files) else get q w.files)
unfolding write_atomic
get-write_atomic a path contents q w = get-write_file (a.writes path) path contents q w

get-drop_guard :
    (a : Answers) (path q : Str) (w : World)
    → get q (drop_guard a path w).files
      ≡ (if a.removes path && path == q then none else get q w.files)
unfolding drop_guard
get-drop_guard a path q w = ground (arith, get-remove path q w.files)

-- The world in which the session serves, if it is mounted.
abbrev pub serving : Answers → Str → Str → World → World
serving a hash pid w = (start a hash pid (block_signals a w)).1

pub blocked_files :
    (a : Answers) (q : Str) (w : World) → get q (block_signals a w).files ≡ get q w.files
unfolding block_signals
blocked_files a q w = ground arith

-- The process ends while the session serves, before `run` returns.
abbrev pub is_ended : Ending → Bool
is_ended returned = false
is_ended returned_err = false
is_ended gave_up = true
is_ended panicked = true

abbrev pub is_some {ℓ} : {A : Type ℓ} → Option A → Bool
is_some none = false
is_some (some x) = true

module _ (a : Answers) (hash pid : Str) where
  -- The files before `finish`, where the file system is mounted or not.
  pub get-start :
      (q : Str) (w : World)
      → get q (start a hash pid w).1.files ≡ (
          if a.mounts && ready_path hash == q
          then left
              (a.writes (ready_path hash))
              (codes "ready")
              (get q (write_atomic a (pid_path hash) pid w).files)
          else get q (write_atomic a (pid_path hash) pid w).files)
  unfolding start
  get-start q w = ground (
    arith,
    get-write_atomic a (ready_path hash) (codes "ready") q
        (record (write_atomic a (pid_path hash) pid w) { mounted = true }),
  )

  pub get-drop_guards :
      (q : Str) (w : World)
      → get q (drop_guards a hash w).files ≡ (
          if (a.removes (pid_path hash) && pid_path hash == q)
            || (a.removes (ready_path hash) && ready_path hash == q)
          then none
          else get q w.files)
  unfolding drop_guards
  get-drop_guards q w = ground (
    arith,
    get-drop_guard a (pid_path hash) q (drop_guard a (ready_path hash) w),
    get-drop_guard a (ready_path hash) q w,
  )

  get-end_session :
      (e : Ending) (q : Str) (w : World)
      → get q (end_session a e hash w).1.files
        ≡ (if is_ended e then get q w.files else get q (drop_guards a hash w).files)
  unfolding end_session
  get-end_session returned q w =
      get-drop_guards q (record w { mounted = false }) ∙ sym (get-drop_guards q w)
  get-end_session returned_err q w =
      get-drop_guards q (record w { mounted = false }) ∙ sym (get-drop_guards q w)
  get-end_session gave_up q w = refl
  get-end_session panicked q w = refl

  get-finish :
      (q : Str) (o : Option World) (w : World)
      → get q (finish a hash (o, w)).1.files ≡ (
          if is_some o && is_ended a.ends
          then get q w.files
          else get q (drop_guards a hash w).files)
  unfolding finish
  get-finish q none w = refl
  get-finish q (some served) w = get-end_session a.ends q w

  start_mounts : (w : World) → is_some (start a hash pid w).0 ≡ a.mounts
  unfolding start
  start_mounts w = ground arith

  pub get-run :
      (q : Str) (w : World)
      → a.connects ≡ true
      → get q (run a hash pid w).1.files ≡ (
          if a.mounts && is_ended a.ends
          then get q (serving a hash pid w).files
          else get q (drop_guards a hash (serving a hash pid w)).files)
  unfolding run
  get-run q w h =
      ap
        (λ b.
          get q
            (if b
              then finish a hash (start a hash pid (block_signals a w))
              else (failed_at connecting, block_signals a w)).1.files)
        h
      ∙ get-finish q (start a hash pid (block_signals a w)).0 (serving a hash pid w)
      ∙ ap
          (λ b.
            if b && is_ended a.ends
            then get q (serving a hash pid w).files
            else get q (drop_guards a hash (serving a hash pid w)).files)
          (start_mounts (block_signals a w))
