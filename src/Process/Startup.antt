-- ===== src/Process/Startup.antt =====
-- The start and the end of the process (src/main.rs `run`). What the database, the kernel and the
-- file system answer is an argument.
pub mod Files
pub mod Health
use pgfs.Prelude.{
  ℕ, Bool, true, false, Option, none, some, List, [], ◌∷◌, ◌++◌, Str, codes, str_key, if◌then◌else◌,
  not, take,
}
use pgfs.Dict.{Dict, put, remove}
use pgfs.Process.Signals.{Signal, sigint, sigterm, sighup, sigusr1, sigusr2}

-- What `std::fs::write` did, which creates or empties the file before it writes: all of it, nothing, or
-- it broke off after some bytes of the text.
pub data Written : Type 0 where
  complete not_opened : Written
  cut_short : ℕ → Written

-- How the session ends: `session.run()` returns, without or with an error; the watchdog gives up and
-- calls `process::exit(1)`; or a thread panics, which aborts the process.
pub data Ending : Type 0 where
  returned returned_err gave_up panicked : Ending

-- The answers: the signal set is built, the signals are blocked, `Db::connect_opts` and
-- `fuser::Session::new` succeed, how the session ends, what writing a file does, and whether a file can
-- be removed. The threads can be started.
pub record Answers : Type 0 where
  pub builds_set : Bool
  pub masks : Bool
  pub connects : Bool
  pub mounts : Bool
  pub ends : Ending
  pub writes : Str → Written
  pub removes : Str → Bool

pub data Thread : Type 0 where
  liveness metrics_export deadlock_watchdog signal_waiter : Thread

-- The files outside of the mounted tree, whether it is mounted, the threads that were started, and the
-- signals that are blocked.
pub record World : Type 0 where
  pub files : Dict Str Str
  pub mounted : Bool
  pub threads : List Thread
  pub blocked : List Signal

-- The exit status of the process.
pub data Status : Type 0 where
  exit : ℕ → Status
  aborted : Status

pub data Stage : Type 0 where
  connecting mounting serving : Stage

-- `run` returns, with the step that failed if one did, or the process ends before.
pub data Outcome : Type 0 where
  done : Outcome
  failed_at : Stage → Outcome
  ended : Status → Outcome

-- `mountpoint_hash` is the standard library's hash, and stands for the number in the names.
abbrev pub pid_path : Str → Str
pid_path hash = codes "/tmp/pgfs-" ++ (hash ++ codes ".pid")

abbrev pub ready_path : Str → Str
ready_path hash = codes "/tmp/pgfs-" ++ (hash ++ codes ".ready")

abbrev pub signals : List Signal
signals = sigint ∷ sigterm ∷ sighup ∷ sigusr1 ∷ sigusr2 ∷ []

-- The signals are blocked before anything else; a failure is only logged.
unfoldable pub block_signals : Answers → World → World
block_signals a w =
    if not a.builds_set
    then w
    else if not a.masks
    then w
    else record w { blocked = signals ++ w.blocked }

unfoldable pub write_file : Written → Str → Str → World → World
unfolding put
write_file complete path contents w = record w { files = put path contents w.files }
write_file not_opened path contents w = w
write_file (cut_short k) path contents w = record w { files = put path (take k contents) w.files }

-- `write_atomic`: a failure is only logged.
unfoldable pub write_atomic : Answers → Str → Str → World → World
unfolding write_file
write_atomic a path contents w = write_file (a.writes path) path contents w

-- The drop of a `FileGuard`.
unfoldable pub drop_guard : Answers → Str → World → World
unfolding remove
drop_guard a path w = if a.removes path then record w { files = remove path w.files } else w

-- The drops at the end of `run`: the guards in the reverse of their order.
unfoldable pub drop_guards : Answers → Str → World → World
unfolding drop_guard
drop_guards a hash w = drop_guard a (pid_path hash) (drop_guard a (ready_path hash) w)

-- `run` up to the call of `session.run()`, once the database is connected; `none` if the mount fails.
unfoldable pub start : Answers → Str → Str → World → Option World × World
unfolding write_atomic
start a hash pid w =
    let w₁ = write_atomic a (pid_path hash) pid w in
    if a.mounts
    then (let w₂ =
          write_atomic a (ready_path hash) (codes "ready") (record w₁ { mounted = true }) in
        let w₃ = record w₂ {
          threads = liveness ∷ metrics_export ∷ deadlock_watchdog ∷ signal_waiter ∷ w₂.threads;
        } in
        (some w₃, w₃))
    else (none, w₁)

-- The end of the session. Where `session.run()` returns, what `run` owns is dropped: the session first.
-- Where the process ends before, nothing is dropped, and the mount is left to `AutoUnmount`.
unfoldable pub end_session : Answers → Ending → Str → World → Outcome × World
unfolding drop_guards
end_session a returned hash w = (done, drop_guards a hash (record w { mounted = false }))
end_session a returned_err hash w =
    (failed_at serving, drop_guards a hash (record w { mounted = false }))
end_session a gave_up hash w = (ended (exit 1), w)
end_session a panicked hash w = (ended aborted, w)

unfoldable pub finish : Answers → Str → Option World × World → Outcome × World
unfolding drop_guards end_session
finish a hash (none, w) = (failed_at mounting, drop_guards a hash w)
finish a hash (some served, w) = end_session a a.ends hash w

unfoldable pub run : Answers → Str → Str → World → Outcome × World
unfolding block_signals start finish
run a hash pid w =
    let w₀ = block_signals a w in
    if a.connects then finish a hash (start a hash pid w₀) else (failed_at connecting, w₀)

-- The exit status of `main`.
abbrev pub exit_status : Outcome → Status
exit_status done = exit 0
exit_status (failed_at stage) = exit 1
exit_status (ended status) = status

unfoldable pub main : Answers → Str → Str → World → Status × World
unfolding run
main a hash pid w = let (outcome, w') = run a hash pid w in (exit_status outcome, w')
