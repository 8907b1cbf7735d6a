-- ===== src/Process/Startup/Health.antt =====
-- The health files over the life of the process (src/main.rs).
use pgfs.Prelude.{
  ℕ, Bool, take, Bool-cases, inl, inr, ◌≡◌, ◌∙◌, refl, true, false, ◌&&◌, Option, none, some, ◌++◌,
  arith, Str, codes, str_key, ◌==◌, if◌then◌else◌,
}
use pgfs.Dict.{get}
use pgfs.Process.Startup.{
  Answers, World, pid_path, ready_path, write_atomic, drop_guard, drop_guards, start, finish, run,
  main, exit_status, end_session, block_signals, signals, Written, complete, not_opened, cut_short,
  Ending, returned, returned_err, gave_up, panicked, Status, exit, aborted,
}
use pgfs.Process.Startup.Files.{
  serving, is_ended, left, paths_differ, ready_differs, get-write_atomic, get-drop_guards,
  get-start, get-run, blocked_files,
}

-- What writing a text to a file makes of it.
pub record Leaves (o : Written) (contents : Str) (before after : Option Str) : Type 0 where
  pub all : o ≡ complete → after ≡ some contents
  pub nothing : o ≡ not_opened → after ≡ before
  pub first_bytes : (k : ℕ) → o ≡ cut_short k → after ≡ some (take k contents)

-- What removing a file makes of it.
pub record Removes (can : Bool) (before after : Option Str) : Type 0 where
  pub gone : can ≡ true → after ≡ none
  pub stays : can ≡ false → after ≡ before

abbrev pub status_of : Ending → Status
status_of returned = exit 0
status_of returned_err = exit 1
status_of gave_up = exit 1
status_of panicked = aborted

-- The world in which the session serves, and the one after the process.
pub record Lives (a : Answers) (hash pid : Str) (w : World) : Type 0 where
  pub blocked :
      a.builds_set ≡ true
      → a.masks ≡ true
      → ((serving a hash pid w).blocked ≡ signals ++ w.blocked)
        × ((run a hash pid w).1.blocked ≡ signals ++ w.blocked)
  pub serving_mounted : a.mounts ≡ true → (serving a hash pid w).mounted ≡ true
  pub serving_ready :
      a.mounts ≡ true
      → Leaves
          (a.writes (ready_path hash))
          (codes "ready")
          (get (ready_path hash) w.files)
          (get (ready_path hash) (serving a hash pid w).files)
  pub serving_pid :
      Leaves
        (a.writes (pid_path hash))
        pid
        (get (pid_path hash) w.files)
        (get (pid_path hash) (serving a hash pid w).files)
  pub not_ready :
      a.mounts ≡ false
      → get (ready_path hash) (serving a hash pid w).files ≡ get (ready_path hash) w.files
  pub removed :
      (a.mounts && is_ended a.ends) ≡ false
      → Removes
          (a.removes (pid_path hash))
          (get (pid_path hash) (serving a hash pid w).files)
          (get (pid_path hash) (run a hash pid w).1.files)
        × Removes
            (a.removes (ready_path hash))
            (get (ready_path hash) (serving a hash pid w).files)
            (get (ready_path hash) (run a hash pid w).1.files)
  pub abandoned :
      (a.mounts && is_ended a.ends) ≡ true
      → (q : Str) → get q (run a hash pid w).1.files ≡ get q (serving a hash pid w).files
  pub others :
      (q : Str)
      → (pid_path hash == q) ≡ false
      → (ready_path hash == q) ≡ false
      → get q (run a hash pid w).1.files ≡ get q w.files
  pub status : (main a hash pid w).0 ≡ (if a.mounts then status_of a.ends else exit 1)

start_blocked :
    (a : Answers) (hash pid : Str) (w : World) → (start a hash pid w).1.blocked ≡ w.blocked
unfolding start write_atomic
start_blocked a hash pid w = ground arith

end_blocked :
    (a : Answers) (e : Ending) (hash : Str) (w : World)
    → (end_session a e hash w).1.blocked ≡ w.blocked
unfolding end_session drop_guards drop_guard
end_blocked a returned hash w = ground arith
end_blocked a returned_err hash w = ground arith
end_blocked a gave_up hash w = refl
end_blocked a panicked hash w = refl

finish_blocked :
    (a : Answers) (hash : Str) (o : Option World) (w : World)
    → (finish a hash (o, w)).1.blocked ≡ w.blocked
unfolding finish drop_guards drop_guard
finish_blocked a hash none w = ground arith
finish_blocked a hash (some served) w = end_blocked a a.ends hash w

run_blocked :
    (a : Answers) (hash pid : Str) (w : World)
    → a.builds_set ≡ true
    → a.masks ≡ true
    → ((serving a hash pid w).blocked ≡ signals ++ w.blocked)
      × ((run a hash pid w).1.blocked ≡ signals ++ w.blocked)
unfolding run block_signals
run_blocked a hash pid w b m =
    let begun = block_signals a w in
    let begins : begun.blocked ≡ signals ++ w.blocked = ground (arith, b, m) in
    let (served, w') = start a hash pid begun in
    let starts = start_blocked a hash pid begun in
    let ends = finish_blocked a hash served w' in
    (starts ∙ begins, ground (arith, begins, starts, ends))

end_status :
    (a : Answers) (e : Ending) (hash : Str) (w : World)
    → exit_status (end_session a e hash w).0 ≡ status_of e
unfolding end_session
end_status a returned hash w = refl
end_status a returned_err hash w = refl
end_status a gave_up hash w = refl
end_status a panicked hash w = refl

main_status :
    (a : Answers) (hash pid : Str) (w : World)
    → a.connects ≡ true
    → (main a hash pid w).0 ≡ (if a.mounts then status_of a.ends else exit 1)
unfolding main run start finish
main_status a hash pid w h = elim (Bool-cases a.mounts) [
  | inl mounts ↦ rw (h, mounts) (end_status a a.ends hash _)
  | inr mounts ↦ rw (h, mounts) refl
]

start_mounted :
    (a : Answers) (hash pid : Str) (w : World)
    → a.mounts ≡ true
    → (start a hash pid w).1.mounted ≡ true
unfolding start write_atomic
start_mounted a hash pid w h = ground arith

left-Leaves :
    (o : Written) (contents : Str) (before : Option Str)
    → Leaves o contents before (left o contents before)
left-Leaves complete contents before = record {
  all = λ e. refl;
  nothing = λ e. absurd (cc);
  first_bytes = λ k e. absurd (cc);
}
left-Leaves not_opened contents before = record {
  all = λ e. absurd (cc);
  nothing = λ e. refl;
  first_bytes = λ k e. absurd (cc);
}
left-Leaves (cut_short j) contents before = record {
  all = λ e. absurd (cc);
  nothing = λ e. absurd (cc);
  first_bytes = λ k e. cc;
}

pub run-Lives : (a : Answers) (hash pid : Str) (w : World) → a.connects ≡ true → Lives a hash pid w
run-Lives a hash pid w h =
    let pid_ = pid_path hash in
    let ready = ready_path hash in
    let self : (pid_ == pid_) ≡ true = (str_key.same_iff pid_ pid_).1 refl in
    let self' : (ready == ready) ≡ true = (str_key.same_iff ready ready).1 refl in
    let w₀ = block_signals a w in
    let at = λ (q : Str). get-start a hash pid q w₀ in
    let at_pid = λ (q : Str). get-write_atomic a pid_ pid q w₀ in
    let dropped = λ (q : Str). get-drop_guards a hash pid q (serving a hash pid w) in
    let pid_left : get pid_ (serving a hash pid w).files
        ≡ left (a.writes pid_) pid (get pid_ w.files) =
      ground (arith, at pid_, at_pid pid_, self, ready_differs hash, blocked_files a pid_ w) in
    let ready_left : a.mounts ≡ true
        → get ready (serving a hash pid w).files
          ≡ left (a.writes ready) (codes "ready") (get ready w.files) =
      λ m.
        ground
          (arith, at ready, at_pid ready, m, self', paths_differ hash, blocked_files a ready w) in
    record {
      blocked = run_blocked a hash pid w;
      serving_mounted = start_mounted a hash pid w₀;
      serving_ready = λ m. rw (ready_left m) (left-Leaves (a.writes ready) (codes "ready") _);
      serving_pid = rw pid_left (left-Leaves (a.writes pid_) pid _);
      not_ready = λ m.
          ground (arith, at ready, at_pid ready, m, paths_differ hash, blocked_files a ready w);
      removed = λ k. (
        record {
          gone = λ r. ground (arith, get-run a hash pid pid_ w h, k, dropped pid_, r, self);
          stays = λ r.
              ground (arith, get-run a hash pid pid_ w h, k, dropped pid_, r, ready_differs hash);
        },
        record {
          gone = λ r. ground (arith, get-run a hash pid ready w h, k, dropped ready, r, self');
          stays = λ r.
              ground (arith, get-run a hash pid ready w h, k, dropped ready, r, paths_differ hash);
        },
      );
      abandoned = λ k q. ground (arith, get-run a hash pid q w h, k);
      others = λ q n₁ n₂.
          ground (
            arith,
            get-run a hash pid q w h,
            dropped q,
            at q,
            at_pid q,
            blocked_files a q w,
            n₁,
            n₂,
          );
      status = main_status a hash pid w h;
    }
