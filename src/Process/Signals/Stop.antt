-- ===== src/Process/Signals/Stop.antt =====
-- What the signal-waiter thread has done when it stops (src/main.rs).
use pgfs.Prelude.{
  append_nil, ◌+◌, ◌≡◌, ◌∙◌, sym, ap, refl, Bool, true, false, ◌||◌, List, [], ◌∷◌, ◌++◌, arith,
  if◌then◌else◌,
}
use pgfs.Profiling.{Profiler, toggle}
use pgfs.Process.Signals.{
  sigint, sigterm, sighup, sigusr1, sigusr2, other, Waited, failed, got, Waiter, handle, wait, run,
}

-- Whether the loop ends with this round.
abbrev pub is_last : Waited → Bool
is_last failed = true
is_last (got sigint a) = true
is_last (got sigterm a) = true
is_last (got sighup a) = true
is_last (got sigusr1 a) = false
is_last (got sigusr2 a) = false
is_last (got other a) = false

abbrev pub any_last : List Waited → Bool
any_last [] = false
any_last (x ∷ xs) = is_last x || any_last xs

abbrev pub is_dump : Waited → Bool
is_dump failed = false
is_dump (got sigint a) = false
is_dump (got sigterm a) = false
is_dump (got sighup a) = false
is_dump (got sigusr1 a) = true
is_dump (got sigusr2 a) = false
is_dump (got other a) = false

abbrev pub any_dump : List Waited → Bool
any_dump [] = false
any_dump (x ∷ xs) = is_dump x || any_dump xs

-- The profiler after the toggles that the signals ask for.
abbrev pub toggled : List Waited → Profiler → Profiler
toggled [] p = p
toggled (got sigusr2 a ∷ xs) p = toggled xs (toggle a p).1
toggled (got sigint a ∷ xs) p = toggled xs p
toggled (got sigterm a ∷ xs) p = toggled xs p
toggled (got sighup a ∷ xs) p = toggled xs p
toggled (got sigusr1 a ∷ xs) p = toggled xs p
toggled (got other a ∷ xs) p = toggled xs p
toggled (failed ∷ xs) p = toggled xs p

-- The thread after rounds none of which is the last.
abbrev pub continued : List Waited → Waiter → Waiter
continued xs w = record w {
  dump_requested = w.dump_requested || any_dump xs;
  profiler = toggled xs w.profiler;
}

or_false : (b : Bool) → (b || false) ≡ b
or_false true = refl
or_false false = refl

or_true : (b : Bool) → (b || true) ≡ true
or_true true = refl
or_true false = refl

run-stopped : (xs : List Waited) (w : Waiter) → w.running ≡ false → run w xs ≡ w
unfolding run
run-stopped [] w h = refl
run-stopped (x ∷ xs) w h = ground arith

run_step :
    (x : Waited) (xs : List Waited) (w : Waiter)
    → w.running ≡ true
    → run w (x ∷ xs) ≡ run (wait w x) xs
unfolding run
run_step x xs w h = ap (λ b. if b then run (wait w x) xs else w) h

run-continued :
    (xs ys : List Waited) (w : Waiter)
    → w.running ≡ true
    → any_last xs ≡ false
    → run w (xs ++ ys) ≡ run (continued xs w) ys
unfolding run wait handle
run-continued [] ys w h l =
    ap (λ b. run (record w { dump_requested = b }) ys) (sym (or_false w.dump_requested))
run-continued (failed ∷ xs) ys w h l = absurd (cc)
run-continued (got sigint a ∷ xs) ys w h l = absurd (cc)
run-continued (got sigterm a ∷ xs) ys w h l = absurd (cc)
run-continued (got sighup a ∷ xs) ys w h l = absurd (cc)
run-continued (got sigusr1 a ∷ xs) ys w h l =
    run_step (got sigusr1 a) (xs ++ ys) w h
    ∙ run-continued xs ys (record w { dump_requested = true }) h l
    ∙ ap (λ b. run (record (continued xs w) { dump_requested = b }) ys)
        (sym (or_true w.dump_requested))
run-continued (got sigusr2 a ∷ xs) ys w h l =
    run_step (got sigusr2 a) (xs ++ ys) w h
    ∙ run-continued xs ys (record w { profiler = (toggle a w.profiler).1 }) h l
run-continued (got other a ∷ xs) ys w h l =
    run_step (got other a) (xs ++ ys) w h ∙ run-continued xs ys w h l

-- What the last round does: a signal to end unmounts, a failed wait does not.
abbrev pub stopped : Waited → Waiter → Waiter
stopped failed w = record w { running = false }
stopped (got s a) w = record w { running = false; unmounts = w.unmounts + 1 }

wait_last : (x : Waited) (w : Waiter) → is_last x ≡ true → wait w x ≡ stopped x w
unfolding wait handle
wait_last failed w h = refl
wait_last (got sigint a) w h = refl
wait_last (got sigterm a) w h = refl
wait_last (got sighup a) w h = refl
wait_last (got sigusr1 a) w h = absurd (cc)
wait_last (got sigusr2 a) w h = absurd (cc)
wait_last (got other a) w h = absurd (cc)

stopped_running : (x : Waited) (w : Waiter) → (stopped x w).running ≡ false
stopped_running failed w = refl
stopped_running (got s a) w = refl

run_last :
    (x : Waited) (ys : List Waited) (w : Waiter)
    → w.running ≡ true
    → is_last x ≡ true
    → run w (x ∷ ys) ≡ stopped x w
run_last x ys w h l =
    run_step x ys w h
    ∙ ap (λ v. run v ys) (wait_last x w l)
    ∙ run-stopped ys (stopped x w) (stopped_running x w)

-- The thread runs on over signals that do not end it, each request for a dump sets the flag, and each
-- SIGUSR2 toggles the profiler. The first signal to end unmounts, once, and a failed wait ends the
-- thread without; what comes after either is not handled.
pub run_lem :
    (xs : List Waited) (x : Waited) (ys : List Waited) (w : Waiter)
    → w.running ≡ true
    → any_last xs ≡ false
    → is_last x ≡ true
    → (run w xs ≡ continued xs w) × (run w (xs ++ x ∷ ys) ≡ stopped x (continued xs w))
unfolding run
run_lem xs x ys w h l last = (
  ap (run w) (sym (append_nil xs)) ∙ run-continued xs [] w h l,
  run-continued xs (x ∷ ys) w h l ∙ run_last x ys (continued xs w) h last,
)
