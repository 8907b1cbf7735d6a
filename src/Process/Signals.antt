-- ===== src/Process/Signals.antt =====
-- The signal-waiter thread (src/main.rs).
pub mod Stop
use pgfs.Prelude.{
  ℕ, ◌+◌, ◌≡◌, refl, Bool, true, false, ◌||◌, Option, List, [], ◌∷◌, ◌++◌, arith, if◌then◌else◌,
}
use pgfs.Profiling
use pgfs.Profiling.{Profiler, Answers, toggle}

pub data Signal : Type 0 where
  sigint sigterm sighup sigusr1 sigusr2 other : Signal

-- What a call of `sigwait` gives.
pub data Waited : Type 0 where
  failed : Waited
  got : Signal → Answers → Waited

-- The thread, with what it shares with the others: the calls of `unmount`, the flag for a state
-- dump, and the profiler.
pub record Waiter : Type 0 where
  pub running : Bool
  pub unmounts : ℕ
  pub dump_requested : Bool
  pub profiler : Profiler

abbrev end_by_signal : Waiter → Waiter
end_by_signal w = record w { running = false; unmounts = w.unmounts + 1 }

unfoldable pub handle : Signal → Answers → Waiter → Waiter
unfolding toggle
handle sigint a w = end_by_signal w
handle sigterm a w = end_by_signal w
handle sighup a w = end_by_signal w
handle sigusr1 a w = record w { dump_requested = true }
handle sigusr2 a w = record w { profiler = (toggle a w.profiler).1 }
handle other a w = w

-- One round of the loop, which a failed `sigwait` leaves.
unfoldable pub wait : Waiter → Waited → Waiter
unfolding handle
wait w failed = record w { running = false }
wait w (got s a) = handle s a w

unfoldable pub run : Waiter → List Waited → Waiter
unfolding wait
run w [] = w
run w (x ∷ xs) = let rest = run (wait w x) xs in if w.running then rest else w
