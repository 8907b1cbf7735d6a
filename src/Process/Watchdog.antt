-- ===== src/Process/Watchdog.antt =====
-- The deadlock watchdog (src/main.rs): the thread that unmounts once a callback has flagged a stalled
-- heartbeat.
use pgfs.Prelude.{
  ℕ, zero, suc, ◌+◌, ◌≤◌, ◌≡◌, refl, Bool, true, false, ◌||◌, List, [], ◌∷◌, ◌++◌, arith, leb,
  if◌then◌else◌, length, take,
}

-- Where the thread is: it polls the flag; it has made some attempts to unmount; it has left its loop;
-- or it has ended the process.
pub data Watch : Type 0 where
  polling : Watch
  attempting : ℕ → Watch
  unmounted : Watch
  exited : Watch

-- What the thread meets in one round: the value of `DEADLOCK_DETECTED`, and whether a call of
-- `unmount` succeeds.
pub record Round : Type 0 where
  pub flag : Bool
  pub unmounts : Bool

abbrev pub max_attempts : ℕ
max_attempts = 5

-- The attempt after `attempts` that failed.
unfoldable pub attempt : ℕ → Bool → Watch
attempt attempts true = unmounted
attempt attempts false =
    if leb max_attempts (attempts + 1) then exited else attempting (attempts + 1)

-- One round; there is a sleep of 500 ms between two rounds.
unfoldable pub step : Watch → Round → Watch
unfolding attempt
step polling r = if r.flag then attempting 0 else polling
step (attempting attempts) r = attempt attempts r.unmounts
step unmounted r = unmounted
step exited r = exited

unfoldable pub run : Watch → List Round → Watch
unfolding step
run w [] = w
run w (r ∷ rs) = run (step w r) rs

abbrev pub any_unmounts : List Round → Bool
any_unmounts [] = false
any_unmounts (r ∷ rs) = r.unmounts || any_unmounts rs

abbrev pub any_flag : List Round → Bool
any_flag [] = false
any_flag (r ∷ rs) = r.flag || any_flag rs

run-append : (w : Watch) (rs ss : List Round) → run w (rs ++ ss) ≡ run (run w rs) ss
unfolding run
run-append w [] ss = refl
run-append w (r ∷ rs) ss = run-append (step w r) rs ss

run-polling : (rs : List Round) → any_flag rs ≡ false → run polling rs ≡ polling
unfolding run step
run-polling [] h = refl
run-polling (r ∷ rs) h = ground (arith, run-polling rs)

run-unmounted : (rs : List Round) → run unmounted rs ≡ unmounted
unfolding run step
run-unmounted [] = refl
run-unmounted (r ∷ rs) = run-unmounted rs

run-exited : (rs : List Round) → run exited rs ≡ exited
unfolding run step
run-exited [] = refl
run-exited (r ∷ rs) = run-exited rs

-- With `n` attempts left, and at least one.
run-attempting :
    (n k : ℕ) (rs : List Round)
    → k + suc n ≡ max_attempts
    → suc n ≤ length rs
    → run (attempting k) rs ≡ (if any_unmounts (take (suc n) rs) then unmounted else exited)
unfolding run step attempt
run-attempting n k [] e h = absurd (omega arith)
run-attempting zero k (r ∷ rs) e h = ground (arith, run-unmounted rs, run-exited rs)
run-attempting (suc n) k (r ∷ rs) e h =
    ground (arith, run-unmounted rs, run-attempting n (k + 1) rs)

-- While the flag is down the watchdog only polls, however long. Once it finds the flag up, it is done
-- within five further rounds: it has unmounted if one of the five attempts succeeds, and has ended
-- the process if none does.
pub run-flagged :
    (quiet : List Round) (r : Round) (rs : List Round)
    → any_flag quiet ≡ false
    → r.flag ≡ true
    → max_attempts ≤ length rs
    → (run polling quiet ≡ polling)
      × (run polling (quiet ++ r ∷ rs)
          ≡ (if any_unmounts (take max_attempts rs) then unmounted else exited))
unfolding run step
run-flagged quiet r rs q up h =
    let still = run-polling quiet q in
    (still, rw (run-append polling quiet (r ∷ rs), still, up) (run-attempting 4 0 rs refl h))
