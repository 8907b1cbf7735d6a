-- ===== src/Tests/ProcessTests.antt =====
-- The process: its threads, its files, its connections and its errors (src/main.rs, src/db.rs,
-- src/error.rs, src/metrics.rs).
use pgfs.Prelude.{
  ℕ, map, Option, ◌↔◌, ◌≡◌, refl, arith, true, false, none, some, List, [], ◌∷◌, ◌++◌, Str, codes,
  str_key,
}
use pgfs.Metrics.{init}
use pgfs.Metrics.Fallback.{warnings, events_of, warnings_lem}
use pgfs.Profiling.{Answers}
use pgfs.Process.Watchdog.{polling, unmounted, Round, run, run-flagged}
use pgfs.Process.Signals
use pgfs.Process.Signals.{Waited, failed, got, sigint, sigterm, sigusr1, sigusr2, Waiter}
use pgfs.Process.Signals.Stop.{continued, stopped, run_lem}
use pgfs.Process.Startup
use pgfs.Process.Startup.{World, returned, complete}
use pgfs.Process.Startup.Health.{Lives, run-Lives}
use pgfs.Process.Panic.{Surroundings, report}
use pgfs.Story.{
  Anyhow, Location, success, trouble, failure, ctx_all, read_place, places, ctx_all-failure,
}
use pgfs.Db.Pool.{Driver, connect_opts}
use pgfs.Db.Pool.Replica.{with_replica, Reaches, connect_opts-with_replica}

abbrev seen : Round
seen = record { flag = true; unmounts = true }

abbrev busy : Round
busy = record { flag = true; unmounts = false }

abbrev idle : Round
idle = record { flag = false; unmounts = false }

-- The third attempt succeeds.
run-flagged_example :
    (run polling (idle ∷ idle ∷ []) ≡ polling)
    × (run polling (idle ∷ idle ∷ seen ∷ busy ∷ busy ∷ seen ∷ busy ∷ busy ∷ []) ≡ unmounted)
run-flagged_example =
    run-flagged (idle ∷ idle ∷ []) seen (busy ∷ busy ∷ seen ∷ busy ∷ busy ∷ []) refl refl
      (omega arith)

abbrev works : Answers
works = record { starts = true; reports = true; creates = true; writes = true; ts = codes "17" }

abbrev waiting : Waiter
waiting = record {
  running = true;
  unmounts = 0;
  dump_requested = false;
  profiler = record { running = false; written = [] };
}

abbrev asked : List Waited
asked = got sigusr2 works ∷ got sigusr1 works ∷ []

run_lem_example :
    (Signals.run waiting asked ≡ continued asked waiting)
    × (Signals.run waiting (asked ++ got sigterm works ∷ got sigint works ∷ [])
        ≡ stopped (got sigterm works) (continued asked waiting))
run_lem_example = run_lem asked (got sigterm works) (got sigint works ∷ []) waiting refl refl refl

abbrev all_well : Startup.Answers
all_well = record {
  builds_set = true;
  masks = true;
  connects = true;
  mounts = true;
  ends = returned;
  writes = λ path. complete;
  removes = λ path. true;
}

abbrev empty_world : World
empty_world = record { files = []; mounted = false; threads = []; blocked = [] }

run-Lives_example : Lives all_well (codes "00") (codes "42") empty_world
run-Lives_example = run-Lives all_well (codes "00") (codes "42") empty_world refl

-- An error as its chain of messages.
abbrev chains : Anyhow
chains = record {
  Error = List Str;
  anyhow = λ message. message ∷ [];
  context = λ message e. message ∷ e;
  chain = λ e. e;
  chain-anyhow = λ message. refl;
  chain-context = λ message e. refl;
}

abbrev here : Location
here = record { file = codes "src/db.rs"; line = codes "63" }

ctx_all-failure_example :
    (ctx_all chains {A = ℕ} ((codes "save", here) ∷ []) (success 3) ≡ success 3)
    × ((e : List Str) × (ctx_all chains {A = ℕ}
            ((codes "save", here) ∷ [])
            (trouble (failure chains (codes "full") here))
          ≡ trouble e)
        × (map read_place e ≡ places ((codes "save", here) ∷ (codes "full", here) ∷ [])))
ctx_all-failure_example =
    ctx_all-failure chains ((codes "save", here) ∷ []) 3 (codes "full") here ((refl, refl), tt)
      (refl, refl)

-- A driver whose servers take connections, where the string is not empty.
abbrev driver : Driver
driver = record {
  Config = Str;
  Pool = Str;
  Client = Str;
  parse = λ s. elim s [ [] ↦ none | c ∷ rest ↦ some (c ∷ rest) ];
  build = λ customizer max_size config. some config;
  get = λ pool. some pool;
  prepare = λ client sql. true;
}

connect_opts-with_replica_example :
    (o : Option Str) × (connect_opts driver (codes "dbname=pgfs") (some (codes "port=1")) false
      ≡ with_replica driver o (connect_opts driver (codes "dbname=pgfs") none false))
    × ((c : Str) → (o ≡ some c) ↔ Reaches driver (some (codes "port=1")) c)
connect_opts-with_replica_example =
    connect_opts-with_replica driver (codes "dbname=pgfs") (some (codes "port=1")) false

warnings_lem_example : warnings (events_of (3 ∷ 0 ∷ 1 ∷ [])) init ≡ 2
warnings_lem_example = warnings_lem (3 ∷ 0 ∷ 1 ∷ []) init refl

abbrev cold : Surroundings
cold = record {
  version = some (codes "0.1.0");
  rustc = none;
  os = codes "linux";
  arch = codes "x86_64";
  rust_backtrace = none;
  backtrace = codes "disabled";
}

no_payload :
    (report (record { location = none; str_payload = none; string_payload = none }) cold).1
    ≡ codes
        "pgfs (panic): unknown:0: <non-string payload>\npgfs v0.1.0 on linux/x86_64, built with unknown, RUST_BACKTRACE=unset\nBacktrace:\ndisabled"
unfolding report
no_payload = refl
