-- ===== src/Profiling.antt =====
-- The CPU profiler (src/profiling.rs), with the feature `profiling` compiled in. The sampler is the
-- package pprof; what it and the file system answer are arguments.
use pgfs.Prelude.{Bool, true, false, Option, none, some, List, ◌∷◌, ◌++◌, Str, codes, if◌then◌else◌}

-- The answers to the calls of one toggle: the sampler starts, it gives a report, the file of the
-- graph can be created, and the file of the samples can be written. `ts` is the time in seconds.
pub record Answers : Type 0 where
  pub starts : Bool
  pub reports : Bool
  pub creates : Bool
  pub writes : Bool
  pub ts : Str

-- `PROFILER`, and the files that were written.
pub record Profiler : Type 0 where
  pub running : Bool
  pub written : List Str

abbrev pub svg_path : Str → Str
svg_path ts = codes "/tmp/pgfs-profile-" ++ (ts ++ codes ".svg")

abbrev pub stacks_path : Str → Str
stacks_path ts = codes "/tmp/pgfs-profile-" ++ (ts ++ codes ".stacks")

abbrev add_if : Bool → Str → List Str → List Str
add_if true path paths = path ∷ paths
add_if false path paths = paths

-- The files of a profile.
unfoldable pub render : Answers → List Str → List Str
render a written = add_if a.writes (stacks_path a.ts) (add_if a.creates (svg_path a.ts) written)

-- `toggle`
unfoldable pub toggle : Answers → Profiler → Option Str × Profiler
unfolding render
toggle a p =
    if p.running
    then (if a.reports
        then (some (svg_path a.ts), record { running = false; written = render a p.written })
        else (none, record p { running = false }))
    else (none, record p { running = a.starts })
