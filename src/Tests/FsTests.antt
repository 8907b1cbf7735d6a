-- ===== src/Tests/FsTests.antt =====
-- The inode numbers, alone and in a session (src/fs.rs).
use pgfs.Prelude.{
  ℕ, str_beq, List, length, ap, arith, get_or, ◌+◌, ◌<◌, [], ◌∷◌, ◌≡◌, refl, none, false, some,
  codes, str_key, nat_key,
}
use pgfs.Inodes.{init, ino_for}
use pgfs.Inodes.Consistent.{IsConsistent, IsConsistent-init, Answers, ino_for-Answers}
use pgfs.Dict.{get}
use pgfs.Db.Exec.{failed}
use pgfs.Db.Rows.{ok, err, db_error}
use pgfs.Fs.State.{PgFs, with_attr_ttl, flush_handle}
use pgfs.Db.Names
use pgfs.Fs.Entries
use pgfs.Fs.Files
use pgfs.Fs.State.{callback_preamble, maybe_dump_state, resolve, handle_id}
use pgfs.Metrics.{check_liveness, fetch_add}
use pgfs.Fs.Failure.{flush_handle-err}
use pgfs.Fs.Session.{
  Call, mkdirs, flushes, dispatch, call, opens, lookups, here, next, Reach-IsConsistent,
  Reach-HasHandles,
}
use pgfs.Fs.ReadOnly.{dispatch-only_reads}
use pgfs.Metrics.Histogram.{empty, sum, count_in}
use pgfs.Fs.Latency.{Served, serve_all, durations, serve_all_lem}
use pgfs.Tests.DbTests.{one_file}

ino_for-Answers_example :
    Answers (codes "a") init (ino_for (codes "a") init).0 (ino_for (codes "a") init).1
ino_for-Answers_example = ino_for-Answers (codes "a") init IsConsistent-init

abbrev pub mounted : PgFs
mounted = with_attr_ttl one_file false 1 0 0

abbrev make_directory : Call
make_directory = mkdirs 0 1 (some (codes "b"))

Reach-IsConsistent_example : IsConsistent (dispatch make_directory mounted).0.inodes
Reach-IsConsistent_example =
    Reach-IsConsistent one_file false 1 0 0 (dispatch make_directory mounted).0
      (next here (call make_directory mounted))

-- A handle with one dirty block, and a server that fails at once.
abbrev failing : PgFs
failing = record mounted {
  db = record one_file { faults = failed ∷ [] };
  open_handles =
      (1, record { parent = []; name = codes "a"; dirty_blocks = (0, 9 ∷ []) ∷ []; max_size = 1 })
      ∷ [];
}

failing_flush : (flush_handle 1 failing).0 ≡ err db_error
unfolding flush_handle get
failing_flush = refl

flush_handle-err_example :
    (get 1 (flush_handle 1 failing).1.open_handles ≡ none)
    × (flush_handle 1 (flush_handle 1 failing).1 ≡ (ok tt, (flush_handle 1 failing).1))
flush_handle-err_example = flush_handle-err 1 failing db_error failing_flush

-- After the root is opened.
abbrev root_opened : PgFs
root_opened = (dispatch (opens 0 1) mounted).0

Reach-HasHandles_example :
    (get 0 root_opened.open_handles ≡ none)
    × (get root_opened.next_fh root_opened.open_handles ≡ none)
    × ((i fh : ℕ)
        → get i root_opened.open_handles_by_ino ≡ some fh
        → (0 < fh) × (fh < root_opened.next_fh))
Reach-HasHandles_example =
    Reach-HasHandles one_file false 1 0 0 root_opened (next here (call (opens 0 1) mounted))

-- A look-up under the root, on a server that fails at once.
abbrev look_up : Call
look_up = lookups 0 1 (some (codes "a"))

dispatch-only_reads_example : (dispatch look_up failing).0.db.tables ≡ failing.db.tables
dispatch-only_reads_example = dispatch-only_reads look_up failing refl

-- A new directory in 120 microseconds, and a flush of nothing in 5.
abbrev timed : List (ℕ × Call)
timed = (120, make_directory) ∷ (5, flushes 0 2 9) ∷ []

abbrev started : Served
started = record { fs = mounted; fuse_latency = empty }

durations-timed : durations timed mounted ≡ 120 ∷ []
unfolding dispatch Entries.mkdir Files.flush callback_preamble maybe_dump_state check_liveness
    resolve ino_for with_attr_ttl str_beq Names.mkdir fetch_add handle_id
durations-timed = refl

serve_all_lem_example :
    ((b : ℕ)
      → get_or (serve_all timed started).fuse_latency b 0
        ≡ get_or empty b 0 + count_in b (durations timed mounted))
    × (sum (serve_all timed started).fuse_latency ≡ sum empty + length (durations timed mounted))
unfolding sum
serve_all_lem_example = serve_all_lem timed started refl (omega (arith, ap length durations-timed))
