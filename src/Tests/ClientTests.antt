-- ===== src/Tests/ClientTests.antt =====
-- A program that creates, writes and reads a file through the callbacks (src/fs.rs).
use pgfs.Prelude.{List, str_beq, ◌≡◌, refl, false, some, [], ◌∷◌, codes, arith, str_key, nat_key}
use pgfs.Metrics
use pgfs.Dict.{get}
use pgfs.Path.{join}
use pgfs.Db.Rows.{find_entry}
use pgfs.Db.Exec.{Db}
use pgfs.Db.Content.File.{read_at}
use pgfs.Inodes.{path_of_ino}
use pgfs.Fs.State.{PgFs, with_attr_ttl, bytes}
use pgfs.Fs.Files
use pgfs.Fs.Entries
use pgfs.Fs.Client.ReadBack.{
  Chunk, write_all, content, counts, CanCreate, attributes, read-write_all-create,
}
use pgfs.Tests.DbTests.{one_file}

-- A server on which no statement fails, and a heartbeat that was seen at the start.
abbrev pub served : Db
served = record one_file {
  faults = [];
  metrics = record Metrics.init { last_beat_seen = 0; liveness = 0; beat_deadline_at = 30000 };
}

abbrev pub mounted : PgFs
mounted = with_attr_ttl served false 1 0 0

can_create : CanCreate 30000 1 [] (codes "b") mounted
unfolding with_attr_ttl find_entry path_of_ino join str_beq get
can_create = record {
  quiet = record {
    no_dump = refl;
    lively = record { seen = refl; same = refl; deadline = omega arith };
    no_faults = refl;
  };
  parent_path = refl;
  name = (λ e. ground (arith, e), tt);
  free = record { no_entry = refl; no_blocks = λ k. refl; table = (refl, omega arith, tt) };
  no_number = refl;
  next_number = omega arith;
  next_handle = omega arith;
}

-- Three bytes, then one over the second of them.
abbrev two_writes : List Chunk
two_writes =
    record { now_ms = 1; offset = 0; buf = 1 ∷ 2 ∷ 3 ∷ [] }
    ∷ record { now_ms = 2; offset = 1; buf = 9 ∷ [] }
    ∷ []

two_writes-content : read_at 0 10 (content two_writes []) ≡ 1 ∷ 9 ∷ 3 ∷ []
two_writes-content = refl

read-write_all-create_example :
    (fs₁ fs₂ : PgFs) × (Entries.create 0 5 1 (some (codes "b")) mounted
      ≡ (fs₁, attributes 30000 1 [] (codes "b") mounted can_create 5))
    × (write_all 2 1 two_writes fs₁ ≡ (counts two_writes, fs₂))
    × ((Files.read 3 2 1 0 10 fs₂).1 ≡ bytes (read_at 0 10 (content two_writes [])))
unfolding with_attr_ttl
read-write_all-create_example =
    read-write_all-create 30000 1 [] (codes "b") mounted can_create 0 5 3 0 10 two_writes
      (omega arith) (omega arith)
      (omega arith, omega arith, omega arith, (omega arith, omega arith, omega arith, tt))
      (omega arith)
