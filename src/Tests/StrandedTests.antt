-- ===== src/Tests/StrandedTests.antt =====
-- A file that is renamed while its handle has buffered data (src/fs.rs).
use pgfs.Prelude.{ℕ, ◌≡◌, refl, none, some, [], ◌∷◌, codes, arith, str_key, str_beq, nat_key}
use pgfs.Dict.{get}
use pgfs.Path.{join, starts_with}
use pgfs.Handle.{HandleBuffer}
use pgfs.Db.Rows.{find_entry, has_children}
use pgfs.Db.Content.Stored.{stored}
use pgfs.Db.Content.File.{Holds}
use pgfs.Inodes.{path_of_ino}
use pgfs.Fs.State.{PgFs, with_attr_ttl, done}
use pgfs.Fs.Files
use pgfs.Fs.Entries
use pgfs.Fs.Stranded.{CanRename, HasBuffer, flush-rename}
use pgfs.Fs.Client.Buffer.{Holds_same}
use pgfs.Tests.DbTests.{one_file}
use pgfs.Tests.FileTests.{five, one_file-Holds}
use pgfs.Tests.ClientTests.{served, mounted}

abbrev buffer : HandleBuffer
buffer = record { parent = []; name = codes "a"; dirty_blocks = (0, 9 ∷ []) ∷ []; max_size = 1 }

-- The handle 1 is open on the file `a`, with one byte written.
abbrev writing : PgFs
writing = record mounted { next_fh = 2; open_handles = (1, buffer) ∷ [] }

writing-HasBuffer : HasBuffer [] (codes "a") 1 buffer writing
unfolding get
writing-HasBuffer = record {
  held = refl;
  numbered = refl;
  parent = refl;
  name = refl;
  keys = (refl, omega arith, tt);
  some_size = omega arith;
}

can_rename : CanRename 30000 1 [] (codes "a") 1 [] (codes "b") five writing
unfolding with_attr_ttl find_entry has_children path_of_ino join starts_with str_beq get
can_rename = record {
  quiet = record {
    no_dump = refl;
    lively = record { seen = refl; same = refl; deadline = omega arith };
    no_faults = refl;
  };
  old_parent = refl;
  new_parent = refl;
  differ = refl;
  outside = refl;
  source = Holds_same [] (codes "a") five one_file served refl one_file-Holds;
  target = record { no_entry = refl; no_blocks = λ k. refl; table = (refl, omega arith, tt) };
  keyed = (refl, tt);
  nothing_below = refl;
}

flush-rename_example :
    (fs₁ fs₂ : PgFs) × (Entries.rename 0 1 (some (codes "a")) 1 (some (codes "b")) 0 writing
      ≡ (fs₁, done))
    × (Files.flush 1 2 1 fs₁ ≡ (fs₂, done))
    × Holds [] (codes "b") five fs₂.db
    × (find_entry [] (codes "a") fs₂.db.tables.entries ≡ none)
    × ((k : ℕ) → stored [] (codes "a") k fs₂.db.tables.blocks ≡ get k ((0, 9 ∷ []) ∷ []))
flush-rename_example =
    flush-rename 30000 1 [] (codes "a") 1 [] (codes "b") five writing can_rename 0 1 2 1 buffer
      (omega arith) (omega arith) writing-HasBuffer
