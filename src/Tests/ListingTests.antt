-- ===== src/Tests/ListingTests.antt =====
-- A directory that is read in pages (src/fs.rs `readdir`).
use pgfs.Prelude.{◌≡◌, refl, true, false, List, [], ◌∷◌, codes, arith}
use pgfs.Db.Rows.{file, dir, FileMeta}
use pgfs.Fs.State.{DirEntry}
use pgfs.Fs.Entries.Pages.{Full}
use pgfs.Fs.Entries.Listing.{read_dir, Children, read_dir-Children}
use pgfs.Tests.FsTests.{mounted}

abbrev children : List FileMeta
children =
    record { name = codes "a"; kind = file; size = 5; mtime = 0 }
    ∷ record { name = codes "b"; kind = dir; size = 0; mtime = 0 }
    ∷ []

-- A buffer with room for one entry, and one for any number.
abbrev narrow : Full
narrow [] e = false
narrow (x ∷ xs) e = true

abbrev wide : Full
wide added e = false

abbrev buffers : List Full
buffers = narrow ∷ narrow ∷ wide ∷ narrow ∷ []

read_dir-Children_example :
    (es : List DirEntry) × ((read_dir buffers 0 1 [] 1 children mounted).0
      ≡ record { ino = 1; offset = 1; kind = dir; name = codes "." }
        ∷ record { ino = 1; offset = 2; kind = dir; name = codes ".." }
        ∷ es)
    × Children [] 2 children es (read_dir buffers 0 1 [] 1 children mounted).1.inodes
read_dir-Children_example =
    read_dir-Children 1 [] 1 children buffers mounted
      (λ e. refl, (λ e. refl, (λ e. refl, (λ e. refl, tt)))) (omega arith)
