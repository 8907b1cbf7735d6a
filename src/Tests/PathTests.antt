-- ===== src/Tests/PathTests.antt =====
-- Paths (src/fs.rs `split_path`, src/db.rs `join`).
use pgfs.Prelude.{◌≡◌, refl, arith, codes}
use pgfs.Path.{join, split_path}
use pgfs.Path.RoundTrip.{split_path-join}

split_path_nested : split_path (codes "a/b/c/d") ≡ (codes "a/b/c", codes "d")
unfolding split_path
split_path_nested = refl

split_path-join_example : split_path (join (codes "a/b") (codes "c")) ≡ (codes "a/b", codes "c")
split_path-join_example = split_path-join (codes "a/b") (codes "c") (omega arith)
