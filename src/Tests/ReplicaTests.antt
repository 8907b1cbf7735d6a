-- ===== src/Tests/ReplicaTests.antt =====
-- The standby's verdict and the paths that LIKE finds (src/db.rs).
use pgfs.Prelude.{ℕ, ◌-◌, ◌<◌, ◌≡◌, refl, arith, true, some, none, [], ◌∷◌, ◌++◌, Str, codes}
use pgfs.Db.Rows.{ok}
use pgfs.Db.Replica.{
  freshness_ttl_ms, replica_fresh_cached, replica_fresh, valid_verdict, caught_up,
}
use pgfs.Db.Freshness.{Query, ask, cache, WasFresh, ask-WasFresh}
use pgfs.Db.Like.{is_descendant, moved_parent}
use pgfs.Db.Like.Plain.{is_below, is_descendant_lem}
use pgfs.Tests.DbTests.{one_file}

-- A standby at position 9 and one that does not answer, behind a primary at position 8.
abbrev ahead : Query
ahead = record {
  now_ms = 1000;
  server = record one_file {
    primary_lsn = some 8;
    replica = some (record { in_recovery = some true; replay_lsn = some (some 9); rows = none });
  };
}

abbrev silent : Query
silent = record {
  now_ms = 1499;
  server = record one_file {
    primary_lsn = some 8;
    replica = some (record { in_recovery = none; replay_lsn = none; rows = none });
  };
}

silent_answers_true : (ask silent (cache (ahead ∷ []))).0 ≡ ok true
unfolding replica_fresh_cached replica_fresh valid_verdict caught_up
silent_answers_true = refl

ask-WasFresh_example :
    (t : ℕ) × WasFresh t (silent ∷ ahead ∷ []) × (silent.now_ms - t < freshness_ttl_ms)
ask-WasFresh_example = ask-WasFresh silent (ahead ∷ []) silent_answers_true

is_descendant_lem_example :
    ((s : Str)
      → is_descendant (codes "ab") s ≡ true
      → (t : Str) × (s ≡ codes "ab" ++ t) × (is_below t ≡ true))
    × ((t : Str) → is_descendant (codes "ab") (codes "ab" ++ t) ≡ is_below t)
    × ((new t : Str) → moved_parent (codes "ab") new (codes "ab" ++ t) ≡ new ++ t)
is_descendant_lem_example = is_descendant_lem (codes "ab") refl (omega arith)
