-- ===== src/Db/Volume/Session.antt =====
-- Sequences of actions on the database of src/db.rs, against the map that it stands for.
use pgfs.Prelude.{◌≡◌, ◌∙◌, refl, List, [], ◌∷◌}
use pgfs.Dict.{get}
use pgfs.Db.Rows.{ok, find_entry}
use pgfs.Db.Exec.{Db}
use pgfs.Db.Content.Whole.{calm, bind_ok}
use pgfs.Db.Volume.{
  Volume, Action, creates, mkdirs, unlinks, rmdirs, stats, writes, truncates, overwrites, flushes,
  renames, reads, act, act_all, answered, answers, after, after_all, IsAllowed, AreAllowed,
}
use pgfs.Db.Volume.Shows.{Represents}
use pgfs.Db.Volume.Reading.{stats-Represents, reads-Represents}
use pgfs.Db.Volume.Contents.{writes-Represents, truncates-Represents, overwrites-Represents}
use pgfs.Db.Volume.Flushes.{flushes-Represents}
use pgfs.Db.Volume.Entries.{
  creates-Represents, mkdirs-Represents, unlinks-Represents, rmdirs-Represents,
}
use pgfs.Db.Volume.RenamedTrees.{renames-Represents}

pub act-Represents :
    (a : Action) (v : Volume) (s : Db)
    → Represents v s
    → IsAllowed a v
    → (s' : Db) × (act a (calm s) ≡ (ok (answered a v), calm s')) × Represents (after a v) s'
act-Represents (creates p n) v s r i = let (e, k) = creates-Represents p n v s r in (_, e, k)
act-Represents (mkdirs p n) v s r i = let (e, k) = mkdirs-Represents p n v s r in (_, e, k)
act-Represents (unlinks p n) v s r i = unlinks-Represents p n v s r
act-Represents (rmdirs p n) v s r i = rmdirs-Represents p n v s r i
act-Represents (stats p n) v s r i = (s, stats-Represents p n v s r, r)
act-Represents (writes p n offset buf) v s r (i, some_bytes, fits) =
    writes-Represents p n offset buf some_bytes fits v s r i
act-Represents (truncates p n size) v s r (i, fits) = truncates-Represents p n size fits v s r i
act-Represents (overwrites p n buf) v s r (i, fits) = overwrites-Represents p n buf fits v s r i
act-Represents (flushes p n blocks size) v s r (ends, map_, some_size, fits) =
    flushes-Represents p n blocks size fits map_ some_size v s r ends
act-Represents (renames p n q m) v s r (different, i) = renames-Represents p n q m v s r different i
act-Represents (reads p n offset len) v s r fits = reads-Represents p n offset len v s fits r

-- Where no statement fails, and the tables hold a map of names to directories and files, any sequence
-- of allowed actions succeeds. Each is answered as the map answers it that the actions before it make,
-- and afterwards the tables hold the map that all of them make.
pub act_all-Represents :
    (as_ : List Action) (v : Volume) (s : Db)
    → Represents v s
    → AreAllowed as_ v
    → (s' : Db) × (act_all as_ (calm s) ≡ (ok (answers as_ v), calm s'))
      × Represents (after_all as_ v) s'
act_all-Represents [] v s r i = (s, refl, r)
act_all-Represents (a ∷ as_) v s r (i, is) =
    let (s₁, runs, r₁) = act-Represents a v s r i in
    let (s', runs', r') = act_all-Represents as_ (after a v) s₁ r₁ is in
    (s', bind_ok (act a) _ (calm s) runs ∙ bind_ok (act_all as_) _ (calm s₁) runs', r')

-- Empty tables hold the empty map.
pub empty-Represents : (s : Db) → s.tables.entries ≡ [] → s.tables.blocks ≡ [] → Represents [] s
unfolding get find_entry
empty-Represents s e b = record {
  keyed = rw (e) tt;
  table = rw (b) tt;
  shows = λ p n. (rw (e) refl, λ k. rw (b) refl);
}
