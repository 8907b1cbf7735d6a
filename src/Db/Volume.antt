-- ===== src/Db/Volume.antt =====
-- What the database of src/db.rs stands for: a map from names to directories and files, a file being
-- the list of its bytes. The operations of `Db` as functions of this map.
pub mod Shows
pub mod Reading
pub mod Contents
pub mod Entries
pub mod Renames
pub mod Trees
pub mod RenamedTrees
pub mod Flushes
pub mod Session
pub mod Faults
use pgfs.Prelude.{
  ℕ, zero, suc, ◌+◌, ◌/◌, max, ◌^◌, ◌≤◌, ◌<◌, ◌≡◌, ◌↔◌, Bool, true, false, not, ◌&&◌, ◌||◌, Option,
  none, some, List, [], ◌∷◌, ◌++◌, arith, Str, HashKey, str_key, ◌==◌, if◌then◌else◌, length,
  get_or, nat_key,
}
use pgfs.Dict.{Dict, get, put, remove}
use pgfs.Path.{join}
use pgfs.Block.{Bytes, block_size}
use pgfs.Handle.Write.{byte_at, is_some, IsMap}
use pgfs.Db.Rows.{Kind, file, dir, FileMeta}
use pgfs.Db.Exec.{Exec, pure, ◌>>=◌, ◌>>◌}
use pgfs.Db.Replica.{getattr_primary}
use pgfs.Db.Content.{read_range, write_range, truncate, write, write_blocks_batch}
use pgfs.Db.Content.File.{read_at, write_at, resize_to, IsClean}
use pgfs.Db.Like.Plain.{is_plain}
use pgfs.Db.Names.Rmdir
use pgfs.Db.Names.Moved.Tail.{tail_of}
use pgfs.Db.Names.{create, mkdir, unlink, rmdir, rename}

pub data Node : Type 0 where
  directory : Node
  regular : Bytes → Node

pub pair_same_iff : (j k : Str × Str) → ((j.0 == k.0 && j.1 == k.1) ≡ true) ↔ (j ≡ k)
pair_same_iff (p, n) (q, m) = ground (arith, str_key.same_iff p q, str_key.same_iff n m)

instance abbrev pub pair_key : HashKey (Str × Str)
pair_key = record { same = λ j k. j.0 == k.0 && j.1 == k.1; same_iff = pair_same_iff }

-- By parent and name.
abbrev pub Volume : Type 0
Volume = Dict (Str × Str) Node

abbrev pub node : Str → Str → Volume → Option Node
node p n v = get (p, n) v

-- Some entry has the path as its parent.
unfoldable pub has_below : Str → Volume → Bool
has_below path [] = false
has_below path (((p, n), x) ∷ v) = p == path || has_below path v

-- Some entry has its parent at or below the path.
unfoldable pub has_tree : Str → Volume → Bool
has_tree path [] = false
has_tree path (((p, n), x) ∷ v) = Rmdir.is_some (tail_of path p) || has_tree path v

-- A path with `np` in place of `op`, if it is `op` or below it.
abbrev pub replaced : Str → Str → Str → Str
replaced op np a = elim (tail_of op a) [ some x ↦ np ++ x | none ↦ a ]

unfoldable pub moved_tree : Str → Str → Volume → Volume
moved_tree op np [] = []
moved_tree op np (((p, n), x) ∷ v) = ((replaced op np p, n), x) ∷ moved_tree op np v

pub data Action : Type 0 where
  creates mkdirs unlinks rmdirs stats : Str → Str → Action
  writes : Str → Str → ℕ → Bytes → Action
  truncates : Str → Str → ℕ → Action
  overwrites : Str → Str → Bytes → Action
  flushes : Str → Str → Dict ℕ Bytes → ℕ → Action
  renames : Str → Str → Str → Str → Action
  reads : Str → Str → ℕ → ℕ → Action

pub data Answer : Type 0 where
  done : Answer
  removed : Bool → Answer
  found : Option (Kind × ℕ) → Answer
  contents : Option Bytes → Answer

abbrev pub shown : Option FileMeta → Option (Kind × ℕ)
shown none = none
shown (some m) = some (m.kind, m.size)

-- An action on the database. Of the attributes the answer has the kind and the size.
abbrev pub act : Action → Exec Answer
act (creates p n) = do create p n; pure done
act (mkdirs p n) = do mkdir p n; pure done
act (unlinks p n) = do unlink p n; pure done
act (rmdirs p n) = do b ← rmdir p n; pure (removed b)
act (stats p n) = do m ← getattr_primary p n; pure (found (shown m))
act (writes p n offset buf) = do write_range p n offset buf; pure done
act (truncates p n size) = do truncate p n size; pure done
act (overwrites p n buf) = do write p n buf; pure done
act (flushes p n blocks size) = do write_blocks_batch p n blocks size; pure done
act (renames p n q m) = do rename p n q m; pure done
act (reads p n offset len) = do b ← read_range p n offset len; pure (contents b)

abbrev pub act_all : List Action → Exec (List Answer)
act_all [] = pure []
act_all (a ∷ as_) = do x ← act a; xs ← act_all as_; pure (x ∷ xs)

-- An action on a map: what is answered, and the map afterwards.
abbrev pub attributes_of : Option Node → Option (Kind × ℕ)
attributes_of none = none
attributes_of (some directory) = some (dir, 0)
attributes_of (some (regular f)) = some (file, length f)

abbrev pub bytes_of : ℕ → ℕ → Option Node → Option Bytes
bytes_of offset len none = none
bytes_of offset len (some directory) = none
bytes_of offset len (some (regular f)) = some (read_at offset len f)

abbrev pub is_there : Option Node → Bool
is_there none = false
is_there (some x) = true

abbrev pub answered : Action → Volume → Answer
answered (creates p n) v = done
answered (mkdirs p n) v = done
answered (unlinks p n) v = done
answered (rmdirs p n) v = removed (is_there (node p n v) && not (has_below (join p n) v))
answered (stats p n) v = found (attributes_of (node p n v))
answered (writes p n offset buf) v = done
answered (truncates p n size) v = done
answered (overwrites p n buf) v = done
answered (flushes p n blocks size) v = done
answered (renames p n q m) v = done
answered (reads p n offset len) v = contents (bytes_of offset len (node p n v))

-- The values of `g` from `i` on, `n` of them.
abbrev pub tabulate : ℕ → ℕ → (ℕ → ℕ) → Bytes
tabulate i zero g = []
tabulate i (suc n) g = g i ∷ tabulate (i + 1) n g

-- The file after the flush of a buffer that ends at `size`: a block of the buffer takes the place of
-- the whole block of the file.
abbrev pub flush_at : Dict ℕ Bytes → ℕ → Bytes → Bytes
flush_at blocks size f =
    tabulate 0 (max (length f) size)
      (λ i. if is_some (get (i / block_size) blocks) then byte_at blocks i else get_or f i 0)

abbrev pub added : Str → Str → Node → Option Node → Volume → Volume
added p n x none v = put (p, n) x v
added p n x (some y) v = v

abbrev pub changed : Str → Str → (Bytes → Bytes) → Option Node → Volume → Volume
changed p n f none v = v
changed p n f (some directory) v = v
changed p n f (some (regular b)) v = put (p, n) (regular (f b)) v

abbrev pub moved : Str → Str → Str → Str → Option Node → Volume → Volume
moved p n q m none v = v
moved p n q m (some (regular f)) v = put (q, m) (regular f) (remove (p, n) v)
moved p n q m (some directory) v =
    put (q, m) directory (moved_tree (join p n) (join q m) (remove (p, n) v))

abbrev pub after : Action → Volume → Volume
after (creates p n) v = added p n (regular []) (node p n v) v
after (mkdirs p n) v = added p n directory (node p n v) v
after (unlinks p n) v = remove (p, n) v
after (rmdirs p n) v = if has_below (join p n) v then v else remove (p, n) v
after (stats p n) v = v
after (writes p n offset buf) v = changed p n (write_at offset buf) (node p n v) v
after (truncates p n size) v = changed p n (resize_to size) (node p n v) v
after (overwrites p n buf) v = changed p n (λ f. buf) (node p n v) v
after (flushes p n blocks size) v = changed p n (flush_at blocks size) (node p n v) v
after (renames p n q m) v = moved p n q m (node p n v) v
after (reads p n offset len) v = v

abbrev pub answers : List Action → Volume → List Answer
answers [] v = []
answers (a ∷ as_) v = answered a v ∷ answers as_ (after a v)

abbrev pub after_all : List Action → Volume → Volume
after_all [] v = v
after_all (a ∷ as_) v = after_all as_ (after a v)

-- A regular file is there, and its bytes fit the condition.
abbrev pub IsRegular : Option Node → (Bytes → Type 0) → Type 0
IsRegular none P = ⊥
IsRegular (some directory) P = ⊥
IsRegular (some (regular f)) P = P f

abbrev pub IsNotRegular : Option Node → Type 0
IsNotRegular none = Unit {0}
IsNotRegular (some directory) = Unit {0}
IsNotRegular (some (regular f)) = ⊥

-- What a rename needs: a file goes to a name under whose path there is nothing. A directory has a
-- plain path (ASCII with no `%`, `_` or backslash, and of less than 2^32 bytes), is not moved below
-- itself, and goes to a name at and below whose path there is nothing.
pub record CanMoveDirectory (p n q m : Str) (v : Volume) : Type 0 where
  pub plain : is_plain (join p n) ≡ true
  pub short : length (join p n) < 2 ^ 32
  pub source_outside : tail_of (join p n) p ≡ none
  pub target_outside : tail_of (join p n) q ≡ none
  pub above : tail_of (join q m) q ≡ none
  pub nothing_there : has_tree (join q m) v ≡ false

-- The buffer has nothing but zeros from the place on.
abbrev pub EndsBy : Dict ℕ Bytes → ℕ → Type 0
EndsBy blocks size = (i : ℕ) → size ≤ i → byte_at blocks i ≡ 0

abbrev pub IsMovable : Str → Str → Str → Str → Option Node → Volume → Type 0
IsMovable p n q m none v = ⊥
IsMovable p n q m (some (regular f)) v = has_below (join q m) v ≡ false
IsMovable p n q m (some directory) v = CanMoveDirectory p n q m v

-- What an action needs: writes and truncations are of files, have some bytes to write, end at most
-- at 2^47 and are clean, and a `write` is of at most 2^47 bytes where the truncation to 0 is clean; a
-- flush is of a buffer with a size, of at most 2^47, for a file, with nothing
-- behind the end; a rename is to another name and as above; rmdir is not of a file; and a read
-- ends at most at 2^47.
abbrev pub IsAllowed : Action → Volume → Type 0
IsAllowed (creates p n) v = Unit {0}
IsAllowed (mkdirs p n) v = Unit {0}
IsAllowed (unlinks p n) v = Unit {0}
IsAllowed (rmdirs p n) v = IsNotRegular (node p n v)
IsAllowed (stats p n) v = Unit {0}
IsAllowed (writes p n offset buf) v =
    IsRegular (node p n v) (λ f. Unit {0}) × (0 < length buf) × (offset + length buf ≤ 2 ^ 47)
IsAllowed (truncates p n size) v = IsRegular (node p n v) (IsClean size) × (size < 2 ^ 47)
IsAllowed (overwrites p n buf) v = IsRegular (node p n v) (IsClean 0) × (length buf ≤ 2 ^ 47)
IsAllowed (flushes p n blocks size) v =
    IsRegular (node p n v) (λ f. EndsBy blocks (max (length f) size))
    × IsMap blocks
    × (0 < size)
    × (size ≤ 2 ^ 47)
IsAllowed (renames p n q m) v = ((p == q && n == m) ≡ false) × IsMovable p n q m (node p n v) v
IsAllowed (reads p n offset len) v = offset + len ≤ 2 ^ 47

abbrev pub AreAllowed : List Action → Volume → Type 0
AreAllowed [] v = Unit {0}
AreAllowed (a ∷ as_) v = IsAllowed a v × AreAllowed as_ (after a v)
