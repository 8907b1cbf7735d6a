-- ===== src/Db/Volume/Shows.antt =====
-- When the tables of src/db.rs hold a map of names to directories and files.
use pgfs.Prelude.{
  ℕ, ◌/◌, ◌≡◌, ◌≢◌, ◌∙◌, sym, ap, refl, true, false, ◌&&◌, Option, none, some, List, [], ◌∷◌, arith,
  Str, str_key, ◌==◌, if◌then◌else◌, Bool-cases, inl, inr,
}
use pgfs.Dict.{get}
use pgfs.Block.{block_size}
use pgfs.Db.Rows.{EntryRow, FileMeta, dir, ok, row_to_meta, find_entry, has_children}
use pgfs.Db.Exec.{Db}
use pgfs.Db.Content.Stored.{stored, IsTable}
use pgfs.Db.Content.Whole.{SameEntries}
use pgfs.Db.Content.Writing.{SameElsewhere}
use pgfs.Db.Content.File.{Holds}
use pgfs.Db.Names.Moved.{IsKeyed}
use pgfs.Db.Volume.{Node, directory, regular, Volume, node, pair_key, has_below}

-- The entry of a directory, with no blocks.
pub record IsDirectory (p n : Str) (s : Db) : Type 0 where
  pub row : EntryRow
  pub attributes : FileMeta
  pub found : find_entry p n s.tables.entries ≡ some row
  pub read : row_to_meta row ≡ ok attributes
  pub is_dir : attributes.kind ≡ dir
  pub size : attributes.size ≡ 0
  pub no_blocks : (k : ℕ) → stored p n k s.tables.blocks ≡ none

abbrev pub Shows : Str → Str → Option Node → Db → Type 0
Shows p n none s =
    (find_entry p n s.tables.entries ≡ none) × ((k : ℕ) → stored p n k s.tables.blocks ≡ none)
Shows p n (some directory) s = IsDirectory p n s
Shows p n (some (regular f)) s = Holds p n f s

-- The tables hold the map, and keep their primary keys.
pub record Represents (v : Volume) (s : Db) : Type 0 where
  pub keyed : IsKeyed s.tables.entries
  pub table : IsTable s.tables.blocks
  pub shows : (p n : Str) → Shows p n (node p n v) s

-- A name that has the same rows shows the same.
pub Shows-same :
    (p n : Str) (o : Option Node) (s s' : Db)
    → find_entry p n s'.tables.entries ≡ find_entry p n s.tables.entries
    → ((k : ℕ) → stored p n k s'.tables.blocks ≡ stored p n k s.tables.blocks)
    → IsTable s'.tables.blocks
    → Shows p n o s
    → Shows p n o s'
Shows-same p n none s s' e b t (h, k) = (e ∙ h, λ i. b i ∙ k i)
Shows-same p n (some directory) s s' e b t h = record {
  row = h.row;
  attributes = h.attributes;
  found = e ∙ h.found;
  read = h.read;
  is_dir = h.is_dir;
  size = h.size;
  no_blocks = λ k. b k ∙ h.no_blocks k;
}
Shows-same p n (some (regular f)) s s' e b t h = record {
  row = h.row;
  attributes = h.attributes;
  has = record { found = e ∙ h.has.found; attributes = h.has.attributes; table = t };
  is_file = h.is_file;
  size = h.size;
  fits = h.fits;
  at_byte = λ i small. ground (arith, h.at_byte i small, b (i / block_size));
}

-- A change of one name.
pub changed-Represents :
    (p n : Str) (x : Option Node) (v v' : Volume) (s s' : Db)
    → ((q m : Str) → node q m v' ≡ (if p == q && n == m then x else node q m v))
    → SameEntries p n s.tables.entries s'.tables.entries
    → SameElsewhere p n s.tables.blocks s'.tables.blocks
    → IsKeyed s'.tables.entries
    → IsTable s'.tables.blocks
    → Shows p n x s'
    → Represents v s
    → Represents v' s'
changed-Represents p n x v v' s s' law e b k t h r = record {
  keyed = k;
  table = t;
  shows = λ q m. elim (Bool-cases (p == q && n == m)) [
    | inl same ↦
        let pq : p ≡ q = ground (arith, str_key.same_iff p q) in
        let nm : n ≡ m = ground (arith, str_key.same_iff n m) in rw (law q m, same, ← pq, ← nm) h
    | inr other ↦
        rw (law q m, other)
          (Shows-same q m (node q m v) s s' (e q m other) (λ i. b q m i other) t (r.shows q m))
  ];
}

-- An entry with the path as its parent, in the table and in the map.
has_children-find_entry :
    (path : Str) (rows : List EntryRow)
    → has_children path rows ≡ true
    → (m : Str) × (find_entry path m rows ≢ none)
unfolding has_children find_entry
has_children-find_entry path [] h = absurd (cc)
has_children-find_entry path (r ∷ rs) h = elim (Bool-cases (r.parent == path)) [
  | inl e ↦ (r.name, ground (arith, e, str_key.same_iff r.name r.name))
  | inr e ↦
      let (m, k) = has_children-find_entry path rs (ground (arith, e, h)) in
      (m, ground (arith, e, k))
]

no_children-find_entry :
    (path m : Str) (rows : List EntryRow)
    → has_children path rows ≡ false
    → find_entry path m rows ≡ none
unfolding has_children find_entry
no_children-find_entry path m [] h = refl
no_children-find_entry path m (r ∷ rs) h = ground (arith, no_children-find_entry path m rs)

has_below-node :
    (path : Str) (v : Volume) → has_below path v ≡ true → (m : Str) × (node path m v ≢ none)
unfolding has_below get
has_below-node path [] h = absurd (cc)
has_below-node path (((p, n), x) ∷ v) h = elim (Bool-cases (p == path)) [
  | inl e ↦ (n, ground (arith, e, str_key.same_iff n n))
  | inr e ↦ let (m, k) = has_below-node path v (ground (arith, e, h)) in (m, ground (arith, e, k))
]

not_below-node : (path m : Str) (v : Volume) → has_below path v ≡ false → node path m v ≡ none
unfolding has_below get
not_below-node path m [] h = refl
not_below-node path m (((p, n), x) ∷ v) h = ground (arith, not_below-node path m v)

pub Shows-is_there :
    (p n : Str) (o : Option Node) (s : Db)
    → Shows p n o s
    → (find_entry p n s.tables.entries ≡ none → o ≡ none)
      × (o ≡ none → find_entry p n s.tables.entries ≡ none)
Shows-is_there p n none s h = (λ e. refl, λ e. h.0)
Shows-is_there p n (some directory) s h = (λ e. absurd (ground (arith, e, h.found)), λ e. cc)
Shows-is_there p n (some (regular f)) s h = (λ e. absurd (ground (arith, e, h.has.found)), λ e. cc)

pub has_below-has_children :
    (path : Str) (v : Volume) (s : Db)
    → Represents v s
    → has_children path s.tables.entries ≡ has_below path v
has_below-has_children path v s r = elim (Bool-cases (has_children path s.tables.entries)) [
  | inl c ↦ elim (Bool-cases (has_below path v)) [
    | inl b ↦ c ∙ sym b
    | inr b ↦
        let (m, k) = has_children-find_entry path s.tables.entries c in
        absurd (
          k (
            (Shows-is_there path m (node path m v) s (r.shows path m)).1
              (not_below-node path m v b)))
  ]
  | inr c ↦ elim (Bool-cases (has_below path v)) [
    | inl b ↦
        let (m, k) = has_below-node path v b in
        absurd (
          k (
            (Shows-is_there path m (node path m v) s (r.shows path m)).0
              (no_children-find_entry path m s.tables.entries c)))
    | inr b ↦ c ∙ sym b
  ]
]

-- The metrics, the clock and the like do not matter.
pub tables-Represents :
    (v : Volume) (s s' : Db) → s'.tables ≡ s.tables → Represents v s → Represents v s'
tables-Represents v s s' e r =
    let entries : s'.tables.entries ≡ s.tables.entries = ap (λ t. t.entries) e in
    let blocks : s'.tables.blocks ≡ s.tables.blocks = ap (λ t. t.blocks) e in
    let table : IsTable s'.tables.blocks = rw (blocks) r.table in
    record {
      keyed = rw (entries) r.keyed;
      table = table;
      shows = λ p n.
          Shows-same p n (node p n v) s s' (ap (find_entry p n) entries)
            (λ k. ap (stored p n k) blocks) table (r.shows p n);
    }

-- Neither does the order of the map.
pub same-Represents :
    (v v' : Volume) (s : Db)
    → ((q m : Str) → node q m v' ≡ node q m v)
    → Represents v s
    → Represents v' s
same-Represents v v' s same r = record {
  keyed = r.keyed;
  table = r.table;
  shows = λ q m. rw (same q m) (r.shows q m);
}
