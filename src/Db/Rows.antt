-- ===== src/Db/Rows.antt =====
-- The tables `entries` and `blocks`, and the SQL statements of src/db.rs as functions of their rows.
-- The column `entries.data` is always empty and is left out. A `bigint` is its bit pattern.
use pgfs.Prelude.{
  ℕ, ◌^◌, Bool, false, ◌&&◌, ◌||◌, not, Option, none, some, List, [], ◌∷◌, ◌++◌, map, Str, codes,
  str_key, ◌==◌, nat_beq, leb, i32_leb, if◌then◌else◌, filterb,
}
use pgfs.Block.{Bytes}

pub data Kind : Type 0 where
  file dir : Kind

pub record FileMeta : Type 0 where
  pub name : Str
  pub kind : Kind
  pub size : ℕ
  pub mtime : ℕ

pub record EntryRow : Type 0 where
  pub parent : Str
  pub name : Str
  pub kind : Str
  pub size : ℕ
  pub mtime : ℕ

pub record BlockRow : Type 0 where
  pub parent : Str
  pub name : Str
  pub block_no : ℕ
  pub bytes : Bytes

pub record Tables : Type 0 where
  pub entries : List EntryRow
  pub blocks : List BlockRow

-- Why an operation failed: a statement did, or the check of the source that the name says.
pub data Error : Type 0 where
  db_error unexpected_kind negative_size not_a_file no_source target_not_empty zero_rows : Error

-- `panic` stands for the end of the process.
pub data Result {ℓ} (A : Type ℓ) : Type ℓ where
  ok : A → Result A
  err : Error → Result A
  panic : Result A

-- WHERE parent = $1 AND name = $2
abbrev pub is_entry : Str → Str → EntryRow → Bool
is_entry parent name r = r.parent == parent && r.name == name

abbrev pub is_block_of : Str → Str → BlockRow → Bool
is_block_of parent name r = r.parent == parent && r.name == name

unfoldable pub row_to_meta : EntryRow → Result FileMeta
row_to_meta r =
    if r.kind == codes "file"
    then sized file
    else if r.kind == codes "dir"
    then sized dir
    else err unexpected_kind
  where
    sized : Kind → Result FileMeta
    sized k =
        if leb (2 ^ 63) r.size
        then err negative_size
        else ok (record { name = r.name; kind = k; size = r.size; mtime = r.mtime })

-- SELECT … FROM entries WHERE parent = $1 AND name = $2
unfoldable pub find_entry : Str → Str → List EntryRow → Option EntryRow
find_entry parent name [] = none
find_entry parent name (r ∷ rs) =
    if is_entry parent name r then some r else find_entry parent name rs

-- SELECT … FROM entries WHERE parent = $1 ORDER BY name, in the order of the server's collation
unfoldable pub insert_by_name : (Str → Str → Bool) → EntryRow → List EntryRow → List EntryRow
insert_by_name le r [] = r ∷ []
insert_by_name le r (x ∷ xs) =
    let rest = insert_by_name le r xs in if le r.name x.name then r ∷ x ∷ xs else x ∷ rest

unfoldable pub children : (Str → Str → Bool) → Str → List EntryRow → List EntryRow
unfolding insert_by_name
children le parent [] = []
children le parent (r ∷ rs) =
    let rest = children le parent rs in
    if r.parent == parent then insert_by_name le r rest else rest

-- SELECT 1 FROM entries WHERE parent = $1 LIMIT 1
unfoldable pub has_children : Str → List EntryRow → Bool
has_children parent [] = false
has_children parent (r ∷ rs) = r.parent == parent || has_children parent rs

-- INSERT INTO entries … VALUES ($1, $2, kind, '', 0) ON CONFLICT (parent, name) DO NOTHING
unfoldable pub insert_entry : Str → Str → Str → ℕ → List EntryRow → List EntryRow
unfolding find_entry
insert_entry parent name kind now rows = elim (find_entry parent name rows) [
  | some _ ↦ rows
  | none ↦ rows ++ record { parent = parent; name = name; kind = kind; size = 0; mtime = now } ∷ []
]

-- DELETE FROM entries WHERE parent = $1 AND name = $2
unfoldable pub delete_entry : Str → Str → List EntryRow → List EntryRow
delete_entry parent name rows = filterb (λ r. not (is_entry parent name r)) rows

-- UPDATE entries SET size = $3, mtime = now() WHERE parent = $1 AND name = $2
unfoldable pub update_size : Str → Str → ℕ → ℕ → List EntryRow → List EntryRow
update_size parent name size now rows =
    map (λ r. if is_entry parent name r then record r { size = size; mtime = now } else r) rows

-- SELECT block_no, data FROM blocks WHERE … AND block_no >= $3 AND block_no <= $4 ORDER BY block_no
unfoldable pub insert_by_no : BlockRow → List BlockRow → List BlockRow
insert_by_no r [] = r ∷ []
insert_by_no r (x ∷ xs) =
    let rest = insert_by_no r xs in if i32_leb r.block_no x.block_no then r ∷ x ∷ xs else x ∷ rest

unfoldable pub read_blocks : Str → Str → ℕ → ℕ → List BlockRow → List BlockRow
unfolding insert_by_no
read_blocks parent name first last [] = []
read_blocks parent name first last (r ∷ rs) =
    let rest = read_blocks parent name first last rs in
    if is_block_of parent name r && (i32_leb first r.block_no && i32_leb r.block_no last)
    then insert_by_no r rest
    else rest

-- INSERT INTO blocks … ON CONFLICT (parent, name, block_no) DO UPDATE SET data = EXCLUDED.data
unfoldable pub upsert_block : Str → Str → ℕ → Bytes → List BlockRow → List BlockRow
upsert_block parent name b_no bytes [] =
    record { parent = parent; name = name; block_no = b_no; bytes = bytes } ∷ []
upsert_block parent name b_no bytes (r ∷ rs) =
    if is_block_of parent name r && nat_beq r.block_no b_no
    then record r { bytes = bytes } ∷ rs
    else r ∷ upsert_block parent name b_no bytes rs

-- DELETE FROM blocks WHERE parent = $1 AND name = $2 AND block_no > $3
unfoldable pub prune_blocks : Str → Str → ℕ → List BlockRow → List BlockRow
prune_blocks parent name last rows =
    filterb (λ r. not (is_block_of parent name r && not (i32_leb r.block_no last))) rows

-- DELETE FROM blocks WHERE parent = $1 AND name = $2
unfoldable pub delete_blocks : Str → Str → List BlockRow → List BlockRow
delete_blocks parent name rows = filterb (λ r. not (is_block_of parent name r)) rows

unfoldable pub any {ℓ} : {R : Type ℓ} → (R → Bool) → List R → Bool
any p [] = false
any p (r ∷ rs) = p r || any p rs

-- UPDATE … SET … WHERE …, row by row; `none` is the violation of the primary key, which Postgres
-- checks at each row against the rows as they stand.
unfoldable pub update_rows {ℓ} :
    {R : Type ℓ} → (R → R → Bool) → (R → Bool) → (R → R) → List R → List R → Option (List R)
unfolding any
update_rows same hit set done [] = some done
update_rows same hit set done (r ∷ rs) =
    let next = update_rows same hit set (done ++ (if hit r then set r else r) ∷ []) rs in
    if hit r && (any (same (set r)) done || any (same (set r)) rs) then none else next

abbrev pub same_entry : EntryRow → EntryRow → Bool
same_entry r s = r.parent == s.parent && r.name == s.name

abbrev pub same_block : BlockRow → BlockRow → Bool
same_block r s = (r.parent == s.parent && r.name == s.name) && nat_beq r.block_no s.block_no
