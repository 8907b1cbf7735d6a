-- ===== src/Db/Keys/Contents.antt =====
-- The operations of src/db.rs on contents keep the primary keys.
use pgfs.Prelude.{
  zero, suc, as_i32, ℕ, ◌+◌, ◌%◌, ◌<◌, ◌≡◌, refl, Bool, Option, none, some, List, [], ◌∷◌, arith,
  Str, str_key, if◌then◌else◌, Bool-cases, inl, inr, u32_mod, ltb,
}
use pgfs.Dict.{Dict}
use pgfs.Block.{Bytes}
use pgfs.Db.Rows.{
  EntryRow, BlockRow, FileMeta, file, dir, Kind, find_entry, is_entry, update_size, upsert_block,
}
use pgfs.Db.Exec.{Exec, pure, ◌>>◌, update}
use pgfs.Db.Content.{
  write_range, write_rounds, write_block, set_size, truncate, truncate_meta, shrink, patch_boundary,
  upsert_all, write_blocks_batch, write,
}
use pgfs.Db.Names.Moved.{IsKeyed}
use pgfs.Db.Content.Stored.{upsert_block-IsTable}
use pgfs.Db.Content.Shrink.{prune_blocks-IsTable}
use pgfs.Db.Keeps.{
  keeps_rules, Keeps, Keeps-if, Keeps-pure, Keeps-raise, Keeps-gets, Keeps-update, Keeps-bind,
  Keeps-transaction,
}
use pgfs.Db.Keys.{HasKeys, getattr_primary-Keeps}

update_size-none :
    (p n : Str) (size now : ℕ) (q m : Str) (rows : List EntryRow)
    → find_entry q m rows ≡ none
    → find_entry q m (update_size p n size now rows) ≡ none
unfolding update_size find_entry
update_size-none p n size now q m [] h = refl
update_size-none p n size now q m (r ∷ rs) h = ground (arith, update_size-none p n size now q m rs)

update_size-IsKeyed :
    (p n : Str) (size now : ℕ) (rows : List EntryRow)
    → IsKeyed rows
    → IsKeyed (update_size p n size now rows)
unfolding update_size
update_size-IsKeyed p n size now [] k = tt
update_size-IsKeyed p n size now (r ∷ rs) (k, ks) = elim (Bool-cases (is_entry p n r)) [
  | inl e ↦
      rw (e)
        (update_size-none p n size now r.parent r.name rs k, update_size-IsKeyed p n size now rs ks)
  | inr e ↦
      rw (e)
        (update_size-none p n size now r.parent r.name rs k, update_size-IsKeyed p n size now rs ks)
]

set_size-Keeps : (p n : Str) (size : ℕ) → Keeps HasKeys (set_size p n size)
unfolding set_size
set_size-Keeps p n size =
    Keeps-bind HasKeys _ _ (Keeps-gets HasKeys _)
      (λ now. Keeps-update HasKeys _ (λ t h. (update_size-IsKeyed p n size now t.entries h.0, h.1)))

upsert-Keeps :
    (p n : Str) (b : ℕ) (bytes : Bytes)
    → b < u32_mod
    → Keeps HasKeys (update (λ t. record t { blocks = upsert_block p n b bytes t.blocks }))
upsert-Keeps p n b bytes small =
    Keeps-update HasKeys _ (λ t h. (h.0, upsert_block-IsTable p n b bytes t.blocks small h.1))

write_block-Keeps :
    (p n : Str) (offset end : ℕ) (buf : Bytes) (b : ℕ)
    → b < u32_mod
    → Keeps HasKeys (write_block p n offset end buf b)
unfolding write_block
write_block-Keeps p n offset end buf b small = search (keeps_rules, upsert-Keeps) depth 8

write_rounds-Keeps :
    (k : ℕ) (p n : Str) (offset end : ℕ) (buf : Bytes) (b : ℕ)
    → b < u32_mod
    → Keeps HasKeys (write_rounds k p n offset end buf b)
unfolding write_rounds
write_rounds-Keeps zero p n offset end buf b small = Keeps-pure HasKeys tt
write_rounds-Keeps (suc k) p n offset end buf b small =
    Keeps-bind HasKeys _ _ (write_block-Keeps p n offset end buf b small)
      (λ _. write_rounds-Keeps k p n offset end buf ((b + 1) % u32_mod) (omega arith))

as_i32-lt : (x : ℕ) → as_i32 x < u32_mod
as_i32-lt x = ground arith

pub write_range-Keeps :
    (p n : Str) (offset : ℕ) (buf : Bytes) → Keeps HasKeys (write_range p n offset buf)
unfolding write_range
write_range-Keeps p n offset [] = Keeps-pure HasKeys tt
write_range-Keeps p n offset (x ∷ xs) =
    search (keeps_rules, getattr_primary-Keeps, write_rounds-Keeps, set_size-Keeps, as_i32-lt) depth
      8

patch_boundary-Keeps :
    (p n : Str) (b rem : ℕ) (rows : List BlockRow)
    → b < u32_mod
    → Keeps HasKeys (patch_boundary p n b rem rows)
patch_boundary-Keeps p n b rem [] small = Keeps-pure HasKeys tt
patch_boundary-Keeps p n b rem (r ∷ rs) small = upsert-Keeps p n b _ small

shrink-Keeps : (p n : Str) (size : ℕ) → Keeps HasKeys (shrink p n size)
unfolding shrink
shrink-Keeps p n size =
    Keeps-bind HasKeys _ _
      (Keeps-update HasKeys _ (λ t h. (h.0, prune_blocks-IsTable p n _ t.blocks h.1)))
      (λ _. search (keeps_rules, patch_boundary-Keeps, as_i32-lt) depth 8)

Keeps-kind :
    (k : Kind) (m o : Exec (Unit {0}))
    → Keeps HasKeys m
    → Keeps HasKeys o
    → Keeps HasKeys (elim k [ dir ↦ m | file ↦ o ])
Keeps-kind dir m o hm ho = hm
Keeps-kind file m o hm ho = ho

truncate_meta-Keeps :
    (p n : Str) (size : ℕ) (o : Option FileMeta) → Keeps HasKeys (truncate_meta p n size o)
unfolding truncate_meta
truncate_meta-Keeps p n size none = Keeps-raise HasKeys _
truncate_meta-Keeps p n size (some m) =
    Keeps-kind m.kind _ _ (Keeps-raise HasKeys _)
      (search (keeps_rules, shrink-Keeps, set_size-Keeps) depth 8)

pub truncate-Keeps : (p n : Str) (size : ℕ) → Keeps HasKeys (truncate p n size)
unfolding truncate
truncate-Keeps p n size = search (keeps_rules, getattr_primary-Keeps, truncate_meta-Keeps)

pub write-Keeps : (p n : Str) (buf : Bytes) → Keeps HasKeys (write p n buf)
unfolding write
write-Keeps p n buf =
    Keeps-bind HasKeys _ _ (truncate-Keeps p n 0) (λ _. write_range-Keeps p n 0 buf)

-- The keys of a map of blocks are `i32`.
abbrev pub AreI32 : Dict ℕ Bytes → Type 0
AreI32 [] = Unit {0}
AreI32 ((k, v) ∷ m) = (k < u32_mod) × AreI32 m

upsert_all-Keeps :
    (p n : Str) (blocks : Dict ℕ Bytes) → AreI32 blocks → Keeps HasKeys (upsert_all p n blocks)
unfolding upsert_all
upsert_all-Keeps p n [] i = Keeps-pure HasKeys tt
upsert_all-Keeps p n ((k, v) ∷ blocks) (small, i) =
    Keeps-bind HasKeys _ _ (upsert-Keeps p n k v small) (λ _. upsert_all-Keeps p n blocks i)

batch_body-Keeps :
    (p n : Str) (blocks : Dict ℕ Bytes) (sized : Bool) (size : ℕ)
    → AreI32 blocks
    → Keeps HasKeys (do upsert_all p n blocks; if sized then set_size p n size else pure tt)
batch_body-Keeps p n blocks sized size i =
    Keeps-bind HasKeys _ _ (upsert_all-Keeps p n blocks i)
      (λ _. Keeps-if HasKeys _ _ _ (set_size-Keeps p n size) (Keeps-pure HasKeys tt))

pub write_blocks_batch-Keeps :
    (p n : Str) (blocks : Dict ℕ Bytes) (size : ℕ)
    → AreI32 blocks
    → Keeps HasKeys (write_blocks_batch p n blocks size)
unfolding write_blocks_batch
write_blocks_batch-Keeps p n blocks size i =
    search
      (
        Keeps-if,
        Keeps-pure,
        Keeps-bind,
        Keeps-transaction,
        getattr_primary-Keeps,
        batch_body-Keeps p n blocks (ltb 0 size) _ i,
      )
      depth 10
