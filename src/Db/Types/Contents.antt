-- ===== src/Db/Types/Contents.antt =====
-- The operations of src/db.rs on contents keep the types of the columns.
use pgfs.Prelude.{
  ℕ, zero, suc, ◌+◌, ◌/◌, ◌%◌, max, Bool, true, false, Option, none, some, List, [], ◌∷◌, arith,
  Str, if◌then◌else◌, Each, Each-map, length, ltb, u32_mod, add64, as_i32,
}
use pgfs.Dict.{Dict}
use pgfs.Block.{Bytes, block_size}
use pgfs.Db.Rows.{
  EntryRow, BlockRow, FileMeta, file, dir, Kind, is_entry, update_size, upsert_block, prune_blocks,
}
use pgfs.Db.Exec.{Exec, pure, update}
use pgfs.Db.Replica.{getattr_primary}
use pgfs.Db.Content.{
  write_range, write_rounds, write_block, set_size, truncate, truncate_meta, shrink, patch_boundary,
  upsert_all, write_blocks_batch, write, size_or_zero,
}
use pgfs.Db.Keeps.{
  keeps_rules, Keeps, Keeps-if, Keeps-pure, Keeps-raise, Keeps-gets, Keeps-update, Keeps-bind,
  Keeps-transaction, Keeps-bind-Yields, Yields,
}
use pgfs.Db.Types.{IsSize, IsTyped, AreTyped, getattr_primary-Keeps, getattr_primary-Yields}

sized-IsTyped :
    (b : Bool) (size now : ℕ) (r : EntryRow)
    → IsSize size
    → IsTyped r
    → IsTyped (if b then record r { size = size; mtime = now } else r)
sized-IsTyped true size now r small (kind, h) = (kind, small)
sized-IsTyped false size now r small h = h

update_size-Each :
    (p n : Str) (size now : ℕ) (rows : List EntryRow)
    → IsSize size
    → Each IsTyped rows
    → Each IsTyped (update_size p n size now rows)
unfolding update_size
update_size-Each p n size now rows small h =
    Each-map IsTyped (λ r. if is_entry p n r then record r { size = size; mtime = now } else r)
      (λ r k. sized-IsTyped (is_entry p n r) size now r small k) rows h

set_size-Keeps : (p n : Str) (size : ℕ) → IsSize size → Keeps AreTyped (set_size p n size)
unfolding set_size
set_size-Keeps p n size small = Keeps-bind AreTyped _ _ (Keeps-gets AreTyped _) (λ now.
    Keeps-update AreTyped (λ t. record t { entries = update_size p n size now t.entries })
      (λ t h. update_size-Each p n size now t.entries small h))

upsert-Keeps :
    (p n : Str) (b : ℕ) (bytes : Bytes)
    → Keeps AreTyped (update (λ t. record t { blocks = upsert_block p n b bytes t.blocks }))
upsert-Keeps p n b bytes = Keeps-update AreTyped _ (λ t h. h)

write_block-Keeps :
    (p n : Str) (offset end : ℕ) (buf : Bytes) (b : ℕ)
    → Keeps AreTyped (write_block p n offset end buf b)
unfolding write_block
write_block-Keeps p n offset end buf b = search (keeps_rules, upsert-Keeps) depth 8

write_rounds-Keeps :
    (k : ℕ) (p n : Str) (offset end : ℕ) (buf : Bytes) (b : ℕ)
    → Keeps AreTyped (write_rounds k p n offset end buf b)
unfolding write_rounds
write_rounds-Keeps zero p n offset end buf b = Keeps-pure AreTyped tt
write_rounds-Keeps (suc k) p n offset end buf b =
    Keeps-bind AreTyped _ _ (write_block-Keeps p n offset end buf b)
      (λ _. write_rounds-Keeps k p n offset end buf ((b + 1) % u32_mod))

max-IsSize : (a b : ℕ) → IsSize a → IsSize b → IsSize (max a b)
max-IsSize a b h k = omega arith

add64-IsSize : (a b : ℕ) → IsSize (a + b) → IsSize (add64 a b)
add64-IsSize a b h = ground arith

pub write_range-Keeps :
    (p n : Str) (offset : ℕ) (buf : Bytes)
    → IsSize (offset + length buf)
    → Keeps AreTyped (write_range p n offset buf)
unfolding write_range
write_range-Keeps p n offset [] small = Keeps-pure AreTyped tt
write_range-Keeps p n offset (x ∷ xs) small =
    Keeps-bind-Yields AreTyped _ _ _ (getattr_primary-Keeps p n) (getattr_primary-Yields p n)
      λ meta is_size. Keeps-transaction AreTyped _ (
        Keeps-bind AreTyped _ _ (write_rounds-Keeps _ p n offset _ (x ∷ xs) _) (λ _.
          set_size-Keeps p n _ (
            max-IsSize (size_or_zero meta) _ is_size
              (add64-IsSize offset (length (x ∷ xs)) small))))

patch_boundary-Keeps :
    (p n : Str) (b rem : ℕ) (rows : List BlockRow) → Keeps AreTyped (patch_boundary p n b rem rows)
patch_boundary-Keeps p n b rem [] = Keeps-pure AreTyped tt
patch_boundary-Keeps p n b rem (r ∷ rs) = upsert-Keeps p n b _

shrink-Keeps : (p n : Str) (size : ℕ) → Keeps AreTyped (shrink p n size)
unfolding shrink
shrink-Keeps p n size =
    Keeps-bind AreTyped _ _
      (Keeps-update AreTyped
        (λ t. record t { blocks = prune_blocks p n (as_i32 (size / block_size)) t.blocks })
        (λ t h. h))
      (λ _. search (keeps_rules, patch_boundary-Keeps) depth 8)

Keeps-kind :
    (k : Kind) (m o : Exec (Unit {0}))
    → Keeps AreTyped m
    → Keeps AreTyped o
    → Keeps AreTyped (elim k [ dir ↦ m | file ↦ o ])
Keeps-kind dir m o hm ho = hm
Keeps-kind file m o hm ho = ho

truncate_meta-Keeps :
    (p n : Str) (size : ℕ) (o : Option FileMeta)
    → IsSize size
    → Keeps AreTyped (truncate_meta p n size o)
unfolding truncate_meta
truncate_meta-Keeps p n size none small = Keeps-raise AreTyped _
truncate_meta-Keeps p n size (some m) small = Keeps-kind m.kind _ _ (Keeps-raise AreTyped _) (
    Keeps-transaction AreTyped _ (
      Keeps-bind AreTyped _ _
        (Keeps-if AreTyped _ _ _ (shrink-Keeps p n size) (Keeps-pure AreTyped tt))
        (λ _. set_size-Keeps p n size small)))

pub truncate-Keeps : (p n : Str) (size : ℕ) → IsSize size → Keeps AreTyped (truncate p n size)
unfolding truncate
truncate-Keeps p n size small =
    Keeps-bind AreTyped _ _ (getattr_primary-Keeps p n)
      (λ meta. truncate_meta-Keeps p n size meta small)

pub write-Keeps : (p n : Str) (buf : Bytes) → IsSize (length buf) → Keeps AreTyped (write p n buf)
unfolding write
write-Keeps p n buf small =
    Keeps-bind AreTyped _ _ (truncate-Keeps p n 0 (omega arith))
      (λ _. write_range-Keeps p n 0 buf (omega arith))

upsert_all-Keeps : (p n : Str) (blocks : Dict ℕ Bytes) → Keeps AreTyped (upsert_all p n blocks)
unfolding upsert_all
upsert_all-Keeps p n [] = Keeps-pure AreTyped tt
upsert_all-Keeps p n ((k, v) ∷ blocks) =
    Keeps-bind AreTyped _ _ (upsert-Keeps p n k v) (λ _. upsert_all-Keeps p n blocks)

optional-Yields :
    (p n : Str) (b : Bool)
    → Yields (λ o. IsSize (size_or_zero o)) (if b then getattr_primary p n else pure none)
optional-Yields p n true = getattr_primary-Yields p n
optional-Yields p n false = record { at = λ s o e. ground (arith, e) }

pub write_blocks_batch-Keeps :
    (p n : Str) (blocks : Dict ℕ Bytes) (size : ℕ)
    → IsSize size
    → Keeps AreTyped (write_blocks_batch p n blocks size)
unfolding write_blocks_batch
write_blocks_batch-Keeps p n blocks size small = Keeps-if AreTyped _ _ _ (Keeps-pure AreTyped tt) (
    Keeps-bind-Yields AreTyped _ _ _
      (Keeps-if AreTyped (ltb 0 size) _ _ (getattr_primary-Keeps p n) (Keeps-pure AreTyped none))
      (optional-Yields p n (ltb 0 size))
      λ meta is_size. Keeps-transaction AreTyped _ (
        Keeps-bind AreTyped _ _ (upsert_all-Keeps p n blocks) (λ _.
          Keeps-if AreTyped _ _ _
            (set_size-Keeps p n _ (max-IsSize (size_or_zero meta) size is_size small))
            (Keeps-pure AreTyped tt))))
